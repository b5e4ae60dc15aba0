-- ===== src/Calculations/Actions/Frame.antt =====
-- What the steps of an action in test-suites/helpers/utils/calculations.ts leave alone.
use mathlib.Core.Option.{some-injective}
use rasa_lending_platform_sm.Prelude.{◌≡◌, refl, sym, ◌∙◌, subst, arith, Option, none, some}
use rasa_lending_platform_sm.Prelude.Int.{ℤ, ◌+ℤ◌, ◌-ℤ◌}
use rasa_lending_platform_sm.Prelude.Result.{ok, >>=-eq-ok, defined}
use rasa_lending_platform_sm.Types.{SymbolMap, ReserveParams}
use rasa_lending_platform_sm.Calculations.Data.{ReserveData}
use rasa_lending_platform_sm.Calculations.Rates.{calc_expected_usage_ratios}
use rasa_lending_platform_sm.Calculations.State.{
  update_state, set_usage_ratios, update_liquidity_and_usage_ratios,
  update_total_liquidity_and_usage_ratio, set_rates, finish_reserve,
}

-- The liquidity and the unbacked amount are the same.
abbrev pub Frame : ReserveData → ReserveData → Type 0
Frame x e =
    (e.available_liquidity ≡ x.available_liquidity)
    × (e.unbacked ≡ x.unbacked)
    × (e.total_liquidity ≡ x.total_liquidity)

-- The total liquidity and the usage ratios are those of the liquidity and the debts.
pub record IsCoherent (e : ReserveData) : Type 0 where
  pub available : ℤ
  pub unbacked : ℤ
  pub stable : ℤ
  pub variable : ℤ
  pub ratios : ℤ × ℤ
  pub available_eq : e.available_liquidity ≡ some available
  pub unbacked_eq : e.unbacked ≡ some unbacked
  pub total_eq : e.total_liquidity ≡ some (available +ℤ unbacked)
  pub stable_eq : e.total_stable_debt ≡ some stable
  pub variable_eq : e.total_variable_debt ≡ some variable
  pub ratios_eq :
      calc_expected_usage_ratios stable variable available (available +ℤ unbacked) ≡ ok ratios
  pub borrow_eq : e.borrow_usage_ratio ≡ some ratios.0
  pub supply_eq : e.supply_usage_ratio ≡ some ratios.1

pub defined-eq-ok {ℓ} : {A : Type ℓ} (o : Option A) {a : A} → defined o ≡ ok a → o ≡ some a
defined-eq-ok none h = cc
defined-eq-ok (some a) h = cc

pub set_usage_ratios-Frame :
    (x : ReserveData) {e : ReserveData} → set_usage_ratios x ≡ ok e → Frame x e
unfolding set_usage_ratios
set_usage_ratios-Frame x h = ground arith

pub set_rates-Frame :
    (ps : SymbolMap ReserveParams) (before : ReserveData) (s v : ℤ) (x : ReserveData)
    {e : ReserveData}
    → set_rates ps before s v x ≡ ok e
    → Frame x e
unfolding set_rates
set_rates-Frame ps before s v x h = ground arith

pub update_state-unbacked :
    (before x : ReserveData) (t : ℤ) {e : ReserveData}
    → update_state before x t ≡ ok e
    → e.unbacked ≡ x.unbacked
unfolding update_state
update_state-unbacked before x t h = ground arith

ok-injective {ℓ} : {A : Type ℓ} {a b : A} → ok a ≡ ok b → a ≡ b
ok-injective h = cc

-- The ratios of a draft whose total fits.
abbrev with_ratios : ReserveData → ℤ × ℤ → ReserveData
with_ratios x ratios = record x {
  borrow_usage_ratio = some ratios.0;
  supply_usage_ratio = some ratios.1;
}

with_ratios-IsCoherent :
    (x : ReserveData) (a u s v t : ℤ) (ratios : ℤ × ℤ)
    → x.available_liquidity ≡ some a
    → x.unbacked ≡ some u
    → x.total_liquidity ≡ some (a +ℤ u)
    → x.total_stable_debt ≡ some s
    → x.total_variable_debt ≡ some v
    → x.total_liquidity ≡ some t
    → calc_expected_usage_ratios s v a t ≡ ok ratios
    → IsCoherent (with_ratios x ratios)
with_ratios-IsCoherent x a u s v t ratios ea eu et es ev et' er = record {
  available = a;
  unbacked = u;
  stable = s;
  variable = v;
  ratios = ratios;
  available_eq = ea;
  unbacked_eq = eu;
  total_eq = et;
  stable_eq = es;
  variable_eq = ev;
  ratios_eq = rw (some-injective _ _ (sym et ∙ et')) er;
  borrow_eq = refl;
  supply_eq = refl;
}

pub set_usage_ratios-IsCoherent :
    (x : ReserveData) (a u : ℤ) {e : ReserveData}
    → x.available_liquidity ≡ some a
    → x.unbacked ≡ some u
    → x.total_liquidity ≡ some (a +ℤ u)
    → set_usage_ratios x ≡ ok e
    → IsCoherent e
unfolding set_usage_ratios
set_usage_ratios-IsCoherent x a u {e} ea eu et h =
    let (s, es, h₁) = >>=-eq-ok (defined x.total_stable_debt) _ h in
    let (v, ev, h₂) = >>=-eq-ok (defined x.total_variable_debt) _ h₁ in
    let (a', ea', h₃) = >>=-eq-ok (defined x.available_liquidity) _ h₂ in
    let (t, et', h₄) = >>=-eq-ok (defined x.total_liquidity) _ h₃ in
    let (ratios, er, h₅) = >>=-eq-ok (calc_expected_usage_ratios s v a' t) _ h₄ in
    let same : a' ≡ a = some-injective _ _ (sym (defined-eq-ok x.available_liquidity ea') ∙ ea) in
    subst IsCoherent (ok-injective h₅) (
      with_ratios-IsCoherent x a u s v t ratios ea eu et (defined-eq-ok x.total_stable_debt es)
        (defined-eq-ok x.total_variable_debt ev) (defined-eq-ok x.total_liquidity et')
        (subst (λ b. calc_expected_usage_ratios s v b t ≡ ok ratios) same er))

-- After the total is set anew, the reserve is coherent, with the liquidity that it had.
pub update_total-IsCoherent :
    (x : ReserveData) {e : ReserveData}
    → update_total_liquidity_and_usage_ratio x ≡ ok e
    → IsCoherent e × (e.available_liquidity ≡ x.available_liquidity)
unfolding update_total_liquidity_and_usage_ratio
update_total-IsCoherent x {e} h =
    let (a, ea, h₁) = >>=-eq-ok (defined x.available_liquidity) _ h in
    let (u, eu, h₂) = >>=-eq-ok (defined x.unbacked) _ h₁ in
    let totalled : ReserveData = record x { total_liquidity = some (a +ℤ u) } in
    (
      set_usage_ratios-IsCoherent totalled a u (defined-eq-ok x.available_liquidity ea)
          (defined-eq-ok x.unbacked eu) refl h₂,
      (set_usage_ratios-Frame totalled h₂).0,
    )

pub finish_reserve-IsCoherent :
    (ps : SymbolMap ReserveParams) (before x : ReserveData) {e : ReserveData}
    → finish_reserve ps before x ≡ ok e
    → IsCoherent e × (e.available_liquidity ≡ x.available_liquidity)
unfolding finish_reserve
finish_reserve-IsCoherent ps before x {e} h =
    let (s, es, h₁) = >>=-eq-ok (defined x.total_stable_debt) _ h in
    let (v, ev, h₂) = >>=-eq-ok (defined x.total_variable_debt) _ h₁ in
    let (priced, rates, h₃) = >>=-eq-ok (set_rates ps before s v x) _ h₂ in
    let (coherent, kept) = update_total-IsCoherent priced h₃ in
    (coherent, kept ∙ (set_rates-Frame ps before s v x rates).0)

-- The liquidity that the code moves, and the total that it sets.
pub update_liquidity-moves :
    (before x : ReserveData) (added taken : ℤ) {e : ReserveData}
    → update_liquidity_and_usage_ratios before x added taken ≡ ok e
    → (a u : ℤ) × (before.available_liquidity ≡ some a)
      × ((e.available_liquidity ≡ some (a +ℤ added -ℤ taken))
          × (e.unbacked ≡ some u)
          × (e.total_liquidity ≡ some (a +ℤ added -ℤ taken +ℤ u)))
unfolding update_liquidity_and_usage_ratios
update_liquidity-moves before x added taken {e} h =
    let (a, ea, h₁) = >>=-eq-ok (defined before.available_liquidity) _ h in
    let (u, eu, h₂) = >>=-eq-ok (defined x.unbacked) _ h₁ in
    let moved : ReserveData = record x {
      available_liquidity = some (a +ℤ added -ℤ taken);
      total_liquidity = some (a +ℤ added -ℤ taken +ℤ u);
    } in
    let (available, unbacked, total) = set_usage_ratios-Frame moved h₂ in
    (
      a,
      u,
      defined-eq-ok before.available_liquidity ea,
      (available, unbacked ∙ defined-eq-ok x.unbacked eu, total),
    )
