-- ===== src/Ownership/Examples.antt =====
-- A small protocol that keeps the documented rules, and the task on it.
use text.Mathlib.Text.{◌==◌ as str_eq}
use rasa_lending_platform_sm.Prelude.{
  ◌≡◌, refl, Bool, true, false, ◌&&◌, not, String, none, some, List, ◌++◌, map, if◌then◌else◌,
}
use rasa_lending_platform_sm.Prelude.Result.{ok}
use rasa_lending_platform_sm.Prelude.Int.{pos}
use rasa_lending_platform_sm.Scenario.Chain.{Receipt, Outcome, mined, refused}
use rasa_lending_platform_sm.Ownership.Protocol.{
  Ownable, Role, View, RoleCall, Protocol as Contracts, apply, is_authorised, same_role,
  same_ownable, IsFaithful, KeepsRefused, Accepts,
}
use rasa_lending_platform_sm.Ownership.{
  Accounts, Row, exit, report, transfer_rows, look_up, transact, send_unwaited, when, move_role,
  move_owner, move_acl_admin, transfer_all, look_up_all, transfer_to, transfer_protocol_ownership,
}
use rasa_lending_platform_sm.Ownership.Completion.{deployed_by}
use rasa_lending_platform_sm.Ownership.Roles.{emission_rows, view_protocol_roles}
use rasa_lending_platform_sm.Ownership.Transfer.{all_of_them, transferred}
use rasa_lending_platform_sm.Ownership.Frame.{is_transferred}
use rasa_lending_platform_sm.Ownership.Handover.{
  handed_over, IsDeployed, checks_after, view_after_transfer,
}
use rasa_lending_platform_sm.Ownership.Runs.{
  transfer_once, transfer_completes, transfer_keeps_others,
}

abbrev receipt : Receipt
receipt = record {
  block_number = some 1;
  transaction_hash = some "0x01";
  cumulative_gas_used = none;
  effective_gas_price = pos 1;
}

-- The state is what the contracts answer, all of them are deployed, and a call takes the right to make it.
abbrev answer : Bool → RoleCall → View → Outcome View
answer true call v = mined receipt (apply call v)
answer false call v = refused "not authorised" v

abbrev ledger : Contracts
ledger = record {
  State = View;
  found = λ v k. true;
  view = λ v. v;
  send = λ v signer call. answer (is_authorised v signer call) call v;
}

ledger-IsFaithful : IsFaithful ledger
ledger-IsFaithful s t signer call receipt sent = by_answer (is_authorised s signer call) sent
  where
    by_answer : (b : Bool) → answer b call s ≡ mined receipt t → t ≡ apply call s
    by_answer true h = cc
    by_answer false h = cc

ledger-KeepsRefused : KeepsRefused ledger
ledger-KeepsRefused s t signer call reason sent = by_answer (is_authorised s signer call) sent
  where
    by_answer : (b : Bool) → answer b call s ≡ refused reason t → t ≡ s
    by_answer true h = cc
    by_answer false h = cc

ledger-Accepts : Accepts ledger
ledger-Accepts s signer call may = (receipt, apply call s, rw (may) refl)

-- The market of the deployer 0xA, and what the transfer to 0xD makes of it.
abbrev market : View
market = record {
  owner = λ k. "0xA";
  acl_admin = "0xA";
  has_role = λ r account. not (same_role r Role.asset_listing_admin) && str_eq account "0xA";
  treasury_proxy_admin = "0xA";
  incentives_controller = "0xC";
  rewards_emission_manager = some "0xE";
  rewards_controller_address = "0xC";
  emission_manager_address = "0xE";
}

abbrev final : View
final = handed_over "0xA" "0xA" "0xD" market

abbrev deployer : Accounts
deployer = deployed_by "0xA" "0xA" "0xA"

market-IsDeployed : IsDeployed "0xA" "0xA" market
market-IsDeployed = record {
  provider_owned = refl;
  registry_owned = refl;
  gateway_owned = refl;
  emission_manager_owned = refl;
  acl_admin_held = refl;
  default_admin_held = refl;
  pool_admin_held = refl;
  emergency_admin_held = refl;
}

run_of_market :
    transfer_protocol_ownership ledger deployer (some "0xD") market
    ≡ ok (report (transfer_rows deployer "0xD" final), final)
unfolding transfer_protocol_ownership transfer_to transfer_all move_role move_owner move_acl_admin
    when transact send_unwaited look_up_all look_up
run_of_market = refl

-- A first signer who owns nothing, and a gateway that is another's: the calls that are not waited for are
-- refused, and the task prints its table.
abbrev by_another : Accounts
by_another = record deployer { first_signer = "0xF" }

abbrev other_gateway : View
other_gateway = record market {
  owner = λ k. if same_ownable Ownable.gateway k then "0xB" else "0xA";
}

abbrev refused_unnoticed : View
refused_unnoticed =
    transferred
      (record {
        set_acl_admin = false;
        provider = false;
        registry = false;
        emission_manager = false;
      })
      by_another "0xD" other_gateway

run_of_another :
    transfer_protocol_ownership ledger by_another (some "0xD") other_gateway
    ≡ ok (report (transfer_rows by_another "0xD" refused_unnoticed), refused_unnoticed)
unfolding transfer_protocol_ownership transfer_to transfer_all move_role move_owner move_acl_admin
    when transact send_unwaited look_up_all look_up
run_of_another = refl

transfer_once_example :
    transfer_protocol_ownership ledger deployer (some "0xD") final ≡ ok (exit 0, final)
transfer_once_example =
    transfer_once ledger ledger-IsFaithful ledger-Accepts "0xA" "0xA" "0xA" "0xD" market final
      (transfer_rows deployer "0xD" final) run_of_market (refl, refl) (λ k. refl)

transfer_completes_example :
    (rows : List Row) × (t : View) × (transfer_protocol_ownership ledger deployer
        (some "0xD")
        market
      ≡ ok (report rows, t))
    × (t ≡ transferred all_of_them deployer "0xD" market)
transfer_completes_example =
    transfer_completes ledger ledger-IsFaithful ledger-Accepts "0xA" "0xA" "0xA" "0xD" market
      (λ k. refl) refl refl (refl, refl)

transfer_keeps_others_example :
    ((k : Ownable) → is_transferred k ≡ false → final.owner k ≡ market.owner k)
    × ((q : Role) (x : String)
        → (same_role Role.emergency_admin q && str_eq "0xA" x) ≡ false
        → (same_role Role.pool_admin q && str_eq "0xA" x) ≡ false
        → (same_role Role.default_admin q && str_eq "0xA" x) ≡ false
        → str_eq "0xD" x ≡ false
        → final.has_role q x ≡ market.has_role q x)
transfer_keeps_others_example =
    transfer_keeps_others ledger ledger-IsFaithful ledger-KeepsRefused deployer "0xD" market final
      (transfer_rows deployer "0xD" final) run_of_market

view_after_transfer_example :
    (table : List Row) × (view_protocol_roles ledger deployer (some "0xD") (some "0xD") final
      ≡ ok (report table, final))
    × (map Row.holds table
        ≡ checks_after "0xA" "0xA" "0xD" "0xD" market ++ map Row.holds (emission_rows market))
view_after_transfer_example =
    view_after_transfer ledger ledger-IsFaithful ledger-Accepts "0xA" "0xA" "0xA" "0xD" "0xD" market
      final (transfer_rows deployer "0xD" final) run_of_market market-IsDeployed refl refl refl
      (λ k. refl)
