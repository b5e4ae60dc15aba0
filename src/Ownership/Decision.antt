-- ===== src/Ownership/Decision.antt =====
-- The course of tasks/misc/transfer-protocol-ownership.ts: the lookups, and how the owner of the provider
-- decides what comes next.
use text.Mathlib.Text.{◌==◌ as str_eq}
use rasa_lending_platform_sm.Prelude.{
  ◌≡◌, refl, subst, ◌∙◌, Bool, true, false, String, some, List, [], ◌∷◌, if◌then◌else◌,
}
use rasa_lending_platform_sm.Prelude.Result.{Result, ok, err, missing_deployment}
use rasa_lending_platform_sm.Scenario.Chain.{Run, pure, asks, ◌>>◌, continue-eq-ok}
use rasa_lending_platform_sm.Ownership.Protocol.{Ownable, Lookup, Protocol as Contracts}
use rasa_lending_platform_sm.Ownership.{
  Accounts, Row, Ending, exit, report, transfer_rows, look_up, transfer_all, look_up_all,
  transfer_lookups, transfer_to, transfer_protocol_ownership,
}

module _ (p : Contracts) where
  open p use {State, found, view}

  -- Lookups of deployed contracts leave the chain as it is.
  pub look_up_all-found :
      (contracts : List Lookup) (s : State)
      → ((k : Lookup) → found s k ≡ true)
      → look_up_all p contracts s ≡ ok (tt, s)
  unfolding look_up_all look_up
  look_up_all-found [] s all = refl
  look_up_all-found (contract ∷ contracts) s all =
      rw (all contract) (look_up_all-found contracts s all)

  look_up_all-keeps :
      (contracts : List Lookup) (s t : State) → look_up_all p contracts s ≡ ok (tt, t) → t ≡ s
  unfolding look_up_all look_up
  look_up_all-keeps [] s t e = cc
  look_up_all-keeps (contract ∷ contracts) s t e =
      let (_, u, one, rest) =
        continue-eq-ok (λ _. look_up_all p contracts) (look_up p contract s) e in
      look_up_all-keeps contracts u t rest ∙ kept (found s contract) one
    where
      kept :
          {u : State} (b : Bool)
          → if◌then◌else◌ {A = Result (Unit {0} × State)} b (ok (tt, s)) (err missing_deployment)
            ≡ ok (tt, u)
          → u ≡ s
      kept true h = cc
      kept false h = cc

  module _ (accounts : Accounts) (desired : String) where
    -- What is left of the task once the owner of the provider is read.
    unfoldable pub decide : Bool → Bool → Run State Ending
    decide transferred_already ours =
        if transferred_already
        then pure (exit 0)
        else if ours
        then (do
          transfer_all p accounts desired
          asks (λ s. report (transfer_rows accounts desired (view s))))
        else pure (exit 403)

    pub decide-report :
        (b c : Bool) (s t : State) (rows : List Row)
        → decide b c s ≡ ok (report rows, t)
        → (c ≡ true)
          × (transfer_all p accounts desired s ≡ ok (tt, t))
          × (rows ≡ transfer_rows accounts desired (view t))
    unfolding decide
    decide-report true c s t rows e = cc
    decide-report false false s t rows e = cc
    decide-report false true s t rows e =
        let (_, u, run, rest) =
          continue-eq-ok (λ _. asks (λ s. report (transfer_rows accounts desired (view s))))
            (transfer_all p accounts desired s) e in
        let same : u ≡ t = cc in
        let table : rows ≡ transfer_rows accounts desired (view u) = cc in
        (refl, rw (← same) run, rw (← same) table)

    pub transfer_to-decide :
        (s : State) {r : Ending × State}
        → transfer_to p accounts desired s ≡ ok r
        → decide
            (str_eq ((view s).owner Ownable.provider) desired)
            (str_eq ((view s).owner Ownable.provider) accounts.pool_admin)
            s
          ≡ ok r
    unfolding transfer_to decide
    transfer_to-decide s {r} e =
        let (_, u, before, rest) = continue-eq-ok _ (look_up_all p transfer_lookups s) e in
        subst
          (λ u.
            decide (str_eq ((view u).owner Ownable.provider) desired)
              (str_eq ((view u).owner Ownable.provider) accounts.pool_admin) u
            ≡ ok r)
          (look_up_all-keeps transfer_lookups s u before) rest

    pub decide-transfer_to :
        (s : State) {r : Ending × State}
        → ((k : Lookup) → found s k ≡ true)
        → decide
            (str_eq ((view s).owner Ownable.provider) desired)
            (str_eq ((view s).owner Ownable.provider) accounts.pool_admin)
            s
          ≡ ok r
        → transfer_to p accounts desired s ≡ ok r
    unfolding transfer_to decide
    decide-transfer_to s all h = rw (look_up_all-found transfer_lookups s all) h

    -- The task with an address.
    pub with_address :
        (s : State) {r : Ending × State}
        → str_eq desired "" ≡ false
        → transfer_to p accounts desired s ≡ ok r
        → transfer_protocol_ownership p accounts (some desired) s ≡ ok r
    unfolding transfer_protocol_ownership
    with_address s given e = rw (given) e

    pub address_of :
        (s t : State) (rows : List Row)
        → transfer_protocol_ownership p accounts (some desired) s ≡ ok (report rows, t)
        → (str_eq desired "" ≡ false) × (transfer_to p accounts desired s ≡ ok (report rows, t))
    unfolding transfer_protocol_ownership
    address_of s t rows e = by_test (str_eq desired "") refl e
      where
        by_test :
            (b : Bool)
            → str_eq desired "" ≡ b
            → (if b then pure (exit 403) else transfer_to p accounts desired) s
              ≡ ok (report rows, t)
            → (str_eq desired "" ≡ false) × (transfer_to p accounts desired s ≡ ok (report rows, t))
        by_test true h e = cc
        by_test false h e = (h, e)
