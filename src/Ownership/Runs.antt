-- ===== src/Ownership/Runs.antt =====
-- The runs of tasks/misc/transfer-protocol-ownership.ts: that they end, what they leave alone, and that a
-- market is transferred once.
use text.Mathlib.Text.{◌==◌ as str_eq}
use text.Mathlib.TextEquality.{eq_iff}
use rasa_lending_platform_sm.Prelude.{
  ◌≡◌, refl, ap, ◌∙◌, Bool, true, false, ◌&&◌, String, some, List,
}
use rasa_lending_platform_sm.Prelude.Result.{ok}
use rasa_lending_platform_sm.Ownership.Protocol.{
  Ownable, Role, Lookup, Protocol as Contracts, same_role, IsFaithful, KeepsRefused, Accepts,
}
use rasa_lending_platform_sm.Ownership.{
  Accounts, Row, exit, report, transfer_rows, transfer_protocol_ownership,
}
use rasa_lending_platform_sm.Ownership.Transfer.{WentThrough, all_of_them, transferred}
use rasa_lending_platform_sm.Ownership.Unwaited.{transfer_all-transferred}
use rasa_lending_platform_sm.Ownership.Completion.{deployed_by, Ends, transfer_all-Ends}
use rasa_lending_platform_sm.Ownership.Admins.{IsMarketAdmin}
use rasa_lending_platform_sm.Ownership.Frame.{
  is_transferred, transferred-provider, transferred-owner, transferred-has_role,
}
use rasa_lending_platform_sm.Ownership.Decision.{
  decide, decide-report, transfer_to-decide, decide-transfer_to, with_address, address_of,
}

and_false : (b : Bool) → (b && false) ≡ false
and_false true = refl
and_false false = refl

module _ (p : Contracts) where
  open p use {State, found, view}

  module _ (faithful : IsFaithful p) where
    pub transfer_reports :
        KeepsRefused p
        → (accounts : Accounts) (desired : String) (s t : State) (rows : List Row)
        → transfer_protocol_ownership p accounts (some desired) s ≡ ok (report rows, t)
        → (str_eq ((view s).owner Ownable.provider) accounts.pool_admin ≡ true)
          × ((w : WentThrough) × (view t ≡ transferred w accounts desired (view s)))
          × (rows ≡ transfer_rows accounts desired (view t))
    transfer_reports keeps accounts desired s t rows e =
        let (_, run) = address_of p accounts desired s t rows e in
        let (ours, moves, table) =
          decide-report p accounts desired _ _ s t rows
            (transfer_to-decide p accounts desired s run) in
        (ours, transfer_all-transferred p faithful keeps accounts desired s t moves, table)

    -- The contracts do what a mined call says and mine every call of who may make it, all contracts are
    -- found, the address of the desired admin is not empty, the deployer is pool admin, registry owner and
    -- first signer, it owns the provider, the provider is not the desired admin's yet, and the ACL admin of
    -- the accounts is a default admin. Then `transfer-protocol-ownership` gets as far as its table, and each
    -- role, the ACL admin and each of the four contracts has gone to the desired admin from the holder that
    -- the task looks for, if it was one.
    pub transfer_completes :
        Accepts p
        → (owner acl_admin emergency_admin desired : String) (s : State)
        → ((k : Lookup) → found s k ≡ true)
        → str_eq desired "" ≡ false
        → str_eq ((view s).owner Ownable.provider) desired ≡ false
        → IsMarketAdmin acl_admin owner (view s)
        → (rows : List Row) × (t : State) × (transfer_protocol_ownership p
              (deployed_by owner acl_admin emergency_admin)
              (some desired)
              s
            ≡ ok (report rows, t))
          × (view t
              ≡ transferred all_of_them
                  (deployed_by owner acl_admin emergency_admin)
                  desired
                  (view s))
    unfolding Ends decide
    transfer_completes accepts o c e d s all given other admin =
        let (t, moves, after) = transfer_all-Ends p faithful accepts o c e d s admin in
        (
          transfer_rows (deployed_by o c e) d (view t),
          t,
          with_address p (deployed_by o c e) d s given
              (decide-transfer_to p (deployed_by o c e) d s all (rw (other, admin.1, moves) refl)),
          after,
        )

    -- With signers who may make the calls, all transactions go through.
    pub transfer_moves :
        Accepts p
        → (o c e d : String) (s t : State) (rows : List Row)
        → transfer_protocol_ownership p (deployed_by o c e) (some d) s ≡ ok (report rows, t)
        → IsMarketAdmin c o (view s)
        → view t ≡ transferred all_of_them (deployed_by o c e) d (view s)
    unfolding Ends
    transfer_moves accepts o c e d s t rows run admin =
        let (_, run') = address_of p (deployed_by o c e) d s t rows run in
        let (_, moves, _) =
          decide-report p (deployed_by o c e) d _ _ s t rows
            (transfer_to-decide p (deployed_by o c e) d s run') in
        let (t', moves', after) = transfer_all-Ends p faithful accepts o c e d s admin in
        let same : t ≡ t' = cc (moves, moves') in ap view same ∙ after

    -- The contracts do what a mined call says and mine every call of who may make it; the deployer is pool
    -- admin, registry owner and first signer, it owns the provider, and the ACL admin of the accounts is a
    -- default admin. Then after a run of `transfer-protocol-ownership` that gets as far as its table a
    -- second run, for which every contract is found, leaves with code 0 and changes nothing.
    pub transfer_once :
        Accepts p
        → (owner acl_admin emergency_admin desired : String) (s t : State) (rows : List Row)
        → transfer_protocol_ownership p
            (deployed_by owner acl_admin emergency_admin)
            (some desired)
            s
          ≡ ok (report rows, t)
        → IsMarketAdmin acl_admin owner (view s)
        → ((k : Lookup) → found t k ≡ true)
        → transfer_protocol_ownership p
            (deployed_by owner acl_admin emergency_admin)
            (some desired)
            t
          ≡ ok (exit 0, t)
    unfolding decide
    transfer_once accepts o c e d s t rows run admin all =
        let (given, _) = address_of p (deployed_by o c e) d s t rows run in
        let owned : (view t).owner Ownable.provider ≡ d =
          ap (λ v. v.owner Ownable.provider) (transfer_moves accepts o c e d s t rows run admin)
          ∙ transferred-provider (deployed_by o c e) d (view s) admin.1 in
        with_address p (deployed_by o c e) d t given
          (decide-transfer_to p (deployed_by o c e) d t all (rw (owned, (eq_iff d d).1 refl) refl))

    -- If the contracts do what a mined call says, and a refused call changes nothing, then a run of
    -- `transfer-protocol-ownership` that gets as far as its table leaves the owner of every contract but the provider, the registry, the gateway and
    -- the emission manager, and every role of an account that is neither the desired admin nor the holder
    -- from whom the task takes that role.
    pub transfer_keeps_others :
        KeepsRefused p
        → (accounts : Accounts) (desired : String) (s t : State) (rows : List Row)
        → transfer_protocol_ownership p accounts (some desired) s ≡ ok (report rows, t)
        → ((k : Ownable) → is_transferred k ≡ false → (view t).owner k ≡ (view s).owner k)
          × ((q : Role) (x : String)
              → (same_role Role.emergency_admin q && str_eq accounts.emergency_admin x) ≡ false
              → (same_role Role.pool_admin q && str_eq accounts.pool_admin x) ≡ false
              → (same_role Role.default_admin q && str_eq accounts.deployer x) ≡ false
              → str_eq desired x ≡ false
              → (view t).has_role q x ≡ (view s).has_role q x)
    transfer_keeps_others keeps accounts desired s t rows e =
        let (_, (w, after), _) = transfer_reports keeps accounts desired s t rows e in
        (
          λ k out. ap (λ v. v.owner k) after ∙ transferred-owner w accounts desired k (view s) out,
          λ q x not_emergency not_pool not_default other.
              ap (λ v. v.has_role q x) after
              ∙ transferred-has_role desired q x w accounts (view s) not_emergency not_pool
                  not_default (λ r. rw (other) (and_false (same_role r q))),
        )
