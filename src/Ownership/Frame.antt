-- ===== src/Ownership/Frame.antt =====
-- What the transfers of tasks/misc/transfer-protocol-ownership.ts do to one contract or one account.
use text.Mathlib.Text.{◌==◌ as str_eq}
use rasa_lending_platform_sm.Prelude.{
  ◌≡◌, refl, ◌∙◌, Bool, true, false, ◌||◌, ◌&&◌, String, if◌then◌else◌,
}
use rasa_lending_platform_sm.Ownership.Protocol.{Ownable, Role, View, same_ownable, same_role}
use rasa_lending_platform_sm.Ownership.{Accounts}
use rasa_lending_platform_sm.Ownership.Transfer.{
  moved_role, moved_owner, moved_acl_admin, WentThrough, all_of_them, transferred,
}
use rasa_lending_platform_sm.Ownership.Admins.{choice}

or_false : (a b : Bool) → (a || b) ≡ false → (a ≡ false) × (b ≡ false)
or_false true b h = cc
or_false false b h = (refl, h)

-- A change that an observation of the answers does not notice.
unfoldable Keeps : {A : Type 0} → (View → A) → (View → View) → Type 0
Keeps look f = (v : View) → look (f v) ≡ look v

Keeps-at :
    {A : Type 0} (look : View → A) (f : View → View)
    → Keeps look f
    → (v : View) → look (f v) ≡ look v
unfolding Keeps
Keeps-at look f keeps v = keeps v

module _ {A : Type 0} (look : View → A) where
  ∘-Keeps : (f g : View → View) → Keeps look f → Keeps look g → Keeps look (λ v. g (f v))
  unfolding Keeps
  ∘-Keeps f g first second v = second (f v) ∙ first v

  choice-Keeps : (b : Bool) (v w : View) → look w ≡ look v → look (if b then w else v) ≡ look v
  choice-Keeps b v w h = choice (λ u. look u ≡ look v) b h refl

  -- All transfers, from what each of them does.
  transferred-Keeps :
      (w : WentThrough) (a : Accounts) (d : String)
      → Keeps look (moved_role Role.emergency_admin a.emergency_admin d)
      → Keeps look (moved_role Role.pool_admin a.pool_admin d)
      → Keeps look (moved_acl_admin w.set_acl_admin a.deployer d)
      → Keeps look (moved_owner w.provider Ownable.provider a.pool_admin d)
      → Keeps look (moved_owner w.registry Ownable.registry a.registry_owner d)
      → Keeps look (moved_owner true Ownable.gateway a.pool_admin d)
      → Keeps look (moved_owner w.emission_manager Ownable.emission_manager a.deployer d)
      → Keeps look (moved_role Role.default_admin a.deployer d)
      → Keeps look (transferred w a d)
  transferred-Keeps w a d m1 m2 m3 m4 m5 m6 m7 m8 = ∘-Keeps _ _ m1 (
      ∘-Keeps _ _ m2
        (∘-Keeps _ _ m3 (∘-Keeps _ _ m4 (∘-Keeps _ _ m5 (∘-Keeps _ _ m6 (∘-Keeps _ _ m7 m8))))))

module _ (k : Ownable) where
  moved_role-owner :
      (role : Role) (holder desired : String)
      → Keeps (λ v. v.owner k) (moved_role role holder desired)
  unfolding Keeps
  moved_role-owner role holder desired v =
      choice-Keeps (λ w. w.owner k) (v.has_role role holder) v _ refl

  moved_acl_admin-owner :
      (b : Bool) (holder desired : String)
      → Keeps (λ v. v.owner k) (moved_acl_admin b holder desired)
  unfolding Keeps
  moved_acl_admin-owner b holder desired v =
      choice-Keeps (λ w. w.owner k) (b && str_eq v.acl_admin holder) v _ refl

  moved_owner-other :
      (b : Bool) (contract : Ownable) (holder desired : String)
      → same_ownable contract k ≡ false
      → Keeps (λ v. v.owner k) (moved_owner b contract holder desired)
  unfolding Keeps
  moved_owner-other b contract holder desired other v =
      choice-Keeps (λ w. w.owner k) (b && str_eq (v.owner contract) holder) v _ (rw (other) refl)

-- The contracts that the task transfers.
abbrev pub is_transferred : Ownable → Bool
is_transferred k =
    same_ownable Ownable.provider k
    || same_ownable Ownable.registry k
    || same_ownable Ownable.gateway k
    || same_ownable Ownable.emission_manager k

-- The owners of the other contracts stay.
pub transferred-owner :
    (w : WentThrough) (a : Accounts) (d : String) (k : Ownable) (v : View)
    → is_transferred k ≡ false
    → (transferred w a d v).owner k ≡ v.owner k
unfolding Keeps
transferred-owner w a d k v out =
    let (rest, not_manager) = or_false _ (same_ownable Ownable.emission_manager k) out in
    let (first_two, not_gateway) = or_false _ (same_ownable Ownable.gateway k) rest in
    let (not_provider, not_registry) = or_false _ (same_ownable Ownable.registry k) first_two in
    transferred-Keeps (λ u. u.owner k) w a d
      (moved_role-owner k Role.emergency_admin a.emergency_admin d)
      (moved_role-owner k Role.pool_admin a.pool_admin d)
      (moved_acl_admin-owner k w.set_acl_admin a.deployer d)
      (moved_owner-other k w.provider Ownable.provider a.pool_admin d not_provider)
      (moved_owner-other k w.registry Ownable.registry a.registry_owner d not_registry)
      (moved_owner-other k true Ownable.gateway a.pool_admin d not_gateway)
      (moved_owner-other k w.emission_manager Ownable.emission_manager a.deployer d not_manager)
      (moved_role-owner k Role.default_admin a.deployer d) v

-- The provider of the pool admin goes to the desired admin.
pub transferred-provider :
    (a : Accounts) (d : String) (v : View)
    → str_eq (v.owner Ownable.provider) a.pool_admin ≡ true
    → (transferred all_of_them a d v).owner Ownable.provider ≡ d
transferred-provider a d v ours =
    let k = Ownable.provider in
    let before : View = moved_acl_admin true a.deployer d (
      moved_role Role.pool_admin a.pool_admin d
        (moved_role Role.emergency_admin a.emergency_admin d v)) in
    let same : before.owner k ≡ v.owner k =
      Keeps-at _ _
        (∘-Keeps (λ w. w.owner k) _ _ (moved_role-owner k Role.emergency_admin a.emergency_admin d)
          (∘-Keeps (λ w. w.owner k) _ _ (moved_role-owner k Role.pool_admin a.pool_admin d)
            (moved_acl_admin-owner k true a.deployer d)))
        v in
    let kept =
      Keeps-at _ _
        (∘-Keeps (λ w. w.owner k) _ _
          (moved_owner-other k true Ownable.registry a.registry_owner d refl)
          (∘-Keeps (λ w. w.owner k) _ _
            (moved_owner-other k true Ownable.gateway a.pool_admin d refl)
            (∘-Keeps (λ w. w.owner k) _ _
              (moved_owner-other k true Ownable.emission_manager a.deployer d refl)
              (moved_role-owner k Role.default_admin a.deployer d))))
        (moved_owner true k a.pool_admin d before) in
    let moved : (moved_owner true k a.pool_admin d before).owner k ≡ d = rw (same, ours) refl in
    kept ∙ moved

module _ (d : String) (q : Role) (x : String) where
  -- A role of an account that is neither its holder nor the desired admin stays.
  moved_role-other :
      (role : Role) (holder : String)
      → (same_role role q && str_eq holder x) ≡ false
      → (same_role role q && str_eq d x) ≡ false
      → Keeps (λ v. v.has_role q x) (moved_role role holder d)
  unfolding Keeps
  moved_role-other role holder not_holder not_desired v =
      choice-Keeps (λ w. w.has_role q x) (v.has_role role holder) v _
        (rw (not_holder, not_desired) refl)

  moved_owner-has_role :
      (b : Bool) (contract : Ownable) (holder : String)
      → Keeps (λ v. v.has_role q x) (moved_owner b contract holder d)
  unfolding Keeps
  moved_owner-has_role b contract holder v =
      choice-Keeps (λ w. w.has_role q x) (b && str_eq (v.owner contract) holder) v _ refl

  moved_acl_admin-has_role :
      (b : Bool) (holder : String) → Keeps (λ v. v.has_role q x) (moved_acl_admin b holder d)
  unfolding Keeps
  moved_acl_admin-has_role b holder v =
      choice-Keeps (λ w. w.has_role q x) (b && str_eq v.acl_admin holder) v _ refl

  pub transferred-has_role :
      (w : WentThrough) (a : Accounts) (v : View)
      → (same_role Role.emergency_admin q && str_eq a.emergency_admin x) ≡ false
      → (same_role Role.pool_admin q && str_eq a.pool_admin x) ≡ false
      → (same_role Role.default_admin q && str_eq a.deployer x) ≡ false
      → ((r : Role) → (same_role r q && str_eq d x) ≡ false)
      → (transferred w a d v).has_role q x ≡ v.has_role q x
  unfolding Keeps
  transferred-has_role w a v not_emergency not_pool not_default not_desired =
      transferred-Keeps (λ u. u.has_role q x) w a d
        (moved_role-other Role.emergency_admin a.emergency_admin not_emergency
          (not_desired Role.emergency_admin))
        (moved_role-other Role.pool_admin a.pool_admin not_pool (not_desired Role.pool_admin))
        (moved_acl_admin-has_role w.set_acl_admin a.deployer)
        (moved_owner-has_role w.provider Ownable.provider a.pool_admin)
        (moved_owner-has_role w.registry Ownable.registry a.registry_owner)
        (moved_owner-has_role true Ownable.gateway a.pool_admin)
        (moved_owner-has_role w.emission_manager Ownable.emission_manager a.deployer)
        (moved_role-other Role.default_admin a.deployer not_default
          (not_desired Role.default_admin))
        v
