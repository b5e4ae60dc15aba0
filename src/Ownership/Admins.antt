-- ===== src/Ownership/Admins.antt =====
-- Who may make the calls of tasks/misc/transfer-protocol-ownership.ts while its transfers go on.
use text.Mathlib.Text.{◌==◌ as str_eq}
use rasa_lending_platform_sm.Prelude.{◌≡◌, refl, Bool, ◌||◌, true, false, String, if◌then◌else◌}
use rasa_lending_platform_sm.Ownership.Protocol.{Ownable, Role, View, same_role}
use rasa_lending_platform_sm.Ownership.Transfer.{moved_role, moved_owner, moved_acl_admin}

-- The account may grant and revoke roles.
abbrev pub IsRoleAdmin : String → View → Type 0
IsRoleAdmin account v = v.has_role Role.default_admin account ≡ true

-- So it may, and the owner owns the provider.
abbrev pub IsMarketAdmin : String → String → View → Type 0
IsMarketAdmin account owner v =
    IsRoleAdmin account v × (str_eq (v.owner Ownable.provider) owner ≡ true)

pub or_true : (a b : Bool) → b ≡ true → (a || b) ≡ true
or_true true b h = refl
or_true false b h = h

-- A choice has what both its branches have.
pub choice : (P : View → Type 0) (b : Bool) {v w : View} → P v → P w → P (if b then v else w)
choice P true h k = h
choice P false h k = k

module _ (account : String) where
  moved_role-IsRoleAdmin :
      (role : Role) (holder desired : String) (v : View)
      → same_role role Role.default_admin ≡ false
      → IsRoleAdmin account v
      → IsRoleAdmin account (moved_role role holder desired v)
  moved_role-IsRoleAdmin role holder desired v other h =
      choice (IsRoleAdmin account) (v.has_role role holder) (rw (other) h) h

  pub moved_acl_admin-IsRoleAdmin :
      (holder desired : String) (v : View)
      → IsRoleAdmin account v
      → IsRoleAdmin account (moved_acl_admin true holder desired v)
  moved_acl_admin-IsRoleAdmin holder desired v h =
      choice (IsRoleAdmin account) (str_eq v.acl_admin holder) h h

  pub moved_owner-IsRoleAdmin :
      (contract : Ownable) (holder desired : String) (v : View)
      → IsRoleAdmin account v
      → IsRoleAdmin account (moved_owner true contract holder desired v)
  moved_owner-IsRoleAdmin contract holder desired v h =
      choice (IsRoleAdmin account) (str_eq (v.owner contract) holder) h h

  pub moved_role-IsMarketAdmin :
      (owner : String) (role : Role) (holder desired : String) (v : View)
      → same_role role Role.default_admin ≡ false
      → IsMarketAdmin account owner v
      → IsMarketAdmin account owner (moved_role role holder desired v)
  moved_role-IsMarketAdmin owner role holder desired v other (admin, owned) = (
    moved_role-IsRoleAdmin role holder desired v other admin,
    choice (λ w. str_eq (w.owner Ownable.provider) owner ≡ true) (v.has_role role holder) owned
        owned,
  )
