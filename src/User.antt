-- ===== src/User.antt =====
-- crates/core/src/user.rs: what a user is allowed to do inside a tenant.
pub mod Permissions
use nsclient_fleet_server.Common.{
  Bool, true, false, List, [], ◌∷◌, Option, none, some, if◌then◌else◌, any, ◌==◌,
}
use nsclient_fleet_server.Common.Int.{ℤ}
use nsclient_fleet_server.Common.Text.{Text, codes, text_equality}

pub data Role : Type 0 where
  owner : Role
  admin : Role
  add_hosts : Role
  view_only : Role

unfoldable pub from_db : Text → Role
from_db s =
    if s == codes "owner"
    then owner
    else if s == codes "admin"
    then admin
    else if s == codes "add_hosts"
    then add_hosts
    else view_only

unfoldable pub as_db : Role → Text
as_db owner = codes "owner"
as_db admin = codes "admin"
as_db add_hosts = codes "add_hosts"
as_db view_only = codes "view_only"

unfoldable pub can_manage_users : Role → Bool
can_manage_users owner = true
can_manage_users admin = true
can_manage_users add_hosts = false
can_manage_users view_only = false

unfoldable pub can_write_config : Role → Bool
can_write_config owner = true
can_write_config admin = true
can_write_config add_hosts = false
can_write_config view_only = false

unfoldable pub can_add_hosts : Role → Bool
can_add_hosts owner = true
can_add_hosts admin = true
can_add_hosts add_hosts = true
can_add_hosts view_only = false

abbrev pub assignable : List Role
assignable = admin ∷ add_hosts ∷ view_only ∷ []

-- The derived `PartialEq`
abbrev pub role_eq : Role → Role → Bool
role_eq owner owner = true
role_eq admin admin = true
role_eq add_hosts add_hosts = true
role_eq view_only view_only = true
role_eq _ _ = false

unfoldable pub is_assignable : Role → Bool
is_assignable r = any (λ a. role_eq a r) assignable

pub record User : Type 0 where
  pub id : ℤ
  pub tenant_id : ℤ
  pub email : Text
  pub role : Role
  pub blocked_at : Option ℤ
  pub is_platform_admin : Bool
  pub created_at : ℤ

unfoldable pub is_blocked : User → Bool
is_blocked u = elim u.blocked_at [ none ↦ false | some _ ↦ true ]
