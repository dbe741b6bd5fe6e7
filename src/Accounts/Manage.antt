-- ===== src/Accounts/Manage.antt =====
-- Changing and removing the users of one's tenant: `set_role` and `delete_user` of
-- crates/server/src/admin/users.rs, and what they write to the audit log. A handler runs as a whole: other requests do not come between its statements. serde_json,
-- the decimal spelling of an id and the failures of the store are the environment's.
use nsclient_fleet_server.Common.{
  Bool, true, false, not as negate, [], ◌∷◌, ◌++◌, Option, none, some, ◌&&◌, ◌||◌, ◌==◌,
  if◌then◌else◌, any,
}
use nsclient_fleet_server.Common.Int.{ℤ, int_eq}
use nsclient_fleet_server.Common.Text.{Text, codes, text_equality}
use nsclient_fleet_server.Common.Result.{Result, ok, err}
use nsclient_fleet_server.Json.{Value, string, object, Fields, end, field}
use nsclient_fleet_server.User.{User, Role, owner, role_eq, as_db, can_manage_users, is_assignable}
use nsclient_fleet_server.Storage.{StoreError}
use nsclient_fleet_server.Accounts.{Accounts}
use nsclient_fleet_server.Accounts.Users.{
  get_any, get_user, set_blocked, set_platform_admin, count_owners, names,
}
use nsclient_fleet_server.Accounts.Users
use nsclient_fleet_server.Accounts.Identify.{AuthedUser}

pub data Site : Type 0 where
  user_read : Site
  owners_read : Site
  role_write : Site
  block_write : Site
  admin_write : Site
  user_delete : Site
  audit_write : Site
  actor_read : Site
  view_read : Site

pub record Environment : Type 0 where
  pub to_string : Value → Option Text
  pub decimal : ℤ → Text
  pub fails : Site → Bool

pub data UserResponse : Type 0 where
  unauthorized : UserResponse
  forbidden : UserResponse
  bad_request : UserResponse
  not_found : UserResponse
  conflict : UserResponse
  internal_server_error : UserResponse
  no_content : UserResponse
  user_view : User → UserResponse

abbrev pub Answered : Type 0
Answered = UserResponse × Accounts

-- A user that is named must be one of the users.
abbrev has_user : Option ℤ → Accounts → Bool
has_user none s = true
has_user (some u) s = any (λ r. r.id == u) s.users

-- `AuditRepo::record`, whose failure is only logged
unfoldable pub record_audit : Environment → ℤ → ℤ → Text → ℤ → Fields → ℤ → Accounts → Accounts
record_audit env tenant_id actor action target metadata now s =
    if env.fails audit_write
      || negate (any (λ t. t == tenant_id) s.tenants && has_user (some actor) s)
    then s
    else record s {
      audit_log =
          s.audit_log
          ++ record {
            tenant_id = tenant_id;
            user_id = some actor;
            action = action;
            target_type = codes "user";
            target_id = env.decimal target;
            metadata_json = env.to_string (object metadata);
            ts = now;
          }
            ∷ [];
    }

abbrev pub role_value : Role → Value
role_value r = string (as_db r)

-- What the write answered: whether one row was changed.
abbrev pub changed : (Accounts → Accounts) → Bool × Accounts → Answered
changed audit (true, s) = (no_content, audit s)
changed audit (false, s) = (not_found, s)

abbrev pub role_of_target :
    Environment → AuthedUser → ℤ → Role → ℤ → Accounts → Option User → Answered
role_of_target env who user_id role now s none = (not_found, s)
role_of_target env who user_id role now s (some target) =
    if role_eq target.role owner
    then (forbidden, s)
    else if env.fails role_write
    then (internal_server_error, s)
    else changed
        (record_audit env who.tenant_id who.user_id (codes "user.role_changed") user_id
          (field (codes "email") (string target.email) (
            field (codes "from") (role_value target.role)
              (field (codes "to") (role_value role) end)))
          now)
        (Users.set_role who.tenant_id user_id role s)

unfoldable pub set_role : Environment → AuthedUser → ℤ → Role → ℤ → Accounts → Answered
set_role env who user_id role now s =
    if negate (can_manage_users who.role)
    then (forbidden, s)
    else if negate (is_assignable role) || user_id == who.user_id
    then (bad_request, s)
    else if env.fails user_read
    then (internal_server_error, s)
    else role_of_target env who user_id role now s (get_user who.tenant_id user_id s)

abbrev pub deleted : (Accounts → Accounts) → Result Bool StoreError × Accounts → Answered
deleted audit (ok b, s) = changed audit (b, s)
deleted audit (err e, s) = (internal_server_error, s)

abbrev pub delete_target : Environment → AuthedUser → ℤ → ℤ → Accounts → Option User → Answered
delete_target env who user_id now s none = (not_found, s)
delete_target env who user_id now s (some target) =
    if role_eq target.role owner
    then (forbidden, s)
    else if env.fails user_delete
    then (internal_server_error, s)
    else deleted
        (record_audit env who.tenant_id who.user_id (codes "user.deleted") user_id
          (field (codes "email") (string target.email)
            (field (codes "role") (role_value target.role) end))
          now)
        (Users.delete_user who.tenant_id user_id s)

unfoldable pub delete_user : Environment → AuthedUser → ℤ → ℤ → Accounts → Answered
delete_user env who user_id now s =
    if negate (can_manage_users who.role)
    then (forbidden, s)
    else if user_id == who.user_id
    then (bad_request, s)
    else if env.fails user_read
    then (internal_server_error, s)
    else delete_target env who user_id now s (get_user who.tenant_id user_id s)
