-- ===== src/Accounts/Platform.antt =====
-- The platform console's changes to users: `PlatformAdmin`, `update_user` and `delete_user` of
-- crates/server/src/admin/platform.rs. As in Manage, a handler runs as a whole.
use nsclient_fleet_server.Common.{
  Bool, true, false, not as negate, Option, none, some, ◌&&◌, ◌||◌, ◌==◌, if◌then◌else◌, leb,
}
use nsclient_fleet_server.Common.Int.{ℤ, int_eq}
use nsclient_fleet_server.Common.Text.{Text, codes}
use nsclient_fleet_server.Common.Result.{Result, ok, err, ◌>>=◌}
use nsclient_fleet_server.Json.{Value, null, string, Fields, end, field}
use nsclient_fleet_server.User.{User, owner, role_eq, is_blocked}
use nsclient_fleet_server.Accounts.{Accounts}
use nsclient_fleet_server.Accounts.Users.{get_any, set_blocked, set_platform_admin, count_owners}
use nsclient_fleet_server.Accounts.Users
use nsclient_fleet_server.Accounts.Identify.{AuthedUser, Credential}
use nsclient_fleet_server.Accounts.Manage.{
  Environment, user_read, owners_read, block_write, admin_write, user_delete, actor_read, view_read,
  UserResponse, unauthorized, forbidden, bad_request, not_found, conflict, internal_server_error,
  no_content, user_view, Answered, record_audit, role_value, deleted,
}

abbrev by_session : AuthedUser → Credential → Result AuthedUser UserResponse
by_session who Credential.session = ok who
by_session who Credential.api_key = err forbidden

-- `PlatformAdmin::from_request_parts`: signed in, with the flag, and by a session
unfoldable pub platform_admin : Option AuthedUser → Result AuthedUser UserResponse
platform_admin none = err unauthorized
platform_admin (some who) = if who.is_platform_admin then by_session who who.via else err forbidden

abbrev email_or_null : Option User → Value
email_or_null none = null
email_or_null (some u) = string u.email

unfoldable pub actor_email : Environment → ℤ → Accounts → Value
actor_email env user_id s = if env.fails actor_read then null else email_or_null (get_any user_id s)

-- serde_json sorts the keys of an object.
abbrev audited : Environment → AuthedUser → User → Fields → ℤ → Text → ℤ → Accounts → Accounts
audited env who target role user_id action now s =
    record_audit env target.tenant_id who.user_id action user_id
      (field (codes "actor") (actor_email env who.user_id s) (
        field (codes "by") (string (codes "platform"))
          (field (codes "email") (string target.email) role)))
      now s

pub record UpdateUserBody : Type 0 where
  pub blocked : Option Bool
  pub platform_admin : Option Bool

-- `Some(wanted)` that differs from what the user has
abbrev differs : Option Bool → Bool → Bool
differs none has = false
differs (some true) has = negate has
differs (some false) has = has

abbrev is_true : Option Bool → Bool
is_true none = false
is_true (some b) = b

-- A write that failed leaves the handler there.
abbrev pub Step : Type 0
Step = Result Accounts Answered

unfoldable pub note_blocked :
    Environment → AuthedUser → User → ℤ → Option Bool → ℤ → Accounts → Step
note_blocked env who target user_id blocked now s =
    if negate (differs blocked (is_blocked target))
    then ok s
    else if env.fails block_write
    then err (internal_server_error, s)
    else ok (
        audited env who target end user_id
          (codes (if is_true blocked then "user.blocked" else "user.unblocked")) now
          (set_blocked user_id (is_true blocked) now s).1)

unfoldable pub note_admin : Environment → AuthedUser → User → ℤ → Option Bool → ℤ → Accounts → Step
note_admin env who target user_id is_admin now s =
    if negate (differs is_admin target.is_platform_admin)
    then ok s
    else if env.fails admin_write
    then err (internal_server_error, s)
    else ok (
        audited env who target end user_id
          (codes (
            if is_true is_admin
            then "user.platform_admin_granted"
            else "user.platform_admin_revoked"))
          now (set_platform_admin user_id (is_true is_admin) s).1)

abbrev viewed : Option User → UserResponse
viewed none = no_content
viewed (some u) = user_view u

abbrev pub updated : Environment → ℤ → Step → Answered
updated env user_id (err a) = a
updated env user_id (ok s) =
    (if env.fails view_read then no_content else viewed (get_any user_id s), s)

abbrev pub update_target :
    Environment → AuthedUser → ℤ → UpdateUserBody → ℤ → Accounts → Option User → Answered
update_target env who user_id body now s none = (not_found, s)
update_target env who user_id body now s (some target) = updated env user_id (
    note_blocked env who target user_id body.blocked now s
    >>= note_admin env who target user_id body.platform_admin now)

abbrev is_none : Option Bool → Bool
is_none none = true
is_none (some b) = false

abbrev pub asks_nothing : UpdateUserBody → Bool
asks_nothing body = is_none body.blocked && is_none body.platform_admin

unfoldable pub update_user : Environment → AuthedUser → ℤ → UpdateUserBody → ℤ → Accounts → Answered
update_user env who user_id body now s =
    if asks_nothing body || user_id == who.user_id
    then (bad_request, s)
    else if env.fails user_read
    then (internal_server_error, s)
    else update_target env who user_id body now s (get_any user_id s)

abbrev pub delete_target : Environment → AuthedUser → ℤ → ℤ → Accounts → Option User → Answered
delete_target env who user_id now s none = (not_found, s)
delete_target env who user_id now s (some target) =
    if role_eq target.role owner && env.fails owners_read
    then (internal_server_error, s)
    else if role_eq target.role owner && leb (count_owners target.tenant_id s) 1
    then (conflict, s)
    else if env.fails user_delete
    then (internal_server_error, s)
    else deleted
        (audited env who target (field (codes "role") (role_value target.role) end) user_id
          (codes "user.deleted") now)
        (Users.delete_user target.tenant_id user_id s)

unfoldable pub delete_user : Environment → AuthedUser → ℤ → ℤ → Accounts → Answered
delete_user env who user_id now s =
    if user_id == who.user_id
    then (bad_request, s)
    else if env.fails user_read
    then (internal_server_error, s)
    else delete_target env who user_id now s (get_any user_id s)
