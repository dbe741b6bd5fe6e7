-- ===== src/Accounts/Samples.antt =====
-- Tests and witnesses for the accounts.
use nsclient_fleet_server.Common.{
  true, arith, false, ◌≡◌, ◌≢◌, refl, ◌≤◌, List, [], ◌∷◌, none, some,
}
use nsclient_fleet_server.Common.Int.{ℤ, pos, ◌+ℤ◌, ◌-ℤ◌, int_eq}
use nsclient_fleet_server.Common.Text.{Text, codes, text_equality, text_eq}
use nsclient_fleet_server.Common.Dict
use nsclient_fleet_server.User.{admin, from_db, is_blocked}
use nsclient_fleet_server.Storage.Table.{first, update, delete, count}
use nsclient_fleet_server.Storage.Rows.{IsKeyed}
use nsclient_fleet_server.Accounts.{Accounts, UserRow, may_refer}
use nsclient_fleet_server.Accounts.Users.{
  count_owners, detach, is_referenced, get_any, get_user, map_user, set_blocked,
}
use nsclient_fleet_server.Accounts.Credentials.{create_session, redeem, touch_session}
use nsclient_fleet_server.Accounts.Identify.{
  AuthedUser, Credential, Environment, Request, session_layer, session_cookie_name, bearer_token,
  from_session, unblocked, split_once, is_bearer,
}
use nsclient_fleet_server.Accounts.Calls.{
  Call, call, run, block_call, session_call, redeem_call, expire_links_call,
}
use nsclient_fleet_server.Accounts.Blocked.Layer.{session_layer-blocked}
use nsclient_fleet_server.Accounts.Users
use nsclient_fleet_server.Accounts.Manage
use nsclient_fleet_server.Accounts.Manage.{record_audit, conflict}
use nsclient_fleet_server.Accounts.Platform
use nsclient_fleet_server.Accounts.Platform.{platform_admin}
use nsclient_fleet_server.Accounts.Owners.{IsNumbered}
use nsclient_fleet_server.Accounts.Owners.Served.{
  Change, platform_delete_change, serve, serve_all, serve_all-owner,
}
use nsclient_fleet_server.Accounts.Once.{redemptions, redeem-once}

abbrev user_row : ℤ → UserRow
user_row id = record {
  id = id;
  tenant_id = pos 1;
  email = codes "u";
  role = codes "admin";
  blocked_at = none;
  is_platform_admin = pos 0;
  created_at = pos 5;
}

abbrev tables : Accounts
tables = record {
  tenants = pos 1 ∷ [];
  users = user_row (pos 7) ∷ user_row (pos 8) ∷ [];
  sessions = [];
  magic_links =
      record {
        token_hash = codes "h";
        tenant_id = pos 1;
        user_id = pos 7;
        expires_at = pos 100;
        used_at = none;
        created_at = pos 5;
      }
      ∷ [];
  api_keys = [];
  audit_log = [];
  host_overrides = [];
  platform_settings = [];
}

abbrev environment : Environment
environment = record {
  hash_token = λ t. t;
  fails = λ site. false;
  cookie_secure = false;
  session_idle_ttl_secs = pos 50;
}

abbrev with_cookie : Text → Request
with_cookie value = record { cookies = (codes "fleet_session", value) ∷ []; authorization = none }

-- Two users sign in after the first is blocked; only the second is known by the cookie.
abbrev sign_ins : List (ℤ × Call)
sign_ins =
    (pos 20, session_call (codes "a") (pos 1) (pos 7) (pos 90))
    ∷ (pos 20, session_call (codes "b") (pos 1) (pos 8) (pos 90))
    ∷ []

abbrev signed_in : AuthedUser
signed_in = record {
  via = Credential.session;
  user_id = pos 8;
  tenant_id = pos 1;
  role = admin;
  is_platform_admin = false;
}

layer_of_blocked :
    (session_layer environment
      (with_cookie (codes "a"))
      (pos 30)
      (run sign_ins (call (pos 10) (block_call (pos 7) true) tables).1)).0
    ≡ none
unfolding session_layer session_cookie_name from_session unblocked is_blocked get_user map_user run
    call create_session may_refer set_blocked touch_session first update delete count from_db
    Dict.get text_eq ◌+ℤ◌ ◌-ℤ◌
layer_of_blocked = refl

layer_of_other :
    (session_layer environment
      (with_cookie (codes "b"))
      (pos 30)
      (run sign_ins (call (pos 10) (block_call (pos 7) true) tables).1)).0
    ≡ some signed_in
unfolding session_layer session_cookie_name from_session unblocked is_blocked get_user map_user run
    call create_session may_refer set_blocked touch_session first update delete count from_db
    Dict.get text_eq ◌+ℤ◌ ◌-ℤ◌
layer_of_other = refl

session_layer-blocked_example : signed_in.user_id ≢ pos 7
unfolding call set_blocked count
session_layer-blocked_example =
    session_layer-blocked environment (with_cookie (codes "b")) (pos 10) (pos 30) (pos 7) sign_ins
      tables signed_in refl refl layer_of_other

bearer_trimmed :
    bearer_token record { cookies = []; authorization = some (codes "BEARER  k ") }
    ≡ some (codes "k")
unfolding bearer_token split_once is_bearer text_eq
bearer_trimmed = refl

abbrev redeems : List (ℤ × Call)
redeems =
    (pos 20, redeem_call (codes "h"))
    ∷ (pos 30, redeem_call (codes "h"))
    ∷ (pos 40, expire_links_call)
    ∷ []

redeemed_once : redemptions (codes "h") redeems tables ≡ 1
unfolding redemptions call redeem first update text_eq
redeemed_once = refl

redeem-once_example : redemptions (codes "h") redeems tables ≤ 1
unfolding IsKeyed text_eq
redeem-once_example = redeem-once redeems (codes "h") tables (refl, tt) refl

abbrev owner_row : ℤ → UserRow
owner_row id = record (user_row id) { role = codes "owner"; is_platform_admin = pos 1 }

abbrev owned : Accounts
owned = record tables { users = owner_row (pos 1) ∷ owner_row (pos 2) ∷ user_row (pos 7) ∷ [] }

abbrev manage_environment : Manage.Environment
manage_environment = record { to_string = λ v. none; decimal = λ z. []; fails = λ site. false }

abbrev console : AuthedUser
console = record signed_in { is_platform_admin = true }

-- The console deletes an owner, and is refused the other.
abbrev deletes : List (Manage.Environment × ℤ × Change)
deletes =
    (manage_environment, pos 10, platform_delete_change (some console) (pos 1))
    ∷ (manage_environment, pos 11, platform_delete_change (some console) (pos 2))
    ∷ []

second_is_refused :
    (serve manage_environment
      (pos 11)
      (platform_delete_change (some console) (pos 2))
      (serve manage_environment (pos 10) (platform_delete_change (some console) (pos 1)) owned).1).0
    ≡ conflict
unfolding serve platform_admin Platform.delete_user get_any first map_user from_db count_owners
    count Users.delete_user detach is_referenced record_audit update delete text_eq
second_is_refused = refl

serve_all-owner_example : 1 ≤ count_owners (pos 1) (serve_all deletes owned)
unfolding IsNumbered count_owners count text_eq
serve_all-owner_example =
    serve_all-owner deletes (pos 1) owned (refl, (refl, (refl, tt))) (omega arith)
