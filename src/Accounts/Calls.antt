-- ===== src/Accounts/Calls.antt =====
-- What the repositories of crates/storage/src/repos/users.rs may do to the tables, one step each.
use nsclient_fleet_server.Common.{ℕ, Bool, true, false, List, [], ◌∷◌, Option, none, some}
use nsclient_fleet_server.Common.Int.{ℤ}
use nsclient_fleet_server.Common.Text.{Text}
use nsclient_fleet_server.Common.Result.{Result, ok, err}
use nsclient_fleet_server.User.{Role}
use nsclient_fleet_server.Storage.{StoreError}
use nsclient_fleet_server.Accounts.{Accounts}
use nsclient_fleet_server.Accounts.Users.{
  create_user, set_blocked, set_platform_admin, promote_platform_admin_by_email, set_role,
  delete_user,
}
use nsclient_fleet_server.Accounts.Credentials.{
  create_link, redeem, delete_expired_links, create_key, touch_last_used, delete_key,
  create_session, touch_session, delete_session, delete_for_user, delete_expired_sessions,
}

pub data Call : Type 0 where
  create_call : ℤ → Text → Role → ℤ → Call
  block_call : ℤ → Bool → Call
  admin_call : ℤ → Bool → Call
  promote_call : Text → Call
  role_call : ℤ → ℤ → Role → Call
  delete_call : ℤ → ℤ → Call
  link_call : Text → ℤ → ℤ → ℤ → Call
  redeem_call : Text → Call
  expire_links_call : Call
  key_call : Text → ℤ → ℤ → Text → Text → Text → Option ℤ → Call
  key_used_call : Text → Call
  delete_key_call : ℤ → ℤ → Text → Call
  session_call : Text → ℤ → ℤ → ℤ → Call
  touch_call : Text → ℤ → Call
  sign_out_call : Text → Call
  sign_out_all_call : ℤ → ℤ → Call
  expire_sessions_call : ℤ → Call

abbrev took_ok {ℓ} : {A : Type ℓ} → Result A StoreError → Bool
took_ok (ok a) = true
took_ok (err e) = false

abbrev took_true : Result Bool StoreError → Bool
took_true (ok b) = b
took_true (err e) = false

abbrev took_some {ℓ} : {A : Type ℓ} → Option A → Bool
took_some (some a) = true
took_some none = false

abbrev answer {ℓ} : {A : Type ℓ} → (A → Bool) → A × Accounts → Bool × Accounts
answer took (a, s) = (took a, s)

abbrev swept : ℕ × Accounts → Bool × Accounts
swept (n, s) = (true, s)

-- A call at a time: whether it took, and the tables after it.
unfoldable pub call : ℤ → Call → Accounts → Bool × Accounts
call now (create_call t email role id) s = answer took_ok (create_user t email role id now s)
call now (block_call u b) s = set_blocked u b now s
call now (admin_call u b) s = set_platform_admin u b s
call now (promote_call email) s = answer took_some (promote_platform_admin_by_email email s)
call now (role_call t u role) s = set_role t u role s
call now (delete_call t u) s = answer took_true (delete_user t u s)
call now (link_call hash t u expires) s = answer took_ok (create_link hash t u expires now s)
call now (redeem_call hash) s = answer took_some (redeem hash now s)
call now expire_links_call s = swept (delete_expired_links now s)
call now (key_call id t u name hash prefix expires) s =
    answer took_ok (create_key id t u name hash prefix expires now s)
call now (key_used_call id) s = (true, touch_last_used id now s)
call now (delete_key_call t u id) s = delete_key t u id s
call now (session_call hash t u ttl) s = answer took_ok (create_session hash t u ttl now s)
call now (touch_call hash idle) s = answer took_some (touch_session hash idle now s)
call now (sign_out_call hash) s = (true, delete_session hash s)
call now (sign_out_all_call t u) s = swept (delete_for_user t u s)
call now (expire_sessions_call idle) s = swept (delete_expired_sessions idle now s)

unfoldable pub run : List (ℤ × Call) → Accounts → Accounts
run [] s = s
run ((now, c) ∷ calls) s = run calls (call now c s).1
