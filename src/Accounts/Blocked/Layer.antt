-- ===== src/Accounts/Blocked/Layer.antt =====
-- Whom crates/server/src/auth/middleware.rs lets in while a user is blocked.
use nsclient_fleet_server.Common.{
  true, false, ◌≡◌, ◌≢◌, refl, all, List, Option, none, some, arith, ap, subst, sym, ◌∙◌,
  if◌then◌else◌, not as negate, Bool-cases, Option-cases, inl, inr,
}
use nsclient_fleet_server.Common.Int.{ℤ, int_eq}
use nsclient_fleet_server.Common.Text.{Text, text_equality}
use nsclient_fleet_server.Common.Dict
use nsclient_fleet_server.User.{User, is_blocked}
use nsclient_fleet_server.Storage.Table.{first}
use nsclient_fleet_server.Storage.Hosts.{map_option}
use nsclient_fleet_server.Accounts.{Accounts, UserRow, Session}
use nsclient_fleet_server.Accounts.Users.{get_user, is_user, map_user, set_blocked}
use nsclient_fleet_server.Accounts.Credentials.{ApiKey, find_by_hash, touch_session}
use nsclient_fleet_server.Accounts.Identify.{
  AuthedUser, Credential, Environment, unblocked, Request, session_layer, from_session,
  from_api_key, as_authed, noted, bearer_token, by_token, by_cookie, session_cookie_name,
  session_touch, session_user, session, api_key, key_user, key_read,
}
use nsclient_fleet_server.Accounts.Calls.{Call, block_call, call, run}
use nsclient_fleet_server.Accounts.Blocked.{
  given, is_barred, is_shut_out, first-all, set_blocked-shut_out, is_lifting, run-shut_out,
}

pub mapped :
    (o : Option UserRow) (user : User)
    → map_option map_user o ≡ some user
    → (r : UserRow) × (o ≡ some r) × (map_user r ≡ user)
mapped none user h = cc
mapped (some r) user h = (r, refl, ground (arith, h))

authed :
    (via : Credential) (v t : ℤ) (o : Option User) (who : AuthedUser)
    → as_authed via v t o ≡ some who
    → (user : User) × (o ≡ some user) × (is_blocked user ≡ false) × (who.user_id ≡ v)
authed via v t none who h = cc
authed via v t (some user) who h = elim (Bool-cases (is_blocked user)) [
  | inl b ↦ absurd (ground (arith, h, b))
  | inr b ↦ (user, refl, b, ground (arith, h, b))
]

row-given : (r : UserRow) → is_blocked (map_user r) ≡ given r.blocked_at
unfolding map_user is_blocked
row-given r = elim (Option-cases r.blocked_at) [ inl e ↦ rw e refl | inr (b, e) ↦ rw e refl ]

row-blocked :
    (u t : ℤ) (r : UserRow)
    → is_user t u r ≡ true
    → is_barred u r ≡ true
    → is_blocked (map_user r) ≡ true
row-blocked u t r m b = row-given r ∙ ground (arith, m, b)

get-blocked :
    (u t : ℤ) (s : Accounts) (user : User)
    → is_shut_out u s.users ≡ true
    → get_user t u s ≡ some user
    → is_blocked user ≡ true
unfolding get_user
get-blocked u t s user k h =
    let (r, n, e) = mapped (first (is_user t u) s.users) user h in
    let (m, b) = first-all (is_user t u) (is_barred u) s.users r (ground (arith, k)) n in
    subst (λ x. is_blocked x ≡ true) e (row-blocked u t r m b)

unblocked-other :
    (env : Environment) (via : Credential) (u v t : ℤ) (s : Accounts) (who : AuthedUser)
    → is_shut_out u s.users ≡ true
    → unblocked env via v t s ≡ some who
    → who.user_id ≢ u
unfolding unblocked
unblocked-other env via u v t s who k h e =
    let (user, g, b, i) = authed via v t (get_user t v s) who (ground (arith, h)) in
    let same = subst (λ x. get_user t x s ≡ some user) (sym i ∙ e) g in
    ground (arith, b, get-blocked u t s user k same)

from_session-other :
    (env : Environment) (value : Text) (at : ℤ) (u : ℤ) (s : Accounts) (who : AuthedUser)
    → is_shut_out u s.users ≡ true
    → (from_session env value at s).0 ≡ some who
    → who.user_id ≢ u
unfolding from_session touch_session
from_session-other env value at u s who k h =
    go env (touch_session (env.hash_token value) env.session_idle_ttl_secs at s) refl h
  where
    go :
        (env : Environment) (r : Option Session × Accounts)
        → r ≡ touch_session (env.hash_token value) env.session_idle_ttl_secs at s
        → (if env.fails session_touch then (none, s) else session_user env r).0 ≡ some who
        → who.user_id ≢ u
    go env (none, t) e h = ground (arith, h)
    go env (some c, t) e h =
        unblocked-other env session u c.user_id c.tenant_id t who
          (subst (λ x. is_shut_out u x ≡ true)
            (sym (ap (λ (x : Option Session × Accounts). x.1.users) e)) k)
          (ground (arith, h))

key_user-who :
    (env : Environment) (at : ℤ) (s : Accounts) (key : ApiKey) (who : AuthedUser)
    → (key_user env at s (some key)).0 ≡ some who
    → unblocked env api_key key.user_id key.tenant_id s ≡ some who
key_user-who env at s key who h = go (unblocked env api_key key.user_id key.tenant_id s) refl h
  where
    go :
        (o : Option AuthedUser)
        → o ≡ unblocked env api_key key.user_id key.tenant_id s
        → (noted env key.id at o s).0 ≡ some who
        → unblocked env api_key key.user_id key.tenant_id s ≡ some who
    go none e h = cc
    go (some w) e h = sym e ∙ h

from_api_key-other :
    (env : Environment) (token : Text) (at : ℤ) (u : ℤ) (s : Accounts) (who : AuthedUser)
    → is_shut_out u s.users ≡ true
    → (from_api_key env token at s).0 ≡ some who
    → who.user_id ≢ u
unfolding from_api_key
from_api_key-other env token at u s who k h = go env (find_by_hash (env.hash_token token) at s) h
  where
    go :
        (env : Environment) (key : Option ApiKey)
        → (if env.fails key_read then (none, s) else key_user env at s key).0 ≡ some who
        → who.user_id ≢ u
    go env none h = ground (arith, h)
    go env (some key) h =
        unblocked-other env api_key u key.user_id key.tenant_id s who k
          (key_user-who env at s key who (ground (arith, h)))

-- A blocked user is kept out: once a block took, after any sequence of calls that neither unblocks
-- nor deletes the user, no request, whatever its cookies and its header, is identified as the user.
pub session_layer-blocked :
    (env : Environment) (req : Request) (now at : ℤ) (u : ℤ) (calls : List (ℤ × Call))
    (s : Accounts) (who : AuthedUser)
    → (call now (block_call u true) s).0 ≡ true
    → all (λ c. negate (is_lifting u c.1)) calls ≡ true
    → (session_layer env req at (run calls (call now (block_call u true) s).1)).0 ≡ some who
    → who.user_id ≢ u
unfolding session_layer call
session_layer-blocked env req now at u calls s who b l h =
    let out =
      run-shut_out calls u (set_blocked u true now s).1 l (set_blocked-shut_out u now s b) in
    go (Dict.get (session_cookie_name env.cookie_secure) req.cookies)
      (run calls (set_blocked u true now s).1) out h
  where
    go :
        (cookie : Option Text) (t : Accounts)
        → is_shut_out u t.users ≡ true
        → (by_cookie env cookie req at t).0 ≡ some who
        → who.user_id ≢ u
    go (some value) t out h = from_session-other env value at u t who out h
    go none t out h = by (bearer_token req) t out h
      where
        by :
            (token : Option Text) (t : Accounts)
            → is_shut_out u t.users ≡ true
            → (by_token env token at t).0 ≡ some who
            → who.user_id ≢ u
        by none t out h = cc
        by (some token) t out h = from_api_key-other env token at u t who out h
