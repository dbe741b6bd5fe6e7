-- ===== src/Accounts/Identify.antt =====
-- Who a request comes from: crates/server/src/auth/middleware.rs. SHA-256 and the failures of the
-- store are the environment's; the handler that runs next is the caller's.
use nsclient_fleet_server.Common.{
  ℕ, Bool, true, false, List, [], ◌∷◌, Option, none, some, ◌&&◌, ◌||◌, ◌==◌, if◌then◌else◌, eqb,
  leb,
}
use nsclient_fleet_server.Common.Int.{ℤ}
use nsclient_fleet_server.Common.Text.{Text, codes, text_equality}
use nsclient_fleet_server.Common.Dict
use nsclient_fleet_server.Facts.Upload.{to_ascii_lowercase}
use nsclient_fleet_server.User.{User, Role, is_blocked}
use nsclient_fleet_server.Accounts.{Accounts, Session}
use nsclient_fleet_server.Accounts.Users.{get_user}
use nsclient_fleet_server.Accounts.Credentials.{
  ApiKey, touch_session, find_by_hash, touch_last_used,
}

pub data Credential : Type 0 where
  session : Credential
  api_key : Credential

pub record AuthedUser : Type 0 where
  pub via : Credential
  pub user_id : ℤ
  pub tenant_id : ℤ
  pub role : Role
  pub is_platform_admin : Bool

-- The repository calls that the layer makes, each of which may fail.
pub data Site : Type 0 where
  session_touch : Site
  key_read : Site
  user_read : Site
  key_touch : Site

pub record Environment : Type 0 where
  pub hash_token : Text → Text
  pub fails : Site → Bool
  pub cookie_secure : Bool
  pub session_idle_ttl_secs : ℤ

-- The cookies by name, and the authorization header when it is readable as text.
pub record Request : Type 0 where
  pub cookies : List (Text × Text)
  pub authorization : Option Text

unfoldable pub session_cookie_name : Bool → Text
session_cookie_name true = codes "__Host-fleet_session"
session_cookie_name false = codes "fleet_session"

abbrev pub as_authed : Credential → ℤ → ℤ → Option User → Option AuthedUser
as_authed via user_id tenant_id none = none
as_authed via user_id tenant_id (some user) =
    if is_blocked user
    then none
    else some record {
      via = via;
      user_id = user_id;
      tenant_id = tenant_id;
      role = user.role;
      is_platform_admin = user.is_platform_admin;
    }

-- `UserRepo::get_user(..).await.ok()??`, and the test of the block.
unfoldable pub unblocked : Environment → Credential → ℤ → ℤ → Accounts → Option AuthedUser
unblocked env via user_id tenant_id s =
    if env.fails user_read
    then none
    else as_authed via user_id tenant_id (get_user tenant_id user_id s)

abbrev pub session_user : Environment → Option Session × Accounts → Option AuthedUser × Accounts
session_user env (none, s) = (none, s)
session_user env (some c, s) = (unblocked env session c.user_id c.tenant_id s, s)

unfoldable pub from_session : Environment → Text → ℤ → Accounts → Option AuthedUser × Accounts
from_session env cookie_value now s =
    if env.fails session_touch
    then (none, s)
    else session_user env
        (touch_session (env.hash_token cookie_value) env.session_idle_ttl_secs now s)

-- `last_used_at` is a convenience: its failure is only logged.
abbrev pub noted :
    Environment → Text → ℤ → Option AuthedUser → Accounts → Option AuthedUser × Accounts
noted env id now none s = (none, s)
noted env id now (some who) s =
    (some who, if env.fails key_touch then s else touch_last_used id now s)

abbrev pub key_user : Environment → ℤ → Accounts → Option ApiKey → Option AuthedUser × Accounts
key_user env now s none = (none, s)
key_user env now s (some key) =
    noted env key.id now (unblocked env api_key key.user_id key.tenant_id s) s

unfoldable pub from_api_key : Environment → Text → ℤ → Accounts → Option AuthedUser × Accounts
from_api_key env token now s =
    if env.fails key_read
    then (none, s)
    else key_user env now s (find_by_hash (env.hash_token token) now s)

-- `split_once(' ')`
abbrev after_scheme : ℕ → Option (Text × Text) → Option (Text × Text)
after_scheme c none = none
after_scheme c (some (before, after)) = some (c ∷ before, after)

unfoldable pub split_once : Text → Option (Text × Text)
split_once [] = none
split_once (c ∷ s) = if eqb c 32 then some ([], s) else after_scheme c (split_once s)

-- `eq_ignore_ascii_case("bearer")`
unfoldable pub is_bearer : Text → Bool
is_bearer scheme = to_ascii_lowercase scheme == codes "bearer"

-- `trim`: a header that is readable as text is ASCII.
abbrev is_space : ℕ → Bool
is_space c = (leb 9 c && leb c 13) || eqb c 32

abbrev trim_start : Text → Text
trim_start [] = []
trim_start (c ∷ s) = let rest = trim_start s in if is_space c then rest else c ∷ s

abbrev onto_trimmed : ℕ → Text → Text
onto_trimmed c [] = if is_space c then [] else c ∷ []
onto_trimmed c (d ∷ s) = c ∷ d ∷ s

abbrev trim_end : Text → Text
trim_end [] = []
trim_end (c ∷ s) = onto_trimmed c (trim_end s)

abbrev if_any : Text → Option Text
if_any [] = none
if_any (c ∷ s) = some (c ∷ s)

abbrev bearer_value : Option (Text × Text) → Option Text
bearer_value none = none
bearer_value (some (scheme, value)) =
    if is_bearer scheme then if_any (trim_end (trim_start value)) else none

abbrev bearer_of : Option Text → Option Text
bearer_of none = none
bearer_of (some raw) = bearer_value (split_once raw)

unfoldable pub bearer_token : Request → Option Text
bearer_token req = bearer_of req.authorization

abbrev pub by_token : Environment → Option Text → ℤ → Accounts → Option AuthedUser × Accounts
by_token env none now s = (none, s)
by_token env (some token) now s = from_api_key env token now s

-- A request that has the cookie is not asked for a token.
abbrev pub by_cookie :
    Environment → Option Text → Request → ℤ → Accounts → Option AuthedUser × Accounts
by_cookie env (some value) req now s = from_session env value now s
by_cookie env none req now s = by_token env (bearer_token req) now s

unfoldable pub session_layer : Environment → Request → ℤ → Accounts → Option AuthedUser × Accounts
session_layer env req now s =
    by_cookie env (Dict.get (session_cookie_name env.cookie_secure) req.cookies) req now s
