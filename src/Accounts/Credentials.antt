-- ===== src/Accounts/Credentials.antt =====
-- `MagicLinkRepo`, `ApiKeyRepo` and `SessionRepo` of crates/storage/src/repos/users.rs, and
-- crates/core/src/api_key.rs. A new key's id is a fresh ULID, an argument.
use nsclient_fleet_server.Common.{
  ℕ, Bool, true, false, List, [], ◌∷◌, ◌++◌, Option, none, some, ◌&&◌, ◌||◌, ◌==◌, any, map, keep,
  if◌then◌else◌, eqb,
}
use nsclient_fleet_server.Common.Int.{ℤ, ◌+ℤ◌, ◌-ℤ◌, ltb_ℤ, int_eq}
use nsclient_fleet_server.Common.Text.{Text, text_equality}
use nsclient_fleet_server.Common.Result.{ok, err}
use nsclient_fleet_server.Storage.{unique, foreign_key}
use nsclient_fleet_server.Storage.Table.{first, update, delete, count, order_by}
use nsclient_fleet_server.Storage.Hosts.{map_option}
use nsclient_fleet_server.Accounts.{
  Accounts, MagicLinkRow, ApiKeyRow, Session, Reply, may_refer, of_user,
}

abbrev pub new_link : Text → ℤ → ℤ → ℤ → ℤ → MagicLinkRow
new_link token_hash tenant_id user_id expires_at now = record {
  token_hash = token_hash;
  tenant_id = tenant_id;
  user_id = user_id;
  expires_at = expires_at;
  used_at = none;
  created_at = now;
}

unfoldable pub create_link : Text → ℤ → ℤ → ℤ → ℤ → Accounts → Reply (Unit {0})
create_link token_hash tenant_id user_id expires_at now s =
    if any (λ l. l.token_hash == token_hash) s.magic_links
    then (err unique, s)
    else if may_refer tenant_id user_id s
    then (
      ok tt,
      record s {
        magic_links = s.magic_links ++ new_link token_hash tenant_id user_id expires_at now ∷ [];
      },
    )
    else (err foreign_key, s)

abbrev is_unused : Option ℤ → Bool
is_unused none = true
is_unused (some used) = false

abbrev pub is_open : Text → MagicLinkRow → Bool
is_open token_hash l = l.token_hash == token_hash && is_unused l.used_at

abbrev pub is_redeemable : Text → ℤ → MagicLinkRow → Bool
is_redeemable token_hash now l = is_open token_hash l && ltb_ℤ now l.expires_at

unfoldable pub redeem : Text → ℤ → Accounts → Option (ℤ × ℤ) × Accounts
redeem token_hash now s = (
  map_option (λ l. (l.tenant_id, l.user_id)) (first (is_redeemable token_hash now) s.magic_links),
  record s {
    magic_links =
        update (is_redeemable token_hash now) (λ l. record l { used_at = some now }) s.magic_links;
  },
)

unfoldable pub delete_expired_links : ℤ → Accounts → ℕ × Accounts
delete_expired_links now s = (
  count (λ l. ltb_ℤ l.expires_at now) s.magic_links,
  record s { magic_links = delete (λ l. ltb_ℤ l.expires_at now) s.magic_links },
)

pub record ApiKey : Type 0 where
  pub id : Text
  pub tenant_id : ℤ
  pub user_id : ℤ
  pub name : Text
  pub token_prefix : Text
  pub created_at : ℤ
  pub last_used_at : Option ℤ
  pub expires_at : Option ℤ

unfoldable pub map_api_key : ApiKeyRow → ApiKey
map_api_key r = record {
  id = r.id;
  tenant_id = r.tenant_id;
  user_id = r.user_id;
  name = r.name;
  token_prefix = r.token_prefix;
  created_at = r.created_at;
  last_used_at = r.last_used_at;
  expires_at = r.expires_at;
}

-- INSERT INTO api_keys: the id is the primary key, the hash UNIQUE.
unfoldable pub create_key :
    Text → ℤ → ℤ → Text → Text → Text → Option ℤ → ℤ → Accounts → Reply ApiKey
create_key id tenant_id user_id name token_hash token_prefix expires_at now s =
    let row : ApiKeyRow = record {
      id = id;
      tenant_id = tenant_id;
      user_id = user_id;
      name = name;
      token_hash = token_hash;
      token_prefix = token_prefix;
      created_at = now;
      last_used_at = none;
      expires_at = expires_at;
    } in
    if any (λ k. k.id == id || k.token_hash == token_hash) s.api_keys
    then (err unique, s)
    else if may_refer tenant_id user_id s
    then (ok (map_api_key row), record s { api_keys = s.api_keys ++ row ∷ [] })
    else (err foreign_key, s)

unfoldable pub list_for_user : ℤ → ℤ → Accounts → List ApiKey
list_for_user tenant_id user_id s = map map_api_key (
    order_by (λ a b. ltb_ℤ b.created_at a.created_at)
      (keep (λ k. of_user tenant_id user_id k.tenant_id k.user_id) s.api_keys))

-- `expires_at IS NULL OR expires_at > ?`
abbrev is_unexpired : Option ℤ → ℤ → Bool
is_unexpired none now = true
is_unexpired (some e) now = ltb_ℤ now e

unfoldable pub find_by_hash : Text → ℤ → Accounts → Option ApiKey
find_by_hash token_hash now s =
    map_option map_api_key
      (first (λ k. k.token_hash == token_hash && is_unexpired k.expires_at now) s.api_keys)

unfoldable pub touch_last_used : Text → ℤ → Accounts → Accounts
touch_last_used id now s = record s {
  api_keys = update (λ k. k.id == id) (λ k. record k { last_used_at = some now }) s.api_keys;
}

unfoldable pub delete_key : ℤ → ℤ → Text → Accounts → Bool × Accounts
delete_key tenant_id user_id id s =
    let mine : ApiKeyRow → Bool =
      λ k. of_user tenant_id user_id k.tenant_id k.user_id && k.id == id in
    (eqb (count mine s.api_keys) 1, record s { api_keys = delete mine s.api_keys })

unfoldable pub create_session : Text → ℤ → ℤ → ℤ → ℤ → Accounts → Reply Session
create_session id_hash tenant_id user_id ttl_seconds now s =
    let session : Session = record {
      id_hash = id_hash;
      tenant_id = tenant_id;
      user_id = user_id;
      expires_at = now +ℤ ttl_seconds;
      last_used_at = now;
      created_at = now;
    } in
    if any (λ c. c.id_hash == id_hash) s.sessions
    then (err unique, s)
    else if may_refer tenant_id user_id s
    then (ok session, record s { sessions = s.sessions ++ session ∷ [] })
    else (err foreign_key, s)

abbrev is_live : Text → ℤ → ℤ → Session → Bool
is_live id_hash idle_ttl_seconds now c =
    c.id_hash == id_hash && ltb_ℤ now c.expires_at && ltb_ℤ (now -ℤ idle_ttl_seconds) c.last_used_at

abbrev used : ℤ → Session → Session
used now c = record c { last_used_at = now }

-- RETURNING gives the row as the statement leaves it.
unfoldable pub touch_session : Text → ℤ → ℤ → Accounts → Option Session × Accounts
touch_session id_hash idle_ttl_seconds now s =
    let live = is_live id_hash idle_ttl_seconds now in
    (
      map_option (used now) (first live s.sessions),
      record s { sessions = update live (used now) s.sessions },
    )

unfoldable pub delete_session : Text → Accounts → Accounts
delete_session id_hash s = record s { sessions = delete (λ c. c.id_hash == id_hash) s.sessions }

unfoldable pub delete_for_user : ℤ → ℤ → Accounts → ℕ × Accounts
delete_for_user tenant_id user_id s =
    let mine : Session → Bool = λ c. of_user tenant_id user_id c.tenant_id c.user_id in
    (count mine s.sessions, record s { sessions = delete mine s.sessions })

unfoldable pub delete_expired_sessions : ℤ → ℤ → Accounts → ℕ × Accounts
delete_expired_sessions idle_ttl_seconds now s =
    let old : Session → Bool =
      λ c. ltb_ℤ c.expires_at now || ltb_ℤ c.last_used_at (now -ℤ idle_ttl_seconds) in
    (count old s.sessions, record s { sessions = delete old s.sessions })
