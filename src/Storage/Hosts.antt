-- ===== src/Storage/Hosts.antt =====
-- `HostRepo` of crates/storage/src/repos/hosts.rs. A new host's id is `new_host_id`'s, an argument.
use nsclient_fleet_server.Common.{
  ℕ, suc, Bool, true, false, not as negate, List, [], ◌∷◌, ◌++◌, Option, none, some, ◌&&◌, ◌||◌,
  ◌==◌, any, map, keep, if◌then◌else◌, eqb, ltb,
}
use nsclient_fleet_server.Common.Int.{ℤ, pos, ◌-ℤ◌, ltb_ℤ, int_eq}
use nsclient_fleet_server.Common.Text.{Text, text_equality}
use nsclient_fleet_server.Common.Result.{Result, ok, err}
use nsclient_fleet_server.Host.{Host}
use nsclient_fleet_server.Storage.{
  Store, HostRow, CertRow, StoreError, unique, foreign_key, has_tenant, has_host, is_host,
}
use nsclient_fleet_server.Storage.Table.{first, update, count, order_by}

abbrev pub Reply : Type 0 → Type 0
Reply A = Result A StoreError × Store

-- `map_host`; SQLite's booleans are integers
abbrev as_bool : Option ℤ → Option Bool
as_bool none = none
as_bool (some v) = some (negate (v == pos 0))

unfoldable pub map_host : HostRow → Host
map_host r = record {
  id = r.id;
  tenant_id = r.tenant_id;
  hostname = r.hostname;
  os = r.os;
  enrolled_at = r.enrolled_at;
  last_seen_at = r.last_seen_at;
  current_state_hash = r.current_state_hash;
  bootstrap_expires_at = r.bootstrap_expires_at;
  local_config_present = as_bool r.local_config_present;
  host_override_last = as_bool r.host_override_last;
  created_at = r.created_at;
}

-- INSERT INTO hosts: the id is the primary key, the tenant a reference.
unfoldable pub insert_host_row : HostRow → Store → Reply Host
insert_host_row r s =
    if has_host r.id s
    then (err unique, s)
    else if has_tenant r.tenant_id s
    then (ok (map_host r), record s { hosts = s.hosts ++ r ∷ [] })
    else (err foreign_key, s)

abbrev blank : ℤ → Text → ℤ → HostRow
blank tenant_id id now = record {
  id = id;
  tenant_id = tenant_id;
  hostname = none;
  os = none;
  enrolled_at = none;
  last_seen_at = none;
  current_state_hash = none;
  bootstrap_nonce_hash = none;
  bootstrap_expires_at = none;
  local_config_present = none;
  host_override_last = none;
  facts_reported_hash = none;
  facts_reported_at = none;
  facts_refused_hash = none;
  facts_refused_at = none;
  facts_refused_status = none;
  created_at = now;
}

unfoldable pub create : ℤ → Text → Option Text → Option Text → ℤ → Store → Reply Host
create tenant_id id hostname os now =
    insert_host_row (record (blank tenant_id id now) { hostname = hostname; os = os })

unfoldable pub create_pending : ℤ → Text → Text → ℤ → ℤ → Store → Reply Host
create_pending tenant_id id nonce_hash bootstrap_expires_at now =
    insert_host_row (record (blank tenant_id id now) {
      bootstrap_nonce_hash = some nonce_hash;
      bootstrap_expires_at = some bootstrap_expires_at;
    })

abbrev pub map_option {ℓ κ} : {A : Type ℓ} {B : Type κ} → (A → B) → Option A → Option B
map_option f none = none
map_option f (some a) = some (f a)

unfoldable get : ℤ → Text → Store → Option Host
get tenant_id host_id s = map_option map_host (first (is_host tenant_id host_id) s.hosts)

unfoldable list : ℤ → Store → List Host
list tenant_id s = map map_host (
    order_by (λ a b. ltb_ℤ b.created_at a.created_at)
      (keep (λ r. r.tenant_id == tenant_id) s.hosts))

abbrev given {ℓ} : {A : Type ℓ} → Option A → Bool
given none = false
given (some a) = true

unfoldable counts_as_active : ℤ → ℤ → HostRow → Bool
counts_as_active tenant_id now r =
    r.tenant_id == tenant_id
    && (given r.enrolled_at
        || (negate (given r.enrolled_at) && ltb_ℤ (now -ℤ pos 86_400) r.created_at))

unfoldable count_active : ℤ → ℤ → Store → ℕ
count_active tenant_id now s = count (counts_as_active tenant_id now) s.hosts

-- A comparison with NULL holds of nothing.
abbrev is_now : Option Text → Text → Bool
is_now none t = false
is_now (some u) t = u == t

abbrev is_after : Option ℤ → ℤ → Bool
is_after none now = false
is_after (some e) now = ltb_ℤ now e

-- The condition that `bootstrap_pending` reads and `enroll` burns.
unfoldable pub awaits : ℤ → Text → Text → ℤ → HostRow → Bool
awaits tenant_id host_id nonce_hash now r =
    is_host tenant_id host_id r
    && is_now r.bootstrap_nonce_hash nonce_hash
    && negate (given r.enrolled_at)
    && is_after r.bootstrap_expires_at now

unfoldable bootstrap_pending : ℤ → Text → Text → ℤ → Store → Bool
bootstrap_pending tenant_id host_id nonce_hash now s =
    given (first (awaits tenant_id host_id nonce_hash now) s.hosts)

pub record EnrolledCert : Type 0 where
  pub serial : Text
  pub fingerprint_sha256 : Text
  pub issued_at : ℤ
  pub expires_at : ℤ

-- COALESCE
abbrev pub coalesce : Option Text → Option Text → Option Text
coalesce none old = old
coalesce (some new) old = some new

-- SQLite's rowid of a new row is one more than the largest in use.
unfoldable pub next_rid : List CertRow → ℕ
next_rid [] = 1
next_rid (c ∷ cs) = let n = next_rid cs in if ltb c.rid n then n else suc c.rid

-- INSERT INTO host_certs: the serial is UNIQUE.
unfoldable pub insert_cert : ℤ → Text → EnrolledCert → Store → Reply (Unit {0})
insert_cert tenant_id host_id cert s =
    if any (λ c. c.serial == cert.serial) s.certs
    then (err unique, s)
    else if has_host host_id s && has_tenant tenant_id s
    then (
      ok tt,
      record s {
        certs =
            s.certs
            ++ record {
              rid = next_rid s.certs;
              tenant_id = tenant_id;
              host_id = host_id;
              serial = cert.serial;
              fingerprint_sha256 = cert.fingerprint_sha256;
              issued_at = cert.issued_at;
              expires_at = cert.expires_at;
              revoked_at = none;
            }
              ∷ [];
      },
    )
    else (err foreign_key, s)

unfoldable pub burn : Option Text → Option Text → ℤ → HostRow → HostRow
burn hostname os now r = record r {
  enrolled_at = some now;
  hostname = coalesce hostname r.hostname;
  os = coalesce os r.os;
  bootstrap_nonce_hash = none;
  bootstrap_expires_at = none;
}

-- What a transaction leaves: its own store, or the one it began with if a statement failed.
abbrev commit_or_rollback {ℓ} :
    {A : Type 0} {B : Type ℓ} → Store → (A → B) → Reply A → Result B StoreError × Store
commit_or_rollback s f (ok a, after) = (ok (f a), after)
commit_or_rollback s f (err e, after) = (err e, s)

unfoldable pub enroll :
    ℤ → Text → Text → Option Text → Option Text → EnrolledCert → ℤ → Store → Reply Bool
enroll tenant_id host_id nonce_hash hostname os cert now s =
    let waiting = awaits tenant_id host_id nonce_hash now in
    let burned = count waiting s.hosts in
    if eqb burned 1
    then commit_or_rollback s (λ _. true)
        (insert_cert tenant_id host_id cert
          (record s { hosts = update waiting (burn hostname os now) s.hosts }))
    else (ok false, s)
