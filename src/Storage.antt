-- ===== src/Storage.antt =====
-- The tables that hang off a host, migrations/*.sql, and the rows of crates/storage/src/repos. Every
-- statement runs on the one write connection, so an operation is one step of the store; the clock is
-- an argument. What the schema forbids (a key taken, a reference to no row) is an error that leaves
-- the store as it was; failures of the disk and of the connection are left out.
pub mod Table
pub mod Rows
pub mod Hosts
pub mod Lifecycle
pub mod Certs
pub mod Overrides
pub mod Tags
pub mod Documents
pub mod Life
pub mod Refine
pub mod Revocation
pub mod Standing
pub mod Isolation
mod Samples
use nsclient_fleet_server.Common.{ℕ, Bool, true, false, List, Option, none, some, ◌&&◌, ◌==◌, any}
use nsclient_fleet_server.Common.Int.{ℤ, int_eq}
use nsclient_fleet_server.Common.Text.{Text, text_equality}

pub record HostRow : Type 0 where
  pub id : Text
  pub tenant_id : ℤ
  pub hostname : Option Text
  pub os : Option Text
  pub enrolled_at : Option ℤ
  pub last_seen_at : Option ℤ
  pub current_state_hash : Option Text
  pub bootstrap_nonce_hash : Option Text
  pub bootstrap_expires_at : Option ℤ
  pub local_config_present : Option ℤ
  pub host_override_last : Option ℤ
  pub facts_reported_hash : Option Text
  pub facts_reported_at : Option ℤ
  pub facts_refused_hash : Option Text
  pub facts_refused_at : Option ℤ
  pub facts_refused_status : Option ℤ
  pub created_at : ℤ

pub record CertRow : Type 0 where
  pub rid : ℕ
  pub tenant_id : ℤ
  pub host_id : Text
  pub serial : Text
  pub fingerprint_sha256 : Text
  pub issued_at : ℤ
  pub expires_at : ℤ
  pub revoked_at : Option ℤ

pub record TagRow : Type 0 where
  pub tenant_id : ℤ
  pub host_id : Text
  pub key : Text
  pub value : Text
  pub source : Text
  pub updated_at : ℤ

pub record OverrideRow : Type 0 where
  pub tenant_id : ℤ
  pub host_id : Text
  pub patch_encrypted : List ℕ
  pub priority : ℤ
  pub template : Option Text
  pub updated_at : ℤ
  pub updated_by_user : Option ℤ

pub record FactsRow : Type 0 where
  pub tenant_id : ℤ
  pub host_id : Text
  pub source : Text
  pub facts_hash : Text
  pub facts_json : Text
  pub collected_at : Option Text
  pub received_at : ℤ
  pub size_bytes : ℤ

pub record FactChangeRow : Type 0 where
  pub id : ℕ
  pub tenant_id : ℤ
  pub host_id : Text
  pub source : Text
  pub at : ℤ
  pub facts_hash : Text
  pub changes_json : Text

-- The ids of the tenants and of the users are all that the other tables' references ask for.
pub record Store : Type 0 where
  pub tenants : List ℤ
  pub users : List ℤ
  pub hosts : List HostRow
  pub certs : List CertRow
  pub tags : List TagRow
  pub overrides : List OverrideRow
  pub facts : List FactsRow
  pub fact_changes : List FactChangeRow

-- What a statement fails with: a primary key or UNIQUE column taken, a REFERENCES that is not met.
pub data StoreError : Type 0 where
  unique : StoreError
  foreign_key : StoreError

unfoldable pub has_tenant : ℤ → Store → Bool
has_tenant t s = any (λ u. u == t) s.tenants

unfoldable pub has_host : Text → Store → Bool
has_host h s = any (λ r. r.id == h) s.hosts

-- `WHERE tenant_id = ? AND id = ?` and `WHERE tenant_id = ? AND host_id = ?`
abbrev pub is_host : ℤ → Text → HostRow → Bool
is_host t h r = r.tenant_id == t && r.id == h

abbrev pub of_host : ℤ → Text → ℤ → Text → Bool
of_host t h u g = u == t && g == h
