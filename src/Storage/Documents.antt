-- ===== src/Storage/Documents.antt =====
-- `HostFactsRepo` of crates/storage/src/repos/facts.rs.
use nsclient_fleet_server.Common.{
  ℕ, suc, Bool, true, false, not as negate, List, [], ◌∷◌, ◌++◌, Option, none, some, ◌&&◌, ◌==◌,
  if◌then◌else◌, ltb, leb, any, map, keep, length,
}
use nsclient_fleet_server.Common.Int.{ℤ, pos, negsuc, int_eq}
use nsclient_fleet_server.Common.Text.{Text, text_equality}
use nsclient_fleet_server.Common.Result.{Result, ok, err}
use nsclient_fleet_server.Common.TextSet
use nsclient_fleet_server.Facts.Source.{valid_source, agent_source}
use nsclient_fleet_server.Storage.{Store, HostRow, FactsRow, FactChangeRow, is_host, of_host}
use nsclient_fleet_server.Storage.Table.{first, update, delete, count, upsert}
use nsclient_fleet_server.Storage.Hosts.{map_option, coalesce}
use nsclient_fleet_server.Storage.Lifecycle.{set_hosts}

pub record StoredFacts : Type 0 where
  pub source : Text
  pub facts_hash : Text
  pub facts_json : Text
  pub collected_at : Option Text
  pub received_at : ℤ
  pub size_bytes : ℤ

pub record FactsRefusal : Type 0 where
  pub hash : Option Text
  pub at : ℤ
  pub status : ℕ

pub record FactsHashes : Type 0 where
  pub held : Option Text
  pub reported : Option Text
  pub reported_since : Option ℤ
  pub refused : Option FactsRefusal

pub record NewFacts : Type 0 where
  pub source : Text
  pub facts_hash : Text
  pub facts_json : Text
  pub collected_at : Option Text
  pub expected_previous : Option Text
  pub history : Option Text

pub data ReplaceOutcome : Type 0 where
  stored : ReplaceOutcome
  unchanged : ReplaceOutcome
  conflict : ReplaceOutcome
  no_host : ReplaceOutcome

abbrev is_doc : ℤ → Text → Text → FactsRow → Bool
is_doc t h source r = of_host t h r.tenant_id r.host_id && r.source == source

abbrev is_change : ℤ → Text → Text → FactChangeRow → Bool
is_change t h source r = of_host t h r.tenant_id r.host_id && r.source == source

unfoldable pub held_hash : ℤ → Text → Text → Store → Option Text
held_hash t h source s = map_option (λ r. r.facts_hash) (first (is_doc t h source) s.facts)

-- `u16::try_from(status).unwrap_or(0)`
abbrev as_u16 : ℤ → ℕ
as_u16 (pos n) = if ltb n 65_536 then n else 0
as_u16 (negsuc n) = 0

abbrev refusal : Option Text → Option ℤ → Option ℤ → Option FactsRefusal
refusal hash (some at) (some status) =
    some (record { hash = hash; at = at; status = as_u16 status })
refusal hash (some at) none = none
refusal hash none status = none

abbrev hashes_of : ℤ → Text → Store → HostRow → FactsHashes
hashes_of t h s r = record {
  held = held_hash t h agent_source s;
  reported = r.facts_reported_hash;
  reported_since = r.facts_reported_at;
  refused = refusal r.facts_refused_hash r.facts_refused_at r.facts_refused_status;
}

unfoldable pub hashes : ℤ → Text → Store → Option FactsHashes
hashes t h s = map_option (hashes_of t h s) (first (is_host t h) s.hosts)

unfoldable pub record_refusal : ℤ → Text → ℕ → Option Text → ℤ → Store → Store
record_refusal t h status hash now = set_hosts (is_host t h) (λ r. record r {
  facts_refused_hash = coalesce hash r.facts_reported_hash;
  facts_refused_at = some now;
  facts_refused_status = some (pos status);
})

-- `IS NULL OR != ?`
abbrev is_new : Option Text → Text → Bool
is_new none v = true
is_new (some u) v = negate (u == v)

abbrev reports_new : ℤ → Text → Text → HostRow → Bool
reports_new t h hash r = is_host t h r && is_new r.facts_reported_hash hash

unfoldable pub set_reported_hash : ℤ → Text → Text → ℤ → Store → Bool × Store
set_reported_hash t h hash now s = (
  ltb 0 (count (reports_new t h hash) s.hosts),
  set_hosts (reports_new t h hash)
      (λ r. record r { facts_reported_hash = some hash; facts_reported_at = some now }) s,
)

abbrev is_set : Option Text → Bool
is_set none = false
is_set (some u) = true

abbrev has_reported : ℤ → Text → HostRow → Bool
has_reported t h r = is_host t h r && is_set r.facts_reported_hash

unfoldable pub clear_reported_hash : ℤ → Text → ℤ → Store → Bool × Store
clear_reported_hash t h now s = (
  ltb 0 (count (has_reported t h) s.hosts),
  set_hosts (has_reported t h)
      (λ r. record r { facts_reported_hash = none; facts_reported_at = some now }) s,
)

abbrev as_stored : FactsRow → StoredFacts
as_stored r = record {
  source = r.source;
  facts_hash = r.facts_hash;
  facts_json = r.facts_json;
  collected_at = r.collected_at;
  received_at = r.received_at;
  size_bytes = r.size_bytes;
}

unfoldable pub get_document : ℤ → Text → Text → Store → Option StoredFacts
get_document t h source s = map_option as_stored (first (is_doc t h source) s.facts)

-- `current.as_deref() == other`
abbrev pub same_hash : Option Text → Option Text → Bool
same_hash none none = true
same_hash none (some v) = false
same_hash (some u) none = false
same_hash (some u) (some v) = u == v

-- INSERT .. ON CONFLICT(host_id, source) DO UPDATE, which leaves the row's tenant.
unfoldable pub write_document : ℤ → Text → NewFacts → ℤ → List FactsRow → List FactsRow
write_document t h doc now =
    let row : FactsRow = record {
      tenant_id = t;
      host_id = h;
      source = doc.source;
      facts_hash = doc.facts_hash;
      facts_json = doc.facts_json;
      collected_at = doc.collected_at;
      received_at = now;
      size_bytes = pos (length doc.facts_json);
    } in
    upsert (λ r. r.host_id == h && r.source == doc.source)
      (λ r. record row { tenant_id = r.tenant_id }) row

-- SQLite's rowid of a new row.
unfoldable pub next_change_id : List FactChangeRow → ℕ
next_change_id [] = 1
next_change_id (c ∷ cs) = let n = next_change_id cs in if ltb c.id n then n else suc c.id

-- LIMIT n; a negative limit is no limit.
abbrev beyond : ℤ → ℕ → Bool
beyond (pos n) rank = leb n rank
beyond (negsuc n) rank = false

-- DELETE .. WHERE id NOT IN (SELECT id .. ORDER BY id DESC LIMIT ?): a row's place in that order is
-- the number of the document's rows with a larger id.
unfoldable pub trim_history : ℤ → Text → Text → ℤ → List FactChangeRow → List FactChangeRow
trim_history t h source keep_history rows =
    delete
      (λ r.
        is_change t h source r
        && beyond keep_history (count (λ c. is_change t h source c && ltb r.id c.id) rows))
      rows

unfoldable pub add_history :
    ℤ → Text → NewFacts → ℤ → ℤ → Option Text → List FactChangeRow → List FactChangeRow
add_history t h doc keep_history now none rows = rows
add_history t h doc keep_history now (some entry) rows = trim_history t h doc.source keep_history (
    rows
    ++ record {
      id = next_change_id rows;
      tenant_id = t;
      host_id = h;
      source = doc.source;
      at = now;
      facts_hash = doc.facts_hash;
      changes_json = entry;
    }
      ∷ [])

-- A source that may not be written, `anyhow::ensure!`.
pub data InvalidSource : Type 0 where
  invalid_source : InvalidSource

abbrev has_row : ℤ → Text → Store → Bool
has_row t h s = any (is_host t h) s.hosts

-- `replace`: one row is written, as the primary key is (host_id, source).
unfoldable pub replace :
    ℤ → Text → NewFacts → ℤ → ℤ → Store → Result ReplaceOutcome InvalidSource × Store
replace t h doc keep_history now s =
    let current = held_hash t h doc.source s in
    if negate (valid_source doc.source)
    then (err invalid_source, s)
    else if negate (has_row t h s)
    then (ok no_host, s)
    else if same_hash current (some doc.facts_hash)
    then (ok unchanged, s)
    else if negate (same_hash current doc.expected_previous)
    then (ok conflict, s)
    else (
      ok stored,
      record s {
        facts = write_document t h doc now s.facts;
        fact_changes = add_history t h doc keep_history now doc.history s.fact_changes;
      },
    )

abbrev is_other_time : ℤ → Text → Text → Text → Text → FactsRow → Bool
is_other_time t h source hash at r =
    is_doc t h source r && r.facts_hash == hash && is_new r.collected_at at

unfoldable pub refresh_collected_at : ℤ → Text → Text → Text → Text → ℤ → Store → Bool × Store
refresh_collected_at t h source hash at now s = (
  ltb 0 (count (is_other_time t h source hash at) s.facts),
  record s {
    facts =
        update (is_other_time t h source hash at)
          (λ r. record r { collected_at = some at; received_at = now }) s.facts;
  },
)

unfoldable pub delete_document : ℤ → Text → Text → Store → Bool × Store
delete_document t h source s = (
  ltb 0 (count (is_doc t h source) s.facts),
  record s {
    facts = delete (is_doc t h source) s.facts;
    fact_changes = delete (is_change t h source) s.fact_changes;
  },
)

unfoldable pub delete_source : ℤ → Text → Store → List Text × Store
delete_source t source s = (
  map (λ r. r.host_id) (keep (λ r. r.tenant_id == t && r.source == source) s.facts),
  record s {
    facts = delete (λ r. r.tenant_id == t && r.source == source) s.facts;
    fact_changes = delete (λ r. r.tenant_id == t && r.source == source) s.fact_changes;
  },
)

-- SELECT DISTINCT source .. ORDER BY source
abbrev distinct : List FactsRow → List Text
distinct [] = []
distinct (r ∷ rs) = TextSet.insert r.source (distinct rs)

unfoldable list_sources : ℤ → Store → List Text
list_sources t s = distinct (keep (λ r. r.tenant_id == t) s.facts)
