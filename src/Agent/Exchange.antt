-- ===== src/Agent/Exchange.antt =====
-- crates/server/src/facts/exchange.rs: the hashes that the agent and the server tell each other.
use nsclient_fleet_server.Common.{
  ℕ, Bool, false, not as negate, ◌&&◌, ◌||◌, ◌==◌, Option, none, some, if◌then◌else◌,
}
use nsclient_fleet_server.Common.Int.{ℤ, pos, ◌-ℤ◌, leb_ℤ}
use nsclient_fleet_server.Common.Text.{Text, codes, text_equality}
use nsclient_fleet_server.Common.Result.{Result, ok, err}
use nsclient_fleet_server.Facts.Source.{agent_source}
use nsclient_fleet_server.Facts.Upload.{normalize_hash}
use nsclient_fleet_server.Storage.{Store}
use nsclient_fleet_server.Storage.Documents.{
  FactsHashes, ReplaceOutcome, hashes, same_hash, set_reported_hash, clear_reported_hash,
}
use nsclient_fleet_server.Agent.{
  AgentState, Environment, hashes_read, reported_clear, reported_write,
}
use nsclient_fleet_server.Agent.Documents.{store, DocumentError}

abbrev empty_clear_grace_secs : ℤ
empty_clear_grace_secs = pos 600

abbrev facts_hash_none : Text
facts_hash_none = codes "none"

abbrev pub empty_facts_hash : Text
empty_facts_hash = codes "44136fa355b3678a1146ad16f7e8649e94fb4fc21fe77e8310c060f61caaff8a"

pub data EmptyOverInventory : Type 0 where
  not_applicable : EmptyOverInventory
  pending : EmptyOverInventory
  due : EmptyOverInventory

abbrev is_inventory : Option Text → Bool
is_inventory none = false
is_inventory (some held) = negate (held == empty_facts_hash)

unfoldable pub holds_inventory : FactsHashes → Bool
holds_inventory h = is_inventory h.held

abbrev pub since_grace : Option ℤ → ℤ → Bool
since_grace none now = false
since_grace (some since) now = leb_ℤ empty_clear_grace_secs (now -ℤ since)

unfoldable pub empty_for_long_enough : FactsHashes → ℤ → Bool
empty_for_long_enough h now =
    same_hash h.reported (some empty_facts_hash) && since_grace h.reported_since now

unfoldable pub empty_over_inventory : FactsHashes → Text → ℤ → EmptyOverInventory
unfolding holds_inventory empty_for_long_enough
empty_over_inventory h hash now =
    if negate (hash == empty_facts_hash) || negate (holds_inventory h)
    then not_applicable
    else if empty_for_long_enough h now
    then due
    else pending

abbrev Advertised : Type 0
Advertised = Option Text × AgentState

abbrev set_store : AgentState → Store → AgentState
set_store st s = record st { store = s }

-- An agent without facts support, or one that sent a malformed hash.
abbrev is_reported : Option FactsHashes → Bool
is_reported none = false
is_reported (some h) = negate (same_hash h.reported none)

unfoldable pub advertise_none : Environment → ℤ → Text → ℕ → AgentState → Advertised
advertise_none env t h now st = (
  some facts_hash_none,
  if env.fails hashes_read || negate (is_reported (hashes t h st.store)) || env.fails reported_clear
      then st
      else set_store st (clear_reported_hash t h (pos now) st.store).1,
)

abbrev unwrap_or_none : Option Text → Text
unwrap_or_none none = facts_hash_none
unwrap_or_none (some a) = a

-- What clearing the inventory leaves to advertise.
abbrev cleared : Option Text → Result ReplaceOutcome DocumentError → Option Text
cleared held (ok ReplaceOutcome.stored) = some empty_facts_hash
cleared held (ok ReplaceOutcome.unchanged) = some empty_facts_hash
cleared held (ok ReplaceOutcome.conflict) = held
cleared held (ok ReplaceOutcome.no_host) = held
cleared held (err e) = held

unfoldable pub note_reported :
    Environment → ℤ → Text → FactsHashes → Text → ℕ → AgentState → AgentState
note_reported env t h known reported now st =
    if same_hash known.reported (some reported) || env.fails reported_write
    then st
    else set_store st (set_reported_hash t h reported (pos now) st.store).1

-- The `match` on the empty report.
unfoldable pub answer_report :
    Environment → ℤ → Text → FactsHashes → EmptyOverInventory → ℕ → AgentState → Advertised
answer_report env t h known not_applicable now st =
    (env.header_value (unwrap_or_none known.held), st)
answer_report env t h known pending now st = (env.header_value empty_facts_hash, st)
answer_report env t h known due now st =
    let (outcome, after) = store env t h agent_source empty_facts_hash (codes "{}") none now st in
    (env.header_value (unwrap_or_none (cleared known.held outcome)), after)

abbrev pub advertise_known :
    Environment → ℤ → Text → Option FactsHashes → Text → ℕ → AgentState → Advertised
advertise_known env t h none reported now st = (none, st)
advertise_known env t h (some known) reported now st =
    answer_report env t h known (empty_over_inventory known reported (pos now)) now
      (note_reported env t h known reported now st)

-- `reported.and_then(facts::normalize_hash)`
abbrev pub normalized : Option Text → Option Text
normalized none = none
normalized (some r) = normalize_hash r

abbrev pub advertise_hash : Environment → ℤ → Text → Option Text → ℕ → AgentState → Advertised
advertise_hash env t h none now st = advertise_none env t h now st
advertise_hash env t h (some r) now st =
    if env.fails hashes_read
    then (none, st)
    else advertise_known env t h (hashes t h st.store) r now st

unfoldable pub advertise : Environment → ℤ → Text → Option Text → ℕ → AgentState → Advertised
advertise env t h reported = advertise_hash env t h (normalized reported)
