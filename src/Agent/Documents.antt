-- ===== src/Agent/Documents.antt =====
-- crates/server/src/facts/store.rs: storing and removing a host's documents.
use nsclient_fleet_server.Common.{
  ℕ, zero, suc, Bool, true, false, not as negate, ◌&&◌, List, [], ◌∷◌, Option, none, some,
  if◌then◌else◌, length, is_empty, eqb,
}
use nsclient_fleet_server.Common.Int.{ℤ, pos}
use nsclient_fleet_server.Common.Text.{Text, text_equality}
use nsclient_fleet_server.Common.Result.{Result, ok, err}
use nsclient_fleet_server.Json.{Value, object, end}
use nsclient_fleet_server.Facts.Diff.{FactsDiff, diff}
use nsclient_fleet_server.Selector.Eval.{HostFacts}
use nsclient_fleet_server.DesiredState.Cache.{invalidate_host}
use nsclient_fleet_server.Storage.{Store}
use nsclient_fleet_server.Storage.Hosts.{map_option}
use nsclient_fleet_server.Storage.Documents.{
  StoredFacts, NewFacts, ReplaceOutcome, InvalidSource, same_hash, get_document, replace,
  delete_document, delete_source,
}
use nsclient_fleet_server.Agent.{
  AgentState, Environment, CatalogChange, bump, document_read, document_write,
}

abbrev pub keep_history : ℤ
keep_history = pos 100

abbrev max_changes_per_entry : ℕ
max_changes_per_entry = 200

abbrev pub store_attempts : ℕ
store_attempts = 3

-- A failing call, a document that is not JSON, a source that may not be written.
pub data DocumentError : Type 0 where
  unavailable : DocumentError
  not_json : DocumentError
  invalid_source : DocumentError

abbrev is_empty_object : Value → Bool
is_empty_object (object end) = true
is_empty_object _ = false

-- `serde_json::from_str(previous).unwrap_or_else(|_| empty())`
abbrev parsed_or_empty : Option Value → Value
parsed_or_empty none = object end
parsed_or_empty (some v) = v

abbrev is_no_change : FactsDiff → Bool
is_no_change d = is_empty d.changes && eqb d.truncated 0

unfoldable pub history_entry : Environment → Option Text → Value → Option Text
history_entry env none document =
    if is_empty_object document
    then none
    else env.to_string (record { initial = true; diff = record { changes = []; truncated = 0 } })
history_entry env (some previous) document =
    let d = diff (parsed_or_empty (env.from_str previous)) document max_changes_per_entry in
    if is_no_change d then none else env.to_string (record { initial = false; diff = d })

-- The host's desired state goes, as a group may have read the document.
unfoldable pub forget_desired_state : ℤ → Text → ℕ → AgentState → AgentState
forget_desired_state t h now st = record st {
  desired_state_cache = invalidate_host st.desired_state_cache (t, h) now;
}

abbrev Stored : Type 0
Stored = Result ReplaceOutcome DocumentError × AgentState

-- What an attempt does with the outcome of its write; `again` is the next attempt.
abbrev pub settle :
    ℤ → Text → ℕ → Result ReplaceOutcome InvalidSource → AgentState → Stored → Stored
settle t h now (err e) st again = (err invalid_source, st)
settle t h now (ok ReplaceOutcome.stored) st again =
    (ok ReplaceOutcome.stored, bump t CatalogChange.stored (forget_desired_state t h now st))
settle t h now (ok ReplaceOutcome.unchanged) st again = (ok ReplaceOutcome.unchanged, st)
settle t h now (ok ReplaceOutcome.no_host) st again = (ok ReplaceOutcome.no_host, st)
settle t h now (ok ReplaceOutcome.conflict) st again = again

abbrev new_facts : Text → Text → Text → Option Text → Option StoredFacts → Option Text → NewFacts
new_facts source hash json collected_at previous entry = record {
  source = source;
  facts_hash = hash;
  facts_json = json;
  collected_at = collected_at;
  expected_previous = map_option (λ p. p.facts_hash) previous;
  history = entry;
}

-- What an attempt writes, `none` where the new document does not parse.
abbrev pub to_write :
    Environment
    → Text
    → Text
    → Text
    → Option Text
    → Option StoredFacts
    → Option Value
    → Option NewFacts
to_write env source hash json collected_at previous none = none
to_write env source hash json collected_at previous (some parsed) = some (
    new_facts source hash json collected_at previous
      (history_entry env (map_option (λ p. p.facts_json) previous) parsed))

-- `for _ in 0..STORE_ATTEMPTS`, with the attempts that are left; other tasks run between the read and
-- the write of an attempt.
unfoldable pub store_loop :
    Environment → ℕ → ℤ → Text → Text → Text → Text → Option Text → ℕ → AgentState → Stored
store_loop env zero t h source hash json collected_at now st = (ok ReplaceOutcome.conflict, st)
store_loop env (suc n) t h source hash json collected_at now st =
    let previous = get_document t h source st.store in
    let during = env.meanwhile n st in
    if env.fails document_read
    then (err unavailable, st)
    else if same_hash (map_option (λ p. p.facts_hash) previous) (some hash)
    then (ok ReplaceOutcome.unchanged, st)
    else elim (to_write env source hash json collected_at previous (env.from_str json)) [
      | none ↦ (err not_json, st)
      | some doc ↦
          let written = replace t h doc keep_history (pos now) during.store in
          let after = record during { store = written.1 } in
          let again = store_loop env n t h source hash json collected_at now after in
          if env.fails document_write
          then (err unavailable, during)
          else settle t h now written.0 after again
    ]

unfoldable pub store :
    Environment → ℤ → Text → Text → Text → Text → Option Text → ℕ → AgentState → Stored
store env = store_loop env store_attempts

unfoldable remove :
    Environment → ℤ → Text → Text → Bool → ℕ → AgentState → Result Bool DocumentError × AgentState
remove env t h source bump_catalog now st =
    let (removed, store') = delete_document t h source st.store in
    let after = record st { store = store' } in
    let forgotten = forget_desired_state t h now after in
    if env.fails document_write
    then (err unavailable, st)
    else if removed
    then (ok true, if bump_catalog then bump t CatalogChange.operator forgotten else forgotten)
    else (ok false, after)

abbrev forget_all : ℤ → List Text → ℕ → AgentState → AgentState
forget_all t [] now st = st
forget_all t (h ∷ hs) now st = forget_all t hs now (forget_desired_state t h now st)

unfoldable remove_source :
    Environment → ℤ → Text → ℕ → AgentState → Result ℕ DocumentError × AgentState
remove_source env t source now st =
    let (hosts, store') = delete_source t source st.store in
    let forgotten = forget_all t hosts now (record st { store = store' }) in
    if env.fails document_write then (err unavailable, st) else (
      ok (length hosts),
      if is_empty hosts then forgotten else bump t CatalogChange.operator forgotten,
    )

-- `load_for_host`: a stored document that does not parse is left out.
abbrev with_document : Text → Option Value → HostFacts → HostFacts
with_document source none facts = facts
with_document source (some v) facts = (source, v) ∷ facts

abbrev parsed : Environment → Option StoredFacts → Option Value
parsed env none = none
parsed env (some s) = env.from_str s.facts_json

abbrev documents_of : Environment → ℤ → Text → List Text → Store → HostFacts
documents_of env t h [] s = []
documents_of env t h (source ∷ sources) s =
    with_document source (parsed env (get_document t h source s)) (documents_of env t h sources s)

unfoldable load_for_host :
    Environment → ℤ → Text → List Text → Store → Result HostFacts DocumentError
load_for_host env t h sources s =
    if env.fails document_read && negate (is_empty sources)
    then err unavailable
    else ok (documents_of env t h sources s)
