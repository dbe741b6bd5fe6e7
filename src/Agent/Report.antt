-- ===== src/Agent/Report.antt =====
-- `state_report` of crates/server/src/agent/api.rs.
use nsclient_fleet_server.Common.{
  ℕ, Bool, true, false, not as negate, ◌&&◌, ◌||◌, eqb, leb, ltb, List, [], ◌∷◌, Option, none, some,
  if◌then◌else◌, length, all,
}
use nsclient_fleet_server.Common.Int.{pos}
use nsclient_fleet_server.Common.Text.{Text}
use nsclient_fleet_server.Common.Result.{Result, ok, err, ◌>>=◌, ◌>>◌, fail_if}
use nsclient_fleet_server.Facts.Upload.{is_ascii_hexdigit}
use nsclient_fleet_server.Selector.Tags.{max_key_len, max_value_len}
use nsclient_fleet_server.Limits.Agent.Layer.{PeerHostContext}
use nsclient_fleet_server.Storage.{Store, StoreError}
use nsclient_fleet_server.Storage.Lifecycle.{
  update_current_state_hash, touch_last_seen, set_local_config_present, set_host_override_last,
}
use nsclient_fleet_server.Storage.Tags.{replace_agent_tags}
use nsclient_fleet_server.Agent.{
  AgentState, Environment, state_hash_write, seen_write, local_config_write, override_last_write,
  tags_write,
}
use nsclient_fleet_server.Agent.Documents.{forget_desired_state}
use nsclient_fleet_server.Agent.Exchange.{advertise}

abbrev max_tags_per_host : ℕ
max_tags_per_host = 128

-- `bundles_installed` and `errors` are only logged.
pub record StateReport : Type 0 where
  pub applied_state_hash : Option Text
  pub reported_tags : Option (List (Text × Text))
  pub local_config_present : Option Bool
  pub host_override_last : Option Bool
  pub facts_hash : Option Text

unfoldable pub valid_state_hash : Text → Bool
valid_state_hash h = eqb (length h) 64 && all is_ascii_hexdigit h

-- `str::trim` drops the White_Space characters, here by their UTF-8 bytes.
abbrev is_space : ℕ → Bool
is_space a = (leb 9 a && leb a 13) || eqb a 32

abbrev is_space_pair : ℕ → ℕ → Bool
is_space_pair a b = eqb a 194 && (eqb b 133 || eqb b 160)

abbrev is_space_triple : ℕ → ℕ → ℕ → Bool
is_space_triple a b c =
    (eqb a 225 && eqb b 154 && eqb c 128)
    || (eqb a 226 && eqb b 128 && ((leb 128 c && leb c 138) || eqb c 168 || eqb c 169 || eqb c 175))
    || (eqb a 226 && eqb b 129 && eqb c 159)
    || (eqb a 227 && eqb b 128 && eqb c 128)

-- `trim().is_empty()`
unfoldable pub is_blank : Text → Bool
is_blank [] = true
is_blank (a ∷ []) = is_space a
is_blank (a ∷ b ∷ []) = (is_space a && is_space b) || is_space_pair a b
is_blank (a ∷ b ∷ c ∷ s) =
    (is_space a && is_blank (b ∷ c ∷ s))
    || (is_space_pair a b && is_blank (c ∷ s))
    || (is_space_triple a b c && is_blank s)

pub data TagsRefused : Type 0 where
  too_many_tags : TagsRefused
  bad_key : TagsRefused
  value_too_long : TagsRefused

unfoldable pub check_each_tag : List (Text × Text) → Result (Unit {0}) TagsRefused
check_each_tag [] = ok tt
check_each_tag ((k, v) ∷ tags) =
    fail_if (is_blank k || ltb max_key_len (length k)) bad_key
    >> fail_if (ltb max_value_len (length v)) value_too_long
    >> check_each_tag tags

unfoldable pub check_reported_tags : List (Text × Text) → Result (Unit {0}) TagsRefused
check_reported_tags tags =
    fail_if (ltb max_tags_per_host (length tags)) too_many_tags >> check_each_tag tags

-- The answer: a bad request, a failure of the store, or an empty object with the facts header.
pub data ReportAnswer : Type 0 where
  bad_state_hash : ReportAnswer
  bad_tags : TagsRefused → ReportAnswer
  internal : ReportAnswer
  accepted : Option Text → ReportAnswer

abbrev pub Step : Type 0
Step = Result AgentState (ReportAnswer × AgentState)

abbrev with_store : AgentState → Store → AgentState
with_store st s = record st { store = s }

-- The applied hash, or a touch whose failure is ignored.
unfoldable pub note_applied : Environment → PeerHostContext → Option Text → ℕ → AgentState → Step
note_applied env ctx none now st = ok (
    if env.fails seen_write
    then st
    else with_store st (touch_last_seen ctx.tenant_id ctx.host_id (pos now) st.store))
note_applied env ctx (some hash) now st =
    if negate (valid_state_hash hash)
    then err (bad_state_hash, st)
    else if env.fails state_hash_write
    then err (internal, st)
    else ok (
        with_store st (update_current_state_hash ctx.tenant_id ctx.host_id hash (pos now) st.store))

unfoldable pub note_local_config :
    Environment → PeerHostContext → Option Bool → AgentState → AgentState
note_local_config env ctx none st = st
note_local_config env ctx (some present) st =
    if env.fails local_config_write
    then st
    else with_store st (set_local_config_present ctx.tenant_id ctx.host_id present st.store).1

-- `unwrap_or(false)`
abbrev or_false : Option Bool → Bool
or_false none = false
or_false (some b) = b

unfoldable pub note_override_last :
    Environment → PeerHostContext → Option Bool → AgentState → AgentState
note_override_last env ctx last st =
    if env.fails override_last_write
    then st
    else with_store st (set_host_override_last ctx.tenant_id ctx.host_id (or_false last) st.store).1

-- The desired state is dropped if the replacement says that the tags changed.
abbrev pub after_tags : PeerHostContext → ℕ → AgentState → Result Bool StoreError × Store → Step
after_tags ctx now st (ok true, s) =
    ok (forget_desired_state ctx.tenant_id ctx.host_id now (with_store st s))
after_tags ctx now st (ok false, s) = ok (with_store st s)
after_tags ctx now st (err e, s) = err (internal, with_store st s)

abbrev pub write_tags : Environment → PeerHostContext → List (Text × Text) → ℕ → AgentState → Step
write_tags env ctx tags now st =
    if env.fails tags_write
    then err (internal, st)
    else after_tags ctx now st
        (replace_agent_tags ctx.tenant_id ctx.host_id tags (pos now) st.store)

abbrev pub checked_tags :
    Environment
    → PeerHostContext
    → List (Text × Text)
    → ℕ
    → AgentState
    → Result (Unit {0}) TagsRefused
    → Step
checked_tags env ctx tags now st (err e) = err (bad_tags e, st)
checked_tags env ctx tags now st (ok u) = write_tags env ctx tags now st

unfoldable pub note_tags :
    Environment → PeerHostContext → Option (List (Text × Text)) → ℕ → AgentState → Step
note_tags env ctx none now st = ok st
note_tags env ctx (some tags) now st = checked_tags env ctx tags now st (check_reported_tags tags)

abbrev answer_with : Option Text × AgentState → ReportAnswer × AgentState
answer_with (header, st) = (accepted header, st)

abbrev pub finished :
    Environment → PeerHostContext → Option Text → ℕ → Step → ReportAnswer × AgentState
finished env ctx facts_hash now (err a) = a
finished env ctx facts_hash now (ok st) =
    answer_with (advertise env ctx.tenant_id ctx.host_id facts_hash now st)

unfoldable pub state_report :
    Environment → PeerHostContext → StateReport → ℕ → AgentState → ReportAnswer × AgentState
state_report env ctx body now st = finished env ctx body.facts_hash now (do
  applied ← note_applied env ctx body.applied_state_hash now st
  let local = note_local_config env ctx body.local_config_present applied
  note_tags env ctx body.reported_tags now
      (note_override_last env ctx body.host_override_last local))
