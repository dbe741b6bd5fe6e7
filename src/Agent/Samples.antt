-- ===== src/Agent/Samples.antt =====
-- Tests and witnesses for the agent's handlers.
use nsclient_fleet_server.Common.{
  true, false, ◌≡◌, ◌≢◌, refl, ◌↔◌, ◌≤◌, List, [], ◌∷◌, Option, none, some, arith, length, sym, ◌∙◌,
  subst,
}
use nsclient_fleet_server.Common.Int.{pos}
use nsclient_fleet_server.Common.Text.{Text, codes, text_equality, text_eq}
use nsclient_fleet_server.Common.Result.{ok, err}
use nsclient_fleet_server.Common.Dict
use nsclient_fleet_server.Common.Distinct.{IsDistinct}
use nsclient_fleet_server.Json.{object, end}
use nsclient_fleet_server.DesiredState.Cache.{new}
use nsclient_fleet_server.Limits.Agent.Layer.{PeerHostContext, Tenant}
use nsclient_fleet_server.Storage.{HostRow, TagRow, FactsRow, has_host, has_tenant}
use nsclient_fleet_server.Storage.Table.{first, update, delete, count, upsert}
use nsclient_fleet_server.Storage.Lifecycle.{touch_last_seen, set_host_override_last}
use nsclient_fleet_server.Storage.Documents.{hashes, held_hash, clear_reported_hash}
use nsclient_fleet_server.Storage.Tags.{replace_agent_tags, write_all, write_tag}
use nsclient_fleet_server.Storage.Tags.Written.{tag_value}
use nsclient_fleet_server.Agent.{AgentState, Environment}
use nsclient_fleet_server.Agent.Documents.{forget_desired_state}
use nsclient_fleet_server.Agent.Exchange.{advertise, advertise_none, empty_facts_hash}
use nsclient_fleet_server.Agent.Report.{
  StateReport, state_report, note_applied, note_local_config, note_override_last, note_tags,
  check_reported_tags, check_each_tag, is_blank,
}
use nsclient_fleet_server.Agent.Poll.{Reading, DesiredStateQuery, desired_state}
use nsclient_fleet_server.Agent.Polled.{computed_answer, poll-state_report}
use nsclient_fleet_server.Agent.Grace.{IsKeptOrDue, advertise-IsKeptOrDue}
use nsclient_fleet_server.Agent.Upload.{Chunks, read_capped, exceeds, max_facts_body_bytes}
use nsclient_fleet_server.Agent.Upload.Capped.{whole, read_capped_iff}

abbrev host : Text
host = codes "h"

abbrev host_row : HostRow
host_row = record {
  id = host;
  tenant_id = pos 1;
  hostname = none;
  os = none;
  enrolled_at = some (pos 5);
  last_seen_at = none;
  current_state_hash = none;
  bootstrap_nonce_hash = none;
  bootstrap_expires_at = none;
  local_config_present = none;
  host_override_last = none;
  facts_reported_hash = some empty_facts_hash;
  facts_reported_at = some (pos 100);
  facts_refused_hash = none;
  facts_refused_at = none;
  facts_refused_status = none;
  created_at = pos 1;
}

abbrev tag_row : TagRow
tag_row = record {
  tenant_id = pos 1;
  host_id = host;
  key = codes "os";
  value = codes "linux";
  source = codes "agent";
  updated_at = pos 6;
}

abbrev facts_row : FactsRow
facts_row = record {
  tenant_id = pos 1;
  host_id = host;
  source = codes "agent";
  facts_hash = codes "abc";
  facts_json = codes "[]";
  collected_at = none;
  received_at = pos 7;
  size_bytes = pos 2;
}

abbrev state : AgentState
state = record {
  store = record {
    tenants = pos 1 ∷ [];
    users = [];
    hosts = host_row ∷ [];
    certs = [];
    tags = tag_row ∷ [];
    overrides = [];
    facts = facts_row ∷ [];
    fact_changes = [];
  };
  desired_state_cache = new;
  generations = [];
}

abbrev quiet : Environment
quiet = record {
  from_str = λ s. some (object end);
  to_string = λ e. none;
  header_value = λ t. some t;
  fails = λ s. false;
  meanwhile = λ n st. st;
}

abbrev peer : PeerHostContext
peer = record { tenant_id = pos 1; tenant_slug = codes "t"; host_id = host; serial_hex = codes "a" }

abbrev tenant : Tenant
tenant = record {
  id = pos 1;
  slug = codes "t";
  name = codes "T";
  tier = codes "free";
  tier_overrides_json = none;
  trial_expires_at = none;
  config_version = pos 3;
  created_at = pos 1;
}

abbrev report : StateReport
report = record {
  applied_state_hash = none;
  reported_tags = some ((codes "os", codes "bsd") ∷ []);
  local_config_present = none;
  host_override_last = some true;
  facts_hash = none;
}

-- The groups' side of a computation is left empty.
abbrev nothing : Reading (Unit {0})
nothing t h s = record {
  tags = ok [];
  groups = ok [];
  selector_of = λ j. none;
  load_facts = λ ss. ok [];
  bundles_for = λ gs. ok [];
  host_override = ok none;
  open_override = λ p. err tt;
  encode = λ x. x;
  mac = λ x. x;
}

abbrev ask : DesiredStateQuery
ask = record { current_hash = none; facts_hash = none }

reported_tag :
    tag_value host
      (codes "os")
      (codes "agent")
      (state_report quiet peer report 20 state).1.store.tags
    ≡ some (codes "bsd")
unfolding state_report note_applied note_local_config note_override_last note_tags
    check_reported_tags check_each_tag is_blank touch_last_seen set_host_override_last
    replace_agent_tags write_all write_tag advertise advertise_none clear_reported_hash hashes
    held_hash upsert first update delete count has_host has_tenant text_eq Dict.get tag_value
    forget_desired_state
reported_tag = refl

tag_changed :
    tag_value host
      (codes "os")
      (codes "agent")
      (state_report quiet peer report 20 state).1.store.tags
    ≢ tag_value host (codes "os") (codes "agent") state.store.tags
unfolding tag_value first text_eq
tag_changed e = absurd (cc (sym reported_tag ∙ e))

abbrev Keyed : Option (List (Text × Text)) → Type 0
Keyed none = Unit
Keyed (some l) = IsDistinct l

one_key : (l : List (Text × Text)) → report.reported_tags ≡ some l → IsDistinct l
one_key l e = subst Keyed e (unfold Dict.get in refl, tt)

poll-state_report_example :
    (desired_state nothing quiet
      (λ j. none)
      (some tenant)
      peer
      ask
      30
      (state_report quiet peer report 20 state).1).0
    ≡ computed_answer nothing quiet
        (λ j. none)
        tenant
        peer
        ask
        30
        (state_report quiet peer report 20 state).1
poll-state_report_example =
    poll-state_report nothing quiet (λ j. none) (λ n st. refl) tenant peer report ask 20 30 state
      host (codes "os") (codes "agent") one_key (unfold text_eq in refl) refl tag_changed

-- Ten minutes of the empty document are past.
advertise-IsKeptOrDue_example :
    IsKeptOrDue
      (pos 1)
      host
      (some empty_facts_hash)
      700
      state
      (advertise quiet (pos 1) host (some empty_facts_hash) 700 state).1
advertise-IsKeptOrDue_example =
    advertise-IsKeptOrDue quiet (pos 1) host (some empty_facts_hash) 700 state

abbrev two_chunks : Chunks
two_chunks = some (codes "{\"facts\":") ∷ some (codes "{}}") ∷ []

read_capped_iff_example :
    (read_capped (some 12) two_chunks max_facts_body_bytes ≡ ok (codes "{\"facts\":{}}")) ↔ (
      (exceeds (some 12) max_facts_body_bytes ≡ false)
      × (whole two_chunks ≡ some (codes "{\"facts\":{}}"))
      × (length (codes "{\"facts\":{}}") ≤ max_facts_body_bytes))
read_capped_iff_example =
    read_capped_iff (some 12) two_chunks max_facts_body_bytes (codes "{\"facts\":{}}") (omega arith)
