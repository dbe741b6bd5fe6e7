-- ===== src/Agent.antt =====
-- The agent's side of the server, crates/server/src/agent/api.rs and crates/server/src/facts: what its
-- handlers share. A handler is a function of the state, with the answers of what is not the
-- repository's own as an environment: serde_json, the header parser, and which repository call fails.
pub mod Documents
pub mod Exchange
pub mod Report
pub mod Poll
pub mod Cold
pub mod Fresh
pub mod Polled
pub mod Upload
pub mod Grace
mod Samples
use nsclient_fleet_server.Common.{
  ℕ, ◌+◌, Bool, true, false, List, Option, none, some, if◌then◌else◌,
}
use nsclient_fleet_server.Common.Int.{ℤ, int_eq}
use nsclient_fleet_server.Common.Text.{Text}
use nsclient_fleet_server.Common.Dict
use nsclient_fleet_server.Json.{Value}
use nsclient_fleet_server.Facts.Diff.{FactsDiff}
use nsclient_fleet_server.DesiredState.Cache.{Cache}
use nsclient_fleet_server.Storage.{Store}

pub data CatalogChange : Type 0 where
  stored : CatalogChange
  removed : CatalogChange
  operator : CatalogChange

-- The counters are `u64`s that one process does not exhaust.
pub record CatalogGeneration : Type 0 where
  pub any : ℕ
  pub removed : ℕ

pub record AgentState : Type 0 where
  pub store : Store
  pub desired_state_cache : Cache
  pub generations : List (ℤ × CatalogGeneration)

abbrev or_default : Option CatalogGeneration → CatalogGeneration
or_default none = record { any = 0; removed = 0 }
or_default (some g) = g

abbrev bumped : CatalogChange → CatalogGeneration → CatalogGeneration
bumped CatalogChange.stored g = record g { any = g.any + 1 }
bumped CatalogChange.removed g = record { any = g.any + 1; removed = g.removed + 1 }
bumped CatalogChange.operator g = record { any = g.any + 1; removed = g.removed + 1 }

-- `CatalogCache::bump`
unfoldable pub bump : ℤ → CatalogChange → AgentState → AgentState
bump tenant_id change st = record st {
  generations =
      Dict.put tenant_id (bumped change (or_default (Dict.get tenant_id st.generations)))
        st.generations;
}

pub record HistoryEntry : Type 0 where
  pub initial : Bool
  pub diff : FactsDiff

-- The repository calls that a handler makes, each of which may fail.
pub data Site : Type 0 where
  document_read : Site
  document_write : Site
  hashes_read : Site
  reported_clear : Site
  reported_write : Site
  refusal_write : Site
  collected_write : Site
  state_hash_write : Site
  seen_write : Site
  local_config_write : Site
  override_last_write : Site
  tags_write : Site
  tenant_read : Site
  cert_write : Site

pub record Environment : Type 0 where
  pub from_str : Text → Option Value
  pub to_string : HistoryEntry → Option Text
  pub header_value : Text → Option Text
  pub fails : Site → Bool
  -- What other tasks do while this one waits, at the attempt of the given number.
  pub meanwhile : ℕ → AgentState → AgentState
