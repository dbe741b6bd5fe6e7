-- ===== src/Agent/Poll.antt =====
-- `desired_state` of crates/server/src/agent/api.rs, and `compute_desired_state_at` behind it.
use nsclient_fleet_server.Common.{ℕ, ◌++◌, List, Option, none, some, map, if◌then◌else◌}
use nsclient_fleet_server.Common.Int.{ℤ, pos}
use nsclient_fleet_server.Common.Text.{Text, codes, text_equality}
use nsclient_fleet_server.Common.Result.{Result, ok, err}
use nsclient_fleet_server.Json.{Value}
use nsclient_fleet_server.Tier.{TierLimits, TierOverrides, effective, free}
use nsclient_fleet_server.DesiredState.Bundle.{DesiredBundle, DesiredState}
use nsclient_fleet_server.DesiredState.Compute.{Inputs, compute_uncached}
use nsclient_fleet_server.DesiredState.Cache.{Cache, get, ticket, put_if_current}
use nsclient_fleet_server.Limits.Agent.Layer.{PeerHostContext, Tenant}
use nsclient_fleet_server.Storage.{Store}
use nsclient_fleet_server.Storage.Lifecycle.{touch_last_seen_if_stale}
use nsclient_fleet_server.Storage.Documents.{same_hash}
use nsclient_fleet_server.Agent.{AgentState, Environment, seen_write, tenant_read}
use nsclient_fleet_server.Agent.Exchange.{advertise}

abbrev last_seen_refresh_secs : ℤ
last_seen_refresh_secs = pos 300

pub record BundleRef : Type 0 where
  pub id : Text
  pub name : Text
  pub version : Text
  pub sha256 : Text
  pub url : Text
  pub signature : Text
  pub priority : ℤ
  pub format : Text

pub record DesiredStateResponse : Type 0 where
  pub tenant_id : ℤ
  pub state_hash : Text
  pub next_poll_in_seconds : ℕ
  pub merged_config_json : Value
  pub bundles : List BundleRef

pub record DesiredStateQuery : Type 0 where
  pub current_hash : Option Text
  pub facts_hash : Option Text

pub data PollAnswer : Type 0 where
  internal : PollAnswer
  not_modified : ℕ → Option Text → PollAnswer
  modified : DesiredStateResponse → Option Text → PollAnswer

-- The cache of a state, and what computing reads of the store at that moment.
abbrev pub Reading : Type 0 → Type 0
Reading E = ℤ → Text → Store → Inputs E

unfoldable pub bundle_ref : DesiredBundle → BundleRef
bundle_ref b = record {
  id = b.id;
  name = b.name;
  version = b.version;
  sha256 = b.sha256;
  url = codes "/agent/v1/bundles/" ++ b.id;
  signature = b.signature;
  priority = b.priority;
  format = b.format;
}

abbrev pub set_cache : AgentState → Cache → AgentState
set_cache st c = record st { desired_state_cache = c }

module _ {E : Type 0} (reading : Reading E) where
  -- What was computed is offered to the cache with the ticket taken before.
  abbrev pub offer :
      ℤ × Text → ℤ → ℕ → AgentState → Result DesiredState E → Result DesiredState E × AgentState
  offer key version now st (err e) = (err e, st)
  offer key version now st (ok s) = (
    ok s,
    set_cache st
        (put_if_current st.desired_state_cache key (ticket st.desired_state_cache key) version s
          now).0,
  )

  unfoldable pub compute_desired_state_at :
      ℤ → Text → ℤ → ℕ → AgentState → Result DesiredState E × AgentState
  compute_desired_state_at t h version now st =
      let (cached, counted) = get st.desired_state_cache (t, h) version now in
      elim cached [
        | some s ↦ (ok s, set_cache st counted)
        | none ↦
            offer (t, h) version now (set_cache st counted)
              (compute_uncached (reading t h st.store))
      ]

  abbrev compute_for : Option ℤ → ℤ → Text → ℕ → AgentState → Result DesiredState E × AgentState
  compute_for (some version) t h now st = compute_desired_state_at t h version now st
  compute_for none t h now st = (compute_uncached (reading t h st.store), st)

  abbrev pub responded :
      PeerHostContext → Option Text → ℕ → Option Text → Result DesiredState E → PollAnswer
  responded ctx current_hash next_poll facts_header (err e) = internal
  responded ctx current_hash next_poll facts_header (ok ds) =
      if same_hash current_hash (some ds.state_hash)
      then not_modified next_poll facts_header
      else modified
          (record {
            tenant_id = ctx.tenant_id;
            state_hash = ds.state_hash;
            next_poll_in_seconds = next_poll;
            merged_config_json = ds.merged_config;
            bundles = map bundle_ref ds.bundles;
          })
          facts_header

  module _ (env : Environment) (from_json : Text → Option TierOverrides) where
    -- A tenant that cannot be read, or is gone, polls as a free one and is not cached for.
    abbrev pub tier_of : Option Tenant → TierLimits
    tier_of none = free
    tier_of (some t) = effective from_json t.tier t.tier_overrides_json

    abbrev version_of : Option Tenant → Option ℤ
    version_of none = none
    version_of (some t) = some t.config_version

    abbrev pub touched : PeerHostContext → ℕ → AgentState → AgentState
    touched ctx now st = if env.fails seen_write then st else record st {
      store =
          touch_last_seen_if_stale ctx.tenant_id ctx.host_id last_seen_refresh_secs (pos now)
            st.store;
    }

    unfoldable pub desired_state :
        Option Tenant
        → PeerHostContext
        → DesiredStateQuery
        → ℕ
        → AgentState
        → PollAnswer × AgentState
    desired_state tenant ctx q now st =
        let found = if env.fails tenant_read then none else tenant in
        let (facts_header, told) =
          advertise env ctx.tenant_id ctx.host_id q.facts_hash now (touched ctx now st) in
        let (computed, after) = compute_for (version_of found) ctx.tenant_id ctx.host_id now told in
        (
          responded ctx q.current_hash (tier_of found).min_poll_interval_secs facts_header computed,
          after,
        )
