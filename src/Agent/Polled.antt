-- ===== src/Agent/Polled.antt =====
-- A poll with nothing cached, and the poll after a report.
use nsclient_fleet_server.Common.{
  ℕ, true, false, ◌≡◌, ◌≢◌, refl, inl, inr, List, Option, some, arith, ◌∙◌,
}
use nsclient_fleet_server.Common.Int.{ℤ}
use nsclient_fleet_server.Common.Text.{Text, text_equality}
use nsclient_fleet_server.Common.Result.{Result, ok, err}
use nsclient_fleet_server.Common.Distinct.{IsDistinct}
use nsclient_fleet_server.Tier.{TierOverrides}
use nsclient_fleet_server.DesiredState.Bundle.{DesiredState}
use nsclient_fleet_server.DesiredState.Compute.{compute_uncached}
use nsclient_fleet_server.DesiredState.Cache.{get}
use nsclient_fleet_server.DesiredState.Cache.Serve.{get-peek}
use nsclient_fleet_server.Limits.Agent.Layer.{PeerHostContext, Tenant}
use nsclient_fleet_server.Storage.Tags.Written.{tag_value, owns_tags}
use nsclient_fleet_server.Agent.{AgentState, Environment, tenant_read}
use nsclient_fleet_server.Agent.Exchange.{advertise}
use nsclient_fleet_server.Agent.Report.{StateReport, state_report}
use nsclient_fleet_server.Agent.Poll.{
  Reading, DesiredStateQuery, PollAnswer, desired_state, compute_desired_state_at, responded,
  tier_of, touched, offer, set_cache,
}
use nsclient_fleet_server.Agent.Cold.{IsIdle, IsCold, advertise-KeepsTags}
use nsclient_fleet_server.Agent.Fresh.{report-IsSameOrCold}

module _ {E : Type 0} (reading : Reading E) where
  offer-answer :
      (key : ℤ × Text) (version : ℤ) (now : ℕ) (st : AgentState) (r : Result DesiredState E)
      → (offer reading key version now st r).0 ≡ r
  offer-answer key version now st (ok s) = refl
  offer-answer key version now st (err e) = refl

  computed-IsCold :
      (t : ℤ) (h : Text) (version : ℤ) (now : ℕ) (st : AgentState)
      → IsCold t h version st
      → (compute_desired_state_at reading t h version now st).0
        ≡ compute_uncached (reading t h st.store)
  unfolding compute_desired_state_at
  computed-IsCold t h version now st cold =
      rw (get-peek st.desired_state_cache (t, h) version now ∙ cold, compute_desired_state_at)
        (offer-answer (t, h) version now
          (set_cache st (get st.desired_state_cache (t, h) version now).1)
          (compute_uncached (reading t h st.store)))

  module _ (env : Environment) (from_json : Text → Option TierOverrides) where
    -- The header and the state with which a poll computes: seen, and told the agent's facts hash.
    abbrev told : PeerHostContext → DesiredStateQuery → ℕ → AgentState → Option Text × AgentState
    told ctx q now st =
        advertise env ctx.tenant_id ctx.host_id q.facts_hash now
          (touched reading env from_json ctx now st)

    touched-cache :
        (ctx : PeerHostContext) (now : ℕ) (st : AgentState)
        → (touched reading env from_json ctx now st).desired_state_cache ≡ st.desired_state_cache
    touched-cache ctx now st = ground arith

    -- What a poll answers when it computes the desired state from the store at that moment.
    abbrev pub computed_answer :
        Tenant → PeerHostContext → DesiredStateQuery → ℕ → AgentState → PollAnswer
    computed_answer tenant ctx q now st =
        let r = told ctx q now st in
        responded reading ctx q.current_hash
          (tier_of reading env from_json (some tenant)).min_poll_interval_secs r.0
          (compute_uncached (reading ctx.tenant_id ctx.host_id r.1.store))

    desired_state-IsCold :
        (idle : IsIdle env) (tenant : Tenant) (ctx : PeerHostContext) (q : DesiredStateQuery)
        (now : ℕ) (st : AgentState)
        → env.fails tenant_read ≡ false
        → IsCold ctx.tenant_id ctx.host_id tenant.config_version st
        → (desired_state reading env from_json (some tenant) ctx q now st).0
          ≡ computed_answer tenant ctx q now st
    unfolding desired_state
    desired_state-IsCold idle tenant ctx q now st f cold =
        let seen = touched reading env from_json ctx now st in
        let k =
          advertise-KeepsTags env idle ctx.tenant_id ctx.host_id now tenant.config_version
            q.facts_hash seen in
        rw
          (
            f,
            computed-IsCold ctx.tenant_id ctx.host_id tenant.config_version now
                (told ctx q now st).1 (k.1 (rw (touched-cache ctx now st) cold)),
          )
          refl

    -- The poll after a report that changed the value of any tag is answered from the store: the desired
    -- state is computed with the tags just reported, never taken from what was cached before, whatever
    -- the configuration's version. The report is a map, the host's tags are filed under its tenant, the
    -- tenant can be read, and no other task runs meanwhile.
    pub poll-state_report :
        (idle : IsIdle env) (tenant : Tenant) (ctx : PeerHostContext) (body : StateReport)
        (q : DesiredStateQuery) (now later : ℕ) (st : AgentState) (g j other : Text)
        → ((l : List (Text × Text)) → body.reported_tags ≡ some l → IsDistinct l)
        → owns_tags ctx.tenant_id ctx.host_id st.store.tags ≡ true
        → env.fails tenant_read ≡ false
        → tag_value g j other (state_report env ctx body now st).1.store.tags
          ≢ tag_value g j other st.store.tags
        → (desired_state reading env from_json
            (some tenant)
            ctx
            q
            later
            (state_report env ctx body now st).1).0
          ≡ computed_answer tenant ctx q later (state_report env ctx body now st).1
    poll-state_report idle tenant ctx body q now later st g j other d o f n =
        elim (report-IsSameOrCold ctx tenant.config_version g j other env idle body now st d o) [
          | inl same ↦ absurd (n same)
          | inr cold ↦
              desired_state-IsCold idle tenant ctx q later (state_report env ctx body now st).1 f
                cold
        ]
