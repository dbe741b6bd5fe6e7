-- ===== src/Limits/Agent/Samples.antt =====
-- Tests and witnesses for the limits of the agents.
use nsclient_fleet_server.Common.{
  ℕ, ◌+◌, ◌*◌, ◌≤◌, true, false, ◌≡◌, refl, ◌⊎◌, inr, List, [], ◌∷◌, Option, none, some, arith,
  nat_eq, pair_eq,
}
use nsclient_fleet_server.Common.Int.{pos, int_eq}
use nsclient_fleet_server.Common.Text.{Text, codes, text_equality, text_eq}
use nsclient_fleet_server.Common.Dict.{get, put, remove}
use nsclient_fleet_server.Common.Result.{Result, ok}
use nsclient_fleet_server.Tier.{
  TierLimits, TierOverrides, pro, effective, find_named, lookup, lookup_or_free,
}
use nsclient_fleet_server.Limits.Governor.{Governor}
use nsclient_fleet_server.Limits.Agent
use nsclient_fleet_server.Limits.Agent.{
  AgentRateLimits, Limiter, HostKey, limiter_for_tier, check_poll_interval, poll_wait, second,
}
use nsclient_fleet_server.Limits.Agent.Spacing
use nsclient_fleet_server.Limits.Agent.Spacing.{polls-apart}
use nsclient_fleet_server.Limits.Agent.Quotas.{limiter-first_quota, poll-wait}
use nsclient_fleet_server.Limits.Agent.Layer.{
  PeerHostContext, CertStanding, Tenant, Outcome, internal, forbidden, tier_layer,
}
use nsclient_fleet_server.Limits.Agent.Admission.{tier_layer-revoked}
use nsclient_fleet_server.Limits.Agent.Served.{Arrival, Event, arrives, forgotten, served-apart}
use nsclient_fleet_server.Limits.Counting.{counting}

abbrev Keys : Type 0
Keys = List HostKey

abbrev governed : ℕ → Governor HostKey Keys
governed n = counting n

abbrev idle : AgentRateLimits Keys
idle = record { by_tier = []; last_poll = []; since_prune = 0 }

abbrev fresh : ℕ → Keys
fresh n = []

abbrev raised : TierLimits
raised = record pro { per_host_requests_per_minute = 600 }

limiter-first_quota_example :
    (limiter_for_tier governed fresh raised (limiter_for_tier governed fresh pro idle).0).1.quota
    ≡ 60
limiter-first_quota_example =
    limiter-first_quota governed fresh pro raised idle (unfold get in refl) refl

-- The poll of a host that was heard 5 seconds ago.
abbrev heard : AgentRateLimits Keys
heard = record { by_tier = []; last_poll = (codes "h1", 100 * second) ∷ []; since_prune = 0 }

poll-wait_example :
    ((check_poll_interval (105 * second) pro (codes "h1") heard).0 ≡ heard)
    × (1 ≤ 25)
    × (25 ≤ 30)
    × ((check_poll_interval (130 * second) pro (codes "h1") heard).1 ≡ ok tt)
poll-wait_example =
    poll-wait (105 * second) (130 * second) 25 (100 * second) pro (codes "h1") heard
      (unfold get text_eq in refl) (omega arith)
      (unfold check_poll_interval poll_wait get text_eq in refl) (omega arith) (omega arith)

abbrev between : List Spacing.Op
between =
    Spacing.request (105 * second) pro (pos 1) (codes "h1")
    ∷ Spacing.poll (110 * second) pro (codes "h2")
    ∷ Spacing.forget (111 * second) (codes "h3")
    ∷ []

polls-apart_example : 100 * second + 30 * second ≤ 131 * second
polls-apart_example =
    polls-apart governed fresh (codes "h1") (100 * second) (131 * second) pro pro between idle tt
      (unfold check_poll_interval poll_wait get in refl)
      (unfold text_eq in (omega arith, refl, (omega arith, refl, (omega arith, refl, omega arith))))
      (omega arith)
      (unfold check_poll_interval poll_wait get put remove Agent.check_request Agent.maybe_prune
          limiter_for_tier Agent.charge Agent.forget_last_poll text_eq in
        refl)

abbrev peer : PeerHostContext
peer = record {
  tenant_id = pos 1;
  tenant_slug = codes "acme";
  host_id = codes "h1";
  serial_hex = codes "01";
}

abbrev no_overrides : Text → Option TierOverrides
no_overrides raw = none

abbrev tenant : Tenant
tenant = record {
  id = pos 1;
  slug = codes "acme";
  name = codes "Acme";
  tier = codes "pro";
  tier_overrides_json = none;
  trial_expires_at = none;
  config_version = pos 7;
  created_at = pos 0;
}

abbrev live : CertStanding
live = record { active = true; superseded = 1 }

abbrev revoked : CertStanding
revoked = record { active = false; superseded = 0 }

abbrev found : Result (Option Tenant) ℕ
found = ok (some tenant)

abbrev next : ℕ
next = 7

-- Two polls of one host, and in between a request of a second host and a poll too early.
abbrev poll_at : ℕ → Arrival ℕ
poll_at at = record {
  at = at;
  path = codes "/agent/v1/desired-state";
  peer = some peer;
  cert_standing = ok live;
  tenant = found;
}

abbrev others : List (Event ℕ)
others =
    arrives (record (poll_at (210 * second)) { peer = some (record peer { host_id = codes "h2" }) })
    ∷ arrives (poll_at (220 * second))
    ∷ forgotten (225 * second) (codes "h3")
    ∷ []

served-apart_example : 200 * second + 30 * second ≤ 240 * second
unfolding tier_layer check_poll_interval poll_wait get put remove Agent.check_request
    Agent.maybe_prune limiter_for_tier Agent.charge Agent.forget_last_poll text_eq effective
    lookup_or_free lookup find_named
served-apart_example =
    served-apart governed fresh no_overrides next (codes "h1") (poll_at (200 * second))
      (poll_at (240 * second)) others tenant heard (refl, tt) (refl, (peer, refl, refl))
      (refl, (peer, refl, refl)) refl (omega arith)
      (omega arith, refl, (omega arith, refl, (omega arith, refl, omega arith))) refl refl

abbrev refusal : Outcome Keys ℕ
refusal =
    tier_layer governed fresh no_overrides (200 * second) 7 (codes "/agent/v1/facts") (some peer)
      (ok revoked) found heard

tier_layer-revoked_example :
    (refusal.limits ≡ heard)
    × (refusal.retired ≡ false)
    × ((refusal.response ≡ internal) ⊎ (refusal.response ≡ forbidden))
tier_layer-revoked_example =
    tier_layer-revoked governed fresh no_overrides (200 * second) 7 (codes "/agent/v1/facts")
      (some peer) (ok revoked) found heard (inr (λ s e. ground arith))
