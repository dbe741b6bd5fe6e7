-- ===== src/Limits/Agent/Layer.antt =====
-- `tier_layer`: what stands before every agent route. The repositories' answers are arguments.
use nsclient_fleet_server.Common.{ℕ, Bool, false, not, Option, none, some, if◌then◌else◌, ltb, ◌==◌}
use nsclient_fleet_server.Common.Int.{ℤ}
use nsclient_fleet_server.Common.Text.{Text, codes, text_equality}
use nsclient_fleet_server.Common.Result.{Result, ok, err}
use nsclient_fleet_server.Tier.{TierLimits, TierOverrides, effective}
use nsclient_fleet_server.Limits.Governor.{Governor}
use nsclient_fleet_server.Limits.Agent.{
  AgentRateLimits, HostKey, check_request, check_poll_interval,
}

-- crates/server/src/transport/mtls.rs
pub record PeerHostContext : Type 0 where
  pub tenant_id : ℤ
  pub tenant_slug : Text
  pub host_id : Text
  pub serial_hex : Text

-- crates/storage/src/repos/hosts.rs
pub record CertStanding : Type 0 where
  pub active : Bool
  pub superseded : ℕ

-- crates/core/src/tenant.rs
pub record Tenant : Type 0 where
  pub id : ℤ
  pub slug : Text
  pub name : Text
  pub tier : Text
  pub tier_overrides_json : Option Text
  pub trial_expires_at : Option ℤ
  pub config_version : ℤ
  pub created_at : ℤ

-- A refusal with its status, or the answer of the handler behind.
pub data Response (R : Type 0) : Type 0 where
  internal : Response R
  forbidden : Response R
  rate_limited : ℕ → Response R
  served : R → Response R

-- What the layer did: the limits afterwards, whether it asked for older certificates to be
-- retired, and the response.
pub record Outcome (S R : Type 0) : Type 0 where
  pub limits : AgentRateLimits S
  pub retired : Bool
  pub response : Response R

abbrev pub desired_state_path : Text
desired_state_path = codes "/agent/v1/desired-state"

module _ {S R : Type 0} (governed : ℕ → Governor HostKey S) (fresh : ℕ → S)
    (from_json : Text → Option TierOverrides) (now : ℕ) (next : R) where
  abbrev pub after_poll : Bool → AgentRateLimits S × Result (Unit {0}) ℕ → Outcome S R
  after_poll retired (a, err retry) = record {
    limits = a;
    retired = retired;
    response = rate_limited retry;
  }
  after_poll retired (a, ok _) = record { limits = a; retired = retired; response = served next }

  abbrev pub after_request :
      Bool → Text → TierLimits → Text → AgentRateLimits S × Result (Unit {0}) ℕ → Outcome S R
  after_request retired path tier host_id (a, err retry) = record {
    limits = a;
    retired = retired;
    response = rate_limited retry;
  }
  after_request retired path tier host_id (a, ok _) =
      if path == desired_state_path
      then after_poll retired (check_poll_interval now tier host_id a)
      else record { limits = a; retired = retired; response = served next }

  abbrev pub with_tenant :
      {E : Type 0}
      → Bool
      → Text
      → PeerHostContext
      → AgentRateLimits S
      → Result (Option Tenant) E
      → Outcome S R
  with_tenant retired path ctx a (err _) = record {
    limits = a;
    retired = retired;
    response = internal;
  }
  with_tenant retired path ctx a (ok none) = record {
    limits = a;
    retired = retired;
    response = forbidden;
  }
  with_tenant retired path ctx a (ok (some t)) =
      let tier = effective from_json t.tier t.tier_overrides_json in
      after_request retired path tier ctx.host_id
        (check_request governed fresh now tier ctx.tenant_id ctx.host_id a)

  abbrev pub with_standing :
      {E : Type 0}
      → Text
      → PeerHostContext
      → Result (Option Tenant) E
      → AgentRateLimits S
      → Result CertStanding E
      → Outcome S R
  with_standing path ctx tenant a (err _) = record {
    limits = a;
    retired = false;
    response = internal;
  }
  with_standing path ctx tenant a (ok standing) =
      let passed = with_tenant (ltb 0 standing.superseded) path ctx a tenant in
      if not standing.active
      then record { limits = a; retired = false; response = forbidden }
      else passed

  unfoldable pub tier_layer :
      {E : Type 0}
      → Text
      → Option PeerHostContext
      → Result CertStanding E
      → Result (Option Tenant) E
      → AgentRateLimits S
      → Outcome S R
  tier_layer path none standing tenant a = record {
    limits = a;
    retired = false;
    response = internal;
  }
  tier_layer path (some ctx) standing tenant a = with_standing path ctx tenant a standing
