-- ===== src/Limits/Agent/Admission.antt =====
-- Which requests pass `tier_layer`, and that a refused certificate leaves no trace.
use nsclient_fleet_server.Common.{
  ℕ, Bool, true, false, ◌≡◌, refl, Option, none, some, ltb, arith, Bool-cases, ◌⊎◌, inl, inr,
}
use nsclient_fleet_server.Common.Text.{Text, text_equality, text_eq_iff}
use nsclient_fleet_server.Common.Result.{Result, ok, err}
use nsclient_fleet_server.Tier.{TierLimits, TierOverrides, effective}
use nsclient_fleet_server.Limits.Governor.{Governor}
use nsclient_fleet_server.Limits.Agent.{
  AgentRateLimits, HostKey, check_request, check_poll_interval,
}
use nsclient_fleet_server.Limits.Agent.Layer.{
  PeerHostContext, CertStanding, Tenant, internal, forbidden, served, desired_state_path,
  after_poll, after_request, with_tenant, tier_layer,
}

module _ {S R : Type 0} (governed : ℕ → Governor HostKey S) (fresh : ℕ → S)
    (from_json : Text → Option TierOverrides) (now : ℕ) (next : R) where
  -- What has to hold for a request to reach a handler.
  abbrev pub Admitted :
      {E : Type 0}
      → Text
      → Option PeerHostContext
      → Result CertStanding E
      → Result (Option Tenant) E
      → AgentRateLimits S
      → Type 0
  Admitted path peer standing tenant a =
      (ctx : PeerHostContext) × (s : CertStanding) × (t : Tenant) × (peer ≡ some ctx)
      × (standing ≡ ok s)
      × (s.active ≡ true)
      × (tenant ≡ ok (some t))
      × ((check_request governed fresh now (effective from_json t.tier t.tier_overrides_json)
            ctx.tenant_id ctx.host_id a).1
          ≡ ok tt)
      × (path ≡ desired_state_path
          → (check_poll_interval now (effective from_json t.tier t.tier_overrides_json) ctx.host_id
              (check_request governed fresh now (effective from_json t.tier t.tier_overrides_json)
                ctx.tenant_id ctx.host_id a).0).1
            ≡ ok tt)

  after_poll-served :
      (retired : Bool) (r : AgentRateLimits S × Result (Unit {0}) ℕ)
      → (after_poll governed fresh from_json now next retired r).response ≡ served next
      → r.1 ≡ ok tt
  after_poll-served retired (a, err w) h = cc
  after_poll-served retired (a, ok tt) h = refl

  after_request-served :
      (retired : Bool) (path : Text) (tier : TierLimits) (host : Text)
      (r : AgentRateLimits S × Result (Unit {0}) ℕ)
      → (after_request governed fresh from_json now next retired path tier host r).response
        ≡ served next
      → (r.1 ≡ ok tt)
        × (path ≡ desired_state_path → (check_poll_interval now tier host r.0).1 ≡ ok tt)
  after_request-served retired path tier host (a, err w) h = cc
  after_request-served retired path tier host (a, ok tt) h = (
    refl,
    λ e. ground (
      arith,
      text_eq_iff path desired_state_path,
      after_poll-served retired (check_poll_interval now tier host a),
    ),
  )

  with_tenant-served :
      {E : Type 0} (retired : Bool) (path : Text) (ctx : PeerHostContext) (a : AgentRateLimits S)
      (tenant : Result (Option Tenant) E)
      → (with_tenant governed fresh from_json now next retired path ctx a tenant).response
        ≡ served next
      → (t : Tenant) × (tenant ≡ ok (some t))
        × ((check_request governed fresh now
              (effective from_json t.tier t.tier_overrides_json)
              ctx.tenant_id
              ctx.host_id
              a).1
            ≡ ok tt)
        × (path ≡ desired_state_path
            → (check_poll_interval now
                (effective from_json t.tier t.tier_overrides_json)
                ctx.host_id
                (check_request governed fresh now
                  (effective from_json t.tier t.tier_overrides_json)
                  ctx.tenant_id
                  ctx.host_id
                  a).0).1
              ≡ ok tt)
  with_tenant-served retired path ctx a (err e) h = cc
  with_tenant-served retired path ctx a (ok none) h = cc
  with_tenant-served retired path ctx a (ok (some t)) h =
      let tier = effective from_json t.tier t.tier_overrides_json in
      let r =
        after_request-served retired path tier ctx.host_id
          (check_request governed fresh now tier ctx.tenant_id ctx.host_id a) h in
      (t, refl, r.0, r.1)

  -- A request reaches the handler behind the layer only if the handshake identified the host, its
  -- certificate's standing could be read and is active, its tenant could be read and exists,
  -- `check_request` answers ok, and, for the desired-state path, so does `check_poll_interval` after
  -- it.
  pub tier_layer-served :
      {E : Type 0} (path : Text) (peer : Option PeerHostContext) (standing : Result CertStanding E)
      (tenant : Result (Option Tenant) E) (a : AgentRateLimits S)
      → (tier_layer governed fresh from_json now next path peer standing tenant a).response
        ≡ served next
      → Admitted path peer standing tenant a
  unfolding tier_layer
  tier_layer-served path none standing tenant a h = cc
  tier_layer-served path (some ctx) (err e) tenant a h = cc
  tier_layer-served path (some ctx) (ok s) tenant a h = elim (Bool-cases s.active) [
    | inl e ↦
        let r = with_tenant-served (ltb 0 s.superseded) path ctx a tenant (ground arith) in
        (ctx, s, r.0, refl, refl, e, r.1, r.2, r.3)
    | inr e ↦ ground arith
  ]

  -- A host whose certificate is not active, whose standing cannot be read, or that is not
  -- identified at all, is refused without a trace: the limits are as they were, and no
  -- certificate is retired.
  pub tier_layer-revoked :
      {E : Type 0} (path : Text) (peer : Option PeerHostContext) (standing : Result CertStanding E)
      (tenant : Result (Option Tenant) E) (a : AgentRateLimits S)
      → (peer ≡ none) ⊎ ((s : CertStanding) → standing ≡ ok s → s.active ≡ false)
      → ((tier_layer governed fresh from_json now next path peer standing tenant a).limits ≡ a)
        × ((tier_layer governed fresh from_json now next path peer standing tenant a).retired
            ≡ false)
        × (((tier_layer governed fresh from_json now next path peer standing tenant a).response
              ≡ internal)
            ⊎ ((tier_layer governed fresh from_json now next path peer standing tenant a).response
                ≡ forbidden))
  unfolding tier_layer
  tier_layer-revoked path none standing tenant a h = (refl, refl, inl refl)
  tier_layer-revoked path (some ctx) (err e) tenant a h = (refl, refl, inl refl)
  tier_layer-revoked path (some ctx) (ok s) tenant a (inl none_peer) = cc
  tier_layer-revoked path (some ctx) (ok s) tenant a (inr h) = let dead = h s refl in ground arith
