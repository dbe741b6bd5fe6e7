-- ===== src/Limits/Agent/Traced.antt =====
-- What `tier_layer` does to the limits, as calls on them in the order of the clock.
use nsclient_fleet_server.Common.{
  ℕ, ◌≤◌, Bool, true, false, not, ◌≡◌, refl, sym, ap, ◌∙◌, subst, List, [], ◌∷◌, ◌++◌, Option, none,
  some, ltb, arith, if◌then◌else◌, Bool-cases, inl, inr, ◌==◌,
}
use nsclient_fleet_server.Common.Int.{ℤ}
use nsclient_fleet_server.Common.Text.{Text, text_equality, text_eq_iff}
use nsclient_fleet_server.Common.Distinct.{IsDistinct, keep-IsDistinct}
use nsclient_fleet_server.Common.Result.{Result, ok, err}
use nsclient_fleet_server.Tier.{TierLimits, TierOverrides, effective}
use nsclient_fleet_server.Limits.Governor.{Governor}
use nsclient_fleet_server.Limits.Agent.{
  AgentRateLimits, HostKey, check_request, check_poll_interval,
}
use nsclient_fleet_server.Limits.Agent.Spacing.{
  maybe_prune-last_poll, request-last_poll, Op, request, poll, InOrder, run,
}
use nsclient_fleet_server.Limits.Agent.Layer.{
  PeerHostContext, CertStanding, Tenant, forbidden, desired_state_path, after_poll, after_request,
  with_tenant, tier_layer,
}

InOrder-earlier :
    (host : Text) (early late last : ℕ) (os : List Op)
    → early ≤ late
    → InOrder host late os last
    → InOrder host early os last
InOrder-earlier host early late last [] le h = omega arith
InOrder-earlier host early late last (o ∷ os) le (h, n, r) = (omega arith, n, r)

pub InOrder-append :
    (host : Text) (early mid last : ℕ) (os ps : List Op)
    → InOrder host early os mid
    → InOrder host mid ps last
    → InOrder host early (os ++ ps) last
InOrder-append host early mid last [] ps h k = InOrder-earlier host early mid last ps h k
InOrder-append host early mid last (o ∷ os) ps (h, n, r) k =
    (h, n, InOrder-append host _ mid last os ps r k)

module _ {S : Type 0} (governed : ℕ → Governor HostKey S) (fresh : ℕ → S) where
  pub run-append :
      (os ps : List Op) (a : AgentRateLimits S)
      → run governed fresh (os ++ ps) a ≡ run governed fresh ps (run governed fresh os a)
  run-append [] ps a = refl
  run-append (o ∷ os) ps a = run-append os ps _

  -- Calls in the order of the clock, none of which forgets the host, lead from `a` to `b`.
  abbrev pub Reaches : Text → ℕ → AgentRateLimits S → ℕ → AgentRateLimits S → Type 0
  Reaches host early a last b =
      (os : List Op) × InOrder host early os last × (run governed fresh os a ≡ b)

  pub earlier-Reaches :
      (host : Text) (early late last : ℕ) (a b : AgentRateLimits S)
      → early ≤ late
      → Reaches host late a last b
      → Reaches host early a last b
  earlier-Reaches host early late last a b le (os, i, e) =
      (os, InOrder-earlier host early late last os le i, e)

  pub then-Reaches :
      (host : Text) (early mid last : ℕ) (a b c : AgentRateLimits S)
      → Reaches host early a mid b
      → Reaches host mid b last c
      → Reaches host early a last c
  then-Reaches host early mid last a b c (os, i, e) (ps, j, f) = (
    os ++ ps,
    InOrder-append host early mid last os ps i j,
    run-append os ps a ∙ ap (run governed fresh ps) e ∙ f,
  )

  pub check_request-IsDistinct :
      (now : ℕ) (tier : TierLimits) (tenant : ℤ) (host : Text) (a : AgentRateLimits S)
      → IsDistinct a.last_poll
      → IsDistinct (check_request governed fresh now tier tenant host a).0.last_poll
  check_request-IsDistinct now tier tenant host a d =
      subst (λ m. IsDistinct m) (sym (request-last_poll governed fresh now tier tenant host a))
        (elim (maybe_prune-last_poll governed fresh now a) [
          | inl e ↦ subst (λ m. IsDistinct m) (sym e) d
          | inr e ↦ subst (λ m. IsDistinct m) (sym e) (keep-IsDistinct _ a.last_poll d)
        ])

  -- The calls of `tier_layer`, each at the request's own instant.
  module _ {R : Type 0} (from_json : Text → Option TierOverrides) (next : R) (h : Text)
      (now : ℕ) where
    after_poll-limits :
        (retired : Bool) (r : AgentRateLimits S × Result (Unit {0}) ℕ)
        → (after_poll governed fresh from_json now next retired r).limits ≡ r.0
    after_poll-limits retired (a, err w) = refl
    after_poll-limits retired (a, ok u) = refl

    pub after_request-limits :
        (retired : Bool) (path : Text) (tier : TierLimits) (host : Text)
        (r : AgentRateLimits S × Result (Unit {0}) ℕ)
        → path ≡ desired_state_path
        → r.1 ≡ ok tt
        → (after_request governed fresh from_json now next retired path tier host r).limits
          ≡ (check_poll_interval now tier host r.0).0
    after_request-limits retired path tier host (a, err w) p e = cc
    after_request-limits retired path tier host (a, ok u) p e = ground (
      arith,
      (text_eq_iff path desired_state_path).1 p,
      after_poll-limits retired (check_poll_interval now tier host a),
    )

    after_request-Reaches :
        (retired : Bool) (path : Text) (tier : TierLimits) (host : Text)
        (r : AgentRateLimits S × Result (Unit {0}) ℕ)
        → Reaches h now r.0 now
            (after_request governed fresh from_json now next retired path tier host r).limits
    after_request-Reaches retired path tier host (a, err w) = ([], omega arith, refl)
    after_request-Reaches retired path tier host (a, ok u) =
        elim (Bool-cases (path == desired_state_path)) [
          | inl e ↦ (
            poll now tier host ∷ [],
            (omega arith, refl, omega arith),
            ground (arith, e, after_poll-limits retired (check_poll_interval now tier host a)),
          )
          | inr e ↦ ([], omega arith, ground (arith, e))
        ]

    with_tenant-Reaches :
        {E : Type 0} (retired : Bool) (path : Text) (ctx : PeerHostContext) (a : AgentRateLimits S)
        (tenant : Result (Option Tenant) E)
        → Reaches h now a now
            (with_tenant governed fresh from_json now next retired path ctx a tenant).limits
    with_tenant-Reaches retired path ctx a (err e) = ([], omega arith, refl)
    with_tenant-Reaches retired path ctx a (ok none) = ([], omega arith, refl)
    with_tenant-Reaches retired path ctx a (ok (some t)) =
        let tier = effective from_json t.tier t.tier_overrides_json in
        let r = check_request governed fresh now tier ctx.tenant_id ctx.host_id a in
        then-Reaches h now now now a r.0 _
          (request now tier ctx.tenant_id ctx.host_id ∷ [], (omega arith, refl, omega arith), refl)
          (after_request-Reaches retired path tier ctx.host_id r)

    pub tier_layer-Reaches :
        {E : Type 0} (path : Text) (peer : Option PeerHostContext)
        (standing : Result CertStanding E) (tenant : Result (Option Tenant) E)
        (a : AgentRateLimits S)
        → Reaches h now a now
            (tier_layer governed fresh from_json now next path peer standing tenant a).limits
    unfolding tier_layer
    tier_layer-Reaches path none standing tenant a = ([], omega arith, refl)
    tier_layer-Reaches path (some ctx) (err e) tenant a = ([], omega arith, refl)
    tier_layer-Reaches path (some ctx) (ok s) tenant a = go s.active
      where
        go :
            (active : Bool)
            → Reaches h now a now
                (if not active
                  then record { limits = a; retired = false; response = forbidden }
                  else with_tenant governed fresh from_json now next
                      (ltb 0 s.superseded)
                      path
                      ctx
                      a
                      tenant).limits
        go false = ([], omega arith, refl)
        go true = with_tenant-Reaches (ltb 0 s.superseded) path ctx a tenant
