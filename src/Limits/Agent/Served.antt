-- ===== src/Limits/Agent/Served.antt =====
-- The polls of one host behind `tier_layer`, with whatever other requests the layer sees in between.
use nsclient_fleet_server.Common.{
  ℕ, ◌+◌, ◌*◌, ◌≤◌, Bool, true, false, ◌≡◌, refl, sym, ap, ◌∙◌, subst, List, [], ◌∷◌, ◌++◌, Option,
  none, some, ltb, arith, ◌==◌,
}
use nsclient_fleet_server.Common.Int.{ℤ}
use nsclient_fleet_server.Common.Text.{Text, text_equality}
use nsclient_fleet_server.Common.Distinct.{IsDistinct}
use nsclient_fleet_server.Common.Result.{Result, ok}
use nsclient_fleet_server.Tier.{TierLimits, TierOverrides, effective}
use nsclient_fleet_server.Limits.Governor.{Governor}
use nsclient_fleet_server.Limits.Agent.{
  AgentRateLimits, HostKey, second, check_request, check_poll_interval, forget_last_poll,
}
use nsclient_fleet_server.Limits.Agent.Spacing.{request, forget, run, polls-apart}
use nsclient_fleet_server.Limits.Agent.Layer.{
  PeerHostContext, CertStanding, Tenant, served, desired_state_path, tier_layer,
}
use nsclient_fleet_server.Limits.Agent.Admission.{Admitted, tier_layer-served}
use nsclient_fleet_server.Limits.Agent.Traced.{
  Reaches, after_request-limits, run-append, InOrder-append, check_request-IsDistinct,
  earlier-Reaches, then-Reaches, tier_layer-Reaches,
}

-- A request as the layer meets it: when, for which path, and what the handshake and the repositories
-- say of it.
pub record Arrival (E : Type 0) : Type 0 where
  pub at : ℕ
  pub path : Text
  pub peer : Option PeerHostContext
  pub cert_standing : Result CertStanding E
  pub tenant : Result (Option Tenant) E

-- What the limits see: requests at the layer, and hosts that are forgotten.
pub data Event (E : Type 0) : Type 0 where
  arrives : Arrival E → Event E
  forgotten : ℕ → Text → Event E

abbrev pub event_time : {E : Type 0} → Event E → ℕ
event_time (arrives r) = r.at
event_time (forgotten now host) = now

abbrev pub forgets_host : {E : Type 0} → Text → Event E → Bool
forgets_host host (arrives r) = false
forgets_host host (forgotten now h) = h == host

-- The events come in the order of the clock, from `now` to `last`, and none forgets the host.
abbrev pub AreInOrder : {E : Type 0} → Text → ℕ → List (Event E) → ℕ → Type 0
AreInOrder host now [] last = now ≤ last
AreInOrder host now (e ∷ es) last =
    (now ≤ event_time e) × (forgets_host host e ≡ false) × AreInOrder host (event_time e) es last

abbrev pub limits_of : (Text → Option TierOverrides) → Tenant → TierLimits
limits_of from_json t = effective from_json t.tier t.tier_overrides_json

abbrev host_of : Option PeerHostContext → Text
host_of none = []
host_of (some ctx) = ctx.host_id

abbrev tenant_of : {E : Type 0} → Tenant → Result (Option Tenant) E → Tenant
tenant_of t (ok (some u)) = u
tenant_of t _ = t

module _ {S R E : Type 0} (governed : ℕ → Governor HostKey S) (fresh : ℕ → S)
    (from_json : Text → Option TierOverrides) (next : R) where
  -- A request at the layer, and what it leaves of the limits.
  abbrev pub arrive : Arrival E → AgentRateLimits S → AgentRateLimits S
  arrive r a =
      (tier_layer governed fresh from_json r.at next r.path r.peer r.cert_standing r.tenant
        a).limits

  abbrev pub IsServed : Arrival E → AgentRateLimits S → Type 0
  IsServed r a =
      (tier_layer governed fresh from_json r.at next r.path r.peer r.cert_standing r.tenant
        a).response
      ≡ served next

  abbrev pub events : List (Event E) → AgentRateLimits S → AgentRateLimits S
  events [] a = a
  events (arrives r ∷ es) a = events es (arrive r a)
  events (forgotten now host ∷ es) a = events es (forget_last_poll host a)

  events-Reaches :
      (host : Text) (early last : ℕ) (es : List (Event E)) (a : AgentRateLimits S)
      → AreInOrder host early es last
      → Reaches governed fresh host early a last (events es a)
  events-Reaches host early last [] a i = ([], i, refl)
  events-Reaches host early last (arrives r ∷ es) a (le, n, i) =
      earlier-Reaches governed fresh host early r.at last a _ le (
        then-Reaches governed fresh host r.at r.at last a (arrive r a) _
          (tier_layer-Reaches governed fresh from_json next host r.at r.path r.peer r.cert_standing
            r.tenant a)
          (events-Reaches host r.at last es (arrive r a) i))
  events-Reaches host early last (forgotten now other ∷ es) a (le, n, i) =
      then-Reaches governed fresh host early now last a (forget_last_poll other a) _
        (forget now other ∷ [], (le, n, omega arith), refl)
        (events-Reaches host now last es (forget_last_poll other a) i)

  -- A request for the desired state from a host that the handshake identified.
  abbrev pub IsPollOf : Text → Arrival E → Type 0
  IsPollOf host r =
      (r.path ≡ desired_state_path)
      × ((ctx : PeerHostContext) × (r.peer ≡ some ctx) × (ctx.host_id ≡ host))

  -- What the layer does with a poll that it serves.
  abbrev Polled : Text → Arrival E → AgentRateLimits S → Type 0
  Polled host r a =
      (tenant : ℤ) × (t : Tenant) × (r.tenant ≡ ok (some t))
      × ((check_poll_interval r.at (limits_of from_json t) host
            (check_request governed fresh r.at (limits_of from_json t) tenant host a).0).1
          ≡ ok tt)
      × (arrive r a
          ≡ (check_poll_interval r.at (limits_of from_json t) host
              (check_request governed fresh r.at (limits_of from_json t) tenant host a).0).0)

  polled-limits :
      (r : Arrival E) (ctx : PeerHostContext) (s : CertStanding) (t : Tenant)
      (a : AgentRateLimits S)
      → r.path ≡ desired_state_path
      → r.peer ≡ some ctx
      → r.cert_standing ≡ ok s
      → s.active ≡ true
      → r.tenant ≡ ok (some t)
      → (check_request governed fresh r.at (limits_of from_json t) ctx.tenant_id ctx.host_id a).1
        ≡ ok tt
      → arrive r a
        ≡ (check_poll_interval r.at
            (limits_of from_json t)
            ctx.host_id
            (check_request governed fresh r.at
              (limits_of from_json t)
              ctx.tenant_id
              ctx.host_id
              a).0).0
  unfolding tier_layer
  polled-limits r ctx s t a p m d k u c =
      rw (m, d, u)
        (rw k (
          after_request-limits governed fresh from_json next ctx.host_id r.at (ltb 0 s.superseded)
            r.path (limits_of from_json t) ctx.host_id
            (check_request governed fresh r.at (limits_of from_json t) ctx.tenant_id ctx.host_id a)
            p c))

  Admitted-Polled :
      (r : Arrival E) (a : AgentRateLimits S)
      → r.path ≡ desired_state_path
      → Admitted governed fresh from_json r.at next r.path r.peer r.cert_standing r.tenant a
      → (host : Text) → (ctx : PeerHostContext) → r.peer ≡ some ctx
      → ctx.host_id ≡ host
      → Polled host r a
  Admitted-Polled r a p (dtx, s, t, m, d, k, u, c, w) host ctx q n =
      let same = ap (λ o. host_of o) (sym m ∙ q) ∙ n in
      subst (λ h. Polled h r a) same
        (dtx.tenant_id, t, u, w p, polled-limits r dtx s t a p m d k u c)

  -- Two polls of one host that the layer serves lie apart: at least the poll interval of the later
  -- one's effective limits, as long as that is at most the hour for which a last poll is remembered.
  -- In between come any requests at the layer, from whomever, served or refused, and the forgetting
  -- of other hosts but not of this one, in the order of the clock. The last polls are recorded once
  -- for each host at the start.
  pub served-apart :
      (host : Text) (first last : Arrival E) (es : List (Event E)) (t : Tenant)
      (a : AgentRateLimits S)
      → IsDistinct a.last_poll
      → IsPollOf host first
      → IsPollOf host last
      → last.tenant ≡ ok (some t)
      → (limits_of from_json t).min_poll_interval_secs ≤ 3600
      → AreInOrder host first.at es last.at
      → IsServed first a
      → IsServed last (events es (arrive first a))
      → first.at + (limits_of from_json t).min_poll_interval_secs * second ≤ last.at
  served-apart host first last es t a d p q e short i s u =
      let (n, b, f, c, m) =
        Admitted-Polled first a p.0
          (tier_layer-served governed fresh from_json first.at next first.path first.peer
            first.cert_standing first.tenant a s)
          host p.1.0 p.1.1 p.1.2 in
      let z = events es (arrive first a) in
      let (k, v, g, o, w) =
        Admitted-Polled last z q.0
          (tier_layer-served governed fresh from_json last.at next last.path last.peer
            last.cert_standing last.tenant z u)
          host q.1.0 q.1.1 q.1.2 in
      let (os, j, r) = events-Reaches host first.at last.at es (arrive first a) i in
      let y = (check_request governed fresh first.at (limits_of from_json b) n host a).0 in
      let ps = request last.at (limits_of from_json v) k host ∷ [] in
      let chain =
        run-append governed fresh os ps
          (check_poll_interval first.at (limits_of from_json b) host y).0
        ∙ ap (λ x. run governed fresh ps (run governed fresh os x)) (sym m)
        ∙ ap (run governed fresh ps) r in
      let same : v ≡ t = ap (λ x. tenant_of v x) (sym g ∙ e) in
      subst (λ x. first.at + (limits_of from_json x).min_poll_interval_secs * second ≤ last.at) same
        (polls-apart governed fresh host first.at last.at (limits_of from_json b)
          (limits_of from_json v) (os ++ ps) y
          (check_request-IsDistinct governed fresh first.at (limits_of from_json b) n host a d) c
          (InOrder-append host first.at last.at last.at os ps j (omega arith, refl, omega arith))
          (subst (λ x. (limits_of from_json x).min_poll_interval_secs ≤ 3600) (sym same) short)
          (ap (λ x. (check_poll_interval last.at (limits_of from_json v) host x).1) chain ∙ o))
