-- ===== src/Limits/Agent/Spacing.antt =====
-- Polls that are accepted from one host lie its poll interval apart.
use nsclient_fleet_server.Common.{
  ℕ, ◌+◌, ◌*◌, ◌≤◌, Bool, false, ◌≡◌, sym, subst, ◌⊎◌, inl, inr, List, [], ◌∷◌, some, ltb, keep,
  arith, ◌==◌,
}
use nsclient_fleet_server.Common.Int.{ℤ}
use nsclient_fleet_server.Common.Text.{Text, text_equality, text_eq_iff}
use nsclient_fleet_server.Common.Dict.{get, put, get-put}
use nsclient_fleet_server.Common.Distinct.{IsDistinct, put-IsDistinct}
use nsclient_fleet_server.Common.Result.{ok}
use nsclient_fleet_server.Tier.{TierLimits}
use nsclient_fleet_server.Limits.Governor.{Governor}
use nsclient_fleet_server.Limits.Agent.{
  AgentRateLimits, HostKey, second, last_poll_ttl, elapsed_secs, poll_wait, check_poll_interval,
  forget_last_poll, prune, maybe_prune, check_request, charge, limiter_for_tier,
}
use nsclient_fleet_server.Limits.Agent.Memory.{Kept, put-Kept, stay-Kept, remove-Kept, sweep-Kept}

elapsed-real : (now prev n : ℕ) → n ≤ elapsed_secs now prev → prev + n * second ≤ now ⊎ n ≡ 0
elapsed-real now prev n h = omega arith

-- A call on the limits of the agents.
pub data Op : Type 0 where
  request : ℕ → TierLimits → ℤ → Text → Op
  poll : ℕ → TierLimits → Text → Op
  forget : ℕ → Text → Op

abbrev pub op_time : Op → ℕ
op_time (request now tier tenant host) = now
op_time (poll now tier host) = now
op_time (forget now host) = now

abbrev pub forgets : Text → Op → Bool
forgets host (request now tier tenant h) = false
forgets host (poll now tier h) = false
forgets host (forget now h) = h == host

-- The calls come in the order of the clock, from `now` on, and none forgets the host.
abbrev pub InOrder : Text → ℕ → List Op → ℕ → Type 0
InOrder host now [] last = now ≤ last
InOrder host now (o ∷ os) last =
    (now ≤ op_time o) × (forgets host o ≡ false) × InOrder host (op_time o) os last

module _ {S : Type 0} (governed : ℕ → Governor HostKey S) (fresh : ℕ → S) where
  abbrev pub step : Op → AgentRateLimits S → AgentRateLimits S
  step (request now tier tenant host) a = (check_request governed fresh now tier tenant host a).0
  step (poll now tier host) a = (check_poll_interval now tier host a).0
  step (forget now host) a = forget_last_poll host a

  abbrev pub run : List Op → AgentRateLimits S → AgentRateLimits S
  run [] a = a
  run (o ∷ os) a = run os (step o a)

  pub maybe_prune-last_poll :
      (now : ℕ) (a : AgentRateLimits S)
      → ((maybe_prune governed fresh now a).last_poll ≡ a.last_poll)
        ⊎ ((maybe_prune governed fresh now a).last_poll
            ≡ keep (λ e. ltb now (e.1 + last_poll_ttl)) a.last_poll)
  unfolding maybe_prune prune
  maybe_prune-last_poll now a = ground arith

  maybe_prune-Kept :
      (host : Text) (t now : ℕ) (a : AgentRateLimits S)
      → Kept host t now a.last_poll
      → Kept host t now (maybe_prune governed fresh now a).last_poll
  maybe_prune-Kept host t now a k = elim (maybe_prune-last_poll now a) [
    | inl e ↦ subst (Kept host t now) (sym e) k
    | inr e ↦ subst (Kept host t now) (sym e) (sweep-Kept host t now a.last_poll k)
  ]

  pub request-last_poll :
      (now : ℕ) (tier : TierLimits) (tenant : ℤ) (host : Text) (a : AgentRateLimits S)
      → (check_request governed fresh now tier tenant host a).0.last_poll
        ≡ (maybe_prune governed fresh now a).last_poll
  unfolding check_request charge limiter_for_tier
  request-last_poll now tier tenant host a = ground arith

  poll-last_poll :
      (now : ℕ) (tier : TierLimits) (host : Text) (a : AgentRateLimits S)
      → ((check_poll_interval now tier host a).0.last_poll ≡ a.last_poll)
        ⊎ ((check_poll_interval now tier host a).0.last_poll ≡ put host now a.last_poll)
  unfolding check_poll_interval
  poll-last_poll now tier host a = ground arith

  step-Kept :
      (host : Text) (t before : ℕ) (o : Op) (a : AgentRateLimits S)
      → before ≤ op_time o
      → t ≤ before
      → forgets host o ≡ false
      → Kept host t before a.last_poll
      → Kept host t (op_time o) (step o a).last_poll
  step-Kept host t before (request now tier tenant h) a le le' nf k =
      subst (Kept host t now) (sym (request-last_poll now tier tenant h a))
        (maybe_prune-Kept host t now a (stay-Kept host t before now a.last_poll le k))
  step-Kept host t before (poll now tier other) a le le' nf k =
      elim (poll-last_poll now tier other a) [
        | inl e ↦ subst (Kept host t now) (sym e) (stay-Kept host t before now a.last_poll le k)
        | inr e ↦
            subst (Kept host t now) (sym e) (put-Kept host other t before now a.last_poll le le' k)
      ]
  step-Kept host t before (forget now other) a le le' nf k =
      unfold forget_last_poll in
      remove-Kept host other t now a.last_poll nf (stay-Kept host t before now a.last_poll le k)

  run-Kept :
      (host : Text) (t before last : ℕ) (os : List Op) (a : AgentRateLimits S)
      → t ≤ before
      → InOrder host before os last
      → Kept host t before a.last_poll
      → Kept host t last (run os a).last_poll
  run-Kept host t before last [] a le h k = stay-Kept host t before last a.last_poll h k
  run-Kept host t before last (o ∷ os) a le (h, nf, hs) k =
      run-Kept host t (op_time o) last os (step o a) (omega arith) hs
        (step-Kept host t before o a h le nf k)

  accepted-put :
      (now : ℕ) (tier : TierLimits) (host : Text) (a : AgentRateLimits S)
      → (check_poll_interval now tier host a).1 ≡ ok tt
      → (check_poll_interval now tier host a).0.last_poll ≡ put host now a.last_poll
  unfolding check_poll_interval
  accepted-put now tier host a h = ground arith

  accepted-apart :
      (now u : ℕ) (tier : TierLimits) (host : Text) (a : AgentRateLimits S)
      → get host a.last_poll ≡ some u
      → (check_poll_interval now tier host a).1 ≡ ok tt
      → tier.min_poll_interval_secs ≤ elapsed_secs now u
  unfolding check_poll_interval poll_wait
  accepted-apart now u tier host a g h = ground arith

  InOrder-le :
      (host : Text) (before last : ℕ) (os : List Op) → InOrder host before os last → before ≤ last
  InOrder-le host before last [] h = h
  InOrder-le host before last (o ∷ os) (h, nf, hs) =
      omega (arith, InOrder-le host (op_time o) last os hs)

  accepted-Kept :
      (now : ℕ) (tier : TierLimits) (host : Text) (a : AgentRateLimits S)
      → IsDistinct a.last_poll
      → (check_poll_interval now tier host a).1 ≡ ok tt
      → Kept host now now (check_poll_interval now tier host a).0.last_poll
  accepted-Kept now tier host a d h =
      subst (Kept host now now) (sym (accepted-put now tier host a h)) (
        put-IsDistinct host now a.last_poll d,
        inl (
          now,
          ground (arith, get-put host host now a.last_poll, text_eq_iff host host),
          omega arith,
        ),
      )

  -- Say a host's poll is accepted at one instant, on limits whose last polls are recorded once for
  -- each host, and another poll of it at a later one. In
  -- between any calls may come, in the order of the clock: requests, which charge the limiters
  -- and prune, polls of any host, and the forgetting of other hosts, but not of this one. Then
  -- the two polls lie at least the poll interval of the later one's tier apart, as long as that
  -- interval is at most the hour for which a last poll is remembered.
  pub polls-apart :
      (host : Text) (first now : ℕ) (before tier : TierLimits) (os : List Op)
      (a : AgentRateLimits S)
      → IsDistinct a.last_poll
      → (check_poll_interval first before host a).1 ≡ ok tt
      → InOrder host first os now
      → tier.min_poll_interval_secs ≤ 3600
      → (check_poll_interval now tier host (run os (check_poll_interval first before host a).0)).1
        ≡ ok tt
      → first + tier.min_poll_interval_secs * second ≤ now
  polls-apart host first now before tier os a d h ord short h' =
      let b = run os (check_poll_interval first before host a).0 in
      let k =
        run-Kept host first first now os (check_poll_interval first before host a).0 (omega arith)
          ord (accepted-Kept first before host a d h) in
      elim (k.1) [
        | inl (u, g, le) ↦
            let far = accepted-apart now u tier host b g h' in
            omega (
              arith,
              elapsed-real now u tier.min_poll_interval_secs far,
              InOrder-le host first now os ord,
            )
        | inr (g, le) ↦ omega arith
      ]
