-- ===== src/Limits/Auth/Budget.antt =====
-- The daily budget: no more mails in a day than it allows, over any run of calls.
use nsclient_fleet_server.Common.{ℕ, ◌+◌, ◌≤◌, false, ◌≡◌, List, [], ◌∷◌, arith, subst, sym}
use nsclient_fleet_server.Common.Int.{ℤ, pos, ◌-ℤ◌, leb_ℤ, wrap_i64}
use nsclient_fleet_server.Limits.Governor.{Governor}
use nsclient_fleet_server.Limits.Auth.{
  AuthRateLimits, prune, maybe_prune, check, check_ip, forget_email,
}
use nsclient_fleet_server.Limits.Auth.Counted.{
  allowed, IsWithinBudget, Same, Counted, maybe_prune-Same, spend_ip-Same, Same-trans,
  Same-IsWithinBudget, check-Counted,
}

-- A call on the shared limits.
pub data Call (E Ip : Type 0) : Type 0 where
  send : ℕ → ℤ → List ℕ → Ip → Call E Ip
  visit : ℕ → Ip → Call E Ip
  tidy : ℕ → Call E Ip
  forget : (List ℕ → List ℕ) → (List ℕ → E → E) → List ℕ → Call E Ip

module _ {E I Ip : Type 0} (em : Governor (List ℕ) E) (eh : Governor (List ℕ) E)
    (im : Governor Ip I) (ih : Governor Ip I) where
  -- The state after a run of calls, and how many mails the calls allowed.
  abbrev pub run : List (Call E Ip) → AuthRateLimits E I → AuthRateLimits E I × ℕ
  run [] a = (a, 0)
  run (send clock now email ip ∷ calls) a =
      let r = check em eh im ih clock now email ip a in
      let rest = run calls r.0 in (rest.0, allowed r.1 + rest.1)
  run (visit clock ip ∷ calls) a = run calls (check_ip em eh im ih clock ip a).0
  run (tidy clock ∷ calls) a = run calls (prune em eh im ih clock a)
  run (forget normal drop_key email ∷ calls) a = run calls (forget_email normal drop_key email a)

  -- Every mail of the run is asked for before the window that starts at `start` closes.
  abbrev pub Within : ℤ → List (Call E Ip) → Type 0
  Within start [] = Unit
  Within start (send clock now email ip ∷ calls) =
      (leb_ℤ (pos 86400) (wrap_i64 (now -ℤ start)) ≡ false) × Within start calls
  Within start (visit clock ip ∷ calls) = Within start calls
  Within start (tidy clock ∷ calls) = Within start calls
  Within start (forget normal drop_key email ∷ calls) = Within start calls

  check_ip-Same :
      (clock : ℕ) (ip : Ip) (a : AuthRateLimits E I) → Same (check_ip em eh im ih clock ip a).0 a
  unfolding check_ip
  check_ip-Same clock ip a =
      Same-trans em eh im ih (check_ip em eh im ih clock ip a).0 (maybe_prune em eh im ih clock a) a
        (spend_ip-Same em eh im ih clock ip (maybe_prune em eh im ih clock a))
        (maybe_prune-Same em eh im ih clock a)

  prune-Same : (clock : ℕ) (a : AuthRateLimits E I) → Same (prune em eh im ih clock a) a
  unfolding prune
  prune-Same clock a = ground arith

  forget_email-Same :
      (n : List ℕ → List ℕ) (d : List ℕ → E → E) (email : List ℕ) (a : AuthRateLimits E I)
      → Same (forget_email n d email a) a
  unfolding forget_email
  forget_email-Same n d email a = ground arith

  abbrev Bounded : AuthRateLimits E I → AuthRateLimits E I × ℕ → Type 0
  Bounded a r = (r.0.daily_count ≡ a.daily_count + r.1) × (r.0.daily_count ≤ a.daily_budget)

  Bounded-Same :
      (a b : AuthRateLimits E I) (r : AuthRateLimits E I × ℕ) → Same b a → Bounded b r → Bounded a r
  Bounded-Same a b r s h = ground arith

  Bounded-Counted :
      (a b : AuthRateLimits E I) (r : AuthRateLimits E I × ℕ) (n : ℕ)
      → Counted a b n
      → Bounded b r
      → Bounded a (r.0, n + r.1)
  Bounded-Counted a b r n s h = ground arith

  run-Bounded :
      (calls : List (Call E Ip)) (a : AuthRateLimits E I)
      → IsWithinBudget a
      → Within a.daily_window_start calls
      → Bounded a (run calls a)
  run-Bounded [] a w h = ground arith
  run-Bounded (send clock now email ip ∷ calls) a w (h, hs) =
      let r = check em eh im ih clock now email ip a in
      let c = check-Counted em eh im ih clock now email ip a w h in
      Bounded-Counted a r.0 (run calls r.0) (allowed r.1) c
        (run-Bounded calls r.0 (c.3) (subst (λ x. Within x calls) (sym (c.2)) hs))
  run-Bounded (visit clock ip ∷ calls) a w h =
      let b = (check_ip em eh im ih clock ip a).0 in
      let same = check_ip-Same clock ip a in
      Bounded-Same a b (run calls b) same (
        run-Bounded calls b (Same-IsWithinBudget em eh im ih a b same w)
          (subst (λ x. Within x calls) (sym (same.2)) h))
  run-Bounded (tidy clock ∷ calls) a w h =
      let b = prune em eh im ih clock a in
      let same = prune-Same clock a in
      Bounded-Same a b (run calls b) same (
        run-Bounded calls b (Same-IsWithinBudget em eh im ih a b same w)
          (subst (λ x. Within x calls) (sym (same.2)) h))
  run-Bounded (forget n d email ∷ calls) a w h =
      let b = forget_email n d email a in
      let same = forget_email-Same n d email a in
      Bounded-Same a b (run calls b) same (
        run-Bounded calls b (Same-IsWithinBudget em eh im ih a b same w)
          (subst (λ x. Within x calls) (sym (same.2)) h))

  -- Take limits whose count is within a budget that fits a `u32`, and any run of calls on them:
  -- mails asked for, other endpoints charging a source, pruning, and addresses forgotten after a
  -- sign-in. If every mail is asked for before the day's window closes, the count afterwards is
  -- the count before plus the number of mails allowed, and is still within the budget. It holds
  -- for whatever the per-address and per-source limiters answer.
  pub run-budget :
      (calls : List (Call E Ip)) (a : AuthRateLimits E I)
      → IsWithinBudget a
      → Within a.daily_window_start calls
      → ((run calls a).0.daily_count ≡ a.daily_count + (run calls a).1)
        × ((run calls a).0.daily_count ≤ a.daily_budget)
  run-budget calls a w h = run-Bounded calls a w h
