-- ===== src/Limits/Auth/Counted.antt =====
-- What each call does to the daily counter of the sign-in limits.
use nsclient_fleet_server.Common.{
  ℕ, ◌+◌, ◌≤◌, ◌<◌, ◌^◌, Bool, true, false, ◌≡◌, refl, List, arith, subst, sym,
}
use nsclient_fleet_server.Common.Int.{ℤ, pos, ◌-ℤ◌, leb_ℤ, wrap_i64}
use nsclient_fleet_server.Limits.Governor.{Governor}
use nsclient_fleet_server.Limits.Auth.{
  AuthRateLimits, RateDecision, allow, consume_daily_budget, prune, maybe_prune, spend_ip,
  spend_email, check, decide_email, decide_ip, decide_budget,
}

abbrev pub allowed : RateDecision → ℕ
allowed allow = 1
allowed _ = 0

-- The window that a state counts in is still open at `now`.
abbrev pub InWindow : {E I : Type 0} → ℤ → AuthRateLimits E I → Type 0
InWindow now a = leb_ℤ (pos 86400) (wrap_i64 (now -ℤ a.daily_window_start)) ≡ false

-- The count stays within the budget, which is a `u32`.
abbrev pub IsWithinBudget : {E I : Type 0} → AuthRateLimits E I → Type 0
IsWithinBudget a = (a.daily_count ≤ a.daily_budget) × (a.daily_budget < 2 ^ 32)

abbrev pub Same : {E I : Type 0} → AuthRateLimits E I → AuthRateLimits E I → Type 0
Same a b =
    (a.daily_count ≡ b.daily_count)
    × (a.daily_budget ≡ b.daily_budget)
    × (a.daily_window_start ≡ b.daily_window_start)

abbrev pub granted : Bool → ℕ
granted true = 1
granted false = 0

-- What a step that was or was not granted does to the counter, in the open window.
abbrev pub Counted : {E I : Type 0} → AuthRateLimits E I → AuthRateLimits E I → ℕ → Type 0
Counted a b n =
    (b.daily_count ≡ a.daily_count + n)
    × (b.daily_budget ≡ a.daily_budget)
    × (b.daily_window_start ≡ a.daily_window_start)
    × IsWithinBudget b

consume-Counted :
    {E I : Type 0} (now : ℤ) (a : AuthRateLimits E I)
    → IsWithinBudget a
    → InWindow now a
    → Counted a (consume_daily_budget now a).0 (granted (consume_daily_budget now a).1)
unfolding consume_daily_budget
consume-Counted now a w o = ground arith

-- Whatever the time is, the count is within the budget after the call as it was before.
pub consume-IsWithinBudget :
    {E I : Type 0} (now : ℤ) (a : AuthRateLimits E I)
    → IsWithinBudget a
    → IsWithinBudget (consume_daily_budget now a).0
unfolding consume_daily_budget
consume-IsWithinBudget now a w = ground arith

module _ {E I Ip : Type 0} (em : Governor (List ℕ) E) (eh : Governor (List ℕ) E)
    (im : Governor Ip I) (ih : Governor Ip I) where
  pub maybe_prune-Same :
      (clock : ℕ) (a : AuthRateLimits E I) → Same (maybe_prune em eh im ih clock a) a
  unfolding maybe_prune prune
  maybe_prune-Same clock a = ground arith

  pub spend_ip-Same :
      (clock : ℕ) (ip : Ip) (a : AuthRateLimits E I) → Same (spend_ip em eh im ih clock ip a).0 a
  unfolding spend_ip
  spend_ip-Same clock ip a = ground arith

  spend_email-Same :
      (clock : ℕ) (email : List ℕ) (a : AuthRateLimits E I)
      → Same (spend_email em eh im ih clock email a).0 a
  unfolding spend_email
  spend_email-Same clock email a = ground arith

  decide_budget-allowed :
      (r : AuthRateLimits E I × Bool)
      → (allowed (decide_budget em eh im ih r).1 ≡ granted r.1)
        × ((decide_budget em eh im ih r).0 ≡ r.0)
  decide_budget-allowed (a, true) = (refl, refl)
  decide_budget-allowed (a, false) = (refl, refl)

  decide_email-Counted :
      (now : ℤ) (r : AuthRateLimits E I × Bool)
      → IsWithinBudget r.0
      → InWindow now r.0
      → Counted r.0 (decide_email em eh im ih now r).0 (allowed (decide_email em eh im ih now r).1)
  decide_email-Counted now (a, true) w o =
      ground (arith, consume-Counted now a w o, decide_budget-allowed (consume_daily_budget now a))
  decide_email-Counted now (a, false) w o = ground arith

  Same-Counted : (a b c : AuthRateLimits E I) (n : ℕ) → Same b a → Counted b c n → Counted a c n
  Same-Counted a b c n s k = ground arith

  pub Same-trans : (a b c : AuthRateLimits E I) → Same a b → Same b c → Same a c
  Same-trans a b c s t = ground arith

  pub Same-IsWithinBudget :
      (a b : AuthRateLimits E I) → Same b a → IsWithinBudget a → IsWithinBudget b
  Same-IsWithinBudget a b s w = ground arith

  Same-InWindow : (now : ℤ) (a b : AuthRateLimits E I) → Same b a → InWindow now a → InWindow now b
  Same-InWindow now a b s w =
      subst (λ x. leb_ℤ (pos 86400) (wrap_i64 (now -ℤ x)) ≡ false) (sym (s.2)) w

  decide_ip-Counted :
      (clock : ℕ) (now : ℤ) (email : List ℕ) (r : AuthRateLimits E I × Bool)
      → IsWithinBudget r.0
      → InWindow now r.0
      → Counted r.0
          (decide_ip em eh im ih clock now email r).0
          (allowed (decide_ip em eh im ih clock now email r).1)
  decide_ip-Counted clock now email (a, false) w o = ground arith
  decide_ip-Counted clock now email (a, true) w o =
      let spent = spend_email em eh im ih clock email a in
      let same = spend_email-Same clock email a in
      Same-Counted a spent.0 (decide_email em eh im ih now spent).0 _ same (
        decide_email-Counted now spent (Same-IsWithinBudget a spent.0 same w)
          (Same-InWindow now a spent.0 same o))

  pub check-Counted :
      (clock : ℕ) (now : ℤ) (email : List ℕ) (ip : Ip) (a : AuthRateLimits E I)
      → IsWithinBudget a
      → InWindow now a
      → Counted a
          (check em eh im ih clock now email ip a).0
          (allowed (check em eh im ih clock now email ip a).1)
  unfolding check
  check-Counted clock now email ip a w o =
      let pruned = maybe_prune em eh im ih clock a in
      let spent = spend_ip em eh im ih clock ip pruned in
      let clean = maybe_prune-Same clock a in
      let same = Same-trans spent.0 pruned a (spend_ip-Same clock ip pruned) clean in
      let counted = Same-Counted a spent.0 (decide_ip em eh im ih clock now email spent).0 _ same (
        decide_ip-Counted clock now email spent (Same-IsWithinBudget a spent.0 same w)
          (Same-InWindow now a spent.0 same o)) in
      ground (arith, counted, clean)
