-- ===== src/Limits/Auth/Order.antt =====
-- The order of the checks: what a refused request does not spend.
use nsclient_fleet_server.Common.{ℕ, Bool, true, false, ◌≡◌, refl, ◌⊎◌, List, arith}
use nsclient_fleet_server.Common.Int.{ℤ}
use nsclient_fleet_server.Limits.Governor.{Governor}
use nsclient_fleet_server.Limits.Email.{plausible_email}
use nsclient_fleet_server.Limits.Auth.{
  AuthRateLimits, ip_limited, consume_daily_budget, maybe_prune, spend_ip, spend_email, check,
  decide_ip, decide_email, decide_budget,
}

module _ {E I Ip : Type 0} (em : Governor (List ℕ) E) (eh : Governor (List ℕ) E)
    (im : Governor Ip I) (ih : Governor Ip I) where
  -- Neither limiter of addresses moved.
  abbrev pub SparesEmail : AuthRateLimits E I → AuthRateLimits E I → Type 0
  SparesEmail a b =
      (a.per_email_minute ≡ b.per_email_minute) × (a.per_email_hour ≡ b.per_email_hour)

  decide_budget-ip :
      (r : AuthRateLimits E I × Bool) → (decide_budget em eh im ih r).1 ≡ ip_limited → ⊥
  decide_budget-ip (a, true) h = cc
  decide_budget-ip (a, false) h = cc

  decide_email-ip :
      (now : ℤ) (r : AuthRateLimits E I × Bool)
      → (decide_email em eh im ih now r).1 ≡ ip_limited
      → ⊥
  decide_email-ip now (a, true) h = decide_budget-ip (consume_daily_budget now a) h
  decide_email-ip now (a, false) h = cc

  decide_ip-ip :
      (clock : ℕ) (now : ℤ) (email : List ℕ) (r : AuthRateLimits E I × Bool)
      → (decide_ip em eh im ih clock now email r).1 ≡ ip_limited
      → (decide_ip em eh im ih clock now email r).0 ≡ r.0
  decide_ip-ip clock now email (a, true) h =
      absurd (decide_email-ip now (spend_email em eh im ih clock email a) h)
  decide_ip-ip clock now email (a, false) h = refl

  spend_ip-SparesEmail :
      (clock : ℕ) (ip : Ip) (a : AuthRateLimits E I)
      → SparesEmail (spend_ip em eh im ih clock ip a).0 a
  unfolding spend_ip
  spend_ip-SparesEmail clock ip a = ground arith

  -- A request for a mail that is refused for its source, or whose address is not plausible, spends
  -- nothing of the address's own limits: after it both limiters of addresses are as pruning, when
  -- it was due, left them. So a source that is already limited cannot use up the mails of somebody
  -- else's address.
  pub check-SparesEmail :
      (clock : ℕ) (now : ℤ) (email : List ℕ) (ip : Ip) (a : AuthRateLimits E I)
      → ((check em eh im ih clock now email ip a).1 ≡ ip_limited) ⊎ (plausible_email email ≡ false)
      → SparesEmail (check em eh im ih clock now email ip a).0 (maybe_prune em eh im ih clock a)
  unfolding check
  check-SparesEmail clock now email ip a h =
      let pruned = maybe_prune em eh im ih clock a in
      let spent = spend_ip em eh im ih clock ip pruned in
      ground (arith, decide_ip-ip clock now email spent, spend_ip-SparesEmail clock ip pruned)
