-- ===== src/Limits/Auth.antt =====
-- `AuthRateLimits`: the limits on sign-in mails per address, per source and per day. The four
-- limiters are governor's; the atomics are fields, and each call runs as a whole.
pub mod Counted
pub mod Budget
pub mod Order
use nsclient_fleet_server.Common.{ℕ, ◌+◌, Bool, true, false, ◌&&◌, not, List, if◌then◌else◌, leb}
use nsclient_fleet_server.Common.Int.{ℤ, pos, ◌-ℤ◌, leb_ℤ, wrap_i64}
use nsclient_fleet_server.Limits.Governor.{Governor, count_up, count_down, prune_due, next_since}
use nsclient_fleet_server.Limits.Email.{plausible_email}

pub record AuthRateLimits (E I : Type 0) : Type 0 where
  pub per_email_minute : E
  pub per_email_hour : E
  pub per_ip_minute : I
  pub per_ip_hour : I
  pub daily_budget : ℕ
  pub daily_count : ℕ
  pub daily_window_start : ℤ
  pub since_prune : ℕ

pub data RateDecision : Type 0 where
  allow : RateDecision
  email_limited : RateDecision
  ip_limited : RateDecision
  budget_exceeded : RateDecision

-- `AuthRateLimits::new` over four empty stores
unfoldable pub new : {E I : Type 0} → E → I → ℕ → ℤ → AuthRateLimits E I
new no_email no_ip daily_budget now = record {
  per_email_minute = no_email;
  per_email_hour = no_email;
  per_ip_minute = no_ip;
  per_ip_hour = no_ip;
  daily_budget = daily_budget;
  daily_count = 0;
  daily_window_start = now;
  since_prune = 0;
}

abbrev pub roll : {E I : Type 0} → ℤ → AuthRateLimits E I → AuthRateLimits E I
roll now a =
    if leb_ℤ (pos 86400) (wrap_i64 (now -ℤ a.daily_window_start))
    then record a { daily_window_start = now; daily_count = 0 }
    else a

-- `consume_daily_budget`
unfoldable pub consume_daily_budget :
    {E I : Type 0} → ℤ → AuthRateLimits E I → AuthRateLimits E I × Bool
consume_daily_budget now a =
    let b = roll now a in
    let added = record b { daily_count = count_up 32 b.daily_count } in
    if leb b.daily_budget b.daily_count
    then (record added { daily_count = count_down 32 added.daily_count }, false)
    else (added, true)

module _ {E I Ip : Type 0} (emails_minute : Governor (List ℕ) E) (emails_hour : Governor (List ℕ) E)
    (ips_minute : Governor Ip I) (ips_hour : Governor Ip I) where
  unfoldable pub prune : ℕ → AuthRateLimits E I → AuthRateLimits E I
  prune clock a = record a {
    per_email_minute = emails_minute.retain_recent clock a.per_email_minute;
    per_email_hour = emails_hour.retain_recent clock a.per_email_hour;
    per_ip_minute = ips_minute.retain_recent clock a.per_ip_minute;
    per_ip_hour = ips_hour.retain_recent clock a.per_ip_hour;
  }

  unfoldable pub maybe_prune : ℕ → AuthRateLimits E I → AuthRateLimits E I
  unfolding prune
  maybe_prune clock a =
      let counted = record a { since_prune = next_since a.since_prune } in
      if prune_due a.since_prune then prune clock counted else counted

  unfoldable pub tracked_keys : AuthRateLimits E I → ℕ
  tracked_keys a =
      emails_minute.len a.per_email_minute
      + emails_hour.len a.per_email_hour
      + ips_minute.len a.per_ip_minute
      + ips_hour.len a.per_ip_hour

  -- `per_ip_minute.check_key(..) && per_ip_hour.check_key(..)`: the hour is asked only if the
  -- minute allows.
  unfoldable pub spend_ip : ℕ → Ip → AuthRateLimits E I → AuthRateLimits E I × Bool
  spend_ip clock ip a =
      let minute = ips_minute.check_key clock ip a.per_ip_minute in
      let hour = ips_hour.check_key clock ip a.per_ip_hour in
      let spent = record a { per_ip_minute = minute.0 } in
      if minute.1 then (record spent { per_ip_hour = hour.0 }, hour.1) else (spent, false)

  unfoldable pub spend_email : ℕ → List ℕ → AuthRateLimits E I → AuthRateLimits E I × Bool
  spend_email clock email a =
      let minute = emails_minute.check_key clock email a.per_email_minute in
      let hour = emails_hour.check_key clock email a.per_email_hour in
      let spent = record a { per_email_minute = minute.0 } in
      if minute.1 then (record spent { per_email_hour = hour.0 }, hour.1) else (spent, false)

  -- `check_ip`
  unfoldable pub check_ip : ℕ → Ip → AuthRateLimits E I → AuthRateLimits E I × Bool
  unfolding maybe_prune spend_ip
  check_ip clock ip a = spend_ip clock ip (maybe_prune clock a)

  abbrev pub decide_budget : AuthRateLimits E I × Bool → AuthRateLimits E I × RateDecision
  decide_budget (a, true) = (a, allow)
  decide_budget (a, false) = (a, budget_exceeded)

  abbrev pub decide_email : ℤ → AuthRateLimits E I × Bool → AuthRateLimits E I × RateDecision
  decide_email now (a, true) = decide_budget (consume_daily_budget now a)
  decide_email now (a, false) = (a, email_limited)

  abbrev pub decide_ip :
      ℕ → ℤ → List ℕ → AuthRateLimits E I × Bool → AuthRateLimits E I × RateDecision
  decide_ip clock now email (a, true) = decide_email now (spend_email clock email a)
  decide_ip clock now email (a, false) = (a, ip_limited)

  -- `check`; the clock of the limiters and the wall clock are read separately.
  unfoldable pub check :
      ℕ → ℤ → List ℕ → Ip → AuthRateLimits E I → AuthRateLimits E I × RateDecision
  unfolding maybe_prune spend_ip
  check clock now email ip a =
      let pruned = maybe_prune clock a in
      let attempted = decide_ip clock now email (spend_ip clock ip pruned) in
      if not (plausible_email email) then (pruned, email_limited) else attempted

-- `forget_email`; `normal` is trim and lowercase, `drop_key` the removal from a limiter's map.
unfoldable pub forget_email :
    {E I : Type 0}
    → (List ℕ → List ℕ)
    → (List ℕ → E → E)
    → List ℕ
    → AuthRateLimits E I
    → AuthRateLimits E I
forget_email normal drop_key email a = record a {
  per_email_minute = drop_key (normal email) a.per_email_minute;
  per_email_hour = drop_key (normal email) a.per_email_hour;
}
