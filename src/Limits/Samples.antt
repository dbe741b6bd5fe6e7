-- ===== src/Limits/Samples.antt =====
-- Tests and witnesses for the sign-in limits.
use nsclient_fleet_server.Common.{
  ℕ, ◌+◌, ◌≤◌, true, false, ◌≡◌, refl, List, [], ◌∷◌, arith, nat_eq, pair_eq,
}
use nsclient_fleet_server.Common.Int.{pos, ◌-ℤ◌, wrap_i64, int_eq}
use nsclient_fleet_server.Common.Text.{codes, text_equality}
use nsclient_fleet_server.Limits.Email.{plausible_email, split, plausible_parts}
use nsclient_fleet_server.Limits.Auth.{AuthRateLimits}
use nsclient_fleet_server.Limits.Auth.Budget.{Call, send, visit, tidy, run, run-budget}
use nsclient_fleet_server.Limits.Counting.{counting}

abbrev address : List ℕ
address = codes "ops@example.com"

plausible_test : plausible_email address ≡ true
unfolding plausible_email split plausible_parts
plausible_test = refl

two_ats_test : plausible_email (codes "a@b@c.d") ≡ false
unfolding plausible_email split plausible_parts
two_ats_test = refl

abbrev Mails : Type 0
Mails = AuthRateLimits (List (List ℕ)) (List ℕ)

abbrev start : Mails
start = record {
  per_email_minute = [];
  per_email_hour = [];
  per_ip_minute = [];
  per_ip_hour = [];
  daily_budget = 2;
  daily_count = 1;
  daily_window_start = pos 1000;
  since_prune = 0;
}

abbrev calls : List (Call (List (List ℕ)) ℕ)
calls = send 5 (pos 2000) address 7 ∷ visit 6 7 ∷ send 8 (pos 3000) address 7 ∷ tidy 9 ∷ []

abbrev run_mails : Mails × ℕ
run_mails = run (counting 1) (counting 5) (counting 10) (counting 60) calls start

run-budget_example :
    (run_mails.0.daily_count ≡ start.daily_count + run_mails.1)
    × (run_mails.0.daily_count ≤ start.daily_budget)
run-budget_example =
    run-budget (counting 1) (counting 5) (counting 10) (counting 60) calls start
      (omega arith, omega arith) (unfold ◌-ℤ◌ wrap_i64 in (refl, (refl, tt)))
