-- ===== src/Limits/Enrollment.antt =====
-- `EnrollmentLimits`: enrollment attempts per tenant and per source address.
use nsclient_fleet_server.Common.{ℕ, Bool, true, false, if◌then◌else◌}
use nsclient_fleet_server.Common.Int.{ℤ}
use nsclient_fleet_server.Common.Result.{Result, ok, err}
use nsclient_fleet_server.Limits.Governor.{Governor, prune_due, next_since, seconds_per_request}

pub record EnrollmentLimits (T P : Type 0) : Type 0 where
  pub inner : T
  pub by_source : P
  pub per_minute : ℕ
  pub since_prune : ℕ

module _ {T P Ip : Type 0} (tenants : Governor ℤ T) (sources : Governor Ip P) where
  unfoldable pub new : T → P → ℕ → EnrollmentLimits T P
  new no_tenants no_sources per_minute = record {
    inner = no_tenants;
    by_source = no_sources;
    per_minute = per_minute;
    since_prune = 0;
  }

  abbrev pub retry_after : EnrollmentLimits T P → ℕ
  retry_after e = seconds_per_request e.per_minute

  abbrev answer : ℕ → Bool → Result (Unit {0}) ℕ
  answer retry true = ok tt
  answer retry false = err retry

  unfoldable pub check : ℕ → ℤ → EnrollmentLimits T P → EnrollmentLimits T P × Result (Unit {0}) ℕ
  check now tenant_id e =
      let r = tenants.check_key now tenant_id e.inner in
      (record e { inner = r.0 }, answer (retry_after e) r.1)

  unfoldable pub sweep : ℕ → EnrollmentLimits T P → EnrollmentLimits T P
  sweep now e =
      let counted = record e { since_prune = next_since e.since_prune } in
      if prune_due e.since_prune
      then record counted {
        by_source = sources.retain_recent now e.by_source;
        inner = tenants.retain_recent now e.inner;
      }
      else counted

  unfoldable pub check_source :
      ℕ → Ip → EnrollmentLimits T P → EnrollmentLimits T P × Result (Unit {0}) ℕ
  unfolding sweep
  check_source now ip e =
      let swept = sweep now e in
      let r = sources.check_key now ip swept.by_source in
      (record swept { by_source = r.0 }, answer (retry_after e) r.1)
