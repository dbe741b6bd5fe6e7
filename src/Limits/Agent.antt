-- ===== src/Limits/Agent.antt =====
-- `AgentRateLimits` and `EnrollmentLimits`. Instants are nanoseconds of a monotonic clock; the maps
-- are behind locks, so each call runs as a whole.
pub mod Memory
pub mod Spacing
pub mod Quotas
pub mod Layer
pub mod Admission
pub mod Traced
pub mod Served
mod Samples
use nsclient_fleet_server.Common.{
  ℕ, ◌+◌, ◌-◌, ◌*◌, ◌/◌, ◌%◌, ◌^◌, Bool, true, false, List, [], ◌∷◌, Option, none, some,
  if◌then◌else◌, ltb, leb, max, map, length, keep, ◌==◌,
}
use nsclient_fleet_server.Common.Int.{ℤ}
use nsclient_fleet_server.Common.Text.{Text, text_equality}
use nsclient_fleet_server.Common.Dict.{get, put, remove}
use nsclient_fleet_server.Common.Result.{Result, ok, err}
use nsclient_fleet_server.Tier.{TierLimits}
use nsclient_fleet_server.Limits.Governor.{Governor, prune_due, next_since, seconds_per_request}

abbrev pub HostKey : Type 0
HostKey = ℤ × Text

-- A limiter is the quota that it was made with and its store.
pub record Limiter (S : Type 0) : Type 0 where
  pub quota : ℕ
  pub store : S

pub record AgentRateLimits (S : Type 0) : Type 0 where
  pub by_tier : List (Text × Limiter S)
  pub last_poll : List (Text × ℕ)
  pub since_prune : ℕ

abbrev pub second : ℕ
second = 1000000000

abbrev pub last_poll_ttl : ℕ
last_poll_ttl = 3600 * second

unfoldable pub new : {S : Type 0} → AgentRateLimits S
new = record { by_tier = []; last_poll = []; since_prune = 0 }

-- `governed` is the limiter of a quota per minute, `fresh` its empty store.
module _ {S : Type 0} (governed : ℕ → Governor HostKey S) (fresh : ℕ → S) where
  unfoldable pub limiter_for_tier : TierLimits → AgentRateLimits S → AgentRateLimits S × Limiter S
  limiter_for_tier tier a =
      let qpm = max tier.per_host_requests_per_minute 1 in
      let limiter : Limiter S = record { quota = qpm; store = fresh qpm } in
      elim (get tier.name a.by_tier) [
        | some l ↦ (a, l)
        | none ↦ (record a { by_tier = put tier.name limiter a.by_tier }, limiter)
      ]

  abbrev tidied : ℕ → Text × Limiter S → Text × Limiter S
  tidied now (name, l) = (name, record l { store = (governed l.quota).retain_recent now l.store })

  -- `seen > now - LAST_POLL_TTL`, with the subtraction on the other side.
  unfoldable pub prune : ℕ → AgentRateLimits S → AgentRateLimits S
  prune now a = record a {
    by_tier = map (tidied now) a.by_tier;
    last_poll = keep (λ e. ltb now (e.1 + last_poll_ttl)) a.last_poll;
  }

  unfoldable pub maybe_prune : ℕ → AgentRateLimits S → AgentRateLimits S
  unfolding prune
  maybe_prune now a =
      let counted = record a { since_prune = next_since a.since_prune } in
      if prune_due a.since_prune then prune now counted else counted

  abbrev request_answer : TierLimits → Bool → Result (Unit {0}) ℕ
  request_answer tier true = ok tt
  request_answer tier false = err (seconds_per_request (max tier.per_host_requests_per_minute 1))

  unfoldable pub charge :
      ℕ
      → TierLimits
      → HostKey
      → AgentRateLimits S × Limiter S
      → AgentRateLimits S × Result (Unit {0}) ℕ
  charge now tier key (a, l) =
      let r = (governed l.quota).check_key now key l.store in
      (
        record a { by_tier = put tier.name (record l { store = r.0 }) a.by_tier },
        request_answer tier r.1,
      )

  unfoldable pub check_request :
      ℕ → TierLimits → ℤ → Text → AgentRateLimits S → AgentRateLimits S × Result (Unit {0}) ℕ
  unfolding maybe_prune limiter_for_tier charge
  check_request now tier tenant_id host_id a =
      charge now tier (tenant_id, host_id) (limiter_for_tier tier (maybe_prune now a))

  abbrev keys_held : List (Text × Limiter S) → ℕ
  keys_held [] = 0
  keys_held ((name, l) ∷ rest) = (governed l.quota).len l.store + keys_held rest

  unfoldable pub tracked_keys : AgentRateLimits S → ℕ
  tracked_keys a = keys_held a.by_tier + length a.last_poll

-- The seconds since the last poll, `as u32`.
abbrev pub elapsed_secs : ℕ → ℕ → ℕ
elapsed_secs now prev = ((now - prev) / second) % 2 ^ 32

-- Seconds that a host still has to wait, none where it may poll.
unfoldable pub poll_wait : TierLimits → ℕ → Option ℕ → Option ℕ
poll_wait tier now none = none
poll_wait tier now (some prev) =
    let elapsed = elapsed_secs now prev in
    if ltb elapsed tier.min_poll_interval_secs
    then some (tier.min_poll_interval_secs - elapsed)
    else none

module _ {S : Type 0} where
  unfoldable pub check_poll_interval :
      ℕ → TierLimits → Text → AgentRateLimits S → AgentRateLimits S × Result (Unit {0}) ℕ
  unfolding poll_wait
  check_poll_interval now tier host_id a = elim (poll_wait tier now (get host_id a.last_poll)) [
    | some wait ↦ (a, err wait)
    | none ↦ (record a { last_poll = put host_id now a.last_poll }, ok tt)
  ]

  unfoldable pub forget_last_poll : Text → AgentRateLimits S → AgentRateLimits S
  forget_last_poll host_id a = record a { last_poll = remove host_id a.last_poll }

  unfoldable pub clear_for_tests : AgentRateLimits S → AgentRateLimits S
  clear_for_tests a = record a { by_tier = [] }
