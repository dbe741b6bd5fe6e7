-- ===== src/Limits/Agent/Quotas.antt =====
-- Which quota a request is charged against, and how long a refused poll has to wait.
use nsclient_fleet_server.Common.{ℕ, ◌+◌, ◌*◌, ◌^◌, ◌≤◌, ◌<◌, max, ◌≡◌, none, some, arith}
use nsclient_fleet_server.Common.Text.{Text, text_equality, text_eq_iff}
use nsclient_fleet_server.Common.Dict.{get, get-put}
use nsclient_fleet_server.Common.Result.{ok, err}
use nsclient_fleet_server.Tier.{TierLimits}
use nsclient_fleet_server.Limits.Governor.{Governor}
use nsclient_fleet_server.Limits.Agent.{
  AgentRateLimits, HostKey, limiter_for_tier, check_poll_interval, poll_wait, second,
}

module _ {S : Type 0} (governed : ℕ → Governor HostKey S) (fresh : ℕ → S) where
  -- The first request of a tier fixes the quota for everyone on that tier. Where no limiter of the
  -- name exists yet, asking for the limiter of one set of limits and then of another with the same
  -- tier name gives, the second time, a limiter with the quota of the first: a tenant's override
  -- of its requests per minute is not seen, or is seen by the other tenants.
  pub limiter-first_quota :
      (t u : TierLimits) (a : AgentRateLimits S)
      → get t.name a.by_tier ≡ none
      → u.name ≡ t.name
      → (limiter_for_tier governed fresh u (limiter_for_tier governed fresh t a).0).1.quota
        ≡ max t.per_host_requests_per_minute 1
  unfolding limiter_for_tier
  limiter-first_quota t u a g e = ground (
    arith,
    get-put t.name u.name
        (record {
          quota = max t.per_host_requests_per_minute 1;
          store = fresh (max t.per_host_requests_per_minute 1);
        })
        a.by_tier,
    text_eq_iff t.name u.name,
  )

module _ {S : Type 0} where
  -- Take a host whose last poll is recorded and not later than now. If a poll of it is refused with
  -- a number of seconds, nothing changes, the number is positive and at most the poll interval, and
  -- a poll of the same host with the same limits that comes that many seconds later, and less than
  -- 2 ^ 32 seconds after the recorded poll, is accepted.
  pub poll-wait :
      (now later w prev : ℕ) (tier : TierLimits) (host : Text) (a : AgentRateLimits S)
      → get host a.last_poll ≡ some prev
      → prev ≤ now
      → (check_poll_interval now tier host a).1 ≡ err w
      → now + w * second ≤ later
      → later < prev + 2 ^ 32 * second
      → ((check_poll_interval now tier host a).0 ≡ a)
        × (1 ≤ w)
        × (w ≤ tier.min_poll_interval_secs)
        × ((check_poll_interval later tier host a).1 ≡ ok tt)
  unfolding check_poll_interval poll_wait
  poll-wait now later w prev tier host a g le h wait bound = ground arith
