-- ===== src/Tier/Samples.antt =====
-- Tests and witnesses for the tiers.
use nsclient_fleet_server.Common.{◌≡◌, ◌↔◌, refl, Option, none, some}
use nsclient_fleet_server.Common.Text.{Text, codes, text_eq}
use nsclient_fleet_server.Tier.{
  TierOverrides, free, pro, effective, apply_to, lookup_or_free, lookup, find_named,
}
use nsclient_fleet_server.Tier.Bounds.{AreLimitsOf, effective_iff}

-- A column that overrides the number of hosts.
abbrev raised : Text → Option TierOverrides
raised text = some (record {
  max_hosts = some 9;
  min_poll_interval_secs = none;
  per_host_requests_per_minute = none;
  max_bundle_mb = none;
  max_bundles = none;
})

raised_test : effective raised (codes "pro") (some (codes "{}")) ≡ record pro { max_hosts = 9 }
unfolding effective apply_to lookup_or_free lookup find_named text_eq
raised_test = refl

unknown_test : effective raised (codes "gold") none ≡ free
unfolding effective lookup_or_free lookup find_named text_eq
unknown_test = refl

effective_iff_example :
    (record pro { max_hosts = 9 } ≡ effective raised (codes "pro") (some (codes "{}")))
    ↔ AreLimitsOf raised (codes "pro") (some (codes "{}")) (record pro { max_hosts = 9 })
effective_iff_example =
    effective_iff raised (codes "pro") (some (codes "{}")) (record pro { max_hosts = 9 })
