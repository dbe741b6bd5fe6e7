-- ===== src/Tier.antt =====
-- crates/core/src/tier.rs: the plan limits of a tenant.
pub mod Bounds
mod Samples
use nsclient_fleet_server.Common.{
  ℕ, Bool, ◌-◌, ◌^◌, List, [], ◌∷◌, Option, none, some, if◌then◌else◌, ◌==◌,
}
use nsclient_fleet_server.Common.Text.{Text, codes, text_equality}

pub record TierLimits : Type 0 where
  pub name : Text
  pub max_hosts : ℕ
  pub min_poll_interval_secs : ℕ
  pub per_host_requests_per_minute : ℕ
  pub max_bundle_mb : ℕ
  pub max_bundles : ℕ

pub record TierOverrides : Type 0 where
  pub max_hosts : Option ℕ
  pub min_poll_interval_secs : Option ℕ
  pub per_host_requests_per_minute : Option ℕ
  pub max_bundle_mb : Option ℕ
  pub max_bundles : Option ℕ

-- `Option::unwrap_or`
abbrev pub unwrap_or {ℓ} : {A : Type ℓ} → Option A → A → A
unwrap_or none d = d
unwrap_or (some a) d = a

unfoldable pub apply_to : TierOverrides → TierLimits → TierLimits
apply_to o base = record {
  name = base.name;
  max_hosts = unwrap_or o.max_hosts base.max_hosts;
  min_poll_interval_secs = unwrap_or o.min_poll_interval_secs base.min_poll_interval_secs;
  per_host_requests_per_minute =
      unwrap_or o.per_host_requests_per_minute base.per_host_requests_per_minute;
  max_bundle_mb = unwrap_or o.max_bundle_mb base.max_bundle_mb;
  max_bundles = unwrap_or o.max_bundles base.max_bundles;
}

abbrev pub u32_max : ℕ
u32_max = 2 ^ 32 - 1

abbrev pub free : TierLimits
free = record {
  name = codes "free";
  max_hosts = 5;
  min_poll_interval_secs = 60;
  per_host_requests_per_minute = 10;
  max_bundle_mb = 10;
  max_bundles = 50;
}

abbrev pub starter : TierLimits
starter = record {
  name = codes "starter";
  max_hosts = 50;
  min_poll_interval_secs = 30;
  per_host_requests_per_minute = 30;
  max_bundle_mb = 50;
  max_bundles = 200;
}

abbrev pub pro : TierLimits
pro = record {
  name = codes "pro";
  max_hosts = 500;
  min_poll_interval_secs = 30;
  per_host_requests_per_minute = 60;
  max_bundle_mb = 100;
  max_bundles = 500;
}

abbrev pub enterprise : TierLimits
enterprise = record {
  name = codes "enterprise";
  max_hosts = 5000;
  min_poll_interval_secs = 15;
  per_host_requests_per_minute = 120;
  max_bundle_mb = 250;
  max_bundles = 2000;
}

abbrev pub onprem : TierLimits
onprem = record {
  name = codes "onprem";
  max_hosts = u32_max;
  min_poll_interval_secs = 15;
  per_host_requests_per_minute = 120;
  max_bundle_mb = 250;
  max_bundles = u32_max;
}

abbrev pub tiers : List TierLimits
tiers = free ∷ starter ∷ pro ∷ enterprise ∷ onprem ∷ []

-- `ALL.iter().find(|t| t.name == name)`
unfoldable pub find_named : Text → List TierLimits → Option TierLimits
find_named n [] = none
find_named n (t ∷ ts) = if t.name == n then some t else find_named n ts

unfoldable pub lookup : Text → Option TierLimits
unfolding find_named
lookup n = find_named n tiers

unfoldable pub lookup_or_free : Text → TierLimits
unfolding lookup
lookup_or_free n = unwrap_or (lookup n) free

-- `from_json` is serde's parser of the override column, `none` where it fails.
module _ (from_json : Text → Option TierOverrides) where
  abbrev overridden : TierLimits → Option TierOverrides → TierLimits
  overridden base none = base
  overridden base (some o) = apply_to o base

  unfoldable pub effective : Text → Option Text → TierLimits
  unfolding lookup_or_free apply_to
  effective tier_name none = lookup_or_free tier_name
  effective tier_name (some raw) = overridden (lookup_or_free tier_name) (from_json raw)

abbrev pub max_bundle_mb_any_tier : ℕ
max_bundle_mb_any_tier = 250
