-- ===== src/Host/Samples.antt =====
-- Tests and witnesses for the host status.
use nsclient_fleet_server.Common.{true, ◌≡◌, refl, ◌≤◌, ◌↔◌, ◌+◌, Option, none, some, arith}
use nsclient_fleet_server.Common.Int.{ℤ, pos, ◌<ℤ◌, ◌-ℤ◌, wrap_i64}
use nsclient_fleet_server.Common.Text.{Text, codes, text_eq}
use nsclient_fleet_server.Host.{
  Host, never_enrolled, offline, lost, in_sync, StatusThresholds, new, is_silent, status,
  enrolled_status, unenrolled_status, convergence, last_contact, default_lost_after_secs,
}
use nsclient_fleet_server.Host.Contact.{silence, silent_iff}
use nsclient_fleet_server.Host.Convergence.{Demonstrated, in_sync_iff}
use nsclient_fleet_server.Host.Ageing.{severity, status-ageing}

abbrev row : Option ℤ → Option ℤ → Option ℤ → Option Text → Host
row enrolled seen expires hash = record {
  id = codes "h1";
  tenant_id = pos 1;
  hostname = none;
  os = none;
  enrolled_at = enrolled;
  last_seen_at = seen;
  current_state_hash = hash;
  bootstrap_expires_at = expires;
  local_config_present = none;
  host_override_last = none;
  created_at = pos 1000;
}

abbrev active : Host
active = row (some (pos 1000)) (some (pos 2000)) none (some (codes "abc"))

abbrev defaults : StatusThresholds
defaults = new 15 default_lost_after_secs

in_sync_test : status active (pos 2060) defaults (some (codes "abc")) ≡ in_sync
unfolding status enrolled_status unenrolled_status convergence last_contact ◌-ℤ◌ wrap_i64 text_eq
    new
in_sync_test = refl

offline_test : status active (pos (2000 + 86401)) defaults (some (codes "abc")) ≡ offline
unfolding status enrolled_status unenrolled_status convergence last_contact ◌-ℤ◌ wrap_i64 text_eq
    new
offline_test = refl

lost_test : status active (pos (2000 + 172801)) defaults none ≡ lost
unfolding status enrolled_status unenrolled_status convergence last_contact ◌-ℤ◌ wrap_i64 text_eq
    new
lost_test = refl

never_test : status (row none none (some (pos 5)) none) (pos 5) defaults none ≡ never_enrolled
unfolding status enrolled_status unenrolled_status
never_test = refl

silent_iff_example :
    (is_silent (status active (pos (2000 + 86401)) (new 15 default_lost_after_secs) none) ≡ true)
    ↔ ((new 15 default_lost_after_secs).offline_after_secs <ℤ silence active (pos (2000 + 86401)))
silent_iff_example =
    silent_iff active (pos 1000) (pos (2000 + 86401)) 15 default_lost_after_secs none refl
      (unfold ◌-ℤ◌ last_contact in omega arith)

in_sync_iff_example :
    (status active (pos 2060) defaults (some (codes "abc")) ≡ in_sync)
    ↔ Demonstrated active (pos 2060) defaults (some (codes "abc"))
in_sync_iff_example =
    in_sync_iff active (pos 2060) defaults (some (codes "abc"))
      (unfold ◌-ℤ◌ last_contact in omega arith)

status-ageing_example :
    severity (status active (pos 2060) defaults none)
    ≤ severity (status active (pos 200000) defaults none)
status-ageing_example =
    status-ageing active (pos 2060) (pos 200000) defaults none none (omega arith)
      (unfold ◌-ℤ◌ last_contact in omega arith) (unfold ◌-ℤ◌ last_contact in omega arith)
