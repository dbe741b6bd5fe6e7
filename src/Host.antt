-- ===== src/Host.antt =====
-- crates/core/src/host.rs: a host row and the one status that it is shown with. Times are seconds.
pub mod Contact
pub mod Convergence
pub mod Ageing
mod Samples
use nsclient_fleet_server.Common.{
  ℕ, Bool, true, false, ◌*◌, Option, none, some, if◌then◌else◌, ◌==◌,
}
use nsclient_fleet_server.Common.Int.{ℤ, pos, ◌-ℤ◌, ltb_ℤ, max_ℤ, wrap_i64}
use nsclient_fleet_server.Common.Text.{Text, text_equality}

pub record Host : Type 0 where
  pub id : Text
  pub tenant_id : ℤ
  pub hostname : Option Text
  pub os : Option Text
  pub enrolled_at : Option ℤ
  pub last_seen_at : Option ℤ
  pub current_state_hash : Option Text
  pub bootstrap_expires_at : Option ℤ
  pub local_config_present : Option Bool
  pub host_override_last : Option Bool
  pub created_at : ℤ

pub data HostStatus : Type 0 where
  awaiting_enrollment : HostStatus
  never_enrolled : HostStatus
  offline : HostStatus
  lost : HostStatus
  out_of_sync : HostStatus
  in_sync : HostStatus

unfoldable pub is_enrolled : HostStatus → Bool
is_enrolled awaiting_enrollment = false
is_enrolled never_enrolled = false
is_enrolled offline = true
is_enrolled lost = true
is_enrolled out_of_sync = true
is_enrolled in_sync = true

unfoldable pub is_silent : HostStatus → Bool
is_silent offline = true
is_silent lost = true
is_silent awaiting_enrollment = false
is_silent never_enrolled = false
is_silent out_of_sync = false
is_silent in_sync = false

pub record StatusThresholds : Type 0 where
  pub offline_after_secs : ℤ
  pub lost_after_secs : ℤ

abbrev pub default_offline_after_secs : ℤ
default_offline_after_secs = pos (24 * 3600)

abbrev pub default_lost_after_secs : ℤ
default_lost_after_secs = pos (48 * 3600)

abbrev missed_polls : ℕ
missed_polls = 3

-- `StatusThresholds::new`; the interval is a `u32`, so its product fits an `i64`.
unfoldable pub new : ℕ → ℤ → StatusThresholds
new min_poll_interval_secs lost_after_secs =
    let offline_after =
      max_ℤ (pos (min_poll_interval_secs * missed_polls)) default_offline_after_secs in
    record {
      offline_after_secs = offline_after;
      lost_after_secs = max_ℤ lost_after_secs offline_after;
    }

-- `last_seen_at.or(enrolled_at).unwrap_or(created_at)`
unfoldable pub last_contact : Option ℤ → Option ℤ → ℤ → ℤ
last_contact (some seen) enrolled created = seen
last_contact none (some enrolled) created = enrolled
last_contact none none created = created

unfoldable pub convergence : Option Text → Option Text → HostStatus
convergence (some applied) (some desired) = if applied == desired then in_sync else out_of_sync
convergence (some applied) none = out_of_sync
convergence none desired = out_of_sync

unfoldable pub enrolled_status : Host → ℤ → StatusThresholds → Option Text → HostStatus
unfolding last_contact
enrolled_status h now t desired =
    let silent_for = wrap_i64 (now -ℤ last_contact h.last_seen_at h.enrolled_at h.created_at) in
    if ltb_ℤ t.lost_after_secs silent_for
    then lost
    else if ltb_ℤ t.offline_after_secs silent_for
    then offline
    else convergence h.current_state_hash desired

-- What the `match` on enrollment and bootstrap deadline decides, `none` where it falls through.
unfoldable pub unenrolled_status : Option ℤ → Option ℤ → ℤ → Option HostStatus
unenrolled_status (some _) _ now = none
unenrolled_status none (some expires_at) now =
    if ltb_ℤ now expires_at then some awaiting_enrollment else some never_enrolled
unenrolled_status none none now = some never_enrolled

abbrev pub or_else : Option HostStatus → HostStatus → HostStatus
or_else none s = s
or_else (some r) s = r

-- `Host::status`
unfoldable pub status : Host → ℤ → StatusThresholds → Option Text → HostStatus
unfolding unenrolled_status enrolled_status
status h now t desired =
    or_else (unenrolled_status h.enrolled_at h.bootstrap_expires_at now)
      (enrolled_status h now t desired)
