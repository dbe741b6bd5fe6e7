-- ===== src/Host/Contact.antt =====
-- When a host is reported silent, and that the grace is long enough for its poll interval.
use nsclient_fleet_server.Common.{ℕ, true, false, ◌*◌, ◌≡◌, refl, ◌↔◌, Option, none, some, arith}
use nsclient_fleet_server.Common.Int.{ℤ, pos, ◌-ℤ◌, ◌≤ℤ◌, ◌<ℤ◌, FitsI64, wrap_i64-fits}
use nsclient_fleet_server.Common.Text.{Text, text_equality}
use nsclient_fleet_server.Host.{
  Host, StatusThresholds, new, is_silent, status, enrolled_status, unenrolled_status, convergence,
  last_contact,
}

-- How long the host has been silent.
abbrev pub silence : Host → ℤ → ℤ
silence h now = now -ℤ last_contact h.last_seen_at h.enrolled_at h.created_at

new-ordered : (p : ℕ) (l : ℤ) → (new p l).offline_after_secs ≤ℤ (new p l).lost_after_secs
unfolding new
new-ordered p l = ground arith

new-floor : (p : ℕ) (l : ℤ) → pos (p * 3) ≤ℤ (new p l).offline_after_secs
unfolding new
new-floor p l = ground arith

convergence-loud : (applied desired : Option Text) → is_silent (convergence applied desired) ≡ false
unfolding is_silent convergence
convergence-loud none d = refl
convergence-loud (some a) none = refl
convergence-loud (some a) (some d) = ground arith

enrolled_status-silent :
    (h : Host) (now : ℤ) (t : StatusThresholds) (desired : Option Text)
    → FitsI64 (silence h now)
    → t.offline_after_secs ≤ℤ t.lost_after_secs
    → (is_silent (enrolled_status h now t desired) ≡ true) ↔ (t.offline_after_secs <ℤ silence h now)
unfolding enrolled_status is_silent
enrolled_status-silent h now t d f o =
    ground (arith, wrap_i64-fits (silence h now) f, convergence-loud h.current_state_hash d)

-- A host with an enrollment time is reported silent, that is Offline or Lost, exactly when
-- its last contact lies more than the offline threshold back. The thresholds are those that
-- `StatusThresholds::new` builds for any poll interval and any configured lost threshold; the
-- silence is one that an `i64` can hold.
pub silent_iff :
    (h : Host) (e now : ℤ) (poll : ℕ) (lost_after : ℤ) (desired : Option Text)
    → h.enrolled_at ≡ some e
    → FitsI64 (silence h now)
    → (is_silent (status h now (new poll lost_after) desired) ≡ true)
      ↔ ((new poll lost_after).offline_after_secs <ℤ silence h now)
unfolding status unenrolled_status
silent_iff h e now poll l d he f =
    ground (arith, enrolled_status-silent h now (new poll l) d f (new-ordered poll l))

-- An enrolled host whose last contact lies at most three poll intervals back is never reported
-- Offline or Lost, whatever lost threshold the deployment configures. The silence is one that an
-- `i64` can hold.
pub silent-on_schedule :
    (h : Host) (e now : ℤ) (poll : ℕ) (lost_after : ℤ) (desired : Option Text)
    → h.enrolled_at ≡ some e
    → FitsI64 (silence h now)
    → silence h now ≤ℤ pos (poll * 3)
    → is_silent (status h now (new poll lost_after) desired) ≡ false
silent-on_schedule h e now poll l d he f on =
    ground (arith, silent_iff h e now poll l d he f, new-floor poll l)
