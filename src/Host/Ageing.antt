-- ===== src/Host/Ageing.antt =====
-- A host that makes no contact only ever looks worse as time passes.
use nsclient_fleet_server.Common.{ℕ, ◌≤◌, ◌≡◌, refl, Option, none, some, arith}
use nsclient_fleet_server.Common.Int.{ℤ, ◌≤ℤ◌, ◌-ℤ◌, FitsI64, wrap_i64-fits}
use nsclient_fleet_server.Common.Text.{Text}
use nsclient_fleet_server.Host.{
  Host, HostStatus, awaiting_enrollment, never_enrolled, offline, lost, out_of_sync, in_sync,
  StatusThresholds, status, enrolled_status, unenrolled_status, convergence, or_else, last_contact,
}
use nsclient_fleet_server.Host.Contact.{silence}

-- How bad a status is.
abbrev pub severity : HostStatus → ℕ
severity awaiting_enrollment = 0
severity in_sync = 0
severity out_of_sync = 0
severity offline = 1
severity lost = 2
severity never_enrolled = 3

convergence-mild : (applied desired : Option Text) → severity (convergence applied desired) ≡ 0
unfolding convergence
convergence-mild none d = refl
convergence-mild (some a) none = refl
convergence-mild (some a) (some d) = ground arith

enrolled_status-ageing :
    (h : Host) (now later : ℤ) (t : StatusThresholds) (d e : Option Text)
    → FitsI64 (silence h now)
    → FitsI64 (silence h later)
    → silence h now ≤ℤ silence h later
    → severity (enrolled_status h now t d) ≤ severity (enrolled_status h later t e)
unfolding enrolled_status
enrolled_status-ageing h now later t d e f g le = ground (
  arith,
  wrap_i64-fits (silence h now) f,
  wrap_i64-fits (silence h later) g,
  convergence-mild h.current_state_hash d,
  convergence-mild h.current_state_hash e,
)

or_else-ageing :
    (enrolled expires : Option ℤ) (now later : ℤ) (r s : HostStatus)
    → now ≤ℤ later
    → severity r ≤ severity s
    → severity (or_else (unenrolled_status enrolled expires now) r)
      ≤ severity (or_else (unenrolled_status enrolled expires later) s)
unfolding unenrolled_status
or_else-ageing (some e) x now later r s le h = h
or_else-ageing none none now later r s le h = omega arith
or_else-ageing none (some x) now later r s le h = ground arith

-ℤ_mono : (a b c : ℤ) → a ≤ℤ b → a -ℤ c ≤ℤ b -ℤ c
unfolding ◌-ℤ◌
-ℤ_mono a b c h = ground arith

-- The status of a host row that does not change never gets better with time. With no new
-- contact, whatever hash the server would serve at either time, a host goes from in or out of
-- sync to Offline and from Offline to Lost, and a row that never enrolled from awaiting to
-- never-enrolled, but not back. Both silences are ones that an `i64` can hold.
pub status-ageing :
    (h : Host) (now later : ℤ) (t : StatusThresholds) (d e : Option Text)
    → now ≤ℤ later
    → FitsI64 (silence h now)
    → FitsI64 (silence h later)
    → severity (status h now t d) ≤ severity (status h later t e)
unfolding status
status-ageing h now later t d e le f g =
    or_else-ageing h.enrolled_at h.bootstrap_expires_at now later (enrolled_status h now t d)
      (enrolled_status h later t e) le
      (enrolled_status-ageing h now later t d e f g
        (-ℤ_mono now later (last_contact h.last_seen_at h.enrolled_at h.created_at) le))
