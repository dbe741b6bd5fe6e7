-- ===== src/Host/Convergence.antt =====
-- What "in sync" and "enrolled" claim about a host.
use nsclient_fleet_server.Common.{Bool, true, false, ◌≡◌, refl, ◌↔◌, Option, none, some, arith}
use nsclient_fleet_server.Common.Int.{ℤ, ◌≤ℤ◌, FitsI64, wrap_i64-fits}
use nsclient_fleet_server.Common.Text.{Text, text_equality, text_eq_iff}
use nsclient_fleet_server.Host.{
  Host, in_sync, StatusThresholds, is_enrolled, status, enrolled_status, unenrolled_status,
  convergence,
}
use nsclient_fleet_server.Host.Contact.{silence}

abbrev pub is_some : Option ℤ → Bool
is_some none = false
is_some (some _) = true

-- What has to be the case for a host to be shown as in sync.
abbrev pub Demonstrated : Host → ℤ → StatusThresholds → Option Text → Type 0
Demonstrated h now t desired =
    (is_some h.enrolled_at ≡ true)
    × (silence h now ≤ℤ t.lost_after_secs)
    × (silence h now ≤ℤ t.offline_after_secs)
    × ((d : Text) × (h.current_state_hash ≡ some d) × (desired ≡ some d))

convergence-in_sync :
    (applied desired : Option Text)
    → (convergence applied desired ≡ in_sync)
      ↔ ((d : Text) × (applied ≡ some d) × (desired ≡ some d))
unfolding convergence
convergence-in_sync none d = (λ e. cc, λ (d, p, q). cc)
convergence-in_sync (some a) none = (λ e. cc, λ (d, p, q). cc)
convergence-in_sync (some a) (some d) =
    (λ e. (d, ground (arith, text_eq_iff a d), refl), λ (b, p, q). ground (arith, text_eq_iff a d))

enrolled_status-in_sync :
    (h : Host) (now : ℤ) (t : StatusThresholds) (desired : Option Text)
    → FitsI64 (silence h now)
    → (enrolled_status h now t desired ≡ in_sync) ↔ (
        (silence h now ≤ℤ t.lost_after_secs)
        × (silence h now ≤ℤ t.offline_after_secs)
        × ((d : Text) × (h.current_state_hash ≡ some d) × (desired ≡ some d)))
unfolding enrolled_status
enrolled_status-in_sync h now t d f =
    ground (arith, wrap_i64-fits (silence h now) f, convergence-in_sync h.current_state_hash d)

-- A host is reported in sync exactly when it has enrolled, has been silent for no longer than
-- either threshold, and the hash that it applied is present and equals the hash that the server
-- would serve now, which is present too. The silence is one that an `i64` can hold.
pub in_sync_iff :
    (h : Host) (now : ℤ) (t : StatusThresholds) (desired : Option Text)
    → FitsI64 (silence h now)
    → (status h now t desired ≡ in_sync) ↔ Demonstrated h now t desired
unfolding status unenrolled_status
in_sync_iff h now t d f = ground (arith, enrolled_status-in_sync h now t d f)

convergence-is_enrolled :
    (applied desired : Option Text) → is_enrolled (convergence applied desired) ≡ true
unfolding is_enrolled convergence
convergence-is_enrolled none d = refl
convergence-is_enrolled (some a) none = refl
convergence-is_enrolled (some a) (some d) = ground arith

-- The status that is shown says "enrolled" for exactly the hosts that have an enrollment time,
-- at every instant and for all thresholds and hashes: a leftover bootstrap deadline, live or
-- expired, does not change it.
pub is_enrolled-status :
    (h : Host) (now : ℤ) (t : StatusThresholds) (desired : Option Text)
    → is_enrolled (status h now t desired) ≡ is_some h.enrolled_at
unfolding status unenrolled_status enrolled_status is_enrolled
is_enrolled-status h now t d = ground (arith, convergence-is_enrolled h.current_state_hash d)
