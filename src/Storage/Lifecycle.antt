-- ===== src/Storage/Lifecycle.antt =====
-- `HostRepo` of crates/storage/src/repos/hosts.rs: deletion, revocation, and what the agent reports.
use nsclient_fleet_server.Common.{
  ℕ, Bool, true, false, not as negate, Option, none, some, ◌&&◌, ◌||◌, ◌==◌, any, if◌then◌else◌,
  eqb, ltb,
}
use nsclient_fleet_server.Common.Int.{ℤ, pos, ◌-ℤ◌, leb_ℤ, int_eq}
use nsclient_fleet_server.Common.Text.{Text, text_equality}
use nsclient_fleet_server.Common.Result.{ok, err}
use nsclient_fleet_server.Storage.{Store, HostRow, CertRow, foreign_key, is_host, of_host}
use nsclient_fleet_server.Storage.Table.{update, delete, count}
use nsclient_fleet_server.Storage.Hosts.{Reply}

-- A row of another table still refers to the host.
unfoldable pub is_referenced : Text → Store → Bool
is_referenced h s =
    any (λ r. r.host_id == h) s.tags
    || any (λ r. r.host_id == h) s.overrides
    || any (λ r. r.host_id == h) s.facts
    || any (λ r. r.host_id == h) s.fact_changes
    || any (λ r. r.host_id == h) s.certs

-- The five deletions ahead of the host's own.
unfoldable pub strip : ℤ → Text → Store → Store
strip t h s = record s {
  tags = delete (λ r. of_host t h r.tenant_id r.host_id) s.tags;
  overrides = delete (λ r. of_host t h r.tenant_id r.host_id) s.overrides;
  facts = delete (λ r. of_host t h r.tenant_id r.host_id) s.facts;
  fact_changes = delete (λ r. of_host t h r.tenant_id r.host_id) s.fact_changes;
  certs = delete (λ r. of_host t h r.tenant_id r.host_id) s.certs;
}

-- DELETE FROM hosts is refused while a row refers to the host that it would delete.
unfoldable pub delete_host : ℤ → Text → Store → Reply Bool
delete_host tenant_id host_id s =
    let stripped = strip tenant_id host_id s in
    let matched = count (is_host tenant_id host_id) s.hosts in
    if ltb 0 matched && is_referenced host_id stripped then (err foreign_key, s) else (
      ok (ltb 0 matched),
      record stripped { hosts = delete (is_host tenant_id host_id) s.hosts },
    )

abbrev pub set_hosts : (HostRow → Bool) → (HostRow → HostRow) → Store → Store
set_hosts p f s = record s { hosts = update p f s.hosts }

unfoldable pub touch_last_seen : ℤ → Text → ℤ → Store → Store
touch_last_seen tenant_id host_id now =
    set_hosts (is_host tenant_id host_id) (λ r. record r { last_seen_at = some now })

-- `revoked_at IS NULL`
abbrev is_unset {ℓ} : {A : Type ℓ} → Option A → Bool
is_unset none = true
is_unset (some a) = false

abbrev pub revoke : ℤ → CertRow → CertRow
revoke now c = record c { revoked_at = some now }

abbrev pub is_unrevoked : ℤ → Text → CertRow → Bool
is_unrevoked t h c = of_host t h c.tenant_id c.host_id && is_unset c.revoked_at

unfoldable pub revoke_certs_and_reset_to_pending :
    ℤ → Text → Text → ℤ → ℤ → Store → Reply (Option ℕ)
revoke_certs_and_reset_to_pending tenant_id host_id nonce_hash bootstrap_expires_at now s =
    let revoked = count (is_unrevoked tenant_id host_id) s.certs in
    let reset = count (is_host tenant_id host_id) s.hosts in
    if eqb reset 0 then (ok none, s) else (
      ok (some revoked),
      record s {
        certs = update (is_unrevoked tenant_id host_id) (revoke now) s.certs;
        hosts =
            update (is_host tenant_id host_id)
              (λ r. record r {
                enrolled_at = none;
                bootstrap_nonce_hash = some nonce_hash;
                bootstrap_expires_at = some bootstrap_expires_at;
              })
              s.hosts;
      },
    )

-- `IS NULL OR <= ?`
abbrev is_unseen_since : Option ℤ → ℤ → Bool
is_unseen_since none limit = true
is_unseen_since (some seen) limit = leb_ℤ seen limit

unfoldable pub touch_last_seen_if_stale : ℤ → Text → ℤ → ℤ → Store → Store
touch_last_seen_if_stale tenant_id host_id stale_after_secs now =
    set_hosts
      (λ r. is_host tenant_id host_id r && is_unseen_since r.last_seen_at (now -ℤ stale_after_secs))
      (λ r. record r { last_seen_at = some now })

-- `i64::from(bool)`
abbrev as_int : Bool → ℤ
as_int true = pos 1
as_int false = pos 0

-- `IS NULL OR != ?`
abbrev differs : Option ℤ → ℤ → Bool
differs none v = true
differs (some u) v = negate (u == v)

abbrev reports_config : ℤ → Text → Bool → HostRow → Bool
reports_config t h present r = is_host t h r && differs r.local_config_present (as_int present)

abbrev reports_order : ℤ → Text → Bool → HostRow → Bool
reports_order t h last r = is_host t h r && differs r.host_override_last (as_int last)

unfoldable pub set_local_config_present : ℤ → Text → Bool → Store → Bool × Store
set_local_config_present tenant_id host_id present s =
    let other = reports_config tenant_id host_id present in
    (
      ltb 0 (count other s.hosts),
      set_hosts other (λ r. record r { local_config_present = some (as_int present) }) s,
    )

unfoldable pub set_host_override_last : ℤ → Text → Bool → Store → Bool × Store
set_host_override_last tenant_id host_id last s =
    let other = reports_order tenant_id host_id last in
    (
      ltb 0 (count other s.hosts),
      set_hosts other (λ r. record r { host_override_last = some (as_int last) }) s,
    )

unfoldable pub update_current_state_hash : ℤ → Text → Text → ℤ → Store → Store
update_current_state_hash tenant_id host_id state_hash now =
    set_hosts (is_host tenant_id host_id)
      (λ r. record r { current_state_hash = some state_hash; last_seen_at = some now })
