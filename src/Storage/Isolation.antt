-- ===== src/Storage/Isolation.antt =====
-- What a call made for one tenant leaves of the hosts and the certificates of another.
use nsclient_fleet_server.Common.{
  Bool, true, false, ◌≡◌, refl, List, [], ◌∷◌, none, some, arith, ◌==◌, keep, all, ◌∙◌,
  not as negate,
}
use nsclient_fleet_server.Common.Int.{ℤ, int_eq, int_beq_iff}
use nsclient_fleet_server.Common.Text.{Text, text_equality}
use nsclient_fleet_server.Common.Result.{Result-cases}
use nsclient_fleet_server.Storage.{Store, CertRow, HostRow, of_host, is_host}
use nsclient_fleet_server.Storage.Table.{update}
use nsclient_fleet_server.Storage.Rows.{keep-update, keep-delete, keep-append}
use nsclient_fleet_server.Storage.Hosts.{
  EnrolledCert, awaits, burn, create, create_pending, enroll, insert_cert, insert_host_row,
  next_rid,
}
use nsclient_fleet_server.Storage.Lifecycle.{
  delete_host, is_unrevoked, revoke, revoke_certs_and_reset_to_pending, set_host_override_last,
  set_local_config_present, strip, touch_last_seen, touch_last_seen_if_stale,
  update_current_state_hash,
}
use nsclient_fleet_server.Storage.Certs.{record_cert, retire_superseded, revoke_all_for_host}
use nsclient_fleet_server.Storage.Tags.{replace_agent_tags, upsert_manual_tag, delete_manual_tag}
use nsclient_fleet_server.Storage.Overrides.{upsert_override, delete_override, replace_ciphertext}
use nsclient_fleet_server.Storage.Documents.{
  clear_reported_hash, delete_document, delete_source, record_refusal, refresh_collected_at,
  replace, set_reported_hash,
}
use nsclient_fleet_server.Storage.Life.{
  Call, agent_tags_call, call, ciphertext_call, clear_reported_call, collected_call, create_call,
  create_pending_call, delete_call, delete_facts_call, delete_override_call, delete_source_call,
  delete_tag_call, enroll_call, facts_call, local_config_call, manual_tag_call, override_call,
  override_last_call, record_cert_call, refusal_call, reported_call, reset_call, retire_call,
  revoke_call, state_hash_call, touch_call, touch_stale_call,
}
use nsclient_fleet_server.Storage.Refine.Run.{run}

-- The tenant that a call is made for.
abbrev tenant_of : Call → ℤ
tenant_of (create_call u g v w) = u
tenant_of (create_pending_call u g v w) = u
tenant_of (enroll_call u g v w x y) = u
tenant_of (delete_call u g) = u
tenant_of (reset_call u g v w) = u
tenant_of (touch_call u g) = u
tenant_of (touch_stale_call u g v) = u
tenant_of (local_config_call u g v) = u
tenant_of (override_last_call u g v) = u
tenant_of (state_hash_call u g v) = u
tenant_of (record_cert_call u g v) = u
tenant_of (retire_call u g v) = u
tenant_of (revoke_call u g) = u
tenant_of (agent_tags_call u g v) = u
tenant_of (manual_tag_call u g v w) = u
tenant_of (delete_tag_call u g v) = u
tenant_of (override_call u g v w x y) = u
tenant_of (delete_override_call u g) = u
tenant_of (ciphertext_call u g v) = u
tenant_of (facts_call u g v w) = u
tenant_of (refusal_call u g v w) = u
tenant_of (reported_call u g v) = u
tenant_of (clear_reported_call u g) = u
tenant_of (collected_call u g v w x) = u
tenant_of (delete_facts_call u g v) = u
tenant_of (delete_source_call u g) = u

abbrev pub hosts_of : ℤ → List HostRow → List HostRow
hosts_of t = keep (λ r. r.tenant_id == t)

abbrev pub certs_of : ℤ → List CertRow → List CertRow
certs_of t = keep (λ c. c.tenant_id == t)

-- Statements on hosts of another tenant.
set_hosts-apart :
    (t : ℤ) (p : HostRow → Bool) (f : HostRow → HostRow) (hosts : List HostRow)
    → ((r : HostRow) → p r ≡ true → r.tenant_id == t ≡ false)
    → ((r : HostRow) → (f r).tenant_id ≡ r.tenant_id)
    → hosts_of t (update p f hosts) ≡ hosts_of t hosts
set_hosts-apart t p f hosts n same =
    keep-update (λ r. r.tenant_id == t) p n f (λ r k. rw (same r) (n r k)) hosts

revoke-apart :
    (now t : ℤ) (p : CertRow → Bool) (certs : List CertRow)
    → ((c : CertRow) → p c ≡ true → c.tenant_id == t ≡ false)
    → certs_of t (update p (revoke now) certs) ≡ certs_of t certs
revoke-apart now t p certs n = keep-update (λ c. c.tenant_id == t) p n (revoke now) n certs

-- A row matched for another tenant.
other_tenant : (t u v : ℤ) → u == t ≡ false → v == u ≡ true → v == t ≡ false
other_tenant t u v n m = ground (arith, int_beq_iff v u)

insert_host_row-apart :
    (t : ℤ) (r : HostRow) (s : Store)
    → r.tenant_id == t ≡ false
    → hosts_of t (insert_host_row r s).1.hosts ≡ hosts_of t s.hosts
unfolding insert_host_row
insert_host_row-apart t r s n = ground (arith, keep-append (λ r. r.tenant_id == t) s.hosts r n)

insert_cert-apart :
    (t u : ℤ) (g : Text) (c : EnrolledCert) (s : Store)
    → u == t ≡ false
    → (certs_of t (insert_cert u g c s).1.certs ≡ certs_of t s.certs)
      × ((insert_cert u g c s).1.hosts ≡ s.hosts)
unfolding insert_cert
insert_cert-apart t u g c s n =
    let row : CertRow = record {
      rid = next_rid s.certs;
      tenant_id = u;
      host_id = g;
      serial = c.serial;
      fingerprint_sha256 = c.fingerprint_sha256;
      issued_at = c.issued_at;
      expires_at = c.expires_at;
      revoked_at = none;
    } in
    ground (arith, keep-append (λ c. c.tenant_id == t) s.certs row n)

-- The hosts and the certificates of a tenant after a call made for another.
abbrev IsApart : ℤ → Store → Store → Type 0
IsApart t s after =
    (hosts_of t after.hosts ≡ hosts_of t s.hosts) × (certs_of t after.certs ≡ certs_of t s.certs)

call-IsApart :
    (now : ℤ) (c : Call) (t : ℤ) (s : Store)
    → tenant_of c == t ≡ false
    → IsApart t s (call now c s).1
unfolding call clear_reported_hash create create_pending delete_document delete_host
    delete_manual_tag delete_override delete_source enroll insert_host_row record_refusal
    refresh_collected_at replace replace_agent_tags replace_ciphertext retire_superseded
    revoke_all_for_host revoke_certs_and_reset_to_pending set_host_override_last
    set_local_config_present set_reported_hash strip touch_last_seen touch_last_seen_if_stale
    update_current_state_hash upsert_manual_tag upsert_override record_cert burn awaits
call-IsApart now (create_call u g v w) t s n = (insert_host_row-apart t _ s n, ground arith)
call-IsApart now (create_pending_call u g v w) t s n = (insert_host_row-apart t _ s n, ground arith)
call-IsApart now (enroll_call u g v w x y) t s n =
    let after : Store = record s { hosts = update (awaits u g v now) (burn w x now) s.hosts } in
    ground (
      arith,
      Result-cases (insert_cert u g y after).0,
      insert_cert-apart t u g y after n,
      set_hosts-apart t (awaits u g v now) (burn w x now) s.hosts
          (λ r k. other_tenant t u r.tenant_id n (ground (arith, k))) (λ r. refl),
    )
call-IsApart now (delete_call u g) t s n = ground (
  arith,
  keep-delete (λ r. r.tenant_id == t) (is_host u g)
      (λ r k. other_tenant t u r.tenant_id n (ground (arith, k))) s.hosts,
  keep-delete (λ r. r.tenant_id == t) (λ (r : CertRow). of_host u g r.tenant_id r.host_id)
      (λ r k. other_tenant t u r.tenant_id n (ground (arith, k))) s.certs,
)
call-IsApart now (reset_call u g v w) t s n = ground (
  arith,
  set_hosts-apart t (is_host u g)
      (λ r. record r {
        enrolled_at = none;
        bootstrap_nonce_hash = some v;
        bootstrap_expires_at = some w;
      })
      s.hosts (λ r k. other_tenant t u r.tenant_id n (ground (arith, k))) (λ r. refl),
  revoke-apart now t (is_unrevoked u g) s.certs
      (λ r k. other_tenant t u r.tenant_id n (ground (arith, k))),
)
call-IsApart now (touch_call u g) t s n = (
  set_hosts-apart t _ _ s.hosts (λ r k. other_tenant t u r.tenant_id n (ground (arith, k)))
      (λ r. refl),
  refl,
)
call-IsApart now (touch_stale_call u g v) t s n = (
  set_hosts-apart t _ _ s.hosts (λ r k. other_tenant t u r.tenant_id n (ground (arith, k)))
      (λ r. refl),
  refl,
)
call-IsApart now (local_config_call u g v) t s n = (
  set_hosts-apart t _ _ s.hosts (λ r k. other_tenant t u r.tenant_id n (ground (arith, k)))
      (λ r. refl),
  refl,
)
call-IsApart now (override_last_call u g v) t s n = (
  set_hosts-apart t _ _ s.hosts (λ r k. other_tenant t u r.tenant_id n (ground (arith, k)))
      (λ r. refl),
  refl,
)
call-IsApart now (state_hash_call u g v) t s n = (
  set_hosts-apart t _ _ s.hosts (λ r k. other_tenant t u r.tenant_id n (ground (arith, k)))
      (λ r. refl),
  refl,
)
call-IsApart now (record_cert_call u g v) t s n = ground (arith, insert_cert-apart t u g v s n)
call-IsApart now (retire_call u g v) t s n =
    (refl, revoke-apart now t _ s.certs (λ r k. other_tenant t u r.tenant_id n (ground (arith, k))))
call-IsApart now (revoke_call u g) t s n =
    (refl, revoke-apart now t _ s.certs (λ r k. other_tenant t u r.tenant_id n (ground (arith, k))))
call-IsApart now (agent_tags_call u g v) t s n = ground arith
call-IsApart now (manual_tag_call u g v w) t s n = ground arith
call-IsApart now (delete_tag_call u g v) t s n = ground arith
call-IsApart now (override_call u g v w x y) t s n = ground arith
call-IsApart now (delete_override_call u g) t s n = ground arith
call-IsApart now (ciphertext_call u g v) t s n = ground arith
call-IsApart now (facts_call u g v w) t s n = ground arith
call-IsApart now (refusal_call u g v w) t s n = (
  set_hosts-apart t _ _ s.hosts (λ r k. other_tenant t u r.tenant_id n (ground (arith, k)))
      (λ r. refl),
  refl,
)
call-IsApart now (reported_call u g v) t s n = (
  set_hosts-apart t _ _ s.hosts (λ r k. other_tenant t u r.tenant_id n (ground (arith, k)))
      (λ r. refl),
  refl,
)
call-IsApart now (clear_reported_call u g) t s n = (
  set_hosts-apart t _ _ s.hosts (λ r k. other_tenant t u r.tenant_id n (ground (arith, k)))
      (λ r. refl),
  refl,
)
call-IsApart now (collected_call u g v w x) t s n = ground arith
call-IsApart now (delete_facts_call u g v) t s n = ground arith
call-IsApart now (delete_source_call u g) t s n = ground arith

-- Tenants are kept apart: any sequence of calls made for other tenants, at any times and with any
-- host ids, leaves the hosts and the certificates of a tenant exactly as they were.
pub run-apart :
    (calls : List (ℤ × Call)) (t : ℤ) (s : Store)
    → all (λ c. negate (tenant_of c.1 == t)) calls ≡ true
    → (hosts_of t (run calls s).hosts ≡ hosts_of t s.hosts)
      × (certs_of t (run calls s).certs ≡ certs_of t s.certs)
unfolding run
run-apart [] t s k = (refl, refl)
run-apart ((now, c) ∷ calls) t s k =
    let first = call-IsApart now c t s (ground (arith, k)) in
    let rest = run-apart calls t (call now c s).1 (ground (arith, k)) in
    (rest.0 ∙ first.0, rest.1 ∙ first.1)
