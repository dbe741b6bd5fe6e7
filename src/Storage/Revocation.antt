-- ===== src/Storage/Revocation.antt =====
-- A host whose certificates are revoked or deleted stays cut off until it is given another.
use nsclient_fleet_server.Common.{
  Bool, true, false, ◌≡◌, refl, all, all-append, List, [], ◌∷◌, none, arith, not as negate, keep,
  ap,
}
use nsclient_fleet_server.Common.Int.{ℤ, int_eq, int_beq_iff}
use nsclient_fleet_server.Common.Text.{Text, text_equality, text_eq_iff}
use nsclient_fleet_server.Common.Result.{Result-cases}
use nsclient_fleet_server.Limits.Agent.Layer.{CertStanding}
use nsclient_fleet_server.Storage.{Store, CertRow, of_host}
use nsclient_fleet_server.Storage.Table.{first, update, delete}
use nsclient_fleet_server.Storage.Rows.{all-update, all-delete}
use nsclient_fleet_server.Storage.Hosts.{
  EnrolledCert, awaits, burn, create, create_pending, enroll, insert_cert, next_rid,
  insert_host_row,
}
use nsclient_fleet_server.Storage.Lifecycle.{
  delete_host, is_unrevoked, revoke, revoke_certs_and_reset_to_pending, set_host_override_last,
  set_local_config_present, strip, touch_last_seen, touch_last_seen_if_stale,
  update_current_state_hash,
}
use nsclient_fleet_server.Storage.Certs.{
  is_usable, record_cert, retire_superseded, revoke_all_for_host, standing,
}
use nsclient_fleet_server.Storage.Tags.{replace_agent_tags, upsert_manual_tag, delete_manual_tag}
use nsclient_fleet_server.Storage.Overrides.{upsert_override, delete_override, replace_ciphertext}
use nsclient_fleet_server.Storage.Documents.{
  clear_reported_hash, delete_document, delete_source, record_refusal, refresh_collected_at,
  replace, set_reported_hash,
}
use nsclient_fleet_server.Storage.Life.{
  Call, agent_tags_call, call, ciphertext_call, clear_reported_call, collected_call, create_call,
  create_pending_call, delete_call, delete_facts_call, delete_override_call, delete_source_call,
  delete_tag_call, enroll_call, facts_call, local_config_call, manual_tag_call, override_call,
  override_last_call, record_cert_call, refusal_call, reported_call, reset_call, retire_call,
  revoke_call, state_hash_call, touch_call, touch_stale_call,
}
use nsclient_fleet_server.Storage.Refine.Run.{run}

-- No certificate of the host is left that is not revoked.
abbrev is_cut_off : ℤ → Text → List CertRow → Bool
is_cut_off t h certs = all (λ c. negate (is_unrevoked t h c)) certs

cut_off-standing :
    (t : ℤ) (h serial : Text) (now : ℤ) (s : Store)
    → is_cut_off t h s.certs ≡ true
    → standing t h serial now s ≡ record { active = false; superseded = 0 }
unfolding standing
cut_off-standing t h serial now s k = rw (unused t h now s.certs k) (unfold first in refl)
  where
    unused :
        (t : ℤ) (h : Text) (now : ℤ) (certs : List CertRow)
        → is_cut_off t h certs ≡ true
        → keep (is_usable t h now) certs ≡ []
    unused t h now [] k = refl
    unused t h now (c ∷ cs) k = ground (arith, unused t h now cs)

-- Calls that record a certificate of the host.
abbrev is_issuing : ℤ → Text → Call → Bool
is_issuing t h (enroll_call u g n name os c) = of_host t h u g
is_issuing t h (record_cert_call u g c) = of_host t h u g
is_issuing t h _ = false

insert_cert-cut_off :
    (t : ℤ) (h : Text) (u : ℤ) (g : Text) (c : EnrolledCert) (s : Store)
    → of_host t h u g ≡ false
    → is_cut_off t h s.certs ≡ true
    → is_cut_off t h (insert_cert u g c s).1.certs ≡ true
unfolding insert_cert
insert_cert-cut_off t h u g c s n k =
    let row : CertRow = record {
      rid = next_rid s.certs;
      tenant_id = u;
      host_id = g;
      serial = c.serial;
      fingerprint_sha256 = c.fingerprint_sha256;
      issued_at = c.issued_at;
      expires_at = c.expires_at;
      revoked_at = none;
    } in
    ground (
      arith,
      all-append (λ c. negate (is_unrevoked t h c)) s.certs (row ∷ []),
      int_beq_iff u t,
      text_eq_iff g h,
      int_beq_iff t u,
      text_eq_iff h g,
    )

revoked-cut_off :
    (p : CertRow → Bool) (now : ℤ) (t : ℤ) (h : Text) (certs : List CertRow)
    → is_cut_off t h certs ≡ true
    → is_cut_off t h (update p (revoke now) certs) ≡ true
revoked-cut_off p now t h certs =
    all-update (λ c. negate (is_unrevoked t h c)) p (revoke now) (λ c k. ground arith) certs

-- Revoking all that is not revoked.
all_revoked :
    (now t : ℤ) (h : Text) (certs : List CertRow)
    → is_cut_off t h (update (is_unrevoked t h) (revoke now) certs) ≡ true
unfolding update
all_revoked now t h [] = refl
all_revoked now t h (c ∷ cs) = ground (arith, all_revoked now t h cs)

all_deleted :
    (t : ℤ) (h : Text) (certs : List CertRow)
    → is_cut_off t h (delete (λ c. of_host t h c.tenant_id c.host_id) certs) ≡ true
unfolding delete
all_deleted t h [] = refl
all_deleted t h (c ∷ cs) = ground (arith, all_deleted t h cs)

call-cut_off :
    (now : ℤ) (c : Call) (t : ℤ) (h : Text) (s : Store)
    → is_issuing t h c ≡ false
    → is_cut_off t h s.certs ≡ true
    → is_cut_off t h (call now c s).1.certs ≡ true
unfolding call clear_reported_hash create create_pending delete_document delete_host
    delete_manual_tag delete_override delete_source enroll insert_host_row record_refusal
    refresh_collected_at replace replace_agent_tags replace_ciphertext retire_superseded
    revoke_all_for_host revoke_certs_and_reset_to_pending set_host_override_last
    set_local_config_present set_reported_hash strip touch_last_seen touch_last_seen_if_stale
    update_current_state_hash upsert_manual_tag upsert_override record_cert
call-cut_off now (create_call u g v w) t h s k m = ground arith
call-cut_off now (create_pending_call u g v w) t h s k m = ground arith
call-cut_off now (enroll_call u g v w x y) t h s k m =
    let after : Store = record s { hosts = update (awaits u g v now) (burn w x now) s.hosts } in
    ground
      (arith, Result-cases (insert_cert u g y after).0, insert_cert-cut_off t h u g y after k m)
call-cut_off now (delete_call u g) t h s k m = ground (
  arith,
  all-delete (λ c. negate (is_unrevoked t h c)) (λ r. of_host u g r.tenant_id r.host_id) s.certs m,
)
call-cut_off now (reset_call u g v w) t h s k m =
    ground (arith, revoked-cut_off (is_unrevoked u g) now t h s.certs m)
call-cut_off now (touch_call u g) t h s k m = ground arith
call-cut_off now (touch_stale_call u g v) t h s k m = ground arith
call-cut_off now (local_config_call u g v) t h s k m = ground arith
call-cut_off now (override_last_call u g v) t h s k m = ground arith
call-cut_off now (state_hash_call u g v) t h s k m = ground arith
call-cut_off now (record_cert_call u g v) t h s k m = insert_cert-cut_off t h u g v s k m
call-cut_off now (retire_call u g v) t h s k m = revoked-cut_off _ now t h s.certs m
call-cut_off now (revoke_call u g) t h s k m = revoked-cut_off _ now t h s.certs m
call-cut_off now (agent_tags_call u g v) t h s k m = ground arith
call-cut_off now (manual_tag_call u g v w) t h s k m = ground arith
call-cut_off now (delete_tag_call u g v) t h s k m = ground arith
call-cut_off now (override_call u g v w x y) t h s k m = ground arith
call-cut_off now (delete_override_call u g) t h s k m = ground arith
call-cut_off now (ciphertext_call u g v) t h s k m = ground arith
call-cut_off now (facts_call u g v w) t h s k m = ground arith
call-cut_off now (refusal_call u g v w) t h s k m = ground arith
call-cut_off now (reported_call u g v) t h s k m = ground arith
call-cut_off now (clear_reported_call u g) t h s k m = ground arith
call-cut_off now (collected_call u g v w x) t h s k m = ground arith
call-cut_off now (delete_facts_call u g v) t h s k m = ground arith
call-cut_off now (delete_source_call u g) t h s k m = ground arith

-- The calls that cut a host off when they take.
abbrev is_cutting : ℤ → Text → Call → Bool
is_cutting t h (delete_call u g) = of_host t h u g
is_cutting t h (reset_call u g n d) = of_host t h u g
is_cutting t h _ = false

call-cuts :
    (now : ℤ) (c : Call) (t : ℤ) (h : Text) (s : Store)
    → is_cutting t h c ≡ true
    → (call now c s).0 ≡ true
    → is_cut_off t h (call now c s).1.certs ≡ true
unfolding call delete_host revoke_certs_and_reset_to_pending strip
call-cuts now (create_call u g v w) t h s k m = cc
call-cuts now (create_pending_call u g v w) t h s k m = cc
call-cuts now (enroll_call u g v w x y) t h s k m = cc
call-cuts now (delete_call u g) t h s k m =
    ground (arith, all_deleted u g s.certs, int_beq_iff u t, text_eq_iff g h)
call-cuts now (reset_call u g v w) t h s k m =
    ground (arith, all_revoked now u g s.certs, int_beq_iff u t, text_eq_iff g h)
call-cuts now (touch_call u g) t h s k m = cc
call-cuts now (touch_stale_call u g v) t h s k m = cc
call-cuts now (local_config_call u g v) t h s k m = cc
call-cuts now (override_last_call u g v) t h s k m = cc
call-cuts now (state_hash_call u g v) t h s k m = cc
call-cuts now (record_cert_call u g v) t h s k m = cc
call-cuts now (retire_call u g v) t h s k m = cc
call-cuts now (revoke_call u g) t h s k m = cc
call-cuts now (agent_tags_call u g v) t h s k m = cc
call-cuts now (manual_tag_call u g v w) t h s k m = cc
call-cuts now (delete_tag_call u g v) t h s k m = cc
call-cuts now (override_call u g v w x y) t h s k m = cc
call-cuts now (delete_override_call u g) t h s k m = cc
call-cuts now (ciphertext_call u g v) t h s k m = cc
call-cuts now (facts_call u g v w) t h s k m = cc
call-cuts now (refusal_call u g v w) t h s k m = cc
call-cuts now (reported_call u g v) t h s k m = cc
call-cuts now (clear_reported_call u g) t h s k m = cc
call-cuts now (collected_call u g v w x) t h s k m = cc
call-cuts now (delete_facts_call u g v) t h s k m = cc
call-cuts now (delete_source_call u g) t h s k m = cc

run-cut_off :
    (calls : List (ℤ × Call)) (t : ℤ) (h : Text) (s : Store)
    → all (λ c. negate (is_issuing t h c.1)) calls ≡ true
    → is_cut_off t h s.certs ≡ true
    → is_cut_off t h (run calls s).certs ≡ true
unfolding run
run-cut_off [] t h s k m = m
run-cut_off ((now, c) ∷ calls) t h s k m =
    run-cut_off calls t h (call now c s).1 (ground (arith, k))
      (call-cut_off now c t h s (ground (arith, k)) m)

-- Deleting a host, or revoking its certificates and resetting it, when it took, cuts the host off:
-- after any later sequence of calls in which no certificate of the host is recorded, whatever else
-- they do, none of its serials has standing at any time.
pub standing-cut_off :
    (now : ℤ) (c : Call) (calls : List (ℤ × Call)) (t : ℤ) (h serial : Text) (at : ℤ) (s : Store)
    → is_cutting t h c ≡ true
    → (call now c s).0 ≡ true
    → all (λ c. negate (is_issuing t h c.1)) calls ≡ true
    → (standing t h serial at (run calls (call now c s).1)).active ≡ false
standing-cut_off now c calls t h serial at s k m n =
    ap (λ (r : CertStanding). r.active)
      (cut_off-standing t h serial at (run calls (call now c s).1)
        (run-cut_off calls t h (call now c s).1 n (call-cuts now c t h s k m)))
