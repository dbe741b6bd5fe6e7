-- ===== src/Storage/Samples.antt =====
-- Tests and witnesses for the tables of a host.
use nsclient_fleet_server.Common.{
  ℕ, true, false, ◌≡◌, ◌≤◌, refl, List, [], ◌∷◌, none, some, if◌then◌else◌,
}
use nsclient_fleet_server.Common.Int.{ℤ, pos, int_eq}
use nsclient_fleet_server.Common.Text.{Text, codes, text_equality, text_eq}
use nsclient_fleet_server.Common.Result.{ok}
use nsclient_fleet_server.Common.Dict
use nsclient_fleet_server.Common.Distinct.{IsDistinct}
use nsclient_fleet_server.Storage.{Store, HostRow, CertRow, TagRow, has_host, has_tenant}
use nsclient_fleet_server.Storage.Table.{first, update, delete, count, upsert}
use nsclient_fleet_server.Storage.Rows.{IsKeyed}
use nsclient_fleet_server.Storage.Hosts.{
  EnrolledCert, create_pending, insert_host_row, enroll, burn, awaits, insert_cert, next_rid,
  map_host,
}
use nsclient_fleet_server.Storage.Lifecycle.{
  delete_host, strip, is_referenced, revoke_certs_and_reset_to_pending,
}
use nsclient_fleet_server.Storage.Certs.{standing, retire_superseded}
use nsclient_fleet_server.Storage.Tags.{replace_agent_tags, write_all, write_tag}
use nsclient_fleet_server.Storage.Tags.Written.{tag_value}
use nsclient_fleet_server.Storage.Tags.Replaced.{of_agent, replace_agent_tags-tag_value}
use nsclient_fleet_server.Storage.Life.{
  Call, call, create_pending_call, enroll_call, delete_call, reset_call, life,
}
use nsclient_fleet_server.Storage.Refine.{AllClear}
use nsclient_fleet_server.Storage.Refine.Run.{
  run, log, replay, run-refines, run-AllClear, enroll-once, enrollments, nonces,
}
use nsclient_fleet_server.Storage.Revocation.{standing-cut_off}
use nsclient_fleet_server.Storage.Standing.{standing-retired}
use nsclient_fleet_server.Storage.Isolation.{run-apart, hosts_of, certs_of}

abbrev empty : Store
empty = record {
  tenants = pos 1 ∷ pos 2 ∷ [];
  users = [];
  hosts = [];
  certs = [];
  tags = [];
  overrides = [];
  facts = [];
  fact_changes = [];
}

abbrev host : Text
host = codes "h"

abbrev nonce : Text
nonce = codes "n"

abbrev cert : Text → EnrolledCert
cert serial = record {
  serial = serial;
  fingerprint_sha256 = codes "f";
  issued_at = pos 20;
  expires_at = pos 900;
}

abbrev join : ℕ → Text → ℤ × Call
join now serial = (pos now, enroll_call (pos 1) host nonce none none (cert serial))

-- Issued, enrolled, tried again with the same token, cut off, enrolled with the next, deleted.
abbrev story : List (ℤ × Call)
story =
    (pos 10, create_pending_call (pos 1) host nonce (pos 100))
    ∷ join 20 (codes "a")
    ∷ join 30 (codes "b")
    ∷ (pos 40, reset_call (pos 1) host nonce (pos 200))
    ∷ join 50 (codes "c")
    ∷ (pos 60, delete_call (pos 1) host)
    ∷ []

story-log : log story empty ≡ true ∷ true ∷ false ∷ true ∷ true ∷ true ∷ []
unfolding log call create_pending insert_host_row enroll burn awaits insert_cert next_rid
    delete_host strip is_referenced revoke_certs_and_reset_to_pending has_host has_tenant first
    update delete count text_eq map_host
story-log = refl

run-refines_example :
    replay story (log story empty) host (life host empty.hosts)
    ≡ some (life host (run story empty).hosts)
run-refines_example = run-refines story empty host (unfold IsKeyed in tt)

run-AllClear_example : AllClear (run story empty)
run-AllClear_example = run-AllClear story empty (unfold IsKeyed in tt) refl

abbrev pending_host : HostRow
pending_host = record {
  id = host;
  tenant_id = pos 1;
  hostname = none;
  os = none;
  enrolled_at = none;
  last_seen_at = none;
  current_state_hash = none;
  bootstrap_nonce_hash = some nonce;
  bootstrap_expires_at = some (pos 100);
  local_config_present = none;
  host_override_last = none;
  facts_reported_hash = none;
  facts_reported_at = none;
  facts_refused_hash = none;
  facts_refused_at = none;
  facts_refused_status = none;
  created_at = pos 10;
}

abbrev waiting : Store
waiting = record empty { hosts = pending_host ∷ [] }

abbrev tries : List (ℤ × Call)
tries = join 20 (codes "a") ∷ join 30 (codes "b") ∷ []

one_host : IsKeyed (λ (r : HostRow). r.id) (pending_host ∷ [])
unfolding IsKeyed
one_host = (refl, tt)

enroll-once_example : enrollments host tries (log tries waiting) ≤ nonces (life host waiting.hosts)
enroll-once_example = enroll-once tries waiting host one_host refl

-- The host with its first certificate.
abbrev joined : Store
joined = (call (pos 20) (enroll_call (pos 1) host nonce none none (cert (codes "a"))) waiting).1

reset_took : (call (pos 40) (reset_call (pos 1) host nonce (pos 200)) joined).0 ≡ true
unfolding call enroll burn awaits insert_cert next_rid revoke_certs_and_reset_to_pending has_host
    has_tenant update count text_eq
reset_took = refl

standing-cut_off_example :
    (standing (pos 1) host (codes "a") (pos 70) (
      run
        ((pos 60, delete_call (pos 2) host) ∷ [])
        (call (pos 40) (reset_call (pos 1) host nonce (pos 200)) joined).1)).active
    ≡ false
unfolding text_eq
standing-cut_off_example =
    standing-cut_off (pos 40) (reset_call (pos 1) host nonce (pos 200))
      ((pos 60, delete_call (pos 2) host) ∷ []) (pos 1) host (codes "a") (pos 70) joined refl
      reset_took refl

abbrev cert_row : ℕ → Text → CertRow
cert_row rid serial = record {
  rid = rid;
  tenant_id = pos 1;
  host_id = host;
  serial = serial;
  fingerprint_sha256 = codes "f";
  issued_at = pos 20;
  expires_at = pos 900;
  revoked_at = none;
}

abbrev renewed : Store
renewed = record waiting { certs = cert_row 1 (codes "a") ∷ cert_row 2 (codes "b") ∷ [] }

two_serials : IsKeyed (λ (c : CertRow). c.serial) renewed.certs
unfolding IsKeyed text_eq
two_serials = (refl, (refl, tt))

renewed_active : (standing (pos 1) host (codes "b") (pos 50) renewed).active ≡ true
unfolding standing first count text_eq
renewed_active = refl

standing-retired_example :
    standing
      (pos 1)
      host
      (codes "b")
      (pos 50)
      (retire_superseded (pos 1) host (codes "b") (pos 50) renewed).1
    ≡ record { active = true; superseded = 0 }
standing-retired_example =
    standing-retired (pos 1) host (codes "b") (pos 50) renewed two_serials renewed_active

abbrev tag_row : Text → Text → Text → TagRow
tag_row k v source = record {
  tenant_id = pos 1;
  host_id = host;
  key = k;
  value = v;
  source = source;
  updated_at = pos 20;
}

abbrev tagged : Store
tagged = record waiting {
  tags =
      tag_row (codes "os") (codes "linux") (codes "agent")
      ∷ tag_row (codes "gone") (codes "x") (codes "agent")
      ∷ tag_row (codes "os") (codes "mine") (codes "manual")
      ∷ [];
}

abbrev reported : List (Text × Text)
reported = (codes "os", codes "bsd") ∷ []

replaced_ok : (replace_agent_tags (pos 1) host reported (pos 30) tagged).0 ≡ ok true
unfolding replace_agent_tags write_all write_tag upsert first update delete count has_host
    has_tenant text_eq Dict.get
replaced_ok = refl

one_key : IsDistinct reported
one_key = (unfold Dict.get in refl, tt)

replace_agent_tags-tag_value_example :
    tag_value host
      (codes "gone")
      (codes "agent")
      (replace_agent_tags (pos 1) host reported (pos 30) tagged).1.tags
    ≡ (if of_agent host host (codes "agent")
        then Dict.get (codes "gone") reported
        else tag_value host (codes "gone") (codes "agent") tagged.tags)
replace_agent_tags-tag_value_example =
    replace_agent_tags-tag_value (pos 1) host reported (pos 30) tagged true host (codes "gone")
      (codes "agent") one_key (unfold text_eq in refl) replaced_ok

run-apart_example :
    (hosts_of (pos 2) (run story empty).hosts ≡ hosts_of (pos 2) empty.hosts)
    × (certs_of (pos 2) (run story empty).certs ≡ certs_of (pos 2) empty.certs)
run-apart_example = run-apart story (pos 2) empty refl
