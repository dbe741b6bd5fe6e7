-- ===== src/Storage/Life.antt =====
-- What every repository of a host may do to the store, one step each, and the life cycle of a host
-- that the steps are to follow: pending with a nonce and a deadline, enrolled, pending again, gone.
use nsclient_fleet_server.Common.{
  ℕ, Bool, true, false, List, Option, none, some, ◌&&◌, ◌==◌, if◌then◌else◌,
}
use nsclient_fleet_server.Common.Int.{ℤ, ltb_ℤ, int_eq}
use nsclient_fleet_server.Common.Text.{Text, text_equality}
use nsclient_fleet_server.Common.Result.{Result, ok, err}
use nsclient_fleet_server.Storage.{Store, HostRow, StoreError}
use nsclient_fleet_server.Storage.Rows.{row_of}
use nsclient_fleet_server.Storage.Hosts.{create, create_pending, enroll, EnrolledCert, map_option}
use nsclient_fleet_server.Storage.Lifecycle.{
  delete_host, touch_last_seen, touch_last_seen_if_stale, revoke_certs_and_reset_to_pending,
  set_local_config_present, set_host_override_last, update_current_state_hash,
}
use nsclient_fleet_server.Storage.Certs.{record_cert, retire_superseded, revoke_all_for_host}
use nsclient_fleet_server.Storage.Tags.{replace_agent_tags, upsert_manual_tag, delete_manual_tag}
use nsclient_fleet_server.Storage.Overrides.{upsert_override, delete_override, replace_ciphertext}
use nsclient_fleet_server.Storage.Documents.{
  NewFacts, record_refusal, set_reported_hash, clear_reported_hash, refresh_collected_at,
  delete_document, delete_source, replace,
}

pub data Call : Type 0 where
  create_call : ℤ → Text → Option Text → Option Text → Call
  create_pending_call : ℤ → Text → Text → ℤ → Call
  enroll_call : ℤ → Text → Text → Option Text → Option Text → EnrolledCert → Call
  delete_call : ℤ → Text → Call
  reset_call : ℤ → Text → Text → ℤ → Call
  touch_call : ℤ → Text → Call
  touch_stale_call : ℤ → Text → ℤ → Call
  local_config_call : ℤ → Text → Bool → Call
  override_last_call : ℤ → Text → Bool → Call
  state_hash_call : ℤ → Text → Text → Call
  record_cert_call : ℤ → Text → EnrolledCert → Call
  retire_call : ℤ → Text → Text → Call
  revoke_call : ℤ → Text → Call
  agent_tags_call : ℤ → Text → List (Text × Text) → Call
  manual_tag_call : ℤ → Text → Text → Text → Call
  delete_tag_call : ℤ → Text → Text → Call
  override_call : ℤ → Text → List ℕ → ℤ → Option Text → Option ℤ → Call
  delete_override_call : ℤ → Text → Call
  ciphertext_call : ℤ → Text → List ℕ → Call
  facts_call : ℤ → Text → NewFacts → ℤ → Call
  refusal_call : ℤ → Text → ℕ → Option Text → Call
  reported_call : ℤ → Text → Text → Call
  clear_reported_call : ℤ → Text → Call
  collected_call : ℤ → Text → Text → Text → Text → Call
  delete_facts_call : ℤ → Text → Text → Call
  delete_source_call : ℤ → Text → Call

-- What a call answers, as far as the life of a host goes: whether it took.
abbrev pub took_ok {ℓ} : {A : Type ℓ} → Result A StoreError → Bool
took_ok (ok a) = true
took_ok (err e) = false

abbrev pub took_true : Result Bool StoreError → Bool
took_true (ok b) = b
took_true (err e) = false

abbrev pub took_some : Result (Option ℕ) StoreError → Bool
took_some (ok (some n)) = true
took_some (ok none) = false
took_some (err e) = false

abbrev answer {ℓ} : {A : Type ℓ} → (A → Bool) → A × Store → Bool × Store
answer took (a, s) = (took a, s)

abbrev silent {ℓ} : {A : Type ℓ} → A × Store → Bool × Store
silent (a, s) = (false, s)

unfoldable pub call : ℤ → Call → Store → Bool × Store
call now (create_call t h name os) s = answer took_ok (create t h name os now s)
call now (create_pending_call t h n d) s = answer took_ok (create_pending t h n d now s)
call now (enroll_call t h n name os c) s = answer took_true (enroll t h n name os c now s)
call now (delete_call t h) s = answer took_true (delete_host t h s)
call now (reset_call t h n d) s = answer took_some (revoke_certs_and_reset_to_pending t h n d now s)
call now (touch_call t h) s = (false, touch_last_seen t h now s)
call now (touch_stale_call t h secs) s = (false, touch_last_seen_if_stale t h secs now s)
call now (local_config_call t h b) s = silent (set_local_config_present t h b s)
call now (override_last_call t h b) s = silent (set_host_override_last t h b s)
call now (state_hash_call t h hash) s = (false, update_current_state_hash t h hash now s)
call now (record_cert_call t h c) s = silent (record_cert t h c s)
call now (retire_call t h serial) s = silent (retire_superseded t h serial now s)
call now (revoke_call t h) s = silent (revoke_all_for_host t h now s)
call now (agent_tags_call t h tags) s = silent (replace_agent_tags t h tags now s)
call now (manual_tag_call t h k v) s = silent (upsert_manual_tag t h k v now s)
call now (delete_tag_call t h k) s = silent (delete_manual_tag t h k s)
call now (override_call t h p n m u) s = silent (upsert_override t h p n m u now s)
call now (delete_override_call t h) s = silent (delete_override t h s)
call now (ciphertext_call t h p) s = (false, replace_ciphertext t h p s)
call now (facts_call t h doc n) s = silent (replace t h doc n now s)
call now (refusal_call t h n hash) s = (false, record_refusal t h n hash now s)
call now (reported_call t h hash) s = silent (set_reported_hash t h hash now s)
call now (clear_reported_call t h) s = silent (clear_reported_hash t h now s)
call now (collected_call t h source hash at) s =
    silent (refresh_collected_at t h source hash at now s)
call now (delete_facts_call t h source) s = silent (delete_document t h source s)
call now (delete_source_call t source) s = silent (delete_source t source s)

-- The abstract life of a host: its tenant, and where it stands.
pub data Phase : Type 0 where
  unarmed : Phase
  awaiting : Text → ℤ → Phase
  enrolled : Phase

abbrev pub Life : Type 0
Life = ℤ × Phase

abbrev unenrolled_phase : Option Text → Option ℤ → Phase
unenrolled_phase (some n) (some d) = awaiting n d
unenrolled_phase (some n) none = unarmed
unenrolled_phase none d = unarmed

abbrev pub phase : Option ℤ → Option Text → Option ℤ → Phase
phase (some at) n d = enrolled
phase none n d = unenrolled_phase n d

abbrev pub life_of : HostRow → Life
life_of r = (r.tenant_id, phase r.enrolled_at r.bootstrap_nonce_hash r.bootstrap_expires_at)

unfoldable pub life : Text → List HostRow → Option Life
life h hosts = map_option life_of (row_of (λ r. r.id) h hosts)

-- The deadline and the nonce are those of a host that is not enrolled.
abbrev unset_both : Option Text → Option ℤ → Bool
unset_both none none = true
unset_both none (some d) = false
unset_both (some n) d = false

abbrev clear_of : Option ℤ → Option Text → Option ℤ → Bool
clear_of none n d = true
clear_of (some at) n d = unset_both n d

abbrev pub is_clear : HostRow → Bool
is_clear r = clear_of r.enrolled_at r.bootstrap_nonce_hash r.bootstrap_expires_at

-- The abstract machine: what a call that took does to the life of the host it names, `none` where it
-- must not take.
abbrev pub born : Life → Option Life → Option (Option Life)
born l none = some (some l)
born l (some old) = none

abbrev pub joins : ℤ → ℤ → Text → Option Life → Option (Option Life)
joins now t n none = none
joins now t n (some (u, unarmed)) = none
joins now t n (some (u, awaiting m d)) =
    if u == t && m == n && ltb_ℤ now d then some (some (u, enrolled)) else none
joins now t n (some (u, enrolled)) = none

abbrev pub dies : ℤ → Option Life → Option (Option Life)
dies t none = none
dies t (some (u, p)) = if u == t then some none else none

abbrev pub rearms : ℤ → Text → ℤ → Option Life → Option (Option Life)
rearms t n d none = none
rearms t n d (some (u, p)) = if u == t then some (some (u, awaiting n d)) else none

abbrev pub only {ℓ} : {A : Type ℓ} → Bool → A → A → A
only named next same = if named then next else same

unfoldable pub advance : ℤ → Call → Text → Option Life → Option (Option Life)
advance now (create_call t g name os) h l = only (g == h) (born (t, unarmed) l) (some l)
advance now (create_pending_call t g n d) h l = only (g == h) (born (t, awaiting n d) l) (some l)
advance now (enroll_call t g n name os c) h l = only (g == h) (joins now t n l) (some l)
advance now (delete_call t g) h l = only (g == h) (dies t l) (some l)
advance now (reset_call t g n d) h l = only (g == h) (rearms t n d l) (some l)
advance now _ h l = some l

-- A call that did not take leaves every life as it is.
unfoldable pub spec_step : ℤ → Call → Bool → Text → Option Life → Option (Option Life)
spec_step now c took h l = if took then advance now c h l else some l
