-- ===== src/Storage/Refine/Quiet.antt =====
-- Calls that leave the life of every host alone: they never take, and the hosts' table stays or has
-- columns set that the life cycle does not read.
use nsclient_fleet_server.Common.{
  ℕ, Bool, true, false, ◌≡◌, refl, all, List, Option, arith, Option-cases, inl, inr,
}
use nsclient_fleet_server.Common.Int.{ℤ}
use nsclient_fleet_server.Common.Text.{Text}
use nsclient_fleet_server.Storage.{Store, HostRow}
use nsclient_fleet_server.Storage.Rows.{IsKeyed, row_of, update-IsKeyed, all-update}
use nsclient_fleet_server.Storage.Hosts.{EnrolledCert, insert_cert}
use nsclient_fleet_server.Storage.Lifecycle.{
  set_host_override_last, set_hosts, set_local_config_present, touch_last_seen,
  touch_last_seen_if_stale, update_current_state_hash,
}
use nsclient_fleet_server.Storage.Certs.{record_cert, retire_superseded, revoke_all_for_host}
use nsclient_fleet_server.Storage.Tags.{replace_agent_tags, upsert_manual_tag, delete_manual_tag}
use nsclient_fleet_server.Storage.Overrides.{upsert_override, delete_override, replace_ciphertext}
use nsclient_fleet_server.Storage.Documents.{
  NewFacts, clear_reported_hash, delete_document, delete_source, record_refusal,
  refresh_collected_at, replace, set_reported_hash,
}
use nsclient_fleet_server.Storage.Life.{
  Call, agent_tags_call, call, ciphertext_call, clear_reported_call, collected_call,
  delete_facts_call, delete_override_call, delete_source_call, delete_tag_call, facts_call, life,
  is_clear, life_of, local_config_call, manual_tag_call, override_call, override_last_call,
  record_cert_call, refusal_call, reported_call, retire_call, revoke_call, spec_step,
  state_hash_call, touch_call, touch_stale_call,
}
use nsclient_fleet_server.Storage.Refine.{HasHostKeys, Refines, life-update}

-- What a quiet call does to the hosts.
abbrev IsQuiet : List HostRow → List HostRow → Type 0
IsQuiet before after =
    (IsKeyed (λ r. r.id) before → IsKeyed (λ r. r.id) after)
    × (all is_clear before ≡ true → all is_clear after ≡ true)
    × ((h : Text) → life h after ≡ life h before)

same_rows : (before after : List HostRow) → after ≡ before → IsQuiet before after
same_rows before after e = (λ d. rw (e) d, λ k. rw (e) k, λ h. rw (e) refl)

set_columns :
    (p : HostRow → Bool) (f : HostRow → HostRow) (s : Store)
    → ((r : HostRow) → (f r).id ≡ r.id)
    → ((r : HostRow) → life_of (f r) ≡ life_of r)
    → ((r : HostRow) → is_clear (f r) ≡ is_clear r)
    → IsQuiet s.hosts (set_hosts p f s).hosts
unfolding life
set_columns p f s same keeps clear = (
  update-IsKeyed (λ r. r.id) p f same s.hosts,
  all-update is_clear p f (λ r k. rw (clear r) k) s.hosts,
  λ h. elim (Option-cases (row_of (λ r. r.id) h s.hosts)) [
    | inl e ↦ ground (arith, life-update p f same h s)
    | inr (r, e) ↦ ground (arith, life-update p f same h s, keeps r)
  ],
)

quiet-Refines :
    (now : ℤ) (c : Call) (s : Store)
    → HasHostKeys s
    → (call now c s).0 ≡ false
    → IsQuiet s.hosts (call now c s).1.hosts
    → Refines now c s
unfolding spec_step
quiet-Refines now c s d e q = (q.0 d, q.1, λ h. ground (arith, q.2 h))

pub touch-Refines :
    (now : ℤ) (t : ℤ) (g : Text) (s : Store) → HasHostKeys s → Refines now (touch_call t g) s
unfolding call touch_last_seen
touch-Refines now t g s d =
    quiet-Refines now (touch_call t g) s d refl
      (set_columns _ _ s (λ r. refl) (λ r. refl) (λ r. refl))

pub touch_stale-Refines :
    (now : ℤ) (t : ℤ) (g : Text) (secs : ℤ) (s : Store)
    → HasHostKeys s
    → Refines now (touch_stale_call t g secs) s
unfolding call touch_last_seen_if_stale
touch_stale-Refines now t g secs s d =
    quiet-Refines now (touch_stale_call t g secs) s d refl
      (set_columns _ _ s (λ r. refl) (λ r. refl) (λ r. refl))

pub local_config-Refines :
    (now : ℤ) (t : ℤ) (g : Text) (b : Bool) (s : Store)
    → HasHostKeys s
    → Refines now (local_config_call t g b) s
unfolding call set_local_config_present
local_config-Refines now t g b s d =
    quiet-Refines now (local_config_call t g b) s d refl
      (set_columns _ _ s (λ r. refl) (λ r. refl) (λ r. refl))

pub override_last-Refines :
    (now : ℤ) (t : ℤ) (g : Text) (b : Bool) (s : Store)
    → HasHostKeys s
    → Refines now (override_last_call t g b) s
unfolding call set_host_override_last
override_last-Refines now t g b s d =
    quiet-Refines now (override_last_call t g b) s d refl
      (set_columns _ _ s (λ r. refl) (λ r. refl) (λ r. refl))

pub state_hash-Refines :
    (now : ℤ) (t : ℤ) (g hash : Text) (s : Store)
    → HasHostKeys s
    → Refines now (state_hash_call t g hash) s
unfolding call update_current_state_hash
state_hash-Refines now t g hash s d =
    quiet-Refines now (state_hash_call t g hash) s d refl
      (set_columns _ _ s (λ r. refl) (λ r. refl) (λ r. refl))

pub refusal-Refines :
    (now : ℤ) (t : ℤ) (g : Text) (n : ℕ) (hash : Option Text) (s : Store)
    → HasHostKeys s
    → Refines now (refusal_call t g n hash) s
unfolding call record_refusal
refusal-Refines now t g n hash s d =
    quiet-Refines now (refusal_call t g n hash) s d refl
      (set_columns _ _ s (λ r. refl) (λ r. refl) (λ r. refl))

pub reported-Refines :
    (now : ℤ) (t : ℤ) (g hash : Text) (s : Store)
    → HasHostKeys s
    → Refines now (reported_call t g hash) s
unfolding call set_reported_hash
reported-Refines now t g hash s d =
    quiet-Refines now (reported_call t g hash) s d refl
      (set_columns _ _ s (λ r. refl) (λ r. refl) (λ r. refl))

pub clear_reported-Refines :
    (now : ℤ) (t : ℤ) (g : Text) (s : Store)
    → HasHostKeys s
    → Refines now (clear_reported_call t g) s
unfolding call clear_reported_hash
clear_reported-Refines now t g s d =
    quiet-Refines now (clear_reported_call t g) s d refl
      (set_columns _ _ s (λ r. refl) (λ r. refl) (λ r. refl))

pub record_cert-Refines :
    (now : ℤ) (t : ℤ) (g : Text) (c : EnrolledCert) (s : Store)
    → HasHostKeys s
    → Refines now (record_cert_call t g c) s
unfolding call record_cert insert_cert
record_cert-Refines now t g c s d =
    quiet-Refines now (record_cert_call t g c) s d (ground arith)
      (same_rows s.hosts _ (ground arith))

pub retire-Refines :
    (now : ℤ) (t : ℤ) (g serial : Text) (s : Store)
    → HasHostKeys s
    → Refines now (retire_call t g serial) s
unfolding call retire_superseded
retire-Refines now t g serial s d =
    quiet-Refines now (retire_call t g serial) s d (ground arith)
      (same_rows s.hosts _ (ground arith))

pub revoke-Refines :
    (now : ℤ) (t : ℤ) (g : Text) (s : Store) → HasHostKeys s → Refines now (revoke_call t g) s
unfolding call revoke_all_for_host
revoke-Refines now t g s d =
    quiet-Refines now (revoke_call t g) s d (ground arith) (same_rows s.hosts _ (ground arith))

pub agent_tags-Refines :
    (now : ℤ) (t : ℤ) (g : Text) (tags : List (Text × Text)) (s : Store)
    → HasHostKeys s
    → Refines now (agent_tags_call t g tags) s
unfolding call replace_agent_tags
agent_tags-Refines now t g tags s d =
    quiet-Refines now (agent_tags_call t g tags) s d (ground arith)
      (same_rows s.hosts _ (ground arith))

pub manual_tag-Refines :
    (now : ℤ) (t : ℤ) (g k v : Text) (s : Store)
    → HasHostKeys s
    → Refines now (manual_tag_call t g k v) s
unfolding call upsert_manual_tag
manual_tag-Refines now t g k v s d =
    quiet-Refines now (manual_tag_call t g k v) s d (ground arith)
      (same_rows s.hosts _ (ground arith))

pub delete_tag-Refines :
    (now : ℤ) (t : ℤ) (g k : Text) (s : Store)
    → HasHostKeys s
    → Refines now (delete_tag_call t g k) s
unfolding call delete_manual_tag
delete_tag-Refines now t g k s d =
    quiet-Refines now (delete_tag_call t g k) s d (ground arith)
      (same_rows s.hosts _ (ground arith))

pub override-Refines :
    (now : ℤ) (t : ℤ) (g : Text) (p : List ℕ) (n : ℤ) (m : Option Text) (u : Option ℤ) (s : Store)
    → HasHostKeys s
    → Refines now (override_call t g p n m u) s
unfolding call upsert_override
override-Refines now t g p n m u s d =
    quiet-Refines now (override_call t g p n m u) s d (ground arith)
      (same_rows s.hosts _ (ground arith))

pub delete_override-Refines :
    (now : ℤ) (t : ℤ) (g : Text) (s : Store)
    → HasHostKeys s
    → Refines now (delete_override_call t g) s
unfolding call delete_override
delete_override-Refines now t g s d =
    quiet-Refines now (delete_override_call t g) s d (ground arith)
      (same_rows s.hosts _ (ground arith))

pub ciphertext-Refines :
    (now : ℤ) (t : ℤ) (g : Text) (p : List ℕ) (s : Store)
    → HasHostKeys s
    → Refines now (ciphertext_call t g p) s
unfolding call replace_ciphertext
ciphertext-Refines now t g p s d =
    quiet-Refines now (ciphertext_call t g p) s d (ground arith)
      (same_rows s.hosts _ (ground arith))

pub facts-Refines :
    (now : ℤ) (t : ℤ) (g : Text) (doc : NewFacts) (n : ℤ) (s : Store)
    → HasHostKeys s
    → Refines now (facts_call t g doc n) s
unfolding call replace
facts-Refines now t g doc n s d =
    quiet-Refines now (facts_call t g doc n) s d (ground arith) (same_rows s.hosts _ (ground arith))

pub collected-Refines :
    (now : ℤ) (t : ℤ) (g source hash at : Text) (s : Store)
    → HasHostKeys s
    → Refines now (collected_call t g source hash at) s
unfolding call refresh_collected_at
collected-Refines now t g source hash at s d =
    quiet-Refines now (collected_call t g source hash at) s d (ground arith)
      (same_rows s.hosts _ (ground arith))

pub delete_facts-Refines :
    (now : ℤ) (t : ℤ) (g source : Text) (s : Store)
    → HasHostKeys s
    → Refines now (delete_facts_call t g source) s
unfolding call delete_document
delete_facts-Refines now t g source s d =
    quiet-Refines now (delete_facts_call t g source) s d (ground arith)
      (same_rows s.hosts _ (ground arith))

pub delete_source-Refines :
    (now : ℤ) (t : ℤ) (source : Text) (s : Store)
    → HasHostKeys s
    → Refines now (delete_source_call t source) s
unfolding call delete_source
delete_source-Refines now t source s d =
    quiet-Refines now (delete_source_call t source) s d (ground arith)
      (same_rows s.hosts _ (ground arith))
