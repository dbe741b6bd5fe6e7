-- ===== src/Storage/Refine/Run.antt =====
-- Any sequence of calls against the life cycle.
use nsclient_fleet_server.Common.{
  ℕ, Bool, true, false, ◌≡◌, refl, all, not as negate, List, [], ◌∷◌, Option, none, some, arith,
  if◌then◌else◌, ◌&&◌, ◌==◌, suc, ◌≤◌,
}
use nsclient_fleet_server.Common.Int.{ℤ}
use nsclient_fleet_server.Common.Text.{Text, text_equality}
use nsclient_fleet_server.Storage.{Store}
use nsclient_fleet_server.Storage.Life.{
  unarmed, awaiting, enrolled, advance, Call, Life, agent_tags_call, call, ciphertext_call,
  clear_reported_call, collected_call, create_call, create_pending_call, delete_call,
  delete_facts_call, delete_override_call, delete_source_call, delete_tag_call, enroll_call,
  facts_call, life, local_config_call, manual_tag_call, override_call, override_last_call,
  record_cert_call, refusal_call, reported_call, reset_call, retire_call, revoke_call, spec_step,
  state_hash_call, touch_call, touch_stale_call,
}
use nsclient_fleet_server.Storage.Refine.{
  AllClear, HasHostKeys, Refines, create-Refines, create_pending-Refines, delete-Refines,
  enroll-Refines, reset-Refines,
}
use nsclient_fleet_server.Storage.Refine.Quiet.{
  agent_tags-Refines, ciphertext-Refines, clear_reported-Refines, collected-Refines,
  delete_facts-Refines, delete_override-Refines, delete_source-Refines, delete_tag-Refines,
  facts-Refines, local_config-Refines, manual_tag-Refines, override-Refines, override_last-Refines,
  record_cert-Refines, refusal-Refines, reported-Refines, retire-Refines, revoke-Refines,
  state_hash-Refines, touch-Refines, touch_stale-Refines,
}

call-Refines : (now : ℤ) (c : Call) (s : Store) → HasHostKeys s → Refines now c s
call-Refines now (create_call t g name os) s d = create-Refines now t g name os s d
call-Refines now (create_pending_call t g n e) s d = create_pending-Refines now t g n e s d
call-Refines now (enroll_call t g n name os c) s d = enroll-Refines now t g n name os c s d
call-Refines now (delete_call t g) s d = delete-Refines now t g s d
call-Refines now (reset_call t g n e) s d = reset-Refines now t g n e s d
call-Refines now (touch_call t g) s d = touch-Refines now t g s d
call-Refines now (touch_stale_call t g secs) s d = touch_stale-Refines now t g secs s d
call-Refines now (local_config_call t g b) s d = local_config-Refines now t g b s d
call-Refines now (override_last_call t g b) s d = override_last-Refines now t g b s d
call-Refines now (state_hash_call t g hash) s d = state_hash-Refines now t g hash s d
call-Refines now (refusal_call t g n hash) s d = refusal-Refines now t g n hash s d
call-Refines now (reported_call t g hash) s d = reported-Refines now t g hash s d
call-Refines now (clear_reported_call t g) s d = clear_reported-Refines now t g s d
call-Refines now (record_cert_call t g c) s d = record_cert-Refines now t g c s d
call-Refines now (retire_call t g serial) s d = retire-Refines now t g serial s d
call-Refines now (revoke_call t g) s d = revoke-Refines now t g s d
call-Refines now (agent_tags_call t g tags) s d = agent_tags-Refines now t g tags s d
call-Refines now (manual_tag_call t g k v) s d = manual_tag-Refines now t g k v s d
call-Refines now (delete_tag_call t g k) s d = delete_tag-Refines now t g k s d
call-Refines now (override_call t g p n m u) s d = override-Refines now t g p n m u s d
call-Refines now (delete_override_call t g) s d = delete_override-Refines now t g s d
call-Refines now (ciphertext_call t g p) s d = ciphertext-Refines now t g p s d
call-Refines now (facts_call t g doc n) s d = facts-Refines now t g doc n s d
call-Refines now (collected_call t g source hash at) s d =
    collected-Refines now t g source hash at s d
call-Refines now (delete_facts_call t g source) s d = delete_facts-Refines now t g source s d
call-Refines now (delete_source_call t source) s d = delete_source-Refines now t source s d

-- Calls with the times at which they run, and the log of what took.
unfoldable pub run : List (ℤ × Call) → Store → Store
run [] s = s
run ((now, c) ∷ calls) s = run calls (call now c s).1

unfoldable pub log : List (ℤ × Call) → Store → List Bool
log [] s = []
log ((now, c) ∷ calls) s = (call now c s).0 ∷ log calls (call now c s).1

-- The abstract machine over a log, `none` once it refuses.
abbrev then_replay :
    (Option Life → Option (Option Life)) → Option (Option Life) → Option (Option Life)
then_replay k none = none
then_replay k (some l) = k l

unfoldable pub replay : List (ℤ × Call) → List Bool → Text → Option Life → Option (Option Life)
replay [] took h l = some l
replay ((now, c) ∷ calls) [] h l = none
replay ((now, c) ∷ calls) (b ∷ took) h l = then_replay (replay calls took h) (spec_step now c b h l)

-- The life of every host, as the table of hosts has it after any sequence of calls of the
-- repositories at any times, is what the abstract life cycle makes of the log of the calls that took:
-- no call takes where the life cycle forbids it, and each that takes does to the host what the life
-- cycle says. The ids of the hosts that the sequence starts with are distinct.
pub run-refines :
    (calls : List (ℤ × Call)) (s : Store) (h : Text)
    → HasHostKeys s
    → replay calls (log calls s) h (life h s.hosts) ≡ some (life h (run calls s).hosts)
unfolding run log replay
run-refines [] s h d = refl
run-refines ((now, c) ∷ calls) s h d =
    let r = call-Refines now c s d in rw (r.2 h) (run-refines calls (call now c s).1 h r.0)

-- No enrolled host keeps a nonce or a deadline of its bootstrap token: what `Host` says of
-- `bootstrap_expires_at` holds after any sequence of calls at any times, from a store in which it
-- holds and the ids of the hosts are distinct.
pub run-AllClear :
    (calls : List (ℤ × Call)) (s : Store) → HasHostKeys s → AllClear s → AllClear (run calls s)
unfolding run
run-AllClear [] s d k = k
run-AllClear ((now, c) ∷ calls) s d k =
    let r = call-Refines now c s d in run-AllClear calls (call now c s).1 r.0 (r.1 k)

-- Enrollments of one host that took, and the calls that give a host a nonce.
abbrev is_enrollment : Text → Call → Bool
is_enrollment h (enroll_call t g n name os c) = g == h
is_enrollment h _ = false

abbrev is_arming : Text → Call → Bool
is_arming h (create_pending_call t g n d) = g == h
is_arming h (reset_call t g n d) = g == h
is_arming h _ = false

unfoldable pub enrollments : Text → List (ℤ × Call) → List Bool → ℕ
enrollments h [] took = 0
enrollments h ((now, c) ∷ calls) [] = 0
enrollments h ((now, c) ∷ calls) (b ∷ took) =
    let later = enrollments h calls took in if b && is_enrollment h c then suc later else later

-- What a life has left to enroll with.
abbrev pub nonces : Option Life → ℕ
nonces none = 0
nonces (some (t, unarmed)) = 0
nonces (some (t, awaiting n d)) = 1
nonces (some (t, enrolled)) = 0

advance-nonces :
    (now : ℤ) (c : Call) (b : Bool) (h : Text) (l : Option Life)
    → is_arming h c ≡ false
    → (m : Option Life) → spec_step now c b h l ≡ some m
    → (if b && is_enrollment h c then suc (nonces m) else nonces m) ≤ nonces l
unfolding spec_step advance
advance-nonces now (create_call t g u v) b h l k m e = ground arith
advance-nonces now (create_pending_call t g u v) b h l k m e = ground arith
advance-nonces now (enroll_call t g u v w x) b h l k m e = ground arith
advance-nonces now (delete_call t g) b h l k m e = ground arith
advance-nonces now (reset_call t g u v) b h l k m e = ground arith
advance-nonces now (touch_call t g) b h l k m e = ground arith
advance-nonces now (touch_stale_call t g u) b h l k m e = ground arith
advance-nonces now (local_config_call t g u) b h l k m e = ground arith
advance-nonces now (override_last_call t g u) b h l k m e = ground arith
advance-nonces now (state_hash_call t g u) b h l k m e = ground arith
advance-nonces now (record_cert_call t g u) b h l k m e = ground arith
advance-nonces now (retire_call t g u) b h l k m e = ground arith
advance-nonces now (revoke_call t g) b h l k m e = ground arith
advance-nonces now (agent_tags_call t g u) b h l k m e = ground arith
advance-nonces now (manual_tag_call t g u v) b h l k m e = ground arith
advance-nonces now (delete_tag_call t g u) b h l k m e = ground arith
advance-nonces now (override_call t g u v w x) b h l k m e = ground arith
advance-nonces now (delete_override_call t g) b h l k m e = ground arith
advance-nonces now (ciphertext_call t g u) b h l k m e = ground arith
advance-nonces now (facts_call t g u v) b h l k m e = ground arith
advance-nonces now (refusal_call t g u v) b h l k m e = ground arith
advance-nonces now (reported_call t g u) b h l k m e = ground arith
advance-nonces now (clear_reported_call t g) b h l k m e = ground arith
advance-nonces now (collected_call t g u v w) b h l k m e = ground arith
advance-nonces now (delete_facts_call t g u) b h l k m e = ground arith
advance-nonces now (delete_source_call t g) b h l k m e = ground arith

replayed :
    (f : Option Life → Option (Option Life)) (o : Option (Option Life)) (m : Option Life)
    → then_replay f o ≡ some m
    → (u : Option Life) × (o ≡ some u) × (f u ≡ some m)
replayed f none m e = cc
replayed f (some u) m e = (u, refl, e)

replay-nonces :
    (calls : List (ℤ × Call)) (took : List Bool) (h : Text) (l m : Option Life)
    → all (λ c. negate (is_arming h c.1)) calls ≡ true
    → replay calls took h l ≡ some m
    → enrollments h calls took ≤ nonces l
unfolding replay enrollments
replay-nonces [] took h l m k e = omega arith
replay-nonces ((now, c) ∷ calls) [] h l m k e = omega arith
replay-nonces ((now, c) ∷ calls) (b ∷ took) h l m k e =
    let (u, n, r) = replayed (λ p. replay calls took h p) (spec_step now c b h l) m e in
    ground (
      arith,
      advance-nonces now c b h l (ground (arith, k)) u n,
      replay-nonces calls took h u m (ground (arith, k)) r,
    )

-- A bootstrap token enrolls once: in any sequence of calls of the repositories in which no call gives
-- the host a nonce, at most one enrollment of the host takes, whatever its arguments, and none if the
-- host was not waiting for its token at the start. The ids of the hosts are distinct.
pub enroll-once :
    (calls : List (ℤ × Call)) (s : Store) (h : Text)
    → HasHostKeys s
    → all (λ c. negate (is_arming h c.1)) calls ≡ true
    → enrollments h calls (log calls s) ≤ nonces (life h s.hosts)
enroll-once calls s h d k =
    replay-nonces calls (log calls s) h (life h s.hosts) (life h (run calls s).hosts) k
      (run-refines calls s h d)
