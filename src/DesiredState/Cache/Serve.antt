-- ===== src/DesiredState/Cache/Serve.antt =====
-- What the cache serves was stored for that host and that version, after the host's last
-- invalidation.
use nsclient_fleet_server.Common.{
  ℕ, true, false, ◌≡◌, refl, ap, sym, ◌∙◌, ◌⊎◌, inl, inr, List, [], ◌∷◌, Option, none, some, arith,
  if◌then◌else◌, ◌==◌, pair_eq, Bool-cases, Option-cases,
}
use nsclient_fleet_server.Common.Int.{ℤ, int_eq}
use nsclient_fleet_server.Common.Text.{text_equality}
use nsclient_fleet_server.Common.Dict
use nsclient_fleet_server.DesiredState.Bundle.{DesiredState}
use nsclient_fleet_server.DesiredState.Cache.{
  Key, Entry, Entries, Cache, CacheTicket, Op, get_op, put_op, forget_op, invalidate_op, new, step,
  run, ticket, get, peek, at_version, touch, put_if_current, is_stale, stored, reclaim, forget_host,
  invalidate_host, generation_of, bump, or_new,
}
use nsclient_fleet_server.DesiredState.Cache.Keys.{HasDistinctKeys, get-reclaim, step-IsDistinct}

-- The step that stores this state for this host at this version.
abbrev pub IsPut : Key → ℤ → DesiredState → Op → Type 0
IsPut k version s (get_op j v now) = ⊥
IsPut k version s (put_op j t v s' now) = (j ≡ k) × (v ≡ version) × (s' ≡ s)
IsPut k version s (forget_op j) = ⊥
IsPut k version s (invalidate_op j now) = ⊥

abbrev pub PutAmong : Key → ℤ → DesiredState → List Op → Type 0
PutAmong k version s [] = ⊥
PutAmong k version s (o ∷ ops) = IsPut k version s o ⊎ PutAmong k version s ops

module _ (k : Key) (version : ℤ) (s : DesiredState) (c : Cache) (d : HasDistinctKeys c) where
  peek-put :
      (j : Key) (e : Entry) (es : Entries)
      → at_version version (Dict.get k (Dict.put j e es)) ≡ some s
      → ((j ≡ k) × (at_version version (some e) ≡ some s))
        ⊎ (at_version version (Dict.get k es) ≡ some s)
  peek-put j e es h = elim (Bool-cases (j == k)) [
    | inl same ↦ inl ((pair_eq.beq_iff j k).0 same, rw (Dict.get-put j k e es, same) at h)
    | inr other ↦ inr (rw (Dict.get-put j k e es, other) at h)
  ]

  peek-touch :
      (now : ℕ) (j : Key) (o : Option Entry)
      → Dict.get j c.entries ≡ o
      → at_version version (Dict.get k (touch now o j c.entries)) ≡ some s
      → at_version version (Dict.get k c.entries) ≡ some s
  peek-touch now j none e h = h
  peek-touch now j (some x) e h = elim (peek-put j (record x { last_used = now }) c.entries h) [
    | inl (same, p) ↦
        ap (λ i. at_version version (Dict.get i c.entries)) (sym same)
        ∙ ap (at_version version) e
        ∙ p
    | inr p ↦ p
  ]

  peek-reclaim :
      (now : ℕ)
      → at_version version (Dict.get k (reclaim now c).entries) ≡ some s
      → at_version version (Dict.get k c.entries) ≡ some s
  peek-reclaim now h = elim (get-reclaim now k c d) [
    | inl e ↦ rw e at h
    | inr e ↦ absurd (cc (rw e at h))
  ]

  step-get :
      (j : Key) (v : ℤ) (now : ℕ)
      → peek (get c j v now).1 k version ≡ some s
      → peek c k version ≡ some s
  unfolding get peek
  step-get j v now h = elim (Option-cases (peek c j v)) [
    | inl e ↦ rw (e, get) at h
    | inr (x, e) ↦ peek-touch now j (Dict.get j c.entries) refl (rw (e, get) at h)
  ]

  step-put :
      (j : Key) (t : CacheTicket) (v : ℤ) (s' : DesiredState) (now : ℕ)
      → peek (put_if_current c j t v s' now).0 k version ≡ some s
      → (peek c k version ≡ some s) ⊎ ((j ≡ k) × (v ≡ version) × (s' ≡ s))
  unfolding put_if_current stored peek
  step-put j t v s' now h = elim (Bool-cases (is_stale c j t)) [
    | inl e ↦ inl (rw e at h)
    | inr e ↦
        elim (peek-put j
          (record {
            config_version = v;
            state = some s';
            generation = generation_of j c.entries;
            last_used = now;
          })
          (reclaim now c).entries (rw e at h)) [
            | inl (same, p) ↦ inr (ground arith)
            | inr p ↦ inl (peek-reclaim now p)
          ]
  ]

  step-forget : (j : Key) → peek (forget_host c j) k version ≡ some s → peek c k version ≡ some s
  unfolding forget_host peek
  step-forget j h = ground (arith, Dict.get-remove j k c.entries)

  step-invalidate :
      (j : Key) (now : ℕ)
      → peek (invalidate_host c j now) k version ≡ some s
      → peek c k version ≡ some s
  unfolding invalidate_host peek
  step-invalidate j now h =
      let e = or_new now (Dict.get j c.entries) in
      elim (peek-put j (record e { state = none; generation = bump e.generation }) c.entries h) [
        | inl (same, p) ↦ absurd (cc p)
        | inr p ↦ p
      ]

  step-peek :
      (o : Op)
      → peek (step o c) k version ≡ some s
      → (peek c k version ≡ some s) ⊎ IsPut k version s o
  unfolding step
  step-peek (get_op j v now) h = inl (step-get j v now h)
  step-peek (put_op j t v s' now) h = step-put j t v s' now h
  step-peek (forget_op j) h = inl (step-forget j h)
  step-peek (invalidate_op j now) h = inl (step-invalidate j now h)

run-peek :
    (k : Key) (version : ℤ) (s : DesiredState) (ops : List Op) (c : Cache)
    → HasDistinctKeys c
    → peek (run ops c) k version ≡ some s
    → (peek c k version ≡ some s) ⊎ PutAmong k version s ops
unfolding run
run-peek k version s [] c d h = inl h
run-peek k version s (o ∷ ops) c d h =
    elim (run-peek k version s ops (step o c) (step-IsDistinct o c d) h) [
      | inl p ↦ elim (step-peek k version s c d o p) [ inl q ↦ inl q | inr q ↦ inr (inl q) ]
      | inr p ↦ inr (inr p)
    ]

run-IsDistinct : (ops : List Op) (c : Cache) → HasDistinctKeys c → HasDistinctKeys (run ops c)
unfolding run
run-IsDistinct [] c d = d
run-IsDistinct (o ∷ ops) c d = run-IsDistinct ops (step o c) (step-IsDistinct o c d)

pub get-peek :
    (c : Cache) (k : Key) (version : ℤ) (now : ℕ) → (get c k version now).0 ≡ peek c k version
unfolding get
get-peek c k version now = ground arith

pub peek-invalidate :
    (c : Cache) (k : Key) (version : ℤ) (now : ℕ) → peek (invalidate_host c k now) k version ≡ none
unfolding peek invalidate_host
peek-invalidate c k version now =
    let e = or_new now (Dict.get k c.entries) in
    rw (
      Dict.get-put k k (record e { state = none; generation = bump e.generation }) c.entries,
      (pair_eq.beq_iff k k).1 refl,
    )

-- Whatever state a poll is served after its host was invalidated was stored since, for that host and
-- at the version that the poll asks for.
pub served-since-invalidate :
    (history ops : List Op) (k : Key) (t : ℕ) (version : ℤ) (now : ℕ) (s : DesiredState)
    → (get (run ops (invalidate_host (run history new) k t)) k version now).0 ≡ some s
    → PutAmong k version s ops
served-since-invalidate history ops k t version now s h =
    let c = invalidate_host (run history new) k t in
    let d : HasDistinctKeys c =
      unfold step in
      step-IsDistinct (invalidate_op k t) (run history new) (run-IsDistinct history new tt) in
    elim (run-peek k version s ops c d (sym (get-peek (run ops c) k version now) ∙ h)) [
      | inl p ↦ absurd (cc (p, peek-invalidate (run history new) k version t))
      | inr p ↦ p
    ]

fresh-not-stale : (c : Cache) (k : Key) → is_stale c k (ticket c k) ≡ false
unfolding is_stale ticket
fresh-not-stale c k = ground arith

peek-stored :
    (c : Cache) (k : Key) (version version' : ℤ) (now : ℕ) (s : DesiredState)
    → peek (stored c k version s now) k version' ≡ (if version == version' then some s else none)
unfolding stored peek
peek-stored c k version version' now s = rw (
  Dict.get-put k k
      (record {
        config_version = version;
        state = some s;
        generation = generation_of k c.entries;
        last_used = now;
      })
      (reclaim now c).entries,
  (pair_eq.beq_iff k k).1 refl,
)

-- A fresh ticket is accepted, and what it stored is served at exactly the version that it was stored
-- for, whatever was in the cache, a full cache included.
pub put-fresh :
    (c : Cache) (k : Key) (version version' : ℤ) (now later : ℕ) (s : DesiredState)
    → let r = put_if_current c k (ticket c k) version s now in
      (r.1 ≡ true) × ((get r.0 k version' later).0 ≡ (if version == version' then some s else none))
unfolding put_if_current
put-fresh c k version version' now later s =
    rw (fresh-not-stale c k, put_if_current)
      (
        refl,
        get-peek (stored c k version s now) k version' later
            ∙ peek-stored c k version version' now s,
      )
