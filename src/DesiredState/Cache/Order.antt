-- ===== src/DesiredState/Cache/Order.antt =====
-- The pair of the epoch and a host's generation only moves up: an operation that drops entries moves
-- the epoch. Before 2^64 operations neither counter wraps.
use nsclient_fleet_server.Common.{
  ℕ, suc, ◌+◌, ◌≤◌, ◌<◌, ◌≡◌, refl, ap, ◌∙◌, ltb, ◌⊎◌, inl, inr, none, some, arith, leb, length,
  if◌then◌else◌, ◌==◌, pair_eq, Bool-cases, Option-cases,
}
use nsclient_fleet_server.Common.Int.{ℤ, int_eq}
use nsclient_fleet_server.Common.Text.{text_equality}
use nsclient_fleet_server.Common.Dict
use nsclient_fleet_server.DesiredState.Bundle.{DesiredState}
use nsclient_fleet_server.DesiredState.Cache.{
  Key, Entry, Cache, CacheTicket, Op, get_op, put_op, forget_op, invalidate_op, step, get, touch,
  put_if_current, forget_host, invalidate_host, reclaim, sweep, generation_of, u64_mod, bump, peek,
  is_stale, stored, or_new, max_entries,
}
use nsclient_fleet_server.DesiredState.Cache.Generations.{
  Fits, Fits-mono, Fits-put, Fits-remove, Fits-sweep, Fits-touch, generation_of-le,
  generation_of-put, generation_of-touch, generation_or_new, length-sweep,
}

pub record IsBounded (n : ℕ) (c : Cache) : Type 0 where
  pub epoch_bound : c.epoch ≤ n
  pub entries_fit : Fits n c.entries

-- The counters of a host after some operations, against those before.
abbrev pub Later : Key → Cache → Cache → Type 0
Later k c c' =
    (c.epoch < c'.epoch)
    ⊎ ((c'.epoch ≡ c.epoch) × (generation_of k c.entries ≤ generation_of k c'.entries))

pub Later-refl : (k : Key) (c : Cache) → Later k c c
Later-refl k c = inr (refl, omega arith)

pub Later-trans : (k : Key) (c d e : Cache) → Later k c d → Later k d e → Later k c e
Later-trans k c d e h g = ground arith

-- A step keeps the counters below the number of steps made, and moves a host's pair only up.
pub record Moves (n : ℕ) (k : Key) (c c' : Cache) : Type 0 where
  pub bounded : IsBounded (n + 1) c'
  pub later : Later k c c'

module _ (n : ℕ) (room : n + 1 < u64_mod) (k : Key) (c : Cache) (b : IsBounded n c) where
  same-counters :
      (c' : Cache)
      → c'.epoch ≡ c.epoch
      → Fits n c'.entries
      → generation_of k c'.entries ≡ generation_of k c.entries
      → Moves n k c c'
  same-counters c' e f g = record {
    bounded = record {
      epoch_bound = omega (arith, b.epoch_bound);
      entries_fit = Fits-mono n (n + 1) c'.entries (omega arith) f;
    };
    later = inr (e, omega arith);
  }

  next-epoch : (c' : Cache) → c'.epoch ≡ bump c.epoch → Fits n c'.entries → Moves n k c c'
  next-epoch c' e f = record {
    bounded = record {
      epoch_bound = omega (arith, b.epoch_bound);
      entries_fit = Fits-mono n (n + 1) c'.entries (omega arith) f;
    };
    later = inl (omega (arith, b.epoch_bound));
  }

  get-Moves : (j : Key) (version : ℤ) (now : ℕ) → Moves n k c (get c j version now).1
  unfolding get
  get-Moves j version now = elim (Option-cases (peek c j version)) [
    | inl e ↦
        rw (e, get) (same-counters (record c { misses = bump c.misses }) refl b.entries_fit refl)
    | inr (s, e) ↦
        rw (e, get)
          (same-counters
            (record c {
              entries = touch now (Dict.get j c.entries) j c.entries;
              hits = bump c.hits;
            })
            refl (Fits-touch n now j (Dict.get j c.entries) c.entries refl b.entries_fit)
            (generation_of-touch now k j (Dict.get j c.entries) c.entries refl))
  ]

  reclaim-Moves : (now : ℕ) → Moves n k c (reclaim now c)
  unfolding reclaim
  reclaim-Moves now = elim (Bool-cases (leb max_entries (length c.entries))) [
    | inl e ↦
        rw (e, reclaim)
          (next-epoch
            (record c {
              entries = sweep now c.entries;
              epoch =
                  if ltb (length (sweep now c.entries)) (length c.entries)
                  then bump c.epoch
                  else c.epoch;
            })
            (ground (arith, length-sweep now c.entries)) (Fits-sweep n now c.entries b.entries_fit))
    | inr e ↦ rw (e, reclaim) (same-counters c refl b.entries_fit refl)
  ]

  forget_host-Moves : (j : Key) → Moves n k c (forget_host c j)
  unfolding forget_host
  forget_host-Moves j = elim (Option-cases (Dict.get j c.entries)) [
    | inl e ↦ rw (e, forget_host) (same-counters c refl b.entries_fit refl)
    | inr (d, e) ↦
        rw (e, forget_host)
          (next-epoch (record c { entries = Dict.remove j c.entries; epoch = bump c.epoch }) refl
            (Fits-remove n j c.entries b.entries_fit))
  ]

  -- A write of one entry after the move, with the generation that its host had before or the next.
  put-Moves :
      (j : Key) (e : Entry) (c' : Cache)
      → Moves n k c c'
      → (e.generation ≡ generation_of j c.entries)
        ⊎ (e.generation ≡ suc (generation_of j c.entries))
      → Moves n k c (record c' { entries = Dict.put j e c'.entries })
  put-Moves j e c' m g = record {
    bounded = record {
      epoch_bound = m.bounded.epoch_bound;
      entries_fit =
          Fits-put (n + 1) j e c'.entries
            (omega (arith, generation_of-le n j c.entries b.entries_fit)) m.bounded.entries_fit;
    };
    later = elim (Bool-cases (j == k)) [
      | inl same ↦
          (let p = ap (λ x. generation_of x c.entries) ((pair_eq.beq_iff j k).0 same) in
            let q : generation_of k (Dict.put j e c'.entries) ≡ e.generation =
              generation_of-put j k e c'.entries ∙ rw same in
            let l = m.later in omega arith)
      | inr other ↦
          (let q : generation_of k (Dict.put j e c'.entries) ≡ generation_of k c'.entries =
              generation_of-put j k e c'.entries ∙ rw other in
            let l = m.later in omega arith)
    ];
  }

  put_if_current-Moves :
      (j : Key) (t : CacheTicket) (version : ℤ) (s : DesiredState) (now : ℕ)
      → Moves n k c (put_if_current c j t version s now).0
  unfolding put_if_current stored
  put_if_current-Moves j t version s now = elim (Bool-cases (is_stale c j t)) [
    | inl e ↦ rw (e, put_if_current) (same-counters c refl b.entries_fit refl)
    | inr e ↦
        rw (e, put_if_current)
          (put-Moves j
            (record {
              config_version = version;
              state = some s;
              generation = generation_of j c.entries;
              last_used = now;
            })
            (reclaim now c) (reclaim-Moves now) (inl refl))
  ]

  invalidate_host-Moves : (j : Key) (now : ℕ) → Moves n k c (invalidate_host c j now)
  unfolding invalidate_host
  invalidate_host-Moves j now =
      let e = or_new now (Dict.get j c.entries) in
      put-Moves j (record e { state = none; generation = bump e.generation }) c
        (same-counters c refl b.entries_fit refl)
        (inr (
          omega (
            arith,
            generation_or_new now j c.entries,
            generation_of-le n j c.entries b.entries_fit,
          )))

  pub step-Moves : (o : Op) → Moves n k c (step o c)
  unfolding step
  step-Moves (get_op j version now) = get-Moves j version now
  step-Moves (put_op j t version s now) = put_if_current-Moves j t version s now
  step-Moves (forget_op j) = forget_host-Moves j
  step-Moves (invalidate_op j now) = invalidate_host-Moves j now
