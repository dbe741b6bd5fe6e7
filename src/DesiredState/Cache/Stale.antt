-- ===== src/DesiredState/Cache/Stale.antt =====
-- A compute that began before its host was invalidated or forgotten never stores its result.
use nsclient_fleet_server.Common.{
  ℕ, ◌+◌, ◌<◌, true, false, ◌≡◌, refl, subst, ◌∙◌, ◌⊎◌, inl, inr, List, [], ◌∷◌, none, arith,
  length, pair_eq,
}
use nsclient_fleet_server.Common.Int.{ℤ, int_eq}
use nsclient_fleet_server.Common.Text.{text_equality}
use nsclient_fleet_server.Common.Dict
use nsclient_fleet_server.DesiredState.Bundle.{DesiredState}
use nsclient_fleet_server.DesiredState.Cache.{
  Key, Cache, Op, forget_op, invalidate_op, new, step, run, ticket, put_if_current, is_stale,
  forget_host, invalidate_host, present, generation_of, u64_mod, bump, or_new,
}
use nsclient_fleet_server.DesiredState.Cache.Order.{
  IsBounded, Later, Later-trans, Later-refl, step-Moves,
}
use nsclient_fleet_server.DesiredState.Cache.Generations.{
  generation_of-put, generation_or_new, generation_of-le,
}

-- What a run from a bounded cache comes to.
pub record RunMoves (n : ℕ) (k : Key) (ops : List Op) (c : Cache) : Type 0 where
  pub bounded : IsBounded (n + length ops) (run ops c)
  pub later : Later k c (run ops c)

pub run-Moves :
    (n : ℕ) (k : Key) (ops : List Op) (c : Cache)
    → IsBounded n c
    → n + length ops < u64_mod
    → RunMoves n k ops c
unfolding run
run-Moves n k [] c b l = record {
  bounded = subst (λ m. IsBounded m c) (omega arith) b;
  later = Later-refl k c;
}
run-Moves n k (o ∷ ops) c b l =
    let m = step-Moves n (omega arith) k c b o in
    let r = run-Moves (n + 1) k ops (step o c) m.bounded (omega arith) in
    record {
      bounded = subst (λ x. IsBounded x (run ops (step o c))) (omega arith) r.bounded;
      later = Later-trans k c (step o c) (run ops (step o c)) m.later r.later;
    }

new-IsBounded : IsBounded 0 new
new-IsBounded = record { epoch_bound = omega arith; entries_fit = tt }

-- The counters moved, so a ticket of before is refused and nothing is stored.
abbrev Moved : Key → Cache → Cache → Type 0
Moved k c c' =
    (c.epoch < c'.epoch)
    ⊎ ((c'.epoch ≡ c.epoch) × (generation_of k c.entries < generation_of k c'.entries))

Moved-refuses :
    (k : Key) (c c' : Cache) (version : ℤ) (s : DesiredState) (now : ℕ)
    → Moved k c c'
    → put_if_current c' k (ticket c k) version s now ≡ (c', false)
unfolding put_if_current is_stale ticket
Moved-refuses k c c' version s now m = ground arith

Later-Moved : (k : Key) (c d e f : Cache) → Later k c d → Moved k d e → Later k e f → Moved k c f
Later-Moved k c d e f h m l = ground arith

invalidate_host-Moved :
    (n : ℕ) (k : Key) (c : Cache) (now : ℕ)
    → IsBounded n c
    → n + 1 < u64_mod
    → Moved k c (invalidate_host c k now)
unfolding invalidate_host
invalidate_host-Moved n k c now b l =
    let e = or_new now (Dict.get k c.entries) in
    let g = bump e.generation in
    let p : generation_of k (Dict.put k (record e { state = none; generation = g }) c.entries) ≡ g =
      generation_of-put k k (record e { state = none; generation = g }) c.entries
      ∙ rw ((pair_eq.beq_iff k k).1 refl) in
    inr (
      refl,
      omega
          (arith, generation_or_new now k c.entries, generation_of-le n k c.entries b.entries_fit),
    )

forget_host-Moved :
    (n : ℕ) (k : Key) (c : Cache)
    → IsBounded n c
    → n + 1 < u64_mod
    → present (Dict.get k c.entries) ≡ true
    → Moved k c (forget_host c k)
unfolding forget_host
forget_host-Moved n k c b l p = rw (p, forget_host) (inl (omega (arith, b.epoch_bound)))

-- One step that moved the counters, with anything before and after it.
refused-after :
    (history before after : List Op) (o : Op) (k : Key) (version : ℤ) (now : ℕ) (s : DesiredState)
    → length history + length before + length after + 1 < u64_mod
    → ((n : ℕ)
        → IsBounded n (run before (run history new))
        → n + 1 < u64_mod
        → Moved k (run before (run history new)) (step o (run before (run history new))))
    → let c' = run after (step o (run before (run history new))) in
      put_if_current c' k (ticket (run history new) k) version s now ≡ (c', false)
refused-after history before after o k version now s l moved =
    let h = run-Moves 0 k history new new-IsBounded (omega arith) in
    let c = run history new in
    let n = 0 + length history in
    let b = run-Moves n k before c h.bounded (omega arith) in
    let d = run before c in
    let m = n + length before in
    let i = step-Moves m (omega arith) k d b.bounded o in
    let a = run-Moves (m + 1) k after (step o d) i.bounded (omega arith) in
    Moved-refuses k c (run after (step o d)) version s now (
      Later-Moved k c d (step o d) (run after (step o d)) b.later (moved m b.bounded (omega arith))
        a.later)

-- A ticket taken in a cache with any history is refused once its host has been invalidated,
-- whatever else was done to the cache before and after that: nothing is stored. The condition is
-- that fewer than 2^64 operations were made since the start.
pub stale-after-invalidate :
    (history before after : List Op) (k : Key) (t : ℕ) (version : ℤ) (now : ℕ) (s : DesiredState)
    → length history + length before + length after + 1 < u64_mod
    → let c = run history new in
      let c' = run after (invalidate_host (run before c) k t) in
      put_if_current c' k (ticket c k) version s now ≡ (c', false)
unfolding step
stale-after-invalidate history before after k t version now s l =
    refused-after history before after (invalidate_op k t) k version now s l
      (λ n. invalidate_host-Moved n k (run before (run history new)) t)

-- A ticket taken in a cache with any history is refused once its host had an entry and `forget_host`
-- dropped it, whatever else was done to the cache before and after that, even if the host was
-- invalidated again and its generation has come back to the ticket's. The condition is that fewer
-- than 2^64 operations were made since the start.
pub stale-after-forget :
    (history before after : List Op) (k : Key) (version : ℤ) (now : ℕ) (s : DesiredState)
    → length history + length before + length after + 1 < u64_mod
    → present (Dict.get k (run before (run history new)).entries) ≡ true
    → let c = run history new in
      let c' = run after (forget_host (run before c) k) in
      put_if_current c' k (ticket c k) version s now ≡ (c', false)
unfolding step
stale-after-forget history before after k version now s l p =
    refused-after history before after (forget_op k) k version now s l
      (λ n b r. forget_host-Moved n k (run before (run history new)) b r p)
