-- ===== src/DesiredState/Compute/Order.antt =====
-- The bundles of a desired state are those assigned, in the order of their priorities.
use mathlib.Core.List.{Perm}
use mathlib.Core.List.Perm
use nsclient_fleet_server.Common.{List, [], ◌∷◌, arith, All, Bool-cases, inl, inr}
use nsclient_fleet_server.Common.Int.{ℤ, leb_ℤ, ◌≤ℤ◌}
use nsclient_fleet_server.DesiredState.Bundle.{BundleRow}
use nsclient_fleet_server.DesiredState.Compute.{insert_by_priority, sort_by_priority}

abbrev pub Assigned : Type 0
Assigned = BundleRow × ℤ

-- Each priority is at most all that follow.
abbrev pub IsOrdered : List Assigned → Type 0
IsOrdered [] = Unit
IsOrdered (b ∷ bs) = All (λ (c : Assigned). b.1 ≤ℤ c.1) bs × IsOrdered bs

All-le :
    (m n : ℤ) (bs : List Assigned)
    → m ≤ℤ n
    → All (λ (c : Assigned). n ≤ℤ c.1) bs
    → All (λ (c : Assigned). m ≤ℤ c.1) bs
All-le m n [] h a = tt
All-le m n (b ∷ bs) h a = (omega arith, All-le m n bs h a.1)

All-insert :
    (m : ℤ) (b : Assigned) (bs : List Assigned)
    → m ≤ℤ b.1
    → All (λ (c : Assigned). m ≤ℤ c.1) bs
    → All (λ (c : Assigned). m ≤ℤ c.1) (insert_by_priority b bs)
unfolding insert_by_priority
All-insert m b [] h a = (h, tt)
All-insert m b (c ∷ cs) h a = elim (Bool-cases (leb_ℤ b.1 c.1)) [
  | inl e ↦ rw e (h, a)
  | inr e ↦ rw e (a.0, All-insert m b cs h a.1)
]

insert-IsOrdered :
    (b : Assigned) (bs : List Assigned) → IsOrdered bs → IsOrdered (insert_by_priority b bs)
unfolding insert_by_priority
insert-IsOrdered b [] h = (tt, tt)
insert-IsOrdered b (c ∷ cs) h = elim (Bool-cases (leb_ℤ b.1 c.1)) [
  | inl e ↦ rw e (((ground arith), All-le b.1 c.1 cs (ground arith) h.0), h)
  | inr e ↦ rw e (All-insert c.1 b cs (ground arith) h.0, insert-IsOrdered b cs h.1)
]

insert-Perm : (b : Assigned) (bs : List Assigned) → Perm (insert_by_priority b bs) (b ∷ bs)
unfolding insert_by_priority
insert-Perm b [] = Perm.refl (b ∷ [])
insert-Perm b (c ∷ cs) = elim (Bool-cases (leb_ℤ b.1 c.1)) [
  | inl e ↦ rw e (Perm.refl (b ∷ c ∷ cs))
  | inr e ↦ rw e (Perm.trans (Perm.cons c (insert-Perm b cs)) (Perm.swap b c cs))
]

-- The assignments that layer in the order of their priorities are all the assignments, each as often.
pub sort_by_priority-IsOrdered :
    (bs : List Assigned) → IsOrdered (sort_by_priority bs) × Perm (sort_by_priority bs) bs
unfolding sort_by_priority
sort_by_priority-IsOrdered [] = (tt, Perm.refl [])
sort_by_priority-IsOrdered (b ∷ bs) =
    let r = sort_by_priority-IsOrdered bs in
    (
      insert-IsOrdered b (sort_by_priority bs) r.0,
      Perm.trans (insert-Perm b (sort_by_priority bs)) (Perm.cons b r.1),
    )
