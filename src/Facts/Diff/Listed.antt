-- ===== src/Facts/Diff/Listed.antt =====
-- What is listed: at most as many changes as asked for, each under a path that a selector reads.
use nsclient_fleet_server.Common.{
  ℕ, ◌+◌, ◌≤◌, true, false, ◌≡◌, refl, subst, ◌⊎◌, inl, inr, List, [], ◌∷◌, ◌++◌, Option, some, All,
  length, length-append, arith, leb, Bool-cases, ◌∙◌, sym,
}
use nsclient_fleet_server.Common.Text.{Text}
use nsclient_fleet_server.Common.Result.{ok}
use nsclient_fleet_server.Json.{Value}
use nsclient_fleet_server.Path.Parse.{FactPath, parse, try_from}
use nsclient_fleet_server.Path.Spell.{child, pick}
use nsclient_fleet_server.Path.Children.{child-resolve, child-resolve_top, pick-resolve}
use nsclient_fleet_server.Facts.Diff.{
  ChangeKind, FactChange, FactsDiff, Differ, push, diff, depth, and_then_shown,
}
use nsclient_fleet_server.Facts.Diff.Keeps.{value-P}

-- The whole document, or a path that a selector may store.
abbrev pub IsSpelled : Text → Type 0
IsSpelled path = (path ≡ []) ⊎ ((to : FactPath) × (try_from path ≡ ok to))

try_from-parse : (path : Text) (to : FactPath) → try_from path ≡ ok to → parse path ≡ ok to
unfolding try_from
try_from-parse path to h = ground arith

child-IsSpelled : (path k p : Text) → IsSpelled path → child path k false ≡ some p → IsSpelled p
child-IsSpelled path k p (inl e) h =
    let c = child-resolve_top k p false (subst (λ x. child x k false ≡ some p) e h) in
    inr (c.0, c.1)
child-IsSpelled path k p (inr (from, e)) h =
    let c = child-resolve path k p false from (try_from-parse path from e) h in inr (c.0, c.1)

pick-IsSpelled : (path id p : Text) → IsSpelled path → pick path id ≡ some p → IsSpelled p
unfolding pick
pick-IsSpelled path id p (inl e) h = ground arith
pick-IsSpelled path id p (inr (from, e)) h =
    let c = pick-resolve path id p from (try_from-parse path from e) h in inr (c.0, c.1)

abbrev Spelled : List FactChange → Type 0
Spelled = All (λ c. IsSpelled c.path)

-- The list is within its limit, and changes are counted instead of listed only when it is full.
abbrev IsListed : ℕ → FactsDiff → Type 0
IsListed limit out =
    (length out.changes ≤ limit) × ((out.truncated ≡ 0) ⊎ (length out.changes ≡ limit))

abbrev Kept : ℕ → Differ → Type 0
Kept limit d = (d.max ≡ limit) × IsListed limit d.out × Spelled d.out.changes

Spelled-append : (cs es : List FactChange) → Spelled cs → Spelled es → Spelled (cs ++ es)
Spelled-append [] es h k = k
Spelled-append (c ∷ cs) es h k = (h.0, Spelled-append cs es h.1 k)

push-full :
    (path : Text) (kind : ChangeKind) (old new : Option Value) (d : Differ)
    → leb d.max (length d.out.changes) ≡ true
    → ((push path kind old new d).max ≡ d.max)
      × ((push path kind old new d).out.changes ≡ d.out.changes)
      × ((push path kind old new d).out.truncated ≡ d.out.truncated + 1)
unfolding push
push-full path kind old new d h = ground arith

push-room :
    (path : Text) (kind : ChangeKind) (old new : Option Value) (d : Differ)
    → leb d.max (length d.out.changes) ≡ false
    → (c : FactChange) × (((push path kind old new d).max ≡ d.max)
        × ((push path kind old new d).out.changes ≡ d.out.changes ++ c ∷ [])
        × ((push path kind old new d).out.truncated ≡ d.out.truncated)
        × (c.path ≡ path))
unfolding push
push-room path kind old new d h = (
  record { path = path; kind = kind; old = and_then_shown old; new = and_then_shown new },
  (rw h refl, rw h refl, rw h refl, refl),
)

push-Kept :
    (limit : ℕ) (path : Text) (kind : ChangeKind) (old new : Option Value) (d : Differ)
    → IsSpelled path
    → Kept limit d
    → Kept limit (push path kind old new d)
push-Kept limit path kind old new d q k = elim (Bool-cases (leb d.max (length d.out.changes))) [
  | inl full ↦
      let f = push-full path kind old new d full in
      (f.0 ∙ k.0, ground (arith, f.1, f.2), subst Spelled (sym (f.1)) (k.2))
  | inr room ↦
      let f = push-room path kind old new d room in
      (
        f.1.0 ∙ k.0,
        ground (arith, f.1.1, f.1.2, length-append d.out.changes (f.0 ∷ [])),
        subst Spelled (sym (f.1.1))
            (Spelled-append d.out.changes (f.0 ∷ []) (k.2) (subst IsSpelled (sym (f.1.3)) q, tt)),
      )
]

-- The differences of two documents are at most as many as the limit, and some are counted as
-- truncated only if exactly as many as the limit are listed. Every listed change stands under the
-- empty path, which is the whole document, or under one that reads back as a fact path within
-- the selector's length limit.
pub diff-listed :
    (old new : Value) (limit : ℕ)
    → (length (diff old new limit).changes ≤ limit)
      × (((diff old new limit).truncated ≡ 0) ⊎ (length (diff old new limit).changes ≡ limit))
      × All (λ c. IsSpelled c.path) (diff old new limit).changes
unfolding diff
diff-listed old new limit =
    let start : Differ = record {
      out = record { changes = []; truncated = 0 };
      max = limit;
      at_parent = [];
    } in
    let k =
      value-P IsSpelled (Kept limit) child-IsSpelled pick-IsSpelled (push-Kept limit)
        (λ path d p. p) (depth old) [] old new start (inl refl)
        (refl, (omega arith, inl refl), tt) in
    (k.1.0, k.1.1, k.2)
