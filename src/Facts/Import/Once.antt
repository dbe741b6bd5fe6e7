-- ===== src/Facts/Import/Once.antt =====
-- No host is matched by two rows of an import.
use nsclient_fleet_server.Common.{
  ℕ, ◌+◌, true, false, ◌≡◌, refl, List, [], ◌∷◌, none, some, Option-cases, arith, nat_eq, eqb, any,
  eqb_iff, ◌⊎◌, inl, inr, ◌∙◌,
}
use nsclient_fleet_server.Common.Dict.{get, put, get-put}
use nsclient_fleet_server.Facts.Import.{
  KeyIndex, RowKey, Resolution, matched, Candidate, one, answered, candidate, resolve_rows_from,
  resolve_rows, by_hosts, lookup, keys, host, skipped,
}

-- The hosts that the rows are matched to, one for each matched row.
abbrev pub matched_hosts : List Resolution → List ℕ
matched_hosts [] = []
matched_hosts (matched h ∷ rs) = h ∷ matched_hosts rs
matched_hosts (_ ∷ rs) = matched_hosts rs

abbrev pub HasNoRepeats : List ℕ → Type 0
HasNoRepeats [] = Unit
HasNoRepeats (h ∷ hs) = (any (λ g. eqb g h) hs ≡ false) × HasNoRepeats hs

-- An answer that is given at once is no match.
abbrev IsSilent : Candidate → Type 0
IsSilent (one h) = Unit
IsSilent (answered r) = (rs : List Resolution) → matched_hosts (r ∷ rs) ≡ matched_hosts rs

by_hosts-IsSilent : (hs : List ℕ) → IsSilent (by_hosts hs)
by_hosts-IsSilent [] = λ rs. refl
by_hosts-IsSilent (h ∷ []) = tt
by_hosts-IsSilent (h ∷ g ∷ hs) = λ rs. refl

candidate-IsSilent : (index : KeyIndex) (row : RowKey) → IsSilent (candidate index row)
unfolding candidate
candidate-IsSilent index skipped = λ rs. refl
candidate-IsSilent index (host none) = λ rs. refl
candidate-IsSilent index (host (some h)) = tt
candidate-IsSilent index (keys ks) = by_hosts-IsSilent (lookup ks index)

Candidate-cases :
    (c : Candidate)
    → IsSilent c
    → ((h : ℕ) × (c ≡ one h))
      ⊎ ((r : Resolution) × (c ≡ answered r)
          × ((rs : List Resolution) → matched_hosts (r ∷ rs) ≡ matched_hosts rs))
Candidate-cases (one h) s = inl (h, refl)
Candidate-cases (answered r) s = inr (r, refl, s)

-- A host that has a first row is matched by no later one.
resolve_rows_from-seen :
    (index : KeyIndex) (seen : List (ℕ × ℕ)) (i : ℕ) (rows : List RowKey) (g j : ℕ)
    → get g seen ≡ some j
    → any (λ h. eqb h g) (matched_hosts (resolve_rows_from index seen i rows)) ≡ false
unfolding resolve_rows_from
resolve_rows_from-seen index seen i [] g j e = refl
resolve_rows_from-seen index seen i (row ∷ rows) g j e =
    elim (Candidate-cases (candidate index row) (candidate-IsSilent index row)) [
      | inr (r, c, silent) ↦
          rw (c, resolve_rows_from)
            (rw (silent (resolve_rows_from index seen (i + 1) rows))
              (resolve_rows_from-seen index seen (i + 1) rows g j e))
      | inl (h, c) ↦ elim (Option-cases (get h seen)) [
        | inr (k, f) ↦
            rw (c, resolve_rows_from) (rw f (resolve_rows_from-seen index seen (i + 1) rows g j e))
        | inl f ↦
            let later = resolve_rows_from-seen index (put h i seen) (i + 1) rows g in
            let ne : eqb h g ≡ false = ground (arith, eqb_iff h g) in
            let still : get g (put h i seen) ≡ some j = get-put h g i seen ∙ rw ne e in
            rw (c, resolve_rows_from) (rw f (rw ne (later j still)))
      ]
    ]

resolve_rows_from-HasNoRepeats :
    (index : KeyIndex) (seen : List (ℕ × ℕ)) (i : ℕ) (rows : List RowKey)
    → HasNoRepeats (matched_hosts (resolve_rows_from index seen i rows))
unfolding resolve_rows_from
resolve_rows_from-HasNoRepeats index seen i [] = tt
resolve_rows_from-HasNoRepeats index seen i (row ∷ rows) =
    elim (Candidate-cases (candidate index row) (candidate-IsSilent index row)) [
      | inr (r, c, silent) ↦
          rw (c, resolve_rows_from)
            (rw (silent (resolve_rows_from index seen (i + 1) rows))
              (resolve_rows_from-HasNoRepeats index seen (i + 1) rows))
      | inl (h, c) ↦ elim (Option-cases (get h seen)) [
        | inr (k, f) ↦
            rw (c, resolve_rows_from)
              (rw f (resolve_rows_from-HasNoRepeats index seen (i + 1) rows))
        | inl f ↦
            let same : eqb h h ≡ true = ground (arith, eqb_iff h h) in
            rw (c, resolve_rows_from)
              (rw f (
                resolve_rows_from-seen index (put h i seen) (i + 1) rows h i
                    (get-put h h i seen ∙ rw same refl),
                resolve_rows_from-HasNoRepeats index (put h i seen) (i + 1) rows,
              ))
      ]
    ]

-- Whatever the index and the rows are, no host is matched by two rows of an import: the second row
-- that resolves to a host is never a match.
pub resolve_rows-HasNoRepeats :
    (index : KeyIndex) (rows : List RowKey) → HasNoRepeats (matched_hosts (resolve_rows index rows))
unfolding resolve_rows
resolve_rows-HasNoRepeats index rows = resolve_rows_from-HasNoRepeats index [] 0 rows
