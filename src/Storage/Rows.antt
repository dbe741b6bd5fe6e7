-- ===== src/Storage/Rows.antt =====
-- Tables with a primary key: what each statement leaves under a key.
use nsclient_fleet_server.Common.{
  Bool, true, false, ◌≡◌, refl, List, [], ◌∷◌, ◌++◌, Option, none, some, ◌==◌, any, keep, all,
  Bool-cases, inl, inr, if◌then◌else◌, ◌≤◌, arith,
}
use nsclient_fleet_server.Common.Text.{Text, text_equality, text_eq_iff}
use nsclient_fleet_server.Storage.Table.{first, update, delete, count}
use nsclient_fleet_server.Storage.Hosts.{map_option}

module _ {R : Type 0} (p q : R → Bool) where
  pub all-update :
      (f : R → R) (keeps : (r : R) → p r ≡ true → p (f r) ≡ true) (rs : List R)
      → all p rs ≡ true
      → all p (update q f rs) ≡ true
  unfolding update
  all-update f keeps [] h = refl
  all-update f keeps (r ∷ rs) h = ground (arith, all-update f keeps rs, keeps r)

  pub all-delete : (rs : List R) → all p rs ≡ true → all p (delete q rs) ≡ true
  unfolding delete
  all-delete [] h = refl
  all-delete (r ∷ rs) h = ground (arith, all-delete rs)

-- What a statement on other rows leaves of the rows that `p` picks.
module _ {R : Type 0} (p q : R → Bool) (apart : (r : R) → q r ≡ true → p r ≡ false) where
  pub keep-update :
      (f : R → R)
      → ((r : R) → q r ≡ true → p (f r) ≡ false)
      → (rs : List R) → keep p (update q f rs) ≡ keep p rs
  unfolding update
  keep-update f k [] = refl
  keep-update f k (r ∷ rs) = ground (arith, keep-update f k rs, apart r, k r)

  pub keep-delete : (rs : List R) → keep p (delete q rs) ≡ keep p rs
  unfolding delete
  keep-delete [] = refl
  keep-delete (r ∷ rs) = ground (arith, keep-delete rs, apart r)

pub keep-append :
    {R : Type 0} (p : R → Bool) (rs : List R) (r : R)
    → p r ≡ false
    → keep p (rs ++ r ∷ []) ≡ keep p rs
keep-append p [] r e = ground (arith, e)
keep-append p (s ∷ rs) r e = ground (arith, keep-append p rs r e)

module _ {R : Type 0} (key : R → Text) where
  -- The row of a key.
  abbrev pub row_of : Text → List R → Option R
  row_of k rs = first (λ r. key r == k) rs

  abbrev pub has_key : Text → List R → Bool
  has_key k rs = any (λ r. key r == k) rs

  -- No two rows have the same key.
  unfoldable pub IsKeyed : List R → Type 0
  IsKeyed [] = Unit
  IsKeyed (r ∷ rs) = (has_key (key r) rs ≡ false) × IsKeyed rs

  pub row_of-absent : (k : Text) (rs : List R) → has_key k rs ≡ false → row_of k rs ≡ none
  unfolding first
  row_of-absent k [] h = refl
  row_of-absent k (r ∷ rs) h = ground (arith, row_of-absent k rs)

  pub row_of-key : (k : Text) (rs : List R) (r : R) → row_of k rs ≡ some r → key r ≡ k
  unfolding first
  row_of-key k [] r h = cc
  row_of-key k (s ∷ rs) r h = ground (arith, row_of-key k rs r, text_eq_iff (key s) k)

  pub row_of-append :
      (k : Text) (rs : List R) (r : R)
      → has_key (key r) rs ≡ false
      → row_of k (rs ++ r ∷ []) ≡ (if key r == k then some r else row_of k rs)
  unfolding first
  row_of-append k [] r h = refl
  row_of-append k (s ∷ rs) r h = ground (
    arith,
    row_of-append k rs r,
    text_eq_iff (key r) k,
    text_eq_iff (key s) k,
    text_eq_iff (key s) (key r),
  )

  has_key-append :
      (k : Text) (rs : List R) (r : R)
      → has_key k rs ≡ false
      → (key r == k) ≡ false
      → has_key k (rs ++ r ∷ []) ≡ false
  has_key-append k [] r h n = ground arith
  has_key-append k (s ∷ rs) r h n = ground (arith, has_key-append k rs r)

  pub append-IsKeyed :
      (rs : List R) (r : R) → has_key (key r) rs ≡ false → IsKeyed rs → IsKeyed (rs ++ r ∷ [])
  unfolding IsKeyed
  append-IsKeyed [] r h d = (refl, tt)
  append-IsKeyed (s ∷ rs) r h d = ground (
    arith,
    append-IsKeyed rs r,
    has_key-append (key s) rs r,
    text_eq_iff (key s) (key r),
    text_eq_iff (key r) (key s),
  )

  module _ (q : R → Bool) (f : R → R) (same : (r : R) → key (f r) ≡ key r) where
    pub row_of-update :
        (k : Text) (rs : List R)
        → row_of k (update q f rs) ≡ map_option (λ r. if q r then f r else r) (row_of k rs)
    unfolding first update
    row_of-update k [] = refl
    row_of-update k (r ∷ rs) = ground (arith, row_of-update k rs, same r)

    has_key-update : (k : Text) (rs : List R) → has_key k (update q f rs) ≡ has_key k rs
    unfolding update
    has_key-update k [] = refl
    has_key-update k (r ∷ rs) = ground (arith, has_key-update k rs, same r)

    pub update-IsKeyed : (rs : List R) → IsKeyed rs → IsKeyed (update q f rs)
    unfolding update IsKeyed
    update-IsKeyed [] d = tt
    update-IsKeyed (r ∷ rs) d = ground (arith, update-IsKeyed rs, has_key-update (key r) rs, same r)

  module _ (q : R → Bool) where
    has_key-delete :
        (k : Text) (rs : List R) → has_key k rs ≡ false → has_key k (delete q rs) ≡ false
    unfolding delete
    has_key-delete k [] h = refl
    has_key-delete k (r ∷ rs) h = ground (arith, has_key-delete k rs)

    pub delete-IsKeyed : (rs : List R) → IsKeyed rs → IsKeyed (delete q rs)
    unfolding delete IsKeyed
    delete-IsKeyed [] d = tt
    delete-IsKeyed (r ∷ rs) d = ground (arith, delete-IsKeyed rs, has_key-delete (key r) rs)

    -- What DELETE leaves of a row.
    abbrev spare : Option R → Option R
    spare none = none
    spare (some r) = if q r then none else some r

    pub row_of-delete :
        (k : Text) (rs : List R) → IsKeyed rs → row_of k (delete q rs) ≡ spare (row_of k rs)
    unfolding first delete IsKeyed
    row_of-delete k [] d = refl
    row_of-delete k (r ∷ rs) d = ground (
      arith,
      row_of-delete k rs,
      has_key-delete k rs,
      row_of-absent k (delete q rs),
      text_eq_iff (key r) k,
      has_key-delete (key r) rs,
      row_of-absent (key r) (delete q rs),
    )

    counted_later :
        (k : Text) (r : R) (rs : List R)
        → IsKeyed (r ∷ rs)
        → q r ≡ false
        → (u : R) × (row_of k rs ≡ some u) × (q u ≡ true)
        → (u : R) × (row_of k (r ∷ rs) ≡ some u) × (q u ≡ true)
    unfolding first IsKeyed
    counted_later k r rs d e (u, h, t) =
        (u, ground (arith, text_eq_iff (key r) k, row_of-absent k rs), t)

    -- A statement that names a key and touches a row touches the row of the key.
    pub row_of-counted :
        (k : Text) (rs : List R)
        → ((r : R) → q r ≡ true → key r ≡ k)
        → IsKeyed rs
        → 1 ≤ count q rs
        → (r : R) × (row_of k rs ≡ some r) × (q r ≡ true)
    unfolding first count IsKeyed
    row_of-counted k [] n d h = absurd (omega arith)
    row_of-counted k (r ∷ rs) n d h = elim (Bool-cases (q r)) [
      | inl e ↦ (r, ground (arith, text_eq_iff (key r) k, n r e), e)
      | inr e ↦ counted_later k r rs d e (row_of-counted k rs n d.1 (ground (arith, e, h)))
    ]

    pub row_of-uncounted :
        (k : Text) (rs : List R) (r : R) → count q rs ≡ 0 → row_of k rs ≡ some r → q r ≡ false
    unfolding first count
    row_of-uncounted k [] r c h = cc
    row_of-uncounted k (s ∷ rs) r c h = ground (arith, row_of-uncounted k rs r)
