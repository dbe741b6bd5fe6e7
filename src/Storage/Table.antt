-- ===== src/Storage/Table.antt =====
-- Statements on a table of rows: what SELECT, UPDATE, DELETE and INSERT .. ON CONFLICT do to a list
-- of rows in the order of their rowid.
use nsclient_fleet_server.Common.{
  ℕ, Bool, true, false, ◌≡◌, refl, List, [], ◌∷◌, ◌++◌, Option, none, some, arith, keep, any,
  length, if◌then◌else◌,
}

module _ {ℓ} {R : Type ℓ} where
  -- SELECT .. WHERE p, first row
  unfoldable pub first : (R → Bool) → List R → Option R
  first p [] = none
  first p (r ∷ rs) = if p r then some r else first p rs

  -- UPDATE .. SET f WHERE p
  unfoldable pub update : (R → Bool) → (R → R) → List R → List R
  update p f [] = []
  update p f (r ∷ rs) = (if p r then f r else r) ∷ update p f rs

  -- DELETE .. WHERE p
  unfoldable pub delete : (R → Bool) → List R → List R
  delete p [] = []
  delete p (r ∷ rs) = let rest = delete p rs in if p r then rest else r ∷ rest

  -- `rows_affected`, or COUNT(*)
  unfoldable pub count : (R → Bool) → List R → ℕ
  count p rs = length (keep p rs)

  -- INSERT r .. ON CONFLICT(p) DO UPDATE SET f
  unfoldable pub upsert : (R → Bool) → (R → R) → R → List R → List R
  upsert p f r rs = if any p rs then update p f rs else rs ++ r ∷ []

  -- ORDER BY: a stable sort, where `before a b` asks for `a` to stand ahead of `b`.
  unfoldable pub insert_in_order : (R → R → Bool) → R → List R → List R
  insert_in_order before r [] = r ∷ []
  insert_in_order before r (s ∷ rs) =
      let rest = insert_in_order before r rs in if before s r then s ∷ rest else r ∷ s ∷ rs

  unfoldable pub order_by : (R → R → Bool) → List R → List R
  order_by before [] = []
  order_by before (r ∷ rs) = insert_in_order before r (order_by before rs)

  pub update-hit :
      (p : R → Bool) (f : R → R) (r : R) (rs : List R)
      → p r ≡ true
      → update p f (r ∷ rs) ≡ f r ∷ update p f rs
  unfolding update
  update-hit p f r rs e = ground (arith, e)

  pub update-miss :
      (p : R → Bool) (f : R → R) (r : R) (rs : List R)
      → p r ≡ false
      → update p f (r ∷ rs) ≡ r ∷ update p f rs
  unfolding update
  update-miss p f r rs e = ground (arith, e)

  pub delete-uncounted : (p : R → Bool) (rs : List R) → count p rs ≡ 0 → delete p rs ≡ rs
  unfolding delete count
  delete-uncounted p [] c = refl
  delete-uncounted p (r ∷ rs) c = ground (arith, delete-uncounted p rs)
