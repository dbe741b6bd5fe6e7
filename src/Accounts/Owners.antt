-- ===== src/Accounts/Owners.antt =====
-- The owners of a tenant among the rows of users: what a statement on the one row of an id leaves.
pub mod Kept
pub mod Updated
pub mod Served
use nsclient_fleet_server.Common.{
  ℕ, ◌+◌, Bool, true, false, ◌≡◌, refl, any, List, [], ◌∷◌, Option, none, some, arith, ◌&&◌, ◌==◌,
  if◌then◌else◌,
}
use nsclient_fleet_server.Common.Int.{ℤ, int_eq, int_beq_iff}
use nsclient_fleet_server.Common.Text.{Text, codes, text_equality}
use nsclient_fleet_server.Storage.Table.{first, update, delete, count}
use nsclient_fleet_server.Accounts.{UserRow}
use nsclient_fleet_server.Accounts.Users.{is_user}
use nsclient_fleet_server.Accounts.Blocked.{has_number}

abbrev pub is_owner_of : ℤ → UserRow → Bool
is_owner_of t r = r.tenant_id == t && r.role == codes "owner"

unfoldable pub owners : ℤ → List UserRow → ℕ
owners t us = count (is_owner_of t) us

-- No two users have the same id.
unfoldable pub IsNumbered : List UserRow → Type 0
IsNumbered [] = Unit
IsNumbered (r ∷ us) = (any (has_number r.id) us ≡ false) × IsNumbered us

module _ (q : UserRow → Bool) where
  has_number-update :
      (f : UserRow → UserRow)
      → ((r : UserRow) → (f r).id ≡ r.id)
      → (u : ℤ) (us : List UserRow) → any (has_number u) (update q f us) ≡ any (has_number u) us
  unfolding update
  has_number-update f k u [] = refl
  has_number-update f k u (r ∷ us) = ground (arith, has_number-update f k u us, k r)

  pub update-IsNumbered :
      (f : UserRow → UserRow)
      → ((r : UserRow) → (f r).id ≡ r.id)
      → (us : List UserRow) → IsNumbered us
      → IsNumbered (update q f us)
  unfolding update IsNumbered
  update-IsNumbered f k [] d = tt
  update-IsNumbered f k (r ∷ us) d =
      ground (arith, update-IsNumbered f k us, has_number-update f k r.id us, k r)

  has_number-delete :
      (u : ℤ) (us : List UserRow)
      → any (has_number u) us ≡ false
      → any (has_number u) (delete q us) ≡ false
  unfolding delete
  has_number-delete u [] n = refl
  has_number-delete u (r ∷ us) n = ground (arith, has_number-delete u us)

  pub delete-IsNumbered : (us : List UserRow) → IsNumbered us → IsNumbered (delete q us)
  unfolding delete IsNumbered
  delete-IsNumbered [] d = tt
  delete-IsNumbered (r ∷ us) d = ground (arith, delete-IsNumbered us, has_number-delete r.id us)

  pub owners-update :
      (f : UserRow → UserRow)
      → ((r : UserRow) → (f r).tenant_id ≡ r.tenant_id)
      → ((r : UserRow) → (f r).role ≡ r.role)
      → (t : ℤ) (us : List UserRow) → owners t (update q f us) ≡ owners t us
  unfolding owners count update
  owners-update f k l t [] = refl
  owners-update f k l t (r ∷ us) = ground (arith, owners-update f k l t us, k r, l r)

-- Statements on the one row of an id.
module _ (v u : ℤ) where
  update-absent :
      (f : UserRow → UserRow) (us : List UserRow)
      → any (has_number u) us ≡ false
      → update (is_user v u) f us ≡ us
  unfolding update
  update-absent f [] n = refl
  update-absent f (r ∷ us) n = ground (arith, update-absent f us)

  delete-absent : (us : List UserRow) → any (has_number u) us ≡ false → delete (is_user v u) us ≡ us
  unfolding delete
  delete-absent [] n = refl
  delete-absent (r ∷ us) n = ground (arith, delete-absent us)

  pub owners-delete :
      (t : ℤ) (us : List UserRow) (r : UserRow)
      → IsNumbered us
      → first (is_user v u) us ≡ some r
      → owners t us ≡ (if is_owner_of t r then 1 else 0) + owners t (delete (is_user v u) us)
  unfolding owners count delete first IsNumbered
  owners-delete t [] r d e = cc
  owners-delete t (s ∷ us) r d e =
      ground (arith, owners-delete t us r, delete-absent us, int_beq_iff s.id u)

  pub owners-demote :
      (role : Text) (t : ℤ) (us : List UserRow) (r : UserRow)
      → (role == codes "owner") ≡ false
      → IsNumbered us
      → first (is_user v u) us ≡ some r
      → owners t us
        ≡ (if is_owner_of t r then 1 else 0)
          + owners t (update (is_user v u) (λ r. record r { role = role }) us)
  unfolding owners count update first IsNumbered
  owners-demote role t [] r n d e = cc
  owners-demote role t (s ∷ us) r n d e = ground (
    arith,
    owners-demote role t us r n,
    update-absent (λ r. record r { role = role }) us,
    int_beq_iff s.id u,
  )
