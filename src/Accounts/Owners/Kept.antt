-- ===== src/Accounts/Owners/Kept.antt =====
-- A tenant keeps an owner over each write of a user, crates/storage/src/repos/users.rs, and over what
-- the handlers make of its answer.
use nsclient_fleet_server.Common.{
  ◌≤◌, Bool, true, false, ◌≡◌, refl, sym, ap, ◌∙◌, subst, List, [], ◌∷◌, Option, some, arith, ◌&&◌,
  ◌==◌, if◌then◌else◌, Bool-cases, inl, inr, leb, ltb,
}
use nsclient_fleet_server.Common.Int.{ℤ, int_eq, int_beq_iff}
use nsclient_fleet_server.Common.Text.{Text, codes, text_equality, text_eq}
use nsclient_fleet_server.Common.Result.{Result, ok, err}
use nsclient_fleet_server.Json.{Fields}
use nsclient_fleet_server.User.{
  User, Role, owner, admin, add_hosts, view_only, role_eq, from_db, as_db, is_assignable,
}
use nsclient_fleet_server.Storage.{StoreError}
use nsclient_fleet_server.Storage.Hosts.{map_option}
use nsclient_fleet_server.Storage.Table.{first, update, count}
use nsclient_fleet_server.Accounts.{Accounts, UserRow}
use nsclient_fleet_server.Accounts.Users.{
  count_owners, detach, get_any, get_user, is_user, map_user, set_blocked, set_platform_admin,
  is_referenced,
}
use nsclient_fleet_server.Accounts.Users
use nsclient_fleet_server.Accounts.Blocked.Layer.{mapped}
use nsclient_fleet_server.Accounts.Manage.{Environment, Answered, record_audit, changed, deleted}
use nsclient_fleet_server.Accounts.Owners.{
  is_owner_of, owners, IsNumbered, update-IsNumbered, delete-IsNumbered, owners-update,
  owners-delete, owners-demote,
}

-- The ids are distinct, and the tenant has an owner.
unfoldable pub HasOwner : ℤ → List UserRow → Type 0
HasOwner t us = IsNumbered us × (1 ≤ owners t us)

-- What an answer leaves.
abbrev pub Keeps : ℤ → Answered → Type 0
Keeps t a = HasOwner t a.1.users

pub either :
    (t : ℤ) (b : Bool) (x y : Answered)
    → (b ≡ true → Keeps t x)
    → (b ≡ false → Keeps t y)
    → Keeps t (if b then x else y)
either t true x y h k = h refl
either t false x y h k = k refl

pub record_audit-users :
    (env : Environment) (u v : ℤ) (action : Text) (target : ℤ) (metadata : Fields) (now : ℤ)
    (s : Accounts)
    → (record_audit env u v action target metadata now s).users ≡ s.users
unfolding record_audit
record_audit-users env u v action target metadata now s = ground arith

pub changed-Keeps :
    (t : ℤ) (audit : Accounts → Accounts)
    → ((s : Accounts) → (audit s).users ≡ s.users)
    → (r : Bool × Accounts) → HasOwner t r.1.users
    → Keeps t (changed audit r)
changed-Keeps t audit k (true, s) h = subst (λ x. HasOwner t x) (sym (k s)) h
changed-Keeps t audit k (false, s) h = h

pub deleted-Keeps :
    (t : ℤ) (audit : Accounts → Accounts)
    → ((s : Accounts) → (audit s).users ≡ s.users)
    → (r : Result Bool StoreError × Accounts) → HasOwner t r.1.users
    → Keeps t (deleted audit r)
deleted-Keeps t audit k (ok b, s) h = changed-Keeps t audit k (b, s) h
deleted-Keeps t audit k (err e, s) h = h

role_owner : (r : UserRow) → role_eq (map_user r).role owner ≡ (r.role == codes "owner")
unfolding map_user from_db
role_owner r = ground arith

assignable-role : (r : Role) → is_assignable r ≡ true → (as_db r == codes "owner") ≡ false
unfolding is_assignable as_db text_eq
assignable-role owner e = cc
assignable-role admin e = refl
assignable-role add_hosts e = refl
assignable-role view_only e = refl

-- The row behind a user that was read.
pub row_of_target :
    (o : Option UserRow) (target : User)
    → map_option map_user o ≡ some target
    → (r : UserRow) × (o ≡ some r)
      × (role_eq target.role owner ≡ (r.role == codes "owner"))
      × (target.tenant_id ≡ r.tenant_id)
unfolding map_user
row_of_target o target h =
    let (r, n, e) = mapped o target h in
    (
      r,
      n,
      ap (λ (x : User). role_eq x.role owner) (sym e) ∙ role_owner r,
      ap (λ (x : User). x.tenant_id) (sym e),
    )

pub set_role-HasOwner :
    (t v u : ℤ) (role : Role) (s : Accounts) (target : User)
    → is_assignable role ≡ true
    → get_user v u s ≡ some target
    → role_eq target.role owner ≡ false
    → HasOwner t s.users
    → HasOwner t (Users.set_role v u role s).1.users
unfolding get_user Users.set_role HasOwner
set_role-HasOwner t v u role s target a g o (d, h) =
    let (r, n, e, k) = row_of_target (first (is_user v u) s.users) target g in
    (
      update-IsNumbered (is_user v u) (λ r. record r { role = as_db role }) (λ r. refl) s.users d,
      ground
          (arith, e, o, h, owners-demote v u (as_db role) t s.users r (assignable-role role a) d n),
    )

-- Deleting a user leaves an owner if the user is none, or one of two.
pub delete_user-HasOwner :
    (t v u : ℤ) (s : Accounts) (r : UserRow)
    → first (is_user v u) s.users ≡ some r
    → (is_owner_of t r ≡ true → 2 ≤ owners t s.users)
    → HasOwner t s.users
    → HasOwner t (Users.delete_user v u s).1.users
unfolding Users.delete_user HasOwner detach
delete_user-HasOwner t v u s r n two (d, h) =
    elim (Bool-cases (ltb 0 (count (is_user v u) s.users) && is_referenced u (detach v u s))) [
      | inl e ↦ ground (arith, e, d, h)
      | inr e ↦ ground (
        arith,
        e,
        delete-IsNumbered (is_user v u) s.users d,
        owners-delete v u t s.users r d n,
        two,
        h,
      )
    ]

pub marked-HasOwner :
    (t : ℤ) (q : UserRow → Bool) (f : UserRow → UserRow)
    → ((r : UserRow) → (f r).id ≡ r.id)
    → ((r : UserRow) → (f r).tenant_id ≡ r.tenant_id)
    → ((r : UserRow) → (f r).role ≡ r.role)
    → (us : List UserRow) → HasOwner t us
    → HasOwner t (update q f us)
unfolding HasOwner
marked-HasOwner t q f i k l us (d, h) =
    (update-IsNumbered q f i us d, ground (arith, h, owners-update q f k l t us))

-- The user that a handler read is no owner, or one of two.
pub user-HasOwner :
    (t v u : ℤ) (s : Accounts) (target : User)
    → get_user v u s ≡ some target
    → role_eq target.role owner ≡ false
    → HasOwner t s.users
    → HasOwner t (Users.delete_user v u s).1.users
unfolding get_user
user-HasOwner t v u s target g o h =
    let (r, n, e, k) = row_of_target (first (is_user v u) s.users) target g in
    delete_user-HasOwner t v u s r n (λ m. absurd (ground (arith, m, e, o))) h

first-user :
    (u : ℤ) (us : List UserRow) (r : UserRow)
    → first (λ r. r.id == u) us ≡ some r
    → first (is_user r.tenant_id u) us ≡ some r
unfolding first
first-user u [] r e = cc
first-user u (s ∷ us) r e = ground (arith, first-user u us r, int_beq_iff s.tenant_id r.tenant_id)

pub any-HasOwner :
    (t u : ℤ) (s : Accounts) (target : User)
    → get_any u s ≡ some target
    → (role_eq target.role owner && leb (count_owners target.tenant_id s) 1) ≡ false
    → HasOwner t s.users
    → HasOwner t (Users.delete_user target.tenant_id u s).1.users
unfolding get_any owners count_owners
any-HasOwner t u s target g o h =
    let (r, n, e, k) = row_of_target (first (λ r. r.id == u) s.users) target g in
    rw k (
      delete_user-HasOwner t r.tenant_id u s r (first-user u s.users r n)
        (λ m. two r k (subst (λ x. (x && leb (count_owners target.tenant_id s) 1) ≡ false) e o) m)
        h)
  where
    two :
        (r : UserRow)
        → target.tenant_id ≡ r.tenant_id
        → (r.role == codes "owner" && leb (count_owners target.tenant_id s) 1) ≡ false
        → is_owner_of t r ≡ true
        → 2 ≤ owners t s.users
    two r k c m =
        let same : target.tenant_id ≡ t = k ∙ (int_beq_iff r.tenant_id t).0 (ground (arith, m)) in
        subst (λ x. 2 ≤ owners x s.users) same (ground (arith, c, m))
