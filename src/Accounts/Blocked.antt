-- ===== src/Accounts/Blocked.antt =====
-- A blocked user stays blocked, whatever else crates/storage/src/repos/users.rs is asked.
pub mod Layer
use nsclient_fleet_server.Common.{
  Bool, true, false, ◌≡◌, ◌≢◌, refl, all, any, all-append, List, [], ◌∷◌, ◌++◌, Option, none, some,
  arith, ap, subst, sym, ◌∙◌, if◌then◌else◌, not as negate, ◌&&◌, ◌||◌, ◌==◌, eqb, ltb, Bool-cases,
  Option-cases, ◌≤◌, inl, inr,
}
use nsclient_fleet_server.Common.Int.{ℤ, int_eq, int_beq_iff}
use nsclient_fleet_server.Common.Text.{Text, text_equality}
use nsclient_fleet_server.Common.Dict
use nsclient_fleet_server.User.{User, is_blocked}
use nsclient_fleet_server.Storage.Table.{first, update, delete, count}
use nsclient_fleet_server.Storage.Rows.{all-delete}
use nsclient_fleet_server.Storage.Hosts.{map_option}
use nsclient_fleet_server.Accounts.{Accounts, UserRow, Session}
use nsclient_fleet_server.Accounts.Users.{
  create_user, delete_user, detach, get_user, is_user, is_referenced, new_user, then_now, map_user,
  promote_platform_admin_by_email, set_blocked, set_platform_admin, set_role,
}
use nsclient_fleet_server.Accounts.Credentials.{
  create_key, create_link, create_session, delete_expired_links, delete_expired_sessions,
  delete_for_user, ApiKey, find_by_hash, delete_key, delete_session, redeem, touch_session,
  touch_last_used,
}
use nsclient_fleet_server.Accounts.Identify.{
  AuthedUser, Credential, Environment, unblocked, user_read, Request, session_layer, from_session,
  from_api_key, as_authed, noted, bearer_token, by_token, by_cookie, session_cookie_name,
  session_touch, session_user, session, api_key, key_user, key_read,
}
use nsclient_fleet_server.Accounts.Calls.{
  Call, admin_call, block_call, call, create_call, delete_call, delete_key_call, expire_links_call,
  expire_sessions_call, key_call, key_used_call, link_call, promote_call, redeem_call, role_call,
  run, session_call, sign_out_all_call, sign_out_call, touch_call,
}

abbrev pub given : Option ℤ → Bool
given none = false
given (some t) = true

abbrev pub has_number : ℤ → UserRow → Bool
has_number u r = r.id == u

abbrev pub is_barred : ℤ → UserRow → Bool
is_barred u r = negate (r.id == u) || given r.blocked_at

-- The user is there, and blocked.
abbrev pub is_shut_out : ℤ → List UserRow → Bool
is_shut_out u users = any (has_number u) users && all (is_barred u) users

any-update :
    (p q : UserRow → Bool) (f : UserRow → UserRow)
    → ((r : UserRow) → p (f r) ≡ p r)
    → (rs : List UserRow) → any p (update q f rs) ≡ any p rs
unfolding update
any-update p q f k [] = refl
any-update p q f k (r ∷ rs) = ground (arith, any-update p q f k rs, k r)

all-update :
    (p q : UserRow → Bool) (f : UserRow → UserRow)
    → ((r : UserRow) → q r ≡ true → p r ≡ true → p (f r) ≡ true)
    → (rs : List UserRow) → all p rs ≡ true
    → all p (update q f rs) ≡ true
unfolding update
all-update p q f k [] h = refl
all-update p q f k (r ∷ rs) h = ground (arith, all-update p q f k rs, k r)

any-delete :
    (p q : UserRow → Bool)
    → ((r : UserRow) → q r ≡ true → p r ≡ false)
    → (rs : List UserRow) → any p (delete q rs) ≡ any p rs
unfolding delete
any-delete p q k [] = refl
any-delete p q k (r ∷ rs) = ground (arith, any-delete p q k rs, k r)

any-append :
    (p : UserRow → Bool) (rs : List UserRow) (r : UserRow)
    → any p rs ≡ true
    → any p (rs ++ r ∷ []) ≡ true
any-append p [] r k = ground (arith, k)
any-append p (s ∷ rs) r k = ground (arith, any-append p rs r)

pub first-all :
    (p q : UserRow → Bool) (rs : List UserRow) (r : UserRow)
    → all q rs ≡ true
    → first p rs ≡ some r
    → (p r ≡ true) × (q r ≡ true)
unfolding first
first-all p q [] r k h = cc
first-all p q (s ∷ rs) r k h = ground (arith, first-all p q rs r)

update-shut_out :
    (u : ℤ) (q : UserRow → Bool) (f : UserRow → UserRow)
    → ((r : UserRow) → (f r).id ≡ r.id)
    → ((r : UserRow) → q r ≡ true → is_barred u r ≡ true → is_barred u (f r) ≡ true)
    → (rs : List UserRow) → is_shut_out u rs ≡ true
    → is_shut_out u (update q f rs) ≡ true
update-shut_out u q f k m rs h = ground (
  arith,
  any-update (has_number u) q f (λ r. ap (λ v. v == u) (k r)) rs,
  all-update (is_barred u) q f m rs,
)

delete-shut_out :
    (u : ℤ) (q : UserRow → Bool)
    → ((r : UserRow) → q r ≡ true → has_number u r ≡ false)
    → (rs : List UserRow) → is_shut_out u rs ≡ true
    → is_shut_out u (delete q rs) ≡ true
delete-shut_out u q k rs h =
    ground (arith, any-delete (has_number u) q k rs, all-delete (is_barred u) q rs)

append-shut_out :
    (u : ℤ) (rs : List UserRow) (r : UserRow)
    → has_number u r ≡ false
    → is_shut_out u rs ≡ true
    → is_shut_out u (rs ++ r ∷ []) ≡ true
append-shut_out u rs r n h = ground (
  arith,
  h,
  any-append (has_number u) rs r (ground (arith, h)),
  all-append (is_barred u) rs (r ∷ []),
  n,
)

pub set_blocked-shut_out :
    (u : ℤ) (now : ℤ) (s : Accounts)
    → (set_blocked u true now s).0 ≡ true
    → is_shut_out u (set_blocked u true now s).1.users ≡ true
unfolding set_blocked count update
set_blocked-shut_out u now s k = blocked s.users (ground (arith, k))
  where
    counted : (rs : List UserRow) → 1 ≤ count (has_number u) rs → any (has_number u) rs ≡ true
    counted [] e = absurd (omega arith)
    counted (r ∷ rs) e = ground (arith, counted rs)

    barred :
        (rs : List UserRow)
        → all (is_barred u) (update (has_number u) (λ r. record r { blocked_at = some now }) rs)
          ≡ true
    barred [] = refl
    barred (r ∷ rs) = ground (arith, barred rs)

    blocked :
        (rs : List UserRow)
        → eqb (count (has_number u) rs) 1 ≡ true
        → is_shut_out u (update (has_number u) (λ r. record r { blocked_at = some now }) rs) ≡ true
    blocked rs e = ground (
      arith,
      any-update (has_number u) (has_number u) (λ r. record r { blocked_at = some now }) (λ r. refl)
          rs,
      counted rs,
      barred rs,
    )

-- Calls that may end a block: unblocking the user, or deleting the account.
abbrev pub is_lifting : ℤ → Call → Bool
is_lifting u (block_call v b) = v == u && negate b
is_lifting u (delete_call t v) = v == u
is_lifting u _ = false

has_number-new :
    (u : ℤ) (email : Text) (id : ℤ) (rs : List UserRow)
    → any (λ r. r.email == email || r.id == id) rs ≡ false
    → any (has_number u) rs ≡ true
    → (id == u) ≡ false
has_number-new u email id [] n k = ground arith
has_number-new u email id (r ∷ rs) n k =
    ground (
      arith,
      has_number-new u email id rs,
      int_beq_iff r.id u,
      int_beq_iff id u,
      int_beq_iff r.id id,
    )

blocks :
    (v : ℤ) (b : Bool) (u : ℤ) (r : UserRow) (now : ℤ)
    → (v == u && negate b) ≡ false
    → (r.id == v) ≡ true
    → is_barred u r ≡ true
    → is_barred u (record r { blocked_at = then_now b now }) ≡ true
blocks v true u r now l m n = ground arith
blocks v false u r now l m n =
    ground (arith, l, m, int_beq_iff r.id u, int_beq_iff r.id v, int_beq_iff v u)

other : (v u w t x : ℤ) → (v == u) ≡ false → (x == t && w == v) ≡ true → (w == u) ≡ false
other v u w t x l m = ground (arith, l, m, int_beq_iff v u, int_beq_iff w v, int_beq_iff w u)

call-shut_out :
    (now : ℤ) (c : Call) (u : ℤ) (s : Accounts)
    → is_lifting u c ≡ false
    → is_shut_out u s.users ≡ true
    → is_shut_out u (call now c s).1.users ≡ true
unfolding call create_user create_key create_link create_session delete_expired_links
    delete_expired_sessions delete_for_user delete_key delete_session delete_user detach
    promote_platform_admin_by_email redeem set_blocked set_platform_admin set_role touch_session
    touch_last_used
call-shut_out now (create_call t email role id) u s l k =
    elim (Bool-cases (any (λ r. r.email == email || r.id == id) s.users)) [
      | inl e ↦ ground (arith, e, k)
      | inr e ↦ ground (
        arith,
        e,
        k,
        append-shut_out u s.users (new_user t email role id now)
            (has_number-new u email id s.users e (ground (arith, k))),
      )
    ]
call-shut_out now (block_call v b) u s l k =
    update-shut_out u _ _ (λ r. refl) (λ r m n. blocks v b u r now l m n) s.users k
call-shut_out now (admin_call v b) u s l k =
    update-shut_out u _ _ (λ r. refl) (λ r m n. n) s.users k
call-shut_out now (promote_call email) u s l k =
    update-shut_out u _ _ (λ r. refl) (λ r m n. n) s.users k
call-shut_out now (role_call t v role) u s l k =
    update-shut_out u _ _ (λ r. refl) (λ r m n. n) s.users k
call-shut_out now (delete_call t v) u s l k =
    elim (Bool-cases (ltb 0 (count (is_user t v) s.users) && is_referenced v (detach t v s))) [
      | inl e ↦ ground (arith, e, k)
      | inr e ↦ ground (
        arith,
        e,
        k,
        delete-shut_out u (is_user t v) (λ r m. other v u r.id t r.tenant_id l m) s.users k,
      )
    ]
call-shut_out now (link_call hash t v e) u s l k = ground (arith, k)
call-shut_out now (redeem_call hash) u s l k = k
call-shut_out now expire_links_call u s l k = k
call-shut_out now (key_call id t v name hash prefix e) u s l k = ground (arith, k)
call-shut_out now (key_used_call id) u s l k = k
call-shut_out now (delete_key_call t v id) u s l k = k
call-shut_out now (session_call hash t v ttl) u s l k = ground (arith, k)
call-shut_out now (touch_call hash idle) u s l k = k
call-shut_out now (sign_out_call hash) u s l k = k
call-shut_out now (sign_out_all_call t v) u s l k = k
call-shut_out now (expire_sessions_call idle) u s l k = k

pub run-shut_out :
    (calls : List (ℤ × Call)) (u : ℤ) (s : Accounts)
    → all (λ c. negate (is_lifting u c.1)) calls ≡ true
    → is_shut_out u s.users ≡ true
    → is_shut_out u (run calls s).users ≡ true
unfolding run
run-shut_out [] u s l k = k
run-shut_out ((now, c) ∷ calls) u s l k =
    run-shut_out calls u (call now c s).1 (ground (arith, l))
      (call-shut_out now c u s (ground (arith, l)) k)
