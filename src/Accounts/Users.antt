-- ===== src/Accounts/Users.antt =====
-- `UserRepo` of crates/storage/src/repos/users.rs. A new user's id is the rowid that SQLite picks, one
-- that is not in use; it is an argument.
use nsclient_fleet_server.Common.{
  ℕ, Bool, true, false, not as negate, List, [], ◌∷◌, ◌++◌, Option, none, some, ◌&&◌, ◌||◌, ◌==◌,
  any, map, keep, if◌then◌else◌, eqb, ltb,
}
use nsclient_fleet_server.Common.Int.{ℤ, pos, ltb_ℤ, int_eq}
use nsclient_fleet_server.Common.Text.{Text, codes, text_equality}
use nsclient_fleet_server.Common.Result.{ok, err}
use nsclient_fleet_server.User.{User, Role, from_db, as_db}
use nsclient_fleet_server.Storage.{unique, foreign_key}
use nsclient_fleet_server.Storage.Table.{first, update, delete, count, order_by}
use nsclient_fleet_server.Storage.Hosts.{map_option}
use nsclient_fleet_server.Accounts.{Accounts, UserRow, Reply, of_user}

unfoldable pub map_user : UserRow → User
map_user r = record {
  id = r.id;
  tenant_id = r.tenant_id;
  email = r.email;
  role = from_db r.role;
  blocked_at = r.blocked_at;
  is_platform_admin = negate (r.is_platform_admin == pos 0);
  created_at = r.created_at;
}

abbrev pub is_user : ℤ → ℤ → UserRow → Bool
is_user t u r = r.tenant_id == t && r.id == u

abbrev pub new_user : ℤ → Text → Role → ℤ → ℤ → UserRow
new_user tenant_id email role id now = record {
  id = id;
  tenant_id = tenant_id;
  email = email;
  role = as_db role;
  blocked_at = none;
  is_platform_admin = pos 0;
  created_at = now;
}

-- INSERT INTO users: the email is UNIQUE over all tenants.
unfoldable pub create_user : ℤ → Text → Role → ℤ → ℤ → Accounts → Reply User
create_user tenant_id email role id now s =
    if any (λ r. r.email == email || r.id == id) s.users
    then (err unique, s)
    else if any (λ t. t == tenant_id) s.tenants
    then (
      ok record {
        id = id;
        tenant_id = tenant_id;
        email = email;
        role = role;
        blocked_at = none;
        is_platform_admin = false;
        created_at = now;
      },
      record s { users = s.users ++ new_user tenant_id email role id now ∷ [] },
    )
    else (err foreign_key, s)

unfoldable list_users : ℤ → Accounts → List User
list_users tenant_id s = map map_user (
    order_by (λ a b. ltb_ℤ a.created_at b.created_at)
      (keep (λ r. r.tenant_id == tenant_id) s.users))

unfoldable pub get_any : ℤ → Accounts → Option User
get_any user_id s = map_option map_user (first (λ r. r.id == user_id) s.users)

-- `blocked.then(now_unix)`
abbrev pub then_now : Bool → ℤ → Option ℤ
then_now true now = some now
then_now false now = none

unfoldable pub set_blocked : ℤ → Bool → ℤ → Accounts → Bool × Accounts
set_blocked user_id blocked now s = (
  eqb (count (λ r. r.id == user_id) s.users) 1,
  record s {
    users =
        update (λ r. r.id == user_id) (λ r. record r { blocked_at = then_now blocked now }) s.users;
    sessions = if blocked then delete (λ c. c.user_id == user_id) s.sessions else s.sessions;
  },
)

-- `i64::from(bool)`
abbrev as_int : Bool → ℤ
as_int true = pos 1
as_int false = pos 0

unfoldable pub set_platform_admin : ℤ → Bool → Accounts → Bool × Accounts
set_platform_admin user_id is_admin s = (
  eqb (count (λ r. r.id == user_id) s.users) 1,
  record s {
    users =
        update (λ r. r.id == user_id) (λ r. record r { is_platform_admin = as_int is_admin })
          s.users;
  },
)

abbrev is_promoted : Text → UserRow → Bool
is_promoted email r = r.email == email && r.is_platform_admin == pos 0

unfoldable pub promote_platform_admin_by_email : Text → Accounts → Option ℤ × Accounts
promote_platform_admin_by_email email s = (
  map_option (λ (r : UserRow). r.id) (first (is_promoted email) s.users),
  record s {
    users = update (is_promoted email) (λ r. record r { is_platform_admin = pos 1 }) s.users;
  },
)

unfoldable pub count_owners : ℤ → Accounts → ℕ
count_owners tenant_id s = count (λ r. r.tenant_id == tenant_id && r.role == codes "owner") s.users

unfoldable pub set_role : ℤ → ℤ → Role → Accounts → Bool × Accounts
set_role tenant_id user_id role s = (
  eqb (count (is_user tenant_id user_id) s.users) 1,
  record s {
    users = update (is_user tenant_id user_id) (λ r. record r { role = as_db role }) s.users;
  },
)

-- A nullable reference that is to the user; NULL is equal to nothing.
abbrev pub names : Option ℤ → ℤ → Bool
names none u = false
names (some v) u = v == u

-- The six statements ahead of the user's own.
unfoldable pub detach : ℤ → ℤ → Accounts → Accounts
detach t u s = record s {
  sessions = delete (λ c. of_user t u c.tenant_id c.user_id) s.sessions;
  magic_links = delete (λ c. of_user t u c.tenant_id c.user_id) s.magic_links;
  api_keys = delete (λ c. of_user t u c.tenant_id c.user_id) s.api_keys;
  audit_log =
      update (λ r. r.tenant_id == t && names r.user_id u) (λ r. record r { user_id = none })
        s.audit_log;
  host_overrides =
      update (λ r. r.tenant_id == t && names r.updated_by_user u)
        (λ r. record r { updated_by_user = none }) s.host_overrides;
  platform_settings =
      update (λ r. names r.updated_by_user u) (λ r. record r { updated_by_user = none })
        s.platform_settings;
}

-- A row of another table still refers to the user.
unfoldable pub is_referenced : ℤ → Accounts → Bool
is_referenced u s =
    any (λ c. c.user_id == u) s.sessions
    || any (λ c. c.user_id == u) s.magic_links
    || any (λ c. c.user_id == u) s.api_keys
    || any (λ r. names r.user_id u) s.audit_log
    || any (λ r. names r.updated_by_user u) s.host_overrides
    || any (λ r. names r.updated_by_user u) s.platform_settings

-- DELETE FROM users is refused, and the transaction with it, while a row refers to the user.
unfoldable pub delete_user : ℤ → ℤ → Accounts → Reply Bool
delete_user tenant_id user_id s =
    let detached = detach tenant_id user_id s in
    let matched = count (is_user tenant_id user_id) s.users in
    if ltb 0 matched && is_referenced user_id detached then (err foreign_key, s) else (
      ok (eqb matched 1),
      record detached { users = delete (is_user tenant_id user_id) s.users },
    )

unfoldable pub get_user : ℤ → ℤ → Accounts → Option User
get_user tenant_id user_id s = map_option map_user (first (is_user tenant_id user_id) s.users)

unfoldable pub find_by_email : Text → Accounts → Option User
find_by_email email s = map_option map_user (first (λ r. r.email == email) s.users)
