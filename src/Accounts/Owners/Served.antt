-- ===== src/Accounts/Owners/Served.antt =====
-- The handlers of crates/server/src/admin/users.rs and platform.rs that change users, in any order.
use nsclient_fleet_server.Common.{
  ◌≤◌, true, ◌≡◌, refl, List, [], ◌∷◌, Option, none, some, arith, not as negate, ◌&&◌, ◌||◌, ◌==◌,
  leb,
}
use nsclient_fleet_server.Common.Int.{ℤ, int_eq}
use nsclient_fleet_server.Common.Text.{text_equality}
use nsclient_fleet_server.Common.Result.{Result, ok, err}
use nsclient_fleet_server.User.{User, Role, owner, role_eq, is_assignable, can_manage_users}
use nsclient_fleet_server.Accounts.{Accounts}
use nsclient_fleet_server.Accounts.Users.{count_owners, get_any, get_user}
use nsclient_fleet_server.Accounts.Identify.{AuthedUser}
use nsclient_fleet_server.Accounts.Manage.{
  Environment, Answered, UserResponse, record_audit, changed, deleted, role_of_target, role_write,
  user_read, owners_read, user_delete, delete_target, unauthorized,
}
use nsclient_fleet_server.Accounts.Manage
use nsclient_fleet_server.Accounts.Platform.{
  UpdateUserBody, asks_nothing, platform_admin, note_blocked, note_admin, Step, updated,
  update_target,
}
use nsclient_fleet_server.Accounts.Platform
use nsclient_fleet_server.Accounts.Owners.{owners, IsNumbered}
use nsclient_fleet_server.Accounts.Owners.Kept.{
  HasOwner, Keeps, either, record_audit-users, changed-Keeps, deleted-Keeps, set_role-HasOwner,
  user-HasOwner, any-HasOwner,
}
use nsclient_fleet_server.Accounts.Owners.Updated.{update_user-Keeps}

pub data Change : Type 0 where
  set_role_change : Option AuthedUser → ℤ → Role → Change
  delete_change : Option AuthedUser → ℤ → Change
  update_change : Option AuthedUser → ℤ → UpdateUserBody → Change
  platform_delete_change : Option AuthedUser → ℤ → Change

-- `AuthedUser::from_request_parts`
abbrev by_user : (AuthedUser → Accounts → Answered) → Option AuthedUser → Accounts → Answered
by_user f none s = (unauthorized, s)
by_user f (some who) s = f who s

abbrev by_admin :
    (AuthedUser → Accounts → Answered) → Result AuthedUser UserResponse → Accounts → Answered
by_admin f (err r) s = (r, s)
by_admin f (ok who) s = f who s

unfoldable pub serve : Environment → ℤ → Change → Accounts → Answered
serve env now (set_role_change caller u role) s =
    by_user (λ who s. Manage.set_role env who u role now s) caller s
serve env now (delete_change caller u) s =
    by_user (λ who s. Manage.delete_user env who u now s) caller s
serve env now (update_change caller u body) s =
    by_admin (λ who s. Platform.update_user env who u body now s) (platform_admin caller) s
serve env now (platform_delete_change caller u) s =
    by_admin (λ who s. Platform.delete_user env who u now s) (platform_admin caller) s

unfoldable pub serve_all : List (Environment × ℤ × Change) → Accounts → Accounts
serve_all [] s = s
serve_all ((env, now, req) ∷ reqs) s = serve_all reqs (serve env now req s).1

set_role-Keeps :
    (t : ℤ) (env : Environment) (who : AuthedUser) (u : ℤ) (role : Role) (now : ℤ) (s : Accounts)
    → HasOwner t s.users
    → Keeps t (Manage.set_role env who u role now s)
unfolding Manage.set_role
set_role-Keeps t env who u role now s h =
    either t (negate (can_manage_users who.role)) _ _ (λ _. h)
      (λ _.
        either t (negate (is_assignable role) || u == who.user_id) _ _ (λ _. h)
          (λ a.
            either t (env.fails user_read) _ _ (λ _. h)
              (λ _. go (ground (arith, a)) (get_user who.tenant_id u s) refl)))
  where
    go :
        is_assignable role ≡ true
        → (o : Option User) → get_user who.tenant_id u s ≡ o
        → Keeps t (role_of_target env who u role now s o)
    go a none e = h
    go a (some target) e =
        either t (role_eq target.role owner) _ _ (λ _. h)
          (λ o.
            either t (env.fails role_write) _ _ (λ _. h)
              (λ _.
                changed-Keeps t _ (λ s. record_audit-users env _ _ _ _ _ now s) _
                  (set_role-HasOwner t who.tenant_id u role s target a e o h)))

delete_user-Keeps :
    (t : ℤ) (env : Environment) (who : AuthedUser) (u : ℤ) (now : ℤ) (s : Accounts)
    → HasOwner t s.users
    → Keeps t (Manage.delete_user env who u now s)
unfolding Manage.delete_user
delete_user-Keeps t env who u now s h =
    either t (negate (can_manage_users who.role)) _ _ (λ _. h)
      (λ _.
        either t (u == who.user_id) _ _ (λ _. h)
          (λ _.
            either t (env.fails user_read) _ _ (λ _. h)
              (λ _. go (get_user who.tenant_id u s) refl)))
  where
    go :
        (o : Option User)
        → get_user who.tenant_id u s ≡ o
        → Keeps t (delete_target env who u now s o)
    go none e = h
    go (some target) e =
        either t (role_eq target.role owner) _ _ (λ _. h)
          (λ o.
            either t (env.fails user_delete) _ _ (λ _. h)
              (λ _.
                deleted-Keeps t _ (λ s. record_audit-users env _ _ _ _ _ now s) _
                  (user-HasOwner t who.tenant_id u s target e o h)))

platform_delete-Keeps :
    (t : ℤ) (env : Environment) (who : AuthedUser) (u : ℤ) (now : ℤ) (s : Accounts)
    → HasOwner t s.users
    → Keeps t (Platform.delete_user env who u now s)
unfolding Platform.delete_user
platform_delete-Keeps t env who u now s h =
    either t (u == who.user_id) _ _ (λ _. h)
      (λ _. either t (env.fails user_read) _ _ (λ _. h) (λ _. go (get_any u s) refl))
  where
    go : (o : Option User) → get_any u s ≡ o → Keeps t (Platform.delete_target env who u now s o)
    go none e = h
    go (some target) e =
        either t (role_eq target.role owner && env.fails owners_read) _ _ (λ _. h)
          (λ _.
            either t (role_eq target.role owner && leb (count_owners target.tenant_id s) 1) _ _
              (λ _. h)
              (λ o.
                either t (env.fails user_delete) _ _ (λ _. h)
                  (λ _.
                    deleted-Keeps t _ (λ s. record_audit-users env _ _ _ _ _ now s) _
                      (any-HasOwner t u s target e o h))))

serve-Keeps :
    (t : ℤ) (env : Environment) (now : ℤ) (req : Change) (s : Accounts)
    → HasOwner t s.users
    → Keeps t (serve env now req s)
unfolding serve
serve-Keeps t env now (set_role_change none u role) s h = h
serve-Keeps t env now (set_role_change (some who) u role) s h =
    set_role-Keeps t env who u role now s h
serve-Keeps t env now (delete_change none u) s h = h
serve-Keeps t env now (delete_change (some who) u) s h = delete_user-Keeps t env who u now s h
serve-Keeps t env now (update_change caller u body) s h = go (platform_admin caller)
  where
    go :
        (r : Result AuthedUser UserResponse)
        → Keeps t (by_admin (λ who s. Platform.update_user env who u body now s) r s)
    go (err r) = h
    go (ok who) = update_user-Keeps t env who u body now s h
serve-Keeps t env now (platform_delete_change caller u) s h = go (platform_admin caller)
  where
    go :
        (r : Result AuthedUser UserResponse)
        → Keeps t (by_admin (λ who s. Platform.delete_user env who u now s) r s)
    go (err r) = h
    go (ok who) = platform_delete-Keeps t env who u now s h

-- Every tenant keeps an owner: whatever requests to change a role, to block, promote or delete a user
-- are served, one after another, by the tenants' users and the platform console, from anybody, at any
-- times and with any failures of the store, a tenant that had an owner has one after them. The ids of
-- the users, the table's primary key, are distinct at the start.
pub serve_all-owner :
    (reqs : List (Environment × ℤ × Change)) (t : ℤ) (s : Accounts)
    → IsNumbered s.users
    → 1 ≤ count_owners t s
    → 1 ≤ count_owners t (serve_all reqs s)
unfolding count_owners serve_all HasOwner owners
serve_all-owner reqs t s d h = (go reqs s (d, h)).1
  where
    go :
        (reqs : List (Environment × ℤ × Change)) (s : Accounts)
        → HasOwner t s.users
        → HasOwner t (serve_all reqs s).users
    go [] s h = h
    go ((env, now, req) ∷ reqs) s h =
        go reqs (serve env now req s).1 (serve-Keeps t env now req s h)
