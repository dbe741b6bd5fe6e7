-- ===== src/Accounts/Owners/Updated.antt =====
-- `update_user` of crates/server/src/admin/platform.rs keeps the tenants' owners.
use nsclient_fleet_server.Common.{
  Bool, true, false, refl, sym, subst, Option, none, some, ◌||◌, ◌==◌, if◌then◌else◌,
}
use nsclient_fleet_server.Common.Int.{ℤ, int_eq}
use nsclient_fleet_server.Common.Text.{text_equality}
use nsclient_fleet_server.Common.Result.{ok, err, ◌>>=◌}
use nsclient_fleet_server.User.{User}
use nsclient_fleet_server.Accounts.{Accounts}
use nsclient_fleet_server.Accounts.Users.{get_any, set_blocked, set_platform_admin}
use nsclient_fleet_server.Accounts.Identify.{AuthedUser}
use nsclient_fleet_server.Accounts.Manage.{Environment, UserResponse, user_read}
use nsclient_fleet_server.Accounts.Platform.{
  UpdateUserBody, asks_nothing, platform_admin, note_blocked, note_admin, Step, updated,
  update_target,
}
use nsclient_fleet_server.Accounts.Platform
use nsclient_fleet_server.Accounts.Owners.Kept.{
  HasOwner, Keeps, either, record_audit-users, marked-HasOwner,
}

-- A change of `update_user`, whether it was made or failed.
abbrev StepKeeps : ℤ → Step → Type 0
StepKeeps t (ok s) = HasOwner t s.users
StepKeeps t (err a) = Keeps t a

unless_failed :
    (t : ℤ) (same failed : Bool) (r : UserResponse) (s after : Accounts)
    → HasOwner t s.users
    → HasOwner t after.users
    → StepKeeps t (if same then ok s else if failed then err (r, s) else ok after)
unless_failed t true failed r s after h k = h
unless_failed t false true r s after h k = h
unless_failed t false false r s after h k = k

note_blocked-Keeps :
    (t : ℤ) (env : Environment) (who : AuthedUser) (target : User) (u : ℤ) (b : Option Bool)
    (now : ℤ) (s : Accounts)
    → HasOwner t s.users
    → StepKeeps t (note_blocked env who target u b now s)
unfolding note_blocked set_blocked
note_blocked-Keeps t env who target u b now s h = unless_failed t _ _ _ s _ h (
    subst (λ x. HasOwner t x) (sym (record_audit-users env _ _ _ _ _ now _))
      (marked-HasOwner t _ _ (λ r. refl) (λ r. refl) (λ r. refl) s.users h))

note_admin-Keeps :
    (t : ℤ) (env : Environment) (who : AuthedUser) (target : User) (u : ℤ) (b : Option Bool)
    (now : ℤ) (s : Accounts)
    → HasOwner t s.users
    → StepKeeps t (note_admin env who target u b now s)
unfolding note_admin set_platform_admin
note_admin-Keeps t env who target u b now s h = unless_failed t _ _ _ s _ h (
    subst (λ x. HasOwner t x) (sym (record_audit-users env _ _ _ _ _ now _))
      (marked-HasOwner t _ _ (λ r. refl) (λ r. refl) (λ r. refl) s.users h))

then-Keeps :
    (t : ℤ) (m : Step) (f : Accounts → Step)
    → ((s : Accounts) → HasOwner t s.users → StepKeeps t (f s))
    → StepKeeps t m
    → StepKeeps t (m >>= f)
then-Keeps t (ok s) f k h = k s h
then-Keeps t (err a) f k h = h

updated-Keeps :
    (t : ℤ) (env : Environment) (u : ℤ) (m : Step) → StepKeeps t m → Keeps t (updated env u m)
updated-Keeps t env u (ok s) h = h
updated-Keeps t env u (err a) h = h

pub update_user-Keeps :
    (t : ℤ) (env : Environment) (who : AuthedUser) (u : ℤ) (body : UpdateUserBody) (now : ℤ)
    (s : Accounts)
    → HasOwner t s.users
    → Keeps t (Platform.update_user env who u body now s)
unfolding Platform.update_user
update_user-Keeps t env who u body now s h =
    either t (asks_nothing body || u == who.user_id) _ _ (λ _. h)
      (λ _. either t (env.fails user_read) _ _ (λ _. h) (λ _. go (get_any u s)))
  where
    go : (o : Option User) → Keeps t (update_target env who u body now s o)
    go none = h
    go (some target) = updated-Keeps t env u _ (
        then-Keeps t _ _ (note_admin-Keeps t env who target u body.platform_admin now)
          (note_blocked-Keeps t env who target u body.blocked now s h))
