-- ===== src/Accounts/Once.antt =====
-- A magic link buys one sign-in: `MagicLinkRepo` of crates/storage/src/repos/users.rs.
use nsclient_fleet_server.Common.{
  ℕ, suc, ◌≤◌, Bool, true, false, ◌≡◌, refl, all, any, List, [], ◌∷◌, ◌++◌, Option, none, some,
  arith, not as negate, ◌&&◌, ◌==◌, if◌then◌else◌, Bool-cases, Option-cases, ltb, inl, inr,
}
use nsclient_fleet_server.Common.Int.{ℤ}
use nsclient_fleet_server.Common.Text.{Text, text_equality, text_eq_iff}
use nsclient_fleet_server.Storage.Table.{first, update, delete, count}
use nsclient_fleet_server.Storage.Rows.{IsKeyed, has_key}
use nsclient_fleet_server.Storage.Hosts.{map_option}
use nsclient_fleet_server.Accounts.{Accounts, MagicLinkRow, of_user}
use nsclient_fleet_server.Accounts.Users.{
  create_user, delete_user, detach, is_user, is_referenced, promote_platform_admin_by_email,
  set_blocked, set_platform_admin, set_role,
}
use nsclient_fleet_server.Accounts.Credentials.{
  create_key, create_link, create_session, delete_expired_links, delete_expired_sessions,
  delete_for_user, delete_key, delete_session, new_link, is_open, is_redeemable, redeem,
  touch_session, touch_last_used,
}
use nsclient_fleet_server.Accounts.Calls.{
  Call, admin_call, block_call, call, create_call, delete_call, delete_key_call, expire_links_call,
  expire_sessions_call, key_call, key_used_call, link_call, promote_call, redeem_call, role_call,
  session_call, sign_out_all_call, sign_out_call, touch_call,
}

-- The calls that mint a link of the hash, and those that redeem it.
abbrev is_minting : Text → Call → Bool
is_minting h (link_call hash t u e) = hash == h
is_minting h _ = false

abbrev is_redeeming : Text → Call → Bool
is_redeeming h (redeem_call hash) = hash == h
is_redeeming h _ = false

-- How often a sequence of calls redeems the hash with success.
unfoldable pub redemptions : Text → List (ℤ × Call) → Accounts → ℕ
redemptions h [] s = 0
redemptions h ((now, c) ∷ calls) s =
    let later = redemptions h calls (call now c s).1 in
    if (call now c s).0 && is_redeeming h c then suc later else later

unfoldable opens : Text → List MagicLinkRow → ℕ
opens h ls = count (is_open h) ls

opens-append :
    (h : Text) (ls : List MagicLinkRow) (l : MagicLinkRow)
    → (l.token_hash == h) ≡ false
    → opens h (ls ++ l ∷ []) ≡ opens h ls
unfolding opens count
opens-append h [] l n = ground (arith, n)
opens-append h (m ∷ ls) l n = ground (arith, opens-append h ls l)

opens-delete :
    (h : Text) (q : MagicLinkRow → Bool) (ls : List MagicLinkRow)
    → opens h (delete q ls) ≤ opens h ls
unfolding opens count delete
opens-delete h q [] = omega arith
opens-delete h q (m ∷ ls) = ground (arith, opens-delete h q ls)

abbrev given : Option (ℤ × ℤ) → Bool
given (some p) = true
given none = false

abbrev redeemed : ℤ → MagicLinkRow → MagicLinkRow
redeemed now l = record l { used_at = some now }

-- Redeeming opens nothing, and what it answers of a hash was open.
opens-redeem :
    (h hash : Text) (now : ℤ) (ls : List MagicLinkRow)
    → opens h (update (is_redeemable hash now) (redeemed now) ls) ≤ opens h ls
unfolding opens count update
opens-redeem h hash now [] = omega arith
opens-redeem h hash now (m ∷ ls) = ground (arith, opens-redeem h hash now ls)

opens-redeemed :
    (h : Text) (now : ℤ) (ls : List MagicLinkRow) (l : MagicLinkRow)
    → first (is_redeemable h now) ls ≡ some l
    → suc (opens h (update (is_redeemable h now) (redeemed now) ls)) ≤ opens h ls
unfolding opens count update first
opens-redeemed h now [] l e = cc
opens-redeemed h now (m ∷ ls) l e =
    ground (arith, opens-redeemed h now ls l, opens-redeem h h now ls)

redeem-opens :
    (h : Text) (now : ℤ) (ls : List MagicLinkRow)
    → (if given (map_option (λ l. (l.tenant_id, l.user_id)) (first (is_redeemable h now) ls))
          && h == h
        then suc (opens h (update (is_redeemable h now) (redeemed now) ls))
        else opens h (update (is_redeemable h now) (redeemed now) ls))
      ≤ opens h ls
redeem-opens h now ls = elim (Option-cases (first (is_redeemable h now) ls)) [
  | inl e ↦ ground (arith, e, opens-redeem h h now ls)
  | inr (l, e) ↦ ground (arith, e, opens-redeemed h now ls l e, opens-redeem h h now ls)
]

call-opens :
    (now : ℤ) (c : Call) (h : Text) (s : Accounts)
    → is_minting h c ≡ false
    → (if (call now c s).0 && is_redeeming h c
        then suc (opens h (call now c s).1.magic_links)
        else opens h (call now c s).1.magic_links)
      ≤ opens h s.magic_links
unfolding call create_user create_key create_link create_session delete_expired_links
    delete_expired_sessions delete_for_user delete_key delete_session delete_user detach
    promote_platform_admin_by_email redeem set_blocked set_platform_admin set_role touch_session
    touch_last_used
call-opens now (create_call t email role id) h s n = ground arith
call-opens now (block_call v b) h s n = ground arith
call-opens now (admin_call v b) h s n = ground arith
call-opens now (promote_call email) h s n = ground arith
call-opens now (role_call t v role) h s n = ground arith
call-opens now (delete_call t v) h s n =
    elim (Bool-cases (ltb 0 (count (is_user t v) s.users) && is_referenced v (detach t v s))) [
      | inl e ↦ ground (arith, e)
      | inr e ↦
          ground (arith, e, opens-delete h (λ l. of_user t v l.tenant_id l.user_id) s.magic_links)
    ]
call-opens now (link_call hash t v e) h s n =
    ground (arith, n, opens-append h s.magic_links (new_link hash t v e now) n)
call-opens now (redeem_call hash) h s n = elim (Bool-cases (hash == h)) [
  | inl e ↦ rw ((text_eq_iff hash h).0 e) (redeem-opens h now s.magic_links)
  | inr e ↦ ground (arith, e, opens-redeem h hash now s.magic_links)
]
call-opens now expire_links_call h s n = opens-delete h _ s.magic_links
call-opens now (key_call id t v name hash prefix e) h s n = ground arith
call-opens now (key_used_call id) h s n = ground arith
call-opens now (delete_key_call t v id) h s n = ground arith
call-opens now (session_call hash t v ttl) h s n = ground arith
call-opens now (touch_call hash idle) h s n = ground arith
call-opens now (sign_out_call hash) h s n = ground arith
call-opens now (sign_out_all_call t v) h s n = ground arith
call-opens now (expire_sessions_call idle) h s n = ground arith

run-opens :
    (calls : List (ℤ × Call)) (h : Text) (s : Accounts)
    → all (λ c. negate (is_minting h c.1)) calls ≡ true
    → redemptions h calls s ≤ opens h s.magic_links
unfolding redemptions
run-opens [] h s n = omega arith
run-opens ((now, c) ∷ calls) h s n = ground (
  arith,
  run-opens calls h (call now c s).1 (ground (arith, n)),
  call-opens now c h s (ground (arith, n)),
)

abbrev link_hash : MagicLinkRow → Text
link_hash l = l.token_hash

opens-absent : (h : Text) (ls : List MagicLinkRow) → has_key link_hash h ls ≡ false → opens h ls ≡ 0
unfolding opens count
opens-absent h [] n = refl
opens-absent h (m ∷ ls) n = ground (arith, opens-absent h ls)

opens-keyed :
    (h : Text) (ls : List MagicLinkRow)
    → IsKeyed link_hash ls
    → opens h ls ≤ (if any (is_open h) ls then 1 else 0)
unfolding opens count IsKeyed
opens-keyed h [] d = omega arith
opens-keyed h (m ∷ ls) d =
    ground (arith, opens-keyed h ls, opens-absent h ls, text_eq_iff m.token_hash h)

-- A magic link is redeemed at most once, and not at all if there is no unused link of the hash: in
-- any sequence of calls at any times in which no link of the hash is minted again. The hashes of the
-- links, the table's primary key, are distinct at the start.
pub redeem-once :
    (calls : List (ℤ × Call)) (h : Text) (s : Accounts)
    → IsKeyed (λ (l : MagicLinkRow). l.token_hash) s.magic_links
    → all (λ c. negate (is_minting h c.1)) calls ≡ true
    → redemptions h calls s ≤ (if any (is_open h) s.magic_links then 1 else 0)
redeem-once calls h s d n = ground (arith, run-opens calls h s n, opens-keyed h s.magic_links d)
