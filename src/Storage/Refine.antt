-- ===== src/Storage/Refine.antt =====
-- Each operation of the repositories against the life cycle.
pub mod Quiet
pub mod Run
use nsclient_fleet_server.Common.{
  ℕ, Bool, true, false, ◌≡◌, refl, List, [], ◌∷◌, ◌++◌, Option, none, some, ◌&&◌, ◌==◌,
  if◌then◌else◌, arith, any, all, all-append, Bool-cases, Option-cases, inl, inr, eqb, ltb, ◌≤◌,
}
use nsclient_fleet_server.Common.Int.{ℤ, ltb_ℤ, int_eq, int_beq_iff}
use nsclient_fleet_server.Common.Text.{Text, text_equality, text_eq_iff, text_eq_refl}
use nsclient_fleet_server.Common.Result.{Result, Result-cases, ok, err}
use nsclient_fleet_server.Storage.{Store, HostRow, is_host, has_host, has_tenant}
use nsclient_fleet_server.Storage.Table.{first, update, delete, count}
use nsclient_fleet_server.Storage.Rows.{
  row_of, IsKeyed, row_of-append, append-IsKeyed, row_of-update, update-IsKeyed, row_of-delete,
  delete-IsKeyed, row_of-counted, row_of-uncounted, row_of-absent, row_of-key, all-update,
  all-delete,
}
use nsclient_fleet_server.Storage.Hosts.{
  create, create_pending, insert_host_row, enroll, burn, awaits, EnrolledCert, map_option, Reply,
  insert_cert,
}
use nsclient_fleet_server.Storage.Lifecycle.{delete_host, revoke_certs_and_reset_to_pending, strip}
use nsclient_fleet_server.Storage.Life.{
  Life, Phase, enrolled, awaiting, life, life_of, is_clear, phase, Call, call, spec_step, advance,
  create_call, create_pending_call, enroll_call, delete_call, reset_call, only, born, joins, dies,
  rearms, took_ok, took_true, took_some,
}

-- The ids of the hosts are distinct: the primary key.
abbrev pub HasHostKeys : Store → Type 0
HasHostKeys s = IsKeyed (λ r. r.id) s.hosts

-- No enrolled host has a nonce or a deadline left.
abbrev pub AllClear : Store → Type 0
AllClear s = all is_clear s.hosts ≡ true

insert_host_row-AllClear :
    (r : HostRow) (s : Store) → is_clear r ≡ true → AllClear s → AllClear (insert_host_row r s).1
unfolding insert_host_row
insert_host_row-AllClear r s k h = ground (arith, all-append is_clear s.hosts (r ∷ []))

-- The call answers as the abstract machine allows, and leaves each life where the machine has it.
abbrev pub Refines : ℤ → Call → Store → Type 0
Refines now c s =
    HasHostKeys (call now c s).1
    × (AllClear s → AllClear (call now c s).1)
    × ((h : Text)
        → spec_step now c (call now c s).0 h (life h s.hosts)
          ≡ some (life h (call now c s).1.hosts))

-- Inserting a host.
life-insert :
    (r : HostRow) (s : Store) (h : Text)
    → has_host r.id s ≡ false
    → life h (s.hosts ++ r ∷ []) ≡ (if r.id == h then some (life_of r) else life h s.hosts)
unfolding life has_host
life-insert r s h fresh = ground (arith, row_of-append (λ r. r.id) h s.hosts r fresh)

life-absent : (s : Store) (h : Text) → has_host h s ≡ false → life h s.hosts ≡ none
unfolding life has_host
life-absent s h fresh = rw (row_of-absent (λ r. r.id) h s.hosts fresh) refl

insert_host_row-born :
    (r : HostRow) (s : Store) (h : Text)
    → HasHostKeys s
    → HasHostKeys (insert_host_row r s).1
      × ((if took_ok (insert_host_row r s).0
            then only (r.id == h) (born (life_of r) (life h s.hosts)) (some (life h s.hosts))
            else some (life h s.hosts))
          ≡ some (life h (insert_host_row r s).1.hosts))
unfolding insert_host_row has_host
insert_host_row-born r s h d = ground (
  arith,
  life-insert r s h,
  life-absent s h,
  text_eq_iff r.id h,
  append-IsKeyed (λ r. r.id) s.hosts r,
)

pub create-Refines :
    (now t : ℤ) (g : Text) (name os : Option Text) (s : Store)
    → HasHostKeys s
    → Refines now (create_call t g name os) s
unfolding call spec_step advance create
create-Refines now t g name os s d = (
  (insert_host_row-born _ s g d).0,
  insert_host_row-AllClear _ s refl,
  λ h. (insert_host_row-born _ s h d).1,
)

pub create_pending-Refines :
    (now t : ℤ) (g n : Text) (e : ℤ) (s : Store)
    → HasHostKeys s
    → Refines now (create_pending_call t g n e) s
unfolding call spec_step advance create_pending
create_pending-Refines now t g n e s d = (
  (insert_host_row-born _ s g d).0,
  insert_host_row-AllClear _ s refl,
  λ h. (insert_host_row-born _ s h d).1,
)

-- A statement on the hosts that keeps their ids.
pub life-update :
    (p : HostRow → Bool) (f : HostRow → HostRow) (same : (r : HostRow) → (f r).id ≡ r.id) (h : Text)
    (s : Store)
    → life h (update p f s.hosts)
      ≡ map_option (λ r. life_of (if p r then f r else r)) (row_of (λ r. r.id) h s.hosts)
unfolding life
life-update p f same h s = elim (Option-cases (row_of (λ r. r.id) h s.hosts)) [
  | inl e ↦ rw (row_of-update (λ r. r.id) p f same h s.hosts, e) refl
  | inr (r, e) ↦ rw (row_of-update (λ r. r.id) p f same h s.hosts, e) refl
]

-- The row of an id, when a statement names the id and touches some row.
touched :
    (q : HostRow → Bool) (g : Text) (s : Store)
    → ((r : HostRow) → q r ≡ true → r.id ≡ g)
    → HasHostKeys s
    → 1 ≤ count q s.hosts
    → (r : HostRow) × (row_of (λ r. r.id) g s.hosts ≡ some r) × (q r ≡ true)
touched q g s n d = row_of-counted (λ r. r.id) q g s.hosts n d

is_host-id : (t : ℤ) (g : Text) (r : HostRow) → is_host t g r ≡ true → r.id ≡ g
is_host-id t g r h = ground (arith, text_eq_iff r.id g)

life-removed :
    (t : ℤ) (g : Text) (s : Store) (h : Text)
    → HasHostKeys s
    → (if ltb 0 (count (is_host t g) s.hosts)
        then only (g == h) (dies t (life h s.hosts)) (some (life h s.hosts))
        else some (life h s.hosts))
      ≡ some (life h (delete (is_host t g) s.hosts))
unfolding life
life-removed t g s h d = elim (Option-cases (row_of (λ r. r.id) h s.hosts)) [
  | inl e ↦ ground (
    arith,
    row_of-delete (λ r. r.id) (is_host t g) h s.hosts d,
    touched (is_host t g) g s (is_host-id t g) d,
    text_eq_iff g h,
  )
  | inr (r, e) ↦ ground (
    arith,
    row_of-delete (λ r. r.id) (is_host t g) h s.hosts d,
    touched (is_host t g) g s (is_host-id t g) d,
    text_eq_iff g h,
    row_of-key (λ r. r.id) h s.hosts r e,
    text_eq_iff r.id g,
    row_of-uncounted (λ r. r.id) (is_host t g) h s.hosts r,
  )
]

pub delete-Refines :
    (now t : ℤ) (g : Text) (s : Store) → HasHostKeys s → Refines now (delete_call t g) s
unfolding call spec_step advance delete_host strip
delete-Refines now t g s d = (
  ground (arith, delete-IsKeyed (λ r. r.id) (is_host t g) s.hosts d),
  λ k. ground (arith, all-delete is_clear (is_host t g) s.hosts k),
  λ h. ground (arith, life-removed t g s h d),
)

awaits-id : (t : ℤ) (g n : Text) (now : ℤ) (r : HostRow) → awaits t g n now r ≡ true → r.id ≡ g
unfolding awaits
awaits-id t g n now r h = ground (arith, text_eq_iff r.id g)

-- A waiting row's life is awaiting that nonce, before its deadline.
awaits-life :
    (t : ℤ) (g n : Text) (now : ℤ) (r : HostRow)
    → awaits t g n now r ≡ true
    → joins now t n (some (life_of r)) ≡ some (some (t, enrolled))
unfolding awaits
awaits-life t g n now r h = ground (arith, int_beq_iff r.tenant_id t)

life-burned :
    (t : ℤ) (g n : Text) (name os : Option Text) (now : ℤ) (s : Store) (h : Text)
    → HasHostKeys s
    → count (awaits t g n now) s.hosts ≡ 1
    → only (g == h) (joins now t n (life h s.hosts)) (some (life h s.hosts))
      ≡ some (life h (update (awaits t g n now) (burn name os now) s.hosts))
unfolding life burn
life-burned t g n name os now s h d one = elim (Option-cases (row_of (λ r. r.id) h s.hosts)) [
  | inl e ↦ ground (
    arith,
    row_of-update (λ r. r.id) (awaits t g n now) (burn name os now) (λ r. refl) h s.hosts,
    touched (awaits t g n now) g s (awaits-id t g n now) d,
    text_eq_iff g h,
  )
  | inr (r, e) ↦ ground (
    arith,
    row_of-update (λ r. r.id) (awaits t g n now) (burn name os now) (λ r. refl) h s.hosts,
    touched (awaits t g n now) g s (awaits-id t g n now) d,
    text_eq_iff g h,
    row_of-key (λ r. r.id) h s.hosts r e,
    awaits-id t g n now r,
    awaits-life t g n now r,
  )
]

insert_cert-hosts :
    (t : ℤ) (g : Text) (c : EnrolledCert) (s : Store) → (insert_cert t g c s).1.hosts ≡ s.hosts
unfolding insert_cert
insert_cert-hosts t g c s = ground arith

pub enroll-Refines :
    (now t : ℤ) (g n : Text) (name os : Option Text) (c : EnrolledCert) (s : Store)
    → HasHostKeys s
    → Refines now (enroll_call t g n name os c) s
unfolding call spec_step advance enroll burn
enroll-Refines now t g n name os c s d =
    let after : Store = record s { hosts = update (awaits t g n now) (burn name os now) s.hosts } in
    (
      ground (
        arith,
        Result-cases (insert_cert t g c after).0,
        insert_cert-hosts t g c after,
        update-IsKeyed (λ r. r.id) (awaits t g n now) (burn name os now) (λ r. refl) s.hosts d,
      ),
      λ k. ground (
        arith,
        Result-cases (insert_cert t g c after).0,
        insert_cert-hosts t g c after,
        all-update is_clear (awaits t g n now) (burn name os now) (λ r h. refl) s.hosts k,
      ),
      λ h. ground (
        arith,
        Result-cases (insert_cert t g c after).0,
        insert_cert-hosts t g c after,
        life-burned t g n name os now s h d,
      ),
    )

life-rearmed :
    (t : ℤ) (g n : Text) (e : ℤ) (s : Store) (h : Text) (f : HostRow → HostRow)
    → ((r : HostRow) → (f r).id ≡ r.id)
    → ((r : HostRow) → life_of (f r) ≡ (r.tenant_id, awaiting n e))
    → HasHostKeys s
    → (if eqb (count (is_host t g) s.hosts) 0
        then some (life h s.hosts)
        else only (g == h) (rearms t n e (life h s.hosts)) (some (life h s.hosts)))
      ≡ some (
          life h (
            if eqb (count (is_host t g) s.hosts) 0
            then s.hosts
            else update (is_host t g) f s.hosts))
unfolding life
life-rearmed t g n e s h f same armed d = elim (Option-cases (row_of (λ r. r.id) h s.hosts)) [
  | inl k ↦ ground (
    arith,
    row_of-update (λ r. r.id) (is_host t g) f same h s.hosts,
    touched (is_host t g) g s (is_host-id t g) d,
    text_eq_iff g h,
  )
  | inr (r, k) ↦ ground (
    arith,
    row_of-update (λ r. r.id) (is_host t g) f same h s.hosts,
    touched (is_host t g) g s (is_host-id t g) d,
    text_eq_iff g h,
    row_of-key (λ r. r.id) h s.hosts r k,
    armed r,
    text_eq_iff r.id g,
    is_host-id t g r,
  )
]

pub reset-Refines :
    (now t : ℤ) (g n : Text) (e : ℤ) (s : Store)
    → HasHostKeys s
    → Refines now (reset_call t g n e) s
unfolding call spec_step advance revoke_certs_and_reset_to_pending
reset-Refines now t g n e s d = (
  ground (
    arith,
    update-IsKeyed (λ r. r.id) (is_host t g)
        (λ r. record r {
          enrolled_at = none;
          bootstrap_nonce_hash = some n;
          bootstrap_expires_at = some e;
        })
        (λ r. refl) s.hosts d,
  ),
  λ k. ground (
    arith,
    all-update is_clear (is_host t g)
        (λ r. record r {
          enrolled_at = none;
          bootstrap_nonce_hash = some n;
          bootstrap_expires_at = some e;
        })
        (λ r h. refl) s.hosts k,
  ),
  λ h. ground (
    arith,
    life-rearmed t g n e s h
        (λ r. record r {
          enrolled_at = none;
          bootstrap_nonce_hash = some n;
          bootstrap_expires_at = some e;
        })
        (λ r. refl) (λ r. refl) d,
  ),
)
