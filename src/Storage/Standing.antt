-- ===== src/Storage/Standing.antt =====
-- What retiring the superseded certificates of a host leaves of its standing.
use nsclient_fleet_server.Common.{
  ℕ, Bool, true, false, ◌≡◌, refl, List, [], ◌∷◌, Option, none, some, arith, if◌then◌else◌, ◌&&◌,
  keep, ltb, Option-cases, ◌∙◌, inl, inr,
}
use nsclient_fleet_server.Common.Int.{ℤ, int_eq}
use nsclient_fleet_server.Common.Text.{Text, text_equality, text_eq_iff}
use nsclient_fleet_server.Storage.{Store, CertRow, of_host}
use nsclient_fleet_server.Storage.Table.{first, update, count}
use nsclient_fleet_server.Storage.Rows.{
  row_of, IsKeyed, has_key, row_of-update, update-IsKeyed, row_of-absent,
}
use nsclient_fleet_server.Storage.Lifecycle.{revoke}
use nsclient_fleet_server.Storage.Certs.{standing, retire_superseded, is_usable, bears}

-- Serials are UNIQUE.
abbrev HasSerialKeys : Store → Type 0
HasSerialKeys s = IsKeyed (λ c. c.serial) s.certs

abbrev kept : (CertRow → Bool) → Option CertRow → Option CertRow
kept p none = none
kept p (some c) = if p c then some c else none

has_key-keep :
    (p : CertRow → Bool) (k : Text) (cs : List CertRow)
    → has_key (λ c. c.serial) k cs ≡ false
    → has_key (λ c. c.serial) k (keep p cs) ≡ false
has_key-keep p k [] h = refl
has_key-keep p k (c ∷ cs) h = ground (arith, has_key-keep p k cs)

row_of-keep :
    (p : CertRow → Bool) (k : Text) (cs : List CertRow)
    → IsKeyed (λ c. c.serial) cs
    → row_of (λ c. c.serial) k (keep p cs) ≡ kept p (row_of (λ c. c.serial) k cs)
unfolding first IsKeyed
row_of-keep p k [] d = refl
row_of-keep p k (c ∷ cs) d = ground (
  arith,
  row_of-keep p k cs,
  text_eq_iff c.serial k,
  has_key-keep p k cs,
  row_of-absent (λ c. c.serial) k (keep p cs),
)

first-bears :
    (t : ℤ) (h k : Text) (cs : List CertRow)
    → IsKeyed (λ c. c.serial) cs
    → first (bears t h k) cs
      ≡ kept (λ c. of_host t h c.tenant_id c.host_id) (row_of (λ c. c.serial) k cs)
unfolding first IsKeyed
first-bears t h k [] d = refl
first-bears t h k (c ∷ cs) d =
    ground (arith, first-bears t h k cs, text_eq_iff c.serial k, row_of-absent (λ c. c.serial) k cs)

-- After the retirement no usable row stands below the limit.
none_older :
    (t : ℤ) (h : Text) (now : ℤ) (n : ℕ) (cs : List CertRow)
    → count
        (λ c. ltb c.rid n)
        (keep
          (is_usable t h now)
          (update (λ c. is_usable t h now c && ltb c.rid n) (revoke now) cs))
      ≡ 0
unfolding count update
none_older t h now n [] = refl
none_older t h now n (c ∷ cs) = ground (arith, none_older t h now n cs)

of_usable :
    (t : ℤ) (h : Text) (now : ℤ) (c : CertRow)
    → is_usable t h now c ≡ true
    → of_host t h c.tenant_id c.host_id ≡ true
of_usable t h now c u = ground arith

-- The certificates below the limit revoked, one that is at the limit and usable.
abbrev retired_below : ℤ → Text → ℤ → ℕ → List CertRow → List CertRow
retired_below t h now n = update (λ c. is_usable t h now c && ltb c.rid n) (revoke now)

first-retired :
    (t : ℤ) (h serial : Text) (now : ℤ) (cs : List CertRow) (c : CertRow)
    → IsKeyed (λ c. c.serial) cs
    → row_of (λ c. c.serial) serial cs ≡ some c
    → is_usable t h now c ≡ true
    → row_of (λ c. c.serial) serial (keep (is_usable t h now) (retired_below t h now c.rid cs))
      ≡ some c
first-retired t h serial now cs c d e u =
    let q : CertRow → Bool = λ r. is_usable t h now r && ltb r.rid c.rid in
    row_of-keep (is_usable t h now) serial (retired_below t h now c.rid cs)
      (update-IsKeyed (λ c. c.serial) q (revoke now) (λ r. refl) cs d)
    ∙ ground (arith, row_of-update (λ c. c.serial) q (revoke now) (λ r. refl) serial cs, e, u)

standing-retired_below :
    (t : ℤ) (h serial : Text) (now : ℤ) (s : Store) (c : CertRow)
    → HasSerialKeys s
    → row_of (λ c. c.serial) serial s.certs ≡ some c
    → is_usable t h now c ≡ true
    → standing t h serial now (record s { certs = retired_below t h now c.rid s.certs })
      ≡ record { active = true; superseded = 0 }
unfolding standing
standing-retired_below t h serial now s c d e u =
    rw (first-retired t h serial now s.certs c d e u, none_older t h now c.rid s.certs) refl

-- A host that presents a certificate with standing and has the older ones retired keeps the standing
-- of that certificate, and no usable certificate older than it is left. The serials recorded are
-- distinct; the two reads of the clock agree.
pub standing-retired :
    (t : ℤ) (h serial : Text) (now : ℤ) (s : Store)
    → HasSerialKeys s
    → (standing t h serial now s).active ≡ true
    → standing t h serial now (retire_superseded t h serial now s).1
      ≡ record { active = true; superseded = 0 }
unfolding retire_superseded standing
standing-retired t h serial now s d a =
    elim (Option-cases (row_of (λ c. c.serial) serial s.certs)) [
      | inl e ↦ ground (arith, row_of-keep (is_usable t h now) serial s.certs d)
      | inr (c, e) ↦
          let u : is_usable t h now c ≡ true =
            ground (arith, row_of-keep (is_usable t h now) serial s.certs d, e) in
          rw (first-bears t h serial s.certs d, e, of_usable t h now c u)
            (standing-retired_below t h serial now s c d e u)
    ]
