-- ===== src/Common/TextSet.antt =====
-- A `BTreeSet<String>`: texts in ascending byte order, without repeats.
use nsclient_fleet_server.Common.Tests.{if◌then◌else◌, ◌==◌}
use nsclient_fleet_server.Common.Lists.{In, any}
use mathlib.Core.Path.{◌≡◌, refl}
use mathlib.Core.Logic.{◌⊎◌, inl, inr}
use mathlib.Core.Bool.{Bool, true}
use mathlib.Core.List.{List, [], ◌∷◌}
use native.Mathlib.Omega.{arith}
use nsclient_fleet_server.Common.Text.{
  Text, text_eq_iff, text_ltb, text_equality, text_ltb-total, text_ltb_trans,
}

unfoldable pub insert : Text → List Text → List Text
insert k [] = k ∷ []
insert k (j ∷ m) =
    let later = j ∷ insert k m in
    if k == j then j ∷ m else if text_ltb k j then k ∷ j ∷ m else later

unfoldable pub contains : Text → List Text → Bool
contains k m = any (λ j. j == k) m

pub insert-In : (k : Text) (m : List Text) → In k (insert k m)
unfolding insert
insert-In k [] = inl refl
insert-In k (j ∷ m) = ground (arith, text_eq_iff k j, insert-In k m)

pub In-insert : (x k : Text) (m : List Text) → In x m → In x (insert k m)
unfolding insert
In-insert x k [] h = inr h
In-insert x k (j ∷ m) h = ground (arith, In-insert x k m)

pub insert-In_inv : (x k : Text) (m : List Text) → In x (insert k m) → (k ≡ x) ⊎ In x m
unfolding insert
insert-In_inv x k [] h = h
insert-In_inv x k (j ∷ m) h = ground (arith, insert-In_inv x k m)

-- Ascending order: every text is below all that follow it.
abbrev pub Above : Text → List Text → Type 0
Above k [] = Unit
Above k (j ∷ m) = (text_ltb k j ≡ true) × Above k m

abbrev pub IsAscending : List Text → Type 0
IsAscending [] = Unit
IsAscending (k ∷ m) = Above k m × IsAscending m

Above-trans : (k j : Text) (m : List Text) → text_ltb k j ≡ true → Above j m → Above k m
Above-trans k j [] h a = tt
Above-trans k j (i ∷ m) h a = (text_ltb_trans k j i h a.0, Above-trans k j m h a.1)

Above-insert : (i k : Text) (m : List Text) → text_ltb i k ≡ true → Above i m → Above i (insert k m)
unfolding insert
Above-insert i k [] h a = (h, tt)
Above-insert i k (j ∷ m) h a = ground (arith, Above-insert i k m)

pub insert-IsAscending : (k : Text) (m : List Text) → IsAscending m → IsAscending (insert k m)
unfolding insert
insert-IsAscending k [] h = (tt, tt)
insert-IsAscending k (j ∷ m) h = ground (
  arith,
  insert-IsAscending k m,
  Above-insert j k m,
  Above-trans k j m,
  text_eq_iff k j,
  text_ltb-total k j,
)
