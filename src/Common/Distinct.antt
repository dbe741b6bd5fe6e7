-- ===== src/Common/Distinct.antt =====
-- Maps whose keys are distinct, as those of a hash map are.
use mathlib.Core.Path.{◌≡◌, refl}
use mathlib.Core.Logic.{◌⊎◌, inl}
use mathlib.Core.Bool.{Bool, true, false}
use mathlib.Core.List.{List, [], ◌∷◌}
use mathlib.Core.Option.{none, some}
use native.Mathlib.Omega.{arith}
use nsclient_fleet_server.Common.Tests.{Eq}
use nsclient_fleet_server.Common.Lists.{keep}
use nsclient_fleet_server.Common.Dict.{get, put, remove, get-put, get-remove}

module _ {K : Type 0} ⦃e : Eq K⦄ {V : Type 0} where
  abbrev pub IsDistinct : List (K × V) → Type 0
  IsDistinct [] = Unit
  IsDistinct ((k, v) ∷ m) = (get k m ≡ none) × IsDistinct m

  pub put-IsDistinct : (k : K) (v : V) (m : List (K × V)) → IsDistinct m → IsDistinct (put k v m)
  unfolding put
  put-IsDistinct k v [] d = (unfold get in refl, tt)
  put-IsDistinct k v ((j, w) ∷ m) d =
      ground (arith, put-IsDistinct k v m, get-put k j v m, e.beq_iff k j, e.beq_iff j k)

  pub remove-IsDistinct : (k : K) (m : List (K × V)) → IsDistinct m → IsDistinct (remove k m)
  unfolding remove
  remove-IsDistinct k [] d = tt
  remove-IsDistinct k ((j, w) ∷ m) d = ground (arith, remove-IsDistinct k m, get-remove k j m)

  get-keep-none :
      (k : K) (p : K × V → Bool) (m : List (K × V)) → get k m ≡ none → get k (keep p m) ≡ none
  unfolding get
  get-keep-none k p [] h = refl
  get-keep-none k p ((j, w) ∷ m) h = ground (arith, get-keep-none k p m)

  pub keep-IsDistinct : (p : K × V → Bool) (m : List (K × V)) → IsDistinct m → IsDistinct (keep p m)
  keep-IsDistinct p [] d = tt
  keep-IsDistinct p ((j, w) ∷ m) d = ground (arith, keep-IsDistinct p m, get-keep-none j p m)

  pub get-keep :
      (k : K) (p : K × V → Bool) (m : List (K × V))
      → IsDistinct m
      → (get k (keep p m) ≡ get k m) ⊎ (get k (keep p m) ≡ none)
  unfolding get
  get-keep k p [] d = inl refl
  get-keep k p ((j, w) ∷ m) d = ground (arith, get-keep k p m, get-keep-none j p m, e.beq_iff j k)

  -- What `retain` leaves of a key.
  pub get-keep_both :
      (k : K) (p : K × V → Bool) (m : List (K × V)) (v : V)
      → IsDistinct m
      → get k m ≡ some v
      → ((p (k, v) ≡ true) × (get k (keep p m) ≡ some v))
        ⊎ ((p (k, v) ≡ false) × (get k (keep p m) ≡ none))
  unfolding get
  get-keep_both k p [] v d h = cc
  get-keep_both k p ((j, w) ∷ m) v d h =
      ground (arith, get-keep_both k p m v, get-keep-none j p m, e.beq_iff j k)
