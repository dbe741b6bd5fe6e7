-- ===== src/Facts/Diff/Fuel.antt =====
-- The depth of the old document is enough fuel.
use nsclient_fleet_server.Common.{
  ℕ, zero, suc, ◌≤◌, max, Bool, true, false, ◌≡◌, refl, ap, subst, ◌∙◌, ◌⊎◌, inl, inr, List, [],
  ◌∷◌, Option, none, some, Option-cases, ◌==◌, arith, All, if◌then◌else◌,
}
use nsclient_fleet_server.Common.Text.{Text, text_equality}
use nsclient_fleet_server.Common.Dict.{get, put}
use nsclient_fleet_server.Json.{
  Value, Items, Fields, null, bool, number, string, array, object, nil, cons, end, field, elements,
  member,
}
use nsclient_fleet_server.Path.Spell.{child, pick}
use nsclient_fleet_server.Facts.Diff.{
  Differ, Visit, at_key, object_key, object_keys, removed_records, new_record, new_records, records,
  record_ids, lists, value, zip, collect, keys_onto, depth, depth_items, depth_fields,
}

found-cases :
    (b : Bool) (w : Value) (rest : Option Value) (v : Value)
    → (if b then some w else rest) ≡ some v
    → (w ≡ v) ⊎ (rest ≡ some v)
found-cases true w rest v h = inl (cc)
found-cases false w rest v h = inr h

member-depth : (k : Text) (m : Fields) (v : Value) → member k m ≡ some v → depth v ≤ depth_fields m
unfolding member
member-depth k end v h = cc
member-depth k (field j w m) v h = elim (found-cases (j == k) w (member k m) v h) [
  | inl e ↦ subst (λ x. depth x ≤ max (depth w) (depth_fields m)) e (omega arith)
  | inr e ↦ omega (arith, member-depth k m v e)
]

-- Every value of a map is at most so deep.
abbrev Within : ℕ → List (Text × Value) → Type 0
Within b = All (λ e. depth (e.1) ≤ b)

put-Within :
    (b : ℕ) (k : Text) (v : Value) (m : List (Text × Value))
    → depth v ≤ b
    → Within b m
    → Within b (put k v m)
unfolding put
put-Within b k v [] h w = (h, tt)
put-Within b k v ((j, u) ∷ m) h w = ground (arith, put-Within b k v m h)

collect-Within :
    (b : ℕ) (rs m : List (Text × Value)) → Within b rs → Within b m → Within b (collect rs m)
collect-Within b [] m h w = w
collect-Within b ((k, v) ∷ rs) m h w =
    collect-Within b rs (put k v m) h.1 (put-Within b k v m h.0 w)

zip-Within :
    (b : ℕ) (ids : List Text) (vs : Items) → depth_items vs ≤ b → Within b (zip ids (elements vs))
zip-Within b [] vs h = tt
zip-Within b (k ∷ ids) nil h = tt
zip-Within b (k ∷ ids) (cons v vs) h = (omega arith, zip-Within b ids vs (omega arith))

get-Within :
    (b : ℕ) (k : Text) (m : List (Text × Value)) (v : Value)
    → Within b m
    → get k m ≡ some v
    → depth v ≤ b
unfolding get
get-Within b k [] v w h = cc
get-Within b k ((j, u) ∷ m) v w h = elim (found-cases (j == k) u (get k m) v h) [
  | inl e ↦ subst (λ x. depth x ≤ b) e w.0
  | inr e ↦ get-Within b k m v w.1 e
]

module _ (u v : Visit) (b : ℕ)
    (same : (path : Text) (o n : Value) (d : Differ)
      → depth o ≤ b
      → u path o n d ≡ v path o n d) where
  at_key-same :
      (path : Text) (o n : Option Value) (d : Differ)
      → ((x : Value) → o ≡ some x → depth x ≤ b)
      → at_key u path o n d ≡ at_key v path o n d
  at_key-same path (some o) (some n) d h = same path o n d (h o refl)
  at_key-same path (some o) none d h = refl
  at_key-same path none (some n) d h = refl
  at_key-same path none none d h = refl

  object_key-same :
      (path : Text) (o n : Fields) (k : Text) (d : Differ)
      → depth_fields o ≤ b
      → object_key u path o n k d ≡ object_key v path o n k d
  unfolding object_key
  object_key-same path o n k d h = elim (Option-cases (child path k false)) [
    | inl e ↦ rw (e, object_key) refl
    | inr (p, e) ↦
        rw (e, object_key)
          (at_key-same p (member k o) (member k n) d (λ x f. omega (arith, member-depth k o x f)))
  ]

  object_keys-same :
      (path : Text) (o n : Fields) (ks : List Text) (d : Differ)
      → depth_fields o ≤ b
      → object_keys u path o n ks d ≡ object_keys v path o n ks d
  object_keys-same path o n [] d h = refl
  object_keys-same path o n (k ∷ ks) d h =
      ap (object_keys u path o n ks) (object_key-same path o n k d h)
      ∙ object_keys-same path o n ks (object_key v path o n k d) h

  new_record-same :
      (path : Text) (m : List (Text × Value)) (r : Text × Value) (d : Differ)
      → Within b m
      → new_record u path m r d ≡ new_record v path m r d
  unfolding new_record
  new_record-same path m (id, w) d h = elim (Option-cases (pick path id)) [
    | inl e ↦ rw (e, new_record) refl
    | inr (p, e) ↦
        rw (e, new_record) (at_key-same p (get id m) (some w) d (λ x f. get-Within b id m x h f))
  ]

  new_records-same :
      (path : Text) (m rs : List (Text × Value)) (d : Differ)
      → Within b m
      → new_records u path m rs d ≡ new_records v path m rs d
  new_records-same path m [] d h = refl
  new_records-same path m (r ∷ rs) d h =
      ap (new_records u path m rs) (new_record-same path m r d h)
      ∙ new_records-same path m rs (new_record v path m r d) h

  lists-same :
      (path : Text) (o n : Items) (oi ni : Option (List Text)) (d : Differ)
      → depth_items o ≤ b
      → lists u path o n oi ni d ≡ lists v path o n oi ni d
  unfolding records
  lists-same path o n (some oi) (some ni) d h =
      new_records-same path (collect (zip oi (elements o)) []) (zip ni (elements n))
        (removed_records path ni (zip oi (elements o)) d)
        (collect-Within b (zip oi (elements o)) [] (zip-Within b oi o h) tt)
  lists-same path o n (some oi) none d h = refl
  lists-same path o n none ni d h = refl

depth-pos : (v : Value) → 1 ≤ depth v
depth-pos null = omega arith
depth-pos (bool b) = omega arith
depth-pos (number n) = omega arith
depth-pos (string s) = omega arith
depth-pos (array a) = omega arith
depth-pos (object m) = omega arith

-- Comparing two documents below a path gives the same for any two amounts of fuel that are at
-- least the depth of the old document, which is the amount that `diff` gives: the fuel never
-- decides anything.
pub value-fuel :
    (n m : ℕ) (path : Text) (old new : Value) (d : Differ)
    → depth old ≤ n
    → depth old ≤ m
    → value n path old new d ≡ value m path old new d
unfolding value
value-fuel zero m path old new d h k = absurd (omega (arith, depth-pos old))
value-fuel (suc n) zero path old new d h k = absurd (omega (arith, depth-pos old))
value-fuel (suc n) (suc m) path (object o) (object w) d h k =
    let b = depth_fields o in
    object_keys-same (value n) (value m) b
      (λ p x y e le. value-fuel n m p x y e (omega arith) (omega arith)) path o w
      (keys_onto w (keys_onto o [])) d (omega arith)
value-fuel (suc n) (suc m) path (array o) (array w) d h k =
    let b = depth_items o in
    lists-same (value n) (value m) b
      (λ p x y e le. value-fuel n m p x y e (omega arith) (omega arith)) path o w
      (record_ids (elements o)) (record_ids (elements w)) d (omega arith)
value-fuel (suc n) (suc m) path old new d h k = refl
