-- ===== src/Facts/Diff/Reflexive.antt =====
-- Equality of values is reflexive where keys are distinct.
use nsclient_fleet_server.Common.{
  true, false, ◌≡◌, refl, subst, inl, inr, Option, none, some, Bool-cases, ◌==◌, arith,
}
use nsclient_fleet_server.Common.Text.{Text, text_equality, text_eq_iff, text_eq_refl}
use nsclient_fleet_server.Json.{
  Value, Items, Fields, null, bool, number, string, array, object, nil, cons, end, field, member,
}
use nsclient_fleet_server.Facts.Diff.Equal.{value_eq, items_eq, fields_within, option_eq}

-- Every object of the value has distinct keys, as those of serde_json have.
abbrev mutual
  pub HasDistinctKeys : Value → Type 0
  HasDistinctKeys (array vs) = ItemsDistinct vs
  HasDistinctKeys (object m) = FieldsDistinct m
  HasDistinctKeys _ = Unit

  pub ItemsDistinct : Items → Type 0
  ItemsDistinct nil = Unit
  ItemsDistinct (cons v vs) = HasDistinctKeys v × ItemsDistinct vs

  pub FieldsDistinct : Fields → Type 0
  FieldsDistinct end = Unit
  FieldsDistinct (field k v m) = (member k m ≡ none) × HasDistinctKeys v × FieldsDistinct m

-- Every entry of the first is found in the second.
abbrev pub FoundIn : Fields → Fields → Type 0
FoundIn end b = Unit
FoundIn (field k v m) b = (member k b ≡ some v) × FoundIn m b

pub FoundIn-field :
    (a b : Fields) (k : Text) (v : Value)
    → member k a ≡ none
    → FoundIn a b
    → FoundIn a (field k v b)
unfolding member
FoundIn-field end b k v h f = tt
FoundIn-field (field j w a) b k v h f =
    ground (arith, text_eq_iff j k, text_eq_iff k j, FoundIn-field a b k v)

pub FoundIn-refl : (m : Fields) → FieldsDistinct m → FoundIn m m
unfolding member
FoundIn-refl end d = tt
FoundIn-refl (field k v m) (n, dv, dm) =
    (rw (text_eq_refl k) refl, FoundIn-field m m k v n (FoundIn-refl m dm))

mutual
  pub value_eq_refl : (v : Value) → HasDistinctKeys v → value_eq v v ≡ true
  value_eq_refl null d = refl
  value_eq_refl (bool true) d = refl
  value_eq_refl (bool false) d = refl
  value_eq_refl (number n) d = text_eq_refl n
  value_eq_refl (string s) d = text_eq_refl s
  value_eq_refl (array vs) d = items_eq_refl vs d
  value_eq_refl (object m) d = ground (arith, fields_within-Found m m d (FoundIn-refl m d))

  pub items_eq_refl : (vs : Items) → ItemsDistinct vs → items_eq vs vs ≡ true
  items_eq_refl nil d = refl
  items_eq_refl (cons v vs) d = ground (arith, value_eq_refl v d.0, items_eq_refl vs d.1)

  fields_within-Found : (m b : Fields) → FieldsDistinct m → FoundIn m b → fields_within m b ≡ true
  fields_within-Found end b d f = refl
  fields_within-Found (field k v m) b (n, dv, dm) (h, f) =
      rw h (rw (value_eq_refl v dv) (fields_within-Found m b dm f))

pub member-HasDistinctKeys :
    (k : Text) (m : Fields) (v : Value) → FieldsDistinct m → member k m ≡ some v → HasDistinctKeys v
unfolding member
member-HasDistinctKeys k end v d h = cc
member-HasDistinctKeys k (field j w m) v (n, dw, dm) h = elim (Bool-cases (j == k)) [
  | inl e ↦ subst HasDistinctKeys (ground arith) dw
  | inr e ↦ member-HasDistinctKeys k m v dm (ground arith)
]

pub option_eq_refl :
    (o : Option Value) → ((v : Value) → o ≡ some v → HasDistinctKeys v) → option_eq o o ≡ true
option_eq_refl none h = refl
option_eq_refl (some v) h = value_eq_refl v (h v refl)
