-- ===== src/Facts/Diff/Equal.antt =====
-- serde_json's `PartialEq` of values: objects are equal as maps.
use nsclient_fleet_server.Common.{ℕ, suc, Bool, true, false, ◌&&◌, Option, none, some, eqb, ◌==◌}
use nsclient_fleet_server.Common.Text.{text_equality}
use nsclient_fleet_server.Json.{
  Value, Items, Fields, null, bool, number, string, array, object, nil, cons, end, field, member,
}

abbrev bool_eq : Bool → Bool → Bool
bool_eq true b = b
bool_eq false true = false
bool_eq false false = true

abbrev pub size : Fields → ℕ
size end = 0
size (field k v m) = suc (size m)

abbrev mutual
  pub value_eq : Value → Value → Bool
  value_eq null null = true
  value_eq (bool a) (bool b) = bool_eq a b
  value_eq (number a) (number b) = a == b
  value_eq (string a) (string b) = a == b
  value_eq (array a) (array b) = items_eq a b
  value_eq (object a) (object b) = eqb (size a) (size b) && fields_within a b
  value_eq _ _ = false

  pub items_eq : Items → Items → Bool
  items_eq nil nil = true
  items_eq (cons a as') (cons b bs) = value_eq a b && items_eq as' bs
  items_eq _ _ = false

  pub fields_within : Fields → Fields → Bool
  fields_within end b = true
  fields_within (field k v m) b =
      elim (member k b) [ none ↦ false | some w ↦ value_eq v w ] && fields_within m b

abbrev pub option_eq : Option Value → Option Value → Bool
option_eq none none = true
option_eq (some a) (some b) = value_eq a b
option_eq _ _ = false
