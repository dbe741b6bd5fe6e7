-- ===== src/Json.antt =====
-- serde_json's `Value` as the program sees it, and `scalar_text` of crates/core/src/selector/path.rs.
-- A number stands for its JSON spelling (`Number::to_string`), which is all that the program reads
-- of it. An object is its list of entries in iteration order; serde_json keeps the keys distinct.
use nsclient_fleet_server.Common.{
  Bool, true, false, List, [], ◌∷◌, Option, none, some, if◌then◌else◌, ◌==◌,
}
use nsclient_fleet_server.Common.Text.{Text, codes, text_equality}

mutual
  pub data Value : Type 0 where
    null : Value
    bool : Bool → Value
    number : Text → Value
    string : Text → Value
    array : Items → Value
    object : Fields → Value

  pub data Items : Type 0 where
    nil : Items
    cons : Value → Items → Items

  pub data Fields : Type 0 where
    end : Fields
    field : Text → Value → Fields → Fields

abbrev pub elements : Items → List Value
elements nil = []
elements (cons v xs) = v ∷ elements xs

-- `Map::get`
unfoldable pub member : Text → Fields → Option Value
member k end = none
member k (field j v m) = if j == k then some v else member k m

unfoldable pub scalar_text : Value → Option Text
scalar_text (string s) = some s
scalar_text (number n) = some n
scalar_text (bool true) = some (codes "true")
scalar_text (bool false) = some (codes "false")
scalar_text null = none
scalar_text (array _) = none
scalar_text (object _) = none

abbrev pub is_null : Value → Bool
is_null null = true
is_null _ = false

-- `Value::as_str`
abbrev pub as_str : Value → Option Text
as_str (string s) = some s
as_str _ = none
