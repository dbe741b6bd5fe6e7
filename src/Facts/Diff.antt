-- ===== src/Facts/Diff.antt =====
-- `diff`: the differences between two documents. The recursion is on fuel; `diff` gives it the
-- depth of the old document.
pub mod Show
pub mod Equal
pub mod Keeps
pub mod Fuel
pub mod Listed
pub mod Reflexive
pub mod Ids
pub mod Same
use nsclient_fleet_server.Common.{
  ℕ, zero, suc, ◌+◌, Bool, true, false, ◌&&◌, not, List, [], ◌∷◌, ◌++◌, Option, none, some,
  if◌then◌else◌, length, leb, max, ◌==◌, any,
}
use nsclient_fleet_server.Common.Text.{Text, codes, text_equality}
use nsclient_fleet_server.Common.TextSet.{insert, contains}
use nsclient_fleet_server.Common.Dict.{get, put}
use nsclient_fleet_server.Json.{
  Value, Items, Fields, null, bool, number, string, array, object, nil, cons, end, field, elements,
  member, as_str,
}
use nsclient_fleet_server.Path.Spell.{child, pick}
use Show.{shown}
use Equal.{value_eq, items_eq, option_eq}

pub data ChangeKind : Type 0 where
  added : ChangeKind
  removed : ChangeKind
  changed : ChangeKind

pub record FactChange : Type 0 where
  pub path : Text
  pub kind : ChangeKind
  pub old : Option Value
  pub new : Option Value

pub record FactsDiff : Type 0 where
  pub changes : List FactChange
  pub truncated : ℕ

pub record Differ : Type 0 where
  pub out : FactsDiff
  pub max : ℕ
  pub at_parent : List Text

abbrev pub and_then_shown : Option Value → Option Value
and_then_shown none = none
and_then_shown (some v) = shown v

unfoldable pub push : Text → ChangeKind → Option Value → Option Value → Differ → Differ
push path kind old new d =
    if leb d.max (length d.out.changes)
    then record d { out = record d.out { truncated = d.out.truncated + 1 } }
    else record d {
      out = record d.out {
        changes =
            d.out.changes
            ++ record {
              path = path;
              kind = kind;
              old = and_then_shown old;
              new = and_then_shown new;
            }
              ∷ [];
      };
    }

unfoldable pub changed_beneath : Text → Differ → Differ
unfolding push
changed_beneath path d =
    if contains path d.at_parent
    then d
    else push path changed none none (record d { at_parent = insert path d.at_parent })

abbrev pub id_of : Value → Option Text
id_of (object m) = elim (member (codes "id") m) [ some v ↦ as_str v | none ↦ none ]
id_of _ = none

abbrev pub onto_ids : Text → Option (List Text) → Option (List Text)
onto_ids id none = none
onto_ids id (some ids) = some (id ∷ ids)

-- The loop of `record_ids`, with the ids seen so far.
unfoldable pub record_ids_from : List Text → List Value → Option (List Text)
record_ids_from seen [] = some []
record_ids_from seen (v ∷ vs) = elim (id_of v) [
  | none ↦ none
  | some id ↦ elim (contains id seen) [
    | true ↦ none
    | false ↦ onto_ids id (record_ids_from (insert id seen) vs)
  ]
]

unfoldable pub record_ids : List Value → Option (List Text)
unfolding record_ids_from
record_ids vs = record_ids_from [] vs

abbrev pub keys_onto : Fields → List Text → List Text
keys_onto end out = out
keys_onto (field k v m) out = keys_onto m (insert k out)

abbrev pub zip : List Text → List Value → List (Text × Value)
zip (id ∷ ids) (v ∷ vs) = (id, v) ∷ zip ids vs
zip (id ∷ ids) [] = []
zip [] vs = []

-- The map that a zipped list of records collects into.
abbrev pub collect : List (Text × Value) → List (Text × Value) → List (Text × Value)
collect [] m = m
collect ((id, v) ∷ rest) m = collect rest (put id v m)

-- What the recursion is at a child.
abbrev pub Visit : Type 0
Visit = Text → Value → Value → Differ → Differ

abbrev at_key : Visit → Text → Option Value → Option Value → Differ → Differ
at_key visit p (some o) (some n) d = visit p o n d
at_key visit p (some o) none d = push p removed (some o) none d
at_key visit p none (some n) d = push p added none (some n) d
at_key visit p none none d = d

unfoldable pub object_key : Visit → Text → Fields → Fields → Text → Differ → Differ
object_key visit path old new k d = elim (child path k false) [
  | none ↦ if option_eq (member k old) (member k new) then d else changed_beneath path d
  | some p ↦ at_key visit p (member k old) (member k new) d
]

abbrev pub object_keys : Visit → Text → Fields → Fields → List Text → Differ → Differ
object_keys visit path old new [] d = d
object_keys visit path old new (k ∷ ks) d =
    object_keys visit path old new ks (object_key visit path old new k d)

unfoldable pub removed_record : Text → List Text → Text × Value → Differ → Differ
removed_record path new_ids (id, v) d =
    if any (λ j. j == id) new_ids then d else elim (pick path id) [
      | some p ↦ push p removed (some v) none d
      | none ↦ changed_beneath path d
    ]

abbrev pub removed_records : Text → List Text → List (Text × Value) → Differ → Differ
removed_records path new_ids [] d = d
removed_records path new_ids (r ∷ rs) d =
    removed_records path new_ids rs (removed_record path new_ids r d)

unfoldable pub new_record : Visit → Text → List (Text × Value) → Text × Value → Differ → Differ
new_record visit path old_by_id (id, v) d = elim (pick path id) [
  | none ↦ if option_eq (get id old_by_id) (some v) then d else changed_beneath path d
  | some p ↦ at_key visit p (get id old_by_id) (some v) d
]

abbrev pub new_records : Visit → Text → List (Text × Value) → List (Text × Value) → Differ → Differ
new_records visit path old_by_id [] d = d
new_records visit path old_by_id (r ∷ rs) d =
    new_records visit path old_by_id rs (new_record visit path old_by_id r d)

-- `records`
unfoldable pub records :
    Visit → Text → List (Text × Value) → List (Text × Value) → List Text → Differ → Differ
records visit path old new new_ids d =
    new_records visit path (collect old []) new (removed_records path new_ids old d)

abbrev compared : Text → Value → Value → Differ → Differ
compared path old new d = if value_eq old new then d else push path changed (some old) (some new) d

abbrev lists :
    Visit → Text → Items → Items → Option (List Text) → Option (List Text) → Differ → Differ
lists visit path o n (some oi) (some ni) d =
    records visit path (zip oi (elements o)) (zip ni (elements n)) ni d
lists visit path o n _ _ d = compared path (array o) (array n) d

-- `Differ::value`
unfoldable pub value : ℕ → Visit
value zero path old new d = d
value (suc n) path (object o) (object m) d =
    object_keys (value n) path o m (keys_onto m (keys_onto o [])) d
value (suc n) path (array o) (array m) d =
    lists (value n) path o m (record_ids (elements o)) (record_ids (elements m)) d
value (suc n) path old new d = compared path old new d

abbrev mutual
  pub depth : Value → ℕ
  depth (array vs) = suc (depth_items vs)
  depth (object m) = suc (depth_fields m)
  depth _ = 1

  pub depth_items : Items → ℕ
  depth_items nil = 0
  depth_items (cons v vs) = max (depth v) (depth_items vs)

  pub depth_fields : Fields → ℕ
  depth_fields end = 0
  depth_fields (field k v m) = max (depth v) (depth_fields m)

unfoldable pub diff : Value → Value → ℕ → FactsDiff
unfolding value
diff old new max_changes =
    (value (depth old) [] old new (record {
      out = record { changes = []; truncated = 0 };
      max = max_changes;
      at_parent = [];
    })).out
