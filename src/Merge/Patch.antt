-- ===== src/Merge/Patch.antt =====
-- `merge_patch` and `strip_nulls`. The target is passed by value and the merged value is the result.
use nsclient_fleet_server.Common.{none, some, if◌then◌else◌, ◌==◌}
use nsclient_fleet_server.Common.Text.{Text, text_equality}
use nsclient_fleet_server.Json.{
  Value, null, bool, number, string, array, object, Fields, end, field, member,
}

-- `Map::remove`
unfoldable pub remove_member : Text → Fields → Fields
remove_member k end = end
remove_member k (field j v m) =
    let rest = remove_member k m in if j == k then rest else field j v rest

-- A write through `get_mut`, or `Map::insert` of a key that is not there.
unfoldable pub set_member : Text → Value → Fields → Fields
set_member k v end = field k v end
set_member k v (field j w m) = if j == k then field j v m else field j w (set_member k v m)

-- `filter_map` drops the nulls at one level.
abbrev pub keep_member : Text → Value → Value → Fields → Fields
keep_member k null stripped rest = rest
keep_member k _ stripped rest = field k stripped rest

unfoldable mutual
  pub strip_nulls : Value → Value
  strip_nulls null = null
  strip_nulls (bool b) = bool b
  strip_nulls (number n) = number n
  strip_nulls (string s) = string s
  strip_nulls (array xs) = array xs
  strip_nulls (object m) = object (strip_fields m)

  pub strip_fields : Fields → Fields
  strip_fields end = end
  strip_fields (field k v m) = keep_member k v (strip_nulls v) (strip_fields m)

-- The target's map, once it has been promoted to an object.
abbrev pub promoted : Value → Fields
promoted (object m) = m
promoted _ = end

-- One key of the patch: removed, merged into what is there, or inserted.
abbrev pub apply_member : Text → Value → (Value → Value) → Fields → Fields
apply_member k null merge target = remove_member k target
apply_member k v merge target = elim (member k target) [
  | some existing ↦ set_member k (merge existing) target
  | none ↦ set_member k (strip_nulls v) target
]

unfoldable mutual
  pub merge_patch : Value → Value → Value
  merge_patch (object patch_map) target = object (merge_fields patch_map (promoted target))
  merge_patch null target = null
  merge_patch (bool b) target = bool b
  merge_patch (number n) target = number n
  merge_patch (string s) target = string s
  merge_patch (array xs) target = array xs

  pub merge_fields : Fields → Fields → Fields
  merge_fields end target = target
  merge_fields (field k v m) target = merge_fields m (apply_member k v (merge_patch v) target)
