-- ===== src/Path/Resolve.antt =====
-- `FactPath::resolve`: every value that a path reaches in a document.
use nsclient_fleet_server.Common.{
  Bool, false, List, [], ◌∷◌, Option, none, some, keep, flat_map, ◌==◌,
}
use nsclient_fleet_server.Common.Text.{Text, codes, text_equality}
use nsclient_fleet_server.Json.{Value, array, object, elements, member, as_str}
use nsclient_fleet_server.Path.Parse.{Segment, FactPath}

abbrev pub to_list {ℓ} : {A : Type ℓ} → Option A → List A
to_list none = []
to_list (some a) = a ∷ []

-- `i.as_object().and_then(|m| m.get(key))`
unfoldable pub object_member : Text → Value → Option Value
unfolding member
object_member key (object m) = member key m
object_member key _ = none

-- A key steps into a map, or into every record of a list.
unfoldable pub step_into : Text → Value → List Value
unfolding object_member
step_into key (object m) = to_list (member key m)
step_into key (array items) = flat_map (λ i. to_list (object_member key i)) (elements items)
step_into key _ = []

abbrev pub id_key : Text
id_key = codes "id"

abbrev pub is_text : Text → Option Text → Bool
is_text id none = false
is_text id (some s) = s == id

abbrev pub text_of : Option Value → Option Text
text_of none = none
text_of (some v) = as_str v

-- `i.get("id").and_then(Value::as_str) == Some(id)`
unfoldable pub has_id : Text → Value → Bool
unfolding object_member
has_id id v = is_text id (text_of (object_member id_key v))

-- `[id]` applied to one value.
unfoldable pub pick_value : Text → Value → List Value
unfolding has_id
pick_value id (array items) = keep (has_id id) (elements items)
pick_value id (object m) = to_list (member id m)
pick_value id _ = []

unfoldable pub pick_all : List Text → List Value → List Value
unfolding pick_value
pick_all [] values = values
pick_all (id ∷ ids) values = pick_all ids (flat_map (pick_value id) values)

unfoldable pub resolve_from : List Segment → List Value → List Value
unfolding step_into pick_all
resolve_from [] current = current
resolve_from (seg ∷ segs) current =
    resolve_from segs (pick_all seg.ids (flat_map (step_into seg.key) current))

unfoldable pub resolve : FactPath → Value → List Value
unfolding resolve_from
resolve p doc = resolve_from p.segments (doc ∷ [])
