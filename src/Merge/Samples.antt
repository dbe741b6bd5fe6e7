-- ===== src/Merge/Samples.antt =====
-- RFC 7396's examples that the source tests, and the theorems at them.
use nsclient_fleet_server.Common.{◌≡◌, refl, arith, ◌++◌, [], ◌∷◌, some, none}
use nsclient_fleet_server.Common.Text.{Text, codes, text_eq, text_eq_iff, text_ltb}
use nsclient_fleet_server.Json.{
  Value, null, number, string, array, object, cons, nil, end, field, member,
}
use nsclient_fleet_server.Merge.Patch.{merge_patch, strip_nulls, remove_member, set_member}
use nsclient_fleet_server.Merge.Rfc.{IsKeyed, rfc_merge, merge_patch-rfc}
use nsclient_fleet_server.Merge.Canonical.{canonical_string}
use nsclient_fleet_server.Merge.KeyOrder.{
  SameDocument, in_object, same, below, no_fields, swapped, and_then, canonical_string-key_order,
}

abbrev a : Text
a = codes "a"

abbrev b : Text
b = codes "b"

abbrev c : Text
c = codes "c"

-- {"a":{"b":"c"}} with {"a":{"b":"d","c":null}}
abbrev nested_target : Value
nested_target = object (field a (object (field b (string c) end)) end)

abbrev nested_patch : Value
nested_patch = object (field a (object (field b (string (codes "d")) (field c null end))) end)

nested :
    merge_patch nested_patch nested_target
    ≡ object (field a (object (field b (string (codes "d")) end)) end)
unfolding merge_patch remove_member set_member member text_eq
nested = refl

-- {} with {"a":{"bb":{"ccc":null}}}
fresh_insert :
    merge_patch
      (object
        (field a (object (field (codes "bb") (object (field (codes "ccc") null end)) end)) end))
      (object end)
    ≡ object (field a (object (field (codes "bb") (object end) end)) end)
unfolding merge_patch remove_member set_member member text_eq strip_nulls
fresh_insert = refl

-- [1,2] with {"a":"b","c":null}
array_replaced :
    merge_patch
      (object (field a (string b) (field c null end)))
      (array (cons (number (codes "1")) nil))
    ≡ object (field a (string b) end)
unfolding merge_patch remove_member set_member member text_eq strip_nulls
array_replaced = refl

nested_patch-IsKeyed : IsKeyed nested_patch
unfolding IsKeyed member text_eq
nested_patch-IsKeyed = (refl, (refl, tt, (refl, tt, tt)), tt)

abbrev zero_first : Value
zero_first =
    object (field c (number (codes "1")) (field a (object (field b null (field a null end))) end))

abbrev sorted : Value
sorted =
    object (field a (object (field a null (field b null end))) (field c (number (codes "1")) end))

abbrev quoted : Text → Text
quoted s = b'"' ∷ s ++ b'"' ∷ []

canonical : canonical_string quoted zero_first ≡ codes "{\"a\":{\"a\":null,\"b\":null},\"c\":1}"
unfolding canonical_string text_ltb
canonical = refl

same_document : SameDocument zero_first sorted
unfolding text_eq
same_document = in_object (
    and_then
      (swapped c a (number (codes "1")) (object (field b null (field a null end))) end
        (λ e. ground (arith, text_eq_iff c a)))
      (below a (in_object (swapped b a null null end (λ e. ground (arith, text_eq_iff b a))))
        (below c (same (number (codes "1"))) no_fields)))

merge_patch-rfc_example :
    (merge_patch nested_patch nested_target ≡ rfc_merge nested_patch (some nested_target))
    × (strip_nulls nested_patch ≡ rfc_merge nested_patch none)
merge_patch-rfc_example = merge_patch-rfc nested_patch nested_target nested_patch-IsKeyed

canonical_string-key_order_example :
    canonical_string quoted zero_first ≡ canonical_string quoted sorted
canonical_string-key_order_example =
    canonical_string-key_order quoted zero_first sorted same_document
