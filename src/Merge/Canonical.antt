-- ===== src/Merge/Canonical.antt =====
-- `canonical_string` and `write_canonical`. `encode` is serde_json's encoding of a string, with its
-- quotes. What the source pushes to one buffer is appended here.
use nsclient_fleet_server.Common.{true, false, List, [], ◌∷◌, ◌++◌, if◌then◌else◌}
use nsclient_fleet_server.Common.Text.{Text, codes, text_ltb}
use nsclient_fleet_server.Json.{
  Value, null, bool, number, string, array, object, Items, nil, cons, Fields, end, field,
}

-- A key of a map with the text of its value.
abbrev pub Written : Type 0
Written = Text × Text

-- `keys.sort()`
unfoldable pub insert_key : Written → List Written → List Written
insert_key w [] = w ∷ []
insert_key w (u ∷ us) =
    let later = u ∷ insert_key w us in if text_ltb w.0 u.0 then w ∷ u ∷ us else later

unfoldable pub sort_keys : List Written → List Written
unfolding insert_key
sort_keys [] = []
sort_keys (w ∷ ws) = insert_key w (sort_keys ws)

-- Items with a comma before each but the first.
unfoldable pub separated : List Text → Text
separated [] = []
separated (t ∷ []) = t
separated (t ∷ u ∷ ts) = t ++ b',' ∷ separated (u ∷ ts)

module _ (encode : Text → Text) where
  unfoldable pub write_members : List Written → List Text
  write_members [] = []
  write_members ((k, v) ∷ ws) = (encode k ++ b':' ∷ v) ∷ write_members ws

  unfoldable mutual
    unfolding sort_keys separated write_members

    pub canonical_string : Value → Text
    canonical_string null = codes "null"
    canonical_string (bool true) = codes "true"
    canonical_string (bool false) = codes "false"
    canonical_string (number n) = n
    canonical_string (string s) = encode s
    canonical_string (array xs) = b'[' ∷ separated (written_items xs) ++ b']' ∷ []
    canonical_string (object m) =
        b'{' ∷ separated (write_members (sort_keys (written_fields m))) ++ b'}' ∷ []

    pub written_items : Items → List Text
    written_items nil = []
    written_items (cons v xs) = canonical_string v ∷ written_items xs

    pub written_fields : Fields → List Written
    written_fields end = []
    written_fields (field k v m) = (k, canonical_string v) ∷ written_fields m
