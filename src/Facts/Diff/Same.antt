-- ===== src/Facts/Diff/Same.antt =====
-- A document does not differ from itself.
use nsclient_fleet_server.Common.{
  ℕ, zero, suc, false, ◌≡◌, refl, ap, ◌∙◌, inl, inr, List, [], ◌∷◌, Option, none, some,
  Option-cases, All,
}
use nsclient_fleet_server.Common.Text.{Text, text_equality}
use nsclient_fleet_server.Common.Dict.{get}
use nsclient_fleet_server.Json.{
  Value, Items, Fields, null, bool, number, string, array, object, elements, member,
}
use nsclient_fleet_server.Path.Spell.{child, pick}
use nsclient_fleet_server.Facts.Diff.{
  Differ, Visit, at_key, object_key, object_keys, new_record, new_records, records, record_ids,
  record_ids_from, lists, value, zip, collect, keys_onto, depth, diff,
}
use nsclient_fleet_server.Facts.Diff.Reflexive.{
  HasDistinctKeys, ItemsDistinct, FieldsDistinct, value_eq_refl, items_eq_refl,
  member-HasDistinctKeys, option_eq_refl,
}
use nsclient_fleet_server.Facts.Diff.Ids.{
  record_ids_from-Apart, collect-found, removed_records-none, any_self,
}

-- A comparison that does nothing between a value and itself.
abbrev Idle : Visit → Type 0
Idle visit = (path : Text) (v : Value) (d : Differ) → HasDistinctKeys v → visit path v v d ≡ d

module _ (visit : Visit) (idle : Idle visit) where
  at_key-Idle :
      (path : Text) (o : Option Value) (d : Differ)
      → ((v : Value) → o ≡ some v → HasDistinctKeys v)
      → at_key visit path o o d ≡ d
  at_key-Idle path none d h = refl
  at_key-Idle path (some v) d h = idle path v d (h v refl)

  object_key-Idle :
      (path : Text) (m : Fields) (k : Text) (d : Differ)
      → FieldsDistinct m
      → object_key visit path m m k d ≡ d
  unfolding object_key
  object_key-Idle path m k d dm =
      let good = λ (v : Value) (e : member k m ≡ some v). member-HasDistinctKeys k m v dm e in
      elim (Option-cases (child path k false)) [
        | inl e ↦ rw (e, object_key) (rw (option_eq_refl (member k m) good) refl)
        | inr (p, e) ↦ rw (e, object_key) (at_key-Idle p (member k m) d good)
      ]

  object_keys-Idle :
      (path : Text) (m : Fields) (ks : List Text) (d : Differ)
      → FieldsDistinct m
      → object_keys visit path m m ks d ≡ d
  object_keys-Idle path m [] d dm = refl
  object_keys-Idle path m (k ∷ ks) d dm =
      ap (object_keys visit path m m ks) (object_key-Idle path m k d dm)
      ∙ object_keys-Idle path m ks d dm

  new_record-Idle :
      (path : Text) (m : List (Text × Value)) (id : Text) (v : Value) (d : Differ)
      → get id m ≡ some v
      → HasDistinctKeys v
      → new_record visit path m (id, v) d ≡ d
  unfolding new_record
  new_record-Idle path m id v d g dv = elim (Option-cases (pick path id)) [
    | inl e ↦ rw (e, new_record) (rw g (rw (value_eq_refl v dv) refl))
    | inr (p, e) ↦ rw (e, new_record) (rw g (idle p v d dv))
  ]

  new_records-Idle :
      (path : Text) (m rs : List (Text × Value)) (d : Differ)
      → All (λ e. (get e.0 m ≡ some (e.1)) × HasDistinctKeys (e.1)) rs
      → new_records visit path m rs d ≡ d
  new_records-Idle path m [] d h = refl
  new_records-Idle path m ((id, v) ∷ rs) d (h, hs) =
      ap (new_records visit path m rs) (new_record-Idle path m id v d h.0 h.1)
      ∙ new_records-Idle path m rs d hs

lists-Idle :
    (visit : Visit) (path : Text) (vs : Items) (d : Differ)
    → Idle visit
    → ItemsDistinct vs
    → lists visit path vs vs (record_ids (elements vs)) (record_ids (elements vs)) d ≡ d
unfolding records record_ids
lists-Idle visit path vs d idle dv = elim (Option-cases (record_ids_from [] (elements vs))) [
  | inl e ↦ rw (e, record_ids) (rw (items_eq_refl vs dv) refl)
  | inr (ids, e) ↦
      let a = record_ids_from-Apart [] (elements vs) ids e in
      rw (e, record_ids)
        (ap (new_records visit path (collect (zip ids (elements vs)) []) (zip ids (elements vs)))
            (removed_records-none path ids ids (elements vs) d (any_self ids))
          ∙ new_records-Idle visit idle path (collect (zip ids (elements vs)) [])
              (zip ids (elements vs)) d (collect-found ids vs [] a.0 dv))
]

value-Idle : (n : ℕ) → Idle (value n)
unfolding value
value-Idle zero path v d h = refl
value-Idle (suc n) path null d h = refl
value-Idle (suc n) path (bool b) d h = rw (value_eq_refl (bool b) h) refl
value-Idle (suc n) path (number s) d h = rw (value_eq_refl (number s) h) refl
value-Idle (suc n) path (string s) d h = rw (value_eq_refl (string s) h) refl
value-Idle (suc n) path (array vs) d h = lists-Idle (value n) path vs d (value-Idle n) h
value-Idle (suc n) path (object m) d h =
    object_keys-Idle (value n) (value-Idle n) path m (keys_onto m (keys_onto m [])) d h

-- Between a document whose objects have distinct keys and itself there is no difference, whatever
-- the limit: nothing is listed and nothing is counted as truncated.
pub diff_self :
    (v : Value) (limit : ℕ)
    → HasDistinctKeys v
    → diff v v limit ≡ record { changes = []; truncated = 0 }
unfolding diff
diff_self v limit h =
    ap (λ x. x.out)
      (value-Idle (depth v) [] v
        (record { out = record { changes = []; truncated = 0 }; max = limit; at_parent = [] }) h)
