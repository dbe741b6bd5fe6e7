-- ===== src/Facts/Diff/Keeps.antt =====
-- What every change and every mark keeps, the whole comparison keeps.
use nsclient_fleet_server.Common.{
  ℕ, zero, suc, Bool, true, false, ◌≡◌, inl, inr, List, [], ◌∷◌, Option, none, some, any, ◌==◌,
  Bool-cases, Option-cases, if◌then◌else◌,
}
use nsclient_fleet_server.Common.Text.{Text, text_equality}
use nsclient_fleet_server.Common.TextSet.{insert, contains}
use nsclient_fleet_server.Common.Dict.{get}
use nsclient_fleet_server.Json.{Value, Items, Fields, array, object, elements, member}
use nsclient_fleet_server.Path.Spell.{child, pick}
use nsclient_fleet_server.Facts.Diff.Equal.{value_eq, option_eq}
use nsclient_fleet_server.Facts.Diff.{
  ChangeKind, added, removed, changed, Differ, Visit, push, changed_beneath, at_key, object_key,
  object_keys, removed_record, removed_records, new_record, new_records, records, record_ids, lists,
  compared, value, zip, collect, keys_onto,
}

module _ (Q : Text → Type 0) (P : Differ → Type 0)
    (child-Q : (path k p : Text) → Q path → child path k false ≡ some p → Q p)
    (pick-Q : (path id p : Text) → Q path → pick path id ≡ some p → Q p)
    (push-P : (path : Text) (kind : ChangeKind) (old new : Option Value) (d : Differ)
      → Q path
      → P d
      → P (push path kind old new d))
    (mark-P : (path : Text) (d : Differ)
      → P d
      → P (record d { at_parent = insert path d.at_parent })) where
  abbrev Keeps : Visit → Type 0
  Keeps visit = (path : Text) (o n : Value) (d : Differ) → Q path → P d → P (visit path o n d)

  changed_beneath-P : (path : Text) (d : Differ) → Q path → P d → P (changed_beneath path d)
  unfolding changed_beneath
  changed_beneath-P path d q p = elim (Bool-cases (contains path d.at_parent)) [
    | inl e ↦ rw e p
    | inr e ↦ rw e (
        push-P path changed none none (record d { at_parent = insert path d.at_parent }) q
          (mark-P path d p))
  ]

  at_key-P :
      (visit : Visit)
      → Keeps visit
      → (path : Text) (o n : Option Value) (d : Differ) → Q path
      → P d
      → P (at_key visit path o n d)
  at_key-P visit kv path (some o) (some n) d q p = kv path o n d q p
  at_key-P visit kv path (some o) none d q p = push-P path removed (some o) none d q p
  at_key-P visit kv path none (some n) d q p = push-P path added none (some n) d q p
  at_key-P visit kv path none none d q p = p

  or_beneath-P :
      (b : Bool) (path : Text) (d : Differ)
      → Q path
      → P d
      → P (if b then d else changed_beneath path d)
  or_beneath-P true path d q p = p
  or_beneath-P false path d q p = changed_beneath-P path d q p

  object_key-P :
      (visit : Visit)
      → Keeps visit
      → (path : Text) (o n : Fields) (k : Text) (d : Differ) → Q path
      → P d
      → P (object_key visit path o n k d)
  unfolding object_key
  object_key-P visit kv path o n k d q p = elim (Option-cases (child path k false)) [
    | inl e ↦ rw (e, object_key) (or_beneath-P (option_eq (member k o) (member k n)) path d q p)
    | inr (c, e) ↦
        rw (e, object_key)
          (at_key-P visit kv c (member k o) (member k n) d (child-Q path k c q e) p)
  ]

  object_keys-P :
      (visit : Visit)
      → Keeps visit
      → (path : Text) (o n : Fields) (ks : List Text) (d : Differ) → Q path
      → P d
      → P (object_keys visit path o n ks d)
  object_keys-P visit kv path o n [] d q p = p
  object_keys-P visit kv path o n (k ∷ ks) d q p =
      object_keys-P visit kv path o n ks (object_key visit path o n k d) q
        (object_key-P visit kv path o n k d q p)

  removed_record-P :
      (path : Text) (ids : List Text) (r : Text × Value) (d : Differ)
      → Q path
      → P d
      → P (removed_record path ids r d)
  unfolding removed_record
  removed_record-P path ids (id, v) d q p = elim (Bool-cases (any (λ j. j == id) ids)) [
    | inl e ↦ rw e p
    | inr e ↦ rw e (elim (Option-cases (pick path id)) [
      | inl f ↦ rw f (changed_beneath-P path d q p)
      | inr (c, f) ↦ rw f (push-P c removed (some v) none d (pick-Q path id c q f) p)
    ])
  ]

  removed_records-P :
      (path : Text) (ids : List Text) (rs : List (Text × Value)) (d : Differ)
      → Q path
      → P d
      → P (removed_records path ids rs d)
  removed_records-P path ids [] d q p = p
  removed_records-P path ids (r ∷ rs) d q p =
      removed_records-P path ids rs (removed_record path ids r d) q
        (removed_record-P path ids r d q p)

  new_record-P :
      (visit : Visit)
      → Keeps visit
      → (path : Text) (m : List (Text × Value)) (r : Text × Value) (d : Differ) → Q path
      → P d
      → P (new_record visit path m r d)
  unfolding new_record
  new_record-P visit kv path m (id, v) d q p = elim (Option-cases (pick path id)) [
    | inl e ↦ rw (e, new_record) (or_beneath-P (option_eq (get id m) (some v)) path d q p)
    | inr (c, e) ↦
        rw (e, new_record) (at_key-P visit kv c (get id m) (some v) d (pick-Q path id c q e) p)
  ]

  new_records-P :
      (visit : Visit)
      → Keeps visit
      → (path : Text) (m rs : List (Text × Value)) (d : Differ) → Q path
      → P d
      → P (new_records visit path m rs d)
  new_records-P visit kv path m [] d q p = p
  new_records-P visit kv path m (r ∷ rs) d q p =
      new_records-P visit kv path m rs (new_record visit path m r d) q
        (new_record-P visit kv path m r d q p)

  compared-P : (path : Text) (o n : Value) (d : Differ) → Q path → P d → P (compared path o n d)
  compared-P path o n d q p = elim (Bool-cases (value_eq o n)) [
    | inl e ↦ rw e p
    | inr e ↦ rw e (push-P path changed (some o) (some n) d q p)
  ]

  lists-P :
      (visit : Visit)
      → Keeps visit
      → (path : Text) (o n : Items) (oi ni : Option (List Text)) (d : Differ) → Q path
      → P d
      → P (lists visit path o n oi ni d)
  unfolding records
  lists-P visit kv path o n (some oi) (some ni) d q p =
      new_records-P visit kv path (collect (zip oi (elements o)) []) (zip ni (elements n))
        (removed_records path ni (zip oi (elements o)) d) q
        (removed_records-P path ni (zip oi (elements o)) d q p)
  lists-P visit kv path o n (some oi) none d q p = compared-P path (array o) (array n) d q p
  lists-P visit kv path o n none ni d q p = compared-P path (array o) (array n) d q p

  pub value-P : (n : ℕ) → Keeps (value n)
  unfolding value
  value-P zero path o m d q p = p
  value-P (suc n) path (object o) (object m) d q p =
      object_keys-P (value n) (value-P n) path o m (keys_onto m (keys_onto o [])) d q p
  value-P (suc n) path (array o) (array m) d q p =
      lists-P (value n) (value-P n) path o m (record_ids (elements o)) (record_ids (elements m)) d q
        p
  value-P (suc n) path old new d q p = compared-P path old new d q p
