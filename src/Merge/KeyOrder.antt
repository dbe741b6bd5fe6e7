-- ===== src/Merge/KeyOrder.antt =====
-- The canonical text of a document does not depend on the order of its keys, at any depth.
use nsclient_fleet_server.Common.{
  true, false, ◌≡◌, ◌≢◌, refl, sym, ◌∙◌, ap, ap₂, List, [], ◌∷◌, ◌++◌, arith, Bool-cases, inl, inr,
}
use nsclient_fleet_server.Common.Text.{
  Text, text_eq_iff, text_ltb, text_ltb_trans, text_ltb-total, text_ltb_irrefl,
}
use nsclient_fleet_server.Json.{Value, array, object, Items, nil, cons, Fields, end, field}
use nsclient_fleet_server.Merge.Canonical.{
  Written, insert_key, sort_keys, separated, write_members, canonical_string, written_items,
  written_fields,
}

-- The same document up to the order of the keys of its objects: two different keys may change
-- places, here and in every value below.
mutual
  pub data SameDocument : Value → Value → Type 0 where
    same : (v : Value) → SameDocument v v
    in_array : {xs ys : Items} → SameItems xs ys → SameDocument (array xs) (array ys)
    in_object : {m n : Fields} → SameFields m n → SameDocument (object m) (object n)

  pub data SameItems : Items → Items → Type 0 where
    no_items : SameItems nil nil
    each :
        {v w : Value} {xs ys : Items}
        → SameDocument v w
        → SameItems xs ys
        → SameItems (cons v xs) (cons w ys)

  pub data SameFields : Fields → Fields → Type 0 where
    no_fields : SameFields end end
    below :
        {v w : Value} {m n : Fields} (k : Text)
        → SameDocument v w
        → SameFields m n
        → SameFields (field k v m) (field k w n)
    swapped :
        (j k : Text) (v w : Value) (m : Fields)
        → j ≢ k
        → SameFields (field j v (field k w m)) (field k w (field j v m))
    and_then : {m n o : Fields} → SameFields m n → SameFields n o → SameFields m o

text_ltb-asym : (s t : Text) → text_ltb s t ≡ true → text_ltb t s ≡ false
text_ltb-asym s t h = ground (arith, text_ltb_trans s t s, text_ltb_irrefl s)

insert_key-insert_key :
    (a b : Written) (l : List Written)
    → text_ltb a.0 b.0 ≡ true
    → insert_key a (insert_key b l) ≡ insert_key b (insert_key a l)
unfolding insert_key
insert_key-insert_key a b [] h = ground (arith, text_ltb-asym a.0 b.0)
insert_key-insert_key a b (c ∷ l) h =
    ground (arith, text_ltb-asym a.0 b.0, text_ltb_trans a.0 b.0 c.0, insert_key-insert_key a b l)

insert_key_comm :
    (a b : Written) (l : List Written)
    → a.0 ≢ b.0
    → insert_key a (insert_key b l) ≡ insert_key b (insert_key a l)
insert_key_comm a b l n = elim (Bool-cases (text_ltb a.0 b.0)) [
  | inl h ↦ insert_key-insert_key a b l h
  | inr h ↦
      sym
        (insert_key-insert_key b a l (ground (arith, text_ltb-total a.0 b.0, text_eq_iff a.0 b.0)))
]

module _ (encode : Text → Text) where
  mutual
    unfolding canonical_string sort_keys

    canonical_string-same :
        {v w : Value} → SameDocument v w → canonical_string encode v ≡ canonical_string encode w
    canonical_string-same (same v) = refl
    canonical_string-same (in_array h) =
        ap (λ ts. b'[' ∷ separated ts ++ b']' ∷ []) (written_items-same h)
    canonical_string-same (in_object h) =
        ap (λ ws. b'{' ∷ separated (write_members encode ws) ++ b'}' ∷ []) (sort_keys-same h)

    written_items-same :
        {xs ys : Items} → SameItems xs ys → written_items encode xs ≡ written_items encode ys
    written_items-same no_items = refl
    written_items-same (each h hs) = ap₂ ◌∷◌ (canonical_string-same h) (written_items-same hs)

    sort_keys-same :
        {m n : Fields}
        → SameFields m n
        → sort_keys (written_fields encode m) ≡ sort_keys (written_fields encode n)
    sort_keys-same no_fields = refl
    sort_keys-same (below k h hs) =
        ap₂ (λ t ws. insert_key (k, t) ws) (canonical_string-same h) (sort_keys-same hs)
    sort_keys-same (swapped j k v w m n) =
        insert_key_comm (j, canonical_string encode v) (k, canonical_string encode w)
          (sort_keys (written_fields encode m)) n
    sort_keys-same (and_then h hs) = sort_keys-same h ∙ sort_keys-same hs

-- Two documents that differ only in the order of the keys of their objects, at any depth, have the
-- same canonical text.
pub canonical_string-key_order :
    (encode : Text → Text) (v w : Value)
    → SameDocument v w
    → canonical_string encode v ≡ canonical_string encode w
canonical_string-key_order encode v w h = canonical_string-same encode h
