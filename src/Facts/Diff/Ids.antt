-- ===== src/Facts/Diff/Ids.antt =====
-- A list of records finds each of its records by its id.
use nsclient_fleet_server.Common.{
  true, false, ◌≡◌, refl, ap, ◌∙◌, sym, subst, inl, inr, List, [], ◌∷◌, Option, none, some,
  Option-cases, Bool-cases, ◌==◌, arith, any, All,
}
use nsclient_fleet_server.Common.Text.{Text, text_equality, text_eq_iff, text_eq_refl}
use nsclient_fleet_server.Common.TextSet.{insert, contains}
use nsclient_fleet_server.Common.Dict.{get, put, get-put}
use nsclient_fleet_server.Json.{Value, Items, nil, cons, elements}
use nsclient_fleet_server.Facts.Diff.{
  Differ, onto_ids, id_of, removed_record, removed_records, record_ids_from, zip, collect,
}
use nsclient_fleet_server.Facts.Diff.Reflexive.{HasDistinctKeys, ItemsDistinct}

-- Ids without repeats.
abbrev pub Apart : List Text → Type 0
Apart [] = Unit
Apart (id ∷ ids) = (any (λ j. j == id) ids ≡ false) × Apart ids

pub contains-insert :
    (j k : Text) (m : List Text)
    → contains j (insert k m) ≡ false
    → (contains j m ≡ false) × (k == j ≡ false)
unfolding contains insert
contains-insert j k [] h = ground arith
contains-insert j k (i ∷ m) h =
    ground (arith, text_eq_iff k i, text_eq_iff i j, text_eq_iff k j, contains-insert j k m)

abbrev pub Unseen : List Text → List Text → Type 0
Unseen seen = All (λ id. contains id seen ≡ false)

pub Unseen-insert :
    (id : Text) (seen ids : List Text)
    → Unseen (insert id seen) ids
    → Unseen seen ids × (any (λ j. j == id) ids ≡ false)
Unseen-insert id seen [] h = (tt, refl)
Unseen-insert id seen (j ∷ ids) h =
    let c = contains-insert j id seen h.0 in
    let r = Unseen-insert id seen ids h.1 in
    ((c.0, r.0), ground (arith, text_eq_iff j id, text_eq_iff id j))

pub onto_ids-some :
    (id : Text) (o : Option (List Text)) (ids : List Text)
    → onto_ids id o ≡ some ids
    → (rest : List Text) × (o ≡ some rest) × (ids ≡ id ∷ rest)
onto_ids-some id none ids h = cc
onto_ids-some id (some rest) ids h = (rest, refl, ground arith)

pub record_ids_from-Apart :
    (seen : List Text) (vs : List Value) (ids : List Text)
    → record_ids_from seen vs ≡ some ids
    → Apart ids × Unseen seen ids
unfolding record_ids_from
record_ids_from-Apart seen [] ids h =
    let e : [] ≡ ids = ground arith in subst (λ x. Apart x × Unseen seen x) e (tt, tt)
record_ids_from-Apart seen (v ∷ vs) ids h = elim (Option-cases (id_of v)) [
  | inl e ↦ ground arith
  | inr (id, e) ↦ elim (Bool-cases (contains id seen)) [
    | inl f ↦ ground arith
    | inr f ↦
        let o = onto_ids-some id (record_ids_from (insert id seen) vs) ids (ground arith) in
        let r = record_ids_from-Apart (insert id seen) vs o.0 o.1 in
        let u = Unseen-insert id seen o.0 r.1 in
        subst (λ x. Apart x × Unseen seen x) (sym (o.2)) ((u.1, r.0), (f, u.0))
  ]
]

-- No record of the list has the id.
abbrev pub Without : Text → List (Text × Value) → Type 0
Without id = All (λ e. e.0 == id ≡ false)

pub get-collect :
    (id : Text) (rs m : List (Text × Value)) → Without id rs → get id (collect rs m) ≡ get id m
get-collect id [] m h = refl
get-collect id ((j, v) ∷ rs) m h =
    get-collect id rs (put j v m) h.1 ∙ get-put j id v m ∙ rw (h.0) refl

pub zip-Without :
    (id : Text) (ids : List Text) (vs : List Value)
    → any (λ j. j == id) ids ≡ false
    → Without id (zip ids vs)
zip-Without id [] vs h = tt
zip-Without id (j ∷ ids) [] h = tt
zip-Without id (j ∷ ids) (v ∷ vs) h = (ground arith, zip-Without id ids vs (ground arith))

pub collect-found :
    (ids : List Text) (vs : Items) (m : List (Text × Value))
    → Apart ids
    → ItemsDistinct vs
    → All
        (λ e. (get e.0 (collect (zip ids (elements vs)) m) ≡ some (e.1)) × HasDistinctKeys (e.1))
        (zip ids (elements vs))
collect-found [] vs m a d = tt
collect-found (id ∷ ids) nil m a d = tt
collect-found (id ∷ ids) (cons v vs) m (n, a) (dv, d) = (
  (
    get-collect id (zip ids (elements vs)) (put id v m) (zip-Without id ids (elements vs) n)
        ∙ get-put id id v m
        ∙ rw (text_eq_refl id) refl,
    dv,
  ),
  collect-found ids vs (put id v m) a d,
)

pub removed_record-none :
    (path : Text) (every : List Text) (id : Text) (v : Value) (d : Differ)
    → any (λ j. j == id) every ≡ true
    → removed_record path every (id, v) d ≡ d
unfolding removed_record
removed_record-none path every id v d h = rw (h, removed_record) refl

-- Every record's id is among the ids.
pub removed_records-none :
    (path : Text) (ids all_ids : List Text) (vs : List Value) (d : Differ)
    → All (λ id. any (λ j. j == id) all_ids ≡ true) ids
    → removed_records path all_ids (zip ids vs) d ≡ d
removed_records-none path [] every vs d h = refl
removed_records-none path (id ∷ ids) every [] d h = refl
removed_records-none path (id ∷ ids) every (v ∷ vs) d h =
    ap (removed_records path every (zip ids vs)) (removed_record-none path every id v d h.0)
    ∙ removed_records-none path ids every vs d h.1

pub any-cons :
    (i : Text) (ids every : List Text)
    → All (λ id. any (λ j. j == id) every ≡ true) ids
    → All (λ id. any (λ j. j == id) (i ∷ every) ≡ true) ids
any-cons i [] every h = tt
any-cons i (id ∷ ids) every h = (ground (arith, h.0), any-cons i ids every h.1)

pub any_self : (ids : List Text) → All (λ id. any (λ j. j == id) ids ≡ true) ids
any_self [] = tt
any_self (id ∷ ids) = (rw (text_eq_refl id) refl, any-cons id ids ids (any_self ids))
