-- ===== src/Path/Children.antt =====
-- A path spelled by `child` or `pick` reads back, and reaches the child that it was spelled for.
use nsclient_fleet_server.Common.{
  ℕ, ◌≤◌, Bool, true, false, ◌≡◌, refl, sym, ap, ◌∙◌, List, [], ◌∷◌, ◌++◌, some, arith, All, eqb,
  is_empty, append-nil, subst, length, Bool-cases, any, flat_map, if◌then◌else◌, inl, inr,
}
use nsclient_fleet_server.Common.Text.{Text}
use nsclient_fleet_server.Common.Result.{ok}
use nsclient_fleet_server.Json.{Value}
use nsclient_fleet_server.Path.Parse.{
  Segment, FactPath, bracket_close, dot, is_delimiter, parse, try_from, max_fact_path_len,
}
use nsclient_fleet_server.Path.Spell.{child, pick, in_brackets, has_close}
use nsclient_fleet_server.Path.Resolve.{resolve, resolve_from, pick_all, pick_value, step_into}
use nsclient_fleet_server.Path.Grammar.{IsPath, render}
use nsclient_fleet_server.Path.Sound.{parse_sound}
use nsclient_fleet_server.Path.Complete.{parse-render}
use nsclient_fleet_server.Path.Extend.{
  add_id, plain_segment, render-add_id, render-add_key, IsPath-add_id, IsPath-add_key,
  resolve_from-add_id, resolve_from-add_key,
}

any-false→All : (p : ℕ → Bool) (s : Text) → any p s ≡ false → All (λ c. p c ≡ false) s
any-false→All p [] h = tt
any-false→All p (c ∷ s) h = ground (arith, any-false→All p s)

-- A well-formed list of segments that is short enough is accepted when it is read back.
try_from-render :
    (segs : List Segment) (p : Text)
    → IsPath segs
    → render segs ≡ p
    → length p ≤ max_fact_path_len
    → try_from p ≡ ok (record { raw = p; segments = segs })
unfolding try_from
try_from-render segs p w e l =
    ground (
      arith,
      subst (λ t. parse t ≡ ok (record { raw = t; segments = segs })) e (parse-render segs w),
    )

module _ (parent key p : Text) (in_record : Bool) where
  child-bracketed :
      child parent key in_record ≡ some p
      → any is_delimiter key ≡ true
      → (p ≡ parent ++ in_brackets key)
        × (is_empty key ≡ false)
        × (has_close key ≡ false)
        × (length p ≤ max_fact_path_len)
  unfolding child
  child-bracketed h e = ground arith

  child-dotted :
      child parent key in_record ≡ some p
      → any is_delimiter key ≡ false
      → is_empty parent ≡ false
      → (p ≡ parent ++ dot ∷ key) × (is_empty key ≡ false) × (length p ≤ max_fact_path_len)
  unfolding child
  child-dotted h e n = ground arith

  child-first :
      child parent key in_record ≡ some p
      → is_empty parent ≡ true
      → (p ≡ key)
        × (is_empty key ≡ false)
        × (any is_delimiter key ≡ false)
        × (length p ≤ max_fact_path_len)
  unfolding child
  child-first h n = ground arith

pick-bracketed :
    (parent id p : Text)
    → pick parent id ≡ some p
    → (p ≡ parent ++ in_brackets id)
      × (is_empty id ≡ false)
      × (has_close id ≡ false)
      × (length p ≤ max_fact_path_len)
unfolding pick
pick-bracketed parent id p h = ground arith

-- One key, or one pick, below the values of a path.
abbrev pub Reaches : FactPath → (Value → List Value) → Text → Type 0
Reaches from step p =
    (to : FactPath) × (try_from p ≡ ok to)
    × ((doc : Value) → resolve to doc ≡ flat_map step (resolve from doc))

module _ (parent : Text) (from : FactPath) (parsed : parse parent ≡ ok from) where
  parent-IsPath : IsPath from.segments × (render from.segments ≡ parent)
  parent-IsPath = ((parse_sound parent from parsed).1, (parse_sound parent from parsed).2)

  parent-ne-nil : is_empty parent ≡ false
  unfolding parse
  parent-ne-nil = elim (Bool-cases (is_empty parent)) [ inl e ↦ ground arith | inr e ↦ e ]

  bracketed-Reaches :
      (id p : Text)
      → p ≡ parent ++ in_brackets id
      → is_empty id ≡ false
      → has_close id ≡ false
      → length p ≤ max_fact_path_len
      → Reaches from (pick_value id) p
  unfolding resolve
  bracketed-Reaches id p e n c l = (
    record { raw = p; segments = add_id from.segments id },
    try_from-render (add_id from.segments id) p
        (IsPath-add_id from.segments id parent-IsPath.0
          (n, any-false→All (λ c. eqb c bracket_close) id c))
        (render-add_id from.segments id parent-IsPath.0.0
          ∙ ap (λ t. t ++ in_brackets id) parent-IsPath.1
          ∙ sym e)
        l,
    λ doc. resolve_from-add_id from.segments id (doc ∷ []) parent-IsPath.0.0,
  )

  dotted-Reaches :
      (key p : Text)
      → p ≡ parent ++ dot ∷ key
      → is_empty key ≡ false
      → any is_delimiter key ≡ false
      → length p ≤ max_fact_path_len
      → Reaches from (step_into key) p
  unfolding resolve
  dotted-Reaches key p e n d l = (
    record { raw = p; segments = from.segments ++ plain_segment key ∷ [] },
    try_from-render (from.segments ++ plain_segment key ∷ []) p
        (IsPath-add_key from.segments key parent-IsPath.0 (n, any-false→All is_delimiter key d))
        (render-add_key from.segments key parent-IsPath.0.0
          ∙ ap (λ t. t ++ dot ∷ key) parent-IsPath.1
          ∙ sym e)
        l,
    λ doc. resolve_from-add_key from.segments key (doc ∷ []),
  )

-- Under a parent that parses, whatever `child` spells is accepted when it is read back, and reaches
-- exactly the key in each value of the parent: by a step if the key is plain, by a pick if not.
pub child-resolve :
    (parent key p : Text) (in_record : Bool) (from : FactPath)
    → parse parent ≡ ok from
    → child parent key in_record ≡ some p
    → Reaches from (if any is_delimiter key then pick_value key else step_into key) p
child-resolve parent key p in_record from parsed h = elim (Bool-cases (any is_delimiter key)) [
  | inl e ↦
      let c = child-bracketed parent key p in_record h e in
      rw e (bracketed-Reaches parent from parsed key p c.0 c.1 c.2 c.3)
  | inr e ↦
      let c = child-dotted parent key p in_record h e (parent-ne-nil parent from parsed) in
      rw e (dotted-Reaches parent from parsed key p c.0 c.1 e c.2)
]

-- At the top, what `child` spells is the key itself, and reaches the key in the document.
pub child-resolve_top :
    (key p : Text) (in_record : Bool)
    → child [] key in_record ≡ some p
    → (to : FactPath) × (try_from p ≡ ok to) × ((doc : Value) → resolve to doc ≡ step_into key doc)
unfolding resolve resolve_from pick_all render
child-resolve_top key p in_record h =
    let c = child-first [] key p in_record h refl in
    (
      record { raw = p; segments = plain_segment key ∷ [] },
      try_from-render (plain_segment key ∷ []) p
          (refl, (((c.1, any-false→All is_delimiter key c.2), tt), tt)) (append-nil key ∙ sym c.0)
          c.3,
      λ doc. append-nil (step_into key doc),
    )

-- Under a parent that parses, whatever `pick` spells is accepted when it is read back, and reaches
-- exactly the records with that id, or the entries with that key, of the parent's values.
pub pick-resolve :
    (parent id p : Text) (from : FactPath)
    → parse parent ≡ ok from
    → pick parent id ≡ some p
    → Reaches from (pick_value id) p
pick-resolve parent id p from parsed h =
    let c = pick-bracketed parent id p h in
    bracketed-Reaches parent from parsed id p c.0 c.1 c.2 c.3
