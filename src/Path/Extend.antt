-- ===== src/Path/Extend.antt =====
-- Adding a pick or a key at the end of a path: how it is written, and what it reaches.
use nsclient_fleet_server.Common.{
  false, ◌≡◌, refl, sym, ap, ◌∙◌, List, [], ◌∷◌, ◌++◌, All, is_empty, append_assoc, append-nil,
  flat_map,
}
use nsclient_fleet_server.Common.Text.{Text}
use nsclient_fleet_server.Json.{Value}
use nsclient_fleet_server.Path.Parse.{Segment, bracket_open, bracket_close, dot}
use nsclient_fleet_server.Path.Spell.{in_brackets}
use nsclient_fleet_server.Path.Resolve.{resolve_from, pick_all, pick_value, step_into}
use nsclient_fleet_server.Path.Grammar.{
  IsKey, IsId, IsSegment, IsPath, render_ids, render_segment, render,
}

-- One more pick on the last segment.
abbrev pub add_id : List Segment → Text → List Segment
add_id [] id = []
add_id (s ∷ []) id = record s { ids = s.ids ++ id ∷ [] } ∷ []
add_id (s ∷ t ∷ segs) id = s ∷ add_id (t ∷ segs) id

abbrev pub plain_segment : Text → Segment
plain_segment key = record { key = key; ids = [] }

render_ids-append :
    (ids : List Text) (id : Text) → render_ids (ids ++ id ∷ []) ≡ render_ids ids ++ in_brackets id
render_ids-append [] id = refl
render_ids-append (i ∷ ids) id =
    ap (λ t. bracket_open ∷ (i ++ bracket_close ∷ t)) (render_ids-append ids id)
    ∙ ap (λ t. bracket_open ∷ t)
        (sym (append_assoc i (bracket_close ∷ render_ids ids) (in_brackets id)))

pub render-add_id :
    (segs : List Segment) (id : Text)
    → is_empty segs ≡ false
    → render (add_id segs id) ≡ render segs ++ in_brackets id
unfolding render
render-add_id [] id h = cc
render-add_id (s ∷ []) id h =
    ap (λ t. s.key ++ t) (render_ids-append s.ids id)
    ∙ sym (append_assoc s.key (render_ids s.ids) (in_brackets id))
render-add_id (s ∷ t ∷ []) id h =
    ap (λ u. render_segment s ++ dot ∷ u) (render-add_id (t ∷ []) id refl)
    ∙ sym (append_assoc (render_segment s) (dot ∷ render_segment t) (in_brackets id))
render-add_id (s ∷ t ∷ u ∷ segs) id h =
    ap (λ u. render_segment s ++ dot ∷ u) (render-add_id (t ∷ u ∷ segs) id refl)
    ∙ sym (append_assoc (render_segment s) (dot ∷ render (t ∷ u ∷ segs)) (in_brackets id))

pub render-add_key :
    (segs : List Segment) (key : Text)
    → is_empty segs ≡ false
    → render (segs ++ plain_segment key ∷ []) ≡ render segs ++ dot ∷ key
unfolding render
render-add_key [] key h = cc
render-add_key (s ∷ []) key h = rw append-nil
render-add_key (s ∷ t ∷ segs) key h =
    ap (λ u. render_segment s ++ dot ∷ u) (render-add_key (t ∷ segs) key refl)
    ∙ sym (append_assoc (render_segment s) (dot ∷ render (t ∷ segs)) (dot ∷ key))

All-append : {A : Type 0} (P : A → Type 0) (xs ys : List A) → All P xs → All P ys → All P (xs ++ ys)
All-append P [] ys h k = k
All-append P (x ∷ xs) ys h k = (h.0, All-append P xs ys h.1 k)

pub IsPath-add_id :
    (segs : List Segment) (id : Text) → IsPath segs → IsId id → IsPath (add_id segs id)
IsPath-add_id [] id h k = h
IsPath-add_id (s ∷ []) id h k =
    (refl, ((h.1.0.0, All-append IsId s.ids (id ∷ []) h.1.0.1 (k, tt)), tt))
IsPath-add_id (s ∷ t ∷ segs) id h k =
    (refl, (h.1.0, (IsPath-add_id (t ∷ segs) id (refl, h.1.1) k).1))

pub IsPath-add_key :
    (segs : List Segment) (key : Text)
    → IsPath segs
    → IsKey key
    → IsPath (segs ++ plain_segment key ∷ [])
IsPath-add_key [] key h k = (refl, ((k, tt), tt))
IsPath-add_key (s ∷ segs) key h k =
    (refl, (h.1.0, All-append IsSegment segs (plain_segment key ∷ []) h.1.1 ((k, tt), tt)))

-- Resolving through the added part.
pick_all-append :
    (ids : List Text) (id : Text) (vs : List Value)
    → pick_all (ids ++ id ∷ []) vs ≡ flat_map (pick_value id) (pick_all ids vs)
unfolding pick_all
pick_all-append [] id vs = refl
pick_all-append (i ∷ ids) id vs = pick_all-append ids id (flat_map (pick_value i) vs)

pub resolve_from-add_id :
    (segs : List Segment) (id : Text) (vs : List Value)
    → is_empty segs ≡ false
    → resolve_from (add_id segs id) vs ≡ flat_map (pick_value id) (resolve_from segs vs)
unfolding resolve_from
resolve_from-add_id [] id vs h = cc
resolve_from-add_id (s ∷ []) id vs h = pick_all-append s.ids id (flat_map (step_into s.key) vs)
resolve_from-add_id (s ∷ t ∷ segs) id vs h =
    resolve_from-add_id (t ∷ segs) id (pick_all s.ids (flat_map (step_into s.key) vs)) refl

pub resolve_from-add_key :
    (segs : List Segment) (key : Text) (vs : List Value)
    → resolve_from (segs ++ plain_segment key ∷ []) vs
      ≡ flat_map (step_into key) (resolve_from segs vs)
unfolding resolve_from
resolve_from-add_key [] key vs = refl
resolve_from-add_key (s ∷ segs) key vs =
    resolve_from-add_key segs key (pick_all s.ids (flat_map (step_into s.key) vs))
