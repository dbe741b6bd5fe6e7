-- ===== src/Path/Complete.antt =====
-- Every well-formed list of segments is read back from what it is written as.
use nsclient_fleet_server.Common.{
  ℕ, zero, suc, ◌+◌, ◌≤◌, ◌<◌, false, ◌≡◌, refl, sym, ap, ◌∙◌, List, [], ◌∷◌, ◌++◌, arith, All,
  is_empty, append_assoc, append-nil, length, length-append, length-pos, is_empty-pos,
}
use nsclient_fleet_server.Common.Text.{Text}
use nsclient_fleet_server.Common.Result.{Result, ok, ◌>>=◌}
use nsclient_fleet_server.Path.Parse.{
  Segment, bracket_open, bracket_close, dot, split_key, take_id, ids_loop, segment_step,
  after_segment, segments_loop, parse, PathError,
}
use nsclient_fleet_server.Path.Grammar.{
  IsId, IsSegment, IsPath, render_ids, render_segment, render, AtDelimiter, NoBracket,
  split_key-append, find_close-append,
}

ids_loop-render :
    (f : ℕ) (ids : List Text) (r : Text) (acc : List Text)
    → All IsId ids
    → NoBracket r
    → length ids < f
    → ids_loop f (render_ids ids ++ r) acc ≡ ok (acc ++ ids, r)
unfolding ids_loop
ids_loop-render zero ids r acc h n l = absurd (omega arith)
ids_loop-render (suc f) [] [] acc h n l = rw append-nil
ids_loop-render (suc f) [] (c ∷ r) acc h n l = rw (n, append-nil)
ids_loop-render (suc f) ([] ∷ ids) r acc h n l = cc
ids_loop-render (suc f) ((c ∷ i) ∷ ids) r acc h n l =
    ap (λ t. ids_loop (suc f) (bracket_open ∷ t) acc)
      (append_assoc (c ∷ i) (bracket_close ∷ render_ids ids) r)
    ∙ rw (find_close-append (c ∷ i) (render_ids ids ++ r) h.0.1, take_id)
        (ids_loop-render f ids r (acc ++ (c ∷ i) ∷ []) h.1 n (omega arith) ∙ rw append_assoc)

pub length-render_ids : (ids : List Text) → length ids ≤ length (render_ids ids)
length-render_ids [] = omega arith
length-render_ids (i ∷ ids) =
    omega (arith, length-render_ids ids, length-append i (bracket_close ∷ render_ids ids))

abbrev pub Next : Type 0
Next = Text → List Segment → Result (List Segment) PathError

pub segment_step-key :
    (key rest : Text) (next : Next) (acc : List Segment)
    → is_empty key ≡ false
    → segment_step (key, rest) next acc ≡ (
        ids_loop (length rest + 1) rest [] >>= λ p.
        after_segment p.1 next (acc ++ record { key = key; ids = p.0 } ∷ []))
unfolding segment_step
segment_step-key [] rest next acc h = cc
segment_step-key (c ∷ k) rest next acc h = refl

step-render :
    (s : Segment) (r : Text) (next : Next) (acc : List Segment)
    → IsSegment s
    → NoBracket r
    → AtDelimiter (render_ids s.ids ++ r)
    → segment_step (split_key (s.key ++ (render_ids s.ids ++ r))) next acc
      ≡ after_segment r next (acc ++ s ∷ [])
step-render s r next acc h n d = rw (split_key-append s.key (render_ids s.ids ++ r) h.0.1 d) (
    segment_step-key s.key (render_ids s.ids ++ r) next acc h.0.0
    ∙ rw (
        ids_loop-render (length (render_ids s.ids ++ r) + 1) s.ids r [] h.1 n
          (omega (arith, length-render_ids s.ids, length-append (render_ids s.ids) r))))

AtDelimiter-ids : (ids : List Text) (r : Text) → AtDelimiter r → AtDelimiter (render_ids ids ++ r)
AtDelimiter-ids [] r h = h
AtDelimiter-ids (i ∷ ids) r h = refl

segments_loop-render :
    (f : ℕ) (segs : List Segment) (acc : List Segment)
    → IsPath segs
    → length segs ≤ f
    → segments_loop f (render segs) acc ≡ ok (acc ++ segs)
unfolding segments_loop render
segments_loop-render f [] acc h l = cc
segments_loop-render zero (s ∷ segs) acc h l = absurd (omega arith)
segments_loop-render (suc f) (s ∷ []) acc h l =
    ap (λ t. segment_step (split_key (s.key ++ t)) (segments_loop f) acc)
      (sym (append-nil (render_ids s.ids)))
    ∙ step-render s [] (segments_loop f) acc h.1.0 tt (AtDelimiter-ids s.ids [] tt)
segments_loop-render (suc f) (s ∷ t ∷ segs) acc h l =
    ap (λ u. segment_step (split_key u) (segments_loop f) acc)
      (append_assoc s.key (render_ids s.ids) (dot ∷ render (t ∷ segs)))
    ∙ step-render s (dot ∷ render (t ∷ segs)) (segments_loop f) acc h.1.0 refl
        (AtDelimiter-ids s.ids (dot ∷ render (t ∷ segs)) refl)
    ∙ segments_loop-render f (t ∷ segs) (acc ++ s ∷ []) (refl, h.1.1) (omega arith)
    ∙ rw append_assoc

length-render : (segs : List Segment) → All IsSegment segs → length segs ≤ length (render segs)
unfolding render
length-render [] h = omega arith
length-render (s ∷ []) h =
    omega (arith, length-append s.key (render_ids s.ids), length-pos s.key h.0.0.0)
length-render (s ∷ t ∷ segs) h = omega (
  arith,
  length-render (t ∷ segs) h.1,
  length-append (render_segment s) (dot ∷ render (t ∷ segs)),
)

render-ne-nil : (segs : List Segment) → IsPath segs → is_empty (render segs) ≡ false
render-ne-nil segs h =
    is_empty-pos (render segs) (omega (arith, length-pos segs h.0, length-render segs h.1))

-- A well-formed list of segments is what its own rendering parses to.
pub parse-render :
    (segs : List Segment)
    → IsPath segs
    → parse (render segs) ≡ ok (record { raw = render segs; segments = segs })
unfolding parse
parse-render segs h = rw (
  render-ne-nil segs h,
  segments_loop-render (length (render segs) + 1) segs [] h (omega (arith, length-render segs h.1)),
)
