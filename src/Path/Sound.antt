-- ===== src/Path/Sound.antt =====
-- What the parser accepts is well formed and is written as it was read; its fuel never runs out.
use nsclient_fleet_server.Common.{
  ℕ, zero, suc, ◌+◌, ◌≡◌, refl, sym, ap, ◌∙◌, subst, inl, inr, List, [], ◌∷◌, ◌++◌, Option, none,
  some, arith, All, eqb, append_assoc, append-nil, length, Bool-cases, eqb_iff,
}
use nsclient_fleet_server.Common.Text.{Text}
use nsclient_fleet_server.Common.Result.{Result, ok, err, >>=-eq-ok}
use nsclient_fleet_server.Path.Parse.{
  Segment, FactPath, bracket_open, bracket_close, dot, split_key, find_close, take_id, IdsLoop,
  SegmentsLoop, ids_loop, segment_step, after_segment, segments_loop, parse, PathError,
}
use nsclient_fleet_server.Path.Grammar.{
  IsPlain, IsId, IsSegment, IsPath, render_ids, render_segment, render, NoBracket, split_key_sound,
  find_close_sound,
}

-- What one call of the id loop did: the ids that it added, and the rest that it left.
ok≢err : {A : Type 0} {E : Type 0} {a : A} {e : E} → err e ≡ ok a → ⊥
ok≢err h = cc

pub record IdsRead (rest : Text) (acc ids : List Text) (r : Text) : Type 0 where
  pub read : List Text
  pub added : ids ≡ acc ++ read
  pub well_formed : All IsId read
  pub written : rest ≡ render_ids read ++ r
  pub stopped : NoBracket r

ids_stopped :
    (rest : Text) (acc ids : List Text) (r : Text)
    → NoBracket rest
    → ◌≡◌ {A = Result (List Text × Text) PathError} (ok (acc, rest)) (ok (ids, r))
    → IdsRead rest acc ids r
ids_stopped rest acc ids r n h = record {
  read = [];
  added = ground (arith, append-nil acc);
  well_formed = tt;
  written = ground arith;
  stopped = subst NoBracket (ground arith) n;
}

ids_taken :
    (after : Text) (acc ids : List Text) (r : Text) (next : IdsLoop)
    → ((rest : Text) (acc' : List Text) → next rest acc' ≡ ok (ids, r) → IdsRead rest acc' ids r)
    → (o : Option (Text × Text)) → find_close after ≡ o
    → take_id o next acc ≡ ok (ids, r)
    → IdsRead (bracket_open ∷ after) acc ids r
unfolding take_id
ids_taken after acc ids r next ih none e h = cc
ids_taken after acc ids r next ih (some ([], rest)) e h = cc
ids_taken after acc ids r next ih (some (c ∷ id, rest)) e h =
    let found = find_close_sound after (c ∷ id) rest e in
    let later = ih rest (acc ++ (c ∷ id) ∷ []) h in
    record {
      read = (c ∷ id) ∷ later.read;
      added = later.added ∙ append_assoc acc ((c ∷ id) ∷ []) later.read;
      well_formed = ((refl, found.1), later.well_formed);
      written =
          ap (λ t. bracket_open ∷ t)
            (found.0
              ∙ ap (λ t. (c ∷ id) ++ bracket_close ∷ t) later.written
              ∙ sym (append_assoc (c ∷ id) (bracket_close ∷ render_ids later.read) r));
      stopped = later.stopped;
    }

pub ids_loop_sound :
    (f : ℕ) (rest : Text) (acc ids : List Text) (r : Text)
    → ids_loop f rest acc ≡ ok (ids, r)
    → IdsRead rest acc ids r
unfolding ids_loop
ids_loop_sound zero rest acc ids r h = cc
ids_loop_sound (suc f) [] acc ids r h = ids_stopped [] acc ids r tt h
ids_loop_sound (suc f) (c ∷ after) acc ids r h = elim (Bool-cases (eqb c bracket_open)) [
  | inl e ↦ rw ((eqb_iff c bracket_open).0 e) (
      ids_taken after acc ids r (ids_loop f) (λ rest acc'. ids_loop_sound f rest acc' ids r)
        (find_close after) refl (rw e at h))
  | inr e ↦ ids_stopped (c ∷ after) acc ids r e (rw e at h)
]

-- What the segment loop did.
record SegmentsRead (rest : Text) (acc segs : List Segment) : Type 0 where
  pub read : List Segment
  pub added : segs ≡ acc ++ read
  pub well_formed : IsPath read
  pub written : rest ≡ render read

segment_done :
    (s : Segment) (rest : Text) (acc segs : List Segment)
    → IsSegment s
    → rest ≡ render_segment s
    → segs ≡ acc ++ s ∷ []
    → SegmentsRead rest acc segs
unfolding render
segment_done s rest acc segs h e a = record {
  read = s ∷ [];
  added = a;
  well_formed = (refl, (h, tt));
  written = e;
}

segment_more :
    (s : Segment) (r rest : Text) (acc segs : List Segment)
    → IsSegment s
    → rest ≡ render_segment s ++ dot ∷ r
    → SegmentsRead r (acc ++ s ∷ []) segs
    → SegmentsRead rest acc segs
unfolding render
segment_more s r rest acc segs h e later =
    more later.read later.well_formed (later.added ∙ append_assoc acc (s ∷ []) later.read)
      later.written
  where
    more :
        (read : List Segment)
        → IsPath read
        → segs ≡ acc ++ s ∷ read
        → r ≡ render read
        → SegmentsRead rest acc segs
    more [] w a e' = cc
    more (t ∷ read) w a e' = record {
      read = s ∷ t ∷ read;
      added = a;
      well_formed = (refl, (h, w.1));
      written = e ∙ ap (λ u. render_segment s ++ dot ∷ u) e';
    }

-- What follows the ids of a segment.
after_segment_sound :
    (s : Segment) (r rest : Text) (acc segs : List Segment) (next : SegmentsLoop)
    → IsSegment s
    → rest ≡ render_segment s ++ r
    → ((r' : Text) → next r' (acc ++ s ∷ []) ≡ ok segs → SegmentsRead r' (acc ++ s ∷ []) segs)
    → after_segment r next (acc ++ s ∷ []) ≡ ok segs
    → SegmentsRead rest acc segs
unfolding after_segment
after_segment_sound s [] rest acc segs next h e ih p =
    segment_done s rest acc segs h (e ∙ append-nil (render_segment s)) (ground arith)
after_segment_sound s (c ∷ r) rest acc segs next h e ih p = elim (Bool-cases (eqb c dot)) [
  | inl d ↦ segment_more s r rest acc segs h (rw ((eqb_iff c dot).0 d) at e) (ih r (rw d at p))
  | inr d ↦ absurd (ok≢err (rw d at p))
]

segment_step_sound :
    (rest key r : Text) (acc segs : List Segment) (next : SegmentsLoop)
    → rest ≡ key ++ r
    → IsPlain key
    → ((r' : Text) (acc' : List Segment) → next r' acc' ≡ ok segs → SegmentsRead r' acc' segs)
    → segment_step (key, r) next acc ≡ ok segs
    → SegmentsRead rest acc segs
unfolding segment_step
segment_step_sound rest [] r acc segs next e k ih p = cc
segment_step_sound rest (c ∷ key) r acc segs next e k ih p =
    let q =
      >>=-eq-ok (ids_loop (length r + 1) r [])
        (λ x. after_segment x.1 next (acc ++ record { key = c ∷ key; ids = x.0 } ∷ [])) segs p in
    let i = ids_loop_sound (length r + 1) r [] q.0.0 q.0.1 q.1 in
    after_segment_sound (record { key = c ∷ key; ids = q.0.0 }) q.0.1 rest acc segs next
      ((refl, k), rw (i.added) i.well_formed)
      (e
        ∙ ap (λ t. (c ∷ key) ++ t) i.written
        ∙ sym (append_assoc (c ∷ key) (render_ids i.read) q.0.1)
        ∙ ap (λ (ids : List Text). (c ∷ key) ++ render_ids ids ++ q.0.1) (sym i.added))
      (λ r'. ih r' (acc ++ record { key = c ∷ key; ids = q.0.0 } ∷ [])) q.2

segments_loop_sound :
    (f : ℕ) (rest : Text) (acc segs : List Segment)
    → segments_loop f rest acc ≡ ok segs
    → SegmentsRead rest acc segs
unfolding segments_loop
segments_loop_sound zero rest acc segs h = cc
segments_loop_sound (suc f) rest acc segs h =
    let k = split_key_sound rest in
    segment_step_sound rest (split_key rest).0 (split_key rest).1 acc segs (segments_loop f) k.0 k.1
      (λ r' acc'. segments_loop_sound f r' acc' segs) h

-- A parsed path keeps its text, and is what its segments are written as.
pub parse_sound :
    (path : Text) (p : FactPath)
    → parse path ≡ ok p
    → (p.raw ≡ path) × IsPath p.segments × (render p.segments ≡ path)
unfolding parse
parse_sound [] p h = cc
parse_sound (c ∷ path) p h =
    let fuel = length (c ∷ path) + 1 in
    let q =
      >>=-eq-ok (segments_loop fuel (c ∷ path) [])
        (λ s. ok (record { raw = c ∷ path; segments = s })) p h in
    let r = segments_loop_sound fuel (c ∷ path) [] q.0 q.1 in
    let e : record { raw = c ∷ path; segments = q.0 } ≡ p = ground arith in
    subst
      (λ (t : FactPath). (t.raw ≡ c ∷ path) × IsPath t.segments × (render t.segments ≡ c ∷ path)) e
      (refl, subst IsPath (sym r.added) r.well_formed, ap render r.added ∙ sym r.written)
