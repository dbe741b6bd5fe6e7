-- ===== src/Path/Fuel.antt =====
-- The fuel that `parse` gives its loops is enough for every path.
use nsclient_fleet_server.Common.{
  ℕ, zero, suc, ◌+◌, ◌≤◌, ◌<◌, ◌≡◌, refl, ap, ◌≢◌, inl, inr, List, [], ◌∷◌, ◌++◌, Option, none,
  some, arith, eqb, length, length-append, Bool-cases,
}
use nsclient_fleet_server.Common.Text.{Text}
use nsclient_fleet_server.Common.Result.{Result, ok, err, ◌>>=◌}
use nsclient_fleet_server.Path.Parse.{
  Segment, bracket_open, bracket_close, dot, split_key, find_close, take_id, IdsLoop, SegmentsLoop,
  ids_loop, segment_step, after_segment, segments_loop, parse, PathError, out_of_fuel,
}
use nsclient_fleet_server.Path.Grammar.{render_ids, split_key_sound, find_close_sound}
use nsclient_fleet_server.Path.Sound.{ids_loop_sound}

-- A result that is not the model's own failure.
abbrev Runs {ℓ} : {A : Type ℓ} → Result A PathError → Type ℓ
Runs r = r ≢ err out_of_fuel

take_id-Runs :
    (n : ℕ) (after : Text) (acc : List Text) (next : IdsLoop)
    → ((rest : Text) (acc' : List Text) → length rest < n → Runs (next rest acc'))
    → length after ≤ n
    → (o : Option (Text × Text)) → find_close after ≡ o
    → Runs (take_id o next acc)
unfolding take_id
take_id-Runs n after acc next ih l none e = λ h. cc
take_id-Runs n after acc next ih l (some ([], rest)) e = λ h. cc
take_id-Runs n after acc next ih l (some (c ∷ id, rest)) e =
    let found = find_close_sound after (c ∷ id) rest e in
    ih rest (acc ++ (c ∷ id) ∷ [])
      (omega (arith, ap length found.0, length-append (c ∷ id) (bracket_close ∷ rest)))

ids_loop-Runs :
    (f : ℕ) (rest : Text) (acc : List Text) → length rest < f → Runs (ids_loop f rest acc)
unfolding ids_loop
ids_loop-Runs zero rest acc l = absurd (omega arith)
ids_loop-Runs (suc f) [] acc l = λ h. cc
ids_loop-Runs (suc f) (c ∷ after) acc l = elim (Bool-cases (eqb c bracket_open)) [
  | inl e ↦ rw e (
      take_id-Runs (length after) after acc (ids_loop f)
        (λ rest acc' l'. ids_loop-Runs f rest acc' (omega arith)) (omega arith) (find_close after)
        refl)
  | inr e ↦ rw e (λ h. cc)
]

after_segment-Runs :
    (n : ℕ) (r : Text) (segs : List Segment) (next : SegmentsLoop)
    → ((r' : Text) (segs' : List Segment) → length r' < n → Runs (next r' segs'))
    → length r ≤ n
    → Runs (after_segment r next segs)
unfolding after_segment
after_segment-Runs n [] segs next ih l = λ h. cc
after_segment-Runs n (c ∷ r) segs next ih l = elim (Bool-cases (eqb c dot)) [
  | inl e ↦ rw e (ih r segs (omega arith))
  | inr e ↦ rw e (λ h. cc)
]

ids_then-Runs :
    (rest : Text) (o : Result (List Text × Text) PathError)
    → (k : List Text × Text → Result (List Segment) PathError)
    → ids_loop (length rest + 1) rest [] ≡ o
    → ((p : List Text × Text) → length p.1 ≤ length rest → Runs (k p))
    → Runs (o >>= k)
ids_then-Runs rest (ok p) k e h =
    let i = ids_loop_sound (length rest + 1) rest [] p.0 p.1 e in
    h p (omega (arith, ap length i.written, length-append (render_ids i.read) p.1))
ids_then-Runs rest (err x) k e h =
    λ x-fuel. ids_loop-Runs (length rest + 1) rest [] (omega arith) (cc)

segment_step-Runs :
    (n : ℕ) (key r : Text) (segs : List Segment) (next : SegmentsLoop)
    → ((r' : Text) (segs' : List Segment) → length r' < n → Runs (next r' segs'))
    → length r ≤ n
    → Runs (segment_step (key, r) next segs)
unfolding segment_step
segment_step-Runs n [] r segs next ih l = λ h. cc
segment_step-Runs n (c ∷ key) r segs next ih l =
    ids_then-Runs r (ids_loop (length r + 1) r []) _ refl λ p lp.
      after_segment-Runs n p.1 (segs ++ record { key = c ∷ key; ids = p.0 } ∷ []) next ih
        (omega arith)

segments_loop-Runs :
    (f : ℕ) (rest : Text) (segs : List Segment) → length rest < f → Runs (segments_loop f rest segs)
unfolding segments_loop
segments_loop-Runs zero rest segs l = absurd (omega arith)
segments_loop-Runs (suc f) rest segs l =
    segment_step-Runs (length rest) (split_key rest).0 (split_key rest).1 segs (segments_loop f)
      (λ r' segs' l'. segments_loop-Runs f r' segs' (omega arith))
      (omega (
        arith,
        ap length (split_key_sound rest).0,
        length-append (split_key rest).0 (split_key rest).1,
      ))

Runs-map : {A B : Type 0} (m : Result A PathError) (g : A → B) → Runs m → Runs (m >>= λ a. ok (g a))
Runs-map (ok a) g h = λ e. cc
Runs-map (err x) g h = λ e. h (ground arith)

-- `parse` ends with a path or with one of the errors of the source, whatever the text.
pub parse-ne-out_of_fuel : (path : Text) → parse path ≢ err out_of_fuel
unfolding parse
parse-ne-out_of_fuel [] = λ h. cc
parse-ne-out_of_fuel (c ∷ path) =
    Runs-map (segments_loop (length (c ∷ path) + 1) (c ∷ path) []) _
      (segments_loop-Runs (length (c ∷ path) + 1) (c ∷ path) [] (omega arith))
