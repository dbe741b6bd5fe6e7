-- ===== src/Path/Parse.antt =====
-- `FactPath` and its parser. The slices of the source are the splits at the byte that `find` finds.
-- The two loops run on fuel; `Path.Sound` shows that what `parse` gives them never runs out.
use nsclient_fleet_server.Common.{
  ℕ, zero, suc, ◌+◌, Bool, ◌||◌, List, [], ◌∷◌, ◌++◌, Option, none, some, eqb, ltb, is_empty,
  length, if◌then◌else◌,
}
use nsclient_fleet_server.Common.Text.{Text}
use nsclient_fleet_server.Common.Result.{Result, ok, err, ◌>>=◌}

abbrev pub max_fact_path_len : ℕ
max_fact_path_len = 512

pub record Segment : Type 0 where
  pub key : Text
  pub ids : List Text

pub record FactPath : Type 0 where
  pub raw : Text
  pub segments : List Segment

-- `out_of_fuel` belongs to the model only; `too_long` is that of `try_from`.
pub data PathError : Type 0 where
  empty empty_key unclosed empty_id expected_dot too_long out_of_fuel : PathError

abbrev pub bracket_open : ℕ
bracket_open = 91

abbrev pub bracket_close : ℕ
bracket_close = 93

abbrev pub dot : ℕ
dot = 46

abbrev pub is_delimiter : ℕ → Bool
is_delimiter c = eqb c dot || eqb c bracket_open || eqb c bracket_close

-- The key up to the first `.`, `[` or `]`, and the rest.
unfoldable pub split_key : Text → Text × Text
split_key [] = ([], [])
split_key (c ∷ s) = if is_delimiter c then ([], c ∷ s) else (c ∷ (split_key s).0, (split_key s).1)

abbrev pub prepend : ℕ → Option (Text × Text) → Option (Text × Text)
prepend c none = none
prepend c (some (id, rest)) = some (c ∷ id, rest)

-- `after.find(']')`: what stands before it and after it.
unfoldable pub find_close : Text → Option (Text × Text)
find_close [] = none
find_close (c ∷ s) = if eqb c bracket_close then some ([], s) else prepend c (find_close s)

abbrev pub IdsLoop : Type 0
IdsLoop = Text → List Text → Result (List Text × Text) PathError

unfoldable pub take_id :
    Option (Text × Text) → IdsLoop → List Text → Result (List Text × Text) PathError
take_id none next ids = err unclosed
take_id (some ([], rest)) next ids = err empty_id
take_id (some (c ∷ id, rest)) next ids = next rest (ids ++ (c ∷ id) ∷ [])

-- `while let Some(after) = rest.strip_prefix('[')`
unfoldable pub ids_loop : ℕ → IdsLoop
unfolding take_id find_close
ids_loop zero rest ids = err out_of_fuel
ids_loop (suc f) [] ids = ok (ids, [])
ids_loop (suc f) (c ∷ after) ids =
    if eqb c bracket_open then take_id (find_close after) (ids_loop f) ids else ok (ids, c ∷ after)

abbrev pub SegmentsLoop : Type 0
SegmentsLoop = Text → List Segment → Result (List Segment) PathError

-- the match on `rest.strip_prefix('.')`
unfoldable pub after_segment : Text → SegmentsLoop → List Segment → Result (List Segment) PathError
after_segment [] next segments = ok segments
after_segment (c ∷ r) next segments = if eqb c dot then next r segments else err expected_dot

-- one round of `loop`
unfoldable pub segment_step :
    Text × Text → SegmentsLoop → List Segment → Result (List Segment) PathError
unfolding ids_loop after_segment
segment_step ([], rest) next segments = err empty_key
segment_step (k ∷ key, rest) next segments = do
  (ids, r) ← ids_loop (length rest + 1) rest []
  after_segment r next (segments ++ record { key = k ∷ key; ids = ids } ∷ [])

unfoldable pub segments_loop : ℕ → SegmentsLoop
unfolding segment_step split_key
segments_loop zero rest segments = err out_of_fuel
segments_loop (suc f) rest segments = segment_step (split_key rest) (segments_loop f) segments

unfoldable pub parse : Text → Result FactPath PathError
unfolding segments_loop
parse path = if is_empty path then err empty else do
  segments ← segments_loop (length path + 1) path []
  ok (record { raw = path; segments = segments })

-- `TryFrom<String>`, which deserializing goes through
unfoldable pub try_from : Text → Result FactPath PathError
unfolding parse
try_from raw = if ltb max_fact_path_len (length raw) then err too_long else parse raw
