-- ===== src/Path/Grammar.antt =====
-- The grammar of fact paths, written apart from the parser: which segments are well formed, and how
-- a list of segments is written.
use nsclient_fleet_server.Common.{
  true, false, ◌≡◌, refl, List, [], ◌∷◌, ◌++◌, some, arith, All, eqb, is_empty,
}
use nsclient_fleet_server.Common.Text.{Text}
use nsclient_fleet_server.Path.Parse.{
  Segment, bracket_open, bracket_close, dot, is_delimiter, split_key, find_close,
}

abbrev pub IsPlain : Text → Type 0
IsPlain = All (λ c. is_delimiter c ≡ false)

abbrev pub IsUnclosed : Text → Type 0
IsUnclosed = All (λ c. eqb c bracket_close ≡ false)

abbrev pub IsKey : Text → Type 0
IsKey k = (is_empty k ≡ false) × IsPlain k

abbrev pub IsId : Text → Type 0
IsId i = (is_empty i ≡ false) × IsUnclosed i

abbrev pub IsSegment : Segment → Type 0
IsSegment s = IsKey s.key × All IsId s.ids

abbrev pub IsPath : List Segment → Type 0
IsPath segs = (is_empty segs ≡ false) × All IsSegment segs

abbrev pub render_ids : List Text → Text
render_ids [] = []
render_ids (i ∷ ids) = bracket_open ∷ i ++ bracket_close ∷ render_ids ids

abbrev pub render_segment : Segment → Text
render_segment s = s.key ++ render_ids s.ids

-- Segments joined by dots.
unfoldable pub render : List Segment → Text
render [] = []
render (s ∷ []) = render_segment s
render (s ∷ t ∷ segs) = render_segment s ++ dot ∷ render (t ∷ segs)

-- What a key may be followed by.
abbrev pub AtDelimiter : Text → Type 0
AtDelimiter [] = Unit
AtDelimiter (c ∷ s) = is_delimiter c ≡ true

abbrev pub NoBracket : Text → Type 0
NoBracket [] = Unit
NoBracket (c ∷ s) = eqb c bracket_open ≡ false

pub split_key_sound :
    (s : Text)
    → (s ≡ (split_key s).0 ++ (split_key s).1)
      × IsPlain (split_key s).0
      × AtDelimiter (split_key s).1
unfolding split_key
split_key_sound [] = (refl, tt, tt)
split_key_sound (c ∷ s) = ground (arith, split_key_sound s)

pub split_key-append : (k r : Text) → IsPlain k → AtDelimiter r → split_key (k ++ r) ≡ (k, r)
unfolding split_key
split_key-append [] [] h d = refl
split_key-append [] (c ∷ r) h d = rw d
split_key-append (c ∷ k) r h d = ground (arith, split_key-append k r h.1 d)

pub find_close_sound :
    (s id rest : Text)
    → find_close s ≡ some (id, rest)
    → (s ≡ id ++ bracket_close ∷ rest) × IsUnclosed id
unfolding find_close
find_close_sound [] id rest h = ground arith
find_close_sound (c ∷ s) [] rest h = ground (arith, find_close_sound s [] rest)
find_close_sound (c ∷ s) (d ∷ id) rest h = ground (arith, find_close_sound s id rest)

pub find_close-append :
    (id rest : Text) → IsUnclosed id → find_close (id ++ bracket_close ∷ rest) ≡ some (id, rest)
unfolding find_close
find_close-append [] rest h = refl
find_close-append (c ∷ id) rest h = ground (arith, find_close-append id rest h.1)
