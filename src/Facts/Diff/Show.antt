-- ===== src/Facts/Diff/Show.antt =====
-- `shown` and `clip_to`: what of a value is copied into a change. A text is its UTF-8 bytes.
use nsclient_fleet_server.Common.{
  ℕ, zero, suc, Bool, true, false, ◌&&◌, [], ◌∷◌, ◌++◌, Option, none, some, if◌then◌else◌, length,
  leb, all,
}
use nsclient_fleet_server.Common.Text.{Text}
use nsclient_fleet_server.Json.{
  Value, Items, null, bool, number, string, array, object, nil, cons, elements,
}

abbrev pub max_shown_string : ℕ
max_shown_string = 200

abbrev pub max_shown_list : ℕ
max_shown_list = 16

-- A byte that continues a character.
abbrev pub continues : ℕ → Bool
continues c = leb 128 c && leb c 191

abbrev onto_cut : ℕ → Option Text → Option Text
onto_cut c none = none
onto_cut c (some s) = some (c ∷ s)

-- The first characters of a text, `none` where it has no more than that.
unfoldable pub cut_at : ℕ → Text → Option Text
cut_at n [] = none
cut_at zero (c ∷ s) = if continues c then onto_cut c (cut_at zero s) else some []
cut_at (suc n) (c ∷ s) = onto_cut c (cut_at (if continues c then suc n else n) s)

unfoldable pub clip_to : Text → ℕ → Text
clip_to s n = elim (cut_at n s) [ none ↦ s | some cut ↦ cut ++ 226 ∷ 128 ∷ 166 ∷ [] ]

abbrev clip : Text → Text
clip s = clip_to s max_shown_string

abbrev is_flat : Value → Bool
is_flat (array _) = false
is_flat (object _) = false
is_flat _ = true

abbrev clip_string : Value → Value
clip_string (string s) = string (clip s)
clip_string v = v

abbrev clip_items : Items → Items
clip_items nil = nil
clip_items (cons v vs) = cons (clip_string v) (clip_items vs)

unfoldable pub shown : Value → Option Value
shown (string s) = some (string (clip s))
shown (number n) = some (number n)
shown (bool b) = some (bool b)
shown null = some null
shown (array a) =
    if leb (length (elements a)) max_shown_list && all is_flat (elements a)
    then some (array (clip_items a))
    else none
shown (object _) = none
