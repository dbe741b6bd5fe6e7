-- ===== src/Limits/Email.antt =====
-- `plausible_email`. An address is its Unicode scalar values here; `len` is in UTF-8 bytes.
use nsclient_fleet_server.Common.{
  ℕ, ◌+◌, Bool, false, ◌&&◌, ◌||◌, not, List, [], ◌∷◌, any, is_empty, if◌then◌else◌, eqb, leb, ltb,
}

abbrev pub utf8_width : ℕ → ℕ
utf8_width c = if ltb c 128 then 1 else if ltb c 2048 then 2 else if ltb c 65536 then 3 else 4

abbrev pub utf8_len : List ℕ → ℕ
utf8_len [] = 0
utf8_len (c ∷ s) = utf8_width c + utf8_len s

-- `char::is_whitespace`: the White_Space property
abbrev pub is_whitespace : ℕ → Bool
is_whitespace c =
    (leb 9 c && leb c 13)
    || eqb c 32
    || eqb c 133
    || eqb c 160
    || eqb c 5760
    || (leb 8192 c && leb c 8202)
    || eqb c 8232
    || eqb c 8233
    || eqb c 8239
    || eqb c 8287
    || eqb c 12288

-- `char::is_control`: the category Cc
abbrev pub is_control : ℕ → Bool
is_control c = ltb c 32 || (leb 127 c && leb c 159)

abbrev pub first_onto : ℕ → List (List ℕ) → List (List ℕ)
first_onto c [] = (c ∷ []) ∷ []
first_onto c (p ∷ ps) = (c ∷ p) ∷ ps

-- `str::split`
unfoldable pub split : ℕ → List ℕ → List (List ℕ)
split d [] = [] ∷ []
split d (c ∷ s) = let rest = split d s in if eqb c d then [] ∷ rest else first_onto c rest

abbrev pub starts_with : ℕ → List ℕ → Bool
starts_with d [] = false
starts_with d (c ∷ s) = eqb c d

abbrev pub ends_with : ℕ → List ℕ → Bool
ends_with d [] = false
ends_with d (c ∷ []) = eqb c d
ends_with d (c ∷ c' ∷ s) = ends_with d (c' ∷ s)

abbrev at_sign : ℕ
at_sign = 64

abbrev dot : ℕ
dot = 46

abbrev pub max_email_len : ℕ
max_email_len = 254

unfoldable pub plausible_parts : List (List ℕ) → Bool
plausible_parts (local ∷ domain ∷ []) =
    not (is_empty local)
    && any (λ c. eqb c dot) domain
    && not (starts_with dot domain)
    && not (ends_with dot domain)
plausible_parts _ = false

unfoldable pub plausible_email : List ℕ → Bool
unfolding split plausible_parts
plausible_email email =
    if is_empty email || ltb max_email_len (utf8_len email)
    then false
    else if any (λ c. is_whitespace c || is_control c) email
    then false
    else plausible_parts (split at_sign email)
