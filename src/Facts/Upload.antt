-- ===== src/Facts/Upload.antt =====
-- `normalize_hash` and `parse_upload`: the digest of an uploaded document is checked on its bytes.
pub mod Verified
use nsclient_fleet_server.Common.{
  ℕ, zero, suc, Bool, true, false, ◌&&◌, ◌||◌, ◌+◌, ◌≡◌, refl, List, [], ◌∷◌, Option, none, some,
  if◌then◌else◌, all, length, is_empty, eqb, leb, arith, ◌==◌,
}
use nsclient_fleet_server.Common.Text.{Text, codes, text_equality, text_eq_iff}
use nsclient_fleet_server.Common.Result.{Result, ok, err, ◌>>=◌}
use nsclient_fleet_server.Limits.Email.{is_whitespace}

abbrev pub is_ascii_hexdigit : ℕ → Bool
is_ascii_hexdigit c = (leb 48 c && leb c 57) || (leb 65 c && leb c 70) || (leb 97 c && leb c 102)

abbrev pub to_lower : ℕ → ℕ
to_lower c = if leb 65 c && leb c 90 then c + 32 else c

abbrev pub to_ascii_lowercase : Text → Text
to_ascii_lowercase [] = []
to_ascii_lowercase (c ∷ s) = to_lower c ∷ to_ascii_lowercase s

unfoldable pub normalize_hash : Text → Option Text
normalize_hash h =
    if eqb (length h) 64 && all is_ascii_hexdigit h then some (to_ascii_lowercase h) else none

-- What serde reads of the body; `collected_at` is in Unicode scalar values.
pub record RawUpload : Type 0 where
  pub facts_hash : Text
  pub collected_at : Option (List ℕ)
  pub facts : Text

pub record FactsUpload : Type 0 where
  pub facts_hash : Text
  pub collected_at : Option (List ℕ)
  pub facts : Text

pub data UploadError : Type 0 where
  malformed : Text → UploadError
  bad_hash : UploadError
  not_an_object : Text → UploadError
  hash_mismatch : Text → UploadError

unfoldable pub declared_hash : UploadError → Option Text
declared_hash (not_an_object h) = some h
declared_hash (hash_mismatch h) = some h
declared_hash (malformed _) = none
declared_hash bad_hash = none

abbrev trim_start : List ℕ → List ℕ
trim_start [] = []
trim_start (c ∷ s) = let rest = trim_start s in if is_whitespace c then rest else c ∷ s

abbrev onto_trimmed : ℕ → List ℕ → List ℕ
onto_trimmed c [] = if is_whitespace c then [] else c ∷ []
onto_trimmed c (d ∷ s) = c ∷ d ∷ s

abbrev trim_end : List ℕ → List ℕ
trim_end [] = []
trim_end (c ∷ s) = onto_trimmed c (trim_end s)

abbrev pub take : ℕ → List ℕ → List ℕ
take zero s = []
take (suc n) [] = []
take (suc n) (c ∷ s) = c ∷ take n s

abbrev pub max_collected_at_len : ℕ
max_collected_at_len = 64

abbrev if_any : List ℕ → Option (List ℕ)
if_any [] = none
if_any (c ∷ s) = some (c ∷ s)

unfoldable pub cleaned : Option (List ℕ) → Option (List ℕ)
cleaned none = none
cleaned (some c) = if_any (take max_collected_at_len (trim_end (trim_start c)))

abbrev starts_with_brace : Text → Bool
starts_with_brace [] = false
starts_with_brace (c ∷ s) = eqb c 123

abbrev ok_or : {A E : Type 0} → Option A → E → Result A E
ok_or none e = err e
ok_or (some a) e = ok a

-- `from_slice` is serde_json's reading of the body, with its message where it fails.
module _ (from_slice : Text → Result RawUpload Text) (sha256_hex : Text → Text) where
  abbrev malformed_of : Result RawUpload Text → Result RawUpload UploadError
  malformed_of (ok r) = ok r
  malformed_of (err m) = err (malformed m)

  unfoldable pub verified : RawUpload → Text → Result FactsUpload UploadError
  verified raw facts_hash =
      if starts_with_brace raw.facts
      then (if sha256_hex raw.facts == facts_hash
          then ok (record {
            facts_hash = facts_hash;
            collected_at = cleaned raw.collected_at;
            facts = raw.facts;
          })
          else err (hash_mismatch facts_hash))
      else err (not_an_object facts_hash)

  unfoldable pub parse_upload : Text → Result FactsUpload UploadError
  unfolding verified
  parse_upload body = do
    raw ← malformed_of (from_slice body)
    facts_hash ← ok_or (normalize_hash raw.facts_hash) bad_hash
    verified raw facts_hash
