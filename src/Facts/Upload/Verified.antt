-- ===== src/Facts/Upload/Verified.antt =====
-- An upload that is accepted is the document that its hash names.
use nsclient_fleet_server.Common.{
  ℕ, Bool, true, ◌&&◌, ◌||◌, inl, inr, ◌≡◌, refl, ◌∙◌, ap, subst, [], ◌∷◌, some, Option-cases,
  length, all, arith, leb,
}
use nsclient_fleet_server.Common.Text.{Text, text_equality, text_eq_iff}
use nsclient_fleet_server.Common.Result.{Result, ok, Result-cases}
use nsclient_fleet_server.Facts.Upload.{
  RawUpload, FactsUpload, normalize_hash, parse_upload, verified, is_ascii_hexdigit, to_lower,
  to_ascii_lowercase, starts_with_brace,
}

-- A lowercase hexadecimal digit
abbrev pub is_lower_hex : ℕ → Bool
is_lower_hex c = (leb 48 c && leb c 57) || (leb 97 c && leb c 102)

lower-hex : (c : ℕ) → is_ascii_hexdigit c ≡ true → is_lower_hex (to_lower c) ≡ true
lower-hex c h = ground arith

lowercase-hex :
    (s : Text)
    → all is_ascii_hexdigit s ≡ true
    → (all is_lower_hex (to_ascii_lowercase s) ≡ true) × (length (to_ascii_lowercase s) ≡ length s)
lowercase-hex [] h = (refl, refl)
lowercase-hex (c ∷ s) h = ground (arith, lower-hex c, lowercase-hex s)

normalize_hash-some :
    (h n : Text) → normalize_hash h ≡ some n → (all is_lower_hex n ≡ true) × (length n ≡ 64)
unfolding normalize_hash
normalize_hash-some h n e = ground (arith, lowercase-hex h)

module _ (from_slice : Text → Result RawUpload Text) (sha256_hex : Text → Text) where
  -- What an accepted upload says of the body.
  abbrev pub Accepted : Text → FactsUpload → Type 0
  Accepted body u =
      (raw : RawUpload) × (from_slice body ≡ ok raw)
      × (u.facts ≡ raw.facts)
      × (sha256_hex raw.facts ≡ u.facts_hash)
      × (normalize_hash raw.facts_hash ≡ some u.facts_hash)
      × (starts_with_brace raw.facts ≡ true)
      × (all is_lower_hex u.facts_hash ≡ true)
      × (length u.facts_hash ≡ 64)

  verified-ok :
      (raw : RawUpload) (h : Text) (u : FactsUpload)
      → verified from_slice sha256_hex raw h ≡ ok u
      → (u.facts ≡ raw.facts)
        × (sha256_hex raw.facts ≡ u.facts_hash)
        × (h ≡ u.facts_hash)
        × (starts_with_brace raw.facts ≡ true)
  unfolding verified
  verified-ok raw h u e = ground (arith, text_eq_iff (sha256_hex raw.facts) h)

  -- An upload is accepted only if its body reads as one, its document starts as an object, and the
  -- digest of the document's bytes is the declared hash, which is 64 lowercase hexadecimal digits
  -- once it is normalised. The bytes kept are the document's bytes in the body, unchanged.
  pub parse_upload-Accepted :
      (body : Text) (u : FactsUpload)
      → parse_upload from_slice sha256_hex body ≡ ok u
      → Accepted body u
  unfolding parse_upload
  parse_upload-Accepted body u e = elim (Result-cases (from_slice body)) [
    | inr (m, f) ↦ ground arith
    | inl (raw, f) ↦ elim (Option-cases (normalize_hash raw.facts_hash)) [
      | inl g ↦ ground arith
      | inr (h, g) ↦
          let v = verified-ok raw h u (ground arith) in
          let n = normalize_hash-some raw.facts_hash h g in
          (
            raw,
            f,
            v.0,
            v.1,
            g ∙ ap some (v.2),
            v.3,
            subst (λ x. all is_lower_hex x ≡ true) (v.2) n.0,
            subst (λ x. length x ≡ 64) (v.2) n.1,
          )
    ]
  ]
