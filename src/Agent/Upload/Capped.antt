-- ===== src/Agent/Upload/Capped.antt =====
-- A body is read whole or not at all, and never past its limit.
use nsclient_fleet_server.Common.{
  ℕ, ◌+◌, ◌≤◌, true, false, ◌≡◌, refl, ◌↔◌, [], ◌∷◌, ◌++◌, Option, none, some, arith, ltb, length,
  length-append, append_assoc, append-nil, Bool-cases, inl, inr, sym, ◌∙◌, ap,
}
use nsclient_fleet_server.Common.Text.{Text}
use nsclient_fleet_server.Common.Result.{ok}
use nsclient_fleet_server.Agent.Upload.{
  Chunks, read_chunks, read_capped, exceeds, max_drained_bytes,
}

-- All the chunks together, if all of them arrive.
abbrev joined : Text → Option Text → Option Text
joined chunk none = none
joined chunk (some rest) = some (chunk ++ rest)

abbrev pub whole : Chunks → Option Text
whole [] = some []
whole (none ∷ chunks) = none
whole (some chunk ∷ chunks) = joined chunk (whole chunks)

dropped-read :
    (limit : ℕ) (chunks : Chunks) (seen : ℕ) (buf b : Text)
    → read_chunks limit chunks seen false buf ≡ ok b
    → ⊥
unfolding read_chunks
dropped-read limit [] seen buf b e = cc
dropped-read limit (none ∷ chunks) seen buf b e = cc
dropped-read limit (some chunk ∷ chunks) seen buf b e =
    ground (arith, dropped-read limit chunks (seen + length chunk) [] b)

kept-read :
    (limit : ℕ) (chunks : Chunks) (seen : ℕ) (buf b : Text)
    → seen ≤ limit
    → read_chunks limit chunks seen true buf ≡ ok b
    → (w : Text) × (whole chunks ≡ some w) × (b ≡ buf ++ w) × (seen + length w ≤ limit)
unfolding read_chunks
kept-read limit [] seen buf b h e = ([], refl, ground (arith, e, append-nil buf), omega arith)
kept-read limit (none ∷ chunks) seen buf b h e = absurd cc
kept-read limit (some chunk ∷ chunks) seen buf b h e =
    elim (Bool-cases (ltb limit (seen + length chunk))) [
      | inl x ↦ absurd (dropped-read limit chunks (seen + length chunk) [] b (ground (arith, x, e)))
      | inr x ↦
          let (w, k, m, n) =
            kept-read limit chunks (seen + length chunk) (buf ++ chunk) b (ground (arith, x))
              (ground (arith, x, e)) in
          (
            chunk ++ w,
            rw (k) refl,
            m ∙ append_assoc buf chunk w,
            omega (arith, length-append chunk w, n),
          )
    ]

joined-some :
    (chunk : Text) (o : Option Text) (w : Text)
    → joined chunk o ≡ some w
    → (v : Text) × (o ≡ some v) × (w ≡ chunk ++ v)
joined-some chunk none w e = cc
joined-some chunk (some v) w e = (v, refl, ground (arith, e))

within :
    (declared : Option ℕ) (limit : ℕ)
    → limit ≤ max_drained_bytes
    → exceeds declared limit ≡ false
    → exceeds declared max_drained_bytes ≡ false
within none limit d x = refl
within (some n) limit d x = ground arith

read-whole :
    (limit : ℕ) (chunks : Chunks) (seen : ℕ) (buf w : Text)
    → limit ≤ max_drained_bytes
    → whole chunks ≡ some w
    → seen + length w ≤ limit
    → read_chunks limit chunks seen true buf ≡ ok (buf ++ w)
unfolding read_chunks
read-whole limit [] seen buf w d k h = ground (arith, append-nil buf, k)
read-whole limit (none ∷ chunks) seen buf w d k h = cc
read-whole limit (some chunk ∷ chunks) seen buf w d k h =
    let (v, m, n) = joined-some chunk (whole chunks) w k in
    let len : length w ≡ length chunk + length v = ap length n ∙ length-append chunk v in
    let small : ltb max_drained_bytes (seen + length chunk) ≡ false = ground (arith, len) in
    let fits : ltb limit (seen + length chunk) ≡ false = ground (arith, len) in
    rw (small, fits)
      (read-whole limit chunks (seen + length chunk) (buf ++ chunk) v d m (omega (arith, len, h))
        ∙ ap ok (append_assoc buf chunk v ∙ ap (λ x. buf ++ x) (sym n)))

-- Reading a body answers some bytes exactly if no length over the limit was declared, every chunk
-- arrived, the bytes are the chunks joined, and they are no more than the limit; the limit is at most
-- what is drained, as that of an upload is.
pub read_capped_iff :
    (declared : Option ℕ) (chunks : Chunks) (limit : ℕ) (b : Text)
    → limit ≤ max_drained_bytes
    → (read_capped declared chunks limit ≡ ok b)
      ↔ ((exceeds declared limit ≡ false) × (whole chunks ≡ some b) × (length b ≤ limit))
unfolding read_capped
read_capped_iff declared chunks limit b d = (to, from)
  where
    to :
        read_capped declared chunks limit ≡ ok b
        → (exceeds declared limit ≡ false) × (whole chunks ≡ some b) × (length b ≤ limit)
    to e = elim (Bool-cases (exceeds declared limit)) [
      | inl x ↦ absurd (dropped-read limit chunks (limit + 1) [] b (ground (arith, x, e)))
      | inr x ↦
          let (w, k, m, n) = kept-read limit chunks 0 [] b (omega arith) (ground (arith, x, e)) in
          (x, k ∙ ap some (sym m), ground (arith, m, n))
    ]

    from :
        (exceeds declared limit ≡ false) × (whole chunks ≡ some b) × (length b ≤ limit)
        → read_capped declared chunks limit ≡ ok b
    from (x, k, n) =
        ground (
          arith,
          x,
          within declared limit d x,
          read-whole limit chunks 0 [] b d k (omega (arith, n)),
        )
