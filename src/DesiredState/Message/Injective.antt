-- ===== src/DesiredState/Message/Injective.antt =====
-- The message determines everything that it was made from.
use nsclient_fleet_server.Common.{
  ℕ, ◌%◌, ◌^◌, ◌<◌, ◌≡◌, refl, ap₂, ◌∙◌, sym, List, [], ◌∷◌, ◌++◌, length, flat_map, arith, All,
  append_assoc,
}
use nsclient_fleet_server.Common.Int.{ℤ, pos, negsuc}
use nsclient_fleet_server.Common.Text.{Text}
use nsclient_fleet_server.DesiredState.Bundle.{DesiredBundle}
use nsclient_fleet_server.DesiredState.Message.{
  word_mod, le_bytes, word_of, message_field, bundle_fields, write_fields, message,
}

le_bytes-injective : (m n : ℕ) → m < word_mod → n < word_mod → le_bytes 8 m ≡ le_bytes 8 n → m ≡ n
le_bytes-injective m n hm hn e = ground arith

append-injective :
    {A : Type 0} (xs ys r s : List A)
    → length xs ≡ length ys
    → xs ++ r ≡ ys ++ s
    → (xs ≡ ys) × (r ≡ s)
append-injective [] [] r s l e = (refl, e)
append-injective [] (y ∷ ys) r s l e = absurd (omega arith)
append-injective (x ∷ xs) [] r s l e = absurd (omega arith)
append-injective (x ∷ xs) (y ∷ ys) r s l e = ground (arith, append-injective xs ys r s)

-- The lengths that a `u64` holds.
abbrev pub IsWordSized : Text → Type 0
IsWordSized t = length t < word_mod

message_field-injective :
    (a b r s : Text)
    → IsWordSized a
    → IsWordSized b
    → message_field a ++ r ≡ message_field b ++ s
    → (a ≡ b) × (r ≡ s)
unfolding message_field
message_field-injective a b r s ha hb e =
    let split =
      append-injective (le_bytes 8 (length a % word_mod)) (le_bytes 8 (length b % word_mod))
        (a ++ r) (b ++ s) refl
        (sym (append_assoc (le_bytes 8 (length a % word_mod)) a r)
          ∙ e
          ∙ append_assoc (le_bytes 8 (length b % word_mod)) b s) in
    let same =
      le_bytes-injective (length a % word_mod) (length b % word_mod) (omega arith) (omega arith)
        split.0 in
    append-injective a b r s (omega arith) split.1

write_fields-injective :
    (fs gs : List Text)
    → All IsWordSized fs
    → All IsWordSized gs
    → write_fields fs ≡ write_fields gs
    → fs ≡ gs
unfolding write_fields message_field
write_fields-injective [] [] hf hg e = refl
write_fields-injective [] (g ∷ gs) hf hg e = cc
write_fields-injective (f ∷ fs) [] hf hg e = cc
write_fields-injective (f ∷ fs) (g ∷ gs) hf hg e =
    let p = message_field-injective f g (write_fields fs) (write_fields gs) hf.0 hg.0 e in
    ap₂ ◌∷◌ p.0 (write_fields-injective fs gs hf.1 hg.1 p.1)

-- An `i64`.
abbrev pub IsI64 : ℤ → Type 0
IsI64 (pos n) = n < 2 ^ 63
IsI64 (negsuc n) = n < 2 ^ 63

word_of-injective : (m n : ℤ) → IsI64 m → IsI64 n → word_of m ≡ word_of n → m ≡ n
word_of-injective m n hm hn e = ground arith

word_of-lt : (m : ℤ) → word_of m < word_mod
word_of-lt m = ground arith

-- A bundle whose fields a Rust process can hold.
abbrev pub IsHeld : DesiredBundle → Type 0
IsHeld b = All IsWordSized (bundle_fields b) × IsI64 b.priority

fields-IsWordSized :
    (bs : List DesiredBundle) → All IsHeld bs → All IsWordSized (flat_map bundle_fields bs)
fields-IsWordSized [] h = tt
fields-IsWordSized (b ∷ bs) h =
    let r = fields-IsWordSized bs h.1 in
    let f = h.0.0 in
    (f.0, (f.1.0, (f.1.1.0, (f.1.1.1.0, (f.1.1.1.1.0, (f.1.1.1.1.1.0, (f.1.1.1.1.1.1.0, r)))))))

bundle_fields-injective :
    (a b : DesiredBundle)
    → IsI64 a.priority
    → IsI64 b.priority
    → bundle_fields a ≡ bundle_fields b
    → a ≡ b
bundle_fields-injective a b ha hb e =
    let w =
      le_bytes-injective (word_of a.priority) (word_of b.priority) (word_of-lt a.priority)
        (word_of-lt b.priority) (cc) in
    let p = word_of-injective a.priority b.priority ha hb w in ground arith

descriptors-injective :
    (bs cs : List DesiredBundle)
    → All IsHeld bs
    → All IsHeld cs
    → flat_map bundle_fields bs ≡ flat_map bundle_fields cs
    → bs ≡ cs
descriptors-injective [] [] hb hc e = refl
descriptors-injective [] (c ∷ cs) hb hc e = cc
descriptors-injective (b ∷ bs) [] hb hc e = cc
descriptors-injective (b ∷ bs) (c ∷ cs) hb hc e =
    let p =
      append-injective (bundle_fields b) (bundle_fields c) (flat_map bundle_fields bs)
        (flat_map bundle_fields cs) refl e in
    ap₂ ◌∷◌ (bundle_fields-injective b c hb.0.1 hc.0.1 p.0)
      (descriptors-injective bs cs hb.1 hc.1 p.1)

-- Two desired states have the same message only if their configuration texts and all their bundle
-- descriptors, field by field and in order, are the same: no value can shift bytes into its
-- neighbour. Lengths are below 2^64 and priorities in the range of an `i64`.
pub message-injective :
    (config config' : Text) (bundles bundles' : List DesiredBundle)
    → IsWordSized config
    → IsWordSized config'
    → All IsHeld bundles
    → All IsHeld bundles'
    → message config bundles ≡ message config' bundles'
    → (config ≡ config') × (bundles ≡ bundles')
unfolding message
message-injective config config' bundles bundles' hc hc' hb hb' e =
    let p =
      message_field-injective config config' (write_fields (flat_map bundle_fields bundles))
        (write_fields (flat_map bundle_fields bundles')) hc hc' e in
    (
      p.0,
      descriptors-injective bundles bundles' hb hb' (
          write_fields-injective (flat_map bundle_fields bundles) (flat_map bundle_fields bundles')
            (fields-IsWordSized bundles hb) (fields-IsWordSized bundles' hb') p.1),
    )
