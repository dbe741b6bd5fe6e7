-- ===== src/DesiredState/Message.antt =====
-- The message that the state hash covers: step 7 of `compute_uncached`. Every field is preceded by its
-- length as a little-endian `u64`; the priority is the eight bytes of an `i64`.
pub mod Injective
use nsclient_fleet_server.Common.{
  ℕ, zero, suc, ◌+◌, ◌-◌, ◌%◌, ◌/◌, ◌^◌, List, [], ◌∷◌, ◌++◌, length, flat_map,
}
use nsclient_fleet_server.Common.Int.{ℤ, pos, negsuc}
use nsclient_fleet_server.Common.Text.{Text}
use nsclient_fleet_server.DesiredState.Bundle.{DesiredBundle}

abbrev pub word_mod : ℕ
word_mod = 2 ^ 64

-- `u64::to_le_bytes`
abbrev pub le_bytes : ℕ → ℕ → List ℕ
le_bytes zero n = []
le_bytes (suc k) n = (n % 256) ∷ le_bytes k (n / 256)

-- The two's complement of an `i64`, as a `u64`.
abbrev pub word_of : ℤ → ℕ
word_of (pos n) = n % word_mod
word_of (negsuc n) = word_mod - 1 - n % word_mod

-- the closure `field`
unfoldable pub message_field : Text → Text
message_field bytes = le_bytes 8 (length bytes % word_mod) ++ bytes

-- The fields of one bundle, in the order of the source.
abbrev pub bundle_fields : DesiredBundle → List Text
bundle_fields b =
    b.id
    ∷ b.name
    ∷ b.version
    ∷ b.format
    ∷ b.sha256
    ∷ b.signature
    ∷ le_bytes 8 (word_of b.priority)
    ∷ []

unfoldable pub write_fields : List Text → Text
write_fields fs = flat_map message_field fs

-- `config` is the canonical text of the merged configuration.
unfoldable pub message : Text → List DesiredBundle → Text
unfolding write_fields
message config bundles = message_field config ++ write_fields (flat_map bundle_fields bundles)
