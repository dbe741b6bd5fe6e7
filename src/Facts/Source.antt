-- ===== src/Facts/Source.antt =====
-- `valid_source` and `AGENT_SOURCE` of crates/core/src/facts/mod.rs.
use nsclient_fleet_server.Common.{ℕ, Bool, false, ◌&&◌, ◌||◌, [], ◌∷◌, eqb, leb, all, length}
use nsclient_fleet_server.Common.Text.{Text, codes}

abbrev pub agent_source : Text
agent_source = codes "agent"

abbrev pub max_source_len : ℕ
max_source_len = 64

-- `u8::is_ascii_lowercase`, `u8::is_ascii_digit`
abbrev pub is_ascii_lowercase : ℕ → Bool
is_ascii_lowercase c = leb b'a' c && leb c b'z'

abbrev pub is_ascii_digit : ℕ → Bool
is_ascii_digit c = leb b'0' c && leb c b'9'

abbrev pub is_source_byte : ℕ → Bool
is_source_byte c =
    is_ascii_lowercase c
    || is_ascii_digit c
    || (eqb c b'_' || eqb c b'.' || eqb c b':' || eqb c b'-')

unfoldable pub valid_source : Text → Bool
valid_source [] = false
valid_source (c ∷ s) =
    leb (length (c ∷ s)) max_source_len && is_ascii_lowercase c && all is_source_byte (c ∷ s)
