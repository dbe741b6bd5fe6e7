-- ===== src/Limits/Governor.antt =====
-- What the limits use of the governor crate: a store of the keyed limiter `RateLimiter<K>`, the
-- check of a key at an instant (true: not limited), and the dropping of keys that are fresh again.
use nsclient_fleet_server.Common.{ℕ, Bool, ◌+◌, ◌/◌, ◌-◌, ◌%◌, ◌^◌, if◌then◌else◌, leb, eqb}

pub record Governor (K : Type 0) (S : Type 0) : Type 0 where
  pub check_key : ℕ → K → S → S × Bool
  pub retain_recent : ℕ → S → S
  pub len : S → ℕ

-- `fetch_add(1)` of a counter of w bits
abbrev pub count_up : ℕ → ℕ → ℕ
count_up w n = (n + 1) % 2 ^ w

-- `fetch_sub(1)`
abbrev pub count_down : ℕ → ℕ → ℕ
count_down w n = (n + (2 ^ w - 1)) % 2 ^ w

abbrev pub prune_every : ℕ
prune_every = 512

-- `since_prune.fetch_add(1) + 1 >= PRUNE_EVERY`
abbrev pub prune_due : ℕ → Bool
prune_due since_prune = leb prune_every ((since_prune + 1) % 2 ^ 64)

abbrev pub next_since : ℕ → ℕ
next_since since_prune = if prune_due since_prune then 0 else count_up 64 since_prune

-- `(60.0 / q as f64).ceil() as u32`, which saturates where q is zero.
unfoldable pub seconds_per_request : ℕ → ℕ
seconds_per_request q = if eqb q 0 then 2 ^ 32 - 1 else (60 + (q - 1)) / q
