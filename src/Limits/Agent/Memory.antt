-- ===== src/Limits/Agent/Memory.antt =====
-- What the map of last polls still knows of a host, under each change of the map.
use nsclient_fleet_server.Common.{
  ℕ, ◌+◌, ◌≤◌, Bool, false, ◌≡◌, ◌∙◌, ◌⊎◌, inl, inr, List, none, some, ltb, keep, arith, ◌==◌,
}
use nsclient_fleet_server.Common.Text.{Text, text_equality, text_eq_iff}
use nsclient_fleet_server.Common.Dict.{get, put, remove, get-put, get-remove}
use nsclient_fleet_server.Common.Distinct.{
  IsDistinct, put-IsDistinct, remove-IsDistinct, keep-IsDistinct, get-keep_both, get-keep,
}
use nsclient_fleet_server.Limits.Agent.{last_poll_ttl}

-- The host was heard at `t`, or its entry was swept when it was an hour old.
abbrev pub Remembered : Text → ℕ → ℕ → List (Text × ℕ) → Type 0
Remembered host t now m =
    ((u : ℕ) × (get host m ≡ some u) × (t ≤ u)) ⊎ ((get host m ≡ none) × (t + last_poll_ttl ≤ now))

-- What an entry is once the clock shows `now`.
abbrev pub Kept : Text → ℕ → ℕ → List (Text × ℕ) → Type 0
Kept host t now m = IsDistinct m × Remembered host t now m

pub put-Kept :
    (host other : Text) (t before now : ℕ) (m : List (Text × ℕ))
    → before ≤ now
    → t ≤ before
    → Kept host t before m
    → Kept host t now (put other now m)
put-Kept host other t before now m le le' (d, inl (u, g, b)) =
    (put-IsDistinct other now m d, ground (arith, get-put other host now m, text_eq_iff other host))
put-Kept host other t before now m le le' (d, inr (g, b)) =
    (put-IsDistinct other now m d, ground (arith, get-put other host now m, text_eq_iff other host))

pub stay-Kept :
    (host : Text) (t before now : ℕ) (m : List (Text × ℕ))
    → before ≤ now
    → Kept host t before m
    → Kept host t now m
stay-Kept host t before now m le (d, inl r) = (d, inl r)
stay-Kept host t before now m le (d, inr (g, b)) = (d, inr (g, omega arith))

pub remove-Kept :
    (host other : Text) (t now : ℕ) (m : List (Text × ℕ))
    → other == host ≡ false
    → Kept host t now m
    → Kept host t now (remove other m)
remove-Kept host other t now m ne (d, inl (u, g, b)) =
    (remove-IsDistinct other m d, ground (arith, get-remove other host m))
remove-Kept host other t now m ne (d, inr (g, b)) =
    (remove-IsDistinct other m d, ground (arith, get-remove other host m))

get-keep_gone :
    (k : Text) (p : Text × ℕ → Bool) (m : List (Text × ℕ))
    → IsDistinct m
    → get k m ≡ none
    → get k (keep p m) ≡ none
get-keep_gone k p m d h = elim (get-keep k p m d) [ inl e ↦ e ∙ h | inr e ↦ e ]

pub sweep-Kept :
    (host : Text) (t now : ℕ) (m : List (Text × ℕ))
    → Kept host t now m
    → Kept host t now (keep (λ e. ltb now (e.1 + last_poll_ttl)) m)
sweep-Kept host t now m (d, inr (g, b)) =
    let p = λ (e : Text × ℕ). ltb now (e.1 + last_poll_ttl) in
    (keep-IsDistinct p m d, inr (get-keep_gone host p m d g, b))
sweep-Kept host t now m (d, inl (u, g, b)) =
    let p = λ (e : Text × ℕ). ltb now (e.1 + last_poll_ttl) in
    (
      keep-IsDistinct p m d,
      elim (get-keep_both host p m u d g) [
        | inl (q, h) ↦ inl (u, h, b)
        | inr (q, h) ↦ inr (h, ground arith)
      ],
    )
