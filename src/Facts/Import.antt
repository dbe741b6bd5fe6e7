-- ===== src/Facts/Import.antt =====
-- crates/core/src/facts/import.rs: matching the rows of an import to hosts. `apply` is what
-- `Normalize::apply` does to a key with the import's options: trimming and lowercasing.
pub mod Once
mod Samples
use nsclient_fleet_server.Common.{
  ℕ, zero, suc, ◌+◌, Bool, true, false, ◌||◌, not, List, [], ◌∷◌, ◌++◌, Option, none, some,
  if◌then◌else◌, ltb, eqb, length, is_empty, any, keep, map, nat_eq,
}
use nsclient_fleet_server.Common.Text.{Text, codes, text_equality}
use nsclient_fleet_server.Common.Dict.{get, put}

pub record KeyIndex : Type 0 where
  pub apply : Text → Text
  pub targets : List (List (Text × List ℕ))

abbrev empty_maps : ℕ → List (List (Text × List ℕ))
empty_maps zero = []
empty_maps (suc n) = [] ∷ empty_maps n

unfoldable pub new : ℕ → (Text → Text) → KeyIndex
new targets apply = record { apply = apply; targets = empty_maps targets }

-- `binary_search` and `insert` in a sorted list of hosts
abbrev pub insert_host : ℕ → List ℕ → List ℕ
insert_host h [] = h ∷ []
insert_host h (g ∷ gs) =
    let rest = g ∷ insert_host h gs in
    if eqb h g then g ∷ gs else if ltb h g then h ∷ g ∷ gs else rest

abbrev hosts_of : Option (List ℕ) → List ℕ
hosts_of none = []
hosts_of (some hs) = hs

abbrev add_at : ℕ → ℕ → Text → List (List (Text × List ℕ)) → List (List (Text × List ℕ))
add_at target host v [] = []
add_at zero host v (m ∷ ms) = put v (insert_host host (hosts_of (get v m))) m ∷ ms
add_at (suc target) host v (m ∷ ms) = m ∷ add_at target host v ms

-- An index out of range is a panic in the code: the model leaves the index as it is.
unfoldable pub add : ℕ → ℕ → Text → KeyIndex → KeyIndex
add target host value index =
    let v = index.apply value in
    if is_empty v then index else record index { targets = add_at target host v index.targets }

abbrev narrowed : Option (List ℕ) → List ℕ → List ℕ
narrowed none hosts = hosts
narrowed (some prev) hosts = keep (λ h. any (λ g. eqb g h) hosts) prev

abbrev found_at : Text → List (Text × List ℕ) → Option (List ℕ)
found_at k m = if is_empty k then none else get k m

-- The loop of `lookup`
unfoldable pub lookup_from :
    (Text → Text) → Option (List ℕ) → List (List (Text × List ℕ)) → List Text → List ℕ
lookup_from apply result [] keys = hosts_of result
lookup_from apply result (m ∷ ms) [] = hosts_of result
lookup_from apply result (m ∷ ms) (key ∷ keys) = elim (found_at (apply key) m) [
  | none ↦ []
  | some hosts ↦
      let rest = lookup_from apply (some (narrowed result hosts)) ms keys in
      if is_empty (narrowed result hosts) then [] else rest
]

unfoldable pub lookup : List Text → KeyIndex → List ℕ
unfolding lookup_from
lookup keys index =
    if not (eqb (length keys) (length index.targets)) || is_empty keys
    then []
    else lookup_from index.apply none index.targets keys

pub data RowKey : Type 0 where
  keys : List Text → RowKey
  host : Option ℕ → RowKey
  skipped : RowKey

pub data Resolution : Type 0 where
  matched : ℕ → Resolution
  ambiguous : List ℕ → Resolution
  unmatched : Resolution
  duplicate : ℕ → ℕ → Resolution
  skipped_row : Resolution

-- What the match on the row decides: a host, or an answer at once.
pub data Candidate : Type 0 where
  one : ℕ → Candidate
  answered : Resolution → Candidate

abbrev by_hosts : List ℕ → Candidate
by_hosts [] = answered unmatched
by_hosts (h ∷ []) = one h
by_hosts (h ∷ g ∷ hs) = answered (ambiguous (h ∷ g ∷ hs))

unfoldable pub candidate : KeyIndex → RowKey → Candidate
unfolding lookup
candidate index skipped = answered skipped_row
candidate index (host none) = answered unmatched
candidate index (host (some h)) = one h
candidate index (keys ks) = by_hosts (lookup ks index)

-- The closure over the rows, with the first row of each host so far and the row's number.
unfoldable pub resolve_rows_from : KeyIndex → List (ℕ × ℕ) → ℕ → List RowKey → List Resolution
unfolding candidate
resolve_rows_from index first_row_of i [] = []
resolve_rows_from index first_row_of i (row ∷ rows) = elim (candidate index row) [
  | answered r ↦ r ∷ resolve_rows_from index first_row_of (i + 1) rows
  | one h ↦ elim (get h first_row_of) [
    | some of_row ↦ duplicate h of_row ∷ resolve_rows_from index first_row_of (i + 1) rows
    | none ↦ matched h ∷ resolve_rows_from index (put h i first_row_of) (i + 1) rows
  ]
]

unfoldable pub resolve_rows : KeyIndex → List RowKey → List Resolution
unfolding resolve_rows_from
resolve_rows index rows = resolve_rows_from index [] 0 rows
