-- ===== src/Facts/Import/Samples.antt =====
-- Tests and witnesses for the matching of import rows.
use nsclient_fleet_server.Common.{◌≡◌, refl, List, [], ◌∷◌, some, nat_eq}
use nsclient_fleet_server.Common.Text.{codes, text_eq, text_equality}
use nsclient_fleet_server.Common.Dict.{get, put}
use nsclient_fleet_server.Facts.Import.{
  KeyIndex, RowKey, keys, host, skipped, matched, ambiguous, unmatched, duplicate, skipped_row, new,
  add, lookup, lookup_from, candidate, resolve_rows_from, resolve_rows,
}

-- Hosts 0 and 1 are named; both are in one rack.
abbrev two_hosts : KeyIndex
two_hosts = record {
  apply = λ key. key;
  targets = ((codes "a", 0 ∷ []) ∷ (codes "b", 1 ∷ []) ∷ (codes "rack", 0 ∷ 1 ∷ []) ∷ []) ∷ [];
}

abbrev rows : List RowKey
rows =
    keys (codes "a" ∷ [])
    ∷ skipped
    ∷ keys (codes "rack" ∷ [])
    ∷ host (some 0)
    ∷ keys (codes "c" ∷ [])
    ∷ host (some 1)
    ∷ []

rows_test :
    resolve_rows two_hosts rows
    ≡ matched 0 ∷ skipped_row ∷ ambiguous (0 ∷ 1 ∷ []) ∷ duplicate 0 0 ∷ unmatched ∷ matched 1 ∷ []
unfolding resolve_rows resolve_rows_from candidate lookup lookup_from get put text_eq
rows_test = refl

index_test :
    add 0 1 (codes "rack") (add 0 0 (codes "rack") (new 1 (λ key. key)))
    ≡ record { apply = λ key. key; targets = ((codes "rack", 0 ∷ 1 ∷ []) ∷ []) ∷ [] }
unfolding add new get put text_eq
index_test = refl
