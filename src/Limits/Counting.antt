-- ===== src/Limits/Counting.antt =====
-- Concrete limiters for the samples: a key is allowed a number of times.
use nsclient_fleet_server.Common.{
  ℕ, ◌+◌, true, false, List, [], ◌∷◌, ltb, if◌then◌else◌, ◌==◌, Eq, length,
}
use nsclient_fleet_server.Limits.Governor.{Governor}

abbrev pub occurrences : {K : Type 0} ⦃e : Eq K⦄ → K → List K → ℕ
occurrences k [] = 0
occurrences k (j ∷ js) = (if j == k then 1 else 0) + occurrences k js

-- A limiter that allows a key n times.
abbrev pub counting : {K : Type 0} ⦃e : Eq K⦄ → ℕ → Governor K (List K)
counting n = record {
  check_key = λ now k s. if ltb (occurrences k s) n then (k ∷ s, true) else (s, false);
  retain_recent = λ now s. s;
  len = length;
}
