-- ===== src/Selector/Accepts.antt =====
-- Validation accepts exactly the selectors within the limits.
use nsclient_fleet_server.Common.{ℕ, ◌+◌, ◌-◌, ◌≤◌, false, ◌≡◌, ◌↔◌, List, [], ◌∷◌, arith, All, any}
use nsclient_fleet_server.Common.Text.{Text}
use nsclient_fleet_server.Common.Result.{ok, >>=-eq-ok}
use nsclient_fleet_server.Selector.Expr.{FactTest, Expr, Exprs, Selector}
use nsclient_fleet_server.Selector.Validate.{
  max_nodes, max_depth, is_too_long, check_key, check_values, check_test, validate_expr,
  validate_all, validate,
}
use nsclient_fleet_server.Selector.Limits.{
  IsShort, IsTagKey, IsTest, IsWellFormed, AllWellFormed, size, size_all, height, height_all,
}

-- The checks of the leaves, both ways.
check_key_iff : (k : Text) → (check_key k ≡ ok tt) ↔ IsTagKey k
unfolding check_key
check_key_iff k = ground arith

check_values_iff : (vs : List Text) → (check_values vs ≡ ok tt) ↔ All IsShort vs
unfolding check_values
check_values_iff [] = ground arith
check_values_iff (v ∷ vs) = ground (arith, check_values_iff vs)

any_too_long_iff : (vs : List Text) → (any is_too_long vs ≡ false) ↔ All IsShort vs
any_too_long_iff [] = ground arith
any_too_long_iff (v ∷ vs) = ground (arith, any_too_long_iff vs)

check_test_iff : (t : FactTest) → (check_test t ≡ ok tt) ↔ IsTest t
unfolding check_test
check_test_iff FactTest.exists = ground arith
check_test_iff (FactTest.eq v) = ground arith
check_test_iff (FactTest.has v) = ground arith
check_test_iff (FactTest.one_of vs) = ground (arith, any_too_long_iff vs)

mutual
  unfolding validate_expr IsWellFormed size height

  validate_expr_complete :
      (e : Expr) (d n : ℕ)
      → IsWellFormed e
      → height e ≤ 9 - d
      → n + size e ≤ max_nodes
      → validate_expr e d n ≡ ok (n + size e)
  validate_expr_complete (Expr.fact source path test) d n w h l =
      ground (arith, check_test_iff test)
  validate_expr_complete (Expr.eq key value source) d n w h l = ground (arith, check_key_iff key)
  validate_expr_complete (Expr.one_of key values source) d n w h l =
      ground (arith, check_key_iff key, check_values_iff values)
  validate_expr_complete (Expr.exists key source) d n w h l = ground (arith, check_key_iff key)
  validate_expr_complete (Expr.not e) d n w h l =
      ground (arith, validate_expr_complete e (d + 1) (n + 1))
  validate_expr_complete (Expr.and es) d n w h l =
      ground (arith, validate_all_complete es (d + 1) (n + 1))
  validate_expr_complete (Expr.or es) d n w h l =
      ground (arith, validate_all_complete es (d + 1) (n + 1))

  validate_all_complete :
      (es : Exprs) (d n : ℕ)
      → AllWellFormed es
      → height_all es ≤ 9 - d
      → n + size_all es ≤ max_nodes
      → validate_all es d n ≡ ok (n + size_all es)
  validate_all_complete Exprs.nil d n w h l = ground arith
  validate_all_complete (Exprs.cons e es) d n w h l =
      ground (arith, validate_expr_complete e d n, validate_all_complete es d (n + size e))

mutual
  unfolding validate_expr IsWellFormed size height

  validate_expr_sound :
      (e : Expr) (d n m : ℕ)
      → validate_expr e d n ≡ ok m
      → IsWellFormed e × (height e ≤ 9 - d) × (m ≡ n + size e) × (m ≤ max_nodes)
  validate_expr_sound (Expr.fact source path test) d n m h = ground (arith, check_test_iff test)
  validate_expr_sound (Expr.eq key value source) d n m h = ground (arith, check_key_iff key)
  validate_expr_sound (Expr.one_of key values source) d n m h =
      ground (arith, check_key_iff key, check_values_iff values)
  validate_expr_sound (Expr.exists key source) d n m h = ground (arith, check_key_iff key)
  validate_expr_sound (Expr.not e) d n m h = ground (arith, validate_expr_sound e (d + 1) (n + 1) m)
  validate_expr_sound (Expr.and es) d n m h =
      ground (arith, validate_all_sound es (d + 1) (n + 1) m)
  validate_expr_sound (Expr.or es) d n m h = ground (arith, validate_all_sound es (d + 1) (n + 1) m)

  validate_all_sound :
      (es : Exprs) (d n m : ℕ)
      → validate_all es d n ≡ ok m
      → AllWellFormed es
        × (height_all es ≤ 9 - d)
        × (m ≡ n + size_all es)
        × (n ≤ max_nodes → m ≤ max_nodes)
  validate_all_sound Exprs.nil d n m h = ground arith
  validate_all_sound (Exprs.cons e es) d n m h =
      let q = >>=-eq-ok (validate_expr e d n) (λ k. validate_all es d k) m h in
      let first = validate_expr_sound e d n q.0 q.1 in
      let rest = validate_all_sound es d q.0 m q.2 in
      ((first.0, rest.0), omega arith, omega arith, λ l. rest.3 first.3)

-- Validation accepts a selector exactly when it nests at most eight deep, has at most 64 nodes, every
-- leaf is within its limits, and no `and` or `or` is empty.
pub validate_iff :
    (s : Selector)
    → (validate s ≡ ok tt) ↔ (
        AllWellFormed s.clauses
        × (height_all s.clauses ≤ max_depth)
        × (size_all s.clauses ≤ max_nodes))
unfolding validate
validate_iff s = (
  λ h.
      let q = >>=-eq-ok (validate_all s.clauses 1 0) (λ n. ok tt) tt h in
      let v = validate_all_sound s.clauses 1 0 q.0 q.1 in
      (v.0, omega arith, omega (arith, v.3 (omega arith))),
  λ w. rw (validate_all_complete s.clauses 1 0 w.0 (omega arith) (omega arith)),
)
