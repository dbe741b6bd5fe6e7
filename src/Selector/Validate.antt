-- ===== src/Selector/Validate.antt =====
-- `Selector::validate` and `validate_expr` of crates/core/src/selector/expr.rs. The node counter that
-- the source passes by reference goes in as a number and comes out as the result.
use nsclient_fleet_server.Common.{
  ℕ, ◌+◌, Bool, true, false, not as negate, List, [], ◌∷◌, any, ltb, is_empty, length,
}
use nsclient_fleet_server.Common.Text.{Text, codes}
use nsclient_fleet_server.Common.Result.{Result, ok, err, ◌>>=◌, ◌>>◌, fail_if}
use nsclient_fleet_server.Path.Parse.{max_fact_path_len}
use nsclient_fleet_server.Facts.Source.{valid_source}
use nsclient_fleet_server.Selector.Tags.{max_key_len, max_value_len}
use nsclient_fleet_server.Selector.Expr.{FactTest, Expr, Exprs, Selector}

abbrev pub max_nodes : ℕ
max_nodes = 64

abbrev pub max_depth : ℕ
max_depth = 8

abbrev pub max_in_values : ℕ
max_in_values = 64

pub data SelectorError : Type 0 where
  too_many_nodes too_deep too_many_in_values key_too_long value_too_long empty_key : SelectorError
  empty_compound : SelectorError
  bad_facts_source bad_fact_path json : Text → SelectorError

abbrev pub Checked : Type 0
Checked = Result (Unit {0}) SelectorError

unfoldable pub check_key : Text → Checked
check_key key = do
  fail_if (is_empty key) empty_key
  fail_if (ltb max_key_len (length key)) key_too_long

abbrev pub is_too_long : Text → Bool
is_too_long v = ltb max_value_len (length v)

-- `for v in values { if v.len() > MAX_VALUE_LEN { return Err(..) } }`
unfoldable pub check_values : List Text → Checked
check_values [] = ok tt
check_values (v ∷ vs) = do fail_if (is_too_long v) value_too_long; check_values vs

unfoldable pub check_test : FactTest → Checked
check_test FactTest.exists = ok tt
check_test (FactTest.eq value) = fail_if (is_too_long value) value_too_long
check_test (FactTest.has value) = fail_if (is_too_long value) value_too_long
check_test (FactTest.one_of values) = do
  fail_if (ltb max_in_values (length values)) too_many_in_values
  fail_if (any is_too_long values) value_too_long

-- The depth test, the counter, and its test.
unfoldable pub enter : ℕ → ℕ → Result ℕ SelectorError
enter depth nodes = do
  fail_if (ltb max_depth depth) too_deep
  fail_if (ltb max_nodes (nodes + 1)) too_many_nodes
  ok (nodes + 1)

abbrev pub no_children : Exprs → Bool
no_children Exprs.nil = true
no_children (Exprs.cons _ _) = false

unfoldable mutual
  unfolding enter check_key check_values check_test valid_source

  pub validate_expr : Expr → ℕ → ℕ → Result ℕ SelectorError
  validate_expr (Expr.eq key value source) depth nodes = do
    n ← enter depth nodes
    check_key key
    fail_if (is_too_long value) value_too_long
    ok n
  validate_expr (Expr.one_of key values source) depth nodes = do
    n ← enter depth nodes
    check_key key
    fail_if (ltb max_in_values (length values)) too_many_in_values
    check_values values
    ok n
  validate_expr (Expr.exists key source) depth nodes = do n ← enter depth nodes; check_key key; ok n
  validate_expr (Expr.fact source path test) depth nodes = do
    n ← enter depth nodes
    fail_if (negate (valid_source source)) (bad_facts_source source)
    fail_if (ltb max_fact_path_len (length path.raw)) (bad_fact_path (codes "too long"))
    check_test test
    ok n
  validate_expr (Expr.not e) depth nodes = do n ← enter depth nodes; validate_expr e (depth + 1) n
  validate_expr (Expr.and es) depth nodes = do
    n ← enter depth nodes
    fail_if (no_children es) empty_compound
    validate_all es (depth + 1) n
  validate_expr (Expr.or es) depth nodes = do
    n ← enter depth nodes
    fail_if (no_children es) empty_compound
    validate_all es (depth + 1) n

  pub validate_all : Exprs → ℕ → ℕ → Result ℕ SelectorError
  validate_all Exprs.nil depth nodes = ok nodes
  validate_all (Exprs.cons e es) depth nodes = do
    n ← validate_expr e depth nodes
    validate_all es depth n

unfoldable pub validate : Selector → Checked
unfolding validate_expr
validate s = do validate_all s.clauses 1 0; ok tt

-- `from_json`, over serde's reading of the value.
unfoldable pub from_json :
    {Json : Type 0} → (Json → Result Selector Text) → Json → Result Selector SelectorError
unfolding validate
from_json from_value v = elim (from_value v) [ err e ↦ err (json e) | ok s ↦ validate s >> ok s ]
