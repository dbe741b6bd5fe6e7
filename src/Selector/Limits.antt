-- ===== src/Selector/Limits.antt =====
-- The limits of a selector, written without any traversal order, counter or early return.
use nsclient_fleet_server.Common.{
  ℕ, suc, ◌+◌, ◌≤◌, max, true, false, ◌≡◌, List, All, is_empty, length,
}
use nsclient_fleet_server.Common.Text.{Text}
use nsclient_fleet_server.Path.Parse.{max_fact_path_len}
use nsclient_fleet_server.Facts.Source.{valid_source}
use nsclient_fleet_server.Selector.Tags.{max_key_len, max_value_len}
use nsclient_fleet_server.Selector.Expr.{FactTest, Expr, Exprs}
use nsclient_fleet_server.Selector.Validate.{max_in_values, no_children}

abbrev pub IsShort : Text → Type 0
IsShort v = length v ≤ max_value_len

abbrev pub IsTagKey : Text → Type 0
IsTagKey k = (is_empty k ≡ false) × (length k ≤ max_key_len)

abbrev pub AreValues : List Text → Type 0
AreValues vs = (length vs ≤ max_in_values) × All IsShort vs

abbrev pub IsTest : FactTest → Type 0
IsTest FactTest.exists = Unit
IsTest (FactTest.eq v) = IsShort v
IsTest (FactTest.has v) = IsShort v
IsTest (FactTest.one_of vs) = AreValues vs

-- Every leaf is within its limits, and no `and` or `or` is empty.
unfoldable mutual
  pub IsWellFormed : Expr → Type 0
  IsWellFormed (Expr.fact source path test) =
      (valid_source source ≡ true) × (length path.raw ≤ max_fact_path_len) × IsTest test
  IsWellFormed (Expr.eq key value source) = IsTagKey key × IsShort value
  IsWellFormed (Expr.one_of key values source) = IsTagKey key × AreValues values
  IsWellFormed (Expr.exists key source) = IsTagKey key
  IsWellFormed (Expr.not e) = IsWellFormed e
  IsWellFormed (Expr.and es) = (no_children es ≡ false) × AllWellFormed es
  IsWellFormed (Expr.or es) = (no_children es ≡ false) × AllWellFormed es

  pub AllWellFormed : Exprs → Type 0
  AllWellFormed Exprs.nil = Unit
  AllWellFormed (Exprs.cons e es) = IsWellFormed e × AllWellFormed es

unfoldable mutual
  pub size : Expr → ℕ
  size (Expr.fact source path test) = 1
  size (Expr.eq key value source) = 1
  size (Expr.one_of key values source) = 1
  size (Expr.exists key source) = 1
  size (Expr.not e) = suc (size e)
  size (Expr.and es) = suc (size_all es)
  size (Expr.or es) = suc (size_all es)

  pub size_all : Exprs → ℕ
  size_all Exprs.nil = 0
  size_all (Exprs.cons e es) = size e + size_all es

unfoldable mutual
  pub height : Expr → ℕ
  height (Expr.fact source path test) = 1
  height (Expr.eq key value source) = 1
  height (Expr.one_of key values source) = 1
  height (Expr.exists key source) = 1
  height (Expr.not e) = suc (height e)
  height (Expr.and es) = suc (height_all es)
  height (Expr.or es) = suc (height_all es)

  pub height_all : Exprs → ℕ
  height_all Exprs.nil = 0
  height_all (Exprs.cons e es) = max (height e) (height_all es)
