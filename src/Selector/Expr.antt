-- ===== src/Selector/Expr.antt =====
-- The selector tree of crates/core/src/selector/expr.rs. A `Vec<Expr>` is `Exprs`, and
-- the variant `In` is `one_of`, since `in` is a reserved word.
use nsclient_fleet_server.Common.{List}
use nsclient_fleet_server.Common.Text.{Text}
use nsclient_fleet_server.Path.Parse.{FactPath}
use nsclient_fleet_server.Selector.Tags.{SourceFilter}

pub data FactTest : Type 0 where
  exists : FactTest
  eq : Text → FactTest
  one_of : List Text → FactTest
  has : Text → FactTest

mutual
  pub data Expr : Type 0 where
    fact : Text → FactPath → FactTest → Expr
    eq : Text → Text → SourceFilter → Expr
    one_of : Text → List Text → SourceFilter → Expr
    exists : Text → SourceFilter → Expr
    not : Expr → Expr
    and : Exprs → Expr
    or : Exprs → Expr

  pub data Exprs : Type 0 where
    nil : Exprs
    cons : Expr → Exprs → Exprs

pub record Selector : Type 0 where
  pub clauses : Exprs
