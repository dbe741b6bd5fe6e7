-- ===== src/Selector/Eval.antt =====
-- `Selector::matches`, `fact_sources` and `is_host_controlled` of crates/core/src/selector/expr.rs.
use nsclient_fleet_server.Common.{
  Bool, true, false, not as negate, ◌&&◌, ◌||◌, List, [], Option, none, some, any, is_empty, ◌==◌,
  if◌then◌else◌,
}
use nsclient_fleet_server.Common.Text.{Text, text_equality}
use nsclient_fleet_server.Common.Dict
use nsclient_fleet_server.Common.TextSet
use nsclient_fleet_server.Json.{Value, array, object, elements, member, scalar_text, is_null}
use nsclient_fleet_server.Path.Parse.{FactPath}
use nsclient_fleet_server.Path.Resolve.{resolve, id_key, text_of, is_text}
use nsclient_fleet_server.Facts.Source.{agent_source}
use nsclient_fleet_server.Selector.Tags.{HostTags, matching, filter_is_host_controlled}
use nsclient_fleet_server.Selector.Expr.{FactTest, Expr, Exprs, Selector}

abbrev pub HostFacts : Type 0
HostFacts = List (Text × Value)

-- `values.contains(&s)`
abbrev pub text_in : List Text → Text → Bool
text_in values s = any (λ v. v == s) values

abbrev pub text_is : Text → Option Text → Bool
text_is value none = false
text_is value (some s) = s == value

abbrev pub text_among : List Text → Option Text → Bool
text_among values none = false
text_among values (some s) = text_in values s

-- One element of a list under `Has`: the id of a record, or a scalar.
unfoldable pub element_has : Text → Value → Bool
unfolding member scalar_text
element_has value (object record_fields) = is_text value (text_of (member id_key record_fields))
element_has value other = text_is value (scalar_text other)

abbrev pub is_some : Option Value → Bool
is_some none = false
is_some (some _) = true

unfoldable pub holds : Text → Value → Bool
unfolding element_has
holds value (array items) = any (element_has value) (elements items)
holds value (object m) = is_some (member value m)
holds value _ = false

unfoldable pub fact_test : FactTest → Value → Bool
unfolding holds scalar_text
fact_test FactTest.exists v = negate (is_null v)
fact_test (FactTest.eq value) v = text_is value (scalar_text v)
fact_test (FactTest.one_of values) v = text_among values (scalar_text v)
fact_test (FactTest.has value) v = holds value v

-- `let Some(doc) = host.facts.get(facts) else { return false }`
abbrev pub fact_holds : FactPath → FactTest → Option Value → Bool
fact_holds path test none = false
fact_holds path test (some doc) = any (fact_test test) (resolve path doc)

module _ (tags : HostTags) (facts : HostFacts) where
  unfoldable mutual
    unfolding fact_test matching resolve

    pub eval : Expr → Bool
    eval (Expr.fact source path test) = fact_holds path test (Dict.get source facts)
    eval (Expr.eq key value source) = any (λ t. t.value == value) (matching tags key source)
    eval (Expr.one_of key values source) =
        any (λ t. text_in values t.value) (matching tags key source)
    eval (Expr.exists key source) = negate (is_empty (matching tags key source))
    eval (Expr.not e) = negate (eval e)
    eval (Expr.and es) = eval_all es
    eval (Expr.or es) = eval_any es

    pub eval_all : Exprs → Bool
    eval_all Exprs.nil = true
    eval_all (Exprs.cons e es) = eval e && eval_all es

    pub eval_any : Exprs → Bool
    eval_any Exprs.nil = false
    eval_any (Exprs.cons e es) = eval e || eval_any es

  abbrev pub no_clauses : Exprs → Bool
  no_clauses Exprs.nil = true
  no_clauses (Exprs.cons _ _) = false

  unfoldable pub matches : Selector → Bool
  unfolding eval
  matches s = if no_clauses s.clauses then true else eval_all s.clauses

-- `walk` of `fact_sources`: the set is threaded through.
unfoldable mutual
  pub walk : Expr → List Text → List Text
  walk (Expr.fact source path test) out = TextSet.insert source out
  walk (Expr.not e) out = walk e out
  walk (Expr.and es) out = walk_all es out
  walk (Expr.or es) out = walk_all es out
  walk (Expr.eq key value source) out = out
  walk (Expr.one_of key values source) out = out
  walk (Expr.exists key source) out = out

  pub walk_all : Exprs → List Text → List Text
  walk_all Exprs.nil out = out
  walk_all (Exprs.cons e es) out = walk_all es (walk e out)

unfoldable pub fact_sources : Selector → List Text
unfolding walk
fact_sources s = walk_all s.clauses []

unfoldable mutual
  unfolding filter_is_host_controlled

  pub expr_is_host_controlled : Expr → Bool
  expr_is_host_controlled (Expr.eq key value source) = filter_is_host_controlled source
  expr_is_host_controlled (Expr.one_of key values source) = filter_is_host_controlled source
  expr_is_host_controlled (Expr.exists key source) = filter_is_host_controlled source
  expr_is_host_controlled (Expr.fact source path test) = source == agent_source
  expr_is_host_controlled (Expr.not e) = expr_is_host_controlled e
  expr_is_host_controlled (Expr.and es) = any_is_host_controlled es
  expr_is_host_controlled (Expr.or es) = any_is_host_controlled es

  pub any_is_host_controlled : Exprs → Bool
  any_is_host_controlled Exprs.nil = false
  any_is_host_controlled (Exprs.cons e es) = expr_is_host_controlled e || any_is_host_controlled es

unfoldable pub is_host_controlled : Selector → Bool
unfolding expr_is_host_controlled
is_host_controlled s = any_is_host_controlled s.clauses
