-- ===== src/Selector/Samples.antt =====
-- A host that claims a role for itself, and the theorems at it.
use nsclient_fleet_server.Common.{◌≤◌, true, false, ◌≡◌, ◌↔◌, refl, [], ◌∷◌, arith, inl, inr}
use nsclient_fleet_server.Common.Text.{Text, codes, text_eq, text_eq_iff, text_ltb}
use nsclient_fleet_server.Common.Dict
use nsclient_fleet_server.Common.TextSet
use nsclient_fleet_server.Common.Result.{ok, err}
use nsclient_fleet_server.Json.{Value, string, object, field, end, member}
use nsclient_fleet_server.Path.Parse.{FactPath}
use nsclient_fleet_server.Path.Resolve.{resolve}
use nsclient_fleet_server.Facts.Source.{agent_source}
use nsclient_fleet_server.Selector.Tags.{SourceFilter, TagSource, HostTags, matching}
use nsclient_fleet_server.Selector.Expr.{FactTest, Expr, Exprs, Selector}
use nsclient_fleet_server.Selector.Eval.{HostFacts, matches, is_host_controlled, fact_sources}
use nsclient_fleet_server.Selector.Validate.{validate, empty_compound, max_depth, max_nodes}
use nsclient_fleet_server.Selector.Limits.{AllWellFormed, height_all, size_all}
use nsclient_fleet_server.Selector.HostControl.{SameOperatorInput, matches-operator}
use nsclient_fleet_server.Selector.Sources.{SameFactsAt, matches-fact_sources}
use nsclient_fleet_server.Selector.Accepts.{validate_iff}

abbrev role : Text
role = codes "role"

abbrev sql : Text
sql = codes "sql"

abbrev honest_tags : HostTags
honest_tags = (role, record { value = codes "web"; source = TagSource.manual } ∷ []) ∷ []

abbrev claiming_tags : HostTags
claiming_tags =
    (
      role,
      record { value = codes "web"; source = TagSource.manual }
          ∷ record { value = sql; source = TagSource.agent }
          ∷ [],
    )
    ∷ []

abbrev sql_group : SourceFilter → Selector
sql_group source = record { clauses = Exprs.cons (Expr.eq role sql source) Exprs.nil }

claim_ignored : matches claiming_tags [] (sql_group SourceFilter.manual) ≡ false
unfolding matches text_eq Dict.get
claim_ignored = refl

claim_accepted : matches claiming_tags [] (sql_group SourceFilter.any_source) ≡ true
unfolding matches text_eq Dict.get
claim_accepted = refl

same_operator : SameOperatorInput honest_tags claiming_tags [] []
unfolding matching Dict.get
same_operator = record {
  same_tags = λ key. ground (arith, text_eq_iff role key);
  same_facts = λ source h. refl;
}

not_host_controlled : is_host_controlled (sql_group SourceFilter.manual) ≡ false
unfolding is_host_controlled
not_host_controlled = refl

matches-operator_example :
    matches honest_tags [] (sql_group SourceFilter.manual)
    ≡ matches claiming_tags [] (sql_group SourceFilter.manual)
matches-operator_example =
    matches-operator (sql_group SourceFilter.manual) honest_tags claiming_tags [] [] same_operator
      not_host_controlled

abbrev os_path : FactPath
os_path = record { raw = codes "os"; segments = record { key = codes "os"; ids = [] } ∷ [] }

abbrev linux : Value
linux = object (field (codes "os") (string (codes "linux")) end)

abbrev linux_group : Selector
linux_group = record {
  clauses =
      Exprs.cons
        (Expr.not (
          Expr.or (
            Exprs.cons (Expr.fact (codes "import:cmdb") os_path (FactTest.eq (codes "linux")))
              (Exprs.cons (Expr.fact agent_source os_path FactTest.exists) Exprs.nil))))
        Exprs.nil;
}

abbrev all_documents : HostFacts
all_documents = (agent_source, linux) ∷ (codes "import:aws", linux) ∷ []

linux_sources : fact_sources linux_group ≡ agent_source ∷ codes "import:cmdb" ∷ []
unfolding fact_sources TextSet.insert text_eq text_ltb
linux_sources = refl

linux_matches : matches [] all_documents linux_group ≡ false
unfolding matches text_eq Dict.get member resolve
linux_matches = refl

linux_same : SameFactsAt (fact_sources linux_group) all_documents ((agent_source, linux) ∷ [])
unfolding Dict.get fact_sources TextSet.insert text_eq text_ltb
linux_same source (inl e) = ground (arith, text_eq_iff agent_source source)
linux_same source (inr (inl e)) =
    ground (arith, text_eq_iff agent_source source, text_eq_iff (codes "import:aws") source)
linux_same source (inr (inr h)) = absurd h

matches-fact_sources_example :
    TextSet.IsAscending (fact_sources linux_group)
    × (matches [] all_documents linux_group ≡ matches [] ((agent_source, linux) ∷ []) linux_group)
matches-fact_sources_example =
    matches-fact_sources linux_group [] all_documents ((agent_source, linux) ∷ []) linux_same

validate_iff_example : (validate linux_group ≡ ok tt) ↔ (
    AllWellFormed linux_group.clauses
    × (height_all linux_group.clauses ≤ max_depth)
    × (size_all linux_group.clauses ≤ max_nodes))
validate_iff_example = validate_iff linux_group

linux_valid : validate linux_group ≡ ok tt
unfolding validate
linux_valid = refl

empty_or_refused :
    validate (record { clauses = Exprs.cons (Expr.or Exprs.nil) Exprs.nil }) ≡ err empty_compound
unfolding validate
empty_or_refused = refl
