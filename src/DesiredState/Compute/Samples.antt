-- ===== src/DesiredState/Compute/Samples.antt =====
-- Tests and witnesses for the computation of a desired state.
use nsclient_fleet_server.Common.{◌≡◌, refl, inl, inr, List, [], ◌∷◌, none, arith}
use nsclient_fleet_server.Common.Int.{ℤ, pos, negsuc}
use nsclient_fleet_server.Common.Text.{Text, codes, text_equality, text_eq, text_eq_iff, text_ltb}
use nsclient_fleet_server.Common.TextSet
use nsclient_fleet_server.Common.Dict
use nsclient_fleet_server.Json.{Value, string, object, field, end}
use nsclient_fleet_server.Path.Parse.{FactPath}
use nsclient_fleet_server.Facts.Source.{agent_source}
use nsclient_fleet_server.Selector.Expr.{Selector, Expr, Exprs, FactTest}
use nsclient_fleet_server.Selector.Eval.{HostFacts, fact_sources, is_host_controlled}
use nsclient_fleet_server.Selector.Sources.{SameFactsAt}
use nsclient_fleet_server.Selector.HostControl.{SameOperatorInput}
use nsclient_fleet_server.DesiredState.Bundle.{DesiredBundle}
use nsclient_fleet_server.DesiredState.Message.Injective.{IsHeld, message-injective}
use nsclient_fleet_server.DesiredState.Compute.{
  Selected, all_sources, matching_group_ids, insert_by_priority, sort_by_priority,
}
use nsclient_fleet_server.Common.{ℕ, some}
use nsclient_fleet_server.Common.Result.{ok, err}
use nsclient_fleet_server.DesiredState.Compute.{Inputs, selectors, compute_uncached}
use nsclient_fleet_server.DesiredState.Compute.Operator.{with_host, compute_uncached-operator}
use nsclient_fleet_server.DesiredState.Compute.Groups.{groups-loaded}
use nsclient_fleet_server.DesiredState.Compute.Order.{Assigned}

abbrev assigned : Text → ℤ → Assigned
assigned name priority = (
  record {
    id = name;
    tenant_id = pos 1;
    name = name;
    version = codes "1";
    sha256 = codes "aa";
    size_bytes = pos 10;
    signature = codes "s";
    uploaded_at = pos 0;
    format = codes "tar.gz";
    key_fingerprint = none;
  },
  priority,
)

abbrev three : List Assigned
three =
    assigned (codes "a") (pos 5)
    ∷ assigned (codes "b") (negsuc 0)
    ∷ assigned (codes "c") (pos 5)
    ∷ []

sort_test :
    sort_by_priority three
    ≡ assigned (codes "b") (negsuc 0)
      ∷ assigned (codes "a") (pos 5)
      ∷ assigned (codes "c") (pos 5)
      ∷ []
unfolding sort_by_priority insert_by_priority
sort_test = refl

abbrev os_path : FactPath
os_path = record { raw = codes "os"; segments = record { key = codes "os"; ids = [] } ∷ [] }

abbrev by_import : Selector
by_import = record {
  clauses =
      Exprs.cons (Expr.fact (codes "import:cmdb") os_path (FactTest.eq (codes "linux"))) Exprs.nil;
}

abbrev groups : List Selected
groups = (codes "g1", by_import) ∷ []

abbrev says : Text → Value
says os = object (field (codes "os") (string os) end)

abbrev loaded : HostFacts
loaded = (codes "import:cmdb", says (codes "linux")) ∷ []

abbrev every : HostFacts
every = (agent_source, says (codes "windows")) ∷ loaded

same_loaded : SameFactsAt (all_sources groups []) loaded every
unfolding Dict.get all_sources fact_sources TextSet.insert text_eq text_ltb
same_loaded source (inl e) =
    ground (arith, text_eq_iff agent_source source, text_eq_iff (codes "import:cmdb") source)
same_loaded source (inr h) = absurd h

groups-loaded_example : matching_group_ids [] loaded groups ≡ matching_group_ids [] every groups
groups-loaded_example = groups-loaded [] loaded every groups same_loaded

same_operator : SameOperatorInput [] [] loaded every
unfolding Dict.get
same_operator = record {
  same_tags = λ key. refl;
  same_facts = λ source h. ground (arith, text_eq_iff agent_source source);
}

abbrev inputs : Inputs ℕ
inputs = record {
  tags = ok [];
  groups = ok (
      record {
        id = codes "g1";
        tenant_id = pos 1;
        name = codes "linux";
        selector_json = [];
        created_at = pos 0;
      }
      ∷ []);
  selector_of = λ text. some by_import;
  load_facts = λ sources. ok [];
  bundles_for = λ ids. ok three;
  host_override = ok none;
  open_override = λ stored. err 0;
  encode = λ text. text;
  mac = λ bytes. bytes;
}

compute_uncached-operator_example :
    compute_uncached (with_host inputs [] loaded) ≡ compute_uncached (with_host inputs [] every)
compute_uncached-operator_example =
    compute_uncached-operator inputs
      (record {
        id = codes "g1";
        tenant_id = pos 1;
        name = codes "linux";
        selector_json = [];
        created_at = pos 0;
      }
        ∷ [])
      [] [] loaded every refl (unfold selectors is_host_controlled text_eq in (refl, tt))
      same_operator

abbrev described : Text → DesiredBundle
described name = record {
  id = name;
  name = name;
  version = codes "1";
  sha256 = codes "aa";
  signature = codes "s";
  priority = negsuc 2;
  format = codes "tar.gz";
}

held : IsHeld (described (codes "a"))
held = (
  (
    omega arith,
    (omega arith, (omega arith, (omega arith, (omega arith, (omega arith, (omega arith, tt)))))),
  ),
  omega arith,
)

message-injective_example :
    (codes "{}" ≡ codes "{}") × (described (codes "a") ∷ [] ≡ described (codes "a") ∷ [])
message-injective_example =
    message-injective (codes "{}") (codes "{}") (described (codes "a") ∷ [])
      (described (codes "a") ∷ []) (omega arith) (omega arith) (held, tt) (held, tt) refl
