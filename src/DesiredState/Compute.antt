-- ===== src/DesiredState/Compute.antt =====
-- `compute_uncached`: tags, groups, bundles, host override, hash. What the repositories return for the
-- host is a record of results; the parsers, the decryption of an override, and the keyed hash are
-- functions of the record too, since they are serde_json, AES-GCM and HMAC.
pub mod Groups
pub mod Order
pub mod Operator
mod Samples
use nsclient_fleet_server.Common.{
  Bool, true, false, List, [], ◌∷◌, Option, none, some, map, if◌then◌else◌,
}
use nsclient_fleet_server.Common.Int.{ℤ, leb_ℤ}
use nsclient_fleet_server.Common.Text.{Text}
use nsclient_fleet_server.Common.TextSet
use nsclient_fleet_server.Common.Result.{Result, ok, err, ◌>>=◌}
use nsclient_fleet_server.Json.{Value, object, Fields, end}
use nsclient_fleet_server.Selector.Tags.{HostTags}
use nsclient_fleet_server.Selector.Expr.{Selector}
use nsclient_fleet_server.Selector.Eval.{HostFacts, matches, fact_sources}
use nsclient_fleet_server.Merge.Canonical.{canonical_string}
use nsclient_fleet_server.DesiredState.Bundle.{DesiredBundle, DesiredState, BundleRow}
use nsclient_fleet_server.DesiredState.Message.{message}

pub record GroupRow : Type 0 where
  pub id : Text
  pub tenant_id : ℤ
  pub name : Text
  pub selector_json : Text
  pub created_at : ℤ

pub record Inputs (E : Type 0) : Type 0 where
  pub tags : Result HostTags E
  pub groups : Result (List GroupRow) E
  pub selector_of : Text → Option Selector
  pub load_facts : List Text → Result HostFacts E
  pub bundles_for : List Text → Result (List (BundleRow × ℤ)) E
  pub host_override : Result (Option Text) E
  pub open_override : Text → Result Value E
  pub encode : Text → Text
  pub mac : Text → Text

abbrev pub Selected : Type 0
Selected = Text × Selector

abbrev with_id : Text → Option Selector → List Selected → List Selected
with_id id none rest = rest
with_id id (some s) rest = (id, s) ∷ rest

-- `filter_map`: a group whose selector does not parse or validate is left out.
unfoldable pub selectors : (Text → Option Selector) → List GroupRow → List Selected
selectors parse_selector [] = []
selectors parse_selector (g ∷ gs) =
    with_id g.id (parse_selector g.selector_json) (selectors parse_selector gs)

abbrev pub insert_all : List Text → List Text → List Text
insert_all [] out = out
insert_all (s ∷ ss) out = insert_all ss (TextSet.insert s out)

-- `flat_map(..).collect()` into a set
unfoldable pub all_sources : List Selected → List Text → List Text
all_sources [] out = out
all_sources ((id, s) ∷ rest) out = all_sources rest (insert_all (fact_sources s) out)

unfoldable pub matching_group_ids : HostTags → HostFacts → List Selected → List Text
matching_group_ids tags facts [] = []
matching_group_ids tags facts ((id, s) ∷ rest) =
    let later = matching_group_ids tags facts rest in
    if matches tags facts s then id ∷ later else later

-- `sort_by_key(|(_, p)| *p)`, which is stable
unfoldable pub insert_by_priority : BundleRow × ℤ → List (BundleRow × ℤ) → List (BundleRow × ℤ)
insert_by_priority b [] = b ∷ []
insert_by_priority b (c ∷ cs) =
    let later = c ∷ insert_by_priority b cs in if leb_ℤ b.1 c.1 then b ∷ c ∷ cs else later

unfoldable pub sort_by_priority : List (BundleRow × ℤ) → List (BundleRow × ℤ)
unfolding insert_by_priority
sort_by_priority [] = []
sort_by_priority (b ∷ bs) = insert_by_priority b (sort_by_priority bs)

-- The override exactly as stored, if it is an object.
unfoldable pub merged_config : Option Value → Value
merged_config (some (object m)) = object m
merged_config (some _) = object end
merged_config none = object end

unfoldable pub descriptor : BundleRow × ℤ → DesiredBundle
descriptor (b, priority) = record {
  id = b.id;
  name = b.name;
  version = b.version;
  sha256 = b.sha256;
  signature = b.signature;
  priority = priority;
  format = b.format;
}

abbrev opened : {E : Type 0} → (Text → Result Value E) → Option Text → Result (Option Value) E
opened open_patch none = ok none
opened open_patch (some stored) = do v ← open_patch stored; ok (some v)

-- Steps 4 to 7, from the bundles and the override.
unfoldable pub assemble :
    (Text → Text) → (Text → Text) → List (BundleRow × ℤ) → Option Value → DesiredState
unfolding sort_by_priority merged_config descriptor
assemble encode mac group_bundles patch =
    let merged = merged_config patch in
    let bundles = map descriptor (sort_by_priority group_bundles) in
    record {
      state_hash = mac (message (canonical_string encode merged) bundles);
      merged_config = merged;
      bundles = bundles;
    }

unfoldable pub compute_uncached : {E : Type 0} → Inputs E → Result DesiredState E
unfolding selectors all_sources matching_group_ids assemble
compute_uncached i = do
  tags ← i.tags
  groups ← i.groups
  let selected = selectors i.selector_of groups
  facts ← i.load_facts (all_sources selected [])
  group_bundles ← i.bundles_for (matching_group_ids tags facts selected)
  stored ← i.host_override
  patch ← opened i.open_override stored
  ok (assemble i.encode i.mac group_bundles patch)
