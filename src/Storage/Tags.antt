-- ===== src/Storage/Tags.antt =====
-- `HostTagsRepo` of crates/storage/src/repos/hosts.rs.
pub mod Written
pub mod Replaced
use nsclient_fleet_server.Common.{
  ℕ, Bool, true, false, not as negate, List, [], ◌∷◌, ◌++◌, Option, none, some, ◌&&◌, ◌||◌, ◌==◌,
  if◌then◌else◌, ltb, any, map, keep, is_empty,
}
use nsclient_fleet_server.Common.Int.{ℤ, int_eq}
use nsclient_fleet_server.Common.Text.{Text, codes, text_equality, text_ltb}
use nsclient_fleet_server.Common.Result.{ok, err}
use nsclient_fleet_server.Common.Dict
use nsclient_fleet_server.Selector.Tags.{HostTags, TagValue, from_db}
use nsclient_fleet_server.Storage.{Store, TagRow, foreign_key, has_tenant, has_host, of_host}
use nsclient_fleet_server.Storage.Table.{first, update, delete, count, upsert, order_by}
use nsclient_fleet_server.Storage.Hosts.{Reply, map_option}

abbrev pub agent_tag_source : Text
agent_tag_source = codes "agent"

abbrev manual_tag_source : Text
manual_tag_source = codes "manual"

-- The primary key: (host_id, key, source).
abbrev pub is_tag : Text → Text → Text → TagRow → Bool
is_tag h k source r = r.host_id == h && r.key == k && r.source == source

abbrev pub is_set : Option Text → Bool
is_set none = false
is_set (some v) = true

-- `existing.as_deref() != Some(value)`
abbrev pub is_other : Option TagRow → Text → Bool
is_other none v = true
is_other (some r) v = negate (r.value == v)

-- INSERT .. ON CONFLICT(host_id, key, source) DO UPDATE
unfoldable pub write_tag : ℤ → Text → Text → Text → Text → ℤ → List TagRow → List TagRow
write_tag t h k v source now =
    let row : TagRow = record {
      tenant_id = t;
      host_id = h;
      key = k;
      value = v;
      source = source;
      updated_at = now;
    } in
    upsert (is_tag h k source) (λ r. row) row

-- The two loops of `replace_agent_tags`: the keys that are gone, then every key of the report.
abbrev drops : ℤ → Text → List (Text × Text) → TagRow → Bool
drops t h tags r =
    of_host t h r.tenant_id r.host_id
    && r.source == agent_tag_source
    && negate (is_set (Dict.get r.key tags))

unfoldable pub write_all :
    ℤ → Text → ℤ → List (Text × Text) → Bool × List TagRow → Bool × List TagRow
write_all t h now [] st = st
write_all t h now ((k, v) ∷ tags) (changed, rows) = write_all t h now tags (
  changed || is_other (first (is_tag h k agent_tag_source) rows) v,
  write_tag t h k v agent_tag_source now rows,
)

-- `replace_agent_tags`; the report is a `BTreeMap`, its entries in the order of its keys.
unfoldable pub replace_agent_tags : ℤ → Text → List (Text × Text) → ℤ → Store → Reply Bool
replace_agent_tags t h tags now s =
    let gone = drops t h tags in
    let written = write_all t h now tags (ltb 0 (count gone s.tags), delete gone s.tags) in
    if is_empty tags || (has_tenant t s && has_host h s)
    then (ok written.0, record s { tags = written.1 })
    else (err foreign_key, s)

unfoldable list_for_host : ℤ → Text → Store → List (Text × Text × Text)
list_for_host t h s =
    map (λ r. (r.key, r.value, r.source))
      (order_by (λ a b. text_ltb a.key b.key)
        (keep (λ r. of_host t h r.tenant_id r.host_id) s.tags))

abbrev ahead : TagRow → TagRow → Bool
ahead a b = text_ltb a.host_id b.host_id || (a.host_id == b.host_id && text_ltb a.key b.key)

unfoldable list_for_tenant : ℤ → Store → List (Text × Text × Text × Text)
list_for_tenant t s =
    map (λ r. (r.host_id, r.key, r.value, r.source))
      (order_by ahead (keep (λ r. r.tenant_id == t) s.tags))

unfoldable pub upsert_manual_tag : ℤ → Text → Text → Text → ℤ → Store → Reply Bool
upsert_manual_tag t h k v now s =
    if has_tenant t s && has_host h s
    then (
      ok (is_other (first (is_tag h k manual_tag_source) s.tags) v),
      record s { tags = write_tag t h k v manual_tag_source now s.tags },
    )
    else (err foreign_key, s)

abbrev is_manual : ℤ → Text → Text → TagRow → Bool
is_manual t h k r = of_host t h r.tenant_id r.host_id && r.key == k && r.source == manual_tag_source

unfoldable pub delete_manual_tag : ℤ → Text → Text → Store → Bool × Store
delete_manual_tag t h k s =
    let mine = is_manual t h k in
    (ltb 0 (count mine s.tags), record s { tags = delete mine s.tags })

unfoldable values_for_key : ℤ → Text → Store → List (Text × Text)
values_for_key t k s =
    map (λ r. (r.host_id, r.value)) (keep (λ r. r.tenant_id == t && r.key == k) s.tags)

abbrev or_default {ℓ} : {A : Type ℓ} → Option (List A) → List A
or_default none = []
or_default (some vs) = vs

abbrev value_of : TagRow → TagValue
value_of r = record { value = r.value; source = from_db r.source }

-- `out.entry(k).or_default().push(v)`
unfoldable push_value : TagRow → HostTags → HostTags
push_value r out = Dict.put r.key (or_default (Dict.get r.key out) ++ value_of r ∷ []) out

unfoldable push_all : List TagRow → HostTags → HostTags
push_all [] out = out
push_all (r ∷ rs) out = push_all rs (push_value r out)

unfoldable push_all_hosts : List TagRow → List (Text × HostTags) → List (Text × HostTags)
push_all_hosts [] out = out
push_all_hosts (r ∷ rs) out =
    push_all_hosts rs (Dict.put r.host_id (push_value r (or_default (Dict.get r.host_id out))) out)

unfoldable maps_for_tenant : ℤ → Store → List (Text × HostTags)
maps_for_tenant t s = push_all_hosts (keep (λ r. r.tenant_id == t) s.tags) []

unfoldable map_for_host : ℤ → Text → Store → HostTags
map_for_host t h s = push_all (keep (λ r. of_host t h r.tenant_id r.host_id) s.tags) []
