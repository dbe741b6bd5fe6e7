-- ===== src/Storage/Overrides.antt =====
-- `HostOverridesRepo` of crates/storage/src/repos/hosts.rs.
use nsclient_fleet_server.Common.{
  ℕ, Bool, true, List, Option, none, some, ◌&&◌, ◌==◌, if◌then◌else◌, ltb, any, map,
}
use nsclient_fleet_server.Common.Int.{ℤ, int_eq}
use nsclient_fleet_server.Common.Text.{Text, text_equality}
use nsclient_fleet_server.Common.Result.{ok, err}
use nsclient_fleet_server.Storage.{Store, OverrideRow, foreign_key, has_tenant, has_host, of_host}
use nsclient_fleet_server.Storage.Table.{first, update, delete, count, upsert}
use nsclient_fleet_server.Storage.Hosts.{Reply, map_option}

pub record StoredHostOverride : Type 0 where
  pub host_id : Text
  pub patch_encrypted : List ℕ
  pub priority : ℤ
  pub template : Option Text

-- A user that is named must be one of the users.
abbrev has_user : Option ℤ → Store → Bool
has_user none s = true
has_user (some u) s = any (λ v. v == u) s.users

unfoldable pub upsert_override :
    ℤ → Text → List ℕ → ℤ → Option Text → Option ℤ → ℤ → Store → Reply (Unit {0})
upsert_override tenant_id host_id patch_encrypted priority template updated_by_user now s =
    let row : OverrideRow = record {
      tenant_id = tenant_id;
      host_id = host_id;
      patch_encrypted = patch_encrypted;
      priority = priority;
      template = template;
      updated_at = now;
      updated_by_user = updated_by_user;
    } in
    if has_tenant tenant_id s && has_host host_id s && has_user updated_by_user s
    then (
      ok tt,
      record s { overrides = upsert (λ r. r.host_id == host_id) (λ r. row) row s.overrides },
    )
    else (err foreign_key, s)

abbrev overrides_host : ℤ → Text → OverrideRow → Bool
overrides_host t h r = of_host t h r.tenant_id r.host_id

unfoldable pub delete_override : ℤ → Text → Store → Bool × Store
delete_override tenant_id host_id s =
    let mine = overrides_host tenant_id host_id in
    (ltb 0 (count mine s.overrides), record s { overrides = delete mine s.overrides })

unfoldable list_all : Store → List (ℤ × Text × List ℕ)
list_all s = map (λ r. (r.tenant_id, r.host_id, r.patch_encrypted)) s.overrides

unfoldable pub replace_ciphertext : ℤ → Text → List ℕ → Store → Store
replace_ciphertext tenant_id host_id patch_encrypted s = record s {
  overrides =
      update (overrides_host tenant_id host_id)
        (λ r. record r { patch_encrypted = patch_encrypted }) s.overrides;
}

abbrev as_override : OverrideRow → StoredHostOverride
as_override r = record {
  host_id = r.host_id;
  patch_encrypted = r.patch_encrypted;
  priority = r.priority;
  template = r.template;
}

unfoldable get_override : ℤ → Text → Store → Option StoredHostOverride
get_override tenant_id host_id s =
    map_option as_override (first (overrides_host tenant_id host_id) s.overrides)
