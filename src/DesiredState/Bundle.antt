-- ===== src/DesiredState/Bundle.antt =====
-- The descriptor of a bundle and the desired state itself.
use nsclient_fleet_server.Common.{List, Option}
use nsclient_fleet_server.Common.Int.{ℤ}
use nsclient_fleet_server.Common.Text.{Text}
use nsclient_fleet_server.Json.{Value}

pub record DesiredBundle : Type 0 where
  pub id : Text
  pub name : Text
  pub version : Text
  pub sha256 : Text
  pub signature : Text
  pub priority : ℤ
  pub format : Text

pub record DesiredState : Type 0 where
  pub state_hash : Text
  pub merged_config : Value
  pub bundles : List DesiredBundle

-- A row of `bundles`, crates/storage/src/repos/bundles.rs.
pub record BundleRow : Type 0 where
  pub id : Text
  pub tenant_id : ℤ
  pub name : Text
  pub version : Text
  pub sha256 : Text
  pub size_bytes : ℤ
  pub signature : Text
  pub uploaded_at : ℤ
  pub format : Text
  pub key_fingerprint : Option Text
