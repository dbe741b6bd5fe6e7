-- ===== src/Accounts.antt =====
-- Users and what they sign in with: crates/storage/src/repos/users.rs, crates/server/src/auth and
-- crates/server/src/admin/users.rs. The tables are those that refer to a user, migrations/*.sql. Every
-- statement runs on the one write connection, so a repository call is one step; the clock is an
-- argument.
pub mod Users
pub mod Credentials
pub mod Identify
pub mod Calls
pub mod Blocked
pub mod Once
pub mod Manage
pub mod Platform
pub mod Owners
mod Samples
use nsclient_fleet_server.Common.{Bool, List, Option, ◌&&◌, ◌||◌, ◌==◌, any}
use nsclient_fleet_server.Common.Int.{ℤ, int_eq}
use nsclient_fleet_server.Common.Text.{Text}
use nsclient_fleet_server.Common.Result.{Result, ok, err}
use nsclient_fleet_server.Storage.{StoreError, OverrideRow}

pub record UserRow : Type 0 where
  pub id : ℤ
  pub tenant_id : ℤ
  pub email : Text
  pub role : Text
  pub blocked_at : Option ℤ
  pub is_platform_admin : ℤ
  pub created_at : ℤ

pub record MagicLinkRow : Type 0 where
  pub token_hash : Text
  pub tenant_id : ℤ
  pub user_id : ℤ
  pub expires_at : ℤ
  pub used_at : Option ℤ
  pub created_at : ℤ

pub record ApiKeyRow : Type 0 where
  pub id : Text
  pub tenant_id : ℤ
  pub user_id : ℤ
  pub name : Text
  pub token_hash : Text
  pub token_prefix : Text
  pub created_at : ℤ
  pub last_used_at : Option ℤ
  pub expires_at : Option ℤ

-- crates/core/src/session.rs; a row of `sessions` has the same columns.
pub record Session : Type 0 where
  pub id_hash : Text
  pub tenant_id : ℤ
  pub user_id : ℤ
  pub expires_at : ℤ
  pub last_used_at : ℤ
  pub created_at : ℤ

-- `audit_log`, without its rowid.
pub record AuditRow : Type 0 where
  pub tenant_id : ℤ
  pub user_id : Option ℤ
  pub action : Text
  pub target_type : Text
  pub target_id : Text
  pub metadata_json : Option Text
  pub ts : ℤ

pub record SettingRow : Type 0 where
  pub key : Text
  pub value : Text
  pub updated_at : ℤ
  pub updated_by_user : Option ℤ

pub record Accounts : Type 0 where
  pub tenants : List ℤ
  pub users : List UserRow
  pub sessions : List Session
  pub magic_links : List MagicLinkRow
  pub api_keys : List ApiKeyRow
  pub audit_log : List AuditRow
  pub host_overrides : List OverrideRow
  pub platform_settings : List SettingRow

-- What a call answers, or fails with, and the tables after it.
abbrev pub Reply : Type 0 → Type 0
Reply A = Result A StoreError × Accounts

-- The two references of a row that belongs to a user.
unfoldable pub may_refer : ℤ → ℤ → Accounts → Bool
may_refer tenant_id user_id s =
    any (λ t. t == tenant_id) s.tenants && any (λ u. u.id == user_id) s.users

-- `WHERE tenant_id = ? AND user_id = ?`
abbrev pub of_user : ℤ → ℤ → ℤ → ℤ → Bool
of_user t u tenant_id user_id = tenant_id == t && user_id == u
