-- ===== src/User/Permissions.antt =====
-- The role column: what is written reads back, and nothing else grants a permission.
use nsclient_fleet_server.Common.{true, ◌≡◌, refl, ◌⊎◌, arith}
use nsclient_fleet_server.Common.Text.{Text, codes, text_eq_iff, text_eq, text_equality}
use nsclient_fleet_server.User.{
  Role, owner, admin, add_hosts, view_only, from_db, as_db, can_manage_users, can_write_config,
  can_add_hosts,
}

from_db-as_db : (r : Role) → from_db (as_db r) ≡ r
unfolding from_db as_db text_eq
from_db-as_db owner = refl
from_db-as_db admin = refl
from_db-as_db add_hosts = refl
from_db-as_db view_only = refl

-- The more of these a role may do, the more it is privileged.
abbrev Grants : Role → Type 0
Grants r = (can_add_hosts r ≡ true) ⊎ (can_write_config r ≡ true) ⊎ (can_manage_users r ≡ true)

-- Every role reads back from the column value that it is written as, and the column reads fail
-- closed: a value from which the role that is read may add hosts, write configuration or manage
-- users is one that `as_db` writes for that role.
pub from_db-fails_closed :
    ((r : Role) → from_db (as_db r) ≡ r) × ((s : Text) → Grants (from_db s) → as_db (from_db s) ≡ s)
unfolding from_db as_db can_add_hosts can_write_config can_manage_users
from_db-fails_closed = (
  from_db-as_db,
  λ s g. ground (
    arith,
    text_eq_iff s (codes "owner"),
    text_eq_iff s (codes "admin"),
    text_eq_iff s (codes "add_hosts"),
  ),
)
