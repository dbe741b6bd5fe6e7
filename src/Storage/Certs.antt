-- ===== src/Storage/Certs.antt =====
-- `HostCertRepo` of crates/storage/src/repos/hosts.rs.
use nsclient_fleet_server.Common.{
  ℕ, Bool, true, false, List, Option, none, some, ◌&&◌, ◌==◌, ltb, keep,
}
use nsclient_fleet_server.Common.Int.{ℤ, ltb_ℤ, int_eq}
use nsclient_fleet_server.Common.Text.{Text, text_equality}
use nsclient_fleet_server.Limits.Agent.Layer.{CertStanding}
use nsclient_fleet_server.Storage.{Store, CertRow, of_host}
use nsclient_fleet_server.Storage.Table.{first, update, count}
use nsclient_fleet_server.Storage.Hosts.{Reply, EnrolledCert, insert_cert}
use nsclient_fleet_server.Storage.Lifecycle.{is_unrevoked, revoke}

unfoldable pub record_cert : ℤ → Text → EnrolledCert → Store → Reply (Unit {0})
record_cert = insert_cert

-- The host's certificates that still authenticate it.
abbrev pub is_usable : ℤ → Text → ℤ → CertRow → Bool
is_usable t h now c = is_unrevoked t h c && ltb_ℤ now c.expires_at

abbrev standing_of : List CertRow → Option CertRow → CertStanding
standing_of rows none = record { active = false; superseded = 0 }
standing_of rows (some mine) = record {
  active = true;
  superseded = count (λ c. ltb c.rid mine.rid) rows;
}

unfoldable pub standing : ℤ → Text → Text → ℤ → Store → CertStanding
standing tenant_id host_id serial now s =
    let rows = keep (is_usable tenant_id host_id now) s.certs in
    standing_of rows (first (λ c. c.serial == serial) rows)

-- `rowid < (SELECT rowid ..)`: a missing row is NULL, below which nothing is.
abbrev is_older : Option CertRow → CertRow → Bool
is_older none c = false
is_older (some mine) c = ltb c.rid mine.rid

abbrev pub bears : ℤ → Text → Text → CertRow → Bool
bears t h serial c = of_host t h c.tenant_id c.host_id && c.serial == serial

abbrev retires : ℤ → Text → ℤ → Option CertRow → CertRow → Bool
retires t h now mine c = is_usable t h now c && is_older mine c

unfoldable pub retire_superseded : ℤ → Text → Text → ℤ → Store → ℕ × Store
retire_superseded tenant_id host_id serial now s =
    let old = retires tenant_id host_id now (first (bears tenant_id host_id serial) s.certs) in
    (count old s.certs, record s { certs = update old (revoke now) s.certs })

unfoldable pub revoke_all_for_host : ℤ → Text → ℤ → Store → ℕ × Store
revoke_all_for_host tenant_id host_id now s = (
  count (is_unrevoked tenant_id host_id) s.certs,
  record s { certs = update (is_unrevoked tenant_id host_id) (revoke now) s.certs },
)
