-- ===== src/Lib.antt =====
-- Verification library of the NSClient++ fleet server.
--
-- The server holds, per tenant, hosts, groups of hosts, and bundles assigned to groups. An agent
-- enrolls, then polls for its desired state: the server looks up the host's tags and facts
-- documents, evaluates every group's selector, collects the bundles of the groups that match, adds
-- the host's override and answers with a keyed hash of all of it. The agent reports tags, uploads
-- its facts document when the hashes differ, and is shown to operators with one status.
--
-- Which file models what (paths from the repository's root):
--   Common              lists, texts, maps, ordered sets, signed integers and results as the code
--                       uses them
--   Json                serde_json's `Value`, and `scalar_text` of crates/core/src/selector/path.rs
--   Tier                crates/core/src/tier.rs: `lookup`, `TierOverrides`, `effective`
--   Path                crates/core/src/selector/path.rs: `FactPath::parse`, `child`, `pick`,
--                       `resolve`. Path/Grammar is the language that the parser is compared with
--   Selector            crates/core/src/selector/tags.rs (Tags) and expr.rs: the syntax (Expr),
--                       `validate` (Validate), `matches`, `fact_sources`, `is_host_controlled`
--                       (Eval). Selector/Limits says without the code's loop what is accepted
--   Merge               crates/core/src/merge.rs: `merge_patch` (Patch), `canonical_string`
--                       (Canonical). Merge/Rfc has MergePatch of RFC 7396 as it is printed there
--   DesiredState        crates/server/src/agent/desired_state.rs: the descriptor (Bundle), the bytes
--                       under the state hash (Message), `compute_uncached` (Compute) and
--                       `DesiredStateCache` (Cache)
--   Host                crates/core/src/host.rs: `StatusThresholds::new` and `Host::status`
--   Storage             the tables of migrations/*.sql that hang off a host (Storage), statements on
--                       rows (Table), and the repositories of crates/storage/src/repos: HostRepo
--                       (Hosts, Lifecycle), HostCertRepo (Certs), HostTagsRepo (Tags),
--                       HostOverridesRepo (Overrides) of hosts.rs, HostFactsRepo of facts.rs
--                       (Documents). Life has every call of them, and the abstract life of a host
--                       that Refine compares them with
--   Agent               crates/server/src/agent/api.rs: `state_report` (Report), `desired_state`
--                       (Poll); crates/server/src/facts: store.rs (Documents), exchange.rs
--                       (Exchange), upload.rs (Upload)
--   User                crates/core/src/user.rs: `Role`
--   Accounts            users and what they sign in with: the tables (Accounts), the repositories of
--                       crates/storage/src/repos/users.rs (Users, Credentials; Calls has every call),
--                       crates/server/src/auth/middleware.rs (Identify), `set_role` and
--                       `delete_user` of crates/server/src/admin/users.rs (Manage), `update_user`
--                       and `delete_user` of crates/server/src/admin/platform.rs (Platform)
--   Limits              crates/server/src/auth/rate_limit.rs (Email, Auth) and
--                       crates/server/src/agent/limits.rs (Agent, Agent/Layer, Enrollment).
--                       Governor is what both use of the governor crate
--   Facts               crates/core/src/facts/mod.rs: `valid_source` (Source), `parse_upload`
--                       (Upload), `diff` (Diff); and crates/core/src/facts/import.rs: `KeyIndex`
--                       and `resolve_rows` (Import)
--
-- How state is modelled. A struct behind a lock or of atomics is a record, and each method is a
-- function from the record to the record and the method's result, run as a whole. Races are
-- sequences of such calls: a computation takes a ticket, other calls follow in any order, and the
-- result is stored or refused. A hash map is an association list whose first entry counts; the
-- theorems that need it say that its keys are distinct. Clocks are arguments.
--
-- The database. A table is the list of its rows in rowid order, and a statement a function of the
-- tables; a transaction that fails leaves them as they were. Primary keys, UNIQUE columns and
-- foreign keys are checked where a statement can break them. Statements run one at a time, as they
-- do on the one write connection, so what requests do to each other is any sequence of calls. A
-- handler is a function of the store and the cache; which repository call fails, what serde_json
-- reads, and what other tasks do while a document is stored are its environment. The handlers that
-- change users read and write in separate statements, and are taken one after another.
--
-- Numbers. Lengths and counters are natural numbers; where the code's type can wrap, the wrap is
-- written out: the cache's generations and epoch and the prune counters modulo 2^64, the daily
-- counter and the elapsed seconds modulo 2^32, the silence of a host as an `i64`. Texts are UTF-8
-- bytes, since the code measures and compares bytes; sign-in addresses and upload timestamps, of
-- which it asks the character class, are Unicode scalar values. A JSON number is its spelling.
--
-- Fuel. `parse` of a path has the path's length and one as fuel, and Path/Fuel shows that it never
-- runs out. `diff` has the depth of the old document, and Facts/Diff/Fuel shows that more makes no
-- difference. Everything else is structural recursion.
--
-- Parameters. serde's parsers, JSON string escaping, the digest and the keyed hash, the decryption
-- of an override, the normal form of an address or an import key, and governor's limiters are arguments of the
-- definitions that use them.
--
-- Not modelled: the repositories of tenants, groups and bundles, the sign-in handlers and their
-- mail, HTTP routing, TLS and the listeners, the cryptographic primitives, bundle archives and
-- composition, configuration from files, the facts catalog and the service around the import of
-- facts, the enrollment protocol and certificate renewal, process start-up, and the web interface.
pub mod Common
pub mod Json
pub mod Tier
pub mod Path
pub mod Facts
pub mod Selector
pub mod DesiredState
pub mod Merge
pub mod Host
pub mod Storage
pub mod Agent
pub mod Accounts
pub mod User
pub mod Limits
