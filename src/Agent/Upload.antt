-- ===== src/Agent/Upload.antt =====
-- crates/server/src/facts/upload.rs: reading an upload within its limits, and storing it.
pub mod Capped
use nsclient_fleet_server.Common.{
  ℕ, zero, suc, ◌+◌, ◌*◌, Bool, true, false, not as negate, ◌&&◌, ◌==◌, List, [], ◌∷◌, ◌++◌, Option,
  none, some, if◌then◌else◌, eqb, ltb, length,
}
use nsclient_fleet_server.Common.Int.{ℤ, pos}
use nsclient_fleet_server.Common.Text.{Text}
use nsclient_fleet_server.Common.Result.{Result, ok, err}
use nsclient_fleet_server.Facts.Source.{agent_source}
use nsclient_fleet_server.Facts.Upload.{
  RawUpload, FactsUpload, UploadError, declared_hash, parse_upload,
}
use nsclient_fleet_server.Limits.Agent.Layer.{PeerHostContext}
use nsclient_fleet_server.Storage.{Store}
use nsclient_fleet_server.Storage.Documents.{
  FactsHashes, ReplaceOutcome, hashes, same_hash, record_refusal, refresh_collected_at,
  set_reported_hash,
}
use nsclient_fleet_server.Agent.{
  AgentState, Environment, hashes_read, refusal_write, collected_write, reported_write,
}
use nsclient_fleet_server.Agent.Documents.{store, DocumentError}
use nsclient_fleet_server.Agent.Exchange.{
  empty_over_inventory, EmptyOverInventory, not_applicable, pending, due,
}

abbrev pub max_facts_body_bytes : ℕ
max_facts_body_bytes = 4 * 1024 * 1024

abbrev pub max_drained_bytes : ℕ
max_drained_bytes = 4 * max_facts_body_bytes

pub data BodyError : Type 0 where
  too_large : Bool → BodyError
  unreadable : BodyError

-- A body is its chunks, each of which may fail to arrive.
abbrev pub Chunks : Type 0
Chunks = List (Option Text)

-- `while let Some(chunk) = stream.next().await`, with what was counted and what is kept.
unfoldable pub read_chunks : ℕ → Chunks → ℕ → Bool → Text → Result Text BodyError
read_chunks limit [] seen keep buf = if keep then ok buf else err (too_large true)
read_chunks limit (none ∷ chunks) seen keep buf = err unreadable
read_chunks limit (some chunk ∷ chunks) seen keep buf =
    let total = seen + length chunk in
    let kept = keep && negate (ltb limit total) in
    let rest = read_chunks limit chunks total kept (if kept then buf ++ chunk else []) in
    if ltb max_drained_bytes total then err (too_large false) else rest

abbrev pub exceeds : Option ℕ → ℕ → Bool
exceeds none n = false
exceeds (some declared) n = ltb n declared

unfoldable pub read_capped : Option ℕ → Chunks → ℕ → Result Text BodyError
read_capped declared chunks limit =
    let seen = if exceeds declared limit then limit + 1 else 0 in
    if exceeds declared max_drained_bytes
    then err (too_large false)
    else read_chunks limit chunks seen (eqb seen 0) []

-- The answers, by their status.
pub data UploadAnswer : Type 0 where
  payload_too_large : Bool → UploadAnswer
  unavailable_body : UploadAnswer
  bad_request : UploadError → UploadAnswer
  not_found : UploadAnswer
  internal : UploadAnswer
  busy : UploadAnswer
  accepted : Option Text → UploadAnswer

abbrev set_store : AgentState → Store → AgentState
set_store st s = record st { store = s }

-- `refuse`, with what it answers left to the caller
unfoldable refuse : Environment → PeerHostContext → ℕ → Option Text → ℕ → AgentState → AgentState
refuse env ctx status hash now st =
    if env.fails refusal_write
    then st
    else set_store st (record_refusal ctx.tenant_id ctx.host_id status hash (pos now) st.store)

-- A re-send of what is held: only its collection time can have moved.
unfoldable resent : Environment → PeerHostContext → Text → Option Text → ℕ → AgentState → AgentState
resent env ctx hash none now st = st
resent env ctx hash (some at) now st =
    if env.fails collected_write
    then st
    else set_store st
        (refresh_collected_at ctx.tenant_id ctx.host_id agent_source hash at (pos now) st.store).1

abbrev noted : Environment → PeerHostContext → Text → ℕ → AgentState → UploadAnswer × AgentState
noted env ctx hash now st = (
  accepted (env.header_value hash),
  if env.fails reported_write
      then st
      else set_store st (set_reported_hash ctx.tenant_id ctx.host_id hash (pos now) st.store).1,
)

abbrev after_store :
    Environment
    → PeerHostContext
    → Text
    → ℕ
    → Result ReplaceOutcome DocumentError × AgentState
    → UploadAnswer × AgentState
after_store env ctx hash now (ok ReplaceOutcome.stored, st) = noted env ctx hash now st
after_store env ctx hash now (ok ReplaceOutcome.unchanged, st) = noted env ctx hash now st
after_store env ctx hash now (ok ReplaceOutcome.conflict, st) = (busy, st)
after_store env ctx hash now (ok ReplaceOutcome.no_host, st) = (not_found, st)
after_store env ctx hash now (err e, st) = (internal, st)

-- Over a real document an empty one waits out its grace.
abbrev waits : EmptyOverInventory → Bool
waits not_applicable = false
waits pending = true
waits due = false

-- The upload and its collection time in UTF-8.
unfoldable accept :
    Environment
    → PeerHostContext
    → Text
    → Text
    → Option Text
    → Option FactsHashes
    → ℕ
    → AgentState
    → UploadAnswer × AgentState
accept env ctx hash facts at none now st = (not_found, st)
accept env ctx hash facts at (some known) now st =
    if same_hash known.held (some hash)
    then noted env ctx hash now (resent env ctx hash at now st)
    else if waits (empty_over_inventory known hash (pos now))
    then noted env ctx hash now st
    else after_store env ctx hash now
        (store env ctx.tenant_id ctx.host_id agent_source hash facts at now st)

-- serde_json's reading of the body, SHA-256, and the UTF-8 of a text that was cut by characters.
module _ (from_slice : Text → Result RawUpload Text) (sha256_hex : Text → Text)
    (utf8 : List ℕ → Text) where
  abbrev encoded : Option (List ℕ) → Option Text
  encoded none = none
  encoded (some at) = some (utf8 at)

  abbrev parsed_answer :
      Environment
      → PeerHostContext
      → ℕ
      → AgentState
      → Result FactsUpload UploadError
      → UploadAnswer × AgentState
  parsed_answer env ctx now st (err e) =
      (bad_request e, refuse env ctx 400 (declared_hash e) now st)
  parsed_answer env ctx now st (ok u) =
      if env.fails hashes_read
      then (internal, st)
      else accept env ctx u.facts_hash u.facts (encoded u.collected_at)
          (hashes ctx.tenant_id ctx.host_id st.store) now st

  abbrev body_answer :
      Environment
      → PeerHostContext
      → ℕ
      → AgentState
      → Result Text BodyError
      → UploadAnswer × AgentState
  body_answer env ctx now st (err (too_large drained)) =
      (payload_too_large drained, refuse env ctx 413 none now st)
  body_answer env ctx now st (err unreadable) = (unavailable_body, st)
  body_answer env ctx now st (ok body) =
      parsed_answer env ctx now st (parse_upload from_slice sha256_hex body)

  unfoldable upload :
      Environment → PeerHostContext → Option ℕ → Chunks → ℕ → AgentState → UploadAnswer × AgentState
  upload env ctx declared chunks now st =
      body_answer env ctx now st (read_capped declared chunks max_facts_body_bytes)
