-- ===== src/Agent/Fresh.antt =====
-- `state_report` and the poll after it.
use nsclient_fleet_server.Common.{
  ℕ, Bool, true, false, ◌≡◌, refl, ◌⊎◌, inl, inr, List, Option, none, some, arith, Bool-cases, ◌∙◌,
}
use nsclient_fleet_server.Common.Int.{ℤ, pos}
use nsclient_fleet_server.Common.Text.{Text, text_equality}
use nsclient_fleet_server.Common.Result.{Result, ok, err, ◌>>=◌}
use nsclient_fleet_server.Common.Distinct.{IsDistinct}
use nsclient_fleet_server.Limits.Agent.Layer.{PeerHostContext}
use nsclient_fleet_server.Storage.{Store, StoreError}
use nsclient_fleet_server.Storage.Tags.{replace_agent_tags}
use nsclient_fleet_server.Storage.Tags.Written.{tag_value, owns_tags}
use nsclient_fleet_server.Storage.Tags.Replaced.{replace_agent_tags-unchanged}
use nsclient_fleet_server.Storage.Lifecycle.{
  update_current_state_hash, touch_last_seen, set_local_config_present, set_host_override_last,
}
use nsclient_fleet_server.Agent.{AgentState, Environment, tags_write}
use nsclient_fleet_server.Agent.Report.{
  StateReport, Step, state_report, note_applied, note_local_config, note_override_last, note_tags,
  finished, TagsRefused, check_reported_tags, checked_tags, write_tags, after_tags,
}
use nsclient_fleet_server.Agent.Cold.{IsIdle, IsCold, forget-IsCold, advertise-KeepsTags}

-- The state that a step leaves, whether or not it ends the handler.
abbrev left : Step → AgentState
left (ok st) = st
left (err (a, st)) = st

-- The tag's value is as it was, or nothing is cached for the host.
abbrev IsSameOrCold : PeerHostContext → ℤ → Text → Text → Text → AgentState → AgentState → Type 0
IsSameOrCold ctx version g j other before after =
    (tag_value g j other after.store.tags ≡ tag_value g j other before.store.tags)
    ⊎ IsCold ctx.tenant_id ctx.host_id version after

-- The steps ahead of the tags touch only the host's row.
note_applied-tags :
    (env : Environment) (ctx : PeerHostContext) (hash : Option Text) (now : ℕ) (st : AgentState)
    → (left (note_applied env ctx hash now st)).store.tags ≡ st.store.tags
unfolding note_applied update_current_state_hash touch_last_seen
note_applied-tags env ctx none now st = ground arith
note_applied-tags env ctx (some hash) now st = ground arith

note_local_config-tags :
    (env : Environment) (ctx : PeerHostContext) (b : Option Bool) (st : AgentState)
    → (note_local_config env ctx b st).store.tags ≡ st.store.tags
unfolding note_local_config set_local_config_present
note_local_config-tags env ctx none st = refl
note_local_config-tags env ctx (some b) st = ground arith

note_override_last-tags :
    (env : Environment) (ctx : PeerHostContext) (b : Option Bool) (st : AgentState)
    → (note_override_last env ctx b st).store.tags ≡ st.store.tags
unfolding note_override_last set_host_override_last
note_override_last-tags env ctx b st = ground arith

replace_agent_tags-refused :
    (t : ℤ) (h : Text) (tags : List (Text × Text)) (now : ℤ) (s : Store) (e : StoreError)
    → (replace_agent_tags t h tags now s).0 ≡ err e
    → (replace_agent_tags t h tags now s).1 ≡ s
unfolding replace_agent_tags
replace_agent_tags-refused t h tags now s e k = ground arith

module _ (ctx : PeerHostContext) (version : ℤ) (g j other : Text) where
  write_tags-IsSameOrCold :
      (env : Environment) (tags : List (Text × Text)) (now : ℕ) (st : AgentState)
      → IsDistinct tags
      → owns_tags ctx.tenant_id ctx.host_id st.store.tags ≡ true
      → IsSameOrCold ctx version g j other st (left (write_tags env ctx tags now st))
  write_tags-IsSameOrCold env tags now st d o = elim (Bool-cases (env.fails tags_write)) [
    | inl f ↦ rw (f) (inl refl)
    | inr f ↦ rw (f) (
        replaced tags now st (replace_agent_tags ctx.tenant_id ctx.host_id tags (pos now) st.store)
          refl d o)
  ]
    where
      replaced :
          (tags : List (Text × Text)) (now : ℕ) (st : AgentState)
          (r : Result Bool StoreError × Store)
          → replace_agent_tags ctx.tenant_id ctx.host_id tags (pos now) st.store ≡ r
          → IsDistinct tags
          → owns_tags ctx.tenant_id ctx.host_id st.store.tags ≡ true
          → IsSameOrCold ctx version g j other st (left (after_tags ctx now st r))
      replaced tags now st (ok true, s) e d o =
          inr (forget-IsCold ctx.tenant_id ctx.host_id now version (record st { store = s }))
      replaced tags now st (ok false, s) e d o = inl (
          ground (
            arith,
            e,
            replace_agent_tags-unchanged ctx.tenant_id ctx.host_id tags (pos now) st.store g j other
                d o,
          ))
      replaced tags now st (err x, s) e d o = inl (
          ground (
            arith,
            e,
            replace_agent_tags-refused ctx.tenant_id ctx.host_id tags (pos now) st.store x,
          ))

  note_tags-IsSameOrCold :
      (env : Environment) (tags : Option (List (Text × Text))) (now : ℕ) (st : AgentState)
      → ((l : List (Text × Text)) → tags ≡ some l → IsDistinct l)
      → owns_tags ctx.tenant_id ctx.host_id st.store.tags ≡ true
      → IsSameOrCold ctx version g j other st (left (note_tags env ctx tags now st))
  unfolding note_tags
  note_tags-IsSameOrCold env none now st d o = inl refl
  note_tags-IsSameOrCold env (some tags) now st d o = checked (check_reported_tags tags)
    where
      checked :
          (c : Result (Unit {0}) TagsRefused)
          → IsSameOrCold ctx version g j other st (left (checked_tags env ctx tags now st c))
      checked (err e) = inl refl
      checked (ok u) = write_tags-IsSameOrCold env tags now st (d tags refl) o

  finished-IsSameOrCold :
      (env : Environment) (idle : IsIdle env) (hash : Option Text) (now : ℕ) (before : AgentState)
      (step : Step)
      → IsSameOrCold ctx version g j other before (left step)
      → IsSameOrCold ctx version g j other before (finished env ctx hash now step).1
  finished-IsSameOrCold env idle hash now before (err a) k = k
  finished-IsSameOrCold env idle hash now before (ok st) k =
      let a = advertise-KeepsTags env idle ctx.tenant_id ctx.host_id now version hash st in
      elim k [ inl same ↦ inl (rw (a.0) same) | inr cold ↦ inr (a.1 cold) ]

  -- Whatever an agent reports and however the report is answered, if any tag of any host has another
  -- value afterwards, nothing is cached for the host at any version, so the next poll computes its
  -- desired state. The reported tags are a map, the host's tags are filed under its tenant, and no
  -- other task runs meanwhile; any of the repository's calls may fail.
  pub report-IsSameOrCold :
      (env : Environment) (idle : IsIdle env) (body : StateReport) (now : ℕ) (st : AgentState)
      → ((l : List (Text × Text)) → body.reported_tags ≡ some l → IsDistinct l)
      → owns_tags ctx.tenant_id ctx.host_id st.store.tags ≡ true
      → IsSameOrCold ctx version g j other st (state_report env ctx body now st).1
  unfolding state_report
  report-IsSameOrCold env idle body now st d o =
      finished-IsSameOrCold env idle body.facts_hash now st
        (note_applied env ctx body.applied_state_hash now st >>= λ a.
          note_tags env ctx body.reported_tags now (
            note_override_last env ctx body.host_override_last
              (note_local_config env ctx body.local_config_present a)))
        (applied (note_applied env ctx body.applied_state_hash now st)
          (note_applied-tags env ctx body.applied_state_hash now st))
    where
      applied :
          (step : Step)
          → (left step).store.tags ≡ st.store.tags
          → IsSameOrCold ctx version g j other st (
              left (
                step >>= λ a. note_tags env ctx body.reported_tags now (
                  note_override_last env ctx body.host_override_last
                    (note_local_config env ctx body.local_config_present a))))
      applied (err (a, u)) e = inl (rw (e) refl)
      applied (ok u) e =
          let local = note_local_config env ctx body.local_config_present u in
          let last = note_override_last env ctx body.host_override_last local in
          let same : last.store.tags ≡ st.store.tags =
            note_override_last-tags env ctx body.host_override_last local
            ∙ note_local_config-tags env ctx body.local_config_present u
            ∙ e in
          elim (note_tags-IsSameOrCold env body.reported_tags now last d (rw (same) o)) [
            | inl k ↦ inl (k ∙ rw (same) refl)
            | inr k ↦ inr k
          ]
