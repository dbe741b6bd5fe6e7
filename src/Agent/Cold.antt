-- ===== src/Agent/Cold.antt =====
-- What the agent reports is not hidden by the cache: a change of its tags or of its documents drops
-- its cached desired state, so the next poll computes it.
use nsclient_fleet_server.Common.{
  ℕ, zero, suc, ◌≡◌, refl, inl, inr, Option, none, some, arith, ◌∙◌, Option-cases,
}
use nsclient_fleet_server.Common.Int.{ℤ, pos}
use nsclient_fleet_server.Common.Text.{Text, codes}
use nsclient_fleet_server.Common.Result.{Result, ok, err}
use nsclient_fleet_server.DesiredState.Cache.{peek}
use nsclient_fleet_server.DesiredState.Cache.Serve.{peek-invalidate}
use nsclient_fleet_server.Storage.{Store}
use nsclient_fleet_server.Facts.Source.{agent_source}
use nsclient_fleet_server.Storage.Documents.{
  NewFacts, ReplaceOutcome, FactsHashes, InvalidSource, replace, get_document, hashes,
  set_reported_hash, clear_reported_hash,
}
use nsclient_fleet_server.Agent.{AgentState, Environment, bump}
use nsclient_fleet_server.Agent.Documents.{
  store, store_loop, store_attempts, forget_desired_state, to_write, settle, keep_history,
  DocumentError,
}
use nsclient_fleet_server.Agent.Exchange.{
  advertise, empty_facts_hash, advertise_none, advertise_known, answer_report, note_reported,
  empty_over_inventory, normalized, EmptyOverInventory, not_applicable, pending, due,
}

-- No other task runs while a handler waits.
abbrev pub IsIdle : Environment → Type 0
IsIdle env = (n : ℕ) (st : AgentState) → env.meanwhile n st ≡ st

-- Nothing is cached for the host at the version.
abbrev pub IsCold : ℤ → Text → ℤ → AgentState → Type 0
IsCold t h version st = peek st.desired_state_cache (t, h) version ≡ none

-- What a step on documents keeps: the tags, and a host without a cached state stays without one.
abbrev KeepsTags : ℤ → Text → ℤ → AgentState → AgentState → Type 0
KeepsTags t h version before after =
    (after.store.tags ≡ before.store.tags) × (IsCold t h version before → IsCold t h version after)

replace-tags :
    (t : ℤ) (h : Text) (doc : NewFacts) (n now : ℤ) (s : Store)
    → (replace t h doc n now s).1.tags ≡ s.tags
unfolding replace
replace-tags t h doc n now s = ground arith

pub forget-IsCold :
    (t : ℤ) (h : Text) (now : ℕ) (version : ℤ) (st : AgentState)
    → IsCold t h version (forget_desired_state t h now st)
unfolding forget_desired_state
forget-IsCold t h now version st = peek-invalidate st.desired_state_cache (t, h) version now

settle-KeepsTags :
    (t : ℤ) (h : Text) (now : ℕ) (version : ℤ) (o : Result ReplaceOutcome InvalidSource)
    (before st : AgentState) (again : Result ReplaceOutcome DocumentError × AgentState)
    → KeepsTags t h version before st
    → KeepsTags t h version before again.1
    → KeepsTags t h version before (settle t h now o st again).1
unfolding bump forget_desired_state
settle-KeepsTags t h now version (err e) before st again k m = k
settle-KeepsTags t h now version (ok ReplaceOutcome.stored) before st again k m =
    (k.0, λ c. peek-invalidate st.desired_state_cache (t, h) version now)
settle-KeepsTags t h now version (ok ReplaceOutcome.unchanged) before st again k m = k
settle-KeepsTags t h now version (ok ReplaceOutcome.no_host) before st again k m = k
settle-KeepsTags t h now version (ok ReplaceOutcome.conflict) before st again k m = m

module _ (env : Environment) (idle : IsIdle env) (t : ℤ) (h : Text) (now : ℕ) (version : ℤ) where
  store_loop-KeepsTags :
      (n : ℕ) (source hash json : Text) (at : Option Text) (st : AgentState)
      → KeepsTags t h version st (store_loop env n t h source hash json at now st).1
  unfolding store_loop
  store_loop-KeepsTags zero source hash json at st = (refl, λ c. c)
  store_loop-KeepsTags (suc n) source hash json at st =
      let previous = get_document t h source st.store in
      elim (Option-cases (to_write env source hash json at previous (env.from_str json))) [
        | inl e ↦ ground (arith, e)
        | inr (doc, e) ↦
            let written = replace t h doc keep_history (pos now) st.store in
            let after : AgentState = record st { store = written.1 } in
            let again = store_loop env n t h source hash json at now after in
            ground (
              arith,
              e,
              idle n st,
              replace-tags t h doc keep_history (pos now) st.store,
              store_loop-KeepsTags n source hash json at after,
              settle-KeepsTags t h now version written.0 st after again,
            )
      ]

  note_reported-KeepsTags :
      (known : FactsHashes) (r : Text) (st : AgentState)
      → KeepsTags t h version st (note_reported env t h known r now st)
  unfolding note_reported set_reported_hash
  note_reported-KeepsTags known r st = ground arith

  answer_report-KeepsTags :
      (known : FactsHashes) (e : EmptyOverInventory) (st : AgentState)
      → KeepsTags t h version st (answer_report env t h known e now st).1
  unfolding answer_report store
  answer_report-KeepsTags known not_applicable st = (refl, λ c. c)
  answer_report-KeepsTags known pending st = (refl, λ c. c)
  answer_report-KeepsTags known due st =
      store_loop-KeepsTags store_attempts agent_source empty_facts_hash (codes "{}") none st

  advertise_known-KeepsTags :
      (known : Option FactsHashes) (r : Text) (st : AgentState)
      → KeepsTags t h version st (advertise_known env t h known r now st).1
  advertise_known-KeepsTags none r st = (refl, λ c. c)
  advertise_known-KeepsTags (some known) r st =
      let noted = note_reported env t h known r now st in
      let a = note_reported-KeepsTags known r st in
      let b = answer_report-KeepsTags known (empty_over_inventory known r (pos now)) noted in
      (b.0 ∙ a.0, λ c. b.1 (a.1 c))

  advertise_none-KeepsTags :
      (st : AgentState) → KeepsTags t h version st (advertise_none env t h now st).1
  unfolding advertise_none clear_reported_hash
  advertise_none-KeepsTags st = ground arith

  pub advertise-KeepsTags :
      (reported : Option Text) (st : AgentState)
      → KeepsTags t h version st (advertise env t h reported now st).1
  unfolding advertise
  advertise-KeepsTags reported st = elim (Option-cases (normalized reported)) [
    | inl e ↦ ground (arith, e, advertise_none-KeepsTags st)
    | inr (r, e) ↦ ground (arith, e, advertise_known-KeepsTags (hashes t h st.store) r st)
  ]
