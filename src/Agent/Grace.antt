-- ===== src/Agent/Grace.antt =====
-- An agent that reports the empty document does not lose its inventory before the grace has passed.
use nsclient_fleet_server.Common.{
  ℕ, Bool, true, false, ◌≡◌, refl, ◌⊎◌, inl, inr, Option, none, some, arith, if◌then◌else◌, ◌∙◌,
}
use nsclient_fleet_server.Common.Int.{ℤ, pos}
use nsclient_fleet_server.Common.Text.{Text, text_equality, text_eq_iff}
use nsclient_fleet_server.Storage.Documents.{
  FactsHashes, hashes, same_hash, set_reported_hash, clear_reported_hash,
}
use nsclient_fleet_server.Agent.{AgentState, Environment, hashes_read}
use nsclient_fleet_server.Agent.Exchange.{
  advertise, advertise_none, advertise_known, advertise_hash, answer_report, note_reported,
  empty_over_inventory, normalized, empty_facts_hash, EmptyOverInventory, not_applicable, pending,
  due, since_grace, holds_inventory, empty_for_long_enough,
}

same_hash-some : (o : Option Text) (v : Text) → same_hash o (some v) ≡ true → o ≡ some v
same_hash-some none v h = cc
same_hash-some (some u) v h = ground (arith, text_eq_iff u v)

-- What must be known of a host for its inventory to be cleared.
abbrev IsDue : FactsHashes → Text → ℤ → Type 0
IsDue known r now =
    (r ≡ empty_facts_hash)
    × (known.reported ≡ some empty_facts_hash)
    × (since_grace known.reported_since now ≡ true)
    × (holds_inventory known ≡ true)

empty_over_inventory-due :
    (known : FactsHashes) (r : Text) (now : ℤ)
    → empty_over_inventory known r now ≡ due
    → IsDue known r now
unfolding empty_over_inventory empty_for_long_enough
empty_over_inventory-due known r now e =
    ground (arith, text_eq_iff r empty_facts_hash, same_hash-some known.reported empty_facts_hash)

note_reported-facts :
    (env : Environment) (t : ℤ) (h : Text) (known : FactsHashes) (r : Text) (now : ℕ)
    (st : AgentState)
    → (note_reported env t h known r now st).store.facts ≡ st.store.facts
unfolding note_reported set_reported_hash
note_reported-facts env t h known r now st = ground arith

advertise_none-facts :
    (env : Environment) (t : ℤ) (h : Text) (now : ℕ) (st : AgentState)
    → (advertise_none env t h now st).1.store.facts ≡ st.store.facts
unfolding advertise_none clear_reported_hash
advertise_none-facts env t h now st = ground arith

-- The documents stay, or the host's agent document was due to be cleared.
abbrev pub IsKeptOrDue : ℤ → Text → Option Text → ℕ → AgentState → AgentState → Type 0
IsKeptOrDue t h reported now before after =
    (after.store.facts ≡ before.store.facts)
    ⊎ ((known : FactsHashes) × (r : Text) × (hashes t h before.store ≡ some known)
        × (normalized reported ≡ some r)
        × IsDue known r (pos now))

answered :
    (env : Environment) (t : ℤ) (h : Text) (known : FactsHashes) (r : Text) (now : ℕ)
    (st : AgentState) (e : EmptyOverInventory)
    → empty_over_inventory known r (pos now) ≡ e
    → ((answer_report env t h known e now st).1.store.facts ≡ st.store.facts)
      ⊎ IsDue known r (pos now)
unfolding answer_report
answered env t h known r now st not_applicable e = inl refl
answered env t h known r now st pending e = inl refl
answered env t h known r now st due e = inr (empty_over_inventory-due known r (pos now) e)

known_report :
    (env : Environment) (t : ℤ) (h : Text) (reported : Option Text) (r : Text) (now : ℕ)
    (st : AgentState) (known : Option FactsHashes)
    → normalized reported ≡ some r
    → hashes t h st.store ≡ known
    → IsKeptOrDue t h reported now st (advertise_known env t h known r now st).1
known_report env t h reported r now st none n k = inl refl
known_report env t h reported r now st (some known) n k =
    let noted = note_reported env t h known r now st in
    elim (answered env t h known r now noted (empty_over_inventory known r (pos now)) refl) [
      | inl same ↦ inl (same ∙ note_reported-facts env t h known r now st)
      | inr d ↦ inr (known, r, k, n, d)
    ]

-- Whatever facts hash an agent reports, no document of any host changes, unless the hash is that of
-- the empty document, the hash reported before was too and was first reported at least the grace
-- period ago, and the host holds a document that is not empty.
pub advertise-IsKeptOrDue :
    (env : Environment) (t : ℤ) (h : Text) (reported : Option Text) (now : ℕ) (st : AgentState)
    → IsKeptOrDue t h reported now st (advertise env t h reported now st).1
unfolding advertise
advertise-IsKeptOrDue env t h reported now st = split (normalized reported) refl
  where
    read :
        (f : Bool) (r : Text)
        → normalized reported ≡ some r
        → IsKeptOrDue t h reported now st
            (if f then (none, st) else advertise_known env t h (hashes t h st.store) r now st).1
    read true r e = inl refl
    read false r e = known_report env t h reported r now st (hashes t h st.store) e refl

    split :
        (o : Option Text)
        → normalized reported ≡ o
        → IsKeptOrDue t h reported now st (advertise_hash env t h o now st).1
    split none e = inl (advertise_none-facts env t h now st)
    split (some r) e = read (env.fails hashes_read) r e
