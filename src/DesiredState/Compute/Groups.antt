-- ===== src/DesiredState/Compute/Groups.antt =====
-- Which groups a host is in, and that the facts loaded for the computation are enough to say so.
use nsclient_fleet_server.Common.{
  Bool, false, ◌≡◌, refl, ap₂, List, [], ◌∷◌, In, inl, inr, if◌then◌else◌,
}
use nsclient_fleet_server.Common.Text.{Text}
use nsclient_fleet_server.Common.TextSet
use nsclient_fleet_server.Selector.Tags.{HostTags}
use nsclient_fleet_server.Selector.Eval.{HostFacts, fact_sources, is_host_controlled}
use nsclient_fleet_server.Selector.Sources.{SameFactsAt, matches-fact_sources}
use nsclient_fleet_server.Selector.HostControl.{SameOperatorInput, matches-operator}
use nsclient_fleet_server.DesiredState.Compute.{
  Selected, insert_all, all_sources, matching_group_ids,
}

In-insert_all : (x : Text) (ss out : List Text) → In x out → In x (insert_all ss out)
In-insert_all x [] out h = h
In-insert_all x (s ∷ ss) out h =
    In-insert_all x ss (TextSet.insert s out) (TextSet.In-insert x s out h)

insert_all-In : (x : Text) (ss out : List Text) → In x ss → In x (insert_all ss out)
insert_all-In x [] out h = absurd h
insert_all-In x (s ∷ ss) out (inl e) =
    In-insert_all x ss (TextSet.insert s out) (rw (← e) (TextSet.insert-In s out))
insert_all-In x (s ∷ ss) out (inr h) = insert_all-In x ss (TextSet.insert s out) h

In-all_sources :
    (x : Text) (sel : List Selected) (out : List Text) → In x out → In x (all_sources sel out)
unfolding all_sources
In-all_sources x [] out h = h
In-all_sources x ((id, s) ∷ rest) out h =
    In-all_sources x rest (insert_all (fact_sources s) out) (In-insert_all x (fact_sources s) out h)

groups-loaded_from :
    (tags : HostTags) (loaded every : HostFacts) (sel : List Selected) (out : List Text)
    → SameFactsAt (all_sources sel out) loaded every
    → matching_group_ids tags loaded sel ≡ matching_group_ids tags every sel
unfolding all_sources matching_group_ids
groups-loaded_from tags loaded every [] out same = refl
groups-loaded_from tags loaded every ((id, s) ∷ rest) out same =
    let here = matches-fact_sources s tags loaded every (λ x h. same x (
      In-all_sources x rest (insert_all (fact_sources s) out)
        (insert_all-In x (fact_sources s) out h))) in
    let later = groups-loaded_from tags loaded every rest (insert_all (fact_sources s) out) same in
    ap₂ (λ (b : Bool) ids. if b then id ∷ ids else ids) here.1 later

-- Loading only the documents that some selector names does not change which groups a host is in:
-- the answer is that of all the host's documents.
pub groups-loaded :
    (tags : HostTags) (loaded every : HostFacts) (sel : List Selected)
    → SameFactsAt (all_sources sel []) loaded every
    → matching_group_ids tags loaded sel ≡ matching_group_ids tags every sel
groups-loaded tags loaded every sel same = groups-loaded_from tags loaded every sel [] same

-- No selector of the list lets a host decide.
abbrev pub NoneHostControlled : List Selected → Type 0
NoneHostControlled [] = Unit
NoneHostControlled ((id, s) ∷ rest) = (is_host_controlled s ≡ false) × NoneHostControlled rest

-- In a tenant with no host-controlled selector, the groups of a host do not depend on anything that
-- the host reports about itself.
pub groups-operator :
    (tags tags' : HostTags) (facts facts' : HostFacts) (sel : List Selected)
    → SameOperatorInput tags tags' facts facts'
    → NoneHostControlled sel
    → matching_group_ids tags facts sel ≡ matching_group_ids tags' facts' sel
unfolding matching_group_ids
groups-operator tags tags' facts facts' [] same n = refl
groups-operator tags tags' facts facts' ((id, s) ∷ rest) same n =
    ap₂ (λ (b : Bool) ids. if b then id ∷ ids else ids)
      (matches-operator s tags tags' facts facts' same n.0)
      (groups-operator tags tags' facts facts' rest same n.1)
