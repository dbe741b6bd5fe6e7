-- ===== src/DesiredState/Compute/Operator.antt =====
-- The whole computation does not depend on what a host reports, unless an operator asked for it.
use nsclient_fleet_server.Common.{◌≡◌, refl, List}
use nsclient_fleet_server.Common.Result.{ok}
use nsclient_fleet_server.Selector.Tags.{HostTags}
use nsclient_fleet_server.Selector.Eval.{HostFacts}
use nsclient_fleet_server.Selector.HostControl.{SameOperatorInput}
use nsclient_fleet_server.DesiredState.Compute.{GroupRow, Inputs, selectors, compute_uncached}
use nsclient_fleet_server.DesiredState.Compute.Groups.{NoneHostControlled, groups-operator}

-- The inputs of a host with these tags and documents.
abbrev pub with_host : {E : Type 0} → Inputs E → HostTags → HostFacts → Inputs E
with_host i tags facts = record i { tags = ok tags; load_facts = λ sources. ok facts }

-- In a tenant whose groups can be read and have no host-controlled selector, the desired state of
-- a host, its hash, configuration, bundles and their order, or the error of computing it, is the
-- same on any two hosts on which the operator's tags under every key and all documents but the
-- agent's agree, everything else being equal: a host cannot change what it is served by what it
-- reports about itself.
pub compute_uncached-operator :
    {E : Type 0} (i : Inputs E) (rows : List GroupRow) (tags tags' : HostTags)
    (facts facts' : HostFacts)
    → i.groups ≡ ok rows
    → NoneHostControlled (selectors i.selector_of rows)
    → SameOperatorInput tags tags' facts facts'
    → compute_uncached (with_host i tags facts) ≡ compute_uncached (with_host i tags' facts')
unfolding compute_uncached
compute_uncached-operator i rows tags tags' facts facts' g n same =
    rw g (rw (groups-operator tags tags' facts facts' (selectors i.selector_of rows) same n) refl)
