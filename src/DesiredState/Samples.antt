-- ===== src/DesiredState/Samples.antt =====
-- The races that the source's tests describe, and the theorems at them.
use nsclient_fleet_server.Common.{ℕ, true, false, ◌≡◌, refl, List, [], ◌∷◌, some, arith, pair_eq}
use nsclient_fleet_server.Common.Int.{int_eq, pos}
use nsclient_fleet_server.Common.Text.{codes, text_eq, text_equality}
use nsclient_fleet_server.Common.Dict
use nsclient_fleet_server.Json.{object, end}
use nsclient_fleet_server.DesiredState.Bundle.{DesiredState}
use nsclient_fleet_server.DesiredState.Cache.{
  Key, Op, put_op, get_op, invalidate_op, new, run, step, ticket, put_if_current, is_stale, stored,
  reclaim, generation_of, forget_host, invalidate_host, present, get, peek,
}
use nsclient_fleet_server.DesiredState.Cache.Stale.{stale-after-invalidate, stale-after-forget}
use nsclient_fleet_server.DesiredState.Cache.Serve.{PutAmong, served-since-invalidate}

abbrev host_a : Key
host_a = (pos 1, codes "host-a")

abbrev state_named : List ℕ → DesiredState
state_named h = record { state_hash = h; merged_config = object end; bundles = [] }

abbrev old : DesiredState
old = state_named (codes "old")

abbrev fresh : DesiredState
fresh = state_named (codes "fresh")

-- host-a is invalidated, computed and stored once.
abbrev history : List Op
history =
    invalidate_op host_a 5 ∷ put_op host_a (record { epoch = 0; generation = 1 }) (pos 7) old 6 ∷ []

history_served : (get (run history new) host_a (pos 7) 9).0 ≡ some old
unfolding run step get peek put_if_current is_stale stored reclaim invalidate_host generation_of
    Dict.get Dict.put text_eq
history_served = refl

stale-after-invalidate_example :
    let c = run history new in
    let c' =
      run
        (put_op host_a (record { epoch = 0; generation = 2 }) (pos 7) fresh 8 ∷ [])
        (invalidate_host (run (get_op host_a (pos 7) 7 ∷ []) c) host_a 8) in
    put_if_current c' host_a (ticket c host_a) (pos 7) old 9 ≡ (c', false)
stale-after-invalidate_example =
    stale-after-invalidate history (get_op host_a (pos 7) 7 ∷ [])
      (put_op host_a (record { epoch = 0; generation = 2 }) (pos 7) fresh 8 ∷ []) host_a 8 (pos 7) 9
      old (omega arith)

host_present :
    present (Dict.get host_a (run (get_op host_a (pos 7) 7 ∷ []) (run history new)).entries) ≡ true
unfolding run step get peek put_if_current is_stale stored reclaim invalidate_host generation_of
    Dict.get Dict.put text_eq
host_present = refl

-- After the forgetting, one more invalidation brings the generation back to 1.
stale-after-forget_example :
    let c = run history new in
    let c' =
      run
        (invalidate_op host_a 8 ∷ [])
        (forget_host (run (get_op host_a (pos 7) 7 ∷ []) c) host_a) in
    put_if_current c' host_a (ticket c host_a) (pos 7) old 9 ≡ (c', false)
stale-after-forget_example =
    stale-after-forget history (get_op host_a (pos 7) 7 ∷ []) (invalidate_op host_a 8 ∷ []) host_a
      (pos 7) 9 old (omega arith) host_present

abbrev since : List Op
since = put_op host_a (record { epoch = 0; generation = 2 }) (pos 7) fresh 8 ∷ []

fresh_served :
    (get (run since (invalidate_host (run history new) host_a 8)) host_a (pos 7) 9).0 ≡ some fresh
unfolding run step get peek put_if_current is_stale stored reclaim invalidate_host generation_of
    Dict.get Dict.put text_eq
fresh_served = refl

served-since-invalidate_example : PutAmong host_a (pos 7) fresh since
served-since-invalidate_example =
    served-since-invalidate history since host_a 8 (pos 7) 9 fresh fresh_served
