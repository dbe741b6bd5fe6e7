-- ===== src/DesiredState/Cache.antt =====
-- `DesiredStateCache`. Each method takes its lock once, so a method is one step; the clock is an
-- argument. `epoch` and `generation` are `u64` and wrap. The test `last_used >= now - ttl` is written
-- without the subtraction, which in the source is signed.
pub mod Generations
pub mod Order
pub mod Stale
pub mod Keys
pub mod Serve
use nsclient_fleet_server.Common.{
  ℕ, zero, suc, ◌+◌, ◌%◌, ◌^◌, Bool, true, false, ◌||◌, not as negate, List, [], ◌∷◌, Option, none,
  some, keep, eqb, leb, ltb, length, if◌then◌else◌, ◌==◌, pair_eq,
}
use nsclient_fleet_server.Common.Int.{ℤ, int_eq, pos}
use nsclient_fleet_server.Common.Text.{Text, text_equality}
use nsclient_fleet_server.Common.Dict
use nsclient_fleet_server.DesiredState.Bundle.{DesiredState}

abbrev pub max_entries : ℕ
max_entries = 100_000

abbrev pub idle_ttl_secs : ℕ
idle_ttl_secs = 3600

abbrev pub u64_mod : ℕ
u64_mod = 2 ^ 64

abbrev pub bump : ℕ → ℕ
bump n = (n + 1) % u64_mod

-- `(tenant_id, host_id)`
abbrev pub Key : Type 0
Key = ℤ × Text

pub record Entry : Type 0 where
  pub config_version : ℤ
  pub state : Option DesiredState
  pub generation : ℕ
  pub last_used : ℕ

pub record CacheTicket : Type 0 where
  pub epoch : ℕ
  pub generation : ℕ

abbrev pub Entries : Type 0
Entries = List (Key × Entry)

pub record Cache : Type 0 where
  pub entries : Entries
  pub epoch : ℕ
  pub hits : ℕ
  pub misses : ℕ

abbrev pub new : Cache
new = record { entries = []; epoch = 0; hits = 0; misses = 0 }

-- `map.get(&key).and_then(..)`: the state, if it is there at that version.
abbrev pub at_version : ℤ → Option Entry → Option DesiredState
at_version version none = none
at_version version (some e) = elim e.state [
  | none ↦ none
  | some s ↦ if e.config_version == version then some s else none
]

unfoldable pub peek : Cache → Key → ℤ → Option DesiredState
peek c key version = at_version version (Dict.get key c.entries)

abbrev pub touch : ℕ → Option Entry → Key → Entries → Entries
touch now none key m = m
touch now (some e) key m = Dict.put key (record e { last_used = now }) m

-- A hit updates `last_used`; both outcomes are counted.
unfoldable pub get : Cache → Key → ℤ → ℕ → Option DesiredState × Cache
get c key version now = elim (peek c key version) [
  | some s ↦ (
    some s,
    record c { entries = touch now (Dict.get key c.entries) key c.entries; hits = bump c.hits },
  )
  | none ↦ (none, record c { misses = bump c.misses })
]

abbrev pub generation_or_zero : Option Entry → ℕ
generation_or_zero none = 0
generation_or_zero (some e) = e.generation

unfoldable pub generation_of : Key → Entries → ℕ
generation_of key m = generation_or_zero (Dict.get key m)

unfoldable pub ticket : Cache → Key → CacheTicket
ticket c key = record { epoch = c.epoch; generation = generation_of key c.entries }

-- The idle sweep, and the fresh start if nothing was idle.
unfoldable pub sweep : ℕ → Entries → Entries
sweep now m =
    let kept = keep (λ e. leb now (e.1.last_used + idle_ttl_secs)) m in
    if leb max_entries (length kept) then [] else kept

unfoldable pub reclaim : ℕ → Cache → Cache
reclaim now c =
    if leb max_entries (length c.entries)
    then record c {
      entries = sweep now c.entries;
      epoch =
          if ltb (length (sweep now c.entries)) (length c.entries) then bump c.epoch else c.epoch;
    }
    else c

-- `ticket.epoch != epoch || ticket.generation != generation`
unfoldable pub is_stale : Cache → Key → CacheTicket → Bool
is_stale c key t =
    negate (eqb t.epoch c.epoch) || negate (eqb t.generation (generation_of key c.entries))

-- The map after a ticket was accepted; the generation was read before reclaiming.
unfoldable pub stored : Cache → Key → ℤ → DesiredState → ℕ → Cache
stored c key version s now = record (reclaim now c) {
  entries =
      Dict.put key
        (record {
          config_version = version;
          state = some s;
          generation = generation_of key c.entries;
          last_used = now;
        })
        (reclaim now c).entries;
}

unfoldable pub put_if_current : Cache → Key → CacheTicket → ℤ → DesiredState → ℕ → Cache × Bool
put_if_current c key t version s now =
    if is_stale c key t then (c, false) else (stored c key version s now, true)

abbrev pub present : Option Entry → Bool
present none = false
present (some _) = true

unfoldable pub forget_host : Cache → Key → Cache
forget_host c key =
    if present (Dict.get key c.entries)
    then record c { entries = Dict.remove key c.entries; epoch = bump c.epoch }
    else c

abbrev pub or_new : ℕ → Option Entry → Entry
or_new now none = record { config_version = pos 0; state = none; generation = 0; last_used = now }
or_new now (some e) = e

unfoldable pub invalidate_host : Cache → Key → ℕ → Cache
invalidate_host c key now =
    let e = or_new now (Dict.get key c.entries) in
    record c {
      entries = Dict.put key (record e { state = none; generation = bump e.generation }) c.entries;
    }

-- What any thread may do to the cache, one step each.
pub data Op : Type 0 where
  get_op : Key → ℤ → ℕ → Op
  put_op : Key → CacheTicket → ℤ → DesiredState → ℕ → Op
  forget_op : Key → Op
  invalidate_op : Key → ℕ → Op

unfoldable pub step : Op → Cache → Cache
step (get_op key version now) c = (get c key version now).1
step (put_op key t version s now) c = (put_if_current c key t version s now).0
step (forget_op key) c = forget_host c key
step (invalidate_op key now) c = invalidate_host c key now

-- An interleaving is a list of steps.
unfoldable pub run : List Op → Cache → Cache
unfolding step
run [] c = c
run (o ∷ ops) c = run ops (step o c)
