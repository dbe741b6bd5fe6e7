-- ===== src/DesiredState/Cache/Keys.antt =====
-- The keys of the cache stay distinct, and what reclaiming leaves of a key.
use nsclient_fleet_server.Common.{
  ℕ, ◌+◌, ◌≡◌, refl, ◌⊎◌, inl, inr, Option, none, some, arith, keep, leb, length, pair_eq,
  Bool-cases,
}
use nsclient_fleet_server.Common.Int.{int_eq}
use nsclient_fleet_server.Common.Text.{text_equality}
use nsclient_fleet_server.Common.Dict
use nsclient_fleet_server.Common.Distinct.{
  IsDistinct, put-IsDistinct, remove-IsDistinct, keep-IsDistinct, get-keep,
}
use nsclient_fleet_server.DesiredState.Cache.{
  Key, Entry, Entries, Cache, Op, get_op, put_op, forget_op, invalidate_op, step, get, touch,
  put_if_current, stored, reclaim, sweep, forget_host, invalidate_host, generation_of, bump, or_new,
  max_entries, idle_ttl_secs,
}

abbrev pub HasDistinctKeys : Cache → Type 0
HasDistinctKeys c = IsDistinct c.entries

pub sweep-IsDistinct : (now : ℕ) (es : Entries) → IsDistinct es → IsDistinct (sweep now es)
unfolding sweep
sweep-IsDistinct now es d =
    ground
      (arith, keep-IsDistinct (λ (e : Key × Entry). leb now (e.1.last_used + idle_ttl_secs)) es)

pub get-sweep :
    (now : ℕ) (k : Key) (es : Entries)
    → IsDistinct es
    → (Dict.get k (sweep now es) ≡ Dict.get k es) ⊎ (Dict.get k (sweep now es) ≡ none)
unfolding sweep
get-sweep now k es d =
    elim (Bool-cases (
      leb max_entries
        (length (keep (λ (e : Key × Entry). leb now (e.1.last_used + idle_ttl_secs)) es)))) [
          | inl e ↦ rw (e) (inr (unfold Dict.get in refl))
          | inr e ↦
              rw (e)
                (get-keep k (λ (e : Key × Entry). leb now (e.1.last_used + idle_ttl_secs)) es d)
        ]

pub reclaim-IsDistinct : (now : ℕ) (c : Cache) → HasDistinctKeys c → HasDistinctKeys (reclaim now c)
unfolding reclaim
reclaim-IsDistinct now c d = ground (arith, sweep-IsDistinct now c.entries)

pub get-reclaim :
    (now : ℕ) (k : Key) (c : Cache)
    → HasDistinctKeys c
    → (Dict.get k (reclaim now c).entries ≡ Dict.get k c.entries)
      ⊎ (Dict.get k (reclaim now c).entries ≡ none)
unfolding reclaim
get-reclaim now k c d = ground (arith, get-sweep now k c.entries)

pub touch-IsDistinct :
    (now : ℕ) (o : Option Entry) (k : Key) (es : Entries)
    → IsDistinct es
    → IsDistinct (touch now o k es)
touch-IsDistinct now none k es d = d
touch-IsDistinct now (some e) k es d = put-IsDistinct k (record e { last_used = now }) es d

pub step-IsDistinct : (o : Op) (c : Cache) → HasDistinctKeys c → HasDistinctKeys (step o c)
unfolding step get put_if_current stored forget_host invalidate_host
step-IsDistinct (get_op k version now) c d =
    ground (arith, touch-IsDistinct now (Dict.get k c.entries) k c.entries)
step-IsDistinct (put_op k t version s now) c d = ground (
  arith,
  reclaim-IsDistinct now c,
  put-IsDistinct k
      (record {
        config_version = version;
        state = some s;
        generation = generation_of k c.entries;
        last_used = now;
      })
      (reclaim now c).entries,
)
step-IsDistinct (forget_op k) c d = ground (arith, remove-IsDistinct k c.entries)
step-IsDistinct (invalidate_op k now) c d =
    let e = or_new now (Dict.get k c.entries) in
    put-IsDistinct k (record e { state = none; generation = bump e.generation }) c.entries d
