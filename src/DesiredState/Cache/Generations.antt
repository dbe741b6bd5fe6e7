-- ===== src/DesiredState/Cache/Generations.antt =====
-- The generations of the entries of a map, and what the operations on maps do to them.
use nsclient_fleet_server.Common.{
  ℕ, ◌+◌, ◌≤◌, ◌<◌, Bool, ◌≡◌, refl, ap, sym, ◌∙◌, inl, inr, List, [], ◌∷◌, Option, none, some, All,
  arith, keep, leb, length, if◌then◌else◌, ◌==◌, pair_eq, Bool-cases,
}
use nsclient_fleet_server.Common.Int.{int_eq}
use nsclient_fleet_server.Common.Text.{text_equality}
use nsclient_fleet_server.Common.Dict
use nsclient_fleet_server.DesiredState.Cache.{
  Key, Entry, Entries, touch, sweep, generation_of, or_new, max_entries, idle_ttl_secs,
}

-- Entries with generations up to a bound.
abbrev pub Fits : ℕ → Entries → Type 0
Fits n = All (λ e. e.1.generation ≤ n)

pub Fits-mono : (n m : ℕ) (es : Entries) → n ≤ m → Fits n es → Fits m es
Fits-mono n m [] l h = tt
Fits-mono n m (e ∷ es) l h = (omega arith, Fits-mono n m es l h.1)

pub Fits-put :
    (n : ℕ) (k : Key) (e : Entry) (es : Entries)
    → e.generation ≤ n
    → Fits n es
    → Fits n (Dict.put k e es)
unfolding Dict.put
Fits-put n k e [] l h = (l, tt)
Fits-put n k e ((j, d) ∷ es) l h = ground (arith, Fits-put n k e es)

pub Fits-remove : (n : ℕ) (k : Key) (es : Entries) → Fits n es → Fits n (Dict.remove k es)
unfolding Dict.remove
Fits-remove n k [] h = tt
Fits-remove n k ((j, d) ∷ es) h = ground (arith, Fits-remove n k es)

pub Fits-keep : (n : ℕ) (p : Key × Entry → Bool) (es : Entries) → Fits n es → Fits n (keep p es)
Fits-keep n p [] h = tt
Fits-keep n p (e ∷ es) h = ground (arith, Fits-keep n p es)

pub generation_of-le : (n : ℕ) (k : Key) (es : Entries) → Fits n es → generation_of k es ≤ n
unfolding generation_of Dict.get
generation_of-le n k [] h = omega arith
generation_of-le n k ((j, d) ∷ es) h = ground (arith, generation_of-le n k es)

pub generation_of-put :
    (k j : Key) (e : Entry) (es : Entries)
    → generation_of j (Dict.put k e es) ≡ (if k == j then e.generation else generation_of j es)
unfolding generation_of
generation_of-put k j e es = ground (arith, Dict.get-put k j e es)

pub length-keep : {A : Type 0} (p : A → Bool) (es : List A) → length (keep p es) ≤ length es
length-keep p [] = omega arith
length-keep p (e ∷ es) = ground (arith, length-keep p es)

-- A full map always loses entries to a sweep.
pub length-sweep :
    (now : ℕ) (es : Entries) → max_entries ≤ length es → length (sweep now es) < length es
unfolding sweep
length-sweep now es l =
    ground (arith, length-keep (λ (e : Key × Entry). leb now (e.1.last_used + idle_ttl_secs)) es)

pub Fits-sweep : (n now : ℕ) (es : Entries) → Fits n es → Fits n (sweep now es)
unfolding sweep
Fits-sweep n now es h =
    ground (arith, Fits-keep n (λ (e : Key × Entry). leb now (e.1.last_used + idle_ttl_secs)) es)

pub generation_of-get :
    (k : Key) (es : Entries) (e : Entry)
    → Dict.get k es ≡ some e
    → generation_of k es ≡ e.generation
unfolding generation_of
generation_of-get k es e h = rw h

pub generation_of-touch :
    (now : ℕ) (k j : Key) (o : Option Entry) (es : Entries)
    → Dict.get j es ≡ o
    → generation_of k (touch now o j es) ≡ generation_of k es
generation_of-touch now k j none es h = refl
generation_of-touch now k j (some d) es h = elim (Bool-cases (j == k)) [
  | inl e ↦
      generation_of-put j k (record d { last_used = now }) es
      ∙ rw e (
          sym (generation_of-get j es d h)
          ∙ ap (λ x. generation_of x es) ((pair_eq.beq_iff j k).0 e))
  | inr e ↦ generation_of-put j k (record d { last_used = now }) es ∙ rw e
]

pub Fits-touch :
    (n now : ℕ) (j : Key) (o : Option Entry) (es : Entries)
    → Dict.get j es ≡ o
    → Fits n es
    → Fits n (touch now o j es)
Fits-touch n now j none es h f = f
Fits-touch n now j (some d) es h f =
    Fits-put n j (record d { last_used = now }) es
      (omega (arith, generation_of-get j es d h, generation_of-le n j es f)) f

pub generation_or_new :
    (now : ℕ) (k : Key) (es : Entries)
    → (or_new now (Dict.get k es)).generation ≡ generation_of k es
unfolding generation_of
generation_or_new now k es = ground arith
