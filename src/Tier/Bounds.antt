-- ===== src/Tier/Bounds.antt =====
-- What the effective limits of a tenant are, whatever its tier and override columns hold.
use nsclient_fleet_server.Common.{
  ℕ, ◌≡◌, ◌≢◌, refl, subst, ◌∙◌, sym, ap, ◌≤◌, ◌⊎◌, inl, inr, ◌↔◌, Option, none, Option-cases, List,
  [], ◌∷◌, some, arith, In,
}
use nsclient_fleet_server.Common.Text.{Text, text_eq, text_eq_iff, text_equality}
use nsclient_fleet_server.Tier.{
  TierLimits, TierOverrides, free, effective, apply_to, lookup_or_free, tiers, find_named, lookup,
  max_bundle_mb_any_tier, unwrap_or,
}

find_named-In :
    (n : Text) (ts : List TierLimits) (t : TierLimits)
    → find_named n ts ≡ some t
    → In t ts × (t.name ≡ n)
unfolding find_named
find_named-In n [] t h = ground arith
find_named-In n (u ∷ ts) t h = ground (arith, text_eq_iff u.name n, find_named-In n ts t)

pub lookup-In : (n : Text) (t : TierLimits) → lookup n ≡ some t → In t tiers × (t.name ≡ n)
unfolding lookup
lookup-In n t h = find_named-In n tiers t h

In-ceiling : (t : TierLimits) → In t tiers → t.max_bundle_mb ≤ max_bundle_mb_any_tier
In-ceiling t m = ground arith

-- The tier that a tenant's column means: the one of the table with that name, or the free tier where
-- the table has none.
abbrev pub IsTierOf : Text → TierLimits → Type 0
IsTierOf n t =
    (In t tiers × (t.name ≡ n)) ⊎ (((u : TierLimits) → In u tiers → u.name ≢ n) × (t ≡ free))

-- A number of the limits is the override's where there is one, and the tier's elsewhere.
abbrev pub IsSetBy : Option ℕ → ℕ → ℕ → Type 0
IsSetBy o base v = ((x : ℕ) → o ≡ some x → v ≡ x) × (o ≡ none → v ≡ base)

-- Limits that are a tier's, each number by itself overridden or not, under the tier's own name.
abbrev pub IsOverlay : TierOverrides → TierLimits → TierLimits → Type 0
IsOverlay o t l =
    (l.name ≡ t.name)
    × IsSetBy o.max_hosts t.max_hosts l.max_hosts
    × IsSetBy o.min_poll_interval_secs t.min_poll_interval_secs l.min_poll_interval_secs
    × IsSetBy o.per_host_requests_per_minute t.per_host_requests_per_minute
        l.per_host_requests_per_minute
    × IsSetBy o.max_bundle_mb t.max_bundle_mb l.max_bundle_mb
    × IsSetBy o.max_bundles t.max_bundles l.max_bundles

unwrap_or-IsSetBy : (o : Option ℕ) (base : ℕ) → IsSetBy o base (unwrap_or o base)
unwrap_or-IsSetBy none base = (λ x e. ground (arith, e), λ e. refl)
unwrap_or-IsSetBy (some a) base = (λ x e. ground (arith, e), λ e. ground (arith, e))

IsSetBy-unwrap_or : (o : Option ℕ) (base v : ℕ) → IsSetBy o base v → v ≡ unwrap_or o base
IsSetBy-unwrap_or none base v h = h.1 refl
IsSetBy-unwrap_or (some a) base v h = h.0 a refl

apply_to-IsOverlay : (o : TierOverrides) (t : TierLimits) → IsOverlay o t (apply_to o t)
unfolding apply_to
apply_to-IsOverlay o t = (
  refl,
  unwrap_or-IsSetBy o.max_hosts t.max_hosts,
  unwrap_or-IsSetBy o.min_poll_interval_secs t.min_poll_interval_secs,
  unwrap_or-IsSetBy o.per_host_requests_per_minute t.per_host_requests_per_minute,
  unwrap_or-IsSetBy o.max_bundle_mb t.max_bundle_mb,
  unwrap_or-IsSetBy o.max_bundles t.max_bundles,
)

IsOverlay-apply_to : (o : TierOverrides) (t l : TierLimits) → IsOverlay o t l → l ≡ apply_to o t
unfolding apply_to
IsOverlay-apply_to o t l (n, h, p, r, m, b) = ground (
  arith,
  n,
  IsSetBy-unwrap_or o.max_hosts t.max_hosts l.max_hosts h,
  IsSetBy-unwrap_or o.min_poll_interval_secs t.min_poll_interval_secs l.min_poll_interval_secs p,
  IsSetBy-unwrap_or o.per_host_requests_per_minute t.per_host_requests_per_minute
      l.per_host_requests_per_minute r,
  IsSetBy-unwrap_or o.max_bundle_mb t.max_bundle_mb l.max_bundle_mb m,
  IsSetBy-unwrap_or o.max_bundles t.max_bundles l.max_bundles b,
)

find_named-absent :
    (n : Text) (ts : List TierLimits) (t : TierLimits)
    → find_named n ts ≡ none
    → In t ts
    → t.name ≢ n
unfolding find_named
find_named-absent n [] t h i e = i
find_named-absent n (u ∷ ts) t h (inl d) e =
    let same : u.name ≡ n = ap (λ (x : TierLimits). x.name) d ∙ e in
    ground (arith, h, (text_eq_iff u.name n).1 same)
find_named-absent n (u ∷ ts) t h (inr i) e = find_named-absent n ts t (ground (arith, h)) i e

lookup_or_free-IsTierOf : (n : Text) → IsTierOf n (lookup_or_free n)
unfolding lookup_or_free lookup
lookup_or_free-IsTierOf n = elim (Option-cases (lookup n)) [
  | inl e ↦ rw e (inr (λ u i. find_named-absent n tiers u e i, refl))
  | inr (t, e) ↦ rw e (inl (lookup-In n t e))
]

-- The names of the table are distinct.
lookup-name : (t : TierLimits) → In t tiers → lookup t.name ≡ some t
unfolding lookup find_named text_eq
lookup-name t (inl e) = subst (λ u. lookup u.name ≡ some u) e refl
lookup-name t (inr (inl e)) = subst (λ u. lookup u.name ≡ some u) e refl
lookup-name t (inr (inr (inl e))) = subst (λ u. lookup u.name ≡ some u) e refl
lookup-name t (inr (inr (inr (inl e)))) = subst (λ u. lookup u.name ≡ some u) e refl
lookup-name t (inr (inr (inr (inr (inl e))))) = subst (λ u. lookup u.name ≡ some u) e refl
lookup-name t (inr (inr (inr (inr (inr none_left))))) = absurd none_left

IsTierOf-lookup_or_free : (n : Text) (t : TierLimits) → IsTierOf n t → t ≡ lookup_or_free n
unfolding lookup_or_free
IsTierOf-lookup_or_free n t (inl (i, e)) =
    subst (λ m. t ≡ lookup_or_free m) e (rw (lookup-name t i) refl)
IsTierOf-lookup_or_free n t (inr (a, e)) = elim (Option-cases (lookup n)) [
  | inl f ↦ e ∙ rw f refl
  | inr (u, f) ↦ let (i, k) = lookup-In n u f in absurd (a u i k)
]

abbrev text_or : Option Text → Text
text_or none = []
text_or (some t) = t

abbrev pub no_overrides : TierOverrides
no_overrides = record {
  max_hosts = none;
  min_poll_interval_secs = none;
  per_host_requests_per_minute = none;
  max_bundle_mb = none;
  max_bundles = none;
}

module _ (from_json : Text → Option TierOverrides) where
  -- What a tenant's override column means: the overrides that it parses to, or none of them where it
  -- is missing or does not parse.
  abbrev pub AreOverridesOf : Option Text → TierOverrides → Type 0
  AreOverridesOf raw o =
      ((text : Text) × (raw ≡ some text) × (from_json text ≡ some o))
      ⊎ (((text : Text) → raw ≡ some text → from_json text ≡ none) × (o ≡ no_overrides))

  abbrev pub AreLimitsOf : Text → Option Text → TierLimits → Type 0
  AreLimitsOf n raw l =
      (t : TierLimits) × (o : TierOverrides) × IsTierOf n t × AreOverridesOf raw o × IsOverlay o t l

  effective-apply_to :
      (n : Text) (raw : Option Text) (o : TierOverrides)
      → AreOverridesOf raw o
      → effective from_json n raw ≡ apply_to o (lookup_or_free n)
  unfolding effective apply_to
  effective-apply_to n none o (inl (text, e, f)) = cc
  effective-apply_to n none o (inr (a, e)) = rw e refl
  effective-apply_to n (some text) o (inl (other, e, f)) =
      let same : text ≡ other = ap (λ x. text_or x) e in rw (same, f) refl
  effective-apply_to n (some text) o (inr (a, e)) = rw (a text refl, e) refl

  overrides-AreOverridesOf : (raw : Option Text) → (o : TierOverrides) × AreOverridesOf raw o
  overrides-AreOverridesOf none = (no_overrides, inr (λ text e. cc, refl))
  overrides-AreOverridesOf (some text) = elim (Option-cases (from_json text)) [
    | inl e ↦ (no_overrides, inr (λ other f. ap from_json (sym (ap (λ x. text_or x) f)) ∙ e, refl))
    | inr (o, e) ↦ (o, inl (text, refl, e))
  ]

  -- The limits of a tenant are exactly those of the tier of the table that its tier column names, or
  -- of the free tier if the table has no tier of that name, with each number replaced by the one
  -- that its override column sets, if the column parses and sets it, and no other number, nor the
  -- name, replaced.
  pub effective_iff :
      (n : Text) (raw : Option Text) (l : TierLimits)
      → (l ≡ effective from_json n raw) ↔ AreLimitsOf n raw l
  effective_iff n raw l = (to, from)
    where
      to : l ≡ effective from_json n raw → AreLimitsOf n raw l
      to e =
          let (o, h) = overrides-AreOverridesOf raw in
          let same = sym (e ∙ effective-apply_to n raw o h) in
          (
            lookup_or_free n,
            o,
            lookup_or_free-IsTierOf n,
            h,
            subst (λ x. IsOverlay o (lookup_or_free n) x) same
                (apply_to-IsOverlay o (lookup_or_free n)),
          )

      from : AreLimitsOf n raw l → l ≡ effective from_json n raw
      from (t, o, i, h, k) =
          IsOverlay-apply_to o t l k
          ∙ ap (apply_to o) (IsTierOf-lookup_or_free n t i)
          ∙ sym (effective-apply_to n raw o h)

  -- No tenant without an override of the bundle size may upload a larger bundle than the ceiling
  -- that the server's request limit is set from.
  effective-ceiling :
      (n : Text) → (effective from_json n none).max_bundle_mb ≤ max_bundle_mb_any_tier
  unfolding effective
  effective-ceiling n = elim (lookup_or_free-IsTierOf n) [
    | inl (i, e) ↦ In-ceiling (lookup_or_free n) i
    | inr (a, e) ↦ rw e (omega arith)
  ]
