-- ===== src/Selector/Sources.antt =====
-- `fact_sources` names every document that a selector reads.
use nsclient_fleet_server.Common.{
  not as negate, ◌≡◌, refl, ap, ap₂, ◌&&◌, ◌||◌, List, [], arith, In,
}
use nsclient_fleet_server.Common.Text.{Text, text_equality}
use nsclient_fleet_server.Common.Dict
use nsclient_fleet_server.Common.TextSet
use nsclient_fleet_server.Selector.Tags.{HostTags}
use nsclient_fleet_server.Selector.Expr.{Expr, Exprs, Selector}
use nsclient_fleet_server.Selector.Eval.{
  HostFacts, fact_holds, eval, eval_all, eval_any, matches, walk, walk_all, fact_sources,
}

mutual
  unfolding walk

  In-walk : (x : Text) (e : Expr) (out : List Text) → In x out → In x (walk e out)
  In-walk x (Expr.fact source path test) out h = TextSet.In-insert x source out h
  In-walk x (Expr.eq key value source) out h = h
  In-walk x (Expr.one_of key values source) out h = h
  In-walk x (Expr.exists key source) out h = h
  In-walk x (Expr.not e) out h = In-walk x e out h
  In-walk x (Expr.and es) out h = In-walk_all x es out h
  In-walk x (Expr.or es) out h = In-walk_all x es out h

  In-walk_all : (x : Text) (es : Exprs) (out : List Text) → In x out → In x (walk_all es out)
  In-walk_all x Exprs.nil out h = h
  In-walk_all x (Exprs.cons e es) out h = In-walk_all x es (walk e out) (In-walk x e out h)

mutual
  unfolding walk

  walk-IsAscending :
      (e : Expr) (out : List Text) → TextSet.IsAscending out → TextSet.IsAscending (walk e out)
  walk-IsAscending (Expr.fact source path test) out h = TextSet.insert-IsAscending source out h
  walk-IsAscending (Expr.eq key value source) out h = h
  walk-IsAscending (Expr.one_of key values source) out h = h
  walk-IsAscending (Expr.exists key source) out h = h
  walk-IsAscending (Expr.not e) out h = walk-IsAscending e out h
  walk-IsAscending (Expr.and es) out h = walk_all-IsAscending es out h
  walk-IsAscending (Expr.or es) out h = walk_all-IsAscending es out h

  walk_all-IsAscending :
      (es : Exprs) (out : List Text)
      → TextSet.IsAscending out
      → TextSet.IsAscending (walk_all es out)
  walk_all-IsAscending Exprs.nil out h = h
  walk_all-IsAscending (Exprs.cons e es) out h =
      walk_all-IsAscending es (walk e out) (walk-IsAscending e out h)

-- The documents of a list of sources agree.
abbrev pub SameFactsAt : List Text → HostFacts → HostFacts → Type 0
SameFactsAt sources facts facts' =
    (source : Text) → In source sources → Dict.get source facts ≡ Dict.get source facts'

module _ (tags : HostTags) (facts facts' : HostFacts) where
  mutual
    unfolding eval walk

    eval-sources :
        (e : Expr) (out : List Text)
        → SameFactsAt (walk e out) facts facts'
        → eval tags facts e ≡ eval tags facts' e
    eval-sources (Expr.fact source path test) out same =
        ap (fact_holds path test) (same source (TextSet.insert-In source out))
    eval-sources (Expr.eq key value source) out same = refl
    eval-sources (Expr.one_of key values source) out same = refl
    eval-sources (Expr.exists key source) out same = refl
    eval-sources (Expr.not e) out same = ap negate (eval-sources e out same)
    eval-sources (Expr.and es) out same = eval_all-sources es out same
    eval-sources (Expr.or es) out same = eval_any-sources es out same

    eval_all-sources :
        (es : Exprs) (out : List Text)
        → SameFactsAt (walk_all es out) facts facts'
        → eval_all tags facts es ≡ eval_all tags facts' es
    eval_all-sources Exprs.nil out same = refl
    eval_all-sources (Exprs.cons e es) out same =
        ap₂ ◌&&◌ (eval-sources e out (λ x h. same x (In-walk_all x es (walk e out) h)))
          (eval_all-sources es (walk e out) same)

    eval_any-sources :
        (es : Exprs) (out : List Text)
        → SameFactsAt (walk_all es out) facts facts'
        → eval_any tags facts es ≡ eval_any tags facts' es
    eval_any-sources Exprs.nil out same = refl
    eval_any-sources (Exprs.cons e es) out same =
        ap₂ ◌||◌ (eval-sources e out (λ x h. same x (In-walk_all x es (walk e out) h)))
          (eval_any-sources es (walk e out) same)

-- The sources are in ascending order without repeats, and loading only their documents is enough: a
-- selector answers alike on any two sets of documents that agree at its sources.
pub matches-fact_sources :
    (s : Selector) (tags : HostTags) (facts facts' : HostFacts)
    → SameFactsAt (fact_sources s) facts facts'
    → TextSet.IsAscending (fact_sources s) × (matches tags facts s ≡ matches tags facts' s)
unfolding matches fact_sources
matches-fact_sources s tags facts facts' same = (
  walk_all-IsAscending s.clauses [] tt,
  ground (arith, eval_all-sources tags facts facts' s.clauses [] same),
)
