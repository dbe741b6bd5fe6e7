-- ===== src/Selector/HostControl.antt =====
-- What a host can and cannot decide about its own group membership.
use nsclient_fleet_server.Common.{
  false, not as negate, ◌≡◌, ◌≢◌, refl, ap, List, any, is_empty, arith, ◌==◌,
}
use nsclient_fleet_server.Common.Text.{Text, text_equality, text_eq_iff}
use nsclient_fleet_server.Common.Dict
use nsclient_fleet_server.Facts.Source.{agent_source}
use nsclient_fleet_server.Selector.Tags.{
  SourceFilter, TagValue, HostTags, matching, filter_is_host_controlled,
}
use nsclient_fleet_server.Selector.Expr.{Expr, Exprs, Selector}
use nsclient_fleet_server.Selector.Eval.{
  HostFacts, text_in, fact_holds, eval, eval_all, eval_any, matches, expr_is_host_controlled,
  any_is_host_controlled, is_host_controlled,
}

-- Two hosts on which the operator's side agrees: the operator's tags under each key, and every
-- document but the one that the host uploads about itself.
pub record SameOperatorInput (tags tags' : HostTags) (facts facts' : HostFacts) : Type 0 where
  pub same_tags :
      (key : Text) → matching tags key SourceFilter.manual ≡ matching tags' key SourceFilter.manual
  pub same_facts :
      (source : Text) → source ≢ agent_source → Dict.get source facts ≡ Dict.get source facts'

module _ {tags tags' : HostTags} {facts facts' : HostFacts}
    (same : SameOperatorInput tags tags' facts facts') where
  matching-manual :
      (key : Text) (source : SourceFilter)
      → filter_is_host_controlled source ≡ false
      → matching tags key source ≡ matching tags' key source
  unfolding filter_is_host_controlled
  matching-manual key SourceFilter.manual h = same.same_tags key
  matching-manual key SourceFilter.agent h = cc
  matching-manual key SourceFilter.any_source h = cc

  fact-imported :
      (source : Text)
      → (source == agent_source) ≡ false
      → Dict.get source facts ≡ Dict.get source facts'
  fact-imported source h =
      same.same_facts source (λ e. ground (arith, text_eq_iff source agent_source))

  mutual
    unfolding eval expr_is_host_controlled

    eval-operator :
        (e : Expr) → expr_is_host_controlled e ≡ false → eval tags facts e ≡ eval tags' facts' e
    eval-operator (Expr.fact source path test) h =
        ap (fact_holds path test) (fact-imported source h)
    eval-operator (Expr.eq key value source) h =
        ap (λ ts. any (λ (t : TagValue). t.value == value) ts) (matching-manual key source h)
    eval-operator (Expr.one_of key values source) h =
        ap (λ ts. any (λ (t : TagValue). text_in values t.value) ts) (matching-manual key source h)
    eval-operator (Expr.exists key source) h =
        ap (λ (ts : List TagValue). negate (is_empty ts)) (matching-manual key source h)
    eval-operator (Expr.not e) h = ap negate (eval-operator e h)
    eval-operator (Expr.and es) h = eval_all-operator es h
    eval-operator (Expr.or es) h = eval_any-operator es h

    eval_all-operator :
        (es : Exprs)
        → any_is_host_controlled es ≡ false
        → eval_all tags facts es ≡ eval_all tags' facts' es
    eval_all-operator Exprs.nil h = refl
    eval_all-operator (Exprs.cons e es) h = ground (arith, eval-operator e, eval_all-operator es)

    eval_any-operator :
        (es : Exprs)
        → any_is_host_controlled es ≡ false
        → eval_any tags facts es ≡ eval_any tags' facts' es
    eval_any-operator Exprs.nil h = refl
    eval_any-operator (Exprs.cons e es) h = ground (arith, eval-operator e, eval_any-operator es)

-- A selector that is not host-controlled gives the same answer on any two hosts on which the
-- operator's tags under every key and all documents but the agent's agree: whatever a host reports
-- about itself, it cannot move itself into such a group or out of it.
pub matches-operator :
    (s : Selector) (tags tags' : HostTags) (facts facts' : HostFacts)
    → SameOperatorInput tags tags' facts facts'
    → is_host_controlled s ≡ false
    → matches tags facts s ≡ matches tags' facts' s
unfolding matches is_host_controlled
matches-operator s tags tags' facts facts' same h =
    ground (arith, eval_all-operator same s.clauses h)
