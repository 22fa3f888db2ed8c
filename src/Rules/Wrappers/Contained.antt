-- ===== src/Rules/Wrappers/Contained.antt =====
-- rule/factory.go: the bodies around one other rule work within their frame if that rule does.
use syntaxa.Prelude.{
  ◌≡◌, refl, ap, ◌∙◌, Bool, not, Option, none, some, List, ◌∷◌, String, ◌==◌, arith, ok, >>=-eq-ok,
}
use mathlib.Core.Path.{subst}
use syntaxa.Tokens.{TokenKind}
use syntaxa.Stream.{TokenStream, get_last_consumed_lexeme}
use syntaxa.Guards.{Lookahead}
use syntaxa.Recovery.{push_recovery, pop_recovery}
use syntaxa.Recovery.Scopes.{pop-push}
use syntaxa.Lst.Heap.{NodeKind}
use syntaxa.Engine.{
  Context, RuleResult, execution_normal, execution_probe, ParserRule, SyntaxaParser,
}
use syntaxa.Engine.Execute.{execute_rule}
use syntaxa.Engine.Execute.Discipline.{Onward, Within, peek-Onward}
use syntaxa.Engine.Execute.Steps.{IsDisciplined, if-case, Within-stream}
use syntaxa.Engine.Execute.Failure.{rebase, ok-eq-ok}
use syntaxa.Engine.Parse.{is_no_match, execute_reference, execute_resolved}
use syntaxa.Rules.{peek_token, consume_token, create_node, add_token_to, attach_child_in}
use syntaxa.Rules.Wrappers.{
  Predicate, predicate_of, optional_result, optional_exec, optional_when_exec, predict_exec,
  with_suffix, optional_suffix_exec, required_exec, reference_exec, committed_failure,
  execute_inner_with_commitment_failure, consume_if_match, execute_prefixed_rule,
}
use syntaxa.Rules.Work.{
  Stays, ok-Stays, >>=-Stays, Ends-Stays, peek-Within, consume-Within, report_behind-Within,
  create_node-Stays, add_token_to-Ends, attach_child_in-Ends, IsContained,
}

-- A predicate that only looks ahead.
abbrev pub IsPeeking : Predicate → Type 0
IsPeeking p = (ts : TokenStream) → Onward ts (p ts).1

-- The predicate that lookaheads make is one.
pub predicate_of-IsPeeking :
    (parser : SyntaxaParser) (l : Lookahead) (ls : List Lookahead) (given : Option Predicate)
    (p : Predicate)
    → predicate_of parser (l ∷ ls) given ≡ ok p
    → IsPeeking p
unfolding predicate_of
predicate_of-IsPeeking parser l ls given p h ts =
    subst (λ (q : Predicate). Onward ts (q ts).1) (ok-eq-ok h) (peek-Onward ts)

module _ (parser : SyntaxaParser) (rule : ParserRule) where
  pub optional_exec-IsContained :
      IsContained (execute_rule parser rule execution_probe)
      → IsContained (optional_exec parser rule)
  unfolding optional_exec optional_result
  optional_exec-IsContained i b c w =
      >>=-Stays b (execute_rule parser rule execution_probe c) _ (i b c w) (λ r c1 w1.
        if-case (λ (q : RuleResult × Context). Stays b (ok q)) r.succeeded (ok-Stays b r c1 w1)
          (ok-Stays b _ c1 w1))

  module _ (i : IsContained (execute_rule parser rule execution_normal)) where
    pub optional_when_exec-IsContained :
        (p : Predicate) → IsPeeking p → IsContained (optional_when_exec parser rule p)
    unfolding optional_when_exec
    optional_when_exec-IsContained p s b c w =
        let w1 = Within-stream b c (p c.stream).1 (s c.stream) w in
        let c1 : Context = record c { stream = (p c.stream).1 } in
        if-case (Stays b) (p c.stream).0 (i b c1 w1) (ok-Stays b _ c1 w1)

    pub predict_exec-IsContained :
        (p : Predicate) → IsPeeking p → IsContained (predict_exec parser rule p)
    unfolding predict_exec
    predict_exec-IsContained p s b c w =
        let w1 = Within-stream b c (p c.stream).1 (s c.stream) w in
        let c1 : Context = record c { stream = (p c.stream).1 } in
        if-case (Stays b) (p c.stream).0 (i b c1 w1) (ok-Stays b _ c1 w1)

    with_suffix-Stays :
        (kind : NodeKind) (suffix : TokenKind) (r : RuleResult) (b c : Context)
        → Within b c
        → Stays b (with_suffix parser kind suffix r c)
    unfolding with_suffix
    with_suffix-Stays kind suffix r b c w =
        let (found, c1) = peek_token c in
        let w1 = peek-Within b c w in
        let (l, c2) = consume_token c1 in
        if-case (Stays b) (not (found.token == suffix)) (ok-Stays b r c1 w1) (
          >>=-Stays b (create_node kind c2) _ (create_node-Stays b kind c2 (consume-Within b c1 w1))
            (λ p c3 w3.
              Ends-Stays b (add_token_to p l c3) _ (add_token_to-Ends b p l c3 w3) (λ c4 w4.
                Ends-Stays b (attach_child_in p r.node c4) _ (attach_child_in-Ends b p r.node c4 w4)
                  (λ c5 w5. ok-Stays b _ c5 w5))))

    pub optional_suffix_exec-IsContained :
        (kind : NodeKind) (suffix : TokenKind)
        → IsContained (optional_suffix_exec parser kind rule suffix)
    unfolding optional_suffix_exec
    optional_suffix_exec-IsContained kind suffix b c w =
        >>=-Stays b (execute_rule parser rule execution_normal c) _ (i b c w) (λ r c1 w1.
          if-case (Stays b) r.succeeded (with_suffix-Stays kind suffix r b c1 w1)
            (ok-Stays b r c1 w1))

    pub required_exec-IsContained :
        (name message : String) → IsContained (required_exec parser name rule message)
    unfolding required_exec
    required_exec-IsContained name message b c w =
        >>=-Stays b (execute_rule parser rule execution_normal c) _ (i b c w) (λ r c1 w1.
          let c2 = (peek_token c1).1 in
          if-case (Stays b) (is_no_match r.kind)
            (ok-Stays b _ _ (
              report_behind-Within b (get_last_consumed_lexeme c2.stream) name _ _ c2
                (peek-Within b c1 w1)))
            (ok-Stays b r c1 w1))

    pub execute_inner-IsContained : IsContained (execute_inner_with_commitment_failure parser rule)
    unfolding execute_inner_with_commitment_failure committed_failure
    execute_inner-IsContained b c w =
        >>=-Stays b (execute_rule parser rule execution_normal c) _ (i b c w) (λ r c1 w1.
          if-case (λ (q : RuleResult × Context). Stays b (ok q)) r.succeeded (ok-Stays b r c1 w1)
            (ok-Stays b _ c1 w1))

    consume_if_match-Within :
        (t : TokenKind) (b c : Context) → Within b c → Within b (consume_if_match parser t c).1
    unfolding consume_if_match
    consume_if_match-Within t b c w =
        if-case (λ (q : Bool × Context). Within b q.1) ((peek_token c).0.token == t)
          (consume-Within b (peek_token c).1 (peek-Within b c w)) (peek-Within b c w)

    pub execute_prefixed_rule-IsContained :
        (prefix : TokenKind) → IsContained (execute_prefixed_rule parser prefix rule)
    unfolding execute_prefixed_rule
    execute_prefixed_rule-IsContained prefix b c w =
        let (matched, c1) = consume_if_match parser prefix c in
        let w1 = consume_if_match-Within prefix b c w in
        if-case (Stays b) (not matched) (ok-Stays b _ c1 w1) (execute_inner-IsContained b c1 w1)

-- The recovery scopes alone change.
scoped : Context → ParserRule → Context
scoped c rule = record c {
  recovery =
      push_recovery rule.is_recovery_barrier rule.recovery_tokens rule.no_consume_on_recovery_tokens
        c.recovery;
}

unscoped-Within :
    (c c' : Context) (rule : ParserRule)
    → Within (scoped c rule) c'
    → Within c (record c' { recovery = pop_recovery c'.recovery })
unfolding scoped
unscoped-Within c c' rule w = record {
  kept = record {
    input = w.kept.input;
    recovery =
        ap pop_recovery w.kept.recovery
        ∙ pop-push rule.is_recovery_barrier rule.recovery_tokens rule.no_consume_on_recovery_tokens
            c.recovery;
    depth = w.kept.depth;
    ledger = w.kept.ledger;
  };
  errors = rebase _ _ _ _ refl refl refl refl refl refl w.errors;
}

module _ (parser : SyntaxaParser) where
  resolved-IsDisciplined :
      (target : Option ParserRule)
      → ((rule : ParserRule) → target ≡ some rule → IsDisciplined rule.execution_fn)
      → IsDisciplined (execute_resolved target execution_normal)
  unfolding execute_resolved scoped
  resolved-IsDisciplined none d c c' r f rest inside h = cc h
  resolved-IsDisciplined (some rule) d c c' r f rest inside h =
      let ((r1, c1), h1, r2) = >>=-eq-ok (rule.execution_fn (scoped c rule)) _ h in
      subst (Within c) (ground arith)
        (unscoped-Within c c1 rule (d rule refl (scoped c rule) c1 r1 f rest inside h1))

  -- A reference works within its frame if the body of its target does, where it is registered.
  pub reference_exec-IsDisciplined :
      (target : String)
      → ((rule : ParserRule) → parser.registry target ≡ some rule → IsDisciplined rule.execution_fn)
      → IsDisciplined (reference_exec parser target)
  unfolding reference_exec execute_reference
  reference_exec-IsDisciplined target d = resolved-IsDisciplined (parser.registry target) d
