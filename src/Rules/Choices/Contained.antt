-- ===== src/Rules/Choices/Contained.antt =====
-- rule/factory.go: the bodies of choices work within their frame if every arm does.
use syntaxa.Prelude.{ℕ, zero, suc, ◌||◌, Option, none, some, List, [], ◌∷◌, map}
use syntaxa.Stream.{peek}
use syntaxa.Dispatch.{
  GrammarAnalysis, ChoiceDispatchMode, choice_dispatch_fallback, choice_dispatch_candidates,
  choice_dispatch_no_match, choice_candidate_indices_from_analysis,
}
use syntaxa.Engine.{Context, RuleResult, Executor, execution_normal, ParserRule, SyntaxaParser}
use syntaxa.Engine.Execute.{is_error, execute_rule}
use syntaxa.Engine.Execute.Discipline.{Within}
use syntaxa.Engine.Execute.Steps.{if-case}
use syntaxa.Rules.Sequences.Contained.{AreContained}
use syntaxa.Rules.Choices.{
  rule_at, tried, try_indexed, execute_choice_fallback_loop, execute_choice_candidate_loop,
  dispatched, after_dispatch, execute_choice_loop,
}
use syntaxa.Rules.Work.{Stays, ok-Stays, panic-Stays, >>=-Stays, peek-Within, IsContained}

module _ (parser : SyntaxaParser) where
  tried-Stays :
      (next : Executor) (b : Context)
      → IsContained next
      → (r : RuleResult) (c : Context) → Within b c
      → Stays b (tried parser next (r, c))
  unfolding tried
  tried-Stays next b n r c w =
      if-case (Stays b) (r.succeeded || is_error r.kind) (ok-Stays b r c w) (n b c w)

  fallback-IsContained :
      (rules : List ParserRule)
      → AreContained parser rules
      → IsContained (execute_choice_fallback_loop parser rules)
  unfolding execute_choice_fallback_loop
  fallback-IsContained [] i b c w = ok-Stays b _ c w
  fallback-IsContained (rule ∷ rules) (i, is) b c w =
      >>=-Stays b (execute_rule parser rule execution_normal c) _ (i b c w)
        (tried-Stays (execute_choice_fallback_loop parser rules) b (fallback-IsContained rules is))

  indexed-IsContained :
      (rules : List ParserRule) (idx : ℕ) (next : Executor)
      → AreContained parser rules
      → IsContained next
      → IsContained (try_indexed parser (rule_at rules idx) next)
  unfolding try_indexed rule_at
  indexed-IsContained [] idx next i n b c w = panic-Stays b _
  indexed-IsContained (rule ∷ rules) zero next (i, is) n b c w =
      >>=-Stays b (execute_rule parser rule execution_normal c) _ (i b c w) (tried-Stays next b n)
  indexed-IsContained (rule ∷ rules) (suc idx) next (i, is) n b c w =
      indexed-IsContained rules idx next is n b c w

  candidate-IsContained :
      (rules : List ParserRule) (is : List ℕ)
      → AreContained parser rules
      → IsContained (execute_choice_candidate_loop parser rules is)
  unfolding execute_choice_candidate_loop
  candidate-IsContained rules [] i b c w = ok-Stays b _ c w
  candidate-IsContained rules (idx ∷ is) i b c w =
      indexed-IsContained rules idx (execute_choice_candidate_loop parser rules is) i
        (candidate-IsContained rules is i) b c w

  dispatched-IsContained :
      (rules : List ParserRule) (is : List ℕ) (mode : ChoiceDispatchMode)
      → AreContained parser rules
      → IsContained (dispatched parser rules (is, mode))
  unfolding dispatched
  dispatched-IsContained rules is choice_dispatch_no_match i b c w = ok-Stays b _ c w
  dispatched-IsContained rules is choice_dispatch_candidates i b c w =
      candidate-IsContained rules is i b c w
  dispatched-IsContained rules is choice_dispatch_fallback i b c w =
      fallback-IsContained rules i b c w

  after_dispatch-Within :
      (analysis : Option GrammarAnalysis) (b c : Context)
      → Within b c
      → Within b (after_dispatch parser analysis c)
  unfolding after_dispatch
  after_dispatch-Within none b c w = w
  after_dispatch-Within (some analysis) b c w = peek-Within b c w

  pub execute_choice_loop-IsContained :
      (rules : List ParserRule)
      → AreContained parser rules
      → IsContained (execute_choice_loop parser rules)
  unfolding execute_choice_loop
  execute_choice_loop-IsContained rules i b c w =
      let (is, mode) =
        choice_candidate_indices_from_analysis parser.analysis
          (map (λ (r : ParserRule). r.grammar) rules) (λ n. (peek c.stream n).0) in
      dispatched-IsContained rules is mode i b (after_dispatch parser parser.analysis c)
        (after_dispatch-Within parser.analysis b c w)
