-- ===== src/Rules/Choices.antt =====
-- rule/factory.go: the choice between rules, with the dispatch of choice_dispatch.go. Counters are left
-- out.
pub mod Contained
pub mod Equivalence
use Prim.Native.String.{◌++◌ as str_append}
use text.Mathlib.Text.{◌==◌ as str_eq}
use syntaxa.Prelude.{
  ℕ, zero, suc, Bool, false, ◌||◌, Option, none, some, List, [], ◌∷◌, map, String, if◌then◌else◌,
  Outcome, ok, panic, Panic, ◌>>=◌,
}
use syntaxa.Stream.{peek}
use syntaxa.Dispatch.{
  Arm, GrammarAnalysis, ChoiceDispatchMode, choice_dispatch_fallback, choice_dispatch_candidates,
  choice_dispatch_no_match, choice_candidate_indices_from_analysis,
}
use syntaxa.Engine.{
  Context, failure_no_match, RuleResult, execution_normal, Executor, ParserRule, SyntaxaParser,
}
use syntaxa.Engine.Execute.{is_error, execute_rule}
use syntaxa.Rules.{
  create_rule_name, create_rule_identity, expected_label_from_rule, build_failure_rule_result,
  create_contract, construct_rule, peek_token,
}

-- The loop of `strings.Join` behind the first part.
joined_rest : List ParserRule → String
joined_rest [] = ""
joined_rest (r ∷ rs) = str_append ", " (str_append (expected_label_from_rule r) (joined_rest rs))

joined_labels : List ParserRule → String
unfolding joined_rest
joined_labels [] = ""
joined_labels (r ∷ rs) = str_append (expected_label_from_rule r) (joined_rest rs)

unfoldable pub choice_expected_label : List ParserRule → String → String
unfolding joined_labels
choice_expected_label rules label = one_of (joined_labels rules)
  where
    one_of : String → String
    one_of joined = if str_eq joined "" then label else str_append "one of: " joined

unfoldable pub choice_must_consume : List ParserRule → Bool
choice_must_consume [] = false
choice_must_consume (r ∷ []) = r.contract.must_consume
choice_must_consume (r ∷ s ∷ rs) =
    let rest = choice_must_consume (s ∷ rs) in if r.contract.must_consume then rest else false

-- `rules[idx]`
unfoldable pub rule_at : List ParserRule → ℕ → Option ParserRule
rule_at [] idx = none
rule_at (r ∷ rs) zero = some r
rule_at (r ∷ rs) (suc idx) = rule_at rs idx

module _ (parser : SyntaxaParser) where
  -- What a loop does behind a rule: it ends on a success or an error, and goes on with `next` otherwise.
  tried : Executor → RuleResult × Context → Outcome (RuleResult × Context)
  tried next (result, c) =
      if result.succeeded || is_error result.kind then ok (result, c) else next c

  unfoldable pub execute_choice_fallback_loop : List ParserRule → Executor
  unfolding tried
  execute_choice_fallback_loop [] c = ok (build_failure_rule_result none failure_no_match, c)
  execute_choice_fallback_loop (rule ∷ rules) c =
      execute_rule parser rule execution_normal c >>= tried (execute_choice_fallback_loop rules)

  try_indexed : Option ParserRule → Executor → Executor
  unfolding tried
  try_indexed none next c = panic Panic.index_out_of_range
  try_indexed (some rule) next c = execute_rule parser rule execution_normal c >>= tried next

  unfoldable pub execute_choice_candidate_loop : List ParserRule → List ℕ → Executor
  unfolding try_indexed rule_at
  execute_choice_candidate_loop rules [] c = ok (build_failure_rule_result none failure_no_match, c)
  execute_choice_candidate_loop rules (idx ∷ is) c =
      try_indexed (rule_at rules idx) (execute_choice_candidate_loop rules is) c

  dispatched : List ParserRule → List ℕ × ChoiceDispatchMode → Executor
  unfolding execute_choice_fallback_loop execute_choice_candidate_loop
  dispatched rules (is, choice_dispatch_no_match) c =
      ok (build_failure_rule_result none failure_no_match, c)
  dispatched rules (is, choice_dispatch_candidates) c = execute_choice_candidate_loop rules is c
  dispatched rules (is, choice_dispatch_fallback) c = execute_choice_fallback_loop rules c

  -- The dispatch peeks as soon as there is an analysis.
  after_dispatch : Option GrammarAnalysis → Context → Context
  after_dispatch none c = c
  after_dispatch (some analysis) c = (peek_token c).1

  unfoldable pub execute_choice_loop : List ParserRule → Executor
  unfolding dispatched after_dispatch choice_candidate_indices_from_analysis
  execute_choice_loop rules c =
      dispatched rules
        (choice_candidate_indices_from_analysis parser.analysis
          (map (λ (r : ParserRule). r.grammar) rules) (λ n. (peek c.stream n).0))
        (after_dispatch parser.analysis c)

  unfoldable pub choice : String → List ParserRule → Option Arm → Outcome ParserRule
  unfolding execute_choice_loop
  choice label rules grammar = do
    identity ←
        create_rule_identity (create_rule_name "Choice" label) label
          (choice_expected_label rules label)
    ok (
        construct_rule identity (create_contract (choice_must_consume rules) false)
          (execute_choice_loop rules) [] [] none grammar)
