-- ===== src/Rules/Tests/Arms.antt =====
-- A choice with an analysis.
use mathlib.Core.Path.{subst}
use text.Mathlib.Text.{◌==◌ as str_eq}
use syntaxa.Prelude.{String, ◌||◌, ap, sym, ◌∙◌}
use syntaxa.Stream.{peek}
use syntaxa.Dispatch.{Arm, GrammarAnalysis, is_candidate}
use syntaxa.Engine.{failure_no_match}
use syntaxa.Engine.Execute.{is_error}
use syntaxa.Rules.{build_failure_rule_result}
use syntaxa.Rules.Choices.{execute_choice_loop, execute_choice_fallback_loop}
use syntaxa.Rules.Choices.Equivalence.{IsSound, execute_choice_loop-fallback}
use syntaxa.Lst.Pool.{truncate_created, new_node}
use syntaxa.Lst.Heap.{add_token}
use syntaxa.Stream.{restore, consume, peek, save}
use syntaxa.Prelude.{
  ℕ, ◌≡◌, refl, true, false, Option, none, some, [], ◌∷◌, arith, ok, if◌then◌else◌,
}
use syntaxa.Tokens.{Lexeme}
use syntaxa.Recovery.{pop_recovery, push_recovery}
use syntaxa.Errors.{rollback_frame, pop_frame, push_frame}
use syntaxa.Engine.{Context, RuleResult, execution_normal, ParserRule, SyntaxaParser}
use syntaxa.Engine.Execute.{execute_rule}
use syntaxa.Rules.{create_rule_identity, format_tokens_as_list}
use syntaxa.Rules.Terminals.{expect_core}
use syntaxa.Rules.Tests.{core, closed, built, parser, outcome_of, peeked}

-- A choice between a name and a bracket; the analysis knows the first token of both.
abbrev keyed : String → Option Arm
keyed key = some (record { node_key = some key; lookaheads = [] })

abbrev name_arm : ParserRule
name_arm = built (expect_core core "Expect" "Name" 7 true (3 ∷ []) (keyed "name"))

abbrev bracket_arm : ParserRule
bracket_arm = built (expect_core core "Expect" "Bracket" 8 true (5 ∷ []) (keyed "bracket"))

abbrev arms_analysis : GrammarAnalysis
arms_analysis = record {
  nullable = λ k. some false;
  first = λ k. some (if str_eq k "name" then 3 ∷ [] else 5 ∷ []);
  arm_predict = λ k. none;
  follow = λ k. [];
}

abbrev analysed : SyntaxaParser
analysed = record parser { analysis = some arms_analysis }

abbrev no_match : RuleResult
no_match = build_failure_rule_result none failure_no_match

name_arm-fails : execute_rule analysed name_arm execution_normal peeked ≡ ok (no_match, peeked)
unfolding rollback_frame add_token consume create_rule_identity execute_rule expect_core
    format_tokens_as_list new_node peek pop_frame pop_recovery push_frame push_recovery restore save
    truncate_created
name_arm-fails = refl

bracket_done : RuleResult × Context
bracket_done = outcome_of (execute_rule analysed bracket_arm execution_normal peeked)

bracket_arm-runs :
    (execute_rule analysed bracket_arm execution_normal peeked ≡ ok bracket_done)
    × (bracket_done.0.succeeded ≡ true)
unfolding add_token bracket_done consume create_rule_identity execute_rule expect_core
    format_tokens_as_list new_node peek pop_frame pop_recovery push_frame push_recovery restore save
    truncate_created
bracket_arm-runs = (refl, refl)

abbrev sees : ℕ → Lexeme
sees n = (peek closed.stream n).0

name_arm-IsSound : IsSound analysed (λ c. c ≡ peeked) arms_analysis sees name_arm
name_arm-IsSound = record {
  leaves = λ c c' r p h t.
      let ran = ap (execute_rule analysed name_arm execution_normal) (sym p) ∙ h in
      let same = sym name_arm-fails ∙ ran in cc same;
  left_out = λ c p k. subst (Fails name_arm) (sym p) (no_match, name_arm-fails, refl);
}
  where
    Fails : ParserRule → Context → Type 0
    Fails rule c =
        (r : RuleResult) × (execute_rule analysed rule execution_normal c ≡ ok (r, c))
        × ((r.succeeded || is_error r.kind) ≡ false)

bracket_arm-is_candidate : is_candidate arms_analysis sees bracket_arm.grammar ≡ true
unfolding is_candidate peek expect_core create_rule_identity format_tokens_as_list
bracket_arm-is_candidate = refl

bracket_arm-IsSound : IsSound analysed (λ c. c ≡ peeked) arms_analysis sees bracket_arm
bracket_arm-IsSound = record {
  leaves = λ c c' r p h t.
      let ran = ap (execute_rule analysed bracket_arm execution_normal) (sym p) ∙ h in
      let same = sym bracket_arm-runs.0 ∙ ran in
      let won = bracket_arm-runs.1 in absurd (ground arith);
  left_out =
      λ c p k. let wrong : true ≡ false = sym bracket_arm-is_candidate ∙ k in absurd (ground arith);
}

execute_choice_loop-fallback_example :
    execute_choice_loop analysed (name_arm ∷ bracket_arm ∷ []) closed
    ≡ execute_choice_fallback_loop analysed (name_arm ∷ bracket_arm ∷ []) peeked
execute_choice_loop-fallback_example =
    execute_choice_loop-fallback analysed (λ c. c ≡ peeked) arms_analysis
      (name_arm ∷ bracket_arm ∷ []) closed refl (name_arm-IsSound, (bracket_arm-IsSound, tt)) refl
