-- ===== src/Rules/Tests/Loops.antt =====
-- The loops of the token list and of repetitions.
use syntaxa.Stream.{peek}
use syntaxa.Engine.Execute.Failure.{Within-nested}
use syntaxa.Rules.Terminals.Advancing.{expect-IsAdvancing}
use syntaxa.Rules.Repeats.{Repeated}
use syntaxa.Rules.Repeats.Ends.{run_repetition_loop-ends}
use syntaxa.Rules.Work.{IsDisciplined-IsContained}
use syntaxa.Lst.Structure.{attach_child}
use syntaxa.Engine.Recover.{perform_recovery}
use syntaxa.Lst.Pool.{truncate_created, new_node}
use syntaxa.Lst.Heap.{add_token}
use syntaxa.Stream.{get_last_consumed_lexeme, restore, consume, peek, save}
use syntaxa.Prelude.{◌≡◌, ◌↔◌, refl, true, none, some, List, [], ◌∷◌, arith, Outcome}
use syntaxa.Tokens.{TokenKind}
use syntaxa.Recovery.{
  is_active_consume_recovery_token, pop_recovery, is_recovery_token, push_recovery,
}
use syntaxa.Errors.{
  rollback_frame, current_best_position, current_frame_would_be_empty_on_pop, report, pop_frame,
  push_frame, commit_frame, syntax_errors_create, new_frame,
}
use syntaxa.Engine.{with_recovery_barrier, Context, RuleResult, execution_normal, ParserRule}
use syntaxa.Engine.Execute.{execute_rule}
use syntaxa.Rules.{
  sequence_commitment_failure_kind, build_success_rule_result, create_rule_identity,
  format_tokens_as_list, expected_label_from_rule,
}
use syntaxa.Rules.Terminals.{
  expect_core, ListSpec, Looped, trailing_forbidden, list_loop, run_list_automaton,
}
use syntaxa.Rules.Terminals.Ends.{run_list_automaton-ends}
use syntaxa.Rules.Terminals.Accepts.{IsTail, Shows, kinds_ahead, IsDistinct}
use syntaxa.Rules.Terminals.Accepts.Loop.{list_loop-IsTail}
use syntaxa.Rules.Wrappers.{optional}
use syntaxa.Rules.Repeats.{run_repetition_loop}
use syntaxa.Rules.Repeats.Ends.{run_repetition_loop-stuck}
use syntaxa.Rules.Sequences.{sequence}
use syntaxa.Rules.Built.Frames.{built_rule-IsDisciplined}
use syntaxa.Rules.Tests.{
  peeked, core, lexeme, context_of, pair, behind_name, built, name_rule, parser, outcome_of,
  name_rule-IsBuilt,
}

-- Behind a first name: a comma, a name and the bracket.
abbrev names : ListSpec
names = record { element = 3; separator = 4; end = 5; element_kind = 8; mode = trailing_forbidden }

run_list_automaton-ends_example :
    (m : Outcome (RuleResult × Context)) × (run_list_automaton core "names" 0 names 4 pair ≡ some m)
    × (run_list_automaton core "names" 0 names 9 pair ≡ some m)
run_list_automaton-ends_example = run_list_automaton-ends core "names" 0 names 9 pair (omega arith)

names-IsDistinct : IsDistinct names 0
names-IsDistinct = record {
  separator_end = λ e. absurd (omega arith);
  element_end = λ e. absurd (omega arith);
  element_separator = λ e. absurd (omega arith);
  element_eof = λ e. absurd (omega arith);
  separator_eof = λ e. absurd (omega arith);
}

abbrev looped_of : Looped → RuleResult × Context
looped_of none = (build_success_rule_result none, pair)
looped_of (some m) = outcome_of m

abbrev tail_done : RuleResult × Context
tail_done = looped_of (list_loop core "names" 0 names 3 behind_name)

list_loop-IsTail_example :
    (tail_done.0.succeeded ≡ true)
    ↔ ((ts : List TokenKind) × IsTail names ts × Shows (kinds_ahead behind_name.stream) ts)
unfolding add_token attach_child consume list_loop new_node peek
list_loop-IsTail_example =
    list_loop-IsTail core "names" 0 names 3 behind_name tail_done.1 tail_done.0 names-IsDistinct
      (λ e. absurd (ground arith)) refl

-- An optional name before a bracket succeeds, and so it does again.
abbrev optional_name : ParserRule
optional_name = built (optional parser name_rule none)

run_repetition_loop-stuck_example : run_repetition_loop parser optional_name 0 50 0 peeked ≡ none
unfolding add_token commit_frame consume create_rule_identity current_best_position
    current_frame_would_be_empty_on_pop execute_rule expect_core expected_label_from_rule
    format_tokens_as_list get_last_consumed_lexeme is_active_consume_recovery_token
    is_recovery_token new_node optional peek perform_recovery pop_frame pop_recovery push_frame
    push_recovery report restore rollback_frame save sequence sequence_commitment_failure_kind
    truncate_created with_recovery_barrier
run_repetition_loop-stuck_example =
    run_repetition_loop-stuck parser optional_name 0 peeked (build_success_rule_result none) refl
      refl refl 50 0

-- A name is repeated over two names and a bracket.
abbrev two_names : Context
two_names = context_of (lexeme 3 0 ∷ lexeme 3 1 ∷ lexeme 5 2 ∷ [])

run_repetition_loop-ends_example :
    (m : Outcome Repeated) × (run_repetition_loop parser name_rule 0 4 0 two_names ≡ some m)
    × (run_repetition_loop parser name_rule 0 20 0 two_names ≡ some m)
unfolding expect_core create_rule_identity format_tokens_as_list
run_repetition_loop-ends_example =
    run_repetition_loop-ends parser name_rule 0 two_names
      (IsDisciplined-IsContained (execute_rule parser name_rule execution_normal) (
        built_rule-IsDisciplined parser (λ hook h. cc h) name_rule execution_normal
          name_rule-IsBuilt))
      (expect-IsAdvancing parser name_rule two_names 7 true (3 ∷ []) refl refl refl) 20 0 two_names
      (Within-nested two_names (new_frame syntax_errors_create) [] refl) (omega arith) (omega arith)
