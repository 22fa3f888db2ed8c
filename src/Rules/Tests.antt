-- ===== src/Rules/Tests.antt =====
-- Rules over the tokens 3 (a name), 4 (a comma), 5 (a closing bracket) and 6 (an opening bracket), on a
-- context with an error frame; 0 is the end.
mod Loops
mod Arms
use mathlib.Core.Path.{subst}
use text.Mathlib.Text.{◌==◌ as str_eq}
use syntaxa.Prelude.{String, ◌||◌, ap, sym, ◌∙◌}
use syntaxa.Stream.{peek}
use syntaxa.Dispatch.{Arm, GrammarAnalysis, is_candidate}
use syntaxa.Engine.{failure_no_match}
use syntaxa.Engine.Execute.{is_error}
use syntaxa.Engine.Execute.Failure.{Within-nested}
use syntaxa.Rules.{build_failure_rule_result}
use syntaxa.Rules.Terminals.Advancing.{expect-IsAdvancing}
use syntaxa.Rules.Repeats.{Repeated}
use syntaxa.Rules.Repeats.Ends.{run_repetition_loop-ends}
use syntaxa.Rules.Choices.{execute_choice_loop, execute_choice_fallback_loop}
use syntaxa.Rules.Choices.Equivalence.{IsSound, execute_choice_loop-fallback}
use syntaxa.Rules.Work.{IsDisciplined-IsContained}
use syntaxa.Lst.Structure.{attach_child}
use syntaxa.Engine.Recover.{perform_recovery}
use syntaxa.Lst.Pool.{truncate_created, new_node}
use syntaxa.Lst.Heap.{add_token}
use syntaxa.Stream.{get_last_consumed_lexeme, restore, consume, peek, save}
use syntaxa.Prelude.{
  ℕ, ◌+◌, ◌≡◌, ◌↔◌, refl, true, false, Option, none, some, List, [], ◌∷◌, arith, Outcome, ok, panic,
  Panic, ◌==◌, if◌then◌else◌,
}
use syntaxa.Tokens.{TokenKind, Lexeme}
use syntaxa.Recovery.{
  is_active_consume_recovery_token, pop_recovery, is_recovery_token, push_recovery,
  recovery_core_create,
}
use syntaxa.Errors.{
  rollback_frame, current_best_position, current_frame_would_be_empty_on_pop, report, pop_frame,
  push_frame, commit_frame, syntax_errors_create, new_frame,
}
use syntaxa.Engine.{
  with_recovery_barrier, Context, RuleResult, execution_normal, execution_probe, ParserRule,
  SyntaxaParser,
}
use syntaxa.Engine.Execute.{execute_rule}
use syntaxa.Engine.Execute.Discipline.{Within, Restored, body_context}
use syntaxa.Engine.Parse.{editor_create}
use syntaxa.Rules.{
  sequence_commitment_failure_kind, SharedCore, build_success_rule_result, construct_rule,
  create_contract, create_rule_identity, format_tokens_as_list, expected_label_from_rule,
}
use syntaxa.Rules.{peek_token}
use syntaxa.Rules.Terminals.{
  expect_core, ListSpec, Looped, trailing_forbidden, list_loop, run_list_automaton,
}
use syntaxa.Rules.Terminals.Ends.{run_list_automaton-ends}
use syntaxa.Rules.Terminals.Accepts.{IsTail, Shows, kinds_ahead, IsDistinct}
use syntaxa.Rules.Terminals.Accepts.Loop.{list_loop-IsTail}
use syntaxa.Rules.Wrappers.{optional}
use syntaxa.Rules.Repeats.{run_repetition_loop}
use syntaxa.Rules.Repeats.Ends.{run_repetition_loop-stuck}
use syntaxa.Rules.Sequences.{sequence}
use syntaxa.Rules.Built.{IsBuilt, AreBuilt}
use syntaxa.Rules.Built.Frames.{built_rule-IsDisciplined, built_rule-restores}

abbrev core : SharedCore
core = record {
  token_formatter = λ t. if t == 3 then "name" else "mark";
  plain_format = λ t. "token";
  syntax_format = λ t. "token";
}

abbrev lexeme : (token at : ℕ) → Lexeme
lexeme token at = record { token = token; role = 2; start = at; end = at + 1; token_number = at }

abbrev context_of : List Lexeme → Context
context_of lexemes = record {
  stream = record {
    lexemes = lexemes;
    cursor = 0;
    eof_token = 0;
    skip_stack = [];
    next_visible_raw_index = 0;
    next_visible_cached = false;
  };
  recovery = recovery_core_create 0;
  errors = record syntax_errors_create { stack = new_frame syntax_errors_create ∷ [] };
  editor = editor_create 4 none (λ p. 4);
}

abbrev pair : Context
pair = context_of (lexeme 3 0 ∷ lexeme 4 1 ∷ lexeme 5 2 ∷ [])

abbrev closed : Context
closed = context_of (lexeme 5 0 ∷ [])

abbrev behind_name : Context
behind_name = context_of (lexeme 4 0 ∷ lexeme 3 1 ∷ lexeme 5 2 ∷ [])

-- A rule without a body, for a builder that panics.
abbrev no_rule : ParserRule
no_rule =
    construct_rule (record { rule_name = ""; grammar_label = ""; expected_label = "" })
      (create_contract false false) (λ c. panic Panic.empty_expected_label) [] [] none none

abbrev built : Outcome ParserRule → ParserRule
built (ok rule) = rule
built (panic p) = no_rule

abbrev name_rule : ParserRule
name_rule = built (expect_core core "Expect" "Name" 7 true (3 ∷ []) none)

abbrev comma_rule : ParserRule
comma_rule = built (expect_core core "ExpectVirtual" "Comma" 0 false (4 ∷ []) none)

abbrev parser : SyntaxaParser
parser = record {
  registry = λ l. none;
  program_rule = no_rule;
  post_processor = none;
  default_skip_roles = [];
  eof_token = 0;
  error_node_kind = 6;
  freeze_after_parse = false;
  analysis = none;
}

-- A name, a comma and a name.
abbrev names_rule : ParserRule
names_rule = built (sequence parser "Names" 9 (name_rule ∷ comma_rule ∷ name_rule ∷ []) none)

name_rule-IsBuilt : IsBuilt parser name_rule
unfolding expect_core create_rule_identity format_tokens_as_list
name_rule-IsBuilt = IsBuilt.expect core "Expect" "Name" 7 true (3 ∷ []) none name_rule refl

names_rule-IsBuilt : IsBuilt parser names_rule
unfolding expect_core create_rule_identity format_tokens_as_list sequence expected_label_from_rule
names_rule-IsBuilt =
    IsBuilt.in_sequence "Names" 9 (name_rule ∷ comma_rule ∷ name_rule ∷ []) none names_rule
      (AreBuilt.also name_rule _ name_rule-IsBuilt (
        AreBuilt.also comma_rule _
          (IsBuilt.expect core "ExpectVirtual" "Comma" 0 false (4 ∷ []) none comma_rule refl)
          (AreBuilt.also name_rule _ name_rule-IsBuilt AreBuilt.nothing)))
      refl

abbrev outcome_of : Outcome (RuleResult × Context) → RuleResult × Context
outcome_of (ok done) = done
outcome_of (panic p) = (build_success_rule_result none, pair)

-- The names rule fails behind the comma; its recovery finds nothing to land at and goes back.
abbrev names_done : RuleResult × Context
names_done = outcome_of (execute_rule parser names_rule execution_normal pair)

names_done_fails : (names_done.0.succeeded ≡ false) × (names_done.1.stream.cursor ≡ 0)
unfolding add_token commit_frame consume create_rule_identity current_best_position
    current_frame_would_be_empty_on_pop execute_rule expect_core expected_label_from_rule
    format_tokens_as_list get_last_consumed_lexeme is_active_consume_recovery_token
    is_recovery_token new_node peek perform_recovery pop_frame pop_recovery push_frame push_recovery
    report restore rollback_frame save sequence sequence_commitment_failure_kind truncate_created
    with_recovery_barrier
names_done_fails = (refl, refl)

built_rule-IsDisciplined_example : Within pair names_done.1
unfolding add_token commit_frame consume create_rule_identity current_best_position
    current_frame_would_be_empty_on_pop execute_rule expect_core expected_label_from_rule
    format_tokens_as_list get_last_consumed_lexeme is_active_consume_recovery_token
    is_recovery_token new_node peek perform_recovery pop_frame pop_recovery push_frame push_recovery
    report restore rollback_frame save sequence sequence_commitment_failure_kind truncate_created
    with_recovery_barrier
built_rule-IsDisciplined_example =
    built_rule-IsDisciplined parser (λ hook h. cc h) names_rule execution_normal names_rule-IsBuilt
      pair names_done.1 names_done.0 (new_frame syntax_errors_create) [] refl refl

-- In a probe, the rule fails at the bracket and leaves nothing.
abbrev failed_body : RuleResult × Context
failed_body =
    outcome_of (name_rule.execution_fn (body_context parser name_rule execution_probe closed))

built_rule-restores_example :
    (c' : Context) × (execute_rule parser name_rule execution_probe closed ≡ ok (failed_body.0, c'))
    × Restored closed c'
unfolding add_token commit_frame consume create_rule_identity current_best_position
    current_frame_would_be_empty_on_pop execute_rule expect_core expected_label_from_rule
    format_tokens_as_list get_last_consumed_lexeme is_active_consume_recovery_token
    is_recovery_token new_node peek perform_recovery pop_frame pop_recovery push_frame push_recovery
    report restore rollback_frame save sequence sequence_commitment_failure_kind truncate_created
    with_recovery_barrier
built_rule-restores_example =
    built_rule-restores parser (λ hook h. cc h) name_rule execution_probe closed failed_body.0
      failed_body.1 name_rule-IsBuilt refl refl refl refl

-- The bracket, seen.
abbrev peeked : Context
peeked = (peek_token closed).1
