-- ===== src/Engine/Tests.antt =====
-- Runs of the engine on the tokens 3 4 5, then 9 and the end, with a rule that wants token 3 to be
-- followed by nothing but recovers at 5.
use syntaxa.Prelude.{
  ℕ, ◌+◌, ◌≡◌, ◌↔◌, ◌⊎◌, Panic, refl, true, false, none, some, [], ◌∷◌, Outcome, ok, panic, ◌>>=◌,
  >>=-eq-ok, arith,
}
use mathlib.Core.Path.{subst}
use syntaxa.Tokens.{Lexeme}
use syntaxa.Stream.{consume_raw, source_consume, peek, save}
use syntaxa.Recovery.{
  recovery_core_create, push_recovery, is_recovery_token, is_active_consume_recovery_token,
}
use syntaxa.Errors.{
  syntax_errors_create, push_frame, new_frame, pop_frame, current_frame_would_be_empty_on_pop,
  replace_best,
}
use syntaxa.Errors.Frames.{Extends-self}
use syntaxa.Lst.Heap.{ensure_mutable}
use syntaxa.Lst.Pool.{new_node, node_acquire, truncate_created}
use syntaxa.Lst.Pool.Returns.{new_node_ok}
use syntaxa.Engine.{
  is_sync_token, Context, FailureKind, failure_error, failure_no_match, unset, RuleResult,
  execution_normal, execution_probe, ParserRule, SyntaxaParser,
}
use syntaxa.Engine.Recover.{perform_recovery, perform_recovery_discard_phase}
use syntaxa.Engine.Recover.Landing.{Lands, perform_recovery-Lands, perform_recovery-first_phase}
use syntaxa.Engine.Execute.{enter_scopes, execute_rule, validate_rule_success}
use syntaxa.Engine.Execute.Discipline.{Within, Restored, body_context, failure_restores}
use syntaxa.Engine.Execute.Steps.{IsDisciplined, consume_raw-Onward}
use syntaxa.Engine.Execute.Closure.{execute_rule-IsDisciplined}
use syntaxa.Engine.Execute.Contracts.{
  Keeps, HasConsumed, HasReturned, validate_rule_success_lem, execute_rule-Keeps,
}
use syntaxa.Engine.Parse.{Parsed, finish_parse, editor_create}
use syntaxa.Engine.Parse.Accept.{Accepted, finish_parse-accepts}

abbrev lexeme : (token at : ℕ) → Lexeme
lexeme token at = record { token = token; role = 2; start = at; end = at + 1; token_number = at }

abbrev context : Context
context = record {
  stream = record {
    lexemes = lexeme 3 0 ∷ lexeme 4 1 ∷ lexeme 5 2 ∷ lexeme 9 3 ∷ lexeme 0 4 ∷ [];
    cursor = 0;
    eof_token = 0;
    skip_stack = [];
    next_visible_raw_index = 0;
    next_visible_cached = false;
  };
  recovery = recovery_core_create 0;
  errors = record syntax_errors_create { stack = new_frame syntax_errors_create ∷ [] };
  editor = editor_create 2 none (λ p. 2);
}

-- A body that makes a node, consumes a token and ends with a given result.
abbrev body : RuleResult → Context → Outcome (RuleResult × Context)
body result c = do
  (p, e) ← new_node 8 c.editor
  ok (record result { node = some p }, record c { editor = e; stream = (consume_raw c.stream).1 })

abbrev rule_of : RuleResult → ParserRule
rule_of result = record {
  identity = record { rule_name = "item"; grammar_label = "Item"; expected_label = "item" };
  execution_fn = body result;
  contract = record { must_consume = true; must_return_node = true };
  recovery_tokens = 5 ∷ [];
  no_consume_on_recovery_tokens = [];
  reference_target = none;
  grammar = none;
  is_recovery_barrier = true;
}

abbrev result_of : FailureKind → RuleResult
result_of kind = record {
  node = none;
  succeeded = false;
  kind = kind;
  is_fragment = false;
  consume_sync_token = true;
}

abbrev success : RuleResult
success = record (result_of unset) { succeeded = true }

abbrev failing : ParserRule
failing = rule_of (result_of failure_error)

abbrev parser : SyntaxaParser
parser = record {
  registry = λ l. none;
  program_rule = record failing {
    identity = record { rule_name = "program"; grammar_label = "Program"; expected_label = "" };
  };
  post_processor = none;
  default_skip_roles = [];
  eof_token = 0;
  error_node_kind = 6;
  freeze_after_parse = false;
  analysis = none;
}

body-IsDisciplined : (result : RuleResult) → IsDisciplined (body result)
body-IsDisciplined result c c' r f rest h ran =
    let ((p, e), made, done) = >>=-eq-ok (new_node 8 c.editor) _ ran in
    let (created, frozen) = new_node_ok 8 c.editor p e made in
    let there : Within c (record c { editor = e; stream = (consume_raw c.stream).1 }) = record {
      kept = record {
        input = consume_raw-Onward c.stream;
        recovery = refl;
        depth = refl;
        ledger = record { nodes = p ∷ []; created = created; frozen = frozen };
      };
      errors = Extends-self c.errors f rest h;
    } in
    subst (Within c) (ground arith) there

perform_recovery-Lands_example :
    Lands 0
      (push_recovery true (5 ∷ []) [] context.recovery)
      failing
      true
      context.stream
      (perform_recovery 0 (push_recovery true (5 ∷ []) [] context.recovery) failing context.stream)
perform_recovery-Lands_example =
    perform_recovery-Lands 0 (push_recovery true (5 ∷ []) [] context.recovery) failing
      context.stream

-- A token that is only protected is passed by.
perform_recovery-first_phase_example :
    perform_recovery 0 (push_recovery true [] (5 ∷ []) context.recovery) failing context.stream
    ≡ perform_recovery_discard_phase 0
        (push_recovery true [] (5 ∷ []) context.recovery)
        failing
        true
        context.stream
perform_recovery-first_phase_example =
    perform_recovery-first_phase 0 (push_recovery true [] (5 ∷ []) context.recovery) failing
      context.stream

validate_rule_success_example :
    ((validate_rule_success parser failing success 0 1 (lexeme 3 0) ≡ ok tt)
      × Keeps parser failing success 0 1 (lexeme 3 0))
    ⊎ (((validate_rule_success parser failing success 0 1 (lexeme 3 0)
            ≡ panic Panic.rule_without_consuming)
          × (¬ HasConsumed parser failing 0 1 (lexeme 3 0)))
        ⊎ ((validate_rule_success parser failing success 0 1 (lexeme 3 0)
              ≡ panic Panic.rule_without_node)
            × HasConsumed parser failing 0 1 (lexeme 3 0)
            × (¬ HasReturned parser failing success)))
validate_rule_success_example = validate_rule_success_lem parser failing success 0 1 (lexeme 3 0)

abbrev outcome_of : Outcome (RuleResult × Context) → RuleResult × Context
outcome_of (ok r) = r
outcome_of (panic p) = (success, context)

-- A rule that makes a node, consumes a token and then does not match, in a probe.
abbrev unmatched : ParserRule
unmatched = rule_of (result_of failure_no_match)

abbrev probed : RuleResult × Context
probed = outcome_of (unmatched.execution_fn (body_context parser unmatched execution_probe context))

probed-ran :
    unmatched.execution_fn (body_context parser unmatched execution_probe context)
    ≡ ok (probed.0, probed.1)
unfolding new_node ensure_mutable node_acquire consume_raw source_consume peek enter_scopes
probed-ran = refl

failure_restores_example :
    (c' : Context) × (execute_rule parser unmatched execution_probe context ≡ ok (probed.0, c'))
    × Restored context c'
unfolding new_node ensure_mutable node_acquire enter_scopes push_frame
failure_restores_example =
    failure_restores parser unmatched execution_probe context probed.0 probed.1 refl probed-ran
      (body-IsDisciplined (result_of failure_no_match)
        (body_context parser unmatched execution_probe context) probed.1 probed.0
        (new_frame context.errors) context.errors.stack refl probed-ran)
      refl refl

-- A rule that fails with an error recovers at token 5 and leaves an error node.
abbrev recovered : RuleResult × Context
recovered = outcome_of (execute_rule parser failing execution_normal context)

execute_rule-IsDisciplined_example : Within context recovered.1
unfolding execute_rule new_node truncate_created pop_frame is_recovery_token push_recovery peek
    current_frame_would_be_empty_on_pop push_frame replace_best consume_raw save perform_recovery
    is_active_consume_recovery_token is_sync_token
execute_rule-IsDisciplined_example =
    execute_rule-IsDisciplined parser failing execution_normal (λ hook h. cc h)
      (body-IsDisciplined (result_of failure_error)) context recovered.1 recovered.0
      (new_frame syntax_errors_create) [] refl refl

-- A rule that keeps its contract.
abbrev matched : ParserRule
matched = rule_of success

abbrev matched_body : RuleResult × Context
matched_body =
    outcome_of (matched.execution_fn (body_context parser matched execution_normal context))

abbrev matched_end : RuleResult × Context
matched_end = outcome_of (execute_rule parser matched execution_normal context)

execute_rule-Keeps_example :
    (matched_end.0 ≡ matched_body.0)
    × Keeps parser matched matched_body.0 0 matched_body.1.stream.cursor (peek context.stream 0).0
unfolding execute_rule new_node pop_frame push_frame consume_raw peek save
execute_rule-Keeps_example =
    execute_rule-Keeps parser matched execution_normal context matched_body.1 matched_body.0 refl
      refl matched_end refl

-- An end of a parse with tokens left over, which is not accepted.
abbrev closed : Context
closed = record context { errors = syntax_errors_create }

abbrev parsed_of : Outcome (Parsed × Context) → Parsed × Context
parsed_of (ok r) = r
parsed_of (panic p) = (record { node = none; failed = none }, context)

abbrev left_over : Parsed × Context
left_over = parsed_of (finish_parse parser none success closed)

finish_parse-accepts_example : (left_over.0.failed ≡ none) ↔ Accepted parser none success closed
unfolding finish_parse
finish_parse-accepts_example =
    finish_parse-accepts parser none success closed left_over.0 left_over.1 (λ h. refl) refl
