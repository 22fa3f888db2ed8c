-- ===== src/Engine/Execute.antt =====
-- parser.go: the envelope in which the engine runs a rule. Deferred calls are made where the function
-- returns, the last deferred first.
pub mod Discipline
pub mod Contracts
pub mod Steps
pub mod Failure
pub mod Closure
pub mod Results
use text.Mathlib.Text.{◌==◌ as str_eq}
use syntaxa.Prelude.{
  ℕ, ◌+◌, ◌-◌, Bool, true, false, not, ◌&&◌, ◌||◌, Option, none, some, List, [], ◌∷◌, String,
  length, take, drop, ◌==◌, if◌then◌else◌, Outcome, ok, panic, Panic, ◌>>=◌,
}
use syntaxa.Tokens.{TokenKind, Lexeme}
use syntaxa.Stream.{TokenStream, ParserSnapshot, save, restore, peek, peek_raw, consume_raw}
use syntaxa.Recovery.{
  RecoveryCore, push_recovery, pop_recovery, is_recovery_token, recovery_token_ownership,
}
use syntaxa.Errors.{
  SyntaxErrors, Message, unexpected_expected, push_frame, pop_frame,
  current_frame_would_be_empty_on_pop, current_best_position, begin_entry_rule_scope,
  end_entry_rule_scope, is_some,
}
use syntaxa.Lst.Heap.{Pointer, Node, Editor, write}
use syntaxa.Lst.Pool.{new_node, truncate_created}
use syntaxa.Engine.{
  Context, FailureKind, unset, failure_error, failure_no_match, RuleResult, RuleExecutionMode,
  execution_normal, execution_probe, RuleIdentity, RuleContract, ParserRule, Registry,
  SyntaxaParser,
}
use syntaxa.Engine.Reports.{replace_best_error_at}
use syntaxa.Engine.Recover.{Landed, perform_recovery}

abbrev pub is_normal : RuleExecutionMode → Bool
is_normal execution_normal = true
is_normal execution_probe = false

abbrev pub is_error : FailureKind → Bool
is_error failure_error = true
is_error unset = false
is_error failure_no_match = false

abbrev pub is_program_rule : SyntaxaParser → ParserRule → Bool
is_program_rule parser rule =
    str_eq rule.identity.grammar_label parser.program_rule.identity.grammar_label

abbrev pub pop_error_frame : Bool → Context → Outcome Context
pop_error_frame commit c = do errors ← pop_frame c.errors commit; ok (record c { errors = errors })

abbrev pub push_error_frame : Context → Context
push_error_frame c = record c { errors = push_frame c.errors }

abbrev pub restore_stream : ParserSnapshot → Context → Context
restore_stream snap c = record c { stream = restore snap c.stream }

abbrev best_is_at : Option ℕ → ℕ → Bool
best_is_at none i = false
best_is_at (some p) i = p == i

-- The lexeme that a failure is reported at: where the cursor moved, the one that is now next.
failure_lexeme : ParserSnapshot → Lexeme → Context → Lexeme × Context
failure_lexeme snap pre c =
    if c.stream.cursor == snap.token_index
    then (pre, c)
    else let (l, ts) = peek c.stream 0 in (l, record c { stream = ts })

unfoldable pub report_failure : ParserRule → ParserSnapshot → Lexeme → Context → Context
unfolding failure_lexeme replace_best_error_at
report_failure rule snap pre c =
    let (l, c') = failure_lexeme snap pre c in
    replace_best_error_at rule.identity.rule_name l
      (unexpected_expected l.token rule.identity.expected_label) c'

-- The report of `handleFailureState`, with the conditions under which it is made.
unfoldable pub report_before_recovery :
    SyntaxaParser → ParserRule → ParserSnapshot → Lexeme → Context → Context
unfolding report_failure
report_before_recovery parser rule snap pre c =
    if not (is_program_rule parser rule)
      && (not (is_recovery_token c.recovery pre.token)
          && (current_frame_would_be_empty_on_pop c.errors
              || best_is_at (current_best_position c.errors) snap.token_index))
    then report_failure rule snap pre c
    else c

-- The error node of a recovery barrier that recovered on a sync token of its own.
error_node_result :
    SyntaxaParser → ParserRule → Bool → RuleResult → Context → Outcome (RuleResult × Context)
error_node_result parser rule ours result c =
    if ours && rule.is_recovery_barrier
    then (do
      (p, editor) ← new_node parser.error_node_kind c.editor
      ok (record result { succeeded = true; node = some p }, record c { editor = editor }))
    else ok (result, c)

-- What follows a recovery: the landing token is consumed unless its innermost owner protects it.
unfoldable pub after_recovery :
    SyntaxaParser
    → ParserRule
    → ParserSnapshot
    → RuleResult
    → Option Bool
    → Context
    → Outcome (RuleResult × Context)
unfolding error_node_result
after_recovery parser rule snap result none c =
    if result.succeeded then ok (result, c) else ok (result, restore_stream snap c)
after_recovery parser rule snap result (some ours) c =
    let no_consume = (recovery_token_ownership c.recovery (peek_raw c.stream 0).token).1 in
    let stream = if no_consume then c.stream else (consume_raw c.stream).1 in
    error_node_result parser rule ours (record result { consume_sync_token = not no_consume })
      (record c { stream = stream })

unfoldable pub recover :
    SyntaxaParser
    → ParserRule
    → RuleResult
    → ParserSnapshot
    → Lexeme
    → Context
    → Outcome (RuleResult × Context)
unfolding report_before_recovery after_recovery
recover parser rule result snap pre c = do
  c1 ← pop_error_frame true (report_before_recovery parser rule snap pre c)
  let landed = perform_recovery parser.eof_token c1.recovery rule c1.stream
  c2 ← pop_error_frame false (record (push_error_frame c1) { stream = landed.1 })
  after_recovery parser rule snap result landed.0 c2

unfoldable pub handle_failure_state :
    SyntaxaParser
    → ParserRule
    → RuleResult
    → ParserSnapshot
    → RuleExecutionMode
    → Lexeme
    → Context
    → Outcome (RuleResult × Context)
unfolding recover
handle_failure_state parser rule result snap mode pre c =
    if not (is_normal mode) || not (is_error result.kind)
    then (do c' ← pop_error_frame false (restore_stream snap c); ok (result, c'))
    else if not result.consume_sync_token && not (c.stream.cursor == snap.token_index)
    then (do c' ← pop_error_frame true c; ok (result, c'))
    else recover parser rule result snap pre c

contract_of : Option ParserRule → RuleContract → RuleContract
contract_of none own = own
contract_of (some target) own = target.contract

contract_at : Option String → Registry → RuleContract → RuleContract
unfolding contract_of
contract_at none reg own = own
contract_at (some label) reg own = contract_of (reg label) own

-- The contract that holds for a rule: a reference takes over its target's, if that is registered.
unfoldable pub effective_contract : SyntaxaParser → ParserRule → RuleContract
unfolding contract_at
effective_contract parser rule = contract_at rule.reference_target parser.registry rule.contract

unfoldable pub validate_rule_success :
    SyntaxaParser → ParserRule → RuleResult → (start_pos end_pos : ℕ) → Lexeme → Outcome (Unit {0})
unfolding effective_contract
validate_rule_success parser rule result start_pos end_pos pre =
    if end_pos == start_pos
      && ((effective_contract parser rule).must_consume && not (pre.token == parser.eof_token))
    then panic Panic.rule_without_consuming
    else if not (is_some result.node) && (effective_contract parser rule).must_return_node
    then panic Panic.rule_without_node
    else ok tt

-- The loop of `processPostRuleHooks` over the new nodes.
unfoldable pub post_process_nodes :
    (Pointer → RuleIdentity → Editor → Outcome Editor)
    → RuleIdentity
    → List Pointer
    → Editor
    → Outcome Editor
post_process_nodes hook identity [] e = ok e
post_process_nodes hook identity (p ∷ ps) e =
    let run = hook p identity e >>= λ e'.
    post_process_nodes hook identity ps
      (write p (record (e'.heap p) { post_processed = true }) e') in
    let skip = post_process_nodes hook identity ps e in
    if (e.heap p).post_processed then skip else run

post_hooks :
    Option (Pointer → RuleIdentity → Editor → Outcome Editor)
    → RuleIdentity
    → ℕ
    → Editor
    → Outcome Editor
unfolding post_process_nodes
post_hooks none identity start e = ok e
post_hooks (some hook) identity start e = post_process_nodes hook identity (drop start e.created) e

unfoldable pub process_post_rule_hooks : SyntaxaParser → ParserRule → ℕ → Context → Outcome Context
unfolding post_hooks
process_post_rule_hooks parser rule start c = do
  editor ← post_hooks parser.post_processor rule.identity start c.editor
  ok (record c { editor = editor })

-- The part of `syntaxaParserExecuteRule` behind the rule's body.
unfoldable pub finish_rule :
    SyntaxaParser
    → ParserRule
    → RuleExecutionMode
    → ParserSnapshot
    → ℕ
    → Lexeme
    → RuleResult × Context
    → Outcome (RuleResult × Context)
unfolding handle_failure_state validate_rule_success process_post_rule_hooks
finish_rule parser rule mode snap start pre (result, c) =
    if result.succeeded
    then (do
      c1 ← pop_error_frame true c
      _ ← validate_rule_success parser rule result snap.token_index c1.stream.cursor pre
      c2 ← process_post_rule_hooks parser rule start c1
      ok (result, c2))
    else (do
      editor ← truncate_created start c.editor
      handle_failure_state parser rule result snap mode pre (record c { editor = editor }))

-- What is done before the body and undone behind it, in normal mode.
unfoldable pub enter_scopes : SyntaxaParser → ParserRule → RuleExecutionMode → Context → Context
enter_scopes parser rule execution_probe c = c
enter_scopes parser rule execution_normal c = record c {
  recovery =
      push_recovery rule.is_recovery_barrier rule.recovery_tokens rule.no_consume_on_recovery_tokens
        c.recovery;
  errors = if is_program_rule parser rule then begin_entry_rule_scope c.errors else c.errors;
}

unfoldable pub leave_scopes :
    SyntaxaParser → ParserRule → RuleExecutionMode → Context → Outcome Context
leave_scopes parser rule execution_probe c = ok c
leave_scopes parser rule execution_normal c = do
  errors ← (if is_program_rule parser rule then end_entry_rule_scope c.errors else ok c.errors)
  ok (record c { errors = errors; recovery = pop_recovery c.recovery })

unfoldable pub execute_rule :
    SyntaxaParser → ParserRule → RuleExecutionMode → Context → Outcome (RuleResult × Context)
unfolding enter_scopes leave_scopes finish_rule
execute_rule parser rule mode c = do
  let snap = save c.stream
  let start = length c.editor.created
  let (pre, stream) = peek c.stream 0
  let inside = enter_scopes parser rule mode (record c { stream = stream })
  done ← rule.execution_fn (push_error_frame inside)
  (result, c') ← finish_rule parser rule mode snap start pre done
  c'' ← leave_scopes parser rule mode c'
  ok (result, c'')
