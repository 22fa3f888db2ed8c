-- ===== src/Rules/Repeats.antt =====
-- rule/factory.go: repetitions of a rule. The loops take fuel, and `none` stands for fuel that ran out. A
-- minimum is a natural number, so its check for a negative one has no counterpart; a maximum of -1 is
-- `none`.
pub mod Contained
pub mod Ends
use syntaxa.Prelude.{
  ℕ, zero, suc, Bool, true, false, not, ◌&&◌, Option, none, some, [], String, ltb, leb, ◌==◌,
  if◌then◌else◌, Outcome, ok, panic, Panic, ◌>>=◌,
}
use syntaxa.Stream.{peek_raw}
use syntaxa.Dispatch.{Arm}
use syntaxa.Lst.Heap.{Pointer, NodeKind}
use syntaxa.Engine.{
  Context, FailureKind, unset, failure_error, failure_no_match, RuleResult, execution_normal,
  Executor, ParserRule, SyntaxaParser,
}
use syntaxa.Engine.Execute.{execute_rule}
use syntaxa.Engine.Parse.{is_no_match}
use syntaxa.Rules.{
  zero_kind, create_rule_name, create_rule_identity, build_success_rule_result,
  build_failure_rule_result, build_fragment_rule_result, create_contract, construct_rule,
  create_node, create_transient_node, attach_result_in,
}

-- The count, the error result where `hasError` is true, and the context.
abbrev pub Repeated : Type 0
Repeated = ℕ × Option RuleResult × Context

abbrev pub Repeating : Type 0
Repeating = Option (Outcome Repeated)

abbrev pub stop : ℕ → Option RuleResult → Context → Repeating
stop count error c = some (ok (count, error, c))

-- The next round, behind an attached result.
attached : (Context → Repeating) → Outcome Context → Repeating
attached again (panic p) = some (panic p)
attached again (ok c) = again c

abbrev no_progress : ℕ → Context → Bool
no_progress before c = before == (peek_raw c.stream 0).start

module _ (parser : SyntaxaParser) (rule : ParserRule) (container : Pointer) where
  -- A failed round, by its kind; a kind that is not set passes through the switch.
  failed_round :
      (ℕ → Context → Repeating)
      → (before count : ℕ) → FailureKind
      → RuleResult
      → Context
      → Repeating
  failed_round again before count failure_no_match result c = stop count none c
  failed_round again before count unset result c = again count c
  failed_round again before count failure_error result c =
      if not result.consume_sync_token
      then stop count (some result) c
      else if no_progress before c
      then stop count (some result) c
      else again count c

  round :
      (ℕ → Context → Repeating) → (before count : ℕ) → Outcome (RuleResult × Context) → Repeating
  unfolding failed_round attached
  round again before count (panic p) = some (panic p)
  round again before count (ok (result, c)) =
      let failed = failed_round again before count result.kind result c in
      if result.succeeded
      then attached (again (suc count)) (attach_result_in container result c)
      else failed

  unfoldable pub run_repetition_loop : ℕ → (count : ℕ) → Context → Repeating
  unfolding round
  run_repetition_loop zero count c = none
  run_repetition_loop (suc fuel) count c =
      round (run_repetition_loop fuel) (peek_raw c.stream 0).start count
        (execute_rule parser rule execution_normal c)

  -- `handleRepetitionFailure`
  handle_repetition_failure : (before count : ℕ) → RuleResult → Context → Repeated
  handle_repetition_failure before count result c =
      if is_no_match result.kind
      then (count, none, c)
      else if not result.consume_sync_token
      then (count, some result, c)
      else if no_progress before c
      then (count, some result, c)
      else (count, none, c)

  bounded_round :
      (Context → Repeating) → (before count : ℕ) → Outcome (RuleResult × Context) → Repeating
  unfolding handle_repetition_failure attached
  bounded_round again before count (panic p) = some (panic p)
  bounded_round again before count (ok (result, c)) =
      if result.succeeded
      then attached again (attach_result_in container result c)
      else some (ok (handle_repetition_failure before count result c))

  abbrev reached : Option ℕ → ℕ → Bool
  reached none count = false
  reached (some max) count = leb max count

  unfoldable pub run_bounded_repetition_loop : ℕ → Option ℕ → (count : ℕ) → Context → Repeating
  unfolding bounded_round
  run_bounded_repetition_loop zero max count c = none
  run_bounded_repetition_loop (suc fuel) max count c =
      let run =
        bounded_round (run_bounded_repetition_loop fuel max (suc count)) (peek_raw c.stream 0).start
          count (execute_rule parser rule execution_normal c) in
      if reached max count then stop count none c else run

-- What both constructors do behind their loop.
repeat_result : ℕ → (Pointer → RuleResult) → Pointer → Repeating → Outcome (RuleResult × Context)
repeat_result min on_success container none = panic Panic.diverged
repeat_result min on_success container (some (panic p)) = panic p
repeat_result min on_success container (some (ok (count, some error, c))) = ok (error, c)
repeat_result min on_success container (some (ok (count, none, c))) =
    if ltb count min
    then ok (build_failure_rule_result none failure_no_match, c)
    else ok (on_success container, c)

-- A container and what is returned with it, `none` for the transparent rules.
make_container : Option NodeKind → Context → Outcome (Pointer × Context)
make_container none c = create_transient_node zero_kind c
make_container (some kind) c = create_node kind c

repeat_success : Option NodeKind → Pointer → RuleResult
repeat_success none p = build_fragment_rule_result p
repeat_success (some kind) p = build_success_rule_result (some p)

module _ (parser : SyntaxaParser) (fuel : ℕ) where
  unfoldable pub n_or_more_exec : Option NodeKind → ℕ → ParserRule → Executor
  unfolding make_container repeat_success repeat_result run_repetition_loop
  n_or_more_exec kind min rule c = do
    (container, c1) ← make_container kind c
    repeat_result min (repeat_success kind) container
        (run_repetition_loop parser rule container fuel 0 c1)

  unfoldable pub construct_n_or_more_rule :
      String → String → ℕ → ParserRule → Option NodeKind → Option Arm → Outcome ParserRule
  unfolding n_or_more_exec
  construct_n_or_more_rule rule_name label min rule kind grammar = do
    identity ←
        create_rule_identity (create_rule_name rule_name label) label rule.identity.expected_label
    ok (
        construct_rule identity (create_contract (ltb 0 min && rule.contract.must_consume) true)
          (n_or_more_exec kind min rule) rule.recovery_tokens [] none grammar)

  unfoldable pub n_or_more : String → NodeKind → ℕ → ParserRule → Option Arm → Outcome ParserRule
  unfolding construct_n_or_more_rule
  n_or_more label kind min rule grammar =
      construct_n_or_more_rule "NOrMore" label min rule (some kind) grammar

  abbrev pub zero_or_more : String → NodeKind → ParserRule → Option Arm → Outcome ParserRule
  zero_or_more label kind = n_or_more label kind 0

  abbrev pub one_or_more : String → NodeKind → ParserRule → Option Arm → Outcome ParserRule
  one_or_more label kind = n_or_more label kind 1

  unfoldable pub transparent_n_or_more : String → ℕ → ParserRule → Option Arm → Outcome ParserRule
  unfolding construct_n_or_more_rule
  transparent_n_or_more label min rule grammar =
      construct_n_or_more_rule "TransparentNOrMore" label min rule none grammar

  abbrev pub transparent_zero_or_more : String → ParserRule → Option Arm → Outcome ParserRule
  transparent_zero_or_more label = transparent_n_or_more label 0

  -- `validateBounds`
  unfoldable pub validate_bounds : ℕ → Option ℕ → Outcome (Unit {0})
  validate_bounds min none = ok tt
  validate_bounds min (some max) = if ltb max min then panic Panic.max_below_min else ok tt

  unfoldable pub bounded_repeat_exec : Option NodeKind → ℕ → Option ℕ → ParserRule → Executor
  unfolding make_container repeat_success repeat_result run_bounded_repetition_loop
  bounded_repeat_exec kind min max rule c = do
    (container, c1) ← make_container kind c
    repeat_result min (repeat_success kind) container
        (run_bounded_repetition_loop parser rule container fuel max 0 c1)

  unfoldable pub construct_bounded_repeat_rule :
      String
      → String
      → ℕ
      → Option ℕ
      → ParserRule
      → Option NodeKind
      → Option Arm
      → Outcome ParserRule
  unfolding validate_bounds bounded_repeat_exec
  construct_bounded_repeat_rule rule_name label min max rule kind grammar = do
    _ ← validate_bounds min max
    identity ←
        create_rule_identity (create_rule_name rule_name label) label rule.identity.expected_label
    ok (
        construct_rule identity (create_contract (ltb 0 min && rule.contract.must_consume) true)
          (bounded_repeat_exec kind min max rule) rule.recovery_tokens [] none grammar)

  abbrev pub repeat :
      String → NodeKind → ℕ → Option ℕ → ParserRule → Option Arm → Outcome ParserRule
  repeat label kind min max rule grammar =
      construct_bounded_repeat_rule "Repeat" label min max rule (some kind) grammar

  abbrev pub transparent_repeat :
      String → ℕ → Option ℕ → ParserRule → Option Arm → Outcome ParserRule
  transparent_repeat label min max rule grammar =
      construct_bounded_repeat_rule "TransparentRepeat" label min max rule none grammar
