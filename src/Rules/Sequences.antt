-- ===== src/Rules/Sequences.antt =====
-- rule/factory.go: rules over several others in a row. The buffer of results that a sequence borrows from
-- its context is the list of results here.
pub mod Contained
use syntaxa.Prelude.{
  ℕ, Bool, true, false, not, ◌&&◌, Option, none, some, List, [], ◌∷◌, String, if◌then◌else◌, any,
  Outcome, ok, ◌>>=◌,
}
use syntaxa.Tokens.{TokenKind, Lexeme}
use syntaxa.Stream.{peek_raw}
use syntaxa.Dispatch.{Arm}
use syntaxa.Errors.{has_committed_error_since_entry_rule_scope}
use syntaxa.Lst.Heap.{Pointer, NodeKind}
use syntaxa.Engine.{
  Context, FailureKind, failure_error, RuleResult, execution_normal, Executor, RuleIdentity,
  ParserRule, with_recovery_barrier, SyntaxaParser,
}
use syntaxa.Engine.Execute.{is_error, execute_rule}
use syntaxa.Engine.Parse.{is_no_match}
use syntaxa.Rules.{
  SharedCore, zero_kind, first_label, create_rule_name, create_rule_identity,
  expected_label_from_rule, build_success_rule_result, build_failure_rule_result,
  build_fragment_rule_result, create_contract, construct_rule, peek_token, create_node,
  create_transient_node, attach_result_in, attach_results_to_node, report_expected_error,
  sequence_commitment_failure_kind, try_follow_set_insertion,
}

-- How the loop over the rules ends.
pub data Sequenced : Type 0 where
  completed : List RuleResult → Sequenced
  aborted : RuleResult → Sequenced

abbrev prepend : RuleResult → Sequenced × Context → Sequenced × Context
prepend r (completed rs, c) = (completed (r ∷ rs), c)
prepend r (aborted a, c) = (aborted a, c)

abbrev pub list_core_must_consume : List ParserRule → Bool
list_core_must_consume rules = any (λ (r : ParserRule). r.contract.must_consume) rules

-- The label of the first rule; the source panics where there is none.
abbrev pub first_expected : List ParserRule → String → String
first_expected [] other = other
first_expected (rule ∷ rules) other = expected_label_from_rule rule

module _ (parser : SyntaxaParser) (identity : RuleIdentity) where
  -- The loop goes on with `next` behind a result.
  go_on :
      (Context → Outcome (Sequenced × Context))
      → RuleResult
      → Context
      → Outcome (Sequenced × Context)
  go_on next result c = do done ← next c; ok (prepend result done)

  after_insertion :
      ParserRule
      → FailureKind
      → Lexeme
      → (Context → Outcome (Sequenced × Context))
      → Option RuleResult × Context
      → Outcome (Sequenced × Context)
  unfolding go_on report_expected_error
  after_insertion rule kind peeked next (some fake, c) = go_on next fake c
  after_insertion rule kind peeked next (none, c) = ok (
    aborted (build_failure_rule_result none kind),
    report_expected_error identity.rule_name rule.identity.expected_label peeked c,
  )

  -- A rule of the sequence has failed.
  element_failed :
      ParserRule
      → (start : ℕ) → (Context → Outcome (Sequenced × Context))
      → RuleResult
      → Context
      → Outcome (Sequenced × Context)
  unfolding after_insertion try_follow_set_insertion
  element_failed rule start next result c =
      let kind = sequence_commitment_failure_kind start (peek_raw c.stream 0).start result.kind in
      if is_error kind && is_no_match result.kind
      then (let (peeked, c1) = peek_token c in
          try_follow_set_insertion parser rule identity peeked c1
          >>= after_insertion rule kind peeked next)
      else ok (aborted (build_failure_rule_result none kind), c)

  element_done :
      ParserRule
      → (start : ℕ) → (Context → Outcome (Sequenced × Context))
      → RuleResult × Context
      → Outcome (Sequenced × Context)
  unfolding element_failed go_on
  element_done rule start next (result, c) =
      if result.succeeded then go_on next result c else element_failed rule start next result c

  unfoldable pub run_sequence :
      List ParserRule → (start : ℕ) → Context → Outcome (Sequenced × Context)
  unfolding element_done
  run_sequence [] start c = ok (completed [], c)
  run_sequence (rule ∷ rules) start c =
      execute_rule parser rule execution_normal c
      >>= element_done rule start (run_sequence rules start)

  -- What `listCore` makes of the results.
  structured : NodeKind → Sequenced × Context → Outcome (RuleResult × Context)
  structured kind (aborted result, c) = ok (result, c)
  structured kind (completed results, c) = do
    (node, c1) ← create_node kind c
    c2 ← attach_results_to_node node results c1
    ok (build_success_rule_result (some node), c2)

  unfoldable pub list_core_exec : NodeKind → List ParserRule → Executor
  unfolding run_sequence structured
  list_core_exec kind rules c = run_sequence rules (peek_raw c.stream 0).start c >>= structured kind

  -- What `TransparentSequence` makes of them.
  transparent : Sequenced × Context → Outcome (RuleResult × Context)
  transparent (aborted result, c) = ok (result, c)
  transparent (completed results, c) = do
    (node, c1) ← create_transient_node zero_kind c
    c2 ← attach_results_to_node node results c1
    ok (build_fragment_rule_result node, c2)

  unfoldable pub transparent_sequence_exec : List ParserRule → Executor
  unfolding run_sequence transparent
  transparent_sequence_exec rules c =
      run_sequence rules (peek_raw c.stream 0).start c >>= transparent

  unfoldable pub list_core : NodeKind → List TokenKind → List ParserRule → Option Arm → ParserRule
  unfolding list_core_exec
  list_core kind recovery rules grammar = with_recovery_barrier (
      construct_rule identity (create_contract (list_core_must_consume rules) true)
        (list_core_exec kind rules) recovery [] none grammar)

  -- `finalizeWrapSuccess`
  finalize_wrap_success : NodeKind → RuleResult → Context → Outcome (RuleResult × Context)
  finalize_wrap_success kind result c = do
    (node, c1) ← create_node kind c
    c2 ← attach_result_in node result c1
    ok (build_success_rule_result (some node), c2)

  wrap_inserted :
      NodeKind
      → ParserRule
      → FailureKind
      → Lexeme
      → Option RuleResult × Context
      → Outcome (RuleResult × Context)
  unfolding finalize_wrap_success report_expected_error
  wrap_inserted kind rule failure peeked (some fake, c) = finalize_wrap_success kind fake c
  wrap_inserted kind rule failure peeked (none, c) = ok (
    build_failure_rule_result none failure,
    report_expected_error identity.rule_name rule.identity.expected_label peeked c,
  )

  unfoldable pub handle_wrap_failure :
      NodeKind → ParserRule → (start : ℕ) → RuleResult → Context → Outcome (RuleResult × Context)
  unfolding wrap_inserted try_follow_set_insertion
  handle_wrap_failure kind rule start result c =
      let failure =
        sequence_commitment_failure_kind start (peek_raw c.stream 0).start result.kind in
      if not (is_error failure && is_no_match result.kind)
      then ok (build_failure_rule_result none failure, c)
      else (let (peeked, c1) = peek_token c in
          try_follow_set_insertion parser rule identity peeked c1
          >>= wrap_inserted kind rule failure peeked)

  wrapped :
      NodeKind → ParserRule → (start : ℕ) → RuleResult × Context → Outcome (RuleResult × Context)
  unfolding finalize_wrap_success handle_wrap_failure
  wrapped kind rule start (result, c) =
      if result.succeeded
      then finalize_wrap_success kind result c
      else handle_wrap_failure kind rule start result c

  unfoldable pub wrap_core_exec : NodeKind → ParserRule → Executor
  unfolding wrapped
  wrap_core_exec kind rule c =
      execute_rule parser rule execution_normal c >>= wrapped kind rule (peek_raw c.stream 0).start

  unfoldable pub wrap_core : NodeKind → ParserRule → Option Arm → ParserRule
  unfolding wrap_core_exec
  wrap_core kind rule grammar = with_recovery_barrier (
      construct_rule identity (create_contract rule.contract.must_consume true)
        (wrap_core_exec kind rule) [] [] none grammar)

  unfoldable pub handle_root_failure : Pointer → RuleResult → Bool → RuleResult
  handle_root_failure node result committed = record {
    node = some node;
    succeeded = false;
    kind = if committed && is_no_match result.kind then failure_error else result.kind;
    is_fragment = false;
    consume_sync_token = result.consume_sync_token;
  }

  -- The report of `Root` on a rule that has failed behind others.
  root_report : ParserRule → RuleResult → Bool → Context → Context
  unfolding report_expected_error
  root_report rule result committed c =
      if (committed && is_no_match result.kind)
        && not (has_committed_error_since_entry_rule_scope c.errors)
      then (let (peeked, c') = peek_token c in
          report_expected_error identity.rule_name rule.identity.expected_label peeked c')
      else c

  root_done :
      Pointer
      → ParserRule
      → Bool
      → (Context → Outcome (RuleResult × Context))
      → RuleResult × Context
      → Outcome (RuleResult × Context)
  unfolding root_report handle_root_failure
  root_done node rule committed next (result, c) =
      if result.succeeded
      then attach_result_in node result c >>= next
      else ok (handle_root_failure node result committed, root_report rule result committed c)

  unfoldable pub run_root : Pointer → List ParserRule → Bool → Executor
  unfolding root_done
  run_root node [] committed c = ok (build_success_rule_result (some node), c)
  run_root node (rule ∷ rules) committed c =
      execute_rule parser rule execution_normal c
      >>= root_done node rule committed (run_root node rules true)

  unfoldable pub root_exec : NodeKind → List ParserRule → Executor
  unfolding run_root
  root_exec kind rules c = do (node, c1) ← create_node kind c; run_root node rules false c1

module _ (parser : SyntaxaParser) where
  unfoldable pub root : String → NodeKind → Bool → List ParserRule → Option Arm → Outcome ParserRule
  unfolding root_exec
  root label kind must_consume rules grammar = do
    identity ←
        create_rule_identity (create_rule_name "Root" label) label (first_expected rules label)
    ok (
        construct_rule identity (create_contract must_consume true)
          (root_exec parser identity kind rules) [] [] none grammar)

  unfoldable pub sequence : String → NodeKind → List ParserRule → Option Arm → Outcome ParserRule
  unfolding list_core
  sequence label kind rules grammar = do
    identity ←
        create_rule_identity (create_rule_name "Sequence" label) label (first_expected rules "")
    ok (list_core parser identity kind [] rules grammar)

  unfoldable pub transparent_sequence : String → List ParserRule → Option Arm → Outcome ParserRule
  unfolding transparent_sequence_exec
  transparent_sequence label rules grammar = do
    identity ←
        create_rule_identity (create_rule_name "TransparentSequence" label) label
          (first_expected rules "")
    ok (
        construct_rule identity (create_contract (list_core_must_consume rules) false)
          (transparent_sequence_exec parser identity rules) [] [] none grammar)

  unfoldable pub block :
      SharedCore → String → NodeKind → TokenKind → List ParserRule → Option Arm → Outcome ParserRule
  unfolding list_core
  block core label kind end rules grammar = do
    identity ←
        create_rule_identity (create_rule_name "Block" label) label
          (first_label (first_label (first_expected rules "") (core.token_formatter end)) label)
    ok (list_core parser identity kind (end ∷ []) rules grammar)

  unfoldable pub wrap : String → NodeKind → ParserRule → Option Arm → Outcome ParserRule
  unfolding wrap_core
  wrap label kind rule grammar = do
    identity ←
        create_rule_identity (create_rule_name "Wrap" label) label (expected_label_from_rule rule)
    ok (wrap_core parser identity kind rule grammar)
