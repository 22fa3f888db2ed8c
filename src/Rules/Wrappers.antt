-- ===== src/Rules/Wrappers.antt =====
-- rule/factory.go: rules around one other rule.
pub mod Contained
use syntaxa.Prelude.{
  ℕ, Bool, true, false, not, Option, none, some, List, [], ◌∷◌, ◌++◌, String, ◌==◌, if◌then◌else◌,
  Outcome, ok, panic, Panic, ◌>>=◌,
}
use syntaxa.Tokens.{TokenKind}
use syntaxa.Stream.{TokenStream, peek, peek_raw}
use syntaxa.Guards.{Lookahead, guard_matches_lookahead}
use syntaxa.Dispatch.{Arm}
use syntaxa.Errors.{is_empty}
use syntaxa.Lst.Heap.{NodeKind}
use syntaxa.Engine.{
  Context, failure_error, failure_no_match, RuleResult, execution_normal, execution_probe, Executor,
  ParserRule, SyntaxaParser,
}
use syntaxa.Engine.Execute.{execute_rule}
use syntaxa.Engine.Parse.{is_no_match, execute_reference}
use syntaxa.Rules.{
  first_label, create_rule_name, create_rule_identity, name_around, build_success_rule_result,
  build_failure_rule_result, create_contract, construct_rule, peek_token, consume_token,
  create_node, add_token_to, attach_child_in, report_after_last, sequence_commitment_failure_kind,
}

-- A predicate of the caller, which peeks on the stream and leaves it with what that caches.
abbrev pub Predicate : Type 0
Predicate = TokenStream → Bool × TokenStream

module _ (parser : SyntaxaParser) where
  optional_result : RuleResult × Context → RuleResult × Context
  optional_result (result, c) =
      if result.succeeded then (result, c) else (build_success_rule_result none, c)

  unfoldable pub optional_exec : ParserRule → Executor
  unfolding optional_result
  optional_exec rule c = do
    done ← execute_rule parser rule execution_probe c
    ok (optional_result done)

  unfoldable pub optional : ParserRule → Option Arm → Outcome ParserRule
  unfolding optional_exec
  optional rule grammar = do
    identity ←
        create_rule_identity (name_around "Optional" rule) rule.identity.grammar_label
          rule.identity.expected_label
    ok (
        construct_rule identity (create_contract false false) (optional_exec rule)
          rule.recovery_tokens [] none grammar)

  unfoldable pub optional_when_exec : ParserRule → Predicate → Executor
  optional_when_exec rule should_start c =
      let (start, ts) = should_start c.stream in
      let c' : Context = record c { stream = ts } in
      if start
      then execute_rule parser rule execution_normal c'
      else ok (build_success_rule_result none, c')

  unfoldable pub optional_when : ParserRule → Predicate → Option Arm → Outcome ParserRule
  unfolding optional_when_exec
  optional_when rule should_start grammar = do
    identity ←
        create_rule_identity (name_around "OptionalWhen" rule) rule.identity.grammar_label
          rule.identity.expected_label
    ok (
        construct_rule identity (create_contract false false) (optional_when_exec rule should_start)
          rule.recovery_tokens [] none grammar)

  unfoldable pub optional_prefix : ParserRule → TokenKind → Option Arm → Outcome ParserRule
  unfolding optional_when
  optional_prefix rule prefix =
      optional_when rule (λ ts. ((peek ts 0).0.token == prefix, (peek ts 0).1))

  -- The predicate of `predictRule`; `none` is a nil predicate.
  unfoldable pub predicate_of : List Lookahead → Option Predicate → Outcome Predicate
  predicate_of [] none = panic Panic.no_predicate
  predicate_of [] (some predicate) = ok predicate
  predicate_of (l ∷ ls) predicate =
      ok (λ ts. (guard_matches_lookahead (λ n. (peek ts n).0) (l ∷ ls), (peek ts 0).1))

  unfoldable pub predict_exec : ParserRule → Predicate → Executor
  predict_exec rule predicate c =
      let (selected, ts) = predicate c.stream in
      let c' : Context = record c { stream = ts } in
      if selected
      then execute_rule parser rule execution_normal c'
      else ok (build_failure_rule_result none failure_no_match, c')

  -- `predictRule` stores the lookaheads in the grammar of the rule that it wraps, if there is one.
  abbrev with_lookaheads : List Lookahead → Option Arm → Option Arm
  with_lookaheads ls none = none
  with_lookaheads ls (some arm) =
      some (record arm { lookaheads = if is_empty ls then arm.lookaheads else ls })

  unfoldable pub predict_rule : ParserRule → List Lookahead → Option Predicate → Outcome ParserRule
  unfolding predicate_of predict_exec
  predict_rule rule lookaheads predicate = do
    identity ←
        create_rule_identity (name_around "Predict" rule) rule.identity.grammar_label
          rule.identity.expected_label
    pred ← predicate_of lookaheads predicate
    ok (
        construct_rule identity rule.contract (predict_exec rule pred) rule.recovery_tokens []
          rule.reference_target (with_lookaheads lookaheads rule.grammar))

  -- What `OptionalSuffix` makes of a success.
  with_suffix : NodeKind → TokenKind → RuleResult → Context → Outcome (RuleResult × Context)
  with_suffix kind suffix result c =
      let (peeked, c1) = peek_token c in
      let (lexeme, c2) = consume_token c1 in
      if not (peeked.token == suffix) then ok (result, c1) else (do
        (wrapper, c3) ← create_node kind c2
        c4 ← add_token_to wrapper lexeme c3
        c5 ← attach_child_in wrapper result.node c4
        ok (build_success_rule_result (some wrapper), c5))

  unfoldable pub optional_suffix_exec : NodeKind → ParserRule → TokenKind → Executor
  unfolding with_suffix
  optional_suffix_exec kind rule suffix c = do
    (result, c') ← execute_rule parser rule execution_normal c
    if result.succeeded then with_suffix kind suffix result c' else ok (result, c')

  unfoldable pub optional_suffix :
      String → NodeKind → ParserRule → TokenKind → Option Arm → Outcome ParserRule
  unfolding optional_suffix_exec
  optional_suffix label kind rule suffix grammar = do
    identity ←
        create_rule_identity (create_rule_name "OptionalSuffix" label) label
          rule.identity.expected_label
    ok (
        construct_rule identity (create_contract rule.contract.must_consume true)
          (optional_suffix_exec kind rule suffix) rule.recovery_tokens [] none grammar)

  unfoldable pub required_exec : String → ParserRule → String → Executor
  required_exec name rule message c = do
    (result, c') ← execute_rule parser rule execution_normal c
    if is_no_match result.kind
        then (let (peeked, c1) = peek_token c' in
            ok (
              build_failure_rule_result none failure_error,
              report_after_last name peeked message c1,
            ))
        else ok (result, c')

  unfoldable pub required : ParserRule → String → Outcome ParserRule
  unfolding required_exec
  required rule message = do
    identity ←
        create_rule_identity (name_around "Required" rule) rule.identity.grammar_label
          rule.identity.expected_label
    ok (
        construct_rule identity rule.contract (required_exec identity.rule_name rule message)
          rule.recovery_tokens [] rule.reference_target rule.grammar)

  unfoldable pub reference_exec : String → Executor
  reference_exec target c = execute_reference parser target execution_normal c

  unfoldable pub reference : String → String → Option Arm → Outcome ParserRule
  unfolding reference_exec
  reference label target grammar = do
    identity ←
        create_rule_identity (create_rule_name "Reference" label) label (first_label target label)
    ok (
        construct_rule identity (create_contract false false) (reference_exec target) [] []
          (some target) grammar)

  unfoldable pub recover_sync : ParserRule → List TokenKind → ParserRule
  recover_sync rule tokens =
      construct_rule rule.identity rule.contract (execute_rule parser rule execution_normal)
        (rule.recovery_tokens ++ tokens) [] rule.reference_target rule.grammar

  unfoldable pub recover_sync_boundary : ParserRule → List TokenKind → List TokenKind → ParserRule
  recover_sync_boundary rule sync_tokens no_consume_tokens =
      construct_rule rule.identity rule.contract (execute_rule parser rule execution_normal)
        ((rule.recovery_tokens ++ sync_tokens) ++ no_consume_tokens) no_consume_tokens
        rule.reference_target rule.grammar

  -- A failure behind a token that was consumed.
  committed_failure : ℕ → RuleResult × Context → RuleResult × Context
  committed_failure start (result, c) = if result.succeeded then (result, c) else (
    build_failure_rule_result none
        (sequence_commitment_failure_kind start (peek_raw c.stream 0).start result.kind),
    c,
  )

  unfoldable pub execute_inner_with_commitment_failure : ParserRule → Executor
  unfolding committed_failure
  execute_inner_with_commitment_failure rule c = do
    done ← execute_rule parser rule execution_normal c
    ok (committed_failure (peek_raw c.stream 0).start done)

  unfoldable pub consume_if_match : TokenKind → Context → Bool × Context
  consume_if_match expected c =
      let (peeked, c') = peek_token c in
      if peeked.token == expected then (true, (consume_token c').1) else (false, c')

  unfoldable pub execute_prefixed_rule : TokenKind → ParserRule → Executor
  unfolding consume_if_match execute_inner_with_commitment_failure
  execute_prefixed_rule prefix rule c =
      let (matched, c') = consume_if_match prefix c in
      if not matched
      then ok (build_failure_rule_result none failure_no_match, c')
      else execute_inner_with_commitment_failure rule c'

  unfoldable pub prefixed : String → TokenKind → ParserRule → Option Arm → Outcome ParserRule
  unfolding execute_prefixed_rule
  prefixed label prefix rule grammar = do
    identity ←
        create_rule_identity (create_rule_name "Prefixed" label) label rule.identity.expected_label
    ok (
        construct_rule identity (create_contract true rule.contract.must_return_node)
          (execute_prefixed_rule prefix rule) rule.recovery_tokens [] none grammar)
