-- ===== src/Rules/Nests.antt =====
-- rule/factory.go: rules between a pair of delimiters.
pub mod Contained
use syntaxa.Prelude.{
  Bool, true, false, not, Option, none, some, [], ◌∷◌, String, ◌==◌, if◌then◌else◌, Outcome, ok,
  ◌>>=◌,
}
use syntaxa.Tokens.{TokenKind}
use syntaxa.Dispatch.{Arm}
use syntaxa.Errors.{
  Message, push_delimiter_boundary, pop_delimiter_boundary,
  has_committed_error_inside_current_delimiter_boundary,
}
use syntaxa.Lst.Heap.{NodeKind}
use syntaxa.Engine.{
  Context, failure_error, failure_no_match, RuleResult, Executor, ParserRule, with_recovery_barrier,
  SyntaxaParser,
}
use syntaxa.Engine.Reports.{report_at}
use syntaxa.Rules.{
  SharedCore, first_label, format_unexpected_expected, create_rule_name, create_rule_identity,
  build_success_rule_result, build_failure_rule_result, create_contract, construct_rule, peek_token,
  consume_token, create_node, attach_result_in,
}
use syntaxa.Rules.Wrappers.{execute_inner_with_commitment_failure}

-- What a nest makes of the result between its delimiters.
abbrev pub Finish : Type 0
Finish = RuleResult → Context → Outcome (RuleResult × Context)

module _ (parser : SyntaxaParser) (core : SharedCore) (name : String) where
  unfoldable pub enforce_nest_close : TokenKind → Context → Bool × Context
  unfolding report_at
  enforce_nest_close close c =
      let (found, c1) = peek_token c in
      if found.token == close
      then (true, (consume_token c1).1)
      else if has_committed_error_inside_current_delimiter_boundary c1.errors
      then (false, c1)
      else (
        false,
        report_at name found (Message.text (format_unexpected_expected core found.token close)) c1,
      )

  -- Behind the open token, up to the deferred pop.
  inside_nest : TokenKind → Finish → RuleResult × Context → Outcome (RuleResult × Context)
  unfolding enforce_nest_close
  inside_nest close finish (result, c) =
      let (closed, c') = enforce_nest_close close c in
      if not result.succeeded
      then ok (result, c)
      else if not closed
      then ok (build_failure_rule_result none failure_error, c')
      else finish result c'

  pop_boundary : RuleResult × Context → Outcome (RuleResult × Context)
  pop_boundary (result, c) = do
    errors ← pop_delimiter_boundary c.errors
    ok (result, record c { errors = errors })

  -- The body that `Nest` and `TransparentNest` share.
  unfoldable pub nested_exec : (open_token close : TokenKind) → ParserRule → Finish → Executor
  unfolding inside_nest pop_boundary execute_inner_with_commitment_failure
  nested_exec open_token close inner finish c =
      let (found, c1) = peek_token c in
      let c2 = (consume_token c1).1 in
      let c3 : Context = record c2 { errors = push_delimiter_boundary c2.errors found.start } in
      if not (found.token == open_token)
      then ok (build_failure_rule_result none failure_no_match, c1)
      else execute_inner_with_commitment_failure parser inner c3
        >>= inside_nest close finish
        >>= pop_boundary

  nest_finish : NodeKind → Finish
  nest_finish kind result c = do
    (node, c1) ← create_node kind c
    c2 ← attach_result_in node result c1
    ok (build_success_rule_result (some node), c2)

  transparent_finish : Finish
  transparent_finish result c = ok (result, c)

  unfoldable pub nest_exec : NodeKind → (open_token close : TokenKind) → ParserRule → Executor
  unfolding nested_exec nest_finish
  nest_exec kind open_token close inner = nested_exec open_token close inner (nest_finish kind)

  unfoldable pub transparent_nest_exec : (open_token close : TokenKind) → ParserRule → Executor
  unfolding nested_exec transparent_finish
  transparent_nest_exec open_token close inner =
      nested_exec open_token close inner transparent_finish

module _ (parser : SyntaxaParser) (core : SharedCore) where
  unfoldable pub nest :
      String
      → NodeKind
      → (open_token close : TokenKind) → ParserRule
      → Option Arm
      → Outcome ParserRule
  unfolding nest_exec
  nest label kind open_token close inner grammar = do
    let name = create_rule_name "Nest" label
    identity ← create_rule_identity name label (first_label (core.token_formatter open_token) label)
    ok (
        with_recovery_barrier (
          construct_rule identity (create_contract true true)
            (nest_exec parser core name kind open_token close inner) [] (close ∷ []) none grammar))

  unfoldable pub transparent_nest :
      String → (open_token close : TokenKind) → ParserRule → Option Arm → Outcome ParserRule
  unfolding transparent_nest_exec
  transparent_nest label open_token close inner grammar = do
    let name = create_rule_name "TransparentNest" label
    identity ← create_rule_identity name label (first_label (core.token_formatter open_token) label)
    ok (
        with_recovery_barrier (
          construct_rule identity inner.contract
            (transparent_nest_exec parser core name open_token close inner) [] (close ∷ []) none
            grammar))
