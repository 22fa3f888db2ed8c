-- ===== src/Rules/Terminals.antt =====
-- rule/factory.go, `tokenEndpoint`: rules over single tokens, and the automaton of the token list. Its
-- loop takes fuel, and `none` stands for fuel that ran out.
pub mod Contained
pub mod Ends
pub mod Accepts
pub mod Advancing
use Prim.Native.String.{◌++◌ as str_append}
use syntaxa.Prelude.{
  ℕ, zero, suc, ◌-◌, Bool, true, false, not, Option, none, some, List, [], ◌∷◌, String, length,
  contains, ◌==◌, if◌then◌else◌, Outcome, ok, panic, Panic, ◌>>=◌,
}
use syntaxa.Tokens.{TokenKind, Lexeme}
use syntaxa.Dispatch.{Arm}
use syntaxa.Errors.{Message}
use syntaxa.Lst.Heap.{Pointer, NodeKind}
use syntaxa.Engine.{
  Context, FailureKind, failure_error, failure_no_match, RuleResult, Executor, ParserRule,
}
use syntaxa.Engine.Reports.{report_at}
use syntaxa.Rules.{
  SharedCore, first_label, format_unexpected_expected, format_tokens_as_list, create_rule_name,
  create_rule_identity, build_success_rule_result, build_failure_rule_result, create_contract,
  construct_rule, peek_token, consume_token, create_node, add_token_to, attach_child_in,
}

-- What `expectCore` does with the token that it wants.
expect_accept : NodeKind → Bool → Context → Outcome (RuleResult × Context)
expect_accept kind false c = ok (build_success_rule_result none, (consume_token c).1)
expect_accept kind true c = do
  let (value, c1) = consume_token c
  (node, c2) ← create_node kind c1
  c3 ← add_token_to node value c2
  ok (build_success_rule_result (some node), c3)

unfoldable pub expect_exec : NodeKind → Bool → List TokenKind → Executor
unfolding expect_accept
expect_exec kind add_node tokens c =
    let (peeked, c1) = peek_token c in
    if contains tokens peeked.token
    then expect_accept kind add_node c1
    else ok (build_failure_rule_result none failure_no_match, c1)

unfoldable pub expect_core :
    SharedCore
    → String
    → String
    → NodeKind
    → Bool
    → List TokenKind
    → Option Arm
    → Outcome ParserRule
unfolding expect_exec
expect_core core rule_name label kind add_node tokens grammar = do
  identity ←
      create_rule_identity (create_rule_name rule_name label) label
        (format_tokens_as_list core ", " tokens)
  ok (
      construct_rule identity (create_contract true add_node) (expect_exec kind add_node tokens) []
        [] none grammar)

pub data TrailingSeparatorMode : Type 0 where
  trailing_forbidden trailing_optional trailing_required : TrailingSeparatorMode

abbrev pub is_required : TrailingSeparatorMode → Bool
is_required trailing_required = true
is_required trailing_optional = false
is_required trailing_forbidden = false

abbrev pub is_forbidden : TrailingSeparatorMode → Bool
is_forbidden trailing_forbidden = true
is_forbidden trailing_optional = false
is_forbidden trailing_required = false

unfoldable pub report_mismatch :
    SharedCore → String → Lexeme → TokenKind → Context → RuleResult × Context
unfolding report_at
report_mismatch core name found expected c = (
  build_failure_rule_result none failure_error,
  report_at name found (Message.text (format_unexpected_expected core found.token expected)) c,
)

unfoldable pub report_specific_error :
    String → String → FailureKind → Context → RuleResult × Context
unfolding report_at
report_specific_error name message kind c =
    let (peeked, c') = peek_token c in
    (build_failure_rule_result none kind, report_at name peeked (Message.text message) c')

unfoldable pub handle_empty_list : String → Pointer → Lexeme → Bool → Context → RuleResult × Context
unfolding report_at
handle_empty_list name node peeked allow_empty c =
    if not allow_empty
    then (
      build_failure_rule_result none failure_error,
      report_at name peeked (Message.text "empty list not allowed") c,
    )
    else (build_success_rule_result (some node), (consume_token c).1)

unfoldable pub add_child_element : Pointer → NodeKind → Lexeme → Context → Outcome Context
add_child_element parent kind lexeme c = do
  (elem, c1) ← create_node kind c
  c2 ← add_token_to elem lexeme c1
  attach_child_in parent (some elem) c2

-- The parameters of a list that its automaton reads.
pub record ListSpec : Type 0 where
  pub element : TokenKind
  pub separator : TokenKind
  pub end : TokenKind
  pub element_kind : NodeKind
  pub mode : TrailingSeparatorMode

abbrev pub Looped : Type 0
Looped = Option (Outcome (RuleResult × Context))

-- The loop's next round, behind an element.
resume : (Context → Looped) → Outcome Context → Looped
resume again (panic p) = some (panic p)
resume again (ok c) = again c

module _ (core : SharedCore) (name : String) (parent : Pointer) (spec : ListSpec) where
  abbrev wrong : String → Context → Looped
  wrong message c = some (ok (report_specific_error name message failure_error c))

  -- The end token, which `refused` may not follow.
  abbrev close : Bool → String → Context → Looped
  close refused message c =
      if refused
      then wrong message c
      else some (ok (build_success_rule_result (some parent), (consume_token c).1))

  -- Behind a separator.
  after_separator : (Context → Looped) → Context → Looped
  unfolding resume add_child_element report_specific_error
  after_separator again c =
      let (next, c1) = peek_token c in
      let (elem, c2) = consume_token c1 in
      if next.token == spec.end
      then close (is_forbidden spec.mode) "trailing separator not allowed" c1
      else if not (next.token == spec.element)
      then wrong
          (str_append "expected "
            (str_append (core.token_formatter spec.element) " after separator"))
          c1
      else resume again (add_child_element parent spec.element_kind elem c2)

  -- One round of the loop, behind an element.
  unfoldable pub list_round : (Context → Looped) → Context → Looped
  unfolding after_separator
  list_round again c =
      let (peeked, c1) = peek_token c in
      if peeked.token == spec.end
      then close (is_required spec.mode) "missing required trailing separator" c1
      else if peeked.token == spec.element
      then wrong
          (str_append "expected "
            (str_append (core.token_formatter spec.separator) " between elements"))
          c1
      else if not (peeked.token == spec.separator)
      then wrong
          (str_append "expected " (
            str_append (core.token_formatter spec.separator)
              (str_append " or " (core.token_formatter spec.end))))
          c1
      else after_separator again (consume_token c1).1

  unfoldable pub list_loop : ℕ → Context → Looped
  unfolding list_round
  list_loop zero c = none
  list_loop (suc fuel) c = list_round (list_loop fuel) c

  unfoldable pub run_list_automaton : ℕ → Context → Looped
  unfolding list_loop report_mismatch add_child_element resume
  run_list_automaton fuel c =
      let (first, c1) = peek_token c in
      let (elem, c2) = consume_token c1 in
      if not (first.token == spec.element)
      then some (ok (report_mismatch core name first spec.element c1))
      else resume (list_loop fuel) (add_child_element parent spec.element_kind elem c2)

-- Fuel for a loop whose rounds consume a lexeme each, but for the last.
abbrev pub list_fuel : Context → ℕ
list_fuel c = suc (length c.stream.lexemes - c.stream.cursor)

abbrev pub looped : Looped → Outcome (RuleResult × Context)
looped none = panic Panic.diverged
looped (some run) = run

-- Behind the open token.
list_body :
    SharedCore → String → Pointer → ListSpec → Bool → Context → Outcome (RuleResult × Context)
unfolding handle_empty_list run_list_automaton
list_body core name node spec allow_empty c =
    let (peeked, c1) = peek_token c in
    if peeked.token == spec.end
    then ok (handle_empty_list name node peeked allow_empty c1)
    else looped (run_list_automaton core name node spec (list_fuel c1) c1)

unfoldable pub list_exec : SharedCore → String → TokenKind → NodeKind → ListSpec → Bool → Executor
unfolding report_mismatch list_body
list_exec core name open_token kind spec allow_empty c =
    let (found, c1) = peek_token c in
    if not (found.token == open_token)
    then ok (report_mismatch core name found open_token c1)
    else (do
      (node, c2) ← create_node kind (consume_token c1).1
      list_body core name node spec allow_empty c2)

unfoldable pub list_rule :
    SharedCore → String → TokenKind → NodeKind → ListSpec → Bool → Option Arm → Outcome ParserRule
unfolding list_exec
list_rule core label open_token kind spec allow_empty grammar = do
  let name = create_rule_name "List" label
  identity ← create_rule_identity name label (first_label (core.token_formatter spec.end) label)
  ok (
      construct_rule identity (create_contract true true)
        (list_exec core name open_token kind spec allow_empty) (spec.end ∷ []) [] none grammar)
