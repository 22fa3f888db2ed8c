-- ===== src/Rules.antt =====
-- rule/factory.go: the rules that a builder assembles. Here what they share: labels, results, contracts
-- and the calls that their bodies make on a context. A rule's body runs its sub-rules in the engine
-- of a parser. The grammar of a rule is an argument, since its node paths are set only later on.
mod Tests
pub mod Terminals
pub mod Wrappers
pub mod Sequences
pub mod Repeats
pub mod Nests
pub mod Choices
pub mod Work
pub mod Built
use Prim.Native.String.{◌++◌ as str_append}
use text.Mathlib.Text.{◌==◌ as str_eq}
use syntaxa.Prelude.{
  Bool, true, false, ◌&&◌, ◌||◌, Option, none, some, List, [], ◌∷◌, String, ℕ, contains, ◌==◌,
  if◌then◌else◌, Outcome, ok, panic, Panic, ◌>>=◌,
}
use syntaxa.Tokens.{TokenKind, Lexeme}
use syntaxa.Stream.{peek, consume, get_last_consumed_lexeme}
use syntaxa.Dispatch.{NodeKey, Arm, GrammarAnalysis}
use syntaxa.Errors.{Message}
use syntaxa.Lst.Heap.{Pointer, NodeKind, add_token}
use syntaxa.Lst.Pool.{new_node, new_transient_node}
use syntaxa.Lst.Structure.{attach_child, attach_result}
use syntaxa.Engine.{
  Context, FailureKind, unset, failure_error, failure_no_match, RuleResult, Executor, RuleIdentity,
  RuleContract, ParserRule, SyntaxaParser,
}
use syntaxa.Engine.Reports.{report_at, report_at_end}
use syntaxa.Engine.Parse.{is_no_match}

-- What `sharedCore` formats tokens with: the builder's formatter, and what `fmt` prints for a token
-- with `%v` and with `%#v`.
pub record SharedCore : Type 0 where
  pub token_formatter : TokenKind → String
  pub plain_format : TokenKind → String
  pub syntax_format : TokenKind → String

-- `zeroKind`
abbrev pub zero_kind : NodeKind
zero_kind = 0

abbrev pub first_label : String → String → String
first_label label other = if str_eq label "" then other else label

unfoldable pub format_token : SharedCore → TokenKind → String
format_token core t =
    first_label (core.token_formatter t) (first_label (core.plain_format t) (core.syntax_format t))

unfoldable pub format_unexpected_expected : SharedCore → TokenKind → TokenKind → String
unfolding format_token
format_unexpected_expected core found expected = str_append "unexpected " (
    str_append (format_token core found)
      (str_append ", expected '" (str_append (format_token core expected) "'")))

-- The loop of `formatTokensAsList` behind the first token.
separated : SharedCore → String → List TokenKind → String
separated core separator [] = ""
separated core separator (t ∷ ts) =
    str_append separator (str_append (core.token_formatter t) (separated core separator ts))

unfoldable pub format_tokens_as_list : SharedCore → String → List TokenKind → String
unfolding separated
format_tokens_as_list core separator [] = ""
format_tokens_as_list core separator (t ∷ ts) =
    str_append (core.token_formatter t) (separated core (first_label separator ", ") ts)

unfoldable pub create_rule_name : String → String → String
create_rule_name rule label =
    str_append "Rule " (str_append rule (str_append " (id:" (str_append label ")")))

-- The name of a rule around another one, `Optional(...)` for instance.
abbrev pub name_around : String → ParserRule → String
name_around around rule =
    str_append around (str_append "(" (str_append rule.identity.rule_name ")"))

unfoldable pub create_rule_identity : String → String → String → Outcome RuleIdentity
create_rule_identity name label expected =
    if str_eq expected ""
    then panic Panic.empty_expected_label
    else ok (record { rule_name = name; grammar_label = label; expected_label = expected })

unfoldable pub expected_label_from_rule : ParserRule → String
expected_label_from_rule rule = first_label rule.identity.expected_label rule.identity.grammar_label

abbrev pub build_success_rule_result : Option Pointer → RuleResult
build_success_rule_result node = record {
  node = node;
  succeeded = true;
  kind = unset;
  is_fragment = false;
  consume_sync_token = false;
}

abbrev pub build_failure_rule_result : Option Pointer → FailureKind → RuleResult
build_failure_rule_result node kind = record {
  node = node;
  succeeded = false;
  kind = kind;
  is_fragment = false;
  consume_sync_token = true;
}

abbrev pub build_fragment_rule_result : Pointer → RuleResult
build_fragment_rule_result node = record {
  node = some node;
  succeeded = true;
  kind = unset;
  is_fragment = true;
  consume_sync_token = false;
}

abbrev pub create_contract : Bool → Bool → RuleContract
create_contract must_consume must_return_node = record {
  must_consume = must_consume;
  must_return_node = must_return_node;
}

-- The rule that `constructRule` makes; its entry in the registry is left out. The grammar is given by
-- the target that it refers to, if any, and by what the analysis reads of it.
abbrev pub construct_rule :
    RuleIdentity
    → RuleContract
    → Executor
    → List TokenKind
    → List TokenKind
    → Option String
    → Option Arm
    → ParserRule
construct_rule identity contract execution recovery no_consume target grammar = record {
  identity = identity;
  execution_fn = execution;
  contract = contract;
  recovery_tokens = recovery;
  no_consume_on_recovery_tokens = no_consume;
  reference_target = target;
  grammar = grammar;
  is_recovery_barrier = false;
}

-- The calls on a context.
abbrev pub peek_token : Context → Lexeme × Context
peek_token c = let (l, ts) = peek c.stream 0 in (l, record c { stream = ts })

abbrev pub consume_token : Context → Lexeme × Context
consume_token c = let (l, ts) = consume c.stream in (l, record c { stream = ts })

abbrev pub create_node : NodeKind → Context → Outcome (Pointer × Context)
create_node kind c = do (p, editor) ← new_node kind c.editor; ok (p, record c { editor = editor })

abbrev pub create_transient_node : NodeKind → Context → Outcome (Pointer × Context)
create_transient_node kind c = do
  (p, editor) ← new_transient_node kind c.editor
  ok (p, record c { editor = editor })

abbrev pub add_token_to : Pointer → Lexeme → Context → Outcome Context
add_token_to p l c = do editor ← add_token p l c.editor; ok (record c { editor = editor })

abbrev pub attach_child_in : Pointer → Option Pointer → Context → Outcome Context
attach_child_in p child c = do
  editor ← attach_child p child c.editor
  ok (record c { editor = editor })

abbrev pub attach_result_in : Pointer → RuleResult → Context → Outcome Context
attach_result_in p r c = do
  editor ← attach_result p r.node r.is_fragment c.editor
  ok (record c { editor = editor })

unfoldable pub attach_results_to_node : Pointer → List RuleResult → Context → Outcome Context
attach_results_to_node p [] c = ok c
attach_results_to_node p (r ∷ rs) c = do c' ← attach_result_in p r c; attach_results_to_node p rs c'

-- A report behind the last consumed lexeme, or at the next one where nothing was consumed.
unfoldable pub report_behind : Option Lexeme → String → Lexeme → Message → Context → Context
unfolding report_at report_at_end
report_behind none name peeked message c = report_at name peeked message c
report_behind (some last) name peeked message c = report_at_end name last message c

abbrev pub report_after_last : String → Lexeme → String → Context → Context
report_after_last name peeked message c =
    report_behind (get_last_consumed_lexeme c.stream) name peeked (Message.text message) c

unfoldable pub report_expected_error : String → String → Lexeme → Context → Context
unfolding report_behind
report_expected_error name expected peeked =
    report_after_last name peeked (str_append "expected " expected)

-- A failure without an error commits the sequence as soon as the position has changed.
unfoldable pub sequence_commitment_failure_kind : ℕ → ℕ → FailureKind → FailureKind
sequence_commitment_failure_kind start current kind =
    if is_no_match kind && (start == current) then failure_no_match else failure_error

-- Whether the analysis knows that `t` may follow the rule.
follows : Option GrammarAnalysis → Option Arm → TokenKind → Bool
follows none grammar t = false
follows (some analysis) none t = false
follows (some analysis) (some arm) t = follows_key analysis arm.node_key t
  where
    follows_key : GrammarAnalysis → Option NodeKey → TokenKind → Bool
    follows_key analysis none t = false
    follows_key analysis (some key) t = contains (analysis.follow key) t

-- The node that stands for what is missing.
fake_node : Bool → Context → Outcome (Option Pointer × Context)
fake_node false c = ok (none, c)
fake_node true c = do (p, c') ← create_transient_node zero_kind c; ok (some p, c')

-- `none` where nothing is inserted.
unfoldable pub try_follow_set_insertion :
    SyntaxaParser
    → ParserRule
    → RuleIdentity
    → Lexeme
    → Context
    → Outcome (Option RuleResult × Context)
unfolding follows report_behind fake_node
try_follow_set_insertion parser rule identity peeked c =
    if follows parser.analysis rule.grammar peeked.token
    then (do
      let reported =
          report_after_last identity.rule_name peeked
            (str_append "missing " rule.identity.expected_label) c
      (node, c') ← fake_node rule.contract.must_return_node reported
      ok (some (build_success_rule_result node), c'))
    else ok (none, c)
