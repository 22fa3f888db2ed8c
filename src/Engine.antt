-- ===== src/Engine.antt =====
-- The engine's data: rule.go, the parser of parser.go and the context of rule_context.go, for a context
-- over a slice of lexemes with neither trace nor statistics. A rule's body is a function on the
-- context, and a post-processor one on the editor.
mod Tests
pub mod Reports
pub mod Recover
pub mod Execute
pub mod Parse
use syntaxa.Prelude.{
  Bool, true, false, Option, none, some, List, [], ◌∷◌, ◌++◌, String, ℕ, Outcome, contains, ◌||◌,
}
use syntaxa.Tokens.{TokenKind, TokenRole, Lexeme}
use syntaxa.Stream.{TokenStream}
use syntaxa.Recovery.{RecoveryCore}
use syntaxa.Errors.{SyntaxErrors}
use syntaxa.Lst.Heap.{Pointer, NodeKind, Editor}
use syntaxa.Dispatch.{Arm, GrammarAnalysis}

-- `ExecRuleContext`
pub record Context : Type 0 where
  pub stream : TokenStream
  pub recovery : RecoveryCore
  pub errors : SyntaxErrors
  pub editor : Editor

-- `unset` is the zero value.
pub data FailureKind : Type 0 where
  unset failure_error failure_no_match : FailureKind

pub record RuleResult : Type 0 where
  pub node : Option Pointer
  pub succeeded : Bool
  pub kind : FailureKind
  pub is_fragment : Bool
  pub consume_sync_token : Bool

pub data RuleExecutionMode : Type 0 where
  execution_normal execution_probe : RuleExecutionMode

abbrev pub Executor : Type 0
Executor = Context → Outcome (RuleResult × Context)

pub record RuleIdentity : Type 0 where
  pub rule_name : String
  pub grammar_label : String
  pub expected_label : String

pub record RuleContract : Type 0 where
  pub must_consume : Bool
  pub must_return_node : Bool

-- `reference_target` is the target of the rule's grammar where that is a reference, and `grammar` what
-- the analysis reads of that grammar, `none` where it is nil.
pub record ParserRule : Type 0 where
  pub identity : RuleIdentity
  pub execution_fn : Executor
  pub contract : RuleContract
  pub recovery_tokens : List TokenKind
  pub no_consume_on_recovery_tokens : List TokenKind
  pub reference_target : Option String
  pub grammar : Option Arm
  pub is_recovery_barrier : Bool

unfoldable pub is_sync_token : ParserRule → TokenKind → Bool
is_sync_token r t = contains r.recovery_tokens t || contains r.no_consume_on_recovery_tokens t

unfoldable pub with_recovery_barrier : ParserRule → ParserRule
with_recovery_barrier r = record r { is_recovery_barrier = true }

-- `RecoverySpec`
pub record RecoverySpec : Type 0 where
  pub tokens : List TokenKind
  pub no_consume : List TokenKind

unfoldable pub parser_rule_apply_recovery_spec : ParserRule → RecoverySpec → ParserRule
parser_rule_apply_recovery_spec r spec = record r {
  recovery_tokens = spec.tokens;
  no_consume_on_recovery_tokens = spec.no_consume;
}

-- `RuleRegistry`, looked up by grammar label.
abbrev pub Registry : Type 0
Registry = String → Option ParserRule

pub record SyntaxaParser : Type 0 where
  pub registry : Registry
  pub program_rule : ParserRule
  pub post_processor : Option (Pointer → RuleIdentity → Editor → Outcome Editor)
  pub default_skip_roles : List TokenRole
  pub eof_token : TokenKind
  pub error_node_kind : NodeKind
  pub freeze_after_parse : Bool
  pub analysis : Option GrammarAnalysis

bind_spec : Option RecoverySpec → ParserRule → ParserRule
unfolding parser_rule_apply_recovery_spec
bind_spec none r = r
bind_spec (some spec) r = parser_rule_apply_recovery_spec r spec

unfoldable pub bind_merged_recovery_to_rule :
    ParserRule → (String → Option RecoverySpec) → ParserRule
unfolding bind_spec
bind_merged_recovery_to_rule r merged = bind_spec (merged r.identity.grammar_label) r

bind_entry : Option ParserRule → (String → Option RecoverySpec) → Option ParserRule
unfolding bind_merged_recovery_to_rule
bind_entry none merged = none
bind_entry (some r) merged = some (bind_merged_recovery_to_rule r merged)

unfoldable pub bind_merged_recovery_into_registry :
    Registry → (String → Option RecoverySpec) → Registry
unfolding bind_entry
bind_merged_recovery_into_registry reg merged label = bind_entry (reg label) merged
