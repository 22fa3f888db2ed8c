-- ===== src/Rules/Built.antt =====
-- rule/factory.go: the rules that a builder can assemble without its Pratt rules and without a cycle of
-- references, whatever their shape, as a data type with a constructor for each of its functions.
pub mod Frames
use syntaxa.Prelude.{
  ℕ, ◌≡◌, refl, Bool, false, ◌&&◌, Option, none, some, List, [], ◌∷◌, String, All, Outcome, ok,
  ◌>>=◌, >>=-eq-ok,
}
use mathlib.Core.Path.{subst}
use syntaxa.Tokens.{TokenKind}
use syntaxa.Guards.{Lookahead}
use syntaxa.Dispatch.{Arm}
use syntaxa.Lst.Heap.{Pointer, NodeKind, Editor}
use syntaxa.Engine.{
  Context, RuleResult, RuleIdentity, RuleExecutionMode, execution_normal, execution_probe,
  ParserRule, SyntaxaParser, with_recovery_barrier,
}
use syntaxa.Stream.{peek}
use syntaxa.Errors.{new_frame, push_frame}
use syntaxa.Engine.Execute.{is_normal, is_error, enter_scopes, execute_rule}
use syntaxa.Engine.Execute.Discipline.{body_context, Restored, failure_restores}
use syntaxa.Engine.Execute.Steps.{IsDisciplined, IsGrowing}
use syntaxa.Engine.Execute.Failure.{ok-eq-ok}
use syntaxa.Engine.Execute.Closure.{execute_rule-IsDisciplined}
use syntaxa.Rules.{SharedCore}
use syntaxa.Rules.Terminals.{expect_exec, expect_core, ListSpec, list_exec, list_rule}
use syntaxa.Rules.Terminals.Contained.{expect_exec-IsContained, list_exec-IsContained}
use syntaxa.Rules.Wrappers.{
  Predicate, optional, optional_when, predict_rule, predicate_of, optional_suffix, required,
  reference, reference_exec, recover_sync, recover_sync_boundary, prefixed,
}
use syntaxa.Rules.Wrappers.Contained.{
  IsPeeking, predicate_of-IsPeeking, optional_exec-IsContained, optional_when_exec-IsContained,
  predict_exec-IsContained, optional_suffix_exec-IsContained, required_exec-IsContained,
  execute_prefixed_rule-IsContained, reference_exec-IsDisciplined,
}
use syntaxa.Rules.Sequences.{
  root, sequence, list_core, transparent_sequence, block, wrap, wrap_core,
}
use syntaxa.Rules.Sequences.Contained.{
  AreContained, list_core_exec-IsContained, transparent_sequence_exec-IsContained,
  wrap_core_exec-IsContained, root_exec-IsContained,
}
use syntaxa.Rules.Repeats.{validate_bounds, construct_n_or_more_rule, construct_bounded_repeat_rule}
use syntaxa.Rules.Repeats.Contained.{n_or_more_exec-IsContained, bounded_repeat_exec-IsContained}
use syntaxa.Rules.Nests.{nest, transparent_nest}
use syntaxa.Rules.Nests.Contained.{nest_exec-IsContained, transparent_nest_exec-IsContained}
use syntaxa.Rules.Choices.{choice}
use syntaxa.Rules.Choices.Contained.{execute_choice_loop-IsContained}
use syntaxa.Rules.Work.{IsContained, IsContained-IsDisciplined, IsDisciplined-IsContained}

-- A reference is built where its target is, if that is registered; so the references among built rules
-- do not go round in a circle.
mutual
  pub data IsBuilt (parser : SyntaxaParser) : ParserRule → Type 0 where
    expect :
        (core : SharedCore) (name label : String) (kind : NodeKind) (add_node : Bool)
        (tokens : List TokenKind) (g : Option Arm) (r : ParserRule)
        → expect_core core name label kind add_node tokens g ≡ ok r
        → IsBuilt parser r
    list :
        (core : SharedCore) (label : String) (open_token : TokenKind) (kind : NodeKind)
        (spec : ListSpec) (allow : Bool) (g : Option Arm) (r : ParserRule)
        → list_rule core label open_token kind spec allow g ≡ ok r
        → IsBuilt parser r
    is_optional :
        (rule : ParserRule) (g : Option Arm) (r : ParserRule)
        → IsBuilt parser rule
        → optional parser rule g ≡ ok r
        → IsBuilt parser r
    is_optional_when :
        (rule : ParserRule) (p : Predicate) (g : Option Arm) (r : ParserRule)
        → IsPeeking p
        → IsBuilt parser rule
        → optional_when parser rule p g ≡ ok r
        → IsBuilt parser r
    predicted :
        (rule : ParserRule) (l : Lookahead) (ls : List Lookahead) (r : ParserRule)
        → IsBuilt parser rule
        → predict_rule parser rule (l ∷ ls) none ≡ ok r
        → IsBuilt parser r
    selected :
        (rule : ParserRule) (p : Predicate) (r : ParserRule)
        → IsPeeking p
        → IsBuilt parser rule
        → predict_rule parser rule [] (some p) ≡ ok r
        → IsBuilt parser r
    suffixed :
        (label : String) (kind : NodeKind) (rule : ParserRule) (suffix : TokenKind) (g : Option Arm)
        (r : ParserRule)
        → IsBuilt parser rule
        → optional_suffix parser label kind rule suffix g ≡ ok r
        → IsBuilt parser r
    is_required :
        (rule : ParserRule) (message : String) (r : ParserRule)
        → IsBuilt parser rule
        → required parser rule message ≡ ok r
        → IsBuilt parser r
    referring :
        (label target : String) (g : Option Arm) (r : ParserRule)
        → ((rule : ParserRule) → parser.registry target ≡ some rule → IsBuilt parser rule)
        → reference parser label target g ≡ ok r
        → IsBuilt parser r
    synchronized :
        (rule : ParserRule) (tokens : List TokenKind)
        → IsBuilt parser rule
        → IsBuilt parser (recover_sync parser rule tokens)
    bounded :
        (rule : ParserRule) (sync_tokens no_consume_tokens : List TokenKind)
        → IsBuilt parser rule
        → IsBuilt parser (recover_sync_boundary parser rule sync_tokens no_consume_tokens)
    with_prefix :
        (label : String) (prefix : TokenKind) (rule : ParserRule) (g : Option Arm) (r : ParserRule)
        → IsBuilt parser rule
        → prefixed parser label prefix rule g ≡ ok r
        → IsBuilt parser r
    is_root :
        (label : String) (kind : NodeKind) (must_consume : Bool) (rules : List ParserRule)
        (g : Option Arm) (r : ParserRule)
        → AreBuilt parser rules
        → root parser label kind must_consume rules g ≡ ok r
        → IsBuilt parser r
    in_sequence :
        (label : String) (kind : NodeKind) (rules : List ParserRule) (g : Option Arm)
        (r : ParserRule)
        → AreBuilt parser rules
        → sequence parser label kind rules g ≡ ok r
        → IsBuilt parser r
    transparent :
        (label : String) (rules : List ParserRule) (g : Option Arm) (r : ParserRule)
        → AreBuilt parser rules
        → transparent_sequence parser label rules g ≡ ok r
        → IsBuilt parser r
    in_block :
        (core : SharedCore) (label : String) (kind : NodeKind) (end : TokenKind)
        (rules : List ParserRule) (g : Option Arm) (r : ParserRule)
        → AreBuilt parser rules
        → block parser core label kind end rules g ≡ ok r
        → IsBuilt parser r
    wrapped :
        (label : String) (kind : NodeKind) (rule : ParserRule) (g : Option Arm) (r : ParserRule)
        → IsBuilt parser rule
        → wrap parser label kind rule g ≡ ok r
        → IsBuilt parser r
    repeated :
        (fuel : ℕ) (name label : String) (min : ℕ) (rule : ParserRule) (kind : Option NodeKind)
        (g : Option Arm) (r : ParserRule)
        → IsBuilt parser rule
        → construct_n_or_more_rule parser fuel name label min rule kind g ≡ ok r
        → IsBuilt parser r
    repeated_at_most :
        (fuel : ℕ) (name label : String) (min : ℕ) (max : Option ℕ) (rule : ParserRule)
        (kind : Option NodeKind) (g : Option Arm) (r : ParserRule)
        → IsBuilt parser rule
        → construct_bounded_repeat_rule parser fuel name label min max rule kind g ≡ ok r
        → IsBuilt parser r
    nested :
        (core : SharedCore) (label : String) (kind : NodeKind) (open_token close : TokenKind)
        (rule : ParserRule) (g : Option Arm) (r : ParserRule)
        → IsBuilt parser rule
        → nest parser core label kind open_token close rule g ≡ ok r
        → IsBuilt parser r
    transparently_nested :
        (core : SharedCore) (label : String) (open_token close : TokenKind) (rule : ParserRule)
        (g : Option Arm) (r : ParserRule)
        → IsBuilt parser rule
        → transparent_nest parser core label open_token close rule g ≡ ok r
        → IsBuilt parser r
    chosen :
        (label : String) (rules : List ParserRule) (g : Option Arm) (r : ParserRule)
        → AreBuilt parser rules
        → choice parser label rules g ≡ ok r
        → IsBuilt parser r

  pub data AreBuilt (parser : SyntaxaParser) : List ParserRule → Type 0 where
    nothing : AreBuilt parser []
    also :
        (r : ParserRule) (rs : List ParserRule)
        → IsBuilt parser r
        → AreBuilt parser rs
        → AreBuilt parser (r ∷ rs)
