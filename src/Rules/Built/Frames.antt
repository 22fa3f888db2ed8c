-- ===== src/Rules/Built/Frames.antt =====
-- rule/factory.go: the rules that a builder can assemble, as work within their frames.
use syntaxa.Prelude.{
  ◌≡◌, refl, false, ◌&&◌, none, some, List, [], ◌∷◌, Outcome, ok, ◌>>=◌, >>=-eq-ok,
}
use mathlib.Core.Path.{subst}
use syntaxa.Lst.Heap.{Pointer, Editor}
use syntaxa.Engine.{
  Context, RuleResult, RuleIdentity, RuleExecutionMode, execution_normal, execution_probe,
  ParserRule, SyntaxaParser, with_recovery_barrier,
}
use syntaxa.Stream.{peek}
use syntaxa.Errors.{new_frame, push_frame}
use syntaxa.Engine.Execute.{is_normal, is_error, enter_scopes, execute_rule}
use syntaxa.Engine.Execute.Discipline.{body_context, Restored, failure_restores}
use syntaxa.Engine.Execute.Steps.{IsDisciplined, IsGrowing}
use syntaxa.Engine.Execute.Failure.{ok-eq-ok}
use syntaxa.Engine.Execute.Closure.{execute_rule-IsDisciplined}
use syntaxa.Rules.Terminals.{expect_core, list_rule}
use syntaxa.Rules.Terminals.Contained.{expect_exec-IsContained, list_exec-IsContained}
use syntaxa.Rules.Wrappers.{
  optional, optional_when, predict_rule, predicate_of, optional_suffix, required, reference,
  reference_exec, recover_sync, recover_sync_boundary, prefixed,
}
use syntaxa.Rules.Wrappers.Contained.{
  predicate_of-IsPeeking, optional_exec-IsContained, optional_when_exec-IsContained,
  predict_exec-IsContained, optional_suffix_exec-IsContained, required_exec-IsContained,
  execute_prefixed_rule-IsContained, reference_exec-IsDisciplined,
}
use syntaxa.Rules.Sequences.{
  root, sequence, list_core, transparent_sequence, block, wrap, wrap_core,
}
use syntaxa.Rules.Sequences.Contained.{
  AreContained, list_core_exec-IsContained, transparent_sequence_exec-IsContained,
  wrap_core_exec-IsContained, root_exec-IsContained,
}
use syntaxa.Rules.Repeats.{validate_bounds, construct_n_or_more_rule, construct_bounded_repeat_rule}
use syntaxa.Rules.Repeats.Contained.{n_or_more_exec-IsContained, bounded_repeat_exec-IsContained}
use syntaxa.Rules.Nests.{nest, transparent_nest}
use syntaxa.Rules.Nests.Contained.{nest_exec-IsContained, transparent_nest_exec-IsContained}
use syntaxa.Rules.Choices.{choice}
use syntaxa.Rules.Choices.Contained.{execute_choice_loop-IsContained}
use syntaxa.Rules.Work.{IsContained, IsContained-IsDisciplined, IsDisciplined-IsContained}
use syntaxa.Rules.Built.{
  IsBuilt, AreBuilt, expect, list, is_optional, is_optional_when, predicted, selected, suffixed,
  is_required, referring, synchronized, bounded, with_prefix, is_root, in_sequence, transparent,
  in_block, wrapped, repeated, repeated_at_most, nested, transparently_nested, chosen, nothing,
  also,
}

-- What a builder's function returns, given what it returns for any identity.
made :
    (m : Outcome RuleIdentity) (make : RuleIdentity → ParserRule) (r : ParserRule)
    → ((identity : RuleIdentity) → IsContained (make identity).execution_fn)
    → m >>= (λ identity. ok (make identity)) ≡ ok r
    → IsDisciplined r.execution_fn
made m make r i h =
    let (identity, h1, h2) = >>=-eq-ok m (λ identity. ok (make identity)) h in
    subst (λ (q : ParserRule). IsDisciplined q.execution_fn) (ok-eq-ok h2)
      (IsContained-IsDisciplined (make identity).execution_fn (i identity))

module _ (parser : SyntaxaParser)
    (g : (hook : Pointer → RuleIdentity → Editor → Outcome Editor)
      → parser.post_processor ≡ some hook
      → IsGrowing hook) where
  runs :
      (rule : ParserRule) (mode : RuleExecutionMode)
      → IsDisciplined rule.execution_fn
      → IsContained (execute_rule parser rule mode)
  runs rule mode d =
      IsDisciplined-IsContained (execute_rule parser rule mode)
        (execute_rule-IsDisciplined parser rule mode g d)

  mutual
    unfolding with_recovery_barrier expect_core list_rule optional optional_when predict_rule
        predicate_of optional_suffix required reference recover_sync recover_sync_boundary prefixed
        root sequence list_core transparent_sequence block wrap wrap_core construct_n_or_more_rule
        construct_bounded_repeat_rule nest transparent_nest choice

    built-IsDisciplined : (r : ParserRule) → IsBuilt parser r → IsDisciplined r.execution_fn
    built-IsDisciplined r (expect core name label kind add_node tokens a q h) =
        made _ _ q (λ i. expect_exec-IsContained kind add_node tokens) h
    built-IsDisciplined r (list core label open_token kind spec allow a q h) =
        made _ _ q (λ i. list_exec-IsContained core _ open_token kind spec allow) h
    built-IsDisciplined r (is_optional rule a q b h) =
        made _ _ q
          (λ i.
            optional_exec-IsContained parser rule
              (runs rule execution_probe (built-IsDisciplined rule b)))
          h
    built-IsDisciplined r (is_optional_when rule p a q s b h) =
        made _ _ q
          (λ i.
            optional_when_exec-IsContained parser rule
              (runs rule execution_normal (built-IsDisciplined rule b)) p s)
          h
    built-IsDisciplined r (predicted rule l ls q b h) =
        made _ _ q
          (λ i.
            predict_exec-IsContained parser rule
              (runs rule execution_normal (built-IsDisciplined rule b)) _
              (predicate_of-IsPeeking parser l ls none _ refl))
          h
    built-IsDisciplined r (selected rule p q s b h) =
        made _ _ q
          (λ i.
            predict_exec-IsContained parser rule
              (runs rule execution_normal (built-IsDisciplined rule b)) p s)
          h
    built-IsDisciplined r (suffixed label kind rule suffix a q b h) =
        made _ _ q
          (λ i.
            optional_suffix_exec-IsContained parser rule
              (runs rule execution_normal (built-IsDisciplined rule b)) kind suffix)
          h
    built-IsDisciplined r (is_required rule message q b h) =
        made _ _ q
          (λ i.
            required_exec-IsContained parser rule
              (runs rule execution_normal (built-IsDisciplined rule b)) _ message)
          h
    built-IsDisciplined r (referring label target a q b h) =
        made _ _ q
          (λ i. IsDisciplined-IsContained (reference_exec parser target) (
            reference_exec-IsDisciplined parser target
              (λ rule found. built-IsDisciplined rule (b rule found))))
          h
    built-IsDisciplined r (synchronized rule tokens b) =
        IsContained-IsDisciplined (execute_rule parser rule execution_normal)
          (runs rule execution_normal (built-IsDisciplined rule b))
    built-IsDisciplined r (bounded rule sync_tokens no_consume_tokens b) =
        IsContained-IsDisciplined (execute_rule parser rule execution_normal)
          (runs rule execution_normal (built-IsDisciplined rule b))
    built-IsDisciplined r (with_prefix label prefix rule a q b h) =
        made _ _ q
          (λ i.
            execute_prefixed_rule-IsContained parser rule
              (runs rule execution_normal (built-IsDisciplined rule b)) prefix)
          h
    built-IsDisciplined r (is_root label kind must_consume rules a q bs h) =
        made _ _ q
          (λ i. root_exec-IsContained parser i kind rules (all_built-AreContained rules bs)) h
    built-IsDisciplined r (in_sequence label kind rules a q bs h) =
        made _ (λ i. list_core parser i kind [] rules a) q
          (λ i. list_core_exec-IsContained parser i kind rules (all_built-AreContained rules bs)) h
    built-IsDisciplined r (transparent label rules a q bs h) =
        made _ _ q
          (λ i.
            transparent_sequence_exec-IsContained parser i rules (all_built-AreContained rules bs))
          h
    built-IsDisciplined r (in_block core label kind end rules a q bs h) =
        made _ (λ i. list_core parser i kind (end ∷ []) rules a) q
          (λ i. list_core_exec-IsContained parser i kind rules (all_built-AreContained rules bs)) h
    built-IsDisciplined r (wrapped label kind rule a q b h) =
        made _ (λ i. wrap_core parser i kind rule a) q
          (λ i.
            wrap_core_exec-IsContained parser i kind rule
              (runs rule execution_normal (built-IsDisciplined rule b)))
          h
    built-IsDisciplined r (repeated fuel name label min rule kind a q b h) =
        made _ _ q
          (λ i.
            n_or_more_exec-IsContained parser fuel kind rule
              (runs rule execution_normal (built-IsDisciplined rule b)) min)
          h
    built-IsDisciplined r (repeated_at_most fuel name label min max rule kind a q b h) =
        let (u, h1, h2) = >>=-eq-ok (validate_bounds parser fuel min max) _ h in
        made _ _ q
          (λ i.
            bounded_repeat_exec-IsContained parser fuel kind rule
              (runs rule execution_normal (built-IsDisciplined rule b)) min max)
          h2
    built-IsDisciplined r (nested core label kind open_token close rule a q b h) =
        made _ _ q
          (λ i.
            nest_exec-IsContained parser core _ rule
              (runs rule execution_normal (built-IsDisciplined rule b)) kind open_token close)
          h
    built-IsDisciplined r (transparently_nested core label open_token close rule a q b h) =
        made _ _ q
          (λ i.
            transparent_nest_exec-IsContained parser core _ rule
              (runs rule execution_normal (built-IsDisciplined rule b)) open_token close)
          h
    built-IsDisciplined r (chosen label rules a q bs h) =
        made _ _ q
          (λ i. execute_choice_loop-IsContained parser rules (all_built-AreContained rules bs)) h

    all_built-AreContained : (rs : List ParserRule) → AreBuilt parser rs → AreContained parser rs
    all_built-AreContained [] nothing = tt
    all_built-AreContained (r ∷ rs) (also q qs b bs) =
        (runs r execution_normal (built-IsDisciplined r b), all_built-AreContained rs bs)

module _ (parser : SyntaxaParser)
    (g : (hook : Pointer → RuleIdentity → Editor → Outcome Editor)
      → parser.post_processor ≡ some hook
      → IsGrowing hook) where
  -- Every rule that the builder's functions, those of the Pratt rules apart, assemble from finitely many
  -- rules, to any depth but without a cycle of references, works within the frame that it is run in:
  -- provided the post-processor only adds nodes, a run in either mode inside a frame that
  -- returns leaves the input, the skip roles, the recovery scopes, the entry scope and the outer frames
  -- as they were, adds to the flight buffer and to the ledger at their ends alone, and leaves the cursor
  -- no earlier than it was and within the lexemes if it was.
  pub built_rule-IsDisciplined :
      (rule : ParserRule) (mode : RuleExecutionMode)
      → IsBuilt parser rule
      → IsDisciplined (execute_rule parser rule mode)
  built_rule-IsDisciplined rule mode b =
      execute_rule-IsDisciplined parser rule mode g (built-IsDisciplined parser g rule b)

  -- A rule that the builder's functions, those of the Pratt rules apart, assemble from finitely many
  -- rules without a cycle of references, and that fails in a probe, or without an error in normal mode,
  -- leaves no trace, provided the post-processor only adds nodes and the editor is not frozen:
  -- the engine returns the body's result with the token stream, the recovery scopes, the frames, the
  -- errors and the ledger from before the rule.
  pub built_rule-restores :
      (rule : ParserRule) (mode : RuleExecutionMode) (c : Context) (result : RuleResult)
      (c1 : Context)
      → IsBuilt parser rule
      → c.editor.frozen ≡ false
      → rule.execution_fn (body_context parser rule mode c) ≡ ok (result, c1)
      → result.succeeded ≡ false
      → (is_normal mode && is_error result.kind) ≡ false
      → (c' : Context) × (execute_rule parser rule mode c ≡ ok (result, c')) × Restored c c'
  unfolding push_frame
  built_rule-restores rule mode c result c1 b mutable ran s k =
      let inside = enter_scopes parser rule mode (record c { stream = (peek c.stream 0).1 }) in
      failure_restores parser rule mode c result c1 mutable ran
        (built-IsDisciplined parser g rule b (body_context parser rule mode c) c1 result
          (new_frame inside.errors) inside.errors.stack refl ran)
        s k
