-- ===== src/Engine/Execute/Closure.antt =====
-- parser.go, `syntaxaParserExecuteRule`: a run of a rule as work within the frame of its caller.
use syntaxa.Prelude.{
  ◌≡◌, refl, sym, ap, ◌∙◌, true, some, [], ◌∷◌, ◌++◌, length, take, take-append, append-nil, arith,
  Outcome, ok, ◌>>=◌, >>=-eq-ok, Bool-cases, inl, inr,
}
use mathlib.Core.Path.{subst}
use syntaxa.Tokens.{Lexeme}
use syntaxa.Stream.{TokenStream, ParserSnapshot, save, peek}
use syntaxa.Errors.{new_frame, push_frame}
use syntaxa.Lst.Heap.{Pointer, Editor}
use syntaxa.Lst.Pool.{truncate_created}
use syntaxa.Lst.Pool.Returns.{truncate_ok}
use syntaxa.Engine.{Context, RuleIdentity, RuleResult, RuleExecutionMode, ParserRule, SyntaxaParser}
use syntaxa.Engine.Execute.{
  pop_error_frame, push_error_frame, handle_failure_state, validate_rule_success,
  process_post_rule_hooks, finish_rule, enter_scopes, leave_scopes, execute_rule,
}
use syntaxa.Engine.Execute.Discipline.{
  Onward, Onward-trans, Grown, Within, leave-enter, enter-rest, body_context-input,
}
use syntaxa.Engine.Execute.Steps.{IsDisciplined, IsGrowing, hooks-Grown}
use syntaxa.Engine.Execute.Failure.{
  Within-nested, Within-editor, pop-Within, rebase, ok-eq-ok, handle_failure-Within,
}

save-cursor : (c : Context) → (save c.stream).token_index ≡ (peek c.stream 0).1.cursor
unfolding save peek
save-cursor c = ground arith

module _ (parser : SyntaxaParser) (rule : ParserRule) where
  -- What `finish_rule` does to the context that the body leaves.
  finish-Within :
      (snap : ParserSnapshot) (mode : RuleExecutionMode) (pre : Lexeme) (b c c' : Context)
      (result result' : RuleResult)
      → ((hook : Pointer → RuleIdentity → Editor → Outcome Editor)
          → parser.post_processor ≡ some hook
          → IsGrowing hook)
      → snap.token_index ≡ b.stream.cursor
      → Within b b
      → Within (push_error_frame b) c
      → finish_rule parser rule mode snap (length b.editor.created) pre (result, c)
        ≡ ok (result', c')
      → Within b c'
  unfolding finish_rule
  finish-Within snap mode pre b c c' result result' g at x w h =
      elim (Bool-cases result.succeeded) [
        | inl s ↦
            let started : finish_rule parser rule mode snap (length b.editor.created) pre
                  (result, c)
                ≡ (pop_error_frame true c >>= λ c1.
                    validate_rule_success parser rule result snap.token_index c1.stream.cursor pre
                    >>= λ _.
                        process_post_rule_hooks parser rule (length b.editor.created) c1 >>= λ c2.
                        ok (result, c2)) =
              rw s refl in
            let (c1, h1, r1) = >>=-eq-ok (pop_error_frame true c) _ (sym started ∙ h) in
            let (u, h2, r2) =
              >>=-eq-ok
                (validate_rule_success parser rule result snap.token_index c1.stream.cursor pre) _
                r1 in
            let (c2, h3, r3) =
              >>=-eq-ok (process_post_rule_hooks parser rule (length b.editor.created) c1) _ r2 in
            let (e, ge, he) = hooks-Grown parser rule (length b.editor.created) c1 c2 g h3 in
            subst (Within b) (he ∙ ground arith)
              (Within-editor b c1 e ge (pop-Within b b c c1 true x w h1))
        | inr s ↦
            let started : finish_rule parser rule mode snap (length b.editor.created) pre
                  (result, c)
                ≡ (truncate_created (length b.editor.created) c.editor >>= λ e.
                    handle_failure_state parser rule result snap mode pre
                      (record c { editor = e })) =
              rw s refl in
            let (e, h1, r1) =
              >>=-eq-ok (truncate_created (length b.editor.created) c.editor) _ (sym started ∙ h) in
            let (tc, tf) = truncate_ok (length b.editor.created) c.editor e h1 in
            let back : e.created ≡ b.editor.created ++ [] =
              tc
              ∙ ap (take (length b.editor.created)) w.kept.ledger.created
              ∙ take-append b.editor.created w.kept.ledger.nodes
              ∙ sym (append-nil b.editor.created) in
            let w' : Within (push_error_frame b) (record c { editor = e }) = record {
              kept = record {
                input = w.kept.input;
                recovery = w.kept.recovery;
                depth = w.kept.depth;
                ledger = record { nodes = []; created = back; frozen = tf ∙ w.kept.ledger.frozen };
              };
              errors = w.errors;
            } in
            handle_failure-Within parser rule snap mode pre b (record c { editor = e }) c' result
              result' at x w' r1
      ]

  -- Leaving the scopes carries the work back to the context of the caller.
  leave-Within :
      (mode : RuleExecutionMode) (c c2 c3 : Context)
      → Within (enter_scopes parser rule mode (record c { stream = (peek c.stream 0).1 })) c2
      → leave_scopes parser rule mode c2 ≡ ok c3
      → Within c c3
  leave-Within mode c c2 c3 w h =
      let c0 = record c { stream = (peek c.stream 0).1 } in
      let b = enter_scopes parser rule mode c0 in
      let (es, ee, ek, ef, er) = enter-rest parser rule mode c0 in
      let (c4, le, ls, led, lr, lk, lf, lx, ld) =
        leave-enter parser rule mode c0 c2 w.kept.recovery w.kept.depth in
      let ledger : Grown c.editor c4.editor = record {
        nodes = w.kept.ledger.nodes;
        created =
            ap (λ (e : Editor). e.created) led
            ∙ w.kept.ledger.created
            ∙ ap (λ (e : Editor). e.created ++ w.kept.ledger.nodes) ee;
        frozen =
            ap (λ (e : Editor). e.frozen) led
            ∙ w.kept.ledger.frozen
            ∙ ap (λ (e : Editor). e.frozen) ee;
      } in
      let input =
        Onward-trans c.stream b.stream c2.stream (body_context-input parser rule mode c)
          w.kept.input in
      let w4 : Within c c4 = record {
        kept = record {
          input = subst (Onward c.stream) (sym ls) input;
          recovery = lr;
          depth = ld;
          ledger = ledger;
        };
        errors =
            rebase b.errors c.errors c2.errors c4.errors (sym ek) (sym ef) (sym er) lk lf lx
              w.errors;
      } in
      subst (Within c) (ok-eq-ok (sym le ∙ h)) w4

  -- Running a rule is work within a frame, in both modes and whatever becomes of the rule, recovery
  -- included: if its body works only within its own frame, and the post-processor only adds nodes, then
  -- a run of the rule inside a frame that returns leaves the input, the skip roles, the recovery scopes,
  -- the entry scope and the outer frames as they were, adds to the flight buffer and to the ledger at
  -- their ends alone, and leaves the cursor no earlier than it was and within the lexemes if it was.
  pub execute_rule-IsDisciplined :
      (mode : RuleExecutionMode)
      → ((hook : Pointer → RuleIdentity → Editor → Outcome Editor)
          → parser.post_processor ≡ some hook
          → IsGrowing hook)
      → IsDisciplined rule.execution_fn
      → IsDisciplined (execute_rule parser rule mode)
  unfolding execute_rule push_frame
  execute_rule-IsDisciplined mode g d c c' result f r inside h =
      let c0 = record c { stream = (peek c.stream 0).1 } in
      let b = enter_scopes parser rule mode c0 in
      let (es, ee, ek, ef, er) = enter-rest parser rule mode c0 in
      let nested : b.errors.stack ≡ f ∷ r = ek ∙ inside in
      let ((res, c1), h1, r1) = >>=-eq-ok (rule.execution_fn (push_error_frame b)) _ h in
      let w = d (push_error_frame b) c1 res (new_frame b.errors) b.errors.stack refl h1 in
      let ((res', c2), h2, r2) =
        >>=-eq-ok
          (finish_rule parser rule mode (save c.stream) (length c.editor.created)
            (peek c.stream 0).0 (res, c1))
          _ r1 in
      let (c3, h3, r3) = >>=-eq-ok (leave_scopes parser rule mode c2) _ r2 in
      let w2 =
        finish-Within (save c.stream) mode (peek c.stream 0).0 b c1 c2 res res' g
          (save-cursor c ∙ sym (ap (λ (s : TokenStream). s.cursor) es)) (Within-nested b f r nested)
          w
          (ap
              (λ (e : Editor).
                finish_rule parser rule mode (save c.stream) (length e.created) (peek c.stream 0).0
                  (res, c1))
              ee
            ∙ h2) in
      subst (Within c) (ground arith) (leave-Within mode c c2 c3 w2 h3)
