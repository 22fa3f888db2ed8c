-- ===== src/Engine/Execute/Results.antt =====
-- parser.go, `syntaxaParserExecuteRule`: the result of a rule that is no recovery barrier is its body's.
use syntaxa.Prelude.{
  ℕ, ◌≡◌, refl, sym, ap, ◌∙◌, Bool, true, false, not, ◌&&◌, ◌||◌, Option, none, some, length, arith,
  ◌==◌, if◌then◌else◌, ok, ◌>>=◌, >>=-eq-ok, Bool-cases, inl, inr,
}
use syntaxa.Tokens.{Lexeme}
use syntaxa.Stream.{ParserSnapshot, save, peek}
use syntaxa.Errors.{pop_frame, end_entry_rule_scope}
use syntaxa.Lst.Pool.{truncate_created}
use syntaxa.Engine.{
  Context, RuleResult, RuleExecutionMode, execution_normal, execution_probe, ParserRule,
  SyntaxaParser,
}
use syntaxa.Engine.Recover.{Landed, perform_recovery}
use syntaxa.Engine.Execute.{
  is_normal, is_error, is_program_rule, pop_error_frame, push_error_frame, restore_stream,
  report_before_recovery, error_node_result, after_recovery, recover, handle_failure_state,
  validate_rule_success, post_hooks, process_post_rule_hooks, finish_rule, leave_scopes,
  execute_rule,
}
use syntaxa.Engine.Execute.Failure.{answer}
use syntaxa.Engine.Execute.Discipline.{body_context}

-- A result has the success and the kind of another.
pub record SameVerdict (r s : RuleResult) : Type 0 where
  pub succeeded : s.succeeded ≡ r.succeeded
  pub kind : s.kind ≡ r.kind

module _ (parser : SyntaxaParser) (rule : ParserRule) where
  pop_error_frame-stream :
      (commit : Bool) (c c' : Context) → pop_error_frame commit c ≡ ok c' → c'.stream ≡ c.stream
  pop_error_frame-stream commit c c' h =
      let (s, h1, r1) = >>=-eq-ok (pop_frame c.errors commit) _ h in ground arith

  popped-SameVerdict :
      (commit : Bool) (c c' : Context) (r r' : RuleResult)
      → (pop_error_frame commit c >>= answer r) ≡ ok (r', c')
      → SameVerdict r r'
  popped-SameVerdict commit c c' r r' h =
      let (c1, h1, k1) = >>=-eq-ok (pop_error_frame commit c) (answer r) h in
      let same : r ≡ r' = ground arith in
      record {
        succeeded = ap (λ (q : RuleResult). q.succeeded) (sym same);
        kind = ap (λ (q : RuleResult). q.kind) (sym same);
      }

  hooks-stream :
      (start : ℕ) (c c' : Context)
      → process_post_rule_hooks parser rule start c ≡ ok c'
      → c'.stream ≡ c.stream
  unfolding process_post_rule_hooks
  hooks-stream start c c' h =
      let (e, h1, r1) =
        >>=-eq-ok (post_hooks parser.post_processor rule.identity start c.editor) _ h in
      ground arith

  leave_scopes-stream :
      (mode : RuleExecutionMode) (c c' : Context)
      → leave_scopes parser rule mode c ≡ ok c'
      → c'.stream ≡ c.stream
  unfolding leave_scopes
  leave_scopes-stream execution_probe c c' h = ground arith
  leave_scopes-stream execution_normal c c' h =
      let (s, h1, r1) =
        >>=-eq-ok
          (if is_program_rule parser rule then end_entry_rule_scope c.errors else ok c.errors) _
          h in
      ground arith

  finish_success-stream :
      (mode : RuleExecutionMode) (snap : ParserSnapshot) (start : ℕ) (pre : Lexeme)
      (r r' : RuleResult) (c c' : Context)
      → r.succeeded ≡ true
      → finish_rule parser rule mode snap start pre (r, c) ≡ ok (r', c')
      → (r' ≡ r) × (c'.stream ≡ c.stream)
  unfolding finish_rule
  finish_success-stream mode snap start pre r r' c c' s h =
      let started : finish_rule parser rule mode snap start pre (r, c) ≡ (
          pop_error_frame true c >>= λ c1.
          validate_rule_success parser rule r snap.token_index c1.stream.cursor pre >>= λ _.
          process_post_rule_hooks parser rule start c1 >>= λ c2. ok (r, c2)) =
        rw s refl in
      let (c1, h1, r1) = >>=-eq-ok (pop_error_frame true c) _ (sym started ∙ h) in
      let (u, h2, r2) =
        >>=-eq-ok (validate_rule_success parser rule r snap.token_index c1.stream.cursor pre) _
          r1 in
      let (c2, h3, r3) = >>=-eq-ok (process_post_rule_hooks parser rule start c1) _ r2 in
      let p = pop_error_frame-stream true c c1 h1 in
      let q = hooks-stream start c1 c2 h3 in (ground arith, ground arith)

  module _ (plain : rule.is_recovery_barrier ≡ false) where
    after_recovery-SameVerdict :
        (snap : ParserSnapshot) (r r' : RuleResult) (landed : Option Bool) (c c' : Context)
        → after_recovery parser rule snap r landed c ≡ ok (r', c')
        → SameVerdict r r'
    unfolding after_recovery error_node_result
    after_recovery-SameVerdict snap r r' none c c' h = elim (Bool-cases r.succeeded) [
      | inl s ↦ record { succeeded = ground arith; kind = ground arith }
      | inr s ↦ record { succeeded = ground arith; kind = ground arith }
    ]
    after_recovery-SameVerdict snap r r' (some ours) c c' h =
        let off : (ours && rule.is_recovery_barrier) ≡ false = ground arith in
        record { succeeded = ground arith; kind = ground arith }

    recover-SameVerdict :
        (snap : ParserSnapshot) (r r' : RuleResult) (pre : Lexeme) (c c' : Context)
        → recover parser rule r snap pre c ≡ ok (r', c')
        → SameVerdict r r'
    unfolding recover
    recover-SameVerdict snap r r' pre c c' h =
        let (c1, h1, r1) =
          >>=-eq-ok (pop_error_frame true (report_before_recovery parser rule snap pre c)) _ h in
        let landed : Landed = perform_recovery parser.eof_token c1.recovery rule c1.stream in
        let (c2, h2, r2) =
          >>=-eq-ok (pop_error_frame false (record (push_error_frame c1) { stream = landed.1 })) _
            r1 in
        after_recovery-SameVerdict snap r r' landed.0 c2 c' r2

    handle_failure-SameVerdict :
        (snap : ParserSnapshot) (r r' : RuleResult) (mode : RuleExecutionMode) (pre : Lexeme)
        (c c' : Context)
        → handle_failure_state parser rule r snap mode pre c ≡ ok (r', c')
        → SameVerdict r r'
    unfolding handle_failure_state
    handle_failure-SameVerdict snap r r' mode pre c c' h =
        elim (Bool-cases (not (is_normal mode) || not (is_error r.kind))) [
          | inl t ↦ popped-SameVerdict false (restore_stream snap c) c' r r' (ground arith)
          | inr t ↦
              elim (Bool-cases
                (not r.consume_sync_token && not (c.stream.cursor == snap.token_index))) [
                  | inl q ↦ popped-SameVerdict true c c' r r' (ground arith)
                  | inr q ↦ recover-SameVerdict snap r r' pre c c' (ground arith)
                ]
        ]

    -- What the engine returns for a rule that is no barrier goes back to a run of its body.
    pub execute_rule-from_body :
        (mode : RuleExecutionMode) (c c' : Context) (r : RuleResult)
        → execute_rule parser rule mode c ≡ ok (r, c')
        → (r1 : RuleResult) × (c1 : Context) × (rule.execution_fn (body_context parser rule mode c)
            ≡ ok (r1, c1))
          × SameVerdict r1 r
          × (r1.succeeded ≡ true → c'.stream ≡ c1.stream)
    unfolding execute_rule finish_rule
    execute_rule-from_body mode c c' r h =
        let ((r1, c1), h1, k1) =
          >>=-eq-ok (rule.execution_fn (body_context parser rule mode c)) _ h in
        let done =
          finish_rule parser rule mode (save c.stream) (length c.editor.created) (peek c.stream 0).0
            (r1, c1) in
        let ((r2, c2), h2, k2) = >>=-eq-ok done _ k1 in
        let (c3, h3, k3) = >>=-eq-ok (leave_scopes parser rule mode c2) _ k2 in
        let left = leave_scopes-stream mode c2 c3 h3 in
        let same : r2 ≡ r = ground arith in
        elim (Bool-cases r1.succeeded) [
          | inl s ↦
              let (same', kept) =
                finish_success-stream mode (save c.stream) (length c.editor.created)
                  (peek c.stream 0).0 r1 r2 c1 c2 s h2 in
              (
                r1,
                c1,
                h1,
                record { succeeded = ground arith; kind = ground arith },
                λ t. ground arith,
              )
          | inr s ↦
              let failed : (truncate_created (length c.editor.created) c1.editor >>= λ e.
              handle_failure_state parser rule r1 (save c.stream) mode (peek c.stream 0).0
                (record c1 { editor = e }))
                  ≡ ok (r2, c2) =
                ground arith in
              let (e, h4, k4) =
                >>=-eq-ok (truncate_created (length c.editor.created) c1.editor) _ failed in
              let v =
                handle_failure-SameVerdict (save c.stream) r1 r2 mode (peek c.stream 0).0
                  (record c1 { editor = e }) c2 k4 in
              let vs = v.succeeded in
              let vk = v.kind in
              (
                r1,
                c1,
                h1,
                record { succeeded = ground arith; kind = ground arith },
                λ t. ground arith,
              )
        ]
