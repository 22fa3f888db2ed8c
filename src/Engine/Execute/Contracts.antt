-- ===== src/Engine/Execute/Contracts.antt =====
-- parser.go, `validateRuleSuccess`: what a rule that succeeded has kept.
use syntaxa.Prelude.{
  ℕ, ◌≡◌, refl, sym, ap, ◌∙◌, true, false, not, ◌&&◌, none, some, String, length, arith, ◌==◌, ok,
  panic, Panic, ◌>>=◌, >>=-eq-ok, ◌≢◌, ◌⊎◌, inl, inr, Bool-cases, Option-cases,
}
use syntaxa.Tokens.{Lexeme}
use mathlib.Core.Path.{subst}
use syntaxa.Stream.{TokenStream, ParserSnapshot, save, peek}
use syntaxa.Errors.{is_some, pop_frame}
use syntaxa.Lst.Heap.{Pointer}
use syntaxa.Engine.{Context, RuleContract, RuleResult, RuleExecutionMode, ParserRule, SyntaxaParser}
use syntaxa.Engine.Execute.{
  pop_error_frame, effective_contract, validate_rule_success, finish_rule, leave_scopes,
  execute_rule, process_post_rule_hooks,
}
use syntaxa.Engine.Execute.Discipline.{body_context}

-- The contract that a rule has to keep: that of the rule to which it refers, if that is registered,
-- otherwise its own.
pub data InEffect (parser : SyntaxaParser) (rule : ParserRule) : RuleContract → Type 0 where
  own : rule.reference_target ≡ none → InEffect parser rule rule.contract
  unregistered :
      (label : String)
      → rule.reference_target ≡ some label
      → parser.registry label ≡ none
      → InEffect parser rule rule.contract
  of_target :
      (label : String) (target : ParserRule)
      → rule.reference_target ≡ some label
      → parser.registry label ≡ some target
      → InEffect parser rule target.contract

-- For a rule that started at `start_pos` before the lexeme `pre`: if it has to consume, it has moved on,
-- unless it started at the end of the input.
abbrev pub HasConsumed : SyntaxaParser → ParserRule → (start_pos end_pos : ℕ) → Lexeme → Type 0
HasConsumed parser rule start_pos end_pos pre =
    (contract : RuleContract)
    → InEffect parser rule contract
    → contract.must_consume ≡ true
    → (end_pos ≢ start_pos) ⊎ (pre.token ≡ parser.eof_token)

-- If the rule has to return a node, it has done so.
abbrev pub HasReturned : SyntaxaParser → ParserRule → RuleResult → Type 0
HasReturned parser rule result =
    (contract : RuleContract)
    → InEffect parser rule contract
    → contract.must_return_node ≡ true
    → (p : Pointer) × (result.node ≡ some p)

-- A success that keeps the contract.
pub record Keeps (parser : SyntaxaParser) (rule : ParserRule) (result : RuleResult)
    (start_pos end_pos : ℕ) (pre : Lexeme) : Type 0 where
  pub consumed : HasConsumed parser rule start_pos end_pos pre
  pub returned : HasReturned parser rule result

module _ (parser : SyntaxaParser) (rule : ParserRule) where
  effective_contract-InEffect : InEffect parser rule (effective_contract parser rule)
  unfolding effective_contract
  effective_contract-InEffect = elim (Option-cases rule.reference_target) [
    | inl n ↦ subst (InEffect parser rule) (ground arith) (InEffect.own n)
    | inr (label, e) ↦ elim (Option-cases (parser.registry label)) [
      | inl n ↦ subst (InEffect parser rule) (ground arith) (InEffect.unregistered label e n)
      | inr (target, r) ↦
          subst (InEffect parser rule) (ground arith) (InEffect.of_target label target e r)
    ]
  ]

  InEffect-effective_contract :
      (contract : RuleContract)
      → InEffect parser rule contract
      → contract ≡ effective_contract parser rule
  unfolding effective_contract
  InEffect-effective_contract _ (InEffect.own n) = ground arith
  InEffect-effective_contract _ (InEffect.unregistered label e n) = ground arith
  InEffect-effective_contract _ (InEffect.of_target label target e r) = ground arith

  consumed_cases :
      (start_pos end_pos : ℕ) (pre : Lexeme)
      → (HasConsumed parser rule start_pos end_pos pre
          × ((end_pos == start_pos
                && ((effective_contract parser rule).must_consume
                    && not (pre.token == parser.eof_token)))
              ≡ false))
        ⊎ ((¬ HasConsumed parser rule start_pos end_pos pre)
            × ((end_pos == start_pos
                  && ((effective_contract parser rule).must_consume
                      && not (pre.token == parser.eof_token)))
                ≡ true))
  consumed_cases start_pos end_pos pre = elim (Bool-cases (end_pos == start_pos)) [
    | inr moved ↦ inl (λ contract i m. inl (λ e. ground arith), ground arith)
    | inl still ↦ elim (Bool-cases (pre.token == parser.eof_token)) [
      | inl at_end ↦ inl (λ contract i m. inr (ground arith), ground arith)
      | inr inside ↦ elim (Bool-cases (effective_contract parser rule).must_consume) [
        | inr free ↦ inl (
          λ contract i m.
              let same =
                ap (λ (c : RuleContract). c.must_consume)
                  (InEffect-effective_contract contract i) in
              absurd (ground arith),
          ground arith,
        )
        | inl bound ↦ inr (
          λ kept. elim (kept (effective_contract parser rule) effective_contract-InEffect bound) [
            | inl d ↦ absurd (ground arith)
            | inr e ↦ absurd (ground arith)
          ],
          ground arith,
        )
      ]
    ]
  ]

  returned_cases :
      (result : RuleResult)
      → (HasReturned parser rule result
          × ((not (is_some result.node) && (effective_contract parser rule).must_return_node)
              ≡ false))
        ⊎ ((¬ HasReturned parser rule result)
            × ((not (is_some result.node) && (effective_contract parser rule).must_return_node)
                ≡ true))
  returned_cases result = elim (Option-cases result.node) [
    | inr (p, e) ↦ inl (λ contract i m. (p, e), ground arith)
    | inl none_there ↦ elim (Bool-cases (effective_contract parser rule).must_return_node) [
      | inr free ↦ inl (
        λ contract i m.
            let same =
              ap (λ (c : RuleContract). c.must_return_node)
                (InEffect-effective_contract contract i) in
            absurd (ground arith),
        ground arith,
      )
      | inl bound ↦ inr (
        λ kept.
            let (p, e) = kept (effective_contract parser rule) effective_contract-InEffect bound in
            absurd (ground arith),
        ground arith,
      )
    ]
  ]

  -- The check of a success accepts it just if the contract in effect is kept: that of the rule referred
  -- to, if it is registered, otherwise the rule's own; the duty to consume does not hold for a rule that
  -- started before the end marker. Otherwise the check panics, for want of consumption if that is
  -- missing, and for want of a node if only that is.
  pub validate_rule_success_lem :
      (result : RuleResult) (start_pos end_pos : ℕ) (pre : Lexeme)
      → ((validate_rule_success parser rule result start_pos end_pos pre ≡ ok tt)
          × Keeps parser rule result start_pos end_pos pre)
        ⊎ (((validate_rule_success parser rule result start_pos end_pos pre
                ≡ panic Panic.rule_without_consuming)
              × (¬ HasConsumed parser rule start_pos end_pos pre))
            ⊎ ((validate_rule_success parser rule result start_pos end_pos pre
                  ≡ panic Panic.rule_without_node)
                × HasConsumed parser rule start_pos end_pos pre
                × (¬ HasReturned parser rule result)))
  unfolding validate_rule_success
  validate_rule_success_lem result start_pos end_pos pre =
      elim (consumed_cases start_pos end_pos pre) [
        | inr (c, t) ↦ inr (inl (rw t refl, c))
        | inl (c, t) ↦ elim (returned_cases result) [
          | inl (r, u) ↦ inl (rw (t, u) refl, record { consumed = c; returned = r })
          | inr (r, u) ↦ inr (inr (rw (t, u) refl, c, r))
        ]
      ]

  -- What the check accepts keeps the contract.
  accepted-Keeps :
      (result : RuleResult) (start_pos end_pos : ℕ) (pre : Lexeme)
      → validate_rule_success parser rule result start_pos end_pos pre ≡ ok tt
      → Keeps parser rule result start_pos end_pos pre
  accepted-Keeps result start_pos end_pos pre h =
      elim (validate_rule_success_lem result start_pos end_pos pre) [
        | inl (e, k) ↦ k
        | inr (inl (e, c)) ↦ cc (e, h)
        | inr (inr (e, c, r)) ↦ cc (e, h)
      ]

  finish_success :
      (mode : RuleExecutionMode) (snap : ParserSnapshot) (start : ℕ) (pre : Lexeme)
      (result : RuleResult) (c : Context) (r : RuleResult × Context)
      → result.succeeded ≡ true
      → finish_rule parser rule mode snap start pre (result, c) ≡ ok r
      → (r.0 ≡ result) × Keeps parser rule result snap.token_index c.stream.cursor pre
  unfolding finish_rule
  finish_success mode snap start pre result c r s h =
      let (c0, hp, h1) = >>=-eq-ok (pop_error_frame true c) _ (sym succeeded ∙ h) in
      let (errors, he, hc) = >>=-eq-ok (pop_frame c.errors true) _ hp in
      let (u, hv, h2) =
        >>=-eq-ok (validate_rule_success parser rule result snap.token_index c0.stream.cursor pre) _
          h1 in
      let (c2, hh, h3) = >>=-eq-ok (process_post_rule_hooks parser rule start c0) _ h2 in
      let moved : c0.stream ≡ c.stream = ground arith in
      (
        ground arith,
        subst (λ (t : TokenStream). Keeps parser rule result snap.token_index t.cursor pre) moved
            (accepted-Keeps result snap.token_index c0.stream.cursor pre hv),
      )
    where
      succeeded : finish_rule parser rule mode snap start pre (result, c) ≡ (
          pop_error_frame true c >>= λ c1.
          validate_rule_success parser rule result snap.token_index c1.stream.cursor pre >>= λ _.
          process_post_rule_hooks parser rule start c1 >>= λ c2. ok (result, c2))
      succeeded = rw s refl

  -- If the body of a rule succeeds and the run of the rule returns, in either mode, then the run returns
  -- the body's result, and the cursor behind the body and that result keep the contract in effect: that of
  -- the rule referred to, if it is registered, otherwise the rule's own; the duty to consume does not hold
  -- for a rule that started before the end marker.
  pub execute_rule-Keeps :
      (mode : RuleExecutionMode) (c c' : Context) (result : RuleResult)
      → rule.execution_fn (body_context parser rule mode c) ≡ ok (result, c')
      → result.succeeded ≡ true
      → (r : RuleResult × Context) → execute_rule parser rule mode c ≡ ok r
      → (r.0 ≡ result)
        × Keeps parser rule result c.stream.cursor c'.stream.cursor (peek c.stream 0).0
  unfolding execute_rule save
  execute_rule-Keeps mode c c' result ran s r h =
      let (q, hf, hl) =
        >>=-eq-ok
          (finish_rule parser rule mode (save c.stream) (length c.editor.created)
            (peek c.stream 0).0 (result, c'))
          _ (sym entered ∙ h) in
      let (c2, hs, ho) = >>=-eq-ok (leave_scopes parser rule mode q.1) _ hl in
      let (same, keeps) =
        finish_success mode (save c.stream) (length c.editor.created) (peek c.stream 0).0 result c'
          q s hf in
      (ground arith, keeps)
    where
      entered : execute_rule parser rule mode c ≡ (
          finish_rule parser rule mode
            (save c.stream)
            (length c.editor.created)
            (peek c.stream 0).0
            (result, c')
          >>= λ q. leave_scopes parser rule mode q.1 >>= λ c2. ok (q.0, c2))
      entered = rw ran refl
