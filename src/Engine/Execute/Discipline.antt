-- ===== src/Engine/Execute/Discipline.antt =====
-- parser.go, `syntaxaParserExecuteRule`: what is left of a rule that fails without an error.
use mathlib.Core.Path.{subst}
use syntaxa.Prelude.{
  ℕ, sym, ◌≤◌, ◌-◌, ◌≡◌, refl, ap, ◌∙◌, Bool, true, false, ◌&&◌, List, ◌++◌, length, arith, ok,
  Bool-cases, inl, inr,
}
use syntaxa.Tokens.{Lexeme}
use syntaxa.Stream.{TokenStream, ParserSnapshot, save, restore, peek}
use syntaxa.Stream.Coherence.{restore-save}
use syntaxa.Recovery.{pop_recovery}
use syntaxa.Recovery.Scopes.{pop-push}
use syntaxa.Errors.{
  SyntaxErrors, push_frame, pop_frame, commit_frame, rollback_frame, begin_entry_rule_scope,
  end_entry_rule_scope,
}
use syntaxa.Errors.Frames.{Extends, extended_rollback}
use syntaxa.Lst.Heap.{Pointer, Editor}
use syntaxa.Lst.Pool.{truncate_created}
use syntaxa.Lst.Pool.Returns.{truncate_back}
use syntaxa.Engine.{
  Context, RuleResult, RuleExecutionMode, execution_normal, execution_probe, ParserRule,
  SyntaxaParser,
}
use syntaxa.Engine.Execute.{
  is_normal, is_error, is_program_rule, push_error_frame, handle_failure_state, finish_rule,
  enter_scopes, leave_scopes, execute_rule,
}

-- `t` is the stream `s` with another cache, and with a cursor that has not moved back, nor left the
-- lexemes.
pub record Onward (s t : TokenStream) : Type 0 where
  pub lexemes : t.lexemes ≡ s.lexemes
  pub eof_token : t.eof_token ≡ s.eof_token
  pub skip_stack : t.skip_stack ≡ s.skip_stack
  pub onward : s.cursor ≤ t.cursor
  pub inside : s.cursor ≤ length s.lexemes → t.cursor ≤ length s.lexemes

pub Onward-self : (s : TokenStream) → Onward s s
Onward-self s = record {
  lexemes = refl;
  eof_token = refl;
  skip_stack = refl;
  onward = omega arith;
  inside = λ h. h;
}

pub Onward-trans : (s t u : TokenStream) → Onward s t → Onward t u → Onward s u
Onward-trans s t u x y = record {
  lexemes = y.lexemes ∙ x.lexemes;
  eof_token = y.eof_token ∙ x.eof_token;
  skip_stack = y.skip_stack ∙ x.skip_stack;
  onward = let p = x.onward in let q = y.onward in omega arith;
  inside = λ h.
      let k =
        y.inside (subst (λ (l : List Lexeme). t.cursor ≤ length l) (sym x.lexemes) (x.inside h)) in
      subst (λ (l : List Lexeme). u.cursor ≤ length l) x.lexemes k;
}

-- `e'` is `e` with nodes added at the ledger's end, as mutable as before.
pub record Grown (e e' : Editor) : Type 0 where
  pub nodes : List Pointer
  pub created : e'.created ≡ e.created ++ nodes
  pub frozen : e'.frozen ≡ e.frozen

-- What a context keeps: the input, the skip roles, the recovery scopes, the depth of the entry scope,
-- and the ledger but for what is added to it.
pub record Kept (c c' : Context) : Type 0 where
  pub input : Onward c.stream c'.stream
  pub recovery : c'.recovery ≡ c.recovery
  pub depth : c'.errors.entry_rule_scope_depth ≡ c.errors.entry_rule_scope_depth
  pub ledger : Grown c.editor c'.editor

-- `c'` is `c` after work inside the error frame on top of `c`.
pub record Within (c c' : Context) : Type 0 where
  pub kept : Kept c c'
  pub errors : Extends c.errors c'.errors

-- The outside of a context, which a rule that fails without an error restores.
pub record Restored (c c' : Context) : Type 0 where
  pub stream : c'.stream ≡ c.stream
  pub recovery : c'.recovery ≡ c.recovery
  pub stack : c'.errors.stack ≡ c.errors.stack
  pub flight : c'.errors.flight ≡ c.errors.flight
  pub errors : c'.errors.errors ≡ c.errors.errors
  pub created : c'.editor.created ≡ c.editor.created

-- The context in which the engine runs a rule's body.
abbrev pub body_context : SyntaxaParser → ParserRule → RuleExecutionMode → Context → Context
body_context parser rule mode c =
    push_error_frame (enter_scopes parser rule mode (record c { stream = (peek c.stream 0).1 }))

pub peek-Onward : (s : TokenStream) → Onward s (peek s 0).1
unfolding peek
peek-Onward s = record {
  lexemes = ground arith;
  eof_token = ground arith;
  skip_stack = ground arith;
  onward = ground arith;
  inside = λ h. ground arith;
}

pub pop_frame-depth :
    (s s' : SyntaxErrors) (commit : Bool)
    → pop_frame s commit ≡ ok s'
    → s'.entry_rule_scope_depth ≡ s.entry_rule_scope_depth
unfolding pop_frame commit_frame rollback_frame
pop_frame-depth s s' true h = ground arith
pop_frame-depth s s' false h = ground arith

-- Leaving the scopes undoes entering them.
module _ (parser : SyntaxaParser) (rule : ParserRule) where
  pub leave-enter :
      (mode : RuleExecutionMode) (c c1 : Context)
      → c1.recovery ≡ (enter_scopes parser rule mode c).recovery
      → c1.errors.entry_rule_scope_depth
        ≡ (enter_scopes parser rule mode c).errors.entry_rule_scope_depth
      → (c2 : Context) × (leave_scopes parser rule mode c1 ≡ ok c2)
        × (c2.stream ≡ c1.stream)
        × (c2.editor ≡ c1.editor)
        × (c2.recovery ≡ c.recovery)
        × (c2.errors.stack ≡ c1.errors.stack)
        × (c2.errors.flight ≡ c1.errors.flight)
        × (c2.errors.errors ≡ c1.errors.errors)
        × (c2.errors.entry_rule_scope_depth ≡ c.errors.entry_rule_scope_depth)
  unfolding enter_scopes leave_scopes begin_entry_rule_scope end_entry_rule_scope
  leave-enter execution_probe c c1 r d = (c1, refl, refl, refl, r, refl, refl, refl, d)
  leave-enter execution_normal c c1 r d =
      let undone =
        ap pop_recovery r
        ∙ pop-push rule.is_recovery_barrier rule.recovery_tokens rule.no_consume_on_recovery_tokens
            c.recovery in
      elim (Bool-cases (is_program_rule parser rule)) [
        | inl p ↦ (
          record c1 {
            errors = record c1.errors {
              entry_rule_scope_depth = c1.errors.entry_rule_scope_depth - 1;
            };
            recovery = pop_recovery c1.recovery;
          },
          ground arith,
          refl,
          refl,
          undone,
          refl,
          refl,
          refl,
          ground arith,
        )
        | inr p ↦ (
          record c1 { recovery = pop_recovery c1.recovery },
          rw p,
          refl,
          refl,
          undone,
          refl,
          refl,
          refl,
          ground arith,
        )
      ]

  pub enter-rest :
      (mode : RuleExecutionMode) (c : Context)
      → ((enter_scopes parser rule mode c).stream ≡ c.stream)
        × ((enter_scopes parser rule mode c).editor ≡ c.editor)
        × ((enter_scopes parser rule mode c).errors.stack ≡ c.errors.stack)
        × ((enter_scopes parser rule mode c).errors.flight ≡ c.errors.flight)
        × ((enter_scopes parser rule mode c).errors.errors ≡ c.errors.errors)
  unfolding enter_scopes begin_entry_rule_scope
  enter-rest execution_probe c = (refl, refl, refl, refl, refl)
  enter-rest execution_normal c = (refl, refl, ground arith, ground arith, ground arith)

  -- What `finish_rule` does where a rule fails without an error.
  fails_quietly :
      (mode : RuleExecutionMode) (snap : ParserSnapshot) (start : ℕ) (pre : Lexeme)
      (result : RuleResult) (c : Context) (editor : Editor) (errors : SyntaxErrors)
      → result.succeeded ≡ false
      → (is_normal mode && is_error result.kind) ≡ false
      → truncate_created start c.editor ≡ ok editor
      → pop_frame c.errors false ≡ ok errors
      → finish_rule parser rule mode snap start pre (result, c)
        ≡ ok (result, record c { editor = editor; stream = restore snap c.stream; errors = errors })
  unfolding finish_rule handle_failure_state
  fails_quietly execution_probe snap start pre result c editor errors s k t p = rw (s, t, p) refl
  fails_quietly execution_normal snap start pre result c editor errors s k t p =
      rw (s, t, k, p) refl

  pub body_context-input :
      (mode : RuleExecutionMode) (c : Context)
      → Onward c.stream (body_context parser rule mode c).stream
  unfolding enter_scopes
  body_context-input execution_probe c = peek-Onward c.stream
  body_context-input execution_normal c = peek-Onward c.stream

  -- A rule that fails in a probe, or fails without an error in normal mode, does not panic, provided its
  -- body worked within its own frame on an editor that is not frozen. It hands on the body's result and
  -- undoes everything: the token stream with its cache, the recovery scopes, the frames, the errors and
  -- the ledger of nodes are those from before the rule.
  pub failure_restores :
      (mode : RuleExecutionMode) (c : Context) (result : RuleResult) (c1 : Context)
      → c.editor.frozen ≡ false
      → rule.execution_fn (body_context parser rule mode c) ≡ ok (result, c1)
      → Within (body_context parser rule mode c) c1
      → result.succeeded ≡ false
      → (is_normal mode && is_error result.kind) ≡ false
      → (c' : Context) × (execute_rule parser rule mode c ≡ ok (result, c')) × Restored c c'
  unfolding execute_rule push_frame
  failure_restores mode c result c1 mutable ran w s k =
      let c0 = record c { stream = (peek c.stream 0).1 } in
      let inside = enter_scopes parser rule mode c0 in
      let (es, ee, ek, ef, er) = enter-rest mode c0 in
      let (editor, te, tc, tf) =
        truncate_back c.editor.created w.kept.ledger.nodes c1.editor
          (w.kept.ledger.created ∙ ap (λ (e : Editor). e.created ++ w.kept.ledger.nodes) ee)
          (w.kept.ledger.frozen ∙ ap (λ (e : Editor). e.frozen) ee ∙ mutable) in
      let (errors, pe, ps, pf, px) = extended_rollback inside.errors c1.errors w.errors in
      let quiet =
        fails_quietly mode (save c.stream) (length c.editor.created) (peek c.stream 0).0 result c1
          editor errors s k te pe in
      let c2 : Context = record c1 {
        editor = editor;
        stream = restore (save c.stream) c1.stream;
        errors = errors;
      } in
      let (c3, le, ls, led, lr, lk, lf, lx, ld) =
        leave-enter mode c0 c2 w.kept.recovery
          (pop_frame-depth c1.errors errors false pe ∙ w.kept.depth) in
      let input =
        Onward-trans c.stream (body_context parser rule mode c).stream c1.stream
          (body_context-input mode c) w.kept.input in
      (
        c3,
        rw (ran, quiet, le) refl,
        record {
          stream =
              ls ∙ restore-save c.stream c1.stream input.lexemes input.eof_token input.skip_stack;
          recovery = lr;
          stack = lk ∙ ps ∙ ek;
          flight = lf ∙ pf ∙ ef;
          errors = lx ∙ px ∙ er;
          created = ap (λ (e : Editor). e.created) led ∙ tc;
        },
      )
