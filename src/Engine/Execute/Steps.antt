-- ===== src/Engine/Execute/Steps.antt =====
-- parser.go: what the parts of the envelope leave alone.
use syntaxa.Prelude.{
  ℕ, ◌≡◌, refl, sym, ap, ◌∙◌, Bool, true, false, not, ◌&&◌, ◌||◌, Option, none, some, List, [], ◌∷◌,
  ◌++◌, String, drop, append_assoc, append-nil, arith, ◌==◌, if◌then◌else◌, Outcome, ok, >>=-eq-ok,
  Bool-cases, inl, inr,
}
use syntaxa.Tokens.{Lexeme, TokenKind}
use syntaxa.Stream.{TokenStream, ParserSnapshot, restore, peek, consume_raw, ahead}
use syntaxa.Recovery.{RecoveryCore, is_recovery_token}
use syntaxa.Errors.{
  ErrorFrame, SyntaxError, Message, unexpected_expected, current_best_position,
  current_frame_would_be_empty_on_pop, SyntaxErrors, replace_best,
}
use syntaxa.Errors.Frames.{Extends-replace_best}
use syntaxa.Lst.Heap.{Pointer, Editor, write}
use syntaxa.Engine.{Context, Executor, RuleIdentity, RuleResult, ParserRule, SyntaxaParser}
use syntaxa.Engine.Reports.{error_at, replace_best_error_at}
use mathlib.Core.Path.{subst}
use syntaxa.Engine.Recover.Landing.{perform_recovery-first_phase}
use syntaxa.Engine.Recover.{
  Landed, discard_over, is_sync, perform_recovery_discard_phase, perform_recovery,
}
use syntaxa.Engine.Execute.{
  failure_lexeme, is_program_rule, best_is_at, post_process_nodes, process_post_rule_hooks,
  post_hooks, report_failure, report_before_recovery,
}
use syntaxa.Engine.Execute.Discipline.{
  Onward, Onward-self, Grown, Kept, Within, Onward-trans, peek-Onward,
}

-- A body that only works within its own frame.
abbrev pub IsDisciplined : Executor → Type 0
IsDisciplined body =
    (c c' : Context) (result : RuleResult) (f : ErrorFrame) (r : List ErrorFrame)
    → c.errors.stack ≡ f ∷ r
    → body c ≡ ok (result, c')
    → Within c c'

-- A post-processor that only adds nodes.
abbrev pub IsGrowing : (Pointer → RuleIdentity → Editor → Outcome Editor) → Type 0
IsGrowing hook =
    (p : Pointer) (identity : RuleIdentity) (e e' : Editor) → hook p identity e ≡ ok e' → Grown e e'

pub Grown-self : (e : Editor) → Grown e e
Grown-self e = record { nodes = []; created = sym (append-nil e.created); frozen = refl }

pub Grown-trans : (e f g : Editor) → Grown e f → Grown f g → Grown e g
Grown-trans e f g x y = record {
  nodes = x.nodes ++ y.nodes;
  created = y.created ∙ ap (λ l. l ++ y.nodes) x.created ∙ append_assoc e.created x.nodes y.nodes;
  frozen = y.frozen ∙ x.frozen;
}

pub Kept-trans : (c d e : Context) → Kept c d → Kept d e → Kept c e
Kept-trans c d e x y = record {
  input = Onward-trans c.stream d.stream e.stream x.input y.input;
  recovery = y.recovery ∙ x.recovery;
  depth = y.depth ∙ x.depth;
  ledger = Grown-trans c.editor d.editor e.editor x.ledger y.ledger;
}

-- The hooks keep the ledger as their post-processor does.
pub post_process_nodes-Grown :
    (hook : Pointer → RuleIdentity → Editor → Outcome Editor) (identity : RuleIdentity)
    (ps : List Pointer) (e e' : Editor)
    → IsGrowing hook
    → post_process_nodes hook identity ps e ≡ ok e'
    → Grown e e'
unfolding post_process_nodes
post_process_nodes-Grown hook identity [] e e' g h = record {
  nodes = [];
  created = ground (arith, append-nil e.created);
  frozen = ground arith;
}
post_process_nodes-Grown hook identity (p ∷ ps) e e' g h =
    elim (Bool-cases (e.heap p).post_processed) [
      | inl q ↦ post_process_nodes-Grown hook identity ps e e' g (ground arith)
      | inr q ↦
          let (f, hf, hr) =
            >>=-eq-ok (hook p identity e)
              (λ e1.
                post_process_nodes hook identity ps
                  (write p (record (e1.heap p) { post_processed = true }) e1))
              (ground arith) in
          let rest =
            post_process_nodes-Grown hook identity ps
              (write p (record (f.heap p) { post_processed = true }) f) e' g hr in
          Grown-trans e f e' (g p identity e f hf)
            (record { nodes = rest.nodes; created = rest.created; frozen = rest.frozen })
    ]

pub consume_raw-Onward : (s : TokenStream) → Onward s (consume_raw s).1
unfolding consume_raw
consume_raw-Onward s = record {
  lexemes = ground arith;
  eof_token = ground arith;
  skip_stack = ground arith;
  onward = ground arith;
  inside = λ h. ground arith;
}

pub if-case {ℓ κ} :
    {A : Type ℓ} (P : A → Type κ) (b : Bool) {x y : A} → P x → P y → P (if b then x else y)
if-case P true p q = p
if-case P false p q = q

discard_over-Onward :
    (ls : List Lexeme) (eof : TokenKind) (rc : RecoveryCore) (rule : ParserRule) (b : Bool)
    (s : TokenStream)
    → Onward s (discard_over ls eof rc rule b s).1
unfolding discard_over
discard_over-Onward [] eof rc rule b s = Onward-self s
discard_over-Onward (l ∷ ls) eof rc rule b s =
    let P = λ (r : Landed). Onward s r.1 in
    if-case P (l.token == eof) (Onward-self s) (
      if-case P (is_sync b rc l.token) (Onward-self s) (
        Onward-trans s (consume_raw s).1 (discard_over ls eof rc rule b (consume_raw s).1).1
          (consume_raw-Onward s) (discard_over-Onward ls eof rc rule b (consume_raw s).1)))

pub perform_recovery-Onward :
    (eof : TokenKind) (rc : RecoveryCore) (rule : ParserRule) (s : TokenStream)
    → Onward s (perform_recovery eof rc rule s).1
unfolding perform_recovery_discard_phase
perform_recovery-Onward eof rc rule s =
    subst (λ (r : Landed). Onward s r.1) (sym (perform_recovery-first_phase eof rc rule s))
      (discard_over-Onward (ahead s) eof rc rule true s)

replace_best-depth :
    (s : SyntaxErrors) (e : SyntaxError)
    → (replace_best s e).0.entry_rule_scope_depth ≡ s.entry_rule_scope_depth
unfolding replace_best
replace_best-depth s e = ground arith

pub Within-stream :
    (b c : Context) (ts : TokenStream)
    → Onward c.stream ts
    → Within b c
    → Within b (record c { stream = ts })
Within-stream b c ts i w = record {
  kept = record {
    input = Onward-trans b.stream c.stream ts w.kept.input i;
    recovery = w.kept.recovery;
    depth = w.kept.depth;
    ledger = w.kept.ledger;
  };
  errors = w.errors;
}

-- A stream that was put back to where `b` started.
pub Within-restored :
    (b c : Context) (snap : ParserSnapshot)
    → snap.token_index ≡ b.stream.cursor
    → Within b c
    → Within b (record c { stream = restore snap c.stream })
unfolding restore
Within-restored b c snap at w = record {
  kept = record {
    input = record {
      lexemes = w.kept.input.lexemes;
      eof_token = w.kept.input.eof_token;
      skip_stack = w.kept.input.skip_stack;
      onward = omega arith;
      inside = λ h. omega arith;
    };
    recovery = w.kept.recovery;
    depth = w.kept.depth;
    ledger = w.kept.ledger;
  };
  errors = w.errors;
}

Within-replace :
    (b c : Context) (rule : String) (l : Lexeme) (m : Message)
    → Within b c
    → Within b (replace_best_error_at rule l m c)
unfolding replace_best_error_at
Within-replace b c rule l m w =
    let e = error_at rule m l.start l.end l.token_number in
    record {
      kept = record {
        input = w.kept.input;
        recovery = w.kept.recovery;
        depth = replace_best-depth c.errors e ∙ w.kept.depth;
        ledger = w.kept.ledger;
      };
      errors = Extends-replace_best w.errors e;
    }

module _ (parser : SyntaxaParser) (rule : ParserRule) where
  report_failure-Within :
      (snap : ParserSnapshot) (pre : Lexeme) (b c : Context)
      → Within b c
      → Within b (report_failure rule snap pre c)
  unfolding report_failure failure_lexeme
  report_failure-Within snap pre b c w = elim (Bool-cases (c.stream.cursor == snap.token_index)) [
    | inl t ↦ rw t (
        Within-replace b c rule.identity.rule_name pre
          (unexpected_expected pre.token rule.identity.expected_label) w)
    | inr t ↦
        let (l, ts) = peek c.stream 0 in
        rw t (
          Within-replace b (record c { stream = ts }) rule.identity.rule_name l
            (unexpected_expected l.token rule.identity.expected_label)
            (Within-stream b c ts (peek-Onward c.stream) w))
  ]

  -- A report before recovery reaches no further than the best error of the frame on top.
  pub report-Within :
      (snap : ParserSnapshot) (pre : Lexeme) (b c : Context)
      → Within b c
      → Within b (report_before_recovery parser rule snap pre c)
  unfolding report_before_recovery
  report-Within snap pre b c w = if-case (Within b) test (report_failure-Within snap pre b c w) w
    where
      test : Bool
      test =
          not (is_program_rule parser rule)
          && (not (is_recovery_token c.recovery pre.token)
              && (current_frame_would_be_empty_on_pop c.errors
                  || best_is_at (current_best_position c.errors) snap.token_index))

  hooks_of :
      (hooks : Option (Pointer → RuleIdentity → Editor → Outcome Editor)) (start : ℕ)
      (e e' : Editor)
      → ((hook : Pointer → RuleIdentity → Editor → Outcome Editor)
          → hooks ≡ some hook
          → IsGrowing hook)
      → post_hooks hooks rule.identity start e ≡ ok e'
      → Grown e e'
  unfolding post_hooks
  hooks_of none start e e' g h = record {
    nodes = [];
    created = ground (arith, append-nil e.created);
    frozen = ground arith;
  }
  hooks_of (some hook) start e e' g h =
      post_process_nodes-Grown hook rule.identity (drop start e.created) e e' (g hook refl) h

  pub hooks-Grown :
      (start : ℕ) (c c' : Context)
      → ((hook : Pointer → RuleIdentity → Editor → Outcome Editor)
          → parser.post_processor ≡ some hook
          → IsGrowing hook)
      → process_post_rule_hooks parser rule start c ≡ ok c'
      → (editor : Editor) × Grown c.editor editor × (record c { editor = editor } ≡ c')
  unfolding process_post_rule_hooks
  hooks-Grown start c c' g h =
      let (e, he, hc) =
        >>=-eq-ok (post_hooks parser.post_processor rule.identity start c.editor) _ h in
      (e, hooks_of parser.post_processor start c.editor e g he, ground arith)
