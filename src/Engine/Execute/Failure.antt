-- ===== src/Engine/Execute/Failure.antt =====
-- parser.go, `handleFailureState`: what a failure with its recovery leaves alone.
use syntaxa.Prelude.{
  ◌≡◌, refl, sym, ap, ◌∙◌, Bool, true, false, not, ◌&&◌, ◌||◌, Option, none, some, List, [], ◌∷◌,
  ◌++◌, arith, ◌==◌, if◌then◌else◌, Outcome, ok, ◌>>=◌, >>=-eq-ok, Bool-cases, inl, inr,
}
use mathlib.Core.Path.{subst}
use syntaxa.Tokens.{Lexeme}
use syntaxa.Stream.{ParserSnapshot, peek_raw, consume_raw}
use syntaxa.Recovery.{recovery_token_ownership}
use syntaxa.Errors.{ErrorFrame, SyntaxErrors, new_frame, push_frame, pop_frame}
use syntaxa.Errors.Frames.{Extends, Extends-self, Extends-pop}
use syntaxa.Lst.Heap.{Pointer, Editor}
use syntaxa.Lst.Pool.{new_node}
use syntaxa.Lst.Pool.Returns.{new_node_ok}
use syntaxa.Engine.{Context, RuleResult, RuleExecutionMode, ParserRule, SyntaxaParser}
use syntaxa.Engine.Recover.{Landed, perform_recovery}
use syntaxa.Engine.Execute.{
  is_normal, is_error, pop_error_frame, push_error_frame, restore_stream, report_before_recovery,
  error_node_result, after_recovery, recover, handle_failure_state,
}
use syntaxa.Engine.Execute.Discipline.{
  Onward, Onward-self, Onward-trans, Grown, Within, pop_frame-depth,
}
use syntaxa.Engine.Execute.Steps.{
  if-case, Grown-self, Grown-trans, consume_raw-Onward, perform_recovery-Onward, Within-restored,
  Within-stream, report-Within,
}

pub Within-nested :
    (c : Context) (f : ErrorFrame) (r : List ErrorFrame) → c.errors.stack ≡ f ∷ r → Within c c
Within-nested c f r h = record {
  kept = record {
    input = Onward-self c.stream;
    recovery = refl;
    depth = refl;
    ledger = Grown-self c.editor;
  };
  errors = Extends-self c.errors f r h;
}

pub Within-self : (c : Context) → Within (push_error_frame c) (push_error_frame c)
unfolding push_frame
Within-self c = Within-nested (push_error_frame c) (new_frame c.errors) c.errors.stack refl

pub ok-eq-ok {ℓ} : {A : Type ℓ} {a b : A} → ok a ≡ ok b → a ≡ b
ok-eq-ok h = cc h

pub Within-editor :
    (b c : Context) (e : Editor)
    → Grown c.editor e
    → Within b c
    → Within b (record c { editor = e })
Within-editor b c e g w = record {
  kept = record {
    input = w.kept.input;
    recovery = w.kept.recovery;
    depth = w.kept.depth;
    ledger = Grown-trans b.editor c.editor e w.kept.ledger g;
  };
  errors = w.errors;
}

-- Popping a nested frame stays within the outer one.
pub pop-Within :
    (b d c c' : Context) (commit : Bool)
    → Within b d
    → Within (push_error_frame d) c
    → pop_error_frame commit c ≡ ok c'
    → Within b c'
unfolding push_frame
pop-Within b d c c' commit x y h =
    let (s, hs, hc) = >>=-eq-ok (pop_frame c.errors commit) _ h in
    let there : Within b (record c { errors = s }) = record {
      kept = record {
        input = Onward-trans b.stream d.stream c.stream x.kept.input y.kept.input;
        recovery = y.kept.recovery ∙ x.kept.recovery;
        depth = pop_frame-depth c.errors s commit hs ∙ (y.kept.depth ∙ x.kept.depth);
        ledger = Grown-trans b.editor d.editor c.editor x.kept.ledger y.kept.ledger;
      };
      errors = Extends-pop x.errors commit y.errors hs;
    } in
    subst (Within b) (ground arith) there

abbrev pub answer : RuleResult → Context → Outcome (RuleResult × Context)
answer result c = ok (result, c)

-- The frames and errors alone decide what it is to extend.
pub rebase :
    (s s' t t' : SyntaxErrors)
    → s'.stack ≡ s.stack
    → s'.flight ≡ s.flight
    → s'.errors ≡ s.errors
    → t'.stack ≡ t.stack
    → t'.flight ≡ t.flight
    → t'.errors ≡ t.errors
    → Extends s t
    → Extends s' t'
rebase s s' t t' sk sf se tk tf te x = record {
  top = x.top;
  rest = x.rest;
  top' = x.top';
  added = x.added;
  before = sk ∙ x.before;
  after = tk ∙ x.after;
  index = x.index;
  grown = tf ∙ x.grown ∙ ap (λ l. l ++ x.added) (sym sf);
  kept = te ∙ x.kept ∙ sym se;
}

module _ (parser : SyntaxaParser) (rule : ParserRule) where
  error_node-Within :
      (b c c' : Context) (ours : Bool) (result result' : RuleResult)
      → Within b c
      → error_node_result parser rule ours result c ≡ ok (result', c')
      → Within b c'
  unfolding error_node_result
  error_node-Within b c c' ours result result' w h =
      elim (Bool-cases (ours && rule.is_recovery_barrier)) [
        | inl t ↦
            let made : error_node_result parser rule ours result c ≡ (
                new_node parser.error_node_kind c.editor >>= λ (q : Pointer × Editor).
                ok (
                  record result { succeeded = true; node = some q.0 },
                  record c { editor = q.1 },
                )) =
              rw t refl in
            let ((p, e), he, hr) =
              >>=-eq-ok (new_node parser.error_node_kind c.editor) _ (sym made ∙ h) in
            let (g, f) = new_node_ok parser.error_node_kind c.editor p e he in
            subst (Within b) (ground arith)
              (Within-editor b c e (record { nodes = p ∷ []; created = g; frozen = f }) w)
        | inr t ↦ subst (Within b) (ground arith) w
      ]

  after_recovery-Within :
      (snap : ParserSnapshot) (landed : Option Bool) (b c c' : Context)
      (result result' : RuleResult)
      → snap.token_index ≡ b.stream.cursor
      → Within b c
      → after_recovery parser rule snap result landed c ≡ ok (result', c')
      → Within b c'
  unfolding after_recovery
  after_recovery-Within snap none b c c' result result' at w h =
      elim (Bool-cases result.succeeded) [
        | inl s ↦ subst (Within b) (ground arith) w
        | inr s ↦ subst (Within b) (ground arith) (Within-restored b c snap at w)
      ]
  after_recovery-Within snap (some ours) b c c' result result' at w h =
      let no_consume = (recovery_token_ownership c.recovery (peek_raw c.stream 0).token).1 in
      let stream = if no_consume then c.stream else (consume_raw c.stream).1 in
      let same : Onward c.stream stream =
        if-case (Onward c.stream) no_consume (Onward-self c.stream) (consume_raw-Onward c.stream) in
      error_node-Within b (record c { stream = stream }) c' ours
        (record result { consume_sync_token = not no_consume }) result'
        (Within-stream b c stream same w) h

  recover-Within :
      (snap : ParserSnapshot) (pre : Lexeme) (b c c' : Context) (result result' : RuleResult)
      → snap.token_index ≡ b.stream.cursor
      → Within b b
      → Within (push_error_frame b) c
      → recover parser rule result snap pre c ≡ ok (result', c')
      → Within b c'
  unfolding recover
  recover-Within snap pre b c c' result result' at x w h =
      let reported = report-Within parser rule snap pre (push_error_frame b) c w in
      let (c1, h1, r1) =
        >>=-eq-ok (pop_error_frame true (report_before_recovery parser rule snap pre c)) _ h in
      let landed : Landed = perform_recovery parser.eof_token c1.recovery rule c1.stream in
      let (c2, h2, r2) =
        >>=-eq-ok (pop_error_frame false (record (push_error_frame c1) { stream = landed.1 })) _
          r1 in
      let w1 =
        pop-Within b b (report_before_recovery parser rule snap pre c) c1 true x reported h1 in
      let w2 =
        pop-Within b c1 (record (push_error_frame c1) { stream = landed.1 }) c2 false w1
          (Within-stream (push_error_frame c1) (push_error_frame c1) landed.1
            (perform_recovery-Onward parser.eof_token c1.recovery rule c1.stream) (Within-self c1))
          h2 in
      after_recovery-Within snap landed.0 b c2 c' result result' at w2 r2

  popped-Within :
      (b c c' : Context) (commit : Bool) (result result' : RuleResult)
      → Within b b
      → Within (push_error_frame b) c
      → (pop_error_frame commit c >>= answer result) ≡ ok (result', c')
      → Within b c'
  popped-Within b c c' commit result result' x w h =
      let (c1, h1, r1) = >>=-eq-ok (pop_error_frame commit c) (answer result) h in
      subst (Within b) (ground arith) (pop-Within b b c c1 commit x w h1)

  pub handle_failure-Within :
      (snap : ParserSnapshot) (mode : RuleExecutionMode) (pre : Lexeme) (b c c' : Context)
      (result result' : RuleResult)
      → snap.token_index ≡ b.stream.cursor
      → Within b b
      → Within (push_error_frame b) c
      → handle_failure_state parser rule result snap mode pre c ≡ ok (result', c')
      → Within b c'
  unfolding handle_failure_state
  handle_failure-Within snap mode pre b c c' result result' at x w h =
      elim (Bool-cases (not (is_normal mode) || not (is_error result.kind))) [
        | inl t ↦
            popped-Within b (restore_stream snap c) c' false result result' x
              (Within-restored (push_error_frame b) c snap at w) (ground arith)
        | inr t ↦
            elim (Bool-cases
              (not result.consume_sync_token && not (c.stream.cursor == snap.token_index))) [
                | inl q ↦ popped-Within b c c' true result result' x w (ground arith)
                | inr q ↦ recover-Within snap pre b c c' result result' at x w (ground arith)
              ]
      ]
