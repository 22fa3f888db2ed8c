-- ===== src/Rules/Work.antt =====
-- rule/factory.go: the calls of a rule's body as work within the error frame of the rule.
use syntaxa.Prelude.{
  ℕ, ◌≡◌, refl, sym, ◌∙◌, Bool, true, false, Option, none, some, List, [], ◌∷◌, String, arith,
  Outcome, ok, panic, ◌>>=◌, >>=-eq-ok, append-nil,
}
use Prim.Native.String.{◌++◌ as str_append}
use mathlib.Core.Path.{subst}
use syntaxa.Tokens.{Lexeme}
use syntaxa.Stream.{
  stops, ahead, get_last_consumed_lexeme, TokenStream, consume, skip_forward, skip_forward_on,
  consume_raw,
}
use syntaxa.Errors.{SyntaxErrors, SyntaxError, Message, report}
use syntaxa.Errors.Frames.{Extends-report, Extends-trans}
use syntaxa.Lst.Heap.{Pointer, NodeKind, Editor, add_token}
use syntaxa.Lst.Pool.{new_node, new_transient_node}
use syntaxa.Lst.Pool.Returns.{new_node_ok}
use syntaxa.Lst.Structure.{attach_child, attach_result}
use syntaxa.Engine.{Context, RuleResult, RuleIdentity, ParserRule, SyntaxaParser, Executor}
use syntaxa.Engine.Reports.{report_in_context, report_at, report_at_end}
use syntaxa.Engine.Execute.Discipline.{Onward, Onward-trans, Grown, Within, peek-Onward}
use syntaxa.Engine.Execute.Steps.{
  IsDisciplined, Kept-trans, if-case, consume_raw-Onward, Within-stream,
}
use syntaxa.Engine.Execute.Failure.{Within-nested, Within-editor}
use syntaxa.Lst.Structure.Rest.{
  SameLedger, add_token-SameLedger, new_transient_node-SameLedger, attach_child-SameLedger,
  attach_result-SameLedger,
}
use syntaxa.Rules.{
  zero_kind, follows, fake_node, peek_token, consume_token, create_node, create_transient_node,
  add_token_to, attach_child_in, attach_result_in, attach_results_to_node, report_behind,
  report_after_last, report_expected_error, try_follow_set_insertion,
}

-- Work that starts in `b` is still within its frame where `m` returns.
abbrev pub Stays {ℓ} : Context → {A : Type ℓ} → Outcome (A × Context) → Type ℓ
Stays b {A} m = (a : A) (c : Context) → m ≡ ok (a, c) → Within b c

abbrev pub Ends : Context → Outcome Context → Type 0
Ends b m = (c : Context) → m ≡ ok c → Within b c

pub Within-trans : (b c d : Context) → Within b c → Within c d → Within b d
Within-trans b c d x y = record {
  kept = Kept-trans b c d x.kept y.kept;
  errors = Extends-trans x.errors y.errors;
}

SameLedger-Grown : (e e' : Editor) → SameLedger e e' → Grown e e'
SameLedger-Grown e e' s = record {
  nodes = [];
  created = s.created ∙ sym (append-nil e.created);
  frozen = s.frozen;
}

report-depth :
    (s : SyntaxErrors) (e : SyntaxError)
    → (report s e).entry_rule_scope_depth ≡ s.entry_rule_scope_depth
unfolding report
report-depth s e = ground arith

same_cursor-Onward :
    (ts : TokenStream) (i : ℕ) (b : Bool)
    → Onward ts (record ts { next_visible_raw_index = i; next_visible_cached = b })
same_cursor-Onward ts i b = record {
  lexemes = refl;
  eof_token = refl;
  skip_stack = refl;
  onward = omega arith;
  inside = λ h. h;
}

skip_forward_on-Onward : (ls : List Lexeme) (ts : TokenStream) → Onward ts (skip_forward_on ls ts)
unfolding skip_forward_on
skip_forward_on-Onward [] ts = same_cursor-Onward ts 0 true
skip_forward_on-Onward (l ∷ ls) ts =
    if-case (Onward ts) (stops ts.eof_token ts.skip_stack l) (same_cursor-Onward ts 0 true) (
      Onward-trans ts (consume_raw ts).1 (skip_forward_on ls (consume_raw ts).1)
        (consume_raw-Onward ts) (skip_forward_on-Onward ls (consume_raw ts).1))

consume-Onward : (ts : TokenStream) → Onward ts (consume ts).1
unfolding consume skip_forward
consume-Onward ts =
    Onward-trans ts (skip_forward ts) (consume ts).1 (skip_forward_on-Onward (ahead ts) ts)
      (consume_raw-Onward (skip_forward ts))

module _ (b : Context) where
  pub ok-Stays {ℓ} : {A : Type ℓ} (a : A) (c : Context) → Within b c → Stays b (ok (a, c))
  ok-Stays a c w a' c' h = subst (Within b) (cc h) w

  pub panic-Stays {ℓ} : {A : Type ℓ} (p : _) → Stays b {A = A} (panic p)
  panic-Stays p a c h = cc h

  -- A step and what follows it.
  pub >>=-Stays {ℓ κ} :
      {A : Type ℓ} {B : Type κ} (m : Outcome (A × Context))
      (next : A × Context → Outcome (B × Context))
      → Stays b m
      → ((a : A) (c : Context) → Within b c → Stays b (next (a, c)))
      → Stays b (m >>= next)
  >>=-Stays m next s n a' c' h =
      let ((a, c), h1, h2) = >>=-eq-ok m next h in n a c (s a c h1) a' c' h2

  pub Ends-Stays {κ} :
      {B : Type κ} (m : Outcome Context) (next : Context → Outcome (B × Context))
      → Ends b m
      → ((c : Context) → Within b c → Stays b (next c))
      → Stays b (m >>= next)
  Ends-Stays m next s n a' c' h = let (c, h1, h2) = >>=-eq-ok m next h in n c (s c h1) a' c' h2

  -- A body that only works in its own frame can be run within an outer one.
  pub run-Stays :
      (body : Executor) (c : Context) → IsDisciplined body → Within b c → Stays b (body c)
  run-Stays body c d w r c' h =
      Within-trans b c c' w (d c c' r w.errors.top' w.errors.rest w.errors.after h)

  -- The calls on the stream.
  pub peek-Within : (c : Context) → Within b c → Within b (peek_token c).1
  peek-Within c w = Within-stream b c (peek_token c).1.stream (peek-Onward c.stream) w

  pub consume-Within : (c : Context) → Within b c → Within b (consume_token c).1
  consume-Within c w = Within-stream b c (consume c.stream).1 (consume-Onward c.stream) w

  -- The reports.
  report-Within : (e : SyntaxError) (c : Context) → Within b c → Within b (report_in_context e c)
  report-Within e c w = record {
    kept = record {
      input = w.kept.input;
      recovery = w.kept.recovery;
      depth = report-depth c.errors e ∙ w.kept.depth;
      ledger = w.kept.ledger;
    };
    errors = Extends-report w.errors e;
  }

  pub report_at-Within :
      (name : String) (l : Lexeme) (m : Message) (c : Context)
      → Within b c
      → Within b (report_at name l m c)
  unfolding report_at
  report_at-Within name l m c w = report-Within _ c w

  pub report_behind-Within :
      (last : Option Lexeme) (name : String) (l : Lexeme) (m : Message) (c : Context)
      → Within b c
      → Within b (report_behind last name l m c)
  unfolding report_behind report_at_end
  report_behind-Within none name l m c w = report_at-Within name l m c w
  report_behind-Within (some last) name l m c w = report-Within _ c w

  pub report_expected-Within :
      (name expected : String) (l : Lexeme) (c : Context)
      → Within b c
      → Within b (report_expected_error name expected l c)
  unfolding report_expected_error
  report_expected-Within name expected l c w =
      report_behind-Within (get_last_consumed_lexeme c.stream) name l _ c w

  -- The calls on the editor.
  same-Within :
      (c : Context) (e : Editor)
      → SameLedger c.editor e
      → Within b c
      → Within b (record c { editor = e })
  same-Within c e s w = Within-editor b c e (SameLedger-Grown c.editor e s) w

  pub create_node-Stays :
      (kind : NodeKind) (c : Context) → Within b c → Stays b (create_node kind c)
  create_node-Stays kind c w p c' h =
      let ((q, e), h1, r1) = >>=-eq-ok (new_node kind c.editor) _ h in
      let (g, f) = new_node_ok kind c.editor q e h1 in
      subst (Within b) (ground arith)
        (Within-editor b c e (record { nodes = q ∷ []; created = g; frozen = f }) w)

  pub create_transient_node-Stays :
      (kind : NodeKind) (c : Context) → Within b c → Stays b (create_transient_node kind c)
  create_transient_node-Stays kind c w p c' h =
      let ((q, e), h1, r1) = >>=-eq-ok (new_transient_node kind c.editor) _ h in
      subst (Within b) (ground arith)
        (same-Within c e (new_transient_node-SameLedger kind c.editor q e h1) w)

  pub add_token_to-Ends :
      (p : Pointer) (l : Lexeme) (c : Context) → Within b c → Ends b (add_token_to p l c)
  add_token_to-Ends p l c w c' h =
      let (e, h1, r1) = >>=-eq-ok (add_token p l c.editor) _ h in
      subst (Within b) (ground arith) (same-Within c e (add_token-SameLedger p l c.editor e h1) w)

  pub attach_child_in-Ends :
      (p : Pointer) (child : Option Pointer) (c : Context)
      → Within b c
      → Ends b (attach_child_in p child c)
  attach_child_in-Ends p child c w c' h =
      let (e, h1, r1) = >>=-eq-ok (attach_child p child c.editor) _ h in
      subst (Within b) (ground arith)
        (same-Within c e (attach_child-SameLedger p child c.editor e h1) w)

  pub attach_result_in-Ends :
      (p : Pointer) (r : RuleResult) (c : Context) → Within b c → Ends b (attach_result_in p r c)
  attach_result_in-Ends p r c w c' h =
      let (e, h1, r1) = >>=-eq-ok (attach_result p r.node r.is_fragment c.editor) _ h in
      subst (Within b) (ground arith)
        (same-Within c e (attach_result-SameLedger p r.node r.is_fragment c.editor e h1) w)

  pub attach_results-Ends :
      (p : Pointer) (rs : List RuleResult) (c : Context)
      → Within b c
      → Ends b (attach_results_to_node p rs c)
  unfolding attach_results_to_node
  attach_results-Ends p [] c w c' h = subst (Within b) (cc h) w
  attach_results-Ends p (r ∷ rs) c w c' h =
      let (c1, h1, r1) = >>=-eq-ok (attach_result_in p r c) _ h in
      attach_results-Ends p rs c1 (attach_result_in-Ends p r c w c1 h1) c' r1

  -- The insertion for a rule that is missing.
  pub insertion-Stays :
      (parser : SyntaxaParser) (rule : ParserRule) (identity : RuleIdentity) (l : Lexeme)
      (c : Context)
      → Within b c
      → Stays b (try_follow_set_insertion parser rule identity l c)
  unfolding try_follow_set_insertion fake_node
  insertion-Stays parser rule identity l c w =
      if-case (Stays b) (follows parser.analysis rule.grammar l.token)
        (>>=-Stays (fake_node rule.contract.must_return_node reported) _
          (fake-Stays rule.contract.must_return_node reported
            (report_behind-Within (get_last_consumed_lexeme c.stream) identity.rule_name l _ c w))
          (λ node c1 w1. ok-Stays _ c1 w1))
        (ok-Stays none c w)
    where
      reported : Context
      reported =
          report_after_last identity.rule_name l
            (str_append "missing " rule.identity.expected_label) c

      fake-Stays : (wanted : Bool) (c : Context) → Within b c → Stays b (fake_node wanted c)
      fake-Stays false c w = ok-Stays none c w
      fake-Stays true c w =
          >>=-Stays (create_transient_node zero_kind c) _
            (create_transient_node-Stays zero_kind c w) (λ p c1 w1. ok-Stays (some p) c1 w1)

-- A body that is work within any frame that it is run in.
abbrev pub IsContained : Executor → Type 0
IsContained body = (b c : Context) → Within b c → Stays b (body c)

pub IsContained-IsDisciplined : (body : Executor) → IsContained body → IsDisciplined body
IsContained-IsDisciplined body i c c' result f r inside h =
    i c c (Within-nested c f r inside) result c' h

pub IsDisciplined-IsContained : (body : Executor) → IsDisciplined body → IsContained body
IsDisciplined-IsContained body d b c w = run-Stays b body c d w
