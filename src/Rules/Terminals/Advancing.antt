-- ===== src/Rules/Terminals/Advancing.antt =====
-- rule/factory.go, `expectCore`: a token rule that succeeds has moved on.
use syntaxa.Prelude.{
  ◌<◌, ◌≡◌, ◌⊎◌, refl, sym, ap, ◌∙◌, Bool, true, false, List, contains, arith, Outcome, ok,
  >>=-eq-ok, Bool-cases, inl, inr,
}
use mathlib.Core.Path.{subst}
use syntaxa.Tokens.{TokenKind, Lexeme}
use syntaxa.Stream.{TokenStream, peek, consume}
use syntaxa.Stream.Progress.{remaining, peek_end, peek-remaining, consume-remaining}
use syntaxa.Lst.Heap.{NodeKind, add_token}
use syntaxa.Lst.Pool.{new_node}
use syntaxa.Engine.{
  Context, failure_no_match, RuleResult, RuleExecutionMode, execution_normal, execution_probe,
  ParserRule, SyntaxaParser,
}
use syntaxa.Engine.Execute.{enter_scopes}
use syntaxa.Engine.Execute.Discipline.{body_context, body_context-input}
use syntaxa.Engine.Execute.Results.{execute_rule-from_body}
use syntaxa.Rules.{peek_token, consume_token, create_node, add_token_to}
use syntaxa.Rules.Terminals.{expect_accept, expect_exec}
use syntaxa.Rules.Repeats.Ends.{IsAdvancing}

-- What a token rule does: it takes a token that it wants, or it fails without an error.
abbrev Expected : List TokenKind → Context → RuleResult → Context → Type 0
Expected tokens c r c' =
    ((contains tokens (peek c.stream 0).0.token ≡ true)
      × (r.succeeded ≡ true)
      × (c'.stream ≡ (consume (peek c.stream 0).1).1))
    ⊎ ((r.succeeded ≡ false) × (r.kind ≡ failure_no_match))

expect_accept-stream :
    (kind : NodeKind) (add_node : Bool) (c c' : Context) (r : RuleResult)
    → expect_accept kind add_node c ≡ ok (r, c')
    → (r.succeeded ≡ true) × (c'.stream ≡ (consume c.stream).1)
unfolding expect_accept
expect_accept-stream kind false c c' r h = (ground arith, ground arith)
expect_accept-stream kind true c c' r h =
    let (value, c1) = consume_token c in
    let ((p, c2), h1, r1) = >>=-eq-ok (create_node kind c1) _ h in
    let ((q, e), h2, r2) = >>=-eq-ok (new_node kind c1.editor) _ h1 in
    let (c3, h3, r3) = >>=-eq-ok (add_token_to p value c2) _ r1 in
    let (e2, h4, r4) = >>=-eq-ok (add_token p value c2.editor) _ h3 in (ground arith, ground arith)

expect_exec-Expected :
    (kind : NodeKind) (add_node : Bool) (tokens : List TokenKind) (c c' : Context) (r : RuleResult)
    → expect_exec kind add_node tokens c ≡ ok (r, c')
    → Expected tokens c r c'
unfolding expect_exec
expect_exec-Expected kind add_node tokens c c' r h =
    elim (Bool-cases (contains tokens (peek c.stream 0).0.token)) [
      | inl t ↦
          let taken : expect_accept kind add_node (peek_token c).1 ≡ ok (r, c') = ground arith in
          let (s, k) = expect_accept-stream kind add_node (peek_token c).1 c' r taken in
          inl (t, s, k)
      | inr t ↦ inr (ground arith, ground arith)
    ]

-- The body runs on the stream of the rule.
body_context-stream :
    (parser : SyntaxaParser) (rule : ParserRule) (mode : RuleExecutionMode) (c : Context)
    → (body_context parser rule mode c).stream ≡ (peek c.stream 0).1
unfolding enter_scopes
body_context-stream parser rule execution_probe c = refl
body_context-stream parser rule execution_normal c = refl

taken-moves :
    (tokens : List TokenKind) (s : TokenStream)
    → contains tokens s.eof_token ≡ false
    → contains tokens (peek s 0).0.token ≡ true
    → remaining (consume (peek s 0).1).1 < remaining s
taken-moves tokens s f t = elim (consume-remaining (peek s 0).1) [
  | inl less ↦ let p = peek-remaining s in omega arith
  | inr (none_left, still) ↦
      let at_end = ap (λ (l : Lexeme). l.token) (peek_end s (sym (peek-remaining s) ∙ none_left)) in
      absurd (ground arith)
]

-- A token rule whose tokens do not include the end of the input advances.
pub expect-IsAdvancing :
    (parser : SyntaxaParser) (rule : ParserRule) (b : Context) (kind : NodeKind) (add_node : Bool)
    (tokens : List TokenKind)
    → rule.execution_fn ≡ expect_exec kind add_node tokens
    → rule.is_recovery_barrier ≡ false
    → contains tokens b.stream.eof_token ≡ false
    → IsAdvancing parser rule b
expect-IsAdvancing parser rule b kind add_node tokens x plain f = record {
  moves = λ c c' r w h s.
      let (r1, c1, ran, v, kept) =
        execute_rule-from_body parser rule plain execution_normal c c' r h in
      let d = body_context parser rule execution_normal c in
      let body = sym (ap (λ (g : Context → Outcome (RuleResult × Context)). g d) x) ∙ ran in
      elim (expect_exec-Expected kind add_node tokens d c1 r1 body) [
        | inl (t, s1, there) ↦
            let inner = body_context-stream parser rule execution_normal c in
            let input = body_context-input parser rule execution_normal c in
            let same_eof : d.stream.eof_token ≡ b.stream.eof_token =
              input.eof_token ∙ w.kept.input.eof_token in
            let less = taken-moves tokens d.stream (ap (contains tokens) same_eof ∙ f) t in
            let at : c'.stream ≡ (consume (peek d.stream 0).1).1 = kept s1 ∙ there in
            let less' : remaining c'.stream < remaining d.stream =
              subst (λ (q : TokenStream). remaining q < remaining d.stream) (sym at) less in
            let start : remaining d.stream ≡ remaining c.stream =
              ap remaining inner ∙ peek-remaining c.stream in
            subst (λ n. remaining c'.stream < n) start less'
        | inr (s1, k) ↦ let q = v.succeeded in absurd (ground arith)
      ];
  kinds = λ c c' r w h s e.
      let (r1, c1, ran, v, kept) =
        execute_rule-from_body parser rule plain execution_normal c c' r h in
      let d = body_context parser rule execution_normal c in
      let body = sym (ap (λ (g : Context → Outcome (RuleResult × Context)). g d) x) ∙ ran in
      elim (expect_exec-Expected kind add_node tokens d c1 r1 body) [
        | inl (t, s1, there) ↦ let q = v.succeeded in absurd (ground arith)
        | inr (s1, k) ↦ let q = v.kind in absurd (ground arith)
      ];
}
