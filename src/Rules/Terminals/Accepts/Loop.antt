-- ===== src/Rules/Terminals/Accepts/Loop.antt =====
-- rule/factory.go, `runListAutomaton`: the loop against the shape of what it accepts.
use syntaxa.Prelude.{
  ℕ, zero, suc, ◌+◌, ◌≡◌, ◌↔◌, refl, sym, ap, ◌∙◌, Bool, true, false, not, Option, none, some, List,
  String, arith, ◌==◌, if◌then◌else◌, Outcome, ok, panic,
}
use mathlib.Core.Path.{subst}
use syntaxa.Tokens.{TokenKind, Lexeme}
use syntaxa.Stream.{TokenStream, is_eof, peek, consume, skip_forward}
use syntaxa.Stream.Visible.{IsCoherent, seen_at}
use syntaxa.Stream.Peek.{filled, peek_lem}
use syntaxa.Stream.Consume.{consume_lem}
use syntaxa.Stream.Coherence.{consume_raw-uncached}
use syntaxa.Stream.Progress.{consume-eof, peek-eof}
use syntaxa.Lst.Heap.{Pointer}
use syntaxa.Engine.{Context, RuleResult}
use syntaxa.Rules.{SharedCore, peek_token, consume_token}
use syntaxa.Rules.Terminals.{
  is_required, is_forbidden, report_specific_error, add_child_element, ListSpec, Looped, resume,
  wrong, close, after_separator, list_round, list_loop,
}
use syntaxa.Rules.Terminals.Ends.{add_child_element-stream}
use syntaxa.Rules.Terminals.Accepts.{
  IsTail, Shows, kinds_ahead, IsDistinct, accepts, accepts-IsTail, IsTail-accepts,
}

-- The stream behind its next visible lexeme, as the automaton moves on.
abbrev next_stream : TokenStream → TokenStream
next_stream ts = (consume (peek ts 0).1).1

next_stream-IsCoherent : (ts : TokenStream) → IsCoherent (next_stream ts)
unfolding consume
next_stream-IsCoherent ts = λ e. cc (consume_raw-uncached (skip_forward (peek ts 0).1))

next_stream-seen :
    (ts : TokenStream) (n : ℕ)
    → IsCoherent ts
    → is_eof ts.eof_token (seen_at ts 0) ≡ false
    → seen_at (next_stream ts) n ≡ seen_at ts (n + 1)
unfolding seen_at
next_stream-seen ts n h e =
    ap (λ (p : Lexeme × TokenStream). seen_at (consume p.1).1 n) (peek_lem ts 0 h)
    ∙ (consume_lem (filled ts)).1 e n

next_stream-eof : (ts : TokenStream) → (next_stream ts).eof_token ≡ ts.eof_token
next_stream-eof ts = consume-eof (peek ts 0).1 ∙ peek-eof ts

peek-kind : (ts : TokenStream) → IsCoherent ts → (peek ts 0).0.token ≡ kinds_ahead ts 0
peek-kind ts h = ap (λ (p : Lexeme × TokenStream). p.0.token) (peek_lem ts 0 h)

pointwise : {f g : ℕ → TokenKind} → ((n : ℕ) → f n ≡ g n) → f ≡ g
pointwise p = λ i n. p n i

-- A loop that returns agrees with the tests on whether it succeeds.
Verdict : Looped → Option Bool → Type 0
Verdict x y = (r : RuleResult) (c : Context) → x ≡ some (ok (r, c)) → y ≡ some r.succeeded

result-Verdict :
    (r : RuleResult) (c : Context) (b : Bool)
    → b ≡ r.succeeded
    → Verdict (some (ok (r, c))) (some b)
unfolding Verdict
result-Verdict r c b e r' c' h = ground arith

none-Verdict : (y : Option Bool) → Verdict none y
unfolding Verdict
none-Verdict y r c h = absurd (ground arith)

-- The same test on both sides.
if_both {ℓ κ μ} :
    {A : Type ℓ} {B : Type κ} (P : A → B → Type μ) (b b' : Bool) {x x' : A} {y y' : B}
    → b ≡ b'
    → (b ≡ true → P x y)
    → (b ≡ false → P x' y')
    → P (if b then x else x') (if b' then y else y')
if_both P true true e p q = p refl
if_both P true false e p q = cc e
if_both P false true e p q = cc e
if_both P false false e p q = q refl

module _ (core : SharedCore) (name : String) (parent : Pointer) (spec : ListSpec) where
  close-Verdict :
      (refused : Bool) (message : String) (c : Context)
      → Verdict (close core name parent spec refused message c) (some (not refused))
  unfolding report_specific_error
  close-Verdict true message c = result-Verdict _ _ false refl
  close-Verdict false message c = result-Verdict _ _ true refl

  wrong-Verdict :
      (message : String) (c : Context)
      → Verdict (wrong core name parent spec message c) (some false)
  unfolding report_specific_error
  wrong-Verdict message c = result-Verdict _ _ false refl

  resume-Verdict :
      (again : Context → Looped) (l : Lexeme) (c : Context) (y : Option Bool)
      → ((c' : Context) → c'.stream ≡ c.stream → Verdict (again c') y)
      → Verdict (resume again (add_child_element parent spec.element_kind l c)) y
  unfolding resume Verdict
  resume-Verdict again l c y a = behind (add_child_element parent spec.element_kind l c) refl
    where
      behind :
          (m : Outcome Context)
          → add_child_element parent spec.element_kind l c ≡ m
          → Verdict (resume again m) y
      behind (panic p) e r d h = absurd (ground arith)
      behind (ok c') e r d h =
          a c' (add_child_element-stream parent spec.element_kind l c c' e) r d h

  list_loop-Verdict :
      (eof : TokenKind)
      → IsDistinct spec eof
      → (fuel : ℕ) (c : Context) → IsCoherent c.stream
      → c.stream.eof_token ≡ eof
      → Verdict (list_loop core name parent spec fuel c) (accepts spec fuel (kinds_ahead c.stream))
  unfolding list_loop list_round after_separator accepts
  list_loop-Verdict eof d zero c h g = none-Verdict _
  list_loop-Verdict eof d (suc fuel) c h g =
      let s = c.stream in
      let (found, c1) = peek_token c in
      let c2 = (consume_token c1).1 in
      let (next, c3) = peek_token c2 in
      let (elem, c4) = consume_token c3 in
      let found_kind = peek-kind s h in
      let next_kind = peek-kind (next_stream s) (next_stream-IsCoherent s) in
      let same = (λ (t : TokenKind). ap (λ (k : TokenKind). k == t) found_kind) in
      let apart = d.separator_eof in
      let apart' = d.element_eof in
      if_both Verdict (found.token == spec.end) _ (same spec.end)
        (λ t. close-Verdict (is_required spec.mode) _ c1)
        (λ t.
          if_both Verdict (found.token == spec.element) _ (same spec.element)
            (λ t. wrong-Verdict _ c1)
            (λ t.
              if_both Verdict (not (found.token == spec.separator)) _ (ap not (same spec.separator))
                (λ t. wrong-Verdict _ c1)
                (λ sep.
                  let seen : (n : ℕ) → seen_at (next_stream s) n ≡ seen_at s (n + 1) =
                    (λ n. next_stream-seen s n h (ground arith)) in
                  let second : next.token ≡ kinds_ahead s 1 =
                    next_kind ∙ ap (λ (l : Lexeme). l.token) (seen 0) in
                  if_both Verdict (next.token == spec.end) _
                    (ap (λ (k : TokenKind). k == spec.end) second)
                    (λ t. close-Verdict (is_forbidden spec.mode) _ c3)
                    (λ t.
                      if_both Verdict (not (next.token == spec.element)) _
                        (ap (λ (k : TokenKind). not (k == spec.element)) second)
                        (λ t. wrong-Verdict _ c3)
                        (λ el.
                          resume-Verdict (list_loop core name parent spec fuel) elem c4 _
                            (λ c5 there.
                              let apart_next : is_eof (next_stream s).eof_token
                                    (seen_at (next_stream s) 0)
                                  ≡ false =
                                ground (arith, next_stream-eof s) in
                              let shown : (n : ℕ)
                                  → kinds_ahead c5.stream n ≡ kinds_ahead s (n + 1 + 1) =
                                (λ n.
                                  ap (λ (t : TokenStream). kinds_ahead t n) there
                                  ∙ ap (λ (l : Lexeme). l.token)
                                      (next_stream-seen (next_stream s) n (next_stream-IsCoherent s)
                                          apart_next
                                        ∙ seen (n + 1))) in
                              subst
                                (λ f.
                                  Verdict (list_loop core name parent spec fuel c5)
                                    (accepts spec fuel f))
                                (pointwise shown)
                                (list_loop-Verdict eof d fuel c5
                                  (subst IsCoherent (sym there)
                                    (next_stream-IsCoherent (next_stream s)))
                                  (ap (λ (t : TokenStream). t.eof_token) there
                                    ∙ next_stream-eof (next_stream s)
                                    ∙ next_stream-eof s
                                    ∙ g))))))))

  -- The loop of the token list succeeds exactly on what a list may look like behind an element: where it
  -- returns a result without a panic, the result is a success if and only if the visible tokens ahead
  -- are the end, as far as the mode does not require a trailing separator, a separator and the end, as
  -- far as the mode does not forbid it, or a separator with an element and again such a tail. The
  -- separator, the element and the end are different, the first two are not the end of the input, and a
  -- cached index is right.
  pub list_loop-IsTail :
      (fuel : ℕ) (c c' : Context) (r : RuleResult)
      → IsDistinct spec c.stream.eof_token
      → IsCoherent c.stream
      → list_loop core name parent spec fuel c ≡ some (ok (r, c'))
      → (r.succeeded ≡ true)
        ↔ ((ts : List TokenKind) × IsTail spec ts × Shows (kinds_ahead c.stream) ts)
  unfolding Verdict
  list_loop-IsTail fuel c c' r d h e =
      let v = list_loop-Verdict c.stream.eof_token d fuel c h refl r c' e in
      (
        λ s. accepts-IsTail spec fuel (kinds_ahead c.stream) (v ∙ ap some s),
        λ (ts, t, s).
            IsTail-accepts spec c.stream.eof_token d fuel (kinds_ahead c.stream) ts r.succeeded t s
              v,
      )
