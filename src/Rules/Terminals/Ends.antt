-- ===== src/Rules/Terminals/Ends.antt =====
-- rule/factory.go, `runListAutomaton`: the loop of the token list comes to its end on every input.
use syntaxa.Prelude.{
  ℕ, zero, suc, ◌<◌, ◌≡◌, refl, sym, ap, Bool, true, false, not, some, String, arith, ◌==◌,
  if◌then◌else◌, Outcome, ok, panic, >>=-eq-ok, inl, inr,
}
use mathlib.Core.Path.{subst}
use syntaxa.Tokens.{Lexeme}
use syntaxa.Stream.{peek}
use syntaxa.Stream.Progress.{
  remaining, peek_end, peek-remaining, peek-eof, consume-remaining, consume-eof,
}
use syntaxa.Lst.Heap.{Pointer, NodeKind, add_token}
use syntaxa.Lst.Pool.{new_node}
use syntaxa.Lst.Structure.{attach_child}
use syntaxa.Engine.{Context, RuleResult}
use syntaxa.Rules.{SharedCore, peek_token, consume_token, create_node, add_token_to}
use syntaxa.Rules.Terminals.{
  is_required, is_forbidden, add_child_element, ListSpec, Looped, resume, close, after_separator,
  list_round, list_loop, run_list_automaton, list_fuel,
}

-- A choice between two pairs, with the outcome of the test at hand.
pub if_cases {ℓ κ} :
    {A : Type ℓ} (P : A → A → Type κ) (b : Bool) {x x' y y' : A}
    → (b ≡ true → P x x')
    → (b ≡ false → P y y')
    → P (if b then x else y) (if b then x' else y')
if_cases P true p q = p refl
if_cases P false p q = q refl

-- Both loops end, with the same outcome.
Agree : Looped → Looped → Type 0
Agree x y = (m : Outcome (RuleResult × Context)) × (x ≡ some m) × (y ≡ some m)

some-Agree : (m : Outcome (RuleResult × Context)) → Agree (some m) (some m)
unfolding Agree
some-Agree m = (m, refl, refl)

pub add_child_element-stream :
    (parent : Pointer) (kind : NodeKind) (l : Lexeme) (c c' : Context)
    → add_child_element parent kind l c ≡ ok c'
    → c'.stream ≡ c.stream
unfolding add_child_element
add_child_element-stream parent kind l c c' h =
    let ((elem, c1), h1, r1) = >>=-eq-ok (create_node kind c) _ h in
    let ((p, e), h2, r2) = >>=-eq-ok (new_node kind c.editor) _ h1 in
    let (c2, h3, r3) = >>=-eq-ok (add_token_to elem l c1) _ r1 in
    let (e2, h4, r4) = >>=-eq-ok (add_token elem l c1.editor) _ h3 in
    let (e3, h5, r5) = >>=-eq-ok (attach_child parent (some elem) c2.editor) _ r3 in ground arith

module _ (core : SharedCore) (name : String) (parent : Pointer) (spec : ListSpec) where
  -- The next round is reached with fewer lexemes ahead.
  resume-Agree :
      (again again' : Context → Looped) (n : ℕ) (l : Lexeme) (c : Context)
      → ((c : Context) → remaining c.stream < n → Agree (again c) (again' c))
      → remaining c.stream < n
      → Agree
          (resume again (add_child_element parent spec.element_kind l c))
          (resume again' (add_child_element parent spec.element_kind l c))
  unfolding resume
  resume-Agree again again' n l c a h = behind (add_child_element parent spec.element_kind l c) refl
    where
      behind :
          (m : Outcome Context)
          → add_child_element parent spec.element_kind l c ≡ m
          → Agree (resume again m) (resume again' m)
      behind (panic p) e = some-Agree (panic p)
      behind (ok c') e = a c' (
          subst (λ s. remaining s < n)
            (sym (add_child_element-stream parent spec.element_kind l c c' e)) h)

  close-Agree :
      (refused : Bool) (message : String) (c : Context)
      → Agree
          (close core name parent spec refused message c)
          (close core name parent spec refused message c)
  close-Agree true message c = some-Agree _
  close-Agree false message c = some-Agree _

  -- Two lexemes of different kinds cannot both stand behind the end.
  ahead_of_separator :
      (c : Context)
      → (peek c.stream 0).0.token ≡ spec.separator
      → ((peek c.stream 0).0.token == spec.element) ≡ false
      → (let c1 = (peek_token c).1 in
          let c2 = (peek_token (consume_token c1).1).1 in
          (peek (consume_token c1).1.stream 0).0.token ≡ spec.element
          → remaining (consume_token c2).1.stream < remaining c.stream)
  ahead_of_separator c s d e =
      let c1 = (peek_token c).1 in
      let d1 = (consume_token c1).1 in
      let c2 = (peek_token d1).1 in
      let p = peek-remaining c.stream in
      let q = peek-remaining d1.stream in
      elim (consume-remaining c1.stream) [
        | inl less ↦ elim (consume-remaining c2.stream) [
          | inl lesser ↦ omega arith
          | inr (none_left, still) ↦ omega arith
        ]
        | inr (none_left, still) ↦
            let here = ap (λ (l : Lexeme). l.token) (peek_end c.stream (omega arith)) in
            let there = ap (λ (l : Lexeme). l.token) (peek_end d1.stream still) in
            let kept = consume-eof c1.stream in
            let kept' = peek-eof c.stream in absurd (ground arith)
      ]

  list_round-Agree :
      (again again' : Context → Looped) (c : Context)
      → ((c' : Context) → remaining c'.stream < remaining c.stream → Agree (again c') (again' c'))
      → Agree (list_round core name parent spec again c) (list_round core name parent spec again' c)
  unfolding list_round after_separator
  list_round-Agree again again' c a =
      let (found, c1) = peek_token c in
      let d1 = (consume_token c1).1 in
      let (next, c2) = peek_token d1 in
      let (elem, c3) = consume_token c2 in
      if_cases Agree (found.token == spec.end)
        (λ t. close-Agree (is_required spec.mode) "missing required trailing separator" c1)
        (λ t.
          if_cases Agree (found.token == spec.element) (λ t. some-Agree _)
            (λ other.
              if_cases Agree (not (found.token == spec.separator)) (λ t. some-Agree _)
                (λ sep.
                  if_cases Agree (next.token == spec.end)
                    (λ t. close-Agree (is_forbidden spec.mode) "trailing separator not allowed" c2)
                    (λ t.
                      if_cases Agree (not (next.token == spec.element)) (λ t. some-Agree _)
                        (λ el.
                          resume-Agree again again' (remaining c.stream) elem c3 a
                            (ahead_of_separator c (ground arith) other (ground arith)))))))

  list_loop-Agree :
      (bound fuel : ℕ) (c : Context)
      → remaining c.stream < bound
      → remaining c.stream < fuel
      → Agree (list_loop core name parent spec bound c) (list_loop core name parent spec fuel c)
  unfolding list_loop
  list_loop-Agree zero fuel c h k = absurd (omega arith)
  list_loop-Agree (suc bound) zero c h k = absurd (omega arith)
  list_loop-Agree (suc bound) (suc fuel) c h k =
      list_round-Agree (list_loop core name parent spec bound)
        (list_loop core name parent spec fuel) c
        (λ c' less. list_loop-Agree bound fuel c' (omega arith) (omega arith))

  -- The automaton of the token list comes to its end on every stream, whatever the tokens of the list
  -- are: as many rounds as raw lexemes lie ahead, and one, suffice, and any greater number of rounds has
  -- the same outcome.
  pub run_list_automaton-ends :
      (fuel : ℕ) (c : Context)
      → remaining c.stream < fuel
      → (m : Outcome (RuleResult × Context)) × (run_list_automaton core name parent spec
            (list_fuel c)
            c
          ≡ some m)
        × (run_list_automaton core name parent spec fuel c ≡ some m)
  unfolding run_list_automaton Agree
  run_list_automaton-ends fuel c h =
      let (first, c1) = peek_token c in
      let (elem, c2) = consume_token c1 in
      let p = peek-remaining c.stream in
      if_cases Agree (not (first.token == spec.element)) (λ t. some-Agree _)
        (λ t.
          resume-Agree (list_loop core name parent spec (list_fuel c))
            (list_loop core name parent spec fuel) (suc (remaining c.stream)) elem c2
            (λ c' less. list_loop-Agree (list_fuel c) fuel c' (omega arith) (omega arith))
            (elim (consume-remaining c1.stream) [
              | inl less ↦ omega arith
              | inr (none_left, still) ↦ omega arith
            ]))
