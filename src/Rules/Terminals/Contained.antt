-- ===== src/Rules/Terminals/Contained.antt =====
-- rule/factory.go, `tokenEndpoint`: the bodies over single tokens and the token list work within their
-- frame.
use syntaxa.Prelude.{
  ℕ, zero, suc, ◌≡◌, refl, Bool, true, false, not, none, List, String, contains, ◌==◌, Outcome, ok,
  panic, some, >>=-eq-ok,
}
use mathlib.Core.Path.{subst}
use syntaxa.Tokens.{TokenKind, Lexeme}
use syntaxa.Lst.Heap.{Pointer, NodeKind}
use syntaxa.Engine.{Context, RuleResult, FailureKind, failure_error}
use syntaxa.Engine.Execute.Discipline.{Within}
use syntaxa.Engine.Execute.Steps.{if-case}
use syntaxa.Rules.{SharedCore, peek_token, consume_token, create_node, add_token_to}
use syntaxa.Rules.Terminals.{
  expect_accept, expect_exec, is_required, is_forbidden, report_mismatch, report_specific_error,
  handle_empty_list, add_child_element, ListSpec, Looped, resume, wrong, close, after_separator,
  list_round, list_loop, run_list_automaton, list_fuel, looped, list_body, list_exec,
}
use syntaxa.Rules.Work.{
  Stays, Ends, ok-Stays, panic-Stays, >>=-Stays, Ends-Stays, peek-Within, consume-Within,
  report_at-Within, create_node-Stays, add_token_to-Ends, attach_child_in-Ends, IsContained,
}

pub expect_exec-IsContained :
    (kind : NodeKind) (add_node : Bool) (tokens : List TokenKind)
    → IsContained (expect_exec kind add_node tokens)
unfolding expect_exec expect_accept
expect_exec-IsContained kind add_node tokens b c w =
    let c1 = (peek_token c).1 in
    let w1 = peek-Within b c w in
    if-case (Stays b) (contains tokens (peek_token c).0.token) (accept add_node c1 w1)
      (ok-Stays b _ c1 w1)
  where
    accept : (add : Bool) (c : Context) → Within b c → Stays b (expect_accept kind add c)
    accept false c w = ok-Stays b _ (consume_token c).1 (consume-Within b c w)
    accept true c w =
        let (value, c1) = consume_token c in
        >>=-Stays b (create_node kind c1) _ (create_node-Stays b kind c1 (consume-Within b c w))
          (λ node c2 w2.
            Ends-Stays b (add_token_to node value c2) _ (add_token_to-Ends b node value c2 w2)
              (λ c3 w3. ok-Stays b _ c3 w3))

-- A loop that ends is still within the frame.
Loops : Context → Looped → Type 0
Loops b run = (m : Outcome (RuleResult × Context)) → run ≡ some m → Stays b m

module _ (b : Context) where
  some-Loops : (m : Outcome (RuleResult × Context)) → Stays b m → Loops b (some m)
  unfolding Loops
  some-Loops m s m' h = subst (Stays b) (cc h) s

  resume-Loops :
      (again : Context → Looped) (m : Outcome Context)
      → Ends b m
      → ((c : Context) → Within b c → Loops b (again c))
      → Loops b (resume again m)
  unfolding resume Loops
  resume-Loops again (panic p) e n m h = subst (Stays b) (cc h) (panic-Stays b p)
  resume-Loops again (ok c) e n m h = n c (e c refl) m h

  add_child_element-Ends :
      (parent : Pointer) (kind : NodeKind) (l : Lexeme) (c : Context)
      → Within b c
      → Ends b (add_child_element parent kind l c)
  unfolding add_child_element
  add_child_element-Ends parent kind l c w c' h =
      let ((elem, c1), h1, r1) = >>=-eq-ok (create_node kind c) _ h in
      let w1 = create_node-Stays b kind c w elem c1 h1 in
      let (c2, h2, r2) = >>=-eq-ok (add_token_to elem l c1) _ r1 in
      attach_child_in-Ends b parent (some elem) c2 (add_token_to-Ends b elem l c1 w1 c2 h2) c' r2

  report_specific-Within :
      (name message : String) (kind : FailureKind) (c : Context)
      → Within b c
      → Within b (report_specific_error name message kind c).1
  unfolding report_specific_error
  report_specific-Within name message kind c w =
      report_at-Within b name (peek_token c).0 _ (peek_token c).1 (peek-Within b c w)

  report_mismatch-Within :
      (core : SharedCore) (name : String) (found : Lexeme) (t : TokenKind) (c : Context)
      → Within b c
      → Within b (report_mismatch core name found t c).1
  unfolding report_mismatch
  report_mismatch-Within core name found t c w = report_at-Within b name found _ c w

  module _ (core : SharedCore) (name : String) (parent : Pointer) (spec : ListSpec) where
    wrong-Loops :
        (message : String) (c : Context)
        → Within b c
        → Loops b (wrong core name parent spec message c)
    wrong-Loops message c w =
        some-Loops _ (ok-Stays b _ _ (report_specific-Within name message failure_error c w))

    close-Loops :
        (refused : Bool) (message : String) (c : Context)
        → Within b c
        → Loops b (close core name parent spec refused message c)
    close-Loops refused message c w =
        if-case (Loops b) refused (wrong-Loops message c w)
          (some-Loops _ (ok-Stays b _ _ (consume-Within b c w)))

    after_separator-Loops :
        (again : Context → Looped) (c : Context)
        → ((c : Context) → Within b c → Loops b (again c))
        → Within b c
        → Loops b (after_separator core name parent spec again c)
    unfolding after_separator
    after_separator-Loops again c n w =
        let (next, c1) = peek_token c in
        let w1 = peek-Within b c w in
        let (elem, c2) = consume_token c1 in
        if-case (Loops b) (next.token == spec.end) (close-Loops (is_forbidden spec.mode) _ c1 w1) (
          if-case (Loops b) (not (next.token == spec.element)) (wrong-Loops _ c1 w1) (
            resume-Loops again _
              (add_child_element-Ends parent spec.element_kind elem c2 (consume-Within b c1 w1)) n))

    list_round-Loops :
        (again : Context → Looped) (c : Context)
        → ((c : Context) → Within b c → Loops b (again c))
        → Within b c
        → Loops b (list_round core name parent spec again c)
    unfolding list_round
    list_round-Loops again c n w =
        let (found, c1) = peek_token c in
        let w1 = peek-Within b c w in
        if-case (Loops b) (found.token == spec.end) (close-Loops (is_required spec.mode) _ c1 w1) (
          if-case (Loops b) (found.token == spec.element) (wrong-Loops _ c1 w1) (
            if-case (Loops b) (not (found.token == spec.separator)) (wrong-Loops _ c1 w1)
              (after_separator-Loops again (consume_token c1).1 n (consume-Within b c1 w1))))

    list_loop-Loops :
        (fuel : ℕ) (c : Context) → Within b c → Loops b (list_loop core name parent spec fuel c)
    unfolding list_loop Loops
    list_loop-Loops zero c w m h = cc h
    list_loop-Loops (suc fuel) c w m h =
        list_round-Loops (list_loop core name parent spec fuel) c (list_loop-Loops fuel) w m h

    run_list_automaton-Loops :
        (fuel : ℕ) (c : Context)
        → Within b c
        → Loops b (run_list_automaton core name parent spec fuel c)
    unfolding run_list_automaton
    run_list_automaton-Loops fuel c w =
        let (first, c1) = peek_token c in
        let w1 = peek-Within b c w in
        let (elem, c2) = consume_token c1 in
        if-case (Loops b) (not (first.token == spec.element))
          (some-Loops _
            (ok-Stays b _ _ (report_mismatch-Within core name first spec.element c1 w1)))
          (resume-Loops (list_loop core name parent spec fuel) _
            (add_child_element-Ends parent spec.element_kind elem c2 (consume-Within b c1 w1))
            (list_loop-Loops fuel))

  looped-Stays : (run : Looped) → Loops b run → Stays b (looped run)
  unfolding Loops
  looped-Stays none l = panic-Stays b _
  looped-Stays (some m) l = l m refl

  handle_empty_list-Within :
      (name : String) (node : Pointer) (found : Lexeme) (allow : Bool) (c : Context)
      → Within b c
      → Within b (handle_empty_list name node found allow c).1
  unfolding handle_empty_list
  handle_empty_list-Within name node found true c w = consume-Within b c w
  handle_empty_list-Within name node found false c w = report_at-Within b name found _ c w

  list_body-Stays :
      (core : SharedCore) (name : String) (node : Pointer) (spec : ListSpec) (allow : Bool)
      (c : Context)
      → Within b c
      → Stays b (list_body core name node spec allow c)
  unfolding list_body
  list_body-Stays core name node spec allow c w =
      let (found, c1) = peek_token c in
      let w1 = peek-Within b c w in
      if-case (Stays b) (found.token == spec.end)
        (ok-Stays b _ _ (handle_empty_list-Within name node found allow c1 w1))
        (looped-Stays _ (run_list_automaton-Loops core name node spec (list_fuel c1) c1 w1))

pub list_exec-IsContained :
    (core : SharedCore) (name : String) (open_token : TokenKind) (kind : NodeKind) (spec : ListSpec)
    (allow : Bool)
    → IsContained (list_exec core name open_token kind spec allow)
unfolding list_exec
list_exec-IsContained core name open_token kind spec allow b c w =
    let (found, c1) = peek_token c in
    let w1 = peek-Within b c w in
    if-case (Stays b) (not (found.token == open_token))
      (ok-Stays b _ _ (report_mismatch-Within b core name found open_token c1 w1))
      (>>=-Stays b (create_node kind (consume_token c1).1) _
        (create_node-Stays b kind (consume_token c1).1 (consume-Within b c1 w1))
        (λ node c2 w2. list_body-Stays b core name node spec allow c2 w2))
