-- ===== src/Rules/Nests/Contained.antt =====
-- rule/factory.go: the bodies between delimiters work within their frame if the inner rule does.
use syntaxa.Prelude.{refl, Bool, not, List, String, ◌==◌, arith, ◌>>=◌, >>=-eq-ok}
use mathlib.Core.Path.{subst}
use syntaxa.Tokens.{TokenKind}
use syntaxa.Errors.{
  DelimiterBoundary, push_delimiter_boundary, pop_delimiter_boundary,
  has_committed_error_inside_current_delimiter_boundary,
}
use syntaxa.Errors.Frames.{pop_delimiter_boundary_ok, Extends-apart}
use syntaxa.Lst.Heap.{NodeKind}
use syntaxa.Engine.{Context, RuleResult, execution_normal, ParserRule, SyntaxaParser}
use syntaxa.Engine.Execute.{execute_rule}
use syntaxa.Engine.Execute.Discipline.{Within}
use syntaxa.Engine.Execute.Steps.{if-case}
use syntaxa.Rules.{SharedCore, peek_token, consume_token, create_node, attach_result_in}
use syntaxa.Rules.Wrappers.{execute_inner_with_commitment_failure}
use syntaxa.Rules.Wrappers.Contained.{execute_inner-IsContained}
use syntaxa.Rules.Nests.{
  Finish, enforce_nest_close, inside_nest, pop_boundary, nested_exec, nest_finish,
  transparent_finish, nest_exec, transparent_nest_exec,
}
use syntaxa.Rules.Work.{
  Stays, ok-Stays, >>=-Stays, Ends-Stays, peek-Within, consume-Within, report_at-Within,
  create_node-Stays, attach_result_in-Ends, IsContained,
}

-- Boundaries are apart from what a frame holds.
boundaries-Within :
    (b c : Context) (bs : List DelimiterBoundary)
    → Within b c
    → Within b (record c { errors = record c.errors { delimiter_boundaries = bs } })
boundaries-Within b c bs w = record {
  kept = record {
    input = w.kept.input;
    recovery = w.kept.recovery;
    depth = w.kept.depth;
    ledger = w.kept.ledger;
  };
  errors = Extends-apart w.errors refl refl refl;
}

module _ (parser : SyntaxaParser) (core : SharedCore) (name : String) (b : Context) where
  enforce_nest_close-Within :
      (close : TokenKind) (c : Context)
      → Within b c
      → Within b (enforce_nest_close parser core name close c).1
  unfolding enforce_nest_close
  enforce_nest_close-Within close c w =
      let P = λ (q : Bool × Context). Within b q.1 in
      let c1 = (peek_token c).1 in
      let w1 = peek-Within b c w in
      if-case P ((peek_token c).0.token == close) (consume-Within b c1 w1) (
        if-case P (has_committed_error_inside_current_delimiter_boundary c1.errors) w1
          (report_at-Within b name (peek_token c).0 _ c1 w1))

  pop_boundary-Stays :
      (r : RuleResult) (c : Context) → Within b c → Stays b (pop_boundary parser core name (r, c))
  unfolding pop_boundary
  pop_boundary-Stays r c w r' c' h =
      let (s, h1, r1) = >>=-eq-ok (pop_delimiter_boundary c.errors) _ h in
      let (bs, same) = pop_delimiter_boundary_ok c.errors s h1 in
      subst (Within b) (ground arith) (boundaries-Within b c bs w)

  inside_nest-Stays :
      (close : TokenKind) (finish : Finish)
      → ((r : RuleResult) (c : Context) → Within b c → Stays b (finish r c))
      → (r : RuleResult) (c : Context) → Within b c
      → Stays b (inside_nest parser core name close finish (r, c))
  unfolding inside_nest
  inside_nest-Stays close finish n r c w =
      let (closed, c1) = enforce_nest_close parser core name close c in
      let w1 = enforce_nest_close-Within close c w in
      if-case (Stays b) (not r.succeeded) (ok-Stays b r c w)
        (if-case (Stays b) (not closed) (ok-Stays b _ c1 w1) (n r c1 w1))

module _ (parser : SyntaxaParser) (core : SharedCore) (name : String) (inner : ParserRule)
    (i : IsContained (execute_rule parser inner execution_normal)) where
  nested_exec-IsContained :
      (open_token close : TokenKind) (finish : Finish)
      → ((r : RuleResult) → IsContained (finish r))
      → IsContained (nested_exec parser core name open_token close inner finish)
  unfolding nested_exec push_delimiter_boundary
  nested_exec-IsContained open_token close finish n b c w =
      let (found, c1) = peek_token c in
      let w1 = peek-Within b c w in
      let c2 = (consume_token c1).1 in
      let c3 : Context = record c2 { errors = push_delimiter_boundary c2.errors found.start } in
      let w3 : Within b c3 = boundaries-Within b c2 _ (consume-Within b c1 w1) in
      let body = execute_inner_with_commitment_failure parser inner c3 in
      if-case (Stays b) (not (found.token == open_token)) (ok-Stays b _ c1 w1) (
        >>=-Stays b (body >>= inside_nest parser core name close finish) _
          (>>=-Stays b body _ (execute_inner-IsContained parser inner i b c3 w3)
            (inside_nest-Stays parser core name b close finish (λ r c w. n r b c w)))
          (pop_boundary-Stays parser core name b))

  pub nest_exec-IsContained :
      (kind : NodeKind) (open_token close : TokenKind)
      → IsContained (nest_exec parser core name kind open_token close inner)
  unfolding nest_exec nest_finish
  nest_exec-IsContained kind open_token close =
      nested_exec-IsContained open_token close (nest_finish parser core name kind) (λ r b c w.
        >>=-Stays b (create_node kind c) _ (create_node-Stays b kind c w) (λ p c1 w1.
          Ends-Stays b (attach_result_in p r c1) _ (attach_result_in-Ends b p r c1 w1)
            (λ c2 w2. ok-Stays b _ c2 w2)))

  pub transparent_nest_exec-IsContained :
      (open_token close : TokenKind)
      → IsContained (transparent_nest_exec parser core name open_token close inner)
  unfolding transparent_nest_exec transparent_finish
  transparent_nest_exec-IsContained open_token close =
      nested_exec-IsContained open_token close (transparent_finish parser core name)
        (λ r b c w. ok-Stays b r c w)
