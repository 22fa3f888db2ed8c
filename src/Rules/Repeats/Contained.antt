-- ===== src/Rules/Repeats/Contained.antt =====
-- rule/factory.go: the bodies of repetitions work within their frame if the repeated rule does.
use syntaxa.Prelude.{ℕ, zero, suc, ◌≡◌, refl, not, Option, none, some, ltb, Outcome, ok, panic}
use mathlib.Core.Path.{subst}
use syntaxa.Stream.{peek_raw}
use syntaxa.Lst.Heap.{Pointer, NodeKind}
use syntaxa.Engine.{
  Context, FailureKind, unset, failure_error, failure_no_match, RuleResult, execution_normal,
  ParserRule, SyntaxaParser,
}
use syntaxa.Engine.Execute.{execute_rule}
use syntaxa.Engine.Execute.Discipline.{Within}
use syntaxa.Engine.Execute.Steps.{if-case}
use syntaxa.Engine.Parse.{is_no_match}
use syntaxa.Rules.{zero_kind}
use syntaxa.Rules.Repeats.{
  Repeating, Repeated, attached, no_progress, stop, failed_round, round, run_repetition_loop,
  handle_repetition_failure, bounded_round, reached, run_bounded_repetition_loop, repeat_result,
  make_container, repeat_success, n_or_more_exec, bounded_repeat_exec,
}
use syntaxa.Rules.Work.{
  Stays, Ends, ok-Stays, panic-Stays, >>=-Stays, create_node-Stays, create_transient_node-Stays,
  attach_result_in-Ends, IsContained,
}

-- A repetition that ends is still within the frame.
Repeats : Context → Repeating → Type 0
Repeats b run =
    (count : ℕ) (error : Option RuleResult) (c : Context)
    → run ≡ some (ok (count, error, c))
    → Within b c

module _ (b : Context) where
  stop-Repeats :
      (count : ℕ) (error : Option RuleResult) (c : Context)
      → Within b c
      → Repeats b (stop count error c)
  unfolding Repeats
  stop-Repeats count error c w count' error' c' h = subst (Within b) (cc h) w

  attached-Repeats :
      (again : Context → Repeating) (m : Outcome Context)
      → Ends b m
      → ((c : Context) → Within b c → Repeats b (again c))
      → Repeats b (attached again m)
  unfolding attached Repeats
  attached-Repeats again (panic p) e n count error c h = cc h
  attached-Repeats again (ok c1) e n count error c h = n c1 (e c1 refl) count error c h

  module _ (parser : SyntaxaParser) (rule : ParserRule) (container : Pointer) where
    failed_round-Repeats :
        (again : ℕ → Context → Repeating) (before count : ℕ) (kind : FailureKind) (r : RuleResult)
        (c : Context)
        → ((count : ℕ) (c : Context) → Within b c → Repeats b (again count c))
        → Within b c
        → Repeats b (failed_round parser rule container again before count kind r c)
    unfolding failed_round
    failed_round-Repeats again before count failure_no_match r c n w = stop-Repeats count none c w
    failed_round-Repeats again before count unset r c n w = n count c w
    failed_round-Repeats again before count failure_error r c n w =
        if-case (Repeats b) (not r.consume_sync_token) (stop-Repeats count (some r) c w) (
          if-case (Repeats b) (no_progress before c) (stop-Repeats count (some r) c w)
            (n count c w))

    round-Repeats :
        (again : ℕ → Context → Repeating) (before count : ℕ) (m : Outcome (RuleResult × Context))
        → ((count : ℕ) (c : Context) → Within b c → Repeats b (again count c))
        → Stays b m
        → Repeats b (round parser rule container again before count m)
    unfolding round Repeats
    round-Repeats again before count (panic p) n s count' error c h = cc h
    round-Repeats again before count (ok (r, c)) n s count' error c' h =
        let w = s r c refl in
        if-case (Repeats b) r.succeeded
          (attached-Repeats (again (suc count)) _ (attach_result_in-Ends b container r c w)
            (n (suc count)))
          (failed_round-Repeats again before count r.kind r c n w) count' error c' h

    module _ (i : IsContained (execute_rule parser rule execution_normal)) where
      repetition-Repeats :
          (fuel count : ℕ) (c : Context)
          → Within b c
          → Repeats b (run_repetition_loop parser rule container fuel count c)
      unfolding run_repetition_loop Repeats
      repetition-Repeats zero count c w count' error c' h = cc h
      repetition-Repeats (suc fuel) count c w count' error c' h =
          round-Repeats (run_repetition_loop parser rule container fuel) (peek_raw c.stream 0).start
            count (execute_rule parser rule execution_normal c) (repetition-Repeats fuel) (i b c w)
            count' error c' h

      handle_failure-Within :
          (before count : ℕ) (r : RuleResult) (c : Context)
          → Within b c
          → Within b (handle_repetition_failure parser rule container before count r c).2
      unfolding handle_repetition_failure
      handle_failure-Within before count r c w =
          let P = λ (q : Repeated). Within b q.2 in
          if-case P (is_no_match r.kind) w
            (if-case P (not r.consume_sync_token) w (if-case P (no_progress before c) w w))

      bounded_round-Repeats :
          (again : Context → Repeating) (before count : ℕ) (m : Outcome (RuleResult × Context))
          → ((c : Context) → Within b c → Repeats b (again c))
          → Stays b m
          → Repeats b (bounded_round parser rule container again before count m)
      unfolding bounded_round Repeats
      bounded_round-Repeats again before count (panic p) n s count' error c h = cc h
      bounded_round-Repeats again before count (ok (r, c)) n s count' error c' h =
          let w = s r c refl in
          if-case (Repeats b) r.succeeded
            (attached-Repeats again _ (attach_result_in-Ends b container r c w) n)
            (stop-Repeats _ _ _ (handle_failure-Within before count r c w)) count' error c' h

      bounded-Repeats :
          (fuel : ℕ) (max : Option ℕ) (count : ℕ) (c : Context)
          → Within b c
          → Repeats b (run_bounded_repetition_loop parser rule container fuel max count c)
      unfolding run_bounded_repetition_loop Repeats
      bounded-Repeats zero max count c w count' error c' h = cc h
      bounded-Repeats (suc fuel) max count c w count' error c' h =
          if-case (Repeats b) (reached parser rule container max count)
            (stop-Repeats count none c w)
            (bounded_round-Repeats
              (run_bounded_repetition_loop parser rule container fuel max (suc count))
              (peek_raw c.stream 0).start count (execute_rule parser rule execution_normal c)
              (bounded-Repeats fuel max (suc count)) (i b c w))
            count' error c' h

  repeat_result-Stays :
      (min : ℕ) (success : Pointer → RuleResult) (container : Pointer) (run : Repeating)
      → Repeats b run
      → Stays b (repeat_result min success container run)
  unfolding repeat_result Repeats
  repeat_result-Stays min success container none s = panic-Stays b _
  repeat_result-Stays min success container (some (panic p)) s = panic-Stays b p
  repeat_result-Stays min success container (some (ok (count, some error, c))) s =
      ok-Stays b error c (s count (some error) c refl)
  repeat_result-Stays min success container (some (ok (count, none, c))) s =
      let w = s count none c refl in
      if-case (Stays b) (ltb count min) (ok-Stays b _ c w) (ok-Stays b _ c w)

  make_container-Stays :
      (kind : Option NodeKind) (c : Context) → Within b c → Stays b (make_container kind c)
  unfolding make_container
  make_container-Stays none c w = create_transient_node-Stays b zero_kind c w
  make_container-Stays (some kind) c w = create_node-Stays b kind c w

module _ (parser : SyntaxaParser) (fuel : ℕ) (kind : Option NodeKind) (rule : ParserRule)
    (i : IsContained (execute_rule parser rule execution_normal)) where
  pub n_or_more_exec-IsContained :
      (min : ℕ) → IsContained (n_or_more_exec parser fuel kind min rule)
  unfolding n_or_more_exec
  n_or_more_exec-IsContained min b c w =
      >>=-Stays b (make_container kind c) _ (make_container-Stays b kind c w) (λ p c1 w1.
        repeat_result-Stays b min (repeat_success kind) p _
          (repetition-Repeats b parser rule p i fuel 0 c1 w1))

  pub bounded_repeat_exec-IsContained :
      (min : ℕ) (max : Option ℕ) → IsContained (bounded_repeat_exec parser fuel kind min max rule)
  unfolding bounded_repeat_exec
  bounded_repeat_exec-IsContained min max b c w =
      >>=-Stays b (make_container kind c) _ (make_container-Stays b kind c w) (λ p c1 w1.
        repeat_result-Stays b min (repeat_success kind) p _
          (bounded-Repeats b parser rule p i fuel max 0 c1 w1))
