-- ===== src/Rules/Sequences/Contained.antt =====
-- rule/factory.go: the bodies over several rules in a row work within their frame if those rules do.
use syntaxa.Prelude.{
  ℕ, Bool, true, false, not, ◌&&◌, Option, none, some, List, [], ◌∷◌, All, Outcome, ok,
}
use syntaxa.Tokens.{Lexeme}
use syntaxa.Stream.{peek_raw}
use syntaxa.Errors.{has_committed_error_since_entry_rule_scope}
use syntaxa.Lst.Heap.{Pointer, NodeKind}
use syntaxa.Engine.{
  Context, FailureKind, RuleResult, RuleIdentity, execution_normal, ParserRule, SyntaxaParser,
}
use syntaxa.Engine.Execute.{is_error, execute_rule}
use syntaxa.Engine.Execute.Discipline.{Within}
use syntaxa.Engine.Execute.Steps.{if-case}
use syntaxa.Engine.Parse.{is_no_match}
use syntaxa.Rules.{
  zero_kind, peek_token, create_node, create_transient_node, attach_result_in,
  attach_results_to_node, sequence_commitment_failure_kind, try_follow_set_insertion,
}
use syntaxa.Rules.Sequences.{
  Sequenced, completed, aborted, prepend, go_on, after_insertion, element_failed, element_done,
  run_sequence, structured, list_core_exec, transparent, transparent_sequence_exec,
  finalize_wrap_success, wrap_inserted, handle_wrap_failure, wrapped, wrap_core_exec, root_report,
  root_done, run_root, root_exec,
}
use syntaxa.Rules.Work.{
  Stays, ok-Stays, >>=-Stays, Ends-Stays, peek-Within, report_expected-Within, create_node-Stays,
  create_transient_node-Stays, attach_result_in-Ends, attach_results-Ends, insertion-Stays,
  IsContained,
}

module _ (parser : SyntaxaParser) where
  -- The rules' runs work within their frames.
  abbrev pub AreContained : List ParserRule → Type 0
  AreContained rules =
      All (λ (r : ParserRule). IsContained (execute_rule parser r execution_normal)) rules

module _ (parser : SyntaxaParser) (identity : RuleIdentity) (b : Context) where
  go_on-Stays :
      (next : Context → Outcome (Sequenced × Context)) (r : RuleResult) (c : Context)
      → Stays b (next c)
      → Stays b (go_on parser identity next r c)
  unfolding go_on
  go_on-Stays next r c s = >>=-Stays b (next c) _ s (λ q c1 w1. kept q c1 w1)
    where
      kept : (q : Sequenced) (c : Context) → Within b c → Stays b (ok (prepend r (q, c)))
      kept (completed rs) c w = ok-Stays b _ c w
      kept (aborted a) c w = ok-Stays b _ c w

  after_insertion-Stays :
      (rule : ParserRule) (kind : FailureKind) (l : Lexeme)
      (next : Context → Outcome (Sequenced × Context))
      → ((c : Context) → Within b c → Stays b (next c))
      → (o : Option RuleResult) (c : Context) → Within b c
      → Stays b (after_insertion parser identity rule kind l next (o, c))
  unfolding after_insertion
  after_insertion-Stays rule kind l next n (some fake) c w = go_on-Stays next fake c (n c w)
  after_insertion-Stays rule kind l next n none c w =
      ok-Stays b _ _
        (report_expected-Within b identity.rule_name rule.identity.expected_label l c w)

  element_done-Stays :
      (rule : ParserRule) (start : ℕ) (next : Context → Outcome (Sequenced × Context))
      → ((c : Context) → Within b c → Stays b (next c))
      → (r : RuleResult) (c : Context) → Within b c
      → Stays b (element_done parser identity rule start next (r, c))
  unfolding element_done element_failed
  element_done-Stays rule start next n r c w =
      let kind = sequence_commitment_failure_kind start (peek_raw c.stream 0).start r.kind in
      let (l, c1) = peek_token c in
      if-case (Stays b) r.succeeded (go_on-Stays next r c (n c w)) (
        if-case (Stays b) (is_error kind && is_no_match r.kind)
          (>>=-Stays b (try_follow_set_insertion parser rule identity l c1) _
            (insertion-Stays b parser rule identity l c1 (peek-Within b c w))
            (after_insertion-Stays rule kind l next n))
          (ok-Stays b _ c w))

  run_sequence-Stays :
      (rules : List ParserRule) (start : ℕ) (c : Context)
      → AreContained parser rules
      → Within b c
      → Stays b (run_sequence parser identity rules start c)
  unfolding run_sequence
  run_sequence-Stays [] start c i w = ok-Stays b _ c w
  run_sequence-Stays (rule ∷ rules) start c (i, is) w =
      >>=-Stays b (execute_rule parser rule execution_normal c) _ (i b c w) (
        element_done-Stays rule start (run_sequence parser identity rules start)
          (λ c1 w1. run_sequence-Stays rules start c1 is w1))

  structured-Stays :
      (kind : NodeKind) (q : Sequenced) (c : Context)
      → Within b c
      → Stays b (structured parser identity kind (q, c))
  unfolding structured
  structured-Stays kind (aborted r) c w = ok-Stays b r c w
  structured-Stays kind (completed rs) c w =
      >>=-Stays b (create_node kind c) _ (create_node-Stays b kind c w) (λ p c1 w1.
        Ends-Stays b (attach_results_to_node p rs c1) _ (attach_results-Ends b p rs c1 w1)
          (λ c2 w2. ok-Stays b _ c2 w2))

  transparent-Stays :
      (q : Sequenced) (c : Context) → Within b c → Stays b (transparent parser identity (q, c))
  unfolding transparent
  transparent-Stays (aborted r) c w = ok-Stays b r c w
  transparent-Stays (completed rs) c w =
      >>=-Stays b (create_transient_node zero_kind c) _
        (create_transient_node-Stays b zero_kind c w)
        (λ p c1 w1.
          Ends-Stays b (attach_results_to_node p rs c1) _ (attach_results-Ends b p rs c1 w1)
            (λ c2 w2. ok-Stays b _ c2 w2))

  finalize-Stays :
      (kind : NodeKind) (r : RuleResult) (c : Context)
      → Within b c
      → Stays b (finalize_wrap_success parser identity kind r c)
  unfolding finalize_wrap_success
  finalize-Stays kind r c w =
      >>=-Stays b (create_node kind c) _ (create_node-Stays b kind c w) (λ p c1 w1.
        Ends-Stays b (attach_result_in p r c1) _ (attach_result_in-Ends b p r c1 w1)
          (λ c2 w2. ok-Stays b _ c2 w2))

  wrap_inserted-Stays :
      (kind : NodeKind) (rule : ParserRule) (failure : FailureKind) (l : Lexeme)
      (o : Option RuleResult) (c : Context)
      → Within b c
      → Stays b (wrap_inserted parser identity kind rule failure l (o, c))
  unfolding wrap_inserted
  wrap_inserted-Stays kind rule failure l (some fake) c w = finalize-Stays kind fake c w
  wrap_inserted-Stays kind rule failure l none c w =
      ok-Stays b _ _
        (report_expected-Within b identity.rule_name rule.identity.expected_label l c w)

  wrapped-Stays :
      (kind : NodeKind) (rule : ParserRule) (start : ℕ) (r : RuleResult) (c : Context)
      → Within b c
      → Stays b (wrapped parser identity kind rule start (r, c))
  unfolding wrapped handle_wrap_failure
  wrapped-Stays kind rule start r c w =
      let failure = sequence_commitment_failure_kind start (peek_raw c.stream 0).start r.kind in
      let (l, c1) = peek_token c in
      if-case (Stays b) r.succeeded (finalize-Stays kind r c w) (
        if-case (Stays b) (not (is_error failure && is_no_match r.kind)) (ok-Stays b _ c w) (
          >>=-Stays b (try_follow_set_insertion parser rule identity l c1) _
            (insertion-Stays b parser rule identity l c1 (peek-Within b c w))
            (wrap_inserted-Stays kind rule failure l)))

  root_report-Within :
      (rule : ParserRule) (r : RuleResult) (committed : Bool) (c : Context)
      → Within b c
      → Within b (root_report parser identity rule r committed c)
  unfolding root_report
  root_report-Within rule r committed c w =
      if-case (Within b)
        ((committed && is_no_match r.kind)
          && not (has_committed_error_since_entry_rule_scope c.errors))
        (report_expected-Within b identity.rule_name rule.identity.expected_label _ (peek_token c).1
          (peek-Within b c w))
        w

  run_root-Stays :
      (node : Pointer) (rules : List ParserRule) (committed : Bool) (c : Context)
      → AreContained parser rules
      → Within b c
      → Stays b (run_root parser identity node rules committed c)
  unfolding run_root root_done
  run_root-Stays node [] committed c i w = ok-Stays b _ c w
  run_root-Stays node (rule ∷ rules) committed c (i, is) w =
      >>=-Stays b (execute_rule parser rule execution_normal c) _ (i b c w) (λ r c1 w1.
        if-case (Stays b) r.succeeded
          (Ends-Stays b (attach_result_in node r c1) _ (attach_result_in-Ends b node r c1 w1)
            (λ c2 w2. run_root-Stays node rules true c2 is w2))
          (ok-Stays b _ _ (root_report-Within rule r committed c1 w1)))

module _ (parser : SyntaxaParser) (identity : RuleIdentity) where
  pub list_core_exec-IsContained :
      (kind : NodeKind) (rules : List ParserRule)
      → AreContained parser rules
      → IsContained (list_core_exec parser identity kind rules)
  unfolding list_core_exec
  list_core_exec-IsContained kind rules i b c w =
      >>=-Stays b (run_sequence parser identity rules (peek_raw c.stream 0).start c) _
        (run_sequence-Stays parser identity b rules (peek_raw c.stream 0).start c i w)
        (structured-Stays parser identity b kind)

  pub transparent_sequence_exec-IsContained :
      (rules : List ParserRule)
      → AreContained parser rules
      → IsContained (transparent_sequence_exec parser identity rules)
  unfolding transparent_sequence_exec
  transparent_sequence_exec-IsContained rules i b c w =
      >>=-Stays b (run_sequence parser identity rules (peek_raw c.stream 0).start c) _
        (run_sequence-Stays parser identity b rules (peek_raw c.stream 0).start c i w)
        (transparent-Stays parser identity b)

  pub wrap_core_exec-IsContained :
      (kind : NodeKind) (rule : ParserRule)
      → IsContained (execute_rule parser rule execution_normal)
      → IsContained (wrap_core_exec parser identity kind rule)
  unfolding wrap_core_exec
  wrap_core_exec-IsContained kind rule i b c w =
      >>=-Stays b (execute_rule parser rule execution_normal c) _ (i b c w)
        (wrapped-Stays parser identity b kind rule (peek_raw c.stream 0).start)

  pub root_exec-IsContained :
      (kind : NodeKind) (rules : List ParserRule)
      → AreContained parser rules
      → IsContained (root_exec parser identity kind rules)
  unfolding root_exec
  root_exec-IsContained kind rules i b c w =
      >>=-Stays b (create_node kind c) _ (create_node-Stays b kind c w)
        (λ p c1 w1. run_root-Stays parser identity b p rules false c1 i w1)
