-- ===== src/Package/Tests.antt =====
-- Runs of the merge of recovery tokens on a chain of references and on a cycle.
use syntaxa.Prelude.{◌≡◌, ◌↔◌, ◌||◌, true, false, refl, none, some, ok, [], ◌∷◌, contains}
use syntaxa.Tokens.{TokenKind}
use syntaxa.Engine.{
  RuleResult, RecoverySpec, ParserRule, Registry, is_sync_token, failure_error,
  bind_merged_recovery_into_registry,
}
use syntaxa.Package
use syntaxa.Package.{
  Rules, Grammar, GrammarKind, merged_at, recovery_spec_merged_for_label,
  recovery_spec_merged_by_grammar_label,
}
use syntaxa.Package.Reach.{Reaches}
use syntaxa.Recovery.Queries.{Distinct}
use syntaxa.Package.Exact.{recovery_spec_merged_for_label-exact}
use syntaxa.Package.Bound.{bound_rule-sync}

-- "a" refers to "b", and "b" back to "a".
abbrev cycle : Rules
cycle =
    (
      "a",
      some (record {
        kind = GrammarKind.g_reference;
        recovery_tokens = 1 ∷ 2 ∷ 1 ∷ [];
        no_consume_on_recovery_tokens = [];
        reference_target = "b";
        resolved_reference = none;
      }),
    )
    ∷ (
      "b",
      some (record {
        kind = GrammarKind.g_reference;
        recovery_tokens = 2 ∷ 3 ∷ [];
        no_consume_on_recovery_tokens = 7 ∷ [];
        reference_target = "c";
        resolved_reference = some "a";
      }),
    )
    ∷ []

merged_cycle :
    Package.recovery_spec_merged_for_label "a" cycle
    ≡ some (record { tokens = 1 ∷ 2 ∷ 3 ∷ []; no_consume = 7 ∷ [] })
unfolding Package.recovery_spec_merged_for_label Package.recovery_append_unique_stable
merged_cycle = refl

merged_exact_example :
    (result : RecoverySpec) × (recovery_spec_merged_for_label "a" cycle ≡ some result)
    × Distinct result.tokens
    × Distinct result.no_consume
    × ((t : TokenKind)
        → (contains result.tokens t ≡ true)
          ↔ ((g : Grammar) × Reaches cycle "a" g × (contains g.recovery_tokens t ≡ true)))
    × ((t : TokenKind)
        → (contains result.no_consume t ≡ true) ↔ (
            (g : Grammar) × Reaches cycle "a" g
            × (contains g.no_consume_on_recovery_tokens t ≡ true)))
merged_exact_example = recovery_spec_merged_for_label-exact cycle "a"

abbrev root : Grammar
root = record {
  kind = GrammarKind.g_reference;
  recovery_tokens = 1 ∷ 2 ∷ 1 ∷ [];
  no_consume_on_recovery_tokens = [];
  reference_target = "b";
  resolved_reference = none;
}

abbrev refused : RuleResult
refused = record {
  node = none;
  succeeded = false;
  kind = failure_error;
  is_fragment = false;
  consume_sync_token = true;
}

abbrev referring : ParserRule
referring = record {
  identity = record { rule_name = "item"; grammar_label = "a"; expected_label = "item" };
  execution_fn = λ c. ok (refused, c);
  contract = record { must_consume = true; must_return_node = true };
  recovery_tokens = [];
  no_consume_on_recovery_tokens = [];
  reference_target = some "b";
  grammar = none;
  is_recovery_barrier = false;
}

abbrev registry : Registry
registry = λ label. some referring

bound_sync_example :
    (bound : ParserRule) × (bind_merged_recovery_into_registry registry
        (merged_at (recovery_spec_merged_by_grammar_label cycle))
        "a"
      ≡ some bound)
    × ((t : TokenKind)
        → (contains bound.recovery_tokens t ≡ true)
          ↔ ((g : Grammar) × Reaches cycle "a" g × (contains g.recovery_tokens t ≡ true)))
    × ((t : TokenKind)
        → (contains bound.no_consume_on_recovery_tokens t ≡ true) ↔ (
            (g : Grammar) × Reaches cycle "a" g
            × (contains g.no_consume_on_recovery_tokens t ≡ true)))
    × ((t : TokenKind)
        → (is_sync_token bound t ≡ true) ↔ (
            (g : Grammar) × Reaches cycle "a" g
            × ((contains g.recovery_tokens t || contains g.no_consume_on_recovery_tokens t)
                ≡ true)))
unfolding Package.rule_at
bound_sync_example = bound_rule-sync cycle registry "a" referring root refl refl
