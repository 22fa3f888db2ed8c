-- ===== src/Package.antt =====
-- grammar_package.go, the recovery metadata of a package: for every rule, its own recovery tokens and
-- those of the rules that it refers to. Of `Grammar` a node is given what this reads.
mod Tests
pub mod Rounds
pub mod Reach
pub mod Explored
pub mod Distinct
pub mod Exact
pub mod Bound
use text.Mathlib.Text.{◌==◌ as str_eq}
use syntaxa.Prelude.{
  ℕ, zero, suc, Bool, true, false, not, ◌||◌, Option, none, some, List, [], ◌∷◌, ◌++◌, String,
  length, any, contains, if◌then◌else◌,
}
use syntaxa.Tokens.{TokenKind}
use syntaxa.Engine.{RecoverySpec}

pub data GrammarKind : Type 0 where
  g_token : GrammarKind
  g_concat : GrammarKind
  g_choice : GrammarKind
  g_repeat : GrammarKind
  g_optional : GrammarKind
  g_epsilon : GrammarKind
  g_nest : GrammarKind
  g_reference : GrammarKind

-- The resolved reference is given by the label of the rule to which it points.
pub record Grammar : Type 0 where
  pub kind : GrammarKind
  pub recovery_tokens : List TokenKind
  pub no_consume_on_recovery_tokens : List TokenKind
  pub reference_target : String
  pub resolved_reference : Option String

abbrev pub is_reference : GrammarKind → Bool
is_reference GrammarKind.g_reference = true
is_reference _ = false

-- The map of the rules by label; a rule may be nil.
abbrev pub Rules : Type 0
Rules = List (String × Option Grammar)

-- `rules[label]`, where it exists and is not nil.
unfoldable pub rule_at : Rules → String → Option Grammar
rule_at [] label = none
rule_at ((k, g) ∷ rules) label = if str_eq k label then g else rule_at rules label

-- `visited[label]`
unfoldable pub seen : List String → String → Bool
seen [] label = false
seen (v ∷ visited) label = str_eq v label || seen visited label

unfoldable pub recovery_append_unique_stable : List TokenKind → List TokenKind → List TokenKind
recovery_append_unique_stable dst [] = dst
recovery_append_unique_stable dst (token ∷ src) =
    recovery_append_unique_stable (if contains dst token then dst else dst ++ token ∷ []) src

-- What the loop of `recoverySpecMergedForLabel` does with the tokens of the rule that it has found.
unfoldable pub absorb : RecoverySpec → Grammar → RecoverySpec
absorb merged g = record {
  tokens = recovery_append_unique_stable merged.tokens g.recovery_tokens;
  no_consume = recovery_append_unique_stable merged.no_consume g.no_consume_on_recovery_tokens;
}

unfoldable pub next_label : Grammar → String
next_label g = elim g.resolved_reference [ some label ↦ label | none ↦ g.reference_target ]

-- How a round of that loop ends: by a break, or with the labels visited and the next one.
pub data Round : Type 0 where
  stop : RecoverySpec → Round
  again : (visited : List String) (label : String) (merged : RecoverySpec) → Round

-- The rest of a round once the rule is found.
unfoldable pub follow : List String → Grammar → RecoverySpec → Round
unfolding next_label
follow visited g merged =
    if not (is_reference g.kind) || str_eq (next_label g) ""
    then Round.stop merged
    else Round.again visited (next_label g) merged

unfoldable pub visit : List String → String → Option Grammar → RecoverySpec → Round
unfolding absorb follow
visit visited label none merged = Round.stop merged
visit visited label (some g) merged = follow (label ∷ visited) g (absorb merged g)

unfoldable pub round : Rules → List String → String → RecoverySpec → Round
unfolding visit rule_at seen
round rules visited label merged =
    if str_eq label "" || seen visited label
    then Round.stop merged
    else visit visited label (rule_at rules label) merged

-- The loop, on fuel; none where the fuel runs out.
unfoldable pub merge_loop : Rules → ℕ → List String → String → RecoverySpec → Option RecoverySpec
unfolding round
merge_loop rules zero visited label merged = none
merge_loop rules (suc fuel) visited label merged = elim (round rules visited label merged) [
  | Round.stop result ↦ some result
  | Round.again visited' label' merged' ↦ merge_loop rules fuel visited' label' merged'
]

abbrev pub no_tokens : RecoverySpec
no_tokens = record { tokens = []; no_consume = [] }

-- One round more than there are rules.
unfoldable pub recovery_spec_merged_for_label : String → Rules → Option RecoverySpec
unfolding merge_loop
recovery_spec_merged_for_label label rules =
    merge_loop rules (suc (length rules)) [] label no_tokens

unfoldable pub merged_entries : Rules → Rules → List (String × Option RecoverySpec)
unfolding recovery_spec_merged_for_label
merged_entries rules [] = []
merged_entries rules ((label, g) ∷ rest) =
    (label, recovery_spec_merged_for_label label rules) ∷ merged_entries rules rest

-- The entries of the map in the order of the rules.
unfoldable pub recovery_spec_merged_by_grammar_label : Rules → List (String × Option RecoverySpec)
unfolding merged_entries
recovery_spec_merged_by_grammar_label rules = merged_entries rules rules

-- `mergedByLabel[label]`
unfoldable pub merged_at : List (String × Option RecoverySpec) → String → Option RecoverySpec
merged_at [] label = none
merged_at ((k, spec) ∷ entries) label = if str_eq k label then spec else merged_at entries label
