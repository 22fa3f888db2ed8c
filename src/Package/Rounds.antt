-- ===== src/Package/Rounds.antt =====
-- grammar_package.go, `recoverySpecMergedForLabel`: its loop ends.
use text.Mathlib.Text.{◌==◌ as str_eq}
use text.Mathlib.TextEquality.{eq_iff}
use syntaxa.Prelude.{
  ℕ, zero, suc, ◌≤◌, ◌<◌, ◌≡◌, ◌⊎◌, true, false, none, some, List, [], ◌∷◌, String, length, arith,
  if◌then◌else◌, Bool-cases, Option-cases, inl, inr,
}
use syntaxa.Engine.{RecoverySpec}
use syntaxa.Package.{
  Rules, Round, Grammar, rule_at, seen, round, merge_loop, recovery_spec_merged_for_label,
  no_tokens, absorb, next_label, is_reference,
}

-- How many entries of the map have a label that is not visited.
unvisited : Rules → List String → ℕ
unvisited [] visited = 0
unvisited ((k, g) ∷ rules) visited =
    if seen visited k then unvisited rules visited else suc (unvisited rules visited)

unvisited-length : (rules : Rules) (visited : List String) → unvisited rules visited ≤ length rules
unfolding unvisited
unvisited-length [] visited = omega arith
unvisited-length ((k, g) ∷ rules) visited = ground (arith, unvisited-length rules visited)

unvisited_le :
    (rules : Rules) (visited : List String) (label : String)
    → unvisited rules (label ∷ visited) ≤ unvisited rules visited
unfolding unvisited seen
unvisited_le [] visited label = omega arith
unvisited_le ((k, g) ∷ rules) visited label = ground (arith, unvisited_le rules visited label)

unvisited_lt :
    (rules : Rules) (visited : List String) (label : String) (g : Grammar)
    → rule_at rules label ≡ some g
    → seen visited label ≡ false
    → unvisited rules (label ∷ visited) < unvisited rules visited
unfolding unvisited seen rule_at
unvisited_lt [] visited label g found new = cc
unvisited_lt ((k, h) ∷ rules) visited label g found new = ground (
  arith,
  eq_iff k label,
  eq_iff label k,
  unvisited_le rules visited label,
  unvisited_lt rules visited label g,
)

module _ (rules : Rules) where
  -- A round at the label adds nothing.
  pub data Settled (visited : List String) (label : String) : Type 0 where
    blank : str_eq label "" ≡ true → Settled visited label
    visited_before : seen visited label ≡ true → Settled visited label
    missing : rule_at rules label ≡ none → Settled visited label

  pub record Found (visited : List String) (label : String) (g : Grammar) : Type 0 where
    pub named : str_eq label "" ≡ false
    pub new : seen visited label ≡ false
    pub found : rule_at rules label ≡ some g

  -- What a round comes to.
  pub data Step (visited : List String) (label : String) (merged : RecoverySpec) : Type 0 where
    halted :
        round rules visited label merged ≡ Round.stop merged
        → Settled visited label
        → Step visited label merged
    ended :
        (g : Grammar)
        → round rules visited label merged ≡ Round.stop (absorb merged g)
        → Found visited label g
        → (is_reference g.kind ≡ true → str_eq (next_label g) "" ≡ true)
        → Step visited label merged
    went :
        (g : Grammar)
        → round rules visited label merged
          ≡ Round.again (label ∷ visited) (next_label g) (absorb merged g)
        → Found visited label g
        → is_reference g.kind ≡ true
        → Step visited label merged

  pub round-Step :
      (visited : List String) (label : String) (merged : RecoverySpec) → Step visited label merged
  unfolding round
  round-Step visited label merged = elim (Bool-cases (str_eq label "")) [
    | inl b ↦ Step.halted (ground arith) (Settled.blank b)
    | inr b ↦ elim (Bool-cases (seen visited label)) [
      | inl s ↦ Step.halted (ground arith) (Settled.visited_before s)
      | inr s ↦ elim (Option-cases (rule_at rules label)) [
        | inl n ↦ Step.halted (ground arith) (Settled.missing n)
        | inr (g, e) ↦
            followed b s g e (Bool-cases (is_reference g.kind))
              (Bool-cases (str_eq (next_label g) ""))
      ]
    ]
  ]
    where
      followed :
          str_eq label "" ≡ false
          → seen visited label ≡ false
          → (g : Grammar) → rule_at rules label ≡ some g
          → (is_reference g.kind ≡ true) ⊎ (is_reference g.kind ≡ false)
          → (str_eq (next_label g) "" ≡ true) ⊎ (str_eq (next_label g) "" ≡ false)
          → Step visited label merged
      followed b s g e (inr k) o =
          Step.ended g (ground arith) (record { named = b; new = s; found = e }) (λ k'. cc)
      followed b s g e (inl k) (inl o) =
          Step.ended g (ground arith) (record { named = b; new = s; found = e }) (λ k'. o)
      followed b s g e (inl k) (inr o) =
          Step.went g (ground arith) (record { named = b; new = s; found = e }) k

  -- The loop ends within the fuel if that exceeds the number of rules not yet visited.
  merge_loop-ends :
      (fuel : ℕ) (visited : List String) (label : String) (merged : RecoverySpec)
      → unvisited rules visited < fuel
      → (result : RecoverySpec) × (merge_loop rules fuel visited label merged ≡ some result)
  unfolding merge_loop
  merge_loop-ends zero visited label merged enough = absurd (omega arith)
  merge_loop-ends (suc fuel) visited label merged enough = elim (round-Step visited label merged) [
    | Step.halted e h ↦ (merged, ground arith)
    | Step.ended g e f h ↦ (absorb merged g, ground arith)
    | Step.went g e f h ↦
        let shrinks = unvisited_lt rules visited label g f.found f.new in
        let (result, ran) =
          merge_loop-ends fuel (label ∷ visited) (next_label g) (absorb merged g) (omega arith) in
        (result, ground (arith, ran))
  ]

  -- The merge of every label comes to an end, whatever cycles the references form: one round more than
  -- there are rules is enough.
  pub recovery_spec_merged_for_label-ends :
      (label : String)
      → (result : RecoverySpec) × (recovery_spec_merged_for_label label rules ≡ some result)
  unfolding recovery_spec_merged_for_label
  recovery_spec_merged_for_label-ends label =
      let bound = unvisited-length rules [] in
      merge_loop-ends (suc (length rules)) [] label no_tokens (omega arith)
