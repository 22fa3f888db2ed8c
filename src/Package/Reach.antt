-- ===== src/Package/Reach.antt =====
-- grammar_package.go, `recoverySpecMergedForLabel`: which tokens the merge of a label holds.
use text.Mathlib.Text.{◌==◌ as str_eq}
use syntaxa.Prelude.{
  ℕ, zero, suc, ◌≡◌, ◌⊎◌, ◌∙◌, true, false, ◌||◌, some, List, [], ◌∷◌, ◌++◌, String, ap, contains,
  arith, Bool-cases, inl, inr,
}
use syntaxa.Tokens.{TokenKind}
use syntaxa.Engine.{RecoverySpec}
use syntaxa.Package.{
  Rules, Grammar, rule_at, merge_loop, absorb, next_label, is_reference,
  recovery_append_unique_stable,
}
use syntaxa.Recovery.Queries.{contains-append}
use syntaxa.Package.Rounds.{Step, round-Step}

contains-recovery_append_unique_stable :
    (dst src : List TokenKind) (t : TokenKind)
    → contains (recovery_append_unique_stable dst src) t ≡ (contains dst t || contains src t)
unfolding recovery_append_unique_stable
contains-recovery_append_unique_stable dst [] t = ground arith
contains-recovery_append_unique_stable dst (x ∷ src) t = elim (Bool-cases (contains dst x)) [
  | inl c ↦ ground (arith, contains-recovery_append_unique_stable dst src t)
  | inr c ↦ ground (
    arith,
    contains-append dst (x ∷ []) t,
    contains-recovery_append_unique_stable (dst ++ x ∷ []) src t,
  )
]

module _ (rules : Rules) where
  -- The rules that a label refers to, through references, itself the first.
  pub data Reaches : String → Grammar → Type 0 where
    here :
        (label : String) (g : Grammar)
        → str_eq label "" ≡ false
        → rule_at rules label ≡ some g
        → Reaches label g
    onward :
        (label : String) (g h : Grammar)
        → str_eq label "" ≡ false
        → rule_at rules label ≡ some g
        → is_reference g.kind ≡ true
        → Reaches (next_label g) h
        → Reaches label h

module _ (rules : Rules) (get : RecoverySpec → List TokenKind) (own : Grammar → List TokenKind)
    (adds : (merged : RecoverySpec) (g : Grammar)
      → get (absorb merged g) ≡ recovery_append_unique_stable (get merged) (own g)) where
  abbrev pub Gathered : String → TokenKind → Type 0
  Gathered label t = (g : Grammar) × Reaches rules label g × (contains (own g) t ≡ true)

  pub absorbed :
      (merged : RecoverySpec) (g : Grammar) (t : TokenKind)
      → contains (get (absorb merged g)) t ≡ (contains (get merged) t || contains (own g) t)
  absorbed merged g t =
      ap (λ ts. contains ts t) (adds merged g)
      ∙ contains-recovery_append_unique_stable (get merged) (own g) t

  absorbed_cases :
      (merged : RecoverySpec) (g : Grammar) (t : TokenKind)
      → contains (get (absorb merged g)) t ≡ true
      → (contains (get merged) t ≡ true) ⊎ (contains (own g) t ≡ true)
  absorbed_cases merged g t h = elim (Bool-cases (contains (get merged) t)) [
    | inl c ↦ inl c
    | inr c ↦ inr (ground (arith, absorbed merged g t))
  ]

  -- Every token of the result was there or is one of a rule that the label reaches.
  pub merge_loop-gathers :
      (fuel : ℕ) (visited : List String) (label : String) (merged result : RecoverySpec)
      (t : TokenKind)
      → merge_loop rules fuel visited label merged ≡ some result
      → contains (get result) t ≡ true
      → (contains (get merged) t ≡ true) ⊎ Gathered label t
  unfolding merge_loop
  merge_loop-gathers zero visited label merged result t ran h = cc
  merge_loop-gathers (suc fuel) visited label merged result t ran h =
      elim (round-Step rules visited label merged) [
        | Step.halted e s ↦
            let same : merged ≡ result = ground arith in inl (ap (λ m. contains (get m) t) same ∙ h)
        | Step.ended g e f s ↦
            let same : absorb merged g ≡ result = ground arith in
            elim (absorbed_cases merged g t (ap (λ m. contains (get m) t) same ∙ h)) [
              | inl c ↦ inl c
              | inr c ↦ inr (g, Reaches.here label g f.named f.found, c)
            ]
        | Step.went g e f k ↦
            elim (merge_loop-gathers fuel (label ∷ visited) (next_label g) (absorb merged g) result
              t (ground arith) h) [
                | inl c ↦ elim (absorbed_cases merged g t c) [
                  | inl d ↦ inl d
                  | inr d ↦ inr (g, Reaches.here label g f.named f.found, d)
                ]
                | inr (i, r, c) ↦ inr (i, Reaches.onward label g i f.named f.found k r, c)
              ]
      ]
