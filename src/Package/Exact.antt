-- ===== src/Package/Exact.antt =====
-- grammar_package.go: the merged recovery tokens of a label are those of the rules that it reaches.
use syntaxa.Prelude.{
  suc, ◌≡◌, ◌↔◌, true, false, some, List, [], String, refl, length, contains, inl, inr,
}
use syntaxa.Tokens.{TokenKind}
use syntaxa.Engine.{RecoverySpec}
use syntaxa.Package.{
  Rules, Grammar, seen, recovery_spec_merged_for_label, absorb, no_tokens,
  recovery_append_unique_stable,
}
use syntaxa.Package.Rounds.{recovery_spec_merged_for_label-ends}
use syntaxa.Package.Reach.{Reaches, merge_loop-gathers}
use syntaxa.Recovery.Queries.{Distinct}
use syntaxa.Package.Distinct.{AreDistinct, merge_loop-AreDistinct}
use syntaxa.Package.Explored.{merge_loop-closes, reached_merged}

module _ (rules : Rules) (get : RecoverySpec → List TokenKind) (own : Grammar → List TokenKind)
    (adds : (merged : RecoverySpec) (g : Grammar)
      → get (absorb merged g) ≡ recovery_append_unique_stable (get merged) (own g)) where
  pub merged_iff :
      (label : String) (result : RecoverySpec)
      → recovery_spec_merged_for_label label rules ≡ some result
      → ((t : TokenKind) → contains (get no_tokens) t ≡ false)
      → (t : TokenKind)
      → (contains (get result) t ≡ true)
        ↔ ((g : Grammar) × Reaches rules label g × (contains (own g) t ≡ true))
  unfolding recovery_spec_merged_for_label seen
  merged_iff label result ran start t = (forth, back)
    where
      forth :
          contains (get result) t ≡ true
          → (g : Grammar) × Reaches rules label g × (contains (own g) t ≡ true)
      forth h =
          elim (merge_loop-gathers rules get own adds (suc (length rules)) [] label no_tokens result
            t ran h) [ inl c ↦ cc (c, start t) | inr c ↦ c ]

      back :
          (g : Grammar) × Reaches rules label g × (contains (own g) t ≡ true)
          → contains (get result) t ≡ true
      back (g, r, c) =
          let (w, closed, grows, settled) =
            merge_loop-closes rules get own adds (suc (length rules)) [] label no_tokens result ran
              (λ k h s e. cc) in
          reached_merged rules get own adds w result label g closed settled r t c

-- The merge of a label comes to an end, also where references form a cycle or lead to no rule. It names
-- no token twice, and it holds a token exactly if a rule that the label reaches by references, itself
-- included, has that token among its own: so for the tokens that recovery consumes, and for those that
-- it leaves.
pub recovery_spec_merged_for_label-exact :
    (rules : Rules) (label : String)
    → (result : RecoverySpec) × (recovery_spec_merged_for_label label rules ≡ some result)
      × Distinct result.tokens
      × Distinct result.no_consume
      × ((t : TokenKind)
          → (contains result.tokens t ≡ true)
            ↔ ((g : Grammar) × Reaches rules label g × (contains g.recovery_tokens t ≡ true)))
      × ((t : TokenKind)
          → (contains result.no_consume t ≡ true) ↔ (
              (g : Grammar) × Reaches rules label g
              × (contains g.no_consume_on_recovery_tokens t ≡ true)))
unfolding absorb AreDistinct recovery_spec_merged_for_label
recovery_spec_merged_for_label-exact rules label =
    let (result, ran) = recovery_spec_merged_for_label-ends rules label in
    let distinct =
      merge_loop-AreDistinct rules (suc (length rules)) [] label no_tokens result ran (tt, tt) in
    (
      result,
      ran,
      distinct.0,
      distinct.1,
      merged_iff rules (λ m. m.tokens) (λ g. g.recovery_tokens) (λ m g. refl) label result ran
          (λ t. refl),
      merged_iff rules (λ m. m.no_consume) (λ g. g.no_consume_on_recovery_tokens) (λ m g. refl)
          label result ran (λ t. refl),
    )
