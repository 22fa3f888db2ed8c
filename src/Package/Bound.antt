-- ===== src/Package/Bound.antt =====
-- grammar_package.go and parser.go: the rules of a parser with the merged recovery tokens bound in.
use text.Mathlib.Text.{◌==◌ as str_eq}
use text.Mathlib.TextEquality.{eq_iff}
use syntaxa.Prelude.{
  ◌≡◌, ◌↔◌, ◌∙◌, Bool, true, false, ◌||◌, some, [], ◌∷◌, String, ap, refl, contains, arith,
  Bool-cases, inl, inr, ◌⊎◌,
}
use syntaxa.Tokens.{TokenKind}
use syntaxa.Engine.{
  ParserRule, Registry, is_sync_token, bind_merged_recovery_into_registry,
  parser_rule_apply_recovery_spec,
}
use syntaxa.Package.{
  Rules, Grammar, rule_at, merged_at, merged_entries, recovery_spec_merged_for_label,
  recovery_spec_merged_by_grammar_label,
}
use syntaxa.Package.Reach.{Reaches}
use syntaxa.Package.Exact.{recovery_spec_merged_for_label-exact}

merged_at-merged_entries :
    (rules rest : Rules) (label : String) (g : Grammar)
    → rule_at rest label ≡ some g
    → merged_at (merged_entries rules rest) label ≡ recovery_spec_merged_for_label label rules
unfolding merged_at merged_entries rule_at
merged_at-merged_entries rules [] label g found = cc
merged_at-merged_entries rules ((k, h) ∷ rest) label g found = elim (Bool-cases (str_eq k label)) [
  | inl e ↦
      ground (arith, e, ap (λ l. recovery_spec_merged_for_label l rules) ((eq_iff k label).0 e))
  | inr e ↦ ground (arith, merged_at-merged_entries rules rest label g)
]

||_cases : {a b : Bool} → (a || b) ≡ true → (a ≡ true) ⊎ (b ≡ true)
||_cases {a = true} h = inl refl
||_cases {a = false} h = inr h

||_right : (a : Bool) {b : Bool} → b ≡ true → (a || b) ≡ true
||_right true h = refl
||_right false h = h

-- Two characterisations by the elements of a family join into one.
either_iff {ℓ κ} :
    {A : Type ℓ} {P : A → Type κ} {a b : Bool} {f g : A → Bool}
    → (a ≡ true) ↔ ((x : A) × P x × (f x ≡ true))
    → (b ≡ true) ↔ ((x : A) × P x × (g x ≡ true))
    → ((a || b) ≡ true) ↔ ((x : A) × P x × ((f x || g x) ≡ true))
either_iff {A = A} {P} {a} {b} {f} {g} p q = (forth, back)
  where
    forth : (a || b) ≡ true → (x : A) × P x × ((f x || g x) ≡ true)
    forth h = elim (||_cases h) [
      | inl c ↦ let (x, r, d) = p.0 c in (x, r, ap (λ z. z || g x) d)
      | inr c ↦ let (x, r, d) = q.0 c in (x, r, ||_right (f x) d)
    ]

    back : (x : A) × P x × ((f x || g x) ≡ true) → (a || b) ≡ true
    back (x, r, d) = elim (||_cases d) [
      | inl c ↦ ap (λ z. z || b) (p.1 (x, r, c))
      | inr c ↦ ||_right a (q.1 (x, r, c))
    ]

-- A registered rule whose grammar label has a rule in the package stays registered once the merged
-- recovery tokens are bound in. A token is then one of its own sync tokens exactly if a rule that the
-- grammar label reaches by references, itself included, names that token as one to consume or as one to
-- leave; the two sorts are kept apart.
pub bound_rule-sync :
    (rules : Rules) (registry : Registry) (label : String) (rule : ParserRule) (root : Grammar)
    → registry label ≡ some rule
    → rule_at rules rule.identity.grammar_label ≡ some root
    → (bound : ParserRule) × (bind_merged_recovery_into_registry registry
          (merged_at (recovery_spec_merged_by_grammar_label rules))
          label
        ≡ some bound)
      × ((t : TokenKind)
          → (contains bound.recovery_tokens t ≡ true) ↔ (
              (g : Grammar) × Reaches rules rule.identity.grammar_label g
              × (contains g.recovery_tokens t ≡ true)))
      × ((t : TokenKind)
          → (contains bound.no_consume_on_recovery_tokens t ≡ true) ↔ (
              (g : Grammar) × Reaches rules rule.identity.grammar_label g
              × (contains g.no_consume_on_recovery_tokens t ≡ true)))
      × ((t : TokenKind)
          → (is_sync_token bound t ≡ true) ↔ (
              (g : Grammar) × Reaches rules rule.identity.grammar_label g
              × ((contains g.recovery_tokens t || contains g.no_consume_on_recovery_tokens t)
                  ≡ true)))
unfolding parser_rule_apply_recovery_spec bind_merged_recovery_into_registry
    recovery_spec_merged_by_grammar_label is_sync_token
bound_rule-sync rules registry label rule root registered found =
    let (result, ran, once, once', takes, leaves) =
      recovery_spec_merged_for_label-exact rules rule.identity.grammar_label in
    let at : merged_at (merged_entries rules rules) rule.identity.grammar_label ≡ some result =
      merged_at-merged_entries rules rules rule.identity.grammar_label root found ∙ ran in
    (
      parser_rule_apply_recovery_spec rule result,
      ground (arith, registered, at),
      takes,
      leaves,
      λ t. either_iff (takes t) (leaves t),
    )
