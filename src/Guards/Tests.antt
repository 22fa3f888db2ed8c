-- ===== src/Guards/Tests.antt =====
-- Guards on two tokens.
use syntaxa.Prelude.{ℕ, ◌≡◌, true, false, none, some, List, [], ◌∷◌, ◌⊎◌}
use syntaxa.Tokens.{Lexeme}
use syntaxa.Guards.{
  Lookahead, Constraints, guard_matches_lookahead, guard_peek_constraints,
  guards_mutually_exclusive,
}
use syntaxa.Guards.Exclusion.{
  IsMet, IsUnmet, guards_mutually_exclusive_lem, guard_peek_constraints_lem,
}

abbrev at : (offset expected : ℕ) → Lookahead
at offset expected = record { offset = offset; expected = expected }

abbrev call : List Lookahead
call = at 0 3 ∷ at 1 4 ∷ []

abbrev index : List Lookahead
index = at 0 3 ∷ at 1 5 ∷ at 0 3 ∷ []

guards_mutually_exclusive_example :
    ((guards_mutually_exclusive call index ≡ true)
      × IsMet call
      × IsMet index
      × ((peek : ℕ → Lexeme)
          → guard_matches_lookahead peek call ≡ true
          → ¬ (guard_matches_lookahead peek index ≡ true)))
    ⊎ ((guards_mutually_exclusive call index ≡ false)
        × (IsUnmet call
            ⊎ (IsUnmet index
                ⊎ ((peek : ℕ → Lexeme) × (guard_matches_lookahead peek call ≡ true)
                    × (guard_matches_lookahead peek index ≡ true)))))
guards_mutually_exclusive_example = guards_mutually_exclusive_lem call index

guard_peek_constraints_example :
    ((guard_peek_constraints index ≡ none)
      × ((peek : ℕ → Lexeme) → guard_matches_lookahead peek index ≡ false))
    ⊎ ((m : Constraints) × (guard_peek_constraints index ≡ some m)
        × ((peek : ℕ → Lexeme) × (guard_matches_lookahead peek index ≡ true)))
guard_peek_constraints_example = guard_peek_constraints_lem index
