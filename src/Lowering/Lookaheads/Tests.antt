-- ===== src/Lowering/Lookaheads/Tests.antt =====
-- Merging and shifting two guards.
use syntaxa.Prelude.{ℕ, suc, ◌≡◌, ◌&&◌, List, [], ◌∷◌}
use syntaxa.Tokens.{Lexeme}
use syntaxa.Stream.{eof_lex}
use syntaxa.Guards.{Lookahead, guard_matches_lookahead}
use syntaxa.Lowering.Lookaheads.{merge_lookaheads, shift_choice_guard_after_consume}
use syntaxa.Lowering.Lookaheads.Order.{IsAscending}
use syntaxa.Lowering.Lookaheads.Canonical.{
  behind, all_met_now, merge_lookaheads_lem, shift_choice_guard_lem,
}

abbrev at : (offset expected : ℕ) → Lookahead
at offset expected = record { offset = offset; expected = expected }

abbrev second_first : List Lookahead
second_first = at 1 4 ∷ at 0 3 ∷ at 1 4 ∷ []

abbrev third : List Lookahead
third = at 2 5 ∷ at 0 3 ∷ []

merge_lookaheads_example :
    IsAscending (merge_lookaheads second_first third)
    × ((peek : ℕ → Lexeme)
        → guard_matches_lookahead peek (merge_lookaheads second_first third)
          ≡ (guard_matches_lookahead peek second_first && guard_matches_lookahead peek third))
merge_lookaheads_example = merge_lookaheads_lem second_first third

-- The tokens 3, 4, 5 and so on.
abbrev counting : ℕ → Lexeme
counting n = eof_lex (suc (suc (suc n)))

shift_choice_guard_example :
    IsAscending (shift_choice_guard_after_consume second_first 3)
    × (guard_matches_lookahead counting second_first ≡ (
        all_met_now second_first 3
        && guard_matches_lookahead
            (behind counting)
            (shift_choice_guard_after_consume second_first 3)))
shift_choice_guard_example = shift_choice_guard_lem second_first counting
