-- ===== src/Lowering/Lookaheads/Canonical.antt =====
-- lowering/lookahead.go: what merging and shifting a guard mean.
use syntaxa.Prelude.{
  ℕ, zero, suc, ◌≡◌, refl, sym, ap, ◌∙◌, Bool, true, ◌&&◌, Option, none, some, List, [], ◌∷◌, ◌++◌,
  arith, ◌==◌,
}
use syntaxa.Tokens.{TokenKind, Lexeme}
use syntaxa.Guards.{Lookahead, guard_matches_lookahead}
use syntaxa.Lowering.Lookaheads.{
  insert, sort, dedupe_from, dedupe_sorted_lookaheads, normalize_lookahead_slice, merge_lookaheads,
  shift_one, shift_all, shift_choice_guard_after_consume,
}
use syntaxa.Lowering.Lookaheads.Order.{IsAscending, sort-IsSorted, dedupe_from-IsAscending}

module _ (peek : ℕ → Lexeme) where
  abbrev holds : Lookahead → Bool
  holds l = (peek l.offset).token == l.expected

  matches-cons :
      (x : Lookahead) (g : List Lookahead)
      → guard_matches_lookahead peek (x ∷ g) ≡ (holds x && guard_matches_lookahead peek g)
  unfolding guard_matches_lookahead
  matches-cons x g = ground arith

  matches-append :
      (g h : List Lookahead)
      → guard_matches_lookahead peek (g ++ h)
        ≡ (guard_matches_lookahead peek g && guard_matches_lookahead peek h)
  unfolding guard_matches_lookahead
  matches-append [] h = refl
  matches-append (x ∷ g) h = ground (arith, matches-append g h)

  matches-insert :
      (x : Lookahead) (g : List Lookahead)
      → guard_matches_lookahead peek (insert x g) ≡ (holds x && guard_matches_lookahead peek g)
  unfolding insert guard_matches_lookahead
  matches-insert x [] = ground arith
  matches-insert x (y ∷ g) = ground (arith, matches-insert x g)

  matches-sort :
      (g : List Lookahead) → guard_matches_lookahead peek (sort g) ≡ guard_matches_lookahead peek g
  unfolding sort
  matches-sort [] = refl
  matches-sort (x ∷ g) =
      matches-insert x (sort g) ∙ ap (λ b. holds x && b) (matches-sort g) ∙ sym (matches-cons x g)

  abbrev holds_last : Option Lookahead → Bool
  holds_last none = true
  holds_last (some l) = holds l

  matches-dedupe_from :
      (last : Option Lookahead) (g : List Lookahead)
      → (holds_last last && guard_matches_lookahead peek (dedupe_from last g))
        ≡ (holds_last last && guard_matches_lookahead peek g)
  unfolding dedupe_from guard_matches_lookahead
  matches-dedupe_from last [] = refl
  matches-dedupe_from none (x ∷ g) = ground (arith, matches-dedupe_from (some x) g)
  matches-dedupe_from (some l) (x ∷ g) =
      ground (arith, matches-dedupe_from (some l) g, matches-dedupe_from (some x) g)

-- A slice that is sorted and has its duplicates removed is canonical and means the same.
dedupe-sort :
    (g : List Lookahead)
    → IsAscending (dedupe_sorted_lookaheads (sort g))
      × ((peek : ℕ → Lexeme)
          → guard_matches_lookahead peek (dedupe_sorted_lookaheads (sort g))
            ≡ guard_matches_lookahead peek g)
unfolding dedupe_sorted_lookaheads
dedupe-sort g = (
  (dedupe_from-IsAscending none (sort g) (sort-IsSorted g) tt).1,
  λ peek. matches-dedupe_from peek none (sort g) ∙ matches-sort peek g,
)

normalize-IsAscending :
    (g : List Lookahead)
    → IsAscending (normalize_lookahead_slice g)
      × ((peek : ℕ → Lexeme)
          → guard_matches_lookahead peek (normalize_lookahead_slice g)
            ≡ guard_matches_lookahead peek g)
unfolding normalize_lookahead_slice IsAscending
normalize-IsAscending [] = (tt, λ peek. refl)
normalize-IsAscending (x ∷ []) = ((tt, tt), λ peek. refl)
normalize-IsAscending (x ∷ y ∷ g) = dedupe-sort (x ∷ y ∷ g)

-- Merging two guards gives one in strictly ascending order of offset and token, which a peek meets just
-- if it meets both.
pub merge_lookaheads_lem :
    (a b : List Lookahead)
    → IsAscending (merge_lookaheads a b)
      × ((peek : ℕ → Lexeme)
          → guard_matches_lookahead peek (merge_lookaheads a b)
            ≡ (guard_matches_lookahead peek a && guard_matches_lookahead peek b))
unfolding merge_lookaheads guard_matches_lookahead
merge_lookaheads_lem [] b = normalize-IsAscending b
merge_lookaheads_lem (x ∷ a) [] =
    let (p, q) = normalize-IsAscending (x ∷ a) in (p, λ peek. ground (arith, q peek))
merge_lookaheads_lem (x ∷ a) (y ∷ b) =
    let (p, q) = dedupe-sort ((x ∷ a) ++ (y ∷ b)) in
    (p, λ peek. q peek ∙ matches-append peek (x ∷ a) (y ∷ b))

-- A peek one token further on.
abbrev pub behind : (ℕ → Lexeme) → ℕ → Lexeme
behind peek n = peek (suc n)

-- The token at offset 0 is the one that an entry asks for.
pub met_now : (offset : ℕ) → (expected consumed : TokenKind) → Bool
met_now zero expected consumed = expected == consumed
met_now (suc n) expected consumed = true

pub all_met_now : List Lookahead → TokenKind → Bool
all_met_now [] consumed = true
all_met_now (l ∷ g) consumed = met_now l.offset l.expected consumed && all_met_now g consumed

-- One entry says the same before and after the token, if it does not ask for another token now.
shift_one-matches :
    (peek : ℕ → Lexeme) (o : ℕ) (e : TokenKind)
    → ((peek o).token == e) ≡ (
        met_now o e (peek 0).token
        && guard_matches_lookahead (behind peek) (shift_one o e (peek 0).token))
unfolding met_now shift_one guard_matches_lookahead
shift_one-matches peek zero e = ground arith
shift_one-matches peek (suc n) e = ground arith

shift_all-matches :
    (peek : ℕ → Lexeme) (g : List Lookahead)
    → guard_matches_lookahead peek g ≡ (
        all_met_now g (peek 0).token
        && guard_matches_lookahead (behind peek) (shift_all g (peek 0).token))
unfolding shift_all all_met_now guard_matches_lookahead
shift_all-matches peek [] = refl
shift_all-matches peek (l ∷ g) = ground (
  arith,
  shift_one-matches peek l.offset l.expected,
  shift_all-matches peek g,
  matches-append (behind peek) (shift_one l.offset l.expected (peek 0).token)
      (shift_all g (peek 0).token),
)

-- Shifting a guard over the next token gives one in strictly ascending order. A peek meets the guard just
-- if the next token is what the guard asks for at offset 0, and the peek from behind that token meets
-- the shifted guard.
pub shift_choice_guard_lem :
    (g : List Lookahead) (peek : ℕ → Lexeme)
    → IsAscending (shift_choice_guard_after_consume g (peek 0).token)
      × (guard_matches_lookahead peek g ≡ (
          all_met_now g (peek 0).token
          && guard_matches_lookahead
              (behind peek)
              (shift_choice_guard_after_consume g (peek 0).token)))
unfolding shift_choice_guard_after_consume
shift_choice_guard_lem g peek =
    let (p, q) = dedupe-sort (shift_all g (peek 0).token) in
    (
      p,
      shift_all-matches peek g
          ∙ ap (λ b. all_met_now g (peek 0).token && b) (sym (q (behind peek))),
    )
