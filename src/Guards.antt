-- ===== src/Guards.antt =====
-- lookahead_guard.go: conjunctions of token tests at peek offsets. A Go map is an association list that
-- holds each key once; the offsets are only compared, so they are natural numbers here.
mod Tests
pub mod Meaning
pub mod Exclusion
use syntaxa.Prelude.{
  ℕ, Bool, true, false, not, ◌&&◌, ◌||◌, Option, none, some, List, [], ◌∷◌, ◌==◌, if◌then◌else◌,
}
use syntaxa.Tokens.{TokenKind, Lexeme}

pub record Lookahead : Type 0 where
  pub offset : ℕ
  pub expected : TokenKind

unfoldable pub guard_matches_lookahead : (ℕ → Lexeme) → List Lookahead → Bool
guard_matches_lookahead peek [] = true
guard_matches_lookahead peek (l ∷ ls) =
    if not ((peek l.offset).token == l.expected) then false else guard_matches_lookahead peek ls

abbrev pub Constraints : Type 0
Constraints = List (ℕ × TokenKind)

unfoldable pub constraint_at : ℕ → Constraints → Option TokenKind
constraint_at o [] = none
constraint_at o ((k, t) ∷ m) = if k == o then some t else constraint_at o m

-- `m[o] = t`
unfoldable pub put : ℕ → TokenKind → Constraints → Constraints
put o t [] = (o, t) ∷ []
put o t ((k, u) ∷ m) = if k == o then (o, t) ∷ m else (k, u) ∷ put o t m

-- `prev, ok := m[o]; ok && prev != t`
abbrev pub clashes : Option TokenKind → TokenKind → Bool
clashes none t = false
clashes (some prev) t = not (prev == t)

-- The loop of `GuardPeekConstraints`; `none` is the result `(nil, true)`.
unfoldable pub constraints_from : Constraints → List Lookahead → Option Constraints
unfolding constraint_at put
constraints_from m [] = some m
constraints_from m (x ∷ xs) =
    let rest = constraints_from (put x.offset x.expected m) xs in
    if clashes (constraint_at x.offset m) x.expected then none else rest

unfoldable pub guard_peek_constraints : List Lookahead → Option Constraints
unfolding constraints_from
guard_peek_constraints g = constraints_from [] g

-- The loop over the map of the first guard.
unfoldable pub differ_somewhere : Constraints → Constraints → Bool
unfolding constraint_at
differ_somewhere [] mb = false
differ_somewhere ((o, ta) ∷ ma) mb =
    if clashes (constraint_at o mb) ta then true else differ_somewhere ma mb

exclusive_of : Option Constraints → Option Constraints → Bool
unfolding differ_somewhere
exclusive_of none mb = false
exclusive_of (some ma) none = false
exclusive_of (some ma) (some mb) = differ_somewhere ma mb

unfoldable pub guards_mutually_exclusive : List Lookahead → List Lookahead → Bool
unfolding exclusive_of guard_peek_constraints
guards_mutually_exclusive a b = exclusive_of (guard_peek_constraints a) (guard_peek_constraints b)
