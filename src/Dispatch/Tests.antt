-- ===== src/Dispatch/Tests.antt =====
-- A choice of three arms.
use syntaxa.Prelude.{ℕ, false, Option, none, some, List, [], ◌∷◌}
use syntaxa.Tokens.{Lexeme}
use syntaxa.Stream.{eof_lex}
use syntaxa.Dispatch.{GrammarAnalysis, Arm}

-- Every keyed arm starts with token 3 and is not nullable; the second arm also looks at the next token.
abbrev analysis : GrammarAnalysis
analysis = record {
  nullable = λ k. some false;
  first = λ k. some (3 ∷ []);
  arm_predict = λ k. none;
  follow = λ k. [];
}

abbrev guarded : Arm
guarded = record { node_key = some "call"; lookaheads = record { offset = 1; expected = 4 } ∷ [] }

abbrev arms : List (Option Arm)
arms = some (record { node_key = some "name"; lookaheads = [] }) ∷ some guarded ∷ none ∷ []

abbrev all_threes : ℕ → Lexeme
all_threes n = eof_lex 3
