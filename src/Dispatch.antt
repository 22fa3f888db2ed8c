-- ===== src/Dispatch.antt =====
-- choice_dispatch.go: which arms of a choice can match what lies ahead. Maps are functions to options, a
-- token set is a list.
mod Tests
pub mod Candidates
use syntaxa.Prelude.{
  ℕ, suc, Bool, true, false, not, ◌&&◌, ◌||◌, Option, none, some, List, [], ◌∷◌, String, contains,
  if◌then◌else◌,
}
use syntaxa.Tokens.{TokenKind, Lexeme}
use syntaxa.Errors.{is_empty}
use syntaxa.Guards.{Lookahead, guard_matches_lookahead}

abbrev pub NodeKey : Type 0
NodeKey = String

pub record GuardedArm : Type 0 where
  pub first : List TokenKind
  pub guard : List Lookahead

-- The part of `GrammarAnalysis` that the dispatch and the rules read; `follow` is empty for a key that
-- its map lacks.
pub record GrammarAnalysis : Type 0 where
  pub nullable : NodeKey → Option Bool
  pub first : NodeKey → Option (List TokenKind)
  pub arm_predict : NodeKey → Option GuardedArm
  pub follow : NodeKey → List TokenKind

-- The key of an arm's node path, and its own lookaheads.
pub record Arm : Type 0 where
  pub node_key : Option NodeKey
  pub lookaheads : List Lookahead

pub data ChoiceDispatchMode : Type 0 where
  choice_dispatch_fallback choice_dispatch_candidates choice_dispatch_no_match : ChoiceDispatchMode

-- `firstSet`, with the override by the arm's prediction.
abbrev override_first : Option GuardedArm → Option (List TokenKind) → Option (List TokenKind)
override_first none first = first
override_first (some arm) first = if is_empty arm.first then first else some arm.first

abbrev arm_guard : Option GuardedArm → List Lookahead → List Lookahead
arm_guard none lookaheads = lookaheads
arm_guard (some arm) lookaheads = if is_empty arm.guard then lookaheads else arm.guard

-- The tests on an arm whose sets are known.
abbrev filter_known : List TokenKind → Bool → List Lookahead → (ℕ → Lexeme) → Bool
filter_known first nullable guard peek =
    if nullable
    then true
    else if not (contains first (peek 0).token)
    then false
    else if not (is_empty guard) && not (guard_matches_lookahead peek guard)
    then false
    else true

filter_sets : Option (List TokenKind) → Option Bool → List Lookahead → (ℕ → Lexeme) → Bool
unfolding guard_matches_lookahead
filter_sets none nullable guard peek = true
filter_sets (some first) none guard peek = true
filter_sets (some first) (some nullable) guard peek = filter_known first nullable guard peek

filter_keyed : GrammarAnalysis → Option NodeKey → List Lookahead → (ℕ → Lexeme) → Bool
unfolding filter_sets
filter_keyed analysis none lookaheads peek = true
filter_keyed analysis (some key) lookaheads peek =
    filter_sets (override_first (analysis.arm_predict key) (analysis.first key))
      (analysis.nullable key) (arm_guard (analysis.arm_predict key) lookaheads) peek

-- Whether the loop appends the arm's index; `none` is a nil arm.
unfoldable pub is_candidate : GrammarAnalysis → (ℕ → Lexeme) → Option Arm → Bool
unfolding filter_keyed
is_candidate analysis peek none = true
is_candidate analysis peek (some arm) = filter_keyed analysis arm.node_key arm.lookaheads peek

-- The loop, from an index on.
unfoldable pub candidates_from : GrammarAnalysis → (ℕ → Lexeme) → ℕ → List (Option Arm) → List ℕ
unfolding is_candidate
candidates_from analysis peek idx [] = []
candidates_from analysis peek idx (arm ∷ arms) =
    let rest = candidates_from analysis peek (suc idx) arms in
    if is_candidate analysis peek arm then idx ∷ rest else rest

abbrev pub mode_of : List ℕ → List ℕ × ChoiceDispatchMode
mode_of [] = ([], choice_dispatch_no_match)
mode_of (i ∷ is) = (i ∷ is, choice_dispatch_candidates)

unfoldable pub dispatch :
    Option GrammarAnalysis → List (Option Arm) → (ℕ → Lexeme) → List ℕ × ChoiceDispatchMode
unfolding candidates_from
dispatch none arms peek = ([], choice_dispatch_fallback)
dispatch (some analysis) arms peek = mode_of (candidates_from analysis peek 0 arms)

unfoldable pub choice_candidate_indices_from_analysis :
    Option GrammarAnalysis → List (Option Arm) → (ℕ → Lexeme) → List ℕ × ChoiceDispatchMode
unfolding dispatch
choice_candidate_indices_from_analysis analysis arms peek = dispatch analysis arms peek
