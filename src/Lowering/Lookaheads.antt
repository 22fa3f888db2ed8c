-- ===== src/Lowering/Lookaheads.antt =====
-- lowering/lookahead.go: guards as sorted slices without duplicates. `sort.Slice` orders by offset and
-- token, which leaves only equal entries unordered, so every sort gives the same slice.
mod Tests
pub mod Order
pub mod Canonical
use syntaxa.Prelude.{
  ℕ, zero, suc, Bool, true, false, ◌&&◌, ◌||◌, Option, none, some, List, [], ◌∷◌, ◌++◌, ltb, ◌==◌,
  if◌then◌else◌,
}
use syntaxa.Tokens.{TokenKind}
use syntaxa.Guards.{Lookahead}

-- The comparison of `sort.Slice`.
abbrev pub before : Lookahead → Lookahead → Bool
before x y = if x.offset == y.offset then ltb x.expected y.expected else ltb x.offset y.offset

unfoldable pub insert : Lookahead → List Lookahead → List Lookahead
insert x [] = x ∷ []
insert x (y ∷ ys) = if before y x then y ∷ insert x ys else x ∷ y ∷ ys

unfoldable pub sort : List Lookahead → List Lookahead
unfolding insert
sort [] = []
sort (x ∷ xs) = insert x (sort xs)

abbrev pub is_last : Option Lookahead → Lookahead → Bool
is_last none x = false
is_last (some y) x = (y.offset == x.offset) && (y.expected == x.expected)

-- The loop, with the last entry that was kept.
unfoldable pub dedupe_from : Option Lookahead → List Lookahead → List Lookahead
dedupe_from last [] = []
dedupe_from last (x ∷ xs) =
    let skipped = dedupe_from last xs in
    let kept = x ∷ dedupe_from (some x) xs in if is_last last x then skipped else kept

unfoldable pub dedupe_sorted_lookaheads : List Lookahead → List Lookahead
unfolding dedupe_from
dedupe_sorted_lookaheads g = dedupe_from none g

unfoldable pub normalize_lookahead_slice : List Lookahead → List Lookahead
unfolding dedupe_sorted_lookaheads sort
normalize_lookahead_slice [] = []
normalize_lookahead_slice (x ∷ []) = x ∷ []
normalize_lookahead_slice (x ∷ y ∷ g) = dedupe_sorted_lookaheads (sort (x ∷ y ∷ g))

unfoldable pub merge_lookaheads : List Lookahead → List Lookahead → List Lookahead
unfolding normalize_lookahead_slice dedupe_sorted_lookaheads sort
merge_lookaheads [] b = normalize_lookahead_slice b
merge_lookaheads (x ∷ a) [] = normalize_lookahead_slice (x ∷ a)
merge_lookaheads (x ∷ a) (y ∷ b) = dedupe_sorted_lookaheads (sort ((x ∷ a) ++ (y ∷ b)))

-- What the loop of `shiftChoiceGuardAfterConsume` appends for one entry. An entry for the consumed token
-- that asks for another one is kept as it is.
unfoldable pub shift_one : (offset : ℕ) → (expected consumed : TokenKind) → List Lookahead
shift_one zero expected consumed =
    if expected == consumed then [] else record { offset = 0; expected = expected } ∷ []
shift_one (suc n) expected consumed = record { offset = n; expected = expected } ∷ []

unfoldable pub shift_all : List Lookahead → TokenKind → List Lookahead
unfolding shift_one
shift_all [] consumed = []
shift_all (l ∷ g) consumed = shift_one l.offset l.expected consumed ++ shift_all g consumed

unfoldable pub shift_choice_guard_after_consume : List Lookahead → TokenKind → List Lookahead
unfolding shift_all dedupe_sorted_lookaheads sort
shift_choice_guard_after_consume g consumed = dedupe_sorted_lookaheads (sort (shift_all g consumed))
