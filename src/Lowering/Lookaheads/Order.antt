-- ===== src/Lowering/Lookaheads/Order.antt =====
-- lowering/lookahead.go: the order that sorting and removing duplicates give.
use syntaxa.Prelude.{
  ◌≡◌, true, false, Option, none, some, List, [], ◌∷◌, All, arith, Bool-cases, inl, inr,
}
use syntaxa.Guards.{Lookahead}
use syntaxa.Lowering.Lookaheads.{before, insert, sort, is_last, dedupe_from}

-- Each entry before all later ones.
unfoldable pub IsAscending : List Lookahead → Type 0
IsAscending [] = Unit
IsAscending (x ∷ g) = All (λ y. before x y ≡ true) g × IsAscending g

-- No entry before an earlier one.
pub IsSorted : List Lookahead → Type 0
IsSorted [] = Unit
IsSorted (x ∷ g) = All (λ y. before y x ≡ false) g × IsSorted g

bounded-insert :
    (l x : Lookahead) (g : List Lookahead)
    → before x l ≡ false
    → All (λ y. before y l ≡ false) g
    → All (λ y. before y l ≡ false) (insert x g)
unfolding insert
bounded-insert l x [] h a = (h, tt)
bounded-insert l x (y ∷ g) h (p, a) = elim (Bool-cases (before y x)) [
  | inl b ↦ rw b (p, bounded-insert l x g h a)
  | inr b ↦ rw b (h, (p, a))
]

bounded-weaken :
    (l x : Lookahead) (g : List Lookahead)
    → before x l ≡ false
    → All (λ y. before y x ≡ false) g
    → All (λ y. before y l ≡ false) g
bounded-weaken l x [] h a = tt
bounded-weaken l x (y ∷ g) h (p, a) = (ground arith, bounded-weaken l x g h a)

insert-IsSorted : (x : Lookahead) (g : List Lookahead) → IsSorted g → IsSorted (insert x g)
unfolding insert IsSorted
insert-IsSorted x [] s = (tt, tt)
insert-IsSorted x (y ∷ g) (a, s) = elim (Bool-cases (before y x)) [
  | inl b ↦ rw b (bounded-insert y x g (ground arith) a, insert-IsSorted x g s)
  | inr b ↦ rw b ((b, bounded-weaken x y g b a), (a, s))
]

pub sort-IsSorted : (g : List Lookahead) → IsSorted (sort g)
unfolding sort IsSorted
sort-IsSorted [] = tt
sort-IsSorted (x ∷ g) = insert-IsSorted x (sort g) (sort-IsSorted g)

above-weaken :
    (l x : Lookahead) (g : List Lookahead)
    → before l x ≡ true
    → All (λ y. before x y ≡ true) g
    → All (λ y. before l y ≡ true) g
above-weaken l x [] h a = tt
above-weaken l x (y ∷ g) h (p, a) = (ground arith, above-weaken l x g h a)

abbrev pub Above : Option Lookahead → List Lookahead → Type 0
Above none g = Unit
Above (some l) g = All (λ y. before l y ≡ true) g

abbrev pub NotBelow : Option Lookahead → List Lookahead → Type 0
NotBelow none g = Unit
NotBelow (some l) g = All (λ y. before y l ≡ false) g

pub dedupe_from-IsAscending :
    (last : Option Lookahead) (g : List Lookahead)
    → IsSorted g
    → NotBelow last g
    → Above last (dedupe_from last g) × IsAscending (dedupe_from last g)
unfolding dedupe_from IsAscending IsSorted
dedupe_from-IsAscending none [] s n = (tt, tt)
dedupe_from-IsAscending (some l) [] s n = (tt, tt)
dedupe_from-IsAscending none (x ∷ g) (a, s) n =
    let (p, q) = dedupe_from-IsAscending (some x) g s a in (tt, (p, q))
dedupe_from-IsAscending (some l) (x ∷ g) (a, s) (m, n) =
    let (p, q) = dedupe_from-IsAscending (some x) g s a in
    let (p', q') = dedupe_from-IsAscending (some l) g s n in
    elim (Bool-cases (is_last (some l) x)) [
      | inl b ↦ rw b (p', q')
      | inr b ↦
          let step : before l x ≡ true = ground arith in
          rw b ((step, above-weaken l x (dedupe_from (some x) g) step p), (p, q))
    ]
