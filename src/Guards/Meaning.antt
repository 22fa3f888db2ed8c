-- ===== src/Guards/Meaning.antt =====
-- lookahead_guard.go: the map of a guard against the guard.
use syntaxa.Prelude.{
  ℕ, ◌≡◌, ◌≢◌, refl, sym, ap, ◌∙◌, ◌↔◌, true, false, none, some, List, [], ◌∷◌, arith, ◌==◌,
  Bool-cases, inl, inr,
}
use mathlib.Core.Path.{subst}
use syntaxa.Tokens.{TokenKind, Lexeme}
use syntaxa.Guards.{
  Lookahead, guard_matches_lookahead, Constraints, constraint_at, put, clashes, constraints_from,
}

-- A peek that meets every constraint.
unfoldable pub Meets : (ℕ → Lexeme) → Constraints → Type 0
Meets peek [] = Unit
Meets peek ((o, t) ∷ m) = ((peek o).token ≡ t) × Meets peek m

-- No entry has the key.
unfoldable pub Misses : ℕ → Constraints → Type 0
Misses o [] = Unit
Misses o ((k, t) ∷ m) = (k ≢ o) × Misses o m

unfoldable pub Keyed : Constraints → Type 0
unfolding Misses
Keyed [] = Unit
Keyed ((k, t) ∷ m) = Misses k m × Keyed m

pub put-Misses :
    (j o : ℕ) (t : TokenKind) (m : Constraints) → o ≢ j → Misses j m → Misses j (put o t m)
unfolding put Misses
put-Misses j o t [] d n = (d, tt)
put-Misses j o t ((k, u) ∷ m) d (p, n) = elim (Bool-cases (k == o)) [
  | inl e ↦ rw e (d, n)
  | inr e ↦ rw e (p, put-Misses j o t m d n)
]

pub put-Keyed : (o : ℕ) (t : TokenKind) (m : Constraints) → Keyed m → Keyed (put o t m)
unfolding put Keyed
put-Keyed o t [] h = (tt, tt)
put-Keyed o t ((k, u) ∷ m) (n, h) = elim (Bool-cases (k == o)) [
  | inl e ↦ rw e (subst (λ j. Misses j m) {x = k} {y = o} (ground arith) n, h)
  | inr e ↦ rw e (put-Misses k o t m (ground arith) n, put-Keyed o t m h)
]

-- A constraint that does not clash is added to the others.
pub put-Meets :
    (peek : ℕ → Lexeme) (o : ℕ) (t : TokenKind) (m : Constraints)
    → clashes (constraint_at o m) t ≡ false
    → Meets peek (put o t m) ↔ (Meets peek m × ((peek o).token ≡ t))
unfolding put Meets constraint_at
put-Meets peek o t [] h = (λ (p, _). (tt, p), λ (_, p). (p, tt))
put-Meets peek o t ((k, u) ∷ m) h = elim (Bool-cases (k == o)) [
  | inl e ↦
      let same : k ≡ o = ground arith in
      let agree : u ≡ t = ground arith in
      rw e (λ (p, q). ((cc (p, same, agree), q), p), λ ((p, q), r). (r, q))
  | inr e ↦
      let (f, b) = put-Meets peek o t m (ground arith) in
      rw e (λ (p, q). let (x, y) = f q in ((p, x), y), λ ((p, q), r). (p, b (q, r)))
]

-- The map of a guard says just what the guard does.
pub constraints_from-Meets :
    (peek : ℕ → Lexeme) (g : List Lookahead) (m m' : Constraints)
    → constraints_from m g ≡ some m'
    → Meets peek m' ↔ (Meets peek m × (guard_matches_lookahead peek g ≡ true))
unfolding constraints_from guard_matches_lookahead
constraints_from-Meets peek [] m m' h = (
  λ p. (subst (Meets peek) (ground arith) p, refl),
  λ (p, _). subst (Meets peek) (ground arith) p,
)
constraints_from-Meets peek (x ∷ xs) m m' h =
    elim (Bool-cases (clashes (constraint_at x.offset m) x.expected)) [
      | inl e ↦ absurd (ground arith)
      | inr e ↦
          let (f, b) =
            constraints_from-Meets peek xs (put x.offset x.expected m) m' (ground arith) in
          let (pf, pb) = put-Meets peek x.offset x.expected m e in
          (
            (λ p. let (q, r) = f p in let (s, t) = pf q in (s, ground arith)),
            (λ (s, r). b (pb (s, ground arith), ground arith)),
          )
    ]

pub constraints_from-Keyed :
    (g : List Lookahead) (m m' : Constraints) → Keyed m → constraints_from m g ≡ some m' → Keyed m'
unfolding constraints_from
constraints_from-Keyed [] m m' k h = subst Keyed (ground arith) k
constraints_from-Keyed (x ∷ xs) m m' k h =
    constraints_from-Keyed xs (put x.offset x.expected m) m' (put-Keyed x.offset x.expected m k)
      (ground arith)

-- Two maps that differ at a key have no common peek.
pub Meets-constraint_at :
    (peek : ℕ → Lexeme) (o : ℕ) (t : TokenKind) (m : Constraints)
    → Meets peek m
    → constraint_at o m ≡ some t
    → (peek o).token ≡ t
unfolding Meets constraint_at
Meets-constraint_at peek o t [] p h = cc h
Meets-constraint_at peek o t ((k, u) ∷ m) (p, q) h = elim (Bool-cases (k == o)) [
  | inl e ↦
      let same : k ≡ o = ground arith in let agree : u ≡ t = ground arith in cc (p, same, agree)
  | inr e ↦ Meets-constraint_at peek o t m q (ground arith)
]

pub Misses-constraint_at : (o : ℕ) (m : Constraints) → Misses o m → constraint_at o m ≡ none
unfolding Misses constraint_at
Misses-constraint_at o [] n = refl
Misses-constraint_at o ((k, u) ∷ m) (d, n) = let r = Misses-constraint_at o m n in ground arith

-- A peek that agrees with every lookup meets a map whose keys are distinct.
pub lookups-Meets :
    (peek : ℕ → Lexeme) (m : Constraints)
    → Keyed m
    → ((o t : ℕ) → constraint_at o m ≡ some t → (peek o).token ≡ t)
    → Meets peek m
unfolding Meets Keyed constraint_at
lookups-Meets peek [] k h = tt
lookups-Meets peek ((k, u) ∷ m) (n, ks) h = (
  h k u (ground arith),
  lookups-Meets peek m ks (λ o t e. elim (Bool-cases (k == o)) [
    | inl q ↦
        let same : k ≡ o = ground arith in
        let none_there : constraint_at o m ≡ none =
          ap (λ j. constraint_at j m) (sym same) ∙ Misses-constraint_at k m n in
        absurd (cc (none_there, e))
    | inr q ↦ h o t (ground arith)
  ]),
)
