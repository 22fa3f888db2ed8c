-- ===== src/Guards/Exclusion.antt =====
-- lookahead_guard.go, `GuardsMutuallyExclusive`: its answer against the guards' meaning.
use syntaxa.Prelude.{
  ℕ, ◌≡◌, ap, ◌∙◌, true, false, Option, none, some, List, [], ◌∷◌, arith, ◌==◌, Bool-cases,
  Option-cases, ◌⊎◌, inl, inr,
}
use syntaxa.Tokens.{TokenKind, Lexeme}
use syntaxa.Stream.{eof_lex}
use syntaxa.Guards.{
  Lookahead, guard_matches_lookahead, Constraints, constraint_at, put, clashes, constraints_from,
  guard_peek_constraints, differ_somewhere, guards_mutually_exclusive,
}
use syntaxa.Guards.Meaning.{
  Meets, Keyed, put-Meets, constraints_from-Meets, constraints_from-Keyed, Meets-constraint_at,
  lookups-Meets,
}

differ_somewhere-apart :
    (peek : ℕ → Lexeme) (ma mb : Constraints)
    → differ_somewhere ma mb ≡ true
    → Meets peek ma
    → ¬ Meets peek mb
unfolding differ_somewhere Meets
differ_somewhere-apart peek [] mb h p q = cc h
differ_somewhere-apart peek ((o, ta) ∷ ma) mb h (p, ps) q =
    elim (Option-cases (constraint_at o mb)) [
      | inl n ↦ differ_somewhere-apart peek ma mb (ground arith) ps q
      | inr (tb, n) ↦
          let r = Meets-constraint_at peek o tb mb q n in
          elim (Bool-cases (ta == tb)) [
            | inl e ↦ differ_somewhere-apart peek ma mb (ground arith) ps q
            | inr e ↦ absurd (ground arith)
          ]
    ]

differ_nowhere-agree :
    (o ta tb : ℕ) (ma mb : Constraints)
    → differ_somewhere ma mb ≡ false
    → constraint_at o ma ≡ some ta
    → constraint_at o mb ≡ some tb
    → ta ≡ tb
unfolding differ_somewhere constraint_at
differ_nowhere-agree o ta tb [] mb h p q = cc p
differ_nowhere-agree o ta tb ((k, u) ∷ ma) mb h p q = elim (Bool-cases (k == o)) [
  | inl e ↦
      let same : k ≡ o = ground arith in
      let there : constraint_at k mb ≡ some tb = ap (λ j. constraint_at j mb) same ∙ q in
      ground arith
  | inr e ↦ differ_nowhere-agree o ta tb ma mb (ground arith) (ground arith) q
]

token_or : Option TokenKind → TokenKind → TokenKind
token_or none d = d
token_or (some t) d = t

-- A peek made from two maps, the first before the second.
peek_of : Constraints → Constraints → ℕ → Lexeme
unfolding token_or
peek_of ma mb o = eof_lex (token_or (constraint_at o ma) (token_or (constraint_at o mb) 0))

peek_of-first :
    (ma mb : Constraints) (o t : ℕ) → constraint_at o ma ≡ some t → (peek_of ma mb o).token ≡ t
unfolding peek_of
peek_of-first ma mb o t h = ground arith

peek_of-second :
    (ma mb : Constraints) (o t : ℕ)
    → differ_somewhere ma mb ≡ false
    → constraint_at o mb ≡ some t
    → (peek_of ma mb o).token ≡ t
unfolding peek_of
peek_of-second ma mb o t d h = elim (Option-cases (constraint_at o ma)) [
  | inl n ↦ ground arith
  | inr (ta, n) ↦ ground (arith, differ_nowhere-agree o ta t ma mb d n h)
]

constraints_from-none :
    (peek : ℕ → Lexeme) (g : List Lookahead) (m : Constraints)
    → constraints_from m g ≡ none
    → Meets peek m
    → guard_matches_lookahead peek g ≡ false
unfolding constraints_from guard_matches_lookahead
constraints_from-none peek [] m h p = cc h
constraints_from-none peek (x ∷ xs) m h p =
    elim (Bool-cases ((peek x.offset).token == x.expected)) [
      | inr q ↦ ground arith
      | inl q ↦ elim (Option-cases (constraint_at x.offset m)) [
        | inl n ↦
            let clash : clashes (constraint_at x.offset m) x.expected ≡ false = ground arith in
            let added = (put-Meets peek x.offset x.expected m clash).1 (p, ground arith) in
            let rest =
              constraints_from-none peek xs (put x.offset x.expected m) (ground arith) added in
            ground arith
        | inr (t, n) ↦
            let held = Meets-constraint_at peek x.offset t m p n in
            let clash : clashes (constraint_at x.offset m) x.expected ≡ false = ground arith in
            let added = (put-Meets peek x.offset x.expected m clash).1 (p, ground arith) in
            let rest =
              constraints_from-none peek xs (put x.offset x.expected m) (ground arith) added in
            ground arith
      ]
    ]

-- A guard is reported as contradicting itself just if no sequence of tokens meets it; otherwise some
-- peek meets it.
pub guard_peek_constraints_lem :
    (g : List Lookahead)
    → ((guard_peek_constraints g ≡ none)
        × ((peek : ℕ → Lexeme) → guard_matches_lookahead peek g ≡ false))
      ⊎ ((m : Constraints) × (guard_peek_constraints g ≡ some m)
          × ((peek : ℕ → Lexeme) × (guard_matches_lookahead peek g ≡ true)))
unfolding guard_peek_constraints Keyed Meets
guard_peek_constraints_lem g = elim (Option-cases (guard_peek_constraints g)) [
  | inl n ↦ inl (n, λ peek. constraints_from-none peek g [] n tt)
  | inr (m, e) ↦
      let peek = peek_of m [] in
      let met = lookups-Meets peek m (constraints_from-Keyed g [] m tt e) (peek_of-first m []) in
      inr (m, e, (peek, ((constraints_from-Meets peek g [] m e).0 met).1))
]

-- A peek that meets a guard.
abbrev pub IsMet : List Lookahead → Type 0
IsMet g = (peek : ℕ → Lexeme) × (guard_matches_lookahead peek g ≡ true)

-- No peek meets the guard.
abbrev pub IsUnmet : List Lookahead → Type 0
IsUnmet g = (peek : ℕ → Lexeme) → guard_matches_lookahead peek g ≡ false

-- Two guards are reported as mutually exclusive just if each of them is met by some sequence of tokens
-- and no sequence meets both. Where they are not, no sequence meets the one, or none meets the other, so
-- that a guard that contradicts itself is never reported as exclusive, or some sequence meets both.
pub guards_mutually_exclusive_lem :
    (a b : List Lookahead)
    → ((guards_mutually_exclusive a b ≡ true)
        × IsMet a
        × IsMet b
        × ((peek : ℕ → Lexeme)
            → guard_matches_lookahead peek a ≡ true
            → ¬ (guard_matches_lookahead peek b ≡ true)))
      ⊎ ((guards_mutually_exclusive a b ≡ false)
          × (IsUnmet a
              ⊎ (IsUnmet b
                  ⊎ ((peek : ℕ → Lexeme) × (guard_matches_lookahead peek a ≡ true)
                      × (guard_matches_lookahead peek b ≡ true)))))
unfolding guards_mutually_exclusive guard_peek_constraints Keyed Meets
guards_mutually_exclusive_lem a b = elim (guard_peek_constraints_lem a) [
  | inl (na, ua) ↦ inr (ground arith, inl ua)
  | inr (ma, ea, met_a) ↦ elim (guard_peek_constraints_lem b) [
    | inl (nb, ub) ↦ inr (ground arith, inr (inl ub))
    | inr (mb, eb, met_b) ↦
        let ka = constraints_from-Keyed a [] ma tt ea in
        let kb = constraints_from-Keyed b [] mb tt eb in
        elim (Bool-cases (differ_somewhere ma mb)) [
          | inl d ↦ inl (
            ground arith,
            met_a,
            met_b,
            λ peek p q.
                differ_somewhere-apart peek ma mb d
                  ((constraints_from-Meets peek a [] ma ea).1 (tt, p))
                  ((constraints_from-Meets peek b [] mb eb).1 (tt, q)),
          )
          | inr d ↦
              let peek = peek_of ma mb in
              let both_a = lookups-Meets peek ma ka (peek_of-first ma mb) in
              let both_b = lookups-Meets peek mb kb (λ o t h. peek_of-second ma mb o t d h) in
              inr (
                ground arith,
                inr (
                    inr (
                      peek,
                      ((constraints_from-Meets peek a [] ma ea).0 both_a).1,
                      ((constraints_from-Meets peek b [] mb eb).0 both_b).1,
                    )),
              )
        ]
  ]
]
