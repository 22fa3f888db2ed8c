-- ===== src/Package/Explored.antt =====
-- grammar_package.go, `recoverySpecMergedForLabel`: at its end, what the visited labels reach is merged.
use text.Mathlib.Text.{◌==◌ as str_eq}
use text.Mathlib.TextEquality.{eq_iff}
use syntaxa.Prelude.{
  ℕ, zero, suc, ◌≡◌, ◌⊎◌, true, some, List, ◌∷◌, String, ap, sym, refl, contains, arith, Bool-cases,
  inl, inr,
}
use mathlib.Core.Path.{subst}
use syntaxa.Tokens.{TokenKind}
use syntaxa.Engine.{RecoverySpec}
use syntaxa.Package.{
  Rules, Grammar, rule_at, seen, merge_loop, absorb, next_label, is_reference,
  recovery_append_unique_stable,
}
use syntaxa.Package.Rounds.{Settled, Step, Found, round-Step}
use syntaxa.Package.Reach.{Reaches, absorbed}

module _ (rules : Rules) (get : RecoverySpec → List TokenKind) (own : Grammar → List TokenKind)
    (adds : (merged : RecoverySpec) (g : Grammar)
      → get (absorb merged g) ≡ recovery_append_unique_stable (get merged) (own g)) where
  abbrev pub Has : RecoverySpec → Grammar → Type 0
  Has m g = (t : TokenKind) → contains (own g) t ≡ true → contains (get m) t ≡ true

  -- The rule of a visited label is merged, and what it refers to is visited or the next in turn.
  abbrev pub Explored : List String → String → RecoverySpec → Type 0
  Explored visited label merged =
      (k : String) (g : Grammar)
      → seen visited k ≡ true
      → rule_at rules k ≡ some g
      → Has merged g
        × (is_reference g.kind ≡ true
            → Settled rules visited (next_label g) ⊎ (next_label g ≡ label))

  abbrev pub Closed : List String → RecoverySpec → Type 0
  Closed visited result =
      (k : String) (g : Grammar)
      → seen visited k ≡ true
      → rule_at rules k ≡ some g
      → Has result g × (is_reference g.kind ≡ true → Settled rules visited (next_label g))

  abbrev pub Grows : List String → List String → Type 0
  Grows v w = (k : String) → seen v k ≡ true → seen w k ≡ true

  Settled-Grows :
      (v w : List String) (label : String)
      → Grows v w
      → Settled rules v label
      → Settled rules w label
  Settled-Grows v w label grows (Settled.blank b) = Settled.blank b
  Settled-Grows v w label grows (Settled.visited_before s) = Settled.visited_before (grows label s)
  Settled-Grows v w label grows (Settled.missing m) = Settled.missing m

  Grows-cons : (l : String) (v : List String) → Grows v (l ∷ v)
  unfolding seen
  Grows-cons l v k s = ground arith

  seen_head : (l : String) (v : List String) → seen (l ∷ v) l ≡ true
  unfolding seen
  seen_head l v = ground (arith, eq_iff l l)

  seen_cases :
      (l : String) (v : List String) (k : String)
      → seen (l ∷ v) k ≡ true
      → (l ≡ k) ⊎ (seen v k ≡ true)
  unfolding seen
  seen_cases l v k s = elim (Bool-cases (str_eq l k)) [
    | inl e ↦ inl ((eq_iff l k).0 e)
    | inr e ↦ inr (ground arith)
  ]

  Explored-cons :
      (visited : List String) (label next : String) (merged : RecoverySpec) (g : Grammar)
      → Explored visited label merged
      → Found rules visited label g
      → (is_reference g.kind ≡ true
          → Settled rules (label ∷ visited) (next_label g) ⊎ (next_label g ≡ next))
      → Explored (label ∷ visited) next (absorb merged g)
  Explored-cons visited label next merged g explored f head k h s e =
      elim (seen_cases label visited k s) [
        | inl p ↦
            let same : g ≡ h = cc (f.found, ap (rule_at rules) p, e) in
            (
              λ t c. ground (
                arith,
                absorbed rules get own adds merged g t,
                ap (λ i. contains (own i) t) same,
              ),
              subst
                  (λ i.
                    is_reference i.kind ≡ true
                    → Settled rules (label ∷ visited) (next_label i) ⊎ (next_label i ≡ next))
                  same head,
            )
        | inr s' ↦
            let (has, refers) = explored k h s' e in
            (
              λ t c. ground (arith, absorbed rules get own adds merged g t, has t c),
              λ r. inl (onward (refers r)),
            )
      ]
    where
      onward :
          {n : String} → Settled rules visited n ⊎ (n ≡ label) → Settled rules (label ∷ visited) n
      onward {n} (inl s') = Settled-Grows visited (label ∷ visited) n (Grows-cons label visited) s'
      onward {n} (inr p) =
          subst (Settled rules (label ∷ visited)) (sym p)
            (Settled.visited_before (seen_head label visited))

  Explored-Closed :
      (visited : List String) (label : String) (merged : RecoverySpec)
      → Explored visited label merged
      → Settled rules visited label
      → Closed visited merged
  Explored-Closed visited label merged explored settled k g s e =
      let (has, refers) = explored k g s e in
      (
        has,
        λ r. elim (refers r) [ inl p ↦ p | inr p ↦ subst (Settled rules visited) (sym p) settled ],
      )

  -- When the loop ends, the labels visited are closed under references, and their rules merged.
  pub merge_loop-closes :
      (fuel : ℕ) (visited : List String) (label : String) (merged result : RecoverySpec)
      → merge_loop rules fuel visited label merged ≡ some result
      → Explored visited label merged
      → (w : List String) × Closed w result × Grows visited w × Settled rules w label
  unfolding merge_loop
  merge_loop-closes zero visited label merged result ran explored = cc
  merge_loop-closes (suc fuel) visited label merged result ran explored =
      elim (round-Step rules visited label merged) [
        | Step.halted e s ↦
            let same : merged ≡ result = ground arith in
            (
              visited,
              subst (Closed visited) same (Explored-Closed visited label merged explored s),
              λ k p. p,
              s,
            )
        | Step.ended g e f b ↦
            let same : absorb merged g ≡ result = ground arith in
            let at_last : Settled rules (label ∷ visited) label =
              Settled.visited_before (seen_head label visited) in
            let explored' =
              Explored-cons visited label label merged g explored f
                (λ r. inl (Settled.blank (b r))) in
            (
              label ∷ visited,
              subst (Closed (label ∷ visited)) same
                  (Explored-Closed (label ∷ visited) label (absorb merged g) explored' at_last),
              Grows-cons label visited,
              at_last,
            )
        | Step.went g e f k ↦
            let (w, closed, grows, settled) =
              merge_loop-closes fuel (label ∷ visited) (next_label g) (absorb merged g) result
                (ground arith)
                (Explored-cons visited label (next_label g) merged g explored f (λ r. inr refl)) in
            (
              w,
              closed,
              λ i p. grows i (Grows-cons label visited i p),
              Settled.visited_before (grows label (seen_head label visited)),
            )
      ]

  pub reached_merged :
      (w : List String) (result : RecoverySpec) (label : String) (g : Grammar)
      → Closed w result
      → Settled rules w label
      → Reaches rules label g
      → Has result g
  reached_merged w result label g closed (Settled.blank b) (Reaches.here _ _ n e) = cc
  reached_merged w result label g closed (Settled.missing m) (Reaches.here _ _ n e) = cc
  reached_merged w result label g closed (Settled.visited_before s) (Reaches.here _ _ n e) =
      (closed label g s e).0
  reached_merged w result label g closed (Settled.blank b) (Reaches.onward _ h _ n e k r) = cc
  reached_merged w result label g closed (Settled.missing m) (Reaches.onward _ h _ n e k r) = cc
  reached_merged w result label g closed (Settled.visited_before s) (Reaches.onward _ h _ n e k r) =
      reached_merged w result (next_label h) g closed ((closed label h s e).1 k) r
