-- ===== src/Rules/Terminals/Accepts.antt =====
-- rule/factory.go, `runListAutomaton`: the token lists that the loop accepts, by the shape of what is
-- visible ahead.
pub mod Loop
use syntaxa.Prelude.{
  ℕ, zero, suc, ◌+◌, ◌-◌, ◌≡◌, ◌≢◌, ◌↔◌, ◌⊎◌, refl, sym, ap, ◌∙◌, Bool, true, false, not, Option,
  none, some, List, [], ◌∷◌, String, arith, ◌==◌, if◌then◌else◌, Outcome, ok, panic, Bool-cases,
  inl, inr,
}
use mathlib.Core.Path.{subst}
use syntaxa.Tokens.{TokenKind, Lexeme}
use syntaxa.Stream.{TokenStream, is_eof, peek, consume, consume_raw, skip_forward}
use syntaxa.Stream.Visible.{IsCoherent, seen_at}
use syntaxa.Stream.Peek.{filled, peek_lem}
use syntaxa.Stream.Consume.{consume_lem}
use syntaxa.Stream.Coherence.{consume_raw-uncached}
use syntaxa.Stream.Progress.{consume-eof, peek-eof}
use syntaxa.Lst.Heap.{Pointer}
use syntaxa.Engine.{Context, RuleResult, failure_error}
use syntaxa.Rules.{SharedCore, peek_token, consume_token}
use syntaxa.Rules.Terminals.{
  TrailingSeparatorMode, is_required, is_forbidden, report_specific_error, add_child_element,
  ListSpec, Looped, resume, wrong, close, after_separator, list_round, list_loop,
}
use syntaxa.Rules.Terminals.Ends.{add_child_element-stream}

-- What may stand behind an element: the end, a separator with the end, or a separator with an element and
-- the same again.
pub data IsTail (spec : ListSpec) : List TokenKind → Type 0 where
  ends : is_required spec.mode ≡ false → IsTail spec (spec.end ∷ [])
  trails : is_forbidden spec.mode ≡ false → IsTail spec (spec.separator ∷ spec.end ∷ [])
  goes_on :
      (ts : List TokenKind) → IsTail spec ts → IsTail spec (spec.separator ∷ spec.element ∷ ts)

-- The tokens that a function of positions shows, from a position on.
abbrev pub Shows : (ℕ → TokenKind) → List TokenKind → Type 0
Shows f [] = Unit
Shows f (t ∷ ts) = (f 0 ≡ t) × Shows (λ n. f (n + 1)) ts

abbrev pub kinds_ahead : TokenStream → ℕ → TokenKind
kinds_ahead ts n = (seen_at ts n).token

-- The four kinds of a list are different from one another and from the end of the input.
pub record IsDistinct (spec : ListSpec) (eof : TokenKind) : Type 0 where
  pub separator_end : spec.separator ≢ spec.end
  pub element_end : spec.element ≢ spec.end
  pub element_separator : spec.element ≢ spec.separator
  pub element_eof : spec.element ≢ eof
  pub separator_eof : spec.separator ≢ eof

-- The tests of the loop, on what lies ahead; `none` where the rounds run out.
accepts : ListSpec → ℕ → (ℕ → TokenKind) → Option Bool
accepts spec zero f = none
accepts spec (suc fuel) f =
    let rest = accepts spec fuel (λ n. f (n + 1 + 1)) in
    if f 0 == spec.end
    then some (not (is_required spec.mode))
    else if f 0 == spec.element
    then some false
    else if not (f 0 == spec.separator)
    then some false
    else if f 1 == spec.end
    then some (not (is_forbidden spec.mode))
    else if not (f 1 == spec.element)
    then some false
    else rest

module _ (spec : ListSpec) where
  accepts-IsTail :
      (fuel : ℕ) (f : ℕ → TokenKind)
      → accepts spec fuel f ≡ some true
      → (ts : List TokenKind) × IsTail spec ts × Shows f ts
  unfolding accepts
  accepts-IsTail zero f h = absurd (ground arith)
  accepts-IsTail (suc fuel) f h = elim (Bool-cases (f 0 == spec.end)) [
    | inl e ↦ (spec.end ∷ [], ends (ground arith), (ground arith, tt))
    | inr e ↦ elim (Bool-cases (f 0 == spec.element)) [
      | inl e1 ↦ absurd (ground arith)
      | inr e1 ↦ elim (Bool-cases (f 0 == spec.separator)) [
        | inr e2 ↦ absurd (ground arith)
        | inl e2 ↦ elim (Bool-cases (f 1 == spec.end)) [
          | inl e3 ↦ (
            spec.separator ∷ spec.end ∷ [],
            trails (ground arith),
            (ground arith, (ground arith, tt)),
          )
          | inr e3 ↦ elim (Bool-cases (f 1 == spec.element)) [
            | inr e4 ↦ absurd (ground arith)
            | inl e4 ↦
                let (ts, t, s) = accepts-IsTail fuel (λ n. f (n + 1 + 1)) (ground arith) in
                (
                  spec.separator ∷ spec.element ∷ ts,
                  goes_on ts t,
                  (ground arith, (ground arith, s)),
                )
          ]
        ]
      ]
    ]
  ]

  module _ (eof : TokenKind) (d : IsDistinct spec eof) where
    IsTail-accepts :
        (fuel : ℕ) (f : ℕ → TokenKind) (ts : List TokenKind) (b : Bool)
        → IsTail spec ts
        → Shows f ts
        → accepts spec fuel f ≡ some b
        → b ≡ true
    unfolding accepts
    IsTail-accepts zero f ts b t s h = absurd (ground arith)
    IsTail-accepts (suc fuel) f ts b (ends m) (s, u) h = ground arith
    IsTail-accepts (suc fuel) f ts b (trails m) (s, (s1, u)) h =
        let other = d.separator_end in
        let other' = d.element_separator in
        let e0 : (f 0 == spec.end) ≡ false = ground arith in
        let e1 : (f 0 == spec.element) ≡ false = ground arith in ground arith
    IsTail-accepts (suc fuel) f ts b (goes_on us t) (s, (s1, u)) h =
        let other = d.separator_end in
        let other' = d.element_separator in
        let other'' = d.element_end in
        let e0 : (f 0 == spec.end) ≡ false = ground arith in
        let e1 : (f 0 == spec.element) ≡ false = ground arith in
        let e2 : (f 1 == spec.end) ≡ false = ground arith in
        IsTail-accepts fuel (λ n. f (n + 1 + 1)) us b t u (ground arith)
