-- ===== src/Rules/Choices/Equivalence.antt =====
-- rule/factory.go, `executeChoiceLoop`: the dispatch on the analysis against the plain loop over the arms.
use syntaxa.Prelude.{
  ℕ, suc, ◌+◌, ◌≡◌, refl, sym, ap, ◌∙◌, false, ◌||◌, Option, some, List, [], ◌∷◌, map, All, arith,
  Outcome, ok, panic, ◌>>=◌, Bool-cases, inl, inr,
}
use syntaxa.Tokens.{Lexeme}
use syntaxa.Stream.{peek}
use syntaxa.Dispatch.{
  Arm, GrammarAnalysis, is_candidate, candidates_from, mode_of, dispatch,
  choice_candidate_indices_from_analysis,
}
use syntaxa.Engine.{Context, RuleResult, Executor, execution_normal, ParserRule, SyntaxaParser}
use syntaxa.Engine.Execute.{is_error, execute_rule}
use syntaxa.Rules.{peek_token}
use syntaxa.Rules.Choices.{
  rule_at, tried, try_indexed, execute_choice_fallback_loop, execute_choice_candidate_loop,
  dispatched, after_dispatch, execute_choice_loop,
}

-- What the dispatch takes for granted of an arm, on the contexts that `P` describes: an arm that lets the
-- next one try leaves such a context, and one that is no candidate lets it try and changes nothing.
pub record IsSound (parser : SyntaxaParser) (P : Context → Type 0) (analysis : GrammarAnalysis)
    (peek : ℕ → Lexeme) (rule : ParserRule) : Type 0 where
  pub leaves :
      (c c' : Context) (r : RuleResult)
      → P c
      → execute_rule parser rule execution_normal c ≡ ok (r, c')
      → (r.succeeded || is_error r.kind) ≡ false
      → P c'
  pub left_out :
      (c : Context)
      → P c
      → is_candidate analysis peek rule.grammar ≡ false
      → (r : RuleResult) × (execute_rule parser rule execution_normal c ≡ ok (r, c))
        × ((r.succeeded || is_error r.kind) ≡ false)

abbrev grammars : List ParserRule → List (Option Arm)
grammars rules = map (λ (r : ParserRule). r.grammar) rules

module _ (parser : SyntaxaParser) (P : Context → Type 0) (analysis : GrammarAnalysis)
    (peek : ℕ → Lexeme) (rules : List ParserRule) where
  -- The same arm, then loops that agree on what it leaves.
  tried-same :
      (next next' : Executor) (m : Outcome (RuleResult × Context))
      → ((c : Context) (r : RuleResult)
          → m ≡ ok (r, c)
          → (r.succeeded || is_error r.kind) ≡ false
          → next c ≡ next' c)
      → m >>= tried parser next ≡ m >>= tried parser next'
  unfolding tried
  tried-same next next' (panic p) n = refl
  tried-same next next' (ok (r, c)) n = elim (Bool-cases (r.succeeded || is_error r.kind)) [
    | inl t ↦ rw t refl
    | inr t ↦ rw t (n c r refl t)
  ]

  candidates-fallback :
      (rs : List ParserRule) (idx : ℕ) (c : Context)
      → All (IsSound parser P analysis peek) rs
      → ((i : ℕ) → rule_at rules (idx + i) ≡ rule_at rs i)
      → P c
      → execute_choice_candidate_loop parser rules
          (candidates_from analysis peek idx (grammars rs))
          c
        ≡ execute_choice_fallback_loop parser rs c
  unfolding candidates_from execute_choice_candidate_loop execute_choice_fallback_loop try_indexed
      rule_at
  candidates-fallback [] idx c s at p = refl
  candidates-fallback (rule ∷ rs) idx c (s, ss) at p =
      let rest = candidates_from analysis peek (suc idx) (grammars rs) in
      let later : (i : ℕ) → rule_at rules (suc idx + i) ≡ rule_at rs i =
        (λ i. ap (rule_at rules) {x = suc idx + i} {y = idx + suc i} (omega arith) ∙ at (suc i)) in
      elim (Bool-cases (is_candidate analysis peek rule.grammar)) [
        | inl k ↦
            let here : rule_at rules idx ≡ some rule =
              ap (rule_at rules) {x = idx} {y = idx + 0} (omega arith) ∙ at 0 in
            rw (k, here)
              (tried-same (execute_choice_candidate_loop parser rules rest)
                (execute_choice_fallback_loop parser rs)
                (execute_rule parser rule execution_normal c)
                (λ c' r e t. candidates-fallback rs (suc idx) c' ss later (s.leaves c c' r p e t)))
        | inr k ↦
            let (r, e, t) = s.left_out c p k in
            rw k (candidates-fallback rs (suc idx) c ss later p ∙ sym (passed rule rs r c e t))
      ]
    where
      passed :
          (rule : ParserRule) (rs : List ParserRule) (r : RuleResult) (c : Context)
          → execute_rule parser rule execution_normal c ≡ ok (r, c)
          → (r.succeeded || is_error r.kind) ≡ false
          → execute_choice_fallback_loop parser (rule ∷ rs) c
            ≡ execute_choice_fallback_loop parser rs c
      passed rule rs r c e t = rw (e, t) refl

  dispatched-mode_of :
      (is : List ℕ) (c : Context)
      → dispatched parser rules (mode_of is) c ≡ execute_choice_candidate_loop parser rules is c
  unfolding dispatched execute_choice_candidate_loop
  dispatched-mode_of [] c = refl
  dispatched-mode_of (i ∷ is) c = refl

-- A choice that is dispatched on an analysis returns what trying its arms one after the other returns
-- from the same context, with the peek of the dispatch cached: provided the analysis is sound, in that
-- an arm that it leaves out would fail without an error and change nothing, in every context that the
-- arms before it leave.
pub execute_choice_loop-fallback :
    (parser : SyntaxaParser) (P : Context → Type 0) (analysis : GrammarAnalysis)
    (rules : List ParserRule) (c : Context)
    → parser.analysis ≡ some analysis
    → All (IsSound parser P analysis (λ n. (peek c.stream n).0)) rules
    → P (peek_token c).1
    → execute_choice_loop parser rules c
      ≡ execute_choice_fallback_loop parser rules (peek_token c).1
unfolding execute_choice_loop choice_candidate_indices_from_analysis dispatch after_dispatch
execute_choice_loop-fallback parser P analysis rules c a s p =
    let see : ℕ → Lexeme = λ n. (peek c.stream n).0 in
    let is = candidates_from analysis see 0 (grammars rules) in
    ap
      (λ (o : Option GrammarAnalysis).
        dispatched parser rules (dispatch o (grammars rules) see) (after_dispatch parser o c))
      a
    ∙ dispatched-mode_of parser P analysis see rules is (peek_token c).1
    ∙ candidates-fallback parser P analysis see rules rules 0 (peek_token c).1 s
        (λ i. ap (rule_at rules) {x = 0 + i} {y = i} (omega arith)) p
