-- ===== src/Rules/Repeats/Ends.antt =====
-- rule/factory.go, `runRepetitionLoop`: when a repetition comes to its end, and when it never does.
use syntaxa.Prelude.{
  ℕ, zero, suc, ◌≤◌, ◌<◌, ◌≡◌, ◌≢◌, refl, sym, ap, true, false, not, none, some, List, length,
  arith, ◌==◌, Outcome, ok, panic, >>=-eq-ok, Bool-cases, inl, inr,
}
use mathlib.Core.Path.{subst}
use syntaxa.Tokens.{Lexeme}
use syntaxa.Stream.{TokenStream, peek_raw}
use syntaxa.Stream.Progress.{remaining}
use syntaxa.Lst.Heap.{Pointer}
use syntaxa.Lst.Structure.{attach_result}
use syntaxa.Engine.{
  Context, FailureKind, unset, failure_error, failure_no_match, RuleResult, execution_normal,
  ParserRule, SyntaxaParser,
}
use syntaxa.Engine.Execute.{execute_rule}
use syntaxa.Engine.Execute.Discipline.{Onward, Within}
use syntaxa.Rules.{attach_result_in}
use syntaxa.Rules.Terminals.Ends.{if_cases}
use syntaxa.Rules.Repeats.{
  Repeating, Repeated, attached, no_progress, failed_round, round, run_repetition_loop,
}
use syntaxa.Rules.Work.{Within-trans, attach_result_in-Ends, IsContained, IsContained-IsDisciplined}

-- In work inside the frame of `b`, a success of the rule leaves fewer lexemes ahead, and a failure has a
-- kind.
pub record IsAdvancing (parser : SyntaxaParser) (rule : ParserRule) (b : Context) : Type 0 where
  pub moves :
      (c c' : Context) (r : RuleResult)
      → Within b c
      → execute_rule parser rule execution_normal c ≡ ok (r, c')
      → r.succeeded ≡ true
      → remaining c'.stream < remaining c.stream
  pub kinds :
      (c c' : Context) (r : RuleResult)
      → Within b c
      → execute_rule parser rule execution_normal c ≡ ok (r, c')
      → r.succeeded ≡ false
      → r.kind ≢ unset

-- Both repetitions end, with the same outcome.
Agree : Repeating → Repeating → Type 0
Agree x y = (m : Outcome Repeated) × (x ≡ some m) × (y ≡ some m)

some-Agree : (m : Outcome Repeated) → Agree (some m) (some m)
unfolding Agree
some-Agree m = (m, refl, refl)

-- A stream at the same place shows the same raw lexeme.
peek_raw-Onward :
    (s t : TokenStream) → Onward s t → t.cursor ≡ s.cursor → peek_raw t 0 ≡ peek_raw s 0
unfolding peek_raw
peek_raw-Onward s t o e = let l = o.lexemes in let f = o.eof_token in ground arith

Onward-remaining :
    (s t : TokenStream)
    → Onward s t
    → s.cursor ≤ length s.lexemes
    → t.cursor ≢ s.cursor
    → remaining t < remaining s
Onward-remaining s t o i n =
    let same : length t.lexemes ≡ length s.lexemes = ap length o.lexemes in
    let far = o.onward in
    let inside = o.inside i in
    elim (Bool-cases (t.cursor == s.cursor)) [
      | inl e ↦ absurd (n (ground arith))
      | inr e ↦ ground arith
    ]

attach_result_in-stream :
    (p : Pointer) (r : RuleResult) (c c' : Context)
    → attach_result_in p r c ≡ ok c'
    → c'.stream ≡ c.stream
attach_result_in-stream p r c c' h =
    let (e, h1, r1) = >>=-eq-ok (attach_result p r.node r.is_fragment c.editor) _ h in ground arith

module _ (parser : SyntaxaParser) (rule : ParserRule) (container : Pointer) (b : Context) where
  attached-Agree :
      (again again' : Context → Repeating) (n : ℕ) (r : RuleResult) (c : Context)
      → Within b c
      → remaining c.stream < n
      → ((c' : Context) → Within b c' → remaining c'.stream < n → Agree (again c') (again' c'))
      → Agree
          (attached again (attach_result_in container r c))
          (attached again' (attach_result_in container r c))
  unfolding attached
  attached-Agree again again' n r c w h a = behind (attach_result_in container r c) refl
    where
      behind :
          (m : Outcome Context)
          → attach_result_in container r c ≡ m
          → Agree (attached again m) (attached again' m)
      behind (panic p) e = some-Agree (panic p)
      behind (ok c') e = a c' (attach_result_in-Ends b container r c w c' e) (
          subst (λ (s : TokenStream). remaining s < n)
            (sym (attach_result_in-stream container r c c' e)) h)

  failed_round-Agree :
      (again again' : ℕ → Context → Repeating) (c c' : Context) (count : ℕ) (kind : FailureKind)
      (r : RuleResult)
      → Within b c'
      → Onward c.stream c'.stream
      → c.stream.cursor ≤ length c.stream.lexemes
      → kind ≢ unset
      → ((count : ℕ) (d : Context)
          → Within b d
          → remaining d.stream < remaining c.stream
          → Agree (again count d) (again' count d))
      → Agree
          (failed_round parser rule container again (peek_raw c.stream 0).start count kind r c')
          (failed_round parser rule container again' (peek_raw c.stream 0).start count kind r c')
  unfolding failed_round
  failed_round-Agree again again' c c' count failure_no_match r w o i k a = some-Agree _
  failed_round-Agree again again' c c' count unset r w o i k a = absurd (k refl)
  failed_round-Agree again again' c c' count failure_error r w o i k a =
      if_cases Agree (not r.consume_sync_token) (λ t. some-Agree _)
        (λ t.
          if_cases Agree (no_progress (peek_raw c.stream 0).start c') (λ t. some-Agree _)
            (λ other. a count c' w (
              Onward-remaining c.stream c'.stream o i
                (λ e. let p = peek_raw-Onward c.stream c'.stream o e in absurd (ground arith)))))

  module _ (contained : IsContained (execute_rule parser rule execution_normal))
      (advancing : IsAdvancing parser rule b) where
    round-Agree :
        (again again' : ℕ → Context → Repeating) (count : ℕ) (c : Context)
        → Within b c
        → c.stream.cursor ≤ length c.stream.lexemes
        → ((count : ℕ) (d : Context)
            → Within b d
            → remaining d.stream < remaining c.stream
            → Agree (again count d) (again' count d))
        → Agree
            (round parser rule container again
              (peek_raw c.stream 0).start
              count
              (execute_rule parser rule execution_normal c))
            (round parser rule container again'
              (peek_raw c.stream 0).start
              count
              (execute_rule parser rule execution_normal c))
    unfolding round
    round-Agree again again' count c w i a = ran (execute_rule parser rule execution_normal c) refl
      where
        before : ℕ
        before = (peek_raw c.stream 0).start

        ran :
            (m : Outcome (RuleResult × Context))
            → execute_rule parser rule execution_normal c ≡ m
            → Agree
                (round parser rule container again before count m)
                (round parser rule container again' before count m)
        ran (panic p) e = some-Agree (panic p)
        ran (ok (r, c')) e =
            let d =
              IsContained-IsDisciplined (execute_rule parser rule execution_normal) contained in
            let own = d c c' r w.errors.top' w.errors.rest w.errors.after e in
            let w' = Within-trans b c c' w own in
            if_cases Agree r.succeeded
              (λ s.
                attached-Agree (again (suc count)) (again' (suc count)) (remaining c.stream) r c' w'
                  (advancing.moves c c' r w e s) (a (suc count)))
              (λ s.
                failed_round-Agree again again' c c' count r.kind r w' own.kept.input i
                  (advancing.kinds c c' r w e s) a)

    loop-Agree :
        (bound fuel count : ℕ) (c : Context)
        → Within b c
        → b.stream.cursor ≤ length b.stream.lexemes
        → remaining c.stream < bound
        → remaining c.stream < fuel
        → Agree
            (run_repetition_loop parser rule container bound count c)
            (run_repetition_loop parser rule container fuel count c)
    unfolding run_repetition_loop
    loop-Agree zero fuel count c w i h k = absurd (omega arith)
    loop-Agree (suc bound) zero count c w i h k = absurd (omega arith)
    loop-Agree (suc bound) (suc fuel) count c w i h k =
        let within : c.stream.cursor ≤ length c.stream.lexemes =
          subst (λ (l : List Lexeme). c.stream.cursor ≤ length l) (sym w.kept.input.lexemes)
            (w.kept.input.inside i) in
        round-Agree (run_repetition_loop parser rule container bound)
          (run_repetition_loop parser rule container fuel) count c w within
          (λ count' d v less. loop-Agree bound fuel count' d v i (omega arith) (omega arith))

    -- A repetition comes to its end if the repeated rule works within its frame and every success of it
    -- leaves fewer lexemes ahead, its failures having a kind: in a frame, with the cursor not behind the lexemes,
    -- as many rounds as raw lexemes lie ahead, and one, suffice, and any greater number of rounds has the
    -- same outcome. Rounds that fail with an error and go on are covered.
    pub run_repetition_loop-ends :
        (fuel count : ℕ) (c : Context)
        → Within b c
        → b.stream.cursor ≤ length b.stream.lexemes
        → remaining c.stream < fuel
        → (m : Outcome Repeated) × (run_repetition_loop parser rule container
              (suc (remaining c.stream))
              count
              c
            ≡ some m)
          × (run_repetition_loop parser rule container fuel count c ≡ some m)
    unfolding Agree
    run_repetition_loop-ends fuel count c w i h =
        loop-Agree (suc (remaining c.stream)) fuel count c w i (omega arith) h

-- A repetition of a rule that succeeds without a node and without changing the context never comes to
-- its end: whatever the number of rounds, it is too small.
pub run_repetition_loop-stuck :
    (parser : SyntaxaParser) (rule : ParserRule) (container : Pointer) (c : Context)
    (r : RuleResult)
    → execute_rule parser rule execution_normal c ≡ ok (r, c)
    → r.succeeded ≡ true
    → r.node ≡ none
    → (fuel count : ℕ) → run_repetition_loop parser rule container fuel count c ≡ none
unfolding run_repetition_loop round attached attach_result
run_repetition_loop-stuck parser rule container c r h s n zero count = refl
run_repetition_loop-stuck parser rule container c r h s n (suc fuel) count =
    rw (h, s, n) (run_repetition_loop-stuck parser rule container c r h s n fuel (suc count))
