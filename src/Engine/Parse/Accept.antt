-- ===== src/Engine/Parse/Accept.antt =====
-- parser.go, `parseWithContext`: when a parse returns no error.
use syntaxa.Prelude.{
  ℕ, ◌≡◌, refl, sym, ◌∙◌, ◌↔◌, true, false, not, ◌||◌, Option, none, some, String, length, arith,
  ◌==◌, if◌then◌else◌, ok, >>=-eq-ok, Bool-cases, inl, inr,
}
use syntaxa.Stream.{peek}
use syntaxa.Errors.{
  SyntaxError, has_errors, lexing, has_committed_syntax_errors, flush_frames_commit_all, is_empty,
}
use syntaxa.Errors.Flush.{IsDrained, report-has_committed, report-IsDrained, has_committed-flush}
use syntaxa.Lst.Heap.{Editor}
use syntaxa.Lst.Pool.{set_root}
use syntaxa.Engine.{Context, RuleResult, SyntaxaParser}
use syntaxa.Engine.Reports.{report_lexer_error}
use syntaxa.Engine.Parse.{
  Parsed, report_no_start, report_lexing, compute_rooted, check_end, finish_parse,
}

-- The verdict of the end of a parse, from the context after the root's spans are computed.
abbrev verdict : SyntaxaParser → RuleResult → Context → Option ℕ
verdict parser result c =
    let (succeeded, c3) = if result.succeeded then check_end parser c else (false, c) in
    let errors = (flush_frames_commit_all c3.errors).errors in
    if not succeeded || not (is_empty errors) then some (length errors) else none

-- The conditions under which a parse is accepted.
pub record Accepted (parser : SyntaxaParser) (lex_error : Option String) (result : RuleResult)
    (c : Context) : Type 0 where
  pub program : result.succeeded ≡ true
  pub at_end : (peek c.stream 0).0.token ≡ parser.eof_token
  pub lexed : lex_error ≡ none
  pub clean : has_committed_syntax_errors c.errors ≡ false

verdict_lem :
    (parser : SyntaxaParser) (result : RuleResult) (c : Context)
    → IsDrained c.errors
    → (verdict parser result c ≡ none) ↔ Accepted parser none result c
unfolding check_end has_errors
verdict_lem parser result c d =
    let f = has_committed-flush c.errors d in
    elim (Bool-cases result.succeeded) [
      | inl s ↦ elim (Bool-cases ((peek c.stream 0).0.token == parser.eof_token)) [
        | inl t ↦ (
          λ h. record { program = s; at_end = ground arith; lexed = refl; clean = ground arith },
          λ a. let k = a.clean in ground arith,
        )
        | inr t ↦ (λ h. absurd (ground arith), λ a. let k = a.at_end in ground arith)
      ]
      | inr s ↦ (λ h. absurd (ground arith), λ a. let k = a.program in ground arith)
    ]

verdict_failed :
    (parser : SyntaxaParser) (result : RuleResult) (c : Context)
    → result.succeeded ≡ false
    → ¬ (verdict parser result c ≡ none)
verdict_failed parser result c s h = ground arith

-- The error that `reportLexerError` makes.
abbrev lexer_error : String → SyntaxError
lexer_error m = record {
  produced_by_lexer = true;
  rule = "";
  message = lexing m;
  absolute_position = 0;
  absolute_end = 0;
  token_number = 0;
}

-- The verdict on an end of a parse, after the reports.
accepts_of :
    (parser : SyntaxaParser) (lex_error : Option String) (result : RuleResult) (c : Context)
    (e : Editor)
    → IsDrained c.errors
    → (verdict parser result
          (record (report_lexing lex_error (report_no_start result c)) { editor = e })
        ≡ none)
      ↔ Accepted parser lex_error result c
unfolding report_no_start report_lexing report_lexer_error
accepts_of parser lex_error result c e d = elim (Bool-cases result.succeeded) [
  | inl s ↦ of_lexing lex_error s
  | inr s ↦ (
    λ h. absurd (
        verdict_failed parser result
          (record (report_lexing lex_error (report_no_start result c)) { editor = e }) s h),
    λ a. let k = a.program in absurd (ground arith),
  )
]
  where
    started : result.succeeded ≡ true → report_no_start result c ≡ c
    started s = rw s refl

    of_lexing :
        (lex : Option String)
        → result.succeeded ≡ true
        → (verdict parser result
              (record (report_lexing lex (report_no_start result c)) { editor = e })
            ≡ none)
          ↔ Accepted parser lex result c
    of_lexing none s =
        let (f, b) = verdict_lem parser result (record c { editor = e }) d in
        rw (started s) (
          (λ h.
              let a = f h in
              record { program = s; at_end = a.at_end; lexed = refl; clean = a.clean }),
          (λ a. b (record { program = s; at_end = a.at_end; lexed = refl; clean = a.clean })),
        )
    of_lexing (some m) s =
        let there = record (report_lexing (some m) c) { editor = e } in
        let there_d = report-IsDrained c.errors (lexer_error m) d in
        rw (started s) (
          (λ h.
              let clean = ((verdict_lem parser result there there_d).0 h).clean in
              absurd (cc (report-has_committed c.errors (lexer_error m), clean))),
          (λ a. absurd (cc a.lexed)),
        )

-- A parse returns no error just if the program rule succeeded, nothing visible is left behind it, the
-- lexer has reported no error, and no error was committed or is the best one of an open frame; this
-- holds for every end of a parse that returns, from errors that are drained where no frame is open.
pub finish_parse-accepts :
    (parser : SyntaxaParser) (lex_error : Option String) (result : RuleResult) (c : Context)
    (parsed : Parsed) (c' : Context)
    → IsDrained c.errors
    → finish_parse parser lex_error result c ≡ ok (parsed, c')
    → (parsed.failed ≡ none) ↔ Accepted parser lex_error result c
unfolding finish_parse report_no_start report_lexing
finish_parse-accepts parser lex_error result c parsed c' d h =
    let (e, he, hr) =
      >>=-eq-ok
        (compute_rooted result.node
          (set_root result.node (report_lexing lex_error (report_no_start result c)).editor))
        _ h in
    let v : parsed.failed
        ≡ verdict parser result
            (record (report_lexing lex_error (report_no_start result c)) { editor = e }) =
      ground arith in
    let (f, b) = accepts_of parser lex_error result c e d in (λ n. f (sym v ∙ n), λ a. v ∙ b a)
