-- ===== src/Errors/Tests.antt =====
-- Runs of the error sink.
use syntaxa.Prelude.{some, ◌+◌, refl, true, false, ℕ, ◌≡◌, List, [], ◌∷◌, ◌++◌, ok}
use syntaxa.Errors.{
  SyntaxError, ErrorFrame, SyntaxErrors, text, syntax_errors_create, new_frame, push_frame,
  pop_frame, commit_frame, report, best_list, flush_frames_commit_all, has_committed_syntax_errors,
  has_errors,
}
use syntaxa.Errors.Transactions.{start, reports, nests, pop_frame_rollback, pop_frame_commit, Body}
use syntaxa.Errors.Best.{IsFirstBest, report_all, report_all-best}
use syntaxa.Errors.Flush.{bests, flush_lem, has_committed-flush}

abbrev error : ℕ → SyntaxError
error at = record {
  produced_by_lexer = false;
  rule = "rule";
  message = text "unexpected";
  absolute_position = at;
  absolute_end = at + 1;
  token_number = at;
}

-- An outer frame that has an error, and an inner one that reports and commits a nested frame.
abbrev outer : SyntaxErrors
outer = report (push_frame syntax_errors_create) (error 2)

abbrev nested : SyntaxErrors
nested = report (push_frame (report (push_frame outer) (error 3))) (error 7)

abbrev inner : SyntaxErrors
inner = record nested {
  stack =
      record (new_frame outer) { best = some (error 3); best_absolute_position = 3 } ∷ outer.stack;
  flight = error 7 ∷ [];
}

inner-Body : Body (push_frame outer) inner
unfolding push_frame report pop_frame commit_frame
inner-Body = nests true (reports (error 3) start) (reports (error 7) start) refl

pop_frame_rollback_example :
    (s : SyntaxErrors) × (pop_frame inner false ≡ ok s)
    × (s.stack ≡ outer.stack)
    × (s.flight ≡ outer.flight)
    × (s.errors ≡ outer.errors)
pop_frame_rollback_example = pop_frame_rollback outer inner inner-Body

pop_frame_commit_example :
    (s : SyntaxErrors) × (added : List SyntaxError) × (top : ErrorFrame) × (pop_frame inner true
      ≡ ok s)
    × (inner.stack ≡ top ∷ outer.stack)
    × (s.stack ≡ outer.stack)
    × (s.flight ≡ outer.flight ++ (added ++ best_list top.best))
    × (s.errors ≡ outer.errors)
unfolding push_frame report
pop_frame_commit_example =
    pop_frame_commit outer inner inner-Body
      (record (new_frame syntax_errors_create) {
        best = some (error 2);
        best_absolute_position = 2;
      })
      [] refl

report_all-best_example :
    (b : SyntaxError) × (f : ErrorFrame) × IsFirstBest (error 2 ∷ error 5 ∷ error 4 ∷ []) b
    × (f.best ≡ some b)
    × (report_all (push_frame outer) (error 2 ∷ error 5 ∷ error 4 ∷ [])
        ≡ record (push_frame outer) { stack = f ∷ outer.stack })
report_all-best_example = report_all-best outer (error 2) (error 5 ∷ error 4 ∷ [])

flush_lem_example : flush_frames_commit_all inner ≡ record inner {
  stack = [];
  errors = inner.errors ++ (inner.flight ++ bests inner.stack);
  flight = [];
}
unfolding push_frame report
flush_lem_example = flush_lem inner (λ h. cc h)

has_committed-flush_example :
    has_committed_syntax_errors inner ≡ has_errors (flush_frames_commit_all inner)
unfolding push_frame report
has_committed-flush_example = has_committed-flush inner (λ h. cc h)
