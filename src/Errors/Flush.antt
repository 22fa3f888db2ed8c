-- ===== src/Errors/Flush.antt =====
-- `FlushFramesCommitAll`, which `parseWithContext` calls before it counts the errors.
use syntaxa.Prelude.{
  true, false, Option, none, some, Bool-cases, inl, inr, ◌≡◌, refl, ap, ◌∙◌, not, ◌||◌, List, [],
  ◌∷◌, ◌++◌, arith, any, append_assoc, append-nil,
}
use syntaxa.Errors.{
  SyntaxError, ErrorFrame, SyntaxErrors, flush_stack, flush_frames_commit_all, commit_frame,
  best_list, is_some, is_empty, better_error, better_than, report, has_errors,
  has_committed_syntax_errors,
}

-- The best errors of the frames, from the top down.
pub bests : List ErrorFrame → List SyntaxError
bests [] = []
bests (f ∷ r) = best_list f.best ++ bests r

-- Nothing is in flight where no frame is open.
abbrev pub IsDrained : SyntaxErrors → Type 0
IsDrained s = s.stack ≡ [] → s.flight ≡ []

flush_stack_lem :
    (s : SyntaxErrors) (f : ErrorFrame) (r : List ErrorFrame)
    → flush_stack (f ∷ r) s
      ≡ record s { stack = []; errors = s.errors ++ (s.flight ++ bests (f ∷ r)); flight = [] }
unfolding flush_stack commit_frame bests
flush_stack_lem s f [] = rw append-nil
flush_stack_lem s f (g ∷ r) =
    flush_stack_lem (commit_frame s f (g ∷ r)) g r
    ∙ ap (λ l. record s { stack = []; errors = s.errors ++ l; flight = [] })
        (append_assoc s.flight (best_list f.best) (bests (g ∷ r)))

any-bests :
    (r : List ErrorFrame) → any (λ (f : ErrorFrame). is_some f.best) r ≡ not (is_empty (bests r))
unfolding bests
any-bests [] = refl
any-bests (f ∷ r) = ground (arith, any-bests r)

is_empty-append {ℓ} :
    {A : Type ℓ} (xs ys : List A)
    → not (is_empty (xs ++ ys)) ≡ (not (is_empty xs) || not (is_empty ys))
is_empty-append [] ys = refl
is_empty-append (x ∷ xs) ys = refl

flushed_of :
    (s : SyntaxErrors) (stack : List ErrorFrame)
    → (stack ≡ [] → s.flight ≡ [])
    → flush_stack stack (record s { stack = stack })
      ≡ record s { stack = []; errors = s.errors ++ (s.flight ++ bests stack); flight = [] }
unfolding flush_stack bests
flushed_of s [] d = ground (arith, d refl, append-nil s.errors)
flushed_of s (f ∷ r) d = flush_stack_lem (record s { stack = f ∷ r }) f r

-- On errors that have nothing in flight unless a frame is open, flushing closes every frame, and appends
-- to the errors what is in flight and then the best error of each frame from the top down; nothing else
-- changes.
pub flush_lem :
    (s : SyntaxErrors)
    → IsDrained s
    → flush_frames_commit_all s
      ≡ record s { stack = []; errors = s.errors ++ (s.flight ++ bests s.stack); flight = [] }
unfolding flush_frames_commit_all
flush_lem s d = flushed_of s s.stack d

-- On errors that have nothing in flight unless a frame is open, the test for a committed error is exact:
-- it holds just if flushing would leave an error.
pub has_committed-flush :
    (s : SyntaxErrors)
    → IsDrained s
    → has_committed_syntax_errors s ≡ has_errors (flush_frames_commit_all s)
unfolding has_committed_syntax_errors has_errors
has_committed-flush s d = rw (flush_lem s d) (
    ground (
      arith,
      any-bests s.stack,
      is_empty-append s.errors (s.flight ++ bests s.stack),
      is_empty-append s.flight (bests s.stack),
    ))

better_error-is_some :
    (f : ErrorFrame) (e : SyntaxError) → better_error f e ≡ false → is_some f.best ≡ true
unfolding better_error
better_error-is_some f e h = of_best f.best h
  where
    of_best : (b : Option SyntaxError) → better_than b f e ≡ false → is_some b ≡ true
    of_best none h = cc h
    of_best (some b) h = refl

-- A report always leaves an error behind, whether or not it becomes the best one of its frame.
pub report-has_committed :
    (s : SyntaxErrors) (e : SyntaxError) → has_committed_syntax_errors (report s e) ≡ true
unfolding has_committed_syntax_errors report
report-has_committed s e = of_stack s.stack refl
  where
    of_stack :
        (st : List ErrorFrame) → s.stack ≡ st → has_committed_syntax_errors (report s e) ≡ true
    of_stack [] h = ground (arith, is_empty-append s.errors (e ∷ []))
    of_stack (f ∷ r) h = elim (Bool-cases (better_error f e)) [
      | inl b ↦ ground arith
      | inr b ↦ ground (arith, better_error-is_some f e b)
    ]

pub report-IsDrained : (s : SyntaxErrors) (e : SyntaxError) → IsDrained s → IsDrained (report s e)
unfolding report
report-IsDrained s e d = of_stack s.stack refl
  where
    of_stack : (st : List ErrorFrame) → s.stack ≡ st → IsDrained (report s e)
    of_stack [] h = λ q. ground (arith, d h)
    of_stack (f ∷ r) h = λ q. absurd (ground arith)
