-- ===== src/Errors/Transactions.antt =====
-- The transaction discipline of the error frames: what runs between a `pushFrame` and its `popFrame`.
use syntaxa.Prelude.{ℕ, ◌≡◌, refl, Bool, true, false, List, ◌∷◌, ◌++◌, arith, ok}
use syntaxa.Errors.{
  SyntaxError, ErrorFrame, SyntaxErrors, new_frame, push_frame, pop_frame, report, replace_best,
  push_delimiter_boundary, pop_delimiter_boundary, begin_entry_rule_scope, end_entry_rule_scope,
  best_list,
}
use syntaxa.Errors.Frames.{
  Extends, Extends-self, Extends-report, Extends-replace_best, Extends-pop, Extends-apart,
  extended_rollback, extended_commit,
}

-- The code that runs inside a frame: reports, nested frames, boundaries and entry scopes, in order.
pub data Body : SyntaxErrors → SyntaxErrors → Type 0 where
  start : {s : SyntaxErrors} → Body s s
  reports : {s t : SyntaxErrors} (e : SyntaxError) → Body s t → Body s (report t e)
  replaces : {s t : SyntaxErrors} (e : SyntaxError) → Body s t → Body s (replace_best t e).0
  nests :
      {s t u v : SyntaxErrors} (commit : Bool)
      → Body s t
      → Body (push_frame t) u
      → pop_frame u commit ≡ ok v
      → Body s v
  opens : {s t : SyntaxErrors} (n : ℕ) → Body s t → Body s (push_delimiter_boundary t n)
  closes : {s t u : SyntaxErrors} → Body s t → pop_delimiter_boundary t ≡ ok u → Body s u
  begins : {s t : SyntaxErrors} → Body s t → Body s (begin_entry_rule_scope t)
  ends : {s t u : SyntaxErrors} → Body s t → end_entry_rule_scope t ≡ ok u → Body s u

Body-Extends :
    {s t : SyntaxErrors} (f : ErrorFrame) (r : List ErrorFrame)
    → s.stack ≡ f ∷ r
    → Body s t
    → Extends s t
unfolding push_frame push_delimiter_boundary pop_delimiter_boundary begin_entry_rule_scope
    end_entry_rule_scope
Body-Extends {s} f r h start = Extends-self s f r h
Body-Extends f r h (reports e b) = Extends-report (Body-Extends f r h b) e
Body-Extends f r h (replaces e b) = Extends-replace_best (Body-Extends f r h b) e
Body-Extends f r h (nests {t} c b n e) =
    Extends-pop (Body-Extends f r h b) c (Body-Extends (new_frame t) t.stack refl n) e
Body-Extends f r h (opens n b) = Extends-apart (Body-Extends f r h b) refl refl refl
Body-Extends f r h (closes b e) =
    Extends-apart (Body-Extends f r h b) (ground arith) (ground arith) (ground arith)
Body-Extends f r h (begins b) = Extends-apart (Body-Extends f r h b) refl refl refl
Body-Extends f r h (ends b e) =
    Extends-apart (Body-Extends f r h b) (ground arith) (ground arith) (ground arith)

module _ (s t : SyntaxErrors) (b : Body (push_frame s) t) where
  body_Extends : Extends (push_frame s) t
  unfolding push_frame
  body_Extends = Body-Extends (new_frame s) s.stack refl b

  -- Whatever runs inside a frame, rolling that frame back does not panic, and it leaves the frames
  -- below, the flight buffer and the committed errors as they were before the frame was pushed.
  pub pop_frame_rollback :
      (s' : SyntaxErrors) × (pop_frame t false ≡ ok s')
      × (s'.stack ≡ s.stack)
      × (s'.flight ≡ s.flight)
      × (s'.errors ≡ s.errors)
  pop_frame_rollback = extended_rollback s t body_Extends

  -- Committing a frame under an outer one never panics: the outer frames and the committed errors are
  -- as before, and what is added to the flight buffer ends with the frame's best error, if any.
  pub pop_frame_commit :
      (f : ErrorFrame) (r : List ErrorFrame)
      → s.stack ≡ f ∷ r
      → (s' : SyntaxErrors) × (added : List SyntaxError) × (top : ErrorFrame) × (pop_frame t true
          ≡ ok s')
        × (t.stack ≡ top ∷ s.stack)
        × (s'.stack ≡ s.stack)
        × (s'.flight ≡ s.flight ++ (added ++ best_list top.best))
        × (s'.errors ≡ s.errors)
  pop_frame_commit = extended_commit s t body_Extends
