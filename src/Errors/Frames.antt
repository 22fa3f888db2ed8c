-- ===== src/Errors/Frames.antt =====
-- syntax_errors.go: what work inside an error frame leaves alone, step by step.
use syntaxa.Prelude.{
  ◌≡◌, refl, sym, ap, ◌∙◌, Bool, true, false, List, [], ◌∷◌, ◌++◌, arith, length, take, take-append,
  append_assoc, append-nil, ok, if◌then◌else◌, Bool-cases, inl, inr,
}
use syntaxa.Errors.{
  pop_frame_of, pop_boundary_of, pop_delimiter_boundary, DelimiterBoundary, SyntaxError, ErrorFrame,
  SyntaxErrors, push_frame, pop_frame, commit_frame, rollback_frame, report, replace_best,
  better_error, best_list, with_best,
}

-- `t` is `s` after work inside the frame on top of `s`: the frames below and the errors are as they
-- were, the top frame keeps its commit index, and the flight buffer has only grown.
pub record Extends (s t : SyntaxErrors) : Type 0 where
  pub top : ErrorFrame
  pub rest : List ErrorFrame
  pub top' : ErrorFrame
  pub added : List SyntaxError
  pub before : s.stack ≡ top ∷ rest
  pub after : t.stack ≡ top' ∷ rest
  pub index : top'.commit_start_index ≡ top.commit_start_index
  pub grown : t.flight ≡ s.flight ++ added
  pub kept : t.errors ≡ s.errors

pub Extends-self :
    (s : SyntaxErrors) (f : ErrorFrame) (r : List ErrorFrame) → s.stack ≡ f ∷ r → Extends s s
Extends-self s f r h = record {
  top = f;
  rest = r;
  top' = f;
  added = [];
  before = h;
  after = h;
  index = refl;
  grown = sym (append-nil s.flight);
  kept = refl;
}

-- Inside a frame a report changes only the top frame's best error.
pub report_top :
    (t : SyntaxErrors) (e : SyntaxError) (f : ErrorFrame) (r : List ErrorFrame)
    → t.stack ≡ f ∷ r
    → report t e ≡ record t { stack = (if better_error f e then with_best f e else f) ∷ r }
unfolding report
report_top t e f r h = elim (Bool-cases (better_error f e)) [
  | inl b ↦ ground arith
  | inr b ↦ ground arith
]

module _ {s t : SyntaxErrors} (x : Extends s t) where
  pub Extends-report : (e : SyntaxError) → Extends s (report t e)
  Extends-report e = rw (report_top t e x.top' x.rest x.after) (record {
    top = x.top;
    rest = x.rest;
    top' = if better_error x.top' e then with_best x.top' e else x.top';
    added = x.added;
    before = x.before;
    after = refl;
    index = ground arith;
    grown = x.grown;
    kept = x.kept;
  })

  pub Extends-replace_best : (e : SyntaxError) → Extends s (replace_best t e).0
  unfolding replace_best
  Extends-replace_best e = record {
    top = x.top;
    rest = x.rest;
    top' = with_best x.top' e;
    added = x.added;
    before = x.before;
    after = ground arith;
    index = x.index;
    grown = ground arith;
    kept = ground arith;
  }

  nested_stack :
      {u : SyntaxErrors}
      → Extends (push_frame t) u
      → (f : ErrorFrame) × (u.stack ≡ f ∷ x.top' ∷ x.rest)
        × (f.commit_start_index ≡ length t.flight)
  unfolding push_frame
  nested_stack y = (y.top', cc (y.after, y.before, x.after), ground arith)

  -- A nested frame that commits adds its best error behind what its body added.
  Extends-pop_commit :
      {u v : SyntaxErrors} → Extends (push_frame t) u → pop_frame u true ≡ ok v → Extends s v
  unfolding pop_frame commit_frame push_frame
  Extends-pop_commit {u} {v} y e =
      let (f, us, n) = nested_stack y in
      record {
        top = x.top;
        rest = x.rest;
        top' = x.top';
        added = x.added ++ (y.added ++ best_list f.best);
        before = x.before;
        after = ground arith;
        index = x.index;
        grown =
            flight
            ∙ (ap (λ l. l ++ best_list f.best) (y.grown ∙ ap (λ l. l ++ y.added) x.grown)
                ∙ simp append_assoc);
        kept = errors ∙ x.kept;
      }
    where
      flight : v.flight ≡ u.flight ++ best_list (nested_stack y).0.best
      flight = let us = (nested_stack y).1 in ground arith

      errors : v.errors ≡ t.errors
      errors = let us = (nested_stack y).1 in ground arith

  -- One that rolls back takes away all that its body added.
  Extends-pop_rollback :
      {u v : SyntaxErrors} → Extends (push_frame t) u → pop_frame u false ≡ ok v → Extends s v
  unfolding pop_frame rollback_frame push_frame
  Extends-pop_rollback {u} {v} y e =
      let (f, us, n) = nested_stack y in
      record {
        top = x.top;
        rest = x.rest;
        top' = x.top';
        added = x.added;
        before = x.before;
        after = ground arith;
        index = x.index;
        grown = flight ∙ x.grown;
        kept = ground arith;
      }
    where
      flight : v.flight ≡ t.flight
      flight =
          let us = (nested_stack y).1 in
          let n = (nested_stack y).2 in
          let cut : v.flight ≡ take (length t.flight) u.flight = ground arith in
          cut ∙ ap (take (length t.flight)) y.grown ∙ take-append t.flight y.added

  pub Extends-pop :
      {u v : SyntaxErrors} (commit : Bool)
      → Extends (push_frame t) u
      → pop_frame u commit ≡ ok v
      → Extends s v
  Extends-pop true y e = Extends-pop_commit y e
  Extends-pop false y e = Extends-pop_rollback y e

  -- Boundaries and the entry scope are apart from the frames.
  pub Extends-apart :
      {u : SyntaxErrors}
      → u.stack ≡ t.stack
      → u.flight ≡ t.flight
      → u.errors ≡ t.errors
      → Extends s u
  Extends-apart hs hf he = record {
    top = x.top;
    rest = x.rest;
    top' = x.top';
    added = x.added;
    before = x.before;
    after = hs ∙ x.after;
    index = x.index;
    grown = hf ∙ x.grown;
    kept = he ∙ x.kept;
  }

  pub Extends-trans : {u : SyntaxErrors} → Extends t u → Extends s u
  Extends-trans {u} y = record {
    top = x.top;
    rest = x.rest;
    top' = y.top';
    added = x.added ++ y.added;
    before = x.before;
    after = ground (arith, y.before, x.after, y.after);
    index = ground (arith, y.before, x.after, y.index, x.index);
    grown = y.grown ∙ ap (λ l. l ++ y.added) x.grown ∙ append_assoc s.flight x.added y.added;
    kept = y.kept ∙ x.kept;
  }

module _ (s t : SyntaxErrors) (x : Extends (push_frame s) t) where
  extended_top :
      (f : ErrorFrame) × (t.stack ≡ f ∷ s.stack) × (f.commit_start_index ≡ length s.flight)
  unfolding push_frame
  extended_top = (x.top', cc (x.after, x.before), ground (arith, x.before, x.index))

  extended_flight :
      (added : List SyntaxError) × (t.flight ≡ s.flight ++ added) × (t.errors ≡ s.errors)
  unfolding push_frame
  extended_flight = (x.added, x.grown, x.kept)

  pub extended_rollback :
      (s' : SyntaxErrors) × (pop_frame t false ≡ ok s')
      × (s'.stack ≡ s.stack)
      × (s'.flight ≡ s.flight)
      × (s'.errors ≡ s.errors)
  unfolding pop_frame rollback_frame
  extended_rollback =
      let (f, e, n) = extended_top in
      let (added, g, k) = extended_flight in
      (
        rollback_frame t f s.stack,
        ap (λ l. pop_frame_of l t false) e,
        refl,
        (rw (n, g) (take-append s.flight added)),
        k,
      )

  pub extended_commit :
      (f : ErrorFrame) (r : List ErrorFrame)
      → s.stack ≡ f ∷ r
      → (s' : SyntaxErrors) × (added : List SyntaxError) × (top : ErrorFrame) × (pop_frame t true
          ≡ ok s')
        × (t.stack ≡ top ∷ s.stack)
        × (s'.stack ≡ s.stack)
        × (s'.flight ≡ s.flight ++ (added ++ best_list top.best))
        × (s'.errors ≡ s.errors)
  unfolding pop_frame commit_frame
  extended_commit f r h =
      let (top, e, n) = extended_top in
      let (added, g, k) = extended_flight in
      (
        commit_frame t top (f ∷ r),
        added,
        top,
        ap (λ l. pop_frame_of l t true) (e ∙ ap (◌∷◌ top) h),
        e,
        sym h,
        (ap (λ l. l ++ best_list top.best) g ∙ append_assoc s.flight added (best_list top.best)),
        k,
      )

popped_boundary :
    (bs : List DelimiterBoundary) (s s' : SyntaxErrors)
    → pop_boundary_of bs s ≡ ok s'
    → (rest : List DelimiterBoundary) × (record s { delimiter_boundaries = rest } ≡ s')
unfolding pop_boundary_of
popped_boundary [] s s' h = cc h
popped_boundary (b ∷ rest) s s' h = (rest, cc h)

-- A pop of a boundary changes the boundaries alone.
pub pop_delimiter_boundary_ok :
    (s s' : SyntaxErrors)
    → pop_delimiter_boundary s ≡ ok s'
    → (rest : List DelimiterBoundary) × (record s { delimiter_boundaries = rest } ≡ s')
unfolding pop_delimiter_boundary
pop_delimiter_boundary_ok s s' h = popped_boundary s.delimiter_boundaries s s' h
