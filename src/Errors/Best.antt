-- ===== src/Errors/Best.antt =====
-- syntax_errors.go, `report`: which of the errors reported inside one frame is kept.
use syntaxa.Prelude.{
  ℕ, ◌+◌, ◌≤◌, ◌<◌, ◌≡◌, refl, ap, ◌∙◌, Bool, true, false, List, [], ◌∷◌, ◌++◌, ◌⊎◌, inl, inr, some,
  arith, All, if◌then◌else◌,
}
use syntaxa.Errors.{
  SyntaxError, ErrorFrame, SyntaxErrors, push_frame, new_frame, report, better_error, with_best,
}
use syntaxa.Errors.Frames.{report_top}

-- The order of the diagnostics: further into the input first, and at one position an error of the
-- parser above one of the lexer.
abbrev pub rank : SyntaxError → ℕ
rank e = e.absolute_position + e.absolute_position + (if e.produced_by_lexer then 0 else 1)

-- `b` is the first of the errors of `xs` whose rank no other exceeds.
pub record IsFirstBest (xs : List SyntaxError) (b : SyntaxError) : Type 0 where
  pub before : List SyntaxError
  pub behind : List SyntaxError
  pub split : xs ≡ before ++ b ∷ behind
  pub below : All (λ e. rank e < rank b) before
  pub bounded : All (λ e. rank e ≤ rank b) behind

pub report_all : SyntaxErrors → List SyntaxError → SyntaxErrors
report_all s [] = s
report_all s (e ∷ es) = report_all (report s e) es

absorb : ErrorFrame → List SyntaxError → ErrorFrame
absorb f [] = f
absorb f (e ∷ es) = absorb (if better_error f e then with_best f e else f) es

report_all_top :
    (s : SyntaxErrors) (f : ErrorFrame) (r : List ErrorFrame) (es : List SyntaxError)
    → report_all (record s { stack = f ∷ r }) es ≡ record s { stack = absorb f es ∷ r }
unfolding report_all absorb
report_all_top s f r [] = refl
report_all_top s f r (e ∷ es) =
    ap (λ t. report_all t es) (report_top (record s { stack = f ∷ r }) e f r refl)
    ∙ report_all_top s (if better_error f e then with_best f e else f) r es

-- The frame holds `b`.
abbrev Holds : ErrorFrame → SyntaxError → Type 0
Holds f b = (f.best ≡ some b) × (f.best_absolute_position ≡ b.absolute_position)

better-rank :
    (f : ErrorFrame) (b e : SyntaxError) → Holds f b → better_error f e ≡ true → rank b < rank e
unfolding better_error
better-rank f b e h p = let (h1, h2) = h in ground arith

rank-better :
    (f : ErrorFrame) (b e : SyntaxError) → Holds f b → better_error f e ≡ false → rank e ≤ rank b
unfolding better_error
rank-better f b e h p = ground arith

-- What a frame that holds `b` has after the reports `es`.
abbrev HeldAfter : SyntaxError → List SyntaxError → ErrorFrame → ErrorFrame → Type 0
HeldAfter b es f g =
    ((g ≡ f) × All (λ e. rank e ≤ rank b) es)
    ⊎ ((b' : SyntaxError) × Holds g b' × (rank b < rank b') × IsFirstBest es b')

-- A report that the frame keeps precedes the others.
kept_first :
    (f g : ErrorFrame) (b e : SyntaxError) (es : List SyntaxError)
    → rank b < rank e
    → HeldAfter e es (with_best f e) g
    → (b' : SyntaxError) × Holds g b' × (rank b < rank b') × IsFirstBest (e ∷ es) b'
kept_first f g b e es up (inl (same, low)) = (
  e,
  (ap (λ x. x.best) same, ap (λ x. x.best_absolute_position) same),
  up,
  record { before = []; behind = es; split = refl; below = tt; bounded = low },
)
kept_first f g b e es up (inr (b', held, up', best)) = (
  b',
  held,
  omega arith,
  record {
    before = e ∷ best.before;
    behind = best.behind;
    split = ap (◌∷◌ e) best.split;
    below = (up', best.below);
    bounded = best.bounded;
  },
)

-- A report that the frame drops changes nothing.
dropped_first :
    (f g : ErrorFrame) (b e : SyntaxError) (es : List SyntaxError)
    → rank e ≤ rank b
    → HeldAfter b es f g
    → HeldAfter b (e ∷ es) f g
dropped_first f g b e es down (inl (same, low)) = inl (same, (down, low))
dropped_first f g b e es down (inr (b', held, up, best)) = inr (
  b',
  held,
  up,
  record {
    before = e ∷ best.before;
    behind = best.behind;
    split = ap (◌∷◌ e) best.split;
    below = (omega arith, best.below);
    bounded = best.bounded;
  },
)

absorb_step :
    (f : ErrorFrame) (b e : SyntaxError) (es : List SyntaxError)
    → Holds f b
    → HeldAfter e es (with_best f e) (absorb (with_best f e) es)
    → HeldAfter b es f (absorb f es)
    → (c : Bool) → better_error f e ≡ c
    → HeldAfter b (e ∷ es) f (absorb (if c then with_best f e else f) es)
absorb_step f b e es h up down true p =
    inr (kept_first f (absorb (with_best f e) es) b e es (better-rank f b e h p) up)
absorb_step f b e es h up down false p =
    dropped_first f (absorb f es) b e es (rank-better f b e h p) down

absorb_held :
    (f : ErrorFrame) (b : SyntaxError) (es : List SyntaxError)
    → Holds f b
    → HeldAfter b es f (absorb f es)
unfolding absorb
absorb_held f b [] h = inl (refl, tt)
absorb_held f b (e ∷ es) h =
    absorb_step f b e es h (absorb_held (with_best f e) e es (refl, refl)) (absorb_held f b es h)
      (better_error f e) refl

absorb_fresh :
    (f g : ErrorFrame) (e : SyntaxError) (es : List SyntaxError)
    → HeldAfter e es (with_best f e) g
    → (b : SyntaxError) × IsFirstBest (e ∷ es) b × (g.best ≡ some b)
absorb_fresh f g e es (inl (same, low)) = (
  e,
  record { before = []; behind = es; split = refl; below = tt; bounded = low },
  ap (λ x. x.best) same,
)
absorb_fresh f g e es (inr (b, held, up, best)) = (
  b,
  record {
    before = e ∷ best.before;
    behind = best.behind;
    split = ap (◌∷◌ e) best.split;
    below = (up, best.below);
    bounded = best.bounded;
  },
  held.0,
)

-- Of a non-empty series of errors reported into a fresh frame, the frame keeps the first of those
-- that lie furthest into the input, where at one position a parser error outranks a lexer error; the
-- frames below, the flight buffer and the committed errors do not change.
pub report_all-best :
    (s : SyntaxErrors) (e : SyntaxError) (es : List SyntaxError)
    → (b : SyntaxError) × (f : ErrorFrame) × IsFirstBest (e ∷ es) b
      × (f.best ≡ some b)
      × (report_all (push_frame s) (e ∷ es) ≡ record (push_frame s) { stack = f ∷ s.stack })
unfolding push_frame absorb better_error
report_all-best s e es =
    let f = with_best (new_frame s) e in
    let (b, best, held) =
      absorb_fresh (new_frame s) (absorb f es) e es (absorb_held f e es (refl, refl)) in
    (b, absorb f es, best, held, report_all_top s (new_frame s) s.stack (e ∷ es))
