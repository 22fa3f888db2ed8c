-- ===== src/Errors.antt =====
-- syntax_errors.go: the error sink with its speculative frames. Lines, columns, `Expected` and
-- `Found` of an error, which the engine never fills, are left out. A slice used as a stack is a list
-- whose head is the top; `flight` and `errors` keep the order of the source. `s.flight[:k]` is
-- `take k`, which is the slice expression as long as `k` is at most the length.
mod Tests
pub mod Frames
pub mod Transactions
pub mod Best
pub mod Flush
use syntaxa.Prelude.{
  ℕ, ◌+◌, ◌-◌, Bool, true, false, not, ◌&&◌, ◌||◌, Option, none, some, List, [], ◌∷◌, ◌++◌, String,
  length, take, drop, any, ltb, leb, ◌==◌, if◌then◌else◌, Outcome, ok, panic, Panic,
}

-- A message is the value that `fmt.Sprintf` formats.
pub data Message : Type 0 where
  unexpected_start : ℕ → Message
  unexpected_end : ℕ → Message
  unexpected_expected : ℕ → String → Message
  lexing : String → Message
  text : String → Message

pub record SyntaxError : Type 0 where
  pub produced_by_lexer : Bool
  pub rule : String
  pub message : Message
  pub absolute_position : ℕ
  pub absolute_end : ℕ
  pub token_number : ℕ

-- `best` is `none` where the source has `hasBest == false`.
pub record ErrorFrame : Type 0 where
  pub best : Option SyntaxError
  pub best_absolute_position : ℕ
  pub commit_start_index : ℕ

pub record DelimiterBoundary : Type 0 where
  pub region_start : ℕ
  pub flight_at_open : ℕ

pub record SyntaxErrors : Type 0 where
  pub errors : List SyntaxError
  pub stack : List ErrorFrame
  pub flight : List SyntaxError
  pub delimiter_boundaries : List DelimiterBoundary
  pub entry_rule_scope_depth : ℕ
  pub entry_rule_flight_baseline : ℕ

abbrev pub syntax_errors_create : SyntaxErrors
syntax_errors_create = record {
  errors = [];
  stack = [];
  flight = [];
  delimiter_boundaries = [];
  entry_rule_scope_depth = 0;
  entry_rule_flight_baseline = 0;
}

abbrev pub is_some {ℓ} : {A : Type ℓ} → Option A → Bool
is_some none = false
is_some (some a) = true

abbrev pub is_empty {ℓ} : {A : Type ℓ} → List A → Bool
is_empty [] = true
is_empty (x ∷ xs) = false

abbrev pub new_frame : SyntaxErrors → ErrorFrame
new_frame s = record {
  best = none;
  best_absolute_position = 0;
  commit_start_index = length s.flight;
}

unfoldable pub push_frame : SyntaxErrors → SyntaxErrors
push_frame s = record s { stack = new_frame s ∷ s.stack }

-- What a commit appends to the flight buffer.
abbrev pub best_list : Option SyntaxError → List SyntaxError
best_list none = []
best_list (some e) = e ∷ []

-- A commit of `top`, over the frames `rest` below it.
unfoldable pub commit_frame : SyntaxErrors → ErrorFrame → List ErrorFrame → SyntaxErrors
commit_frame s top [] = record s {
  stack = [];
  errors = s.errors ++ (s.flight ++ best_list top.best);
  flight = [];
}
commit_frame s top (f ∷ rest) = record s {
  stack = f ∷ rest;
  flight = s.flight ++ best_list top.best;
}

unfoldable pub rollback_frame : SyntaxErrors → ErrorFrame → List ErrorFrame → SyntaxErrors
rollback_frame s top rest = record s { stack = rest; flight = take top.commit_start_index s.flight }

pop_frame_of : List ErrorFrame → SyntaxErrors → Bool → Outcome SyntaxErrors
pop_frame_of [] s commit = panic Panic.pop_without_push
pop_frame_of (top ∷ rest) s true = ok (commit_frame s top rest)
pop_frame_of (top ∷ rest) s false = ok (rollback_frame s top rest)

unfoldable pub pop_frame : SyntaxErrors → Bool → Outcome SyntaxErrors
unfolding pop_frame_of
pop_frame s commit = pop_frame_of s.stack s commit

-- The loop runs once for each frame.
flush_stack : List ErrorFrame → SyntaxErrors → SyntaxErrors
flush_stack [] s = s
flush_stack (top ∷ rest) s = flush_stack rest (commit_frame s top rest)

unfoldable pub flush_frames_commit_all : SyntaxErrors → SyntaxErrors
unfolding flush_stack commit_frame
flush_frames_commit_all s = flush_stack s.stack s

-- The assignment of a frame's best error.
abbrev with_best : ErrorFrame → SyntaxError → ErrorFrame
with_best f e = record f { best = some e; best_absolute_position = e.absolute_position }

replace_best_of : List ErrorFrame → SyntaxErrors → SyntaxError → SyntaxErrors × Bool
replace_best_of [] s e = (s, false)
replace_best_of (f ∷ rest) s e = (record s { stack = with_best f e ∷ rest }, true)

unfoldable pub replace_best : SyntaxErrors → SyntaxError → SyntaxErrors × Bool
unfolding replace_best_of
replace_best s e = replace_best_of s.stack s e

best_position_of : List ErrorFrame → Option ℕ
best_position_of [] = none
best_position_of (f ∷ rest) = if is_some f.best then some f.best_absolute_position else none

-- `none` is the result `(0, false)`.
unfoldable pub current_best_position : SyntaxErrors → Option ℕ
unfolding best_position_of
current_best_position s = best_position_of s.stack

would_be_empty_of : List ErrorFrame → SyntaxErrors → Bool
would_be_empty_of [] s = true
would_be_empty_of (f ∷ rest) s = not (is_some f.best) && (length s.flight == f.commit_start_index)

unfoldable pub current_frame_would_be_empty_on_pop : SyntaxErrors → Bool
unfolding would_be_empty_of
current_frame_would_be_empty_on_pop s = would_be_empty_of s.stack s

better_than : Option SyntaxError → ErrorFrame → SyntaxError → Bool
better_than none cur e = true
better_than (some b) cur e =
    ltb cur.best_absolute_position e.absolute_position
    || ((e.absolute_position == cur.best_absolute_position)
        && (b.produced_by_lexer && not e.produced_by_lexer))

unfoldable pub better_error : ErrorFrame → SyntaxError → Bool
unfolding better_than
better_error cur e = better_than cur.best cur e

report_in : List ErrorFrame → SyntaxErrors → SyntaxError → SyntaxErrors
report_in [] s e = record s { errors = s.errors ++ e ∷ [] }
report_in (f ∷ rest) s e = if better_error f e then record s { stack = with_best f e ∷ rest } else s

unfoldable pub report : SyntaxErrors → SyntaxError → SyntaxErrors
unfolding report_in better_error
report s e = report_in s.stack s e

unfoldable pub push_delimiter_boundary : SyntaxErrors → ℕ → SyntaxErrors
push_delimiter_boundary s start = record s { delimiter_boundaries = b ∷ s.delimiter_boundaries }
  where
    b : DelimiterBoundary
    b = record { region_start = start; flight_at_open = length s.flight }

pop_boundary_of : List DelimiterBoundary → SyntaxErrors → Outcome SyntaxErrors
pop_boundary_of [] s = panic Panic.pop_boundary_without_push
pop_boundary_of (b ∷ rest) s = ok (record s { delimiter_boundaries = rest })

unfoldable pub pop_delimiter_boundary : SyntaxErrors → Outcome SyntaxErrors
unfolding pop_boundary_of
pop_delimiter_boundary s = pop_boundary_of s.delimiter_boundaries s

-- The best error of a frame lies at or behind `start`.
abbrev pub best_from : ℕ → ErrorFrame → Bool
best_from start f = is_some f.best && leb start f.best_absolute_position

inside_boundary : List DelimiterBoundary → SyntaxErrors → Bool
inside_boundary [] s = false
inside_boundary (b ∷ rest) s =
    any (λ (e : SyntaxError). leb b.region_start e.absolute_position)
      (drop b.flight_at_open s.flight)
    || any (best_from b.region_start) s.stack

unfoldable pub has_committed_error_inside_current_delimiter_boundary : SyntaxErrors → Bool
unfolding inside_boundary
has_committed_error_inside_current_delimiter_boundary s = inside_boundary s.delimiter_boundaries s

unfoldable pub begin_entry_rule_scope : SyntaxErrors → SyntaxErrors
begin_entry_rule_scope s = record s {
  entry_rule_flight_baseline =
      if s.entry_rule_scope_depth == 0 then length s.flight else s.entry_rule_flight_baseline;
  entry_rule_scope_depth = s.entry_rule_scope_depth + 1;
}

unfoldable pub end_entry_rule_scope : SyntaxErrors → Outcome SyntaxErrors
end_entry_rule_scope s =
    if s.entry_rule_scope_depth == 0
    then panic Panic.end_scope_without_begin
    else ok (record s { entry_rule_scope_depth = s.entry_rule_scope_depth - 1 })

unfoldable pub has_committed_error_since_entry_rule_scope : SyntaxErrors → Bool
has_committed_error_since_entry_rule_scope s = ltb s.entry_rule_flight_baseline (length s.flight)

unfoldable pub has_errors : SyntaxErrors → Bool
has_errors s = not (is_empty s.errors)

unfoldable pub has_committed_syntax_errors : SyntaxErrors → Bool
has_committed_syntax_errors s =
    (not (is_empty s.errors) || not (is_empty s.flight))
    || any (λ (f : ErrorFrame). is_some f.best) s.stack
