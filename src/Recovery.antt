-- ===== src/Recovery.antt =====
-- rule_context.go, `recoveryCore`: the recovery tokens of the active rules, in two flat buffers that
-- the frames of a stack (here a list, its top first) cut into pieces.
mod Tests
pub mod Scopes
pub mod Queries
use syntaxa.Prelude.{
  ℕ, ◌+◌, ◌-◌, Bool, true, false, ◌||◌, List, [], ◌∷◌, ◌++◌, length, take, drop, contains,
  if◌then◌else◌,
}
use syntaxa.Tokens.{TokenKind}

pub record RecoveryFrame : Type 0 where
  pub consume_start : ℕ
  pub consume_end : ℕ
  pub no_consume_start : ℕ
  pub no_consume_end : ℕ
  pub barrier : Bool

pub record RecoveryCore : Type 0 where
  pub default_recovery : List TokenKind
  pub stack : List RecoveryFrame
  pub consume_flight : List TokenKind
  pub no_consume_flight : List TokenKind

-- `xs[a:b]`
abbrev pub slice {ℓ} : {A : Type ℓ} → List A → ℕ → ℕ → List A
slice xs a b = take (b - a) (drop a xs)

abbrev pub consume_of : RecoveryCore → RecoveryFrame → List TokenKind
consume_of rc f = slice rc.consume_flight f.consume_start f.consume_end

abbrev pub no_consume_of : RecoveryCore → RecoveryFrame → List TokenKind
no_consume_of rc f = slice rc.no_consume_flight f.no_consume_start f.no_consume_end

-- The state that `buildBaseContext` starts from.
abbrev pub recovery_core_create : TokenKind → RecoveryCore
recovery_core_create eof = record {
  default_recovery = eof ∷ [];
  stack = [];
  consume_flight = [];
  no_consume_flight = [];
}

unfoldable pub push_recovery : Bool → List TokenKind → List TokenKind → RecoveryCore → RecoveryCore
push_recovery barrier consume no_consume rc = record rc {
  stack = frame ∷ rc.stack;
  consume_flight = rc.consume_flight ++ consume;
  no_consume_flight = rc.no_consume_flight ++ no_consume;
}
  where
    frame : RecoveryFrame
    frame = record {
      consume_start = length rc.consume_flight;
      consume_end = length (rc.consume_flight ++ consume);
      no_consume_start = length rc.no_consume_flight;
      no_consume_end = length (rc.no_consume_flight ++ no_consume);
      barrier = barrier;
    }

pop_recovery_of : List RecoveryFrame → RecoveryCore → RecoveryCore
pop_recovery_of [] rc = rc
pop_recovery_of (top ∷ rest) rc = record rc {
  stack = rest;
  consume_flight = take top.consume_start rc.consume_flight;
  no_consume_flight = take top.no_consume_start rc.no_consume_flight;
}

unfoldable pub pop_recovery : RecoveryCore → RecoveryCore
unfolding pop_recovery_of
pop_recovery rc = pop_recovery_of rc.stack rc

frame_contains_token : RecoveryCore → RecoveryFrame → TokenKind → Bool
frame_contains_token rc f t = contains (consume_of rc f) t || contains (no_consume_of rc f) t

is_recovery_of : List RecoveryFrame → RecoveryCore → TokenKind → Bool
unfolding frame_contains_token
is_recovery_of [] rc t = contains rc.default_recovery t
is_recovery_of (top ∷ rest) rc t =
    if frame_contains_token rc top t
    then true
    else if top.barrier
    then false
    else contains rc.default_recovery t

unfoldable pub is_recovery_token : RecoveryCore → TokenKind → Bool
unfolding is_recovery_of
is_recovery_token rc t = is_recovery_of rc.stack rc t

any_frame_contains : List RecoveryFrame → RecoveryCore → TokenKind → Bool
unfolding frame_contains_token
any_frame_contains [] rc t = false
any_frame_contains (f ∷ r) rc t =
    if frame_contains_token rc f t then true else any_frame_contains r rc t

unfoldable pub is_active_recovery_token : RecoveryCore → TokenKind → Bool
unfolding any_frame_contains
is_active_recovery_token rc t =
    if contains rc.default_recovery t then true else any_frame_contains rc.stack rc t

any_frame_consumes : List RecoveryFrame → RecoveryCore → TokenKind → Bool
any_frame_consumes [] rc t = false
any_frame_consumes (f ∷ r) rc t =
    if contains (consume_of rc f) t then true else any_frame_consumes r rc t

unfoldable pub is_active_consume_recovery_token : RecoveryCore → TokenKind → Bool
unfolding any_frame_consumes
is_active_consume_recovery_token rc t =
    if contains rc.default_recovery t then true else any_frame_consumes rc.stack rc t

ownership_of : List RecoveryFrame → RecoveryCore → TokenKind → Bool × Bool
ownership_of [] rc t = if contains rc.default_recovery t then (true, false) else (false, false)
ownership_of (f ∷ r) rc t =
    if contains (no_consume_of rc f) t
    then (true, true)
    else if contains (consume_of rc f) t
    then (true, false)
    else ownership_of r rc t

-- The pair `(active, noConsume)`.
unfoldable pub recovery_token_ownership : RecoveryCore → TokenKind → Bool × Bool
unfolding ownership_of
recovery_token_ownership rc t = ownership_of rc.stack rc t

-- The loop of `deduplicateTokens`, with its result so far.
deduplicate_onto : List TokenKind → List TokenKind → List TokenKind
deduplicate_onto out [] = out
deduplicate_onto out (t ∷ ts) = deduplicate_onto (if contains out t then out else out ++ t ∷ []) ts

unfoldable pub deduplicate_tokens : List TokenKind → List TokenKind
unfolding deduplicate_onto
deduplicate_tokens ts = deduplicate_onto [] ts

collect_frames : List RecoveryFrame → RecoveryCore → List TokenKind → List TokenKind
collect_frames [] rc result = result
collect_frames (f ∷ r) rc result =
    collect_frames r rc ((result ++ consume_of rc f) ++ no_consume_of rc f)

unfoldable pub collect_all_recovery_tokens : RecoveryCore → List TokenKind
unfolding collect_frames deduplicate_tokens
collect_all_recovery_tokens rc = deduplicate_tokens (collect_frames rc.stack rc rc.default_recovery)
