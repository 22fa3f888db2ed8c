-- ===== src/Stream/Coherence.antt =====
-- rule_context.go, `tokenStream`: the cached index, and snapshots.
use syntaxa.Prelude.{ℕ, zero, suc, ◌+◌, ◌≡◌, ◌∙◌, refl, sym, ap, false, List, [], ◌∷◌, arith}
use mathlib.Core.Path.{subst}
use syntaxa.Tokens.{TokenRole, Lexeme}
use syntaxa.Stream.{
  SkipStack, TokenStream, resolve_next_visible_raw, peek, consume_raw, skip_forward, consume,
  push_skip_roles, fill_cache, is_eof, pop_skip_of, pop_skip_roles, save, restore,
}
use syntaxa.Stream.Visible.{seen_at, IsCoherent}
use syntaxa.Stream.Consume.{consume_lem, skip_forward_lem}
use syntaxa.Stream.Peek.{filled, peek_lem}

-- Every way in which the engine moves or inspects the stream.
pub data StreamOp : Type 0 where
  peeks : ℕ → StreamOp
  consumes consumes_raw pops_roles : StreamOp
  pushes_roles : List TokenRole → StreamOp

abbrev pub stream_step : TokenStream → StreamOp → TokenStream
stream_step ts (peeks n) = (peek ts n).1
stream_step ts consumes = (consume ts).1
stream_step ts consumes_raw = (consume_raw ts).1
stream_step ts pops_roles = pop_skip_roles ts
stream_step ts (pushes_roles roles) = push_skip_roles roles ts

abbrev pub stream_run : TokenStream → List StreamOp → TokenStream
stream_run ts [] = ts
stream_run ts (o ∷ os) = stream_run (stream_step ts o) os

pub consume_raw-uncached : (ts : TokenStream) → (consume_raw ts).1.next_visible_cached ≡ false
unfolding consume_raw
consume_raw-uncached ts = ground arith

pop_skip_of-IsCoherent :
    (skip : SkipStack) (ts : TokenStream) → IsCoherent ts → IsCoherent (pop_skip_of skip ts)
unfolding pop_skip_of
pop_skip_of-IsCoherent [] ts h = h
pop_skip_of-IsCoherent (top ∷ rest) ts h = λ e. cc

filled-IsCoherent : (ts : TokenStream) → IsCoherent (filled ts)
unfolding resolve_next_visible_raw
filled-IsCoherent ts = λ e. refl

step-IsCoherent : (ts : TokenStream) (o : StreamOp) → IsCoherent ts → IsCoherent (stream_step ts o)
unfolding consume push_skip_roles pop_skip_roles
step-IsCoherent ts (peeks n) h =
    subst IsCoherent (sym (ap (λ (r : Lexeme × TokenStream). r.1) (peek_lem ts n h)))
      (filled-IsCoherent ts)
step-IsCoherent ts consumes h = λ e. cc (consume_raw-uncached (skip_forward ts))
step-IsCoherent ts consumes_raw h = λ e. cc (consume_raw-uncached ts)
step-IsCoherent ts pops_roles h = pop_skip_of-IsCoherent ts.skip_stack ts h
step-IsCoherent ts (pushes_roles roles) h = λ e. cc

-- After any sequence of peeks, consumptions and changes of the skip roles, a cached index is still the
-- one that a fresh scan finds.
pub run-IsCoherent :
    (ts : TokenStream) (os : List StreamOp) → IsCoherent ts → IsCoherent (stream_run ts os)
run-IsCoherent ts [] h = h
run-IsCoherent ts (o ∷ os) h = run-IsCoherent (stream_step ts o) os (step-IsCoherent ts o h)

-- From a stream whose cached index, if it has one, is the one that a fresh scan finds, `consume` returns
-- the lexeme that peeking shows, and unless that ends the input, peeking behind it shows at each place
-- what it showed one place further before.
pub consume-peek :
    (ts : TokenStream)
    → IsCoherent ts
    → ((consume ts).0 ≡ (peek ts 0).0)
      × (is_eof ts.eof_token (peek ts 0).0 ≡ false
          → (n : ℕ) → (peek (consume ts).1 n).0 ≡ (peek ts (n + 1)).0)
consume-peek ts h =
    let (next, later) = consume_lem ts in
    let first = shown ts 0 h in
    (
      next ∙ sym first,
      λ e n.
          shown (consume ts).1 n (step-IsCoherent ts StreamOp.consumes h)
          ∙ later (ap (is_eof ts.eof_token) (sym first) ∙ e) n
          ∙ sym (shown ts (n + 1) h),
    )
  where
    shown : (t : TokenStream) (n : ℕ) → IsCoherent t → (peek t n).0 ≡ seen_at t n
    shown t n c = ap (λ (r : Lexeme × TokenStream). r.0) (peek_lem t n c)

-- A snapshot is restored over a stream of the same input and skip roles.
pub restore-save :
    (s t : TokenStream)
    → t.lexemes ≡ s.lexemes
    → t.eof_token ≡ s.eof_token
    → t.skip_stack ≡ s.skip_stack
    → restore (save s) t ≡ s
unfolding restore save
restore-save s t hl he hs = ground arith

-- The input of a stream, which no operation changes.
abbrev SameInput : TokenStream → TokenStream → Type 0
SameInput s t = (t.lexemes ≡ s.lexemes) × (t.eof_token ≡ s.eof_token)

consume_raw-SameInput : (ts : TokenStream) → SameInput ts (consume_raw ts).1
unfolding consume_raw
consume_raw-SameInput ts = (ground arith, ground arith)

SameInput-trans : (s t u : TokenStream) → SameInput s t → SameInput t u → SameInput s u
SameInput-trans s t u (a, b) (c, d) = (c ∙ a, d ∙ b)

pop_skip_of-SameInput : (skip : SkipStack) (ts : TokenStream) → SameInput ts (pop_skip_of skip ts)
unfolding pop_skip_of
pop_skip_of-SameInput [] ts = (refl, refl)
pop_skip_of-SameInput (top ∷ rest) ts = (refl, refl)

peek-SameInput : (ts : TokenStream) (n : ℕ) → SameInput ts (peek ts n).1
unfolding peek fill_cache
peek-SameInput ts zero = (ground arith, ground arith)
peek-SameInput ts (suc n) = (ground arith, ground arith)

step-SameInput : (ts : TokenStream) (o : StreamOp) → SameInput ts (stream_step ts o)
unfolding consume push_skip_roles pop_skip_roles
step-SameInput ts (peeks n) = peek-SameInput ts n
step-SameInput ts consumes =
    let ts' = skip_forward ts in
    SameInput-trans ts ts' (consume_raw ts').1
      (subst (SameInput ts) (sym (skip_forward_lem ts)) (refl, refl)) (consume_raw-SameInput ts')
step-SameInput ts consumes_raw = consume_raw-SameInput ts
step-SameInput ts pops_roles = pop_skip_of-SameInput ts.skip_stack ts
step-SameInput ts (pushes_roles roles) = (refl, refl)

run-SameInput : (ts : TokenStream) (os : List StreamOp) → SameInput ts (stream_run ts os)
run-SameInput ts [] = (refl, refl)
run-SameInput ts (o ∷ os) =
    let t = stream_step ts o in
    SameInput-trans ts t (stream_run t os) (step-SameInput ts o) (run-SameInput t os)

-- Restoring a snapshot undoes any sequence of peeks, consumptions and changes of the skip roles behind
-- which the stack of skip roles is again that of the snapshot: the stream is the one that was saved,
-- with its cursor and its cache.
pub restore-run :
    (ts : TokenStream) (os : List StreamOp)
    → (stream_run ts os).skip_stack ≡ ts.skip_stack
    → restore (save ts) (stream_run ts os) ≡ ts
restore-run ts os h =
    let (lexemes, eof) = run-SameInput ts os in restore-save ts (stream_run ts os) lexemes eof h
