-- ===== src/Stream/Tests.antt =====
-- Runs of the token stream.
use syntaxa.Prelude.{ℕ, ◌+◌, ◌≡◌, refl, false, List, [], ◌∷◌}
use syntaxa.Tokens.{Lexeme}
use syntaxa.Stream.{
  TokenStream, is_eof, peek, consume, consume_raw, push_skip_roles, pop_skip_roles, save, restore,
}
use syntaxa.Stream.Visible.{seen_at, IsCoherent}
use syntaxa.Stream.Peek.{filled, peek_lem}
use syntaxa.Stream.Coherence.{
  StreamOp, peeks, consumes, consumes_raw, pops_roles, pushes_roles, stream_run, run-IsCoherent,
  restore-run, consume-peek,
}

abbrev lexeme : (token role at : ℕ) → Lexeme
lexeme token role at = record {
  token = token;
  role = role;
  start = at;
  end = at + 1;
  token_number = at;
}

-- Tokens 3 and 4 between trivia of role 9, then the end.
abbrev stream : TokenStream
stream = record {
  lexemes = lexeme 1 9 0 ∷ lexeme 3 2 1 ∷ lexeme 1 9 2 ∷ lexeme 4 2 3 ∷ lexeme 0 0 4 ∷ [];
  cursor = 0;
  eof_token = 0;
  skip_stack = (9 ∷ []) ∷ [];
  next_visible_raw_index = 0;
  next_visible_cached = false;
}

stream-IsCoherent : IsCoherent stream
stream-IsCoherent h = cc h

peek_lem_example : peek stream 1 ≡ (seen_at stream 1, filled stream)
peek_lem_example = peek_lem stream 1 stream-IsCoherent

consume-peek_example :
    ((consume stream).0 ≡ (peek stream 0).0)
    × (is_eof 0 (peek stream 0).0 ≡ false
        → (n : ℕ) → (peek (consume stream).1 n).0 ≡ (peek stream (n + 1)).0)
consume-peek_example = consume-peek stream stream-IsCoherent

abbrev ops : List StreamOp
ops = peeks 1 ∷ consumes ∷ pushes_roles [] ∷ peeks 0 ∷ consumes_raw ∷ pops_roles ∷ peeks 2 ∷ []

run-IsCoherent_example : IsCoherent (stream_run stream ops)
run-IsCoherent_example = run-IsCoherent stream ops stream-IsCoherent

-- Behind the operations the roles are again those of the start, and the cursor has moved.
restore-run_example : restore (save stream) (stream_run stream ops) ≡ stream
unfolding peek consume consume_raw push_skip_roles pop_skip_roles
restore-run_example = restore-run stream ops refl
