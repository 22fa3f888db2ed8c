-- ===== src/Stream.antt =====
-- rule_context.go, the token stream and the skip roles, over the slice source of
-- `BuildExecRuleContextFromSlice`. The loops over raw indices are recursions on the lexemes behind
-- the cursor. Offsets are natural, so the panic on a negative offset has no counterpart, and the
-- optional call counters of parse_stream_stats.go are left out.
mod Tests
pub mod Visible
pub mod Peek
pub mod Consume
pub mod Coherence
pub mod Progress
use syntaxa.Prelude.{
  ℕ, zero, suc, ◌+◌, ◌≡◌, Bool, true, false, not, ◌&&◌, ◌||◌, Option, none, some, List, [], ◌∷◌,
  length, get_or, drop, contains, ltb, ◌==◌, if◌then◌else◌,
}
use syntaxa.Tokens.{TokenKind, TokenRole, Lexeme}

-- `skipCore.stack`, its top first; a set of roles is a list.
abbrev pub SkipStack : Type 0
SkipStack = List (List TokenRole)

pub record TokenStream : Type 0 where
  pub lexemes : List Lexeme
  pub cursor : ℕ
  pub eof_token : TokenKind
  pub skip_stack : SkipStack
  pub next_visible_raw_index : ℕ
  pub next_visible_cached : Bool

-- `Lexeme{Token: parser.eofToken}`: the other fields are zero.
abbrev pub eof_lex : TokenKind → Lexeme
eof_lex eof = record { token = eof; role = 0; start = 0; end = 0; token_number = 0 }

abbrev pub is_eof : TokenKind → Lexeme → Bool
is_eof eof l = l.token == eof

abbrev pub is_skipped : SkipStack → TokenRole → Bool
is_skipped [] role = false
is_skipped (top ∷ rest) role = contains top role

-- The test that ends the loops of `resolveNextVisibleRaw` and `skipForward`.
abbrev pub stops : TokenKind → SkipStack → Lexeme → Bool
stops eof skip l = is_eof eof l || not (is_skipped skip l.role)

-- What lies ahead of the cursor.
abbrev pub ahead : TokenStream → List Lexeme
ahead ts = drop ts.cursor ts.lexemes

unfoldable pub invalidate_peek_cache : TokenStream → TokenStream
invalidate_peek_cache ts = record ts { next_visible_cached = false; next_visible_raw_index = 0 }

unfoldable pub peek_raw : TokenStream → ℕ → Lexeme
peek_raw ts n = get_or ts.lexemes (ts.cursor + n) (eof_lex ts.eof_token)

-- `src.consume` of the slice source: at the end it returns the end marker and stays.
unfoldable pub source_consume : TokenStream → Lexeme × TokenStream
source_consume ts =
    if ltb ts.cursor (length ts.lexemes)
    then (get_or ts.lexemes ts.cursor (eof_lex ts.eof_token), record ts { cursor = ts.cursor + 1 })
    else (eof_lex ts.eof_token, ts)

unfoldable pub consume_raw : TokenStream → Lexeme × TokenStream
unfolding source_consume invalidate_peek_cache
consume_raw ts = let (l, ts') = source_consume ts in (l, invalidate_peek_cache ts')

unfoldable pub resolve_index : TokenKind → SkipStack → List Lexeme → ℕ
resolve_index eof skip [] = 0
resolve_index eof skip (l ∷ ls) = if stops eof skip l then 0 else suc (resolve_index eof skip ls)

unfoldable pub resolve_next_visible_raw : TokenStream → ℕ
unfolding resolve_index
resolve_next_visible_raw ts = resolve_index ts.eof_token ts.skip_stack (ahead ts)

-- The cache after `Peek`: an index that is cached is kept.
unfoldable pub fill_cache : TokenStream → TokenStream
unfolding resolve_next_visible_raw
fill_cache ts = if ts.next_visible_cached then ts else record ts {
  next_visible_raw_index = resolve_next_visible_raw ts;
  next_visible_cached = true;
}

-- The loop of `Peek`: `seen` visible lexemes were passed, and the one behind `n` of them is wanted.
unfoldable pub scan_visible : TokenKind → SkipStack → (seen n : ℕ) → List Lexeme → Lexeme
scan_visible eof skip seen n [] = eof_lex eof
scan_visible eof skip seen n (l ∷ ls) =
    if is_eof eof l || (not (is_skipped skip l.role) && (seen == n))
    then l
    else scan_visible eof skip (if is_skipped skip l.role then seen else seen + 1) n ls

unfoldable pub peek : TokenStream → ℕ → Lexeme × TokenStream
unfolding peek_raw fill_cache scan_visible
peek ts zero = let ts' = fill_cache ts in (peek_raw ts' ts'.next_visible_raw_index, ts')
peek ts (suc n) =
    let ts' = fill_cache ts in
    (
      scan_visible ts'.eof_token ts'.skip_stack 0 (suc n)
          (drop ts'.next_visible_raw_index (ahead ts')),
      ts',
    )

unfoldable pub skip_forward_on : List Lexeme → TokenStream → TokenStream
unfolding consume_raw
skip_forward_on [] ts = record ts { next_visible_raw_index = 0; next_visible_cached = true }
skip_forward_on (l ∷ ls) ts =
    let rest = skip_forward_on ls (consume_raw ts).1 in
    if stops ts.eof_token ts.skip_stack l
    then record ts { next_visible_raw_index = 0; next_visible_cached = true }
    else rest

unfoldable pub skip_forward : TokenStream → TokenStream
unfolding skip_forward_on
skip_forward ts = skip_forward_on (ahead ts) ts

unfoldable pub consume : TokenStream → Lexeme × TokenStream
unfolding skip_forward consume_raw
consume ts = consume_raw (skip_forward ts)

-- `onChange` drops the cached index.
unfoldable pub push_skip_roles : List TokenRole → TokenStream → TokenStream
unfolding invalidate_peek_cache
push_skip_roles roles ts = invalidate_peek_cache (record ts { skip_stack = roles ∷ ts.skip_stack })

pop_skip_of : SkipStack → TokenStream → TokenStream
unfolding invalidate_peek_cache
pop_skip_of [] ts = ts
pop_skip_of (top ∷ rest) ts = invalidate_peek_cache (record ts { skip_stack = rest })

unfoldable pub pop_skip_roles : TokenStream → TokenStream
unfolding pop_skip_of
pop_skip_roles ts = pop_skip_of ts.skip_stack ts

-- `ParserSnapshot` of the slice context.
pub record ParserSnapshot : Type 0 where
  pub token_index : ℕ
  pub next_visible_raw_index : ℕ
  pub next_visible_cached : Bool

unfoldable pub save : TokenStream → ParserSnapshot
save ts = record {
  token_index = ts.cursor;
  next_visible_raw_index = ts.next_visible_raw_index;
  next_visible_cached = ts.next_visible_cached;
}

unfoldable pub restore : ParserSnapshot → TokenStream → TokenStream
restore snap ts = record ts {
  cursor = snap.token_index;
  next_visible_raw_index = snap.next_visible_raw_index;
  next_visible_cached = snap.next_visible_cached;
}

-- `GetLastConsumedLexeme`: the lexeme before the cursor.
last_before : ℕ → TokenStream → Option Lexeme
last_before zero ts = none
last_before (suc c) ts = some (get_or ts.lexemes c (eof_lex ts.eof_token))

unfoldable pub get_last_consumed_lexeme : TokenStream → Option Lexeme
unfolding last_before
get_last_consumed_lexeme ts = last_before ts.cursor ts
