-- ===== src/Stream/Peek.antt =====
-- rule_context.go: what `Peek` shows, with and without a cached index.
use syntaxa.Prelude.{
  ℕ, zero, suc, ◌+◌, ◌≡◌, ap, ◌∙◌, true, drop, get_or-drop, arith, Bool-cases, inl, inr,
}
use syntaxa.Tokens.{Lexeme}
use syntaxa.Stream.{
  TokenStream, eof_lex, ahead, scan_visible, resolve_next_visible_raw, fill_cache, peek_raw, peek,
}
use syntaxa.Stream.Visible.{
  seen_at, IsCoherent, resolve_index-first, visible-drop, terminator-drop, scan_visible_lem,
}

-- The stream with the index of its next visible lexeme cached.
abbrev pub filled : TokenStream → TokenStream
filled ts = record ts {
  next_visible_raw_index = resolve_next_visible_raw ts;
  next_visible_cached = true;
}

fill_cache_lem : (ts : TokenStream) → IsCoherent ts → fill_cache ts ≡ filled ts
unfolding fill_cache
fill_cache_lem ts h = elim (Bool-cases ts.next_visible_cached) [
  | inl c ↦ ground (arith, h c)
  | inr c ↦ ground arith
]

first_seen : (ts : TokenStream) → peek_raw (filled ts) (resolve_next_visible_raw ts) ≡ seen_at ts 0
unfolding peek_raw resolve_next_visible_raw seen_at
first_seen ts =
    get_or-drop ts.lexemes ts.cursor (resolve_next_visible_raw ts) (eof_lex ts.eof_token)
    ∙ resolve_index-first ts.eof_token ts.skip_stack (ahead ts)

scan_seen :
    (ts : TokenStream) (n : ℕ)
    → scan_visible ts.eof_token ts.skip_stack 0 n (drop (resolve_next_visible_raw ts) (ahead ts))
      ≡ seen_at ts n
unfolding resolve_next_visible_raw seen_at
scan_seen ts n =
    let eof = ts.eof_token in
    let skip = ts.skip_stack in
    let ls = drop (resolve_next_visible_raw ts) (ahead ts) in
    ap (λ (m : ℕ). scan_visible eof skip 0 m ls) {x = n} {y = 0 + n} (omega arith)
    ∙ scan_visible_lem eof skip ls 0 n
    ∙ rw (visible-drop eof skip (ahead ts), terminator-drop eof skip (ahead ts))

-- From a stream whose cached index, if it has one, is the one that a fresh scan finds, peeking `n` ahead
-- returns the visible lexeme that many places ahead, or the end marker behind the last one; all it
-- changes is that the index is cached.
pub peek_lem : (ts : TokenStream) (n : ℕ) → IsCoherent ts → peek ts n ≡ (seen_at ts n, filled ts)
unfolding peek
peek_lem ts zero h =
    ap (λ (t : TokenStream). (peek_raw t t.next_visible_raw_index, t)) (fill_cache_lem ts h)
    ∙ ap (λ (l : Lexeme). (l, filled ts)) (first_seen ts)
peek_lem ts (suc n) h =
    ap
      (λ (t : TokenStream). (
        scan_visible t.eof_token t.skip_stack 0 (suc n) (drop t.next_visible_raw_index (ahead t)),
        t,
      ))
      (fill_cache_lem ts h)
    ∙ ap (λ (l : Lexeme). (l, filled ts)) (scan_seen ts (suc n))
