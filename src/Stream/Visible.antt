-- ===== src/Stream/Visible.antt =====
-- rule_context.go, `tokenStream`: the stream as the list of its visible lexemes, with what ends it.
use syntaxa.Prelude.{
  ℕ, zero, suc, ◌+◌, ◌≡◌, refl, true, List, [], ◌∷◌, get_or, drop, arith, if◌then◌else◌,
}
use syntaxa.Tokens.{TokenKind, Lexeme}
use syntaxa.Stream.{
  SkipStack, TokenStream, eof_lex, is_eof, is_skipped, ahead, resolve_index, scan_visible,
  resolve_next_visible_raw,
}

-- The lexemes that are not skipped, up to the first end marker.
unfoldable pub visible : TokenKind → SkipStack → List Lexeme → List Lexeme
visible eof skip [] = []
visible eof skip (l ∷ ls) =
    if is_eof eof l
    then []
    else if is_skipped skip l.role
    then visible eof skip ls
    else l ∷ visible eof skip ls

-- The first end marker, or the one that the source makes up.
unfoldable pub terminator : TokenKind → List Lexeme → Lexeme
terminator eof [] = eof_lex eof
terminator eof (l ∷ ls) = if is_eof eof l then l else terminator eof ls

-- What a caller sees `n` visible lexemes ahead.
unfoldable pub seen_at : TokenStream → ℕ → Lexeme
unfolding visible terminator
seen_at ts n =
    get_or (visible ts.eof_token ts.skip_stack (ahead ts)) n (terminator ts.eof_token (ahead ts))

-- A cached index is the one that a scan would find.
abbrev pub IsCoherent : TokenStream → Type 0
IsCoherent ts =
    ts.next_visible_cached ≡ true → ts.next_visible_raw_index ≡ resolve_next_visible_raw ts

module _ (eof : TokenKind) (skip : SkipStack) where
  pub resolve_index-first :
      (ls : List Lexeme)
      → get_or ls (resolve_index eof skip ls) (eof_lex eof)
        ≡ get_or (visible eof skip ls) 0 (terminator eof ls)
  unfolding resolve_index visible terminator
  resolve_index-first [] = refl
  resolve_index-first (l ∷ ls) = ground (arith, resolve_index-first ls)

  -- Dropping what is skipped changes nothing that is visible.
  pub visible-drop :
      (ls : List Lexeme)
      → visible eof skip (drop (resolve_index eof skip ls) ls) ≡ visible eof skip ls
  unfolding resolve_index visible
  visible-drop [] = refl
  visible-drop (l ∷ ls) = ground (arith, visible-drop ls)

  pub terminator-drop :
      (ls : List Lexeme) → terminator eof (drop (resolve_index eof skip ls) ls) ≡ terminator eof ls
  unfolding resolve_index terminator
  terminator-drop [] = refl
  terminator-drop (l ∷ ls) = ground (arith, terminator-drop ls)

  pub scan_visible_lem :
      (ls : List Lexeme) (seen n : ℕ)
      → scan_visible eof skip seen (seen + n) ls
        ≡ get_or (visible eof skip ls) n (terminator eof ls)
  unfolding scan_visible visible terminator
  scan_visible_lem [] seen n = refl
  scan_visible_lem (l ∷ ls) seen zero = ground (arith, scan_visible_lem ls seen zero)
  scan_visible_lem (l ∷ ls) seen (suc n) =
      ground (arith, scan_visible_lem ls seen (suc n), scan_visible_lem ls (seen + 1) n)
