-- ===== src/Tokens.antt =====
-- lexeme.go: the lexemes that the parser consumes. Token kinds and roles are numbers, byte offsets
-- are natural numbers, and the raw bytes, the source text and the tab width, which only the
-- diagnostics print, are left out.
use syntaxa.Prelude.{ℕ}

abbrev pub TokenKind : Type 0
TokenKind = ℕ

abbrev pub TokenRole : Type 0
TokenRole = ℕ

pub record Lexeme : Type 0 where
  pub token : TokenKind
  pub role : TokenRole
  pub start : ℕ
  pub end : ℕ
  pub token_number : ℕ
