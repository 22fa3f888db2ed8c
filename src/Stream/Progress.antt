-- ===== src/Stream/Progress.antt =====
-- rule_context.go: how far a stream has come, and that consuming moves it on until its end.
use syntaxa.Prelude.{
  ℕ, zero, suc, ◌+◌, ◌-◌, ◌≤◌, ◌<◌, ◌≡◌, refl, sym, ◌⊎◌, inl, inr, List, [], ◌∷◌, length, get_or,
  arith, ltb, Bool-cases,
}
use mathlib.Core.Path.{subst}
use syntaxa.Stream.{
  TokenStream, eof_lex, peek_raw, fill_cache, peek, resolve_next_visible_raw, source_consume,
  consume_raw, consume,
}
use syntaxa.Stream.Consume.{forward, skip_forward_lem}

-- The raw lexemes that lie ahead.
abbrev pub remaining : TokenStream → ℕ
remaining ts = length ts.lexemes - ts.cursor

get_or_end {ℓ} : {A : Type ℓ} (xs : List A) (n : ℕ) (d : A) → length xs ≤ n → get_or xs n d ≡ d
get_or_end [] n d h = refl
get_or_end (x ∷ xs) zero d h = absurd (omega arith)
get_or_end (x ∷ xs) (suc n) d h = get_or_end xs n d (omega arith)

-- Behind the last lexeme only the end marker is seen, whatever index is cached.
pub peek_end : (ts : TokenStream) → remaining ts ≡ 0 → (peek ts 0).0 ≡ eof_lex ts.eof_token
unfolding peek peek_raw fill_cache
peek_end ts h = elim (Bool-cases ts.next_visible_cached) [
  | inl c ↦ rw c (
      get_or_end ts.lexemes (ts.cursor + ts.next_visible_raw_index) (eof_lex ts.eof_token)
        (omega arith))
  | inr c ↦ rw c (
      get_or_end ts.lexemes (ts.cursor + resolve_next_visible_raw ts) (eof_lex ts.eof_token)
        (omega arith))
]

-- Consuming leaves fewer lexemes ahead, if there are any.
pub consume-remaining :
    (ts : TokenStream)
    → (remaining (consume ts).1 < remaining ts)
      ⊎ (remaining ts ≡ 0) × (remaining (consume ts).1 ≡ 0)
unfolding consume consume_raw source_consume
consume-remaining ts =
    let k = resolve_next_visible_raw ts in
    let far = forward ts k in
    subst
      (λ (s : TokenStream).
        (remaining (consume_raw s).1 < remaining ts)
        ⊎ (remaining ts ≡ 0) × (remaining (consume_raw s).1 ≡ 0))
      (sym (skip_forward_lem ts))
      (elim (Bool-cases (ltb (ts.cursor + k) (length ts.lexemes))) [
        | inl c ↦ rw c (inl (ground arith))
        | inr c ↦ rw c (elim (Bool-cases (ltb ts.cursor (length ts.lexemes))) [
          | inl d ↦ inl (ground arith)
          | inr d ↦ inr (ground arith, ground arith)
        ])
      ])

pub peek-remaining : (ts : TokenStream) → remaining (peek ts 0).1 ≡ remaining ts
unfolding peek fill_cache
peek-remaining ts = ground arith

pub peek-eof : (ts : TokenStream) → (peek ts 0).1.eof_token ≡ ts.eof_token
unfolding peek fill_cache
peek-eof ts = ground arith

pub consume-eof : (ts : TokenStream) → (consume ts).1.eof_token ≡ ts.eof_token
unfolding consume consume_raw
consume-eof ts =
    subst (λ (s : TokenStream). (consume_raw s).1.eof_token ≡ ts.eof_token)
      (sym (skip_forward_lem ts)) (ground arith)
