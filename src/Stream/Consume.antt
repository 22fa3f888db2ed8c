-- ===== src/Stream/Consume.antt =====
-- rule_context.go: what `Consume` returns, and what the stream shows behind it.
use syntaxa.Prelude.{
  ℕ, suc, ◌+◌, ◌≡◌, refl, sym, ap, ◌∙◌, Bool, true, false, List, [], ◌∷◌, get_or, drop, drop_cons,
  drop-drop, drop_nil, arith, Bool-cases, inl, inr,
}
use syntaxa.Tokens.{TokenKind, Lexeme}
use syntaxa.Stream.{
  SkipStack, TokenStream, eof_lex, is_eof, stops, ahead, resolve_index, resolve_next_visible_raw,
  consume_raw, skip_forward_on, skip_forward, consume,
}
use syntaxa.Stream.Visible.{visible, terminator, seen_at, visible-drop, terminator-drop}

-- The stream behind its next raw lexeme.
abbrev pub consumed : TokenStream → TokenStream
consumed ts = record ts {
  cursor = ts.cursor + 1;
  next_visible_raw_index = 0;
  next_visible_cached = false;
}

-- Consuming a raw lexeme that lies ahead returns it and moves on by one.
pub consume_raw_cons :
    (ts : TokenStream) (l : Lexeme) (ls : List Lexeme)
    → ahead ts ≡ l ∷ ls
    → consume_raw ts ≡ (l, consumed ts)
unfolding consume_raw
consume_raw_cons ts l ls h =
    let (p, q, r) = drop_cons ts.lexemes ts.cursor l ls (eof_lex ts.eof_token) h in ground arith

pub ahead_next :
    (ts : TokenStream) (l : Lexeme) (ls : List Lexeme) (i : ℕ) (b : Bool)
    → ahead ts ≡ l ∷ ls
    → ahead
        (record ts { cursor = ts.cursor + 1; next_visible_raw_index = i; next_visible_cached = b })
      ≡ ls
ahead_next ts l ls i b h =
    ap (λ c. drop c ts.lexemes) {y = suc ts.cursor} (omega arith)
    ∙ (drop_cons ts.lexemes ts.cursor l ls (eof_lex ts.eof_token) h).1

-- Where `skipForward` stops.
abbrev pub forward : TokenStream → ℕ → TokenStream
forward ts n = record ts {
  cursor = ts.cursor + n;
  next_visible_raw_index = 0;
  next_visible_cached = true;
}

skip_forward_on_lem :
    (ls : List Lexeme) (ts : TokenStream)
    → ahead ts ≡ ls
    → skip_forward_on ls ts ≡ forward ts (resolve_index ts.eof_token ts.skip_stack ls)
unfolding skip_forward_on resolve_index
skip_forward_on_lem [] ts h = ground arith
skip_forward_on_lem (l ∷ ls) ts h = elim (Bool-cases (stops ts.eof_token ts.skip_stack l)) [
  | inl e ↦ ground arith
  | inr e ↦
      let n = resolve_index ts.eof_token ts.skip_stack ls in
      let ts' = (consumed ts) in
      rw e (
        ap (λ (p : Lexeme × TokenStream). skip_forward_on ls p.1) (consume_raw_cons ts l ls h)
        ∙ skip_forward_on_lem ls ts' (ahead_next ts l ls 0 false h)
        ∙ ap
            (λ (c : ℕ). record ts {
              cursor = c;
              next_visible_raw_index = 0;
              next_visible_cached = true;
            })
            {x = ts.cursor + 1 + n} {y = ts.cursor + suc n} (omega arith))
]

pub skip_forward_lem :
    (ts : TokenStream) → skip_forward ts ≡ forward ts (resolve_next_visible_raw ts)
unfolding skip_forward resolve_next_visible_raw
skip_forward_lem ts = skip_forward_on_lem (ahead ts) ts refl

module _ (eof : TokenKind) (skip : SkipStack) where
  -- What stands at the resolved index ends the scan.
  resolve_index-stops :
      (ls : List Lexeme) (l : Lexeme) (r : List Lexeme)
      → drop (resolve_index eof skip ls) ls ≡ l ∷ r
      → stops eof skip l ≡ true
  unfolding resolve_index
  resolve_index-stops [] l r h = cc
  resolve_index-stops (x ∷ ls) l r h = elim (Bool-cases (stops eof skip x)) [
    | inl e ↦ ground arith
    | inr e ↦ ground (arith, resolve_index-stops ls l r)
  ]

-- What is seen of a list of lexemes.
abbrev seen_in : TokenStream → List Lexeme → ℕ → Lexeme
seen_in ts ls n = get_or (visible ts.eof_token ts.skip_stack ls) n (terminator ts.eof_token ls)

-- The lexemes from the next visible one on.
abbrev suffix : TokenStream → List Lexeme
suffix ts = drop (resolve_next_visible_raw ts) (ahead ts)

seen_suffix : (ts : TokenStream) (n : ℕ) → seen_at ts n ≡ seen_in ts (suffix ts) n
unfolding seen_at resolve_next_visible_raw
seen_suffix ts n = rw (
  visible-drop ts.eof_token ts.skip_stack (ahead ts),
  terminator-drop ts.eof_token ts.skip_stack (ahead ts),
)

ahead_forward : (ts : TokenStream) → ahead (skip_forward ts) ≡ suffix ts
ahead_forward ts =
    ap ahead (skip_forward_lem ts) ∙ drop-drop ts.lexemes ts.cursor (resolve_next_visible_raw ts)

seen_consumed :
    (t : TokenStream) (l : Lexeme) (ls : List Lexeme) (n : ℕ)
    → ahead t ≡ l ∷ ls
    → seen_at (consumed t) n ≡ seen_in t ls n
unfolding seen_at
seen_consumed t l ls n a = ap (λ ls. seen_in t ls n) (ahead_next t l ls 0 false a)

-- The two outcomes of `consume`.
abbrev Consumes : TokenStream → Lexeme × TokenStream → Type 0
Consumes ts r =
    (r.0 ≡ seen_at ts 0)
    × (is_eof ts.eof_token (seen_at ts 0) ≡ false → (n : ℕ) → seen_at r.1 n ≡ seen_at ts (n + 1))

consume_raw_nil : (ts : TokenStream) → ahead ts ≡ [] → (consume_raw ts).0 ≡ eof_lex ts.eof_token
unfolding consume_raw
consume_raw_nil ts h = ground (arith, drop_nil ts.lexemes ts.cursor h)

seen_stop :
    (ts : TokenStream) (l : Lexeme) (ls : List Lexeme)
    → stops ts.eof_token ts.skip_stack l ≡ true
    → seen_in ts (l ∷ ls) 0 ≡ l
unfolding visible terminator
seen_stop ts l ls h = ground arith

seen_next :
    (ts : TokenStream) (l : Lexeme) (ls : List Lexeme) (n : ℕ)
    → stops ts.eof_token ts.skip_stack l ≡ true
    → is_eof ts.eof_token l ≡ false
    → seen_in ts ls n ≡ seen_in ts (l ∷ ls) (suc n)
unfolding visible terminator
seen_next ts l ls n h e = ground arith

consume_from : (ts : TokenStream) (ls : List Lexeme) → suffix ts ≡ ls → Consumes ts (consume ts)
unfolding consume
consume_from ts [] h =
    let k = resolve_next_visible_raw ts in
    let e : (consume ts).0 ≡ eof_lex ts.eof_token =
      consume_raw_nil (skip_forward ts) (ahead_forward ts ∙ h)
      ∙ ap (λ (t : TokenStream). eof_lex t.eof_token) (skip_forward_lem ts) in
    let s : seen_at ts 0 ≡ eof_lex ts.eof_token =
      seen_suffix ts 0 ∙ ap (λ ls. seen_in ts ls 0) h ∙ (unfold visible terminator in refl) in
    (e ∙ sym s, λ f n. absurd (ground (arith, f, s)))
consume_from ts (l ∷ ls) h =
    let k = resolve_next_visible_raw ts in
    let t = forward ts k in
    let a : ahead t ≡ l ∷ ls = drop-drop ts.lexemes ts.cursor k ∙ h in
    let e : consume ts ≡ (l, consumed t) =
      ap consume_raw (skip_forward_lem ts) ∙ consume_raw_cons t l ls a in
    let st =
      resolve_index-stops ts.eof_token ts.skip_stack (ahead ts) l ls
        (unfold resolve_next_visible_raw in h) in
    let s : seen_at ts 0 ≡ l =
      seen_suffix ts 0 ∙ ap (λ ls. seen_in ts ls 0) h ∙ seen_stop ts l ls st in
    (
      ap (λ (r : Lexeme × TokenStream). r.0) e ∙ sym s,
      λ f n.
          ap (λ (r : Lexeme × TokenStream). seen_at r.1 n) e
          ∙ seen_consumed t l ls n a
          ∙ seen_next ts l ls n st (ap (is_eof ts.eof_token) (sym s) ∙ f)
          ∙ ap (λ ls. seen_in ts ls (suc n)) (sym h)
          ∙ sym (seen_suffix ts (suc n))
          ∙ ap (seen_at ts) (omega arith),
    )

-- The lexeme that `consume` returns is the next visible one; unless that ends the input, one visible
-- lexeme less lies ahead then, and each later one is a place nearer.
pub consume_lem :
    (ts : TokenStream)
    → ((consume ts).0 ≡ seen_at ts 0)
      × (is_eof ts.eof_token (seen_at ts 0) ≡ false
          → (n : ℕ) → seen_at (consume ts).1 n ≡ seen_at ts (n + 1))
consume_lem ts = consume_from ts (suffix ts) refl
