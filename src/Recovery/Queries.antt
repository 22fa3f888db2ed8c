-- ===== src/Recovery/Queries.antt =====
-- rule_context.go, `recoveryCore`: what the queries answer.
use syntaxa.Prelude.{
  ℕ, ◌≡◌, refl, ap, ◌∙◌, true, false, ◌||◌, List, [], ◌∷◌, ◌++◌, contains, arith, ◌==◌, Bool-cases,
  ==_iff, inl, inr,
}
use syntaxa.Tokens.{TokenKind}
use syntaxa.Recovery.{
  RecoveryFrame, RecoveryCore, consume_of, no_consume_of, any_frame_contains,
  is_active_recovery_token, any_frame_consumes, is_active_consume_recovery_token, ownership_of,
  recovery_token_ownership, deduplicate_onto, collect_frames, collect_all_recovery_tokens,
}

pub contains-append :
    (xs ys : List ℕ) (t : ℕ) → contains (xs ++ ys) t ≡ (contains xs t || contains ys t)
contains-append [] ys t = refl
contains-append (x ∷ xs) ys t = ground (arith, contains-append xs ys t)

-- No token twice.
abbrev pub Distinct : List ℕ → Type 0
Distinct [] = Unit {0}
Distinct (x ∷ xs) = (contains xs x ≡ false) × Distinct xs

pub Distinct-snoc :
    (xs : List ℕ) (t : ℕ) → Distinct xs → contains xs t ≡ false → Distinct (xs ++ t ∷ [])
Distinct-snoc [] t d h = (refl, tt)
Distinct-snoc (x ∷ xs) t (p, d) h =
    (ground (arith, contains-append xs (t ∷ []) x), Distinct-snoc xs t d (ground arith))

deduplicate_onto-Distinct : (ts out : List ℕ) → Distinct out → Distinct (deduplicate_onto out ts)
unfolding deduplicate_onto
deduplicate_onto-Distinct [] out d = d
deduplicate_onto-Distinct (t ∷ ts) out d = elim (Bool-cases (contains out t)) [
  | inl e ↦ rw e (deduplicate_onto-Distinct ts out d)
  | inr e ↦ rw e (deduplicate_onto-Distinct ts (out ++ t ∷ []) (Distinct-snoc out t d e))
]

seen_before :
    (out ts : List ℕ) (x t : ℕ)
    → contains out x ≡ true
    → (contains out t || contains ts t) ≡ (contains out t || contains (x ∷ ts) t)
seen_before out ts x t e = elim (Bool-cases (x == t)) [
  | inl h ↦ ground (arith, ap (contains out) ((==_iff x t).0 h))
  | inr h ↦ ground arith
]

deduplicate_onto-contains :
    (ts out : List ℕ) (t : ℕ)
    → contains (deduplicate_onto out ts) t ≡ (contains out t || contains ts t)
unfolding deduplicate_onto
deduplicate_onto-contains [] out t = ground arith
deduplicate_onto-contains (x ∷ ts) out t = elim (Bool-cases (contains out x)) [
  | inl e ↦ rw e (deduplicate_onto-contains ts out t ∙ seen_before out ts x t e)
  | inr e ↦ rw e (
      deduplicate_onto-contains ts (out ++ x ∷ []) t
      ∙ ground (arith, contains-append out (x ∷ []) t))
]

contains-collect_frames :
    (r : List RecoveryFrame) (rc : RecoveryCore) (result : List TokenKind) (t : TokenKind)
    → contains (collect_frames r rc result) t ≡ (contains result t || any_frame_contains r rc t)
unfolding collect_frames any_frame_contains
contains-collect_frames [] rc result t = ground arith
contains-collect_frames (f ∷ r) rc result t =
    contains-collect_frames r rc ((result ++ consume_of rc f) ++ no_consume_of rc f) t
    ∙ ground (
      arith,
      contains-append (result ++ consume_of rc f) (no_consume_of rc f) t,
      contains-append result (consume_of rc f) t,
    )

-- The collected set holds each active recovery token exactly once, and no other token.
pub collect_all_lem :
    (rc : RecoveryCore)
    → Distinct (collect_all_recovery_tokens rc)
      × ((t : TokenKind)
          → contains (collect_all_recovery_tokens rc) t ≡ is_active_recovery_token rc t)
unfolding collect_all_recovery_tokens is_active_recovery_token
collect_all_lem rc = (
  deduplicate_onto-Distinct (collect_frames rc.stack rc rc.default_recovery) [] tt,
  λ t.
      deduplicate_onto-contains (collect_frames rc.stack rc rc.default_recovery) [] t
      ∙ contains-collect_frames rc.stack rc rc.default_recovery t
      ∙ ground arith,
)

-- Ownership agrees with activity: a token has an owner just if it is active.
ownership_of-active :
    (r : List RecoveryFrame) (rc : RecoveryCore) (t : TokenKind)
    → (ownership_of r rc t).0 ≡ (contains rc.default_recovery t || any_frame_contains r rc t)
unfolding ownership_of any_frame_contains
ownership_of-active [] rc t = ground arith
ownership_of-active (f ∷ r) rc t = ground (arith, ownership_of-active r rc t)

consumes-active :
    (r : List RecoveryFrame) (rc : RecoveryCore) (t : TokenKind)
    → any_frame_consumes r rc t ≡ true
    → any_frame_contains r rc t ≡ true
unfolding any_frame_consumes any_frame_contains
consumes-active [] rc t h = h
consumes-active (f ∷ r) rc t h = ground (arith, consumes-active r rc t)

-- A token without a no-consume owner that is active can be consumed.
ownership_of-consumes :
    (r : List RecoveryFrame) (rc : RecoveryCore) (t : TokenKind)
    → ownership_of r rc t ≡ (true, false)
    → (contains rc.default_recovery t || any_frame_consumes r rc t) ≡ true
unfolding ownership_of any_frame_consumes
ownership_of-consumes [] rc t h = ground arith
ownership_of-consumes (f ∷ r) rc t h = ground (arith, ownership_of-consumes r rc t)

-- The queries are consistent: a token has an owner just if it is active; one that may be consumed is
-- active; and an active one whose innermost owner does not protect it may be consumed.
pub queries_agree :
    (rc : RecoveryCore) (t : TokenKind)
    → ((recovery_token_ownership rc t).0 ≡ is_active_recovery_token rc t)
      × (is_active_consume_recovery_token rc t ≡ true → is_active_recovery_token rc t ≡ true)
      × (recovery_token_ownership rc t ≡ (true, false)
          → is_active_consume_recovery_token rc t ≡ true)
unfolding recovery_token_ownership is_active_recovery_token is_active_consume_recovery_token
queries_agree rc t = (
  ground (arith, ownership_of-active rc.stack rc t),
  λ h. ground (arith, consumes-active rc.stack rc t),
  λ h. ground (arith, ownership_of-consumes rc.stack rc t),
)
