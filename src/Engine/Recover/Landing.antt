-- ===== src/Engine/Recover/Landing.antt =====
-- parser.go, `performRecovery`: where recovery lands, and its two phases.
use syntaxa.Prelude.{
  ◌+◌, ◌≡◌, refl, sym, ap, ◌∙◌, ◌⊎◌, inl, inr, Bool, true, false, Option, none, some, List, [], ◌∷◌,
  ◌++◌, length, All, arith, ◌==◌, Bool-cases,
}
use mathlib.Core.Path.{subst}
use syntaxa.Tokens.{TokenKind, Lexeme}
use syntaxa.Stream.{TokenStream, ahead}
use syntaxa.Stream.Consume.{consumed, consume_raw_cons, ahead_next}
use syntaxa.Recovery.{RecoveryCore}
use syntaxa.Engine.{ParserRule, is_sync_token}
use syntaxa.Engine.Recover.{
  Landed, is_sync, discard_over, perform_recovery_discard_phase, second_phase, perform_recovery,
}

module _ (eof : TokenKind) (rc : RecoveryCore) (rule : ParserRule) where
  abbrev pub PassedBy : Bool → Lexeme → Type 0
  PassedBy consume_only l = ((l.token == eof) ≡ false) × (is_sync consume_only rc l.token ≡ false)

  -- One round of the loop at a lexeme that is neither the end nor a landing point.
  discard_on :
      (b : Bool) (ts : TokenStream) (l : Lexeme) (ls : List Lexeme)
      → ahead ts ≡ l ∷ ls
      → PassedBy b l
      → discard_over (l ∷ ls) eof rc rule b ts ≡ discard_over ls eof rc rule b (consumed ts)
  unfolding discard_over
  discard_on b ts l ls h (p, q) =
      let c =
        ap (λ (r : Lexeme × TokenStream). discard_over ls eof rc rule b r.1)
          (consume_raw_cons ts l ls h) in
      rw (p, q) c

  discard_end :
      (b : Bool) (ts : TokenStream) (l : Lexeme) (ls : List Lexeme)
      → (l.token == eof) ≡ true
      → discard_over (l ∷ ls) eof rc rule b ts ≡ (none, ts)
  unfolding discard_over
  discard_end b ts l ls e = rw e

  discard_land :
      (b : Bool) (ts : TokenStream) (l : Lexeme) (ls : List Lexeme)
      → (l.token == eof) ≡ false
      → is_sync b rc l.token ≡ true
      → discard_over (l ∷ ls) eof rc rule b ts ≡ (some (is_sync_token rule l.token), ts)
  unfolding discard_over
  discard_land b ts l ls e s = rw (e, s)

  -- The lexemes that a phase passes by, and where it stops.
  pub record Stops (b : Bool) (ts : TokenStream) (r : Landed) : Type 0 where
    pub passed : List Lexeme
    pub left : List Lexeme
    pub split : ahead ts ≡ passed ++ left
    pub all_passed : All (PassedBy b) passed
    pub moved : r.1.cursor ≡ ts.cursor + length passed
    pub ahead_of : ahead r.1 ≡ left

  -- A phase ends at the end of the input, or on a landing point.
  abbrev pub Ends : Bool → Landed → List Lexeme → Type 0
  Ends b r [] = r.0 ≡ none
  Ends b r (l ∷ ls) =
      (((l.token == eof) ≡ true) × (r.0 ≡ none))
      ⊎ (((l.token == eof) ≡ false)
          × (is_sync b rc l.token ≡ true)
          × (r.0 ≡ some (is_sync_token rule l.token)))

  stops_here :
      (b : Bool) (ts : TokenStream) (ls : List Lexeme) (o : Option Bool)
      → ahead ts ≡ ls
      → Stops b ts (o, ts)
  stops_here b ts ls o h = record {
    passed = [];
    left = ls;
    split = h;
    all_passed = tt;
    moved = omega arith;
    ahead_of = h;
  }

  stops_later :
      (b : Bool) (ts : TokenStream) (l : Lexeme) (ls : List Lexeme) (r : Landed)
      → ahead ts ≡ l ∷ ls
      → PassedBy b l
      → Stops b (consumed ts) r
      → Stops b ts r
  stops_later b ts l ls r h p s = record {
    passed = l ∷ s.passed;
    left = s.left;
    split = h ∙ ap (◌∷◌ l) (sym (ahead_next ts l ls 0 false h) ∙ s.split);
    all_passed = (p, s.all_passed);
    moved = omega (arith, s.moved);
    ahead_of = s.ahead_of;
  }

  abbrev pub Lands : Bool → TokenStream → Landed → Type 0
  Lands b ts r = (s : Stops b ts r) × Ends b r s.left

  discard-Lands :
      (ls : List Lexeme) (b : Bool) (ts : TokenStream)
      → ahead ts ≡ ls
      → Lands b ts (discard_over ls eof rc rule b ts)
  unfolding discard_over stops_here stops_later
  discard-Lands [] b ts h = (stops_here b ts [] none h, refl)
  discard-Lands (l ∷ ls) b ts h = elim (Bool-cases (l.token == eof)) [
    | inl e ↦
        subst (Lands b ts) (sym (discard_end b ts l ls e))
          (stops_here b ts (l ∷ ls) none h, inl (e, refl))
    | inr e ↦ elim (Bool-cases (is_sync b rc l.token)) [
      | inl s ↦
          subst (Lands b ts) (sym (discard_land b ts l ls e s))
            (stops_here b ts (l ∷ ls) (some (is_sync_token rule l.token)) h, inr (e, s, refl))
      | inr s ↦
          let (st, en) = discard-Lands ls b (consumed ts) (ahead_next ts l ls 0 false h) in
          subst (Lands b ts) (sym (discard_on b ts l ls h (e, s)))
            (stops_later b ts l ls (discard_over ls eof rc rule b (consumed ts)) h (e, s) st, en)
    ]
  ]

  -- A phase at the end of the input does nothing.
  phase_at_end :
      (ls : List Lexeme) (b c : Bool) (ts : TokenStream)
      → ahead ts ≡ ls
      → Ends c (none, ts) ls
      → perform_recovery_discard_phase eof rc rule b ts ≡ (none, ts)
  unfolding perform_recovery_discard_phase
  phase_at_end [] b c ts h n =
      unfold discard_over in (ap (λ ls. discard_over ls eof rc rule b ts) h)
  phase_at_end (l ∷ ls) b c ts h (inl (e, _)) =
      ap (λ ls. discard_over ls eof rc rule b ts) h ∙ discard_end b ts l ls e
  phase_at_end (l ∷ ls) b c ts h (inr (_, _, o)) = cc

  second_after : (r : Landed) (ts : TokenStream) → Lands true ts r → second_phase r eof rc rule ≡ r
  unfolding second_phase
  second_after (some ours, t) ts l = refl
  second_after (none, t) ts (s, en) = phase_at_end s.left false true t s.ahead_of en

  -- The second phase of recovery, which would stop at any active token, never does anything: the first
  -- one has discarded the input up to its end where it fails. Recovery is its first phase alone, so a
  -- token that only no-consume scopes hold never ends it.
  pub perform_recovery-first_phase :
      (ts : TokenStream)
      → perform_recovery eof rc rule ts ≡ perform_recovery_discard_phase eof rc rule true ts
  unfolding perform_recovery perform_recovery_discard_phase
  perform_recovery-first_phase ts =
      second_after (discard_over (ahead ts) eof rc rule true ts) ts
        (discard-Lands (ahead ts) true ts refl)

  -- Recovery discards raw lexemes up to the first that an active scope may consume, or to the end of the
  -- input, and stops there: on the landing lexeme it reports whether that is one of the rule's own sync
  -- tokens, at the end it reports failure.
  pub perform_recovery-Lands : (ts : TokenStream) → Lands true ts (perform_recovery eof rc rule ts)
  unfolding perform_recovery_discard_phase
  perform_recovery-Lands ts =
      subst (Lands true ts) (sym (perform_recovery-first_phase ts))
        (discard-Lands (ahead ts) true ts refl)
