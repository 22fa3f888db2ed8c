-- ===== src/Recovery/Scopes.antt =====
-- rule_context.go, `pushRecovery` and `popRecovery`: the flat buffers and the stack of scopes.
use syntaxa.Prelude.{
  length-take_le, take-drop-append, take-drop-take, ℕ, take-length, ◌-◌, ◌≤◌, ◌≡◌, refl, ap, ◌∙◌,
  Bool, List, [], ◌∷◌, ◌++◌, map, length, take, arith, length-append, take-append, drop-append,
}
use mathlib.Core.Path.{subst}
use syntaxa.Tokens.{TokenKind}
use syntaxa.Recovery.{
  RecoveryFrame, RecoveryCore, slice, consume_of, no_consume_of, push_recovery, pop_recovery_of,
  pop_recovery,
}

-- What a rule contributes while it runs.
pub record Scope : Type 0 where
  pub consume : List TokenKind
  pub no_consume : List TokenKind
  pub barrier : Bool

abbrev pub scope_of : RecoveryCore → RecoveryFrame → Scope
scope_of rc f = record {
  consume = consume_of rc f;
  no_consume = no_consume_of rc f;
  barrier = f.barrier;
}

abbrev pub scopes_of : RecoveryCore → List Scope
scopes_of rc = map (scope_of rc) rc.stack

-- The frames cut the buffers into pieces that lie one behind the other.
abbrev pub Tiles : ℕ → ℕ → List RecoveryFrame → Type 0
Tiles m n [] = Unit {0}
Tiles m n (f ∷ r) =
    (f.consume_start ≤ f.consume_end)
    × (f.consume_end ≤ m)
    × (f.no_consume_start ≤ f.no_consume_end)
    × (f.no_consume_end ≤ n)
    × Tiles f.consume_start f.no_consume_start r

abbrev pub IsTiled : RecoveryCore → Type 0
IsTiled rc = Tiles (length rc.consume_flight) (length rc.no_consume_flight) rc.stack

Tiles-mono :
    {m n m' n' : ℕ} (r : List RecoveryFrame) → m ≤ m' → n ≤ n' → Tiles m n r → Tiles m' n' r
Tiles-mono [] p q h = tt
Tiles-mono (f ∷ r) p q (a, b, c, d, e) = (a, omega arith, c, omega arith, e)

slice_added {ℓ} :
    {A : Type ℓ} (xs ys : List A) → slice (xs ++ ys) (length xs) (length (xs ++ ys)) ≡ ys
slice_added xs ys =
    ap (λ l. take (length (xs ++ ys) - length xs) l) (drop-append xs ys)
    ∙ ap (λ n. take n ys) {x = length (xs ++ ys) - length xs} {y = length ys}
        (omega (arith, length-append xs ys))
    ∙ take-length ys

-- A buffer may grow, or be cut behind the pieces, without a change of the scopes.
scopes-grow :
    (rc : RecoveryCore) (c n : List TokenKind) (k l : ℕ) (r : List RecoveryFrame)
    → Tiles k l r
    → k ≤ length rc.consume_flight
    → l ≤ length rc.no_consume_flight
    → map
        (scope_of (record rc {
          consume_flight = rc.consume_flight ++ c;
          no_consume_flight = rc.no_consume_flight ++ n;
        }))
        r
      ≡ map (scope_of rc) r
scopes-grow rc c n k l [] h p q = refl
scopes-grow rc c n k l (f ∷ r) (a, b, d, e, t) p q = ground (
  arith,
  take-drop-append rc.consume_flight c f.consume_start (f.consume_end - f.consume_start),
  take-drop-append rc.no_consume_flight n f.no_consume_start
      (f.no_consume_end - f.no_consume_start),
  scopes-grow rc c n f.consume_start f.no_consume_start r t,
)

scopes-cut :
    (rc : RecoveryCore) (k l m n : ℕ) (r : List RecoveryFrame)
    → Tiles m n r
    → m ≤ k
    → n ≤ l
    → map
        (scope_of (record rc {
          consume_flight = take k rc.consume_flight;
          no_consume_flight = take l rc.no_consume_flight;
        }))
        r
      ≡ map (scope_of rc) r
scopes-cut rc k l m n [] h p q = refl
scopes-cut rc k l m n (f ∷ r) (a, b, d, e, t) p q = ground (
  arith,
  take-drop-take rc.consume_flight f.consume_start (f.consume_end - f.consume_start) k,
  take-drop-take rc.no_consume_flight f.no_consume_start (f.no_consume_end - f.no_consume_start) l,
  scopes-cut rc k l f.consume_start f.no_consume_start r t,
)

push_recovery-IsTiled :
    (b : Bool) (c n : List TokenKind) (rc : RecoveryCore)
    → IsTiled rc
    → IsTiled (push_recovery b c n rc)
unfolding push_recovery
push_recovery-IsTiled b c n rc h =
    let p = length-append rc.consume_flight c in
    let q = length-append rc.no_consume_flight n in
    (omega arith, omega arith, omega arith, omega arith, h)

scopes-push :
    (b : Bool) (c n : List TokenKind) (rc : RecoveryCore)
    → IsTiled rc
    → scopes_of (push_recovery b c n rc)
      ≡ record { consume = c; no_consume = n; barrier = b } ∷ scopes_of rc
unfolding push_recovery
scopes-push b c n rc h = ground (
  arith,
  slice_added rc.consume_flight c,
  slice_added rc.no_consume_flight n,
  scopes-grow rc c n (length rc.consume_flight) (length rc.no_consume_flight) rc.stack h,
)

abbrev pub rest_of : List Scope → List Scope
rest_of [] = []
rest_of (s ∷ r) = r

-- What a state and its scopes keep under `popRecovery`.
pop_of_lem :
    (stack : List RecoveryFrame) (rc : RecoveryCore)
    → rc.stack ≡ stack
    → IsTiled rc
    → IsTiled (pop_recovery_of stack rc)
      × (scopes_of (pop_recovery_of stack rc) ≡ rest_of (map (scope_of rc) stack))
unfolding pop_recovery_of
pop_of_lem [] rc e h = (h, ap (map (scope_of rc)) e)
pop_of_lem (f ∷ r) rc e h =
    let (a, b, c, d, t) =
      subst (Tiles (length rc.consume_flight) (length rc.no_consume_flight)) e h in
    (
      rw
          (
            length-take_le f.consume_start rc.consume_flight (omega arith),
            length-take_le f.no_consume_start rc.no_consume_flight (omega arith),
          )
          t,
      scopes-cut rc f.consume_start f.no_consume_start f.consume_start f.no_consume_start r t
          (omega arith) (omega arith),
    )

-- The moves of the recovery core.
pub data RecoveryMove : Type 0 where
  pushes : Bool → List TokenKind → List TokenKind → RecoveryMove
  pops : RecoveryMove

abbrev pub recovery_step : RecoveryCore → RecoveryMove → RecoveryCore
recovery_step rc (pushes b c n) = push_recovery b c n rc
recovery_step rc pops = pop_recovery rc

abbrev pub recovery_run : RecoveryCore → List RecoveryMove → RecoveryCore
recovery_run rc [] = rc
recovery_run rc (m ∷ ms) = recovery_run (recovery_step rc m) ms

-- The same moves on a plain stack of scopes.
abbrev pub scope_step : List Scope → RecoveryMove → List Scope
scope_step s (pushes b c n) = record { consume = c; no_consume = n; barrier = b } ∷ s
scope_step s pops = rest_of s

abbrev pub scope_run : List Scope → List RecoveryMove → List Scope
scope_run s [] = s
scope_run s (m ∷ ms) = scope_run (scope_step s m) ms

step_scopes :
    (rc : RecoveryCore) (m : RecoveryMove)
    → IsTiled rc
    → IsTiled (recovery_step rc m) × (scopes_of (recovery_step rc m) ≡ scope_step (scopes_of rc) m)
unfolding pop_recovery
step_scopes rc (pushes b c n) h = (push_recovery-IsTiled b c n rc h, scopes-push b c n rc h)
step_scopes rc pops h = pop_of_lem rc.stack rc refl h

-- The two flat buffers implement a stack of scopes: after any pushes and pops the frames still cut the
-- buffers into pieces within their bounds, and what they delimit are the scopes of the same moves.
pub run_scopes :
    (rc : RecoveryCore) (ms : List RecoveryMove)
    → IsTiled rc
    → IsTiled (recovery_run rc ms) × (scopes_of (recovery_run rc ms) ≡ scope_run (scopes_of rc) ms)
run_scopes rc [] h = (h, refl)
run_scopes rc (m ∷ ms) h =
    let (t, e) = step_scopes rc m h in
    let (t', e') = run_scopes (recovery_step rc m) ms t in (t', e' ∙ ap (λ s. scope_run s ms) e)

-- A rule's pop undoes its push, whatever the state.
pub pop-push :
    (b : Bool) (c n : List TokenKind) (rc : RecoveryCore)
    → pop_recovery (push_recovery b c n rc) ≡ rc
unfolding pop_recovery push_recovery
pop-push b c n rc =
    ground (arith, take-append rc.consume_flight c, take-append rc.no_consume_flight n)
