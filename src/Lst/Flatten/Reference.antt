-- ===== src/Lst/Flatten/Reference.antt =====
-- ast_node.go, `FlattenByKind`: the loop against the recursive description in its comment.
use syntaxa.Prelude.{
  ℕ, suc, ◌+◌, ◌-◌, ◌<◌, ◌≡◌, ◌≢◌, ◌⊎◌, ◌∙◌, refl, Bool, true, false, not, ◌||◌, some, List, [],
  ◌∷◌, ◌++◌, String, map, ◌==◌, ==_iff, ap, sym, arith, append_assoc, append-nil, if◌then◌else◌,
  Bool-cases, inl, inr,
}
use syntaxa.Lst.Heap.{Pointer, NodeKind, Node}
use syntaxa.Lst.Flatten.{
  is_empty, direct_children, is_kept, pushed, put_out, flatten_loop, flatten_by_kind,
}

-- What hangs below a node: its children, then what its slots hold.
abbrev pub below : Node → List Pointer
below n = n.children ++ map (λ (s : String × Pointer). s.1) n.slots

-- The flattening of a node and of several, with the number of nodes that are visited: a node of another
-- kind stands for itself, and so does one without children and slots.
mutual
  pub data Flattens (heap : Pointer → Node) (kind : NodeKind)
      : Pointer → List Pointer → ℕ → Type 0 where
    other : (p : Pointer) → (heap p).kind ≢ kind → Flattens heap kind p (p ∷ []) 1
    bare :
        (p : Pointer)
        → (heap p).kind ≡ kind
        → (heap p).children ≡ []
        → (heap p).slots ≡ []
        → Flattens heap kind p (p ∷ []) 1
    opened :
        (p : Pointer) (xs : List Pointer) (n : ℕ)
        → (heap p).kind ≡ kind
        → below (heap p) ≢ []
        → FlattenAll heap kind (below (heap p)) xs n
        → Flattens heap kind p xs (suc n)

  pub data FlattenAll (heap : Pointer → Node) (kind : NodeKind)
      : List Pointer → List Pointer → ℕ → Type 0 where
    no_more : FlattenAll heap kind [] [] 0
    more :
        (p : Pointer) (ps xs ys : List Pointer) (m n : ℕ)
        → Flattens heap kind p xs m
        → FlattenAll heap kind ps ys n
        → FlattenAll heap kind (p ∷ ps) (xs ++ ys) (m + n)

-- A node without an infinite path below it.
mutual
  pub data IsFinite (heap : Pointer → Node) : Pointer → Type 0 where
    finite : (p : Pointer) → AreFinite heap (below (heap p)) → IsFinite heap p

  pub data AreFinite (heap : Pointer → Node) : List Pointer → Type 0 where
    nothing : AreFinite heap []
    each :
        (p : Pointer) (ps : List Pointer)
        → IsFinite heap p
        → AreFinite heap ps
        → AreFinite heap (p ∷ ps)

below-cases : (n : Node) → ((n.children ≡ []) × (n.slots ≡ [])) ⊎ (below n ≢ [])
below-cases n = of_lists n.children n.slots
  where
    of_lists :
        (cs : List Pointer) (ss : List (String × Pointer))
        → ((cs ≡ []) × (ss ≡ [])) ⊎ (cs ++ map (λ (s : String × Pointer). s.1) ss ≢ [])
    of_lists [] [] = inl (refl, refl)
    of_lists [] (s ∷ ss) = inr (λ e. cc e)
    of_lists (c ∷ cs) ss = inr (λ e. cc e)

Bool-or_true : (b : Bool) → (b || true) ≡ true
Bool-or_true true = refl
Bool-or_true false = refl

module _ (heap : Pointer → Node) (kind : NodeKind) where
  mutual
    finite-Flattens :
        (p : Pointer) → IsFinite heap p → (xs : List Pointer) × (n : ℕ) × Flattens heap kind p xs n
    finite-Flattens p (IsFinite.finite _ f) = elim (Bool-cases ((heap p).kind == kind)) [
      | inr k ↦ (p ∷ [], 1, Flattens.other p (λ e. ground arith))
      | inl k ↦
          let same : (heap p).kind ≡ kind = (==_iff (heap p).kind kind).0 k in
          elim (below-cases (heap p)) [
            | inl (c, s) ↦ (p ∷ [], 1, Flattens.bare p same c s)
            | inr some_below ↦
                let (xs, n, all) = finite-FlattenAll (below (heap p)) f in
                (xs, suc n, Flattens.opened p xs n same some_below all)
          ]
    ]

    finite-FlattenAll :
        (ps : List Pointer)
        → AreFinite heap ps
        → (xs : List Pointer) × (n : ℕ) × FlattenAll heap kind ps xs n
    finite-FlattenAll _ AreFinite.nothing = ([], 0, FlattenAll.no_more)
    finite-FlattenAll _ (AreFinite.each p ps f fs) =
        let (xs, m, one) = finite-Flattens p f in
        let (ys, n, all) = finite-FlattenAll ps fs in
        (xs ++ ys, m + n, FlattenAll.more p ps xs ys m n one all)

  -- What the code does at a node of each of the three sorts.
  at_kept :
      (p : Pointer)
      → is_kept kind (heap p) ≡ true
      → (pushed kind (heap p) ≡ []) × (put_out kind p (heap p) ≡ p ∷ [])
  unfolding pushed put_out
  at_kept p h =
      (ap (λ b. if b then [] else direct_children (heap p)) h, ap (λ b. if b then p ∷ [] else []) h)

  at_other :
      (p : Pointer)
      → (heap p).kind ≢ kind
      → (pushed kind (heap p) ≡ []) × (put_out kind p (heap p) ≡ p ∷ [])
  unfolding is_kept
  at_other p d = at_kept p (ground arith)

  at_bare :
      (p : Pointer)
      → (heap p).children ≡ []
      → (heap p).slots ≡ []
      → (pushed kind (heap p) ≡ []) × (put_out kind p (heap p) ≡ p ∷ [])
  unfolding is_kept direct_children
  at_bare p c s = at_kept p (rw (c, s) (Bool-or_true (not ((heap p).kind == kind))))

  at_opened :
      (p : Pointer)
      → (heap p).kind ≡ kind
      → below (heap p) ≢ []
      → (pushed kind (heap p) ≡ below (heap p)) × (put_out kind p (heap p) ≡ [])
  unfolding pushed put_out is_kept direct_children
  at_opened p k b =
      (ap (λ b. if b then [] else below (heap p)) unkept, ap (λ b. if b then p ∷ [] else []) unkept)
    where
      filled : (xs : List Pointer) → xs ≢ [] → is_empty xs ≡ false
      filled [] h = absurd (h refl)
      filled (x ∷ xs) h = refl

      unkept : is_kept kind (heap p) ≡ false
      unkept = rw (filled (below (heap p)) b, (==_iff (heap p).kind kind).1 k) refl

  loop_step :
      (p : Pointer) (ps xs stack out : List Pointer) (n k : ℕ)
      → (pushed kind (heap p) ≡ ps) × (put_out kind p (heap p) ≡ xs)
      → flatten_loop heap kind (suc n + k) (p ∷ stack) out
        ≡ flatten_loop heap kind (n + k) (ps ++ stack) (out ++ xs)
  unfolding flatten_loop
  loop_step p ps xs stack out n k (a, b) =
      ap (λ i. flatten_loop heap kind i (p ∷ stack) out) {x = suc n + k} {y = suc (n + k)}
        (omega arith)
      ∙ ap (λ qs. flatten_loop heap kind (n + k) (qs ++ stack) (out ++ put_out kind p (heap p))) a
      ∙ ap (λ o. flatten_loop heap kind (n + k) (ps ++ stack) (out ++ o)) b

  -- A node that stands for itself takes one round.
  loop_once :
      (p : Pointer) (stack out : List Pointer) (k : ℕ)
      → (pushed kind (heap p) ≡ []) × (put_out kind p (heap p) ≡ p ∷ [])
      → flatten_loop heap kind (1 + k) (p ∷ stack) out
        ≡ flatten_loop heap kind k stack (out ++ p ∷ [])
  loop_once p stack out k h =
      loop_step p [] (p ∷ []) stack out 0 k h
      ∙ ap (λ i. flatten_loop heap kind i stack (out ++ p ∷ [])) {x = 0 + k} {y = k} (omega arith)

  mutual
    loop-Flattens :
        (p : Pointer) (xs : List Pointer) (n : ℕ) (stack out : List Pointer) (k : ℕ)
        → Flattens heap kind p xs n
        → flatten_loop heap kind (n + k) (p ∷ stack) out
          ≡ flatten_loop heap kind k stack (out ++ xs)
    loop-Flattens p _ _ stack out k (Flattens.other _ d) = loop_once p stack out k (at_other p d)
    loop-Flattens p _ _ stack out k (Flattens.bare _ same c s) =
        loop_once p stack out k (at_bare p c s)
    loop-Flattens p xs _ stack out k (Flattens.opened _ _ n same b all) =
        loop_step p (below (heap p)) [] stack out n k (at_opened p same b)
        ∙ ap (λ o. flatten_loop heap kind (n + k) (below (heap p) ++ stack) o) (append-nil out)
        ∙ loop-FlattenAll (below (heap p)) xs n stack out k all

    loop-FlattenAll :
        (ps xs : List Pointer) (n : ℕ) (stack out : List Pointer) (k : ℕ)
        → FlattenAll heap kind ps xs n
        → flatten_loop heap kind (n + k) (ps ++ stack) out
          ≡ flatten_loop heap kind k stack (out ++ xs)
    loop-FlattenAll _ _ _ stack out k FlattenAll.no_more =
        ap (λ i. flatten_loop heap kind i stack out) {x = 0 + k} {y = k} (omega arith)
        ∙ ap (flatten_loop heap kind k stack) (sym (append-nil out))
    loop-FlattenAll _ _ _ stack out k (FlattenAll.more p ps xs ys m n one all) =
        ap (λ i. flatten_loop heap kind i (p ∷ ps ++ stack) out) {x = m + n + k} {y = m + (n + k)}
          (omega arith)
        ∙ loop-Flattens p xs m (ps ++ stack) out (n + k) one
        ∙ loop-FlattenAll ps ys n stack (out ++ xs) k all
        ∙ ap (flatten_loop heap kind k stack) (append_assoc out xs ys)

  -- On a tree without infinite paths the loop ends, with the recursive flattening of the node: the node
  -- itself if it is of another kind or has neither children nor slots, otherwise what the flattenings of
  -- its children and slots give one after the other. One round for each node visited, and one, is enough.
  pub flatten_by_kind-Flattens :
      (p : Pointer)
      → IsFinite heap p
      → (xs : List Pointer) × (n : ℕ) × Flattens heap kind p xs n
        × ((k : ℕ) → n < k → flatten_by_kind heap kind k p ≡ some xs)
  unfolding flatten_by_kind flatten_loop
  flatten_by_kind-Flattens p f =
      let (xs, n, one) = finite-Flattens p f in
      (
        xs,
        n,
        one,
        λ k h.
            let exact : k ≡ n + suc (k - suc n) = omega arith in
            ap (λ i. flatten_loop heap kind i (p ∷ []) []) exact
            ∙ loop-Flattens p xs n [] [] (suc (k - suc n)) one,
      )
