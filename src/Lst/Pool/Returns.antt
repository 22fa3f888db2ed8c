-- ===== src/Lst/Pool/Returns.antt =====
-- ast_editor.go: what the operations on the pool return, where they do.
use syntaxa.Prelude.{
  ℕ, ◌≡◌, refl, ap, ◌∙◌, false, List, [], ◌∷◌, ◌++◌, length, take, drop, arith, ltb, ok,
  length-append, take-append,
}
use syntaxa.Lst.Heap.{Pointer, NodeKind, Editor}
use syntaxa.Lst.Pool.{
  pop_free, grow_free, node_acquire_from, node_acquire, new_node, release_nodes, truncate_created,
}
use syntaxa.Lst.Pool.Ledger.{release_rest}

-- A truncation that returns keeps the older nodes, on an editor that is as mutable as before.
pub truncate_ok :
    (after : ℕ) (e e' : Editor)
    → truncate_created after e ≡ ok e'
    → (e'.created ≡ take after e.created) × (e'.frozen ≡ e.frozen)
unfolding truncate_created
truncate_ok after e e' h =
    let f = (release_rest (drop after e.created) e).2 in (ground arith, ground arith)

pop_free_rest :
    (free : List Pointer) (e : Editor)
    → ((pop_free free e).1.created ≡ e.created) × ((pop_free free e).1.frozen ≡ e.frozen)
unfolding pop_free
pop_free_rest [] e = (refl, refl)
pop_free_rest (p ∷ free) e = (refl, refl)

node_acquire_from_rest :
    (free : List Pointer) (e : Editor)
    → ((node_acquire_from free e).1.created ≡ e.created)
      × ((node_acquire_from free e).1.frozen ≡ e.frozen)
unfolding node_acquire_from grow_free
node_acquire_from_rest [] e = pop_free_rest (grow_free e).node_free (grow_free e)
node_acquire_from_rest (p ∷ free) e = pop_free_rest (p ∷ free) e

-- A creation that returns puts its node at the ledger's end.
pub new_node_ok :
    (kind : NodeKind) (e : Editor) (p : Pointer) (e' : Editor)
    → new_node kind e ≡ ok (p, e')
    → (e'.created ≡ e.created ++ p ∷ []) × (e'.frozen ≡ e.frozen)
unfolding new_node node_acquire
new_node_ok kind e p e' h =
    let (c, f) = node_acquire_from_rest e.node_free e in (ground arith, ground arith)

-- A ledger that has only grown is cut back to where it was.
pub truncate_back :
    (xs ys : List Pointer) (e : Editor)
    → e.created ≡ xs ++ ys
    → e.frozen ≡ false
    → (e' : Editor) × (truncate_created (length xs) e ≡ ok e')
      × (e'.created ≡ xs)
      × (e'.frozen ≡ false)
unfolding truncate_created
truncate_back xs ys e h f =
    let within : ltb (length e.created) (length xs) ≡ false =
      ground (arith, length-append xs ys, ap length h) in
    (
      record (release_nodes (drop (length xs) e.created) e) {
        created = take (length xs) e.created;
      },
      rw (f, within),
      ap (take (length xs)) h ∙ take-append xs ys,
      (release_rest (drop (length xs) e.created) e).2 ∙ f,
    )
