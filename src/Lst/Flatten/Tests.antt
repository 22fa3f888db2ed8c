-- ===== src/Lst/Flatten/Tests.antt =====
-- A run of the flattening: node 0 of kind 4 has the child 1 and, in a slot, node 2; node 1 of kind 4 has
-- the child 3 and nothing else.
use syntaxa.Prelude.{ℕ, zero, suc, ◌<◌, ◌≡◌, refl, some, List, [], ◌∷◌}
use syntaxa.Lst.Heap.{Pointer, Node, zero_node}
use syntaxa.Lst.Flatten
use syntaxa.Lst.Flatten.{flatten_by_kind}
use syntaxa.Lst.Flatten.Reference.{Flattens, IsFinite, AreFinite, flatten_by_kind-Flattens}

abbrev heap : Pointer → Node
heap zero = record (zero_node 4) { children = 1 ∷ []; slots = ("right", 2) ∷ [] }
heap (suc zero) = record (zero_node 4) { children = 3 ∷ [] }
heap (suc (suc p)) = zero_node 5

flattened : flatten_by_kind heap 4 5 0 ≡ some (3 ∷ 2 ∷ [])
unfolding flatten_by_kind Flatten.is_kept
flattened = refl

leaf : (p : Pointer) → IsFinite heap (suc (suc p))
leaf p = IsFinite.finite (suc (suc p)) AreFinite.nothing

tree : IsFinite heap 0
tree = IsFinite.finite 0 (
    AreFinite.each 1 (2 ∷ []) (IsFinite.finite 1 (AreFinite.each 3 [] (leaf 1) AreFinite.nothing))
      (AreFinite.each 2 [] (leaf 0) AreFinite.nothing))

flatten_by_kind_example :
    (xs : List Pointer) × (n : ℕ) × Flattens heap 4 0 xs n
    × ((k : ℕ) → n < k → flatten_by_kind heap 4 k 0 ≡ some xs)
flatten_by_kind_example = flatten_by_kind-Flattens heap 4 0 tree
