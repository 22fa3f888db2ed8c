-- ===== src/Lst/Flatten.antt =====
-- ast_node.go, `FlattenByKind`: the nodes below a chain of nodes of one kind, by a stack.
mod Tests
pub mod Reference
use syntaxa.Prelude.{
  ℕ, zero, suc, Bool, true, false, not, ◌||◌, Option, none, some, List, [], ◌∷◌, ◌++◌, String, map,
  ◌==◌, if◌then◌else◌,
}
use syntaxa.Lst.Heap.{Pointer, NodeKind, Node}

abbrev pub is_empty {ℓ} : {A : Type ℓ} → List A → Bool
is_empty [] = true
is_empty (x ∷ xs) = false

-- `directChildren`: the children, then what the slots hold.
unfoldable pub direct_children : Node → List Pointer
direct_children n = n.children ++ map (λ s. s.1) n.slots

-- Whether a node is put out as it is.
unfoldable pub is_kept : NodeKind → Node → Bool
unfolding direct_children
is_kept kind n = not (n.kind == kind) || is_empty (direct_children n)

-- What a node puts on the stack, its first child on top.
unfoldable pub pushed : NodeKind → Node → List Pointer
unfolding direct_children is_kept
pushed kind n = if is_kept kind n then [] else direct_children n

unfoldable pub put_out : NodeKind → Pointer → Node → List Pointer
unfolding is_kept
put_out kind p n = if is_kept kind n then p ∷ [] else []

-- The loop, on fuel; none where the fuel runs out.
unfoldable pub flatten_loop :
    (Pointer → Node) → NodeKind → ℕ → (stack out : List Pointer) → Option (List Pointer)
unfolding pushed put_out
flatten_loop heap kind zero stack out = none
flatten_loop heap kind (suc fuel) [] out = some out
flatten_loop heap kind (suc fuel) (cur ∷ stack) out =
    flatten_loop heap kind fuel (pushed kind (heap cur) ++ stack)
      (out ++ put_out kind cur (heap cur))

unfoldable pub flatten_by_kind : (Pointer → Node) → NodeKind → ℕ → Pointer → Option (List Pointer)
unfolding flatten_loop
flatten_by_kind heap kind fuel n = flatten_loop heap kind fuel (n ∷ []) []
