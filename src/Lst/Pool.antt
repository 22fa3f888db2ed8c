-- ===== src/Lst/Pool.antt =====
-- ast_editor.go: how nodes are created, given back and reused, and the editor's session.
pub mod Ledger
pub mod Returns
use syntaxa.Prelude.{
  ℕ, zero, suc, ◌+◌, ◌-◌, Bool, true, false, Option, none, some, List, [], ◌∷◌, ◌++◌, length, take,
  drop, ltb, if◌then◌else◌, Outcome, ok, panic, Panic, ◌>>=◌,
}
use syntaxa.Lst.Heap.{
  Pointer, NodeKind, Node, zero_node, Editor, update, write, increment, ensure_mutable,
  node_reset_for_pool,
}

unfoldable pub begin : Editor → Outcome Editor
begin e = if e.in_use then panic Panic.editor_reused else ok (record e { in_use = true })

unfoldable pub end_session : Editor → Editor
end_session e = record e {
  root = none;
  next_id = 0;
  frozen = false;
  tree_dirty = false;
  in_use = false;
}

unfoldable pub set_root : Option Pointer → Editor → Editor
set_root p e = record e { root = p; tree_dirty = true }

abbrev pub created_count : Editor → ℕ
created_count e = length e.created

abbrev pub node_grow_batch : ℕ
node_grow_batch = 32

abbrev at_least : ℕ → ℕ → ℕ
at_least needed n = if ltb n needed then needed else n

-- `targetCap` for an empty free list, where `needed` is 1.
target_cap : Option (ℕ → ℕ → ℕ) → ℕ → ℕ
target_cap none cap = at_least 1 (0 + node_grow_batch)
target_cap (some grow) cap = at_least 1 (grow cap 1)

-- `n` new nodes from pointer `p` on, the last one first.
unfoldable pub new_pointers : ℕ → Pointer → List Pointer
new_pointers zero p = []
new_pointers (suc n) p = (p + n) ∷ new_pointers n p

-- The free list is not empty when it is popped; the first clause closes the match.
pop_free : List Pointer → Editor → Pointer × Editor
pop_free [] e = (e.next_pointer, e)
pop_free (p ∷ free) e = (p, record e { node_free = free })

grow_free : Editor → Editor
unfolding target_cap new_pointers
grow_free e =
    let batch = target_cap e.node_grow (e.cap_node_free e.next_pointer) in
    record e {
      node_free = new_pointers batch e.next_pointer;
      next_pointer = e.next_pointer + batch;
    }

node_acquire_from : List Pointer → Editor → Pointer × Editor
unfolding pop_free grow_free
node_acquire_from [] e = let e' = grow_free e in pop_free e'.node_free e'
node_acquire_from (p ∷ free) e = pop_free (p ∷ free) e

unfoldable pub node_acquire : Editor → Pointer × Editor
unfolding node_acquire_from
node_acquire e = node_acquire_from e.node_free e

-- The node that `NewNode` leaves behind the pointer.
abbrev pub fresh_node : NodeKind → ℕ → Node → Node
fresh_node kind id n = record (node_reset_for_pool n) { id = id; kind = kind }

unfoldable pub new_node : NodeKind → Editor → Outcome (Pointer × Editor)
unfolding ensure_mutable node_acquire node_reset_for_pool
new_node kind e = do
  _ ← ensure_mutable e
  let (p, e') = node_acquire e
  let id = increment e'.next_id
  ok (
    p,
    record e' {
      heap = update e'.heap p (fresh_node kind id (e'.heap p));
      next_id = id;
      created = e'.created ++ p ∷ [];
    },
  )

-- The loop of `TruncateCreated`, over the nodes that are given back in order.
pub release_nodes : List Pointer → Editor → Editor
unfolding node_reset_for_pool
release_nodes [] e = e
release_nodes (p ∷ ps) e = release_nodes ps (record e {
  heap = update e.heap p (node_reset_for_pool (e.heap p));
  node_free = p ∷ e.node_free;
})

unfoldable pub truncate_created : ℕ → Editor → Outcome Editor
unfolding ensure_mutable release_nodes
truncate_created after e = do
  _ ← ensure_mutable e
  if ltb (length e.created) after
      then panic Panic.truncate_out_of_range
      else ok (record (release_nodes (drop after e.created) e) { created = take after e.created })

-- A node that is in no list of the editor.
unfoldable pub new_transient_node : NodeKind → Editor → Outcome (Pointer × Editor)
unfolding ensure_mutable
new_transient_node kind e = do
  _ ← ensure_mutable e
  ok (
    e.next_pointer,
    record e {
      heap = update e.heap e.next_pointer (zero_node kind);
      next_pointer = e.next_pointer + 1;
    },
  )
