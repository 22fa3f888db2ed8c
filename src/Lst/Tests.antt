-- ===== src/Lst/Tests.antt =====
-- Runs of the tree editor.
use syntaxa.Prelude.{
  zero, suc, ◌+◌, ◌≡◌, ◌≢◌, ◌<◌, refl, true, false, none, some, [], ◌∷◌, take, drop, ok, panic,
  Panic, length, arith, ◌⊎◌,
}
use syntaxa.Lst.Heap.{
  Pointer, NodeKind, Node, zero_node, Editor, increment, write, ensure_mutable, mark_dirty_pair,
  mark_dirty_node,
}
use syntaxa.Lst.Pool.{end_session, new_node, truncate_created}
use syntaxa.Lst.Pool.Ledger.{IsOwned, count, new_node_lem, truncate_lem}
use syntaxa.Lst.Structure.{attach_child, detach, link_child, is_above}
use syntaxa.Lst.Structure.Links.{links, detach-attach_child}
use syntaxa.Lst.Spans.{
  freeze, ensure_span_valid, with_span, set_cached_diagnostic_line_span,
  cached_diagnostic_line_span,
}
use syntaxa.Lst.Spans.Session.{freeze_mutable, cached_line_span_lem}

-- Nodes 0 and 1 are in the ledger, node 2 is free; node 0 spans the bytes 2 to 5.
abbrev heap : Pointer → Node
heap zero = record (zero_node 7) { start = 2; end = 5; span_valid = true }
heap (suc p) = zero_node 8

abbrev editor : Editor
editor = record {
  heap = heap;
  next_pointer = 3;
  next_id = 2;
  root = none;
  frozen = false;
  tree_dirty = false;
  created = 0 ∷ 1 ∷ [];
  node_free = 2 ∷ [];
  node_grow = none;
  cap_node_free = λ p. 1;
  in_use = true;
}

editor-IsOwned : IsOwned editor
unfolding count
editor-IsOwned = record { once = λ q. ground arith }

new_node_lem_example :
    (p : Pointer) × (e' : Editor) × (new_node 9 editor ≡ ok (p, e'))
    × IsOwned e'
    × (count p (0 ∷ 1 ∷ []) ≡ 0)
    × (e'.created ≡ 0 ∷ 1 ∷ p ∷ [])
    × (e'.heap p ≡ record (zero_node 9) { id = increment 2 })
    × ((q : Pointer) → p ≢ q → e'.heap q ≡ editor.heap q)
new_node_lem_example = new_node_lem 9 editor editor-IsOwned refl

truncate_lem_example :
    ((length editor.created < 1) × (truncate_created 1 editor ≡ panic Panic.truncate_out_of_range))
    ⊎ ((e' : Editor) × (truncate_created 1 editor ≡ ok e')
        × IsOwned e'
        × (e'.created ≡ take 1 editor.created)
        × ((q : Pointer)
            → count q e'.node_free ≡ count q (drop 1 editor.created) + count q editor.node_free)
        × ((q : Pointer) → count q (drop 1 editor.created) ≡ 0 → e'.heap q ≡ editor.heap q))
truncate_lem_example = truncate_lem 1 editor editor-IsOwned refl

abbrev attached : Editor
attached = link_child 0 1 editor

detach-attach_child_example :
    (links (attached.heap 0) ≡ record (links (heap 0)) { children = 1 ∷ [] })
    × (links (attached.heap 1) ≡ record (links (heap 1)) { parent = some 0 })
    × ((q : Pointer) → 0 ≢ q → 1 ≢ q → links (attached.heap q) ≡ links (heap q))
    × (e'' : Editor) × (detach 1 attached ≡ ok e'')
    × ((q : Pointer) → links (e''.heap q) ≡ links (heap q))
unfolding attach_child is_above ensure_mutable link_child mark_dirty_pair mark_dirty_node
detach-attach_child_example = detach-attach_child editor attached 0 1 refl refl

abbrev rooted : Editor
rooted = record editor { root = some 0 }

-- The root has neither tokens nor children, so the freeze takes its span away.
abbrev after_freeze : Editor
after_freeze = record (write 0 (with_span (heap 0) none) rooted) {
  root = none;
  next_id = 0;
  frozen = false;
  tree_dirty = false;
  in_use = false;
}

freeze_mutable_example :
    (after_freeze.frozen ≡ false)
    × (after_freeze.root ≡ none)
    × ((kind : NodeKind) → (r : Pointer × Editor) × (new_node kind after_freeze ≡ ok r))
    × ((p : Pointer) → (e'' : Editor) × (detach p after_freeze ≡ ok e''))
unfolding freeze ensure_mutable with_span ensure_span_valid end_session
freeze_mutable_example = freeze_mutable rooted after_freeze refl

abbrev cached : Editor
cached =
    write 0
      (record (heap 0) {
        diag_line_cache = some (record {
          start_line = 1;
          start_column = 3;
          end_line = 1;
          end_column = 6;
          key_start = 2;
          key_end = 5;
          key_tab = 4;
        });
      })
      editor

cached_line_span_example :
    cached_diagnostic_line_span (with_span (cached.heap 0) (some (record { start = 2; end = 5 }))) 4
    ≡ some (1, 3, 1, 6)
unfolding set_cached_diagnostic_line_span ensure_mutable
cached_line_span_example =
    cached_line_span_lem editor cached 0 1 3 1 6 0 4 (record { start = 2; end = 5 }) refl
