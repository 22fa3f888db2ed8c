-- ===== src/Lst/Structure.antt =====
-- ast_editor.go: the topology of the tree. Loops up the parents take the number of allocated nodes as
-- fuel, and `diverged` stands for a loop that does not end, which a cycle of parents would cause.
pub mod Links
pub mod Rest
use text.Mathlib.Text.{◌==◌ as str_eq}
use syntaxa.Prelude.{
  ℕ, zero, suc, ◌+◌, Bool, true, false, ◌||◌, Option, none, some, List, [], ◌∷◌, ◌++◌, String, any,
  contains, ◌==◌, if◌then◌else◌, Outcome, ok, panic, Panic, ◌>>=◌,
}
use syntaxa.Lst.Heap.{
  Pointer, Node, Editor, update, write, ensure_mutable, mark_dirty_node, mark_dirty_pair, assoc_set,
}

-- `for p := parent; p != nil; p = p.parent`: whether `child` is met.
unfoldable pub is_above : ℕ → (Pointer → Node) → Pointer → Option Pointer → Outcome Bool
is_above fuel h child none = ok false
is_above zero h child (some p) = panic Panic.diverged
is_above (suc fuel) h child (some p) =
    let rest = is_above fuel h child (h p).parent in if p == child then ok true else rest

abbrev pub check : Bool → Panic → Outcome (Unit {0})
check true p = panic p
check false p = ok tt

abbrev pub is_some {ℓ} : {A : Type ℓ} → Option A → Bool
is_some none = false
is_some (some a) = true

abbrev set_parent : Pointer → Option Pointer → Editor → Editor
set_parent p q e = write p (record (e.heap p) { parent = q }) e

-- The writes of `AttachChild`, behind its checks.
unfoldable pub link_child : Pointer → Pointer → Editor → Editor
unfolding mark_dirty_pair
link_child parent child e =
    let e1 = set_parent child (some parent) e in
    let e2 =
      write parent (record (e1.heap parent) { children = (e1.heap parent).children ++ child ∷ [] })
        e1 in
    mark_dirty_pair child parent e2

attach_child_to : Pointer → Pointer → Editor → Outcome Editor
unfolding is_above link_child
attach_child_to parent child e = do
  _ ← check (is_some (e.heap child).parent) Panic.already_has_parent
  above ← is_above (suc e.next_pointer) e.heap child (some parent)
  _ ← check above Panic.cycle_detected
  ok (link_child parent child e)

-- `AttachChild`; a nil child is ignored.
unfoldable pub attach_child : Pointer → Option Pointer → Editor → Outcome Editor
unfolding ensure_mutable attach_child_to
attach_child parent none e = do _ ← ensure_mutable e; ok e
attach_child parent (some child) e = do _ ← ensure_mutable e; attach_child_to parent child e

-- The list without the first occurrence of a pointer.
unfoldable pub remove_first : Pointer → List Pointer → List Pointer
remove_first p [] = []
remove_first p (x ∷ xs) = if x == p then xs else x ∷ remove_first p xs

abbrev pub slot_holds : Pointer → List (String × Pointer) → Bool
slot_holds p slots = any (λ (s : String × Pointer). s.1 == p) slots

-- `delete(parent.slots, k)` at the slot that holds the node.
unfoldable pub remove_slot : Pointer → List (String × Pointer) → List (String × Pointer)
remove_slot p [] = []
remove_slot p ((k, v) ∷ m) = if v == p then m else (k, v) ∷ remove_slot p m

-- The writes of `Detach` once the node is found.
abbrev unlinked : Pointer → Pointer → Node → Editor → Editor
unlinked node parent n e =
    mark_dirty_node parent (mark_dirty_node node (set_parent node none (write parent n e)))

detach_from : Option Pointer → Pointer → Editor → Editor
unfolding remove_first remove_slot mark_dirty_node
detach_from none node e = e
detach_from (some parent) node e =
    if contains (e.heap parent).children node
    then unlinked node parent
        (record (e.heap parent) { children = remove_first node (e.heap parent).children }) e
    else if slot_holds node (e.heap parent).slots
    then unlinked node parent
        (record (e.heap parent) { slots = remove_slot node (e.heap parent).slots }) e
    else e

unfoldable pub detach : Pointer → Editor → Outcome Editor
unfolding ensure_mutable detach_from
detach node e = do _ ← ensure_mutable e; ok (detach_from (e.heap node).parent node e)

-- The loop of `AttachResult` over the children of a fragment.
attach_all : Pointer → List Pointer → Editor → Outcome Editor
unfolding detach attach_child
attach_all parent [] e = ok e
attach_all parent (c ∷ cs) e = do
  e' ← detach c e
  e'' ← attach_child parent (some c) e'
  attach_all parent cs e''

-- `AttachResult`: the node of the result, and whether it is a fragment.
unfoldable pub attach_result : Pointer → Option Pointer → Bool → Editor → Outcome Editor
unfolding attach_all attach_child
attach_result parent none fragment e = ok e
attach_result parent (some node) true e = attach_all parent (e.heap node).children e
attach_result parent (some node) false e = attach_child parent (some node) e

unfoldable pub find_slot : String → List (String × Pointer) → Option Pointer
find_slot k [] = none
find_slot k ((j, v) ∷ m) = if str_eq j k then some v else find_slot k m

-- `if old := parent.slots[name]; old != nil { old.parent = nil }`
abbrev orphan : Option Pointer → Editor → Editor
orphan none e = e
orphan (some old) e = set_parent old none e

unfoldable pub set_slot : Pointer → String → Pointer → Editor → Outcome Editor
unfolding ensure_mutable mark_dirty_pair find_slot assoc_set
set_slot parent name child e = do
  _ ← ensure_mutable e
  _ ← check (is_some (e.heap child).parent) Panic.already_has_parent
  let e1 = orphan (find_slot name (e.heap parent).slots) e
  let e2 =
      write parent (record (e1.heap parent) { slots = assoc_set name child (e1.heap parent).slots })
        e1
  ok (mark_dirty_pair child parent (set_parent child (some parent) e2))

unfoldable pub replace_first : Pointer → Pointer → List Pointer → List Pointer
replace_first p q [] = []
replace_first p q (x ∷ xs) = if x == p then q ∷ xs else x ∷ replace_first p q xs

unfoldable pub replace_slot : Pointer → Pointer → List (String × Pointer) → List (String × Pointer)
replace_slot p q [] = []
replace_slot p q ((k, v) ∷ m) = if v == p then (k, q) ∷ m else (k, v) ∷ replace_slot p q m

abbrev replaced : Pointer → Pointer → Pointer → Node → Editor → Editor
replaced old new parent n e =
    mark_dirty_pair new parent
      (set_parent old none (set_parent new (some parent) (write parent n e)))

replace_under : Option Pointer → Pointer → Pointer → Editor → Outcome Editor
unfolding replace_first replace_slot mark_dirty_pair
replace_under none old new e = panic Panic.replace_root
replace_under (some parent) old new e = do
  _ ← check (is_some (e.heap new).parent) Panic.replacement_has_parent
  if contains (e.heap parent).children old
      then ok (
          replaced old new parent
            (record (e.heap parent) { children = replace_first old new (e.heap parent).children })
            e)
      else if slot_holds old (e.heap parent).slots
      then ok (
          replaced old new parent
            (record (e.heap parent) { slots = replace_slot old new (e.heap parent).slots }) e)
      else panic Panic.not_owned_by_parent

unfoldable pub replace : Pointer → Pointer → Editor → Outcome Editor
unfolding ensure_mutable replace_under
replace old new e = do _ ← ensure_mutable e; replace_under (e.heap old).parent old new e
