-- ===== src/Lst/Heap.antt =====
-- The node record of ast_node.go on a heap, and the part of ast_editor.go that works on one node.
use syntaxa.Prelude.{
  ℕ, ◌+◌, ◌%◌, ◌^◌, Bool, true, false, Option, none, some, List, [], ◌∷◌, ◌++◌, String, ◌==◌,
  if◌then◌else◌, Outcome, ok, panic, Panic, ◌>>=◌,
}
use text.Mathlib.Text.{◌==◌ as str_eq}
use syntaxa.Tokens.{Lexeme}

abbrev pub Pointer : Type 0
Pointer = ℕ

abbrev pub NodeKind : Type 0
NodeKind = ℕ

-- The diagnostic line cache, `none` where `diagLineCacheValid` is false and its fields are zero.
pub record DiagLineCache : Type 0 where
  pub start_line : ℕ
  pub start_column : ℕ
  pub end_line : ℕ
  pub end_column : ℕ
  pub key_start : ℕ
  pub key_end : ℕ
  pub key_tab : ℕ

pub record Node : Type 0 where
  pub id : ℕ
  pub kind : NodeKind
  pub start : ℕ
  pub end : ℕ
  pub span_valid : Bool
  pub diag_line_cache : Option DiagLineCache
  pub parent : Option Pointer
  pub children : List Pointer
  pub slots : List (String × Pointer)
  pub tokens : List Lexeme
  pub attributes : Option (List (String × ℕ))
  pub revision : ℕ
  pub post_processed : Bool

-- `&SyntaxaLSTNode{kind: kind}`
abbrev pub zero_node : NodeKind → Node
zero_node kind = record {
  id = 0;
  kind = kind;
  start = 0;
  end = 0;
  span_valid = false;
  diag_line_cache = none;
  parent = none;
  children = [];
  slots = [];
  tokens = [];
  attributes = none;
  revision = 0;
  post_processed = false;
}

-- `next_pointer` bounds the allocated nodes. `cap_node_free` stands for `cap(e.nodeFree)`, which the Go
-- runtime chooses, at the allocation that starts at a pointer.
pub record Editor : Type 0 where
  pub heap : Pointer → Node
  pub next_pointer : Pointer
  pub next_id : ℕ
  pub root : Option Pointer
  pub frozen : Bool
  pub tree_dirty : Bool
  pub created : List Pointer
  pub node_free : List Pointer
  pub node_grow : Option (ℕ → ℕ → ℕ)
  pub cap_node_free : Pointer → ℕ
  pub in_use : Bool

-- The heap with one node given anew.
abbrev pub update : (Pointer → Node) → Pointer → Node → Pointer → Node
update h p n q = if p == q then n else h q

abbrev pub write : Pointer → Node → Editor → Editor
write p n e = record e { heap = update e.heap p n }

-- A uint64 counter.
abbrev pub increment : ℕ → ℕ
increment n = (n + 1) % 2 ^ 64

unfoldable pub ensure_mutable : Editor → Outcome (Unit {0})
ensure_mutable e = if e.frozen then panic Panic.lst_frozen else ok tt

unfoldable pub node_reset_for_pool : Node → Node
node_reset_for_pool n = record n {
  parent = none;
  children = [];
  slots = [];
  tokens = [];
  attributes = none;
  start = 0;
  end = 0;
  span_valid = false;
  diag_line_cache = none;
  revision = 0;
  post_processed = false;
}

unfoldable pub mark_dirty_node : Pointer → Editor → Editor
mark_dirty_node p e = record (write p dirty e) { tree_dirty = true }
  where
    dirty : Node
    dirty = record (e.heap p) {
      revision = increment (e.heap p).revision;
      span_valid = false;
      diag_line_cache = none;
    }

unfoldable pub mark_dirty_pair : Pointer → Pointer → Editor → Editor
unfolding mark_dirty_node
mark_dirty_pair a b e =
    if a == b then mark_dirty_node a e else mark_dirty_node b (mark_dirty_node a e)

unfoldable pub assoc_set {ℓ} : {V : Type ℓ} → String → V → List (String × V) → List (String × V)
assoc_set k v [] = (k, v) ∷ []
assoc_set k v ((j, w) ∷ m) = if str_eq j k then (k, v) ∷ m else (j, w) ∷ assoc_set k v m

unfoldable pub assoc_delete {ℓ} : {V : Type ℓ} → String → List (String × V) → List (String × V)
assoc_delete k [] = []
assoc_delete k ((j, w) ∷ m) = if str_eq j k then m else (j, w) ∷ assoc_delete k m

unfoldable pub assoc_get {ℓ} : {V : Type ℓ} → String → List (String × V) → Option V
assoc_get k [] = none
assoc_get k ((j, w) ∷ m) = if str_eq j k then some w else assoc_get k m

-- A map that may be nil, as the keys that it holds.
abbrev pub entries {ℓ} : {V : Type ℓ} → Option (List (String × V)) → List (String × V)
entries none = []
entries (some m) = m

unfoldable pub set_attribute : Pointer → String → ℕ → Editor → Outcome Editor
unfolding ensure_mutable assoc_set mark_dirty_node
set_attribute p k v e = do
  _ ← ensure_mutable e
  let m = assoc_set k v (entries (e.heap p).attributes)
  ok (mark_dirty_node p (write p (record (e.heap p) { attributes = some m }) e))

-- On a node whose map is nil the source returns before it marks the node.
delete_attribute_from : Option (List (String × ℕ)) → Pointer → String → Editor → Editor
unfolding assoc_delete mark_dirty_node
delete_attribute_from none p k e = e
delete_attribute_from (some m) p k e =
    mark_dirty_node p (write p (record (e.heap p) { attributes = some (assoc_delete k m) }) e)

unfoldable pub delete_attribute : Pointer → String → Editor → Outcome Editor
unfolding ensure_mutable delete_attribute_from
delete_attribute p k e = do
  _ ← ensure_mutable e
  ok (delete_attribute_from (e.heap p).attributes p k e)

unfoldable pub add_token : Pointer → Lexeme → Editor → Outcome Editor
unfolding ensure_mutable mark_dirty_node
add_token p tok e = do
  _ ← ensure_mutable e
  ok (mark_dirty_node p (write p (record (e.heap p) { tokens = (e.heap p).tokens ++ tok ∷ [] }) e))

unfoldable pub set_tokens : Pointer → List Lexeme → Editor → Outcome Editor
unfolding ensure_mutable mark_dirty_node
set_tokens p toks e = do
  _ ← ensure_mutable e
  ok (mark_dirty_node p (write p (record (e.heap p) { tokens = toks }) e))

unfoldable pub set_span : Pointer → ℕ → ℕ → Editor → Outcome Editor
unfolding ensure_mutable mark_dirty_node
set_span p start end e = do
  _ ← ensure_mutable e
  ok (mark_dirty_node p (write p (record (e.heap p) { start = start; end = end }) e))
