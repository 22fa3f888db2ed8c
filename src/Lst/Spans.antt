-- ===== src/Lst/Spans.antt =====
-- ast_editor.go: byte spans, their merging over the tree, and the end of a session. The recursion down
-- the tree takes the number of allocated nodes as fuel; `diverged` stands for one that does not end.
pub mod Session
use syntaxa.Prelude.{
  ℕ, zero, suc, ◌+◌, Bool, true, false, not, ◌||◌, Option, none, some, List, [], ◌∷◌, map, ltb,
  ◌==◌, String, if◌then◌else◌, Outcome, ok, panic, Panic, ◌>>=◌,
}
use syntaxa.Tokens.{Lexeme}
use syntaxa.Lst.Heap.{Pointer, Node, DiagLineCache, Editor, write, ensure_mutable}
use syntaxa.Lst.Pool.{end_session}

pub record ByteSpan : Type 0 where
  pub start : ℕ
  pub end : ℕ

unfoldable pub merge : ByteSpan → ByteSpan → Bool → ByteSpan
merge base next is_empty = if is_empty then next else record {
  start = if ltb next.start base.start then next.start else base.start;
  end = if ltb base.end next.end then next.end else base.end;
}

-- The accumulator: `none` while `empty` is true.
unfoldable pub merge_into : Option ByteSpan → ByteSpan → Option ByteSpan
unfolding merge
merge_into none next = some (merge (record { start = 0; end = 0 }) next true)
merge_into (some acc) next = some (merge acc next false)

abbrev pub span_from_node : Node → ByteSpan
span_from_node n = record { start = n.start; end = n.end }

abbrev pub span_from_token : Lexeme → ByteSpan
span_from_token t = record { start = t.start; end = t.end }

unfoldable pub merge_tokens : Option ByteSpan → List Lexeme → Option ByteSpan
unfolding merge_into
merge_tokens acc [] = acc
merge_tokens acc (t ∷ ts) = merge_tokens (merge_into acc (span_from_token t)) ts

-- A loop over children or slots: each is brought up to date by `visit`, and counts if it has a span.
unfoldable pub merge_children :
    (Pointer → Editor → Outcome Editor)
    → Option ByteSpan
    → List Pointer
    → Editor
    → Outcome (Option ByteSpan × Editor)
unfolding merge_into
merge_children visit acc [] e = ok (acc, e)
merge_children visit acc (c ∷ cs) e = do
  e' ← visit c e
  merge_children visit
      (if (e'.heap c).span_valid then merge_into acc (span_from_node (e'.heap c)) else acc) cs e'

-- The cache survives only a span that was valid and stays the same.
abbrev keeps_cache : Node → ByteSpan → Bool
keeps_cache n s = not (not n.span_valid || (not (n.start == s.start) || not (n.end == s.end)))

unfoldable pub with_span : Node → Option ByteSpan → Node
with_span n none = record n { span_valid = false; diag_line_cache = none }
with_span n (some s) = record n {
  diag_line_cache = if keeps_cache n s then n.diag_line_cache else none;
  start = s.start;
  end = s.end;
  span_valid = true;
}

-- `ensureSpanValid` on a node that must be recomputed.
recompute_span : (Pointer → Editor → Outcome Editor) → Pointer → Editor → Outcome Editor
unfolding merge_tokens merge_children with_span
recompute_span visit n e = do
  let acc = merge_tokens none (e.heap n).tokens
  (acc1, e1) ← merge_children visit acc (e.heap n).children e
  (acc2, e2) ← merge_children visit acc1 (map (λ (s : String × Pointer). s.1) (e.heap n).slots) e1
  ok (write n (with_span (e2.heap n) acc2) e2)

unfoldable pub ensure_span_valid : ℕ → Bool → Pointer → Editor → Outcome Editor
unfolding recompute_span
ensure_span_valid zero force n e = panic Panic.diverged
ensure_span_valid (suc fuel) force n e =
    let again = recompute_span (ensure_span_valid fuel force) n e in
    if (e.heap n).span_valid then (if force then again else ok e) else again

abbrev pub span_fuel : Editor → ℕ
span_fuel e = e.next_pointer + 1

compute_spans_of : Option Pointer → Editor → Outcome Editor
unfolding ensure_span_valid
compute_spans_of none e = panic Panic.root_not_set
compute_spans_of (some root) e =
    if e.tree_dirty
    then (do
      e' ← ensure_span_valid (span_fuel e) true root e
      ok (record e' { tree_dirty = false }))
    else ensure_span_valid (span_fuel e) false root e

unfoldable pub compute_spans : Editor → Outcome Editor
unfolding compute_spans_of
compute_spans e = compute_spans_of e.root e

freeze_root : Option Pointer → Editor → Outcome Editor
unfolding ensure_span_valid
freeze_root none e = ok e
freeze_root (some root) e = do
  e' ← ensure_span_valid (span_fuel e) true root e
  ok (record e' { tree_dirty = false })

unfoldable pub freeze : Editor → Outcome Editor
unfolding freeze_root end_session
freeze e = do e' ← freeze_root e.root e; ok (end_session (record e' { frozen = true }))

abbrev pub tab_or_default : ℕ → ℕ
tab_or_default tab_width = if tab_width == 0 then 4 else tab_width

unfoldable pub set_cached_diagnostic_line_span :
    Pointer → (sl sc el ec tab_width : ℕ) → Editor → Outcome Editor
unfolding ensure_mutable
set_cached_diagnostic_line_span p sl sc el ec tab_width e = do
  _ ← ensure_mutable e
  if (e.heap p).span_valid
      then ok (
          write p
            (record (e.heap p) {
              diag_line_cache = some (record {
                start_line = sl;
                start_column = sc;
                end_line = el;
                end_column = ec;
                key_start = (e.heap p).start;
                key_end = (e.heap p).end;
                key_tab = tab_or_default tab_width;
              });
            })
            e)
      else panic Panic.line_span_without_byte_span

-- `CachedDiagnosticLineSpan`: `none` where `ok` is false.
cached_line_span_of : Option DiagLineCache → Node → ℕ → Option (ℕ × ℕ × ℕ × ℕ)
cached_line_span_of none n tab_width = none
cached_line_span_of (some c) n tab_width =
    if not (n.start == c.key_start)
      || (not (n.end == c.key_end) || not (tab_or_default tab_width == c.key_tab))
    then none
    else some (c.start_line, c.start_column, c.end_line, c.end_column)

unfoldable pub cached_diagnostic_line_span : Node → ℕ → Option (ℕ × ℕ × ℕ × ℕ)
unfolding cached_line_span_of
cached_diagnostic_line_span n tab_width =
    if n.span_valid then cached_line_span_of n.diag_line_cache n tab_width else none
