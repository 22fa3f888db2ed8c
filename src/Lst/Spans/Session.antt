-- ===== src/Lst/Spans/Session.antt =====
-- ast_editor.go: what a freeze leaves, and the cache of diagnostic line spans.
use syntaxa.Prelude.{
  ℕ, ◌≡◌, true, false, none, some, arith, ◌==◌, if◌then◌else◌, ok, Outcome-cases, inl, inr,
}
use syntaxa.Lst.Heap.{Pointer, NodeKind, Node, Editor, ensure_mutable}
use syntaxa.Lst.Pool.{new_node}
use syntaxa.Lst.Structure.{detach}
use syntaxa.Lst.Spans.{
  cached_line_span_of, ByteSpan, with_span, freeze, tab_or_default, set_cached_diagnostic_line_span,
  cached_diagnostic_line_span,
}

-- A freeze ends the session, and with it the protection that it has just put on: an editor that was
-- frozen still creates and detaches nodes.
pub freeze_mutable :
    (e e' : Editor)
    → freeze e ≡ ok e'
    → (e'.frozen ≡ false)
      × (e'.root ≡ none)
      × ((kind : NodeKind) → (r : Pointer × Editor) × (new_node kind e' ≡ ok r))
      × ((p : Pointer) → (e'' : Editor) × (detach p e' ≡ ok e''))
unfolding freeze new_node detach ensure_mutable
freeze_mutable e e' h =
    let thawed : e'.frozen ≡ false = ground arith in
    (
      thawed,
      ground arith,
      λ kind. elim (Outcome-cases (new_node kind e')) [
        | inl r ↦ r
        | inr (q, n) ↦ absurd (ground arith)
      ],
      λ p. elim (Outcome-cases (detach p e')) [ inl r ↦ r | inr (q, n) ↦ absurd (ground arith) ],
    )

-- A cached line span is found again by the same tab width, 0 standing for 4, as long as the byte span is
-- the same; another tab width or another byte span finds nothing.
pub cached_line_span_lem :
    (e e' : Editor) (p : Pointer) (sl sc el ec tab tab' : ℕ) (s : ByteSpan)
    → set_cached_diagnostic_line_span p sl sc el ec tab e ≡ ok e'
    → cached_diagnostic_line_span (with_span (e'.heap p) (some s)) tab' ≡ (
        if (s.start == (e.heap p).start)
        then (if s.end == (e.heap p).end
            then (if tab_or_default tab == tab_or_default tab' then some (sl, sc, el, ec) else none)
            else none)
        else none)
unfolding set_cached_diagnostic_line_span cached_diagnostic_line_span with_span ensure_mutable
    cached_line_span_of
cached_line_span_lem e e' p sl sc el ec tab tab' s h =
    let n : Node = record (e.heap p) {
      diag_line_cache = some (record {
        start_line = sl;
        start_column = sc;
        end_line = el;
        end_column = ec;
        key_start = (e.heap p).start;
        key_end = (e.heap p).end;
        key_tab = tab_or_default tab;
      });
    } in
    let valid : (e.heap p).span_valid ≡ true = ground arith in
    let w : e'.heap p ≡ n = ground arith in rw w (ground arith)
