-- ===== src/Lst/Structure/Rest.antt =====
-- ast_editor.go: the calls that link nodes leave the ledger and the freeze alone.
use syntaxa.Prelude.{
  suc, ◌≡◌, refl, ◌∙◌, Bool, true, false, Option, none, some, List, [], ◌∷◌, contains, arith, ◌==◌,
  ok, >>=-eq-ok, Bool-cases, inl, inr,
}
use syntaxa.Tokens.{Lexeme}
use syntaxa.Lst.Heap.{
  Pointer, NodeKind, Editor, ensure_mutable, mark_dirty_node, mark_dirty_pair, add_token,
}
use syntaxa.Lst.Pool.{new_transient_node}
use syntaxa.Lst.Structure.{
  is_above, check, is_some, link_child, attach_child_to, attach_child, slot_holds, detach_from,
  detach, attach_all, attach_result,
}

-- `e'` has the ledger of `e` and is frozen as `e` is.
pub record SameLedger (e e' : Editor) : Type 0 where
  pub created : e'.created ≡ e.created
  pub frozen : e'.frozen ≡ e.frozen

SameLedger-trans : (e f g : Editor) → SameLedger e f → SameLedger f g → SameLedger e g
SameLedger-trans e f g x y = record {
  created = y.created ∙ x.created;
  frozen = y.frozen ∙ x.frozen;
}

pub add_token-SameLedger :
    (p : Pointer) (l : Lexeme) (e e' : Editor) → add_token p l e ≡ ok e' → SameLedger e e'
unfolding add_token mark_dirty_node
add_token-SameLedger p l e e' h = record { created = ground arith; frozen = ground arith }

pub new_transient_node-SameLedger :
    (kind : NodeKind) (e : Editor) (p : Pointer) (e' : Editor)
    → new_transient_node kind e ≡ ok (p, e')
    → SameLedger e e'
unfolding new_transient_node
new_transient_node-SameLedger kind e p e' h = record {
  created = ground arith;
  frozen = ground arith;
}

link_child-SameLedger :
    (parent child : Pointer) (e : Editor) → SameLedger e (link_child parent child e)
unfolding link_child mark_dirty_pair
link_child-SameLedger parent child e = elim (Bool-cases (child == parent)) [
  | inl q ↦ record { created = ground arith; frozen = ground arith }
  | inr q ↦ record { created = ground arith; frozen = ground arith }
]

attach_child_to-SameLedger :
    (parent child : Pointer) (e e' : Editor)
    → attach_child_to parent child e ≡ ok e'
    → SameLedger e e'
unfolding attach_child_to
attach_child_to-SameLedger parent child e e' h =
    let (u, h1, r1) = >>=-eq-ok (check (is_some (e.heap child).parent) _) _ h in
    let (above, h2, r2) =
      >>=-eq-ok (is_above (suc e.next_pointer) e.heap child (some parent)) _ r1 in
    let (v, h3, r3) = >>=-eq-ok (check above _) _ r2 in
    let s = link_child-SameLedger parent child e in
    let sc = s.created in
    let sf = s.frozen in record { created = ground arith; frozen = ground arith }

pub attach_child-SameLedger :
    (parent : Pointer) (child : Option Pointer) (e e' : Editor)
    → attach_child parent child e ≡ ok e'
    → SameLedger e e'
unfolding attach_child
attach_child-SameLedger parent none e e' h =
    let (u, h1, r1) = >>=-eq-ok (ensure_mutable e) _ h in
    record { created = ground arith; frozen = ground arith }
attach_child-SameLedger parent (some child) e e' h =
    let (u, h1, r1) = >>=-eq-ok (ensure_mutable e) _ h in
    attach_child_to-SameLedger parent child e e' r1

detach_from-SameLedger :
    (parent : Option Pointer) (node : Pointer) (e : Editor)
    → SameLedger e (detach_from parent node e)
unfolding detach_from mark_dirty_node
detach_from-SameLedger none node e = record { created = refl; frozen = refl }
detach_from-SameLedger (some p) node e = elim (Bool-cases (contains (e.heap p).children node)) [
  | inl q ↦ record { created = ground arith; frozen = ground arith }
  | inr q ↦ elim (Bool-cases (slot_holds node (e.heap p).slots)) [
    | inl s ↦ record { created = ground arith; frozen = ground arith }
    | inr s ↦ record { created = ground arith; frozen = ground arith }
  ]
]

detach-SameLedger : (node : Pointer) (e e' : Editor) → detach node e ≡ ok e' → SameLedger e e'
unfolding detach
detach-SameLedger node e e' h =
    let (u, h1, r1) = >>=-eq-ok (ensure_mutable e) _ h in
    let s = detach_from-SameLedger (e.heap node).parent node e in
    let sc = s.created in
    let sf = s.frozen in record { created = ground arith; frozen = ground arith }

attach_all-SameLedger :
    (parent : Pointer) (cs : List Pointer) (e e' : Editor)
    → attach_all parent cs e ≡ ok e'
    → SameLedger e e'
unfolding attach_all
attach_all-SameLedger parent [] e e' h = record { created = ground arith; frozen = ground arith }
attach_all-SameLedger parent (c ∷ cs) e e' h =
    let (e1, h1, r1) = >>=-eq-ok (detach c e) _ h in
    let (e2, h2, r2) = >>=-eq-ok (attach_child parent (some c) e1) _ r1 in
    SameLedger-trans e e1 e' (detach-SameLedger c e e1 h1) (
      SameLedger-trans e1 e2 e' (attach_child-SameLedger parent (some c) e1 e2 h2)
        (attach_all-SameLedger parent cs e2 e' r2))

pub attach_result-SameLedger :
    (parent : Pointer) (node : Option Pointer) (fragment : Bool) (e e' : Editor)
    → attach_result parent node fragment e ≡ ok e'
    → SameLedger e e'
unfolding attach_result
attach_result-SameLedger parent none fragment e e' h = record {
  created = ground arith;
  frozen = ground arith;
}
attach_result-SameLedger parent (some node) true e e' h =
    attach_all-SameLedger parent (e.heap node).children e e' h
attach_result-SameLedger parent (some node) false e e' h =
    attach_child-SameLedger parent (some node) e e' h
