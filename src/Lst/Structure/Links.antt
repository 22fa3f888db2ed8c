-- ===== src/Lst/Structure/Links.antt =====
-- ast_editor.go: attaching and detaching, on the links of the tree.
use syntaxa.Prelude.{
  ◌≡◌, ◌≢◌, sym, ap, ◌∙◌, true, false, Option, none, some, List, [], ◌∷◌, ◌++◌, String, contains,
  arith, ◌==◌, ok, Bool-cases, inl, inr,
}
use mathlib.Core.Path.{subst}
use syntaxa.Lst.Heap.{Pointer, Node, Editor, ensure_mutable, mark_dirty_node, mark_dirty_pair}
use syntaxa.Lst.Structure.{
  is_above, attach_child, link_child, remove_first, detach, detach_from, unlinked,
}

contains-snoc : (p : Pointer) (xs : List Pointer) → contains (xs ++ p ∷ []) p ≡ true
contains-snoc p [] = ground arith
contains-snoc p (x ∷ xs) = ground (arith, contains-snoc p xs)

remove_first-snoc :
    (p : Pointer) (xs : List Pointer) → contains xs p ≡ false → remove_first p (xs ++ p ∷ []) ≡ xs
unfolding remove_first
remove_first-snoc p [] h = ground arith
remove_first-snoc p (x ∷ xs) h = ground (arith, remove_first-snoc p xs (ground arith))

-- The links of a node: the part of it that makes up the tree.
pub record Links : Type 0 where
  pub parent : Option Pointer
  pub children : List Pointer
  pub slots : List (String × Pointer)

abbrev pub links : Node → Links
links n = record { parent = n.parent; children = n.children; slots = n.slots }

module _ (e : Editor) (parent child : Pointer) (d : parent ≢ child) where
  link_child-parent :
      links ((link_child parent child e).heap parent)
      ≡ record (links (e.heap parent)) { children = (e.heap parent).children ++ child ∷ [] }
  unfolding link_child mark_dirty_pair mark_dirty_node
  link_child-parent = ground arith

  link_child-child :
      links ((link_child parent child e).heap child)
      ≡ record (links (e.heap child)) { parent = some parent }
  unfolding link_child mark_dirty_pair mark_dirty_node
  link_child-child = ground arith

  link_child-other :
      (q : Pointer)
      → parent ≢ q
      → child ≢ q
      → links ((link_child parent child e).heap q) ≡ links (e.heap q)
  unfolding link_child mark_dirty_pair mark_dirty_node
  link_child-other q a b = ground arith

link_child-frozen :
    (e : Editor) (parent child : Pointer) → (link_child parent child e).frozen ≡ e.frozen
unfolding link_child mark_dirty_pair mark_dirty_node
link_child-frozen e parent child = ground arith

module _ (e : Editor) (parent child : Pointer) (d : parent ≢ child) where
  -- The writes of a detachment from the parent's children.
  unlink : Editor
  unlink =
      unlinked child parent
        (record (e.heap parent) { children = remove_first child (e.heap parent).children }) e

  detach-unlink :
      e.frozen ≡ false
      → (e.heap child).parent ≡ some parent
      → contains (e.heap parent).children child ≡ true
      → detach child e ≡ ok unlink
  unfolding detach ensure_mutable unlink detach_from
  detach-unlink f p c = simp (f, p, c)

  unlink-parent :
      links (unlink.heap parent)
      ≡ record (links (e.heap parent)) { children = remove_first child (e.heap parent).children }
  unfolding unlink mark_dirty_node
  unlink-parent = ground arith

  unlink-child : links (unlink.heap child) ≡ record (links (e.heap child)) { parent = none }
  unfolding unlink mark_dirty_node
  unlink-child = ground arith

  unlink-other : (q : Pointer) → parent ≢ q → child ≢ q → links (unlink.heap q) ≡ links (e.heap q)
  unfolding unlink mark_dirty_node
  unlink-other q a b = ground arith

module _ (e e' : Editor) (parent child : Pointer) where
  attached :
      attach_child parent (some child) e ≡ ok e'
      → (e' ≡ link_child parent child e)
        × (parent ≢ child)
        × ((e.heap child).parent ≡ none)
        × (e.frozen ≡ false)
  unfolding attach_child ensure_mutable is_above
  attached h = (ground arith, ground arith, ground arith, ground arith)

  -- An attachment that succeeds, of a child that the parent did not list before, makes it the last child
  -- of the parent and sets its parent, and changes no other link of these two nodes and none of any other
  -- node. Detaching the child again succeeds and brings back every link of every node.
  pub detach-attach_child :
      contains (e.heap parent).children child ≡ false
      → attach_child parent (some child) e ≡ ok e'
      → (links (e'.heap parent)
          ≡ record (links (e.heap parent)) { children = (e.heap parent).children ++ child ∷ [] })
        × (links (e'.heap child) ≡ record (links (e.heap child)) { parent = some parent })
        × ((q : Pointer) → parent ≢ q → child ≢ q → links (e'.heap q) ≡ links (e.heap q))
        × (e'' : Editor) × (detach child e' ≡ ok e'')
        × ((q : Pointer) → links (e''.heap q) ≡ links (e.heap q))
  detach-attach_child apart h =
      let (le, d, orphan, mutable) = attached h in
      let f = link_child parent child e in
      let lp = link_child-parent e parent child d in
      let lc = link_child-child e parent child d in
      let children : (f.heap parent).children ≡ (e.heap parent).children ++ child ∷ [] =
        ap (λ (l : Links). l.children) lp in
      let owner : (f.heap child).parent ≡ some parent = ap (λ (l : Links). l.parent) lc in
      let there : contains (f.heap parent).children child ≡ true =
        ap (λ l. contains l child) children ∙ contains-snoc child (e.heap parent).children in
      (
        ap (λ (x : Editor). links (x.heap parent)) le ∙ lp,
        ap (λ (x : Editor). links (x.heap child)) le ∙ lc,
        λ q a b. ap (λ (x : Editor). links (x.heap q)) le ∙ link_child-other e parent child d q a b,
        unlink f parent child d,
        ap (detach child) le
            ∙ detach-unlink f parent child d (link_child-frozen e parent child ∙ mutable) owner
                there,
        λ q. elim (Bool-cases (parent == q)) [
          | inl a ↦
              subst (λ r. links ((unlink f parent child d).heap r) ≡ links (e.heap r)) {x = parent}
                {y = q} (ground arith)
                (unlink-parent f parent child d
                  ∙ ap (λ (l : Links). record l { children = remove_first child l.children }) lp
                  ∙ ap (λ c. record (links (e.heap parent)) { children = c })
                      (remove_first-snoc child (e.heap parent).children apart))
          | inr a ↦ elim (Bool-cases (child == q)) [
            | inl b ↦
                subst (λ r. links ((unlink f parent child d).heap r) ≡ links (e.heap r)) {x = child}
                  {y = q} (ground arith)
                  (unlink-child f parent child d
                    ∙ ap (λ (l : Links). record l { parent = none }) lc
                    ∙ ap (λ o. record (links (e.heap child)) { parent = o }) (sym orphan))
            | inr b ↦
                unlink-other f parent child d q (ground arith) (ground arith)
                ∙ link_child-other e parent child d q (ground arith) (ground arith)
          ]
        ],
      )
