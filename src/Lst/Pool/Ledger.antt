-- ===== src/Lst/Pool/Ledger.antt =====
-- ast_editor.go: ownership of the nodes, by the ledger of created nodes and by the free list.
use syntaxa.Prelude.{
  ℕ, zero, suc, ◌+◌, ◌≤◌, ◌<◌, ◌≡◌, ◌≢◌, refl, ap, ◌∙◌, false, Option, none, some, List, [], ◌∷◌,
  ◌++◌, length, take, drop, arith, ltb, ◌==◌, if◌then◌else◌, ok, panic, Panic, ◌⊎◌, inl, inr,
  Bool-cases,
}
use syntaxa.Lst.Heap.{
  zero_node, Pointer, NodeKind, Node, Editor, update, increment, node_reset_for_pool,
}
use syntaxa.Lst.Pool.{
  target_cap, new_pointers, pop_free, grow_free, node_acquire_from, node_acquire, fresh_node,
  new_node, release_nodes, truncate_created,
}

update_self : (h : Pointer → Node) (p : Pointer) (n : Node) → update h p n p ≡ n
update_self h p n = ground arith

update_other : (h : Pointer → Node) (p q : Pointer) (n : Node) → p ≢ q → update h p n q ≡ h q
update_other h p q n d = ground arith

-- How often a pointer stands in a list.
unfoldable pub count : Pointer → List Pointer → ℕ
count q [] = 0
count q (p ∷ ps) = (if p == q then 1 else 0) + count q ps

count-append : (q : Pointer) (xs ys : List Pointer) → count q (xs ++ ys) ≡ count q xs + count q ys
unfolding count
count-append q [] ys = omega arith
count-append q (x ∷ xs) ys = omega (arith, count-append q xs ys)

count-take-drop :
    (q : Pointer) (n : ℕ) (xs : List Pointer)
    → count q (take n xs) + count q (drop n xs) ≡ count q xs
unfolding count
count-take-drop q zero xs = omega arith
count-take-drop q (suc n) [] = omega arith
count-take-drop q (suc n) (x ∷ xs) = omega (arith, count-take-drop q n xs)

count-new_pointers :
    (q n p : ℕ)
    → count q (new_pointers n p) ≡ (if ltb q p then 0 else if ltb q (p + n) then 1 else 0)
unfolding count new_pointers
count-new_pointers q zero p = ground arith
count-new_pointers q (suc n) p = ground (arith, count-new_pointers q n p)

-- No pointer stands twice in the ledger and the free list together, and all were allocated.
pub record IsOwned (e : Editor) : Type 0 where
  pub once :
      (q : Pointer)
      → count q e.created + count q e.node_free ≤ (if ltb q e.next_pointer then 1 else 0)

-- What acquiring a node changes: it leaves the free list, which may have grown before.
pub record Acquired (e : Editor) (r : Pointer × Editor) : Type 0 where
  pub owned :
      (q : Pointer)
      → count q (r.1.created ++ r.0 ∷ []) + count q r.1.node_free
        ≤ (if ltb q r.1.next_pointer then 1 else 0)
  pub created : r.1.created ≡ e.created
  pub heap : r.1.heap ≡ e.heap
  pub next_id : r.1.next_id ≡ e.next_id

acquire_pop :
    (e : Editor) (p : Pointer) (free : List Pointer)
    → ((q : Pointer)
        → count q e.created + count q (p ∷ free) ≤ (if ltb q e.next_pointer then 1 else 0))
    → Acquired e (p, record e { node_free = free })
unfolding count
acquire_pop e p free h = record {
  owned = λ q. let c = count-append q e.created (p ∷ []) in let o = h q in ground arith;
  created = refl;
  heap = refl;
  next_id = refl;
}

target_cap-pos : (g : Option (ℕ → ℕ → ℕ)) (cap : ℕ) → 1 ≤ target_cap g cap
unfolding target_cap
target_cap-pos none cap = omega arith
target_cap-pos (some grow) cap = ground arith

-- A grown free list hands out the last of the new nodes.
acquire_grown :
    (n : ℕ) (e : Editor)
    → 1 ≤ n
    → e.node_free ≡ []
    → IsOwned e
    → Acquired e (
        pop_free (new_pointers n e.next_pointer) (record e {
          node_free = new_pointers n e.next_pointer;
          next_pointer = e.next_pointer + n;
        }))
unfolding pop_free new_pointers count
acquire_grown zero e h f v = absurd (omega arith)
acquire_grown (suc n) e h f v =
    let e' : Editor = record e {
      node_free = new_pointers (suc n) e.next_pointer;
      next_pointer = e.next_pointer + suc n;
    } in
    let a =
      acquire_pop e' (e.next_pointer + n) (new_pointers n e.next_pointer)
        (λ q. ground (arith, v.once q, ap (count q) f, count-new_pointers q n e.next_pointer)) in
    record { owned = a.owned; created = a.created; heap = a.heap; next_id = a.next_id }

acquire_from :
    (free : List Pointer) (e : Editor)
    → e.node_free ≡ free
    → IsOwned e
    → Acquired e (node_acquire_from free e)
unfolding node_acquire_from grow_free
acquire_from [] e h v =
    acquire_grown (target_cap e.node_grow (e.cap_node_free e.next_pointer)) e
      (target_cap-pos e.node_grow (e.cap_node_free e.next_pointer)) h v
acquire_from (p ∷ free) e h v = acquire_pop e p free (λ q. ground (arith, v.once q, ap (count q) h))

node_acquire-Acquired : (e : Editor) → IsOwned e → Acquired e (node_acquire e)
unfolding node_acquire
node_acquire-Acquired e v = acquire_from e.node_free e refl v

Acquired-fresh : (e : Editor) (r : Pointer × Editor) → Acquired e r → count r.0 e.created ≡ 0
unfolding count
Acquired-fresh e r a =
    let o = a.owned r.0 in
    let c = count-append r.0 r.1.created (r.0 ∷ []) in
    let k = ap (count r.0) a.created in ground arith

-- On a mutable editor `NewNode` returns a node that is not in the ledger, puts it at the ledger's end
-- and gives it the next id, the wanted kind and otherwise zero fields; no other node changes, and
-- ownership stays exact.
pub new_node_lem :
    (kind : NodeKind) (e : Editor)
    → IsOwned e
    → e.frozen ≡ false
    → (p : Pointer) × (e' : Editor) × (new_node kind e ≡ ok (p, e'))
      × IsOwned e'
      × (count p e.created ≡ 0)
      × (e'.created ≡ e.created ++ p ∷ [])
      × (e'.heap p ≡ record (zero_node kind) { id = increment e.next_id })
      × ((q : Pointer) → p ≢ q → e'.heap q ≡ e.heap q)
unfolding new_node
new_node_lem kind e v mutable =
    let a = node_acquire-Acquired e v in
    let p = (node_acquire e).0 in
    let e1 = (node_acquire e).1 in
    let id = increment e1.next_id in
    (
      p,
      record e1 {
        heap = update e1.heap p (fresh_node kind id (e1.heap p));
        next_id = id;
        created = e1.created ++ p ∷ [];
      },
      rw mutable,
      record { once = a.owned },
      Acquired-fresh e (node_acquire e) a,
      ap (λ l. l ++ p ∷ []) a.created,
      update_self e1.heap p (fresh_node kind id (e1.heap p))
          ∙ ap (λ (i : ℕ). record (zero_node kind) { id = increment i }) a.next_id,
      λ q d.
          update_other e1.heap p q (fresh_node kind id (e1.heap p)) d
          ∙ ap (λ (h : Pointer → Node). h q) a.heap,
    )

release_count :
    (ps : List Pointer) (e : Editor) (q : Pointer)
    → count q (release_nodes ps e).node_free ≡ count q ps + count q e.node_free
unfolding release_nodes count
release_count [] e q = omega arith
release_count (p ∷ ps) e q = ground (
  arith,
  release_count ps
      (record e {
        heap = update e.heap p (node_reset_for_pool (e.heap p));
        node_free = p ∷ e.node_free;
      })
      q,
)

-- What giving nodes back leaves alone.
pub release_rest :
    (ps : List Pointer) (e : Editor)
    → ((release_nodes ps e).next_pointer ≡ e.next_pointer)
      × ((release_nodes ps e).created ≡ e.created)
      × ((release_nodes ps e).frozen ≡ e.frozen)
unfolding release_nodes
release_rest [] e = (refl, refl, refl)
release_rest (p ∷ ps) e = release_rest ps (record e {
  heap = update e.heap p (node_reset_for_pool (e.heap p));
  node_free = p ∷ e.node_free;
})

release_heap :
    (ps : List Pointer) (e : Editor) (q : Pointer)
    → count q ps ≡ 0
    → (release_nodes ps e).heap q ≡ e.heap q
unfolding release_nodes count
release_heap [] e q h = refl
release_heap (p ∷ ps) e q h =
    release_heap ps
      (record e {
        heap = update e.heap p (node_reset_for_pool (e.heap p));
        node_free = p ∷ e.node_free;
      })
      q (ground arith)
    ∙ update_other e.heap p q (node_reset_for_pool (e.heap p)) (ground arith)

-- On an editor that is not frozen and whose ownership is exact, truncating the ledger to an earlier
-- length keeps exactly the older nodes in it, moves the younger ones to the free list, leaves every node
-- that is not one of these as it was, and keeps ownership exact; a length beyond the ledger's panics.
pub truncate_lem :
    (after : ℕ) (e : Editor)
    → IsOwned e
    → e.frozen ≡ false
    → ((length e.created < after) × (truncate_created after e ≡ panic Panic.truncate_out_of_range))
      ⊎ ((e' : Editor) × (truncate_created after e ≡ ok e')
          × IsOwned e'
          × (e'.created ≡ take after e.created)
          × ((q : Pointer)
              → count q e'.node_free ≡ count q (drop after e.created) + count q e.node_free)
          × ((q : Pointer) → count q (drop after e.created) ≡ 0 → e'.heap q ≡ e.heap q))
unfolding truncate_created
truncate_lem after e v mutable = elim (Bool-cases (ltb (length e.created) after)) [
  | inl h ↦ inl (ground arith, rw (mutable, h))
  | inr h ↦
      let ps = drop after e.created in
      inr (
        record (release_nodes ps e) { created = take after e.created },
        rw (mutable, h),
        record {
          once = λ q.
              let a = v.once q in
              let b = count-take-drop q after e.created in
              let c = release_count ps e q in let d = (release_rest ps e).0 in ground arith;
        },
        refl,
        release_count ps e,
        release_heap ps e,
      )
]
