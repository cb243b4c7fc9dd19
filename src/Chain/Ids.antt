-- ===== src/Chain/Ids.antt =====
-- The node at an address of a chain, as a reader or a writer finds it.
use lockless_event_queue.Base.{
  ℕ, ◌≡◌, ◌∙◌, false, true, Bool-cases, inl, inr, some, [], ◌∷◌, ◌++◌, arith, ◌==◌, if◌then◌else◌,
  ==_refl,
}
use lockless_event_queue.DynamicChunk.{Ptr}
use lockless_event_queue.Heap
use lockless_event_queue.Heap.{Heap}
use lockless_event_queue.Node.{Node, chunk_of}
use lockless_event_queue.Chain.{Chain, head_ptr, has, find, IsChain, Holds, find-middle}
use lockless_event_queue.Chain.Append.{IsChain-middle}

module _ {T : Type 0} where
  -- The id of the node at an address.
  abbrev pub id_at : Ptr → Chain T → ℕ
  id_at p [] = 0
  id_at p ((q, n) ∷ ns) = if q == p then n.id else id_at p ns

  pub id_at-middle :
      (xs : Chain T) (p : Ptr) (n : Node T) (ys : Chain T)
      → has p xs ≡ false
      → id_at p (xs ++ (p, n) ∷ ys) ≡ n.id
  id_at-middle [] p n ys out = rw (==_refl p)
  id_at-middle ((q, m) ∷ xs) p n ys out = ground (arith, id_at-middle xs p n ys)

  pub held_at :
      (h : Heap T) (xs : Chain T) (p : Ptr) (n : Node T) (ys : Chain T)
      → IsChain (xs ++ (p, n) ∷ ys)
      → Holds h (xs ++ (p, n) ∷ ys)
      → Heap.read p h ≡ some (chunk_of n (head_ptr ys))
  held_at h xs p n ys chain held = held p ∙ find-middle p n xs ys (IsChain-middle xs p n ys chain).1

  -- What is at an address of the list.
  pub found_at :
      (p : Ptr) (ns : Chain T)
      → has p ns ≡ true
      → (n : Node T) × (next : Ptr) × (find p ns ≡ some (chunk_of n next)) × (id_at p ns ≡ n.id)
  found_at p [] i = absurd (cc)
  found_at p ((q, m) ∷ ns) i = elim (Bool-cases (q == p)) [
    | inl e ↦ (m, head_ptr ns, rw e, rw e)
    | inr e ↦
        let (n, next, f, g) = found_at p ns (ground (arith, i, e)) in (n, next, rw e f, rw e g)
  ]
