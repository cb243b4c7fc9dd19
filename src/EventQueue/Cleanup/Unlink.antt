-- ===== src/EventQueue/Cleanup/Unlink.antt =====
-- A chunk in the middle of the list that `force_cleanup_impl` of src/event_queue.rs unlinks and frees.
use lockless_event_queue.Base.{◌≡◌, false, none, some, [], ◌∷◌, ◌++◌, arith, ◌==◌, if◌then◌else◌}
use lockless_event_queue.DynamicChunk.{Ptr, DynamicChunk}
use lockless_event_queue.Heap.{Heap, read, write, erase}
use lockless_event_queue.Heap.Laws.{read-write, read-erase}
use lockless_event_queue.Node.{Node, chunk_of}
use lockless_event_queue.Chain.{
  Chain, head_ptr, has, find, IsChain, Holds, head_ptr-middle, has-append, find-absent,
}

module _ {T : Type 0} where
  find-unlink :
      (xs : Chain T) (p : Ptr) (n : Node T) (q : Ptr) (m : Node T) (rest : Chain T) (r : Ptr)
      → has p xs ≡ false
      → has q xs ≡ false
      → (p == q) ≡ false
      → has q rest ≡ false
      → find r (xs ++ (p, n) ∷ rest) ≡ (
          if q == r
          then none
          else if p == r
          then some (chunk_of n (head_ptr rest))
          else find r (xs ++ (p, n) ∷ (q, m) ∷ rest))
  find-unlink [] p n q m rest r hp hq ne out = ground (arith, find-absent q rest out)
  find-unlink ((s, j) ∷ xs) p n q m rest r hp hq ne out =
      ground (arith, head_ptr-middle p n n xs rest ((q, m) ∷ rest), find-unlink xs p n q m rest r)

  pub IsChain-unlink :
      (xs : Chain T) (q : Ptr) (m : Node T) (rest : Chain T)
      → IsChain (xs ++ (q, m) ∷ rest)
      → IsChain (xs ++ rest)
  IsChain-unlink [] q m rest v = v.3
  IsChain-unlink ((s, j) ∷ xs) q m rest v = (
    v.0,
    ground (arith, v.1, has-append s xs ((q, m) ∷ rest), has-append s xs rest),
    v.2,
    IsChain-unlink xs q m rest v.3,
  )

  pub Holds-unlink :
      (h : Heap T) (xs : Chain T) (p : Ptr) (n : Node T) (q : Ptr) (m : Node T) (rest : Chain T)
      (c : DynamicChunk T)
      → has p xs ≡ false
      → has q xs ≡ false
      → (p == q) ≡ false
      → has q rest ≡ false
      → Holds h (xs ++ (p, n) ∷ (q, m) ∷ rest)
      → read p h ≡ some (chunk_of n q)
      → read q h ≡ some (chunk_of m (head_ptr rest))
      → Holds (erase q (write q c (write p (chunk_of n (head_ptr rest)) h))) (xs ++ (p, n) ∷ rest)
  Holds-unlink h xs p n q m rest c hp hq ne out held here there r =
      let h' = write p (chunk_of n (head_ptr rest)) h in
      let first = read-write p r (chunk_of n (head_ptr rest)) (chunk_of n q) h here in
      let at_q = read-write p q (chunk_of n (head_ptr rest)) (chunk_of n q) h here in
      ground (
        arith,
        find-unlink xs p n q m rest r hp hq ne out,
        read-erase q r (write q c h'),
        read-write q r c (chunk_of m (head_ptr rest)) h',
        first,
        at_q,
        held r,
        there,
      )
