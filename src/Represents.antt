-- ===== src/Represents.antt =====
-- A world whose memory is exactly the chain of a queue's chunks, and what a node's chunk is there.
use lockless_event_queue.Base.{◌≡◌, sym, ◌∙◌, false, none, ◌∷◌, ◌++◌}
use lockless_event_queue.DynamicChunk.{Ptr}
use lockless_event_queue.Heap
use lockless_event_queue.Node.{Node, chunk_of}
use lockless_event_queue.Chain.{
  Chain, head_ptr, last_ptr, has, IsChain, Holds, find-middle, find-replace,
}
use lockless_event_queue.Heap.Laws.{read-write}
use lockless_event_queue.World.{World}

-- Without the cargo feature no chunk is kept for reuse.
pub record Represents {T : Type 0} (w : World T) (ns : Chain T) : Type 0 where
  pub held : Holds w.heap ns
  pub chain : IsChain ns
  pub first : w.list.first ≡ head_ptr ns
  pub last : w.list.last ≡ last_ptr ns
  pub no_free_chunk : w.list.free_chunk ≡ none

module _ {T : Type 0} where
  -- A write through the address of a node.
  pub Holds-write :
      (h : Heap.Heap T) (xs : Chain T) (p : Ptr) (n m : Node T) (ys : Chain T)
      → has p xs ≡ false
      → Holds h (xs ++ (p, n) ∷ ys)
      → Holds (Heap.write p (chunk_of m (head_ptr ys)) h) (xs ++ (p, m) ∷ ys)
  Holds-write h xs p n m ys out held q =
      read-write p q (chunk_of m (head_ptr ys)) (chunk_of n (head_ptr ys)) h
        (held p ∙ find-middle p n xs ys out)
      ∙ rw (held q) (sym (find-replace p q n m xs ys out))
