-- ===== src/Heap/Laws.antt =====
-- Reads of a written and of an erased heap, and the number of rounds that a heap bounds.
use lockless_event_queue.Base.{
  ◌≤◌, ◌<◌, ◌≡◌, refl, none, some, [], ◌∷◌, arith, ◌==◌, if◌then◌else◌, length,
}
use lockless_event_queue.DynamicChunk.{Ptr, DynamicChunk}
use lockless_event_queue.Heap.{Heap, read, write, erase}

module _ {T : Type 0} where
  pub read-write :
      (p q : Ptr) (c d : DynamicChunk T) (h : Heap T)
      → read p h ≡ some d
      → read q (write p c h) ≡ (if p == q then some c else read q h)
  unfolding read write
  read-write p q c d [] e = ground arith
  read-write p q c d ((r, b) ∷ h) e = ground (arith, read-write p q c d h)

  pub read-erase :
      (p q : Ptr) (h : Heap T) → read q (erase p h) ≡ (if p == q then none else read q h)
  unfolding read erase
  read-erase p q [] = ground arith
  read-erase p q ((r, b) ∷ h) = ground (arith, read-erase p q h)

  pub length-write : (p : Ptr) (c : DynamicChunk T) (h : Heap T) → length (write p c h) ≡ length h
  unfolding write
  length-write p c [] = refl
  length-write p c ((r, b) ∷ h) = ground (arith, length-write p c h)

  length-erase-le : (p : Ptr) (h : Heap T) → length (erase p h) ≤ length h
  unfolding erase
  length-erase-le p [] = omega arith
  length-erase-le p ((r, b) ∷ h) = ground (arith, length-erase-le p h)

  pub length-erase :
      (p : Ptr) (d : DynamicChunk T) (h : Heap T)
      → read p h ≡ some d
      → length (erase p h) < length h
  unfolding read erase
  length-erase p d [] e = ground arith
  length-erase p d ((r, b) ∷ h) e = ground (arith, length-erase p d h, length-erase-le p h)
