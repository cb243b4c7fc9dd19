-- ===== src/Heap.antt =====
-- Allocations: an association list from addresses to chunks.
pub mod Laws
use lockless_event_queue.Base.{
  ℕ, ◌≡◌, ◌≢◌, refl, Bool, true, false, Option, none, some, List, [], ◌∷◌, arith, ◌==◌,
  if◌then◌else◌,
}
use lockless_event_queue.DynamicChunk.{Ptr, null, DynamicChunk}

abbrev pub Heap : Type 0 → Type 0
Heap T = List (Ptr × DynamicChunk T)

module _ {T : Type 0} where
  unfoldable pub read : Ptr → Heap T → Option (DynamicChunk T)
  read p [] = none
  read p ((q, c) ∷ h) = if q == p then some c else read p h

  unfoldable pub write : Ptr → DynamicChunk T → Heap T → Heap T
  write p c [] = []
  write p c ((q, d) ∷ h) = if q == p then (q, c) ∷ h else (q, d) ∷ write p c h

  unfoldable pub erase : Ptr → Heap T → Heap T
  erase p [] = []
  erase p ((q, d) ∷ h) = if q == p then erase p h else (q, d) ∷ erase p h

-- What the code relies on of the allocator: a new chunk is at an address that is not null and not
-- in use.
abbrev pub Allocates : {T : Type 0} → (Heap T → Ptr) → Type 0
Allocates {T} alloc = (h : Heap T) → (alloc h ≢ null) × (read (alloc h) h ≡ none)
