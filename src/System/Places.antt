-- ===== src/System/Places.antt =====
-- The chunks that a reader of src/event_reader.rs is in, and the chunks that nobody is in.
use lockless_event_queue.Base.{
  ℕ, ◌<◌, ◌≡◌, sym, subst, true, some, [], ◌∷◌, ◌++◌, length, inl, inr, arith, ◌==◌, Bool-cases,
  ==_refl,
}
use lockless_event_queue.DynamicChunk.{Ptr, DynamicChunk, next}
use mathlib.Core.List.{append_assoc}
use lockless_event_queue.Heap
use lockless_event_queue.Heap.{Heap, Allocates}
use lockless_event_queue.Node.{Node, chunk_of, next-chunk_of}
use lockless_event_queue.Chain.{Chain, Holds, has, head_ptr, IsChain}
use lockless_event_queue.Chain.Ids.{held_at}
use lockless_event_queue.EventQueue.Cleanup.InOrder.{kept}
use lockless_event_queue.Attendance.{Counts}
use lockless_event_queue.EventReader.Seats.{Session, resting, reading}

-- The chunk that a reader is in.
abbrev pub chunk_in : Session → Ptr
chunk_in (resting r) = r.position.chunk
chunk_in (reading it) = it.position.chunk

-- The chunk from which on it is counted.
abbrev pub began_in : Session → Ptr
began_in (resting r) = r.position.chunk
began_in (reading it) = it.event_reader.position.chunk

-- The links from an address on lead to the chunk at `q`, and all chunks on the way, both ends
-- included, are allocated.
pub data Leads {T : Type 0} (h : Heap T) (q : Ptr) : Ptr → Type 0 where
  there : (c : DynamicChunk T) → Heap.read q h ≡ some c → Leads h q q
  passes :
      {p : Ptr} (c : DynamicChunk T) → Heap.read p h ≡ some c → Leads h q (next c) → Leads h q p

module _ {T : Type 0} where
  pub path_held :
      (h : Heap T) (xs passed : Chain T) (p : Ptr) (n : Node T) (ys : Chain T)
      → IsChain (xs ++ (passed ++ (p, n) ∷ ys))
      → Holds h (xs ++ (passed ++ (p, n) ∷ ys))
      → Leads h p (head_ptr (passed ++ (p, n) ∷ ys))
  path_held h xs [] p n ys chain held = there _ (held_at h xs p n ys chain held)
  path_held h xs ((j, m) ∷ passed) p n ys chain held =
      let rest = passed ++ (p, n) ∷ ys in
      let moved = sym (append_assoc xs ((j, m) ∷ []) rest) in
      passes (chunk_of m (head_ptr rest)) (held_at h xs j m rest chain held) (
        subst (Leads h p) (sym (next-chunk_of m (head_ptr rest))) (
          path_held h (xs ++ (j, m) ∷ []) passed p n ys (subst IsChain moved chain)
            (subst (Holds h) moved held)))

  -- The first node is the last one too, or somebody is in it.
  abbrev pub FirstBusy : (Ptr → ℕ) → Chain T → Type 0
  FirstBusy inside [] = ⊥
  FirstBusy inside (x ∷ []) = Unit
  FirstBusy inside ((p, n) ∷ y ∷ ns) = 0 < inside p

  -- Nobody is in any of the chunks.
  abbrev pub Vacant : (Ptr → ℕ) → Chain T → Type 0
  Vacant inside [] = Unit
  Vacant inside ((p, n) ∷ ns) = (inside p ≡ 0) × Vacant inside ns

  pub Vacant-has :
      (inside : Ptr → ℕ) (ns : Chain T)
      → ((p : Ptr) → has p ns ≡ true → inside p ≡ 0)
      → Vacant inside ns
  Vacant-has inside [] empty = tt
  Vacant-has inside ((p, n) ∷ ns) empty = (
    empty p (ground (arith, ==_refl p)),
    Vacant-has inside ns (λ q here. empty q (ground (arith, here))),
  )

  pub FirstBusy-kept :
      (inside : Ptr → ℕ) (ns : Chain T)
      → 0 < length ns
      → Counts inside ns
      → FirstBusy inside (kept ns)
  FirstBusy-kept inside [] more c = absurd (omega (arith, more))
  FirstBusy-kept inside (x ∷ []) more c = tt
  FirstBusy-kept inside ((p, n) ∷ y ∷ ns) more c = elim (Bool-cases (n.entered == n.read)) [
    | inl e ↦ rw e (FirstBusy-kept inside (y ∷ ns) (omega arith) c.2)
    | inr e ↦ rw e (ground (arith, e, c.0, c.1))
  ]
