-- ===== src/EventQueue/Foreach/Walk.antt =====
-- One round of `foreach_chunk_ptr_mut`, by what stands at the address.
use lockless_event_queue.Base.{ℕ, suc, ◌≡◌, ◌≢◌, refl, false, some, ◌==◌, ==_ne, ==_refl}
use lockless_event_queue.DynamicChunk.{Ptr, null, DynamicChunk, next}
use lockless_event_queue.Heap
use lockless_event_queue.World.{World, Cmd, Stop, ok, stop}
use lockless_event_queue.World.Commands.{load-ok}
use lockless_event_queue.EventQueue.Foreach.{ControlFlow, continue, break, walk}

module _ {T V : Type 0} (end : Ptr) (func : V → Ptr → Cmd T (V × ControlFlow)) (k : ℕ) (v : V)
    (w : World T) where
  pub walk-null : walk end func (suc k) null v w ≡ ok v w
  unfolding walk
  walk-null = refl

  pub walk-end : end ≢ null → walk end func (suc k) end v w ≡ ok v w
  unfolding walk
  walk-end ne = rw (==_ne end null ne, ==_refl end)

  module _ (p : Ptr) {c : DynamicChunk T} {v' : V} {w' : World T} (ne : p ≢ null)
      (on : (p == end) ≡ false) (e : Heap.read p w.heap ≡ some c) where
    pub walk-continue :
        func v p w ≡ ok (v', continue) w'
        → walk end func (suc k) p v w ≡ walk end func k (next c) v' w'
    unfolding walk
    walk-continue step = rw (==_ne p null ne, on, load-ok p w e, step)

    pub walk-break : func v p w ≡ ok (v', break) w' → walk end func (suc k) p v w ≡ ok v' w'
    unfolding walk
    walk-break step = rw (==_ne p null ne, on, load-ok p w e, step)

  pub walk-stop :
      (p : Ptr) {c : DynamicChunk T} (s : Stop)
      → p ≢ null
      → (p == end) ≡ false
      → Heap.read p w.heap ≡ some c
      → func v p w ≡ stop s
      → walk end func (suc k) p v w ≡ stop s
  unfolding walk
  walk-stop p s ne on e step = rw (==_ne p null ne, on, load-ok p w e, step)
