-- ===== src/EventQueue/Push/AddChunk.antt =====
-- `add_chunk_sized` of src/event_queue.rs on a chain, without the cargo feature.
use lockless_event_queue.Base.{ℕ, ◌≡◌, ◌%◌, ◌^◌, false, some, ◌∷◌, arith, ◌==◌}
use lockless_event_queue.DynamicChunk.{Ptr, null, DynamicChunk, add_usize}
use lockless_event_queue.Heap
use lockless_event_queue.Heap.{Heap, Allocates}
use lockless_event_queue.Node.{
  Node, IsNode, chunk_of, fresh, state-chunk_of, capacity-chunk_of, epoch-chunk_of,
  set_next-chunk_of,
}
use lockless_event_queue.Node.Methods.{construct-chunk_of}
use lockless_event_queue.World.{World, ok}
use lockless_event_queue.World.Commands.{load-ok, store-ok}
use lockless_event_queue.EventQueue.Settings.{Settings}
use lockless_event_queue.EventQueue.Push.{allocate, new_chunk, add_chunk_sized}

module _ {T : Type 0} (alloc : Heap T → Ptr) (allocates : Allocates alloc) (S : Settings)
    (off : S.double_buffering ≡ false) where
  -- The node that `add_chunk_sized` appends to a world's list, and the world with it.
  abbrev pub appended : Node T → ℕ → World T → Node T
  appended n size w = fresh (add_usize w.list.chunk_id_counter 1) size n.epoch

  abbrev pub linked : Node T → ℕ → World T → World T
  linked n size w =
      let q = alloc w.heap in
      record w {
        heap =
            Heap.write w.list.last (chunk_of n q) ((q, chunk_of (appended n size w) null) ∷ w.heap);
        list = record (w.list) {
          last = q;
          chunk_id_counter = add_usize w.list.chunk_id_counter 1;
          penult_chunk_size = n.cap % 2 ^ 32;
          total_capacity = add_usize w.list.total_capacity size;
        };
      }

  pub alloc-ne :
      (w : World T) (p : Ptr) (c : DynamicChunk T)
      → Heap.read p w.heap ≡ some c
      → (alloc w.heap == p) ≡ false
  alloc-ne w p c e = ground (arith, allocates w.heap, e)

  -- The world between the allocation and the link.
  abbrev allocated : Node T → ℕ → World T → World T
  allocated n size w = record w {
    heap = (alloc w.heap, chunk_of (appended n size w) null) ∷ w.heap;
    list = record (w.list) { chunk_id_counter = add_usize w.list.chunk_id_counter 1 };
  }

  still :
      (n : Node T) (size : ℕ) (w : World T)
      → Heap.read w.list.last w.heap ≡ some (chunk_of n null)
      → Heap.read w.list.last (allocated n size w).heap ≡ some (chunk_of n null)
  unfolding Heap.read
  still n size w e = rw (alloc-ne w w.list.last (chunk_of n null) e) e

  pub add_chunk_sized-ok :
      {n : Node T} (v : IsNode n) (size : ℕ) (w : World T)
      → Heap.read w.list.last w.heap ≡ some (chunk_of n null)
      → add_chunk_sized alloc S size w ≡ ok (alloc w.heap) (linked n size w)
  unfolding add_chunk_sized new_chunk allocate
  add_chunk_sized-ok {n} v size w e =
      rw
        (
          load-ok w.list.last w e,
          off,
          state-chunk_of n null,
          epoch-chunk_of v null,
          construct-chunk_of (add_usize w.list.chunk_id_counter 1) size n.epoch v.epoch_small,
        )
        (rw (load-ok w.list.last (allocated n size w) (still n size w e)) (
          rw (
            set_next-chunk_of v null (alloc w.heap),
            capacity-chunk_of n null,
            store-ok w.list.last (allocated n size w) (still n size w e)
                (chunk_of n (alloc w.heap)),
          )))
