-- ===== src/EventQueue/Cleanup/FreeChunk.antt =====
-- `free_chunk` of src/event_queue.rs on the chunk of a node, without the cargo feature.
use lockless_event_queue.Base.{
  ◌≡◌, ◌∙◌, Bool, false, ◌&&◌, Option, none, some, ◌++◌, arith, ◌==◌, if◌then◌else◌, replicate,
  ==_refl,
}
use lockless_event_queue.DynamicChunk.{Ptr, DynamicChunk}
use lockless_event_queue.Heap
use lockless_event_queue.Heap.Laws.{read-write}
use lockless_event_queue.Node.{Node, IsNode, chunk_of}
use lockless_event_queue.Node.Methods.{recycle-chunk_of}
use lockless_event_queue.World.{World, Cursor, ok, lock_start, unlock_start}
use lockless_event_queue.World.Commands.{load-ok, store-ok, free-ok}
use lockless_event_queue.EventQueue.Settings.{Settings}
use lockless_event_queue.EventQueue.Cleanup.{
  sub_usize, recycle_at, destruct_at, forget_start, free_chunk,
}

-- A start position in the chunk at `p` is given up.
abbrev pub forget : Ptr → Option Cursor → Option Cursor
forget p none = none
forget p (some c) = if c.chunk == p then none else some c

module _ {T : Type 0} where
  forget_start-ok :
      (b : Bool) (p : Ptr) (w : World T)
      → (b && w.start_lock) ≡ false
      → forget_start b p w ≡ ok tt (record w { start_position = forget p w.start_position })
  unfolding forget_start lock_start unlock_start
  forget_start-ok b p w h = ground arith

  -- The world after the chunk of `n` at `p` is gone.
  abbrev pub without : Ptr → Node T → Ptr → World T → World T
  without p n next w = record w {
    heap =
        Heap.erase p
          (Heap.write p (record (chunk_of n next) { array = replicate n.cap none }) w.heap);
    list = record (w.list) { total_capacity = sub_usize w.list.total_capacity n.cap };
    start_position = forget p w.start_position;
    dropped = w.dropped ++ n.items;
  }

  abbrev pub cleared : Node T → Ptr → DynamicChunk T
  cleared n next = record (chunk_of n next) { array = replicate n.cap none }

  module _ {n : Node T} (v : IsNode n) (p next : Ptr) (w : World T)
      (e : Heap.read p w.heap ≡ some (chunk_of n next)) where
    pub recycle_at-ok :
        recycle_at p w
        ≡ ok tt (record w {
          heap = Heap.write p (cleared n next) w.heap;
          dropped = w.dropped ++ n.items;
        })
    unfolding recycle_at
    recycle_at-ok =
        rw (load-ok p w e, recycle-chunk_of v next)
          (store-ok p (record w { dropped = w.dropped ++ n.items }) e (cleared n next))

    pub destruct_at-ok :
        destruct_at p w
        ≡ ok tt (record w {
          heap = Heap.erase p (Heap.write p (cleared n next) w.heap);
          dropped = w.dropped ++ n.items;
        })
    unfolding destruct_at
    destruct_at-ok = rw recycle_at-ok (
        free-ok p {c = cleared n next}
          (record w { heap = Heap.write p (cleared n next) w.heap; dropped = w.dropped ++ n.items })
          (read-write p p (cleared n next) (chunk_of n next) w.heap e ∙ rw (==_refl p)))

  pub free_chunk-ok :
      (S : Settings) (b : Bool) {n : Node T} (v : IsNode n) (p next : Ptr) (w : World T)
      → S.double_buffering ≡ false
      → (b && w.start_lock) ≡ false
      → Heap.read p w.heap ≡ some (chunk_of n next)
      → free_chunk S b p w ≡ ok tt (without p n next w)
  unfolding free_chunk chunk_of
  free_chunk-ok S b {n} v p next w off unlocked e =
      rw (forget_start-ok b p w unlocked, off)
        (rw (load-ok p (record w { start_position = forget p w.start_position }) e) (
          destruct_at-ok v p next
            (record w {
              list = record (w.list) { total_capacity = sub_usize w.list.total_capacity n.cap };
              start_position = forget p w.start_position;
            })
            e))
