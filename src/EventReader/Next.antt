-- ===== src/EventReader/Next.antt =====
-- `Iter::next` of src/event_reader.rs on a chain, from a snapshot of the chunk that may be old.
use lockless_event_queue.Base.{
  ℕ, ◌+◌, ◌%◌, ◌^◌, ◌≤◌, ◌<◌, ◌≡◌, ap, ◌∙◌, Bool, false, true, none, some, arith, ◌==◌, of_bool,
  length, get_elem?, ==_ne,
}
use lockless_event_queue.ChunkState
use lockless_event_queue.ChunkState.Fields.{len-word, has_next-word}
use lockless_event_queue.DynamicChunk.{Ptr}
use lockless_event_queue.Heap
use lockless_event_queue.Heap.{Heap}
use lockless_event_queue.Node.{Node, IsNode, chunk_of}
use lockless_event_queue.Node.Methods.{get_unchecked-chunk_of}
use lockless_event_queue.World.{World, ok}
use lockless_event_queue.World.Commands.{load-ok}
use lockless_event_queue.Attendance.{Snapshot, snapshot_word}
use lockless_event_queue.EventReader.{Iter, take_item, iter_next}

flag-lt : (b : Bool) → of_bool b < 2
flag-lt b = ground arith

module _ {T : Type 0} (it : Iter) (w : World T) (n : Node T) (v : IsNode n) (next : Ptr)
    (s : Snapshot) (snapshot : it.state ≡ snapshot_word s) (earlier : s.len ≤ length n.items)
    (small : s.epoch < 2 ^ 31)
    (held : Heap.read it.position.chunk w.heap ≡ some (chunk_of n next)) where
  pub len-snapshot : ChunkState.len it.state ≡ s.len
  len-snapshot =
      ap ChunkState.len snapshot ∙ len-word (omega (arith, v, earlier)) (flag-lt s.has_next) small

  pub has_next-snapshot : ChunkState.has_next it.state ≡ s.has_next
  has_next-snapshot =
      ap ChunkState.has_next snapshot
      ∙ has_next-word (omega (arith, v, earlier)) (flag-lt s.has_next) small
      ∙ ground arith

  pub take_item-ok :
      (x : T)
      → it.position.index < length n.items
      → get_elem? n.items it.position.index ≡ some x
      → take_item it w
        ≡ ok
            (
              some x,
              record it { position = record (it.position) { index = it.position.index + 1 } },
            )
            w
  unfolding take_item
  take_item-ok x in_chunk here =
      rw
        (
          load-ok it.position.chunk w held,
          get_unchecked-chunk_of v next it.position.index in_chunk,
          here,
        )
        (ap (λ (k : ℕ). ok (some x, record it { position = record (it.position) { index = k } }) w)
          (omega (arith, v, in_chunk)))

  -- Within the snapshot, the next item of the chunk.
  pub next-item :
      (x : T)
      → it.position.index < s.len
      → get_elem? n.items it.position.index ≡ some x
      → iter_next it w
        ≡ ok
            (
              some x,
              record it { position = record (it.position) { index = it.position.index + 1 } },
            )
            w
  unfolding iter_next
  next-item x within here =
      rw
        (len-snapshot, ==_ne (it.position.index % 2 ^ 32) s.len (omega (arith, v, earlier, within)))
        (take_item-ok x (omega (arith, within, earlier)) here)

  pub at_end :
      it.position.index ≡ s.len → (it.position.index % 2 ^ 32 == ChunkState.len it.state) ≡ true
  at_end e = ground (arith, len-snapshot, v, earlier, e)

  -- At the end of the last chunk, nothing.
  pub next-end : it.position.index ≡ s.len → s.has_next ≡ false → iter_next it w ≡ ok (none, it) w
  unfolding iter_next
  next-end e alone = rw (at_end e, has_next-snapshot, alone)
