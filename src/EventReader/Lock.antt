-- ===== src/EventReader/Lock.antt =====
-- The fast forward of src/event_reader.rs, computed up to the cleanup at its end.
use lockless_event_queue.Base.{
  ◌≡◌, true, false, Option, none, some, ◌&&◌, leb, if◌then◌else◌, inl, inr, Bool-cases, not,
}
use lockless_event_queue.DynamicChunk
use lockless_event_queue.DynamicChunk.{Ptr, add_usize}
use lockless_event_queue.Heap
use lockless_event_queue.Heap.{Heap}
use lockless_event_queue.Node.{Node, chunk_of, entered-chunk_of, read-chunk_of}
use lockless_event_queue.Node.Methods.{mark_read-chunk_of}
use lockless_event_queue.World.{World, Cursor, Cmd, pure, ◌>>=◌, unlock_start, modify, when}
use lockless_event_queue.World.Commands.{load-ok, modify-ok, lock_start-ok}
use lockless_event_queue.EventQueue.Settings.{Settings, is_on_chunk_read}
use lockless_event_queue.EventQueue.Cleanup.{cleanup}
use lockless_event_queue.EventQueue.Start.{cursor_is_lt}
use lockless_event_queue.EventQueue.Life.{EventReader}
use lockless_event_queue.Attendance.{left_once}
use lockless_event_queue.EventReader.{leave_chunk, fast_forward}

module _ {T : Type 0} where
  -- The command `leave_chunk`, up to its cleanup.
  pub leave_chunk-runs :
      (S : Settings) (p : Ptr) (n : Node T) (next : Ptr) (w : World T)
      → Heap.read p w.heap ≡ some (chunk_of n next)
      → leave_chunk S p w
        ≡ when
            (is_on_chunk_read S.cleanup && leb n.entered (add_usize n.read 1))
            (cleanup S)
            (record w {
              heap = Heap.write p (chunk_of (left_once n) next) w.heap;
              start_lock = false;
            })
  unfolding leave_chunk unlock_start
  leave_chunk-runs S p n next w here = elim (Bool-cases (is_on_chunk_read S.cleanup)) [
    | inl e ↦ rw (
      e,
      load-ok p w here,
      modify-ok p w here DynamicChunk.mark_read,
      mark_read-chunk_of n next,
      entered-chunk_of n next,
      read-chunk_of n next,
    )
    | inr e ↦ rw (e, modify-ok p w here DynamicChunk.mark_read, mark_read-chunk_of n next)
  ]

  -- What `fast_forward` does under the lock on the start position.
  abbrev pub under_lock : Settings → EventReader → Option Cursor → Cmd T EventReader
  under_lock S this none = unlock_start >>= λ _. pure this
  under_lock S this (some start_position) = cursor_is_lt this.position start_position >>= λ behind.
      if not behind
      then (unlock_start >>= λ _. pure this)
      else modify start_position.chunk DynamicChunk.enter >>= λ _.
          leave_chunk S this.position.chunk >>= λ _.
          pure (record this { position = start_position })

  pub fast_forward-locked :
      (S : Settings) (r : EventReader) (start : Option Cursor) (w : World T)
      → w.start_lock ≡ false
      → w.start_position ≡ start
      → fast_forward S r w ≡ under_lock S r start (record w { start_lock = true })
  unfolding fast_forward
  fast_forward-locked S r none w free same = rw (lock_start-ok w free, same)
  fast_forward-locked S r (some c) w free same = rw (lock_start-ok w free, same)
