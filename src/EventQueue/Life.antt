-- ===== src/EventQueue/Life.antt =====
-- `with_capacity`, `subscribe`, `unsubscribe` and `drop` of src/event_queue.rs. The `EventReader` of
-- src/event_reader.rs is declared here, since `subscribe` makes it.
use lockless_event_queue.Base.{
  ℕ, zero, suc, ◌+◌, ◌-◌, ◌%◌, ◌^◌, ◌&&◌, false, not, none, some, [], length, ◌==◌, if◌then◌else◌,
}
use lockless_event_queue.Utils.{Epoch, epoch_zero}
use lockless_event_queue.ChunkState
use lockless_event_queue.DynamicChunk
use lockless_event_queue.DynamicChunk.{Ptr, null, DynamicChunk, chunk_state, next}
use lockless_event_queue.Heap.{Heap}
use lockless_event_queue.World.{
  World, Cursor, Run, Cmd, ok, stop, panic, out_of_fuel, pure, halt, ◌>>=◌, ◌>>◌, skip, when,
  get_list, put_list, load, modify, free, lock_list, unlock_list,
}
use lockless_event_queue.EventQueue.Settings.{Settings, is_never, size_allowed}
use lockless_event_queue.EventQueue.Cleanup.{cleanup_impl, destruct_at}
use lockless_event_queue.EventQueue.Push.{allocate}

-- `EventReader`
pub record EventReader : Type 0 where
  pub position : Cursor
  pub start_position_epoch : Epoch

-- `u32` subtraction
abbrev pub sub_u32 : ℕ → ℕ → ℕ
sub_u32 a b = (a + 2 ^ 32 - b) % 2 ^ 32

module _ {T : Type 0} where
  -- The queue and its memory before the first chunk. `Arc::new` gives the first strong count.
  abbrev pub unlinked : ℕ → World T
  unlinked new_capacity = record {
    heap = [];
    list = record {
      first = null;
      last = null;
      chunk_id_counter = 0;
      total_capacity = new_capacity;
      readers_count = 0;
      penult_chunk_size = 0;
      free_chunk = none;
    };
    list_lock = false;
    start_position = none;
    start_lock = false;
    strong_count = 1;
    dropped = [];
  }

  unfoldable pub with_capacity : (Heap T → Ptr) → Settings → ℕ → Run T (Unit {0})
  with_capacity alloc S new_capacity =
      if size_allowed S new_capacity
      then (do
        node ← allocate alloc (DynamicChunk.construct 0 epoch_zero new_capacity)
        lock_list
        list ← get_list
        put_list (record list { first = node; last = node })
        unlock_list)
          (unlinked new_capacity)
      else stop panic

  -- The `while` of `drop`.
  unfoldable pub drop_chunks : ℕ → Ptr → Cmd T (Unit {0})
  drop_chunks zero node_ptr = halt out_of_fuel
  drop_chunks (suc fuel) node_ptr =
      if node_ptr == null
      then skip
      else do node ← load node_ptr; destruct_at node_ptr; drop_chunks fuel (next node)

  -- `Drop for EventQueue`, and the drop of the field `free_chunk` that follows it
  unfoldable pub drop : Cmd T (Unit {0})
  drop = do
    list ← get_list
    (λ w. drop_chunks (suc (length w.heap)) list.first w)
    elim list.free_chunk [ none ↦ skip | some recycled ↦ free recycled ]

  -- `Arc::increment_strong_count`
  abbrev pub increment_strong_count : Cmd T (Unit {0})
  increment_strong_count w = ok tt (record w { strong_count = w.strong_count + 1 })

  -- `Arc::decrement_strong_count`, and the drop of any handle of the queue: the last one drops the
  -- queue.
  unfoldable pub decrement_strong_count : Cmd T (Unit {0})
  decrement_strong_count w =
      let w' : World T = record w { strong_count = w.strong_count - 1 } in
      if w'.strong_count == 0 then drop w' else ok tt w'

  unfoldable pub subscribe : Cmd T EventReader
  subscribe = do
    list ← get_list
    when (list.readers_count == 0) increment_strong_count
    put_list (record list { readers_count = (list.readers_count + 1) % 2 ^ 32 })
    last_chunk ← load list.last
    let state = chunk_state last_chunk
    modify list.last DynamicChunk.enter
    pure (record {
      position = record { chunk = list.last; index = ChunkState.len state };
      start_position_epoch = ChunkState.epoch state;
    })

  -- `unsubscribe`, which is also `Drop for EventReader`
  unfoldable pub unsubscribe : Settings → EventReader → Cmd T (Unit {0})
  unsubscribe S event_reader = do
    lock_list
    modify event_reader.position.chunk DynamicChunk.mark_read
    list ← get_list
    when (S.cleanup_in_unsubscribe && not (is_never S.cleanup))
        (when (list.first == event_reader.position.chunk) (cleanup_impl S))
    list ← get_list
    put_list (record list { readers_count = sub_u32 list.readers_count 1 })
    unlock_list
    when (sub_u32 list.readers_count 1 == 0) decrement_strong_count
