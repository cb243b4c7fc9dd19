-- ===== src/EventQueue/Cleanup.antt =====
-- `free_chunk`, `cleanup_impl`, `force_cleanup_impl` and `cleanup` of src/event_queue.rs, with
-- `destruct` and `recycle` of src/dynamic_chunk.rs at an address.
pub mod FreeChunk
pub mod InOrder
pub mod Impl
pub mod Unlink
pub mod Sweep
use lockless_event_queue.Base.{
  ℕ, ◌+◌, ◌-◌, ◌%◌, ◌^◌, Bool, true, false, not, Option, none, some, leb, ◌==◌, if◌then◌else◌,
}
use lockless_event_queue.DynamicChunk
use lockless_event_queue.DynamicChunk.{
  Ptr, null, DynamicChunk, next, capacity, readers_entered, read_completely_times,
}
use lockless_event_queue.World.{
  World, Cursor, ListState, Cmd, pure, defined, ◌>>=◌, ◌>>◌, skip, when, get_list, put_list,
  get_start, put_start, load, store, free, log_dropped, lock_list, unlock_list, lock_start,
  unlock_start,
}
use lockless_event_queue.EventQueue.Settings.{Settings}
use lockless_event_queue.EventQueue.Foreach.{ControlFlow, continue, break, foreach_chunk_ptr_mut}

-- `usize` subtraction
abbrev pub sub_usize : ℕ → ℕ → ℕ
sub_usize a b = (a + 2 ^ 64 - b) % 2 ^ 64

-- A chunk that as many readers have left as have entered it.
abbrev pub unoccupied : {T : Type 0} → DynamicChunk T → Bool
unoccupied chunk = readers_entered chunk == read_completely_times chunk

module _ {T : Type 0} where
  -- `DynamicChunk::recycle`
  unfoldable pub recycle_at : Ptr → Cmd T (Unit {0})
  recycle_at p = do
    chunk ← load p
    (items, recycled) ← defined (DynamicChunk.recycle chunk)
    log_dropped items
    store p recycled

  -- `DynamicChunk::destruct`: recycle, then `DynamicChunkRecycled::drop`
  unfoldable pub destruct_at : Ptr → Cmd T (Unit {0})
  destruct_at p = do recycle_at p; free p

  -- The first part of `free_chunk`: a start position in the chunk is given up.
  unfoldable pub forget_start : (lock_on_write_start_position : Bool) → Ptr → Cmd T (Unit {0})
  forget_start lock_on_write_start_position chunk = do
    start ← get_start
    elim start [
      | none ↦ skip
      | some start_position ↦ when (start_position.chunk == chunk) (
          if lock_on_write_start_position
          then (do lock_start; put_start none; unlock_start)
          else put_start none)
    ]

  -- `list.free_chunk = Some(DynamicChunk::recycle(chunk))`, which drops what was there
  unfoldable pub replace_free_chunk : Ptr → Cmd T (Unit {0})
  replace_free_chunk chunk = do
    recycle_at chunk
    list ← get_list
    elim list.free_chunk [ none ↦ skip | some old ↦ free old ]
    put_list (record list { free_chunk = some chunk })

  module _ (S : Settings) where
    unfoldable pub free_chunk : (lock_on_write_start_position : Bool) → Ptr → Cmd T (Unit {0})
    free_chunk lock_on_write_start_position chunk = do
      forget_start lock_on_write_start_position chunk
      this ← load chunk
      list ← get_list
      put_list (record list { total_capacity = sub_usize list.total_capacity (capacity this) })
      if S.double_buffering
          then (elim list.free_chunk [
            | none ↦ replace_free_chunk chunk
            | some recycled ↦ do
              biggest ← load recycled
              if leb (capacity this) (capacity biggest)
                  then destruct_at chunk
                  else replace_free_chunk chunk
          ])
          else destruct_at chunk

    -- The closure of `cleanup_impl`: only in order, so the chunk is the first.
    unfoldable pub cleanup_step : Unit {0} → Ptr → Cmd T (Unit {0} × ControlFlow)
    cleanup_step _ chunk_ptr = do
      chunk ← load chunk_ptr
      if not (unoccupied chunk) then pure (tt, break) else do
        free_chunk true chunk_ptr
        list ← get_list
        put_list (record list { first = next chunk })
        pure (tt, continue)

    unfoldable pub cleanup_impl : Cmd T (Unit {0})
    cleanup_impl = do
      list ← get_list
      foreach_chunk_ptr_mut list.first list.last cleanup_step tt
      list ← get_list
      when (list.first == list.last) (put_list (record list { penult_chunk_size = 0 }))

    -- The closure of `force_cleanup_impl`; its state is `prev_chunk`.
    unfoldable pub force_cleanup_step : Ptr → Ptr → Cmd T (Ptr × ControlFlow)
    force_cleanup_step prev_chunk chunk_ptr = do
      chunk ← load chunk_ptr
      if not (unoccupied chunk) then pure (chunk_ptr, continue) else do
        prev ← load prev_chunk
        store prev_chunk (DynamicChunk.set_next prev (next chunk))
        free_chunk false chunk_ptr
        pure (prev_chunk, continue)

    -- What `force_cleanup_impl` does with the start position's chunk, under its lock.
    unfoldable pub force_cleanup_to : Ptr → Cmd T (Unit {0})
    force_cleanup_to terminal_chunk = do
      list ← get_list
      if list.first == terminal_chunk then skip else do
        first ← load list.first
        foreach_chunk_ptr_mut (next first) terminal_chunk force_cleanup_step list.first
        skip

    unfoldable pub force_cleanup_impl : Cmd T (Unit {0})
    force_cleanup_impl = do
      cleanup_impl
      lock_start
      start ← get_start
      elim start [ none ↦ skip | some cursor ↦ force_cleanup_to cursor.chunk ]
      unlock_start

    unfoldable pub cleanup : Cmd T (Unit {0})
    cleanup = do lock_list; cleanup_impl; unlock_list
