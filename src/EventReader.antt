-- ===== src/EventReader.antt =====
-- src/event_reader.rs: a reader's position, and the iterator that is a session of reading. An
-- iterator borrows its reader, so it holds the reader, and its drop gives the reader back.
pub mod Next
pub mod Switch
pub mod Session
pub mod Onward
pub mod ReadAll
pub mod Marks
pub mod Drops
pub mod Seats
pub mod Answers
pub mod OneMore
pub mod Entering
pub mod NextKeeps
pub mod DropKeeps
pub mod Lock
pub mod Crossing
pub mod Forward
pub mod Opens
use lockless_event_queue.Base.{
  ℕ, ◌%◌, ◌^◌, Bool, true, false, not, Option, none, some, leb, ◌==◌, ◌&&◌, if◌then◌else◌,
}
use lockless_event_queue.Utils.{Epoch}
use lockless_event_queue.ChunkState
use lockless_event_queue.ChunkState.{PackedChunkState}
use lockless_event_queue.DynamicChunk
use lockless_event_queue.DynamicChunk.{
  Ptr, DynamicChunk, next, capacity, readers_entered, read_completely_times, chunk_state, add_usize,
}
use lockless_event_queue.World.{
  World, Cursor, Cmd, pure, defined, ◌>>=◌, ◌>>◌, skip, when, get_start, load, modify, lock_start,
  unlock_start,
}
use lockless_event_queue.EventQueue.Settings.{Settings, is_on_chunk_read}
use lockless_event_queue.EventQueue.Foreach.{ControlFlow, continue, foreach_chunk_ptr_mut}
use lockless_event_queue.EventQueue.Cleanup.{cleanup}
use lockless_event_queue.EventQueue.Start.{cursor_is_lt}
use lockless_event_queue.EventQueue.Life.{EventReader}

-- `Iter`
pub record Iter : Type 0 where
  pub position : Cursor
  pub state : PackedChunkState
  pub event_reader : EventReader

module _ {T : Type 0} (S : Settings) where
  -- "2. Mark current chunk read", and the release of the lock on the start position
  unfoldable pub leave_chunk : Ptr → Cmd T (Unit {0})
  leave_chunk p =
      if is_on_chunk_read S.cleanup
      then (do
        chunk ← load p
        modify p DynamicChunk.mark_read
        unlock_start
        when (leb (readers_entered chunk) (add_usize (read_completely_times chunk) 1)) (cleanup S))
      else (do modify p DynamicChunk.mark_read; unlock_start)

  -- The fast forward of `do_update_start_position_and_get_chunk_state`.
  unfoldable pub fast_forward : EventReader → Cmd T EventReader
  fast_forward this = do
    lock_start
    start ← get_start
    elim start [
      | none ↦ do unlock_start; pure this
      | some start_position ↦ do
        behind ← cursor_is_lt this.position start_position
        if not behind then (do unlock_start; pure this) else do
          modify start_position.chunk DynamicChunk.enter
          leave_chunk this.position.chunk
          pure (record this { position = start_position })
    ]

  unfoldable pub update_start_position_and_get_chunk_state :
      EventReader → Cmd T (PackedChunkState × EventReader)
  update_start_position_and_get_chunk_state this = do
    chunk ← load this.position.chunk
    let state = chunk_state chunk
    let epoch = ChunkState.epoch state
    if epoch.inner == this.start_position_epoch.inner then pure (state, this) else do
      this' ← fast_forward (record this { start_position_epoch = epoch })
      chunk' ← load this'.position.chunk
      pure (chunk_state chunk', this')

  unfoldable pub update_position : EventReader → Cmd T EventReader
  update_position this = do
    (state, this') ← update_start_position_and_get_chunk_state this
    pure this'

  -- `Iter::new`, which `EventReader::iter` calls
  unfoldable pub iter : EventReader → Cmd T Iter
  iter event_reader = do
    (state, reader) ← update_start_position_and_get_chunk_state event_reader
    pure (record { position = reader.position; state = state; event_reader = reader })

module _ {T : Type 0} where
  -- The end of `Iter::next`: the item at the position.
  unfoldable pub take_item : Iter → Cmd T (Option T × Iter)
  take_item this = do
    chunk ← load this.position.chunk
    value ← defined (DynamicChunk.get_unchecked chunk this.position.index)
    pure (
      some value,
      record this { position = record (this.position) { index = add_usize this.position.index 1 } },
    )

  -- "acquire next chunk" and "switch chunk" of `Iter::next`
  unfoldable pub switch_chunk : Iter → Cmd T Iter
  switch_chunk this = do
    chunk ← load this.position.chunk
    modify (next chunk) DynamicChunk.enter
    next_chunk ← load (next chunk)
    pure (record this {
      position = record { chunk = next chunk; index = 0 };
      state = chunk_state next_chunk;
    })

  -- `Iter::next`. A `Cmd` returns the iterator with the item.
  unfoldable pub iter_next : Iter → Cmd T (Option T × Iter)
  iter_next this =
      if this.position.index % 2 ^ 32 == ChunkState.len this.state
      then (if not (ChunkState.has_next this.state) then pure (none, this) else do
        this' ← switch_chunk this
        if ChunkState.len this'.state == 0 then pure (none, this') else take_item this')
      else take_item this

  -- The closure of `Iter::drop`; its state is `need_cleanup`.
  unfoldable pub pass_step :
      (try_cleanup : Bool) (first_chunk : Ptr) → Bool → Ptr → Cmd T (Bool × ControlFlow)
  pass_step try_cleanup first_chunk need_cleanup p = do
    chunk ← load p
    modify p DynamicChunk.mark_read
    let read = add_usize (read_completely_times chunk) 1
    pure (
      (if try_cleanup && p == first_chunk && leb (readers_entered chunk) read
          then true
          else need_cleanup),
      continue,
    )

  -- `Drop for Iter`
  unfoldable pub iter_drop : Settings → Iter → Cmd T EventReader
  iter_drop S this = do
    let try_cleanup = is_on_chunk_read S.cleanup
    let first_chunk = this.event_reader.position.chunk
    let end_chunk = this.position.chunk
    need_cleanup ←
        foreach_chunk_ptr_mut first_chunk end_chunk (pass_step try_cleanup first_chunk) false
    when (try_cleanup && need_cleanup) (do load end_chunk; cleanup S)
    let reader = this.event_reader
    pure (record reader { position = this.position })
