-- ===== src/EventQueue/Start.antt =====
-- `set_start_position`, `clear` and `truncate_front` of src/event_queue.rs, with the order on
-- `Cursor` of src/cursor.rs.
pub mod Order
pub mod Earlier
pub mod Epochs
pub mod Moves
pub mod Truncate
pub mod Cut
pub mod Collect
use Prim.Native.Nat.{compare, Ordering}
use lockless_event_queue.Base.{
  ℕ, ◌-◌, Bool, true, false, Option, none, some, List, [], ◌∷◌, leb, ltb, ◌==◌, if◌then◌else◌,
}
use lockless_event_queue.Utils.{Epoch, increment}
use lockless_event_queue.ChunkState
use lockless_event_queue.DynamicChunk
use lockless_event_queue.DynamicChunk.{Ptr, null, DynamicChunk, id, chunk_state, add_usize}
use lockless_event_queue.World.{
  World, Cursor, Cmd, panic, pure, halt, ◌>>=◌, ◌>>◌, skip, get_list, get_start, put_start, load,
  modify, lock_start, unlock_start,
}
use lockless_event_queue.EventQueue.Settings.{Settings}
use lockless_event_queue.EventQueue.Foreach.{ControlFlow, continue, foreach_chunk_ptr_mut}
use lockless_event_queue.EventQueue.Cleanup.{force_cleanup_impl}

-- `Ord::cmp` of `Cursor`, given the ids of the chunks that the two point at
unfoldable pub cursor_cmp : (self_chunk_id index other_chunk_id other_index : ℕ) → Ordering
cursor_cmp self_chunk_id index other_chunk_id other_index =
    if ltb self_chunk_id other_chunk_id
    then Ordering.lt
    else if ltb other_chunk_id self_chunk_id
    then Ordering.gt
    else compare index other_index

-- `PartialOrd::lt` of `Cursor`, written out in the source beside `cmp`
unfoldable pub cursor_lt : (self_chunk_id index other_chunk_id other_index : ℕ) → Bool
cursor_lt self_chunk_id index other_chunk_id other_index =
    if ltb self_chunk_id other_chunk_id
    then true
    else if ltb other_chunk_id self_chunk_id
    then false
    else ltb index other_index

abbrev pub is_ge : Ordering → Bool
is_ge Ordering.lt = false
is_ge _ = true

-- `[*const DynamicChunk<T, S>; 128]`
abbrev pub chunks_len : ℕ
chunks_len = 128

module _ {T : Type 0} where
  -- `a < b` and `a >= b` on cursors, the second by `partial_cmp`. Both read the two chunks.
  unfoldable pub cursor_is_lt : Cursor → Cursor → Cmd T Bool
  cursor_is_lt a b = do
    chunk_a ← load a.chunk
    chunk_b ← load b.chunk
    pure (cursor_lt (id chunk_a) a.index (id chunk_b) b.index)

  unfoldable pub cursor_is_ge : Cursor → Cursor → Cmd T Bool
  cursor_is_ge a b = do
    chunk_a ← load a.chunk
    chunk_b ← load b.chunk
    pure (is_ge (cursor_cmp (id chunk_a) a.index (id chunk_b) b.index))

  -- The closure of `set_start_position`.
  unfoldable pub epoch_step : Epoch → Unit {0} → Ptr → Cmd T (Unit {0} × ControlFlow)
  epoch_step new_epoch _ chunk = do
    modify chunk (λ c. DynamicChunk.set_epoch c new_epoch)
    pure (tt, continue)

  unfoldable pub set_start_position : Cursor → Cmd T (Unit {0})
  set_start_position new_start_position = do
    lock_start
    put_start (some new_start_position)
    unlock_start
    list ← get_list
    first_chunk ← load list.first
    let new_epoch = increment (ChunkState.epoch (chunk_state first_chunk))
    foreach_chunk_ptr_mut list.first null (epoch_step new_epoch) tt

  -- The closure that fills the array `chunks`. Its state is `i`, and the chunks stored so far, the
  -- latest first. An index out of the array's bounds panics.
  unfoldable pub collect_step : (ℕ × List Ptr) → Ptr → Cmd T ((ℕ × List Ptr) × ControlFlow)
  collect_step (i, chunks) chunk =
      if ltb i chunks_len then pure ((add_usize i 1, chunk ∷ chunks), continue) else halt panic

  module _ (S : Settings) where
    unfoldable pub clear : Cmd T (Unit {0})
    clear = do
      list ← get_list
      last_chunk ← load list.last
      let last_chunk_len = ChunkState.len (chunk_state last_chunk)
      set_start_position (record { chunk = list.last; index = last_chunk_len })
      force_cleanup_impl S

    -- The part of `truncate_front` from "Do we actually need to truncate?" on.
    unfoldable pub truncate_at : Cursor → Cmd T (Unit {0})
    truncate_at new_start_position = do
      start ← get_start
      further ← elim start [
        | none ↦ pure false
        | some start_position ↦ cursor_is_ge start_position new_start_position
      ]
      if further then skip else do set_start_position new_start_position; force_cleanup_impl S

    -- The loop `for i in (0..chunks_count).rev()`, over the array from its end.
    unfoldable pub truncate_loop : ℕ → ℕ → List Ptr → Cmd T (Unit {0})
    truncate_loop len total_len [] = skip
    truncate_loop len total_len (p ∷ chunks) = do
      chunk ← load p
      let total = add_usize total_len (ChunkState.len (chunk_state chunk))
      if leb len total
          then truncate_at (record { chunk = p; index = total - len })
          else truncate_loop len total chunks

    unfoldable pub truncate_front : ℕ → Cmd T (Unit {0})
    truncate_front len = do
      list ← get_list
      (chunks_count, chunks) ← foreach_chunk_ptr_mut list.first null collect_step (0, [])
      truncate_loop len 0 chunks
