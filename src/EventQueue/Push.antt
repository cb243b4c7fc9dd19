-- ===== src/EventQueue/Push.antt =====
-- `add_chunk_sized`, `on_new_chunk_cleanup`, `add_chunk`, `push`, `extend` and
-- `change_chunk_capacity` of src/event_queue.rs.
pub mod AddChunk
use lockless_event_queue.Base.{
  ℕ, zero, suc, ◌*◌, ◌%◌, ◌^◌, length, Bool, Option, none, some, List, [], ◌∷◌, min, ◌==◌,
  if◌then◌else◌,
}
use lockless_event_queue.Utils.{Epoch}
use lockless_event_queue.ChunkState
use lockless_event_queue.DynamicChunk
use lockless_event_queue.DynamicChunk.{
  Ptr, null, DynamicChunk, Pushed, fits, capacity_error, capacity, chunk_state, add_usize,
}
use lockless_event_queue.Heap.{Heap}
use lockless_event_queue.World.{
  World, ListState, Cmd, ok, panic, out_of_fuel, pure, halt, defined, ◌>>=◌, ◌>>◌, skip, when,
  get_list, put_list, load, store, free, lock_list, unlock_list,
}
use lockless_event_queue.EventQueue.Settings.{Settings, is_on_new_chunk, size_allowed}
use lockless_event_queue.EventQueue.Cleanup.{cleanup_impl}

module _ {T : Type 0} (S : Settings) where
  unfoldable pub on_new_chunk_cleanup : Cmd T (Unit {0})
  on_new_chunk_cleanup = when (is_on_new_chunk S.cleanup) (
      if S.lock_on_new_chunk_cleanup
      then (do lock_list; cleanup_impl S; unlock_list)
      else cleanup_impl S)

-- `alloc` picks the address of a new chunk.
module _ {T : Type 0} (alloc : Heap T → Ptr) where
  unfoldable pub allocate : DynamicChunk T → Cmd T Ptr
  allocate chunk w = let p = alloc w.heap in ok p (record w { heap = (p, chunk) ∷ w.heap })

  -- The recycled chunk, if it has the size; else the feature gives it up and a new one is made.
  unfoldable pub reuse_chunk : ℕ → Epoch → ℕ → Cmd T (Option Ptr)
  reuse_chunk id epoch size = do
    list ← get_list
    elim list.free_chunk [
      | none ↦ pure none
      | some recycled_chunk ↦ do
        recycled ← load recycled_chunk
        if capacity recycled == size
            then (do
              put_list (record list { free_chunk = none })
              store recycled_chunk (DynamicChunk.from_recycled recycled id epoch)
              pure (some recycled_chunk))
            else (do free recycled_chunk; put_list (record list { free_chunk = none }); pure none)
    ]

  unfoldable pub new_chunk : Bool → ℕ → Epoch → ℕ → Cmd T Ptr
  new_chunk double_buffering id epoch size =
      if double_buffering
      then (do
        new_node ← reuse_chunk id epoch size
        elim new_node [ none ↦ allocate (DynamicChunk.construct id epoch size) | some p ↦ pure p ])
      else allocate (DynamicChunk.construct id epoch size)

  module _ (S : Settings) where
    unfoldable pub add_chunk_sized : ℕ → Cmd T Ptr
    add_chunk_sized size = do
      list ← get_list
      node ← load list.last
      let epoch = ChunkState.epoch (chunk_state node)
      put_list (record list { chunk_id_counter = add_usize list.chunk_id_counter 1 })
      new_node ← new_chunk S.double_buffering (add_usize list.chunk_id_counter 1) epoch size
      node ← load list.last
      store list.last (DynamicChunk.set_next node new_node)
      now ← get_list
      put_list (record now {
        last = new_node;
        penult_chunk_size = capacity node % 2 ^ 32;
        total_capacity = add_usize now.total_capacity size;
      })
      pure new_node

    -- Size pattern 4,4,8,8,16,16
    abbrev pub next_size : ListState → DynamicChunk T → ℕ
    next_size list node =
        if list.penult_chunk_size == capacity node
        then min (capacity node * 2 % 2 ^ 64) S.max_chunk_size
        else capacity node

    unfoldable pub add_chunk : Cmd T Ptr
    add_chunk = do
      list ← get_list
      on_new_chunk_cleanup S
      now ← get_list
      node ← load list.last
      add_chunk_sized (next_size now node)

    unfoldable pub push : T → Cmd T (Unit {0})
    push value = do
      list ← get_list
      node ← load list.last
      let state = chunk_state node
      let storage_len = ChunkState.len state
      if storage_len == capacity node % 2 ^ 32
          then (do
            new_node ← add_chunk
            chunk ← load new_node
            pushed ← defined (DynamicChunk.push_at chunk value 0 state)
            store new_node pushed)
          else (do
            pushed ← defined (DynamicChunk.push_at node value storage_len state)
            store list.last pushed)

    -- `node.extend(&mut iter)`
    unfoldable pub extend_node : Ptr → List T → Cmd T (Pushed (Unit {0}) × List T)
    extend_node node iter = do
      chunk ← load node
      (result, rest, chunk') ← defined (DynamicChunk.extend chunk iter)
      store node chunk'
      pure (result, rest)

    -- `push_unchecked` at an address
    unfoldable pub push_node : Ptr → T → Cmd T (Unit {0})
    push_node node value = do
      chunk ← load node
      pushed ← defined (DynamicChunk.push_unchecked chunk value)
      store node pushed

    -- The `while` of `extend`: every round but the last takes an item from the iterator.
    unfoldable pub extend_rounds : ℕ → Ptr → List T → Cmd T (Unit {0})
    extend_rounds zero node iter = halt out_of_fuel
    extend_rounds (suc fuel) node iter = do
      (result, rest) ← extend_node node iter
      elim result [
        | fits ↦ skip
        | capacity_error _ ↦ elim rest [
          | [] ↦ skip
          | value ∷ rest' ↦ do
            node' ← add_chunk
            push_node node' value
            extend_rounds fuel node' rest'
        ]
      ]

    unfoldable pub extend : List T → Cmd T (Unit {0})
    extend iter = do list ← get_list; extend_rounds (suc (length iter)) list.last iter

    unfoldable pub change_chunk_capacity : ℕ → Cmd T (Unit {0})
    change_chunk_capacity new_capacity =
        if size_allowed S new_capacity
        then (do on_new_chunk_cleanup S; add_chunk_sized new_capacity; skip)
        else halt panic

module _ {T : Type 0} where
  unfoldable pub total_capacity : Cmd T ℕ
  total_capacity = do list ← get_list; pure list.total_capacity

  unfoldable pub chunk_capacity : Cmd T ℕ
  chunk_capacity = do list ← get_list; node ← load list.last; pure (capacity node)
