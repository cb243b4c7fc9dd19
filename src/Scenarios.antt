-- ===== src/Scenarios.antt =====
-- The scenarios of src/event_queue/test.rs and src/tests/mpmc.rs, run by evaluation.
use lockless_event_queue.Utils
use lockless_event_queue.ChunkState
use lockless_event_queue.DynamicArray
use lockless_event_queue.DynamicChunk
use lockless_event_queue.Heap
use lockless_event_queue.World
use lockless_event_queue.EventQueue.Foreach
use lockless_event_queue.EventQueue.Cleanup
use lockless_event_queue.EventQueue.Push
use lockless_event_queue.EventQueue.Start
use lockless_event_queue.EventQueue.Life
use lockless_event_queue.EventReader
use lockless_event_queue.Mpmc
use lockless_event_queue.Spmc
use lockless_event_queue.Base.{
  ℕ, zero, suc, ◌+◌, ◌≡◌, refl, false, Option, none, some, List, [], ◌∷◌, ◌++◌, length, leb,
  if◌then◌else◌,
}
use lockless_event_queue.DynamicChunk.{Ptr, null, DynamicChunk, next, capacity, chunk_state}
use lockless_event_queue.Heap.{Heap}
use lockless_event_queue.World.{
  World, Run, Cmd, ok, stop, pure, ◌>>=◌, ◌>>◌, get_list, load, and_then,
}
use lockless_event_queue.EventQueue.Settings.{CleanupMode, on_chunk_read, on_new_chunk, never}
use lockless_event_queue.EventQueue.Foreach.{continue, foreach_chunk_ptr_mut}
use lockless_event_queue.EventQueue.Life.{EventReader, unsubscribe, decrement_strong_count}
use lockless_event_queue.EventReader.{Iter, iter, iter_next, iter_drop, update_position}
use lockless_event_queue.Mpmc.{Settings, base_settings}

-- The next free address after the highest one in use.
abbrev bump : Heap ℕ → Ptr
bump [] = 1
bump ((p, _) ∷ h) = (if leb p (bump h) then bump h else p) + 1

abbrev from_to : ℕ → ℕ → List ℕ
from_to start zero = []
from_to start (suc n) = start ∷ from_to (suc start) n

capacities : Cmd ℕ (List ℕ)
capacities = do
  list ← get_list
  foreach_chunk_ptr_mut list.first null
      (λ xs p. do c ← load p; pure (xs ++ (capacity c ∷ []), continue)) []

lens : Cmd ℕ (List ℕ)
lens = do
  list ← get_list
  foreach_chunk_ptr_mut list.first null
      (λ xs p. do c ← load p; pure (xs ++ (ChunkState.len (chunk_state c) ∷ []), continue)) []

-- At most `n` items of an iterator.
consume_iter : ℕ → Iter → List ℕ → Cmd ℕ (List ℕ × Iter)
consume_iter zero it xs = pure (xs, it)
consume_iter (suc n) it xs = do
  (item, it') ← iter_next it
  elim item [ none ↦ pure (xs, it') | some x ↦ consume_iter n it' (xs ++ (x ∷ [])) ]

consume : ℕ → Settings → EventReader → Cmd ℕ (List ℕ × EventReader)
unfolding consume_iter
consume n S reader = do
  it ← iter (base_settings false S) reader
  (xs, it') ← consume_iter n it []
  reader' ← iter_drop (base_settings false S) it'
  pure (xs, reader')

abbrev growing : Settings
growing = record { min_chunk_size = 4; max_chunk_size = 4294967295; cleanup = on_chunk_read }

result : {A : Type 0} → Run ℕ A → Option A
result (ok a w) = some a
result (stop s) = none

-- A run of a fresh queue.
start : {A : Type 0} → Settings → Cmd ℕ A → Option A
unfolding result
start S m = result (and_then (Mpmc.new bump false S) λ _. m)

abbrev fixed : ℕ → CleanupMode → Settings
fixed n mode = record { min_chunk_size = n; max_chunk_size = n; cleanup = mode }

-- What the runs below compute with.
code : Unit {0}
unfolding start capacities lens consume Heap.read Heap.write Heap.erase World.load World.store
    World.modify World.free World.lock_list World.unlock_list World.lock_start World.unlock_start
    Foreach.walk Foreach.foreach_chunk_ptr_mut Cleanup.recycle_at Cleanup.destruct_at
    Cleanup.forget_start Cleanup.replace_free_chunk Cleanup.free_chunk Cleanup.cleanup_step
    Cleanup.cleanup_impl Cleanup.force_cleanup_step Cleanup.force_cleanup_to
    Cleanup.force_cleanup_impl Cleanup.cleanup Push.on_new_chunk_cleanup Push.allocate
    Push.reuse_chunk Push.new_chunk Push.add_chunk_sized Push.add_chunk Push.push Push.extend_node
    Push.push_node Push.extend_rounds Push.extend Push.change_chunk_capacity Push.total_capacity
    Push.chunk_capacity Start.cursor_cmp Start.cursor_lt Start.cursor_is_lt Start.cursor_is_ge
    Start.epoch_step Start.set_start_position Start.collect_step Start.clear Start.truncate_at
    Start.truncate_loop Start.truncate_front Life.with_capacity Life.drop_chunks Life.drop
    Life.decrement_strong_count Life.subscribe Life.unsubscribe EventReader.leave_chunk
    EventReader.fast_forward EventReader.update_start_position_and_get_chunk_state
    EventReader.update_position EventReader.iter EventReader.take_item EventReader.switch_chunk
    EventReader.iter_next EventReader.pass_step EventReader.iter_drop Mpmc.with_list Mpmc.new
    Mpmc.push Mpmc.extend Mpmc.change_chunk_capacity Mpmc.cleanup Mpmc.clear Mpmc.truncate_front
    Mpmc.total_capacity Mpmc.chunk_capacity Mpmc.subscribe Spmc.new Spmc.push Spmc.extend
    Spmc.change_chunk_capacity Spmc.cleanup Spmc.clear Spmc.truncate_front Spmc.total_capacity
    Spmc.chunk_capacity Spmc.subscribe DynamicChunk.enter DynamicChunk.mark_read
    DynamicChunk.set_next DynamicChunk.construct DynamicChunk.from_recycled DynamicChunk.set_epoch
    DynamicChunk.push_at DynamicChunk.try_push DynamicChunk.push_unchecked DynamicChunk.extend_loop
    DynamicChunk.extend DynamicChunk.get_unchecked DynamicChunk.recycle
    DynamicArray.construct_uninit DynamicArray.construct DynamicArray.write_at
    DynamicArray.get_unchecked DynamicArray.destruct DynamicArray.len ChunkState.pack ChunkState.len
    ChunkState.set_len ChunkState.has_next ChunkState.set_has_next ChunkState.epoch
    ChunkState.set_epoch ChunkState.unpack Utils.bittest Utils.bittest_x86 Utils.bitset
    Utils.epoch_zero Utils.epoch_new Utils.increment
code = tt

-- `chunks_size_test`
chunks_size :
    start growing (do Mpmc.extend bump false growing (from_to 0 32); capacities)
    ≡ some (4 ∷ 4 ∷ 8 ∷ 8 ∷ 16 ∷ [])
unfolding code
chunks_size = refl

-- `resize_test`
resize :
    start {A = List (List ℕ)} growing (do
      reader ← Mpmc.subscribe
      Mpmc.extend bump false growing (from_to 0 32)
      Mpmc.change_chunk_capacity bump false growing 6
      Mpmc.push bump false growing 32
      before ← capacities
      before_lens ← lens
      (xs, reader) ← consume 40 growing reader
      after ← capacities
      Mpmc.extend bump false growing (from_to 0 6)
      end ← lens
      pure (before ∷ before_lens ∷ (length xs ∷ []) ∷ after ∷ end ∷ []))
    ≡ some (
        (4 ∷ 4 ∷ 8 ∷ 8 ∷ 16 ∷ 6 ∷ [])
        ∷ (4 ∷ 4 ∷ 8 ∷ 8 ∷ 8 ∷ 1 ∷ [])
        ∷ (33 ∷ [])
        ∷ (6 ∷ [])
        ∷ (6 ∷ 1 ∷ [])
        ∷ [])
unfolding code
resize = refl

-- `truncate_front_test`
truncate :
    start {A = List (List ℕ)} growing (do
      reader ← Mpmc.subscribe
      Mpmc.extend bump false growing (from_to 0 26)
      Mpmc.truncate_front false growing 4
      reader ← update_position (base_settings false growing) reader
      caps ← capacities
      (xs, reader) ← consume 40 growing reader
      Mpmc.extend bump false growing (from_to 0 5)
      Mpmc.truncate_front false growing 10
      (ys, reader) ← consume 40 growing reader
      Mpmc.extend bump false growing (from_to 0 5)
      Mpmc.truncate_front false growing 0
      (zs, reader) ← consume 40 growing reader
      pure (caps ∷ xs ∷ ys ∷ zs ∷ []))
    ≡ some ((8 ∷ 16 ∷ []) ∷ from_to 22 4 ∷ from_to 0 5 ∷ [] ∷ [])
unfolding code
truncate = refl

-- `force_cleanup_test`
force_cleanup :
    start {A = List (List ℕ)} (fixed 4 on_chunk_read) (do
      reader ← Mpmc.subscribe
      Mpmc.extend bump false (fixed 4 on_chunk_read) (from_to 0 20)
      Mpmc.truncate_front false (fixed 4 on_chunk_read) 6
      truncated ← capacities
      Mpmc.clear false (fixed 4 on_chunk_read)
      cleared ← capacities
      pure (truncated ∷ cleared ∷ []))
    ≡ some ((4 ∷ 4 ∷ 4 ∷ []) ∷ (4 ∷ 4 ∷ []) ∷ [])
unfolding code
force_cleanup = refl

-- `CleanupMode_OnNewChunk_test`
cleanup_on_new_chunk :
    start {A = List (List ℕ)} (fixed 4 on_new_chunk) (do
      reader ← Mpmc.subscribe
      Mpmc.extend bump false (fixed 4 on_new_chunk) (from_to 0 16)
      (xs, reader) ← consume 9 (fixed 4 on_new_chunk) reader
      before ← capacities
      Mpmc.push bump false (fixed 4 on_new_chunk) 100
      after ← capacities
      pure (before ∷ after ∷ []))
    ≡ some ((4 ∷ 4 ∷ 4 ∷ 4 ∷ []) ∷ (4 ∷ 4 ∷ 4 ∷ []) ∷ [])
unfolding code
cleanup_on_new_chunk = refl

-- `CleanupMode_Never_test`
cleanup_never :
    start {A = List (List ℕ)} (fixed 4 never) (do
      reader ← Mpmc.subscribe
      Mpmc.extend bump false (fixed 4 never) (from_to 0 13)
      (xs, reader) ← consume 40 (fixed 4 never) reader
      before ← capacities
      Mpmc.cleanup false (fixed 4 never)
      after ← capacities
      pure (before ∷ after ∷ []))
    ≡ some ((4 ∷ 4 ∷ 4 ∷ 4 ∷ []) ∷ (4 ∷ []) ∷ [])
unfolding code
cleanup_never = refl
