-- ===== src/Examples/Writers.antt =====
-- The theorems on src/event_queue.rs and src/mpmc/event_queue.rs at the queue of two chunks.
use lockless_event_queue.Base.{
  ℕ, zero, suc, ◌<◌, ◌≡◌, refl, false, some, none, [], ◌∷◌, ◌++◌, arith,
}
use lockless_event_queue.Heap.{Heap, read}
use lockless_event_queue.Node.{chunk_of, fresh}
use lockless_event_queue.Chain.{Chain, has, head_ptr, IsChain, Holds}
use lockless_event_queue.Represents.{Represents}
use lockless_event_queue.World.{World, ok, stop, panic}
use lockless_event_queue.EventQueue.Cleanup.{cleanup}
use lockless_event_queue.EventQueue.Cleanup.InOrder.{contents}
use lockless_event_queue.EventQueue.Push.{push, extend, on_new_chunk_cleanup, add_chunk_sized}
use lockless_event_queue.EventQueue.Start.{set_start_position, truncate_front}
use lockless_event_queue.EventQueue.Start.Epochs.{all_in_epoch}
use lockless_event_queue.EventQueue.Start.Moves.{set_start_position-IsQueue}
use lockless_event_queue.EventQueue.Start.Truncate.{truncate_front-panics}
use lockless_event_queue.EventQueue.Life.{with_capacity, subscribe}
use lockless_event_queue.EventQueue.Invariant.{SameHandles, IsQueue, Evolves}
use lockless_event_queue.EventQueue.Invariant.AddChunkKeeps.{add_chunk_sized-Evolves}
use lockless_event_queue.EventQueue.Invariant.CleanupKeeps.{
  cleanup-Evolves, on_new_chunk_cleanup-Evolves,
}
use lockless_event_queue.EventQueue.Invariant.PushKeeps.{push-Evolves}
use lockless_event_queue.EventQueue.Invariant.ExtendKeeps.{extend-Evolves}
use lockless_event_queue.EventQueue.Invariant.Starts.{first_node, with_capacity-IsQueue}
use lockless_event_queue.EventQueue.Invariant.Subscribe.{subscribe-IsQueue}
use lockless_event_queue.Attendance.{entered_once}
use lockless_event_queue.Utils.{increment}
use lockless_event_queue.Mpmc
use lockless_event_queue.Mpmc.Keeps.{
  Resizes, mpmc_push-Evolves, mpmc_extend-Evolves, mpmc_change_chunk_capacity-Resizes,
}
use lockless_event_queue.Examples.{
  bump, bump-Allocates, M, S, S-IsFit, node_a, node_b, nodes, world, world-IsQueue, node_a-IsNode,
  five,
}

mpmc_push-Evolves_example :
    (w' : World ℕ) × (ns' : Chain ℕ) × (Mpmc.push bump false M 9 world ≡ ok tt w')
    × Evolves S 0 nodes ns' (9 ∷ []) world w'
mpmc_push-Evolves_example =
    mpmc_push-Evolves bump bump-Allocates M S-IsFit 0 nodes world world-IsQueue refl 9 (omega arith)

mpmc_extend-Evolves_example :
    (w' : World ℕ) × (ns' : Chain ℕ) × (Mpmc.extend bump false M five world ≡ ok tt w')
    × Evolves S 0 nodes ns' five world w'
mpmc_extend-Evolves_example =
    mpmc_extend-Evolves bump bump-Allocates M S-IsFit 0 nodes world world-IsQueue refl five
      (omega arith)

mpmc_change_chunk_capacity-Resizes_example : Resizes bump M 0 nodes world 2 false
mpmc_change_chunk_capacity-Resizes_example =
    mpmc_change_chunk_capacity-Resizes bump bump-Allocates M S-IsFit 0 nodes world world-IsQueue
      refl 2 (omega arith)

push-Evolves_example :
    (w' : World ℕ) × (ns' : Chain ℕ) × (push bump S 9 world ≡ ok tt w')
    × Evolves S 0 nodes ns' (9 ∷ []) world w'
push-Evolves_example =
    push-Evolves bump bump-Allocates S refl S-IsFit nodes 9 world-IsQueue refl (omega arith)

extend-Evolves_example :
    (w' : World ℕ) × (ns' : Chain ℕ) × (extend bump S five world ≡ ok tt w')
    × Evolves S 0 nodes ns' five world w'
extend-Evolves_example =
    extend-Evolves bump bump-Allocates S refl S-IsFit nodes five world world-IsQueue refl
      (omega arith)

cleanup-Evolves_example :
    (w' : World ℕ) × (cleanup S world ≡ ok tt w') × Evolves S 0 nodes ((2, node_b) ∷ []) [] world w'
cleanup-Evolves_example = cleanup-Evolves S refl world-IsQueue refl

on_new_chunk_cleanup-Evolves_example :
    (w' : World ℕ) × (on_new_chunk_cleanup S world ≡ ok tt w')
    × Evolves S 0 nodes ((2, node_b) ∷ []) [] world w'
on_new_chunk_cleanup-Evolves_example = on_new_chunk_cleanup-Evolves S refl world-IsQueue refl

add_chunk_sized-Evolves_example :
    (w' : World ℕ) × (add_chunk_sized bump S 16 world ≡ ok 3 w')
    × Evolves S 0 nodes (nodes ++ (3, fresh 2 16 0) ∷ []) [] world w'
add_chunk_sized-Evolves_example =
    add_chunk_sized-Evolves bump bump-Allocates S refl S-IsFit nodes 16 world-IsQueue (omega arith)
      (omega arith) (omega arith)

set_start_position-IsQueue_example :
    (w' : World ℕ) × (set_start_position (record { chunk = 2; index = 3 }) world ≡ ok tt w')
    × IsQueue S
        (increment (record { inner = 0 })).inner
        (all_in_epoch (increment (record { inner = 0 })).inner nodes)
        w'
    × (w'.start_position ≡ some (record { chunk = 2; index = 3 }))
    × (contents (all_in_epoch (increment (record { inner = 0 })).inner nodes) ≡ contents nodes)
    × (w'.dropped ≡ [])
    × SameHandles world w'
set_start_position-IsQueue_example =
    set_start_position-IsQueue (record { chunk = 2; index = 3 }) world S 0 nodes world-IsQueue refl

with_capacity-IsQueue_example :
    (w : World ℕ) × (with_capacity bump S 8 ≡ ok tt w)
    × IsQueue S 0 (first_node bump bump-Allocates S 8) w
    × (w.list.readers_count ≡ 0)
    × (w.strong_count ≡ 1)
    × (w.start_position ≡ none)
with_capacity-IsQueue_example = with_capacity-IsQueue bump bump-Allocates S S-IsFit 8 refl

subscribe-IsQueue_example :
    (w' : World ℕ) × (subscribe world
      ≡ ok
          (record {
            position = record { chunk = 2; index = 4 };
            start_position_epoch = record { inner = 0 };
          })
          w')
    × IsQueue S 0 ((1, node_a) ∷ (2, entered_once node_b) ∷ []) w'
    × (w'.dropped ≡ [])
    × (w'.list.readers_count ≡ 2)
    × (w'.strong_count ≡ 2)
    × (w'.start_position ≡ none)
    × (w'.list_lock ≡ false)
subscribe-IsQueue_example = subscribe-IsQueue S 0 world ((1, node_a) ∷ []) 2 node_b world-IsQueue

-- A list of any length: the node at address `k` comes before those at `k - 1`, ..., 1.
abbrev many : ℕ → Chain ℕ
many zero = []
many (suc k) = (suc k, node_a) ∷ many k

abbrev memory : ℕ → Heap ℕ
memory zero = []
memory (suc k) = (suc k, chunk_of node_a (head_ptr (many k))) ∷ memory k

has-many : (p k : ℕ) → k < p → has p (many k) ≡ false
has-many p zero h = refl
has-many p (suc k) h = ground (arith, has-many p k)

many-IsChain : (k : ℕ) → IsChain (many k)
many-IsChain zero = tt
many-IsChain (suc k) = (
  (λ e. absurd (omega (arith, e))),
  has-many (suc k) k (omega arith),
  node_a-IsNode,
  many-IsChain k,
)

memory-Holds : (k : ℕ) → Holds (memory k) (many k)
unfolding read
memory-Holds zero r = refl
memory-Holds (suc k) r = ground (arith, memory-Holds k r)

abbrev long_world : World ℕ
long_world = record world {
  heap = memory 129;
  list = record (world.list) { first = 129; last = 1 };
}

long_world-Represents : Represents long_world (many 129)
long_world-Represents = record {
  held = memory-Holds 129;
  chain = many-IsChain 129;
  first = refl;
  last = refl;
  no_free_chunk = refl;
}

truncate_front-panics_example : truncate_front S 10 long_world ≡ stop panic
truncate_front-panics_example =
    truncate_front-panics long_world S (many 129) 10 long_world-Represents (omega arith)
