-- ===== src/Examples/Forcing.antt =====
-- The theorems on `force_cleanup_impl` and `clear` of src/event_queue.rs, the former at a queue of
-- three chunks: a reader is in the first, none in the second, and the start position in the third.
use lockless_event_queue.Base.{ℕ, ◌≡◌, refl, some, List, [], ◌∷◌, ◌++◌, arith}
use lockless_event_queue.DynamicChunk.{null}
use lockless_event_queue.Heap.{read}
use lockless_event_queue.Node.{Node, IsNode, chunk_of}
use lockless_event_queue.Chain.{Chain, IsChain, Holds}
use lockless_event_queue.World.{World, ok}
use lockless_event_queue.EventQueue.Cleanup.{force_cleanup_impl}
use lockless_event_queue.EventQueue.Cleanup.InOrder.{contents}
use lockless_event_queue.EventQueue.Invariant.{IsQueue}
use lockless_event_queue.EventQueue.Invariant.ForceTo.{forced, gone}
use lockless_event_queue.EventQueue.Invariant.ForceKeeps.{Keeps, force_cleanup_impl-IsQueue}
use lockless_event_queue.EventQueue.Invariant.ClearKeeps.{Restarts, clear-Restarts}
use lockless_event_queue.EventQueue.Invariant.{SameHandles}
use lockless_event_queue.EventQueue.Start.{clear}
use lockless_event_queue.Examples.{S, nodes, world, world-IsQueue}

abbrev occupied : Node ℕ
occupied = record { id = 0; cap = 4; items = 1 ∷ 2 ∷ []; epoch = 0; entered = 2; read = 1 }

abbrev deserted : Node ℕ
deserted = record { id = 1; cap = 4; items = 3 ∷ 4 ∷ []; epoch = 0; entered = 1; read = 1 }

abbrev newest : Node ℕ
newest = record { id = 2; cap = 4; items = 5 ∷ 6 ∷ []; epoch = 0; entered = 0; read = 0 }

abbrev three : Chain ℕ
three = (1, occupied) ∷ (2, deserted) ∷ (3, newest) ∷ []

abbrev three_world : World ℕ
three_world = record world {
  heap = (1, chunk_of occupied 2) ∷ (2, chunk_of deserted 3) ∷ (3, chunk_of newest null) ∷ [];
  list = record (world.list) { last = 3; chunk_id_counter = 2; total_capacity = 12 };
  start_position = some (record { chunk = 3; index = 1 });
}

occupied-IsNode : IsNode occupied
occupied-IsNode = record {
  items_fit = omega arith;
  cap_small = omega arith;
  epoch_small = omega arith;
}

deserted-IsNode : IsNode deserted
deserted-IsNode = record {
  items_fit = omega arith;
  cap_small = omega arith;
  epoch_small = omega arith;
}

newest-IsNode : IsNode newest
newest-IsNode = record {
  items_fit = omega arith;
  cap_small = omega arith;
  epoch_small = omega arith;
}

three-IsChain : IsChain three
three-IsChain = (
  (λ e. absurd (omega arith)),
  refl,
  occupied-IsNode,
  (
    (λ e. absurd (omega arith)),
    refl,
    deserted-IsNode,
    ((λ e. absurd (omega arith)), refl, newest-IsNode, tt),
  ),
)

three_world-Holds : Holds three_world.heap three
unfolding read
three_world-Holds r = refl

three_world-IsQueue : IsQueue S 0 three three_world
three_world-IsQueue = record {
  rep = record {
    held = three_world-Holds;
    chain = three-IsChain;
    first = refl;
    last = refl;
    no_free_chunk = refl;
  };
  nonempty = omega arith;
  start_unlocked = refl;
  ids = (omega arith, (omega arith, refl));
  epochs = (refl, (refl, (refl, tt)));
  sizes = (omega arith, omega arith, (omega arith, omega arith, (omega arith, omega arith, tt)));
  total = refl;
  start = refl;
}

force_cleanup_impl-IsQueue_example :
    (w' : World ℕ) × (d : List ℕ) × (force_cleanup_impl S three_world ≡ ok tt w')
    × IsQueue S 0 (forced w'.start_position three) w'
    × (d ++ contents three ≡ 1 ∷ 2 ∷ 3 ∷ 4 ∷ 5 ∷ 6 ∷ [])
    × (w'.dropped ≡ d ++ contents (gone w'.start_position three))
    × (w'.start_position ≡ three_world.start_position)
    × SameHandles three_world w'
    × Keeps three_world three w' (forced w'.start_position three)
force_cleanup_impl-IsQueue_example =
    force_cleanup_impl-IsQueue S refl three_world three three_world-IsQueue

clear-Restarts_example : Restarts S 0 world (record { chunk = 2; index = 4 }) nodes (clear S)
clear-Restarts_example = clear-Restarts S refl 0 world nodes world-IsQueue
