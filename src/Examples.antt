-- ===== src/Examples.antt =====
-- A queue of two chunks, and an allocator, for the theorems' instances.
mod Writers
mod Readers
mod Words
mod Forcing
mod Systems
mod Forwards
use lockless_event_queue.Base.{
  ℕ, zero, suc, ◌+◌, ◌^◌, ◌≤◌, ◌<◌, ◌≡◌, ◌≢◌, refl, Bool, true, false, Option, none, some, List, [],
  ◌∷◌, ◌++◌, length, leb, ◌==◌, arith, if◌then◌else◌, max,
}
use lockless_event_queue.DynamicChunk.{Ptr, null}
use lockless_event_queue.Heap.{Heap, Allocates, read}
use lockless_event_queue.Node.{Node, IsNode, chunk_of}
use lockless_event_queue.Chain.{Chain, IsChain, Holds}
use lockless_event_queue.World.{World}
use lockless_event_queue.EventQueue.Settings.{Settings, on_new_chunk}
use lockless_event_queue.EventQueue.Invariant.{IsFit, IsQueue}
use lockless_event_queue.Mpmc

-- The next address after all those in use.
abbrev bump : Heap ℕ → Ptr
bump [] = 1
bump ((p, _) ∷ h) = max (bump h) (suc p)

bump-above : (p : Ptr) (h : Heap ℕ) → bump h ≤ p → read p h ≡ none
unfolding read
bump-above p [] le = refl
bump-above p ((q, c) ∷ h) le = ground (arith, bump-above p h)

bump-positive : (h : Heap ℕ) → 0 < bump h
bump-positive [] = omega arith
bump-positive ((p, c) ∷ h) = omega (arith, bump-positive h)

bump-Allocates : Allocates bump
bump-Allocates h =
    (λ e. absurd (omega (arith, e, bump-positive h)), bump-above (bump h) h (omega arith))

abbrev M : Mpmc.Settings
M = record { min_chunk_size = 4; max_chunk_size = 4096; cleanup = on_new_chunk }

abbrev S : Settings
S = Mpmc.base_settings false M

S-IsFit : IsFit S
S-IsFit = record { positive = omega arith; ordered = omega arith; small = omega arith }

-- Two chunks: the first is full, and a reader has entered and left it.
abbrev node_a : Node ℕ
node_a = record { id = 0; cap = 4; items = 1 ∷ 2 ∷ 3 ∷ 4 ∷ []; epoch = 0; entered = 1; read = 1 }

abbrev node_b : Node ℕ
node_b = record { id = 1; cap = 4; items = 5 ∷ 6 ∷ 7 ∷ 8 ∷ []; epoch = 0; entered = 1; read = 0 }

abbrev nodes : Chain ℕ
nodes = (1, node_a) ∷ (2, node_b) ∷ []

abbrev world : World ℕ
world = record {
  heap = (1, chunk_of node_a 2) ∷ (2, chunk_of node_b null) ∷ [];
  list = record {
    first = 1;
    last = 2;
    chunk_id_counter = 1;
    total_capacity = 8;
    readers_count = 1;
    penult_chunk_size = 4;
    free_chunk = none;
  };
  list_lock = false;
  start_position = none;
  start_lock = false;
  strong_count = 2;
  dropped = [];
}

node_a-IsNode : IsNode node_a
node_a-IsNode = record {
  items_fit = omega arith;
  cap_small = omega arith;
  epoch_small = omega arith;
}

node_b-IsNode : IsNode node_b
node_b-IsNode = record {
  items_fit = omega arith;
  cap_small = omega arith;
  epoch_small = omega arith;
}

nodes-IsChain : IsChain nodes
nodes-IsChain = (
  (λ e. absurd (omega arith)),
  refl,
  node_a-IsNode,
  ((λ e. absurd (omega arith)), refl, node_b-IsNode, tt),
)

world-Holds : Holds world.heap nodes
unfolding read
world-Holds r = refl

world-IsQueue : IsQueue S 0 nodes world
world-IsQueue = record {
  rep = record {
    held = world-Holds;
    chain = nodes-IsChain;
    first = refl;
    last = refl;
    no_free_chunk = refl;
  };
  nonempty = omega arith;
  start_unlocked = refl;
  ids = (omega arith, refl);
  epochs = (refl, (refl, tt));
  sizes = (omega arith, omega arith, (omega arith, omega arith, tt));
  total = refl;
  start = tt;
}

abbrev five : List ℕ
five = 9 ∷ 10 ∷ 11 ∷ 12 ∷ 13 ∷ []
