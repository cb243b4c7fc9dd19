-- ===== src/Examples/Forwards.antt =====
-- The theorems on the fast forward of src/event_reader.rs, at a reader behind the start position,
-- and that on `truncate_front` of src/event_queue.rs at a queue of two chunks.
use lockless_event_queue.Base.{ℕ, ◌≡◌, refl, some, [], ◌∷◌, arith, inl, inr, true, false}
use lockless_event_queue.ChunkState.{PackedChunkState}
use lockless_event_queue.DynamicChunk.{null}
use lockless_event_queue.Heap.{read}
use lockless_event_queue.Node.{Node, chunk_of}
use lockless_event_queue.Chain.{Chain, Holds}
use lockless_event_queue.World.{World, Cursor, ok}
use lockless_event_queue.EventQueue.Invariant.{IsQueue, Conserves}
use lockless_event_queue.EventQueue.Invariant.TruncateKeeps.{Truncates, truncate_front-Truncates}
use lockless_event_queue.EventQueue.Start.Earlier.{cursor_is_lt-earlier}
use lockless_event_queue.EventQueue.Start.{cursor_is_lt, cursor_is_ge, cursor_lt, truncate_front}
use lockless_event_queue.EventQueue.Life.{EventReader}
use lockless_event_queue.Attendance.{Spot, spot_at, Attended}
use lockless_event_queue.EventReader.{fast_forward, iter}
use lockless_event_queue.EventReader.Forward.{fast_forward-Gives}
use lockless_event_queue.EventReader.Crossing.{Gives}
use lockless_event_queue.EventReader.Opens.{opened, HasState, iter-Opens}
use lockless_event_queue.EventReader.Seats.{ReadsAt, Undisturbed}
use lockless_event_queue.Examples.{S, nodes, world, world-IsQueue}

-- A reader is in the first chunk, and the start position in the second, in the next epoch.
abbrev old_node : Node ℕ
old_node = record { id = 0; cap = 4; items = 1 ∷ 2 ∷ 3 ∷ 4 ∷ []; epoch = 1; entered = 2; read = 1 }

abbrev new_node : Node ℕ
new_node = record { id = 1; cap = 4; items = 5 ∷ 6 ∷ 7 ∷ 8 ∷ []; epoch = 1; entered = 1; read = 1 }

abbrev two : Chain ℕ
two = (1, old_node) ∷ (2, new_node) ∷ []

abbrev begins_at : Cursor
begins_at = record { chunk = 2; index = 3 }

abbrev moved_world : World ℕ
moved_world = record world {
  heap = (1, chunk_of old_node 2) ∷ (2, chunk_of new_node null) ∷ [];
  start_position = some begins_at;
}

abbrev behind_reader : EventReader
behind_reader = record {
  position = record { chunk = 1; index = 2 };
  start_position_epoch = record { inner = 0 };
}

two-Holds : Holds moved_world.heap two
unfolding read
two-Holds r = refl

moved_world-IsQueue : IsQueue S 1 two moved_world
moved_world-IsQueue = record {
  rep = record {
    held = two-Holds;
    chain = (
      (λ e. absurd (omega arith)),
      refl,
      record { items_fit = omega arith; cap_small = omega arith; epoch_small = omega arith },
      (
        (λ e. absurd (omega arith)),
        refl,
        record { items_fit = omega arith; cap_small = omega arith; epoch_small = omega arith },
        tt,
      ),
    );
    first = refl;
    last = refl;
    no_free_chunk = refl;
  };
  nonempty = omega arith;
  start_unlocked = refl;
  ids = (omega arith, refl);
  epochs = (refl, (refl, tt));
  sizes = (omega arith, omega arith, (omega arith, omega arith, tt));
  total = refl;
  start = refl;
}

moved_world-Attended : Attended two (some begins_at) (spot_at behind_reader.position ∷ [])
moved_world-Attended = record {
  counts = (refl, omega arith, (refl, omega arith, tt));
  stand = (
    inl (
      refl,
      record { earlier = omega arith; epoch_small = omega arith; finished = λ h. absurd (cc) },
      omega arith,
    ),
    tt,
  );
  place = inr (
      inl (
        refl,
        record { earlier = omega arith; epoch_small = omega arith; finished = λ h. absurd (cc) },
        omega arith,
      ));
  few = omega arith;
}

-- The reader at the start position.
abbrev forward_reader : EventReader
forward_reader = record behind_reader { position = begins_at }

fast_forward-Gives_example :
    Gives S 1 two moved_world [] (fast_forward S behind_reader) forward_reader
unfolding cursor_lt
fast_forward-Gives_example =
    fast_forward-Gives S refl moved_world refl behind_reader [] two moved_world-IsQueue
      moved_world-Attended

-- The reader there, which knows the epoch.
abbrev updated_reader : EventReader
updated_reader = record { position = begins_at; start_position_epoch = record { inner = 1 } }

iter-Opens_example :
    (state : PackedChunkState) × (w : World ℕ) × (ns : Chain ℕ) × (s : Spot) × (iter S behind_reader
        moved_world
      ≡ ok (opened state updated_reader) w)
    × HasState w 2 state
    × Conserves S 1 two ns [] moved_world w
    × ReadsAt (opened state updated_reader) s
    × Attended ns w.start_position (s ∷ [])
    × Undisturbed [] two ns
unfolding cursor_lt
iter-Opens_example =
    iter-Opens S refl moved_world refl behind_reader [] two moved_world-IsQueue moved_world-Attended

cursor_is_lt-earlier_example :
    (cursor_is_lt behind_reader.position begins_at moved_world ≡ ok true moved_world)
    × (cursor_is_ge behind_reader.position begins_at moved_world ≡ ok false moved_world)
cursor_is_lt-earlier_example =
    cursor_is_lt-earlier S moved_world two behind_reader.position begins_at moved_world-IsQueue refl
      refl

truncate_front-Truncates_example :
    Truncates S 0 world nodes (truncate_front S 2) 2 (some (record { chunk = 2; index = 2 }))
truncate_front-Truncates_example =
    truncate_front-Truncates S refl world nodes world-IsQueue 2 (omega arith)
