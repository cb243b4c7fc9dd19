-- ===== src/Examples/Systems.antt =====
-- The theorems on the whole of src/mpmc at a queue of two chunks with one reader, and at a new one.
use lockless_event_queue.Base.{
  ℕ, ◌≡◌, ◌⊎◌, refl, true, false, Option, none, ◌==◌, if◌then◌else◌, [], ◌∷◌, ◌++◌, arith, inl, inr,
}
use lockless_event_queue.DynamicChunk.{Ptr}
use lockless_event_queue.Node.{Node}
use lockless_event_queue.Heap
use lockless_event_queue.World.{World, ok, stop, panic}
use lockless_event_queue.Chain.{Chain}
use lockless_event_queue.EventQueue.Invariant.{IsQueue, Evolves}
use lockless_event_queue.EventQueue.Invariant.Starts.{started, with_capacity-ok}
use lockless_event_queue.EventQueue.Life.{EventReader, unsubscribe}
use lockless_event_queue.Attendance.{IsSnapshot, Spot, Snapshot, snapshot_word, spot_at, occupants}
use lockless_event_queue.EventReader.{Iter, update_position, iter, iter_next, iter_drop}
use lockless_event_queue.EventReader.Seats.{resting, reading, Takes}
use lockless_event_queue.EventReader.OneMore.{items_of, after_next, read_by}
use lockless_event_queue.EventReader.NextKeeps.{next-Takes}
use lockless_event_queue.EventReader.DropKeeps.{RestsAt, iter_drop-Takes}
use lockless_event_queue.EventReader.Answers.{Answers}
use lockless_event_queue.Mpmc.{new, push, cleanup, subscribe}
use lockless_event_queue.Mpmc.Keeps.{mpmc_push-Evolves}
use lockless_event_queue.System.{
  System, write, push_one, Reach, start, later, turns, subscribes, opens,
}
use lockless_event_queue.System.Sound.{IsSystem}
use lockless_event_queue.System.Writes.{IsSystem-Evolves}
use lockless_event_queue.System.Readers.{iter-Calls, next-Calls}
use lockless_event_queue.System.Comings.{subscribe-Comes}
use lockless_event_queue.System.Reached.{
  Reach-IsSystem, Succeeds, reading-Succeeds, resting-Succeeds, write-Succeeds,
}
use lockless_event_queue.System.Places.{FirstBusy, Vacant, Leads}
use lockless_event_queue.System.Frees.{cleanup-Frees, cleanup-Single, reader_chunk-held}
use lockless_event_queue.System.Delivery.{begins, writes, takes, others, Due, During-Due}
use lockless_event_queue.Examples.{
  bump, bump-Allocates, M, S, S-IsFit, node_b, nodes, world, world-IsQueue,
}

-- The reader of `world`, at the end of the second chunk.
abbrev last_reader : EventReader
last_reader = record {
  position = record { chunk = 2; index = 4 };
  start_position_epoch = record { inner = 0 };
}

abbrev system : System ℕ
system = record { world = world; sessions = resting last_reader ∷ [] }

rests : IsSnapshot (spot_at last_reader.position).snapshot node_b []
rests = record { earlier = omega arith; epoch_small = omega arith; finished = λ h. absurd (cc) }

abbrev sound : IsSystem M system
sound = record {
  epoch = 0;
  nodes = nodes;
  spots = spot_at last_reader.position ∷ [];
  queue = world-IsQueue;
  unlocked = refl;
  seated = (refl, tt);
  attended = record {
    counts = (refl, omega arith, (refl, omega arith, tt));
    stand = (inr (inl (refl, rests, omega arith)), tt);
    place = tt;
    few = omega arith;
  };
  few = omega arith;
  readers_count = refl;
  strong_count = refl;
}

cleanup-Frees_example :
    (w : World ℕ) × (cleanup false M world ≡ ok tt w)
    × (gone : Chain ℕ) × (left : Chain ℕ) × (nodes ≡ gone ++ left)
    × IsQueue S 0 left w
    × Vacant (occupants (spot_at last_reader.position ∷ [])) gone
    × FirstBusy (occupants (spot_at last_reader.position ∷ [])) left
cleanup-Frees_example = cleanup-Frees M system sound

cleanup-Single_example :
    (w : World ℕ) × (cleanup false M world ≡ ok tt w)
    × (gone : Chain ℕ) × (n : Node ℕ) × (nodes ≡ gone ++ (2, n) ∷ [])
    × Evolves S 0 nodes ((2, n) ∷ []) [] world w
    × ((p : Ptr) → Heap.read p w.heap ≡ (if 2 == p then Heap.read p world.heap else none))
cleanup-Single_example = cleanup-Single M system sound (refl, refl, tt)

-- A new queue, and a first reader.
abbrev fresh_world : World ℕ
fresh_world = started bump bump-Allocates S 4

abbrev empty_system : System ℕ
empty_system = record { world = fresh_world; sessions = [] }

empty-Reach : Reach bump M empty_system
unfolding new
empty-Reach = start (with_capacity-ok bump bump-Allocates S 4 refl)

abbrev joins :
    (reader : EventReader) × (w : World ℕ) × (subscribe fresh_world ≡ ok reader w)
    × IsSystem M (record { world = w; sessions = resting reader ∷ [] })
joins =
    let (reader, w, runs, sound, _) =
      subscribe-Comes M empty_system
        (Reach-IsSystem bump bump-Allocates M S-IsFit empty_system empty-Reach) (omega arith) in
    (reader, w, runs, sound)

abbrev joined : System ℕ
joined = record { world = joins.1; sessions = resting joins.0 ∷ [] }

joined-Reach : Reach bump M joined
joined-Reach = later empty-Reach (turns (omega arith) (subscribes joins.2))

-- The reader with an iterator.
abbrev opened :
    (it : Iter) × (w : World ℕ) × (iter S joins.0 joins.1 ≡ ok it w)
    × IsSystem M (record { world = w; sessions = reading it ∷ [] })
opened =
    let (it, w, runs, sound, _) = iter-Calls M joins.1 [] joins.0 [] joins.3 in (it, w, runs, sound)

abbrev opened_system : System ℕ
opened_system = record { world = opened.1; sessions = reading opened.0 ∷ [] }

opened-Reach : Reach bump M opened_system
opened-Reach = later joined-Reach (turns (omega arith) (opens [] joins.0 [] refl opened.2))

Reach-IsSystem_example : IsSystem M opened_system
Reach-IsSystem_example = Reach-IsSystem bump bump-Allocates M S-IsFit opened_system opened-Reach

reading-Succeeds_example :
    Succeeds (iter_next opened.0) opened.1 × Succeeds (iter_drop S opened.0) opened.1
reading-Succeeds_example =
    reading-Succeeds bump bump-Allocates M S-IsFit opened_system opened-Reach [] opened.0 [] refl

resting-Succeeds_example :
    Succeeds (update_position S joins.0) joins.1
    × Succeeds (iter S joins.0) joins.1
    × Succeeds (unsubscribe S joins.0) joins.1
resting-Succeeds_example =
    resting-Succeeds bump bump-Allocates M S-IsFit joined joined-Reach [] joins.0 [] refl

write-Succeeds_example :
    Succeeds (write bump M (push_one 5)) fresh_world
    ⊎ ((false ≡ true) × (write bump M (push_one 5) fresh_world ≡ stop panic))
write-Succeeds_example =
    write-Succeeds bump bump-Allocates M S-IsFit empty_system empty-Reach (push_one 5) (omega arith)

reader_chunk-held_example :
    Leads opened.1.heap opened.0.position.chunk opened.0.event_reader.position.chunk
reader_chunk-held_example =
    reader_chunk-held bump bump-Allocates M S-IsFit opened_system [] (reading opened.0) []
      opened-Reach refl

-- A session in `world` from the second item of the second chunk on, with a push in between.
abbrev half : Snapshot
half = record { len = 4; has_next = false; epoch = 0 }

abbrev half_read : Iter
half_read = record {
  position = record { chunk = 2; index = 2 };
  state = snapshot_word half;
  event_reader = record {
    position = record { chunk = 2; index = 1 };
    start_position_epoch = record { inner = 0 };
  };
}

abbrev half_spot : Spot
half_spot = record { behind = []; chunk = 2; index = 2; snapshot = half }

half_way : IsSnapshot half node_b []
half_way = record { earlier = omega arith; epoch_small = omega arith; finished = λ h. absurd (cc) }

abbrev half_sound : IsSystem M (record { world = world; sessions = reading half_read ∷ [] })
half_sound = record {
  epoch = 0;
  nodes = nodes;
  spots = half_spot ∷ [];
  queue = world-IsQueue;
  unlocked = refl;
  seated = (record { chunk = refl; index = refl; state = refl; began = refl }, tt);
  attended = record {
    counts = (refl, omega arith, (refl, omega arith, tt));
    stand = (inr (inl (refl, half_way, omega arith)), tt);
    place = tt;
    few = omega arith;
  };
  few = omega arith;
  readers_count = refl;
  strong_count = refl;
}

abbrev pushes :
    (w : World ℕ) × (ns : Chain ℕ) × (push bump false M 9 world ≡ ok tt w)
    × Evolves S 0 nodes ns (9 ∷ []) world w
pushes =
    mpmc_push-Evolves bump bump-Allocates M S-IsFit 0 nodes world world-IsQueue refl 9 (omega arith)

abbrev takes_one :
    (r : Option ℕ × Iter) × (w : World ℕ) × (iter_next half_read pushes.0 ≡ ok r w)
    × IsSystem M (record { world = w; sessions = reading r.1 ∷ [] })
takes_one =
    let (r, w, runs, sound, _) =
      next-Calls M pushes.0 [] half_read []
        (IsSystem-Evolves M (record { world = world; sessions = reading half_read ∷ [] }) half_sound
          pushes.3).0 in
    (r, w, runs, sound)

-- Another reader comes.
abbrev comes :
    (reader : EventReader) × (w : World ℕ) × (subscribe takes_one.1 ≡ ok reader w)
    × IsSystem M (record { world = w; sessions = resting reader ∷ reading takes_one.0.1 ∷ [] })
comes =
    let (reader, w, runs, sound, _) =
      subscribe-Comes M (record { world = takes_one.1; sessions = reading takes_one.0.1 ∷ [] })
        takes_one.3 (omega arith) in
    (reader, w, runs, sound)

During-Due_example :
    Due bump bump-Allocates M S-IsFit comes.1 takes_one.0.1
      (resting comes.0 ∷ [])
      (items_of takes_one.0.0)
      (7 ∷ 8 ∷ 9 ∷ [])
During-Due_example = During-Due bump bump-Allocates M S-IsFit [] [] half_sound (
    others (takes (writes begins (push_one 9) refl (omega arith) pushes.2) takes_one.2)
      (omega arith) (subscribes comes.2))

next-Takes_example :
    Takes S 0 nodes world [] half_spot
      (iter_next half_read)
      after_next
      read_by
      (Answers half_read half world nodes)
next-Takes_example =
    next-Takes S world half_read half_spot [] half_sound.seated.0 nodes world-IsQueue
      half_sound.attended

-- The iterator dropped.
iter_drop-Takes_example :
    Takes S 0 nodes world [] half_spot (iter_drop S half_read) resting (λ _. []) (RestsAt half_read)
iter_drop-Takes_example =
    iter_drop-Takes S refl world refl half_read half_spot [] half_sound.seated.0 nodes world-IsQueue
      half_sound.attended
