-- ===== src/Examples/Readers.antt =====
-- The theorem on the sessions of src/event_reader.rs at a reader in the first of two chunks.
use lockless_event_queue.Base.{none, List, ℕ, ◌≡◌, refl, true, [], ◌∷◌, arith, false, ◌++◌}
use lockless_event_queue.EventReader.{Iter}
use lockless_event_queue.EventReader.Session.{Reads, IsAt}
use lockless_event_queue.EventReader.ReadAll.{session-Reads}
use lockless_event_queue.World.{World, ok}
use lockless_event_queue.EventReader.{iter_drop}
use lockless_event_queue.EventReader.Drops.{after_drop, iter_drop-Conserves}
use lockless_event_queue.EventQueue.Cleanup.InOrder.{contents}
use lockless_event_queue.EventQueue.Life.{EventReader, unsubscribe}
use lockless_event_queue.EventQueue.Invariant.DropFrees.{Empties, unsubscribe-Empties}
use lockless_event_queue.EventQueue.Invariant.{IsQueue, Conserves}
use lockless_event_queue.EventQueue.Invariant.Unsubscribe.{after_unsubscribe, unsubscribe-IsQueue}
use lockless_event_queue.Chain.{Chain}
use lockless_event_queue.Attendance.Unread.{unread}
use lockless_event_queue.Attendance.{
  Spot, Attended, Snapshot, snapshot_word, entered_once, left_once,
}
use lockless_event_queue.Examples.{
  nodes, S, world-IsQueue, node_a, node_b, world, nodes-IsChain, world-Holds,
}

abbrev snapshot : Snapshot
snapshot = record { len = 4; has_next = true; epoch = 0 }

abbrev reader : Iter
reader = record {
  position = record { chunk = 1; index = 1 };
  state = snapshot_word snapshot;
  event_reader = record {
    position = record { chunk = 1; index = 1 };
    start_position_epoch = record { inner = 0 };
  };
}

reader-IsAt : IsAt reader world [] 1 node_a ((2, node_b) ∷ []) snapshot
reader-IsAt = record {
  chain = nodes-IsChain;
  held = world-Holds;
  at = refl;
  state = refl;
  snapshot = record {
    earlier = omega arith;
    epoch_small = omega arith;
    finished = λ _. (omega arith, refl);
  };
  within = omega arith;
}

session-Reads_example :
    Reads 8 reader world
      (2 ∷ 3 ∷ 4 ∷ 5 ∷ 6 ∷ 7 ∷ 8 ∷ [])
      ((1, node_a) ∷ (2, entered_once node_b) ∷ [])
session-Reads_example =
    session-Reads 8 reader world [] 1 node_a ((2, node_b) ∷ []) snapshot reader-IsAt (omega arith)

-- The same reader at the end of its session, in the second chunk.
abbrev ended : Iter
ended = record reader { position = record { chunk = 2; index = 4 } }

iter_drop-Conserves_example :
    (w' : World ℕ) × (iter_drop S ended world
      ≡ ok
          (record {
            position = record { chunk = 2; index = 4 };
            start_position_epoch = record { inner = 0 };
          })
          w')
    × Conserves S 0 nodes (after_drop S [] ((1, node_a) ∷ []) ((2, node_b) ∷ [])) [] world w'
iter_drop-Conserves_example =
    iter_drop-Conserves S refl world ended [] ((1, node_a) ∷ []) 2 node_b [] world-IsQueue refl refl
      refl

abbrev leaving : EventReader
leaving = record {
  position = record { chunk = 2; index = 4 };
  start_position_epoch = record { inner = 0 };
}

abbrev left : Chain ℕ
left = after_unsubscribe S 2 ((1, node_a) ∷ (2, left_once node_b) ∷ [])

unsubscribe-IsQueue_example :
    (w' : World ℕ) × (unsubscribe S leaving world ≡ ok tt w')
    × IsQueue S 0 left w'
    × (w'.dropped ++ contents left ≡ 1 ∷ 2 ∷ 3 ∷ 4 ∷ 5 ∷ 6 ∷ 7 ∷ 8 ∷ [])
    × (w'.list.readers_count ≡ 0)
    × (w'.strong_count ≡ 1)
    × (w'.list_lock ≡ false)
    × ((ss : List Spot)
        → Attended ((1, node_a) ∷ (2, left_once node_b) ∷ []) none ss
        → Attended left w'.start_position ss)
    × ((s : Spot) (ss : List Spot)
        → Attended ((1, node_a) ∷ (2, left_once node_b) ∷ []) none (s ∷ ss)
        → unread s left ≡ unread s nodes)
unsubscribe-IsQueue_example =
    unsubscribe-IsQueue S refl world leaving ((1, node_a) ∷ []) node_b [] world-IsQueue refl
      (omega arith) (omega arith) (omega arith)

-- The same queue, when its owner has dropped it.
abbrev orphaned : World ℕ
orphaned = record world { strong_count = 1 }

orphaned-IsQueue : IsQueue S 0 nodes orphaned
orphaned-IsQueue =
    let q = world-IsQueue in
    record {
      rep = record {
        held = q.rep.held;
        chain = q.rep.chain;
        first = q.rep.first;
        last = q.rep.last;
        no_free_chunk = q.rep.no_free_chunk;
      };
      nonempty = q.nonempty;
      start_unlocked = q.start_unlocked;
      ids = q.ids;
      epochs = q.epochs;
      sizes = q.sizes;
      total = q.total;
      start = q.start;
    }

unsubscribe-Empties_example :
    (w' : World ℕ) × (unsubscribe S leaving orphaned ≡ ok tt w')
    × Empties (1 ∷ 2 ∷ 3 ∷ 4 ∷ 5 ∷ 6 ∷ 7 ∷ 8 ∷ []) orphaned w'
unsubscribe-Empties_example =
    unsubscribe-Empties S refl orphaned leaving ((1, node_a) ∷ []) node_b [] orphaned-IsQueue refl
      refl refl
