-- ===== src/Attendance/Unread.antt =====
-- What a reader of src/event_reader.rs has not read yet.
use lockless_event_queue.Base.{List, [], ◌∷◌, ◌++◌, ◌==◌, if◌then◌else◌, drop}
use lockless_event_queue.Chain.{Chain}
use lockless_event_queue.EventQueue.Cleanup.InOrder.{contents}
use lockless_event_queue.Attendance.{Spot}

module _ {T : Type 0} where
  -- The items from the reader's place on.
  abbrev pub unread : Spot → Chain T → List T
  unread s [] = []
  unread s ((p, n) ∷ ns) = if p == s.chunk then drop s.index n.items ++ contents ns else unread s ns
