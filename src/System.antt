-- ===== src/System.antt =====
-- The mpmc queue of src/mpmc with any number of writers and readers, interleaved call by call: the
-- calls of src/mpmc/event_queue.rs and src/mpmc/event_reader.rs that a program can make.
pub mod Sound
pub mod Writes
pub mod Readers
pub mod Turns
pub mod Comings
pub mod Reached
pub mod Places
pub mod Frees
pub mod Delivery
use lockless_event_queue.Base.{
  ℕ, ◌+◌, ◌^◌, ◌<◌, ◌≡◌, Bool, true, false, Option, List, [], ◌∷◌, ◌++◌, length,
}
use lockless_event_queue.DynamicChunk.{Ptr}
use lockless_event_queue.Heap.{Heap}
use lockless_event_queue.World.{World, Cmd, ok}
use lockless_event_queue.EventQueue.Life.{EventReader, unsubscribe}
use lockless_event_queue.EventReader.{Iter, iter_drop}
use lockless_event_queue.EventReader.Seats.{Session, resting, reading}
use lockless_event_queue.Mpmc.{
  Settings, base_settings, new, push, extend, change_chunk_capacity, cleanup, clear, truncate_front,
  subscribe, update_position, iter, next,
}

-- The queue and the readers that there are. A reader with an iterator can only use that.
pub record System (T : Type 0) : Type 0 where
  pub world : World T
  pub sessions : List Session

-- A call on the queue.
pub data Write (T : Type 0) : Type 0 where
  push_one : T → Write T
  push_many : List T → Write T
  resize : ℕ → Write T
  clean : Write T
  clear_all : Write T
  truncate : ℕ → Write T

module _ {T : Type 0} (alloc : Heap T → Ptr) (S : Settings) where
  abbrev pub write : Write T → Cmd T (Unit {0})
  write (push_one value) = push alloc false S value
  write (push_many iter) = extend alloc false S iter
  write (resize new_capacity) = change_chunk_capacity alloc false S new_capacity
  write clean = cleanup false S
  write clear_all = clear false S
  write (truncate len) = truncate_front false S len

-- The chunk ids that a call may use up.
abbrev pub ids_needed : {T : Type 0} → Write T → ℕ
ids_needed (push_one value) = 1
ids_needed (push_many iter) = length iter
ids_needed (resize new_capacity) = 1
ids_needed _ = 0

module _ {T : Type 0} (S : Settings) where
  -- One call of a reader that returns, beside the others, in the world `u` with the readers `rs`.
  -- What the readers are afterwards is the second index.
  pub data Turn (u : World T) (rs : List Session) : World T → List Session → Type 0 where
    subscribes :
        {reader : EventReader} {w : World T}
        → subscribe u ≡ ok reader w
        → Turn u rs w (resting reader ∷ rs)
    updates :
        (before : List Session) (reader : EventReader) (after : List Session)
        {reader' : EventReader} {w : World T}
        → rs ≡ before ++ resting reader ∷ after
        → update_position false S reader u ≡ ok reader' w
        → Turn u rs w (before ++ resting reader' ∷ after)
    opens :
        (before : List Session) (reader : EventReader) (after : List Session) {it : Iter}
        {w : World T}
        → rs ≡ before ++ resting reader ∷ after
        → iter false S reader u ≡ ok it w
        → Turn u rs w (before ++ reading it ∷ after)
    reads :
        (before : List Session) (it : Iter) (after : List Session) {value : Option T} {it' : Iter}
        {w : World T}
        → rs ≡ before ++ reading it ∷ after
        → next it u ≡ ok (value, it') w
        → Turn u rs w (before ++ reading it' ∷ after)
    closes :
        (before : List Session) (it : Iter) (after : List Session) {reader : EventReader}
        {w : World T}
        → rs ≡ before ++ reading it ∷ after
        → iter_drop (base_settings false S) it u ≡ ok reader w
        → Turn u rs w (before ++ resting reader ∷ after)
    leaves :
        (before : List Session) (reader : EventReader) (after : List Session) {w : World T}
        → rs ≡ before ++ resting reader ∷ after
        → unsubscribe (base_settings false S) reader u ≡ ok tt w
        → Turn u rs w (before ++ after)

module _ {T : Type 0} (alloc : Heap T → Ptr) (S : Settings) where
  -- One call that returns, of a writer or a reader.
  pub data Step (s : System T) : System T → Type 0 where
    writes :
        (call : Write T) {w : World T}
        → s.world.list.chunk_id_counter + ids_needed call < 2 ^ 64
        → write alloc S call s.world ≡ ok tt w
        → Step s (record { world = w; sessions = s.sessions })
    turns :
        {w : World T} {rs : List Session}
        → length rs < 2 ^ 32
        → Turn S s.world s.sessions w rs
        → Step s (record { world = w; sessions = rs })

  -- What a program can come to, from a new queue without readers.
  pub data Reach : System T → Type 0 where
    start :
        {w : World T} → new alloc false S ≡ ok tt w → Reach (record { world = w; sessions = [] })
    later : {s t : System T} → Reach s → Step s t → Reach t
