-- ===== src/EventQueue/Invariant.antt =====
-- The invariant of the queue of src/event_queue.rs, over the chain of its chunks.
pub mod Trim
pub mod CleanupKeeps
pub mod Snoc
pub mod AddChunkKeeps
pub mod RefillKeeps
pub mod GrowKeeps
pub mod PushKeeps
pub mod ExtendKeeps
pub mod Starts
pub mod Subscribe
pub mod Busy
pub mod ForceTo
pub mod ForceKeeps
pub mod ClearKeeps
pub mod TruncateKeeps
pub mod Recount
pub mod Unsubscribe
pub mod DropFrees
use lockless_event_queue.Base.{
  ℕ, ◌+◌, ◌%◌, ◌^◌, ◌≤◌, ◌<◌, ◌≡◌, false, true, Option, none, some, List, [], ◌∷◌, ◌++◌, length,
}
use lockless_event_queue.Node.{Node}
use lockless_event_queue.Chain.{Chain, has}
use lockless_event_queue.Represents.{Represents}
use lockless_event_queue.World.{World, Cursor}
use lockless_event_queue.EventQueue.Settings.{Settings}
use lockless_event_queue.Attendance.{Spot, Attended}
use lockless_event_queue.Attendance.Unread.{unread}
use lockless_event_queue.EventQueue.Cleanup.InOrder.{contents}

-- No chunk is too large for a `u32`, or empty.
pub record IsFit (S : Settings) : Type 0 where
  pub positive : 0 < S.min_chunk_size
  pub ordered : S.min_chunk_size ≤ S.max_chunk_size
  pub small : S.max_chunk_size < 2 ^ 32

module _ {T : Type 0} where
  -- The sum of the capacities.
  abbrev pub caps : Chain T → ℕ
  caps [] = 0
  caps ((p, n) ∷ ns) = n.cap + caps ns

  -- Ids grow along the list, and the last one is `k`.
  abbrev pub IdsUpTo : ℕ → Chain T → Type 0
  IdsUpTo k [] = Unit
  IdsUpTo k ((p, n) ∷ []) = n.id ≡ k
  IdsUpTo k ((p, n) ∷ (q, m) ∷ ns) = (n.id < m.id) × IdsUpTo k ((q, m) ∷ ns)

  -- One epoch in all chunks.
  abbrev pub HasEpoch : ℕ → Chain T → Type 0
  HasEpoch e [] = Unit
  HasEpoch e ((p, n) ∷ ns) = (n.epoch ≡ e) × HasEpoch e ns

  -- Capacities that the settings allow.
  abbrev pub HasSizes : Settings → Chain T → Type 0
  HasSizes S [] = Unit
  HasSizes S ((p, n) ∷ ns) = (S.min_chunk_size ≤ n.cap) × (n.cap ≤ S.max_chunk_size) × HasSizes S ns

  -- The start position is in a chunk of the list.
  abbrev pub StartIn : Chain T → Option Cursor → Type 0
  StartIn ns none = Unit
  StartIn ns (some c) = has c.chunk ns ≡ true

  pub record IsQueue (S : Settings) (e : ℕ) (ns : Chain T) (w : World T) : Type 0 where
    pub rep : Represents w ns
    pub nonempty : 0 < length ns
    pub start_unlocked : w.start_lock ≡ false
    pub ids : IdsUpTo w.list.chunk_id_counter ns
    pub epochs : HasEpoch e ns
    pub sizes : HasSizes S ns
    pub total : w.list.total_capacity ≡ caps ns % 2 ^ 64
    pub start : StartIn ns w.start_position

  -- Nobody has come or gone, and nobody has locked the list.
  pub record SameHandles (w w' : World T) : Type 0 where
    pub list_lock : w'.list_lock ≡ w.list_lock
    pub readers_count : w'.list.readers_count ≡ w.list.readers_count
    pub strong_count : w'.strong_count ≡ w.strong_count

  -- From `w`, with the list `ns`, to `w'` with `ns'`: the invariant holds again, the items dropped
  -- and those in the queue are together the same sequence as before with `added` behind it, and
  -- nobody has come or gone.
  pub record Conserves (S : Settings) (e : ℕ) (ns ns' : Chain T) (added : List T) (w w' : World T)
      : Type 0 where
    pub queue : IsQueue S e ns' w'
    pub history : w'.dropped ++ contents ns' ≡ (w.dropped ++ contents ns) ++ added
    pub list_lock : w'.list_lock ≡ w.list_lock
    pub readers_count : w'.list.readers_count ≡ w.list.readers_count
    pub strong_count : w'.strong_count ≡ w.strong_count

  -- A change that moreover leaves every reader where it is, with chunks that count it, and what it
  -- has not read yet as it is, but for the items added.
  pub record Evolves (S : Settings) (e : ℕ) (ns ns' : Chain T) (added : List T) (w w' : World T)
      : Type 0 where
    pub queue : IsQueue S e ns' w'
    pub history : w'.dropped ++ contents ns' ≡ (w.dropped ++ contents ns) ++ added
    pub list_lock : w'.list_lock ≡ w.list_lock
    pub readers_count : w'.list.readers_count ≡ w.list.readers_count
    pub strong_count : w'.strong_count ≡ w.strong_count
    pub attended :
        (ss : List Spot) → Attended ns w.start_position ss → Attended ns' w'.start_position ss
    pub delivers :
        (s : Spot) (ss : List Spot)
        → Attended ns w.start_position (s ∷ ss)
        → unread s ns' ≡ unread s ns ++ added
