-- ===== src/Attendance.antt =====
-- Who stands where: the readers of src/event_reader.rs with their iterators, and the counters of
-- src/dynamic_chunk.rs that say how many have entered and left each chunk.
pub mod Follow
pub mod Thin
pub mod Count
pub mod Split
pub mod Turn
pub mod Front
pub mod Unread
pub mod Delivers
use lockless_event_queue.Base.{
  ℕ, ◌+◌, ◌%◌, ◌^◌, ◌≤◌, ◌<◌, ◌≡◌, ◌⊎◌, Bool, true, false, ◌||◌, Option, none, some, List, [], ◌∷◌,
  ◌==◌, of_bool, length,
}
use lockless_event_queue.ChunkState.Fields.{word}
use lockless_event_queue.DynamicChunk.{Ptr, add_usize}
use lockless_event_queue.Node.{Node}
use lockless_event_queue.Chain.{Chain}
use lockless_event_queue.World.{Cursor}

module _ {T : Type 0} where
  -- A node that one reader more has entered, and one that one more has left.
  abbrev pub entered_once : Node T → Node T
  entered_once n = record n { entered = add_usize n.entered 1 }

  abbrev pub left_once : Node T → Node T
  left_once n = record n { read = add_usize n.read 1 }

-- The length in a snapshot, its flag, and its epoch.
pub record Snapshot : Type 0 where
  pub len : ℕ
  pub has_next : Bool
  pub epoch : ℕ

abbrev pub snapshot_word : Snapshot → ℕ
snapshot_word s = word s.len (of_bool s.has_next) s.epoch

-- What a reader may hold of a chunk: an earlier length, and the flag only of a chunk that is
-- finished.
pub record IsSnapshot {T : Type 0} (s : Snapshot) (n : Node T) (ys : Chain T) : Type 0 where
  pub earlier : s.len ≤ length n.items
  pub epoch_small : s.epoch < 2 ^ 31
  pub finished : s.has_next ≡ true → (0 < length ys) × (s.len ≡ length n.items)

-- Where a reader is: the chunks that it has passed in its session, its chunk, its place there, and
-- what it has read of the chunk's state.
pub record Spot : Type 0 where
  pub behind : List Ptr
  pub chunk : Ptr
  pub index : ℕ
  pub snapshot : Snapshot

-- A place that somebody knows of, without a session.
abbrev pub spot_at : Cursor → Spot
spot_at c = record {
  behind = [];
  chunk = c.chunk;
  index = c.index;
  snapshot = record { len = c.index; has_next = false; epoch = 0 };
}

abbrev pub among : Ptr → List Ptr → Bool
among p [] = false
among p (q ∷ qs) = q == p || among p qs

-- A reader has entered a chunk and has not left it.
abbrev pub visits : Ptr → Spot → Bool
visits p s = among p s.behind || s.chunk == p

-- How many of the readers are in a chunk.
abbrev pub occupants : List Spot → Ptr → ℕ
occupants [] p = 0
occupants (s ∷ ss) p = of_bool (visits p s) + occupants ss p

module _ {T : Type 0} where
  -- The chunks passed are the next nodes of the chain, and the reader's chunk is the one behind.
  abbrev pub Covers : Spot → Chain T → List Ptr → Type 0
  Covers s [] bs = ⊥
  Covers s ((p, n) ∷ ns) [] =
      (p ≡ s.chunk) × IsSnapshot s.snapshot n ns × (s.index ≤ s.snapshot.len)
  Covers s ((p, n) ∷ ns) (b ∷ bs) = (p ≡ b) × Covers s ns bs

  -- A reader stands somewhere in the chain.
  abbrev pub Stands : Chain T → Spot → Type 0
  Stands [] s = ⊥
  Stands ((p, n) ∷ ns) s = Covers s ((p, n) ∷ ns) s.behind ⊎ Stands ns s

  abbrev pub AllStand : Chain T → List Spot → Type 0
  AllStand ns [] = Unit
  AllStand ns (s ∷ ss) = Stands ns s × AllStand ns ss

  abbrev pub StartStands : Chain T → Option Cursor → Type 0
  StartStands ns none = Unit
  StartStands ns (some c) = Stands ns (spot_at c)

  -- The counters of every chunk say how many readers are in it, modulo 2^64.
  abbrev pub Counts : (Ptr → ℕ) → Chain T → Type 0
  Counts inside [] = Unit
  Counts inside ((p, n) ∷ ns) =
      (n.entered ≡ (n.read + inside p) % 2 ^ 64) × (n.read < 2 ^ 64) × Counts inside ns

  -- The readers `ss` are in the chain, the start position is too, and the counters are right.
  pub record Attended (ns : Chain T) (start : Option Cursor) (ss : List Spot) : Type 0 where
    pub counts : Counts (occupants ss) ns
    pub stand : AllStand ns ss
    pub place : StartStands ns start
    pub few : length ss < 2 ^ 64
