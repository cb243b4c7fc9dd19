-- ===== src/World.antt =====
-- The memory that the queue and its readers share, and commands on it. Src: the `List` and
-- `EventQueue` records of src/event_queue.rs, src/cursor.rs, and the locks of src/sync/build.rs.
-- A world holds one queue. Chunks are allocations at addresses. A command runs to its end without
-- another thread in between, under sequential consistency, so the memory orderings are left out.
pub mod Commands
use lockless_event_queue.Base.{ℕ, Bool, true, false, Option, none, some, List, ◌++◌, if◌then◌else◌}
use lockless_event_queue.DynamicChunk.{Ptr, DynamicChunk}
use lockless_event_queue.Heap
use lockless_event_queue.Heap.{Heap}

-- `Cursor`
pub record Cursor : Type 0 where
  pub chunk : Ptr
  pub index : ℕ

-- `List`. `free_chunk` is the address of the recycled chunk.
pub record ListState : Type 0 where
  pub first : Ptr
  pub last : Ptr
  pub chunk_id_counter : ℕ
  pub total_capacity : ℕ
  pub readers_count : ℕ
  pub penult_chunk_size : ℕ
  pub free_chunk : Option Ptr

-- `EventQueue` with the memory: a lock is `true` while it is held. `strong_count` is that of the
-- queue's `Arc`, and `dropped` the items dropped so far, in order.
pub record World (T : Type 0) : Type 0 where
  pub heap : Heap T
  pub list : ListState
  pub list_lock : Bool
  pub start_position : Option Cursor
  pub start_lock : Bool
  pub strong_count : ℕ
  pub dropped : List T

-- How a command can fail to return: a Rust panic, a lock taken by the thread that holds it,
-- undefined behaviour (a null or freed chunk, an index or slot as in DynamicArray.antt), and a loop
-- that has used up its rounds.
pub data Stop : Type 0 where
  panic deadlock undefined out_of_fuel : Stop

pub data Run (T A : Type 0) : Type 0 where
  ok : A → World T → Run T A
  stop : Stop → Run T A

abbrev pub Cmd : (T A : Type 0) → Type 0
Cmd T A = World T → Run T A

module _ {T A : Type 0} where
  abbrev pub pure : A → Cmd T A
  pure = ok

  abbrev pub halt : Stop → Cmd T A
  halt s _ = stop s

  -- A value that is there, or undefined behaviour.
  abbrev pub defined : Option A → Cmd T A
  defined none = halt undefined
  defined (some a) = pure a

module _ {T A B : Type 0} where
  abbrev pub and_then : Run T A → (A → Cmd T B) → Run T B
  and_then (ok a w) k = k a w
  and_then (stop s) k = stop s

  infixl 5 ◌>>=◌ ◌>>◌
  abbrev pub ◌>>=◌ : Cmd T A → (A → Cmd T B) → Cmd T B
  m >>= k = λ w. and_then (m w) k

  abbrev pub ◌>>◌ : Cmd T A → Cmd T B → Cmd T B
  m >> n = m >>= λ _. n

module _ {T : Type 0} where
  abbrev pub skip : Cmd T (Unit {0})
  skip = pure tt

  abbrev pub when : Bool → Cmd T (Unit {0}) → Cmd T (Unit {0})
  when b m = if b then m else skip

  abbrev pub get_list : Cmd T ListState
  get_list w = ok w.list w

  abbrev pub put_list : ListState → Cmd T (Unit {0})
  put_list l w = ok tt (record w { list = l })

  abbrev pub get_start : Cmd T (Option Cursor)
  get_start w = ok w.start_position w

  abbrev pub put_start : Option Cursor → Cmd T (Unit {0})
  put_start c w = ok tt (record w { start_position = c })

  -- `&*p`
  unfoldable pub load : Ptr → Cmd T (DynamicChunk T)
  load p w = defined (Heap.read p w.heap) w

  -- A write through `p` of what `p` points at.
  unfoldable pub store : Ptr → DynamicChunk T → Cmd T (Unit {0})
  store p c w = elim (Heap.read p w.heap) [
    | none ↦ stop undefined
    | some _ ↦ ok tt (record w { heap = Heap.write p c w.heap })
  ]

  unfoldable pub modify : Ptr → (DynamicChunk T → DynamicChunk T) → Cmd T (Unit {0})
  modify p f = do c ← load p; store p (f c)

  -- `dealloc`
  unfoldable pub free : Ptr → Cmd T (Unit {0})
  free p w = elim (Heap.read p w.heap) [
    | none ↦ stop undefined
    | some _ ↦ ok tt (record w { heap = Heap.erase p w.heap })
  ]

  abbrev pub log_dropped : List T → Cmd T (Unit {0})
  log_dropped xs w = ok tt (record w { dropped = w.dropped ++ xs })

  -- `self.list.lock()`, and the drop of its guard
  unfoldable pub lock_list : Cmd T (Unit {0})
  lock_list w = if w.list_lock then stop deadlock else ok tt (record w { list_lock = true })

  unfoldable pub unlock_list : Cmd T (Unit {0})
  unlock_list w = ok tt (record w { list_lock = false })

  -- `self.start_position.lock()`, and the drop of its guard
  unfoldable pub lock_start : Cmd T (Unit {0})
  lock_start w = if w.start_lock then stop deadlock else ok tt (record w { start_lock = true })

  unfoldable pub unlock_start : Cmd T (Unit {0})
  unlock_start w = ok tt (record w { start_lock = false })
