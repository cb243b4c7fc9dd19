-- ===== src/DynamicChunk.antt =====
-- src/dynamic_chunk.rs: one chunk of the queue's linked list, a `DynamicArray` with a header.
-- Methods take the chunk and return the new one. As in DynamicArray.antt, the outer `none` is
-- undefined behaviour. Atomics are their values: a `fetch_add` wraps at `2 ^ 64`.
-- Left out of `Header`: `event`, since there is one queue, and `chunk_switch_mutex`, which no
-- operation holds across another one.
use lockless_event_queue.Base.{
  ℕ, ◌+◌, ◌%◌, ◌^◌, false, not, Option, none, some, List, [], ◌∷◌, leb, ◌==◌, ◌++◌, if◌then◌else◌,
  length, take, drop, replicate,
}
use lockless_event_queue.Utils.{Epoch}
use lockless_event_queue.ChunkState
use lockless_event_queue.ChunkState.{PackedChunkState, pack}
use lockless_event_queue.DynamicArray
use lockless_event_queue.DynamicArray.{DynamicArray, all_values}

-- Addresses; `null_mut()` is 0.
abbrev pub Ptr : Type 0
Ptr = ℕ

abbrev pub null : Ptr
null = 0

-- `Header`
pub record Header : Type 0 where
  pub id : ℕ
  pub next : Ptr
  pub readers_entered : ℕ
  pub read_completely_times : ℕ
  pub chunk_state : PackedChunkState

abbrev pub DynamicChunk : Type 0 → Type 0
DynamicChunk T = DynamicArray Header T

-- `Result<(), CapacityError<V>>`
pub data Pushed (V : Type 0) : Type 0 where
  fits : Pushed V
  capacity_error : V → Pushed V

-- `usize` and `AtomicUsize` addition
abbrev pub add_usize : ℕ → ℕ → ℕ
add_usize a b = (a + b) % 2 ^ 64

-- `ChunkState{len: 0, has_next: false, epoch}`, packed
abbrev pub empty_state : Epoch → PackedChunkState
empty_state epoch = pack (record { len = 0; epoch = epoch; has_next = false })

module _ {T : Type 0} where
  abbrev pub id : DynamicChunk T → ℕ
  id this = this.header.id

  abbrev pub next : DynamicChunk T → Ptr
  next this = this.header.next

  abbrev pub readers_entered : DynamicChunk T → ℕ
  readers_entered this = this.header.readers_entered

  abbrev pub read_completely_times : DynamicChunk T → ℕ
  read_completely_times this = this.header.read_completely_times

  abbrev pub chunk_state : DynamicChunk T → PackedChunkState
  chunk_state this = this.header.chunk_state

  abbrev pub capacity : DynamicChunk T → ℕ
  capacity this = this.array_len

  -- `chunk_state.store`
  abbrev pub store_state : DynamicChunk T → PackedChunkState → DynamicChunk T
  store_state this s = record this { header = record (this.header) { chunk_state = s } }

  -- `readers_entered().fetch_add(1)`
  unfoldable pub enter : DynamicChunk T → DynamicChunk T
  enter this = record this {
    header = record (this.header) { readers_entered = add_usize this.header.readers_entered 1 };
  }

  -- `read_completely_times().fetch_add(1)`
  unfoldable pub mark_read : DynamicChunk T → DynamicChunk T
  mark_read this = record this {
    header = record (this.header) {
      read_completely_times = add_usize this.header.read_completely_times 1;
    };
  }

  unfoldable pub set_next : DynamicChunk T → Ptr → DynamicChunk T
  set_next this ptr =
      let linked : DynamicChunk T = record this { header = record (this.header) { next = ptr } } in
      store_state linked (ChunkState.set_has_next (chunk_state this) (not (ptr == null)))

  unfoldable pub construct : ℕ → Epoch → ℕ → DynamicChunk T
  construct id epoch len =
      let header : Header = record {
        id = id;
        next = null;
        readers_entered = 0;
        read_completely_times = 0;
        chunk_state = empty_state epoch;
      } in
      DynamicArray.construct_uninit header len

  -- `from_recycled`: every field of the header is set but `readers_entered`.
  unfoldable pub from_recycled : DynamicChunk T → ℕ → Epoch → DynamicChunk T
  from_recycled recycled id epoch = record recycled {
    header = record (recycled.header) {
      id = id;
      next = null;
      read_completely_times = 0;
      chunk_state = empty_state epoch;
    };
  }

  unfoldable pub set_epoch : DynamicChunk T → Epoch → DynamicChunk T
  set_epoch this epoch = store_state this (ChunkState.set_epoch (chunk_state this) epoch)

  unfoldable pub push_at : DynamicChunk T → T → ℕ → PackedChunkState → Option (DynamicChunk T)
  push_at this value index state = elim (DynamicArray.write_at this index value) [
    | none ↦ none
    | some written ↦ some (store_state written (ChunkState.set_len state ((index + 1) % 2 ^ 32)))
  ]

  unfoldable pub try_push : DynamicChunk T → T → Option (Pushed T × DynamicChunk T)
  try_push this value =
      let index = ChunkState.len (chunk_state this) in
      if leb (capacity this) index
      then some (capacity_error value, this)
      else elim (push_at this value index (chunk_state this)) [
        | none ↦ none
        | some pushed ↦ some (fits, pushed)
      ]

  unfoldable pub push_unchecked : DynamicChunk T → T → Option (DynamicChunk T)
  push_unchecked this value =
      push_at this value (ChunkState.len (chunk_state this)) (chunk_state this)

  -- The store at either end of `extend`'s loop.
  abbrev pub store_len : DynamicChunk T → PackedChunkState → ℕ → DynamicChunk T
  store_len this state n = store_state this (ChunkState.set_len state n)

  -- The loop of `extend`: the iterator is the list of what it still yields.
  unfoldable pub extend_loop :
      List T
      → DynamicChunk T
      → PackedChunkState
      → ℕ
      → Option (Pushed (Unit {0}) × List T × DynamicChunk T)
  extend_loop [] this state index =
      if index == capacity this
      then some (capacity_error tt, [], store_len this state (capacity this % 2 ^ 32))
      else some (fits, [], store_len this state (index % 2 ^ 32))
  extend_loop (value ∷ iter) this state index =
      if index == capacity this
      then some (capacity_error tt, value ∷ iter, store_len this state (capacity this % 2 ^ 32))
      else elim (DynamicArray.write_at this index value) [
        | none ↦ none
        | some written ↦ extend_loop iter written state (add_usize index 1)
      ]

  unfoldable pub extend :
      DynamicChunk T → List T → Option (Pushed (Unit {0}) × List T × DynamicChunk T)
  extend this iter = extend_loop iter this (chunk_state this) (ChunkState.len (chunk_state this))

  unfoldable pub get_unchecked : DynamicChunk T → ℕ → Option T
  get_unchecked this index = DynamicArray.get_unchecked this index

  -- `recycle`: the items of the first `len` slots are dropped, in order, and leave no value behind.
  unfoldable pub recycle : DynamicChunk T → Option (List T × DynamicChunk T)
  recycle this =
      let n = ChunkState.len (chunk_state this) in
      elim (all_values (take n this.array)) [
        | none ↦ none
        | some items ↦ some (
          items,
          record this { array = replicate (length (take n this.array)) none ++ drop n this.array },
        )
      ]
