-- ===== src/Mpmc/Keeps.antt =====
-- The writing operations of src/mpmc/event_queue.rs, without the cargo feature, on a queue that is
-- not locked.
use lockless_event_queue.Base.{
  ℕ, ◌+◌, ◌^◌, ◌<◌, ◌≡◌, refl, ap, Bool, false, true, List, [], ◌∷◌, ◌++◌, length,
}
use lockless_event_queue.DynamicChunk.{Ptr}
use lockless_event_queue.Heap.{Heap, Allocates}
use lockless_event_queue.Chain.{Chain}
use lockless_event_queue.World.{World, Cmd, ok, stop, panic, unlock_list}
use lockless_event_queue.World.Commands.{lock_list-ok}
use lockless_event_queue.EventQueue.Settings as Base
use lockless_event_queue.EventQueue.Settings.{size_allowed}
use lockless_event_queue.EventQueue.Invariant.{IsFit, IsQueue, Evolves}
use lockless_event_queue.EventQueue.Invariant.CleanupKeeps.{tidied, IsQueue-lock, Evolves-locked}
use lockless_event_queue.EventQueue.Invariant.AddChunkKeeps.{next_node}
use lockless_event_queue.EventQueue.Invariant.GrowKeeps.{
  change_chunk_capacity-Evolves, change_chunk_capacity-refuses,
}
use lockless_event_queue.EventQueue.Invariant.PushKeeps.{push-Evolves}
use lockless_event_queue.EventQueue.Invariant.ExtendKeeps.{extend-Evolves}
use lockless_event_queue.Mpmc.{
  Settings, base_settings, with_list, push, extend, change_chunk_capacity,
}

pub with_list-ok :
    {T A : Type 0} (m : Cmd T A) (w : World T) (a : A) (w' : World T)
    → w.list_lock ≡ false
    → m (record w { list_lock = true }) ≡ ok a w'
    → with_list m w ≡ ok a (record w' { list_lock = false })
unfolding with_list unlock_list
with_list-ok m w a w' free runs = rw (lock_list-ok w free, runs)

pub with_list-stop :
    {T A : Type 0} (m : Cmd T A) (w : World T)
    → w.list_lock ≡ false
    → m (record w { list_lock = true }) ≡ stop panic
    → with_list m w ≡ stop panic
unfolding with_list
with_list-stop m w free stops = rw (lock_list-ok w free, stops)

module _ {T : Type 0} (alloc : Heap T → Ptr) (allocates : Allocates alloc) (S : Settings)
    (fit : IsFit (base_settings false S)) (e : ℕ) (ns : Chain T) (w : World T)
    (q : IsQueue (base_settings false S) e ns w) (free : w.list_lock ≡ false) where
  abbrev B : Base.Settings
  B = base_settings false S

  -- Without the cargo feature, on a well-formed queue whose list is not locked, with settings that
  -- fit, an allocator that gives unused addresses, and a chunk id left to give, mpmc `push` runs
  -- to its end, without a panic, a deadlock, undefined behaviour or a loop that does not end. The
  -- queue is well formed afterwards, in the same epoch and unlocked, no reader or handle has come
  -- or gone, and the items dropped so far followed by those in the queue are what they were, with
  -- the pushed item behind them. Every reader stays where it is, in chunks that count it, and has
  -- as much to read as before, with the item behind it.
  pub mpmc_push-Evolves :
      (x : T)
      → w.list.chunk_id_counter + 1 < 2 ^ 64
      → (w' : World T) × (ns' : Chain T) × (push alloc false S x w ≡ ok tt w')
        × Evolves B e ns ns' (x ∷ []) w w'
  unfolding push
  mpmc_push-Evolves x ids =
      let (w', ns', runs, v) =
        push-Evolves alloc allocates B refl fit ns x (IsQueue-lock true q) refl ids in
      (
        record w' { list_lock = false },
        ns',
        with_list-ok _ w tt w' free runs,
        Evolves-locked free v,
      )

  -- Under the conditions of mpmc `push`, with as many chunk ids left as the iterator has items,
  -- mpmc `extend` runs to its end, in no more rounds of its loop than one more than there are
  -- items, keeps the queue well formed, and puts all items of the iterator, in order, behind the
  -- items dropped so far and those in the queue, of which it loses none. Every reader stays where
  -- it is, in chunks that count it, and has as much to read as before, with these items behind it.
  pub mpmc_extend-Evolves :
      (iter : List T)
      → w.list.chunk_id_counter + length iter < 2 ^ 64
      → (w' : World T) × (ns' : Chain T) × (extend alloc false S iter w ≡ ok tt w')
        × Evolves B e ns ns' iter w w'
  unfolding extend
  mpmc_extend-Evolves iter ids =
      let (w', ns', runs, v) =
        extend-Evolves alloc allocates B refl fit ns iter (record w { list_lock = true })
          (IsQueue-lock true q) refl ids in
      (
        record w' { list_lock = false },
        ns',
        with_list-ok _ w tt w' free runs,
        Evolves-locked free v,
      )

-- A run of `change_chunk_capacity` that adds an empty chunk of the size, or its panic.
abbrev pub Resizes :
    {T : Type 0} → (Heap T → Ptr) → Settings → ℕ → Chain T → World T → ℕ → Bool → Type 0
Resizes {T} alloc S e ns w size true =
    (w' : World T) × (c : Ptr) × (change_chunk_capacity alloc false S size w ≡ ok tt w')
    × Evolves (base_settings false S) e ns
        (tidied (base_settings false S) ns ++ (c, next_node w e size) ∷ []) [] w w'
Resizes alloc S e ns w size false = change_chunk_capacity alloc false S size w ≡ stop panic

module _ {T : Type 0} (alloc : Heap T → Ptr) (allocates : Allocates alloc) (S : Settings)
    (fit : IsFit (base_settings false S)) (e : ℕ) (ns : Chain T) (w : World T)
    (q : IsQueue (base_settings false S) e ns w) (free : w.list_lock ≡ false) where
  resizes :
      (size : ℕ)
      → w.list.chunk_id_counter + 1 < 2 ^ 64
      → (b : Bool) → size_allowed (base_settings false S) size ≡ b
      → Resizes alloc S e ns w size b
  unfolding change_chunk_capacity
  resizes size ids true allowed =
      let (w', runs, c, grows) =
        change_chunk_capacity-Evolves alloc allocates (base_settings false S) refl fit ns
          (IsQueue-lock true q) refl ids size allowed in
      (
        record w' { list_lock = false },
        c,
        with_list-ok _ w tt w' free runs,
        Evolves-locked free grows.2,
      )
  resizes size ids false refused = with_list-stop _ w free (
      ap (λ (m : Cmd T (Unit {0})). m (record w { list_lock = true }))
        (change_chunk_capacity-refuses alloc (base_settings false S) size refused))

  -- Under the conditions of mpmc `push`, mpmc `change_chunk_capacity` panics if the size is not
  -- between the bounds of the settings. If it is, it runs to its end and leaves a well-formed
  -- queue that has lost no item, with an empty chunk of that size behind the chunks that the
  -- cleanup on a new chunk leaves, or behind all chunks in the other cleanup modes. Every reader
  -- stays where it is, in chunks that count it, and has as much to read as before.
  pub mpmc_change_chunk_capacity-Resizes :
      (size : ℕ)
      → w.list.chunk_id_counter + 1 < 2 ^ 64
      → Resizes alloc S e ns w size (size_allowed (base_settings false S) size)
  mpmc_change_chunk_capacity-Resizes size ids =
      resizes size ids (size_allowed (base_settings false S) size) refl
