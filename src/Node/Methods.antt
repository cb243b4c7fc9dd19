-- ===== src/Node/Methods.antt =====
-- The other methods of src/dynamic_chunk.rs on the chunk of a node: `construct`, `try_push`,
-- `push_unchecked`, `extend`, `get_unchecked`, `recycle` and the two counters.
use lockless_event_queue.Base.{
  ℕ, zero, suc, ◌+◌, ◌-◌, ◌^◌, ◌≤◌, ◌<◌, ◌≡◌, refl, ap, ◌∙◌, false, Option, none, some, List, [],
  ◌∷◌, ◌++◌, arith, ltb, of_bool, if◌then◌else◌, length, get_elem?, take, drop, replicate,
  length-append, take-nil, drop-nil, take-none, drop-none, take-pos, drop-pos, ==_ne,
}
use native.Mathlib.Decide.{dec_lt}
use mathlib.Core.List.{append_assoc, append-nil}
use lockless_event_queue.ChunkState.Fields.{word, set_len-word, pack-word}
use lockless_event_queue.DynamicArray
use lockless_event_queue.DynamicArray.{DynamicArray, all_values, flat}
use lockless_event_queue.DynamicChunk
use lockless_event_queue.DynamicChunk.{
  Ptr, null, Header, DynamicChunk, Pushed, fits, capacity_error, add_usize,
}
use lockless_event_queue.Node.{
  Node, slots, IsNode, node_state, chunk_of, set-slots, get-slots, values-slots, snoc, fresh, flag,
  flag-lt, len-chunk_of, push_at-chunk_of,
}

module _ {T : Type 0} where
  pub construct-chunk_of :
      (id size e : ℕ)
      → e < 2 ^ 31
      → DynamicChunk.construct {T = T} id (record { inner = e }) size
        ≡ chunk_of (fresh id size e) null
  unfolding DynamicChunk.construct DynamicArray.construct_uninit chunk_of
  construct-chunk_of id size e h = ap (DynamicChunk.store_state (chunk_of (fresh id size e) null)) (
      pack-word (record { len = 0; epoch = record { inner = e }; has_next = false }) (omega arith)
        h)

  pub enter-chunk_of :
      (n : Node T) (next : Ptr)
      → DynamicChunk.enter (chunk_of n next)
        ≡ chunk_of (record n { entered = add_usize n.entered 1 }) next
  unfolding DynamicChunk.enter chunk_of
  enter-chunk_of n next = refl

  pub mark_read-chunk_of :
      (n : Node T) (next : Ptr)
      → DynamicChunk.mark_read (chunk_of n next)
        ≡ chunk_of (record n { read = add_usize n.read 1 }) next
  unfolding DynamicChunk.mark_read chunk_of
  mark_read-chunk_of n next = refl

  cleared-slots :
      (n : ℕ) (xs : List T)
      → length xs ≤ n
      → replicate (length (take (length xs) (slots n xs))) none ++ drop (length xs) (slots n xs)
        ≡ replicate n none
  cleared-slots n [] h = refl
  cleared-slots zero (x ∷ xs) h = absurd (omega arith)
  cleared-slots (suc n) (x ∷ xs) h = ap (λ r. none ∷ r) (cleared-slots n xs (omega arith))

  module _ {n : Node T} (v : IsNode n) (next : Ptr) where
    pub push_unchecked-chunk_of :
        (x : T)
        → length n.items < n.cap
        → DynamicChunk.push_unchecked (chunk_of n next) x ≡ some (chunk_of (snoc n x) next)
    unfolding DynamicChunk.push_unchecked chunk_of
    push_unchecked-chunk_of x room =
        rw (len-chunk_of v next)
          (push_at-chunk_of v next x (length n.items) (omega (arith, v)) room)

    -- On a well-formed chunk, `try_push` appends the item if the chunk is not full, and else hands
    -- the item back and leaves the chunk as it is.
    pub try_push-chunk_of :
        (x : T)
        → DynamicChunk.try_push (chunk_of n next) x ≡ (
            if ltb (length n.items) n.cap
            then some (fits, chunk_of (snoc n x) next)
            else some (capacity_error x, chunk_of n next))
    unfolding DynamicChunk.try_push chunk_of
    try_push-chunk_of x =
        ground (arith, v, len-chunk_of v next, push_at-chunk_of v next x (length n.items))

    pub get_unchecked-chunk_of :
        (i : ℕ)
        → i < length n.items
        → DynamicChunk.get_unchecked (chunk_of n next) i ≡ get_elem? n.items i
    unfolding DynamicChunk.get_unchecked DynamicArray.get_unchecked chunk_of
    get_unchecked-chunk_of i h = ground (arith, v, get-slots n.cap n.items i v.items_fit)

    -- Recycling drops the items in order, and leaves slots that are not initialised.
    pub recycle-chunk_of :
        DynamicChunk.recycle (chunk_of n next)
        ≡ some (n.items, record (chunk_of n next) { array = replicate n.cap none })
    unfolding DynamicChunk.recycle chunk_of
    recycle-chunk_of = ground (
      arith,
      len-chunk_of v next,
      values-slots n.cap n.items v.items_fit,
      cleared-slots n.cap n.items v.items_fit,
    )

    write_at-chunk_of :
        (w : ℕ) (x : T)
        → length n.items < n.cap
        → DynamicArray.write_at (DynamicChunk.store_state (chunk_of n next) w) (length n.items) x
          ≡ some (DynamicChunk.store_state (chunk_of (snoc n x) next) w)
    unfolding DynamicArray.write_at chunk_of
    write_at-chunk_of w x room = ground (arith, v, set-slots n.cap n.items x room)

  -- What `extend` leaves: as many items as there is room for.
  abbrev pub filled : Node T → List T → Node T
  filled n xs = record n { items = n.items ++ take (n.cap - length n.items) xs }

  -- `Ok` if the iterator is found at its end before the chunk is found full.
  abbrev pub verdict : Node T → List T → Pushed (Unit {0})
  verdict n xs = if ltb (length n.items + length xs) n.cap then fits else capacity_error tt

  IsNode-snoc : {n : Node T} → IsNode n → (x : T) → length n.items < n.cap → IsNode (snoc n x)
  IsNode-snoc {n} v x room = omega (arith, v, length-append n.items (x ∷ []))

  count-snoc :
      (n : Node T) (x : T)
      → length n.items < 2 ^ 32
      → add_usize (length n.items) 1 ≡ length (n.items ++ (x ∷ []))
  count-snoc n x h = omega (arith, length-append n.items (x ∷ []))

  filled-snoc :
      (n : Node T) (x : T) (xs : List T) (next : Ptr)
      → length n.items < n.cap
      → ◌≡◌ {A = Option (Pushed (Unit {0}) × List T × DynamicChunk T)}
          (some (
            verdict (snoc n x) xs,
            drop (n.cap - length (n.items ++ (x ∷ []))) xs,
            chunk_of (filled (snoc n x) xs) next,
          ))
          (some (
            verdict n (x ∷ xs),
            drop (n.cap - length n.items) (x ∷ xs),
            chunk_of (filled n (x ∷ xs)) next,
          ))
  filled-snoc n x xs next room = ground (
    arith,
    length-append n.items (x ∷ []),
    take-pos (n.cap - length n.items) x xs (omega arith),
    drop-pos (n.cap - length n.items) x xs (omega arith),
    append_assoc n.items (x ∷ []) (take (n.cap - length n.items - 1) xs),
  )

  extend_loop-chunk_of :
      (xs : List T) {n : Node T} (v : IsNode n) (next : Ptr) (w l : ℕ)
      → l < 2 ^ 32
      → DynamicChunk.extend_loop xs
          (DynamicChunk.store_state (chunk_of n next) w)
          (word l (of_bool (flag v next)) n.epoch)
          (length n.items)
        ≡ some (verdict n xs, drop (n.cap - length n.items) xs, chunk_of (filled n xs) next)
  unfolding DynamicChunk.extend_loop chunk_of
  extend_loop-chunk_of [] {n} v next w l h = ground (
    arith,
    v,
    append-nil n.items,
    take-nil {A = T} (n.cap - length n.items),
    drop-nil {A = T} (n.cap - length n.items),
    set_len-word h (flag-lt v next) v.epoch_small (length n.items),
  )
  extend_loop-chunk_of (x ∷ xs) {n} v next w l h = elim (dec_lt (length n.items) n.cap) [
    | yes room ↦
        rw (==_ne (length n.items) n.cap (omega arith), write_at-chunk_of v next w x room)
          (rw (count-snoc n x (omega (arith, v))) (
            extend_loop-chunk_of xs (IsNode-snoc v x room) next w l h
            ∙ filled-snoc n x xs next room))
    | no full ↦ ground (
      arith,
      v,
      append-nil n.items,
      take-none (n.cap - length n.items) (x ∷ xs) (omega arith),
      drop-none (n.cap - length n.items) (x ∷ xs) (omega arith),
      set_len-word h (flag-lt v next) v.epoch_small (length n.items),
    )
  ]

  -- On a well-formed chunk, `extend` appends as many of the items as there is room for, in order,
  -- and leaves the others in the iterator. It answers `Ok` if the items and those before them are
  -- fewer than the capacity, and else the error, also if they fill the chunk exactly and all fit.
  pub extend-chunk_of :
      {n : Node T} (v : IsNode n) (next : Ptr) (xs : List T)
      → DynamicChunk.extend (chunk_of n next) xs
        ≡ some (verdict n xs, drop (n.cap - length n.items) xs, chunk_of (filled n xs) next)
  unfolding DynamicChunk.extend chunk_of
  extend-chunk_of {n} v next xs =
      rw (len-chunk_of v next)
        (extend_loop-chunk_of xs v next (node_state n next) (length n.items) (omega (arith, v)))
