-- ===== src/Node/Reuse.antt =====
-- A chunk that is freed and reused with the cargo feature `double_buffering` of src/dynamic_chunk.rs.
use lockless_event_queue.Base.{
  ℕ, ◌^◌, ◌<◌, ◌≡◌, ap, ◌∙◌, false, none, some, [], arith, replicate, ==_ne,
}
use lockless_event_queue.ChunkState.Fields.{pack-word}
use lockless_event_queue.DynamicChunk
use lockless_event_queue.DynamicChunk.{
  Ptr, null, DynamicChunk, recycle, from_recycled, readers_entered, read_completely_times,
}
use lockless_event_queue.Node.{Node, IsNode, chunk_of}
use lockless_event_queue.Node.Methods.{recycle-chunk_of}
use lockless_event_queue.EventQueue.Cleanup.{unoccupied}

-- A reused node: the new id and epoch and no items, but the old count of readers that entered it.
abbrev pub reused : {T : Type 0} → Node T → ℕ → ℕ → Node T
reused n id e = record {
  id = id;
  cap = n.cap;
  items = [];
  epoch = e;
  entered = n.entered;
  read = 0;
}

module _ {T : Type 0} {n : Node T} (v : IsNode n) (next : Ptr) where
  from_recycled-chunk_of :
      (id e : ℕ)
      → e < 2 ^ 31
      → from_recycled
          (record (chunk_of n next) { array = replicate n.cap none })
          id
          (record { inner = e })
        ≡ chunk_of (reused n id e) null
  unfolding from_recycled chunk_of
  from_recycled-chunk_of id e h = ap (DynamicChunk.store_state (chunk_of (reused n id e) null)) (
      pack-word (record { len = 0; epoch = record { inner = e }; has_next = false }) (omega arith)
        h)

  -- Recycling a well-formed chunk that was entered at least once drops its items in order. The
  -- chunk that `from_recycled` then makes of it, for an id and an epoch in range, is empty and has
  -- the old capacity, but keeps the number of readers that have entered it and starts with none
  -- that have left, so that it counts as occupied.
  pub recycle-from_recycled :
      (id e : ℕ)
      → e < 2 ^ 31
      → 0 < n.entered
      → (recycled : DynamicChunk T) × (recycle (chunk_of n next) ≡ some (n.items, recycled))
        × (from_recycled recycled id (record { inner = e }) ≡ chunk_of (reused n id e) null)
        × (unoccupied (from_recycled recycled id (record { inner = e })) ≡ false)
  unfolding chunk_of
  recycle-from_recycled id e small some_entered = (
    record (chunk_of n next) { array = replicate n.cap none },
    recycle-chunk_of v next,
    from_recycled-chunk_of id e small,
    ap unoccupied (from_recycled-chunk_of id e small)
        ∙ ==_ne n.entered 0 (omega (arith, some_entered)),
  )
