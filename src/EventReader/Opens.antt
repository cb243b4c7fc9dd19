-- ===== src/EventReader/Opens.antt =====
-- `EventReader::iter` and `update_position` of src/event_reader.rs among other readers.
use lockless_event_queue.Base.{
  ℕ, ◌<◌, ◌≡◌, refl, sym, subst, ◌∙◌, true, false, Option, some, List, [], ◌∷◌, ◌++◌, arith, length,
  ◌==◌, if◌then◌else◌, inl, inr, Bool-cases, if_true, if_false, not,
}
use lockless_event_queue.ChunkState.{PackedChunkState}
use lockless_event_queue.DynamicChunk.{Ptr, null, DynamicChunk, chunk_state}
use lockless_event_queue.Heap
use lockless_event_queue.Node.{Node, IsNode, chunk_of, node_state, state-chunk_of, epoch-chunk_of}
use lockless_event_queue.Chain.{Chain, head_ptr, find-middle}
use lockless_event_queue.Chain.Append.{IsChain-middle}
use lockless_event_queue.World.{World, Cursor, Cmd, ok}
use lockless_event_queue.World.Commands.{load-ok}
use lockless_event_queue.EventQueue.Settings.{Settings}
use lockless_event_queue.EventQueue.Invariant.{HasEpoch, IsQueue, Conserves}
use lockless_event_queue.EventQueue.Invariant.CleanupKeeps.{Evolves-refl}
use lockless_event_queue.EventQueue.Invariant.Recount.{Conserves-Evolves}
use lockless_event_queue.EventQueue.Life.{EventReader}
use lockless_event_queue.Attendance.{Spot, spot_at, Stands, Attended}
use lockless_event_queue.Attendance.Split.{Stands-at, Stands-Place}
use lockless_event_queue.Attendance.Turn.{Attended-again}
use lockless_event_queue.EventReader.{
  Iter, update_start_position_and_get_chunk_state, update_position, iter,
}
use lockless_event_queue.EventReader.Forward.{forwarded, fast_forward-Gives}
use lockless_event_queue.EventReader.Crossing.{Gives}
use lockless_event_queue.EventReader.Seats.{ReadsAt, Undisturbed}

module _ {T : Type 0} where
  pub HasEpoch-middle :
      (e : ℕ) (xs : Chain T) (p : Ptr) (n : Node T) (ys : Chain T)
      → HasEpoch e (xs ++ (p, n) ∷ ys)
      → n.epoch ≡ e
  HasEpoch-middle e [] p n ys h = h.0
  HasEpoch-middle e (x ∷ xs) p n ys h = HasEpoch-middle e xs p n ys h.1

  -- The reader after it has looked at the start position, which it does in a new epoch.
  abbrev pub updated : ℕ → Chain T → Option Cursor → EventReader → EventReader
  updated e ns start r =
      if e == r.start_position_epoch.inner
      then r
      else forwarded ns start (record r { start_position_epoch = record { inner = e } })

-- An iterator that begins at the reader's place.
abbrev pub opened : PackedChunkState → EventReader → Iter
opened state r = record { position = r.position; state = state; event_reader = r }

-- The chunk at an address has this state.
abbrev pub HasState : {T : Type 0} → World T → Ptr → PackedChunkState → Type 0
HasState {T} w p state =
    (c : DynamicChunk T) × (Heap.read p w.heap ≡ some c) × (state ≡ chunk_state c)

-- A call that gives the reader `r`, and the state of the chunk that it is in.
abbrev pub Looks :
    {T : Type 0}
    → Settings
    → ℕ
    → Chain T
    → World T
    → List Spot
    → Cmd T (PackedChunkState × EventReader)
    → EventReader
    → Type 0
Looks {T} S e ns w ss call r =
    (state : PackedChunkState) × (w' : World T) × (ns' : Chain T) × (s : Spot) × (call w
      ≡ ok (state, r) w')
    × HasState w' r.position.chunk state
    × Conserves S e ns ns' [] w w'
    × ReadsAt (opened state r) s
    × Attended ns' w'.start_position (s ∷ ss)
    × Attended ns' w'.start_position (spot_at r.position ∷ ss)
    × Undisturbed ss ns ns'

module _ {T : Type 0} (S : Settings) {e : ℕ} (ss : List Spot) where
  -- What a resting reader finds in its chunk.
  looks :
      {ns ms : Chain T} {w v : World T} (r : EventReader)
      (call : Cmd T (PackedChunkState × EventReader))
      → Conserves S e ns ms [] w v
      → Attended ms v.start_position (spot_at r.position ∷ ss)
      → ((n : Node T) (next : Ptr)
          → n.epoch ≡ e
          → IsNode n
          → Heap.read r.position.chunk v.heap ≡ some (chunk_of n next)
          → call w ≡ ok (node_state n next, r) v)
      → Undisturbed ss ns ms
      → Looks S e ns w ss call r
  looks {ms = ms} {v = v} r call conserves a runs quiet =
      let (xs, n, ys, shape, within) = Stands-at r.position ms a.stand.0 in
      let q = subst (λ ks. IsQueue S e ks v) shape conserves.queue in
      let (ne, out, after, node) = IsChain-middle xs r.position.chunk n ys q.rep.chain in
      let here = q.rep.held r.position.chunk ∙ find-middle r.position.chunk n xs ys out in
      let s : Spot = record {
        behind = [];
        chunk = r.position.chunk;
        index = r.position.index;
        snapshot = record {
          len = length n.items;
          has_next = not (head_ptr ys == null);
          epoch = n.epoch;
        };
      } in
      (
        node_state n (head_ptr ys),
        v,
        ms,
        s,
        runs n (head_ptr ys) (HasEpoch-middle e xs r.position.chunk n ys q.epochs) node here,
        (chunk_of n (head_ptr ys), here, sym (state-chunk_of n (head_ptr ys))),
        conserves,
        record { chunk = refl; index = refl; state = refl; began = refl },
        Attended-again (spot_at r.position) s ss (λ k. refl)
            (subst (λ ks. Stands ks s) (sym shape)
              (Stands-Place s xs [] r.position.chunk n ys (record {
                behind = refl;
                chunk = refl;
                snapshot = record {
                  earlier = omega arith;
                  epoch_small = node.epoch_small;
                  finished = λ h. (linked ys h, refl);
                };
                within = within;
              })))
            a,
        a,
        quiet,
      )
    where
      linked : (ys : Chain T) → not (head_ptr ys == null) ≡ true → 0 < length ys
      linked [] h = absurd (ground (arith, h))
      linked (y ∷ ys) h = omega arith

module _ {T : Type 0} (S : Settings) (off : S.double_buffering ≡ false) {e : ℕ} (w : World T)
    (free : w.list_lock ≡ false) (r : EventReader) (ss : List Spot) (ns : Chain T)
    (q : IsQueue S e ns w) (a : Attended ns w.start_position (spot_at r.position ∷ ss)) where
  same_epoch :
      (e == r.start_position_epoch.inner) ≡ true
      → Looks S e ns w ss (update_start_position_and_get_chunk_state S r) r
  unfolding update_start_position_and_get_chunk_state
  same_epoch same =
      looks S ss r (update_start_position_and_get_chunk_state S r)
        (Conserves-Evolves (Evolves-refl q)) a
        (λ n next epoch node here. rw (
          load-ok r.position.chunk w here,
          state-chunk_of n next,
          epoch-chunk_of node next,
          epoch,
          same,
        ))
        (λ _ _ _ _. refl)

  new_epoch :
      (e == r.start_position_epoch.inner) ≡ false
      → Looks S e ns w ss
          (update_start_position_and_get_chunk_state S r)
          (forwarded ns w.start_position (record r { start_position_epoch = record { inner = e } }))
  unfolding update_start_position_and_get_chunk_state
  new_epoch new =
      let r' : EventReader = record r { start_position_epoch = record { inner = e } } in
      let (xs, n, ys, shape, within) = Stands-at r.position ns a.stand.0 in
      let q' = subst (λ ks. IsQueue S e ks w) shape q in
      let (ne, out, after, node) = IsChain-middle xs r.position.chunk n ys q'.rep.chain in
      let here = q'.rep.held r.position.chunk ∙ find-middle r.position.chunk n xs ys out in
      let epoch = HasEpoch-middle e xs r.position.chunk n ys q'.epochs in
      let (v, ms, runs, conserves, a', quiet) = fast_forward-Gives S off w free r' ss ns q a in
      looks S ss (forwarded ns w.start_position r') (update_start_position_and_get_chunk_state S r)
        conserves a'
        (λ n' next _ node' there. rw (
          load-ok r.position.chunk w here,
          state-chunk_of n (head_ptr ys),
          epoch-chunk_of node (head_ptr ys),
          epoch,
          new,
          runs,
          load-ok (forwarded ns w.start_position r').position.chunk v there,
          state-chunk_of n' next,
        ))
        quiet

  update-Looks :
      Looks S e ns w ss
        (update_start_position_and_get_chunk_state S r)
        (updated e ns w.start_position r)
  update-Looks = elim (Bool-cases (e == r.start_position_epoch.inner)) [
    | inl same ↦
        subst (Looks S e ns w ss (update_start_position_and_get_chunk_state S r))
          (sym (if_true _ _ same)) (same_epoch same)
    | inr new ↦
        subst (Looks S e ns w ss (update_start_position_and_get_chunk_state S r))
          (sym (if_false _ _ new)) (new_epoch new)
  ]

  -- `update_position`, which leaves the reader where it looks.
  pub update_position-Gives :
      Gives S e ns w ss (update_position S r) (updated e ns w.start_position r)
  unfolding update_position
  update_position-Gives =
      let (state, w', ns', s, runs, _, conserves, reads, _, a', quiet) = update-Looks in
      (w', ns', rw runs, conserves, a', quiet)

  -- Under the conditions of the fast forward, `iter` runs to its end. If the epoch of the queue is
  -- not the one that the reader knows, the reader takes it over and is fast forwarded; else it
  -- stays as it is. The iterator begins at the reader's place, with the state that the chunk there
  -- has after the call. The queue is well formed and has lost no item, all readers, this one at
  -- the iterator's place, are counted, and the others have the same items to read as before.
  pub iter-Opens :
      (state : PackedChunkState) × (w' : World T) × (ns' : Chain T) × (s : Spot) × (iter S r w
        ≡ ok (opened state (updated e ns w.start_position r)) w')
      × HasState w' (updated e ns w.start_position r).position.chunk state
      × Conserves S e ns ns' [] w w'
      × ReadsAt (opened state (updated e ns w.start_position r)) s
      × Attended ns' w'.start_position (s ∷ ss)
      × Undisturbed ss ns ns'
  unfolding iter
  iter-Opens =
      let (state, w', ns', s, runs, here, conserves, reads, a', _, quiet) = update-Looks in
      (state, w', ns', s, rw runs, here, conserves, reads, a', quiet)
