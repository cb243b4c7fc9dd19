-- ===== src/EventReader/Crossing.antt =====
-- A reader of src/event_reader.rs that enters the chunk of the start position and leaves its own.
use lockless_event_queue.Base.{
  ℕ, ◌≤◌, ◌≡◌, refl, sym, subst, ap, ◌∙◌, false, List, [], ◌∷◌, ◌++◌, arith, length, ◌&&◌, leb, inl,
  inr, Bool-cases,
}
use lockless_event_queue.DynamicChunk.{add_usize}
use lockless_event_queue.Heap
use lockless_event_queue.Heap.{Heap}
use lockless_event_queue.Node.{Node, chunk_of}
use lockless_event_queue.Chain.{Chain, head_ptr, Holds}
use lockless_event_queue.Chain.Append.{IsChain-middle}
use lockless_event_queue.Represents.{Holds-write}
use lockless_event_queue.World.{World, Cursor, Cmd, ok, pure, ◌>>=◌, when}
use lockless_event_queue.EventQueue.Settings.{Settings, is_on_chunk_read}
use lockless_event_queue.EventQueue.Cleanup.{cleanup}
use lockless_event_queue.EventQueue.Invariant.{IsQueue, Conserves}
use lockless_event_queue.EventQueue.Invariant.CleanupKeeps.{cleanup-Evolves}
use lockless_event_queue.EventQueue.Invariant.ForceKeeps.{unlocked-IsQueue}
use lockless_event_queue.EventQueue.Invariant.Recount.{
  Conserves-Recounted, Conserves-Evolves, Conserves-trans,
}
use lockless_event_queue.EventQueue.Life.{EventReader}
use lockless_event_queue.Attendance.{
  Spot, spot_at, entered_once, left_once, occupants, AllStand, StartStands, Counts, Attended,
}
use lockless_event_queue.Attendance.Thin.{StartStands-Follows}
use lockless_event_queue.Attendance.Follow.{Stands-place}
use lockless_event_queue.Attendance.Count.{with_one, Counts-ext, Counts-enter, Counts-leave}
use lockless_event_queue.Attendance.Turn.{Recounted-middle, Follows-Recounted, AllStand-Recounted}
use lockless_event_queue.EventReader.Seats.{Undisturbed, Undisturbed-Evolves}
use lockless_event_queue.Attendance.Unread.{unread}
use lockless_event_queue.Attendance.Turn.{unread-Recounted}

module _ {T : Type 0} (S : Settings) (off : S.double_buffering ≡ false) {e : ℕ} {ns ms : Chain T}
    {w v : World T} where
  -- With the lock on the start position released.
  pub Conserves-unlocked :
      Conserves S e ns ms [] w v → Conserves S e ns ms [] w (record v { start_lock = false })
  Conserves-unlocked a = record {
    queue = unlocked-IsQueue S off a.queue;
    history = a.history;
    list_lock = a.list_lock;
    readers_count = a.readers_count;
    strong_count = a.strong_count;
  }

-- A call that gives the reader `r`, which then rests at its position beside `ss`.
abbrev pub Gives :
    {T : Type 0}
    → Settings
    → ℕ
    → Chain T
    → World T
    → List Spot
    → Cmd T EventReader
    → EventReader
    → Type 0
Gives {T} S e ns w ss call r =
    (w' : World T) × (ns' : Chain T) × (call w ≡ ok r w')
    × Conserves S e ns ns' [] w w'
    × Attended ns' w'.start_position (spot_at r.position ∷ ss)
    × Undisturbed ss ns ns'

module _ {T : Type 0} (S : Settings) (off : S.double_buffering ≡ false) {e : ℕ} (w : World T)
    (free : w.list_lock ≡ false) (r : EventReader) (ss : List Spot) where
  module _ (c : Cursor) (us : Chain T) (m : Node T) (vs : Chain T)
      (q : IsQueue S e (us ++ (c.chunk, m) ∷ vs) w) (within : c.index ≤ length m.items)
      (a : Attended (us ++ (c.chunk, m) ∷ vs) w.start_position (spot_at r.position ∷ ss)) where
    abbrev pub entered_heap : Heap T
    entered_heap = Heap.write c.chunk (chunk_of (entered_once m) (head_ptr vs)) w.heap

    entered_held : Holds entered_heap (us ++ (c.chunk, entered_once m) ∷ vs)
    entered_held =
        Holds-write w.heap us c.chunk m (entered_once m) vs
          (IsChain-middle us c.chunk m vs q.rep.chain).1 q.rep.held

    enters :
        Conserves S e
          (us ++ (c.chunk, m) ∷ vs)
          (us ++ (c.chunk, entered_once m) ∷ vs)
          []
          w
          (record w { heap = entered_heap })
    enters =
        Conserves-Recounted _ _ entered_heap (Recounted-middle us c.chunk m vs _ _) entered_held q

    counted :
        Counts
          (with_one c.chunk (occupants (spot_at r.position ∷ ss)))
          (us ++ (c.chunk, entered_once m) ∷ vs)
    counted =
        let (ne, before, after, v) = IsChain-middle us c.chunk m vs q.rep.chain in
        Counts-enter (occupants (spot_at r.position ∷ ss)) us c.chunk m vs before after a.counts

    stand : AllStand (us ++ (c.chunk, entered_once m) ∷ vs) (spot_at c ∷ spot_at r.position ∷ ss)
    stand = (
      Stands-place us c.chunk (entered_once m) vs c refl within,
      AllStand-Recounted _ _ (spot_at r.position ∷ ss) (Recounted-middle us c.chunk m vs _ _)
          a.stand,
    )

    place : StartStands (us ++ (c.chunk, entered_once m) ∷ vs) w.start_position
    place =
        StartStands-Follows w.start_position
          (λ s. Follows-Recounted s _ _ (Recounted-middle us c.chunk m vs _ _)) a.place

    -- The reader leaves the chunk that it was in.
    module _ (xs : Chain T) (n : Node T) (ys : Chain T)
        (shape : us ++ (c.chunk, entered_once m) ∷ vs ≡ xs ++ (r.position.chunk, n) ∷ ys) where
      abbrev left_heap : Heap T
      left_heap = Heap.write r.position.chunk (chunk_of (left_once n) (head_ptr ys)) entered_heap

      pub queue : IsQueue S e (xs ++ (r.position.chunk, n) ∷ ys) (record w { heap = entered_heap })
      queue = subst (λ ks. IsQueue S e ks (record w { heap = entered_heap })) shape enters.queue

      moves :
          Conserves S e
            (us ++ (c.chunk, m) ∷ vs)
            (xs ++ (r.position.chunk, left_once n) ∷ ys)
            []
            w
            (record w { heap = left_heap; start_lock = false })
      moves = Conserves-unlocked S off (
          Conserves-trans
            (subst
              (λ ks.
                Conserves S e (us ++ (c.chunk, m) ∷ vs) ks [] w (record w { heap = entered_heap }))
              shape enters)
            (Conserves-Recounted _ _ left_heap (Recounted-middle xs r.position.chunk n ys _ _)
              (Holds-write entered_heap xs r.position.chunk n (left_once n) ys
                (IsChain-middle xs r.position.chunk n ys queue.rep.chain).1 queue.rep.held)
              queue))

      attended :
          Attended (xs ++ (r.position.chunk, left_once n) ∷ ys) w.start_position (spot_at c ∷ ss)
      attended =
          let all = subst (λ ks. AllStand ks (spot_at c ∷ spot_at r.position ∷ ss)) shape stand in
          let counts =
            subst (Counts (with_one c.chunk (occupants (spot_at r.position ∷ ss)))) shape counted in
          let left = Recounted-middle xs r.position.chunk n ys n.entered (add_usize n.read 1) in
          let (ne, before, after, v) = IsChain-middle xs r.position.chunk n ys queue.rep.chain in
          record {
            counts =
                Counts-leave (occupants (spot_at c ∷ ss)) xs r.position.chunk n ys before after
                  (Counts-ext _ _ (xs ++ (r.position.chunk, n) ∷ ys) (λ k _. omega arith) counts);
            stand = AllStand-Recounted _ _ (spot_at c ∷ ss) left (all.0, all.1.1);
            place =
                StartStands-Follows w.start_position (λ s. Follows-Recounted s _ _ left)
                  (subst (λ ks. StartStands ks w.start_position) shape place);
            few = a.few;
          }

      same_unread :
          (t : Spot)
          → unread t (xs ++ (r.position.chunk, left_once n) ∷ ys)
            ≡ unread t (us ++ (c.chunk, m) ∷ vs)
      same_unread t =
          unread-Recounted t _ _
            (Recounted-middle xs r.position.chunk n ys n.entered (add_usize n.read 1))
          ∙ ap (unread t) (sym shape)
          ∙ unread-Recounted t _ _ (Recounted-middle us c.chunk m vs (add_usize m.entered 1) m.read)

      pub gives :
          (call : Cmd T EventReader)
          → (call w
              ≡ (when (is_on_chunk_read S.cleanup && leb n.entered (add_usize n.read 1)) (cleanup S)
                    >>= λ _. pure (record r { position = c }))
                  (record w { heap = left_heap; start_lock = false }))
          → Gives S e (us ++ (c.chunk, m) ∷ vs) w ss call (record r { position = c })
      gives call runs =
          elim (Bool-cases (is_on_chunk_read S.cleanup && leb n.entered (add_usize n.read 1))) [
            | inl due ↦
                let (w', cleans, u) = cleanup-Evolves S off moves.queue free in
                (
                  w',
                  _,
                  runs ∙ rw (due, cleans),
                  Conserves-trans moves (Conserves-Evolves u),
                  u.attended (spot_at c ∷ ss) attended,
                  Undisturbed-Evolves (us ++ (c.chunk, m) ∷ vs) (spot_at c) ss u attended
                      same_unread,
                )
            | inr none_due ↦ (_, _, runs ∙ rw none_due, moves, attended, λ _ t _ _. same_unread t)
          ]
