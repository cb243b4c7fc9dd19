-- ===== src/EventReader/Forward.antt =====
-- The fast forward of src/event_reader.rs: a reader behind the start position goes there.
use lockless_event_queue.Base.{
  ℕ, ◌≤◌, ◌≡◌, refl, sym, subst, ap, ap₂, ◌∙◌, true, false, Option, none, some, List, ◌∷◌, ◌++◌,
  length, if◌then◌else◌, inl, inr, Bool-cases, if_true, if_false,
}
use lockless_event_queue.DynamicChunk
use lockless_event_queue.DynamicChunk.{Ptr, add_usize}
use lockless_event_queue.Node.{Node}
use lockless_event_queue.Node.Methods.{enter-chunk_of}
use lockless_event_queue.Chain.{Chain, head_ptr}
use lockless_event_queue.Chain.Append.{IsChain-middle}
use lockless_event_queue.Chain.Ids.{id_at, id_at-middle, held_at}
use lockless_event_queue.EventQueue.Start.Order.{cursor_is_lt-ok}
use lockless_event_queue.World.{World, Cursor, ok, unlock_start}
use lockless_event_queue.World.Commands.{modify-ok}
use lockless_event_queue.EventQueue.Settings.{Settings}
use lockless_event_queue.EventQueue.Start.{cursor_lt}
use lockless_event_queue.EventQueue.Invariant.{IsQueue}
use lockless_event_queue.EventQueue.Invariant.CleanupKeeps.{Evolves-refl}
use lockless_event_queue.EventQueue.Invariant.Recount.{Conserves-Evolves}
use lockless_event_queue.EventQueue.Life.{EventReader}
use lockless_event_queue.Attendance.{Spot, spot_at, StartStands, Attended}
use lockless_event_queue.Attendance.Follow.{Stands-Follows}
use lockless_event_queue.Attendance.Split.{Stands-at}
use lockless_event_queue.Attendance.Turn.{Recounted-middle, Follows-Recounted}
use lockless_event_queue.EventReader.{fast_forward}
use lockless_event_queue.EventReader.Lock.{leave_chunk-runs, fast_forward-locked}
use lockless_event_queue.EventReader.Crossing.{
  Conserves-unlocked, Gives, entered_heap, queue, gives,
}

module _ {T : Type 0} where
  -- Where a reader is after a fast forward.
  abbrev pub forwarded : Chain T → Option Cursor → EventReader → EventReader
  forwarded ns none r = r
  forwarded ns (some c) r =
      if cursor_lt (id_at r.position.chunk ns) r.position.index (id_at c.chunk ns) c.index
      then record r { position = c }
      else r

module _ {T : Type 0} (S : Settings) (off : S.double_buffering ≡ false) {e : ℕ} (w : World T)
    (free : w.list_lock ≡ false) (r : EventReader) (ss : List Spot) where
  -- The reader stays, and the lock on the start position is released.
  remains :
      {ns : Chain T}
      → IsQueue S e ns w
      → Attended ns w.start_position (spot_at r.position ∷ ss)
      → fast_forward S r w ≡ ok r (record w { start_lock = false })
      → Gives S e ns w ss (fast_forward S r) r
  remains q a runs = (
    _,
    _,
    runs,
    Conserves-unlocked S off (Conserves-Evolves (Evolves-refl q)),
    a,
    λ _ _ _ _. refl,
  )

  at_start :
      (c : Cursor) (us : Chain T) (m : Node T) (vs xs : Chain T) (n : Node T) (ys : Chain T)
      → w.start_position ≡ some c
      → IsQueue S e (us ++ (c.chunk, m) ∷ vs) w
      → us ++ (c.chunk, m) ∷ vs ≡ xs ++ (r.position.chunk, n) ∷ ys
      → c.index ≤ length m.items
      → Attended (us ++ (c.chunk, m) ∷ vs) w.start_position (spot_at r.position ∷ ss)
      → Gives S e
          (us ++ (c.chunk, m) ∷ vs)
          w
          ss
          (fast_forward S r)
          (forwarded (us ++ (c.chunk, m) ∷ vs) (some c) r)
  unfolding unlock_start
  at_start c us m vs xs n ys start q shape within a =
      let locked : World T = record w { start_lock = true } in
      let (ne, out, after, v) = IsChain-middle us c.chunk m vs q.rep.chain in
      let q' = subst (λ ks. IsQueue S e ks w) shape q in
      let (ne', out', after', v') = IsChain-middle xs r.position.chunk n ys q'.rep.chain in
      let there = held_at w.heap us c.chunk m vs q.rep.chain q.rep.held in
      let here = held_at w.heap xs r.position.chunk n ys q'.rep.chain q'.rep.held in
      let compared =
        cursor_is_lt-ok r.position c n m (head_ptr ys) (head_ptr vs) locked here there in
      let fast = fast_forward-locked S r (some c) w q.start_unlocked start in
      let ids : (cursor_lt (id_at r.position.chunk (us ++ (c.chunk, m) ∷ vs)) r.position.index
            (id_at c.chunk (us ++ (c.chunk, m) ∷ vs)) c.index)
          ≡ cursor_lt n.id r.position.index m.id c.index =
        ap₂ (λ (i j : ℕ). cursor_lt i r.position.index j c.index)
          (ap (id_at r.position.chunk) shape ∙ id_at-middle xs r.position.chunk n ys out')
          (id_at-middle us c.chunk m vs out) in
      elim (Bool-cases (cursor_lt n.id r.position.index m.id c.index)) [
        | inl older ↦
            let (xs', n', ys', shape', _) = Stands-at r.position _ (
              Stands-Follows (spot_at r.position)
                (Follows-Recounted (spot_at r.position) _ _
                  (Recounted-middle us c.chunk m vs (add_usize m.entered 1) m.read))
                a.stand.0) in
            let queue = (queue S off w free r ss c us m vs q within a xs' n' ys' shape') in
            subst (Gives S e (us ++ (c.chunk, m) ∷ vs) w ss (fast_forward S r))
              (sym (if_true _ _ (ids ∙ older)))
              (gives S off w free r ss c us m vs q within a xs' n' ys' shape' (fast_forward S r) (
                fast
                ∙ rw (
                  compared,
                  older,
                  modify-ok c.chunk locked there DynamicChunk.enter,
                  enter-chunk_of m (head_ptr vs),
                  leave_chunk-runs S r.position.chunk n' (head_ptr ys')
                      (record locked { heap = entered_heap S off w free r ss c us m vs q within a })
                      (held_at (entered_heap S off w free r ss c us m vs q within a) xs'
                        r.position.chunk n' ys' queue.rep.chain queue.rep.held),
                )))
        | inr newer ↦
            subst (Gives S e (us ++ (c.chunk, m) ∷ vs) w ss (fast_forward S r))
              (sym (if_false _ _ (ids ∙ newer))) (remains q a (fast ∙ rw (compared, newer)))
      ]

  by_start :
      (start : Option Cursor) (ns : Chain T)
      → w.start_position ≡ start
      → IsQueue S e ns w
      → Attended ns w.start_position (spot_at r.position ∷ ss)
      → Gives S e ns w ss (fast_forward S r) (forwarded ns start r)
  unfolding unlock_start
  by_start none ns start q a = remains q a (fast_forward-locked S r none w q.start_unlocked start)
  by_start (some c) ns start q a =
      let (us, m, vs, shape, within) = Stands-at c ns (subst (StartStands ns) start a.place) in
      let (xs, n, ys, shape', _) = Stands-at r.position ns a.stand.0 in
      subst (λ ks. Gives S e ks w ss (fast_forward S r) (forwarded ks (some c) r)) (sym shape)
        (at_start c us m vs xs n ys start (subst (λ ks. IsQueue S e ks w) shape q)
          (sym shape ∙ shape') within
          (subst (λ ks. Attended ks w.start_position (spot_at r.position ∷ ss)) shape a))

  -- Without the cargo feature, on a well-formed queue that is not locked and whose chunks count
  -- the readers in them, the fast forward of a reader without an iterator runs to its end, with
  -- whatever cleanup it does. The reader is at the start position if there is one and it was
  -- before that, in the order of chunk ids and then of indices, and else where it was. The queue
  -- is well formed and has lost no item, all readers, this one at its new place, are counted, and
  -- the others have the same items to read as before.
  pub fast_forward-Gives :
      (ns : Chain T)
      → IsQueue S e ns w
      → Attended ns w.start_position (spot_at r.position ∷ ss)
      → Gives S e ns w ss (fast_forward S r) (forwarded ns w.start_position r)
  fast_forward-Gives ns q a = by_start w.start_position ns refl q a
