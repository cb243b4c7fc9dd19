-- ===== src/EventReader/OneMore.antt =====
-- `Iter::next` of src/event_reader.rs among other readers, within the iterator's chunk.
use lockless_event_queue.Base.{
  ℕ, ◌+◌, ◌<◌, ◌≡◌, refl, sym, subst, ap, ◌∙◌, false, Option, none, some, List, [], ◌∷◌, ◌++◌,
  arith, length, zero, suc, drop, ap₂, ltb, if_true, if_false, true,
}
use mathlib.Core.List.{append_assoc}
use lockless_event_queue.DynamicChunk.{Ptr}
use lockless_event_queue.Node.{Node, IsNode}
use lockless_event_queue.Chain.{Chain, head_ptr, find, IsChain}
use lockless_event_queue.Chain.Append.{IsChain-middle}
use lockless_event_queue.World.{World}
use lockless_event_queue.EventQueue.Settings.{Settings}
use lockless_event_queue.EventQueue.Invariant.{IsQueue}
use lockless_event_queue.EventQueue.Invariant.CleanupKeeps.{Evolves-refl}
use lockless_event_queue.EventQueue.Invariant.Recount.{Conserves-Evolves}
use lockless_event_queue.Attendance.{Spot, Attended}
use lockless_event_queue.Attendance.Split.{Place, Stands-Place}
use lockless_event_queue.EventQueue.Cleanup.InOrder.{contents}
use lockless_event_queue.Attendance.Unread.{unread}
use lockless_event_queue.Attendance.Delivers.{unread-middle}
use lockless_event_queue.Attendance.Turn.{Attended-again}
use lockless_event_queue.EventReader.{Iter, iter_next}
use lockless_event_queue.EventReader.Answers.{answer, goes_on, entering, from, from-middle, Answers}
use lockless_event_queue.EventReader.Next.{next-item, next-end}
use lockless_event_queue.EventReader.Session.{IsAt, held-at, next_elem}
use lockless_event_queue.EventReader.Seats.{Session, reading, ReadsAt, Takes}

-- What a call reads.
abbrev pub items_of : {T : Type 0} → Option T → List T
items_of none = []
items_of (some x) = x ∷ []

abbrev pub read_by : {T : Type 0} → Option T × Iter → List T
read_by r = items_of r.0

pub drop-length : {A : Type 0} (k : ℕ) (xs : List A) → k ≡ length xs → drop k xs ≡ []
drop-length zero [] e = refl
drop-length (suc k) [] e = absurd (omega (arith, e))
drop-length zero (x ∷ xs) e = absurd (omega (arith, e))
drop-length (suc k) (x ∷ xs) e = drop-length k xs (omega (arith, e))

-- The iterator after a call.
abbrev pub after_next : {T : Type 0} → Option T × Iter → Session
after_next (value, it) = reading it

pub head_ptr-onward :
    {T : Type 0} (passed : Chain T) (p : Ptr) (n : Node T) (k : Ptr) (m m' : Node T) (zs : Chain T)
    → head_ptr (passed ++ (p, n) ∷ (k, m) ∷ zs) ≡ head_ptr ((passed ++ (p, n) ∷ []) ++ (k, m') ∷ zs)
head_ptr-onward [] p n k m m' zs = refl
head_ptr-onward (x ∷ passed) p n k m m' zs = refl

module _ {T : Type 0} (S : Settings) {e : ℕ} (w : World T) (it : Iter) (s : Spot) (ss : List Spot)
    (reads : ReadsAt it s) where
  module _ (xs passed : Chain T) (p : Ptr) (n : Node T) (ys : Chain T)
      (q : IsQueue S e (xs ++ (passed ++ (p, n) ∷ ys)) w) (v : Place s passed p n ys)
      (a : Attended (xs ++ (passed ++ (p, n) ∷ ys)) w.start_position (s ∷ ss)) where
    pub is_at : IsAt it w (xs ++ passed) p n ys s.snapshot
    is_at =
        let named = append_assoc xs passed ((p, n) ∷ ys) in
        record {
          chain = subst IsChain (sym named) q.rep.chain;
          held = λ r. q.rep.held r ∙ ap (λ ks. find r ks) (sym named);
          at = sym (v.chunk ∙ reads.chunk);
          state = reads.state;
          snapshot = v.snapshot;
          within = omega (arith, reads.index, v.within);
        }

    pub unread-at :
        (t : Spot)
        → p ≡ t.chunk
        → unread t (xs ++ (passed ++ (p, n) ∷ ys)) ≡ drop t.index n.items ++ contents ys
    unread-at t at =
        ap (unread t) (sym (append_assoc xs passed ((p, n) ∷ ys)))
        ∙ unread-middle t (xs ++ passed) p n ys at
            (IsChain-middle (xs ++ passed) p n ys is_at.chain).1

    pub from-at : from it.position.chunk (xs ++ (passed ++ (p, n) ∷ ys)) ≡ (p, n) ∷ ys
    from-at =
        ap (λ k. from k (xs ++ (passed ++ (p, n) ∷ ys))) (sym (v.chunk ∙ reads.chunk))
        ∙ ap (from p) (sym (append_assoc xs passed ((p, n) ∷ ys)))
        ∙ from-middle (xs ++ passed) p n ys (IsChain-middle (xs ++ passed) p n ys is_at.chain).1

    -- The call is as `Answers` says, by what it does from the iterator's chunk on.
    pub answers :
        (value : Option T) (it' : Iter) (w' : World T) (ns' : Chain T)
        → answer it s.snapshot ((p, n) ∷ ys) ≡ value
        → goes_on it s.snapshot ((p, n) ∷ ys) ≡ it'
        → w' ≡ record w { heap = w'.heap }
        → entering it s.snapshot (xs ++ (passed ++ (p, n) ∷ ys)) ≡ ns'
        → Answers it s.snapshot w (xs ++ (passed ++ (p, n) ∷ ys)) (value, it') w' ns'
    answers value it' w' ns' e f g h = (
      sym (
          ap (λ ks. (answer it s.snapshot ks, goes_on it s.snapshot ks)) from-at
          ∙ ap₂ (λ o j. (o, j)) e f),
      g,
      sym h,
    )

    pub node : IsNode n
    node = (IsChain-middle (xs ++ passed) p n ys is_at.chain).3

    -- The iterator reads the item at its place.
    pub turns-item :
        it.position.index < s.snapshot.len
        → Takes S e
            (xs ++ (passed ++ (p, n) ∷ ys))
            w
            ss
            s
            (iter_next it)
            after_next
            read_by
            (Answers it s.snapshot w (xs ++ (passed ++ (p, n) ∷ ys)))
    turns-item more =
        let (x, here, rest) =
          next_elem it.position.index n.items (omega (arith, more, v.snapshot.earlier)) in
        let s' : Spot = record s { index = it.position.index + 1 } in
        let inside : ltb it.position.index s.snapshot.len ≡ true = ground (arith, more) in
        (
          (some x, record it { position = record (it.position) { index = it.position.index + 1 } }),
          w,
          _,
          s',
          next-item it w n node (head_ptr ys) s.snapshot reads.state v.snapshot.earlier
              v.snapshot.epoch_small (held-at it w (xs ++ passed) p n ys s.snapshot is_at) x more
              here,
          Conserves-Evolves (Evolves-refl q),
          record { chunk = reads.chunk; index = refl; state = reads.state; began = reads.began },
          Attended-again s s' ss (λ r. refl)
              (Stands-Place s' xs passed p n ys (record {
                behind = v.behind;
                chunk = v.chunk;
                snapshot = v.snapshot;
                within = omega (arith, more);
              }))
              a,
          ap (λ is. x ∷ is) (unread-at s' v.chunk)
              ∙ ap (λ is. is ++ contents ys)
                  (sym rest ∙ ap (λ (k : ℕ). drop k n.items) (sym reads.index))
              ∙ sym (unread-at s v.chunk),
          λ _ _ _ _. refl,
          answers (some x) _ w _ (if_true _ _ inside ∙ here) (if_true _ _ inside) refl
              (if_true _ _ inside),
        )

    -- It has read the last chunk to the end of its snapshot.
    pub turns-end :
        it.position.index ≡ s.snapshot.len
        → s.snapshot.has_next ≡ false
        → Takes S e
            (xs ++ (passed ++ (p, n) ∷ ys))
            w
            ss
            s
            (iter_next it)
            after_next
            read_by
            (Answers it s.snapshot w (xs ++ (passed ++ (p, n) ∷ ys)))
    turns-end end alone = (
      (none, it),
      w,
      _,
      s,
      next-end it w n node (head_ptr ys) s.snapshot reads.state v.snapshot.earlier
          v.snapshot.epoch_small (held-at it w (xs ++ passed) p n ys s.snapshot is_at) end alone,
      Conserves-Evolves (Evolves-refl q),
      reads,
      a,
      refl,
      λ _ _ _ _. refl,
      answers none it w _ (if_false _ _ outside ∙ if_false _ _ alone)
          (if_false _ _ outside ∙ if_false _ _ alone) refl
          (if_false _ _ outside ∙ if_false _ _ alone),
    )
      where
        outside : ltb it.position.index s.snapshot.len ≡ false
        outside = ground (arith, end)
