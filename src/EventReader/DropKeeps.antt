-- ===== src/EventReader/DropKeeps.antt =====
-- `Drop for Iter` of src/event_reader.rs among other readers.
use lockless_event_queue.Base.{
  ℕ, ◌+◌, ◌≡◌, refl, sym, subst, ap, ◌∙◌, true, false, List, [], ◌∷◌, ◌++◌, arith, ◌==◌, ◌||◌,
  of_bool, inl, inr, Bool-cases,
}
use mathlib.Core.List.{append-nil, append_assoc}
use lockless_event_queue.DynamicChunk.{Ptr}
use lockless_event_queue.Node.{Node}
use lockless_event_queue.Chain.{Chain, has, has-append, IsChain}
use lockless_event_queue.Chain.Append.{IsChain-middle}
use lockless_event_queue.World.{World}
use lockless_event_queue.EventQueue.Settings.{Settings}
use lockless_event_queue.EventQueue.Invariant.{IsQueue}
use lockless_event_queue.EventQueue.Invariant.Recount.{
  IsChain-Recounted, Recounted-append, Conserves-Evolves, Conserves-trans,
}
use lockless_event_queue.Attendance.{Spot, spot_at, Stands, Counts, Attended, left_once, occupants}
use lockless_event_queue.Attendance.Count.{with_one, Counts-ext, Counts-leave}
use lockless_event_queue.Attendance.Follow.{Stands-place}
use lockless_event_queue.Attendance.Delivers.{unread-same}
use lockless_event_queue.Attendance.Split.{Place, Stands-Split, visits-Place}
use lockless_event_queue.Attendance.Turn.{
  unread-Recounted, Recounted-middle, Attended-Recounted, AllStand-Recounted,
}
use lockless_event_queue.EventQueue.Life.{EventReader}
use lockless_event_queue.EventReader.{Iter, iter_drop}
use lockless_event_queue.EventReader.Marks.{marked, Recounted-marked}
use lockless_event_queue.EventReader.Drops.{iter_drop-steps}
use lockless_event_queue.EventReader.Seats.{
  resting, ReadsAt, first_chunk-Place, Undisturbed-Evolves, Takes,
}

module _ {T : Type 0} where
  -- The counters when one reader has left some chunks.
  Counts-marked :
      (f : Ptr → ℕ) (xs passed rest : Chain T)
      → IsChain (xs ++ (passed ++ rest))
      → Counts (λ r. f r + of_bool (has r passed)) (xs ++ (passed ++ rest))
      → Counts f (xs ++ (marked passed ++ rest))
  Counts-marked f xs [] rest chain c = Counts-ext _ _ (xs ++ rest) (λ r _. omega arith) c
  Counts-marked f xs ((p, n) ∷ passed) rest chain c =
      let g : Ptr → ℕ = λ r. f r + of_bool (has r passed) in
      let (ne, before, after, v) = IsChain-middle xs p n (passed ++ rest) chain in
      let out : has p passed ≡ false = ground (arith, after, has-append p passed rest) in
      let left =
        Counts-leave g xs p n (passed ++ rest) before after
          (Counts-ext _ (with_one p g) (xs ++ (p, n) ∷ (passed ++ rest)) (λ r _. apart r out) c) in
      let moved = append_assoc xs ((p, left_once n) ∷ []) in
      subst (Counts f) (moved (marked passed ++ rest)) (
        Counts-marked f (xs ++ (p, left_once n) ∷ []) passed rest
          (subst IsChain (sym (moved (passed ++ rest)))
            (IsChain-Recounted _ _ (Recounted-middle xs p n (passed ++ rest) _ _) chain))
          (subst (Counts g) (sym (moved (passed ++ rest))) left))
    where
      apart :
          (r : Ptr)
          → has p passed ≡ false
          → f r + of_bool (p == r || has r passed) ≡ f r + of_bool (has r passed) + of_bool (p == r)
      apart r out = elim (Bool-cases (p == r)) [
        | inl same ↦
            let at : p ≡ r = ground (arith, same) in
            let away : has r passed ≡ false = ap (λ k. has k passed) (sym at) ∙ out in
            ground (arith, same, away)
        | inr other ↦ ground (arith, other)
      ]

-- The drop gives the reader the iterator's position, and leaves it as it is but for that.
abbrev pub RestsAt : {T : Type 0} → Iter → EventReader → World T → Chain T → Type 0
RestsAt it r w' ns' = r ≡ record (it.event_reader) { position = it.position }

module _ {T : Type 0} (S : Settings) (off : S.double_buffering ≡ false) {e : ℕ} (w : World T)
    (free : w.list_lock ≡ false) (it : Iter) (s : Spot) (ss : List Spot)
    (reads : ReadsAt it s) where
  leaves :
      (xs passed : Chain T) (p : Ptr) (n : Node T) (ys : Chain T)
      → IsQueue S e (xs ++ (passed ++ (p, n) ∷ ys)) w
      → Place s passed p n ys
      → Attended (xs ++ (passed ++ (p, n) ∷ ys)) w.start_position (s ∷ ss)
      → Takes S e
          (xs ++ (passed ++ (p, n) ∷ ys))
          w
          ss
          s
          (iter_drop S it)
          resting
          (λ _. [])
          (RestsAt it)
  leaves xs passed p n ys q v a =
      let s' = spot_at it.position in
      let (h, w', runs, marks, cleans) =
        iter_drop-steps S off w it xs passed p n ys q
          (reads.began ∙ first_chunk-Place s passed p n ys v) (sym (v.chunk ∙ reads.chunk)) free in
      let r = Recounted-append xs _ _ (Recounted-marked passed ((p, n) ∷ ys)) in
      let marked_all : Attended (xs ++ (marked passed ++ (p, n) ∷ ys)) w.start_position (s' ∷ ss) =
        Attended-Recounted _ _ (s' ∷ ss) r
          (Counts-marked (occupants (s' ∷ ss)) xs passed ((p, n) ∷ ys) q.rep.chain
            (Counts-ext _ _ (xs ++ (passed ++ (p, n) ∷ ys)) (λ k _. counted k) a.counts))
          (
            subst (λ ks. Stands ks s') (append_assoc xs (marked passed) ((p, n) ∷ ys))
                (Stands-place (xs ++ marked passed) p n ys it.position (v.chunk ∙ reads.chunk)
                  (omega (arith, reads.index, v.within, v.snapshot.earlier))),
            AllStand-Recounted _ _ ss r a.stand.1,
          )
          a.few a in
      (
        record (it.event_reader) { position = it.position },
        w',
        _,
        s',
        runs,
        Conserves-trans marks (Conserves-Evolves cleans),
        refl,
        cleans.attended (s' ∷ ss) marked_all,
        cleans.delivers s' ss marked_all
            ∙ append-nil _
            ∙ unread-Recounted s' _ _ r
            ∙ unread-same s' s _ (sym reads.chunk) (sym reads.index),
        Undisturbed-Evolves (xs ++ (passed ++ (p, n) ∷ ys)) s' ss cleans marked_all
            (λ t. unread-Recounted t _ _ r),
        refl,
      )
    where
      counted :
          (k : Ptr)
          → occupants (s ∷ ss) k ≡ occupants (spot_at it.position ∷ ss) k + of_bool (has k passed)
      counted k = elim (Bool-cases (p == k)) [
        | inl same ↦
            let at : p ≡ k = ground (arith, same) in
            let named = subst IsChain (sym (append_assoc xs passed ((p, n) ∷ ys))) q.rep.chain in
            let before = (IsChain-middle (xs ++ passed) p n ys named).1 in
            let away : has k passed ≡ false =
              ap (λ r. has r passed) (sym at) ∙ ground (arith, before, has-append p xs passed) in
            let here : (it.position.chunk == k) ≡ true =
              ap (λ r. r == k) (sym (v.chunk ∙ reads.chunk)) ∙ same in
            ground (arith, visits-Place s passed p n ys k v, same, away, here)
        | inr other ↦
            let gone : (it.position.chunk == k) ≡ false =
              ap (λ r. r == k) (sym (v.chunk ∙ reads.chunk)) ∙ other in
            ground (arith, visits-Place s passed p n ys k v, other, gone)
      ]

  -- Without the cargo feature, on a well-formed queue that is not locked and whose chunks count
  -- the readers in them, the drop of an iterator at its place among other readers runs to its end,
  -- with whatever cleanup it does. The reader then rests at the position that the iterator had, in
  -- the epoch that it knew, with the same items to read. The queue is well formed and has lost no
  -- item, all readers are still counted, and the others have the same items to read as before.
  pub iter_drop-Takes :
      (ns : Chain T)
      → IsQueue S e ns w
      → Attended ns w.start_position (s ∷ ss)
      → Takes S e ns w ss s (iter_drop S it) resting (λ _. []) (RestsAt it)
  iter_drop-Takes ns q a =
      let (xs, passed, p, n, ys, shape, v) = Stands-Split s ns a.stand.0 in
      subst (λ ks. Takes S e ks w ss s (iter_drop S it) resting (λ _. []) (RestsAt it)) (sym shape)
        (leaves xs passed p n ys (subst (λ ks. IsQueue S e ks w) shape q) v
          (subst (λ ks. Attended ks w.start_position (s ∷ ss)) shape a))
