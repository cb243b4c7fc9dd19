-- ===== src/EventReader/NextKeeps.antt =====
-- `Iter::next` of src/event_reader.rs among other readers.
use lockless_event_queue.Base.{
  ℕ, ◌≡◌, refl, sym, subst, ap, ◌∙◌, true, Bool-cases, List-cases, none, some, List, [], ◌∷◌, ◌++◌,
  arith, inl, inr, length, drop, get_elem?,
}
use native.Mathlib.Decide.{dec_lt}
use lockless_event_queue.DynamicChunk.{Ptr}
use lockless_event_queue.Node.{Node}
use lockless_event_queue.Chain.{Chain}
use lockless_event_queue.World.{World}
use lockless_event_queue.EventQueue.Settings.{Settings}
use lockless_event_queue.EventQueue.Invariant.{IsQueue}
use lockless_event_queue.Attendance.{Spot, Attended}
use lockless_event_queue.Attendance.Split.{Place, Stands-Split}
use lockless_event_queue.EventReader.{Iter, iter_next}
use lockless_event_queue.EventReader.Answers.{Answers}
use lockless_event_queue.EventReader.Switch.{next-switch, next-switch_empty}
use lockless_event_queue.EventReader.Session.{IsAt}
use lockless_event_queue.EventReader.Seats.{ReadsAt, Takes}
use lockless_event_queue.EventReader.OneMore.{
  read_by, after_next, is_at, node, turns-item, turns-end,
}
use lockless_event_queue.EventReader.Entering.{turns-switch}

abbrev index_of : {T : Type 0} → List T → ℕ
index_of is = elim is [ [] ↦ 0 | x ∷ xs ↦ 1 ]

module _ {T : Type 0} (S : Settings) {e : ℕ} (w : World T) (it : Iter) (s : Spot) (ss : List Spot)
    (reads : ReadsAt it s) where
  turns :
      (xs passed : Chain T) (p : Ptr) (n : Node T) (ys : Chain T)
      → IsQueue S e (xs ++ (passed ++ (p, n) ∷ ys)) w
      → Place s passed p n ys
      → Attended (xs ++ (passed ++ (p, n) ∷ ys)) w.start_position (s ∷ ss)
      → it.position.index ≡ s.snapshot.len
      → s.snapshot.has_next ≡ true
      → Takes S e
          (xs ++ (passed ++ (p, n) ∷ ys))
          w
          ss
          s
          (iter_next it)
          after_next
          read_by
          (Answers it s.snapshot w (xs ++ (passed ++ (p, n) ∷ ys)))
  turns xs passed p n [] q v a end linked = absurd (omega (arith, (v.snapshot.finished linked).0))
  turns xs passed p n ((k, m) ∷ zs) q v a end linked =
      let at : IsAt it w (xs ++ passed) p n ((k, m) ∷ zs) s.snapshot =
        is_at S w it s ss reads xs passed p n ((k, m) ∷ zs) q v a in
      elim (List-cases m.items) [
        | inl empty ↦
            turns-switch S w it s ss reads xs passed p n k m zs q v a none 0 (omega arith) end
              linked refl (ap (λ is. get_elem? is 0) empty) (ap index_of empty)
              (next-switch_empty it w (xs ++ passed) p n k m zs at.chain at.held at.at
                (node S w it s ss reads xs passed p n ((k, m) ∷ zs) q v a) s.snapshot reads.state
                v.snapshot end linked empty)
        | inr (x, rest, items) ↦
            turns-switch S w it s ss reads xs passed p n k m zs q v a (some x) 1
              (omega (arith, ap length items)) end linked
              (ap (λ is. x ∷ drop 1 is) items ∙ sym items) (ap (λ is. get_elem? is 0) items)
              (ap index_of items)
              (next-switch it w (xs ++ passed) p n k m zs at.chain at.held at.at
                (node S w it s ss reads xs passed p n ((k, m) ∷ zs) q v a) s.snapshot reads.state
                v.snapshot end linked x rest items)
      ]

  -- On a well-formed queue whose chunks count the readers in them, for an iterator at its place
  -- among other readers, with a snapshot of its chunk that may be old, `next` runs to its end. If
  -- its index is below the length in the snapshot, it answers the item at the index and moves the
  -- index on by one. Else, if the snapshot has no next chunk, it answers `None` and changes
  -- nothing. Else the iterator goes to the next chunk, which is entered once more, takes its
  -- state, and answers its first item, or `None` if it is empty. Nothing else changes. The queue
  -- is well formed, and what is answered, `None` being no item, followed by the items from the new
  -- place on, is what there was from the old place on. All readers are still counted, and the
  -- others have the same items to read as before.
  pub next-Takes :
      (ns : Chain T)
      → IsQueue S e ns w
      → Attended ns w.start_position (s ∷ ss)
      → Takes S e ns w ss s (iter_next it) after_next read_by (Answers it s.snapshot w ns)
  next-Takes ns q a =
      let (xs, passed, p, n, ys, shape, v) = Stands-Split s ns a.stand.0 in
      let q' = subst (λ ks. IsQueue S e ks w) shape q in
      let a' = subst (λ ks. Attended ks w.start_position (s ∷ ss)) shape a in
      subst
        (λ ks. Takes S e ks w ss s (iter_next it) after_next read_by (Answers it s.snapshot w ks))
        (sym shape)
        (elim (dec_lt it.position.index s.snapshot.len) [
          | yes more ↦ turns-item S w it s ss reads xs passed p n ys q' v a' more
          | no rest ↦
              let end : it.position.index ≡ s.snapshot.len =
                omega (arith, rest, reads.index, v.within) in
              elim (Bool-cases s.snapshot.has_next) [
                | inl linked ↦ turns xs passed p n ys q' v a' end linked
                | inr alone ↦ turns-end S w it s ss reads xs passed p n ys q' v a' end alone
              ]
        ])
