-- ===== src/EventReader/ReadAll.antt =====
-- What a session of reading yields, with src/event_reader.rs.
use lockless_event_queue.Base.{
  ℕ, zero, suc, ◌+◌, ◌<◌, ◌≡◌, refl, sym, ap, subst, ◌∙◌, true, [], ◌∷◌, ◌++◌, arith, length,
  Bool-cases, List-cases, inl, inr, if_false,
}
use native.Mathlib.Decide.{dec_lt}
use lockless_event_queue.DynamicChunk.{Ptr}
use lockless_event_queue.Node.{Node}
use lockless_event_queue.Chain.{Chain, head_ptr}
use lockless_event_queue.Chain.Append.{IsChain-middle}
use lockless_event_queue.World.{World}
use lockless_event_queue.EventReader.{Iter}
use lockless_event_queue.EventReader.Next.{next-item, next-end}
use lockless_event_queue.EventReader.Session.{
  reach, passed, next_elem, reach-item, Reads, Reads-more, Reads-none, IsAt, held-at, reach-end,
}
use lockless_event_queue.Attendance.{Snapshot}
use lockless_event_queue.EventReader.Onward.{Sessions, all, switch_empty, switch_more}

module _ {T : Type 0} where
  session-switches :
      (fuel : ℕ) (it : Iter) (w : World T) (xs : Chain T) (p : Ptr) (n : Node T) (ys : Chain T)
      (s : Snapshot)
      → IsAt it w xs p n ys s
      → it.position.index ≡ s.len
      → s.has_next ≡ true
      → Sessions T fuel
      → length (reach s it.position.index n ys) < suc fuel
      → Reads (suc fuel) it w (reach s it.position.index n ys) (xs ++ (p, n) ∷ passed s ys)
  session-switches fuel it w xs p n [] s v end linked goes enough =
      absurd (omega (arith, (v.snapshot.finished linked).0))
  session-switches fuel it w xs p n ((q, m) ∷ zs) s v end linked goes enough =
      elim (List-cases m.items) [
        | inl empty ↦ switch_empty fuel it w xs p n q m zs s v end linked empty
        | inr (x, rest, items) ↦
            switch_more fuel it w xs p n q m zs s v end linked x rest items goes
              (omega (arith, enough, ap length (all fuel it w xs p n q m zs s v end linked)))
      ]

  session-ends :
      (fuel : ℕ) (it : Iter) (w : World T) (xs : Chain T) (p : Ptr) (n : Node T) (ys : Chain T)
      (s : Snapshot)
      → IsAt it w xs p n ys s
      → it.position.index ≡ s.len
      → Sessions T fuel
      → length (reach s it.position.index n ys) < suc fuel
      → Reads (suc fuel) it w (reach s it.position.index n ys) (xs ++ (p, n) ∷ passed s ys)
  session-ends fuel it w xs p n ys s v end goes enough = elim (Bool-cases s.has_next) [
    | inl linked ↦ session-switches fuel it w xs p n ys s v end linked goes enough
    | inr alone ↦
        subst (λ got. Reads (suc fuel) it w got (xs ++ (p, n) ∷ passed s ys))
          (sym (reach-end s it.position.index n ys end ∙ if_false _ _ alone))
          (subst (λ ns. Reads (suc fuel) it w [] (xs ++ (p, n) ∷ ns)) (sym (if_false _ _ alone))
            (Reads-none fuel it it w w.heap _
              (next-end it w n (IsChain-middle xs p n ys v.chain).3 (head_ptr ys) s v.state
                v.snapshot.earlier v.snapshot.epoch_small (held-at it w xs p n ys s v) end alone)
              refl v.held))
  ]

  -- An iterator is in a chunk of a well-formed list, with a snapshot of the chunk's state that may
  -- be older than the chunk, and its index is at most the snapshot's length. Then calling `next`
  -- until it answers `None`, which it does after one call more than it yields items, yields
  -- exactly the items from the index to the snapshot's length, and, if the snapshot has the flag
  -- `has_next`, those of the chunks behind it in order, up to the first empty one. The calls
  -- change the memory only in that every chunk that is reached, an empty one at the end included,
  -- has been entered once more, and the reader that the iterator borrows is as before.
  pub session-Reads :
      (fuel : ℕ) (it : Iter) (w : World T) (xs : Chain T) (p : Ptr) (n : Node T) (ys : Chain T)
      (s : Snapshot)
      → IsAt it w xs p n ys s
      → length (reach s it.position.index n ys) < fuel
      → Reads fuel it w (reach s it.position.index n ys) (xs ++ (p, n) ∷ passed s ys)
  session-Reads zero it w xs p n ys s v enough = absurd (omega arith)
  session-Reads (suc fuel) it w xs p n ys s v enough =
      let node = (IsChain-middle xs p n ys v.chain).3 in
      let held = held-at it w xs p n ys s v in
      elim (dec_lt it.position.index s.len) [
        | yes more ↦
            let (x, here, rest) =
              next_elem it.position.index n.items (omega (arith, v.snapshot.earlier)) in
            let e = reach-item s it.position.index n ys x more rest in
            let it' : Iter = record it {
              position = record (it.position) { index = it.position.index + 1 };
            } in
            subst (λ got. Reads (suc fuel) it w got (xs ++ (p, n) ∷ passed s ys)) (sym e)
              (Reads-more fuel it it' w w.heap x _ _
                (next-item it w n node (head_ptr ys) s v.state v.snapshot.earlier
                  v.snapshot.epoch_small held x more here)
                refl
                (session-Reads fuel it' w xs p n ys s
                  (record {
                    chain = v.chain;
                    held = v.held;
                    at = v.at;
                    state = v.state;
                    snapshot = v.snapshot;
                    within = omega (arith, more);
                  })
                  (omega (arith, ap length e))))
        | no end ↦
            session-ends fuel it w xs p n ys s v (omega (arith, end, v.within)) (session-Reads fuel)
              (omega (arith, enough))
      ]
