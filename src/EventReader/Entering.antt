-- ===== src/EventReader/Entering.antt =====
-- `Iter::next` of src/event_reader.rs among other readers, on the way to the next chunk.
use lockless_event_queue.Base.{
  ℕ, ◌≤◌, ◌<◌, ◌≡◌, refl, sym, subst, ap, ◌∙◌, true, Option, List, [], ◌∷◌, ◌++◌, arith, length,
  ◌==◌, not, drop, get_elem?, ltb, if_true, if_false, false,
}
use mathlib.Core.List.{append_assoc}
use lockless_event_queue.DynamicChunk.{Ptr, null, add_usize}
use lockless_event_queue.Node.{Node, node_state}
use lockless_event_queue.Chain.{Chain, head_ptr, IsChain, Holds}
use lockless_event_queue.Chain.Append.{IsChain-middle}
use lockless_event_queue.World.{World, ok}
use lockless_event_queue.EventQueue.Settings.{Settings}
use lockless_event_queue.EventQueue.Invariant.{IsQueue}
use lockless_event_queue.EventQueue.Invariant.Recount.{
  IsChain-Recounted, Recounted-append, Conserves-Recounted,
}
use lockless_event_queue.Attendance.{Spot, Attended, entered_once}
use lockless_event_queue.Attendance.Split.{addresses, Place}
use lockless_event_queue.EventQueue.Cleanup.InOrder.{contents}
use lockless_event_queue.Attendance.Unread.{unread}
use lockless_event_queue.Attendance.Delivers.{unread-middle}
use lockless_event_queue.Attendance.Turn.{unread-Recounted, Recounted-middle, Attended-onward}
use lockless_event_queue.EventReader.{Iter, iter_next}
use lockless_event_queue.EventReader.Answers.{enter_behind, enter_behind-middle, Answers}
use lockless_event_queue.EventReader.Switch.{
  switched, switched_world, next_snapshot, Holds-switched,
}
use lockless_event_queue.EventReader.Session.{IsAt}
use lockless_event_queue.EventReader.Seats.{ReadsAt, first_chunk-Place, Takes}
use lockless_event_queue.EventReader.OneMore.{
  items_of, read_by, drop-length, after_next, head_ptr-onward, is_at, unread-at, answers,
}

module _ {T : Type 0} (S : Settings) {e : ℕ} (w : World T) (it : Iter) (s : Spot) (ss : List Spot)
    (reads : ReadsAt it s) where
  module _ (xs passed : Chain T) (p : Ptr) (n : Node T) (k : Ptr) (m : Node T) (zs : Chain T)
      (q : IsQueue S e (xs ++ (passed ++ (p, n) ∷ (k, m) ∷ zs)) w)
      (v : Place s passed p n ((k, m) ∷ zs))
      (a : Attended (xs ++ (passed ++ (p, n) ∷ (k, m) ∷ zs)) w.start_position (s ∷ ss)) where
    abbrev place : IsAt it w (xs ++ passed) p n ((k, m) ∷ zs) s.snapshot
    place = is_at S w it s ss reads xs passed p n ((k, m) ∷ zs) q v a

    abbrev next_spot : ℕ → Spot
    next_spot i = record {
      behind = addresses (passed ++ (p, n) ∷ []);
      chunk = k;
      index = i;
      snapshot = next_snapshot it w (xs ++ passed) p n k m zs place.chain place.held place.at;
    }

    next-Place :
        (i : ℕ)
        → i ≤ length m.items
        → Place (next_spot i) (passed ++ (p, n) ∷ []) k (entered_once m) zs
    next-Place i within = record {
      behind = refl;
      chunk = refl;
      snapshot = record {
        earlier = omega arith;
        epoch_small =
            (IsChain-middle (xs ++ (passed ++ (p, n) ∷ [])) k m zs
              (subst IsChain (sym (again m)) q.rep.chain)).3.epoch_small;
        finished = λ h. (linked zs h, refl);
      };
      within = within;
    }
      where
        again :
            (j : Node T)
            → (xs ++ (passed ++ (p, n) ∷ [])) ++ (k, j) ∷ zs
              ≡ xs ++ (passed ++ (p, n) ∷ (k, j) ∷ zs)
        again j =
            append_assoc xs (passed ++ (p, n) ∷ []) ((k, j) ∷ zs)
            ∙ ap (λ r. xs ++ r) (append_assoc passed ((p, n) ∷ []) ((k, j) ∷ zs))

        linked : (zs : Chain T) → not (head_ptr zs == null) ≡ true → 0 < length zs
        linked [] h = absurd (ground (arith, h))
        linked (z ∷ zs) h = omega arith

    reads_on :
        (value : Option T) (rest : List T) {left : List T}
        → left ≡ rest ++ contents zs
        → items_of value ++ rest ≡ m.items
        → items_of value ++ left ≡ m.items ++ contents zs
    reads_on value rest {left} e got =
        ap (λ is. items_of value ++ is) e
        ∙ sym (append_assoc (items_of value) rest (contents zs))
        ∙ ap (λ is. is ++ contents zs) got

    -- It enters the next chunk.
    pub turns-switch :
        (value : Option T) (i : ℕ)
        → i ≤ length m.items
        → it.position.index ≡ s.snapshot.len
        → s.snapshot.has_next ≡ true
        → items_of value ++ drop i m.items ≡ m.items
        → get_elem? m.items 0 ≡ value
        → (elim m.items [ [] ↦ 0 | x ∷ xs ↦ 1 ]) ≡ i
        → let it' = record it {
          position = record { chunk = k; index = i };
          state = (switched it w (xs ++ passed) p n k m zs place.chain place.held place.at).state;
        } in
          iter_next it w
            ≡ ok
                (value, it')
                (switched_world it w (xs ++ passed) p n k m zs place.chain place.held place.at)
          → Takes S e
              (xs ++ (passed ++ (p, n) ∷ (k, m) ∷ zs))
              w
              ss
              s
              (iter_next it)
              after_next
              read_by
              (Answers it s.snapshot w (xs ++ (passed ++ (p, n) ∷ (k, m) ∷ zs)))
    turns-switch value i within end linked got first index runs =
        let s' = next_spot i in
        let r = Recounted-append xs _ _ (
          Recounted-append passed _ _
            (Recounted-middle ((p, n) ∷ []) k m zs (add_usize m.entered 1) m.read)) in
        let same : xs ++ (passed ++ (p, n) ∷ (k, entered_once m) ∷ zs)
            ≡ (xs ++ (passed ++ (p, n) ∷ [])) ++ (k, entered_once m) ∷ zs =
          sym (
            append_assoc xs (passed ++ (p, n) ∷ []) ((k, entered_once m) ∷ zs)
            ∙ ap (λ r. xs ++ r) (append_assoc passed ((p, n) ∷ []) ((k, entered_once m) ∷ zs))) in
        let out =
          (IsChain-middle (xs ++ (passed ++ (p, n) ∷ [])) k (entered_once m) zs
            (subst IsChain same (IsChain-Recounted _ _ r q.rep.chain))).1 in
        (
          _,
          _,
          xs ++ (passed ++ (p, n) ∷ (k, entered_once m) ∷ zs),
          s',
          runs,
          Conserves-Recounted _ _
              ((switched_world it w (xs ++ passed) p n k m zs place.chain place.held place.at).heap)
              r
              (subst
                (λ ks.
                  Holds
                    (switched_world it w (xs ++ passed) p n k m zs place.chain place.held
                      place.at).heap
                    ks)
                (append_assoc xs passed ((p, n) ∷ (k, entered_once m) ∷ zs))
                (Holds-switched it w (xs ++ passed) p n k m zs place.chain place.held place.at))
              q,
          record {
            chunk = refl;
            index = refl;
            state = refl;
            began =
                reads.began
                ∙ first_chunk-Place s passed p n ((k, m) ∷ zs) v
                ∙ head_ptr-onward passed p n k m (entered_once m) zs
                ∙ sym (
                    first_chunk-Place s' (passed ++ (p, n) ∷ []) k (entered_once m) zs
                      (next-Place i within));
          },
          Attended-onward xs passed p n k m zs s s' ss q.rep.chain v (next-Place i within) a,
          reads_on value (drop i m.items)
                (ap (unread s') same
                  ∙ unread-middle s' (xs ++ (passed ++ (p, n) ∷ [])) k (entered_once m) zs refl out)
                got
              ∙ sym (
                  unread-at S w it s ss reads xs passed p n ((k, m) ∷ zs) q v a s v.chunk
                  ∙ ap (λ is. is ++ (m.items ++ contents zs))
                      (drop-length s.index n.items
                        (reads.index ∙ end ∙ (v.snapshot.finished linked).1))),
          λ _ t _ _. unread-Recounted t _ _ r,
          answers S w it s ss reads xs passed p n ((k, m) ∷ zs) q v a value _
              (switched_world it w (xs ++ passed) p n k m zs place.chain place.held place.at) _
              (if_false _ _ outside ∙ if_true _ _ linked ∙ first)
              (if_false _ _ outside
                ∙ if_true _ _ linked
                ∙ ap
                    (λ (j : ℕ). record it {
                      position = record { chunk = k; index = j };
                      state = node_state m (head_ptr zs);
                    })
                    index)
              refl (if_false _ _ outside ∙ if_true _ _ linked ∙ entered_chain),
        )
      where
        outside : ltb it.position.index s.snapshot.len ≡ false
        outside = ground (arith, end)

        entered_chain :
            enter_behind it.position.chunk (xs ++ (passed ++ (p, n) ∷ (k, m) ∷ zs))
            ≡ xs ++ (passed ++ (p, n) ∷ (k, entered_once m) ∷ zs)
        entered_chain =
            ap (λ j. enter_behind j (xs ++ (passed ++ (p, n) ∷ (k, m) ∷ zs)))
              (sym (v.chunk ∙ reads.chunk))
            ∙ ap (enter_behind p) (sym (append_assoc xs passed ((p, n) ∷ (k, m) ∷ zs)))
            ∙ enter_behind-middle (xs ++ passed) p n ((k, m) ∷ zs)
                (IsChain-middle (xs ++ passed) p n ((k, m) ∷ zs) place.chain).1
            ∙ append_assoc xs passed ((p, n) ∷ (k, entered_once m) ∷ zs)
