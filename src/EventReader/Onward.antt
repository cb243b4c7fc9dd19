-- ===== src/EventReader/Onward.antt =====
-- One call of `next` at the end of a chunk, and the rest of the session.
use lockless_event_queue.Base.{
  ℕ, suc, ◌<◌, ◌≡◌, refl, sym, ap, subst, ◌∙◌, true, not, List, [], ◌∷◌, ◌++◌, arith, ◌==◌, length,
  if_true,
}
use mathlib.Core.List.{append_assoc}
use lockless_event_queue.DynamicChunk.{Ptr, null}
use lockless_event_queue.Node.{Node, IsNode}
use lockless_event_queue.Chain.{Chain, head_ptr, IsChain, Holds}
use lockless_event_queue.Chain.Append.{IsChain-middle, IsChain-from, IsChain-replace}
use lockless_event_queue.World.{World}
use lockless_event_queue.EventReader.{Iter}
use lockless_event_queue.EventReader.Switch.{
  switched, switched_world, next_snapshot, Holds-switched, next-switch, next-switch_empty,
}
use lockless_event_queue.Attendance.{Snapshot, entered_once}
use lockless_event_queue.EventReader.Session.{
  visible, visited, reach, passed, Reads, Reads-more, Reads-none, IsAt, reach-end, visible-cons,
  visible-empty, visited-cons, visited-empty, flagged, next-reach,
}

-- What `fuel` calls of `next` are to do wherever the iterator is.
abbrev pub Sessions : Type 0 → ℕ → Type 0
Sessions T fuel =
    (it : Iter) (w : World T) (xs : Chain T) (p : Ptr) (n : Node T) (ys : Chain T) (s : Snapshot)
    → IsAt it w xs p n ys s
    → length (reach s it.position.index n ys) < fuel
    → Reads fuel it w (reach s it.position.index n ys) (xs ++ (p, n) ∷ passed s ys)

flag-nonempty : {T : Type 0} → (zs : Chain T) → not (head_ptr zs == null) ≡ true → 0 < length zs
flag-nonempty [] e = absurd (cc)
flag-nonempty (z ∷ zs) e = omega arith

module _ {T : Type 0} (fuel : ℕ) (it : Iter) (w : World T) (xs : Chain T) (p : Ptr) (n : Node T)
    (q : Ptr) (m : Node T) (zs : Chain T) (s : Snapshot) (v : IsAt it w xs p n ((q, m) ∷ zs) s)
    (end : it.position.index ≡ s.len) (linked : s.has_next ≡ true) where
  node : IsNode n
  node = (IsChain-middle xs p n ((q, m) ∷ zs) v.chain).3

  pub all : reach s it.position.index n ((q, m) ∷ zs) ≡ visible ((q, m) ∷ zs)
  all = reach-end s it.position.index n ((q, m) ∷ zs) end ∙ if_true _ _ linked

  all_passed : passed s ((q, m) ∷ zs) ≡ visited ((q, m) ∷ zs)
  all_passed = if_true _ _ linked

  next_IsChain : IsChain ((q, m) ∷ zs)
  next_IsChain = (IsChain-from xs ((p, n) ∷ (q, m) ∷ zs) v.chain).3

  -- The next chunk is empty.
  pub switch_empty :
      m.items ≡ []
      → Reads
          (suc fuel)
          it
          w
          (reach s it.position.index n ((q, m) ∷ zs))
          (xs ++ (p, n) ∷ passed s ((q, m) ∷ zs))
  switch_empty empty =
      subst (λ got. Reads (suc fuel) it w got (xs ++ (p, n) ∷ passed s ((q, m) ∷ zs)))
        (sym (all ∙ visible-empty q m zs empty))
        (subst (λ ns. Reads (suc fuel) it w [] (xs ++ (p, n) ∷ ns))
          (sym (all_passed ∙ visited-empty q m zs empty))
          (Reads-none fuel it (switched it w xs p n q m zs v.chain v.held v.at) w
            (switched_world it w xs p n q m zs v.chain v.held v.at).heap _
            (next-switch_empty it w xs p n q m zs v.chain v.held v.at node s v.state v.snapshot end
              linked empty)
            refl (Holds-switched it w xs p n q m zs v.chain v.held v.at)))

  at_next :
      (x : T) (rest : List T)
      → m.items ≡ x ∷ rest
      → IsAt
          (record (switched it w xs p n q m zs v.chain v.held v.at) {
            position = record { chunk = q; index = 1 };
          })
          (switched_world it w xs p n q m zs v.chain v.held v.at)
          (xs ++ (p, n) ∷ [])
          q
          (entered_once m)
          zs
          (next_snapshot it w xs p n q m zs v.chain v.held v.at)
  at_next x rest items = record {
    chain =
        IsChain-replace (xs ++ (p, n) ∷ []) q m (entered_once m) zs
          (subst IsChain (sym (append_assoc xs ((p, n) ∷ []) ((q, m) ∷ zs))) v.chain)
          (record {
            items_fit = next_IsChain.2.items_fit;
            cap_small = next_IsChain.2.cap_small;
            epoch_small = next_IsChain.2.epoch_small;
          });
    held =
        subst (Holds (switched_world it w xs p n q m zs v.chain v.held v.at).heap)
          (sym (append_assoc xs ((p, n) ∷ []) ((q, entered_once m) ∷ zs)))
          (Holds-switched it w xs p n q m zs v.chain v.held v.at);
    at = refl;
    state = refl;
    snapshot = record {
      earlier = omega arith;
      epoch_small = next_IsChain.2.epoch_small;
      finished = λ has. (flag-nonempty zs has, refl);
    };
    within = omega (arith, ap length items);
  }

  -- The next chunk has items: the first one, and those that the other calls yield.
  pub switch_more :
      (x : T) (rest : List T)
      → m.items ≡ x ∷ rest
      → Sessions T fuel
      → length (visible ((q, m) ∷ zs)) < suc fuel
      → Reads
          (suc fuel)
          it
          w
          (reach s it.position.index n ((q, m) ∷ zs))
          (xs ++ (p, n) ∷ passed s ((q, m) ∷ zs))
  switch_more x rest items goes enough =
      let k = next_snapshot it w xs p n q m zs v.chain v.held v.at in
      let got = next-reach m zs x rest next_IsChain.3 items in
      let ns = flagged {T = T} zs (visited zs) zs next_IsChain.3 (λ e. ap visited e ∙ sym e) in
      let later =
        goes
          (record (switched it w xs p n q m zs v.chain v.held v.at) {
            position = record { chunk = q; index = 1 };
          })
          (switched_world it w xs p n q m zs v.chain v.held v.at) (xs ++ (p, n) ∷ []) q
          (entered_once m) zs k (at_next x rest items)
          (omega (arith, enough, ap length got, ap length (visible-cons q m zs x rest items))) in
      let as_list =
        append_assoc xs ((p, n) ∷ []) ((q, entered_once m) ∷ passed k zs)
        ∙ ap (λ r. xs ++ (p, n) ∷ (q, entered_once m) ∷ r) ns
        ∙ ap (λ r. xs ++ (p, n) ∷ r) (sym (all_passed ∙ visited-cons q m zs x rest items)) in
      subst (λ g. Reads (suc fuel) it w g (xs ++ (p, n) ∷ passed s ((q, m) ∷ zs)))
        (ap (λ r. x ∷ r) got ∙ sym (all ∙ visible-cons q m zs x rest items))
        (subst (Reads (suc fuel) it w (x ∷ reach k 1 (entered_once m) zs)) as_list (
          Reads-more fuel it
            (record (switched it w xs p n q m zs v.chain v.held v.at) {
              position = record { chunk = q; index = 1 };
            })
            w (switched_world it w xs p n q m zs v.chain v.held v.at).heap x _ _
            (next-switch it w xs p n q m zs v.chain v.held v.at node s v.state v.snapshot end linked
              x rest items)
            refl later))
