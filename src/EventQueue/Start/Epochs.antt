-- ===== src/EventQueue/Start/Epochs.antt =====
-- `set_start_position` of src/event_queue.rs: the start position, and a new epoch in every chunk.
use lockless_event_queue.Base.{
  ℕ, zero, suc, ◌<◌, ◌≤◌, ◌≡◌, refl, sym, ap, subst, ◌∙◌, some, [], ◌∷◌, ◌++◌, arith, length, ==_ne,
}
use mathlib.Core.List.{append_assoc}
use lockless_event_queue.Utils.{max_epoch}
use lockless_event_queue.DynamicChunk
use lockless_event_queue.DynamicChunk.{Ptr, null}
use lockless_event_queue.Heap
use lockless_event_queue.Heap.{Heap}
use lockless_event_queue.Node.{Node, IsNode, chunk_of, next-chunk_of, set_epoch-chunk_of}
use lockless_event_queue.Chain.{Chain, head_ptr, last_ptr, IsChain, Holds, find-middle}
use lockless_event_queue.Chain.Append.{IsChain-middle, IsChain-replace}
use lockless_event_queue.Represents.{Holds-write}
use lockless_event_queue.World.{World, ok}
use lockless_event_queue.World.Commands.{modify-ok}
use lockless_event_queue.EventQueue.Foreach.{walk, continue}
use lockless_event_queue.EventQueue.Foreach.Walk.{walk-null, walk-continue}
use lockless_event_queue.EventQueue.Start.{epoch_step}

module _ {T : Type 0} where
  abbrev pub in_epoch : ℕ → Node T → Node T
  in_epoch e n = record n { epoch = e }

  -- The chain with one epoch in all nodes.
  abbrev pub all_in_epoch : ℕ → Chain T → Chain T
  all_in_epoch e [] = []
  all_in_epoch e ((p, n) ∷ ns) = (p, in_epoch e n) ∷ all_in_epoch e ns

  pub head_ptr-all_in_epoch : (e : ℕ) (ns : Chain T) → head_ptr (all_in_epoch e ns) ≡ head_ptr ns
  head_ptr-all_in_epoch e [] = refl
  head_ptr-all_in_epoch e (x ∷ ns) = refl

  pub last_ptr-all_in_epoch : (e : ℕ) (ns : Chain T) → last_ptr (all_in_epoch e ns) ≡ last_ptr ns
  last_ptr-all_in_epoch e [] = refl
  last_ptr-all_in_epoch e (x ∷ []) = refl
  last_ptr-all_in_epoch e (x ∷ y ∷ ns) = last_ptr-all_in_epoch e (y ∷ ns)

  -- What the closure does to the node it is at.
  epoch_step-ok :
      (e : ℕ)
      → e ≤ max_epoch
      → (p : Ptr) (n : Node T) (v : IsNode n) (next : Ptr) (w : World T)
      → Heap.read p w.heap ≡ some (chunk_of n next)
      → epoch_step (record { inner = e }) tt p w
        ≡ ok (tt, continue) (record w { heap = Heap.write p (chunk_of (in_epoch e n) next) w.heap })
  unfolding epoch_step
  epoch_step-ok e small p n v next w here = rw (
    modify-ok p w here (λ c. DynamicChunk.set_epoch c (record { inner = e })),
    set_epoch-chunk_of v next e (omega (arith, small)),
  )

  -- The walk over the rest of the list.
  pub epochs-walk :
      (e : ℕ)
      → e ≤ max_epoch
      → (k : ℕ) (xs ys : Chain T) (w : World T) → IsChain (xs ++ ys)
      → Holds w.heap (xs ++ ys)
      → length ys < k
      → (h : Heap T) × (walk null (epoch_step (record { inner = e })) k (head_ptr ys) tt w
          ≡ ok tt (record w { heap = h }))
        × Holds h (xs ++ all_in_epoch e ys)
        × IsChain (xs ++ all_in_epoch e ys)
  epochs-walk e small zero xs ys w chain held fuel = absurd (omega arith)
  epochs-walk e small (suc k) xs [] w chain held fuel =
      (w.heap, walk-null null _ k tt w, held, chain)
  epochs-walk e small (suc k) xs ((p, n) ∷ ys) w chain held fuel =
      let (ne, out, rest, v) = IsChain-middle xs p n ys chain in
      let here = held p ∙ find-middle p n xs ys out in
      let m = in_epoch e n in
      let node : IsNode m = record {
        items_fit = v.items_fit;
        cap_small = v.cap_small;
        epoch_small = omega (arith, small);
      } in
      let w' : World T = record w { heap = Heap.write p (chunk_of m (head_ptr ys)) w.heap } in
      let (h, runs, holds, good) =
        epochs-walk e small k (xs ++ (p, m) ∷ []) ys w'
          (subst IsChain (sym (append_assoc xs ((p, m) ∷ []) ys))
            (IsChain-replace xs p n m ys chain node))
          (subst (Holds w'.heap) (sym (append_assoc xs ((p, m) ∷ []) ys))
            (Holds-write w.heap xs p n m ys out held))
          (omega arith) in
      (
        h,
        walk-continue null (epoch_step (record { inner = e })) k tt w p ne (==_ne p null ne) here
              (epoch_step-ok e small p n v (head_ptr ys) w here)
            ∙ ap (λ q. walk null (epoch_step (record { inner = e })) k q tt w')
                (next-chunk_of n (head_ptr ys))
            ∙ runs,
        subst (Holds h) (append_assoc xs ((p, m) ∷ []) (all_in_epoch e ys)) holds,
        subst IsChain (append_assoc xs ((p, m) ∷ []) (all_in_epoch e ys)) good,
      )
