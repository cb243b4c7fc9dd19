-- ===== src/EventReader/Marks.antt =====
-- The walk of `Drop for Iter` of src/event_reader.rs: the chunks that the session has passed.
use lockless_event_queue.Base.{
  ℕ, zero, suc, ◌<◌, ◌≡◌, refl, sym, ap, subst, ◌∙◌, Bool, true, false, ◌&&◌, some, [], ◌∷◌, ◌++◌,
  arith, leb, ◌==◌, if◌then◌else◌, length,
}
use mathlib.Core.List.{append_assoc}
use lockless_event_queue.DynamicChunk
use lockless_event_queue.DynamicChunk.{Ptr, null, add_usize}
use lockless_event_queue.Heap
use lockless_event_queue.Heap.{Heap}
use lockless_event_queue.Node.{Node, chunk_of, next-chunk_of}
use lockless_event_queue.Node.Methods.{mark_read-chunk_of}
use lockless_event_queue.Chain.{Chain, head_ptr, IsChain, Holds, find-middle, ne-of-has, has-append}
use lockless_event_queue.Chain.Append.{IsChain-middle, IsChain-replace}
use lockless_event_queue.Represents.{Holds-write}
use lockless_event_queue.World.{World, ok}
use lockless_event_queue.World.Commands.{load-ok, modify-ok}
use lockless_event_queue.EventQueue.Foreach.{walk, continue}
use lockless_event_queue.EventQueue.Foreach.Walk.{walk-end, walk-continue}
use lockless_event_queue.EventQueue.Invariant.Recount.{Recounted, Recounted-refl}
use lockless_event_queue.Attendance.{left_once}
use lockless_event_queue.EventReader.{pass_step}

module _ {T : Type 0} where
  -- The nodes that a reader has left.
  abbrev pub marked : Chain T → Chain T
  marked [] = []
  marked ((p, n) ∷ ns) = (p, left_once n) ∷ marked ns

  -- What the closure makes of `need_cleanup`, node by node.
  abbrev pub needs : Bool → Ptr → Chain T → Bool → Bool
  needs try_cleanup first [] b = b
  needs try_cleanup first ((p, n) ∷ ns) b =
      needs try_cleanup first ns
        (if try_cleanup && p == first && leb n.entered (add_usize n.read 1) then true else b)

  pub Recounted-marked : (ns ys : Chain T) → Recounted (ns ++ ys) (marked ns ++ ys)
  Recounted-marked [] ys = Recounted-refl ys
  Recounted-marked ((p, n) ∷ ns) ys =
      (n.entered, add_usize n.read 1, marked ns ++ ys, refl, Recounted-marked ns ys)

  pass_step-ok :
      (try_cleanup : Bool) (first : Ptr) (b : Bool) (p : Ptr) (n : Node T) (next : Ptr)
      (w : World T)
      → Heap.read p w.heap ≡ some (chunk_of n next)
      → pass_step try_cleanup first b p w
        ≡ ok
            (
              (if try_cleanup && p == first && leb n.entered (add_usize n.read 1) then true else b),
              continue,
            )
            (record w { heap = Heap.write p (chunk_of (left_once n) next) w.heap })
  unfolding pass_step chunk_of
  pass_step-ok try_cleanup first b p n next w here =
      rw (load-ok p w here, modify-ok p w here DynamicChunk.mark_read, mark_read-chunk_of n next)

  pub marks-walk :
      (try_cleanup : Bool) (first : Ptr) (k : ℕ) (xs passed : Chain T) (p : Ptr) (n : Node T)
      (ys : Chain T) (b : Bool) (w : World T)
      → IsChain (xs ++ (passed ++ (p, n) ∷ ys))
      → Holds w.heap (xs ++ (passed ++ (p, n) ∷ ys))
      → length passed < k
      → (h : Heap T) × (walk p
            (pass_step try_cleanup first)
            k
            (head_ptr (passed ++ (p, n) ∷ ys))
            b
            w
          ≡ ok (needs try_cleanup first passed b) (record w { heap = h }))
        × Holds h (xs ++ (marked passed ++ (p, n) ∷ ys))
  marks-walk try_cleanup first zero xs passed p n ys b w chain held fuel = absurd (omega arith)
  marks-walk try_cleanup first (suc k) xs [] p n ys b w chain held fuel =
      let (ne, _, _, _) = IsChain-middle xs p n ys chain in (w.heap, walk-end p _ k b w ne, held)
  marks-walk try_cleanup first (suc k) xs ((q, m) ∷ passed) p n ys b w chain held fuel =
      let (ne, out, rest, v) = IsChain-middle xs q m (passed ++ (p, n) ∷ ys) chain in
      let here = held q ∙ find-middle q m xs (passed ++ (p, n) ∷ ys) out in
      let next = head_ptr (passed ++ (p, n) ∷ ys) in
      let w' : World T = record w { heap = Heap.write q (chunk_of (left_once m) next) w.heap } in
      let b' =
        if try_cleanup && q == first && leb m.entered (add_usize m.read 1) then true else b in
      let away : (q == p) ≡ false =
        ne-of-has q p (passed ++ (p, n) ∷ ys) rest
          (ground (arith, has-append p passed ((p, n) ∷ ys))) in
      let (h, runs, holds) =
        marks-walk try_cleanup first k (xs ++ (q, left_once m) ∷ []) passed p n ys b' w'
          (subst IsChain (sym (append_assoc xs ((q, left_once m) ∷ []) (passed ++ (p, n) ∷ ys))) (
            IsChain-replace xs q m (left_once m) (passed ++ (p, n) ∷ ys) chain (record {
              items_fit = v.items_fit;
              cap_small = v.cap_small;
              epoch_small = v.epoch_small;
            })))
          (subst (Holds w'.heap)
            (sym (append_assoc xs ((q, left_once m) ∷ []) (passed ++ (p, n) ∷ ys)))
            (Holds-write w.heap xs q m (left_once m) (passed ++ (p, n) ∷ ys) out held))
          (omega arith) in
      (
        h,
        walk-continue p (pass_step try_cleanup first) k b w q ne away here
              (pass_step-ok try_cleanup first b q m next w here)
            ∙ ap (λ r. walk p (pass_step try_cleanup first) k r b' w') (next-chunk_of m next)
            ∙ runs,
        subst (Holds h) (append_assoc xs ((q, left_once m) ∷ []) (marked passed ++ (p, n) ∷ ys))
            holds,
      )
