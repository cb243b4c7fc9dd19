-- ===== src/EventReader/Drops.antt =====
-- `Drop for Iter` of src/event_reader.rs keeps the queue's invariant.
use lockless_event_queue.Base.{
  ℕ, suc, ◌≡◌, refl, sym, ap, ap₂, subst, ◌∙◌, Bool, true, false, ◌&&◌, some, [], ◌∷◌, ◌++◌, arith,
  leb, ◌==◌, if◌then◌else◌, length, ==_refl, length-append, Bool-cases, inl, inr, if_true, if_false,
}
use mathlib.Core.List.{append_assoc}
use lockless_event_queue.DynamicChunk.{Ptr, add_usize}
use lockless_event_queue.Heap
use lockless_event_queue.Heap.{Heap}
use lockless_event_queue.Node.{Node, chunk_of}
use lockless_event_queue.Chain.{
  Chain, head_ptr, find, has, has-append, IsChain, Holds, find-middle, length-le-heap,
}
use lockless_event_queue.Chain.Append.{IsChain-from, IsChain-middle}
use lockless_event_queue.World.{World, ok}
use lockless_event_queue.World.Commands.{load-ok}
use lockless_event_queue.EventQueue.Settings.{Settings, is_on_chunk_read}
use lockless_event_queue.EventQueue.Foreach.{walk, foreach_chunk_ptr_mut}
use lockless_event_queue.EventQueue.Cleanup.InOrder.{kept}
use lockless_event_queue.EventQueue.Invariant.{IsQueue, Conserves, Evolves}
use lockless_event_queue.EventQueue.Invariant.CleanupKeeps.{cleanup-Evolves, Evolves-refl}
use lockless_event_queue.EventQueue.Invariant.Recount.{
  Recounted-append, Conserves-Recounted, Conserves-Evolves, Conserves-trans,
}
use lockless_event_queue.EventQueue.Life.{EventReader}
use lockless_event_queue.EventReader.{Iter, pass_step, iter_drop}
use lockless_event_queue.EventReader.Marks.{marked, needs, Recounted-marked, marks-walk}

-- All readers that have entered the first passed chunk have left it, this one counted.
abbrev pub finished : {T : Type 0} → Chain T → Bool
finished [] = false
finished ((q, m) ∷ passed) = leb m.entered (add_usize m.read 1)

twice : (a b : Bool) → (a && (a && b)) ≡ (a && b)
twice false b = refl
twice true b = refl

-- Another chunk than the first does not count.
other : (a c b : Bool) → (if a && false && c then true else b) ≡ b
other false c b = refl
other true c b = refl

module _ {T : Type 0} where
  needs-others :
      (try_cleanup : Bool) (q : Ptr) (passed : Chain T) (b : Bool)
      → has q passed ≡ false
      → needs try_cleanup q passed b ≡ b
  needs-others try_cleanup q [] b out = refl
  needs-others try_cleanup q ((p, n) ∷ passed) b out =
      let ne : (p == q) ≡ false = ground (arith, out) in
      needs-others try_cleanup q passed _ (ground (arith, out))
      ∙ rw ne (other try_cleanup (leb n.entered (add_usize n.read 1)) b)

  needs-first :
      (try_cleanup : Bool) (passed rest : Chain T)
      → IsChain (passed ++ rest)
      → needs try_cleanup (head_ptr (passed ++ rest)) passed false
        ≡ (try_cleanup && finished passed)
  needs-first try_cleanup [] rest chain = ground arith
  needs-first try_cleanup ((q, m) ∷ passed) rest chain =
      needs-others try_cleanup q passed _ (ground (arith, chain.1, has-append q passed rest))
      ∙ rw (==_refl q) (ground arith)

  -- The chunks that are left after the drop of an iterator.
  abbrev pub after_drop : Settings → Chain T → Chain T → Chain T → Chain T
  after_drop S xs passed rest =
      if is_on_chunk_read S.cleanup && finished passed
      then kept (xs ++ (marked passed ++ rest))
      else xs ++ (marked passed ++ rest)

module _ {T : Type 0} (S : Settings) (off : S.double_buffering ≡ false) {e : ℕ} (w : World T)
    (it : Iter) (xs passed : Chain T) (p : Ptr) (n : Node T) (ys : Chain T)
    (q : IsQueue S e (xs ++ (passed ++ (p, n) ∷ ys)) w)
    (start : it.event_reader.position.chunk ≡ head_ptr (passed ++ (p, n) ∷ ys))
    (at : it.position.chunk ≡ p) where
  abbrev pub returned : EventReader
  returned = record (it.event_reader) { position = it.position }

  abbrev try_cleanup : Bool
  try_cleanup = is_on_chunk_read S.cleanup

  -- The first part of the drop.
  marks :
      (h : Heap T) × (foreach_chunk_ptr_mut it.event_reader.position.chunk it.position.chunk
          (pass_step try_cleanup it.event_reader.position.chunk)
          false
          w
        ≡ ok (try_cleanup && finished passed) (record w { heap = h }))
      × Holds h (xs ++ (marked passed ++ (p, n) ∷ ys))
      × Conserves S e
          (xs ++ (passed ++ (p, n) ∷ ys))
          (xs ++ (marked passed ++ (p, n) ∷ ys))
          []
          w
          (record w { heap = h })
  unfolding foreach_chunk_ptr_mut
  marks =
      let few = length-le-heap w.heap _ q.rep.chain q.rep.held in
      let first = head_ptr (passed ++ (p, n) ∷ ys) in
      let (h, runs, holds) =
        marks-walk try_cleanup first (suc (length w.heap)) xs passed p n ys false w q.rep.chain
          q.rep.held
          (omega (
            arith,
            few,
            length-append xs (passed ++ (p, n) ∷ ys),
            length-append passed ((p, n) ∷ ys),
          )) in
      (
        h,
        ap₂ (λ a b. walk b (pass_step try_cleanup a) (suc (length w.heap)) a false w) start at
            ∙ runs
            ∙ ap (λ b. ok b (record w { heap = h }))
                (needs-first try_cleanup passed ((p, n) ∷ ys) (IsChain-from xs _ q.rep.chain)),
        holds,
        Conserves-Recounted _ _ h (Recounted-append xs _ _ (Recounted-marked passed ((p, n) ∷ ys)))
            holds q,
      )

  end_held :
      (h : Heap T)
      → Holds h (xs ++ (marked passed ++ (p, n) ∷ ys))
      → IsChain (xs ++ (marked passed ++ (p, n) ∷ ys))
      → Heap.read it.position.chunk h ≡ some (chunk_of n (head_ptr ys))
  end_held h holds chain =
      let named = append_assoc xs (marked passed) ((p, n) ∷ ys) in
      ap (λ r. Heap.read r h) at
      ∙ holds p
      ∙ ap (find p) (sym named)
      ∙ find-middle p n (xs ++ marked passed) ys
          (IsChain-middle (xs ++ marked passed) p n ys (subst IsChain (sym named) chain)).1

  -- The drop: first the chunks passed are marked, then there may be a cleanup.
  pub iter_drop-steps :
      w.list_lock ≡ false
      → (h : Heap T) × (w' : World T) × (iter_drop S it w ≡ ok returned w')
        × Conserves S e
            (xs ++ (passed ++ (p, n) ∷ ys))
            (xs ++ (marked passed ++ (p, n) ∷ ys))
            []
            w
            (record w { heap = h })
        × Evolves S e
            (xs ++ (marked passed ++ (p, n) ∷ ys))
            (after_drop S xs passed ((p, n) ∷ ys))
            []
            (record w { heap = h })
            w'
  unfolding iter_drop
  iter_drop-steps free =
      let (h, runs, holds, v) = marks in
      elim (Bool-cases (try_cleanup && finished passed)) [
        | inl due ↦
            let (w', cleans, u) = cleanup-Evolves S off v.queue free in
            (
              h,
              w',
              rw (
                runs,
                twice try_cleanup (finished passed) ∙ due,
                load-ok it.position.chunk (record w { heap = h })
                    (end_held h holds v.queue.rep.chain),
                cleans,
              ),
              v,
              subst
                  (λ ms.
                    Evolves S e (xs ++ (marked passed ++ (p, n) ∷ ys)) ms [] (record w { heap = h })
                      w')
                  (sym (if_true _ _ due)) u,
            )
        | inr none_due ↦ (
          h,
          record w { heap = h },
          rw (runs, twice try_cleanup (finished passed) ∙ none_due),
          v,
          subst
              (λ ms.
                Evolves S e (xs ++ (marked passed ++ (p, n) ∷ ys)) ms [] (record w { heap = h })
                  (record w { heap = h }))
              (sym (if_false _ _ none_due)) (Evolves-refl v.queue),
        )
      ]

  -- Without the cargo feature, on a well-formed queue whose list is not locked, an iterator that
  -- has gone from its reader's chunk to the same or a later one is dropped. The drop runs to its
  -- end, gives the reader the iterator's position, and counts one reader more that has left each
  -- chunk passed, but not the one it is in. In the mode `OnChunkRead`, if a chunk was passed and
  -- no more readers have entered the first one passed than have left it, a cleanup follows. The
  -- queue is well formed, and the items dropped so far followed by those in the queue are the same
  -- sequence as before.
  pub iter_drop-Conserves :
      w.list_lock ≡ false
      → (w' : World T) × (iter_drop S it w ≡ ok returned w')
        × Conserves S e
            (xs ++ (passed ++ (p, n) ∷ ys))
            (after_drop S xs passed ((p, n) ∷ ys))
            []
            w
            w'
  iter_drop-Conserves free =
      let (h, w', runs, v, u) = iter_drop-steps free in
      (w', runs, Conserves-trans v (Conserves-Evolves u))
