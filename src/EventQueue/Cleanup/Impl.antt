-- ===== src/EventQueue/Cleanup/Impl.antt =====
-- `cleanup_impl` and `cleanup` of src/event_queue.rs, and `on_new_chunk_cleanup`, as one equation each.
use lockless_event_queue.Base.{
  suc, ◌≡◌, refl, sym, ap₂, ◌∙◌, false, arith, ◌==◌, if◌then◌else◌, length, Bool-cases, inl, inr,
}
use lockless_event_queue.Heap.{Heap}
use lockless_event_queue.Chain.{Chain, head_ptr, Holds, length-le-heap}
use lockless_event_queue.Represents.{Represents}
use lockless_event_queue.World.{World, ok}
use lockless_event_queue.EventQueue.Settings.{Settings}
use lockless_event_queue.EventQueue.Foreach.{foreach_chunk_ptr_mut}
use lockless_event_queue.EventQueue.Cleanup.{cleanup_step, cleanup_impl}
use lockless_event_queue.EventQueue.Cleanup.InOrder.{
  removed, kept, trimmed, cleanup_walk, last_ptr-kept, IsChain-kept,
}

module _ {T : Type 0} where
  -- The world after a cleanup of the list `ns`, with the memory `h`.
  abbrev pub cleaned : Heap T → Chain T → World T → World T
  cleaned h ns w = record (trimmed h (removed ns) (kept ns) w) {
    list = record ((trimmed h (removed ns) (kept ns) w).list) {
      penult_chunk_size = if head_ptr (kept ns) == w.list.last then 0 else w.list.penult_chunk_size;
    };
  }

  module _ (S : Settings) (off : S.double_buffering ≡ false) (ns : Chain T) (w : World T)
      (rep : Represents w ns) (unlocked : w.start_lock ≡ false) where
    foreach-ok :
        (h : Heap T) × (foreach_chunk_ptr_mut w.list.first w.list.last (cleanup_step S) tt w
          ≡ ok tt (trimmed h (removed ns) (kept ns) w))
        × Holds h (kept ns)
    unfolding foreach_chunk_ptr_mut
    foreach-ok =
        let few = length-le-heap w.heap ns rep.chain rep.held in
        let (h, runs, holds) =
          cleanup_walk S (suc (length w.heap)) ns w off unlocked rep.first rep.chain rep.held
            (omega arith) in
        (
          h,
          ap₂ (λ a b. foreach_chunk_ptr_mut a b (cleanup_step S) tt w) rep.first rep.last ∙ runs,
          holds,
        )

    pub cleanup_impl-ok :
        (h : Heap T) × (cleanup_impl S w ≡ ok tt (cleaned h ns w))
        × Represents (cleaned h ns w) (kept ns)
    unfolding cleanup_impl
    cleanup_impl-ok =
        let (h, runs, holds) = foreach-ok in
        (
          h,
          rw runs (elim (Bool-cases (head_ptr (kept ns) == w.list.last)) [
            | inl e ↦ rw e
            | inr e ↦ rw e
          ]),
          record {
            held = holds;
            chain = IsChain-kept ns rep.chain;
            first = refl;
            last = rep.last ∙ sym (last_ptr-kept ns);
            no_free_chunk = rep.no_free_chunk;
          },
        )
