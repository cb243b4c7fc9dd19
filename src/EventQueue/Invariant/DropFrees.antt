-- ===== src/EventQueue/Invariant/DropFrees.antt =====
-- The drop of the queue of src/event_queue.rs, with its last handle.
use lockless_event_queue.Base.{
  ℕ, zero, suc, ◌<◌, ◌≡◌, refl, sym, ap, ap₂, ◌∙◌, true, false, none, some, List, [], ◌∷◌, ◌++◌,
  arith, length, ◌==◌, ==_refl, ==_ne,
}
use mathlib.Core.List.{append-nil, append_assoc}
use lockless_event_queue.DynamicChunk
use lockless_event_queue.DynamicChunk.{Ptr, null}
use lockless_event_queue.Heap
use lockless_event_queue.Heap.{Heap}
use lockless_event_queue.Node.{Node, chunk_of}
use lockless_event_queue.Node.Methods.{mark_read-chunk_of}
use lockless_event_queue.Chain.{Chain, head_ptr, IsChain, Holds, length-le-heap}
use lockless_event_queue.Represents.{Represents}
use lockless_event_queue.World.{World, ok, when, unlock_list}
use lockless_event_queue.World.Commands.{load-ok, modify-ok, lock_list-ok}
use lockless_event_queue.EventQueue.Settings.{Settings}
use lockless_event_queue.EventQueue.Cleanup.FreeChunk.{cleared, destruct_at-ok}
use lockless_event_queue.EventQueue.Cleanup.InOrder.{contents, Holds-without}
use lockless_event_queue.EventQueue.Life.{
  EventReader, drop_chunks, drop, decrement_strong_count, unsubscribe, sub_u32,
}
use lockless_event_queue.EventQueue.Invariant.{IsQueue}
use lockless_event_queue.EventQueue.Invariant.CleanupKeeps.{IsQueue-lock}
use lockless_event_queue.EventQueue.Invariant.Recount.{Conserves-Evolves, Conserves-trans}
use lockless_event_queue.EventQueue.Invariant.Unsubscribe.{leaves, held_p, cleans}

-- No chunk is allocated any more, and the items have been dropped after those dropped before.
abbrev pub Empties : {T : Type 0} → List T → World T → World T → Type 0
Empties items w w' = ((p : Ptr) → Heap.read p w'.heap ≡ none) × (w'.dropped ≡ w.dropped ++ items)

module _ {T : Type 0} where
  drop_chunks-ok :
      (k : ℕ) (ns : Chain T) (w : World T)
      → IsChain ns
      → Holds w.heap ns
      → length ns < k
      → (w' : World T) × (drop_chunks k (head_ptr ns) w ≡ ok tt w')
        × (w'.list.free_chunk ≡ w.list.free_chunk)
        × Empties (contents ns) w w'
  unfolding drop_chunks chunk_of
  drop_chunks-ok zero ns w v held fuel = absurd (omega arith)
  drop_chunks-ok (suc k) [] w v held fuel = (w, refl, refl, (held, sym (append-nil w.dropped)))
  drop_chunks-ok (suc k) ((p, n) ∷ ns) w v held fuel =
      let e : Heap.read p w.heap ≡ some (chunk_of n (head_ptr ns)) = held p ∙ rw (==_refl p) in
      let next_world : World T = record w {
        heap = Heap.erase p (Heap.write p (cleared n (head_ptr ns)) w.heap);
        dropped = w.dropped ++ n.items;
      } in
      let gone = destruct_at-ok v.2 p (head_ptr ns) w e in
      let (w', runs, free, (empty, drops)) =
        drop_chunks-ok k ns next_world v.3 (Holds-without p n ns w v.1 held) (omega arith) in
      (
        w',
        rw (==_ne p null v.0, load-ok p w e, gone) runs,
        free,
        (empty, drops ∙ append_assoc w.dropped n.items (contents ns)),
      )

  drop-Empties :
      (ns : Chain T) (w : World T)
      → Represents w ns
      → (w' : World T) × (drop w ≡ ok tt w') × Empties (contents ns) w w'
  unfolding drop
  drop-Empties ns w rep =
      let few = length-le-heap w.heap ns rep.chain rep.held in
      let (w', runs, free, empties) =
        drop_chunks-ok (suc (length w.heap)) ns w rep.chain rep.held (omega arith) in
      let runs' : drop_chunks (suc (length w.heap)) w.list.first w ≡ ok tt w' =
        ap (λ p. drop_chunks (suc (length w.heap)) p w) rep.first ∙ runs in
      (w', rw (runs', rep.no_free_chunk), empties)

  -- The world without the last reader and handle.
  abbrev abandoned : World T → World T
  abandoned w = record w {
    list = record (w.list) { readers_count = 0 };
    list_lock = false;
    strong_count = 0;
  }

  abandoned-Represents :
      (ns : Chain T) (w : World T) → Represents w ns → Represents (abandoned w) ns
  abandoned-Represents ns w rep = record {
    held = rep.held;
    chain = rep.chain;
    first = rep.first;
    last = rep.last;
    no_free_chunk = rep.no_free_chunk;
  }

  -- The end of `unsubscribe` when the last reader held the last handle.
  depart-drops :
      (ns : Chain T) (w : World T)
      → Represents w ns
      → w.list.readers_count ≡ 1
      → w.strong_count ≡ 1
      → (w' : World T) × (when
            (sub_u32 w.list.readers_count 1 == 0)
            decrement_strong_count
            (record w {
              list = record (w.list) { readers_count = sub_u32 w.list.readers_count 1 };
              list_lock = false;
            })
          ≡ ok tt w')
        × Empties (contents ns) w w'
  unfolding decrement_strong_count
  depart-drops ns w rep one last =
      let (w', runs, empties) = drop-Empties ns (abandoned w) (abandoned-Represents ns w rep) in
      (
        w',
        ap₂
              (λ (c s : ℕ). when (sub_u32 c 1 == 0) decrement_strong_count (record w {
                list = record (w.list) { readers_count = sub_u32 c 1 };
                list_lock = false;
                strong_count = s;
              }))
              one last
            ∙ runs,
        empties,
      )

module _ {T : Type 0} (S : Settings) (off : S.double_buffering ≡ false) {e : ℕ} (w : World T)
    (r : EventReader) (xs : Chain T) (n : Node T) (ys : Chain T)
    (q : IsQueue S e (xs ++ (r.position.chunk, n) ∷ ys) w) where
  -- Without the cargo feature, on a well-formed queue whose list is not locked, with one reader
  -- left and one handle, so that the owner has dropped its own, `unsubscribe` of this reader in a
  -- chunk of the list runs to its end and drops the queue: no chunk is allocated any more, and all
  -- items that were in the queue have been dropped, once and in order, behind those dropped
  -- before.
  pub unsubscribe-Empties :
      w.list_lock ≡ false
      → w.list.readers_count ≡ 1
      → w.strong_count ≡ 1
      → (w' : World T) × (unsubscribe S r w ≡ ok tt w')
        × Empties (contents (xs ++ (r.position.chunk, n) ∷ ys)) w w'
  unfolding unsubscribe unlock_list
  unsubscribe-Empties free one last =
      let locked : World T = record w { list_lock = true } in
      let q' = IsQueue-lock true q in
      let v = leaves S off locked xs r.position.chunk n ys q' in
      let (w', runs, u) = cleans S off _ _ r.position.chunk v.queue in
      let (w'', drops, (empty, items)) =
        depart-drops _ w' u.queue.rep (u.readers_count ∙ one) (u.strong_count ∙ last) in
      (
        w'',
        rw
            (
              lock_list-ok w free,
              modify-ok r.position.chunk locked (held_p S off locked xs r.position.chunk n ys q')
                  DynamicChunk.mark_read,
              mark_read-chunk_of n (head_ptr ys),
            )
            (rw runs drops),
        (empty, items ∙ (Conserves-trans v (Conserves-Evolves u)).history ∙ append-nil _),
      )
