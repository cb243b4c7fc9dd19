-- ===== src/EventQueue/Invariant/RefillKeeps.antt =====
-- A write of items behind those of the last chunk keeps the invariant, and changes compose.
use lockless_event_queue.Base.{
  ℕ, ◌+◌, ◌%◌, ◌^◌, ◌≤◌, ◌≡◌, refl, sym, ap, ◌∙◌, List, [], ◌∷◌, ◌++◌, arith, length, length-append,
}
use mathlib.Core.List.{append_assoc}
use lockless_event_queue.DynamicChunk.{Ptr, null}
use lockless_event_queue.Heap
use lockless_event_queue.Node.{Node, chunk_of}
use lockless_event_queue.Chain.{Chain, head_ptr-middle}
use lockless_event_queue.Chain.Append.{last_ptr-snoc, IsChain-middle, IsChain-replace}
use lockless_event_queue.Represents.{Holds-write}
use lockless_event_queue.World.{World}
use lockless_event_queue.EventQueue.Settings.{Settings}
use lockless_event_queue.EventQueue.Cleanup.InOrder.{contents}
use lockless_event_queue.Attendance.{occupants}
use lockless_event_queue.Attendance.Count.{Counts-append, Counts-before, Counts-after}
use lockless_event_queue.Attendance.Unread.{unread}
use lockless_event_queue.Attendance.Delivers.{unread-behind}
use lockless_event_queue.Attendance.Thin.{Follows-snoc, Attended-Follows}
use lockless_event_queue.EventQueue.Invariant.{IsQueue, Evolves}
use lockless_event_queue.EventQueue.Invariant.Snoc.{
  refill, IdsUpTo-refill, HasEpoch-refill, HasSizes-refill, caps-refill, StartIn-refill,
  contents-snoc,
}
use lockless_event_queue.EventQueue.Invariant.AddChunkKeeps.{last_node}

module _ {T : Type 0} where
  -- The world with other items in the last chunk.
  abbrev pub rewritten : Node T → World T → World T
  rewritten m w = record w { heap = Heap.write w.list.last (chunk_of m null) w.heap }

  refilled :
      (w : World T) (xs : Chain T) (p : Ptr) (n : Node T) (added : List T)
      → w.dropped ++ contents (xs ++ (p, refill n (n.items ++ added)) ∷ [])
        ≡ (w.dropped ++ contents (xs ++ (p, n) ∷ [])) ++ added
  refilled w xs p n added =
      simp (contents-snoc xs p n, contents-snoc xs p (refill n (n.items ++ added)), append_assoc)

module _ {T : Type 0} {S : Settings} {e : ℕ} where
  pub Evolves-trans :
      {ns ms ks : Chain T} {xs ys : List T} {u v w : World T}
      → Evolves S e ns ms xs u v
      → Evolves S e ms ks ys v w
      → Evolves S e ns ks (xs ++ ys) u w
  Evolves-trans {ns} {xs} {ys} {u} a b = record {
    queue = b.queue;
    attended = λ ss at. b.attended ss (a.attended ss at);
    delivers = λ s ss at.
        b.delivers s ss (a.attended (s ∷ ss) at)
        ∙ ap (λ u. u ++ ys) (a.delivers s ss at)
        ∙ append_assoc (unread s ns) xs ys;
    history =
        b.history ∙ ap (λ h. h ++ ys) a.history ∙ append_assoc (u.dropped ++ contents ns) xs ys;
    list_lock = b.list_lock ∙ a.list_lock;
    readers_count = b.readers_count ∙ a.readers_count;
    strong_count = b.strong_count ∙ a.strong_count;
  }

  pub refill-Evolves :
      {w : World T} (xs : Chain T) (p : Ptr) (n : Node T) (added : List T)
      → IsQueue S e (xs ++ (p, n) ∷ []) w
      → length n.items + length added ≤ n.cap
      → Evolves S e
          (xs ++ (p, n) ∷ [])
          (xs ++ (p, refill n (n.items ++ added)) ∷ [])
          added
          w
          (rewritten (refill n (n.items ++ added)) w)
  refill-Evolves {w} xs p n added q room =
      let (ne, out, rest, well) = IsChain-middle xs p n [] q.rep.chain in
      let m : Node T = refill n (n.items ++ added) in
      let l = last_node S e w xs p n q in
      record {
        queue = record {
          rep = record {
            held = λ r.
                ap (λ a. Heap.read r (Heap.write a (chunk_of m null) w.heap)) l.at
                ∙ Holds-write w.heap xs p n m [] out q.rep.held r;
            chain =
                IsChain-replace xs p n m [] q.rep.chain
                  (omega (arith, well, length-append n.items added));
            first = q.rep.first ∙ head_ptr-middle p n m xs [] [];
            last = l.at ∙ sym (last_ptr-snoc xs p m);
            no_free_chunk = q.rep.no_free_chunk;
          };
          nonempty = omega (arith, length-append xs ((p, m) ∷ []));
          start_unlocked = q.start_unlocked;
          ids = IdsUpTo-refill p n (n.items ++ added) xs w.list.chunk_id_counter q.ids;
          epochs = HasEpoch-refill p n (n.items ++ added) xs e q.epochs;
          sizes = HasSizes-refill p n (n.items ++ added) xs S q.sizes;
          total =
              q.total ∙ ap (λ (c : ℕ). c % 2 ^ 64) (sym (caps-refill p n (n.items ++ added) xs));
          start = StartIn-refill p n (n.items ++ added) xs w.start_position q.start;
        };
        history = refilled w xs p n added;
        attended = λ ss a.
            Attended-Follows
              (λ s. Follows-snoc s xs p n m [] (omega (arith, length-append n.items added)))
              (Counts-append (occupants ss) xs ((p, m) ∷ [])
                (Counts-before (occupants ss) xs ((p, n) ∷ []) a.counts)
                (Counts-after (occupants ss) xs ((p, n) ∷ []) a.counts))
              a;
        delivers = λ s ss a. unread-behind s ss xs p n m [] added refl refl q.rep.chain a;
        list_lock = refl;
        readers_count = refl;
        strong_count = refl;
      }
