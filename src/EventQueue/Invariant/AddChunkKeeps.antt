-- ===== src/EventQueue/Invariant/AddChunkKeeps.antt =====
-- `add_chunk_sized` keeps the invariant.
use lockless_event_queue.Base.{
  ℕ, ◌+◌, ◌^◌, ◌≤◌, ◌<◌, ◌≡◌, refl, sym, ap, ap₂, subst, ◌∙◌, false, some, [], ◌∷◌, ◌++◌, arith,
  length-append,
}
use mathlib.Core.List.{append-nil, append_assoc}
use lockless_event_queue.DynamicChunk.{Ptr, null, add_usize}
use lockless_event_queue.Heap
use lockless_event_queue.Heap.{Heap, Allocates}
use lockless_event_queue.Node.{Node, IsNode, chunk_of, fresh}
use lockless_event_queue.Chain.{Chain, head_ptr, find, find-middle, head_ptr-middle}
use lockless_event_queue.Chain.Append.{
  last_ptr-snoc, IsChain-middle, IsChain-snoc, Holds-absent, Holds-link,
}
use lockless_event_queue.World.{World, ok}
use lockless_event_queue.EventQueue.Settings.{Settings}
use lockless_event_queue.EventQueue.Cleanup.InOrder.{contents}
use lockless_event_queue.EventQueue.Push.{add_chunk_sized}
use lockless_event_queue.EventQueue.Push.AddChunk.{linked, add_chunk_sized-ok}
use lockless_event_queue.Attendance.{occupants}
use lockless_event_queue.Attendance.Count.{Counts-append}
use lockless_event_queue.Attendance.Follow.{Follows}
use lockless_event_queue.Attendance.Unread.{unread}
use lockless_event_queue.Attendance.Delivers.{unread-behind}
use lockless_event_queue.Attendance.Thin.{Follows-snoc, Attended-Follows, occupants-absent}
use lockless_event_queue.EventQueue.Invariant.{IsFit, IsQueue, Evolves}
use lockless_event_queue.EventQueue.Invariant.Trim.{contents-append, caps-append}
use lockless_event_queue.EventQueue.Invariant.Snoc.{
  unsnoc, IdsUpTo-snoc, HasEpoch-snoc, HasSizes-snoc, StartIn-snoc, HasEpoch-last, HasSizes-last,
}

module _ {T : Type 0} (S : Settings) (e : ℕ) (w : World T) where
  -- The last node of a queue, as the writer finds it.
  pub record LastNode (xs : Chain T) (p : Ptr) (n : Node T) : Type 0 where
    pub at : w.list.last ≡ p
    pub holds : Heap.read w.list.last w.heap ≡ some (chunk_of n null)
    pub node : IsNode n
    pub epoch : n.epoch ≡ e
    pub least : S.min_chunk_size ≤ n.cap
    pub most : n.cap ≤ S.max_chunk_size

  pub last_node :
      (xs : Chain T) (p : Ptr) (n : Node T) → IsQueue S e (xs ++ (p, n) ∷ []) w → LastNode xs p n
  last_node xs p n q =
      let (ne, out, rest, well) = IsChain-middle xs p n [] q.rep.chain in
      let at = q.rep.last ∙ last_ptr-snoc xs p n in
      let sizes = HasSizes-last S xs p n q.sizes in
      record {
        at = at;
        holds = ap (λ r. Heap.read r w.heap) at ∙ q.rep.held p ∙ find-middle p n xs [] out;
        node = well;
        epoch = HasEpoch-last e xs p n q.epochs;
        least = sizes.0;
        most = sizes.1;
      }

-- The node that a new chunk of `size` is, linked behind a list in the epoch `e`.
abbrev pub next_node : {T : Type 0} → World T → ℕ → ℕ → Node T
next_node w e size = fresh (add_usize w.list.chunk_id_counter 1) size e

module _ {T : Type 0} (alloc : Heap T → Ptr) (allocates : Allocates alloc) (S : Settings)
    (off : S.double_buffering ≡ false) (fit : IsFit S) where
  -- What `add_chunk_sized` makes of a list whose last node is named.
  linked-Evolves :
      {e : ℕ} {w : World T} (xs : Chain T) (p : Ptr) (n : Node T) (size : ℕ)
      → IsQueue S e (xs ++ (p, n) ∷ []) w
      → S.min_chunk_size ≤ size
      → size ≤ S.max_chunk_size
      → w.list.chunk_id_counter + 1 < 2 ^ 64
      → Evolves S e
          (xs ++ (p, n) ∷ [])
          ((xs ++ (p, n) ∷ []) ++ (alloc w.heap, next_node w e size) ∷ [])
          []
          w
          (linked alloc allocates S off n size w)
  linked-Evolves {e} {w} xs p n size q lo hi room = record {
    queue = record {
      rep = record {
        held = λ r.
            ap₂
              (λ a k. Heap.read r (
                Heap.write a (chunk_of n c) (
                  (c, chunk_of (fresh (add_usize w.list.chunk_id_counter 1) size k) null)
                  ∷ w.heap)))
              l.at l.epoch
            ∙ Holds-link w.heap xs p c n m q.rep.chain q.rep.held (allocates w.heap).1 r
            ∙ ap (find r) (sym reassoc);
        chain =
            IsChain-snoc ns q.rep.chain (allocates w.heap).0
              (Holds-absent w.heap ns c q.rep.held (allocates w.heap).1) (omega (arith, l, fit));
        first = q.rep.first ∙ head_ptr-middle p n n xs [] ((c, m) ∷ []) ∙ ap head_ptr (sym reassoc);
        last = sym (last_ptr-snoc ns c m);
        no_free_chunk = q.rep.no_free_chunk;
      };
      nonempty = omega (arith, length-append ns ((c, m) ∷ []));
      start_unlocked = q.start_unlocked;
      ids = IdsUpTo-snoc w.list.chunk_id_counter ns c m q.ids (omega arith);
      epochs = HasEpoch-snoc e ns c m q.epochs refl;
      sizes = HasSizes-snoc S ns c m q.sizes lo hi;
      total = omega (arith, q.total, caps-append ns ((c, m) ∷ []));
      start = StartIn-snoc ns (c, m) w.start_position q.start;
    };
    history =
        ap (λ r. w.dropped ++ r) (contents-append ns ((c, m) ∷ []))
        ∙ sym (append_assoc w.dropped (contents ns) []);
    list_lock = refl;
    readers_count = refl;
    strong_count = refl;
    attended = λ ss a.
        Attended-Follows
          (λ s.
            subst (Follows s ns) (sym reassoc)
              (Follows-snoc s xs p n n ((c, m) ∷ []) (omega arith)))
          (Counts-append (occupants ss) ns ((c, m) ∷ []) a.counts (
            omega (
              arith,
              occupants-absent ss ns c a.stand
                  (Holds-absent w.heap ns c q.rep.held (allocates w.heap).1),
            ),
            omega arith,
            tt,
          ))
          a;
    delivers = λ s ss a.
        ap (unread s) reassoc
        ∙ unread-behind s ss xs p n n ((c, m) ∷ []) [] (sym (append-nil n.items)) refl q.rep.chain
            a;
  }
    where
      c : Ptr
      c = alloc w.heap

      m : Node T
      m = next_node w e size

      ns : Chain T
      ns = xs ++ (p, n) ∷ []

      l : LastNode S e w xs p n
      l = last_node S e w xs p n q

      reassoc : ns ++ (c, m) ∷ [] ≡ xs ++ (p, n) ∷ (c, m) ∷ []
      reassoc = append_assoc xs ((p, n) ∷ []) ((c, m) ∷ [])

  -- Without the cargo feature, on a well-formed queue, for a size between the bounds of settings
  -- that fit and with a chunk id left to give, `add_chunk_sized` returns the address that the
  -- allocator picks, and links there, behind all other chunks, an empty chunk of the size with the
  -- next id, the queue's epoch and no reader. The queue is well formed and has the same items.
  -- Every reader stays where it is, in chunks that count it, and has as much to read as before.
  pub add_chunk_sized-Evolves :
      {e : ℕ} {w : World T} (ns : Chain T) (size : ℕ)
      → IsQueue S e ns w
      → S.min_chunk_size ≤ size
      → size ≤ S.max_chunk_size
      → w.list.chunk_id_counter + 1 < 2 ^ 64
      → (w' : World T) × (add_chunk_sized alloc S size w ≡ ok (alloc w.heap) w')
        × Evolves S e ns (ns ++ (alloc w.heap, next_node w e size) ∷ []) [] w w'
  add_chunk_sized-Evolves {e} {w} ns size q lo hi room =
      let (xs, p, n, shape) = unsnoc ns q.nonempty in
      let named = subst (λ ms. IsQueue S e ms w) shape q in
      let l = last_node S e w xs p n named in
      (
        linked alloc allocates S off n size w,
        add_chunk_sized-ok alloc allocates S off l.node size w l.holds,
        subst
            (λ ms.
              Evolves S e ms (ms ++ (alloc w.heap, next_node w e size) ∷ []) [] w
                (linked alloc allocates S off n size w))
            (sym shape) (linked-Evolves xs p n size named lo hi room),
      )
