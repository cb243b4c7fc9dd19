-- ===== src/EventQueue/Invariant/ForceTo.antt =====
-- `force_cleanup_impl` of src/event_queue.rs, from the first chunk to that of the start position.
use lockless_event_queue.Base.{
  ℕ, suc, ◌≡◌, refl, sym, ap, subst, ◌∙◌, true, false, Option, none, some, [], ◌∷◌, ◌++◌, arith,
  ◌==◌, if◌then◌else◌, length, length-append, Bool-cases, inl, inr, if_true, ==_refl,
}
use lockless_event_queue.DynamicChunk.{Ptr}
use lockless_event_queue.Heap
use lockless_event_queue.Heap.{Heap}
use lockless_event_queue.Node.{Node, chunk_of, next-chunk_of}
use lockless_event_queue.Chain.{Chain, head_ptr, has, has-append, IsChain, Holds, length-le-heap}
use lockless_event_queue.World.{World, Cursor, ok}
use lockless_event_queue.World.Commands.{load-ok}
use lockless_event_queue.EventQueue.Settings.{Settings}
use lockless_event_queue.EventQueue.Foreach.{walk, foreach_chunk_ptr_mut}
use lockless_event_queue.EventQueue.Cleanup.{force_cleanup_step, force_cleanup_to}
use lockless_event_queue.EventQueue.Cleanup.Sweep.{idle, busy, swept, sweep_walk}
use lockless_event_queue.EventQueue.Invariant.{StartIn, IsQueue}
use lockless_event_queue.EventQueue.Invariant.Busy.{
  last_ptr-append, IdsUpTo-busy, HasEpoch-busy, HasSizes-busy, release_caps-busy,
}

module _ {T : Type 0} where
  -- The nodes before the one at an address, and those from it on.
  abbrev pub before : Ptr → Chain T → Chain T
  before t [] = []
  before t ((q, m) ∷ ns) = if q == t then [] else (q, m) ∷ before t ns

  abbrev pub onward : Ptr → Chain T → Chain T
  onward t [] = []
  onward t ((q, m) ∷ ns) = if q == t then (q, m) ∷ ns else onward t ns

  -- What is left of a list, and what goes, if its start position is the cursor.
  abbrev pub forced : Option Cursor → Chain T → Chain T
  forced none ns = ns
  forced (some c) [] = []
  forced (some c) (x ∷ ns) =
      if x.0 == c.chunk then x ∷ ns else x ∷ (busy (before c.chunk ns) ++ onward c.chunk ns)

  abbrev pub gone : Option Cursor → Chain T → Chain T
  gone none ns = []
  gone (some c) [] = []
  gone (some c) (x ∷ ns) = if x.0 == c.chunk then [] else idle (before c.chunk ns)

  pub split :
      (t : Ptr) (ns : Chain T)
      → has t ns ≡ true
      → (n : Node T) × (ys : Chain T) × (onward t ns ≡ (t, n) ∷ ys)
        × (before t ns ++ onward t ns ≡ ns)
  split t [] h = absurd (cc)
  split t ((q, m) ∷ ns) h = elim (Bool-cases (q == t)) [
    | inl e ↦
        let same : q ≡ t = ground (arith, e) in
        (m, ns, rw e (ap (λ r. (r, m) ∷ ns) same), rw e refl)
    | inr e ↦
        let (n, ys, here, all) = split t ns (ground (arith, h)) in
        (n, ys, rw e here, rw e (ap (λ r. (q, m) ∷ r) all))
  ]

  -- While `force_cleanup_impl` holds the lock on the start position.
  abbrev pub locked : World T → World T
  locked w = record w { start_lock = true }

module _ {T : Type 0} (S : Settings) (off : S.double_buffering ≡ false) (w : World T) (f : Ptr)
    (k : Node T) (c : Cursor) (start : w.start_position ≡ some c) where
  -- The start position is in the first chunk.
  pub to-first :
      w.list.first ≡ f
      → (f == c.chunk) ≡ true
      → force_cleanup_to S c.chunk (locked w) ≡ ok tt (locked w)
  unfolding force_cleanup_to
  to-first first same = rw (ap (λ r. r == c.chunk) first ∙ same)

  module _ {e : ℕ} (seg : Chain T) (n : Node T) (ys : Chain T)
      (q : IsQueue S e ((f, k) ∷ (seg ++ (c.chunk, n) ∷ ys)) w)
      (other : (f == c.chunk) ≡ false) where
    pub to-other :
        (h : Heap T) × (force_cleanup_to S c.chunk (locked w)
          ≡ ok tt (swept h (idle seg) (locked w)))
        × Holds h ((f, k) ∷ (busy seg ++ (c.chunk, n) ∷ ys))
        × IsChain ((f, k) ∷ (busy seg ++ (c.chunk, n) ∷ ys))
    unfolding force_cleanup_to foreach_chunk_ptr_mut
    to-other =
        let here : Heap.read w.list.first w.heap
            ≡ some (chunk_of k (head_ptr (seg ++ (c.chunk, n) ∷ ys))) =
          ap (λ r. Heap.read r w.heap) q.rep.first ∙ q.rep.held f ∙ if_true _ _ (==_refl f) in
        let few =
          length-le-heap w.heap ((f, k) ∷ (seg ++ (c.chunk, n) ∷ ys)) q.rep.chain q.rep.held in
        let (last, h, runs, holds, good) =
          sweep_walk S off c n ys (suc (length w.heap)) [] f k seg (locked w) start q.rep.chain
            q.rep.held (omega (arith, few, length-append seg ((c.chunk, n) ∷ ys))) in
        (
          h,
          rw (
            ap (λ r. r == c.chunk) q.rep.first ∙ other,
            load-ok w.list.first (locked w) here,
            next-chunk_of k (head_ptr (seg ++ (c.chunk, n) ∷ ys)),
            ap
                  (λ r.
                    walk c.chunk (force_cleanup_step S) (suc (length w.heap))
                      (head_ptr (seg ++ (c.chunk, n) ∷ ys)) r (locked w))
                  q.rep.first
                ∙ runs,
          ),
          holds,
          good,
        )

    pub swept-IsQueue :
        (h : Heap T)
        → Holds h ((f, k) ∷ (busy seg ++ (c.chunk, n) ∷ ys))
        → IsChain ((f, k) ∷ (busy seg ++ (c.chunk, n) ∷ ys))
        → IsQueue S e
            ((f, k) ∷ (busy seg ++ (c.chunk, n) ∷ ys))
            (record (swept h (idle seg) (locked w)) { start_lock = false })
    swept-IsQueue h holds good = record {
      rep = record {
        held = holds;
        chain = good;
        first = q.rep.first;
        last =
            q.rep.last
            ∙ last_ptr-append ((f, k) ∷ seg) (c.chunk, n) ys
            ∙ sym (last_ptr-append ((f, k) ∷ busy seg) (c.chunk, n) ys);
        no_free_chunk = q.rep.no_free_chunk;
      };
      nonempty = omega arith;
      start_unlocked = refl;
      ids = IdsUpTo-busy w.list.chunk_id_counter f k seg (c.chunk, n) ys q.ids;
      epochs = (q.epochs.0, HasEpoch-busy e seg _ q.epochs.1);
      sizes = (q.sizes.0, q.sizes.1, HasSizes-busy S seg _ q.sizes.2);
      total = release_caps-busy w.list.total_capacity f k seg _ q.rep.chain.3 q.total;
      start =
          subst (StartIn ((f, k) ∷ (busy seg ++ (c.chunk, n) ∷ ys))) (sym start)
            (ground (arith, has-append c.chunk (busy seg) ((c.chunk, n) ∷ ys)));
    }
