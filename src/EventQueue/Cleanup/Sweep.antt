-- ===== src/EventQueue/Cleanup/Sweep.antt =====
-- The walk of `force_cleanup_impl` of src/event_queue.rs up to the chunk of the start position.
use lockless_event_queue.Base.{
  ℕ, zero, suc, ◌<◌, ◌≡◌, ◌≢◌, refl, sym, ap, ap₂, subst, ◌∙◌, true, false, some, [], ◌∷◌, ◌++◌,
  arith, ◌==◌, if◌then◌else◌, length, Bool-cases, inl, inr, if_false,
}
use mathlib.Core.List.{append_assoc, append-nil}
use lockless_event_queue.DynamicChunk.{Ptr, null, DynamicChunk}
use lockless_event_queue.Heap
use lockless_event_queue.Heap.{Heap}
use lockless_event_queue.Heap.Laws.{read-write}
use lockless_event_queue.Node.{Node, IsNode, chunk_of, next-chunk_of, set_next-chunk_of}
use lockless_event_queue.Chain.{
  Chain, head_ptr, has, IsChain, Holds, find-middle, ne-of-has, has-append,
}
use lockless_event_queue.Chain.Append.{IsChain-middle}
use lockless_event_queue.World.{World, Cursor, Run, ok}
use lockless_event_queue.World.Commands.{load-ok, store-ok}
use lockless_event_queue.EventQueue.Settings.{Settings}
use lockless_event_queue.EventQueue.Foreach.{walk, continue}
use lockless_event_queue.EventQueue.Foreach.Walk.{walk-end, walk-continue}
use lockless_event_queue.EventQueue.Cleanup.{force_cleanup_step}
use lockless_event_queue.EventQueue.Cleanup.FreeChunk.{forget, without, cleared, free_chunk-ok}
use lockless_event_queue.EventQueue.Cleanup.InOrder.{contents, release_caps}
use lockless_event_queue.EventQueue.Cleanup.Unlink.{IsChain-unlink, Holds-unlink}

module _ {T : Type 0} where
  -- The nodes that no reader is in, and the others.
  abbrev pub idle : Chain T → Chain T
  idle [] = []
  idle ((p, n) ∷ ns) = if n.entered == n.read then (p, n) ∷ idle ns else idle ns

  abbrev pub busy : Chain T → Chain T
  busy [] = []
  busy ((p, n) ∷ ns) = if n.entered == n.read then busy ns else (p, n) ∷ busy ns

  -- The world after some nodes are gone from the middle, with the memory `h`.
  abbrev pub swept : Heap T → Chain T → World T → World T
  swept h gone w = record w {
    heap = h;
    list = record (w.list) { total_capacity = release_caps w.list.total_capacity gone };
    dropped = w.dropped ++ contents gone;
  }

  module _ (S : Settings) (off : S.double_buffering ≡ false) (prev : Ptr) (k : Node T) (q : Ptr)
      (m : Node T) (next : Ptr) (w : World T)
      (there : Heap.read q w.heap ≡ some (chunk_of m next)) where
    step-busy : (m.entered == m.read) ≡ false → force_cleanup_step S prev q w ≡ ok (q, continue) w
    unfolding force_cleanup_step chunk_of
    step-busy occupied = rw (load-ok q w there, occupied)

    abbrev pub relinked : Heap T
    relinked = Heap.write prev (chunk_of k next) w.heap

    step-idle :
        (v : IsNode k) (u : IsNode m) (c : Cursor)
        → (m.entered == m.read) ≡ true
        → Heap.read prev w.heap ≡ some (chunk_of k q)
        → (prev == q) ≡ false
        → w.start_position ≡ some c
        → (c.chunk == q) ≡ false
        → force_cleanup_step S prev q w
          ≡ ok
              (prev, continue)
              (swept (Heap.erase q (Heap.write q (cleared m next) relinked)) ((q, m) ∷ []) w)
    unfolding force_cleanup_step chunk_of
    step-idle v u c unoccupied here ne start away =
        let there' : Heap.read q relinked ≡ some (chunk_of m next) =
          read-write prev q (chunk_of k next) (chunk_of k q) w.heap here ∙ rw ne there in
        rw
          (
            load-ok q w there,
            unoccupied,
            load-ok prev w here,
            set_next-chunk_of v q next,
            store-ok prev w here (chunk_of k next),
            free_chunk-ok S false u q next (record w { heap = relinked }) off refl there',
          )
          (ap₂
            (λ s d.
              ok (prev, continue)
                (record (without q m next (record w { heap = relinked })) {
                  start_position = s;
                  dropped = w.dropped ++ d;
                }))
            (ap (forget q) start ∙ if_false _ _ away ∙ sym start) (sym (append-nil m.items)))

  swept-swept :
      (h h' : Heap T) (p : Ptr) (n : Node T) (gone : Chain T) (w : World T)
      → swept h gone (swept h' ((p, n) ∷ []) w) ≡ swept h ((p, n) ∷ gone) w
  swept-swept h h' p n gone w =
      ap (λ d. record (swept h ((p, n) ∷ gone) w) { dropped = d })
        (ap (λ d. (w.dropped ++ d) ++ contents gone) (append-nil n.items)
          ∙ append_assoc w.dropped n.items (contents gone))

  -- What a list says of two nodes in a row.
  record Links (w : World T) (xs : Chain T) (p : Ptr) (n : Node T) (q : Ptr) (m : Node T)
      (rest : Chain T) : Type 0 where
    here : Heap.read p w.heap ≡ some (chunk_of n q)
    there : Heap.read q w.heap ≡ some (chunk_of m (head_ptr rest))
    ne : (p == q) ≡ false
    node : IsNode n
    node_q : IsNode m
    not_null : q ≢ null
    not_behind : has q rest ≡ false
    chain' : IsChain ((xs ++ (p, n) ∷ []) ++ (q, m) ∷ rest)
    held' : Holds w.heap ((xs ++ (p, n) ∷ []) ++ (q, m) ∷ rest)
    unlinked : IsChain (xs ++ (p, n) ∷ rest)
    erased :
        (c : DynamicChunk T)
        → Holds
            (Heap.erase q (Heap.write q c (Heap.write p (chunk_of n (head_ptr rest)) w.heap)))
            (xs ++ (p, n) ∷ rest)

  links :
      (w : World T) (xs : Chain T) (p : Ptr) (n : Node T) (q : Ptr) (m : Node T) (rest : Chain T)
      → IsChain (xs ++ (p, n) ∷ (q, m) ∷ rest)
      → Holds w.heap (xs ++ (p, n) ∷ (q, m) ∷ rest)
      → Links w xs p n q m rest
  links w xs p n q m rest chain held =
      let as_list = append_assoc xs ((p, n) ∷ []) ((q, m) ∷ rest) in
      let chain' = subst IsChain (sym as_list) chain in
      let held' = subst (Holds w.heap) (sym as_list) held in
      let (_, out, behind, v) = IsChain-middle xs p n ((q, m) ∷ rest) chain in
      let (not_null, out_q, not_behind, u) = IsChain-middle (xs ++ (p, n) ∷ []) q m rest chain' in
      let here = held p ∙ find-middle p n xs ((q, m) ∷ rest) out in
      let there = held' q ∙ find-middle q m (xs ++ (p, n) ∷ []) rest out_q in
      let ne : (p == q) ≡ false = ground (arith, behind) in
      let out_xs : has q xs ≡ false = ground (arith, out_q, has-append q xs ((p, n) ∷ [])) in
      record {
        here = here;
        there = there;
        ne = ne;
        node = v;
        node_q = u;
        not_null = not_null;
        not_behind = not_behind;
        chain' = chain';
        held' = held';
        unlinked =
            subst IsChain (append_assoc xs ((p, n) ∷ []) rest)
              (IsChain-unlink (xs ++ (p, n) ∷ []) q m rest chain');
        erased =
            λ c. Holds-unlink w.heap xs p n q m rest c out out_xs ne not_behind held here there;
      }

  -- What the walk from a node on does, behind the node `prev` that stays.
  abbrev pub Sweeps : World T → Chain T → Ptr → Node T → Chain T → Chain T → Run T Ptr → Type 0
  Sweeps w xs prev k seg rest r =
      (last : Ptr) × (h : Heap T) × (r ≡ ok last (swept h (idle seg) w))
      × Holds h (xs ++ (prev, k) ∷ (busy seg ++ rest))
      × IsChain (xs ++ (prev, k) ∷ (busy seg ++ rest))

  pub sweep_walk :
      (S : Settings) (off : S.double_buffering ≡ false) (c : Cursor) (n : Node T) (ys : Chain T)
      (j : ℕ) (xs : Chain T) (prev : Ptr) (k : Node T) (seg : Chain T) (w : World T)
      → w.start_position ≡ some c
      → IsChain (xs ++ (prev, k) ∷ (seg ++ (c.chunk, n) ∷ ys))
      → Holds w.heap (xs ++ (prev, k) ∷ (seg ++ (c.chunk, n) ∷ ys))
      → length seg < j
      → Sweeps w xs prev k seg
          ((c.chunk, n) ∷ ys)
          (walk c.chunk (force_cleanup_step S) j (head_ptr (seg ++ (c.chunk, n) ∷ ys)) prev w)
  sweep_walk S off c n ys zero xs prev k seg w start chain held fuel = absurd (omega arith)
  sweep_walk S off c n ys (suc j) xs prev k [] w start chain held fuel =
      let ne =
        (IsChain-middle (xs ++ (prev, k) ∷ []) c.chunk n ys
          (subst IsChain (sym (append_assoc xs ((prev, k) ∷ []) ((c.chunk, n) ∷ ys))) chain)).0 in
      (
        prev,
        w.heap,
        walk-end c.chunk (force_cleanup_step S) j prev w ne
            ∙ ap (λ d. ok prev (record w { dropped = d })) (sym (append-nil w.dropped)),
        held,
        chain,
      )
  sweep_walk S off c n ys (suc j) xs prev k ((q, m) ∷ seg) w start chain held fuel =
      let l : Links w xs prev k q m (seg ++ (c.chunk, n) ∷ ys) =
        links w xs prev k q m (seg ++ (c.chunk, n) ∷ ys) chain held in
      let next = head_ptr (seg ++ (c.chunk, n) ∷ ys) in
      let on =
        ne-of-has q c.chunk (seg ++ (c.chunk, n) ∷ ys) l.not_behind
          (ground (arith, has-append c.chunk seg ((c.chunk, n) ∷ ys))) in
      elim (Bool-cases (m.entered == m.read)) [
        | inl unoccupied ↦
            let freed =
              Heap.erase q
                (Heap.write q (cleared m next) (Heap.write prev (chunk_of k next) w.heap)) in
            let (last, h, runs, holds, good) =
              sweep_walk S off c n ys j xs prev k seg (swept freed ((q, m) ∷ []) w) start
                (l.unlinked) (l.erased (cleared m next)) (omega arith) in
            (
              last,
              h,
              walk-continue c.chunk (force_cleanup_step S) j prev w q l.not_null on l.there (
                    step-idle S off prev k q m next w l.there l.node l.node_q c unoccupied l.here
                      l.ne start (ground (arith, on)))
                  ∙ ap
                      (λ r.
                        walk c.chunk (force_cleanup_step S) j r prev (swept freed ((q, m) ∷ []) w))
                      (next-chunk_of m next)
                  ∙ runs
                  ∙ rw unoccupied (ap (ok last) (swept-swept h freed q m (idle seg) w)),
              rw unoccupied holds,
              rw unoccupied good,
            )
        | inr occupied ↦
            let (last, h, runs, holds, good) =
              sweep_walk S off c n ys j (xs ++ (prev, k) ∷ []) q m seg w start l.chain' l.held'
                (omega arith) in
            let as_list =
              append_assoc xs ((prev, k) ∷ []) ((q, m) ∷ (busy seg ++ (c.chunk, n) ∷ ys)) in
            (
              last,
              h,
              walk-continue c.chunk (force_cleanup_step S) j prev w q l.not_null on l.there
                    (step-busy S off prev k q m next w l.there occupied)
                  ∙ ap (λ r. walk c.chunk (force_cleanup_step S) j r q w) (next-chunk_of m next)
                  ∙ runs
                  ∙ rw occupied refl,
              rw occupied (subst (Holds h) as_list holds),
              rw occupied (subst IsChain as_list good),
            )
      ]
