-- ===== src/EventReader/Switch.antt =====
-- `Iter::next` of src/event_reader.rs at the end of a chunk that has a successor.
use lockless_event_queue.Base.{
  ℕ, ◌%◌, ◌^◌, ◌≡◌, refl, sym, ap, subst, ◌∙◌, false, true, not, none, some, List, [], ◌∷◌, ◌++◌,
  arith, ◌==◌, length, get_elem?, ==_refl, if_true,
}
use mathlib.Core.List.{append_assoc}
use lockless_event_queue.ChunkState
use lockless_event_queue.DynamicChunk
use lockless_event_queue.DynamicChunk.{Ptr, null, DynamicChunk, add_usize}
use lockless_event_queue.Heap
use lockless_event_queue.Heap.{Heap}
use lockless_event_queue.Heap.Laws.{read-write}
use lockless_event_queue.Node.{
  Node, IsNode, node_state, chunk_of, len-chunk_of, next-chunk_of, state-chunk_of,
}
use lockless_event_queue.Node.Methods.{enter-chunk_of}
use lockless_event_queue.Chain.{Chain, head_ptr, has, find, IsChain, Holds, find-middle}
use lockless_event_queue.Chain.Append.{IsChain-middle}
use lockless_event_queue.Represents.{Holds-write}
use lockless_event_queue.World.{World, ok}
use lockless_event_queue.World.Commands.{load-ok, modify-ok}
use lockless_event_queue.EventReader.{Iter, switch_chunk, iter_next}
use lockless_event_queue.Attendance.{Snapshot, snapshot_word, IsSnapshot, entered_once}
use lockless_event_queue.EventReader.Next.{has_next-snapshot, take_item-ok, at_end}

module _ {T : Type 0} (it : Iter) (w : World T) (xs : Chain T) (p : Ptr) (n : Node T) (q : Ptr)
    (m : Node T) (zs : Chain T) (chain : IsChain (xs ++ (p, n) ∷ (q, m) ∷ zs))
    (held : Holds w.heap (xs ++ (p, n) ∷ (q, m) ∷ zs)) (at : it.position.chunk ≡ p) where
  -- The world after the reader has entered the next chunk, and the iterator there.
  abbrev pub switched_world : World T
  switched_world = record w { heap = Heap.write q (chunk_of (entered_once m) (head_ptr zs)) w.heap }

  abbrev pub switched : Iter
  switched = record it {
    position = record { chunk = q; index = 0 };
    state = node_state m (head_ptr zs);
  }

  reassoc : (k : Node T) → (xs ++ (p, n) ∷ []) ++ (q, k) ∷ zs ≡ xs ++ (p, n) ∷ (q, k) ∷ zs
  reassoc k = append_assoc xs ((p, n) ∷ []) ((q, k) ∷ zs)

  before_q : has q (xs ++ (p, n) ∷ []) ≡ false
  before_q = (IsChain-middle (xs ++ (p, n) ∷ []) q m zs (subst IsChain (sym (reassoc m)) chain)).1

  node_q : IsNode m
  node_q = (IsChain-middle (xs ++ (p, n) ∷ []) q m zs (subst IsChain (sym (reassoc m)) chain)).3

  pub held_p : Heap.read it.position.chunk w.heap ≡ some (chunk_of n q)
  held_p =
      ap (λ r. Heap.read r w.heap) at
      ∙ held p
      ∙ find-middle p n xs ((q, m) ∷ zs) (IsChain-middle xs p n ((q, m) ∷ zs) chain).1

  held_q : Heap.read q w.heap ≡ some (chunk_of m (head_ptr zs))
  held_q = held q ∙ ap (find q) (sym (reassoc m)) ∙ find-middle q m (xs ++ (p, n) ∷ []) zs before_q

  pub held_q-after :
      Heap.read q switched_world.heap ≡ some (chunk_of (entered_once m) (head_ptr zs))
  held_q-after =
      read-write q q (chunk_of (entered_once m) (head_ptr zs)) (chunk_of m (head_ptr zs)) w.heap
        held_q
      ∙ if_true _ _ (==_refl q)

  pub Holds-switched : Holds switched_world.heap (xs ++ (p, n) ∷ (q, entered_once m) ∷ zs)
  Holds-switched r =
      Holds-write w.heap (xs ++ (p, n) ∷ []) q m (entered_once m) zs before_q
        (λ k. held k ∙ ap (find k) (sym (reassoc m))) r
      ∙ ap (find r) (reassoc (entered_once m))

  pub switch_chunk-ok : switch_chunk it w ≡ ok switched switched_world
  unfolding switch_chunk
  switch_chunk-ok =
      rw
        (
          load-ok it.position.chunk w held_p,
          next-chunk_of n q,
          modify-ok q w held_q DynamicChunk.enter,
          enter-chunk_of m (head_ptr zs),
          load-ok q switched_world held_q-after,
        )
        (ap (λ (k : ℕ). ok (record switched { state = k }) switched_world)
          (state-chunk_of (entered_once m) (head_ptr zs)))

  -- The snapshot that the switch takes of the next chunk.
  abbrev pub next_snapshot : Snapshot
  next_snapshot = record {
    len = length m.items;
    has_next = not (head_ptr zs == null);
    epoch = m.epoch;
  }

  module _ (v : IsNode n) (s : Snapshot) (snapshot : it.state ≡ snapshot_word s)
      (old : IsSnapshot s n ((q, m) ∷ zs)) (end : it.position.index ≡ s.len)
      (linked : s.has_next ≡ true) where
    switches : (it.position.index % 2 ^ 32 == ChunkState.len it.state) ≡ true
    switches = at_end it w n v q s snapshot old.earlier old.epoch_small held_p end

    flagged : ChunkState.has_next it.state ≡ true
    flagged = has_next-snapshot it w n v q s snapshot old.earlier old.epoch_small held_p ∙ linked

    -- At the end of a chunk that has a successor with items, the first of these.
    pub next-switch :
        (x : T) (rest : List T)
        → m.items ≡ x ∷ rest
        → iter_next it w
          ≡ ok
              (some x, record switched { position = record { chunk = q; index = 1 } })
              switched_world
    unfolding iter_next
    next-switch x rest items =
        let more : (length m.items == 0) ≡ false = ground (arith, ap length items) in
        rw (switches, flagged, switch_chunk-ok, len-chunk_of node_q (head_ptr zs), more)
          (take_item-ok switched switched_world (entered_once m)
            (record {
              items_fit = node_q.items_fit;
              cap_small = node_q.cap_small;
              epoch_small = node_q.epoch_small;
            })
            (head_ptr zs) next_snapshot refl (omega arith) node_q.epoch_small held_q-after x
            (omega (arith, ap length items)) (ap (λ r. get_elem? r 0) items))

    -- At the end of a chunk whose successor is empty, nothing, but the reader is in the successor.
    pub next-switch_empty : m.items ≡ [] → iter_next it w ≡ ok (none, switched) switched_world
    unfolding iter_next
    next-switch_empty items =
        let none_left : (length m.items == 0) ≡ true = ground (arith, ap length items) in
        rw (switches, flagged, switch_chunk-ok, len-chunk_of node_q (head_ptr zs), none_left)
