-- ===== src/EventQueue/Cleanup/InOrder.antt =====
-- `cleanup_impl` of src/event_queue.rs on a chain: the leading unoccupied nodes go, never the last.
use lockless_event_queue.Base.{
  ℕ, zero, suc, ◌<◌, ◌≡◌, refl, ap, ◌∙◌, true, false, Option, none, some, List, [], ◌∷◌, ◌++◌,
  arith, ◌==◌, if◌then◌else◌, length, replicate, Bool-cases, inl, inr, ==_refl,
}
use mathlib.Core.List.{append-nil, append_assoc}
use lockless_event_queue.DynamicChunk.{Ptr, null}
use lockless_event_queue.Heap
use lockless_event_queue.Heap.{Heap}
use lockless_event_queue.Heap.Laws.{read-write, read-erase}
use lockless_event_queue.Node.{Node, IsNode, chunk_of}
use lockless_event_queue.Chain.{
  Chain, head_ptr, last_ptr, has, IsChain, Holds, find-absent, ne-of-has,
}
use lockless_event_queue.World.{World, Run, Cursor, ok}
use lockless_event_queue.World.Commands.{load-ok}
use lockless_event_queue.EventQueue.Settings.{Settings}
use lockless_event_queue.EventQueue.Foreach.{walk, continue, break}
use lockless_event_queue.EventQueue.Foreach.Walk.{walk-null, walk-end, walk-continue, walk-break}
use lockless_event_queue.EventQueue.Cleanup.{sub_usize, cleanup_step}
use lockless_event_queue.EventQueue.Cleanup.FreeChunk.{forget, without, free_chunk-ok}

module _ {T : Type 0} where
  -- The nodes that a cleanup removes, and those that it keeps.
  abbrev pub removed : Chain T → Chain T
  removed [] = []
  removed (x ∷ []) = []
  removed ((p, n) ∷ y ∷ ns) = if n.entered == n.read then (p, n) ∷ removed (y ∷ ns) else []

  abbrev pub kept : Chain T → Chain T
  kept [] = []
  kept (x ∷ []) = x ∷ []
  kept ((p, n) ∷ y ∷ ns) = if n.entered == n.read then kept (y ∷ ns) else (p, n) ∷ y ∷ ns

  -- The items of a chain, in order.
  abbrev pub contents : Chain T → List T
  contents [] = []
  contents ((p, n) ∷ ns) = n.items ++ contents ns

  -- What is left of a total after the capacities of some nodes.
  abbrev pub release_caps : ℕ → Chain T → ℕ
  release_caps t [] = t
  release_caps t ((p, n) ∷ ns) = release_caps (sub_usize t n.cap) ns

  abbrev pub forget_all : Chain T → Option Cursor → Option Cursor
  forget_all [] c = c
  forget_all ((p, n) ∷ ns) c = forget_all ns (forget p c)

  -- The world after some nodes are gone from the front, with the memory `h`.
  abbrev pub trimmed : Heap T → (gone rest : Chain T) → World T → World T
  trimmed h gone rest w = record w {
    heap = h;
    list = record (w.list) {
      first = head_ptr rest;
      total_capacity = release_caps w.list.total_capacity gone;
    };
    start_position = forget_all gone w.start_position;
    dropped = w.dropped ++ contents gone;
  }

  pub removed-append-kept : (ns : Chain T) → removed ns ++ kept ns ≡ ns
  removed-append-kept [] = refl
  removed-append-kept (x ∷ []) = refl
  removed-append-kept ((p, n) ∷ y ∷ ns) = ground (arith, removed-append-kept (y ∷ ns))

  pub last_ptr-kept : (ns : Chain T) → last_ptr (kept ns) ≡ last_ptr ns
  last_ptr-kept [] = refl
  last_ptr-kept (x ∷ []) = refl
  last_ptr-kept ((p, n) ∷ y ∷ ns) = ground (arith, last_ptr-kept (y ∷ ns))

  pub has-last_ptr : (y : Ptr × Node T) (ns : Chain T) → has (last_ptr (y ∷ ns)) (y ∷ ns) ≡ true
  has-last_ptr (p, n) [] = ground arith
  has-last_ptr (p, n) (z ∷ ns) = ground (arith, has-last_ptr z ns)

  pub IsChain-kept : (ns : Chain T) → IsChain ns → IsChain (kept ns)
  IsChain-kept [] v = v
  IsChain-kept (x ∷ []) v = v
  IsChain-kept ((p, n) ∷ y ∷ ns) v = elim (Bool-cases (n.entered == n.read)) [
    | inl e ↦ rw e (IsChain-kept (y ∷ ns) v.3)
    | inr e ↦ rw e v
  ]

  pub Holds-without :
      (p : Ptr) (n : Node T) (ns : Chain T) (w : World T)
      → has p ns ≡ false
      → Holds w.heap ((p, n) ∷ ns)
      → Holds (without p n (head_ptr ns) w).heap ns
  Holds-without p n ns w out held q = ground (
    arith,
    read-erase p q
        (Heap.write p (record (chunk_of n (head_ptr ns)) { array = replicate n.cap none }) w.heap),
    read-write p q (record (chunk_of n (head_ptr ns)) { array = replicate n.cap none })
        (chunk_of n (head_ptr ns)) w.heap,
    held p,
    held q,
    find-absent p ns out,
  )

  -- The world after one round that frees a node.
  abbrev stepped : Ptr → Node T → Ptr → World T → World T
  stepped p n next w = record (without p n next w) {
    list = record ((without p n next w).list) { first = next };
  }

  cleanup_step-break :
      (S : Settings) (p : Ptr) (n : Node T) (next : Ptr) (w : World T)
      → Heap.read p w.heap ≡ some (chunk_of n next)
      → (n.entered == n.read) ≡ false
      → cleanup_step S tt p w ≡ ok (tt, break) w
  unfolding cleanup_step chunk_of
  cleanup_step-break S p n next w e busy = rw (load-ok p w e, busy)

  cleanup_step-free :
      (S : Settings) (p : Ptr) (n : Node T) (v : IsNode n) (next : Ptr) (w : World T)
      → S.double_buffering ≡ false
      → w.start_lock ≡ false
      → Heap.read p w.heap ≡ some (chunk_of n next)
      → (n.entered == n.read) ≡ true
      → cleanup_step S tt p w ≡ ok (tt, continue) (stepped p n next w)
  unfolding cleanup_step chunk_of
  cleanup_step-free S p n v next w off unlocked e idle =
      rw (load-ok p w e, idle, free_chunk-ok S true v p next w off unlocked e)

  -- What a run of the loop over `ns` does.
  abbrev pub Trims : World T → Chain T → Run T (Unit {0}) → Type 0
  Trims w ns r = (h : Heap T) × (r ≡ ok tt (trimmed h (removed ns) (kept ns) w)) × Holds h (kept ns)

  Trims-none :
      (w : World T) (ns : Chain T) → w.list.first ≡ head_ptr ns → w ≡ trimmed w.heap [] ns w
  Trims-none w ns first = ground (arith, append-nil w.dropped)

  trimmed-stepped :
      (h : Heap T) (p : Ptr) (n : Node T) (gone : Chain T) (next : Ptr) (rest : Chain T)
      (w : World T)
      → ◌≡◌ {A = Run T (Unit {0})}
          (ok tt (trimmed h gone rest (stepped p n next w)))
          (ok tt (trimmed h ((p, n) ∷ gone) rest w))
  trimmed-stepped h p n gone next rest w =
      ap (λ d. ok tt (record (trimmed h ((p, n) ∷ gone) rest w) { dropped = d }))
        (append_assoc w.dropped n.items (contents gone))

  pub cleanup_walk :
      (S : Settings) (k : ℕ) (ns : Chain T) (w : World T)
      → S.double_buffering ≡ false
      → w.start_lock ≡ false
      → w.list.first ≡ head_ptr ns
      → IsChain ns
      → Holds w.heap ns
      → length ns < k
      → Trims w ns (walk (last_ptr ns) (cleanup_step S) k (head_ptr ns) tt w)
  unfolding chunk_of
  cleanup_walk S zero ns w off unlocked first v held fuel = absurd (omega arith)
  cleanup_walk S (suc k) [] w off unlocked first v held fuel =
      (w.heap, walk-null null _ k tt w ∙ ap (ok tt) (Trims-none w [] first), held)
  cleanup_walk S (suc k) ((p, n) ∷ []) w off unlocked first v held fuel =
      (w.heap, walk-end p _ k tt w v.0 ∙ ap (ok tt) (Trims-none w ((p, n) ∷ []) first), held)
  cleanup_walk S (suc k) ((p, n) ∷ y ∷ ns) w off unlocked first v held fuel =
      let e : Heap.read p w.heap ≡ some (chunk_of n (head_ptr (y ∷ ns))) =
        held p ∙ rw (==_refl p) in
      let on = ne-of-has p (last_ptr (y ∷ ns)) (y ∷ ns) v.1 (has-last_ptr y ns) in
      elim (Bool-cases (n.entered == n.read)) [
        | inl idle ↦
            let (h, runs, holds) =
              cleanup_walk S k (y ∷ ns) (stepped p n (head_ptr (y ∷ ns)) w) off unlocked refl v.3
                (Holds-without p n (y ∷ ns) w v.1 held) (omega arith) in
            (
              h,
              walk-continue (last_ptr (y ∷ ns)) (cleanup_step S) k tt w p v.0 on e
                    (cleanup_step-free S p n v.2 (head_ptr (y ∷ ns)) w off unlocked e idle)
                  ∙ runs
                  ∙ rw idle (
                      trimmed-stepped h p n (removed (y ∷ ns)) (head_ptr (y ∷ ns)) (kept (y ∷ ns))
                        w),
              rw idle holds,
            )
        | inr busy ↦ (
          w.heap,
          walk-break (last_ptr (y ∷ ns)) (cleanup_step S) k tt w p v.0 on e
                (cleanup_step-break S p n (head_ptr (y ∷ ns)) w e busy)
              ∙ rw busy (ap (ok tt) (Trims-none w ((p, n) ∷ y ∷ ns) first)),
          rw busy held,
        )
      ]
