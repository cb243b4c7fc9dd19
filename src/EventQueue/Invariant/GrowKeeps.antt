-- ===== src/EventQueue/Invariant/GrowKeeps.antt =====
-- `add_chunk` and `change_chunk_capacity` keep the invariant.
use lockless_event_queue.Base.{
  ℕ, ◌+◌, ◌^◌, ◌≤◌, ◌<◌, ◌≡◌, refl, sym, ap, subst, ◌∙◌, false, true, ◌&&◌, some, [], ◌∷◌, ◌++◌,
  arith, ◌==◌, Bool-cases, inl, inr, if_true, if_false,
}
use lockless_event_queue.DynamicChunk
use lockless_event_queue.DynamicChunk.{Ptr, null, DynamicChunk}
use lockless_event_queue.Heap
use lockless_event_queue.Heap.{Heap, Allocates}
use lockless_event_queue.Node.{Node, chunk_of, fresh}
use lockless_event_queue.Chain.{Chain}
use lockless_event_queue.World.{World, ListState, ok, halt, panic}
use lockless_event_queue.World.Commands.{load-ok}
use lockless_event_queue.EventQueue.Settings.{Settings, is_on_new_chunk, size_allowed}
use lockless_event_queue.EventQueue.Cleanup.InOrder.{kept}
use lockless_event_queue.EventQueue.Push.{
  on_new_chunk_cleanup, add_chunk_sized, next_size, add_chunk, change_chunk_capacity,
}
use lockless_event_queue.EventQueue.Invariant.{IsFit, IdsUpTo, IsQueue, Evolves}
use lockless_event_queue.EventQueue.Invariant.CleanupKeeps.{tidied, on_new_chunk_cleanup-Evolves}
use lockless_event_queue.EventQueue.Invariant.Snoc.{unsnoc}
use lockless_event_queue.EventQueue.Invariant.AddChunkKeeps.{
  LastNode, last_node, next_node, add_chunk_sized-Evolves,
}
use lockless_event_queue.EventQueue.Invariant.RefillKeeps.{Evolves-trans}

module _ {T : Type 0} where
  pub IdsUpTo-last :
      (k : ℕ) (xs : Chain T) (p : Ptr) (n : Node T) → IdsUpTo k (xs ++ (p, n) ∷ []) → n.id ≡ k
  IdsUpTo-last k [] p n h = h
  IdsUpTo-last k (x ∷ []) p n h = h.1
  IdsUpTo-last k (x ∷ y ∷ xs) p n h = IdsUpTo-last k (y ∷ xs) p n h.1

  -- A cleanup keeps the last node.
  kept-snoc :
      (xs : Chain T) (p : Ptr) (n : Node T)
      → (ys : Chain T) × (kept (xs ++ (p, n) ∷ []) ≡ ys ++ (p, n) ∷ [])
  kept-snoc [] p n = ([], refl)
  kept-snoc ((q, m) ∷ []) p n = elim (Bool-cases (m.entered == m.read)) [
    | inl e ↦ ([], rw e)
    | inr e ↦ ((q, m) ∷ [], rw e)
  ]
  kept-snoc ((q, m) ∷ y ∷ xs) p n =
      let (ys, f) = kept-snoc (y ∷ xs) p n in
      elim (Bool-cases (m.entered == m.read)) [
        | inl e ↦ (ys, rw e f)
        | inr e ↦ ((q, m) ∷ y ∷ xs, rw e)
      ]

  pub tidied-snoc :
      (S : Settings) (xs : Chain T) (p : Ptr) (n : Node T)
      → (ys : Chain T) × (tidied S (xs ++ (p, n) ∷ []) ≡ ys ++ (p, n) ∷ [])
  tidied-snoc S xs p n = elim (Bool-cases (is_on_new_chunk S.cleanup)) [
    | inl e ↦ let (ys, f) = kept-snoc xs p n in (ys, if_true _ _ e ∙ f)
    | inr e ↦ (xs, if_false _ _ e)
  ]

module _ {T : Type 0} (alloc : Heap T → Ptr) (S : Settings) (fit : IsFit S) where
  -- The size pattern stays between the bounds of the settings.
  next_size-bounds :
      (l : ListState) (n : Node T)
      → S.min_chunk_size ≤ n.cap
      → n.cap ≤ S.max_chunk_size
      → (S.min_chunk_size ≤ next_size alloc S l (chunk_of n null))
        × (next_size alloc S l (chunk_of n null) ≤ S.max_chunk_size)
  unfolding chunk_of
  next_size-bounds l n lo hi = ground (arith, fit)

module _ {T : Type 0} (alloc : Heap T → Ptr) (allocates : Allocates alloc) (S : Settings)
    (off : S.double_buffering ≡ false) (fit : IsFit S) {e : ℕ} {w : World T} (ns : Chain T)
    (q : IsQueue S e ns w) (free : (S.lock_on_new_chunk_cleanup && w.list_lock) ≡ false)
    (room : w.list.chunk_id_counter + 1 < 2 ^ 64) where
  -- A cleanup, if the mode asks for one, and an empty chunk behind what is left.
  abbrev pub Grows : World T → Ptr → ℕ → Type 0
  Grows w' c size =
      (S.min_chunk_size ≤ size)
      × (size ≤ S.max_chunk_size)
      × Evolves S e ns (tidied S ns ++ (c, next_node w e size) ∷ []) [] w w'

  grow :
      (size : World T → ℕ)
      → ((v : World T)
          → Evolves S e ns (tidied S ns) [] w v
          → (S.min_chunk_size ≤ size v) × (size v ≤ S.max_chunk_size))
      → (v : World T) × (on_new_chunk_cleanup S w ≡ ok tt v)
        × Evolves S e ns (tidied S ns) [] w v
        × (w' : World T) × (add_chunk_sized alloc S (size v) v ≡ ok (alloc v.heap) w')
        × Grows w' (alloc v.heap) (size v)
  grow size bounds =
      let (v, cleans, before) = on_new_chunk_cleanup-Evolves S off q free in
      let (lo, hi) = bounds v before in
      let same = counter v before in
      let (w', adds, after) =
        add_chunk_sized-Evolves alloc allocates S off fit (tidied S ns) (size v) before.queue lo hi
          (omega (arith, same, room)) in
      (
        v,
        cleans,
        before,
        w',
        adds,
        (
          lo,
          hi,
          subst
              (λ k.
                Evolves S e ns
                  (tidied S ns
                    ++ (alloc v.heap, fresh (DynamicChunk.add_usize k 1) (size v) e) ∷ [])
                  [] w w')
              same (Evolves-trans before after),
        ),
      )
    where
      counter :
          (v : World T)
          → Evolves S e ns (tidied S ns) [] w v
          → v.list.chunk_id_counter ≡ w.list.chunk_id_counter
      counter v before =
          let (xs, p, n, shape) = unsnoc ns q.nonempty in
          let (ys, shape') = tidied-snoc S xs p n in
          let a =
            IdsUpTo-last w.list.chunk_id_counter xs p n
              (subst (IdsUpTo w.list.chunk_id_counter) shape q.ids) in
          let b = IdsUpTo-last v.list.chunk_id_counter ys p n (
            subst (IdsUpTo v.list.chunk_id_counter) (ap (tidied S) shape ∙ shape')
              before.queue.ids) in
          sym b ∙ a

  -- `change_chunk_capacity` adds a chunk of the size it is given, if the settings allow it.
  pub change_chunk_capacity-Evolves :
      (size : ℕ)
      → size_allowed S size ≡ true
      → (w' : World T) × (change_chunk_capacity alloc S size w ≡ ok tt w')
        × (c : Ptr) × Grows w' c size
  unfolding change_chunk_capacity
  change_chunk_capacity-Evolves size allowed =
      let (v, cleans, before, w', adds, grows) =
        grow (λ _. size) (λ _ _. ground (arith, allowed)) in
      (w', rw (allowed, cleans, adds), alloc v.heap, grows)

module _ {T : Type 0} (alloc : Heap T → Ptr) (S : Settings) (w : World T) {v w' : World T}
    (n : Node T) {c : Ptr} (cleans : on_new_chunk_cleanup S w ≡ ok tt v)
    (same : v.list.last ≡ w.list.last)
    (holds : Heap.read v.list.last v.heap ≡ some (chunk_of n null))
    (adds : add_chunk_sized alloc S (next_size alloc S v.list (chunk_of n null)) v ≡ ok c w') where
  add_chunk-runs : add_chunk alloc S w ≡ ok c w'
  unfolding add_chunk
  add_chunk-runs = rw (cleans, sym same, load-ok v.list.last v holds, adds)

module _ {T : Type 0} (alloc : Heap T → Ptr) (allocates : Allocates alloc) (S : Settings)
    (off : S.double_buffering ≡ false) (fit : IsFit S) {e : ℕ} {w : World T} (xs : Chain T)
    (p : Ptr) (n : Node T) (q : IsQueue S e (xs ++ (p, n) ∷ []) w)
    (free : (S.lock_on_new_chunk_cleanup && w.list_lock) ≡ false)
    (room : w.list.chunk_id_counter + 1 < 2 ^ 64) where
  tidied_last :
      (v : World T)
      → Evolves S e (xs ++ (p, n) ∷ []) (tidied S (xs ++ (p, n) ∷ [])) [] w v
      → (ys : Chain T) × LastNode S e v ys p n
  tidied_last v before =
      let (ys, shape) = tidied-snoc S xs p n in
      (ys, last_node S e v ys p n (subst (λ ms. IsQueue S e ms v) shape before.queue))

  -- `add_chunk` adds a chunk of a size between the bounds.
  pub add_chunk-Evolves :
      (w' : World T) × (c : Ptr) × (add_chunk alloc S w ≡ ok c w')
      × (size : ℕ) × Grows alloc allocates S off fit (xs ++ (p, n) ∷ []) q free room w' c size
  add_chunk-Evolves =
      let (v, cleans, before, w', adds, grows) =
        grow alloc allocates S off fit (xs ++ (p, n) ∷ []) q free room
          (λ v. next_size alloc S v.list (chunk_of n null))
          (λ v before.
            let l = (tidied_last v before).1 in
            next_size-bounds alloc S fit v.list n l.least l.most) in
      let l = (tidied_last v before).1 in
      (
        w',
        alloc v.heap,
        add_chunk-runs alloc S w n cleans (l.at ∙ sym (last_node S e w xs p n q).at) l.holds adds,
        next_size alloc S v.list (chunk_of n null),
        grows,
      )

module _ {T : Type 0} (alloc : Heap T → Ptr) (S : Settings) where
  pub change_chunk_capacity-refuses :
      (size : ℕ) → size_allowed S size ≡ false → change_chunk_capacity alloc S size ≡ halt panic
  unfolding change_chunk_capacity
  change_chunk_capacity-refuses size refused = if_false _ _ refused
