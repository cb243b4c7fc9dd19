-- ===== src/EventQueue/Invariant/ExtendKeeps.antt =====
-- `extend` keeps the invariant, and appends all items of its iterator.
use lockless_event_queue.Base.{
  ℕ, zero, suc, ◌+◌, ◌-◌, ◌^◌, ◌<◌, ◌≡◌, sym, ap, subst, ◌∙◌, false, ◌&&◌, some, List, [], ◌∷◌,
  ◌++◌, arith, ltb, length, take, drop, Bool-cases, inl, inr, take-append-drop, List-cases,
  length-drop, length-take,
}
use mathlib.Core.List.{append_assoc, append-nil}
use lockless_event_queue.DynamicChunk.{Ptr, null}
use lockless_event_queue.Heap
use lockless_event_queue.Heap.{Heap, Allocates}
use lockless_event_queue.Node.{Node, IsNode, chunk_of, snoc}
use lockless_event_queue.Node.Methods.{filled, verdict, extend-chunk_of, push_unchecked-chunk_of}
use lockless_event_queue.Chain.{Chain}
use lockless_event_queue.World.{World, ok}
use lockless_event_queue.World.Commands.{load-ok, store-ok}
use lockless_event_queue.EventQueue.Settings.{Settings}
use lockless_event_queue.EventQueue.Push.{add_chunk, extend_node, push_node, extend_rounds, extend}
use lockless_event_queue.EventQueue.Invariant.{IsFit, IsQueue, Evolves}
use lockless_event_queue.EventQueue.Invariant.CleanupKeeps.{tidied}
use lockless_event_queue.EventQueue.Invariant.Snoc.{unsnoc}
use lockless_event_queue.EventQueue.Invariant.AddChunkKeeps.{last_node, next_node}
use lockless_event_queue.EventQueue.Invariant.RefillKeeps.{Evolves-trans, rewritten, refill-Evolves}
use lockless_event_queue.EventQueue.Invariant.GrowKeeps.{IdsUpTo-last, add_chunk-Evolves}

module _ {T : Type 0} (alloc : Heap T → Ptr) (S : Settings) (w : World T) (n : Node T)
    (v : IsNode n) (holds : Heap.read w.list.last w.heap ≡ some (chunk_of n null)) where
  extend_node-ok :
      (iter : List T)
      → extend_node alloc S w.list.last iter w
        ≡ ok (verdict n iter, drop (n.cap - length n.items) iter) (rewritten (filled n iter) w)
  unfolding extend_node
  extend_node-ok iter =
      rw (load-ok w.list.last w holds, extend-chunk_of v null iter)
        (rw (store-ok w.list.last w holds (chunk_of (filled n iter) null)))

  push_node-ok :
      (x : T)
      → length n.items < n.cap
      → push_node alloc S w.list.last x w ≡ ok tt (rewritten (snoc n x) w)
  unfolding push_node
  push_node-ok x room =
      rw (load-ok w.list.last w holds, push_unchecked-chunk_of v null x room)
        (store-ok w.list.last w holds (chunk_of (snoc n x) null))

  -- A round that ends the loop.
  round-last :
      (fuel : ℕ) (iter : List T)
      → drop (n.cap - length n.items) iter ≡ []
      → extend_rounds alloc S (suc fuel) w.list.last iter w ≡ ok tt (rewritten (filled n iter) w)
  unfolding extend_rounds
  round-last fuel iter empty = elim (Bool-cases (ltb (length n.items + length iter) n.cap)) [
    | inl e ↦ rw (extend_node-ok iter) (rw e)
    | inr e ↦ rw (extend_node-ok iter) (rw (e, empty))
  ]

module _ {T : Type 0} (alloc : Heap T → Ptr) (S : Settings) (w : World T) (n : Node T)
    (v : IsNode n) (holds : Heap.read w.list.last w.heap ≡ some (chunk_of n null)) (iter : List T)
    (value : T) (rest : List T) (more : drop (n.cap - length n.items) iter ≡ value ∷ rest)
    (w' : World T) (m : Node T)
    (adds : add_chunk alloc S (rewritten (filled n iter) w) ≡ ok w'.list.last w') (u : IsNode m)
    (held : Heap.read w'.list.last w'.heap ≡ some (chunk_of m null))
    (room : length m.items < m.cap) where
  -- A round that goes on in a new chunk.
  round-more :
      (fuel : ℕ)
      → extend_rounds alloc S (suc fuel) w.list.last iter w
        ≡ extend_rounds alloc S fuel w'.list.last rest (rewritten (snoc m value) w')
  unfolding extend_rounds
  round-more fuel =
      let full : ltb (length n.items + length iter) n.cap ≡ false =
        ground (arith, ap length more, length-drop (n.cap - length n.items) iter) in
      rw (extend_node-ok alloc S w n v holds iter)
        (rw (full, more, adds, push_node-ok alloc S w' m u held value room))

-- A run of the rounds on `iter` to a world where its items are behind all others.
abbrev Rounds :
    {T : Type 0} → (Heap T → Ptr) → Settings → ℕ → World T → ℕ → Chain T → List T → Type 0
Rounds {T} alloc S e w fuel ns iter =
    (w' : World T) × (ns' : Chain T) × (extend_rounds alloc S fuel w.list.last iter w ≡ ok tt w')
    × Evolves S e ns ns' iter w w'

module _ {T : Type 0} (alloc : Heap T → Ptr) (allocates : Allocates alloc) (S : Settings)
    (off : S.double_buffering ≡ false) (fit : IsFit S) {e : ℕ} where
  module _ (w : World T) (xs : Chain T) (p : Ptr) (n : Node T)
      (q : IsQueue S e (xs ++ (p, n) ∷ []) w) (iter : List T) where
    filled-Evolves :
        Evolves S e
          (xs ++ (p, n) ∷ [])
          (xs ++ (p, filled n iter) ∷ [])
          (take (n.cap - length n.items) iter)
          w
          (rewritten (filled n iter) w)
    filled-Evolves =
        refill-Evolves xs p n (take (n.cap - length n.items) iter) q (
          omega (arith, (last_node S e w xs p n q).node, length-take (n.cap - length n.items) iter))

    Rounds-last :
        (fuel : ℕ)
        → drop (n.cap - length n.items) iter ≡ []
        → Rounds alloc S e w (suc fuel) (xs ++ (p, n) ∷ []) iter
    Rounds-last fuel empty =
        let l = last_node S e w xs p n q in
        (
          rewritten (filled n iter) w,
          xs ++ (p, filled n iter) ∷ [],
          round-last alloc S w n l.node l.holds fuel iter empty,
          subst
              (λ added.
                Evolves S e (xs ++ (p, n) ∷ []) (xs ++ (p, filled n iter) ∷ []) added w
                  (rewritten (filled n iter) w))
              (sym (append-nil _)
                ∙ ap (λ r. take (n.cap - length n.items) iter ++ r) (sym empty)
                ∙ take-append-drop (n.cap - length n.items) iter)
              filled-Evolves,
        )

-- What `fuel` rounds are to do with a list that ends in a named node.
abbrev Goes : {T : Type 0} → (Heap T → Ptr) → Settings → ℕ → ℕ → List T → Type 0
Goes {T} alloc S e fuel iter =
    (w : World T) (xs : Chain T) (p : Ptr) (n : Node T)
    → IsQueue S e (xs ++ (p, n) ∷ []) w
    → (S.lock_on_new_chunk_cleanup && w.list_lock) ≡ false
    → w.list.chunk_id_counter + length iter < 2 ^ 64
    → Rounds alloc S e w fuel (xs ++ (p, n) ∷ []) iter

module _ {T : Type 0} (alloc : Heap T → Ptr) (allocates : Allocates alloc) (S : Settings)
    (off : S.double_buffering ≡ false) (fit : IsFit S) {e : ℕ} where
  Rounds-more :
      (fuel : ℕ) (iter : List T) (value : T) (rest : List T) (w : World T) (xs : Chain T) (p : Ptr)
      (n : Node T)
      → IsQueue S e (xs ++ (p, n) ∷ []) w
      → (S.lock_on_new_chunk_cleanup && w.list_lock) ≡ false
      → w.list.chunk_id_counter + length iter < 2 ^ 64
      → drop (n.cap - length n.items) iter ≡ value ∷ rest
      → Goes alloc S e fuel rest
      → Rounds alloc S e w (suc fuel) (xs ++ (p, n) ∷ []) iter
  Rounds-more fuel iter value rest w xs p n q free ids more goes =
      let l = last_node S e w xs p n q in
      let fills = filled-Evolves alloc allocates S off fit w xs p n q iter in
      let count = ap length more in
      let few = length-drop (n.cap - length n.items) iter in
      let (w', c, adds, size, grows) =
        add_chunk-Evolves alloc allocates S off fit xs p (filled n iter) fills.queue free
          (omega (arith, ids, count, few)) in
      let (lo, hi, grown) = grows in
      let ys = tidied S (xs ++ (p, filled n iter) ∷ []) in
      let m = next_node w e size in
      let k = last_node S e w' ys c m grown.queue in
      let puts = refill-Evolves ys c m (value ∷ []) grown.queue (omega (arith, lo, fit)) in
      let counter = IdsUpTo-last w'.list.chunk_id_counter ys c m grown.queue.ids in
      let (w'', zs, runs, after) =
        goes (rewritten (snoc m value) w') ys c (snoc m value) puts.queue
          (ap (λ b. S.lock_on_new_chunk_cleanup && b) grown.list_lock ∙ free)
          (omega (arith, ids, counter, count, few)) in
      (
        w'',
        zs,
        round-more alloc S w n l.node l.holds iter value rest more w' m
              (subst (λ r. add_chunk alloc S (rewritten (filled n iter) w) ≡ ok r w') (sym k.at)
                adds)
              k.node k.holds (omega (arith, lo, fit)) fuel
            ∙ runs,
        subst (λ added. Evolves S e (xs ++ (p, n) ∷ []) zs added w w'')
            (append_assoc (take (n.cap - length n.items) iter) (value ∷ []) rest
              ∙ ap (λ r. take (n.cap - length n.items) iter ++ r) (sym more)
              ∙ take-append-drop (n.cap - length n.items) iter)
            (Evolves-trans (Evolves-trans fills (Evolves-trans grown puts)) after),
      )

  rounds-Evolves : (fuel : ℕ) (iter : List T) → length iter < fuel → Goes alloc S e fuel iter
  rounds-Evolves zero iter enough w xs p n q free ids = absurd (omega arith)
  rounds-Evolves (suc fuel) iter enough w xs p n q free ids =
      elim (List-cases (drop (n.cap - length n.items) iter)) [
        | inl empty ↦ Rounds-last alloc allocates S off fit w xs p n q iter fuel empty
        | inr (value, rest, more) ↦ Rounds-more fuel iter value rest w xs p n q free ids more (
            rounds-Evolves fuel rest
              (omega (arith, ap length more, length-drop (n.cap - length n.items) iter)))
      ]

  -- Under the conditions of `push` for any settings that fit, with as many chunk ids left as the
  -- iterator has items, the loop of `extend` ends with the rounds that the length of the iterator
  -- gives it, keeps the queue well formed, and puts all items of the iterator, in order, behind
  -- the items dropped so far and those in the queue, of which it loses none. Every reader stays
  -- where it is, in chunks that count it, and has as much to read as before, with these items
  -- behind it.
  pub extend-Evolves :
      (ns : Chain T) (iter : List T) (w : World T)
      → IsQueue S e ns w
      → (S.lock_on_new_chunk_cleanup && w.list_lock) ≡ false
      → w.list.chunk_id_counter + length iter < 2 ^ 64
      → (w' : World T) × (ns' : Chain T) × (extend alloc S iter w ≡ ok tt w')
        × Evolves S e ns ns' iter w w'
  unfolding extend
  extend-Evolves ns iter w q free ids =
      let (xs, p, n, shape) = unsnoc ns q.nonempty in
      subst (λ ms. Rounds alloc S e w (suc (length iter)) ms iter) (sym shape)
        (rounds-Evolves (suc (length iter)) iter (omega arith) w xs p n
          (subst (λ ms. IsQueue S e ms w) shape q) free ids)
