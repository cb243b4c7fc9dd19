-- ===== src/EventQueue/Invariant/PushKeeps.antt =====
-- `push` keeps the invariant, and appends its item.
use lockless_event_queue.Base.{
  ℕ, ◌+◌, ◌%◌, ◌^◌, ◌≤◌, ◌<◌, ◌≡◌, sym, ap, subst, ◌∙◌, false, true, ◌&&◌, some, [], ◌∷◌, ◌++◌,
  arith, ◌==◌, length, ==_ne,
}
use native.Mathlib.Decide.{dec_lt}
use lockless_event_queue.ChunkState.Fields.{word}
use lockless_event_queue.DynamicChunk
use lockless_event_queue.DynamicChunk.{Ptr, null, DynamicChunk}
use lockless_event_queue.Heap
use lockless_event_queue.Heap.{Heap, Allocates}
use lockless_event_queue.Node.{
  Node, IsNode, node_state, chunk_of, fresh, snoc, len-chunk_of, push_at-chunk_of,
}
use lockless_event_queue.Chain.{Chain}
use lockless_event_queue.World.{World, ok}
use lockless_event_queue.World.Commands.{load-ok, store-ok}
use lockless_event_queue.EventQueue.Settings.{Settings}
use lockless_event_queue.EventQueue.Push.{add_chunk, push}
use lockless_event_queue.EventQueue.Invariant.{IsFit, IsQueue, Evolves}
use lockless_event_queue.EventQueue.Invariant.CleanupKeeps.{tidied}
use lockless_event_queue.EventQueue.Invariant.Snoc.{unsnoc}
use lockless_event_queue.EventQueue.Invariant.AddChunkKeeps.{last_node, next_node}
use lockless_event_queue.EventQueue.Invariant.RefillKeeps.{Evolves-trans, rewritten, refill-Evolves}
use lockless_event_queue.EventQueue.Invariant.GrowKeeps.{add_chunk-Evolves}

module _ {T : Type 0} (alloc : Heap T → Ptr) (S : Settings) (w : World T) (n : Node T)
    (v : IsNode n) (holds : Heap.read w.list.last w.heap ≡ some (chunk_of n null)) (x : T) where
  -- With room in the last chunk.
  push-room : length n.items < n.cap → push alloc S x w ≡ ok tt (rewritten (snoc n x) w)
  unfolding push chunk_of
  push-room room =
      rw
        (
          load-ok w.list.last w holds,
          len-chunk_of v null,
          ==_ne (length n.items) (n.cap % 2 ^ 32) (omega (arith, v, room)),
          push_at-chunk_of v null x (length n.items) (omega (arith, v, room)) room,
        )
        (store-ok w.list.last w holds (chunk_of (snoc n x) null))

  first_push :
      (id size e : ℕ)
      → n.epoch ≡ e
      → 0 < size
      → size < 2 ^ 32
      → DynamicChunk.push_at (chunk_of (fresh id size e) null) x 0 (node_state n null)
        ≡ some (chunk_of (snoc (fresh id size e) x) null)
  first_push id size e same positive small =
      ap
        (λ k.
          DynamicChunk.push_at (chunk_of (fresh id size e) null) x 0 (word (length n.items) 0 k))
        same
      ∙ push_at-chunk_of
          (record {
            items_fit = omega arith;
            cap_small = small;
            epoch_small = subst (λ (k : ℕ). k < 2 ^ 31) same v.epoch_small;
          })
          null x (length n.items) (omega (arith, v)) positive

  -- With a full last chunk: the new chunk takes the item, with the flag and epoch of the old one.
  push-full :
      (w' : World T) (id size e : ℕ)
      → n.cap ≤ length n.items
      → add_chunk alloc S w ≡ ok w'.list.last w'
      → n.epoch ≡ e
      → 0 < size
      → size < 2 ^ 32
      → Heap.read w'.list.last w'.heap ≡ some (chunk_of (fresh id size e) null)
      → push alloc S x w ≡ ok tt (rewritten (snoc (fresh id size e) x) w')
  unfolding push chunk_of
  push-full w' id size e full adds same positive small held =
      let filled : (length n.items == n.cap % 2 ^ 32) ≡ true = ground (arith, v, full) in
      rw
        (
          load-ok w.list.last w holds,
          len-chunk_of v null,
          filled,
          adds,
          load-ok w'.list.last w' held,
          first_push id size e same positive small,
        )
        (store-ok w'.list.last w' held (chunk_of (snoc (fresh id size e) x) null))

-- A run of `push x` from `w`, with the list `ns`, to a world where `x` is behind all other items.
abbrev Pushes : {T : Type 0} → (Heap T → Ptr) → Settings → ℕ → World T → T → Chain T → Type 0
Pushes {T} alloc S e w x ns =
    (w' : World T) × (ns' : Chain T) × (push alloc S x w ≡ ok tt w')
    × Evolves S e ns ns' (x ∷ []) w w'

module _ {T : Type 0} (alloc : Heap T → Ptr) (allocates : Allocates alloc) (S : Settings)
    (off : S.double_buffering ≡ false) (fit : IsFit S) {e : ℕ} {w : World T} where
  push_last :
      (xs : Chain T) (p : Ptr) (n : Node T) (x : T)
      → IsQueue S e (xs ++ (p, n) ∷ []) w
      → (S.lock_on_new_chunk_cleanup && w.list_lock) ≡ false
      → w.list.chunk_id_counter + 1 < 2 ^ 64
      → Pushes alloc S e w x (xs ++ (p, n) ∷ [])
  push_last xs p n x q free ids =
      let l = last_node S e w xs p n q in
      elim (dec_lt (length n.items) n.cap) [
        | yes room ↦ (
          rewritten (snoc n x) w,
          xs ++ (p, snoc n x) ∷ [],
          push-room alloc S w n l.node l.holds x room,
          refill-Evolves xs p n (x ∷ []) q (omega (arith, room)),
        )
        | no full ↦
            let (w', c, adds, size, grows) =
              add_chunk-Evolves alloc allocates S off fit xs p n q free ids in
            let (lo, hi, grown) = grows in
            let ys = tidied S (xs ++ (p, n) ∷ []) in
            let k = last_node S e w' ys c (next_node w e size) grown.queue in
            (
              rewritten (snoc (next_node w e size) x) w',
              ys ++ (c, snoc (next_node w e size) x) ∷ [],
              push-full alloc S w n l.node l.holds x w' (next_node w e size).id size e
                  (omega (arith, full)) (subst (λ r. add_chunk alloc S w ≡ ok r w') (sym k.at) adds)
                  l.epoch (omega (arith, lo, fit)) (omega (arith, hi, fit)) k.holds,
              Evolves-trans grown (
                  refill-Evolves ys c (next_node w e size) (x ∷ []) grown.queue
                    (omega (arith, lo, fit))),
            )
      ]

  -- Without the cargo feature, for any settings that fit, on a well-formed queue, with a chunk id
  -- left to give, and with the list not locked if the settings lock it for the cleanup on a new
  -- chunk, `push` runs to its end, keeps the queue well formed, and puts the item behind the items
  -- dropped so far and those in the queue, of which it loses none. Every reader stays where it is,
  -- in chunks that count it, and has as much to read as before, with the item behind it.
  pub push-Evolves :
      (ns : Chain T) (x : T)
      → IsQueue S e ns w
      → (S.lock_on_new_chunk_cleanup && w.list_lock) ≡ false
      → w.list.chunk_id_counter + 1 < 2 ^ 64
      → (w' : World T) × (ns' : Chain T) × (push alloc S x w ≡ ok tt w')
        × Evolves S e ns ns' (x ∷ []) w w'
  push-Evolves ns x q free ids =
      let (xs, p, n, shape) = unsnoc ns q.nonempty in
      subst (Pushes alloc S e w x) (sym shape)
        (push_last xs p n x (subst (λ ms. IsQueue S e ms w) shape q) free ids)
