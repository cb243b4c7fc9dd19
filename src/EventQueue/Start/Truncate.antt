-- ===== src/EventQueue/Start/Truncate.antt =====
-- `truncate_front` of src/event_queue.rs on a list that does not fit its array of 128 chunks.
use lockless_event_queue.Base.{
  ℕ, zero, suc, ◌+◌, ◌^◌, ◌%◌, ◌<◌, ◌≤◌, ◌≡◌, sym, ap, subst, ◌∙◌, true, false, List, [], ◌∷◌, ◌++◌,
  arith, ltb, length, ==_ne,
}
use native.Mathlib.Decide.{dec_lt}
use mathlib.Core.List.{append_assoc}
use lockless_event_queue.DynamicChunk.{Ptr, null}
use lockless_event_queue.Node.{next-chunk_of}
use lockless_event_queue.Chain.{Chain, head_ptr, IsChain, Holds, find-middle, length-le-heap}
use lockless_event_queue.Chain.Append.{IsChain-middle}
use lockless_event_queue.Represents.{Represents}
use lockless_event_queue.World.{World, ok, stop, panic}
use lockless_event_queue.EventQueue.Settings.{Settings}
use lockless_event_queue.EventQueue.Foreach.{walk, continue, foreach_chunk_ptr_mut}
use lockless_event_queue.EventQueue.Foreach.Walk.{walk-continue, walk-stop}
use lockless_event_queue.EventQueue.Start.{collect_step, chunks_len, truncate_front}

module _ {T : Type 0} (w : World T) where
  pub collect_step-room :
      (i : ℕ) (chunks : List Ptr) (p : Ptr)
      → i < chunks_len
      → collect_step (i, chunks) p w ≡ ok ((i + 1, p ∷ chunks), continue) w
  unfolding collect_step
  collect_step-room i chunks p room =
      let e : ltb i 128 ≡ true = ground (arith, room) in
      let f : (i + 1) % 2 ^ 64 ≡ i + 1 = omega (arith, room) in rw (e, f)

  collect_step-full :
      (i : ℕ) (chunks : List Ptr) (p : Ptr)
      → chunks_len ≤ i
      → collect_step (i, chunks) p w ≡ stop panic
  unfolding collect_step
  collect_step-full i chunks p full = let e : ltb i 128 ≡ false = ground (arith, full) in rw e

  -- The walk over the rest of a list, with `i` chunks stored.
  collect-panics :
      (k : ℕ) (xs ys : Chain T) (i : ℕ) (chunks : List Ptr)
      → IsChain (xs ++ ys)
      → Holds w.heap (xs ++ ys)
      → length ys < k
      → i ≤ chunks_len
      → chunks_len < i + length ys
      → walk null collect_step k (head_ptr ys) (i, chunks) w ≡ stop panic
  collect-panics zero xs ys i chunks chain held fuel low long = absurd (omega arith)
  collect-panics (suc k) xs [] i chunks chain held fuel low long = absurd (omega arith)
  collect-panics (suc k) xs ((p, n) ∷ ys) i chunks chain held fuel low long =
      let (ne, out, _, _) = IsChain-middle xs p n ys chain in
      let here = held p ∙ find-middle p n xs ys out in
      elim (dec_lt i chunks_len) [
        | yes room ↦
            walk-continue null collect_step k (i, chunks) w p ne (==_ne p null ne) here
              (collect_step-room i chunks p room)
            ∙ ap (λ q. walk null collect_step k q (i + 1, p ∷ chunks) w)
                (next-chunk_of n (head_ptr ys))
            ∙ collect-panics k (xs ++ (p, n) ∷ []) ys (i + 1) (p ∷ chunks)
                (subst IsChain (sym (append_assoc xs ((p, n) ∷ []) ys)) chain)
                (subst (Holds w.heap) (sym (append_assoc xs ((p, n) ∷ []) ys)) held) (omega arith)
                (omega arith) (omega (arith, long))
        | no full ↦
            walk-stop null collect_step k (i, chunks) w p panic ne (==_ne p null ne) here
              (collect_step-full i chunks p (omega (arith, full)))
      ]

  -- On a memory that holds a well-formed list of more than 128 chunks, `truncate_front` panics,
  -- whatever the length asked for and the settings are.
  pub truncate_front-panics :
      (S : Settings) (ns : Chain T) (len : ℕ)
      → Represents w ns
      → 128 < length ns
      → truncate_front S len w ≡ stop panic
  unfolding truncate_front foreach_chunk_ptr_mut
  truncate_front-panics S ns len rep long =
      let few = length-le-heap w.heap ns rep.chain rep.held in
      rw (
        ap (λ q. walk null collect_step (suc (length w.heap)) q (0, []) w) rep.first
        ∙ collect-panics (suc (length w.heap)) [] ns 0 [] rep.chain rep.held (omega (arith, few))
            (omega arith) (omega (arith, long)))
