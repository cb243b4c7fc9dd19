-- ===== src/EventQueue/Start/Collect.antt =====
-- The array of chunks that `truncate_front` of src/event_queue.rs makes, and its loop over it from
-- the end, on a list that fits the array.
use lockless_event_queue.Base.{
  ℕ, zero, suc, ◌+◌, ◌*◌, ◌^◌, ◌%◌, ◌<◌, ◌≤◌, ◌≡◌, refl, sym, ap, subst, ◌∙◌, leb, Option, none,
  some, [], ◌∷◌, ◌++◌, arith, length, ==_ne, Bool-cases, inl, inr, length-append,
}
use mathlib.Core.List.{append-nil, append_assoc}
use lockless_event_queue.DynamicChunk.{null}
use lockless_event_queue.Node.{next-chunk_of, state-chunk_of, len-chunk_of}
use lockless_event_queue.Chain.{Chain, head_ptr, IsChain, Holds, length-le-heap}
use lockless_event_queue.Chain.Append.{IsChain-middle, IsChain-from}
use lockless_event_queue.Chain.Ids.{held_at}
use lockless_event_queue.Represents.{Represents}
use lockless_event_queue.World.{World, Cursor, Run, ok}
use lockless_event_queue.World.Commands.{load-ok}
use lockless_event_queue.EventQueue.Settings.{Settings}
use lockless_event_queue.EventQueue.Foreach.{walk, foreach_chunk_ptr_mut}
use lockless_event_queue.EventQueue.Foreach.Walk.{walk-continue, walk-null}
use lockless_event_queue.EventQueue.Cleanup.InOrder.{contents}
use lockless_event_queue.EventQueue.Start.{
  collect_step, chunks_len, truncate_at, truncate_loop, truncate_front,
}
use lockless_event_queue.EventQueue.Start.Truncate.{collect_step-room}
use lockless_event_queue.EventQueue.Start.Cut.{cut}
use lockless_event_queue.Attendance.Split.{addresses}

module _ {T : Type 0} where
  -- The first list from its end on, before the second.
  abbrev back_onto : Chain T → Chain T → Chain T
  back_onto [] ys = ys
  back_onto (x ∷ xs) ys = back_onto xs (x ∷ ys)

  back_onto-append : (xs ys zs : Chain T) → back_onto xs (ys ++ zs) ≡ back_onto xs ys ++ zs
  back_onto-append [] ys zs = refl
  back_onto-append (x ∷ xs) ys zs = back_onto-append xs (x ∷ ys) zs

  back_onto-twice : (xs ys zs : Chain T) → back_onto (back_onto xs ys) zs ≡ back_onto ys (xs ++ zs)
  back_onto-twice [] ys zs = refl
  back_onto-twice (x ∷ xs) ys zs = back_onto-twice xs (x ∷ ys) zs

  length-back_onto : (xs ys : Chain T) → length (back_onto xs ys) ≡ length xs + length ys
  length-back_onto [] ys = omega arith
  length-back_onto (x ∷ xs) ys = omega (arith, length-back_onto xs (x ∷ ys))

  -- A chunk holds fewer than 2^32 items.
  length-contents : (ns : Chain T) → IsChain ns → length (contents ns) ≤ length ns * 2 ^ 32
  length-contents [] v = omega arith
  length-contents ((p, n) ∷ ns) v =
      omega (arith, v.2, length-contents ns v.3, length-append n.items (contents ns))

  cut-further :
      (len : ℕ) (xs ys : Chain T) (c : Cursor)
      → cut len ys ≡ some c
      → cut len (back_onto xs ys) ≡ some c
  cut-further len [] ys c e = e
  cut-further len ((p, n) ∷ xs) ys c e = cut-further len xs ((p, n) ∷ ys) c (ground (arith, e))

  module _ (w : World T) where
    collects :
        (k : ℕ) (xs ys rs : Chain T)
        → IsChain (xs ++ ys)
        → Holds w.heap (xs ++ ys)
        → length ys < k
        → length rs + length ys ≤ chunks_len
        → walk null collect_step k (head_ptr ys) (length rs, addresses rs) w
          ≡ ok (length rs + length ys, addresses (back_onto ys rs)) w
    collects zero xs ys rs chain held fuel few = absurd (omega arith)
    collects (suc k) xs [] rs chain held fuel few =
        walk-null null collect_step k (length rs, addresses rs) w
        ∙ ap (λ (i : ℕ). ok (i, addresses rs) w) (omega arith)
    collects (suc k) xs ((p, n) ∷ ys) rs chain held fuel few =
        let (ne, out, _, _) = IsChain-middle xs p n ys chain in
        let here = held_at w.heap xs p n ys chain held in
        let i : length rs + 1 ≡ suc (length rs) = omega arith in
        walk-continue null collect_step k (length rs, addresses rs) w p ne (==_ne p null ne) here
          (collect_step-room w (length rs) (addresses rs) p (omega (arith, few)))
        ∙ ap (λ q. walk null collect_step k q (length rs + 1, p ∷ addresses rs) w)
            (next-chunk_of n (head_ptr ys))
        ∙ ap (λ (j : ℕ). walk null collect_step k (head_ptr ys) (j, p ∷ addresses rs) w) i
        ∙ collects k (xs ++ (p, n) ∷ []) ys ((p, n) ∷ rs)
            (subst IsChain (sym (append_assoc xs ((p, n) ∷ []) ys)) chain)
            (subst (Holds w.heap) (sym (append_assoc xs ((p, n) ∷ []) ys)) held) (omega arith)
            (omega (arith, few))
        ∙ ap (λ (j : ℕ). ok (j, addresses (back_onto ys ((p, n) ∷ rs))) w) (omega arith)

    -- What is done at the place that the loop finds.
    abbrev pub at_cut : Settings → Option Cursor → Run T (Unit {0})
    at_cut S none = ok tt w
    at_cut S (some c) = truncate_at S c w

    loops :
        (S : Settings) (len : ℕ) (rs ys : Chain T)
        → IsChain (back_onto rs ys)
        → Holds w.heap (back_onto rs ys)
        → length rs + length ys ≤ chunks_len
        → cut len ys ≡ none
        → truncate_loop S len (length (contents ys)) (addresses rs) w
          ≡ at_cut S (cut len (back_onto rs ys))
    unfolding truncate_loop
    loops S len [] ys chain held few absent = ap (at_cut S) (sym absent)
    loops S len ((p, n) ∷ rs) ys chain held few absent =
        let named = back_onto-append rs [] ((p, n) ∷ ys) in
        let chain' = subst IsChain named chain in
        let (ne, out, after, node) = IsChain-middle (back_onto rs []) p n ys chain' in
        let here =
          held_at w.heap (back_onto rs []) p n ys chain' (subst (Holds w.heap) named held) in
        let bound =
          length-contents ((p, n) ∷ ys) (IsChain-from (back_onto rs []) ((p, n) ∷ ys) chain') in
        let sum : (length (contents ys) + length n.items) % 2 ^ 64
            ≡ length n.items + length (contents ys) =
          omega (arith, bound, few, length-append n.items (contents ys)) in
        elim (Bool-cases (leb len (length n.items + length (contents ys)))) [
          | inl found ↦
              rw
                (
                  load-ok p w here,
                  state-chunk_of n (head_ptr ys),
                  len-chunk_of node (head_ptr ys),
                  sum,
                  found,
                )
                (ap (at_cut S) (sym (cut-further len rs ((p, n) ∷ ys) _ (rw (absent, found) refl))))
          | inr short ↦
              rw
                (
                  load-ok p w here,
                  state-chunk_of n (head_ptr ys),
                  len-chunk_of node (head_ptr ys),
                  sum,
                  short,
                )
                (ap (λ (k : ℕ). truncate_loop S len k (addresses rs) w)
                    (sym (length-append n.items (contents ys)))
                  ∙ loops S len rs ((p, n) ∷ ys) chain held (omega (arith, few))
                      (rw (absent, short) refl))
        ]

    -- On a well-formed list of at most 128 chunks.
    pub truncate_front-at_cut :
        (S : Settings) (ns : Chain T) (len : ℕ)
        → Represents w ns
        → length ns ≤ chunks_len
        → truncate_front S len w ≡ at_cut S (cut len ns)
    unfolding truncate_front foreach_chunk_ptr_mut
    truncate_front-at_cut S ns len rep few =
        let rounds = length-le-heap w.heap ns rep.chain rep.held in
        let all : back_onto (back_onto ns []) [] ≡ ns = back_onto-twice ns [] [] ∙ append-nil ns in
        rw
          (ap (λ q. walk null collect_step (suc (length w.heap)) q (0, []) w) rep.first
            ∙ collects (suc (length w.heap)) [] ns [] rep.chain rep.held (omega (arith, rounds))
                (omega (arith, few)))
          (loops S len (back_onto ns []) [] (subst IsChain (sym all) rep.chain)
              (subst (Holds w.heap) (sym all) rep.held) (omega (arith, few, length-back_onto ns []))
              refl
            ∙ ap (λ ks. at_cut S (cut len ks)) all)
