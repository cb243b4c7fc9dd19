-- ===== src/EventQueue/Invariant/ForceKeeps.antt =====
-- `force_cleanup_impl` of src/event_queue.rs keeps the invariant.
use lockless_event_queue.Base.{
  ℕ, ◌≡◌, refl, sym, ap, subst, ◌∙◌, true, false, Option, none, some, List, [], ◌∷◌, ◌++◌, arith,
  ◌==◌, Bool-cases, inl, inr, if_true, if_false,
}
use mathlib.Core.List.{append-nil}
use lockless_event_queue.DynamicChunk.{Ptr}
use lockless_event_queue.Node.{Node}
use lockless_event_queue.Chain.{Chain, has}
use lockless_event_queue.World.{World, Cursor, Cmd, skip, and_then, ok, unlock_start}
use lockless_event_queue.World.Commands.{lock_start-ok}
use lockless_event_queue.EventQueue.Settings.{Settings}
use lockless_event_queue.EventQueue.Cleanup.{force_cleanup_to, force_cleanup_impl}
use lockless_event_queue.EventQueue.Cleanup.InOrder.{removed, kept, contents, forget_all}
use lockless_event_queue.EventQueue.Cleanup.Sweep.{idle, busy, swept}
use lockless_event_queue.Attendance.{Spot, Attended}
use lockless_event_queue.Attendance.Thin.{Attended-busy}
use lockless_event_queue.Chain.Append.{IsChain-middle}
use lockless_event_queue.EventQueue.Invariant.{StartIn, IsQueue, SameHandles, Evolves}
use lockless_event_queue.EventQueue.Invariant.CleanupKeeps.{Evolves-cleaned}
use lockless_event_queue.EventQueue.Cleanup.Impl.{cleaned, cleanup_impl-ok}
use lockless_event_queue.EventQueue.Invariant.ForceTo.{
  before, forced, gone, split, locked, to-first, to-other, swept-IsQueue,
}

-- What is done under the lock on the start position.
abbrev under_lock : {T : Type 0} → Settings → Option Cursor → Cmd T (Unit {0})
under_lock S none = skip
under_lock S (some c) = force_cleanup_to S c.chunk

-- Every reader stays where it is.
abbrev pub Keeps : {T : Type 0} → World T → Chain T → World T → Chain T → Type 0
Keeps w ns w' ns' =
    (ss : List Spot) → Attended ns w.start_position ss → Attended ns' w'.start_position ss

-- A run of that, and the queue it leaves.
abbrev Forces : {T : Type 0} → Settings → ℕ → World T → Chain T → Option Cursor → Type 0
Forces {T} S e w ns start =
    (w' : World T) × (under_lock S start (locked w) ≡ ok tt w')
    × IsQueue S e (forced start ns) (record w' { start_lock = false })
    × (w'.start_position ≡ start)
    × (w'.dropped ≡ w.dropped ++ contents (gone start ns))
    × SameHandles w w'
    × Keeps w ns w' (forced start ns)

module _ {T : Type 0} (S : Settings) (off : S.double_buffering ≡ false) {e : ℕ} where
  Forces-other :
      (w : World T) (f : Ptr) (k : Node T) (ns : Chain T) (c : Cursor)
      → IsQueue S e ((f, k) ∷ ns) w
      → w.start_position ≡ some c
      → (f == c.chunk) ≡ false
      → Forces S e w ((f, k) ∷ ns) (some c)
  Forces-other w f k ns c q start other =
      let inside : has c.chunk ns ≡ true =
        ground (arith, other, subst (StartIn ((f, k) ∷ ns)) start q.start) in
      let (n, ys, here, all) = split c.chunk ns inside in
      let seg = before c.chunk ns in
      let as_list : (f, k) ∷ ns ≡ (f, k) ∷ (seg ++ (c.chunk, n) ∷ ys) =
        ap (λ r. (f, k) ∷ r) (sym all ∙ ap (λ r. seg ++ r) here) in
      let named = subst (λ ms. IsQueue S e ms w) as_list q in
      let (h, runs, holds, good) = to-other S off w f k c start seg n ys named other in
      (
        swept h (idle seg) (locked w),
        runs,
        subst (λ ms. IsQueue S e ms (record (swept h (idle seg) (locked w)) { start_lock = false }))
            (ap (λ r. (f, k) ∷ (busy seg ++ r)) (sym here) ∙ sym (if_false _ _ other))
            (swept-IsQueue S off w f k c start seg n ys named other h holds good),
        start,
        ap (λ r. w.dropped ++ contents r) (sym (if_false _ _ other)),
        record { list_lock = refl; readers_count = refl; strong_count = refl },
        λ ss a.
            subst (λ c'. Attended (forced (some c) ((f, k) ∷ ns)) c' ss) (sym start)
              (subst (λ ms. Attended ms (some c) ss)
                (ap (λ r. (f, k) ∷ (busy seg ++ r)) (sym here) ∙ sym (if_false _ _ other))
                (Attended-busy (f, k) seg (c.chunk, n) ys c ss
                  (IsChain-middle seg c.chunk n ys named.rep.chain.3).1
                  (subst (λ c'. Attended ((f, k) ∷ (seg ++ (c.chunk, n) ∷ ys)) c' ss) start
                    (subst (λ ms. Attended ms w.start_position ss) as_list a)))),
      )

  pub unlocked-IsQueue :
      {ns : Chain T} {w : World T}
      → IsQueue S e ns w
      → IsQueue S e ns (record w { start_lock = false })
  unlocked-IsQueue q = record {
    rep = record {
      held = q.rep.held;
      chain = q.rep.chain;
      first = q.rep.first;
      last = q.rep.last;
      no_free_chunk = q.rep.no_free_chunk;
    };
    nonempty = q.nonempty;
    start_unlocked = refl;
    ids = q.ids;
    epochs = q.epochs;
    sizes = q.sizes;
    total = q.total;
    start = q.start;
  }

  forces :
      (w : World T) (ns : Chain T) (start : Option Cursor)
      → IsQueue S e ns w
      → w.start_position ≡ start
      → Forces S e w ns start
  forces w ns none q same = (
    locked w,
    refl,
    unlocked-IsQueue q,
    same,
    sym (append-nil w.dropped),
    record { list_lock = refl; readers_count = refl; strong_count = refl },
    λ ss a. a,
  )
  forces w [] (some c) q same = absurd (omega (arith, q.nonempty))
  forces w ((f, k) ∷ ns) (some c) q same = elim (Bool-cases (f == c.chunk)) [
    | inl first ↦ (
      locked w,
      to-first S off w f k c same q.rep.first first,
      subst (λ ms. IsQueue S e ms (record w { start_lock = false })) (sym (if_true _ _ first))
          (unlocked-IsQueue q),
      same,
      sym (append-nil w.dropped) ∙ ap (λ r. w.dropped ++ contents r) (sym (if_true _ _ first)),
      record { list_lock = refl; readers_count = refl; strong_count = refl },
      λ ss a. subst (λ ms. Attended ms w.start_position ss) (sym (if_true _ _ first)) a,
    )
    | inr other ↦ Forces-other w f k ns c q same other
  ]

  -- Without the cargo feature, on a well-formed queue, `force_cleanup_impl` runs to its end and
  -- leaves a well-formed queue. First the leading chunks without readers go, except the last
  -- chunk; the items dropped by then, followed by those still in the queue, are the same sequence
  -- as before. If there still is a start position, the chunks without readers that stand behind
  -- the first chunk and before that of the start position go too, and their items are dropped
  -- after the others, in order. No other chunk goes. The start position is forgotten exactly if
  -- its chunk was among the leading ones that went. No reader or handle has come or gone, and the
  -- readers that stand in chunks that count them still do.
  pub force_cleanup_impl-IsQueue :
      (w : World T) (ns : Chain T)
      → IsQueue S e ns w
      → (w' : World T) × (d : List T) × (force_cleanup_impl S w ≡ ok tt w')
        × IsQueue S e (forced w'.start_position (kept ns)) w'
        × (d ++ contents (kept ns) ≡ w.dropped ++ contents ns)
        × (w'.dropped ≡ d ++ contents (gone w'.start_position (kept ns)))
        × (w'.start_position ≡ forget_all (removed ns) w.start_position)
        × SameHandles w w'
        × Keeps w ns w' (forced w'.start_position (kept ns))
  unfolding force_cleanup_impl unlock_start
  force_cleanup_impl-IsQueue w ns q =
      let (h, runs, rep) = cleanup_impl-ok S off ns w q.rep q.start_unlocked in
      let v = cleaned h ns w in
      let before : Evolves S e ns (kept ns) [] w v = Evolves-cleaned S off q h rep in
      let (w', forced_runs, queue, same, drops, handles, keeps) =
        forces v (kept ns) v.start_position before.queue refl in
      (
        record w' { start_lock = false },
        v.dropped,
        rw (runs, lock_start-ok v before.queue.start_unlocked)
            (ap (λ r. and_then r (λ _. unlock_start)) forced_runs),
        subst (λ c. IsQueue S e (forced c (kept ns)) (record w' { start_lock = false })) (sym same)
            queue,
        before.history ∙ append-nil _,
        drops ∙ ap (λ c. v.dropped ++ contents (gone c (kept ns))) (sym same),
        same,
        record {
          list_lock = handles.list_lock;
          readers_count = handles.readers_count;
          strong_count = handles.strong_count;
        },
        λ ss a.
            subst (λ c. Attended (forced c (kept ns)) w'.start_position ss) (sym same)
              (keeps ss (before.attended ss a)),
      )
