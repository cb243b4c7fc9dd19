-- ===== src/EventQueue/Invariant/Unsubscribe.antt =====
-- `unsubscribe` of src/event_queue.rs, while the queue has another handle, keeps the invariant.
use lockless_event_queue.Base.{
  List, ℕ, ◌-◌, ◌^◌, ◌<◌, ◌≡◌, refl, sym, ap, ap₂, subst, ◌∙◌, Bool, true, false, not, ◌&&◌, some,
  [], ◌∷◌, ◌++◌, arith, ◌==◌, if◌then◌else◌, Bool-cases, inl, inr, if_true, if_false,
}
use mathlib.Core.List.{append-nil}
use lockless_event_queue.DynamicChunk
use lockless_event_queue.DynamicChunk.{Ptr, null, add_usize}
use lockless_event_queue.Heap
use lockless_event_queue.Heap.{Heap}
use lockless_event_queue.Node.{Node, chunk_of}
use lockless_event_queue.Node.Methods.{mark_read-chunk_of}
use lockless_event_queue.Chain.{Chain, head_ptr, find-middle}
use lockless_event_queue.Chain.Append.{IsChain-middle}
use lockless_event_queue.Represents.{Holds-write}
use lockless_event_queue.World.{World, Cmd, ok, when, unlock_list}
use lockless_event_queue.World.Commands.{modify-ok, lock_list-ok}
use lockless_event_queue.EventQueue.Settings.{Settings, is_never}
use lockless_event_queue.EventQueue.Cleanup.{cleanup_impl}
use lockless_event_queue.EventQueue.Cleanup.InOrder.{kept, contents}
use lockless_event_queue.EventQueue.Life.{EventReader, unsubscribe, sub_u32, decrement_strong_count}
use lockless_event_queue.EventQueue.Invariant.{IsQueue, Conserves, Evolves}
use lockless_event_queue.EventQueue.Invariant.CleanupKeeps.{
  IsQueue-lock, Evolves-refl, cleanup_impl-Evolves,
}
use lockless_event_queue.Attendance.{Spot, Attended, left_once}
use lockless_event_queue.Attendance.Unread.{unread}
use lockless_event_queue.Attendance.Turn.{unread-Recounted, Recounted-middle}
use lockless_event_queue.EventQueue.Invariant.Recount.{
  Recounted-refl, Recounted-append, Conserves-Recounted, Conserves-Evolves, Conserves-trans,
}

-- A cleanup follows when the mode allows it and the reader was in the first chunk.
abbrev pub cleans_after : {T : Type 0} → Settings → Ptr → Chain T → Bool
cleans_after S p ns = S.cleanup_in_unsubscribe && not (is_never S.cleanup) && head_ptr ns == p

abbrev pub after_unsubscribe : {T : Type 0} → Settings → Ptr → Chain T → Chain T
after_unsubscribe S p ns = if cleans_after S p ns then kept ns else ns

nested : {T : Type 0} (a b : Bool) (m : Cmd T (Unit {0})) → when a (when b m) ≡ when (a && b) m
nested true b m = refl
nested false b m = refl

module _ {T : Type 0} (S : Settings) (off : S.double_buffering ≡ false) {e : ℕ} (w : World T)
    (xs : Chain T) (p : Ptr) (n : Node T) (ys : Chain T)
    (q : IsQueue S e (xs ++ (p, n) ∷ ys) w) where
  -- The reader leaves the chunk.
  abbrev marked_world : World T
  marked_world = record w { heap = Heap.write p (chunk_of (left_once n) (head_ptr ys)) w.heap }

  pub leaves : Conserves S e (xs ++ (p, n) ∷ ys) (xs ++ (p, left_once n) ∷ ys) [] w marked_world
  leaves =
      let (ne, out, rest, well) = IsChain-middle xs p n ys q.rep.chain in
      Conserves-Recounted _ _ _
        (Recounted-append xs _ _ (n.entered, add_usize n.read 1, ys, refl, Recounted-refl ys))
        (Holds-write w.heap xs p n (left_once n) ys out q.rep.held) q

  pub held_p : Heap.read p w.heap ≡ some (chunk_of n (head_ptr ys))
  held_p = q.rep.held p ∙ find-middle p n xs ys (IsChain-middle xs p n ys q.rep.chain).1

module _ {T : Type 0} (S : Settings) (off : S.double_buffering ≡ false) {e : ℕ} (w : World T)
    (ns : Chain T) (p : Ptr) (q : IsQueue S e ns w) where
  pub cleans :
      (w' : World T) × (when
          (S.cleanup_in_unsubscribe && not (is_never S.cleanup))
          (when (w.list.first == p) (cleanup_impl S))
          w
        ≡ ok tt w')
      × Evolves S e ns (after_unsubscribe S p ns) [] w w'
  cleans =
      let outer =
        nested (S.cleanup_in_unsubscribe && not (is_never S.cleanup)) (w.list.first == p)
          (cleanup_impl S)
        ∙ ap
            (λ f.
              when (S.cleanup_in_unsubscribe && not (is_never S.cleanup) && f == p)
                (cleanup_impl S))
            q.rep.first in
      elim (Bool-cases (cleans_after S p ns)) [
        | inl due ↦
            let (w', runs, v) = cleanup_impl-Evolves S off q in
            (
              w',
              ap (λ (m : Cmd T (Unit {0})). m w) (outer ∙ if_true _ _ due) ∙ runs,
              subst (λ ms. Evolves S e ns ms [] w w') (sym (if_true _ _ due)) v,
            )
        | inr none_due ↦ (
          w,
          ap (λ (m : Cmd T (Unit {0})). m w) (outer ∙ if_false _ _ none_due),
          subst (λ ms. Evolves S e ns ms [] w w) (sym (if_false _ _ none_due)) (Evolves-refl q),
        )
      ]

-- The world when a reader has gone.
abbrev departed : {T : Type 0} → World T → World T
departed w = record w {
  list = record (w.list) { readers_count = sub_u32 w.list.readers_count 1 };
  list_lock = false;
  strong_count = if w.list.readers_count == 1 then w.strong_count - 1 else w.strong_count;
}

departed-IsQueue :
    {T : Type 0} {S : Settings} {e : ℕ} {ns : Chain T} {w : World T}
    → IsQueue S e ns w
    → IsQueue S e ns (departed w)
departed-IsQueue q = record {
  rep = record {
    held = q.rep.held;
    chain = q.rep.chain;
    first = q.rep.first;
    last = q.rep.last;
    no_free_chunk = q.rep.no_free_chunk;
  };
  nonempty = q.nonempty;
  start_unlocked = q.start_unlocked;
  ids = q.ids;
  epochs = q.epochs;
  sizes = q.sizes;
  total = q.total;
  start = q.start;
}

-- The end of `unsubscribe`, from the count of the readers on, if that is not the last handle.
depart-ok :
    {T : Type 0} (w : World T)
    → 0 < w.list.readers_count
    → w.list.readers_count < 2 ^ 32
    → 1 < w.strong_count
    → when (sub_u32 w.list.readers_count 1 == 0) decrement_strong_count (record w {
      list = record (w.list) { readers_count = sub_u32 w.list.readers_count 1 };
      list_lock = false;
    })
      ≡ ok tt (departed w)
unfolding decrement_strong_count
depart-ok w some_reader small handles = elim (Bool-cases (w.list.readers_count == 1)) [
  | inl one ↦
      let zero_left : (sub_u32 w.list.readers_count 1 == 0) ≡ true = ground (arith, one) in
      let more : (w.strong_count - 1 == 0) ≡ false = ground (arith, handles) in
      rw (zero_left, one, more)
  | inr several ↦
      let some_left : (sub_u32 w.list.readers_count 1 == 0) ≡ false =
        ground (arith, several, some_reader, small) in
      rw (some_left, several)
]

module _ {T : Type 0} (S : Settings) (off : S.double_buffering ≡ false) {e : ℕ} (w : World T)
    (r : EventReader) (xs : Chain T) (n : Node T) (ys : Chain T)
    (q : IsQueue S e (xs ++ (r.position.chunk, n) ∷ ys) w) where
  abbrev remaining : Chain T
  remaining = after_unsubscribe S r.position.chunk (xs ++ (r.position.chunk, left_once n) ∷ ys)

  -- Without the cargo feature, on a well-formed queue whose list is not locked, that has at least
  -- one reader, fewer than 2^32 of them, and at least two handles, `unsubscribe` of a reader in a
  -- chunk of the list runs to its end and leaves the list unlocked. One reader more has left its
  -- chunk, and if the settings clean up here, the mode is not `Never` and the chunk is the first,
  -- a cleanup follows. The queue is well formed, with one reader less, and, if that was the last
  -- reader, with one handle less; the items dropped so far followed by those in the queue are the
  -- same sequence as before. The readers that stand in chunks that count them, without the one
  -- that goes, still do, and have the same items to read as before.
  pub unsubscribe-IsQueue :
      w.list_lock ≡ false
      → 0 < w.list.readers_count
      → w.list.readers_count < 2 ^ 32
      → 1 < w.strong_count
      → (w' : World T) × (unsubscribe S r w ≡ ok tt w')
        × IsQueue S e remaining w'
        × (w'.dropped ++ contents remaining
            ≡ w.dropped ++ contents (xs ++ (r.position.chunk, n) ∷ ys))
        × (w'.list.readers_count ≡ w.list.readers_count - 1)
        × (w'.strong_count
            ≡ (if w.list.readers_count == 1 then w.strong_count - 1 else w.strong_count))
        × (w'.list_lock ≡ false)
        × ((ss : List Spot)
            → Attended (xs ++ (r.position.chunk, left_once n) ∷ ys) w.start_position ss
            → Attended remaining w'.start_position ss)
        × ((s : Spot) (ss : List Spot)
            → Attended (xs ++ (r.position.chunk, left_once n) ∷ ys) w.start_position (s ∷ ss)
            → unread s remaining ≡ unread s (xs ++ (r.position.chunk, n) ∷ ys))
  unfolding unsubscribe unlock_list
  unsubscribe-IsQueue free some_reader small handles =
      let locked : World T = record w { list_lock = true } in
      let q' = IsQueue-lock true q in
      let v = leaves S off locked xs r.position.chunk n ys q' in
      let (w', runs, u) = cleans S off _ _ r.position.chunk v.queue in
      let count = u.readers_count in
      (
        departed w',
        rw
            (
              lock_list-ok w free,
              modify-ok r.position.chunk locked (held_p S off locked xs r.position.chunk n ys q')
                  DynamicChunk.mark_read,
              mark_read-chunk_of n (head_ptr ys),
            )
            (rw runs (
              depart-ok w' (omega (arith, count, some_reader)) (omega (arith, count, small))
                (omega (arith, u.strong_count, handles)))),
        departed-IsQueue u.queue,
        (Conserves-trans v (Conserves-Evolves u)).history ∙ append-nil _,
        omega (arith, count, some_reader, small),
        ap₂ (λ (c s : ℕ). if c == 1 then s - 1 else s) count u.strong_count,
        refl,
        u.attended,
        λ s ss a.
            u.delivers s ss a
            ∙ append-nil _
            ∙ unread-Recounted s _ _ (Recounted-middle xs r.position.chunk n ys _ _),
      )
