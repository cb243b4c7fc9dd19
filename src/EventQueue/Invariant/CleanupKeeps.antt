-- ===== src/EventQueue/Invariant/CleanupKeeps.antt =====
-- `cleanup_impl`, `cleanup` and `on_new_chunk_cleanup` keep the invariant, and lose nothing.
use lockless_event_queue.Base.{
  ℕ, ◌≡◌, refl, sym, ap, subst, if_true, if_false, ◌∙◌, Bool, true, false, ◌&&◌, List, [], ◌++◌,
  arith, if◌then◌else◌, Bool-cases, inl, inr,
}
use mathlib.Core.List.{append-nil, append_assoc}
use lockless_event_queue.Heap.{Heap}
use lockless_event_queue.Chain.{Chain}
use lockless_event_queue.Represents.{Represents}
use lockless_event_queue.World.{World, Cmd, ok, ◌>>=◌, lock_list, unlock_list}
use lockless_event_queue.World.Commands.{lock_list-ok}
use lockless_event_queue.EventQueue.Settings.{Settings, is_on_new_chunk}
use lockless_event_queue.EventQueue.Cleanup.{cleanup_impl, cleanup}
use lockless_event_queue.EventQueue.Cleanup.InOrder.{removed, kept, contents}
use lockless_event_queue.EventQueue.Cleanup.Impl.{cleaned, cleanup_impl-ok}
use lockless_event_queue.EventQueue.Push.{on_new_chunk_cleanup}
use lockless_event_queue.EventQueue.Invariant.{IsQueue, Evolves}
use lockless_event_queue.Attendance.Thin.{Attended-kept}
use lockless_event_queue.Attendance.Unread.{unread}
use lockless_event_queue.Attendance.Delivers.{unread-cleaned}
use lockless_event_queue.EventQueue.Invariant.Trim.{
  nonempty-kept, IdsUpTo-kept, HasEpoch-kept, HasSizes-kept, contents-kept, release_caps-kept,
  StartIn-kept,
}

module _ {T : Type 0} {S : Settings} {e : ℕ} where
  -- The invariant says nothing of the lock on the list.
  pub IsQueue-lock :
      {ns : Chain T} {w : World T} (b : Bool)
      → IsQueue S e ns w
      → IsQueue S e ns (record w { list_lock = b })
  IsQueue-lock b q = record {
    rep = record {
      held = q.rep.held;
      chain = q.rep.chain;
      first = q.rep.first;
      last = q.rep.last;
      no_free_chunk = q.rep.no_free_chunk;
    };
    nonempty = q.nonempty;
    start_unlocked = q.start_unlocked;
    ids = q.ids;
    epochs = q.epochs;
    sizes = q.sizes;
    total = q.total;
    start = q.start;
  }

  -- A change under the lock, seen from outside it.
  pub Evolves-locked :
      {ns ns' : Chain T} {added : List T} {w w' : World T}
      → w.list_lock ≡ false
      → Evolves S e ns ns' added (record w { list_lock = true }) w'
      → Evolves S e ns ns' added w (record w' { list_lock = false })
  Evolves-locked free v = record {
    queue = IsQueue-lock false v.queue;
    attended = v.attended;
    delivers = v.delivers;
    history = v.history;
    list_lock = sym free;
    readers_count = v.readers_count;
    strong_count = v.strong_count;
  }

  pub Evolves-refl : {ns : Chain T} {w : World T} → IsQueue S e ns w → Evolves S e ns ns [] w w
  Evolves-refl {ns} {w} q = record {
    queue = q;
    attended = λ ss a. a;
    delivers = λ s ss a. sym (append-nil (unread s ns));
    history = sym (append-nil (w.dropped ++ contents ns));
    list_lock = refl;
    readers_count = refl;
    strong_count = refl;
  }

module _ {T : Type 0} (S : Settings) (off : S.double_buffering ≡ false) {e : ℕ} {ns : Chain T}
    {w : World T} (q : IsQueue S e ns w) where
  pub Evolves-cleaned :
      (h : Heap T)
      → Represents (cleaned h ns w) (kept ns)
      → Evolves S e ns (kept ns) [] w (cleaned h ns w)
  Evolves-cleaned h rep = record {
    attended = λ ss a. Attended-kept ns w.start_position ss a;
    delivers = λ s ss a. unread-cleaned s ss ns a ∙ sym (append-nil (unread s ns));
    queue = record {
      rep = rep;
      nonempty = nonempty-kept ns q.nonempty;
      start_unlocked = q.start_unlocked;
      ids = IdsUpTo-kept w.list.chunk_id_counter ns q.ids;
      epochs = HasEpoch-kept e ns q.epochs;
      sizes = HasSizes-kept S ns q.sizes;
      total = release_caps-kept w.list.total_capacity ns q.rep.chain q.total;
      start = StartIn-kept ns w.start_position q.start;
    };
    history =
        append_assoc w.dropped (contents (removed ns)) (contents (kept ns))
        ∙ ap (λ xs. w.dropped ++ xs) (contents-kept ns)
        ∙ sym (append-nil (w.dropped ++ contents ns));
    list_lock = refl;
    readers_count = refl;
    strong_count = refl;
  }

  pub cleanup_impl-Evolves :
      (w' : World T) × (cleanup_impl S w ≡ ok tt w') × Evolves S e ns (kept ns) [] w w'
  cleanup_impl-Evolves =
      let (h, runs, rep) = cleanup_impl-ok S off ns w q.rep q.start_unlocked in
      (cleaned h ns w, runs, Evolves-cleaned h rep)

-- The list that `on_new_chunk_cleanup` leaves.
abbrev pub tidied : {T : Type 0} → Settings → Chain T → Chain T
tidied S ns = if is_on_new_chunk S.cleanup then kept ns else ns

module _ {T : Type 0} (S : Settings) (off : S.double_buffering ≡ false) {e : ℕ} {ns : Chain T}
    {w : World T} (q : IsQueue S e ns w) where
  pub locked_cleanup-Evolves :
      w.list_lock ≡ false
      → (w' : World T) × ((lock_list >>= λ _. cleanup_impl S >>= λ _. unlock_list) w ≡ ok tt w')
        × Evolves S e ns (kept ns) [] w w'
  unfolding unlock_list
  locked_cleanup-Evolves free =
      let (w', runs, v) = cleanup_impl-Evolves S off (IsQueue-lock true q) in
      (record w' { list_lock = false }, rw (lock_list-ok w free, runs), Evolves-locked free v)

  -- Without the cargo feature, on a well-formed queue whose list is not locked, `cleanup` runs to
  -- its end and leaves a well-formed queue with the chunks that are left when the leading chunks
  -- that as many readers have left as have entered go, but never the last chunk. The items of the
  -- chunks freed are dropped, once and in order, so that the items dropped so far followed by
  -- those in the queue are the same sequence as before. Every reader stays where it is, in chunks
  -- that count it, and has as much to read as before.
  pub cleanup-Evolves :
      w.list_lock ≡ false
      → (w' : World T) × (cleanup S w ≡ ok tt w') × Evolves S e ns (kept ns) [] w w'
  unfolding cleanup
  cleanup-Evolves free = locked_cleanup-Evolves free

  either_cleanup-Evolves :
      (S.lock_on_new_chunk_cleanup && w.list_lock) ≡ false
      → (w' : World T) × ((if S.lock_on_new_chunk_cleanup
              then (lock_list >>= λ _. cleanup_impl S >>= λ _. unlock_list)
              else cleanup_impl S)
            w
          ≡ ok tt w')
        × Evolves S e ns (kept ns) [] w w'
  either_cleanup-Evolves free = elim (Bool-cases S.lock_on_new_chunk_cleanup) [
    | inl lock ↦
        let (w', runs, v) = locked_cleanup-Evolves (ground arith) in
        (w', ap (λ (m : Cmd T (Unit {0})). m w) (if_true _ _ lock) ∙ runs, v)
    | inr bare ↦
        let (w', runs, v) = cleanup_impl-Evolves S off q in
        (w', ap (λ (m : Cmd T (Unit {0})). m w) (if_false _ _ bare) ∙ runs, v)
  ]

  -- Without the cargo feature, on a well-formed queue, with the list not locked if the settings
  -- lock it for this cleanup, `on_new_chunk_cleanup` runs to its end and leaves what `cleanup`
  -- leaves if the cleanup mode is `OnNewChunk`, and all chunks in the other modes. The queue is
  -- well formed, and the items dropped so far followed by those in the queue are the same sequence
  -- as before. Every reader stays where it is, in chunks that count it, and has as much to read as
  -- before.
  pub on_new_chunk_cleanup-Evolves :
      (S.lock_on_new_chunk_cleanup && w.list_lock) ≡ false
      → (w' : World T) × (on_new_chunk_cleanup S w ≡ ok tt w')
        × Evolves S e ns (tidied S ns) [] w w'
  unfolding on_new_chunk_cleanup
  on_new_chunk_cleanup-Evolves free = elim (Bool-cases (is_on_new_chunk S.cleanup)) [
    | inl new ↦
        let (w', runs, v) = either_cleanup-Evolves free in
        (
          w',
          ap (λ (m : Cmd T (Unit {0})). m w) (if_true _ _ new) ∙ runs,
          subst (λ ns'. Evolves S e ns ns' [] w w') (sym (if_true (kept ns) ns new)) v,
        )
    | inr other ↦ (
      w,
      ap (λ (m : Cmd T (Unit {0})). m w) (if_false _ _ other),
      subst (λ ns'. Evolves S e ns ns' [] w w) (sym (if_false (kept ns) ns other)) (Evolves-refl q),
    )
  ]
