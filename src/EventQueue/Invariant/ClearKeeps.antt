-- ===== src/EventQueue/Invariant/ClearKeeps.antt =====
-- `clear` of src/event_queue.rs keeps the invariant.
use lockless_event_queue.Base.{
  if◌then◌else◌, none, some, refl, ℕ, ◌≡◌, sym, ap, subst, ◌∙◌, true, false, List, [], ◌∷◌, ◌++◌,
  arith, length,
}
use lockless_event_queue.Utils.{increment}
use lockless_event_queue.Node.{Node, len-chunk_of, state-chunk_of}
use lockless_event_queue.DynamicChunk.{Ptr, null}
use lockless_event_queue.Chain.{Chain, has, has-append}
use lockless_event_queue.World.{World, Cursor, Cmd, ok, ◌>>=◌}
use lockless_event_queue.World.Commands.{load-ok}
use lockless_event_queue.EventQueue.Settings.{Settings}
use lockless_event_queue.EventQueue.Cleanup.InOrder.{removed, kept, contents, forget_all}
use lockless_event_queue.EventQueue.Cleanup.{force_cleanup_impl}
use lockless_event_queue.EventQueue.Invariant.Trim.{forget_all-has}
use lockless_event_queue.EventQueue.Start.{set_start_position, clear}
use lockless_event_queue.EventQueue.Start.Epochs.{all_in_epoch}
use lockless_event_queue.EventQueue.Start.Moves.{set_start_position-IsQueue, Attended-all_in_epoch}
use lockless_event_queue.Attendance.{spot_at, Stands, Attended}
use lockless_event_queue.Attendance.Follow.{Stands-place}
use lockless_event_queue.EventQueue.Invariant.{IsQueue, SameHandles}
use lockless_event_queue.EventQueue.Invariant.Snoc.{unsnoc}
use lockless_event_queue.EventQueue.Invariant.AddChunkKeeps.{last_node}
use lockless_event_queue.EventQueue.Invariant.ForceTo.{forced, gone}
use lockless_event_queue.EventQueue.Invariant.ForceKeeps.{Keeps, force_cleanup_impl-IsQueue}

abbrev pub next_epoch : ℕ → ℕ
next_epoch e = (increment (record { inner = e })).inner

module _ {T : Type 0} (S : Settings) (e : ℕ) (w : World T) where
  -- The queue after the start position was set to `c` and a cleanup was forced, from one with the
  -- list `ns`. `first_dropped` are the items dropped when the leading chunks are gone.
  pub record Restarted (c : Cursor) (ns : Chain T) (w' : World T) : Type 0 where
    pub first_dropped : List T
    pub queue :
        IsQueue S
          (next_epoch e)
          (forced w'.start_position (kept (all_in_epoch (next_epoch e) ns)))
          w'
    pub history :
        first_dropped ++ contents (kept (all_in_epoch (next_epoch e) ns)) ≡ w.dropped ++ contents ns
    pub dropped :
        w'.dropped
        ≡ first_dropped ++ contents (gone w'.start_position (kept (all_in_epoch (next_epoch e) ns)))
    pub start :
        w'.start_position
        ≡ (if has c.chunk (removed (all_in_epoch (next_epoch e) ns)) then none else some c)
    pub handles : SameHandles w w'
    pub attended : Keeps w ns w' (forced w'.start_position (kept (all_in_epoch (next_epoch e) ns)))

  -- A run that ends so.
  abbrev pub Restarts : Cursor → Chain T → Cmd T (Unit {0}) → Type 0
  Restarts c ns call = (w' : World T) × (call w ≡ ok tt w') × Restarted c ns w'

  pub restart-Restarts :
      S.double_buffering ≡ false
      → (c : Cursor) (ns : Chain T) → IsQueue S e ns w
      → has c.chunk ns ≡ true
      → Stands ns (spot_at c)
      → Restarts c ns (set_start_position c >>= λ _. force_cleanup_impl S)
  restart-Restarts off c ns q inside stands =
      let e' = next_epoch e in
      let (v, moves, queue, start, same, drops, apart) =
        set_start_position-IsQueue c w S e ns q inside in
      let (w', d, runs, queue', kept_items, dropped, start', apart', keeps) =
        force_cleanup_impl-IsQueue S off v (all_in_epoch e' ns) queue in
      (
        w',
        rw (moves, runs),
        record {
          first_dropped = d;
          queue = queue';
          history =
              kept_items
              ∙ ap (λ r. r ++ contents (all_in_epoch e' ns)) drops
              ∙ ap (λ r. w.dropped ++ r) same;
          dropped = dropped;
          start =
              start'
              ∙ ap (forget_all (removed (all_in_epoch e' ns))) start
              ∙ forget_all-has (removed (all_in_epoch e' ns)) c;
          handles = record {
            list_lock = apart'.list_lock ∙ apart.list_lock;
            readers_count = apart'.readers_count ∙ apart.readers_count;
            strong_count = apart'.strong_count ∙ apart.strong_count;
          };
          attended = λ ss a. keeps ss (
              subst (λ c'. Attended (all_in_epoch e' ns) c' ss) (sym start)
                (Attended-all_in_epoch e' ns w.start_position c ss stands a));
        },
      )

module _ {T : Type 0} (S : Settings) (off : S.double_buffering ≡ false) (e : ℕ) (w : World T) where
  -- The start position that `clear` sets.
  abbrev pub end_of : Chain T → Cursor
  end_of [] = record { chunk = null; index = 0 }
  end_of ((p, n) ∷ []) = record { chunk = p; index = length n.items }
  end_of (x ∷ y ∷ ns) = end_of (y ∷ ns)

  end_of-snoc :
      (xs : Chain T) (p : Ptr) (n : Node T)
      → end_of (xs ++ (p, n) ∷ []) ≡ record { chunk = p; index = length n.items }
  end_of-snoc [] p n = refl
  end_of-snoc (x ∷ []) p n = refl
  end_of-snoc (x ∷ y ∷ xs) p n = end_of-snoc (y ∷ xs) p n

  clear_last :
      (xs : Chain T) (p : Ptr) (n : Node T)
      → IsQueue S e (xs ++ (p, n) ∷ []) w
      → Restarts S e w (end_of (xs ++ (p, n) ∷ [])) (xs ++ (p, n) ∷ []) (clear S)
  unfolding clear
  clear_last xs p n q =
      let l = last_node S e w xs p n q in
      let c : Cursor = record { chunk = p; index = length n.items } in
      let (w', runs, rest) =
        restart-Restarts S e w off c (xs ++ (p, n) ∷ []) q
          (ground (arith, has-append p xs ((p, n) ∷ [])))
          (Stands-place xs p n [] c refl (omega arith)) in
      subst (λ c'. Restarts S e w c' (xs ++ (p, n) ∷ []) (clear S)) (sym (end_of-snoc xs p n))
        (
          w',
          rw (load-ok w.list.last w l.holds, state-chunk_of n null, len-chunk_of l.node null)
                (ap
                  (λ r.
                    (set_start_position (record { chunk = r; index = length n.items }) >>= λ _.
                    force_cleanup_impl S)
                      w)
                  l.at)
              ∙ runs,
          rest,
        )

  -- Without the cargo feature, on a well-formed queue in one epoch, `clear` runs to its end, makes
  -- the end of the last chunk the start position, and leaves a well-formed queue in the next
  -- epoch: of the same chunks, in the new epoch, first the leading ones without readers go, except
  -- the last chunk, and then, if there still is a start position, those without readers behind the
  -- first chunk and before that of the start position. The items of the former are dropped first,
  -- and those of the latter after them, each in order, and no other item is dropped. The start
  -- position is forgotten exactly if its chunk went, and no reader or handle has come or gone.
  pub clear-Restarts : (ns : Chain T) → IsQueue S e ns w → Restarts S e w (end_of ns) ns (clear S)
  clear-Restarts ns q =
      let (xs, p, n, shape) = unsnoc ns q.nonempty in
      subst (λ ms. Restarts S e w (end_of ms) ms (clear S)) (sym shape)
        (clear_last xs p n (subst (λ ms. IsQueue S e ms w) shape q))
