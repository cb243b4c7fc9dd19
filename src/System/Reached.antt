-- ===== src/System/Reached.antt =====
-- Every state that a program can come to is sound, whatever the order of the calls.
use lockless_event_queue.Base.{
  ℕ, ◌+◌, ◌^◌, ◌<◌, ◌≡◌, ◌⊎◌, refl, sym, ap, ◌∙◌, subst, true, false, List, [], ◌∷◌, ◌++◌, inl, inr,
  arith,
}
use lockless_event_queue.DynamicChunk.{Ptr}
use lockless_event_queue.Heap.{Heap, Allocates}
use lockless_event_queue.World.{World, Run, Cmd, ok, stop, panic}
use lockless_event_queue.EventQueue.Settings.{size_allowed}
use lockless_event_queue.EventQueue.Invariant.{IsFit}
use lockless_event_queue.EventQueue.Invariant.Starts.{first_node, with_capacity-ok, started-IsQueue}
use lockless_event_queue.EventQueue.Life.{EventReader, unsubscribe}
use lockless_event_queue.EventReader.{Iter, update_position, iter, iter_next, iter_drop}
use lockless_event_queue.EventReader.Seats.{Session, resting, reading}
use lockless_event_queue.Mpmc.{Settings, base_settings, new}
use lockless_event_queue.System.{
  System, Write, write, ids_needed, turns, Step, writes, Reach, start, later,
}
use lockless_event_queue.System.Sound.{IsSystem}
use lockless_event_queue.System.Writes.{may_panic, write-Returns}
use lockless_event_queue.System.Readers.{next-Calls, drop-Calls, update-Calls, iter-Calls}
use lockless_event_queue.System.Turns.{same_result, IsSystem-same, Turn-Keeps}
use lockless_event_queue.System.Comings.{unsubscribe-Goes}

module _ {T A : Type 0} where
  returned : Run T A → ℕ
  returned (ok a w) = 1
  returned (stop s) = 0

  pub never_both : {r : Run T A} {a : A} {w : World T} → r ≡ ok a w → r ≡ stop panic → ⊥
  unfolding returned
  never_both e f = absurd (omega (arith, ap returned (sym e ∙ f)))

module _ {T : Type 0} (alloc : Heap T → Ptr) (allocates : Allocates alloc) (S : Settings)
    (fit : IsFit (base_settings false S)) where
  Step-Sound : {s t : System T} → IsSystem S s → Step alloc S s t → IsSystem S t
  Step-Sound {s} v (writes call ids runs) =
      elim (write-Returns S s v alloc allocates fit call ids) [
        | inl (w, runs', sound) ↦
            subst (λ u. IsSystem S (record { world = u; sessions = s.sessions }))
              (same_result runs' runs).1 sound
        | inr (_, panics) ↦ absurd (never_both runs panics)
      ]
  Step-Sound v (turns room turn) = (Turn-Keeps S [] v room turn).0

  new-Sound :
      {w : World T} → new alloc false S ≡ ok tt w → IsSystem S (record { world = w; sessions = [] })
  unfolding new
  new-Sound runs =
      subst (λ u. IsSystem S (record { world = u; sessions = [] }))
        (same_result
          (with_capacity-ok alloc allocates (base_settings false S) S.min_chunk_size allowed)
          runs).1
        (record {
          epoch = 0;
          nodes = first_node alloc allocates (base_settings false S) S.min_chunk_size;
          spots = [];
          queue =
              started-IsQueue alloc allocates (base_settings false S) fit S.min_chunk_size allowed;
          unlocked = refl;
          seated = tt;
          attended = record {
            counts = (refl, omega arith, tt);
            stand = tt;
            place = tt;
            few = omega arith;
          };
          few = omega arith;
          readers_count = refl;
          strong_count = refl;
        })
    where
      allowed : size_allowed (base_settings false S) S.min_chunk_size ≡ true
      allowed = ground (arith, fit)

  -- Without the cargo feature, with settings that fit and an allocator that gives unused
  -- addresses, take any state that a program can come to from a new mpmc queue by any number of
  -- calls that return, of writers and of readers, fewer than 2^32 of these, in any order, as long
  -- as there are chunk ids left to give. This state is sound: the queue is well formed, in one
  -- epoch and unlocked; each reader, resting or in an iterator, is at a place within a chunk of
  -- the list, an iterator with a snapshot of it that may be older; each chunk has been entered by
  -- as many more readers than have left it as there are sessions in it, a session counting in all
  -- chunks from its first on; the start position, if there is one, is in the list; and the numbers
  -- of readers and of handles are right.
  pub Reach-IsSystem : (s : System T) → Reach alloc S s → IsSystem S s
  Reach-IsSystem s (start runs) = new-Sound runs
  Reach-IsSystem s (later before step) = Step-Sound (Reach-IsSystem _ before) step

-- A call that returns a result: no panic, no deadlock, no undefined behaviour, and no endless loop.
abbrev pub Succeeds : {T A : Type 0} → Cmd T A → World T → Type 0
Succeeds {T} {A} call w = (a : A) × (w' : World T) × (call w ≡ ok a w')

module _ {T : Type 0} (alloc : Heap T → Ptr) (allocates : Allocates alloc) (S : Settings)
    (fit : IsFit (base_settings false S)) (s : System T) (reached : Reach alloc S s) where
  -- Without the cargo feature, with settings that fit and an allocator that gives unused
  -- addresses, take any state that a program can come to from a new mpmc queue by any number of
  -- calls that return, of writers and of readers, fewer than 2^32 of these, in any order, as long
  -- as there are chunk ids left to give. Then for every iterator in it, `next` and the drop of the
  -- iterator return a result: they end, and read no freed chunk and no slot that is not
  -- initialised.
  pub reading-Succeeds :
      (before : List Session) (it : Iter) (after : List Session)
      → s.sessions ≡ before ++ reading it ∷ after
      → Succeeds (iter_next it) s.world × Succeeds (iter_drop (base_settings false S) it) s.world
  reading-Succeeds before it after at =
      let (v, _) = IsSystem-same S s.world at (Reach-IsSystem alloc allocates S fit s reached) in
      let (a, w, runs, _, _) = next-Calls S s.world before it after v in
      let (b, u, goes, _, _) = drop-Calls S s.world before it after v in
      ((a, w, runs), (b, u, goes))

  -- Without the cargo feature, with settings that fit and an allocator that gives unused
  -- addresses, take any state that a program can come to from a new mpmc queue by any number of
  -- calls that return, of writers and of readers, fewer than 2^32 of these, in any order, as long
  -- as there are chunk ids left to give. Then for every reader without an iterator,
  -- `update_position`, `iter` and `unsubscribe` return a result: they end, without a panic, a
  -- deadlock or undefined behaviour.
  pub resting-Succeeds :
      (before : List Session) (r : EventReader) (after : List Session)
      → s.sessions ≡ before ++ resting r ∷ after
      → Succeeds (update_position (base_settings false S) r) s.world
        × Succeeds (iter (base_settings false S) r) s.world
        × Succeeds (unsubscribe (base_settings false S) r) s.world
  resting-Succeeds before r after at =
      let (v, _) = IsSystem-same S s.world at (Reach-IsSystem alloc allocates S fit s reached) in
      let (a, w, runs, _, _) = update-Calls S s.world before r after v in
      let (b, u, opens_it, _, _) = iter-Calls S s.world before r after v in
      let (x, goes, _, _) = unsubscribe-Goes S s.world before r after v in
      ((a, w, runs), (b, u, opens_it), (tt, x, goes))

  -- Without the cargo feature, with settings that fit and an allocator that gives unused
  -- addresses, take any state that a program can come to from a new mpmc queue by any number of
  -- calls that return, of writers and of readers, fewer than 2^32 of these, in any order, as long
  -- as there are chunk ids left to give. Then any call on the queue with chunk ids left for it
  -- returns: it ends, without a deadlock or undefined behaviour, and without a panic, except that
  -- `change_chunk_capacity` and `truncate_front` may panic.
  pub write-Succeeds :
      (call : Write T)
      → s.world.list.chunk_id_counter + ids_needed call < 2 ^ 64
      → Succeeds (write alloc S call) s.world
        ⊎ ((may_panic call ≡ true) × (write alloc S call s.world ≡ stop panic))
  write-Succeeds call ids =
      elim (write-Returns S s (Reach-IsSystem alloc allocates S fit s reached) alloc allocates fit
        call ids) [ inl (w, runs, _) ↦ inl (tt, w, runs) | inr panics ↦ inr panics ]
