-- ===== src/EventQueue/Invariant/Starts.antt =====
-- `with_capacity` of src/event_queue.rs makes a queue.
use lockless_event_queue.Base.{ℕ, ◌≡◌, refl, true, none, [], ◌∷◌, arith}
use lockless_event_queue.Utils.{epoch_zero}
use lockless_event_queue.DynamicChunk.{Ptr, null}
use lockless_event_queue.Heap
use lockless_event_queue.Heap.{Heap, Allocates}
use lockless_event_queue.Node.{chunk_of, fresh}
use lockless_event_queue.Node.Methods.{construct-chunk_of}
use lockless_event_queue.Chain.{Chain}
use lockless_event_queue.World.{World, ok}
use lockless_event_queue.World.{lock_list, unlock_list}
use lockless_event_queue.EventQueue.Settings.{Settings, size_allowed}
use lockless_event_queue.EventQueue.Push.{allocate}
use lockless_event_queue.EventQueue.Life.{with_capacity, unlinked}
use lockless_event_queue.EventQueue.Invariant.{IsFit, IsQueue}

module _ {T : Type 0} (alloc : Heap T → Ptr) (allocates : Allocates alloc) (S : Settings) where
  -- The queue with one empty chunk.
  abbrev pub started : ℕ → World T
  started size = record (unlinked size) {
    heap = (alloc [], chunk_of (fresh 0 size 0) null) ∷ [];
    list = record ((unlinked {T = T} size).list) { first = alloc []; last = alloc [] };
  }

  abbrev pub first_node : ℕ → Chain T
  first_node size = (alloc [], fresh 0 size 0) ∷ []

  pub with_capacity-ok :
      (size : ℕ) → size_allowed S size ≡ true → with_capacity alloc S size ≡ ok tt (started size)
  unfolding with_capacity allocate lock_list unlock_list epoch_zero
  with_capacity-ok size allowed =
      rw (allowed, construct-chunk_of {T = T} 0 size 0 (omega arith)) refl

  pub started-IsQueue :
      (fit : IsFit S) (size : ℕ)
      → size_allowed S size ≡ true
      → IsQueue S 0 (first_node size) (started size)
  unfolding Heap.read
  started-IsQueue fit size allowed = record {
    rep = record {
      held = λ r. refl;
      chain = (
        (allocates []).0,
        refl,
        record {
          items_fit = omega arith;
          cap_small = ground (arith, fit, allowed);
          epoch_small = omega arith;
        },
        tt,
      );
      first = refl;
      last = refl;
      no_free_chunk = refl;
    };
    nonempty = omega arith;
    start_unlocked = refl;
    ids = refl;
    epochs = (refl, tt);
    sizes = (ground (arith, allowed), ground (arith, allowed), tt);
    total = ground (arith, fit, allowed);
    start = tt;
  }

  -- For settings that fit and a capacity between their bounds, `with_capacity` makes a well-formed
  -- queue of one empty chunk of this capacity, in epoch 0, without readers or a start position,
  -- and with one handle.
  pub with_capacity-IsQueue :
      (fit : IsFit S) (size : ℕ)
      → size_allowed S size ≡ true
      → (w : World T) × (with_capacity alloc S size ≡ ok tt w)
        × IsQueue S 0 (first_node size) w
        × (w.list.readers_count ≡ 0)
        × (w.strong_count ≡ 1)
        × (w.start_position ≡ none)
  with_capacity-IsQueue fit size allowed = (
    started size,
    with_capacity-ok size allowed,
    started-IsQueue fit size allowed,
    refl,
    refl,
    refl,
  )
