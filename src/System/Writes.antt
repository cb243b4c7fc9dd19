-- ===== src/System/Writes.antt =====
-- The calls on the queue, of src/mpmc/event_queue.rs, among readers.
use lockless_event_queue.Base.{
  ℕ, ◌+◌, ◌^◌, ◌<◌, ◌≡◌, ◌⊎◌, refl, ◌∙◌, Bool, true, false, Option, none, some, List, length, inl,
  inr, arith,
}
use native.Mathlib.Decide.{dec_lt}
use lockless_event_queue.DynamicChunk.{Ptr}
use lockless_event_queue.Heap.{Heap, Allocates}
use lockless_event_queue.Chain.{Chain}
use lockless_event_queue.World.{World, Cursor, Cmd, ok, stop, panic}
use lockless_event_queue.EventQueue.Settings as Base
use lockless_event_queue.EventQueue.Settings.{size_allowed}
use lockless_event_queue.EventQueue.Cleanup.InOrder.{kept}
use lockless_event_queue.EventQueue.Start as Start
use lockless_event_queue.EventQueue.Start.Cut.{cut}
use lockless_event_queue.EventQueue.Start.Epochs.{all_in_epoch}
use lockless_event_queue.EventQueue.Start.Truncate.{truncate_front-panics}
use lockless_event_queue.EventQueue.Invariant.{IsFit, IsQueue, Evolves}
use lockless_event_queue.EventQueue.Invariant.CleanupKeeps.{IsQueue-lock, cleanup-Evolves}
use lockless_event_queue.EventQueue.Invariant.ForceTo.{forced}
use lockless_event_queue.EventQueue.Invariant.ClearKeeps.{Restarted, next_epoch, clear-Restarts}
use lockless_event_queue.EventQueue.Invariant.TruncateKeeps.{
  at_or_past, Advances, Truncates, truncate_front-Truncates,
}
use lockless_event_queue.Mpmc.{Settings, base_settings, with_list, cleanup, clear, truncate_front}
use lockless_event_queue.Mpmc.Keeps.{
  with_list-ok, with_list-stop, mpmc_push-Evolves, mpmc_extend-Evolves, Resizes,
  mpmc_change_chunk_capacity-Resizes,
}
use lockless_event_queue.System.{
  System, Write, push_one, push_many, resize, clean, clear_all, truncate, write, ids_needed,
}
use lockless_event_queue.System.Sound.{IsSystem}

-- The calls that can panic: a size that the settings refuse, and a truncation of a long list.
abbrev pub may_panic : {T : Type 0} → Write T → Bool
may_panic (resize new_capacity) = true
may_panic (truncate len) = true
may_panic _ = false

module _ {T : Type 0} (S : Settings) (s : System T) (v : IsSystem S s) where
  -- A run that leaves the queue and its readers sound, or a panic of a call that can.
  abbrev pub Returns : Bool → Cmd T (Unit {0}) → Type 0
  Returns can_panic call =
      ((w : World T) × (call s.world ≡ ok tt w)
        × IsSystem S (record { world = w; sessions = s.sessions }))
      ⊎ ((can_panic ≡ true) × (call s.world ≡ stop panic))

  abbrev B : Base.Settings
  B = base_settings false S

  locked : IsQueue B v.epoch v.nodes (record (s.world) { list_lock = true })
  locked = IsQueue-lock true v.queue

  pub IsSystem-Evolves :
      {ns : Chain T} {added : List T} {w : World T}
      → Evolves B v.epoch v.nodes ns added s.world w
      → (v' : IsSystem S (record { world = w; sessions = s.sessions })) × (v'.nodes ≡ ns)
  IsSystem-Evolves {ns} {added} {w} a = (
    record {
      epoch = v.epoch;
      nodes = ns;
      spots = v.spots;
      queue = a.queue;
      unlocked = a.list_lock ∙ v.unlocked;
      seated = v.seated;
      attended = a.attended v.spots v.attended;
      few = v.few;
      readers_count = a.readers_count ∙ v.readers_count;
      strong_count = a.strong_count ∙ v.strong_count;
    },
    refl,
  )

  IsSystem-Restarted :
      {c : Cursor} {w : World T}
      → Restarted B v.epoch (record (s.world) { list_lock = true }) c v.nodes w
      → IsSystem S (record { world = record w { list_lock = false }; sessions = s.sessions })
  IsSystem-Restarted {c} {w} a = record {
    epoch = next_epoch v.epoch;
    nodes = forced w.start_position (kept (all_in_epoch (next_epoch v.epoch) v.nodes));
    spots = v.spots;
    queue = IsQueue-lock false a.queue;
    unlocked = refl;
    seated = v.seated;
    attended = a.attended v.spots v.attended;
    few = v.few;
    readers_count = a.handles.readers_count ∙ v.readers_count;
    strong_count = a.handles.strong_count ∙ v.strong_count;
  }

  -- With the lock on the list taken and released again.
  IsSystem-released :
      IsSystem S (record { world = record (s.world) { list_lock = false }; sessions = s.sessions })
  IsSystem-released = record {
    epoch = v.epoch;
    nodes = v.nodes;
    spots = v.spots;
    queue = IsQueue-lock false v.queue;
    unlocked = refl;
    seated = v.seated;
    attended = v.attended;
    few = v.few;
    readers_count = v.readers_count;
    strong_count = v.strong_count;
  }

  Returns-Advances :
      (call : Cmd T (Unit {0})) (further : Bool) (c : Cursor)
      → Advances B v.epoch (record (s.world) { list_lock = true }) v.nodes call further c
      → Returns true (with_list call)
  Returns-Advances call true c runs =
      inl (_, with_list-ok call s.world tt _ v.unlocked runs, IsSystem-released)
  Returns-Advances call false c (w, runs, after) =
      inl (_, with_list-ok call s.world tt w v.unlocked runs, IsSystem-Restarted after)

  Returns-Truncates :
      (call : Cmd T (Unit {0})) (len : ℕ) (o : Option Cursor)
      → Truncates B v.epoch (record (s.world) { list_lock = true }) v.nodes call len o
      → Returns true (with_list call)
  Returns-Truncates call len none (runs, _) =
      inl (_, with_list-ok call s.world tt _ v.unlocked runs, IsSystem-released)
  Returns-Truncates call len (some c) (advances, _) =
      Returns-Advances call (at_or_past v.nodes s.world.start_position c) c advances

  truncate-Returns : (len : ℕ) → Returns true (truncate_front false S len)
  unfolding truncate_front
  truncate-Returns len = elim (dec_lt 128 (length v.nodes)) [
    | yes long ↦ inr (
      refl,
      with_list-stop _ s.world v.unlocked (
          truncate_front-panics (record (s.world) { list_lock = true }) B v.nodes len locked.rep
            long),
    )
    | no fits ↦ Returns-Truncates (Start.truncate_front B len) len (cut len v.nodes) (
        truncate_front-Truncates B refl (record (s.world) { list_lock = true }) v.nodes locked len
          (omega (arith, fits)))
  ]

  clear-Returns : Returns false (clear false S)
  unfolding clear
  clear-Returns =
      let (w, runs, after) =
        clear-Restarts B refl v.epoch (record (s.world) { list_lock = true }) v.nodes locked in
      inl (_, with_list-ok (Start.clear B) s.world tt w v.unlocked runs, IsSystem-Restarted after)

  clean-Returns : Returns false (cleanup false S)
  unfolding cleanup
  clean-Returns =
      let (w, runs, a) = cleanup-Evolves B refl v.queue v.unlocked in
      inl (w, runs, (IsSystem-Evolves a).0)

  module _ (alloc : Heap T → Ptr) (allocates : Allocates alloc)
      (fit : IsFit (base_settings false S)) where
    resize-Returns :
        (size : ℕ) (allowed : Bool)
        → Resizes alloc S v.epoch v.nodes s.world size allowed
        → Returns true (write alloc S (resize size))
    resize-Returns size true (w, c, runs, a) = inl (w, runs, (IsSystem-Evolves a).0)
    resize-Returns size false stops = inr (refl, stops)

    -- Each call on the queue.
    pub write-Returns :
        (call : Write T)
        → s.world.list.chunk_id_counter + ids_needed call < 2 ^ 64
        → Returns (may_panic call) (write alloc S call)
    write-Returns (push_one x) ids =
        let (w, ns, runs, a) =
          mpmc_push-Evolves alloc allocates S fit v.epoch v.nodes s.world v.queue v.unlocked x
            ids in
        inl (w, runs, (IsSystem-Evolves a).0)
    write-Returns (push_many xs) ids =
        let (w, ns, runs, a) =
          mpmc_extend-Evolves alloc allocates S fit v.epoch v.nodes s.world v.queue v.unlocked xs
            ids in
        inl (w, runs, (IsSystem-Evolves a).0)
    write-Returns (resize size) ids =
        resize-Returns size (size_allowed (base_settings false S) size) (
          mpmc_change_chunk_capacity-Resizes alloc allocates S fit v.epoch v.nodes s.world v.queue
            v.unlocked size ids)
    write-Returns clean ids = clean-Returns
    write-Returns clear_all ids = clear-Returns
    write-Returns (truncate len) ids = truncate-Returns len
