-- ===== src/EventQueue/Start/Moves.antt =====
-- `set_start_position` of src/event_queue.rs keeps the invariant, in the next epoch.
use lockless_event_queue.Base.{
  ℕ, suc, ◌+◌, ◌^◌, ◌%◌, ◌≡◌, refl, sym, ap, subst, ◌∙◌, true, false, Option, some, List, [], ◌∷◌,
  ◌++◌, arith, ◌==◌, length, ==_refl, ◌||◌, if_true,
}
use lockless_event_queue.Utils.{increment}
use lockless_event_queue.Utils.Epochs.{increment-mod}
use lockless_event_queue.DynamicChunk.{Ptr, null}
use lockless_event_queue.Heap
use lockless_event_queue.Heap.{Heap}
use lockless_event_queue.Node.{Node, epoch-chunk_of, state-chunk_of}
use lockless_event_queue.Chain.{Chain, head_ptr, has, IsChain, Holds, length-le-heap}
use lockless_event_queue.Represents.{Represents}
use lockless_event_queue.World.{World, Cursor, ok, unlock_start}
use lockless_event_queue.World.Commands.{load-ok, lock_start-ok}
use lockless_event_queue.EventQueue.Settings.{Settings}
use lockless_event_queue.EventQueue.Cleanup.InOrder.{contents}
use lockless_event_queue.EventQueue.Foreach.{walk, foreach_chunk_ptr_mut}
use lockless_event_queue.EventQueue.Start.{epoch_step, set_start_position}
use lockless_event_queue.EventQueue.Start.Epochs.{all_in_epoch, last_ptr-all_in_epoch, epochs-walk}
use lockless_event_queue.Attendance.{Spot, spot_at, occupants, Stands, Counts, Attended}
use lockless_event_queue.Attendance.Follow.{Follows, behind, stays, Stands-Follows}
use lockless_event_queue.Attendance.Thin.{AllStand-Follows}
use lockless_event_queue.EventQueue.Invariant.{
  caps, IdsUpTo, HasEpoch, HasSizes, IsQueue, SameHandles,
}

module _ {T : Type 0} where
  IdsUpTo-all_in_epoch : (e k : ℕ) (ns : Chain T) → IdsUpTo k ns → IdsUpTo k (all_in_epoch e ns)
  IdsUpTo-all_in_epoch e k [] h = h
  IdsUpTo-all_in_epoch e k (x ∷ []) h = h
  IdsUpTo-all_in_epoch e k (x ∷ y ∷ ns) h = (h.0, IdsUpTo-all_in_epoch e k (y ∷ ns) h.1)

  HasEpoch-all_in_epoch : (e : ℕ) (ns : Chain T) → HasEpoch e (all_in_epoch e ns)
  HasEpoch-all_in_epoch e [] = tt
  HasEpoch-all_in_epoch e (x ∷ ns) = (refl, HasEpoch-all_in_epoch e ns)

  HasSizes-all_in_epoch :
      (e : ℕ) (S : Settings) (ns : Chain T) → HasSizes S ns → HasSizes S (all_in_epoch e ns)
  HasSizes-all_in_epoch e S [] h = h
  HasSizes-all_in_epoch e S (x ∷ ns) h = (h.0, h.1, HasSizes-all_in_epoch e S ns h.2)

  caps-all_in_epoch : (e : ℕ) (ns : Chain T) → caps (all_in_epoch e ns) ≡ caps ns
  caps-all_in_epoch e [] = refl
  caps-all_in_epoch e ((p, n) ∷ ns) = ap (λ (c : ℕ). n.cap + c) (caps-all_in_epoch e ns)

  contents-all_in_epoch : (e : ℕ) (ns : Chain T) → contents (all_in_epoch e ns) ≡ contents ns
  contents-all_in_epoch e [] = refl
  contents-all_in_epoch e ((p, n) ∷ ns) = ap (λ r. n.items ++ r) (contents-all_in_epoch e ns)

  has-all_in_epoch : (e : ℕ) (p : Ptr) (ns : Chain T) → has p (all_in_epoch e ns) ≡ has p ns
  has-all_in_epoch e p [] = refl
  has-all_in_epoch e p ((q, n) ∷ ns) = ap (λ b. q == p || b) (has-all_in_epoch e p ns)

  length-all_in_epoch : (e : ℕ) (ns : Chain T) → length (all_in_epoch e ns) ≡ length ns
  length-all_in_epoch e [] = refl
  length-all_in_epoch e (x ∷ ns) = ap suc (length-all_in_epoch e ns)

  Follows-all_in_epoch : (e : ℕ) (s : Spot) (ns : Chain T) → Follows s ns (all_in_epoch e ns)
  Follows-all_in_epoch e s [] = behind
  Follows-all_in_epoch e s (x ∷ ns) =
      stays
        (record {
          no_fewer = omega arith;
          closed = λ more. (omega (arith, more, length-all_in_epoch e ns), refl);
        })
        (Follows-all_in_epoch e s ns)

  Counts-all_in_epoch :
      (e : ℕ) (f : Ptr → ℕ) (ns : Chain T) → Counts f ns → Counts f (all_in_epoch e ns)
  Counts-all_in_epoch e f [] c = tt
  Counts-all_in_epoch e f (x ∷ ns) c = (c.0, c.1, Counts-all_in_epoch e f ns c.2)

  -- A new start position in the chain, and every reader where it was.
  pub Attended-all_in_epoch :
      (e : ℕ) (ns : Chain T) (start : Option Cursor) (c : Cursor) (ss : List Spot)
      → Stands ns (spot_at c)
      → Attended ns start ss
      → Attended (all_in_epoch e ns) (some c) ss
  Attended-all_in_epoch e ns start c ss stands a = record {
    counts = Counts-all_in_epoch e (occupants ss) ns a.counts;
    stand =
        AllStand-Follows [] ss (λ q i. absurd (cc)) (λ s _. Follows-all_in_epoch e s ns) a.stand;
    place = Stands-Follows (spot_at c) (Follows-all_in_epoch e (spot_at c) ns) stands;
    few = a.few;
  }

module _ {T : Type 0} (c : Cursor) (w : World T) where
  abbrev moved : Heap T → World T
  moved h = record w { heap = h; start_position = some c; start_lock = false }

  set_start_position-ok :
      (p : Ptr) (n : Node T) (ys : Chain T)
      → Represents w ((p, n) ∷ ys)
      → w.start_lock ≡ false
      → let e = (increment (record { inner = n.epoch })).inner in
        (h : Heap T) × (set_start_position c w ≡ ok tt (moved h))
        × Holds h (all_in_epoch e ((p, n) ∷ ys))
        × IsChain (all_in_epoch e ((p, n) ∷ ys))
  unfolding set_start_position unlock_start foreach_chunk_ptr_mut
  set_start_position-ok p n ys rep unlocked =
      let v = rep.chain.2 in
      let here = ap (λ q. Heap.read q w.heap) rep.first ∙ rep.held p ∙ if_true _ _ (==_refl p) in
      let e = increment (record { inner = n.epoch }) in
      let few = length-le-heap w.heap ((p, n) ∷ ys) rep.chain rep.held in
      let (h, runs, holds, chain) =
        epochs-walk e.inner
          (omega (arith, increment-mod (record { inner = n.epoch }) (omega (arith, v))))
          (suc (length w.heap)) [] ((p, n) ∷ ys) (moved w.heap) rep.chain rep.held
          (omega (arith, few)) in
      (
        h,
        rw
            (
              lock_start-ok w unlocked,
              load-ok w.list.first (moved w.heap) here,
              state-chunk_of n (head_ptr ys),
              epoch-chunk_of v (head_ptr ys),
            )
            (ap (λ q. walk null (epoch_step e) (suc (length w.heap)) q tt (moved w.heap)) rep.first
              ∙ runs),
        holds,
        chain,
      )

  -- On a well-formed queue in one epoch, `set_start_position` to a cursor in a chunk of the list
  -- runs to its end, sets the start position to it, and gives every chunk the epoch after the one
  -- that all had. The queue is well formed in the new epoch, has the same items, and none is
  -- dropped. No reader or handle has come or gone, and the lock on the list is as before.
  pub set_start_position-IsQueue :
      (S : Settings) (e : ℕ) (ns : Chain T)
      → IsQueue S e ns w
      → has c.chunk ns ≡ true
      → let e' = (increment (record { inner = e })).inner in
        (w' : World T) × (set_start_position c w ≡ ok tt w')
        × IsQueue S e' (all_in_epoch e' ns) w'
        × (w'.start_position ≡ some c)
        × (contents (all_in_epoch e' ns) ≡ contents ns)
        × (w'.dropped ≡ w.dropped)
        × SameHandles w w'
  set_start_position-IsQueue S e [] q inside = absurd (omega (arith, q.nonempty))
  set_start_position-IsQueue S e ((p, n) ∷ ys) q inside =
      let k = (increment (record { inner = e })).inner in
      let same : n.epoch ≡ e = q.epochs.0 in
      let (h, runs, holds, chain) = set_start_position-ok p n ys q.rep q.start_unlocked in
      let e-same = ap (λ (m : ℕ). (increment (record { inner = m })).inner) same in
      let ns : Chain T = (p, n) ∷ ys in
      (
        moved h,
        runs,
        record {
          rep = record {
            held = subst (λ m. Holds h (all_in_epoch m ns)) e-same holds;
            chain = subst (λ m. IsChain (all_in_epoch m ns)) e-same chain;
            first = q.rep.first;
            last = q.rep.last ∙ sym (last_ptr-all_in_epoch k ns);
            no_free_chunk = q.rep.no_free_chunk;
          };
          nonempty = omega arith;
          start_unlocked = refl;
          ids = IdsUpTo-all_in_epoch k w.list.chunk_id_counter ns q.ids;
          epochs = HasEpoch-all_in_epoch k ns;
          sizes = HasSizes-all_in_epoch k S ns q.sizes;
          total = q.total ∙ ap (λ (m : ℕ). m % 2 ^ 64) (sym (caps-all_in_epoch k ns));
          start = has-all_in_epoch k c.chunk ns ∙ inside;
        },
        refl,
        contents-all_in_epoch k ns,
        refl,
        record { list_lock = refl; readers_count = refl; strong_count = refl },
      )
