-- ===== src/EventQueue/Invariant/Subscribe.antt =====
-- `subscribe` of src/event_queue.rs: the new reader is entered in the last chunk, at its end.
use lockless_event_queue.Base.{
  ℕ, ◌+◌, ◌^◌, ◌%◌, ◌≡◌, refl, sym, ap, ◌∙◌, Option, none, some, [], ◌∷◌, ◌++◌, arith, ◌==◌, length,
  if◌then◌else◌, Bool-cases, inl, inr, length-append,
}
use lockless_event_queue.DynamicChunk
use lockless_event_queue.DynamicChunk.{Ptr, null, add_usize}
use lockless_event_queue.Heap
use lockless_event_queue.Heap.{Heap}
use lockless_event_queue.Node.{Node, chunk_of, state-chunk_of, len-chunk_of, epoch-chunk_of}
use lockless_event_queue.Node.Methods.{enter-chunk_of}
use lockless_event_queue.Chain.{Chain, head_ptr-middle, has-append}
use lockless_event_queue.Chain.Append.{last_ptr-snoc, IsChain-middle, IsChain-replace}
use lockless_event_queue.Represents.{Holds-write}
use lockless_event_queue.World.{World, Cursor, ok}
use lockless_event_queue.World.Commands.{load-ok, modify-ok}
use lockless_event_queue.EventQueue.Settings.{Settings}
use lockless_event_queue.EventQueue.Life.{EventReader, subscribe}
use lockless_event_queue.EventQueue.Invariant.{caps, IdsUpTo, HasEpoch, HasSizes, StartIn, IsQueue}
use lockless_event_queue.Attendance.{entered_once}
use lockless_event_queue.EventQueue.Invariant.AddChunkKeeps.{last_node}

module _ {T : Type 0} (p : Ptr) (n : Node T) where
  IdsUpTo-enter :
      (xs : Chain T) (k : ℕ)
      → IdsUpTo k (xs ++ (p, n) ∷ [])
      → IdsUpTo k (xs ++ (p, entered_once n) ∷ [])
  IdsUpTo-enter [] k h = h
  IdsUpTo-enter (x ∷ []) k h = h
  IdsUpTo-enter (x ∷ y ∷ xs) k h = (h.0, IdsUpTo-enter (y ∷ xs) k h.1)

  HasEpoch-enter :
      (xs : Chain T) (e : ℕ)
      → HasEpoch e (xs ++ (p, n) ∷ [])
      → HasEpoch e (xs ++ (p, entered_once n) ∷ [])
  HasEpoch-enter [] e h = h
  HasEpoch-enter (x ∷ xs) e h = (h.0, HasEpoch-enter xs e h.1)

  HasSizes-enter :
      (xs : Chain T) (S : Settings)
      → HasSizes S (xs ++ (p, n) ∷ [])
      → HasSizes S (xs ++ (p, entered_once n) ∷ [])
  HasSizes-enter [] S h = h
  HasSizes-enter (x ∷ xs) S h = (h.0, h.1, HasSizes-enter xs S h.2)

  caps-enter : (xs : Chain T) → caps (xs ++ (p, entered_once n) ∷ []) ≡ caps (xs ++ (p, n) ∷ [])
  caps-enter [] = refl
  caps-enter ((q, k) ∷ xs) = ap (λ (c : ℕ). k.cap + c) (caps-enter xs)

  StartIn-enter :
      (xs : Chain T) (c : Option Cursor)
      → StartIn (xs ++ (p, n) ∷ []) c
      → StartIn (xs ++ (p, entered_once n) ∷ []) c
  StartIn-enter xs none h = tt
  StartIn-enter xs (some c) h =
      ground (
        arith,
        has-append c.chunk xs ((p, n) ∷ []),
        has-append c.chunk xs ((p, entered_once n) ∷ []),
      )

module _ {T : Type 0} (S : Settings) (e : ℕ) (w : World T) (xs : Chain T) (p : Ptr) (n : Node T)
    (q : IsQueue S e (xs ++ (p, n) ∷ []) w) where
  -- The world with one more reader.
  abbrev subscribed : World T
  subscribed = record w {
    heap = Heap.write w.list.last (chunk_of (entered_once n) null) w.heap;
    list = record (w.list) { readers_count = (w.list.readers_count + 1) % 2 ^ 32 };
    strong_count = if w.list.readers_count == 0 then w.strong_count + 1 else w.strong_count;
  }

  subscribed-IsQueue : IsQueue S e (xs ++ (p, entered_once n) ∷ []) subscribed
  subscribed-IsQueue =
      let (ne, out, rest, well) = IsChain-middle xs p n [] q.rep.chain in
      let l = last_node S e w xs p n q in
      record {
        rep = record {
          held = λ r.
              ap (λ a. Heap.read r (Heap.write a (chunk_of (entered_once n) null) w.heap)) l.at
              ∙ Holds-write w.heap xs p n (entered_once n) [] out q.rep.held r;
          chain = IsChain-replace xs p n (entered_once n) [] q.rep.chain (record {
            items_fit = well.items_fit;
            cap_small = well.cap_small;
            epoch_small = well.epoch_small;
          });
          first = q.rep.first ∙ head_ptr-middle p n (entered_once n) xs [] [];
          last = l.at ∙ sym (last_ptr-snoc xs p (entered_once n));
          no_free_chunk = q.rep.no_free_chunk;
        };
        nonempty = omega (arith, length-append xs ((p, entered_once n) ∷ []));
        start_unlocked = q.start_unlocked;
        ids = IdsUpTo-enter p n xs w.list.chunk_id_counter q.ids;
        epochs = HasEpoch-enter p n xs e q.epochs;
        sizes = HasSizes-enter p n xs S q.sizes;
        total = q.total ∙ ap (λ (c : ℕ). c % 2 ^ 64) (sym (caps-enter p n xs));
        start = StartIn-enter p n xs w.start_position q.start;
      }

  -- The world before the reader enters the chunk.
  abbrev counted : ℕ → World T
  counted handles = record w {
    list = record (w.list) { readers_count = (w.list.readers_count + 1) % 2 ^ 32 };
    strong_count = handles;
  }

  -- The reader that `subscribe` makes.
  abbrev pub subscriber : EventReader
  subscriber = record {
    position = record { chunk = w.list.last; index = length n.items };
    start_position_epoch = record { inner = n.epoch };
  }

  subscribe-ok : subscribe w ≡ ok subscriber subscribed
  unfolding subscribe
  subscribe-ok =
      let l = last_node S e w xs p n q in
      elim (Bool-cases (w.list.readers_count == 0)) [
        | inl first ↦ rw (
          first,
          load-ok w.list.last (counted (w.strong_count + 1)) l.holds,
          state-chunk_of n null,
          modify-ok w.list.last (counted (w.strong_count + 1)) l.holds DynamicChunk.enter,
          enter-chunk_of n null,
          len-chunk_of l.node null,
          epoch-chunk_of l.node null,
        )
        | inr more ↦ rw (
          more,
          load-ok w.list.last (counted w.strong_count) l.holds,
          state-chunk_of n null,
          modify-ok w.list.last (counted w.strong_count) l.holds DynamicChunk.enter,
          enter-chunk_of n null,
          len-chunk_of l.node null,
          epoch-chunk_of l.node null,
        )
      ]

  -- On a well-formed queue, `subscribe` runs to its end and makes a reader in the last chunk,
  -- behind the items that are there, with the chunk's epoch. The last chunk has been entered once
  -- more, the queue is well formed with the same dropped items and one reader more (modulo 2^32),
  -- and the first reader adds a handle of the queue. The start position and the lock on the list
  -- are as before.
  pub subscribe-IsQueue :
      (w' : World T) × (subscribe w ≡ ok subscriber w')
      × IsQueue S e (xs ++ (p, entered_once n) ∷ []) w'
      × (w'.dropped ≡ w.dropped)
      × (w'.list.readers_count ≡ (w.list.readers_count + 1) % 2 ^ 32)
      × (w'.strong_count
          ≡ (if w.list.readers_count == 0 then w.strong_count + 1 else w.strong_count))
      × (w'.start_position ≡ w.start_position)
      × (w'.list_lock ≡ w.list_lock)
  subscribe-IsQueue = (subscribed, subscribe-ok, subscribed-IsQueue, refl, refl, refl, refl, refl)
