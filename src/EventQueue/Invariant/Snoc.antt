-- ===== src/EventQueue/Invariant/Snoc.antt =====
-- The invariant's parts when a node is appended, and when the last node changes.
use lockless_event_queue.Base.{
  ℕ, ◌+◌, ◌≤◌, ◌<◌, ◌≡◌, refl, ap, ◌∙◌, Option, none, some, List, [], ◌∷◌, ◌++◌, arith, length,
}
use mathlib.Core.List.{append-nil}
use lockless_event_queue.DynamicChunk.{Ptr}
use lockless_event_queue.Node.{Node}
use lockless_event_queue.Chain.{Chain, has-append}
use lockless_event_queue.World.{Cursor}
use lockless_event_queue.EventQueue.Settings.{Settings}
use lockless_event_queue.EventQueue.Cleanup.InOrder.{contents}
use lockless_event_queue.EventQueue.Invariant.{caps, IdsUpTo, HasEpoch, HasSizes, StartIn}
use lockless_event_queue.EventQueue.Invariant.Trim.{contents-append}

module _ {T : Type 0} where
  -- A list that is not empty ends in a node.
  pub unsnoc :
      (ns : Chain T)
      → 0 < length ns
      → (xs : Chain T) × (p : Ptr) × (n : Node T) × (ns ≡ xs ++ (p, n) ∷ [])
  unsnoc [] h = absurd (omega arith)
  unsnoc ((p, n) ∷ []) h = ([], p, n, refl)
  unsnoc (x ∷ y ∷ ns) h =
      let (xs, p, n, e) = unsnoc (y ∷ ns) (omega arith) in (x ∷ xs, p, n, ap (λ r. x ∷ r) e)

  pub IdsUpTo-snoc :
      (k : ℕ) (ns : Chain T) (q : Ptr) (m : Node T)
      → IdsUpTo k ns
      → k < m.id
      → IdsUpTo m.id (ns ++ (q, m) ∷ [])
  IdsUpTo-snoc k [] q m h lt = refl
  IdsUpTo-snoc k ((p, n) ∷ []) q m h lt = (rw h lt, refl)
  IdsUpTo-snoc k ((p, n) ∷ y ∷ ns) q m h lt = (h.0, IdsUpTo-snoc k (y ∷ ns) q m h.1 lt)

  pub HasEpoch-snoc :
      (e : ℕ) (ns : Chain T) (q : Ptr) (m : Node T)
      → HasEpoch e ns
      → m.epoch ≡ e
      → HasEpoch e (ns ++ (q, m) ∷ [])
  HasEpoch-snoc e [] q m h i = (i, tt)
  HasEpoch-snoc e (x ∷ ns) q m h i = (h.0, HasEpoch-snoc e ns q m h.1 i)

  pub HasSizes-snoc :
      (S : Settings) (ns : Chain T) (q : Ptr) (m : Node T)
      → HasSizes S ns
      → S.min_chunk_size ≤ m.cap
      → m.cap ≤ S.max_chunk_size
      → HasSizes S (ns ++ (q, m) ∷ [])
  HasSizes-snoc S [] q m h lo hi = (lo, hi, tt)
  HasSizes-snoc S (x ∷ ns) q m h lo hi = (h.0, h.1, HasSizes-snoc S ns q m h.2 lo hi)

  pub StartIn-snoc :
      (ns : Chain T) (x : Ptr × Node T) (c : Option Cursor)
      → StartIn ns c
      → StartIn (ns ++ x ∷ []) c
  StartIn-snoc ns x none h = tt
  StartIn-snoc ns x (some c) h = ground (arith, has-append c.chunk ns (x ∷ []))

  pub HasEpoch-last :
      (e : ℕ) (xs : Chain T) (p : Ptr) (n : Node T) → HasEpoch e (xs ++ (p, n) ∷ []) → n.epoch ≡ e
  HasEpoch-last e [] p n h = h.0
  HasEpoch-last e (x ∷ xs) p n h = HasEpoch-last e xs p n h.1

  pub HasSizes-last :
      (S : Settings) (xs : Chain T) (p : Ptr) (n : Node T)
      → HasSizes S (xs ++ (p, n) ∷ [])
      → (S.min_chunk_size ≤ n.cap) × (n.cap ≤ S.max_chunk_size)
  HasSizes-last S [] p n h = (h.0, h.1)
  HasSizes-last S (x ∷ xs) p n h = HasSizes-last S xs p n h.2

  -- New items in the last node.
  abbrev pub refill : Node T → List T → Node T
  refill n items = record n { items = items }

  module _ (p : Ptr) (n : Node T) (items : List T) where
    pub IdsUpTo-refill :
        (xs : Chain T) (k : ℕ)
        → IdsUpTo k (xs ++ (p, n) ∷ [])
        → IdsUpTo k (xs ++ (p, refill n items) ∷ [])
    IdsUpTo-refill [] k h = h
    IdsUpTo-refill (x ∷ []) k h = h
    IdsUpTo-refill (x ∷ y ∷ xs) k h = (h.0, IdsUpTo-refill (y ∷ xs) k h.1)

    pub HasEpoch-refill :
        (xs : Chain T) (e : ℕ)
        → HasEpoch e (xs ++ (p, n) ∷ [])
        → HasEpoch e (xs ++ (p, refill n items) ∷ [])
    HasEpoch-refill [] e h = h
    HasEpoch-refill (x ∷ xs) e h = (h.0, HasEpoch-refill xs e h.1)

    pub HasSizes-refill :
        (xs : Chain T) (S : Settings)
        → HasSizes S (xs ++ (p, n) ∷ [])
        → HasSizes S (xs ++ (p, refill n items) ∷ [])
    HasSizes-refill [] S h = h
    HasSizes-refill (x ∷ xs) S h = (h.0, h.1, HasSizes-refill xs S h.2)

    pub caps-refill :
        (xs : Chain T) → caps (xs ++ (p, refill n items) ∷ []) ≡ caps (xs ++ (p, n) ∷ [])
    caps-refill [] = refl
    caps-refill ((q, k) ∷ xs) = ap (λ (c : ℕ). k.cap + c) (caps-refill xs)

    pub StartIn-refill :
        (xs : Chain T) (c : Option Cursor)
        → StartIn (xs ++ (p, n) ∷ []) c
        → StartIn (xs ++ (p, refill n items) ∷ []) c
    StartIn-refill xs none h = tt
    StartIn-refill xs (some c) h = ground (
      arith,
      has-append c.chunk xs ((p, n) ∷ []),
      has-append c.chunk xs ((p, refill n items) ∷ []),
    )

  pub contents-snoc :
      (xs : Chain T) (p : Ptr) (n : Node T) → contents (xs ++ (p, n) ∷ []) ≡ contents xs ++ n.items
  contents-snoc xs p n =
      contents-append xs ((p, n) ∷ []) ∙ ap (λ r. contents xs ++ r) (append-nil n.items)
