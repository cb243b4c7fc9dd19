-- ===== src/EventQueue/Invariant/Busy.antt =====
-- The invariant's parts when the nodes without readers go from the middle of a chain.
use lockless_event_queue.Base.{
  ℕ, ◌+◌, ◌%◌, ◌^◌, ◌<◌, ◌≡◌, refl, [], ◌∷◌, ◌++◌, arith, ◌==◌, length, length-append, Bool-cases,
  inl, inr,
}
use lockless_event_queue.DynamicChunk.{Ptr}
use lockless_event_queue.Node.{Node}
use lockless_event_queue.Chain.{Chain, last_ptr, IsChain}
use lockless_event_queue.EventQueue.Settings.{Settings}
use lockless_event_queue.EventQueue.Cleanup.InOrder.{release_caps}
use lockless_event_queue.EventQueue.Cleanup.Sweep.{idle, busy}
use lockless_event_queue.EventQueue.Invariant.{caps, IdsUpTo, HasEpoch, HasSizes}
use lockless_event_queue.EventQueue.Invariant.Trim.{HasSmall, caps-append, release_caps-sum}

module _ {T : Type 0} where
  pub last_ptr-append :
      (xs : Chain T) (y : Ptr × Node T) (ys : Chain T) → last_ptr (xs ++ y ∷ ys) ≡ last_ptr (y ∷ ys)
  last_ptr-append [] y ys = refl
  last_ptr-append (x ∷ []) y ys = refl
  last_ptr-append (x ∷ z ∷ xs) y ys = last_ptr-append (z ∷ xs) y ys

  IdsUpTo-skip :
      (k : ℕ) (f : Ptr) (x : Node T) (q : Ptr) (m : Node T) (ns : Chain T)
      → 0 < length ns
      → IdsUpTo k ((f, x) ∷ (q, m) ∷ ns)
      → IdsUpTo k ((f, x) ∷ ns)
  IdsUpTo-skip k f x q m [] some_more h = absurd (omega arith)
  IdsUpTo-skip k f x q m ((r, j) ∷ ns) some_more h = (omega (arith, h.0, h.1.0), h.1.1)

  pub IdsUpTo-busy :
      (k : ℕ) (f : Ptr) (x : Node T) (seg : Chain T) (y : Ptr × Node T) (ys : Chain T)
      → IdsUpTo k ((f, x) ∷ (seg ++ y ∷ ys))
      → IdsUpTo k ((f, x) ∷ (busy seg ++ y ∷ ys))
  IdsUpTo-busy k f x [] y ys h = h
  IdsUpTo-busy k f x ((q, m) ∷ seg) y ys h = elim (Bool-cases (m.entered == m.read)) [
    | inl i ↦ rw i (
        IdsUpTo-busy k f x seg y ys
          (IdsUpTo-skip k f x q m (seg ++ y ∷ ys) (omega (arith, length-append seg (y ∷ ys))) h))
    | inr i ↦ rw i (h.0, IdsUpTo-busy k q m seg y ys h.1)
  ]

  pub HasEpoch-busy :
      (e : ℕ) (seg ys : Chain T) → HasEpoch e (seg ++ ys) → HasEpoch e (busy seg ++ ys)
  HasEpoch-busy e [] ys h = h
  HasEpoch-busy e ((q, m) ∷ seg) ys h = elim (Bool-cases (m.entered == m.read)) [
    | inl i ↦ rw i (HasEpoch-busy e seg ys h.1)
    | inr i ↦ rw i (h.0, HasEpoch-busy e seg ys h.1)
  ]

  pub HasSizes-busy :
      (S : Settings) (seg ys : Chain T) → HasSizes S (seg ++ ys) → HasSizes S (busy seg ++ ys)
  HasSizes-busy S [] ys h = h
  HasSizes-busy S ((q, m) ∷ seg) ys h = elim (Bool-cases (m.entered == m.read)) [
    | inl i ↦ rw i (HasSizes-busy S seg ys h.2)
    | inr i ↦ rw i (h.0, h.1, HasSizes-busy S seg ys h.2)
  ]

  HasSmall-idle : (seg ys : Chain T) → IsChain (seg ++ ys) → HasSmall (idle seg)
  HasSmall-idle [] ys v = tt
  HasSmall-idle ((q, m) ∷ seg) ys v = elim (Bool-cases (m.entered == m.read)) [
    | inl i ↦ rw i (v.2.cap_small, HasSmall-idle seg ys v.3)
    | inr i ↦ rw i (HasSmall-idle seg ys v.3)
  ]

  caps-busy : (seg : Chain T) → caps seg ≡ caps (idle seg) + caps (busy seg)
  caps-busy [] = omega arith
  caps-busy ((q, m) ∷ seg) = elim (Bool-cases (m.entered == m.read)) [
    | inl i ↦ rw i (omega (arith, caps-busy seg))
    | inr i ↦ rw i (omega (arith, caps-busy seg))
  ]

  -- The total follows the capacities of the chunks that are left.
  pub release_caps-busy :
      (t : ℕ) (f : Ptr) (x : Node T) (seg ys : Chain T)
      → IsChain (seg ++ ys)
      → t ≡ caps ((f, x) ∷ (seg ++ ys)) % 2 ^ 64
      → release_caps t (idle seg) ≡ caps ((f, x) ∷ (busy seg ++ ys)) % 2 ^ 64
  release_caps-busy t f x seg ys v h =
      release_caps-sum (idle seg) t (caps ((f, x) ∷ (busy seg ++ ys))) (HasSmall-idle seg ys v)
        (omega (arith, h, caps-busy seg, caps-append seg ys, caps-append (busy seg) ys))
