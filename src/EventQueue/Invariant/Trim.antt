-- ===== src/EventQueue/Invariant/Trim.antt =====
-- The invariant's parts under the removal of nodes from the front.
use lockless_event_queue.Base.{
  ℕ, ◌+◌, ◌%◌, ◌^◌, ◌<◌, ◌≡◌, refl, sym, ◌∙◌, true, Option, none, some, [], ◌∷◌, ◌++◌, arith, ◌==◌,
  if◌then◌else◌, length, Bool-cases, inl, inr,
}
use mathlib.Core.List.{append_assoc}
use lockless_event_queue.Chain.{Chain, has, IsChain, has-append}
use lockless_event_queue.World.{Cursor}
use lockless_event_queue.EventQueue.Settings.{Settings}
use lockless_event_queue.EventQueue.Cleanup.{sub_usize}
use lockless_event_queue.EventQueue.Cleanup.InOrder.{
  removed, kept, contents, release_caps, forget_all, removed-append-kept,
}
use lockless_event_queue.EventQueue.Invariant.{caps, IdsUpTo, HasEpoch, HasSizes, StartIn}

module _ {T : Type 0} where
  pub nonempty-kept : (ns : Chain T) → 0 < length ns → 0 < length (kept ns)
  nonempty-kept [] h = h
  nonempty-kept (x ∷ []) h = h
  nonempty-kept ((p, n) ∷ y ∷ ns) h = ground (arith, nonempty-kept (y ∷ ns))

  pub IdsUpTo-kept : (k : ℕ) (ns : Chain T) → IdsUpTo k ns → IdsUpTo k (kept ns)
  IdsUpTo-kept k [] h = h
  IdsUpTo-kept k (x ∷ []) h = h
  IdsUpTo-kept k ((p, n) ∷ y ∷ ns) h = elim (Bool-cases (n.entered == n.read)) [
    | inl e ↦ rw e (IdsUpTo-kept k (y ∷ ns) h.1)
    | inr e ↦ rw e h
  ]

  pub HasEpoch-kept : (e : ℕ) (ns : Chain T) → HasEpoch e ns → HasEpoch e (kept ns)
  HasEpoch-kept e [] h = h
  HasEpoch-kept e (x ∷ []) h = h
  HasEpoch-kept e ((p, n) ∷ y ∷ ns) h = elim (Bool-cases (n.entered == n.read)) [
    | inl i ↦ rw i (HasEpoch-kept e (y ∷ ns) h.1)
    | inr i ↦ rw i h
  ]

  pub HasSizes-kept : (S : Settings) (ns : Chain T) → HasSizes S ns → HasSizes S (kept ns)
  HasSizes-kept S [] h = h
  HasSizes-kept S (x ∷ []) h = h
  HasSizes-kept S ((p, n) ∷ y ∷ ns) h = elim (Bool-cases (n.entered == n.read)) [
    | inl i ↦ rw i (HasSizes-kept S (y ∷ ns) h.2)
    | inr i ↦ rw i h
  ]

  pub caps-append : (xs ys : Chain T) → caps (xs ++ ys) ≡ caps xs + caps ys
  caps-append [] ys = omega arith
  caps-append ((p, n) ∷ xs) ys = omega (arith, caps-append xs ys)

  pub contents-append : (xs ys : Chain T) → contents (xs ++ ys) ≡ contents xs ++ contents ys
  contents-append [] ys = refl
  contents-append ((p, n) ∷ xs) ys = simp (contents-append xs ys, append_assoc)

  -- Freed chunks and their items: nothing is lost, and the order is kept.
  pub contents-kept : (ns : Chain T) → contents (removed ns) ++ contents (kept ns) ≡ contents ns
  contents-kept ns = sym (contents-append (removed ns) (kept ns)) ∙ rw (removed-append-kept ns)

  abbrev pub HasSmall : Chain T → Type 0
  HasSmall [] = Unit
  HasSmall ((p, n) ∷ ns) = (n.cap < 2 ^ 32) × HasSmall ns

  HasSmall-removed : (ns : Chain T) → IsChain ns → HasSmall (removed ns)
  HasSmall-removed [] v = tt
  HasSmall-removed (x ∷ []) v = tt
  HasSmall-removed ((p, n) ∷ y ∷ ns) v = elim (Bool-cases (n.entered == n.read)) [
    | inl i ↦ rw i (v.2.cap_small, HasSmall-removed (y ∷ ns) v.3)
    | inr i ↦ rw i tt
  ]

  pub release_caps-sum :
      (gone : Chain T) (t r : ℕ)
      → HasSmall gone
      → t ≡ (caps gone + r) % 2 ^ 64
      → release_caps t gone ≡ r % 2 ^ 64
  release_caps-sum [] t r small h = omega arith
  release_caps-sum ((p, n) ∷ gone) t r small h =
      release_caps-sum gone (sub_usize t n.cap) r small.1 (omega arith)

  -- The total follows the capacities of the chunks that are left.
  pub release_caps-kept :
      (t : ℕ) (ns : Chain T)
      → IsChain ns
      → t ≡ caps ns % 2 ^ 64
      → release_caps t (removed ns) ≡ caps (kept ns) % 2 ^ 64
  release_caps-kept t ns v h =
      release_caps-sum (removed ns) t (caps (kept ns)) (HasSmall-removed ns v)
        (h ∙ rw (← caps-append (removed ns) (kept ns), removed-append-kept ns))

  pub forget_all-none : (gone : Chain T) → forget_all gone none ≡ none
  forget_all-none [] = refl
  forget_all-none ((p, n) ∷ gone) = forget_all-none gone

  pub forget_all-has :
      (gone : Chain T) (c : Cursor)
      → forget_all gone (some c) ≡ (if has c.chunk gone then none else some c)
  forget_all-has [] c = refl
  forget_all-has ((p, n) ∷ gone) c = ground (arith, forget_all-none gone, forget_all-has gone c)

  pub StartIn-kept :
      (ns : Chain T) (c : Option Cursor)
      → StartIn ns c
      → StartIn (kept ns) (forget_all (removed ns) c)
  StartIn-kept ns none h = rw (forget_all-none (removed ns)) tt
  StartIn-kept ns (some c) h =
      let both = has-append c.chunk (removed ns) (kept ns) in
      let all : has c.chunk (removed ns ++ kept ns) ≡ true = rw (removed-append-kept ns) h in
      rw (forget_all-has (removed ns) c) (elim (Bool-cases (has c.chunk (removed ns))) [
        | inl i ↦ rw i tt
        | inr i ↦ rw i (ground (arith, both, all))
      ])
