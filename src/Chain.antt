-- ===== src/Chain.antt =====
-- The linked list of chunks as a list: the nodes from `first` on, each at its address.
pub mod Append
pub mod Ids
use lockless_event_queue.Base.{
  ℕ, suc, ◌≤◌, ◌<◌, ◌≡◌, ◌≢◌, refl, ap, ◌∙◌, inl, inr, Bool-cases, Bool, true, false, ◌||◌, Option,
  none, some, List, [], ◌∷◌, ◌++◌, arith, ◌==◌, if◌then◌else◌, length,
}
use lockless_event_queue.DynamicChunk.{Ptr, null, DynamicChunk}
use lockless_event_queue.Heap.{Heap, read, write, erase}
use lockless_event_queue.Heap.Laws.{read-erase, length-erase}
use lockless_event_queue.Node.{Node, IsNode, chunk_of}

abbrev pub Chain : Type 0 → Type 0
Chain T = List (Ptr × Node T)

module _ {T : Type 0} where
  -- The address of the first node, or null.
  abbrev pub head_ptr : Chain T → Ptr
  head_ptr [] = null
  head_ptr ((p, _) ∷ _) = p

  abbrev pub last_ptr : Chain T → Ptr
  last_ptr [] = null
  last_ptr ((p, _) ∷ []) = p
  last_ptr (_ ∷ y ∷ ns) = last_ptr (y ∷ ns)

  abbrev pub has : Ptr → Chain T → Bool
  has p [] = false
  has p ((q, _) ∷ ns) = q == p || has p ns

  -- The chunk at an address. Each points at the next node.
  abbrev pub find : Ptr → Chain T → Option (DynamicChunk T)
  find p [] = none
  find p ((q, n) ∷ ns) = if q == p then some (chunk_of n (head_ptr ns)) else find p ns

  -- Addresses that are not null and differ, and well-formed nodes.
  abbrev pub IsChain : Chain T → Type 0
  IsChain [] = Unit
  IsChain ((p, n) ∷ ns) = (p ≢ null) × (has p ns ≡ false) × IsNode n × IsChain ns

  -- A heap that holds the chunks of a chain and nothing else.
  abbrev pub Holds : Heap T → Chain T → Type 0
  Holds h ns = (p : Ptr) → read p h ≡ find p ns

  pub find-absent : (p : Ptr) (ns : Chain T) → has p ns ≡ false → find p ns ≡ none
  find-absent p [] h = refl
  find-absent p ((q, n) ∷ ns) h = ground (arith, find-absent p ns)

  pub has-append : (p : Ptr) (xs ys : Chain T) → has p (xs ++ ys) ≡ (has p xs || has p ys)
  has-append p [] ys = refl
  has-append p ((q, n) ∷ xs) ys = ground (arith, has-append p xs ys)

  -- A node in the middle, and what changing it changes.
  pub find-middle :
      (p : Ptr) (n : Node T) (xs ys : Chain T)
      → has p xs ≡ false
      → find p (xs ++ (p, n) ∷ ys) ≡ some (chunk_of n (head_ptr ys))
  find-middle p n [] ys h = ground arith
  find-middle p n ((q, m) ∷ xs) ys h = ground (arith, find-middle p n xs ys)

  pub head_ptr-middle :
      (p : Ptr) (n m : Node T) (xs ys zs : Chain T)
      → head_ptr (xs ++ (p, n) ∷ ys) ≡ head_ptr (xs ++ (p, m) ∷ zs)
  head_ptr-middle p n m [] ys zs = refl
  head_ptr-middle p n m (x ∷ xs) ys zs = refl

  pub find-replace :
      (p q : Ptr) (n m : Node T) (xs ys : Chain T)
      → has p xs ≡ false
      → find q (xs ++ (p, m) ∷ ys)
        ≡ (if p == q then some (chunk_of m (head_ptr ys)) else find q (xs ++ (p, n) ∷ ys))
  find-replace p q n m [] ys h = ground arith
  find-replace p q n m ((r, k) ∷ xs) ys h =
      ground (arith, head_ptr-middle p n m xs ys ys, find-replace p q n m xs ys)

  pub ne-of-has : (p q : Ptr) (ns : Chain T) → has p ns ≡ false → has q ns ≡ true → (p == q) ≡ false
  ne-of-has p q ns out i = ground arith

  -- Distinct addresses need as many allocations.
  length-le-allocated :
      (ns : Chain T) (h : Heap T)
      → IsChain ns
      → ((p : Ptr) → has p ns ≡ true → (c : DynamicChunk T) × (read p h ≡ some c))
      → length ns ≤ length h
  length-le-allocated [] h v held = omega arith
  length-le-allocated ((p, n) ∷ ns) h v held =
      let (c, e) = held p (ground arith) in
      let rest = length-le-allocated ns (erase p h) v.3 (λ q i.
        let (d, f) = held q (ground arith) in
        (d, ground (arith, read-erase p q h, ne-of-has p q ns v.1 i, f))) in
      omega (arith, length-erase p c h e, rest)

  found : (p : Ptr) (ns : Chain T) → has p ns ≡ true → (c : DynamicChunk T) × (find p ns ≡ some c)
  found p [] i = absurd (cc)
  found p ((q, n) ∷ ns) i = elim (Bool-cases (q == p)) [
    | inl e ↦ (chunk_of n (head_ptr ns), rw e)
    | inr e ↦ let (c, f) = found p ns (ground arith) in (c, rw e f)
  ]

  pub length-le-heap : (h : Heap T) (ns : Chain T) → IsChain ns → Holds h ns → length ns ≤ length h
  length-le-heap h ns v held =
      length-le-allocated ns h v (λ p i. let (c, f) = found p ns i in (c, held p ∙ f))
