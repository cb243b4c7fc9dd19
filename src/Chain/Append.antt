-- ===== src/Chain/Append.antt =====
-- A chain with its last node named, which is how the writer sees it, and the link of a new node.
use lockless_event_queue.Base.{
  ◌≡◌, ◌≢◌, refl, sym, ◌∙◌, false, none, some, [], ◌∷◌, ◌++◌, arith, ◌==◌, if◌then◌else◌,
}
use lockless_event_queue.DynamicChunk.{Ptr, null}
use lockless_event_queue.Heap.{Heap, read, write}
use lockless_event_queue.Heap.Laws.{read-write}
use lockless_event_queue.Node.{Node, IsNode, chunk_of}
use lockless_event_queue.Chain.{
  Chain, last_ptr, has, find, IsChain, Holds, head_ptr-middle, has-append, find-middle,
}

module _ {T : Type 0} where
  pub last_ptr-snoc : (xs : Chain T) (p : Ptr) (n : Node T) → last_ptr (xs ++ (p, n) ∷ []) ≡ p
  last_ptr-snoc [] p n = refl
  last_ptr-snoc (x ∷ []) p n = refl
  last_ptr-snoc (x ∷ y ∷ xs) p n = last_ptr-snoc (y ∷ xs) p n

  -- What a chain says of a node in the middle.
  pub IsChain-middle :
      (xs : Chain T) (p : Ptr) (n : Node T) (ys : Chain T)
      → IsChain (xs ++ (p, n) ∷ ys)
      → (p ≢ null) × (has p xs ≡ false) × (has p ys ≡ false) × IsNode n
  IsChain-middle [] p n ys v = (v.0, refl, v.1, v.2)
  IsChain-middle ((q, m) ∷ xs) p n ys v =
      let (ne, out, rest, ok) = IsChain-middle xs p n ys v.3 in
      (ne, ground (arith, v.1, has-append q xs ((p, n) ∷ ys), out), rest, ok)

  -- The nodes from one in the middle on.
  pub IsChain-from : (xs ys : Chain T) → IsChain (xs ++ ys) → IsChain ys
  IsChain-from [] ys v = v
  IsChain-from ((q, m) ∷ xs) ys v = IsChain-from xs ys v.3

  pub IsChain-replace :
      (xs : Chain T) (p : Ptr) (n m : Node T) (ys : Chain T)
      → IsChain (xs ++ (p, n) ∷ ys)
      → IsNode m
      → IsChain (xs ++ (p, m) ∷ ys)
  IsChain-replace [] p n m ys v ok = (v.0, v.1, ok, v.3)
  IsChain-replace ((q, k) ∷ xs) p n m ys v ok = (
    v.0,
    has-append q xs ((p, m) ∷ ys) ∙ sym (has-append q xs ((p, n) ∷ ys)) ∙ v.1,
    v.2,
    IsChain-replace xs p n m ys v.3 ok,
  )

  pub IsChain-snoc :
      (ns : Chain T) {q : Ptr} {m : Node T}
      → IsChain ns
      → q ≢ null
      → has q ns ≡ false
      → IsNode m
      → IsChain (ns ++ (q, m) ∷ [])
  IsChain-snoc [] v ne out ok = (ne, refl, ok, tt)
  IsChain-snoc ((p, n) ∷ ns) {q} {m} v ne out ok = (
    v.0,
    ground (arith, v.1, has-append p ns ((q, m) ∷ [])),
    v.2,
    IsChain-snoc ns v.3 ne (ground arith) ok,
  )

  find-link :
      (xs : Chain T) (p q r : Ptr) (n m : Node T)
      → has p xs ≡ false
      → has q xs ≡ false
      → (q == p) ≡ false
      → find r (xs ++ (p, n) ∷ (q, m) ∷ []) ≡ (
          if p == r
          then some (chunk_of n q)
          else if q == r
          then some (chunk_of m null)
          else find r (xs ++ (p, n) ∷ []))
  find-link [] p q r n m hp hq ne = ground arith
  find-link ((s, k) ∷ xs) p q r n m hp hq ne =
      ground (arith, head_ptr-middle p n n xs ((q, m) ∷ []) [], find-link xs p q r n m)

  has-none : (q : Ptr) (ns : Chain T) → find q ns ≡ none → has q ns ≡ false
  has-none q [] e = refl
  has-none q ((p, n) ∷ ns) e = ground (arith, has-none q ns)

  pub Holds-absent :
      (h : Heap T) (ns : Chain T) (q : Ptr) → Holds h ns → read q h ≡ none → has q ns ≡ false
  Holds-absent h ns q held e = has-none q ns (sym (held q) ∙ e)

  -- A new chunk at `q`, and the last node linked to it.
  pub Holds-link :
      (h : Heap T) (xs : Chain T) (p q : Ptr) (n m : Node T)
      → IsChain (xs ++ (p, n) ∷ [])
      → Holds h (xs ++ (p, n) ∷ [])
      → read q h ≡ none
      → Holds (write p (chunk_of n q) ((q, chunk_of m null) ∷ h)) (xs ++ (p, n) ∷ (q, m) ∷ [])
  unfolding read
  Holds-link h xs p q n m v held unused r =
      let (ne, out, rest, ok) = IsChain-middle xs p n [] v in
      let away = Holds-absent h (xs ++ (p, n) ∷ []) q held unused in
      ground (
        arith,
        find-link xs p q r n m,
        has-append q xs ((p, n) ∷ []),
        find-middle p n xs [] out,
        held p,
        held r,
        read-write p r (chunk_of n q) (chunk_of n null) ((q, chunk_of m null) ∷ h),
      )
