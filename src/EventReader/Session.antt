-- ===== src/EventReader/Session.antt =====
-- A session of reading, `while let Some(event) = iter.next()`, with src/event_reader.rs.
use lockless_event_queue.Base.{
  ℕ, zero, suc, ◌+◌, ◌-◌, ◌≤◌, ◌<◌, ◌≡◌, refl, sym, ap, ◌∙◌, not, none, some, List, [], ◌∷◌, ◌++◌,
  arith, ◌==◌, if◌then◌else◌, length, get_elem?, take, drop, take-none, take-pos, take-length,
  ==_ne,
}
use lockless_event_queue.DynamicChunk.{Ptr, null}
use lockless_event_queue.Heap
use lockless_event_queue.Heap.{Heap}
use lockless_event_queue.Node.{Node, chunk_of}
use lockless_event_queue.Chain.{Chain, head_ptr, IsChain, Holds, find-middle}
use lockless_event_queue.Chain.Append.{IsChain-middle}
use lockless_event_queue.World.{World, Cmd, ok, out_of_fuel, halt, pure, ◌>>=◌}
use lockless_event_queue.Attendance.{Snapshot, snapshot_word, IsSnapshot, entered_once}
use lockless_event_queue.EventReader.{Iter, iter_next}

module _ {T : Type 0} where
  -- The client's loop: the items until `next` returns `None`.
  unfoldable pub read_all : ℕ → Iter → Cmd T (List T × Iter)
  read_all zero it = halt out_of_fuel
  read_all (suc fuel) it = do
    (value, it') ← iter_next it
    elim value [
      | none ↦ pure ([], it')
      | some x ↦ do (xs, it'') ← read_all fuel it'; pure (x ∷ xs, it'')
    ]

  -- The items behind the reader's chunk that a session gets to: up to an empty chunk.
  abbrev pub visible : Chain T → List T
  visible [] = []
  visible ((q, m) ∷ zs) = elim m.items [ [] ↦ [] | x ∷ xs ↦ x ∷ xs ++ visible zs ]

  -- The chunks behind the reader's after that: it has entered those that it got to.
  abbrev pub visited : Chain T → Chain T
  visited [] = []
  visited ((q, m) ∷ zs) = (q, entered_once m) ∷ elim m.items [ [] ↦ zs | x ∷ xs ↦ visited zs ]

  -- What a session gets from the index `i` on in the node `n`, with the snapshot `s` of it.
  abbrev pub reach : Snapshot → ℕ → Node T → Chain T → List T
  reach s i n ys = take (s.len - i) (drop i n.items) ++ (if s.has_next then visible ys else [])

  abbrev pub passed : Snapshot → Chain T → Chain T
  passed s ys = if s.has_next then visited ys else ys

  pub next_elem :
      (i : ℕ) (xs : List T)
      → i < length xs
      → (x : T) × (get_elem? xs i ≡ some x) × (drop i xs ≡ x ∷ drop (i + 1) xs)
  next_elem i [] h = absurd (omega arith)
  next_elem zero (x ∷ xs) h = (x, refl, refl)
  next_elem (suc i) (y ∷ xs) h =
      let (x, here, rest) = next_elem i xs (omega arith) in
      let e : suc (i + 1) ≡ suc i + 1 = omega arith in
      (x, here, rest ∙ ap (λ (k : ℕ). x ∷ drop k (y ∷ xs)) e)

  pub reach-item :
      (s : Snapshot) (i : ℕ) (n : Node T) (ys : Chain T) (x : T)
      → i < s.len
      → drop i n.items ≡ x ∷ drop (i + 1) n.items
      → reach s i n ys ≡ x ∷ reach s (i + 1) n ys
  reach-item s i n ys x within here =
      ap (λ r. r ++ (if s.has_next then visible ys else []))
        (ap (take (s.len - i)) here
          ∙ take-pos (s.len - i) x (drop (i + 1) n.items) (omega arith)
          ∙ ap (λ (k : ℕ). x ∷ take k (drop (i + 1) n.items)) (omega arith))

-- A session that yields `got`, changes the memory only, and leaves the chain `ns`.
abbrev pub Reads : {T : Type 0} → ℕ → Iter → World T → List T → Chain T → Type 0
Reads {T} fuel it w got ns =
    (it' : Iter) × (h : Heap T) × (read_all fuel it w ≡ ok (got, it') (record w { heap = h }))
    × Holds h ns
    × (it'.event_reader ≡ it.event_reader)

module _ {T : Type 0} where
  -- The first call of `next` yields `x`, and the others `got`.
  pub Reads-more :
      (fuel : ℕ) (it it' : Iter) (w : World T) (h : Heap T) (x : T) (got : List T) (ns : Chain T)
      → iter_next it w ≡ ok (some x, it') (record w { heap = h })
      → it'.event_reader ≡ it.event_reader
      → Reads fuel it' (record w { heap = h }) got ns
      → Reads (suc fuel) it w (x ∷ got) ns
  unfolding read_all
  Reads-more fuel it it' w h x got ns first same (last, h', runs, held, same') =
      (last, h', rw (first, runs), held, same' ∙ same)

  pub Reads-none :
      (fuel : ℕ) (it it' : Iter) (w : World T) (h : Heap T) (ns : Chain T)
      → iter_next it w ≡ ok (none, it') (record w { heap = h })
      → it'.event_reader ≡ it.event_reader
      → Holds h ns
      → Reads (suc fuel) it w [] ns
  unfolding read_all
  Reads-none fuel it it' w h ns runs same held = (it', h, rw runs, held, same)

  -- An iterator in the node `n` with a snapshot of it.
  pub record IsAt (it : Iter) (w : World T) (xs : Chain T) (p : Ptr) (n : Node T) (ys : Chain T)
      (s : Snapshot) : Type 0 where
    pub chain : IsChain (xs ++ (p, n) ∷ ys)
    pub held : Holds w.heap (xs ++ (p, n) ∷ ys)
    pub at : it.position.chunk ≡ p
    pub state : it.state ≡ snapshot_word s
    pub snapshot : IsSnapshot s n ys
    pub within : it.position.index ≤ s.len

  pub held-at :
      (it : Iter) (w : World T) (xs : Chain T) (p : Ptr) (n : Node T) (ys : Chain T) (s : Snapshot)
      → IsAt it w xs p n ys s
      → Heap.read it.position.chunk w.heap ≡ some (chunk_of n (head_ptr ys))
  held-at it w xs p n ys s v =
      ap (λ r. Heap.read r w.heap) v.at
      ∙ v.held p
      ∙ find-middle p n xs ys (IsChain-middle xs p n ys v.chain).1

  pub reach-end :
      (s : Snapshot) (i : ℕ) (n : Node T) (ys : Chain T)
      → i ≡ s.len
      → reach s i n ys ≡ (if s.has_next then visible ys else [])
  reach-end s i n ys e =
      ap (λ r. r ++ (if s.has_next then visible ys else []))
        (take-none (s.len - i) (drop i n.items) (omega (arith, e)))

  pub visible-cons :
      (q : Ptr) (m : Node T) (zs : Chain T) (x : T) (rest : List T)
      → m.items ≡ x ∷ rest
      → visible ((q, m) ∷ zs) ≡ x ∷ rest ++ visible zs
  visible-cons q m zs x rest e = rw e

  pub visible-empty :
      (q : Ptr) (m : Node T) (zs : Chain T) → m.items ≡ [] → visible ((q, m) ∷ zs) ≡ []
  visible-empty q m zs e = rw e

  pub visited-cons :
      (q : Ptr) (m : Node T) (zs : Chain T) (x : T) (rest : List T)
      → m.items ≡ x ∷ rest
      → visited ((q, m) ∷ zs) ≡ (q, entered_once m) ∷ visited zs
  visited-cons q m zs x rest e = rw e

  pub visited-empty :
      (q : Ptr) (m : Node T) (zs : Chain T)
      → m.items ≡ []
      → visited ((q, m) ∷ zs) ≡ (q, entered_once m) ∷ zs
  visited-empty q m zs e = rw e

  -- The flag of a node in the list is there exactly if there are nodes behind it.
  pub flagged :
      {A : Type 0} (zs : Chain T) (a b : A)
      → IsChain zs
      → (zs ≡ [] → a ≡ b)
      → (if not (head_ptr zs == null) then a else b) ≡ a
  flagged [] a b chain same = sym (same refl)
  flagged ((r, k) ∷ zs) a b chain same = rw (==_ne r null chain.0)

  pub next-reach :
      (m : Node T) (zs : Chain T) (x : T) (rest : List T)
      → IsChain zs
      → m.items ≡ x ∷ rest
      → take (length m.items - 1) (drop 1 m.items)
          ++ (if not (head_ptr zs == null) then visible zs else [])
        ≡ rest ++ visible zs
  next-reach m zs x rest chain e =
      rw (e, flagged zs (visible zs) [] chain (ap visible))
        (ap (λ r. r ++ visible zs) (ap (λ (k : ℕ). take k rest) (omega arith) ∙ take-length rest))
