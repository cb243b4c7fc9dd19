-- ===== src/Attendance/Split.antt =====
-- The nodes of the chain that a reader of src/event_reader.rs stands on.
use lockless_event_queue.Base.{
  ◌≤◌, ◌≡◌, refl, sym, subst, ap, ap₂, ◌∙◌, ◌||◌, List, [], ◌∷◌, ◌++◌, arith, ◌==◌, inl, inr,
  length,
}
use lockless_event_queue.DynamicChunk.{Ptr}
use lockless_event_queue.Node.{Node}
use lockless_event_queue.Chain.{Chain, has}
use lockless_event_queue.World.{Cursor}
use lockless_event_queue.Attendance.{Spot, spot_at, IsSnapshot, among, visits, Covers, Stands}

module _ {T : Type 0} where
  abbrev pub addresses : Chain T → List Ptr
  addresses [] = []
  addresses ((p, n) ∷ ns) = p ∷ addresses ns

  -- The reader has passed `passed`, and is in the next node.
  pub record Place (s : Spot) (passed : Chain T) (p : Ptr) (n : Node T) (ys : Chain T)
      : Type 0 where
    pub behind : addresses passed ≡ s.behind
    pub chunk : p ≡ s.chunk
    pub snapshot : IsSnapshot s.snapshot n ys
    pub within : s.index ≤ s.snapshot.len

  -- The chain, split at the reader.
  abbrev pub Split : Spot → Chain T → Type 0
  Split s ns =
      (xs : Chain T) × (passed : Chain T) × (p : Ptr) × (n : Node T) × (ys : Chain T) × (ns
        ≡ xs ++ (passed ++ (p, n) ∷ ys))
      × Place s passed p n ys

  Covers-split :
      (s : Spot) (ns : Chain T) (bs : List Ptr)
      → Covers s ns bs
      → (passed : Chain T) × (p : Ptr) × (n : Node T) × (ys : Chain T) × (ns
          ≡ passed ++ (p, n) ∷ ys)
        × (addresses passed ≡ bs)
        × (p ≡ s.chunk)
        × IsSnapshot s.snapshot n ys
        × (s.index ≤ s.snapshot.len)
  Covers-split s [] bs c = absurd c
  Covers-split s ((p, n) ∷ ns) [] (at, old, within) = ([], p, n, ns, refl, refl, at, old, within)
  Covers-split s ((q, m) ∷ ns) (b ∷ bs) (at, c) =
      let (passed, p, n, ys, shape, behind, here, old, within) = Covers-split s ns bs c in
      (
        (q, m) ∷ passed,
        p,
        n,
        ys,
        ap (λ r. (q, m) ∷ r) shape,
        ap₂ (λ a r. a ∷ r) at behind,
        here,
        old,
        within,
      )

  pub Stands-Split : (s : Spot) (ns : Chain T) → Stands ns s → Split s ns
  Stands-Split s [] st = absurd st
  Stands-Split s ((q, m) ∷ ns) (inl c) =
      let (passed, p, n, ys, shape, behind, at, old, within) =
        Covers-split s ((q, m) ∷ ns) s.behind c in
      (
        [],
        passed,
        p,
        n,
        ys,
        shape,
        record { behind = behind; chunk = at; snapshot = old; within = within },
      )
  Stands-Split s ((q, m) ∷ ns) (inr st) =
      let (xs, passed, p, n, ys, shape, place) = Stands-Split s ns st in
      ((q, m) ∷ xs, passed, p, n, ys, ap (λ r. (q, m) ∷ r) shape, place)

  Covers-place :
      (s : Spot) (passed : Chain T) (p : Ptr) (n : Node T) (ys : Chain T)
      → (p ≡ s.chunk) × IsSnapshot s.snapshot n ys × (s.index ≤ s.snapshot.len)
      → Covers s (passed ++ (p, n) ∷ ys) (addresses passed)
  Covers-place s [] p n ys c = c
  Covers-place s (x ∷ passed) p n ys c = (refl, Covers-place s passed p n ys c)

  Stands-first :
      (s : Spot) (passed : Chain T) (p : Ptr) (n : Node T) (ys : Chain T)
      → Covers s (passed ++ (p, n) ∷ ys) s.behind
      → Stands (passed ++ (p, n) ∷ ys) s
  Stands-first s [] p n ys c = inl c
  Stands-first s (x ∷ passed) p n ys c = inl c

  pub Stands-Place :
      (s : Spot) (xs passed : Chain T) (p : Ptr) (n : Node T) (ys : Chain T)
      → Place s passed p n ys
      → Stands (xs ++ (passed ++ (p, n) ∷ ys)) s
  Stands-Place s [] passed p n ys v = Stands-first s passed p n ys (
      subst (Covers s (passed ++ (p, n) ∷ ys)) v.behind
        (Covers-place s passed p n ys (v.chunk, v.snapshot, v.within)))
  Stands-Place s (x ∷ xs) passed p n ys v = inr (Stands-Place s xs passed p n ys v)

  among-addresses : (r : Ptr) (ns : Chain T) → among r (addresses ns) ≡ has r ns
  among-addresses r [] = refl
  among-addresses r ((p, n) ∷ ns) = ap (λ b. p == r || b) (among-addresses r ns)

  -- The nodes that the reader is counted in.
  pub visits-Place :
      (s : Spot) (passed : Chain T) (p : Ptr) (n : Node T) (ys : Chain T) (r : Ptr)
      → Place s passed p n ys
      → visits r s ≡ (has r passed || p == r)
  visits-Place s passed p n ys r v =
      ap₂ (λ bs c. among r bs || c == r) (sym v.behind) (sym v.chunk)
      ∙ ap (λ b. b || p == r) (among-addresses r passed)

  no_addresses : (passed : Chain T) → addresses passed ≡ [] → passed ≡ []
  no_addresses [] e = refl
  no_addresses (x ∷ passed) e = absurd (omega (arith, ap length e))

  -- The node of a place that is not a session.
  pub Stands-at :
      (c : Cursor) (ns : Chain T)
      → Stands ns (spot_at c)
      → (xs : Chain T) × (n : Node T) × (ys : Chain T) × (ns ≡ xs ++ (c.chunk, n) ∷ ys)
        × (c.index ≤ length n.items)
  Stands-at c ns st =
      let (xs, passed, p, n, ys, shape, v) = Stands-Split (spot_at c) ns st in
      (
        xs,
        n,
        ys,
        shape ∙ ap₂ (λ ks k. xs ++ (ks ++ (k, n) ∷ ys)) (no_addresses passed v.behind) v.chunk,
        omega (arith, v.snapshot.earlier),
      )
