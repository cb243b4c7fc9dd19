-- ===== src/Attendance/Follow.antt =====
-- A reader of src/event_reader.rs stays where it is when the chain changes elsewhere.
use lockless_event_queue.Base.{
  ◌≤◌, ◌<◌, ◌≡◌, sym, ◌∙◌, true, false, List, [], ◌∷◌, ◌++◌, arith, length, inl, inr,
}
use lockless_event_queue.DynamicChunk.{Ptr}
use lockless_event_queue.Node.{Node}
use lockless_event_queue.Chain.{Chain}
use lockless_event_queue.World.{Cursor}
use lockless_event_queue.Attendance.{Spot, spot_at, among, visits, Covers, Stands}

module _ {T : Type 0} where
  -- A node with no items less, and none more if it has a successor, which it keeps.
  pub record Grown (n m : Node T) (ns ms : Chain T) : Type 0 where
    pub no_fewer : length n.items ≤ length m.items
    pub closed : 0 < length ns → (0 < length ms) × (length m.items ≡ length n.items)

  -- From one chain to another: of the old nodes, those that a reader visits are all there, and one
  -- that has gone was not the last.
  pub data Follows (s : Spot) : Chain T → Chain T → Type 0 where
    behind : {ms : Chain T} → Follows s [] ms
    stays :
        {p : Ptr} {n m : Node T} {ns ms : Chain T}
        → Grown n m ns ms
        → Follows s ns ms
        → Follows s ((p, n) ∷ ns) ((p, m) ∷ ms)
    goes :
        {p : Ptr} {n : Node T} {ns ms : Chain T}
        → visits p s ≡ false
        → Follows s ns ms
        → Follows s ((p, n) ∷ ns) ms

  -- A node where a reader's chunks begin is one of them.
  Covers-visits :
      (s : Spot) (p : Ptr) (n : Node T) (ns : Chain T) (bs : List Ptr)
      → ((r : Ptr) → among r bs ≡ true → visits r s ≡ true)
      → Covers s ((p, n) ∷ ns) bs
      → visits p s ≡ true
  Covers-visits s p n ns [] own (at, old, within) = ground (arith, at)
  Covers-visits s p n ns (b ∷ bs) own (at, c) = own p (ground (arith, at))

  Covers-Follows :
      (s : Spot) {ns ms : Chain T}
      → Follows s ns ms
      → (bs : List Ptr) → ((r : Ptr) → among r bs ≡ true → visits r s ≡ true)
      → Covers s ns bs
      → Covers s ms bs
  Covers-Follows s behind bs own c = absurd c
  Covers-Follows s (stays g f) [] own (at, old, within) = (
    at,
    record {
      earlier = omega (arith, old.earlier, g.no_fewer);
      epoch_small = old.epoch_small;
      finished = λ h.
          let (more, end) = old.finished h in
          let (more', same) = g.closed more in (more', end ∙ sym same);
    },
    within,
  )
  Covers-Follows s (stays g f) (b ∷ bs) own (at, c) =
      (at, Covers-Follows s f bs (λ r i. own r (ground (arith, i))) c)
  Covers-Follows s (goes {p} {n} {ns} away f) bs own c =
      absurd (ground (arith, away, Covers-visits s p n ns bs own c))

  pub Stands-Follows : (s : Spot) {ns ms : Chain T} → Follows s ns ms → Stands ns s → Stands ms s
  Stands-Follows s behind st = absurd st
  Stands-Follows s (stays g f) (inl c) =
      inl (Covers-Follows s (stays g f) s.behind (λ r i. ground (arith, i)) c)
  Stands-Follows s (stays g f) (inr st) = inr (Stands-Follows s f st)
  Stands-Follows s (goes {p} {n} {ns} away f) (inl c) =
      absurd (ground (arith, away, Covers-visits s p n ns s.behind (λ r i. ground (arith, i)) c))
  Stands-Follows s (goes away f) (inr st) = Stands-Follows s f st

  pub Stands-place :
      (xs : Chain T) (p : Ptr) (n : Node T) (ys : Chain T) (c : Cursor)
      → p ≡ c.chunk
      → c.index ≤ length n.items
      → Stands (xs ++ (p, n) ∷ ys) (spot_at c)
  Stands-place [] p n ys c at within = inl (
    at,
    record { earlier = within; epoch_small = omega arith; finished = λ h. absurd (cc) },
    omega arith,
  )
  Stands-place (x ∷ xs) p n ys c at within = inr (Stands-place xs p n ys c at within)
