-- ===== src/Attendance/Thin.antt =====
-- The readers of src/event_reader.rs when chunks are freed, added or written: the cleanups of
-- src/event_queue.rs free no chunk that somebody is in.
use lockless_event_queue.Base.{
  ◌≤◌, ◌<◌, ◌≡◌, refl, true, false, ◌||◌, Option, none, some, List, [], ◌∷◌, ◌++◌, arith, ◌==◌,
  length, inl, inr, Bool-cases, length-append,
}
use lockless_event_queue.DynamicChunk.{Ptr}
use lockless_event_queue.Node.{Node}
use lockless_event_queue.Chain.{Chain, has, ne-of-has}
use lockless_event_queue.World.{Cursor}
use lockless_event_queue.EventQueue.Cleanup.InOrder.{removed, kept, forget_all}
use lockless_event_queue.EventQueue.Cleanup.Sweep.{idle, busy}
use lockless_event_queue.Attendance.{
  Spot, spot_at, among, visits, occupants, Covers, Stands, AllStand, StartStands, Counts, Attended,
}
use lockless_event_queue.EventQueue.Invariant.Trim.{forget_all-none, forget_all-has}
use lockless_event_queue.Attendance.Count.{
  Counts-kept, Counts-busy, Counts-before, removed-vacant, idle-vacant,
}
use lockless_event_queue.Attendance.Follow.{Follows, behind, stays, goes, Stands-Follows}

pub occupants-le : (ss : List Spot) (p : Ptr) → occupants ss p ≤ length ss
occupants-le [] p = omega arith
occupants-le (s ∷ ss) p = ground (arith, occupants-le ss p)

module _ {T : Type 0} where
  -- A reader is in none of some nodes.
  abbrev pub Away : Spot → Chain T → Type 0
  Away s gone = (q : Ptr) → has q gone ≡ true → visits q s ≡ false

  -- Nobody is in any of some nodes.
  abbrev pub Vacant : List Spot → Chain T → Type 0
  Vacant ss gone = (q : Ptr) → has q gone ≡ true → occupants ss q ≡ 0

  pub Follows-refl : (s : Spot) (ns : Chain T) → Follows s ns ns
  Follows-refl s [] = behind
  Follows-refl s ((p, n) ∷ ns) =
      stays (record { no_fewer = omega arith; closed = λ more. (more, refl) }) (Follows-refl s ns)

  pub Follows-kept : (s : Spot) (ns : Chain T) → Away s (removed ns) → Follows s ns (kept ns)
  Follows-kept s [] away = behind
  Follows-kept s (x ∷ []) away = Follows-refl s (x ∷ [])
  Follows-kept s ((p, n) ∷ y ∷ ns) away = elim (Bool-cases (n.entered == n.read)) [
    | inl e ↦
        rw e (
          goes (away p (ground arith))
            (Follows-kept s (y ∷ ns) (λ q i. away q (ground (arith, i)))))
    | inr e ↦ rw e (Follows-refl s ((p, n) ∷ y ∷ ns))
  ]

  pub Follows-busy :
      (s : Spot) (seg ys : Chain T)
      → 0 < length ys
      → Away s (idle seg)
      → Follows s (seg ++ ys) (busy seg ++ ys)
  Follows-busy s [] ys more away = Follows-refl s ys
  Follows-busy s ((p, n) ∷ seg) ys more away = elim (Bool-cases (n.entered == n.read)) [
    | inl e ↦ rw e (
        goes (away p (ground arith))
          (Follows-busy s seg ys more (λ q i. away q (ground (arith, i)))))
    | inr e ↦ rw e (
        stays
          (record {
            no_fewer = omega arith;
            closed = λ _. (omega (arith, length-append (busy seg) ys, more), refl);
          })
          (Follows-busy s seg ys more (λ q i. away q (ground (arith, i)))))
  ]

  -- Chunks behind the last one, and more items in the last one.
  pub Follows-snoc :
      (s : Spot) (xs : Chain T) (p : Ptr) (n m : Node T) (ys : Chain T)
      → length n.items ≤ length m.items
      → Follows s (xs ++ (p, n) ∷ []) (xs ++ (p, m) ∷ ys)
  Follows-snoc s [] p n m ys fewer =
      stays (record { no_fewer = fewer; closed = λ more. absurd (omega (arith, more)) }) behind
  Follows-snoc s (x ∷ xs) p n m ys fewer =
      stays
        (record {
          no_fewer = omega arith;
          closed = λ _. (omega (arith, length-append xs ((p, m) ∷ ys)), refl);
        })
        (Follows-snoc s xs p n m ys fewer)

  pub AllStand-Follows :
      (gone : Chain T) {ns ms : Chain T} (ss : List Spot)
      → Vacant ss gone
      → ((s : Spot) → Away s gone → Follows s ns ms)
      → AllStand ns ss
      → AllStand ms ss
  AllStand-Follows gone [] vacant follows all = tt
  AllStand-Follows gone (s ∷ ss) vacant follows (st, all) = (
    Stands-Follows s (follows s (λ q i. ground (arith, vacant q i))) st,
    AllStand-Follows gone ss (λ q i. omega (arith, vacant q i)) follows all,
  )

  StartStands-forget_all :
      (gone : Chain T) {ns ms : Chain T} (start : Option Cursor)
      → ((s : Spot) → Away s gone → Follows s ns ms)
      → StartStands ns start
      → StartStands ms (forget_all gone start)
  StartStands-forget_all gone none follows st = rw (forget_all-none gone) tt
  StartStands-forget_all gone (some c) follows st = elim (Bool-cases (has c.chunk gone)) [
    | inl i ↦ rw (forget_all-has gone c, i) tt
    | inr out ↦
        rw (forget_all-has gone c, out)
          (Stands-Follows (spot_at c) (follows (spot_at c) (λ q i. ne-of-has c.chunk q gone out i))
            st)
  ]

  -- With a start position in the chain, or none.
  pub StartStands-Follows :
      {ns ms : Chain T} (start : Option Cursor)
      → ((s : Spot) → Follows s ns ms)
      → StartStands ns start
      → StartStands ms start
  StartStands-Follows none follows st = tt
  StartStands-Follows (some c) follows st = Stands-Follows (spot_at c) (follows (spot_at c)) st

  -- A cleanup, which gives up a start position in a chunk that goes.
  pub Attended-kept :
      (ns : Chain T) (start : Option Cursor) (ss : List Spot)
      → Attended ns start ss
      → Attended (kept ns) (forget_all (removed ns) start) ss
  Attended-kept ns start ss a = record {
    counts = Counts-kept (occupants ss) ns a.counts;
    stand =
        AllStand-Follows (removed ns) ss
          (λ q i.
            removed-vacant (occupants ss) ns q a.counts (omega (arith, occupants-le ss q, a.few)) i)
          (λ s. Follows-kept s ns) a.stand;
    place = StartStands-forget_all (removed ns) start (λ s. Follows-kept s ns) a.place;
    few = a.few;
  }

  Follows-behind :
      (s : Spot) (p : Ptr) (n : Node T) (seg : Chain T) (y : Ptr × Node T) (ys : Chain T)
      → Away s (idle seg)
      → Follows s ((p, n) ∷ (seg ++ y ∷ ys)) ((p, n) ∷ (busy seg ++ y ∷ ys))
  Follows-behind s p n seg y ys away =
      stays
        (record {
          no_fewer = omega arith;
          closed = λ _. (omega (arith, length-append (busy seg) (y ∷ ys)), refl);
        })
        (Follows-busy s seg (y ∷ ys) (omega arith) away)

  idle-absent : (p : Ptr) (seg : Chain T) → has p seg ≡ false → has p (idle seg) ≡ false
  idle-absent p [] out = refl
  idle-absent p ((q, m) ∷ seg) out = ground (arith, idle-absent p seg)

  -- A sweep of the chunks between the first one and that of the start position.
  pub Attended-busy :
      (x : Ptr × Node T) (seg : Chain T) (y : Ptr × Node T) (ys : Chain T) (c : Cursor)
      (ss : List Spot)
      → has c.chunk seg ≡ false
      → Attended (x ∷ (seg ++ y ∷ ys)) (some c) ss
      → Attended (x ∷ (busy seg ++ y ∷ ys)) (some c) ss
  Attended-busy (p, n) seg y ys c ss out a = record {
    counts = (a.counts.0, a.counts.1, Counts-busy (occupants ss) seg (y ∷ ys) a.counts.2);
    stand =
        AllStand-Follows (idle seg) ss
          (λ q i.
            idle-vacant (occupants ss) seg q (Counts-before (occupants ss) seg (y ∷ ys) a.counts.2)
              (omega (arith, occupants-le ss q, a.few)) i)
          (λ s. Follows-behind s p n seg y ys) a.stand;
    place =
        Stands-Follows (spot_at c)
          (Follows-behind (spot_at c) p n seg y ys
            (λ q i. ne-of-has c.chunk q (idle seg) (idle-absent c.chunk seg out) i))
          a.place;
    few = a.few;
  }

  -- Nothing goes.
  pub Attended-Follows :
      {ns ms : Chain T} {start : Option Cursor} {ss : List Spot}
      → ((s : Spot) → Follows s ns ms)
      → Counts (occupants ss) ms
      → Attended ns start ss
      → Attended ms start ss
  Attended-Follows {start = start} {ss = ss} follows counts a = record {
    counts = counts;
    stand = AllStand-Follows [] ss (λ q i. absurd (cc)) (λ s _. follows s) a.stand;
    place = StartStands-Follows start follows a.place;
    few = a.few;
  }

  Covers-has :
      (s : Spot) (ns : Chain T) (bs : List Ptr) (q : Ptr)
      → Covers s ns bs
      → (among q bs || s.chunk == q) ≡ true
      → has q ns ≡ true
  Covers-has s [] bs q c i = absurd c
  Covers-has s ((p, n) ∷ ns) [] q (at, _, _) i = ground (arith, at, i)
  Covers-has s ((p, n) ∷ ns) (b ∷ bs) q (at, c) i = elim (Bool-cases (p == q)) [
    | inl e ↦ ground (arith, e)
    | inr e ↦ ground (arith, Covers-has s ns bs q c (ground (arith, at, e, i)))
  ]

  pub Stands-has :
      (s : Spot) (ns : Chain T) (q : Ptr) → Stands ns s → visits q s ≡ true → has q ns ≡ true
  Stands-has s [] q st i = absurd st
  Stands-has s ((p, n) ∷ ns) q (inl c) i = Covers-has s ((p, n) ∷ ns) s.behind q c i
  Stands-has s ((p, n) ∷ ns) q (inr st) i = ground (arith, Stands-has s ns q st i)

  -- Nobody is anywhere else.
  pub occupants-absent :
      (ss : List Spot) (ns : Chain T) (q : Ptr)
      → AllStand ns ss
      → has q ns ≡ false
      → occupants ss q ≡ 0
  occupants-absent [] ns q all out = refl
  occupants-absent (s ∷ ss) ns q (st, all) out = elim (Bool-cases (visits q s)) [
    | inl i ↦ absurd (ground (arith, Stands-has s ns q st i, out))
    | inr i ↦ ground (arith, i, occupants-absent ss ns q all out)
  ]
