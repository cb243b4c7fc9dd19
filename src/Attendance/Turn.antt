-- ===== src/Attendance/Turn.antt =====
-- One reader of src/event_reader.rs enters or leaves a chunk, and the others stay where they are.
use lockless_event_queue.Base.{
  ℕ, ◌+◌, ◌^◌, ◌<◌, ◌≡◌, refl, sym, subst, ap, ap₂, ◌∙◌, ◌||◌, true, false, Option, List, [], ◌∷◌,
  ◌++◌, arith, ◌==◌, of_bool, length, drop, if◌then◌else◌,
}
use mathlib.Core.List.{append_assoc}
use lockless_event_queue.DynamicChunk.{Ptr}
use lockless_event_queue.Node.{Node}
use lockless_event_queue.Chain.{Chain, has, has-append, IsChain}
use lockless_event_queue.Chain.Append.{IsChain-middle}
use lockless_event_queue.World.{Cursor}
use lockless_event_queue.EventQueue.Invariant.Recount.{
  Recounted, Recounted-refl, Recounted-append, recount, length-Recounted, contents-Recounted,
}
use lockless_event_queue.Attendance.{
  Spot, entered_once, left_once, visits, occupants, Stands, AllStand, Counts, Attended,
}
use lockless_event_queue.Attendance.Follow.{Follows, behind, stays}
use lockless_event_queue.Attendance.Split.{Place, Stands-Place, visits-Place}
use lockless_event_queue.Attendance.Unread.{unread}
use lockless_event_queue.Attendance.Thin.{AllStand-Follows, StartStands-Follows}
use lockless_event_queue.Attendance.Count.{with_one, Counts-ext, Counts-enter, Counts-leave}

module _ {T : Type 0} where
  pub Follows-Recounted : (s : Spot) (ns ms : Chain T) → Recounted ns ms → Follows s ns ms
  Follows-Recounted s [] ms r = behind
  Follows-Recounted s ((p, n) ∷ ns) ms (a, b, rest, e, r) =
      subst (Follows s ((p, n) ∷ ns)) (sym e) (
        stays
          (record {
            no_fewer = omega arith;
            closed = λ more. (omega (arith, more, length-Recounted ns rest r), refl);
          })
          (Follows-Recounted s ns rest r))

  pub AllStand-Recounted :
      (ns ms : Chain T) (ss : List Spot) → Recounted ns ms → AllStand ns ss → AllStand ms ss
  AllStand-Recounted ns ms ss r all =
      AllStand-Follows [] ss (λ q i. absurd (cc)) (λ s _. Follows-Recounted s ns ms r) all

  pub Attended-Recounted :
      {start : Option Cursor} {ss : List Spot} (ns ms : Chain T) (ss' : List Spot)
      → Recounted ns ms
      → Counts (occupants ss') ms
      → AllStand ms ss'
      → length ss' < 2 ^ 64
      → Attended ns start ss
      → Attended ms start ss'
  Attended-Recounted {start} ns ms ss' r counts all few a = record {
    counts = counts;
    stand = all;
    place = StartStands-Follows start (λ s. Follows-Recounted s ns ms r) a.place;
    few = few;
  }

  pub Recounted-middle :
      (xs : Chain T) (p : Ptr) (n : Node T) (ys : Chain T) (a b : ℕ)
      → Recounted (xs ++ (p, n) ∷ ys) (xs ++ (p, recount n a b) ∷ ys)
  Recounted-middle xs p n ys a b = Recounted-append xs _ _ (a, b, ys, refl, Recounted-refl ys)

  -- The reader `s` reads on in its chunk.
  pub Attended-again :
      {start : Option Cursor} {ns : Chain T} (s s' : Spot) (ss : List Spot)
      → ((r : Ptr) → visits r s ≡ visits r s')
      → Stands ns s'
      → Attended ns start (s ∷ ss)
      → Attended ns start (s' ∷ ss)
  Attended-again {ns = ns} s s' ss same stands a =
      Attended-Recounted ns ns (s' ∷ ss) (Recounted-refl ns)
        (Counts-ext _ _ ns (λ r _. ap (λ b. of_bool b + occupants ss r) (same r)) a.counts)
        (stands, a.stand.1) a.few a

  -- Somebody enters the chunk `q`: `ss` before, `ss'` then.
  pub Attended-enter :
      {start : Option Cursor} {ss : List Spot} (xs : Chain T) (q : Ptr) (m : Node T) (ys : Chain T)
      (ss' : List Spot)
      → IsChain (xs ++ (q, m) ∷ ys)
      → ((r : Ptr) → with_one q (occupants ss) r ≡ occupants ss' r)
      → AllStand (xs ++ (q, entered_once m) ∷ ys) ss'
      → length ss' < 2 ^ 64
      → Attended (xs ++ (q, m) ∷ ys) start ss
      → Attended (xs ++ (q, entered_once m) ∷ ys) start ss'
  Attended-enter {ss = ss} xs q m ys ss' chain more all few a =
      let (ne, before, after, v) = IsChain-middle xs q m ys chain in
      Attended-Recounted _ _ ss' (Recounted-middle xs q m ys _ _)
        (Counts-ext _ _ (xs ++ (q, entered_once m) ∷ ys) (λ r _. more r)
          (Counts-enter (occupants ss) xs q m ys before after a.counts))
        all few a

  -- Somebody leaves the chunk `p`.
  pub Attended-leave :
      {start : Option Cursor} {ss : List Spot} (xs : Chain T) (p : Ptr) (n : Node T) (ys : Chain T)
      (ss' : List Spot)
      → IsChain (xs ++ (p, n) ∷ ys)
      → ((r : Ptr) → occupants ss r ≡ with_one p (occupants ss') r)
      → AllStand (xs ++ (p, n) ∷ ys) ss'
      → Attended (xs ++ (p, n) ∷ ys) start ss
      → length ss' < 2 ^ 64
      → Attended (xs ++ (p, left_once n) ∷ ys) start ss'
  Attended-leave {ss = ss} xs p n ys ss' chain less all a few =
      let (ne, before, after, v) = IsChain-middle xs p n ys chain in
      Attended-Recounted _ _ ss' (Recounted-middle xs p n ys _ _)
        (Counts-leave (occupants ss') xs p n ys before after
          (Counts-ext _ _ (xs ++ (p, n) ∷ ys) (λ r _. less r) a.counts))
        (AllStand-Recounted _ _ ss' (Recounted-middle xs p n ys _ _) all) few a

  -- The reader `s` goes on from its chunk, behind those that it has passed, to the next.
  pub Attended-onward :
      {start : Option Cursor} (xs passed : Chain T) (p : Ptr) (n : Node T) (q : Ptr) (m : Node T)
      (zs : Chain T) (s s' : Spot) (ss : List Spot)
      → IsChain (xs ++ (passed ++ (p, n) ∷ (q, m) ∷ zs))
      → Place s passed p n ((q, m) ∷ zs)
      → Place s' (passed ++ (p, n) ∷ []) q (entered_once m) zs
      → Attended (xs ++ (passed ++ (p, n) ∷ (q, m) ∷ zs)) start (s ∷ ss)
      → Attended (xs ++ (passed ++ (p, n) ∷ (q, entered_once m) ∷ zs)) start (s' ∷ ss)
  Attended-onward {start} xs passed p n q m zs s s' ss chain v v' a =
      subst (λ ks. Attended ks start (s' ∷ ss)) (again (entered_once m))
        (Attended-enter (xs ++ (passed ++ (p, n) ∷ [])) q m zs (s' ∷ ss) named
          (λ r. ground (
            arith,
            visits-Place s passed p n ((q, m) ∷ zs) r v,
            visits-Place s' (passed ++ (p, n) ∷ []) q (entered_once m) zs r v',
            has-append r passed ((p, n) ∷ []),
            out r,
          ))
          (
            subst (λ ks. Stands ks s') (sym (reassoc (entered_once m)))
                (Stands-Place s' xs (passed ++ (p, n) ∷ []) q (entered_once m) zs v'),
            AllStand-Recounted _ _ ss (Recounted-middle (xs ++ (passed ++ (p, n) ∷ [])) q m zs _ _)
                rest.stand.1,
          )
          a.few rest)
    where
      reassoc :
          (k : Node T)
          → (xs ++ (passed ++ (p, n) ∷ [])) ++ (q, k) ∷ zs
            ≡ xs ++ ((passed ++ (p, n) ∷ []) ++ (q, k) ∷ zs)
      reassoc k = append_assoc xs (passed ++ (p, n) ∷ []) ((q, k) ∷ zs)

      again :
          (k : Node T)
          → (xs ++ (passed ++ (p, n) ∷ [])) ++ (q, k) ∷ zs ≡ xs ++ (passed ++ (p, n) ∷ (q, k) ∷ zs)
      again k = reassoc k ∙ ap (λ r. xs ++ r) (append_assoc passed ((p, n) ∷ []) ((q, k) ∷ zs))

      named : IsChain ((xs ++ (passed ++ (p, n) ∷ [])) ++ (q, m) ∷ zs)
      named = subst IsChain (sym (again m)) chain

      rest : Attended ((xs ++ (passed ++ (p, n) ∷ [])) ++ (q, m) ∷ zs) start (s ∷ ss)
      rest = subst (λ ks. Attended ks start (s ∷ ss)) (sym (again m)) a

      out : (r : Ptr) → (q == r) ≡ true → (has r passed || p == r) ≡ false
      out r same =
          let at : q ≡ r = ground (arith, same) in
          let before = (IsChain-middle (xs ++ (passed ++ (p, n) ∷ [])) q m zs named).1 in
          subst (λ k. (has k passed || p == k) ≡ false) at
            (ground (
              arith,
              before,
              has-append q xs (passed ++ (p, n) ∷ []),
              has-append q passed ((p, n) ∷ []),
            ))

  -- Nobody has more or less to read in a chain with other counters.
  pub unread-Recounted : (s : Spot) (ns ms : Chain T) → Recounted ns ms → unread s ms ≡ unread s ns
  unread-Recounted s [] ms r = ap (unread s) r
  unread-Recounted s ((p, n) ∷ ns) ms (a, b, rest, e, r) =
      ap (unread s) e
      ∙ ap₂ (λ is js. if p == s.chunk then drop s.index n.items ++ is else js)
          (contents-Recounted ns rest r) (unread-Recounted s ns rest r)
