-- ===== src/Attendance/Delivers.antt =====
-- What a reader of src/event_reader.rs has not read yet, when the chain changes.
use lockless_event_queue.Base.{
  ℕ, zero, suc, Option, ◌≤◌, ◌≡◌, refl, sym, ap, ap₂, ◌∙◌, subst, true, false, List, [], ◌∷◌, ◌++◌,
  length, inl, inr, arith, ◌==◌, if◌then◌else◌, if_true, if_false, Bool-cases, ==_refl, drop,
}
use mathlib.Core.List.{append-nil, append_assoc}
use lockless_event_queue.DynamicChunk.{Ptr}
use lockless_event_queue.Node.{Node}
use lockless_event_queue.Chain.{Chain, has, has-append, IsChain, ne-of-has}
use lockless_event_queue.World.{Cursor}
use lockless_event_queue.EventQueue.Cleanup.InOrder.{removed, kept, contents}
use lockless_event_queue.EventQueue.Invariant.Trim.{contents-append}
use lockless_event_queue.Attendance.{Spot, occupants, Stands, Attended}
use lockless_event_queue.Attendance.Count.{removed-vacant}
use lockless_event_queue.Attendance.Split.{Stands-Split}
use lockless_event_queue.Attendance.Thin.{occupants-le, Stands-has}
use lockless_event_queue.Attendance.Unread.{unread}

drop-prefix :
    {A : Type 0} (k : ℕ) (xs ys : List A) → k ≤ length xs → drop k (xs ++ ys) ≡ drop k xs ++ ys
drop-prefix zero xs ys h = refl
drop-prefix (suc k) [] ys h = absurd (omega arith)
drop-prefix (suc k) (x ∷ xs) ys h = drop-prefix k xs ys (omega arith)

module _ {T : Type 0} (s : Spot) where
  pub unread-middle :
      (xs : Chain T) (p : Ptr) (n : Node T) (ys : Chain T)
      → p ≡ s.chunk
      → has p xs ≡ false
      → unread s (xs ++ (p, n) ∷ ys) ≡ drop s.index n.items ++ contents ys
  unread-middle [] p n ys at out = if_true _ _ (ap (λ q. p == q) (sym at) ∙ ==_refl p)
  unread-middle ((q, m) ∷ xs) p n ys at out =
      let other : (q == s.chunk) ≡ false = ap (λ r. q == r) (sym at) ∙ ground (arith, out) in
      if_false _ _ other ∙ unread-middle xs p n ys at (ground (arith, out))

  -- In the reader's chunk there are as many items as it has read.
  abbrev Within : Chain T → Type 0
  Within [] = Unit
  Within ((p, n) ∷ ns) = ((p == s.chunk) ≡ true → s.index ≤ length n.items) × Within ns

  Within-absent : (ns : Chain T) → has s.chunk ns ≡ false → Within ns
  Within-absent [] out = tt
  Within-absent ((p, n) ∷ ns) out =
      (λ e. absurd (ground (arith, e, out)), Within-absent ns (ground (arith, out)))

  Within-middle :
      (xs : Chain T) (p : Ptr) (n : Node T) (ys : Chain T)
      → p ≡ s.chunk
      → s.index ≤ length n.items
      → IsChain (xs ++ (p, n) ∷ ys)
      → Within (xs ++ (p, n) ∷ ys)
  Within-middle [] p n ys at within v =
      (λ _. within, Within-absent ys (ap (λ q. has q ys) (sym at) ∙ v.1))
  Within-middle ((q, m) ∷ xs) p n ys at within v =
      let inside : has p (xs ++ (p, n) ∷ ys) ≡ true =
        ground (arith, has-append p xs ((p, n) ∷ ys), ==_refl p) in
      let other : (q == s.chunk) ≡ false =
        ap (λ r. q == r) (sym at) ∙ ne-of-has q p (xs ++ (p, n) ∷ ys) v.1 inside in
      (λ e. absurd (ground (arith, e, other)), Within-middle xs p n ys at within v.3)

  Within-Stands : (ns : Chain T) → IsChain ns → Stands ns s → Within ns
  Within-Stands ns v stands =
      let (xs, passed, p, n, ys, shape, place) = Stands-Split s ns stands in
      let named = shape ∙ sym (append_assoc xs passed ((p, n) ∷ ys)) in
      subst Within (sym named) (
        Within-middle (xs ++ passed) p n ys place.chunk
          (omega (arith, place.within, place.snapshot.earlier)) (subst IsChain named v))

  -- Behind the reader, the items of the nodes `ys` are added, and some to the last node.
  unread-snoc :
      (xs : Chain T) (p : Ptr) (n m : Node T) (ys : Chain T) (added : List T)
      → m.items ≡ n.items ++ added
      → contents ys ≡ []
      → has s.chunk (xs ++ (p, n) ∷ []) ≡ true
      → Within (xs ++ (p, n) ∷ [])
      → unread s (xs ++ (p, m) ∷ ys) ≡ unread s (xs ++ (p, n) ∷ []) ++ added
  unread-snoc [] p n m ys added items empty inside within =
      let here : (p == s.chunk) ≡ true = ground (arith, inside) in
      rw here (
        ap₂ (λ is bs. drop s.index is ++ bs) items empty
        ∙ append-nil (drop s.index (n.items ++ added))
        ∙ drop-prefix s.index n.items added (within.0 here)
        ∙ ap (λ is. is ++ added) (sym (append-nil (drop s.index n.items))))
  unread-snoc ((q, k) ∷ xs) p n m ys added items empty inside within =
      elim (Bool-cases (q == s.chunk)) [
        | inl here ↦ rw here (
            ap (λ is. drop s.index k.items ++ is)
              (contents-append xs ((p, m) ∷ ys)
                ∙ ap₂ (λ is bs. contents xs ++ (is ++ bs)) items empty
                ∙ ap (λ is. contents xs ++ is) (append-nil (n.items ++ added))
                ∙ sym (append_assoc (contents xs) n.items added)
                ∙ ap (λ is. (contents xs ++ is) ++ added) (sym (append-nil n.items))
                ∙ ap (λ is. is ++ added) (sym (contents-append xs ((p, n) ∷ []))))
            ∙ sym (append_assoc (drop s.index k.items) (contents (xs ++ (p, n) ∷ [])) added))
        | inr other ↦
            rw other
              (unread-snoc xs p n m ys added items empty (ground (arith, inside, other)) within.1)
      ]

  unread-kept : (ns : Chain T) → has s.chunk (removed ns) ≡ false → unread s (kept ns) ≡ unread s ns
  unread-kept [] out = refl
  unread-kept (x ∷ []) out = refl
  unread-kept ((p, n) ∷ y ∷ ns) out = elim (Bool-cases (n.entered == n.read)) [
    | inl e ↦
        let other : (p == s.chunk) ≡ false = ground (arith, e, out) in
        rw (e, other) (unread-kept (y ∷ ns) (ground (arith, e, out)))
    | inr e ↦ rw e refl
  ]

module _ {T : Type 0} {start : Option Cursor} (s : Spot) (ss : List Spot) where
  -- A cleanup frees nothing that the reader has not read.
  pub unread-cleaned :
      (ns : Chain T) → Attended ns start (s ∷ ss) → unread s (kept ns) ≡ unread s ns
  unread-cleaned ns a = unread-kept s ns (elim (Bool-cases (has s.chunk (removed ns))) [
    | inl i ↦
        let empty =
          removed-vacant (occupants (s ∷ ss)) ns s.chunk a.counts
            (omega (arith, occupants-le (s ∷ ss) s.chunk, a.few)) i in
        absurd (ground (arith, empty, ==_refl s.chunk))
    | inr i ↦ i
  ])

  pub unread-behind :
      (xs : Chain T) (p : Ptr) (n m : Node T) (ys : Chain T) (added : List T)
      → m.items ≡ n.items ++ added
      → contents ys ≡ []
      → IsChain (xs ++ (p, n) ∷ [])
      → Attended (xs ++ (p, n) ∷ []) start (s ∷ ss)
      → unread s (xs ++ (p, m) ∷ ys) ≡ unread s (xs ++ (p, n) ∷ []) ++ added
  unread-behind xs p n m ys added items empty v a =
      unread-snoc s xs p n m ys added items empty
        (Stands-has s _ s.chunk a.stand.0 (ground (arith, ==_refl s.chunk)))
        (Within-Stands s _ v a.stand.0)

module _ {T : Type 0} where
  pub unread-same :
      (s t : Spot) (ns : Chain T)
      → s.chunk ≡ t.chunk
      → s.index ≡ t.index
      → unread s ns ≡ unread t ns
  unread-same s t [] at index = refl
  unread-same s t ((p, n) ∷ ns) at index =
      ap₂ (λ q (i : ℕ). if p == q then drop i n.items ++ contents ns else unread s ns) at index
      ∙ ap (λ is. if p == t.chunk then drop t.index n.items ++ contents ns else is)
          (unread-same s t ns at index)
