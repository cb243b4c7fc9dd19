-- ===== src/EventQueue/Start/Earlier.antt =====
-- The comparisons of src/cursor.rs, which go by chunk ids, against the order of the list.
use lockless_event_queue.Base.{
  ℕ, ◌<◌, ◌≡◌, sym, ap, ap₂, ◌∙◌, Bool, true, false, not, [], ◌∷◌, arith, ◌==◌, ltb, if◌then◌else◌,
  Bool-cases, inl, inr,
}
use lockless_event_queue.DynamicChunk.{Ptr}
use lockless_event_queue.Node.{Node}
use lockless_event_queue.Chain.{Chain, has}
use lockless_event_queue.Chain.Ids.{id_at, found_at}
use lockless_event_queue.World.{World, Cursor, ok}
use lockless_event_queue.EventQueue.Settings.{Settings}
use lockless_event_queue.EventQueue.Start.{cursor_lt, cursor_is_lt, cursor_is_ge}
use lockless_event_queue.EventQueue.Start.Order.{cursor_is_lt-ok, cursor_is_ge-ok}
use lockless_event_queue.EventQueue.Invariant.{IdsUpTo, IsQueue}

module _ {T : Type 0} where
  -- Going along the list, the chunk of the first cursor comes before that of the second, or they
  -- are in the same chunk and the first has the smaller index. Ids play no part in it.
  abbrev pub earlier : Cursor → Cursor → Chain T → Bool
  earlier a b [] = false
  earlier a b ((p, n) ∷ ns) =
      if p == a.chunk
      then (if p == b.chunk then ltb a.index b.index else true)
      else if p == b.chunk
      then false
      else earlier a b ns

  -- Ids grow along the list.
  ids-follow :
      (k : ℕ) (p : Ptr) (n : Node T) (ns : Chain T) (q : Ptr)
      → IdsUpTo k ((p, n) ∷ ns)
      → has q ns ≡ true
      → n.id < id_at q ns
  ids-follow k p n [] q v inside = absurd (cc)
  ids-follow k p n ((r, m) ∷ ns) q v inside = elim (Bool-cases (r == q)) [
    | inl e ↦ ground (arith, e, v.0)
    | inr e ↦ ground (arith, e, v.0, ids-follow k r m ns q v.1 (ground (arith, e, inside)))
  ]

  ids-rest : (k : ℕ) (p : Ptr) (n : Node T) (ns : Chain T) → IdsUpTo k ((p, n) ∷ ns) → IdsUpTo k ns
  ids-rest k p n [] v = tt
  ids-rest k p n (x ∷ ns) v = v.1

  cursor_lt-earlier :
      (k : ℕ) (a b : Cursor) (ns : Chain T)
      → IdsUpTo k ns
      → has a.chunk ns ≡ true
      → has b.chunk ns ≡ true
      → cursor_lt (id_at a.chunk ns) a.index (id_at b.chunk ns) b.index ≡ earlier a b ns
  unfolding cursor_lt
  cursor_lt-earlier k a b [] v here there = absurd (cc)
  cursor_lt-earlier k a b ((p, n) ∷ ns) v here there = elim (Bool-cases (p == a.chunk)) [
    | inl at_a ↦ elim (Bool-cases (p == b.chunk)) [
      | inl at_b ↦ ground (arith, at_a, at_b)
      | inr not_b ↦
          let more = ids-follow k p n ns b.chunk v (ground (arith, not_b, there)) in
          ground (arith, at_a, not_b, more)
    ]
    | inr not_a ↦ elim (Bool-cases (p == b.chunk)) [
      | inl at_b ↦
          let more = ids-follow k p n ns a.chunk v (ground (arith, not_a, here)) in
          ground (arith, not_a, at_b, more)
      | inr not_b ↦
          let rest =
            cursor_lt-earlier k a b ns (ids-rest k p n ns v) (ground (arith, not_a, here))
              (ground (arith, not_b, there)) in
          ground (arith, not_a, not_b, rest)
    ]
  ]

-- On a well-formed queue, for two cursors in chunks of the list, the comparison `<`, which goes by
-- chunk ids, answers whether the first cursor is earlier by the order of the list: its chunk comes
-- first on the way along the links, or they are in the same chunk and its index is smaller. `>=`
-- answers the contrary.
pub cursor_is_lt-earlier :
    {T : Type 0} (S : Settings) {e : ℕ} (w : World T) (ns : Chain T) (a b : Cursor)
    → IsQueue S e ns w
    → has a.chunk ns ≡ true
    → has b.chunk ns ≡ true
    → (cursor_is_lt a b w ≡ ok (earlier a b ns) w)
      × (cursor_is_ge a b w ≡ ok (not (earlier a b ns)) w)
cursor_is_lt-earlier S w ns a b q here there =
    let (n, next, found, id) = found_at a.chunk ns here in
    let (m, next', found', id') = found_at b.chunk ns there in
    let order : cursor_lt n.id a.index m.id b.index ≡ earlier a b ns =
      ap₂ (λ (i j : ℕ). cursor_lt i a.index j b.index) (sym id) (sym id')
      ∙ cursor_lt-earlier w.list.chunk_id_counter a b ns q.ids here there in
    let held = q.rep.held a.chunk ∙ found in
    let held' = q.rep.held b.chunk ∙ found' in
    (
      cursor_is_lt-ok a b n m next next' w held held' ∙ ap (λ x. ok x w) order,
      cursor_is_ge-ok a b n m next next' w held held' ∙ ap (λ x. ok (not x) w) order,
    )
