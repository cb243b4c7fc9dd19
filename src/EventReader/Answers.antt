-- ===== src/EventReader/Answers.antt =====
-- What `Iter::next` of src/event_reader.rs gives and changes, by the list of chunks.
use lockless_event_queue.Base.{
  ◌+◌, ◌≡◌, false, Option, none, [], ◌∷◌, ◌++◌, arith, ◌==◌, ltb, get_elem?, if◌then◌else◌, ==_refl,
}
use lockless_event_queue.DynamicChunk.{Ptr}
use lockless_event_queue.Node.{Node, node_state}
use lockless_event_queue.Chain.{Chain, head_ptr, has}
use lockless_event_queue.World.{World}
use lockless_event_queue.Attendance.{Snapshot, entered_once}
use lockless_event_queue.EventReader.{Iter}

module _ {T : Type 0} where
  -- The chunks from the one at an address on.
  abbrev pub from : Ptr → Chain T → Chain T
  from p [] = []
  from p ((q, n) ∷ ns) = if q == p then (q, n) ∷ ns else from p ns

  abbrev pub first_item : Chain T → Option T
  first_item [] = none
  first_item ((q, m) ∷ ns) = get_elem? m.items 0

  -- The item that `next` answers, from the iterator's chunk on: that at the index, up to the length
  -- in the snapshot, and then, if there was a next chunk, the first of that.
  abbrev pub answer : Iter → Snapshot → Chain T → Option T
  answer it s [] = none
  answer it s ((p, n) ∷ ns) =
      if ltb it.position.index s.len
      then get_elem? n.items it.position.index
      else if s.has_next
      then first_item ns
      else none

  -- The iterator in the next chunk, with the state that this has, behind its first item.
  abbrev pub enters : Iter → Chain T → Iter
  enters it [] = it
  enters it ((q, m) ∷ ns) = record it {
    position = record { chunk = q; index = elim m.items [ [] ↦ 0 | x ∷ xs ↦ 1 ] };
    state = node_state m (head_ptr ns);
  }

  abbrev pub goes_on : Iter → Snapshot → Chain T → Iter
  goes_on it s [] = it
  goes_on it s ((p, n) ∷ ns) =
      if ltb it.position.index s.len
      then record it { position = record (it.position) { index = it.position.index + 1 } }
      else if s.has_next
      then enters it ns
      else it

  -- The first chunk has been entered once more.
  abbrev pub enter_head : Chain T → Chain T
  enter_head [] = []
  enter_head ((q, m) ∷ ns) = (q, entered_once m) ∷ ns

  abbrev pub enter_behind : Ptr → Chain T → Chain T
  enter_behind p [] = []
  enter_behind p ((q, n) ∷ ns) =
      if q == p then (q, n) ∷ enter_head ns else (q, n) ∷ enter_behind p ns

  -- The chunks after the call: one that the iterator goes to has been entered once more.
  abbrev pub entering : Iter → Snapshot → Chain T → Chain T
  entering it s ns =
      if ltb it.position.index s.len
      then ns
      else if s.has_next
      then enter_behind it.position.chunk ns
      else ns

  -- The answer and the iterator, what else changes being the counter of a chunk.
  abbrev pub Answers :
      Iter → Snapshot → World T → Chain T → Option T × Iter → World T → Chain T → Type 0
  Answers it s w ns a w' ns' =
      (a ≡ (answer it s (from it.position.chunk ns), goes_on it s (from it.position.chunk ns)))
      × (w' ≡ record w { heap = w'.heap })
      × (ns' ≡ entering it s ns)

  pub from-middle :
      (xs : Chain T) (p : Ptr) (n : Node T) (ys : Chain T)
      → has p xs ≡ false
      → from p (xs ++ (p, n) ∷ ys) ≡ (p, n) ∷ ys
  from-middle [] p n ys out = rw (==_refl p)
  from-middle ((q, m) ∷ xs) p n ys out = ground (arith, from-middle xs p n ys)

  pub enter_behind-middle :
      (xs : Chain T) (p : Ptr) (n : Node T) (ys : Chain T)
      → has p xs ≡ false
      → enter_behind p (xs ++ (p, n) ∷ ys) ≡ xs ++ (p, n) ∷ enter_head ys
  enter_behind-middle [] p n ys out = rw (==_refl p)
  enter_behind-middle ((q, m) ∷ xs) p n ys out = ground (arith, enter_behind-middle xs p n ys)
