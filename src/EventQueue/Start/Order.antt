-- ===== src/EventQueue/Start/Order.antt =====
-- The order on cursors of src/cursor.rs, which the source writes out twice.
use Prim.Native.Nat.{Ordering}
use lockless_event_queue.Base.{ℕ, ◌≡◌, Bool, true, false, not, arith, some}
use lockless_event_queue.DynamicChunk.{Ptr}
use lockless_event_queue.Heap
use lockless_event_queue.Node.{Node, chunk_of, id-chunk_of}
use lockless_event_queue.World.{World, Cursor, ok}
use lockless_event_queue.World.Commands.{load-ok}
use lockless_event_queue.EventQueue.Start.{cursor_cmp, cursor_lt, is_ge, cursor_is_lt, cursor_is_ge}

abbrev pub is_lt : Ordering → Bool
is_lt Ordering.lt = true
is_lt _ = false

-- For any chunk ids and indices, `lt` on cursors holds exactly if `cmp` answers `Less`, and `>=`,
-- which goes by `cmp`, is the negation of `lt`.
pub cursor_lt-cursor_cmp :
    (a i b j : ℕ)
    → (cursor_lt a i b j ≡ is_lt (cursor_cmp a i b j))
      × (is_ge (cursor_cmp a i b j) ≡ not (cursor_lt a i b j))
unfolding cursor_lt cursor_cmp
cursor_lt-cursor_cmp a i b j = (ground arith, ground arith)

module _ {T : Type 0} (a b : Cursor) (n m : Node T) (next next' : Ptr) (w : World T)
    (here : Heap.read a.chunk w.heap ≡ some (chunk_of n next))
    (there : Heap.read b.chunk w.heap ≡ some (chunk_of m next')) where
  pub cursor_is_lt-ok : cursor_is_lt a b w ≡ ok (cursor_lt n.id a.index m.id b.index) w
  unfolding cursor_is_lt
  cursor_is_lt-ok =
      rw (load-ok a.chunk w here, load-ok b.chunk w there, id-chunk_of n next, id-chunk_of m next')

  pub cursor_is_ge-ok : cursor_is_ge a b w ≡ ok (not (cursor_lt n.id a.index m.id b.index)) w
  unfolding cursor_is_ge
  cursor_is_ge-ok = rw (
    load-ok a.chunk w here,
    load-ok b.chunk w there,
    id-chunk_of n next,
    id-chunk_of m next',
    (cursor_lt-cursor_cmp n.id a.index m.id b.index).1,
  )
