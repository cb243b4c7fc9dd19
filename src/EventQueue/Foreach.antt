-- ===== src/EventQueue/Foreach.antt =====
-- `foreach_chunk_ptr_mut` of src/event_queue.rs. The variants over `&` and `&mut` differ in the
-- borrow alone. The closure's captured variables are the state that it passes on.
pub mod Walk
use lockless_event_queue.Base.{ℕ, zero, suc, ◌==◌, if◌then◌else◌, length}
use lockless_event_queue.DynamicChunk.{Ptr, null, DynamicChunk, next}
use lockless_event_queue.World.{World, Cmd, stop, out_of_fuel, pure, ◌>>=◌, load}

-- `ControlFlow<()>`
pub data ControlFlow : Type 0 where
  continue break : ControlFlow

module _ {T V : Type 0} (end : Ptr) (func : V → Ptr → Cmd T (V × ControlFlow)) where
  unfoldable pub walk : ℕ → Ptr → V → Cmd T V
  walk zero chunk_ptr v = λ _. stop out_of_fuel
  walk (suc fuel) chunk_ptr v =
      if chunk_ptr == null then pure v else if chunk_ptr == end then pure v else do
        chunk ← load chunk_ptr
        (v', proceed) ← func v chunk_ptr
        elim proceed [ break ↦ pure v' | continue ↦ walk fuel (next chunk) v' ]

-- The chunks of a list are allocations, so a round for each of these, and one to stop, suffice.
unfoldable pub foreach_chunk_ptr_mut :
    {T V : Type 0} → Ptr → Ptr → (V → Ptr → Cmd T (V × ControlFlow)) → V → Cmd T V
foreach_chunk_ptr_mut start end func v w = walk end func (suc (length w.heap)) start v w
