-- ===== src/Examples/Words.antt =====
-- The theorems on src/dynamic_chunk.rs, src/chunk_state.rs, src/cursor.rs and src/utils.rs at small
-- values.
use lockless_event_queue.Base.{ℕ, ◌+◌, ◌%◌, ◌^◌, ◌≡◌, true, false, not, [], ◌∷◌, some, arith}
use lockless_event_queue.Utils.{bittest_x86}
use lockless_event_queue.Utils.Epochs.{increments, increments-mod}
use lockless_event_queue.ChunkState.{
  ChunkState, pack, unpack, set_len, has_next, set_has_next, set_epoch,
}
use lockless_event_queue.ChunkState.Roundtrip.{IsState, unpack-pack, has_next-pack, set_fields-pack}
use lockless_event_queue.DynamicChunk.{
  null, DynamicChunk, capacity_error, extend, try_push, recycle, from_recycled,
}
use lockless_event_queue.Node.{Node, IsNode, chunk_of}
use lockless_event_queue.Node.Methods.{filled, extend-chunk_of, try_push-chunk_of}
use lockless_event_queue.Node.Reuse.{reused, recycle-from_recycled}
use lockless_event_queue.EventQueue.Cleanup.{unoccupied}
use lockless_event_queue.EventQueue.Start.{cursor_lt, cursor_cmp, is_ge}
use lockless_event_queue.EventQueue.Start.Order.{is_lt, cursor_lt-cursor_cmp}
use lockless_event_queue.Examples.{node_a, node_a-IsNode}

abbrev state : ChunkState
state = record { len = 7; epoch = record { inner = 3 }; has_next = true }

state-IsState : IsState state
state-IsState = record { len_small = omega arith; epoch_small = omega arith }

unpack-pack_example : unpack (pack state) ≡ state
unpack-pack_example = unpack-pack state state-IsState

has_next-pack_example : has_next (pack state) ≡ bittest_x86 32 (pack state)
has_next-pack_example = has_next-pack state state-IsState

set_fields-pack_example :
    (set_len (pack state) 8 ≡ pack (record state { len = 8 }))
    × (set_has_next (pack state) false ≡ pack (record state { has_next = false }))
    × (set_epoch (pack state) (record { inner = 4 })
        ≡ pack (record state { epoch = record { inner = 4 } }))
set_fields-pack_example =
    set_fields-pack state state-IsState 8 false (record { inner = 4 }) (omega arith) (omega arith)

increments-mod_example :
    (increments 3 (record { inner = 2147483646 })).inner ≡ (2147483646 + 3) % 2 ^ 31
increments-mod_example = increments-mod 3 (record { inner = 2147483646 }) (omega arith)

cursor_lt-cursor_cmp_example :
    (cursor_lt 1 9 2 0 ≡ is_lt (cursor_cmp 1 9 2 0))
    × (is_ge (cursor_cmp 1 9 2 0) ≡ not (cursor_lt 1 9 2 0))
cursor_lt-cursor_cmp_example = cursor_lt-cursor_cmp 1 9 2 0

-- A chunk with room for one more item.
abbrev node : Node ℕ
node = record { id = 2; cap = 4; items = 1 ∷ 2 ∷ 3 ∷ []; epoch = 5; entered = 2; read = 2 }

node-IsNode : IsNode node
node-IsNode = record { items_fit = omega arith; cap_small = omega arith; epoch_small = omega arith }

extend-chunk_of_example :
    extend (chunk_of node 9) (4 ∷ 5 ∷ [])
    ≡ some (capacity_error tt, 5 ∷ [], chunk_of (filled node (4 ∷ 5 ∷ [])) 9)
extend-chunk_of_example = extend-chunk_of node-IsNode 9 (4 ∷ 5 ∷ [])

try_push-chunk_of_example :
    try_push (chunk_of node_a 9) 5 ≡ some (capacity_error 5, chunk_of node_a 9)
try_push-chunk_of_example = try_push-chunk_of node_a-IsNode 9 5

recycle-from_recycled_example :
    (recycled : DynamicChunk ℕ) × (recycle (chunk_of node 9) ≡ some (1 ∷ 2 ∷ 3 ∷ [], recycled))
    × (from_recycled recycled 3 (record { inner = 5 }) ≡ chunk_of (reused node 3 5) null)
    × (unoccupied (from_recycled recycled 3 (record { inner = 5 })) ≡ false)
recycle-from_recycled_example = recycle-from_recycled node-IsNode 9 3 5 (omega arith) (omega arith)
