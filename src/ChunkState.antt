-- ===== src/ChunkState.antt =====
-- src/chunk_state.rs: length, `has_next` and epoch of a chunk, packed in one atomic `u64`.
-- Bits 0..32 hold the length, bit 32 `has_next`, bits 33..64 the epoch. The atomic itself is the
-- word: `load` and `store` with any memory ordering read and write it.
pub mod Fields
pub mod Roundtrip
use lockless_event_queue.Base.{ℕ, ◌-◌, ◌*◌, ◌/◌, ◌%◌, ◌^◌, bit_and, bit_or, Bool, of_bool}
use lockless_event_queue.Utils.{bit_not, bittest, bitset, Epoch}

-- `ChunkState`
pub record ChunkState : Type 0 where
  pub len : ℕ
  pub epoch : Epoch
  pub has_next : Bool

-- `PackedChunkState(u64)`
abbrev pub PackedChunkState : Type 0
PackedChunkState = ℕ

-- `x << n` on a `u64`
abbrev shl : ℕ → ℕ → ℕ
shl x n = x * 2 ^ n % 2 ^ 64

unfoldable pub pack : ChunkState → PackedChunkState
pack s = bit_or (bit_or s.len (shl (of_bool s.has_next) 32)) (shl s.epoch.inner 33)

-- `self.0 as u32`
unfoldable pub len : PackedChunkState → ℕ
len w = w % 2 ^ 32

unfoldable pub set_len : PackedChunkState → ℕ → PackedChunkState
set_len w new_len = let mask : ℕ = 2 ^ 32 - 1 in bit_or (bit_and w (bit_not mask)) new_len

unfoldable pub has_next : PackedChunkState → Bool
has_next w = bittest 32 w

unfoldable pub set_has_next : PackedChunkState → Bool → PackedChunkState
set_has_next w new_flag = bitset 32 w new_flag

unfoldable pub epoch : PackedChunkState → Epoch
epoch w = record { inner = w / 2 ^ 33 % 2 ^ 32 }

unfoldable pub set_epoch : PackedChunkState → Epoch → PackedChunkState
set_epoch w e = let mask : ℕ = 2 ^ 33 - 1 in bit_or (bit_and w mask) (shl e.inner 33)

unfoldable pub unpack : PackedChunkState → ChunkState
unfolding len epoch has_next
unpack w = record { len = len w; epoch = epoch w; has_next = has_next w }
