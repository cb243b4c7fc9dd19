-- ===== src/Utils.antt =====
-- src/utils.rs: the two bit helpers, and the epoch counter. A `u64` is a number below `2 ^ 64`.
pub mod Epochs
use lockless_event_queue.Base.{
  ℕ, ◌+◌, ◌-◌, ◌*◌, ◌/◌, ◌%◌, ◌^◌, bit_and, bit_or, Bool, not, Option, none, some, leb, ◌==◌,
  if◌then◌else◌, of_bool,
}

-- `!x` on a `u64`
abbrev pub bit_not : ℕ → ℕ
bit_not x = 2 ^ 64 - 1 - x

-- `bittest_u64::<N>` on targets without the intrinsic
unfoldable pub bittest : ℕ → ℕ → Bool
bittest n value = not (bit_and value (2 ^ n) == 0)

-- `bittest_u64::<N>` on x86_64, where `_bittest64` returns bit `N` of the word
unfoldable pub bittest_x86 : ℕ → ℕ → Bool
bittest_x86 n value = not (value / 2 ^ n % 2 == 0)

-- `bitset_u64::<N>`
unfoldable pub bitset : ℕ → ℕ → Bool → ℕ
bitset n value bit =
    let mask = 2 ^ n in
    let cleared = bit_and value (bit_not mask) in bit_or cleared (of_bool bit * 2 ^ n % 2 ^ 64)

-- `StartPositionEpoch`: an `Epoch<u32, MAX>` with `MAX = i32::MAX`
abbrev pub max_epoch : ℕ
max_epoch = 2 ^ 31 - 1

-- `Epoch`, at the type `u32` of its one use
pub record Epoch : Type 0 where
  pub inner : ℕ

-- `Epoch::zero`
unfoldable pub epoch_zero : Epoch
epoch_zero = record { inner = 0 }

-- `Epoch::new`; `none` is the failed assertion.
unfoldable pub epoch_new : ℕ → Option Epoch
epoch_new init = if leb init max_epoch then some (record { inner = init }) else none

-- `Epoch::increment`
unfoldable pub increment : Epoch → Epoch
unfolding epoch_zero
increment e = if e.inner == max_epoch then epoch_zero else record { inner = (e.inner + 1) % 2 ^ 32 }
