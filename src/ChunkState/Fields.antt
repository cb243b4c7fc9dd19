-- ===== src/ChunkState/Fields.antt =====
-- The packed word as a sum of its fields, and each getter on each setter.
use lockless_event_queue.Base.{ℕ, ◌+◌, ◌-◌, ◌*◌, ◌^◌, ◌<◌, ◌≡◌, Bool, of_bool, arith, ap, not, ◌==◌}
use lockless_event_queue.Base.Bits.{
  bit_and_split, bit_or_split, bit_or-zero, zero-bit_or, bit_and-zero, bit_and-mask_fits,
  bit_and-mask,
}
use lockless_event_queue.Utils.{bittest, bittest_x86, bitset}
use lockless_event_queue.ChunkState.{
  ChunkState, pack, len, set_len, has_next, set_has_next, epoch, set_epoch,
}

-- The word with length `l`, flag `b` and epoch `e`.
abbrev pub word : ℕ → ℕ → ℕ → ℕ
word l b e = (e * 2 + b) * 2 ^ 32 + l

module _ {l b e : ℕ} (hl : l < 2 ^ 32) (hb : b < 2) (he : e < 2 ^ 31) where
  pub word-lt : word l b e < 2 ^ 64
  word-lt = omega arith

  pub len-word : len (word l b e) ≡ l
  unfolding len
  len-word = omega arith

  pub epoch-word : epoch (word l b e) ≡ record { inner = e }
  unfolding epoch
  epoch-word = ap (λ n. record { inner = n }) (omega arith)

  pub bittest-x86-word : bittest_x86 32 (word l b e) ≡ not (b == 0)
  unfolding bittest_x86
  bittest-x86-word = ground arith

  pub has_next-word : has_next (word l b e) ≡ not (b == 0)
  unfolding has_next bittest
  has_next-word = ground (
    arith,
    bit_and_split 32 (e * 2 + b) 1 l 0,
    bit_and-zero l,
    bit_and_split 1 e 0 b 1,
    bit_and-zero e,
    bit_and-mask_fits 1 b,
  )

  pub set_len-word : (l' : ℕ) → l' < 2 ^ 32 → set_len (word l b e) l' ≡ word l' b e
  unfolding set_len
  set_len-word l' h = ground (
    arith,
    bit_and_split 32 (e * 2 + b) (2 ^ 32 - 1) l 0,
    bit_and-mask_fits 32 (e * 2 + b),
    bit_and-zero l,
    bit_or_split 32 (e * 2 + b) 0 0 l',
    bit_or-zero (e * 2 + b),
    zero-bit_or l',
  )

  pub set_epoch-word :
      (e' : ℕ) → e' < 2 ^ 31 → set_epoch (word l b e) (record { inner = e' }) ≡ word l b e'
  unfolding set_epoch
  set_epoch-word e' h = ground (
    arith,
    bit_and-mask 33 e (b * 2 ^ 32 + l),
    bit_or_split 33 0 e' (b * 2 ^ 32 + l) 0,
    bit_or-zero (b * 2 ^ 32 + l),
    zero-bit_or e',
  )

  pub set_has_next-word : (f : Bool) → set_has_next (word l b e) f ≡ word l (of_bool f) e
  unfolding set_has_next bitset
  set_has_next-word f = ground (
    arith,
    bit_and_split 32 (e * 2 + b) (2 ^ 32 - 2) l (2 ^ 32 - 1),
    bit_and-mask_fits 32 l,
    bit_and_split 1 e (2 ^ 31 - 1) b 0,
    bit_and-mask_fits 31 e,
    bit_and-zero b,
    bit_or_split 32 (e * 2) (of_bool f) l 0,
    bit_or_split 1 e 0 0 (of_bool f),
    bit_or-zero l,
    bit_or-zero e,
    zero-bit_or (of_bool f),
  )

pub pack-word :
    (s : ChunkState)
    → s.len < 2 ^ 32
    → s.epoch.inner < 2 ^ 31
    → pack s ≡ word s.len (of_bool s.has_next) s.epoch.inner
unfolding pack
pack-word s hl he = ground (
  arith,
  bit_or_split 32 0 (of_bool s.has_next) s.len 0,
  zero-bit_or (of_bool s.has_next),
  bit_or-zero s.len,
  bit_or_split 33 0 s.epoch.inner (of_bool s.has_next * 2 ^ 32 + s.len) 0,
  zero-bit_or s.epoch.inner,
  bit_or-zero (of_bool s.has_next * 2 ^ 32 + s.len),
)
