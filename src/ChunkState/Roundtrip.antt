-- ===== src/ChunkState/Roundtrip.antt =====
-- src/chunk_state.rs against the record that it packs.
use lockless_event_queue.Base.{ℕ, ◌^◌, ◌<◌, ◌≤◌, ◌≡◌, Bool, of_bool, arith, ap, sym, ◌∙◌}
use lockless_event_queue.Utils.{bittest_x86, Epoch, max_epoch}
use lockless_event_queue.ChunkState.{
  ChunkState, pack, set_len, has_next, set_has_next, set_epoch, unpack,
}
use lockless_event_queue.ChunkState.Fields.{
  word, len-word, epoch-word, has_next-word, bittest-x86-word, set_len-word, set_epoch-word,
  set_has_next-word, pack-word,
}

-- A length and an epoch that have room in the word.
pub record IsState (s : ChunkState) : Type 0 where
  pub len_small : s.len < 2 ^ 32
  pub epoch_small : s.epoch.inner ≤ max_epoch

module _ (s : ChunkState) (v : IsState s) where
  flag-lt : of_bool s.has_next < 2
  flag-lt = ground arith

  small : s.epoch.inner < 2 ^ 31
  small = omega (arith, v)

  packed : pack s ≡ word s.len (of_bool s.has_next) s.epoch.inner
  packed = pack-word s v.len_small small

  flag-word : has_next (word s.len (of_bool s.has_next) s.epoch.inner) ≡ s.has_next
  flag-word = has_next-word v.len_small flag-lt small ∙ ground arith

  -- `unpack` gives back the state that `pack` has packed, if its length is below 2^32 and its
  -- epoch at most `MAX`.
  pub unpack-pack : unpack (pack s) ≡ s
  unfolding unpack
  unpack-pack = ap unpack packed ∙ λ i. record {
    len = len-word v.len_small flag-lt small i;
    epoch = epoch-word v.len_small flag-lt small i;
    has_next = flag-word i;
  }

  -- On the packed word of a state in range, the portable test of the flag `has_next` and the test
  -- with the x86_64 intrinsic agree.
  pub has_next-pack : has_next (pack s) ≡ bittest_x86 32 (pack s)
  has_next-pack =
      ap has_next packed
      ∙ has_next-word v.len_small flag-lt small
      ∙ sym (bittest-x86-word v.len_small flag-lt small)
      ∙ ap (bittest_x86 32) (sym packed)

  -- For a state, a new length and a new epoch in range, each setter of the packed word gives the
  -- word of the state with its own field replaced and the other two kept.
  pub set_fields-pack :
      (l : ℕ) (f : Bool) (e : Epoch)
      → l < 2 ^ 32
      → e.inner ≤ max_epoch
      → (set_len (pack s) l ≡ pack (record s { len = l }))
        × (set_has_next (pack s) f ≡ pack (record s { has_next = f }))
        × (set_epoch (pack s) e ≡ pack (record s { epoch = e }))
  set_fields-pack l f e hl he = (
    ap (λ w. set_len w l) packed
        ∙ set_len-word v.len_small flag-lt small l hl
        ∙ sym (pack-word (record s { len = l }) hl small),
    ap (λ w. set_has_next w f) packed
        ∙ set_has_next-word v.len_small flag-lt small f
        ∙ sym (pack-word (record s { has_next = f }) v.len_small small),
    ap (λ w. set_epoch w e) packed
        ∙ set_epoch-word v.len_small flag-lt small e.inner (omega (arith, he))
        ∙ sym (pack-word (record s { epoch = e }) v.len_small (omega (arith, he))),
  )
