-- ===== src/Utils/Epochs.antt =====
-- The epoch counter of src/utils.rs.
use lockless_event_queue.Base.{ℕ, zero, suc, ◌+◌, ◌%◌, ◌^◌, ◌≤◌, ◌≡◌, arith}
use lockless_event_queue.Utils.{Epoch, max_epoch, epoch_zero, increment}

-- `n` increments.
abbrev pub increments : ℕ → Epoch → Epoch
increments zero e = e
increments (suc n) e = increments n (increment e)

pub increment-mod : (e : Epoch) → e.inner ≤ max_epoch → (increment e).inner ≡ (e.inner + 1) % 2 ^ 31
unfolding increment epoch_zero
increment-mod e h = ground arith

-- From an epoch that is at most `MAX`, any number `n` of increments gives the sum of the epoch and
-- `n` modulo 2^31.
pub increments-mod :
    (n : ℕ) (e : Epoch) → e.inner ≤ max_epoch → (increments n e).inner ≡ (e.inner + n) % 2 ^ 31
increments-mod zero e h = omega (arith, h)
increments-mod (suc n) e h =
    let one = increment-mod e h in
    omega (arith, one, increments-mod n (increment e) (omega (arith, one)))
