-- ===== src/System/Sound.antt =====
-- What holds of the queue and all its readers between any two calls.
use lockless_event_queue.Base.{ℕ, ◌^◌, ◌<◌, ◌≡◌, false, List, [], ◌∷◌, length, ◌==◌, if◌then◌else◌}
use lockless_event_queue.Chain.{Chain}
use lockless_event_queue.EventQueue.Invariant.{IsQueue}
use lockless_event_queue.Mpmc.{Settings, base_settings}
use lockless_event_queue.Attendance.{Spot, Attended}
use lockless_event_queue.EventReader.Seats.{Session, Seated}
use lockless_event_queue.System.{System}

-- Each reader is at its place.
abbrev pub AllSeated : List Session → List Spot → Type 0
AllSeated [] [] = Unit
AllSeated (r ∷ rs) (s ∷ ss) = Seated r s × AllSeated rs ss
AllSeated _ _ = ⊥

-- The owner's handle, and one for all readers.
abbrev pub handles : ℕ → ℕ
handles readers = if readers == 0 then 1 else 2

pub record IsSystem {T : Type 0} (S : Settings) (s : System T) : Type 0 where
  pub epoch : ℕ
  pub nodes : Chain T
  pub spots : List Spot
  pub queue : IsQueue (base_settings false S) epoch nodes s.world
  pub unlocked : s.world.list_lock ≡ false
  pub seated : AllSeated s.sessions spots
  pub attended : Attended nodes s.world.start_position spots
  pub few : length s.sessions < 2 ^ 32
  pub readers_count : s.world.list.readers_count ≡ length s.sessions
  pub strong_count : s.world.strong_count ≡ handles (length s.sessions)
