-- ===== src/Mpmc.antt =====
-- src/mpmc: the queue, with the list lock held during every operation, and its readers, whose
-- methods are those of EventReader.antt.
pub mod Keeps
use lockless_event_queue.Base.{ℕ, Bool, true, false, Option, List}
use lockless_event_queue.DynamicChunk.{Ptr}
use lockless_event_queue.Heap.{Heap}
use lockless_event_queue.World.{
  World, Run, Cmd, stop, panic, pure, ◌>>=◌, ◌>>◌, lock_list, unlock_list,
}
use lockless_event_queue.EventQueue.Settings.{
  CleanupMode, on_chunk_read, on_new_chunk, is_on_chunk_read,
}
use lockless_event_queue.EventQueue.Settings as BaseSettings
use lockless_event_queue.EventQueue.Cleanup
use lockless_event_queue.EventQueue.Push
use lockless_event_queue.EventQueue.Start
use lockless_event_queue.EventQueue.Life
use lockless_event_queue.EventQueue.Life.{EventReader}
use lockless_event_queue.EventReader as BaseReader
use lockless_event_queue.EventReader.{Iter}

-- `mpmc::Settings`
pub record Settings : Type 0 where
  pub min_chunk_size : ℕ
  pub max_chunk_size : ℕ
  pub cleanup : CleanupMode

-- `mpmc::DefaultSettings`
abbrev pub default_settings : Settings
default_settings = record { min_chunk_size = 4; max_chunk_size = 4096; cleanup = on_chunk_read }

-- `mpmc::BS`, with the cargo feature
abbrev pub base_settings : Bool → Settings → BaseSettings.Settings
base_settings double_buffering S = record {
  min_chunk_size = S.min_chunk_size;
  max_chunk_size = S.max_chunk_size;
  cleanup = S.cleanup;
  lock_on_new_chunk_cleanup = false;
  cleanup_in_unsubscribe = true;
  double_buffering = double_buffering;
}

-- An operation between `self.0.list.lock()` and the drop of its guard.
unfoldable pub with_list : {T A : Type 0} → Cmd T A → Cmd T A
with_list operation = do lock_list; result ← operation; unlock_list; pure result

module _ {T : Type 0} (alloc : Heap T → Ptr) (double_buffering : Bool) (S : Settings) where
  unfoldable pub new : Run T (Unit {0})
  new = Life.with_capacity alloc (base_settings double_buffering S) S.min_chunk_size

  unfoldable pub push : T → Cmd T (Unit {0})
  push value = with_list (Push.push alloc (base_settings double_buffering S) value)

  unfoldable pub extend : List T → Cmd T (Unit {0})
  extend iter = with_list (Push.extend alloc (base_settings double_buffering S) iter)

  unfoldable pub change_chunk_capacity : ℕ → Cmd T (Unit {0})
  change_chunk_capacity new_capacity =
      with_list (Push.change_chunk_capacity alloc (base_settings double_buffering S) new_capacity)

module _ {T : Type 0} (double_buffering : Bool) (S : Settings) where
  unfoldable pub cleanup : Cmd T (Unit {0})
  cleanup = Cleanup.cleanup (base_settings double_buffering S)

  unfoldable pub clear : Cmd T (Unit {0})
  clear = with_list (Start.clear (base_settings double_buffering S))

  unfoldable pub truncate_front : ℕ → Cmd T (Unit {0})
  truncate_front len = with_list (Start.truncate_front (base_settings double_buffering S) len)

module _ {T : Type 0} where
  unfoldable pub total_capacity : Cmd T ℕ
  total_capacity = with_list Push.total_capacity

  unfoldable pub chunk_capacity : Cmd T ℕ
  chunk_capacity = with_list Push.chunk_capacity

  -- `EventReader::new`
  unfoldable pub subscribe : Cmd T EventReader
  subscribe = with_list Life.subscribe

-- `mpmc::EventReader` and `mpmc::Iter`, which hide the settings.
module _ {T : Type 0} (double_buffering : Bool) (S : Settings) where
  abbrev pub update_position : EventReader → Cmd T EventReader
  update_position reader = BaseReader.update_position (base_settings double_buffering S) reader

  abbrev pub iter : EventReader → Cmd T Iter
  iter reader = BaseReader.iter (base_settings double_buffering S) reader

module _ {T : Type 0} where
  -- `Iter::next`
  abbrev pub next : Iter → Cmd T (Option T × Iter)
  next it = BaseReader.iter_next it
