-- ===== src/EventQueue/Settings.antt =====
-- `CleanupMode` and `Settings` of src/event_queue.rs, with the cargo feature.
use lockless_event_queue.Base.{ℕ, Bool, true, false, ◌&&◌, leb}

pub data CleanupMode : Type 0 where
  on_chunk_read on_new_chunk never : CleanupMode

pub record Settings : Type 0 where
  pub min_chunk_size : ℕ
  pub max_chunk_size : ℕ
  pub cleanup : CleanupMode
  pub lock_on_new_chunk_cleanup : Bool
  pub cleanup_in_unsubscribe : Bool
  pub double_buffering : Bool  -- the cargo feature

abbrev pub is_on_chunk_read : CleanupMode → Bool
is_on_chunk_read on_chunk_read = true
is_on_chunk_read _ = false

abbrev pub is_on_new_chunk : CleanupMode → Bool
is_on_new_chunk on_new_chunk = true
is_on_new_chunk _ = false

abbrev pub is_never : CleanupMode → Bool
is_never never = true
is_never _ = false

-- `assert!(S::MIN_CHUNK_SIZE <= new_capacity && new_capacity <= S::MAX_CHUNK_SIZE)`
abbrev pub size_allowed : Settings → ℕ → Bool
size_allowed S new_capacity = leb S.min_chunk_size new_capacity && leb new_capacity S.max_chunk_size
