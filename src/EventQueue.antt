-- ===== src/EventQueue.antt =====
-- src/event_queue.rs: the queue. The operations are in the children, in the order of the source:
-- Foreach (`foreach_chunk*`), Cleanup (`free_chunk`, `cleanup_impl`, `force_cleanup_impl`), Push
-- (`add_chunk*`, `push`, `extend`), Start (`set_start_position`, `clear`, `truncate_front`) and
-- Life (`with_capacity`, `subscribe`, `unsubscribe`, `drop`).
pub mod Settings
pub mod Invariant
pub mod Foreach
pub mod Cleanup
pub mod Push
pub mod Start
pub mod Life
