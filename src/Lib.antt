-- ===== src/Lib.antt =====
-- A model of rc_event_queue: a queue of events that several readers read, each all of it,
-- while writers append. The queue is a linked list of chunks. A chunk has a fixed capacity,
-- and one atomic word that holds its length, a flag that it has a successor, and an epoch.
-- Readers go along the list without a lock. Each chunk counts the readers that have entered it
-- and those that have left it, and a cleanup frees the chunks from the front on whose two
-- counts are equal.
--
-- The parts, with the files of the repository that they model:
-- - Utils: the bit helpers and the epoch counter of src/utils.rs.
-- - ChunkState: the packed word of src/chunk_state.rs. ChunkState/Fields reads it as a sum of
--   fields.
-- - DynamicArray and DynamicChunk: src/dynamic_array/mod.rs and src/dynamic_chunk.rs. A slot
--   of the array is an item or not initialised; a write or read out of bounds, or of a slot
--   that is not initialised, is `none`.
-- - Heap: the allocations, by address. An allocator is a parameter; it gives an address that
--   is not null and not in use.
-- - World: what the threads share, that is the records `List` and `EventQueue` of
--   src/event_queue.rs with the memory, and commands on it. A command ends in a result or in
--   one of `panic`, `deadlock`, `undefined` and `out_of_fuel`.
-- - EventQueue: src/event_queue.rs. Settings has the cleanup modes, Foreach the walk over the
--   list, Cleanup `free_chunk`, `cleanup_impl` and `force_cleanup_impl`, Push what adds chunks
--   and items, Start what moves the start position (with src/cursor.rs), and Life the making,
--   subscribing, unsubscribing and dropping.
-- - EventReader: the reader and the iterator of src/event_reader.rs.
-- - Mpmc and Spmc: the public interfaces, src/mpmc and src/spmc.
-- - Scenarios: the tests of src/event_queue/test.rs and src/tests/mpmc.rs, evaluated.
--
-- How the proofs are built: Node says what a chunk in memory stands for, and its operations
-- are proved as operations on nodes (Node and Node/Methods). A Chain is the list of nodes with
-- their addresses, and Represents says that the memory is exactly the chunks of a chain.
-- EventQueue/Invariant has the well-formed queue `IsQueue`, and `Evolves`, which compares two
-- queues: the sequence of the items dropped so far and those in the queue, with what was
-- added. Each operation is first computed on a chain (Cleanup/InOrder, Cleanup/Impl,
-- Cleanup/Sweep, Push/AddChunk, Start/Epochs), and then shown to keep the invariant (the
-- children of EventQueue/Invariant, and Start/Moves). EventReader/Next and EventReader/Switch
-- do the same for one call of `next`, EventReader/ReadAll for all calls of a session, and
-- EventReader/Drops for its end. EventQueue/Start/Cut and EventQueue/Start/Collect compute
-- `truncate_front`, on which EventQueue/Invariant/TruncateKeeps builds. EventQueue/Start/Earlier
-- compares the order on cursors with the list.
--
-- Readers among others: Attendance has the places where readers stand. A reader in an iterator
-- stands in every chunk from the one that it began in to the one that it is in. `Attended` says
-- that the difference of the two counters of each chunk is the number of readers in it. Of what
-- the queue's operations do, `Evolves` keeps this, and what each reader has left to read. In
-- EventReader, NextKeeps (on Answers, OneMore and Entering), DropKeeps, Forward (on Lock and
-- Crossing) and Opens show it for the calls of one reader beside the others.
--
-- The whole: System has the mpmc queue with any number of writers and readers, interleaved call
-- by call. `Step` is a call that returns, `Reach` what a program can come to, and `IsSystem`
-- what holds of it. Below it, Writes, Readers, Comings and Turns have the calls, Reached the
-- states that can be reached, Frees (on Places) what is freed and what is not, and Delivery a
-- session of reading with writes, and calls of other readers, in between. Examples has an
-- instance of each result.
--
-- Bounds: `usize` and `u64` are numbers below 2^64 and `u32` below 2^32, with the wrap-around
-- written out where the source can reach it. Settings fit if the chunk sizes are positive, in
-- order and below 2^32. Chunk ids are assumed not to run out, as the source says, and there are
-- fewer than 2^32 readers, the range of their counter. The walk over the list has one round for
-- each allocation and one to stop; since the chunks of a list are different allocations, these
-- are enough. The loop of `extend` has a round more than there are items, and each round but the
-- last takes one.
--
-- Not modelled: memory orderings and interleavings within one operation; a command runs to its
-- end. What a concurrent writer does between two calls of `next` is there in that the
-- iterator's snapshot of a chunk may be old. The locks of src/sync are Booleans. The back
-- pointer from a chunk to its queue is left out, since a world has one queue, and so is the
-- lock that a reader takes to switch chunks. A `debug_assert!` is left out, as in a release
-- build.
pub mod Attendance
pub mod Base
pub mod Utils
pub mod ChunkState
pub mod DynamicArray
pub mod DynamicChunk
pub mod Heap
pub mod Node
pub mod Chain
pub mod World
pub mod Represents
pub mod EventQueue
pub mod EventReader
pub mod Mpmc
pub mod Spmc
pub mod System
mod Examples
mod Scenarios
