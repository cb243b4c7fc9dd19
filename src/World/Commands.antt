-- ===== src/World/Commands.antt =====
-- What the commands on memory and locks do where the address is in use and the lock is free.
use lockless_event_queue.Base.{◌≡◌, true, false, some}
use lockless_event_queue.DynamicChunk.{Ptr, DynamicChunk}
use lockless_event_queue.Heap
use lockless_event_queue.World.{World, ok, load, store, modify, free, lock_list, lock_start}

module _ {T : Type 0} (p : Ptr) {c : DynamicChunk T} (w : World T)
    (e : Heap.read p w.heap ≡ some c) where
  pub load-ok : load p w ≡ ok c w
  unfolding load
  load-ok = rw e

  pub store-ok :
      (d : DynamicChunk T) → store p d w ≡ ok tt (record w { heap = Heap.write p d w.heap })
  unfolding store
  store-ok d = rw (e, store)

  pub free-ok : free p w ≡ ok tt (record w { heap = Heap.erase p w.heap })
  unfolding free
  free-ok = rw (e, free)

  pub modify-ok :
      (f : DynamicChunk T → DynamicChunk T)
      → modify p f w ≡ ok tt (record w { heap = Heap.write p (f c) w.heap })
  unfolding modify load store
  modify-ok f = rw e (rw (e, store))

module _ {T : Type 0} (w : World T) where
  pub lock_list-ok : w.list_lock ≡ false → lock_list w ≡ ok tt (record w { list_lock = true })
  unfolding lock_list
  lock_list-ok e = rw e

  pub lock_start-ok : w.start_lock ≡ false → lock_start w ≡ ok tt (record w { start_lock = true })
  unfolding lock_start
  lock_start-ok e = rw e
