-- ===== src/System/Frees.antt =====
-- What a cleanup frees among readers, in any state that a program can come to.
use lockless_event_queue.Base.{
  ℕ, ◌≡◌, refl, sym, ap, ◌∙◌, subst, false, none, some, if_true, if_false, if◌then◌else◌, List, [],
  ◌∷◌, ◌++◌, inl, inr, arith, ◌==◌, Bool-cases, ==_refl,
}
use lockless_event_queue.DynamicChunk.{Ptr, null}
use lockless_event_queue.Heap
use lockless_event_queue.Heap.{Heap, Allocates}
use lockless_event_queue.Node.{Node, chunk_of}
use lockless_event_queue.Chain.{
  Chain, Holds, find, has, head_ptr, last_ptr, IsChain, has-append, ne-of-has,
}
use lockless_event_queue.Chain.Ids.{held_at}
use lockless_event_queue.World.{World, ok}
use lockless_event_queue.EventQueue.Cleanup.InOrder.{
  removed, kept, last_ptr-kept, removed-append-kept, has-last_ptr,
}
use lockless_event_queue.EventQueue.Invariant.{IsFit, IsQueue, Evolves}
use lockless_event_queue.EventQueue.Invariant.CleanupKeeps.{cleanup-Evolves}
use lockless_event_queue.Attendance.{Spot, visits, occupants, Stands, AllStand}
use lockless_event_queue.Attendance.Count.{removed-vacant}
use lockless_event_queue.Attendance.Front.{AllStand-front}
use lockless_event_queue.Chain.Append.{IsChain-from}
use lockless_event_queue.System.Readers.{AllSeated-split}
use lockless_event_queue.Attendance.Split.{Stands-Split, visits-Place}
use lockless_event_queue.Attendance.Thin.{occupants-le}
use lockless_event_queue.EventReader.Seats.{
  Session, resting, reading, Seated, first_chunk, first_chunk-Place,
}
use lockless_event_queue.Mpmc.{Settings, base_settings, cleanup}
use lockless_event_queue.System.{System, Reach}
use lockless_event_queue.System.Sound.{AllSeated, IsSystem}
use lockless_event_queue.System.Reached.{Reach-IsSystem}
use lockless_event_queue.System.Places.{
  chunk_in, began_in, Leads, path_held, FirstBusy, Vacant, Vacant-has, FirstBusy-kept,
}

module _ {T : Type 0} (S : Settings) (s : System T) (v : IsSystem S s) where
  -- On a sound mpmc system without the cargo feature, `cleanup` runs to its end, frees some
  -- leading chunks of the list and no others, and leaves a well-formed queue of the rest. No
  -- reader was in a chunk that is freed, and in the first chunk that is left there is a reader,
  -- unless it is the only one.
  pub cleanup-Frees :
      (w : World T) × (cleanup false S s.world ≡ ok tt w)
      × (gone : Chain T) × (left : Chain T) × (v.nodes ≡ gone ++ left)
      × IsQueue (base_settings false S) v.epoch left w
      × Vacant (occupants v.spots) gone
      × FirstBusy (occupants v.spots) left
  unfolding cleanup
  cleanup-Frees =
      let (w, runs, a) = cleanup-Evolves (base_settings false S) refl v.queue v.unlocked in
      (
        w,
        runs,
        removed v.nodes,
        kept v.nodes,
        sym (removed-append-kept v.nodes),
        a.queue,
        Vacant-has (occupants v.spots) (removed v.nodes) (λ p i.
            removed-vacant (occupants v.spots) v.nodes p v.attended.counts
              (omega (arith, occupants-le v.spots p, v.attended.few)) i),
        FirstBusy-kept (occupants v.spots) v.nodes v.queue.nonempty v.attended.counts,
      )

  seat-chunks :
      (r : Session) (t : Spot) → Seated r t → (chunk_in r ≡ t.chunk) × (began_in r ≡ first_chunk t)
  seat-chunks (resting r) t e = (ap (λ u. u.chunk) (sym e), ap first_chunk (sym e))
  seat-chunks (reading it) t e = (sym e.chunk, e.began)

  chunks-held :
      (r : Session) (t : Spot)
      → Seated r t
      → Stands v.nodes t
      → Leads s.world.heap (chunk_in r) (began_in r)
  chunks-held r t seat stands =
      let (xs, passed, p, n, ys, shape, place) = Stands-Split t v.nodes stands in
      let (chunk, began) = seat-chunks r t seat in
      let leads =
        path_held s.world.heap xs passed p n ys (subst IsChain shape v.queue.rep.chain)
          (subst (Holds s.world.heap) shape v.queue.rep.held) in
      subst (λ k. Leads s.world.heap k (began_in r)) (place.chunk ∙ sym chunk)
        (subst (Leads s.world.heap p) (sym (began ∙ first_chunk-Place t passed p n ys place)) leads)

  -- A reader that is in the last chunk, and began there, is in no other.
  only_last :
      (r : Session) (t : Spot) (last p : Ptr)
      → Seated r t
      → Stands v.nodes t
      → chunk_in r ≡ last
      → began_in r ≡ last
      → (last == p) ≡ false
      → visits p t ≡ false
  only_last (resting r) t last p e stands at began other =
      subst (λ u. visits p u ≡ false) (sym e) (ap (λ k. k == p) at ∙ other)
  only_last (reading it) t last p e stands at began other =
      let (xs, passed, k, n, ys, shape, place) = Stands-Split t v.nodes stands in
      let chain = IsChain-from xs _ (subst IsChain shape v.queue.rep.chain) in
      let here : k ≡ last = place.chunk ∙ e.chunk ∙ at in
      let none_passed : passed ≡ [] =
        alone passed k n ys chain
          (sym (first_chunk-Place t passed k n ys place) ∙ sym e.began ∙ began ∙ sym here) in
      let nowhere : has p passed ≡ false = ap (has p) none_passed in
      ground (arith, visits-Place t passed k n ys p place, nowhere, ap (λ j. j == p) here, other)
    where
      alone :
          (passed : Chain T) (k : Ptr) (n : Node T) (ys : Chain T)
          → IsChain (passed ++ (k, n) ∷ ys)
          → head_ptr (passed ++ (k, n) ∷ ys) ≡ k
          → passed ≡ []
      alone [] k n ys chain e = refl
      alone ((j, m) ∷ passed) k n ys chain e = absurd (
          ground (
            arith,
            ap (λ i. has i (passed ++ (k, n) ∷ ys)) e,
            chain.1,
            has-append k passed ((k, n) ∷ ys),
            ==_refl k,
          ))

-- All readers are in one chunk, and began there.
abbrev pub Gathered : Ptr → List Session → Type 0
Gathered p [] = Unit
Gathered p (r ∷ rs) = (chunk_in r ≡ p) × (began_in r ≡ p) × Gathered p rs

module _ {T : Type 0} (S : Settings) (s : System T) (v : IsSystem S s) where
  nobody_else :
      (rs : List Session) (ss : List Spot) (last p : Ptr)
      → AllSeated rs ss
      → AllStand v.nodes ss
      → Gathered last rs
      → (last == p) ≡ false
      → occupants ss p ≡ 0
  nobody_else [] [] last p seats stands gathered other = refl
  nobody_else [] (t ∷ ss) last p seats stands gathered other = absurd seats
  nobody_else (r ∷ rs) [] last p seats stands gathered other = absurd seats
  nobody_else (r ∷ rs) (t ∷ ss) last p seats stands gathered other =
      let away = only_last S s v r t last p seats.0 stands.0 gathered.0 gathered.1 other in
      ground (arith, away, nobody_else rs ss last p seats.1 stands.1 gathered.2 other)

  single :
      (ns : Chain T) (inside : Ptr → ℕ)
      → IsChain ns
      → FirstBusy inside ns
      → ((p : Ptr) → (last_ptr ns == p) ≡ false → inside p ≡ 0)
      → (n : Node T) × (ns ≡ (last_ptr ns, n) ∷ [])
  single [] inside chain busy empty = absurd busy
  single ((p, n) ∷ []) inside chain busy empty = (n, refl)
  single ((p, n) ∷ y ∷ ns) inside chain busy empty =
      let other = ne-of-has p (last_ptr (y ∷ ns)) (y ∷ ns) chain.1 (has-last_ptr y ns) in
      absurd (omega (arith, busy, empty p (ground (arith, other))))

  -- On a sound mpmc system without the cargo feature, if all readers are in the last chunk, and
  -- those with an iterator began there, `cleanup` runs to its end and frees all chunks but the
  -- last: afterwards no other address is allocated, the last chunk is as it was, and it alone
  -- makes up the well-formed queue. The items dropped so far followed by those in the queue are
  -- the same sequence as before, and every reader stays where it is, with as much to read.
  pub cleanup-Single :
      Gathered s.world.list.last s.sessions
      → (w : World T) × (cleanup false S s.world ≡ ok tt w)
        × (gone : Chain T) × (n : Node T) × (v.nodes ≡ gone ++ (s.world.list.last, n) ∷ [])
        × Evolves (base_settings false S) v.epoch v.nodes ((s.world.list.last, n) ∷ []) [] s.world w
        × ((p : Ptr)
            → Heap.read p w.heap
              ≡ (if s.world.list.last == p then Heap.read p s.world.heap else none))
  unfolding cleanup
  cleanup-Single gathered =
      let (w, runs, a) = cleanup-Evolves (base_settings false S) refl v.queue v.unlocked in
      let last = last_ptr-kept v.nodes ∙ sym v.queue.rep.last in
      let (n, one) =
        single (kept v.nodes) (occupants v.spots) a.queue.rep.chain
          (FirstBusy-kept (occupants v.spots) v.nodes v.queue.nonempty v.attended.counts)
          (λ p other.
            nobody_else s.sessions v.spots s.world.list.last p v.seated v.attended.stand gathered
              (ap (λ k. k == p) (sym last) ∙ other)) in
      let left : kept v.nodes ≡ (s.world.list.last, n) ∷ [] = one ∙ ap (λ p. (p, n) ∷ []) last in
      let shape : v.nodes ≡ removed v.nodes ++ (s.world.list.last, n) ∷ [] =
        sym (removed-append-kept v.nodes) ∙ ap (λ ms. removed v.nodes ++ ms) left in
      let alone =
        subst (λ ms. Evolves (base_settings false S) v.epoch v.nodes ms [] s.world w) left a in
      let before =
        held_at s.world.heap (removed v.nodes) s.world.list.last n []
          (subst IsChain shape v.queue.rep.chain)
          (subst (Holds s.world.heap) shape v.queue.rep.held) in
      (w, runs, removed v.nodes, n, shape, alone, λ p. alone.queue.rep.held p ∙ only p n before)
    where
      only :
          (p : Ptr) (n : Node T)
          → Heap.read s.world.list.last s.world.heap ≡ some (chunk_of n null)
          → find p ((s.world.list.last, n) ∷ [])
            ≡ (if s.world.list.last == p then Heap.read p s.world.heap else none)
      only p n before = elim (Bool-cases (s.world.list.last == p)) [
        | inl e ↦
            let at : s.world.list.last ≡ p = ground (arith, e) in
            if_true _ _ e
            ∙ sym (ap (λ k. Heap.read k s.world.heap) (sym at) ∙ before)
            ∙ sym (if_true _ _ e)
        | inr e ↦ if_false _ _ e ∙ sym (if_false _ _ e)
      ]

module _ {T : Type 0} (alloc : Heap T → Ptr) (allocates : Allocates alloc) (S : Settings)
    (fit : IsFit (base_settings false S)) where
  -- Without the cargo feature, with settings that fit and an allocator that gives unused
  -- addresses, take any state that a program can come to from a new mpmc queue by any number of
  -- calls that return, of writers and of readers, fewer than 2^32 of these, in any order, as long
  -- as there are chunk ids left to give. Then, for any reader, the chunk of its position is
  -- allocated, and if it has an iterator, so are the chunk where the iterator began, that of the
  -- iterator's position, and all chunks on the way: the links between chunks lead from the one to
  -- the other through allocated chunks only.
  pub reader_chunk-held :
      (s : System T) (before : List Session) (r : Session) (after : List Session)
      → Reach alloc S s
      → s.sessions ≡ before ++ r ∷ after
      → Leads s.world.heap (chunk_in r) (began_in r)
  reader_chunk-held s before r after reached at =
      let v = Reach-IsSystem alloc allocates S fit s reached in
      let (bs, t, cs, shape, left, seat, right) =
        AllSeated-split before r after v.spots (subst (λ rs. AllSeated rs v.spots) at v.seated) in
      chunks-held S s v r t seat
        (AllStand-front v.nodes bs t cs (subst (AllStand v.nodes) shape v.attended.stand)).0
