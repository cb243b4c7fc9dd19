-- ===== src/System/Delivery.antt =====
-- A reader's session with the calls of writers in between, in any order: src/mpmc as a whole.
use lockless_event_queue.Base.{
  ℕ, ◌+◌, ◌^◌, ◌<◌, ◌≡◌, refl, sym, ap, ◌∙◌, subst, Bool, true, false, Option, none, some, List, [],
  ◌∷◌, ◌++◌, length, arith,
}
use mathlib.Core.List.{append-nil, append_assoc}
use lockless_event_queue.DynamicChunk.{Ptr}
use lockless_event_queue.Heap.{Heap, Allocates}
use lockless_event_queue.Chain.{Chain}
use lockless_event_queue.World.{World, ok}
use lockless_event_queue.EventQueue.Settings.{size_allowed}
use lockless_event_queue.EventQueue.Invariant.{IsFit, Evolves}
use lockless_event_queue.EventQueue.Invariant.CleanupKeeps.{cleanup-Evolves}
use lockless_event_queue.Attendance.{spot_at, Attended}
use lockless_event_queue.Attendance.Delivers.{unread-same}
use lockless_event_queue.Attendance.Front.{Attended-front}
use lockless_event_queue.Attendance.Unread.{unread}
use lockless_event_queue.EventReader.{Iter, iter_next}
use lockless_event_queue.EventReader.Seats.{Session, reading}
use lockless_event_queue.EventReader.OneMore.{items_of, after_next}
use lockless_event_queue.EventReader.NextKeeps.{next-Takes}
use lockless_event_queue.Mpmc.{Settings, base_settings, cleanup}
use lockless_event_queue.Mpmc.Keeps.{
  mpmc_push-Evolves, mpmc_extend-Evolves, Resizes, mpmc_change_chunk_capacity-Resizes,
}
use lockless_event_queue.System.{
  System, Turn, Write, push_one, push_many, resize, clean, clear_all, truncate, write, ids_needed,
}
use lockless_event_queue.System.Sound.{IsSystem}
use lockless_event_queue.System.Writes.{IsSystem-Evolves}
use lockless_event_queue.System.Readers.{AllSeated-split, IsSystem-turn, left_for}
use lockless_event_queue.System.Reached.{never_both}
use lockless_event_queue.System.Turns.{same_result, IsSystem-front, Turn-Keeps}

-- The items that a call adds, if it is none of those that discard items.
abbrev pub added_by : {T : Type 0} → Write T → Option (List T)
added_by (push_one x) = some (x ∷ [])
added_by (push_many xs) = some xs
added_by (resize new_capacity) = some []
added_by clean = some []
added_by clear_all = none
added_by (truncate len) = none

-- A session of the iterator `it`, beside the readers `rs`, from `w` on, in which it reads the items
-- `got`, while `added` are pushed, and other readers have their turns.
pub data During {T : Type 0} (alloc : Heap T → Ptr) (S : Settings) (w : World T) (it : Iter)
    (rs : List Session) : (added got : List T) → World T → Iter → List Session → Type 0 where
  begins : During alloc S w it rs [] [] w it rs
  writes :
      {added got xs : List T} {u v : World T} {jt : Iter} {ts : List Session}
      → During alloc S w it rs added got u jt ts
      → (call : Write T) → added_by call ≡ some xs
      → u.list.chunk_id_counter + ids_needed call < 2 ^ 64
      → write alloc S call u ≡ ok tt v
      → During alloc S w it rs (added ++ xs) got v jt ts
  takes :
      {added got : List T} {value : Option T} {u v : World T} {jt kt : Iter} {ts : List Session}
      → During alloc S w it rs added got u jt ts
      → iter_next jt u ≡ ok (value, kt) v
      → During alloc S w it rs added (got ++ items_of value) v kt ts
  others :
      {added got : List T} {u v : World T} {jt : Iter} {ts ts' : List Session}
      → During alloc S w it rs added got u jt ts
      → length ts' + 1 < 2 ^ 32
      → Turn S u ts v ts'
      → During alloc S w it rs added got v jt ts'

module _ {T : Type 0} (alloc : Heap T → Ptr) (allocates : Allocates alloc) (S : Settings)
    (fit : IsFit (base_settings false S)) where
  -- A call that returns, with what it adds.
  Adds : (s : System T) (v : IsSystem S s) → World T → List T → Type 0
  Adds s v w xs = (ns : Chain T) × Evolves (base_settings false S) v.epoch v.nodes ns xs s.world w

  resize-Adds :
      (s : System T) (v : IsSystem S s) (w : World T) (size : ℕ) (allowed : Bool)
      → Resizes alloc S v.epoch v.nodes s.world size allowed
      → write alloc S (resize size) s.world ≡ ok tt w
      → Adds s v w []
  unfolding Adds
  resize-Adds s v w size true (u, c, runs, a) returns =
      subst (λ t. Adds s v t []) (same_result runs returns).1 (_, a)
  resize-Adds s v w size false stops returns = absurd (never_both returns stops)

  same_items : {xs ys : List T} → some xs ≡ some ys → xs ≡ ys
  same_items {xs} e = ap (λ o. elim o [ none ↦ xs | some zs ↦ zs ]) e

  call-Adds :
      (s : System T) (v : IsSystem S s) (w : World T) (call : Write T) (xs : List T)
      → added_by call ≡ some xs
      → s.world.list.chunk_id_counter + ids_needed call < 2 ^ 64
      → write alloc S call s.world ≡ ok tt w
      → Adds s v w xs
  unfolding Adds cleanup
  call-Adds s v w (push_one x) xs adds ids returns =
      let (u, ns, runs, a) =
        mpmc_push-Evolves alloc allocates S fit v.epoch v.nodes s.world v.queue v.unlocked x ids in
      subst (λ zs. Adds s v w zs) (same_items adds)
        (subst (λ t. Adds s v t (x ∷ [])) (same_result runs returns).1 (ns, a))
  call-Adds s v w (push_many ys) xs adds ids returns =
      let (u, ns, runs, a) =
        mpmc_extend-Evolves alloc allocates S fit v.epoch v.nodes s.world v.queue v.unlocked ys
          ids in
      subst (λ zs. Adds s v w zs) (same_items adds)
        (subst (λ t. Adds s v t ys) (same_result runs returns).1 (ns, a))
  call-Adds s v w (resize size) xs adds ids returns =
      subst (λ zs. Adds s v w zs) (same_items adds)
        (resize-Adds s v w size (size_allowed (base_settings false S) size)
          (mpmc_change_chunk_capacity-Resizes alloc allocates S fit v.epoch v.nodes s.world v.queue
            v.unlocked size ids)
          returns)
  call-Adds s v w clean xs adds ids returns =
      let (u, runs, a) = cleanup-Evolves (base_settings false S) refl v.queue v.unlocked in
      subst (λ zs. Adds s v w zs) (same_items adds)
        (subst (λ t. Adds s v t []) (same_result runs returns).1 (_, a))
  call-Adds s v w clear_all xs adds ids returns = absurd (cc)
  call-Adds s v w (truncate len) xs adds ids returns = absurd (cc)

module _ {T : Type 0} (alloc : Heap T → Ptr) (allocates : Allocates alloc) (S : Settings)
    (fit : IsFit (base_settings false S)) where
  -- The system of the iterator and the other readers.
  abbrev pub at_turn : World T → Iter → List Session → System T
  at_turn w it rs = record { world = w; sessions = reading it ∷ rs }

  -- The system is sound, and the items read with those that are left for the reader are `due`.
  abbrev pub Due : World T → Iter → List Session → List T → List T → Type 0
  Due w it rs got due =
      (v : IsSystem S (at_turn w it rs)) × (got ++ left_for (reading it) v.nodes ≡ due)

  Due-write :
      {u w : World T} (it : Iter) (rs : List Session) (got due : List T) {xs : List T}
      (call : Write T)
      → added_by call ≡ some xs
      → u.list.chunk_id_counter + ids_needed call < 2 ^ 64
      → write alloc S call u ≡ ok tt w
      → Due u it rs got due
      → Due w it rs got (due ++ xs)
  unfolding Adds
  Due-write {u} {w} it rs got due {xs} call adds ids returns (v, e) =
      let (ns, a) =
        call-Adds alloc allocates S fit (at_turn u it rs) v w call xs adds ids returns in
      let (bs, s, cs, shape, left, here, right) =
        AllSeated-split [] (reading it) rs v.spots v.seated in
      let all =
        Attended-front bs s cs
          (subst (λ ss. Attended v.nodes u.start_position ss) shape v.attended) in
      let (v', nodes) = IsSystem-Evolves S (at_turn u it rs) v a in
      (
        v',
        ap (λ is. got ++ is)
              (ap (left_for (reading it)) nodes
                ∙ unread-same (spot_at it.position) s ns (sym here.chunk) (sym here.index)
                ∙ a.delivers s (bs ++ cs) all
                ∙ ap (λ is. is ++ xs)
                    (unread-same s (spot_at it.position) v.nodes here.chunk here.index))
            ∙ sym (append_assoc got (left_for (reading it) v.nodes) xs)
            ∙ ap (λ is. is ++ xs) e,
      )

  Due-next :
      {u w : World T} (it : Iter) {jt : Iter} (rs : List Session) (got due : List T)
      {value : Option T}
      → iter_next it u ≡ ok (value, jt) w
      → Due u it rs got due
      → Due w jt rs (got ++ items_of value) due
  Due-next {u} {w} it {jt} rs got due {value} returns (v, e) =
      let (bs, s, cs, shape, left, here, right) =
        AllSeated-split [] (reading it) rs v.spots v.seated in
      let all =
        Attended-front bs s cs
          (subst (λ ss. Attended v.nodes u.start_position ss) shape v.attended) in
      let (a, x, ns, s', runs, conserves, here', attended, kept_all, _, _) =
        next-Takes (base_settings false S) u it s (bs ++ cs) here v.nodes v.queue all in
      let (v', nodes) =
        IsSystem-turn S u [] (reading it) rs v (after_next a) bs s' cs left here' right conserves
          attended in
      let (same, same') = same_result runs returns in
      let done : Due x a.1 rs (got ++ items_of a.0) due = (
        v',
        ap (λ is. (got ++ items_of a.0) ++ is)
              (ap (left_for (reading a.1)) nodes
                ∙ unread-same (spot_at a.1.position) s' ns (sym here'.chunk) (sym here'.index))
            ∙ append_assoc got (items_of a.0) (unread s' ns)
            ∙ ap (λ is. got ++ is)
                (kept_all ∙ unread-same s (spot_at it.position) v.nodes here.chunk here.index)
            ∙ e,
      ) in
      subst (λ y. Due y jt rs (got ++ items_of value) due) same'
        (subst (λ r. Due x r.1 rs (got ++ items_of r.0) due) same done)

  Due-Turn :
      {u w : World T} (it : Iter) (rs rs' : List Session) (got due : List T)
      → length rs' + 1 < 2 ^ 32
      → Turn S u rs w rs'
      → Due u it rs got due
      → Due w it rs' got due
  Due-Turn it rs rs' got due room turn (v, e) =
      let (v', quiet) = Turn-Keeps S (reading it ∷ []) v (omega (arith, room)) turn in
      (v', ap (λ is. got ++ is) quiet.0 ∙ e)

  During-front :
      {w : World T} {it : Iter} {rs ts : List Session} {added got : List T} {u : World T}
      {jt : Iter} (v : IsSystem S (at_turn w it rs))
      → During alloc S w it rs added got u jt ts
      → Due u jt ts got (left_for (reading it) v.nodes ++ added)
  During-front {it = it} v begins = (v, sym (append-nil (left_for (reading it) v.nodes)))
  During-front {it = it} v (writes {added} {got} {xs} d call adds ids returns) =
      let (v', e) = Due-write _ _ got _ call adds ids returns (During-front v d) in
      (v', e ∙ append_assoc (left_for (reading it) v.nodes) added xs)
  During-front v (takes d returns) = Due-next _ _ _ _ returns (During-front v d)
  During-front v (others d room turn) = Due-Turn _ _ _ _ _ room turn (During-front v d)

  -- Without the cargo feature, with settings that fit and an allocator that gives unused
  -- addresses, take a sound mpmc system with an iterator in it, and any sequence of calls that
  -- return, in any order: `next` of this iterator; `push`, `extend`, `change_chunk_capacity` and
  -- `cleanup` of the queue, as long as there are chunk ids left to give; and any calls of other
  -- readers, who may also come, up to 2^32 in all, and go. Then the items that `next` has read,
  -- followed by those from the iterator's place to the end of the queue, are those from its place
  -- at the beginning to the end of the queue then, followed by the items added in between, in
  -- order: none is lost, read twice or out of order. The system is sound.
  pub During-Due :
      (before : List Session) {it : Iter} (after : List Session) {w : World T} {ts : List Session}
      {added got : List T} {u : World T} {jt : Iter}
      (v : IsSystem S (record { world = w; sessions = before ++ reading it ∷ after }))
      → During alloc S w it (before ++ after) added got u jt ts
      → Due u jt ts got (left_for (reading it) v.nodes ++ added)
  During-Due before {it} after {w} {ts} {added} {got} {u} {jt} v d =
      let (v', same) = IsSystem-front S w before (reading it) after v in
      subst (λ ns. Due u jt ts got (left_for (reading it) ns ++ added)) same (During-front v' d)
