-- ===== src/System/Readers.antt =====
-- The calls of readers, of src/mpmc/event_reader.rs, among the others.
use lockless_event_queue.Base.{
  ◌≡◌, refl, sym, ap, ◌∙◌, subst, false, List, [], ◌∷◌, ◌++◌, length, arith, length-append,
}
use lockless_event_queue.Chain.{Chain}
use lockless_event_queue.World.{World, Cursor, Cmd, ok}
use lockless_event_queue.EventQueue.Settings as Base
use lockless_event_queue.EventQueue.Life.{EventReader}
use lockless_event_queue.EventQueue.Invariant.{Conserves}
use lockless_event_queue.Attendance.{Spot, spot_at, Attended}
use lockless_event_queue.Attendance.Unread.{unread}
use lockless_event_queue.Attendance.Delivers.{unread-same}
use lockless_event_queue.Attendance.Front.{Attended-front, Attended-back}
use lockless_event_queue.EventReader.{Iter, update_position, iter, iter_next, iter_drop}
use lockless_event_queue.EventReader.Seats.{
  Session, resting, reading, Seated, Turns, Undisturbed, Turns-Takes,
}
use lockless_event_queue.EventReader.OneMore.{after_next, read_by}
use lockless_event_queue.EventReader.NextKeeps.{next-Takes}
use lockless_event_queue.EventReader.DropKeeps.{RestsAt, iter_drop-Takes}
use lockless_event_queue.EventReader.Answers.{Answers}
use lockless_event_queue.EventReader.Opens.{update_position-Gives, iter-Opens}
use lockless_event_queue.Mpmc.{Settings, base_settings}
use lockless_event_queue.System.Sound.{AllSeated, handles, IsSystem}

-- Where a reader is.
abbrev pub position_of : Session → Cursor
position_of (resting r) = r.position
position_of (reading it) = it.position

module _ {T : Type 0} where
  -- The items in the queue from a reader's place on.
  abbrev pub left_for : Session → Chain T → List T
  left_for r ns = unread (spot_at (position_of r)) ns

  pub left_for-Seated :
      (r : Session) (s : Spot) (ns : Chain T) → Seated r s → left_for r ns ≡ unread s ns
  left_for-Seated (resting r) s ns e = ap (λ t. unread t ns) (sym e)
  left_for-Seated (reading it) s ns e =
      unread-same (spot_at it.position) s ns (sym e.chunk) (sym e.index)

  -- Each reader has as much to read in both chains.
  abbrev pub Quiet : List Session → Chain T → Chain T → Type 0
  Quiet [] ns ns' = Unit
  Quiet (r ∷ rs) ns ns' = (left_for r ns' ≡ left_for r ns) × Quiet rs ns ns'

  pub Quiet-Seated :
      (rs : List Session) (ss : List Spot) (ns ns' : Chain T)
      → AllSeated rs ss
      → Undisturbed ss ns ns'
      → Quiet rs ns ns'
  Quiet-Seated [] ss ns ns' v u = tt
  Quiet-Seated (r ∷ rs) [] ns ns' v u = absurd v
  Quiet-Seated (r ∷ rs) (s ∷ ss) ns ns' v u = (
    left_for-Seated r s ns' v.0 ∙ u [] s ss refl ∙ sym (left_for-Seated r s ns v.0),
    Quiet-Seated rs ss ns ns' v.1
        (λ before t after e. u (s ∷ before) t after (ap (λ ts. s ∷ ts) e)),
  )

-- The places of some readers, of one, and of some more.
abbrev pub SeatsAt : List Session → Session → List Session → List Spot → Type 0
SeatsAt before r after spots =
    (bs : List Spot) × (s : Spot) × (cs : List Spot) × (spots ≡ bs ++ s ∷ cs)
    × AllSeated before bs
    × Seated r s
    × AllSeated after cs

pub AllSeated-split :
    (before : List Session) (r : Session) (after : List Session) (spots : List Spot)
    → AllSeated (before ++ r ∷ after) spots
    → SeatsAt before r after spots
AllSeated-split [] r after [] v = absurd v
AllSeated-split [] r after (s ∷ ss) v = ([], s, ss, refl, tt, v.0, v.1)
AllSeated-split (x ∷ before) r after [] v = absurd v
AllSeated-split (x ∷ before) r after (s ∷ ss) v =
    let (bs, t, cs, shape, u, here, w) = AllSeated-split before r after ss v.1 in
    (s ∷ bs, t, cs, ap (λ ts. s ∷ ts) shape, (v.0, u), here, w)

pub AllSeated-append :
    (xs ys : List Session) (ss ts : List Spot)
    → AllSeated xs ss
    → AllSeated ys ts
    → AllSeated (xs ++ ys) (ss ++ ts)
AllSeated-append [] ys [] ts v w = w
AllSeated-append [] ys (s ∷ ss) ts v w = absurd v
AllSeated-append (x ∷ xs) ys [] ts v w = absurd v
AllSeated-append (x ∷ xs) ys (s ∷ ss) ts v w = (v.0, AllSeated-append xs ys ss ts v.1 w)

pub length-AllSeated :
    (xs : List Session) (ss : List Spot) → AllSeated xs ss → length ss ≡ length xs
length-AllSeated [] [] v = refl
length-AllSeated [] (s ∷ ss) v = absurd v
length-AllSeated (x ∷ xs) [] v = absurd v
length-AllSeated (x ∷ xs) (s ∷ ss) v = omega (arith, length-AllSeated xs ss v.1)

module _ {T : Type 0} (S : Settings) (world : World T) (before : List Session) (r : Session)
    (after : List Session)
    (v : IsSystem S (record { world = world; sessions = before ++ r ∷ after })) where
  abbrev B : Base.Settings
  B = base_settings false S

  -- A reader's call that runs to its end, and leaves the others what they had to read.
  abbrev pub Calls : {A : Type 0} → Cmd T A → (A → Session) → Type 0
  Calls {A} call next =
      (a : A) × (w : World T) × (call world ≡ ok a w)
      × (v' : IsSystem S (record { world = w; sessions = before ++ next a ∷ after })) × Quiet
          (before ++ after) v.nodes v'.nodes

  -- The reader has its turn, and is in its place again.
  pub IsSystem-turn :
      {w : World T} {ns : Chain T} (r' : Session) (bs : List Spot) (s' : Spot) (cs : List Spot)
      → AllSeated before bs
      → Seated r' s'
      → AllSeated after cs
      → Conserves B v.epoch v.nodes ns [] world w
      → Attended ns w.start_position (s' ∷ (bs ++ cs))
      → (v' : IsSystem S (record { world = w; sessions = before ++ r' ∷ after })) × (v'.nodes ≡ ns)
  IsSystem-turn {w} {ns} r' bs s' cs left here right a attended =
      let same : length (before ++ r' ∷ after) ≡ length (before ++ r ∷ after) =
        omega (arith, length-append before (r' ∷ after), length-append before (r ∷ after)) in
      (
        record {
          epoch = v.epoch;
          nodes = ns;
          spots = bs ++ s' ∷ cs;
          queue = a.queue;
          unlocked = a.list_lock ∙ v.unlocked;
          seated = AllSeated-append before (r' ∷ after) bs (s' ∷ cs) left (here, right);
          attended = Attended-back bs s' cs attended;
          few = omega (arith, same, v.few);
          readers_count = a.readers_count ∙ v.readers_count ∙ sym same;
          strong_count = a.strong_count ∙ v.strong_count ∙ ap handles (sym same);
        },
        refl,
      )

  pub Calls-Turns :
      {A : Type 0} (call : Cmd T A) (next : A → Session)
      → ((s : Spot) (ss : List Spot)
          → Seated r s
          → Attended v.nodes world.start_position (s ∷ ss)
          → Turns B v.epoch v.nodes world ss call next)
      → Calls call next
  Calls-Turns call next turn =
      let (bs, s, cs, shape, left, here, right) = AllSeated-split before r after v.spots v.seated in
      let all : Attended v.nodes world.start_position (s ∷ (bs ++ cs)) =
        Attended-front bs s cs
          (subst (λ ss. Attended v.nodes world.start_position ss) shape v.attended) in
      let (a, w, ns, s', runs, conserves, here', attended, quiet) = turn s (bs ++ cs) here all in
      let (v', nodes) = IsSystem-turn (next a) bs s' cs left here' right conserves attended in
      (
        a,
        w,
        runs,
        v',
        Quiet-Seated (before ++ after) (bs ++ cs) v.nodes v'.nodes
            (AllSeated-append before after bs cs left right)
            (subst (λ ms. Undisturbed (bs ++ cs) v.nodes ms) (sym nodes) quiet),
      )

module _ {T : Type 0} (S : Settings) (world : World T) (before : List Session) (it : Iter)
    (after : List Session)
    (v : IsSystem S (record { world = world; sessions = before ++ reading it ∷ after })) where
  -- `next` of an iterator.
  pub next-Calls : Calls S world before (reading it) after v (iter_next it) after_next
  next-Calls =
      Calls-Turns S world before (reading it) after v (iter_next it) after_next (λ s ss here a.
        Turns-Takes (base_settings false S) v.epoch v.nodes world ss s (iter_next it) after_next
          read_by (Answers it s.snapshot world v.nodes)
          (next-Takes (base_settings false S) world it s ss here v.nodes v.queue a))

  -- The drop of an iterator.
  pub drop-Calls :
      Calls S world before (reading it) after v (iter_drop (base_settings false S) it) resting
  drop-Calls =
      Calls-Turns S world before (reading it) after v (iter_drop (base_settings false S) it) resting
        (λ s ss here a.
          Turns-Takes (base_settings false S) v.epoch v.nodes world ss s
            (iter_drop (base_settings false S) it) resting (λ _. []) (RestsAt it)
            (iter_drop-Takes (base_settings false S) refl world v.unlocked it s ss here v.nodes
              v.queue a))

module _ {T : Type 0} (S : Settings) (world : World T) (before : List Session) (r : EventReader)
    (after : List Session)
    (v : IsSystem S (record { world = world; sessions = before ++ resting r ∷ after })) where
  pub update-Calls :
      Calls S world before (resting r) after v (update_position (base_settings false S) r) resting
  update-Calls =
      Calls-Turns S world before (resting r) after v (update_position (base_settings false S) r)
        resting
        (λ s ss here a.
          let (w, ns, runs, conserves, a', quiet) =
            update_position-Gives (base_settings false S) refl world v.unlocked r ss v.nodes v.queue
              (subst (λ t. Attended v.nodes world.start_position (t ∷ ss)) here a) in
          (_, w, ns, _, runs, conserves, refl, a', quiet))

  pub iter-Calls : Calls S world before (resting r) after v (iter (base_settings false S) r) reading
  iter-Calls =
      Calls-Turns S world before (resting r) after v (iter (base_settings false S) r) reading
        (λ s ss here a.
          let (state, w, ns, s', runs, _, conserves, here', a', quiet) =
            iter-Opens (base_settings false S) refl world v.unlocked r ss v.nodes v.queue
              (subst (λ t. Attended v.nodes world.start_position (t ∷ ss)) here a) in
          (_, w, ns, s', runs, conserves, here', a', quiet))
