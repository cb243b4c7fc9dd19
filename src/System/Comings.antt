-- ===== src/System/Comings.antt =====
-- Readers that come and go, with src/mpmc/event_reader.rs, among the others.
use lockless_event_queue.Base.{
  ◌+◌, ◌^◌, ◌<◌, ◌≡◌, refl, sym, ap, ◌∙◌, subst, true, false, List, [], ◌∷◌, ◌++◌, length, arith,
  length-append, ◌==◌,
}
use lockless_event_queue.World.{World, ok}
use lockless_event_queue.EventQueue.Life.{EventReader, unsubscribe}
use lockless_event_queue.EventQueue.Life as Life
use lockless_event_queue.EventQueue.Invariant.{IsQueue}
use lockless_event_queue.EventQueue.Invariant.AddChunkKeeps.{last_node}
use lockless_event_queue.EventQueue.Invariant.CleanupKeeps.{IsQueue-lock}
use lockless_event_queue.EventQueue.Invariant.Snoc.{unsnoc}
use lockless_event_queue.EventQueue.Invariant.Subscribe.{subscriber, subscribe-IsQueue}
use lockless_event_queue.EventQueue.Invariant.Unsubscribe.{unsubscribe-IsQueue}
use lockless_event_queue.Attendance.{spot_at, entered_once, left_once, Attended}
use lockless_event_queue.Attendance.Follow.{Stands-place}
use lockless_event_queue.Attendance.Front.{Attended-front}
use lockless_event_queue.Attendance.Split.{Stands-at}
use lockless_event_queue.Attendance.Turn.{
  Recounted-middle, AllStand-Recounted, Attended-enter, Attended-leave, unread-Recounted,
}
use lockless_event_queue.EventReader.Seats.{Session, resting}
use lockless_event_queue.Attendance.Unread.{unread}
use lockless_event_queue.Mpmc.{Settings, base_settings, subscribe}
use lockless_event_queue.Mpmc.Keeps.{with_list-ok}
use lockless_event_queue.System.{System}
use lockless_event_queue.System.Sound.{IsSystem}
use lockless_event_queue.System.Readers.{
  AllSeated-split, AllSeated-append, length-AllSeated, Quiet, Quiet-Seated,
}

module _ {T : Type 0} (S : Settings) (s : System T) (v : IsSystem S s)
    (room : length s.sessions + 1 < 2 ^ 32) where
  -- A new reader.
  pub subscribe-Comes :
      (reader : EventReader) × (w : World T) × (subscribe s.world ≡ ok reader w)
      × (v' : IsSystem S (record { world = w; sessions = resting reader ∷ s.sessions })) × Quiet
          s.sessions v.nodes v'.nodes
  unfolding subscribe
  subscribe-Comes =
      let B = base_settings false S in
      let locked : World T = record (s.world) { list_lock = true } in
      let (xs, p, n, shape) = unsnoc v.nodes v.queue.nonempty in
      let q : IsQueue B v.epoch (xs ++ (p, n) ∷ []) locked =
        subst (λ ks. IsQueue B v.epoch ks locked) shape (IsQueue-lock true v.queue) in
      let reader = subscriber B v.epoch locked xs p n q in
      let at = (last_node B v.epoch locked xs p n q).at in
      let (w, runs, queue, drops, count, strong, start, lock) =
        subscribe-IsQueue B v.epoch locked xs p n q in
      let before = subst (λ ks. Attended ks s.world.start_position v.spots) shape v.attended in
      let many = length-AllSeated s.sessions v.spots v.seated in
      (
        reader,
        record w { list_lock = false },
        with_list-ok Life.subscribe s.world reader w v.unlocked runs,
        record {
          epoch = v.epoch;
          nodes = xs ++ (p, entered_once n) ∷ [];
          spots = spot_at reader.position ∷ v.spots;
          queue = IsQueue-lock false queue;
          unlocked = refl;
          seated = (refl, v.seated);
          attended =
              subst
                (λ c.
                  Attended (xs ++ (p, entered_once n) ∷ []) c (spot_at reader.position ∷ v.spots))
                (sym start)
                (Attended-enter xs p n [] (spot_at reader.position ∷ v.spots) q.rep.chain
                  (λ r. ground (arith, ap (λ k. k == r) at))
                  (
                    Stands-place xs p (entered_once n) [] reader.position (sym at) (omega arith),
                    AllStand-Recounted _ _ v.spots (Recounted-middle xs p n [] _ _) before.stand,
                  )
                  (omega (arith, many, room)) before);
          few = omega (arith, room);
          readers_count = omega (arith, count, v.readers_count, room);
          strong_count = ground (arith, strong, v.readers_count, v.strong_count);
        },
        Quiet-Seated s.sessions v.spots v.nodes (xs ++ (p, entered_once n) ∷ []) v.seated
            (λ _ t _ _.
              unread-Recounted t _ _ (Recounted-middle xs p n [] _ _) ∙ ap (unread t) (sym shape)),
      )

module _ {T : Type 0} (S : Settings) (world : World T) (before : List Session) (r : EventReader)
    (after : List Session)
    (v : IsSystem S (record { world = world; sessions = before ++ resting r ∷ after })) where
  -- A reader without an iterator goes.
  pub unsubscribe-Goes :
      (w : World T) × (unsubscribe (base_settings false S) r world ≡ ok tt w)
      × (v' : IsSystem S (record { world = w; sessions = before ++ after })) × Quiet
          (before ++ after)
          v.nodes
          v'.nodes
  unsubscribe-Goes =
      let B = base_settings false S in
      let (bs, s, cs, seats, left, here, right) =
        AllSeated-split before (resting r) after v.spots v.seated in
      let many = length-append before (resting r ∷ after) in
      let rest = length-append before after in
      let all : Attended v.nodes world.start_position (spot_at r.position ∷ (bs ++ cs)) =
        subst (λ t. Attended v.nodes world.start_position (t ∷ (bs ++ cs))) here
          (Attended-front bs s cs
            (subst (λ ss. Attended v.nodes world.start_position ss) seats v.attended)) in
      let (xs, n, ys, shape, within) = Stands-at r.position v.nodes all.stand.0 in
      let q = subst (λ ks. IsQueue B v.epoch ks world) shape v.queue in
      let named =
        subst (λ ks. Attended ks world.start_position (spot_at r.position ∷ (bs ++ cs))) shape
          all in
      let (w, runs, queue, history, count, strong, free, attended, delivers) =
        unsubscribe-IsQueue B refl world r xs n ys q v.unlocked
          (omega (arith, v.readers_count, many)) (omega (arith, v.readers_count, v.few))
          (ground (arith, v.strong_count, many)) in
      let stay =
        Attended-leave xs r.position.chunk n ys (bs ++ cs) q.rep.chain (λ k. omega arith)
          named.stand.1 named (omega (arith, named.few)) in
      let seated = AllSeated-append before after bs cs left right in
      (
        w,
        runs,
        record {
          epoch = v.epoch;
          nodes = _;
          spots = bs ++ cs;
          queue = queue;
          unlocked = free;
          seated = seated;
          attended = attended (bs ++ cs) stay;
          few = omega (arith, v.few, many, rest);
          readers_count = omega (arith, count, v.readers_count, many, rest);
          strong_count = ground (arith, strong, v.strong_count, v.readers_count, many, rest);
        },
        Quiet-Seated (before ++ after) (bs ++ cs) v.nodes _ seated (λ bs' t cs' e.
            delivers t (bs' ++ cs') (
              Attended-front bs' t cs' (
                subst
                  (λ ts.
                    Attended (xs ++ (r.position.chunk, left_once n) ∷ ys) world.start_position ts)
                  e stay))
            ∙ ap (unread t) (sym shape)),
      )
