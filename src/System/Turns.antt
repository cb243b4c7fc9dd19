-- ===== src/System/Turns.antt =====
-- The calls of readers, of src/mpmc/event_reader.rs, beside readers that have no part in them.
use lockless_event_queue.Base.{
  ◌^◌, ◌<◌, ◌≡◌, refl, sym, ap, ◌∙◌, subst, List, [], ◌∷◌, ◌++◌, length, arith, length-append,
}
use mathlib.Core.List.{append_assoc}
use lockless_event_queue.Chain.{Chain}
use lockless_event_queue.World.{World, Run, ok, stop}
use lockless_event_queue.Attendance.{Spot, Attended}
use lockless_event_queue.Attendance.Front.{Attended-front, Attended-back}
use lockless_event_queue.EventReader.Seats.{Session, resting, reading, Seated}
use lockless_event_queue.EventReader.OneMore.{after_next}
use lockless_event_queue.Mpmc.{Settings}
use lockless_event_queue.System.{Turn, subscribes, updates, opens, reads, closes, leaves}
use lockless_event_queue.System.Sound.{AllSeated, handles, IsSystem}
use lockless_event_queue.System.Readers.{
  AllSeated-split, AllSeated-append, Quiet, next-Calls, drop-Calls, update-Calls, iter-Calls,
}
use lockless_event_queue.System.Comings.{subscribe-Comes, unsubscribe-Goes}

module _ {T A : Type 0} where
  result : Run T A → A → A
  result (ok a w) b = a
  result (stop s) b = b

  world_after : Run T A → World T → World T
  world_after (ok a w) v = w
  world_after (stop s) v = v

  -- A call has one outcome.
  pub same_result :
      {r : Run T A} {a b : A} {v w : World T} → r ≡ ok a v → r ≡ ok b w → (a ≡ b) × (v ≡ w)
  unfolding result world_after
  same_result {a = a} {v = v} e f =
      (ap (λ r. result r a) (sym e ∙ f), ap (λ r. world_after r v) (sym e ∙ f))

AllSeated-first :
    (r : Session) (rs : List Session) (ss : List Spot)
    → AllSeated (r ∷ rs) ss
    → (s : Spot) × (ts : List Spot) × (ss ≡ s ∷ ts) × Seated r s × AllSeated rs ts
AllSeated-first r rs [] v = absurd v
AllSeated-first r rs (s ∷ ss) v = (s, ss, refl, v.0, v.1)

AllSeated-apart :
    (xs ys : List Session) (ss : List Spot)
    → AllSeated (xs ++ ys) ss
    → (bs : List Spot) × (cs : List Spot) × (ss ≡ bs ++ cs) × AllSeated xs bs × AllSeated ys cs
AllSeated-apart [] ys ss v = ([], ss, refl, tt, v)
AllSeated-apart (x ∷ xs) ys [] v = absurd v
AllSeated-apart (x ∷ xs) ys (s ∷ ss) v =
    let (bs, cs, shape, left, right) = AllSeated-apart xs ys ss v.1 in
    (s ∷ bs, cs, ap (λ ts. s ∷ ts) shape, (v.0, left), right)

module _ {T : Type 0} (S : Settings) (w : World T) where
  -- The same queue, with its readers in the order `ys`.
  abbrev pub SameQueue : Chain T → List Session → Type 0
  SameQueue ns ys = (v : IsSystem S (record { world = w; sessions = ys })) × (v.nodes ≡ ns)

  pub IsSystem-same :
      {xs ys : List Session}
      → xs ≡ ys
      → (v : IsSystem S (record { world = w; sessions = xs })) → SameQueue v.nodes ys
  IsSystem-same e v = subst (λ zs. SameQueue v.nodes zs) e (v, refl)

  reordered :
      {xs : List Session} (ys : List Session) (v : IsSystem S (record { world = w; sessions = xs }))
      (ss : List Spot)
      → length ys ≡ length xs
      → AllSeated ys ss
      → Attended v.nodes w.start_position ss
      → SameQueue v.nodes ys
  reordered ys v ss same seated attended = (
    record {
      epoch = v.epoch;
      nodes = v.nodes;
      spots = ss;
      queue = v.queue;
      unlocked = v.unlocked;
      seated = seated;
      attended = attended;
      few = omega (arith, same, v.few);
      readers_count = v.readers_count ∙ sym same;
      strong_count = v.strong_count ∙ ap handles (sym same);
    },
    refl,
  )

  -- The order of the readers does not matter.
  pub IsSystem-front :
      (xs : List Session) (r : Session) (ys : List Session)
      (v : IsSystem S (record { world = w; sessions = xs ++ r ∷ ys }))
      → SameQueue v.nodes (r ∷ (xs ++ ys))
  IsSystem-front xs r ys v =
      let (bs, s, cs, shape, left, here, right) = AllSeated-split xs r ys v.spots v.seated in
      reordered (r ∷ (xs ++ ys)) v (s ∷ (bs ++ cs))
        (omega (arith, length-append xs (r ∷ ys), length-append xs ys))
        (here, AllSeated-append xs ys bs cs left right)
        (Attended-front bs s cs (subst (Attended v.nodes w.start_position) shape v.attended))

  IsSystem-back :
      (xs : List Session) (r : Session) (ys : List Session)
      (v : IsSystem S (record { world = w; sessions = r ∷ (xs ++ ys) }))
      → SameQueue v.nodes (xs ++ r ∷ ys)
  IsSystem-back xs r ys v =
      let (s, ss, shape, here, rest) = AllSeated-first r (xs ++ ys) v.spots v.seated in
      let (bs, cs, parts, left, right) = AllSeated-apart xs ys ss rest in
      reordered (xs ++ r ∷ ys) v (bs ++ s ∷ cs)
        (omega (arith, length-append xs (r ∷ ys), length-append xs ys))
        (AllSeated-append xs (r ∷ ys) bs (s ∷ cs) left (here, right))
        (Attended-back bs s cs
          (subst (Attended v.nodes w.start_position) (shape ∙ ap (λ ts. s ∷ ts) parts) v.attended))

module _ {T : Type 0} where
  Quiet-front : (xs ys : List Session) (ns ms : Chain T) → Quiet (xs ++ ys) ns ms → Quiet xs ns ms
  Quiet-front [] ys ns ms q = tt
  Quiet-front (x ∷ xs) ys ns ms q = (q.0, Quiet-front xs ys ns ms q.1)

module _ {T : Type 0} (S : Settings) (front : List Session) where
  -- The readers `front` have as much to read as in `ns`, beside the readers `rs`.
  abbrev pub Keeps : Chain T → World T → List Session → Type 0
  Keeps ns w rs =
      (v : IsSystem S (record { world = w; sessions = front ++ rs })) × Quiet front ns v.nodes

  Keeps-call :
      {A : Type 0} {call : Run T A} {b : A} {u w : World T} (rs before : List Session) (r : Session)
      (after : List Session) (next : A → Session)
      (v : IsSystem S (record { world = u; sessions = front ++ rs }))
      → rs ≡ before ++ r ∷ after
      → call ≡ ok b w
      → ((x : IsSystem S (record { world = u; sessions = (front ++ before) ++ r ∷ after }))
          → (a : A) × (w' : World T) × (call ≡ ok a w')
            × (y : IsSystem S
                (record { world = w'; sessions = (front ++ before) ++ next a ∷ after }))
            × Quiet ((front ++ before) ++ after) x.nodes y.nodes)
      → Keeps v.nodes w (before ++ next b ∷ after)
  Keeps-call {b = b} {u = u} {w = w} rs before r after next v at runs calls =
      let (x, e) =
        IsSystem-same S u (ap (λ ks. front ++ ks) at ∙ sym (append_assoc front before (r ∷ after)))
          v in
      let (a, w', runs', y, quiet) = calls x in
      let (z, f) = IsSystem-same S w' (append_assoc front before (next a ∷ after)) y in
      let (same, same') = same_result runs' runs in
      let done : Keeps v.nodes w' (before ++ next a ∷ after) = (
        z,
        subst (λ ms. Quiet front ms z.nodes) e
            (subst (λ ms. Quiet front x.nodes ms) (sym f)
              (Quiet-front front before _ _ (Quiet-front (front ++ before) after _ _ quiet))),
      ) in
      subst (λ y. Keeps v.nodes y (before ++ next b ∷ after)) same'
        (subst (λ c. Keeps v.nodes w' (before ++ next c ∷ after)) same done)

  -- A call of one of the readers `rs`, or one that adds a reader to them.
  pub Turn-Keeps :
      {u w : World T} {rs rs' : List Session}
      (v : IsSystem S (record { world = u; sessions = front ++ rs }))
      → length (front ++ rs') < 2 ^ 32
      → Turn S u rs w rs'
      → Keeps v.nodes w rs'
  Turn-Keeps {u = u} {rs = rs} v room (subscribes {reader = r} runs) =
      let (reader, w, runs', y, quiet) =
        subscribe-Comes S (record { world = u; sessions = front ++ rs }) v
          (omega (arith, room, length-append front (resting r ∷ rs), length-append front rs)) in
      let (z, f) = IsSystem-back S w front (resting reader) rs y in
      let (same, same') = same_result runs' runs in
      let done : Keeps v.nodes w (resting reader ∷ rs) =
        (z, subst (λ ms. Quiet front v.nodes ms) (sym f) (Quiet-front front rs _ _ quiet)) in
      subst (λ y. Keeps v.nodes y (resting r ∷ rs)) same'
        (subst (λ c. Keeps v.nodes w (resting c ∷ rs)) same done)
  Turn-Keeps {u = u} v room (updates before r after at runs) =
      Keeps-call _ before (resting r) after resting v at runs
        (update-Calls S u (front ++ before) r after)
  Turn-Keeps {u = u} v room (opens before r after at runs) =
      Keeps-call _ before (resting r) after reading v at runs
        (iter-Calls S u (front ++ before) r after)
  Turn-Keeps {u = u} v room (reads before it after at runs) =
      Keeps-call _ before (reading it) after after_next v at runs
        (next-Calls S u (front ++ before) it after)
  Turn-Keeps {u = u} v room (closes before it after at runs) =
      Keeps-call _ before (reading it) after resting v at runs
        (drop-Calls S u (front ++ before) it after)
  Turn-Keeps {u = u} v room (leaves before r after at runs) =
      let (x, e) =
        IsSystem-same S u
          (ap (λ ks. front ++ ks) at ∙ sym (append_assoc front before (resting r ∷ after))) v in
      let (w, runs', y, quiet) = unsubscribe-Goes S u (front ++ before) r after x in
      let (z, f) = IsSystem-same S w (append_assoc front before after) y in
      subst (λ y. Keeps v.nodes y (before ++ after)) (same_result runs' runs).1
        (
          z,
          subst (λ ms. Quiet front ms z.nodes) e
              (subst (λ ms. Quiet front x.nodes ms) (sym f)
                (Quiet-front front before _ _ (Quiet-front (front ++ before) after _ _ quiet))),
        )
