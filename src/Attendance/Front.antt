-- ===== src/Attendance/Front.antt =====
-- The readers in another order: which of them comes first does not matter.
use lockless_event_queue.Base.{◌≡◌, refl, sym, Option, List, [], ◌∷◌, ◌++◌, arith, length-append}
use lockless_event_queue.DynamicChunk.{Ptr}
use lockless_event_queue.Chain.{Chain}
use lockless_event_queue.World.{Cursor}
use lockless_event_queue.Attendance.{Spot, occupants, AllStand, Attended}
use lockless_event_queue.Attendance.Count.{Counts-ext}

occupants-front :
    (before : List Spot) (s : Spot) (after : List Spot) (p : Ptr)
    → occupants (before ++ s ∷ after) p ≡ occupants (s ∷ (before ++ after)) p
occupants-front [] s after p = refl
occupants-front (t ∷ before) s after p = omega (arith, occupants-front before s after p)

module _ {T : Type 0} (ns : Chain T) where
  pub AllStand-front :
      (before : List Spot) (s : Spot) (after : List Spot)
      → AllStand ns (before ++ s ∷ after)
      → AllStand ns (s ∷ (before ++ after))
  AllStand-front [] s after all = all
  AllStand-front (t ∷ before) s after (there, all) =
      let (here, rest) = AllStand-front before s after all in (here, (there, rest))

  AllStand-back :
      (before : List Spot) (s : Spot) (after : List Spot)
      → AllStand ns (s ∷ (before ++ after))
      → AllStand ns (before ++ s ∷ after)
  AllStand-back [] s after all = all
  AllStand-back (t ∷ before) s after (here, (there, rest)) =
      (there, AllStand-back before s after (here, rest))

module _ {T : Type 0} {ns : Chain T} {start : Option Cursor} (before : List Spot) (s : Spot)
    (after : List Spot) where
  pub Attended-front :
      Attended ns start (before ++ s ∷ after) → Attended ns start (s ∷ (before ++ after))
  Attended-front a = record {
    counts = Counts-ext _ _ ns (λ p _. occupants-front before s after p) a.counts;
    stand = AllStand-front ns before s after a.stand;
    place = a.place;
    few = omega (arith, a.few, length-append before (s ∷ after), length-append before after);
  }

  pub Attended-back :
      Attended ns start (s ∷ (before ++ after)) → Attended ns start (before ++ s ∷ after)
  Attended-back a = record {
    counts = Counts-ext _ _ ns (λ p _. sym (occupants-front before s after p)) a.counts;
    stand = AllStand-back ns before s after a.stand;
    place = a.place;
    few = omega (arith, a.few, length-append before (s ∷ after), length-append before after);
  }
