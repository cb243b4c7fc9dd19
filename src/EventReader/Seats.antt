-- ===== src/EventReader/Seats.antt =====
-- A reader of src/event_reader.rs among others: where it is, resting or in an iterator.
use lockless_event_queue.Base.{ℕ, ◌≡◌, refl, sym, subst, ap₂, ◌∙◌, List, [], ◌∷◌, ◌++◌}
use lockless_event_queue.DynamicChunk.{Ptr}
use lockless_event_queue.Chain.{Chain, head_ptr}
use lockless_event_queue.Node.{Node}
use lockless_event_queue.Attendance.Split.{addresses, Place}
use lockless_event_queue.World.{World, Cmd, ok}
use lockless_event_queue.EventQueue.Settings.{Settings}
use lockless_event_queue.EventQueue.Life.{EventReader}
use lockless_event_queue.EventQueue.Invariant.{Conserves, Evolves}
use lockless_event_queue.Attendance.Front.{Attended-front}
use mathlib.Core.List.{append-nil}
use lockless_event_queue.EventReader.{Iter}
use lockless_event_queue.Attendance.Unread.{unread}
use lockless_event_queue.Attendance.{Spot, spot_at, snapshot_word, Attended}

-- A reader without an iterator, or the iterator that borrows it.
pub data Session : Type 0 where
  resting : EventReader → Session
  reading : Iter → Session

-- The chunk where the reader's session begins.
abbrev pub first_of : List Ptr → Ptr → Ptr
first_of [] p = p
first_of (q ∷ _) p = q

abbrev pub first_chunk : Spot → Ptr
first_chunk s = first_of s.behind s.chunk

module _ {T : Type 0} where
  first_of-addresses :
      (passed : Chain T) (p : Ptr) (n : Node T) (ys : Chain T)
      → first_of (addresses passed) p ≡ head_ptr (passed ++ (p, n) ∷ ys)
  first_of-addresses [] p n ys = refl
  first_of-addresses (x ∷ passed) p n ys = refl

  pub first_chunk-Place :
      (s : Spot) (passed : Chain T) (p : Ptr) (n : Node T) (ys : Chain T)
      → Place s passed p n ys
      → first_chunk s ≡ head_ptr (passed ++ (p, n) ∷ ys)
  first_chunk-Place s passed p n ys v =
      ap₂ first_of (sym v.behind) (sym v.chunk) ∙ first_of-addresses passed p n ys

-- The values that an iterator holds at a place.
pub record ReadsAt (it : Iter) (s : Spot) : Type 0 where
  pub chunk : s.chunk ≡ it.position.chunk
  pub index : s.index ≡ it.position.index
  pub state : it.state ≡ snapshot_word s.snapshot
  pub began : it.event_reader.position.chunk ≡ first_chunk s

abbrev pub Seated : Session → Spot → Type 0
Seated (resting r) s = s ≡ spot_at r.position
Seated (reading it) s = ReadsAt it s

-- What each of the readers has not read yet is the same in both chains.
abbrev pub Undisturbed : {T : Type 0} → List Spot → Chain T → Chain T → Type 0
Undisturbed ss ns ns' =
    (before : List Spot) (t : Spot) (after : List Spot)
    → ss ≡ before ++ t ∷ after
    → unread t ns' ≡ unread t ns

-- The readers `ss` beside one more, when the chain `ns` has got other counters and is then cleaned.
pub Undisturbed-Evolves :
    {T : Type 0} {S : Settings} {e : ℕ} {ms ns' : Chain T} {w w' : World T} (ns : Chain T)
    (s : Spot) (ss : List Spot)
    → Evolves S e ms ns' [] w w'
    → Attended ms w.start_position (s ∷ ss)
    → ((t : Spot) → unread t ms ≡ unread t ns)
    → Undisturbed ss ns ns'
Undisturbed-Evolves {ms = ms} {w = w} ns s ss v all same before t after e =
    v.delivers t (s ∷ (before ++ after)) (
      Attended-front (s ∷ before) t after
        (subst (λ ts. Attended ms w.start_position (s ∷ ts)) e all))
    ∙ append-nil _
    ∙ same t

-- A call of one reader, beside the readers `ss`: it runs to its end, and then the queue is well
-- formed and conserved, the reader is somewhere, everybody is counted, and the others have as much
-- to read as before.
abbrev pub Turns :
    {T A : Type 0} → Settings → ℕ → Chain T → World T → List Spot → Cmd T A → (A → Session) → Type 0
Turns {T} {A} S e ns w ss call next =
    (a : A) × (w' : World T) × (ns' : Chain T) × (s : Spot) × (call w ≡ ok a w')
    × Conserves S e ns ns' [] w w'
    × Seated (next a) s
    × Attended ns' w'.start_position (s ∷ ss)
    × Undisturbed ss ns ns'

-- A call of the reader at `s` that moreover reads the items `got`, which are the next that the
-- reader has not read, and skips none, while the others have as much to read as before. What it
-- gives, the world and the chain after it are as `is` says.
abbrev pub Takes :
    {T A : Type 0}
    → Settings
    → ℕ
    → Chain T
    → World T
    → List Spot
    → Spot
    → Cmd T A
    → (A → Session)
    → (A → List T)
    → (A → World T → Chain T → Type 0)
    → Type 0
Takes {T} {A} S e ns w ss s call next got is =
    (a : A) × (w' : World T) × (ns' : Chain T) × (s' : Spot) × (call w ≡ ok a w')
    × Conserves S e ns ns' [] w w'
    × Seated (next a) s'
    × Attended ns' w'.start_position (s' ∷ ss)
    × (got a ++ unread s' ns' ≡ unread s ns)
    × Undisturbed ss ns ns'
    × is a w' ns'

pub Turns-Takes :
    {T A : Type 0} (S : Settings) (e : ℕ) (ns : Chain T) (w : World T) (ss : List Spot) (s : Spot)
    (call : Cmd T A) (next : A → Session) (got : A → List T) (is : A → World T → Chain T → Type 0)
    → Takes S e ns w ss s call next got is
    → Turns S e ns w ss call next
Turns-Takes S e ns w ss s call next got is
      (a, w', ns', s', runs, conserves, seat, attended, _, rest, _) =
    (a, w', ns', s', runs, conserves, seat, attended, rest)
