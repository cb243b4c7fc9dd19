-- ===== src/EventQueue/Invariant/TruncateKeeps.antt =====
-- `truncate_front` of src/event_queue.rs on a list that fits its array of 128 chunks.
use lockless_event_queue.Base.{
  if◌then◌else◌, ℕ, ◌≤◌, ◌≡◌, refl, sym, ap, ap₂, subst, ◌∙◌, Bool, true, false, not, Option, none,
  some, length,
}
use lockless_event_queue.Chain.{Chain, has}
use lockless_event_queue.Chain.Ids.{id_at, found_at}
use lockless_event_queue.World.{World, Cursor, Cmd, ok, pure, skip, ◌>>=◌}
use lockless_event_queue.EventQueue.Settings.{Settings}
use lockless_event_queue.EventQueue.Cleanup.{force_cleanup_impl}
use lockless_event_queue.EventQueue.Cleanup.InOrder.{contents}
use lockless_event_queue.EventQueue.Start.{
  cursor_lt, cursor_is_ge, chunks_len, set_start_position, truncate_at, truncate_front,
}
use lockless_event_queue.EventQueue.Start.Order.{cursor_is_ge-ok}
use lockless_event_queue.EventQueue.Start.Cut.{cut, Places, cut-none, cut-Places}
use lockless_event_queue.EventQueue.Start.Collect.{at_cut, truncate_front-at_cut}
use lockless_event_queue.EventQueue.Invariant.{StartIn, IsQueue}
use lockless_event_queue.EventQueue.Invariant.ClearKeeps.{Restarts, restart-Restarts}

module _ {T : Type 0} where
  -- The start position is at the cursor already, or past it.
  abbrev pub at_or_past : Chain T → Option Cursor → Cursor → Bool
  at_or_past ns none c = false
  at_or_past ns (some b) c = not (cursor_lt (id_at b.chunk ns) b.index (id_at c.chunk ns) c.index)

module _ {T : Type 0} (S : Settings) (e : ℕ) (w : World T) (ns : Chain T)
    (call : Cmd T (Unit {0})) where
  abbrev pub Advances : Bool → Cursor → Type 0
  Advances true c = call w ≡ ok tt w
  Advances false c = Restarts S e w c ns call

  -- A run that changes nothing, or moves the start position to the place of the last `len` items.
  abbrev pub Truncates : ℕ → Option Cursor → Type 0
  Truncates len none = (call w ≡ ok tt w) × (length (contents ns) ≤ len)
  Truncates len (some c) = Advances (at_or_past ns w.start_position c) c × Places len ns c

module _ {T : Type 0} (S : Settings) (off : S.double_buffering ≡ false) {e : ℕ} (w : World T)
    (ns : Chain T) (q : IsQueue S e ns w) where
  -- The command from the comparison with the start position on.
  abbrev truncate_from : Option Cursor → Cursor → Cmd T (Unit {0})
  truncate_from start c =
      (elim start [ none ↦ pure false | some b ↦ cursor_is_ge b c ]) >>= λ further.
      if further then skip else set_start_position c >>= λ _. force_cleanup_impl S

  truncate_at-from :
      (start : Option Cursor) (c : Cursor)
      → w.start_position ≡ start
      → truncate_at S c w ≡ truncate_from start c w
  unfolding truncate_at
  truncate_at-from start c same = ap (λ st. truncate_from st c w) same

  compared :
      (b c : Cursor) (further : Bool)
      → has b.chunk ns ≡ true
      → has c.chunk ns ≡ true
      → at_or_past ns (some b) c ≡ further
      → cursor_is_ge b c w ≡ ok further w
  compared b c further there inside past =
      let (n, next, here, id) = found_at b.chunk ns there in
      let (m, next', here', id') = found_at c.chunk ns inside in
      cursor_is_ge-ok b c n m next next' w (q.rep.held b.chunk ∙ here) (q.rep.held c.chunk ∙ here')
      ∙ ap (λ x. ok x w)
          (ap₂ (λ (i j : ℕ). not (cursor_lt i b.index j c.index)) (sym id) (sym id') ∙ past)

  Advances-by :
      (start : Option Cursor) (c : Cursor) (further : Bool)
      → w.start_position ≡ start
      → has c.chunk ns ≡ true
      → at_or_past ns start c ≡ further
      → Restarts S e w c ns (set_start_position c >>= λ _. force_cleanup_impl S)
      → Advances S e w ns (truncate_at S c) further c
  Advances-by none c true start inside past restarts = absurd (cc)
  Advances-by none c false start inside past (w', runs, after) =
      (w', truncate_at-from none c start ∙ runs, after)
  Advances-by (some b) c true start inside past restarts =
      truncate_at-from (some b) c start
      ∙ rw (compared b c true (subst (StartIn ns) start q.start) inside past)
  Advances-by (some b) c false start inside past (w', runs, after) = (
    w',
    truncate_at-from (some b) c start
        ∙ rw (compared b c false (subst (StartIn ns) start q.start) inside past) runs,
    after,
  )

  Advances-same :
      (call call' : Cmd T (Unit {0})) (further : Bool) (c : Cursor)
      → call' w ≡ call w
      → Advances S e w ns call further c
      → Advances S e w ns call' further c
  Advances-same call call' true c same runs = same ∙ runs
  Advances-same call call' false c same (w', runs, after) = (w', same ∙ runs, after)

  Truncates-cut :
      (len : ℕ) (o : Option Cursor)
      → truncate_front S len w ≡ at_cut w S o
      → cut len ns ≡ o
      → Truncates S e w ns (truncate_front S len) len o
  Truncates-cut len none same found = (same, cut-none len ns found)
  Truncates-cut len (some c) same found =
      let v = cut-Places len ns c q.rep.chain found in
      (
        Advances-same (truncate_at S c) (truncate_front S len) (at_or_past ns w.start_position c) c
            same
            (Advances-by w.start_position c (at_or_past ns w.start_position c) refl v.inside refl
              (restart-Restarts S e w off c ns q v.inside v.stands)),
        v,
      )

  -- Without the cargo feature, on a well-formed queue of at most 128 chunks in one epoch,
  -- `truncate_front` to a length runs to its end. If there is no place behind which there are this
  -- many items, there are at most this many in the queue, and nothing changes. Else, if the start
  -- position is at that place or past it, nothing changes, and if not, the place becomes the start
  -- position, in the next epoch, and the chunks are freed that a forced cleanup frees, their items
  -- dropped in order. The place is in the list, and behind it are exactly the last items of the
  -- queue, as many as the length says.
  pub truncate_front-Truncates :
      (len : ℕ)
      → length ns ≤ chunks_len
      → Truncates S e w ns (truncate_front S len) len (cut len ns)
  truncate_front-Truncates len few =
      Truncates-cut len (cut len ns) (truncate_front-at_cut w S ns len q.rep few) refl
