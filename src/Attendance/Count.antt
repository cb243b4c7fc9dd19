-- ===== src/Attendance/Count.antt =====
-- The counters of src/dynamic_chunk.rs against the number of readers in each chunk.
use lockless_event_queue.Base.{
  ℕ, ◌+◌, ◌%◌, ◌^◌, ◌<◌, ◌≡◌, sym, ap, ◌∙◌, true, false, [], ◌∷◌, ◌++◌, arith, ◌==◌, inl, inr,
  ==_refl, Bool-cases, of_bool,
}
use lockless_event_queue.DynamicChunk.{Ptr}
use lockless_event_queue.Node.{Node}
use lockless_event_queue.Chain.{Chain, has, ne-of-has}
use lockless_event_queue.EventQueue.Cleanup.InOrder.{removed, kept}
use lockless_event_queue.EventQueue.Cleanup.Sweep.{idle, busy}
use lockless_event_queue.Attendance.{Counts, entered_once, left_once}

module _ {T : Type 0} (inside : Ptr → ℕ) where
  pub Counts-kept : (ns : Chain T) → Counts inside ns → Counts inside (kept ns)
  Counts-kept [] c = c
  Counts-kept (x ∷ []) c = c
  Counts-kept ((p, n) ∷ y ∷ ns) c = elim (Bool-cases (n.entered == n.read)) [
    | inl e ↦ rw e (Counts-kept (y ∷ ns) c.2)
    | inr e ↦ rw e c
  ]

  pub Counts-busy : (seg ys : Chain T) → Counts inside (seg ++ ys) → Counts inside (busy seg ++ ys)
  Counts-busy [] ys c = c
  Counts-busy ((p, n) ∷ seg) ys c = elim (Bool-cases (n.entered == n.read)) [
    | inl e ↦ rw e (Counts-busy seg ys c.2)
    | inr e ↦ rw e (c.0, c.1, Counts-busy seg ys c.2)
  ]

  pub Counts-append :
      (xs ys : Chain T) → Counts inside xs → Counts inside ys → Counts inside (xs ++ ys)
  Counts-append [] ys c d = d
  Counts-append (x ∷ xs) ys c d = (c.0, c.1, Counts-append xs ys c.2 d)

  pub Counts-before : (xs ys : Chain T) → Counts inside (xs ++ ys) → Counts inside xs
  Counts-before [] ys c = tt
  Counts-before (x ∷ xs) ys c = (c.0, c.1, Counts-before xs ys c.2)

  pub Counts-after : (xs ys : Chain T) → Counts inside (xs ++ ys) → Counts inside ys
  Counts-after [] ys c = c
  Counts-after (x ∷ xs) ys c = Counts-after xs ys c.2

  -- A chunk with equal counters has nobody inside, if fewer than 2^64 are.
  nobody-at :
      (p q : Ptr) (n : Node T)
      → n.entered ≡ (n.read + inside p) % 2 ^ 64
      → n.read < 2 ^ 64
      → (n.entered == n.read) ≡ true
      → (p == q) ≡ true
      → inside q < 2 ^ 64
      → inside q ≡ 0
  nobody-at p q n sum small idle same few =
      let at : p ≡ q = ground (arith, same) in
      let here : n.entered ≡ (n.read + inside q) % 2 ^ 64 =
        sum ∙ ap (λ r. (n.read + inside r) % 2 ^ 64) at in
      ground (arith, here, small, idle, few)

  pub removed-vacant :
      (ns : Chain T) (q : Ptr)
      → Counts inside ns
      → inside q < 2 ^ 64
      → has q (removed ns) ≡ true
      → inside q ≡ 0
  removed-vacant [] q c few i = absurd (cc)
  removed-vacant (x ∷ []) q c few i = absurd (cc)
  removed-vacant ((p, n) ∷ y ∷ ns) q c few i = elim (Bool-cases (n.entered == n.read)) [
    | inl e ↦ elim (Bool-cases (p == q)) [
      | inl same ↦ nobody-at p q n c.0 c.1 e same few
      | inr other ↦ removed-vacant (y ∷ ns) q c.2 few (ground (arith, i, e, other))
    ]
    | inr e ↦ absurd (ground (arith, i, e))
  ]

  pub idle-vacant :
      (seg : Chain T) (q : Ptr)
      → Counts inside seg
      → inside q < 2 ^ 64
      → has q (idle seg) ≡ true
      → inside q ≡ 0
  idle-vacant [] q c few i = absurd (cc)
  idle-vacant ((p, n) ∷ seg) q c few i = elim (Bool-cases (n.entered == n.read)) [
    | inl e ↦ elim (Bool-cases (p == q)) [
      | inl same ↦ nobody-at p q n c.0 c.1 e same few
      | inr other ↦ idle-vacant seg q c.2 few (ground (arith, i, e, other))
    ]
    | inr e ↦ idle-vacant seg q c.2 few (ground (arith, i, e))
  ]

-- One reader more in a chunk.
abbrev pub with_one : Ptr → (Ptr → ℕ) → Ptr → ℕ
with_one p f q = f q + of_bool (p == q)

module _ {T : Type 0} where
  pub Counts-ext :
      (f g : Ptr → ℕ) (ns : Chain T)
      → ((p : Ptr) → has p ns ≡ true → f p ≡ g p)
      → Counts f ns
      → Counts g ns
  Counts-ext f g [] same c = tt
  Counts-ext f g ((p, n) ∷ ns) same c = (
    omega (arith, c.0, same p (ground (arith, ==_refl p))),
    c.1,
    Counts-ext f g ns (λ q i. same q (ground (arith, i))) c.2,
  )

  same_elsewhere :
      (f : Ptr → ℕ) (p : Ptr) (ns : Chain T)
      → has p ns ≡ false
      → (q : Ptr) → has q ns ≡ true
      → f q ≡ with_one p f q
  same_elsewhere f p ns out q i = ground (arith, ne-of-has p q ns out i)

  pub Counts-enter :
      (f : Ptr → ℕ) (xs : Chain T) (p : Ptr) (n : Node T) (ys : Chain T)
      → has p xs ≡ false
      → has p ys ≡ false
      → Counts f (xs ++ (p, n) ∷ ys)
      → Counts (with_one p f) (xs ++ (p, entered_once n) ∷ ys)
  Counts-enter f xs p n ys before behind c =
      let d = Counts-after f xs ((p, n) ∷ ys) c in
      Counts-append (with_one p f) xs ((p, entered_once n) ∷ ys)
        (Counts-ext f (with_one p f) xs (same_elsewhere f p xs before)
          (Counts-before f xs ((p, n) ∷ ys) c))
        (
          ground (arith, d.0, ==_refl p),
          d.1,
          Counts-ext f (with_one p f) ys (same_elsewhere f p ys behind) d.2,
        )

  pub Counts-leave :
      (f : Ptr → ℕ) (xs : Chain T) (p : Ptr) (n : Node T) (ys : Chain T)
      → has p xs ≡ false
      → has p ys ≡ false
      → Counts (with_one p f) (xs ++ (p, n) ∷ ys)
      → Counts f (xs ++ (p, left_once n) ∷ ys)
  Counts-leave f xs p n ys before behind c =
      let d = Counts-after (with_one p f) xs ((p, n) ∷ ys) c in
      Counts-append f xs ((p, left_once n) ∷ ys)
        (Counts-ext (with_one p f) f xs (λ q i. sym (same_elsewhere f p xs before q i))
          (Counts-before (with_one p f) xs ((p, n) ∷ ys) c))
        (
          ground (arith, d.0, ==_refl p),
          omega arith,
          Counts-ext (with_one p f) f ys (λ q i. sym (same_elsewhere f p ys behind q i)) d.2,
        )
