-- ===== src/EventQueue/Start/Cut.antt =====
-- Where `truncate_front` of src/event_queue.rs cuts a queue: the place of its last `len` items.
use lockless_event_queue.Base.{
  ℕ, zero, suc, ◌+◌, ◌-◌, ◌≤◌, ◌≡◌, refl, sym, ap, subst, ◌∙◌, true, false, leb, Option, none, some,
  List, [], ◌∷◌, ◌++◌, arith, ◌==◌, if◌then◌else◌, length, drop, ==_refl, length-append,
  Option-cases, Bool-cases, inl, inr, if_false,
}
use lockless_event_queue.DynamicChunk.{Ptr}
use lockless_event_queue.Node.{Node}
use lockless_event_queue.Chain.{Chain, has, IsChain, ne-of-has}
use lockless_event_queue.World.{Cursor}
use lockless_event_queue.EventQueue.Cleanup.InOrder.{contents}
use lockless_event_queue.Attendance.{spot_at, Stands}
use lockless_event_queue.Attendance.Follow.{Stands-place}

module _ {A : Type 0} where
  drop-append : (k : ℕ) (xs ys : List A) → k ≤ length xs → drop k (xs ++ ys) ≡ drop k xs ++ ys
  drop-append zero xs ys h = refl
  drop-append (suc k) [] ys h = absurd (omega arith)
  drop-append (suc k) (x ∷ xs) ys h = drop-append k xs ys (omega arith)

  drop-beyond : (k j : ℕ) (xs ys : List A) → k ≡ length xs + j → drop k (xs ++ ys) ≡ drop j ys
  drop-beyond k j [] ys e = ap (λ (i : ℕ). drop i ys) (omega (arith, e))
  drop-beyond zero j (x ∷ xs) ys e = absurd (omega (arith, e))
  drop-beyond (suc k) j (x ∷ xs) ys e = drop-beyond k j xs ys (omega (arith, e))

module _ {T : Type 0} where
  -- The place behind which there are `len` items, in the last chunk where there is one.
  abbrev pub cut : ℕ → Chain T → Option Cursor
  cut len [] = none
  cut len ((p, n) ∷ ns) = elim (cut len ns) [
    | some c ↦ some c
    | none ↦
        if leb len (length n.items + length (contents ns))
        then some (record { chunk = p; index = length n.items + length (contents ns) - len })
        else none
  ]

  -- The items from a place on.
  abbrev pub contents_from : Cursor → Chain T → List T
  contents_from c [] = []
  contents_from c ((p, n) ∷ ns) =
      if p == c.chunk then drop c.index n.items ++ contents ns else contents_from c ns

  pub cut-none : (len : ℕ) (ns : Chain T) → cut len ns ≡ none → length (contents ns) ≤ len
  cut-none len [] e = omega arith
  cut-none len ((p, n) ∷ ns) e = elim (Option-cases (cut len ns)) [
    | inl none_there ↦ ground (arith, none_there, e, length-append n.items (contents ns))
    | inr (c, there) ↦ absurd (ground (arith, there, e))
  ]

  -- The place `c` is in the list, and exactly the last `len` items are behind it.
  pub record Places (len : ℕ) (ns : Chain T) (c : Cursor) : Type 0 where
    pub inside : has c.chunk ns ≡ true
    pub stands : Stands ns (spot_at c)
    pub enough : len ≤ length (contents ns)
    pub rest : contents_from c ns ≡ drop (length (contents ns) - len) (contents ns)

  Places-here :
      (len : ℕ) (p : Ptr) (n : Node T) (ns : Chain T)
      → length (contents ns) ≤ len
      → len ≤ length n.items + length (contents ns)
      → Places len
          ((p, n) ∷ ns)
          (record { chunk = p; index = length n.items + length (contents ns) - len })
  Places-here len p n ns below above =
      let total = length-append n.items (contents ns) in
      record {
        inside = ground (arith, ==_refl p);
        stands =
            Stands-place [] p n ns
              (record { chunk = p; index = length n.items + length (contents ns) - len }) refl
              (omega arith);
        enough = omega (arith, total);
        rest = rw (==_refl p) (
            sym (
              drop-append (length n.items + length (contents ns) - len) n.items (contents ns)
                (omega arith))
            ∙ ap (λ (k : ℕ). drop (k - len) (n.items ++ contents ns)) (sym total));
      }

  Places-there :
      (len : ℕ) (p : Ptr) (n : Node T) (ns : Chain T) (c : Cursor)
      → has p ns ≡ false
      → Places len ns c
      → Places len ((p, n) ∷ ns) c
  Places-there len p n ns c out v =
      let total = length-append n.items (contents ns) in
      record {
        inside = ground (arith, v.inside);
        stands = inr v.stands;
        enough = omega (arith, total, v.enough);
        rest =
            if_false _ _ (ne-of-has p c.chunk ns out v.inside)
            ∙ v.rest
            ∙ sym (
                drop-beyond (length (n.items ++ contents ns) - len) (length (contents ns) - len)
                  n.items (contents ns) (omega (arith, total, v.enough)));
      }

  pub cut-Places :
      (len : ℕ) (ns : Chain T) (c : Cursor) → IsChain ns → cut len ns ≡ some c → Places len ns c
  cut-Places len [] c v e = absurd (cc)
  cut-Places len ((p, n) ∷ ns) c v e = elim (Option-cases (cut len ns)) [
    | inl none_there ↦ elim (Bool-cases (leb len (length n.items + length (contents ns)))) [
      | inl here ↦
          let found : Cursor = record {
            chunk = p;
            index = length n.items + length (contents ns) - len;
          } in
          let shown : cut len ((p, n) ∷ ns) ≡ some found = rw (none_there, here) refl in
          let at : found ≡ c = ap (λ o. elim o [ none ↦ found | some d ↦ d ]) (sym shown ∙ e) in
          subst (Places len ((p, n) ∷ ns)) at
            (Places-here len p n ns (cut-none len ns none_there) (ground (arith, here)))
      | inr absent ↦ absurd (ground (arith, none_there, absent, e))
    ]
    | inr (d, there) ↦
        Places-there len p n ns c v.1 (cut-Places len ns c v.3 (ground (arith, there, e)))
  ]
