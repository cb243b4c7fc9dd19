-- ===== src/EventQueue/Invariant/Recount.antt =====
-- The invariant does not depend on the counters of readers that come and go.
use lockless_event_queue.Base.{
  ℕ, suc, ◌+◌, ◌^◌, ◌%◌, ◌≡◌, refl, sym, ap, subst, ◌∙◌, Option, none, some, List, [], ◌∷◌, ◌++◌,
  arith, ◌==◌, ◌||◌, length,
}
use mathlib.Core.List.{append-nil, append_assoc}
use lockless_event_queue.DynamicChunk.{Ptr}
use lockless_event_queue.Heap.{Heap}
use lockless_event_queue.Node.{Node}
use lockless_event_queue.Chain.{Chain, head_ptr, last_ptr, has, IsChain, Holds}
use lockless_event_queue.World.{World, Cursor}
use lockless_event_queue.EventQueue.Settings.{Settings}
use lockless_event_queue.EventQueue.Cleanup.InOrder.{contents}
use lockless_event_queue.EventQueue.Invariant.{
  caps, IdsUpTo, HasEpoch, HasSizes, StartIn, IsQueue, Conserves, Evolves,
}

module _ {T : Type 0} where
  -- A node with other counters.
  abbrev pub recount : Node T → ℕ → ℕ → Node T
  recount n a b = record n { entered = a; read = b }

  -- The second chain is the first one, up to the counters.
  abbrev pub Recounted : Chain T → Chain T → Type 0
  Recounted [] ms = ms ≡ []
  Recounted ((p, n) ∷ ns) ms =
      (a : ℕ) × (b : ℕ) × (rest : Chain T) × (ms ≡ (p, recount n a b) ∷ rest) × Recounted ns rest

  pub Recounted-refl : (ns : Chain T) → Recounted ns ns
  Recounted-refl [] = refl
  Recounted-refl ((p, n) ∷ ns) = (n.entered, n.read, ns, refl, Recounted-refl ns)

  pub Recounted-append : (xs ns ms : Chain T) → Recounted ns ms → Recounted (xs ++ ns) (xs ++ ms)
  Recounted-append [] ns ms r = r
  Recounted-append ((p, n) ∷ xs) ns ms r =
      (n.entered, n.read, xs ++ ms, refl, Recounted-append xs ns ms r)

  pub length-Recounted : (ns ms : Chain T) → Recounted ns ms → length ms ≡ length ns
  length-Recounted [] ms r = ap length r
  length-Recounted (x ∷ ns) ms (a, b, rest, e, r) =
      ap length e ∙ ap suc (length-Recounted ns rest r)

  pub contents-Recounted : (ns ms : Chain T) → Recounted ns ms → contents ms ≡ contents ns
  contents-Recounted [] ms r = ap contents r
  contents-Recounted ((p, n) ∷ ns) ms (a, b, rest, e, r) =
      ap contents e ∙ ap (λ xs. n.items ++ xs) (contents-Recounted ns rest r)

  caps-Recounted : (ns ms : Chain T) → Recounted ns ms → caps ms ≡ caps ns
  caps-Recounted [] ms r = ap caps r
  caps-Recounted ((p, n) ∷ ns) ms (a, b, rest, e, r) =
      ap caps e ∙ ap (λ (c : ℕ). n.cap + c) (caps-Recounted ns rest r)

  head_ptr-Recounted : (ns ms : Chain T) → Recounted ns ms → head_ptr ms ≡ head_ptr ns
  head_ptr-Recounted [] ms r = ap head_ptr r
  head_ptr-Recounted (x ∷ ns) ms (a, b, rest, e, r) = ap head_ptr e

  last_ptr-Recounted : (ns ms : Chain T) → Recounted ns ms → last_ptr ms ≡ last_ptr ns
  last_ptr-Recounted [] ms r = ap last_ptr r
  last_ptr-Recounted ((p, n) ∷ []) ms (a, b, rest, e, r) =
      ap last_ptr e ∙ ap (λ ks. last_ptr ((p, recount n a b) ∷ ks)) r
  last_ptr-Recounted ((p, n) ∷ (q, m) ∷ ns) ms (a, b, rest, e, (c, d, rest', f, r)) =
      ap last_ptr e
      ∙ ap (λ ks. last_ptr ((p, recount n a b) ∷ ks)) f
      ∙ ap last_ptr (sym f)
      ∙ last_ptr-Recounted ((q, m) ∷ ns) rest (c, d, rest', f, r)

  has-Recounted : (p : Ptr) (ns ms : Chain T) → Recounted ns ms → has p ms ≡ has p ns
  has-Recounted p [] ms r = ap (has p) r
  has-Recounted p ((q, n) ∷ ns) ms (a, b, rest, e, r) =
      ap (has p) e ∙ ap (λ x. q == p || x) (has-Recounted p ns rest r)

  IdsUpTo-Recounted : (k : ℕ) (ns ms : Chain T) → Recounted ns ms → IdsUpTo k ns → IdsUpTo k ms
  IdsUpTo-Recounted k [] ms r h = subst (IdsUpTo k) (sym r) h
  IdsUpTo-Recounted k ((p, n) ∷ []) ms (a, b, rest, e, r) h =
      subst (IdsUpTo k) (sym (e ∙ ap (λ ks. (p, recount n a b) ∷ ks) r)) h
  IdsUpTo-Recounted k ((p, n) ∷ (q, m) ∷ ns) ms (a, b, rest, e, (c, d, rest', f, r)) h =
      subst (IdsUpTo k) (sym (e ∙ ap (λ ks. (p, recount n a b) ∷ ks) f))
        (h.0, subst (IdsUpTo k) f (IdsUpTo-Recounted k ((q, m) ∷ ns) rest (c, d, rest', f, r) h.1))

  HasEpoch-Recounted : (e : ℕ) (ns ms : Chain T) → Recounted ns ms → HasEpoch e ns → HasEpoch e ms
  HasEpoch-Recounted e [] ms r h = subst (HasEpoch e) (sym r) h
  HasEpoch-Recounted e (x ∷ ns) ms (a, b, rest, f, r) h =
      subst (HasEpoch e) (sym f) (h.0, HasEpoch-Recounted e ns rest r h.1)

  HasSizes-Recounted :
      (S : Settings) (ns ms : Chain T) → Recounted ns ms → HasSizes S ns → HasSizes S ms
  HasSizes-Recounted S [] ms r h = subst (HasSizes S) (sym r) h
  HasSizes-Recounted S (x ∷ ns) ms (a, b, rest, f, r) h =
      subst (HasSizes S) (sym f) (h.0, h.1, HasSizes-Recounted S ns rest r h.2)

  pub IsChain-Recounted : (ns ms : Chain T) → Recounted ns ms → IsChain ns → IsChain ms
  IsChain-Recounted [] ms r h = subst IsChain (sym r) h
  IsChain-Recounted ((p, n) ∷ ns) ms (a, b, rest, e, r) h = subst IsChain (sym e) (
    h.0,
    has-Recounted p ns rest r ∙ h.1,
    record { items_fit = h.2.items_fit; cap_small = h.2.cap_small; epoch_small = h.2.epoch_small },
    IsChain-Recounted ns rest r h.3,
  )

  StartIn-Recounted :
      (ns ms : Chain T) (c : Option Cursor) → Recounted ns ms → StartIn ns c → StartIn ms c
  StartIn-Recounted ns ms none r h = tt
  StartIn-Recounted ns ms (some c) r h = has-Recounted c.chunk ns ms r ∙ h

  -- Other counters in memory, in a queue.
  pub IsQueue-Recounted :
      {S : Settings} {e : ℕ} {w : World T} (ns ms : Chain T) (h : Heap T)
      → Recounted ns ms
      → Holds h ms
      → IsQueue S e ns w
      → IsQueue S e ms (record w { heap = h })
  IsQueue-Recounted {S} {e} {w} ns ms h r held q = record {
    rep = record {
      held = held;
      chain = IsChain-Recounted ns ms r q.rep.chain;
      first = q.rep.first ∙ sym (head_ptr-Recounted ns ms r);
      last = q.rep.last ∙ sym (last_ptr-Recounted ns ms r);
      no_free_chunk = q.rep.no_free_chunk;
    };
    nonempty = omega (arith, length-Recounted ns ms r, q.nonempty);
    start_unlocked = q.start_unlocked;
    ids = IdsUpTo-Recounted w.list.chunk_id_counter ns ms r q.ids;
    epochs = HasEpoch-Recounted e ns ms r q.epochs;
    sizes = HasSizes-Recounted S ns ms r q.sizes;
    total = q.total ∙ ap (λ (c : ℕ). c % 2 ^ 64) (sym (caps-Recounted ns ms r));
    start = StartIn-Recounted ns ms w.start_position r q.start;
  }

  pub Conserves-Recounted :
      {S : Settings} {e : ℕ} {w : World T} (ns ms : Chain T) (h : Heap T)
      → Recounted ns ms
      → Holds h ms
      → IsQueue S e ns w
      → Conserves S e ns ms [] w (record w { heap = h })
  Conserves-Recounted {w = w} ns ms h r held q = record {
    queue = IsQueue-Recounted ns ms h r held q;
    history =
        ap (λ xs. w.dropped ++ xs) (contents-Recounted ns ms r)
        ∙ sym (append-nil (w.dropped ++ contents ns));
    list_lock = refl;
    readers_count = refl;
    strong_count = refl;
  }

module _ {T : Type 0} {S : Settings} {e : ℕ} where
  pub Conserves-Evolves :
      {ns ms : Chain T} {xs : List T} {v w : World T}
      → Evolves S e ns ms xs v w
      → Conserves S e ns ms xs v w
  Conserves-Evolves a = record {
    queue = a.queue;
    history = a.history;
    list_lock = a.list_lock;
    readers_count = a.readers_count;
    strong_count = a.strong_count;
  }

  pub Conserves-trans :
      {ns ms ks : Chain T} {xs ys : List T} {u v w : World T}
      → Conserves S e ns ms xs u v
      → Conserves S e ms ks ys v w
      → Conserves S e ns ks (xs ++ ys) u w
  Conserves-trans {ns} {xs} {ys} {u} a b = record {
    queue = b.queue;
    history =
        b.history ∙ ap (λ h. h ++ ys) a.history ∙ append_assoc (u.dropped ++ contents ns) xs ys;
    list_lock = b.list_lock ∙ a.list_lock;
    readers_count = b.readers_count ∙ a.readers_count;
    strong_count = b.strong_count ∙ a.strong_count;
  }
