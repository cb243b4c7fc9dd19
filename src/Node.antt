-- ===== src/Node.antt =====
-- What a chunk of src/dynamic_chunk.rs stands for: its items, with the numbers of its header. Each
-- method of a chunk is an operation on these, wherever the chunk is well formed.
pub mod Methods
pub mod Reuse
use lockless_event_queue.Base.{
  ℕ, zero, suc, ◌+◌, ◌-◌, ◌%◌, ◌^◌, ◌≤◌, ◌<◌, ◌≡◌, refl, ap, ap₂, ◌∙◌, Bool, true, false, not,
  Option, none, some, List, [], ◌∷◌, ◌++◌, map, arith, ltb, leb, ◌==◌, of_bool, if◌then◌else◌,
  length, get_elem?, set, take, drop, replicate, length-append,
}
use lockless_event_queue.Utils.{Epoch}
use lockless_event_queue.ChunkState
use lockless_event_queue.ChunkState.Fields.{
  word, len-word, epoch-word, has_next-word, set_len-word, set_epoch-word, set_has_next-word,
  pack-word,
}
use lockless_event_queue.DynamicArray
use lockless_event_queue.DynamicArray.{DynamicArray, all_values, flat}
use lockless_event_queue.DynamicChunk
use lockless_event_queue.DynamicChunk.{
  Ptr, null, Header, DynamicChunk, Pushed, fits, capacity_error, add_usize,
}

pub record Node (T : Type 0) : Type 0 where
  pub id : ℕ
  pub cap : ℕ
  pub items : List T
  pub epoch : ℕ
  pub entered : ℕ
  pub read : ℕ

-- Slots: the items, and the rest not initialised.
abbrev pub slots : {T : Type 0} → ℕ → List T → List (Option T)
slots n [] = replicate n none
slots zero (x ∷ xs) = []
slots (suc n) (x ∷ xs) = some x ∷ slots n xs

module _ {T : Type 0} where
  pub record IsNode (n : Node T) : Type 0 where
    pub items_fit : length n.items ≤ n.cap
    pub cap_small : n.cap < 2 ^ 32
    pub epoch_small : n.epoch < 2 ^ 31

  -- The word of a node whose successor is at `next`.
  abbrev pub node_state : Node T → Ptr → ℕ
  node_state n next = word (length n.items) (of_bool (not (next == null))) n.epoch

  -- The chunk that a node is in memory.
  unfoldable pub chunk_of : Node T → Ptr → DynamicChunk T
  chunk_of n next = record {
    header = record {
      id = n.id;
      next = next;
      readers_entered = n.entered;
      read_completely_times = n.read;
      chunk_state = node_state n next;
    };
    array_len = n.cap;
    array = slots n.cap n.items;
  }

  module _ (n : Node T) (next : Ptr) where
    pub id-chunk_of : DynamicChunk.id (chunk_of n next) ≡ n.id
    unfolding chunk_of
    id-chunk_of = refl

    pub next-chunk_of : DynamicChunk.next (chunk_of n next) ≡ next
    unfolding chunk_of
    next-chunk_of = refl

    pub entered-chunk_of : DynamicChunk.readers_entered (chunk_of n next) ≡ n.entered
    unfolding chunk_of
    entered-chunk_of = refl

    pub read-chunk_of : DynamicChunk.read_completely_times (chunk_of n next) ≡ n.read
    unfolding chunk_of
    read-chunk_of = refl

    pub state-chunk_of : DynamicChunk.chunk_state (chunk_of n next) ≡ node_state n next
    unfolding chunk_of
    state-chunk_of = refl

    pub capacity-chunk_of : DynamicChunk.capacity (chunk_of n next) ≡ n.cap
    unfolding chunk_of
    capacity-chunk_of = refl

  pub set-slots :
      (n : ℕ) (xs : List T) (x : T)
      → length xs < n
      → set (slots n xs) (length xs) (some x) ≡ slots n (xs ++ (x ∷ []))
  set-slots zero [] x h = absurd (omega arith)
  set-slots (suc n) [] x h = refl
  set-slots zero (y ∷ xs) x h = absurd (omega arith)
  set-slots (suc n) (y ∷ xs) x h = ap (λ r. some y ∷ r) (set-slots n xs x (omega arith))

  pub length-slots : (n : ℕ) (xs : List T) → length xs ≤ n → length (slots n xs) ≡ n
  length-slots zero [] h = refl
  length-slots (suc n) [] h = ap suc (length-slots n [] (omega arith))
  length-slots zero (x ∷ xs) h = absurd (omega arith)
  length-slots (suc n) (x ∷ xs) h = ap suc (length-slots n xs (omega arith))

  pub get-slots :
      (n : ℕ) (xs : List T) (i : ℕ)
      → length xs ≤ n
      → flat (get_elem? (slots n xs) i) ≡ get_elem? xs i
  get-slots zero [] i h = refl
  get-slots (suc n) [] zero h = refl
  get-slots (suc n) [] (suc i) h = get-slots n [] i (omega arith)
  get-slots zero (x ∷ xs) i h = absurd (omega arith)
  get-slots (suc n) (x ∷ xs) zero h = refl
  get-slots (suc n) (x ∷ xs) (suc i) h = get-slots n xs i (omega arith)

  pub values-slots :
      (n : ℕ) (xs : List T) → length xs ≤ n → all_values (take (length xs) (slots n xs)) ≡ some xs
  values-slots n [] h = refl
  values-slots zero (x ∷ xs) h = absurd (omega arith)
  values-slots (suc n) (x ∷ xs) h = rw (values-slots n xs (omega arith))

  abbrev pub snoc : Node T → T → Node T
  snoc n x = record n { items = n.items ++ (x ∷ []) }

  abbrev pub fresh : ℕ → ℕ → ℕ → Node T
  fresh id size epoch = record {
    id = id;
    cap = size;
    items = [];
    epoch = epoch;
    entered = 0;
    read = 0;
  }

  module _ {n : Node T} (v : IsNode n) (next : Ptr) where
    abbrev pub flag : Bool
    flag = not (next == null)

    pub flag-lt : of_bool flag < 2
    flag-lt = ground arith

    pub len-chunk_of : ChunkState.len (node_state n next) ≡ length n.items
    len-chunk_of = len-word (omega (arith, v)) flag-lt v.epoch_small

    pub epoch-chunk_of : ChunkState.epoch (node_state n next) ≡ record { inner = n.epoch }
    epoch-chunk_of = epoch-word (omega (arith, v)) flag-lt v.epoch_small

    pub has_next-chunk_of : ChunkState.has_next (node_state n next) ≡ flag
    has_next-chunk_of = has_next-word (omega (arith, v)) flag-lt v.epoch_small ∙ ground arith

    pub set_next-chunk_of : (q : Ptr) → DynamicChunk.set_next (chunk_of n next) q ≡ chunk_of n q
    unfolding chunk_of DynamicChunk.set_next
    set_next-chunk_of q =
        ap
          (λ w. record (chunk_of n next) {
            header = record ((chunk_of n next).header) { next = q; chunk_state = w };
          })
          (set_has_next-word (omega (arith, v)) flag-lt v.epoch_small (not (q == null)))

    pub set_epoch-chunk_of :
        (e : ℕ)
        → e < 2 ^ 31
        → DynamicChunk.set_epoch (chunk_of n next) (record { inner = e })
          ≡ chunk_of (record n { epoch = e }) next
    unfolding chunk_of DynamicChunk.set_epoch
    set_epoch-chunk_of e h =
        ap (DynamicChunk.store_state (chunk_of n next))
          (set_epoch-word (omega (arith, v)) flag-lt v.epoch_small e h)

    -- A push at the end, with the word of any length and of this node's flag and epoch.
    pub push_at-chunk_of :
        (x : T) (l : ℕ)
        → l < 2 ^ 32
        → length n.items < n.cap
        → DynamicChunk.push_at (chunk_of n next) x (length n.items) (word l (of_bool flag) n.epoch)
          ≡ some (chunk_of (snoc n x) next)
    unfolding chunk_of DynamicChunk.push_at DynamicArray.write_at
    push_at-chunk_of x l hl room = ground (
      arith,
      v,
      set-slots n.cap n.items x room,
      length-append n.items (x ∷ []),
      set_len-word hl flag-lt v.epoch_small (length n.items + 1),
    )
