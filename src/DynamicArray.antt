-- ===== src/DynamicArray.antt =====
-- src/dynamic_array/mod.rs: a header and an array of a length fixed at construction, in one
-- allocation. A slot is `none` while it is not initialised. `none` as a result is undefined
-- behaviour: an unchecked access out of bounds, or a read of a slot that is not initialised.
use lockless_event_queue.Base.{
  ℕ, List, [], ◌∷◌, Option, none, some, ltb, if◌then◌else◌, get_elem?, set, replicate,
}

pub record DynamicArray (Header T : Type 0) : Type 0 where
  pub header : Header
  pub array_len : ℕ
  pub array : List (Option T)

-- A slot's value; `none` if it is out of bounds or not initialised.
abbrev pub flat : {T : Type 0} → Option (Option T) → Option T
flat none = none
flat (some o) = o

-- The values of slots that are all initialised.
abbrev pub all_values : {T : Type 0} → List (Option T) → Option (List T)
all_values [] = some []
all_values (none ∷ xs) = none
all_values (some x ∷ xs) = elim (all_values xs) [ none ↦ none | some ys ↦ some (x ∷ ys) ]

module _ {Header T : Type 0} where
  unfoldable pub construct_uninit : Header → ℕ → DynamicArray Header T
  construct_uninit header len = record {
    header = header;
    array_len = len;
    array = replicate len none;
  }

  unfoldable pub construct : Header → T → ℕ → DynamicArray Header T
  unfolding construct_uninit
  construct header value len =
      let this = construct_uninit header len in record this { array = replicate len (some value) }

  -- `write_at`, "no checks at all"
  unfoldable pub write_at : DynamicArray Header T → ℕ → T → Option (DynamicArray Header T)
  write_at this index value =
      if ltb index this.array_len
      then some (record this { array = set this.array index (some value) })
      else none

  -- `slice().get_unchecked(index)`, read
  unfoldable pub get_unchecked : DynamicArray Header T → ℕ → Option T
  get_unchecked this index =
      if ltb index this.array_len then flat (get_elem? this.array index) else none

  -- The items that `destruct` drops, in order, before it frees the allocation.
  unfoldable pub destruct : DynamicArray Header T → Option (List T)
  destruct this = all_values this.array

  unfoldable pub len : DynamicArray Header T → ℕ
  len this = this.array_len
