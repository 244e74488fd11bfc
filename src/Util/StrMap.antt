-- ===== src/Util/StrMap.antt =====
-- src/util/strmap.c: a hash map from strings, with open addressing and linear probing.
--
-- The array of entries is a list, whose length is the capacity; a map that has been cleaned up, with
-- NULL for its entries, has none. An entry is a slot of one of three states, and the length of a key
-- is that of its bytes. A key that may be NULL is an option. A search that would not end is `none`,
-- or `endless`. Allocation succeeds.
pub mod Capacity
pub mod Slots
pub mod Probing
pub mod Search
pub mod Valid
pub mod Insert
pub mod Fresh
pub mod Rehash
pub mod Contents
use Prim.Native.Nat.{bit_and, bit_xor}
use multi_agent.Common.{
  ℕ, zero, suc, ◌+◌, ◌-◌, ◌*◌, ◌/◌, ◌%◌, ◌^◌, Bool, true, false, ◌&&◌, Option, none, some, List, [],
  ◌∷◌, Bytes, str_eq, length, get_elem?, set, leb, ltb, ◌==◌, if◌then◌else◌,
}
use multi_agent.Util.Errno.{einval, eoverflow, Result, ok, err}

pub data Slot (V : Type 0) : Type 0 where
  vacant : Slot V
  removed : Slot V
  used : Bytes → ℕ → V → Slot V

pub record Map (V : Type 0) : Type 0 where
  pub entries : List (Slot V)
  pub count : ℕ
  pub deleted : ℕ

abbrev pub init_cap : ℕ
init_cap = 16

abbrev pub size_max : ℕ
size_max = 2 ^ 64 - 1

unfoldable pub hash_from : ℕ → Bytes → ℕ
hash_from h [] = h
hash_from h (c ∷ cs) = hash_from (bit_xor h c * 16777619 % 2 ^ 32) cs

unfoldable pub hash : Bytes → ℕ
unfolding hash_from
hash s = let h = hash_from 2166136261 s in if h == 0 then 1 else h

-- The loop that doubles the capacity; 0 stands for an overflow.
unfoldable pub next_cap_from : ℕ → ℕ → ℕ → ℕ
next_cap_from zero cap min_cap = 0
next_cap_from (suc fuel) cap min_cap =
    let more = next_cap_from fuel (cap * 2) min_cap in
    let grown = if ltb (size_max / 2) cap then 0 else more in if ltb cap min_cap then grown else cap

unfoldable pub next_cap : ℕ → ℕ
unfolding next_cap_from
next_cap min_cap = next_cap_from 64 init_cap min_cap

-- What the search for a key ends with: its slot, or the slot that is free for it.
pub data Place : Type 0 where
  at free : ℕ → Place
  endless : Place

abbrev pub first_of_two : Option ℕ → ℕ → ℕ
first_of_two none idx = idx
first_of_two (some i) idx = i

abbrev pub next_index : ℕ → ℕ → ℕ
next_index cap idx = bit_and (idx + 1) (cap - 1)

module _ {V : Type 0} where
  -- The loop of `strmap_find_slot`, from index `idx` on; `first` is the first deleted slot.
  unfoldable pub probe : ℕ → List (Slot V) → Bytes → ℕ → ℕ → Option ℕ → Place
  probe zero es key h idx first = endless
  probe (suc fuel) es key h idx first = elim (get_elem? es idx) [
    | none ↦ endless
    | some vacant ↦ free (first_of_two first idx)
    | some removed ↦
        probe fuel es key h (next_index (length es) idx) (some (first_of_two first idx))
    | some (used k hk v) ↦ elim (hk == h && str_eq k key) [
      | true ↦ at idx
      | false ↦ probe fuel es key h (next_index (length es) idx) first
    ]
  ]

  unfoldable pub find_slot : List (Slot V) → Bytes → ℕ → Place
  find_slot es key h = probe (length es) es key h (bit_and h (length es - 1)) none

  abbrev pub is_removed : Option (Slot V) → Bool
  is_removed (some removed) = true
  is_removed _ = false

  unfoldable pub insert_owned : Map V → Bytes → ℕ → V → Option (Map V)
  insert_owned m key h value = elim (find_slot m.entries key h) [
    | endless ↦ none
    | at slot ↦ some (record m { entries = set m.entries slot (used key h value) })
    | free slot ↦ some (record {
      entries = set m.entries slot (used key h value);
      count = m.count + 1;
      deleted = if is_removed (get_elem? m.entries slot) then m.deleted - 1 else m.deleted;
    })
  ]

  unfoldable pub vacancies : ℕ → List (Slot V)
  vacancies zero = []
  vacancies (suc n) = vacant ∷ vacancies n

  unfoldable pub init : ℕ → Result (Map V)
  init requested =
      let cap = next_cap (if requested == 0 then init_cap else requested) in
      if cap == 0
      then err eoverflow
      else ok (record { entries = vacancies cap; count = 0; deleted = 0 })

  -- The loop of `strmap_rehash` over the old entries.
  unfoldable pub insert_all : Map V → List (Slot V) → Option (Map V)
  insert_all next [] = some next
  insert_all next (vacant ∷ es) = insert_all next es
  insert_all next (removed ∷ es) = insert_all next es
  insert_all next (used k h v ∷ es) = elim (insert_owned next k h v) [
    | none ↦ none
    | some more ↦ insert_all more es
  ]

  unfoldable pub rehash : Map V → ℕ → Option (Result (Map V))
  rehash m min_cap =
      let new_cap = next_cap min_cap in
      if new_cap == 0 then some (err eoverflow) else elim (init new_cap) [
        | err e ↦ some (err e)
        | ok next ↦ elim (insert_all next m.entries) [ none ↦ none | some more ↦ some (ok more) ]
      ]

  unfoldable pub maybe_grow : Map V → Option (Result (Map V))
  maybe_grow m =
      if length m.entries == 0
      then some (err einval)
      else if leb ((m.count + m.deleted + 1) * 100 % 2 ^ 64) (length m.entries * 70 % 2 ^ 64)
      then some (ok m)
      else rehash m ((m.count * 2 + 1) % 2 ^ 64)

  unfoldable pub set_value : Map V → Option Bytes → V → Option (Result (Map V))
  set_value m none value = some (err einval)
  set_value m (some key) value =
      if length m.entries == 0 then some (err einval) else elim (maybe_grow m) [
        | none ↦ none
        | some (err e) ↦ some (err e)
        | some (ok grown) ↦ elim (insert_owned grown key (hash key) value) [
          | none ↦ none
          | some m' ↦ some (ok m')
        ]
      ]

  abbrev pub value_at : Option (Slot V) → Option V
  value_at (some (used k h v)) = some v
  value_at _ = none

  -- The value, or NULL.
  unfoldable pub get_value : Map V → Option Bytes → Option (Option V)
  get_value m none = some none
  get_value m (some key) =
      if length m.entries == 0 then some none else elim (find_slot m.entries key (hash key)) [
        | endless ↦ none
        | at slot ↦ some (value_at (get_elem? m.entries slot))
        | free slot ↦ some none
      ]

  unfoldable pub contains : Map V → Option Bytes → Option Bool
  contains m none = some false
  contains m (some key) =
      if length m.entries == 0 then some false else elim (find_slot m.entries key (hash key)) [
        | endless ↦ none
        | at slot ↦ some true
        | free slot ↦ some false
      ]

  -- The map that is left, and whether the key was there.
  unfoldable pub remove : Map V → Option Bytes → Option (Map V × Bool)
  remove m none = some (m, false)
  remove m (some key) =
      if length m.entries == 0 then some (m, false) else elim (find_slot m.entries key (hash key)) [
        | endless ↦ none
        | free slot ↦ some (m, false)
        | at slot ↦ some (
          record {
            entries = set m.entries slot removed;
            count = m.count - 1;
            deleted = m.deleted + 1;
          },
          true,
        )
      ]

  unfoldable pub clear : Map V → Map V
  clear m = record { entries = vacancies (length m.entries); count = 0; deleted = 0 }

  unfoldable pub cleanup : Map V → Map V
  cleanup m = record { entries = []; count = 0; deleted = 0 }
