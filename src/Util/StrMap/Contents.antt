-- ===== src/Util/StrMap/Contents.antt =====
-- src/util/strmap.c: `morph_strmap_get`, `morph_strmap_contains` and `morph_strmap_remove`.
use multi_agent.Common.{
  ℕ, ◌+◌, ◌-◌, ◌<◌, ◌≡◌, refl, sym, ◌∙◌, Bool, true, false, Option, none, some, Bytes, length,
  get_elem?, length-set, set, arith, inl, inr, Bool-cases, subst, str_eq, str_eq_iff, if◌then◌else◌,
  ◌==◌,
}
use multi_agent.Util.StrMap.{
  removed, used, Place, at, free, endless, Map, hash, find_slot, get_value, contains, remove,
}
use multi_agent.Util.StrMap.Slots.{
  total, total-set, one_if_used, one_if_removed, lookup, lookup-none, lookup_first,
  lookup-set_removed,
}
use multi_agent.Util.StrMap.Probing.{Placed}
use multi_agent.Util.StrMap.Search.{Absent-nowhere}
use multi_agent.Util.StrMap.Valid.{IsValid, IsHashed-set_removed, IsUnique-set_removed}
use multi_agent.Util.StrMap.Insert.{find_slot-IsValid}
use multi_agent.Util.StrMap.Fresh.{==_pos}

-- Whether there is a value.
abbrev pub is_some {ℓ} : {A : Type ℓ} → Option A → Bool
is_some none = false
is_some (some x) = true

module _ {V : Type 0} where
  -- What the place of a key says of what the map holds.
  lookup-Placed_at :
      (m : Map V) (key : Bytes) (p : ℕ) (v : V)
      → IsValid m
      → get_elem? m.entries p ≡ some (used key (hash key) v)
      → lookup m.entries key ≡ some v
  lookup-Placed_at m key p v fine e =
      lookup_first m.entries p key (hash key) v e
        (λ q lt has. before q lt (fine.unique q p key has (hash key, v, e)))
    where
      before : (q : ℕ) → q < p → q ≡ p → ⊥
      before q lt e = absurd (omega arith)

  lookup-Placed_free :
      (m : Map V) (key : Bytes) (p : ℕ)
      → IsValid m
      → Placed m.entries key (hash key) (free p)
      → lookup m.entries key ≡ none
  lookup-Placed_free m key p fine (old, at_p, is_free, reach, absent) =
      lookup-none m.entries key (Absent-nowhere m.entries key fine.hashed absent)

  pub IsValid-entries : (m : Map V) → IsValid m → (length m.entries == 0) ≡ false
  IsValid-entries m fine = ==_pos (length m.entries) (let r = fine.room in omega arith)

  -- on a valid map a search ends, `get` answers the value that the map holds under the key, or NULL, and `contains` whether there is one.
  pub get_value-contains :
      (m : Map V) (key : Bytes)
      → IsValid m
      → (get_value m (some key) ≡ some (lookup m.entries key))
        × (contains m (some key) ≡ some (is_some (lookup m.entries key)))
  unfolding get_value contains
  get_value-contains m key fine =
      by_place (find_slot m.entries key (hash key)) refl (find_slot-IsValid m key fine)
    where
      by_place :
          (r : Place)
          → find_slot m.entries key (hash key) ≡ r
          → Placed m.entries key (hash key) r
          → (get_value m (some key) ≡ some (lookup m.entries key))
            × (contains m (some key) ≡ some (is_some (lookup m.entries key)))
      by_place endless e placed = absurd placed
      by_place (at p) e (v, at_p) =
          let held = lookup-Placed_at m key p v fine at_p in
          (
            rw (get_value, IsValid-entries m fine, e, at_p, held) refl,
            rw (contains, IsValid-entries m fine, e, held) refl,
          )
      by_place (free p) e placed =
          let held = lookup-Placed_free m key p fine placed in
          (
            rw (get_value, IsValid-entries m fine, e, held) refl,
            rw (contains, IsValid-entries m fine, e, held) refl,
          )

  -- What `remove` leaves.
  pub record Removed (m : Map V) (key : Bytes) (m' : Map V) : Type 0 where
    pub valid : IsValid m'
    pub holds :
        (j : Bytes) → lookup m'.entries j ≡ (if str_eq key j then none else lookup m.entries j)
    pub same_cap : length m'.entries ≡ length m.entries
    pub fewer : m'.count + (if is_some (lookup m.entries key) then 1 else 0) ≡ m.count

  removed_at :
      (m : Map V) (key : Bytes) (p : ℕ) (v : V)
      → IsValid m
      → get_elem? m.entries p ≡ some (used key (hash key) v)
      → Removed m key (record {
        entries = set m.entries p removed;
        count = m.count - 1;
        deleted = m.deleted + 1;
      })
  removed_at m key p v fine at_p =
      let some_used : m.count ≡ total one_if_used (set m.entries p removed) + 1 = omega (
        arith,
        fine.counted,
        total-set one_if_used m.entries p (used key (hash key) v) removed at_p,
      ) in
      record {
        valid = record {
          power = let (k, size) = fine.power in (k, length-set m.entries p removed ∙ size);
          counted = omega arith;
          counted_removed = omega (
            arith,
            fine.counted_removed,
            total-set one_if_removed m.entries p (used key (hash key) v) removed at_p,
          );
          room =
              let r = fine.room in
              subst (λ c. m.count - 1 + (m.deleted + 1) < c) (sym (length-set m.entries p removed))
                (omega arith);
          hashed = IsHashed-set_removed m.entries p fine.hashed;
          unique = IsUnique-set_removed m.entries p fine.unique;
        };
        holds = λ j.
            lookup-set_removed m.entries p key (hash key) v j at_p
              (λ q ne has. ne (fine.unique q p key has (hash key, v, at_p)));
        same_cap = length-set m.entries p removed;
        fewer = rw (lookup-Placed_at m key p v fine at_p) (omega arith);
      }

  not_there : (m : Map V) (key : Bytes) → IsValid m → lookup m.entries key ≡ none → Removed m key m
  not_there m key fine held = record {
    valid = fine;
    holds = λ j. elim (Bool-cases (str_eq key j)) [
      | inl same ↦ rw (same, sym ((str_eq_iff key j).0 same), held) refl
      | inr other ↦ rw other refl
    ];
    same_cap = refl;
    fewer = rw held (omega arith);
  }

  -- on a valid map the removal of a key ends, says whether the key was there, and leaves a valid map that holds everything else as before.
  pub remove_lem :
      (m : Map V) (key : Bytes)
      → IsValid m
      → (m' : Map V) × (remove m (some key) ≡ some (m', is_some (lookup m.entries key)))
        × Removed m key m'
  unfolding remove
  remove_lem m key fine =
      by_place (find_slot m.entries key (hash key)) refl (find_slot-IsValid m key fine)
    where
      by_place :
          (r : Place)
          → find_slot m.entries key (hash key) ≡ r
          → Placed m.entries key (hash key) r
          → (m' : Map V) × (remove m (some key) ≡ some (m', is_some (lookup m.entries key)))
            × Removed m key m'
      by_place endless e placed = absurd placed
      by_place (at p) e (v, at_p) = (
        record { entries = set m.entries p removed; count = m.count - 1; deleted = m.deleted + 1 },
        rw (remove, IsValid-entries m fine, e, lookup-Placed_at m key p v fine at_p) refl,
        removed_at m key p v fine at_p,
      )
      by_place (free p) e placed =
          let held = lookup-Placed_free m key p fine placed in
          (m, rw (remove, IsValid-entries m fine, e, held) refl, not_there m key fine held)
