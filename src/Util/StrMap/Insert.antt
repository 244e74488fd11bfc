-- ===== src/Util/StrMap/Insert.antt =====
-- src/util/strmap.c: `strmap_insert_owned` on a valid map.
use multi_agent.Common.{
  ℕ, ◌+◌, ◌-◌, ◌≤◌, ◌<◌, ◌≡◌, refl, sym, ◌∙◌, some, Bytes, length, get_elem?, length-set, set,
  arith, subst, str_eq, if◌then◌else◌,
}
use multi_agent.Util.StrMap.{
  Slot, vacant, removed, used, Place, at, free, endless, Map, hash, find_slot, insert_owned,
}
use multi_agent.Util.StrMap.Slots.{
  HasKey, total-set, one_if_used, one_if_removed, lookup, lookup-set_used, FreeFor,
}
use multi_agent.Util.StrMap.Probing.{Reaches, Placed, IsFree}
use multi_agent.Util.StrMap.Search.{find_slot-Placed, Absent-nowhere}
use multi_agent.Util.StrMap.Valid.{IsValid, IsHashed-set_used, IsUnique-set_used}

-- The map that an insertion leaves.
pub record Inserted {V : Type 0} (m : Map V) (key : Bytes) (v : V) (m' : Map V) : Type 0 where
  pub valid : IsValid m'
  pub holds :
      (j : Bytes) → lookup m'.entries j ≡ (if str_eq key j then some v else lookup m.entries j)
  pub same_cap : length m'.entries ≡ length m.entries
  pub few : m'.count ≤ m.count + 1
  pub few_removed : m'.deleted ≤ m.deleted

module _ {V : Type 0} where
  pub find_slot-IsValid :
      (m : Map V) (key : Bytes)
      → IsValid m
      → Placed m.entries key (hash key) (find_slot m.entries key (hash key))
  find_slot-IsValid m key ok =
      let (k, size) = ok.power in
      find_slot-Placed m.entries k key size
        (let a = ok.counted in let b = ok.counted_removed in let c = ok.room in omega arith)
        ok.hashed

  free_for : (key : Bytes) (old : Slot V) → IsFree old → FreeFor key old
  free_for key vacant f = tt
  free_for key removed f = tt
  free_for key (used k h v) f = absurd f

  overwritten :
      (m : Map V) (key : Bytes) (v : V) (p : ℕ)
      → IsValid m
      → Placed m.entries key (hash key) (at p)
      → Inserted m key v (record m { entries = set m.entries p (used key (hash key) v) })
  overwritten m key v p ok (w, at_p) = record {
    valid = record {
      power = let (k, size) = ok.power in (k, length-set m.entries p new ∙ size);
      counted =
          omega
            (arith, ok.counted, total-set one_if_used m.entries p (used key (hash key) w) new at_p);
      counted_removed = omega (
        arith,
        ok.counted_removed,
        total-set one_if_removed m.entries p (used key (hash key) w) new at_p,
      );
      room = subst (λ c. m.count + m.deleted < c) (sym (length-set m.entries p new)) ok.room;
      hashed = IsHashed-set_used m.entries p key v ok.hashed (ok.hashed p key (hash key) w at_p).1;
      unique =
          IsUnique-set_used m.entries p key (hash key) v ok.unique
            (λ q ne has. ne (ok.unique q p key has (hash key, w, at_p)));
    };
    holds = λ j.
        lookup-set_used m.entries p (used key (hash key) w) key (hash key) v j at_p refl
          (λ q lt has. before q lt (ok.unique q p key has (hash key, w, at_p)));
    same_cap = length-set m.entries p new;
    few = omega arith;
    few_removed = omega arith;
  }
    where
      new : Slot V
      new = used key (hash key) v

      before : (q : ℕ) → q < p → q ≡ p → ⊥
      before q lt e = absurd (omega arith)

  taken_none : (s : Slot V) → IsFree s → one_if_used s ≡ 0
  taken_none vacant f = refl
  taken_none removed f = refl
  taken_none (used k h v) f = absurd f

  written :
      (m : Map V) (key : Bytes) (v : V) (p : ℕ) (old : Slot V) (n d : ℕ)
      → IsValid m
      → m.count + m.deleted + 1 < length m.entries
      → get_elem? m.entries p ≡ some old
      → IsFree old
      → Reaches m.entries (hash key) p
      → ((q : ℕ) → HasKey m.entries q key → ⊥)
      → n ≡ m.count + 1
      → d + one_if_removed old ≡ m.deleted
      → Inserted m key v
          (record { entries = set m.entries p (used key (hash key) v); count = n; deleted = d })
  written m key v p old n d ok space at_p is_free reach nowhere en ed = record {
    valid = record {
      power = let (k, size) = ok.power in (k, length-set m.entries p new ∙ size);
      counted = omega (
        arith,
        en,
        ok.counted,
        taken_none old is_free,
        total-set one_if_used m.entries p old new at_p,
      );
      counted_removed =
          omega (arith, ed, ok.counted_removed, total-set one_if_removed m.entries p old new at_p);
      room = subst (λ c. n + d < c) (sym (length-set m.entries p new)) (omega arith);
      hashed = IsHashed-set_used m.entries p key v ok.hashed reach;
      unique = IsUnique-set_used m.entries p key (hash key) v ok.unique (λ q ne. nowhere q);
    };
    holds = λ j.
        lookup-set_used m.entries p old key (hash key) v j at_p (free_for key old is_free)
          (λ q lt. nowhere q);
    same_cap = length-set m.entries p new;
    few = omega arith;
    few_removed = omega arith;
  }
    where
      new : Slot V
      new = used key (hash key) v

  -- with one more slot to spare, an insertion under the hash of the key ends in a valid map that holds the value under the key, and everything else as before.
  pub insert_owned_lem :
      (m : Map V) (key : Bytes) (v : V)
      → IsValid m
      → m.count + m.deleted + 1 < length m.entries
      → (m' : Map V) × (insert_owned m key (hash key) v ≡ some m') × Inserted m key v m'
  unfolding insert_owned
  insert_owned_lem m key v ok space =
      by_place (find_slot m.entries key (hash key)) refl (find_slot-IsValid m key ok)
    where
      by_place :
          (r : Place)
          → find_slot m.entries key (hash key) ≡ r
          → Placed m.entries key (hash key) r
          → (m' : Map V) × (insert_owned m key (hash key) v ≡ some m') × Inserted m key v m'
      by_place endless e placed = absurd placed
      by_place (at p) e placed = (
        record m { entries = set m.entries p (used key (hash key) v) },
        rw (insert_owned, e) refl,
        overwritten m key v p ok placed,
      )
      by_place (free p) e (vacant, at_p, is_free, reach, absent) = (
        record {
          entries = set m.entries p (used key (hash key) v);
          count = m.count + 1;
          deleted = m.deleted;
        },
        rw (insert_owned, e, at_p) refl,
        written m key v p vacant (m.count + 1) m.deleted ok space at_p tt reach
            (Absent-nowhere m.entries key ok.hashed absent) refl (omega arith),
      )
      by_place (free p) e (removed, at_p, is_free, reach, absent) =
          let some_removed : 1 ≤ m.deleted =
            omega (
              arith,
              ok.counted_removed,
              total-set one_if_removed m.entries p removed vacant at_p,
            ) in
          (
            record {
              entries = set m.entries p (used key (hash key) v);
              count = m.count + 1;
              deleted = m.deleted - 1;
            },
            rw (insert_owned, e, at_p) refl,
            written m key v p removed (m.count + 1) (m.deleted - 1) ok space at_p tt reach
                (Absent-nowhere m.entries key ok.hashed absent) refl (omega arith),
          )
      by_place (free p) e (used k h w, at_p, is_free, reach, absent) = absurd is_free
