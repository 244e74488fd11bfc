-- ===== src/Util/StrMap/Rehash.antt =====
-- src/util/strmap.c: `strmap_rehash`, `strmap_maybe_grow` and `morph_strmap_set`.
use multi_agent.Common.{
  ℕ, suc, ◌+◌, ◌*◌, ◌^◌, ◌≤◌, ◌<◌, ◌≡◌, refl, sym, ap, ◌∙◌, Option, none, some, List, [], ◌∷◌,
  Bytes, length, get_elem?, arith, inl, inr, Bool-cases, str_eq, str_eq_iff, if◌then◌else◌, leb,
  pow2,
}
use native.Mathlib.Nat.{mod-eq_of_lt}
use multi_agent.Util.Errno.{ok}
use multi_agent.Util.StrMap.{
  Slot, vacant, removed, used, Map, hash, insert_owned, insert_all, rehash, maybe_grow, set_value,
  next_cap,
}
use multi_agent.Util.StrMap.Capacity.{next_cap-Enough}
use multi_agent.Util.StrMap.Slots.{total, one_if_used, lookup, lookup-none}
use multi_agent.Util.StrMap.Valid.{IsValid, IsUnique}
use multi_agent.Util.StrMap.Insert.{Inserted, insert_owned_lem}
use multi_agent.Util.StrMap.Fresh.{==_pos, init_lem}
use multi_agent.Util.StrMap.Contents.{IsValid-entries}

module _ {V : Type 0} where
  abbrev or_else : Option V → Option V → Option V
  or_else none b = b
  or_else (some a) b = some a

  -- The hash that is stored with a key is its hash.
  abbrev IsKeyed : List (Slot V) → Type 0
  IsKeyed es = (p : ℕ) (k : Bytes) (h : ℕ) (v : V) → get_elem? es p ≡ some (used k h v) → h ≡ hash k

  -- What the loop over the old entries leaves.
  record Filled (next : Map V) (es : List (Slot V)) (filled : Map V) : Type 0 where
    pub valid : IsValid filled
    pub holds :
        (j : Bytes) → lookup filled.entries j ≡ or_else (lookup es j) (lookup next.entries j)
    pub same_cap : length filled.entries ≡ length next.entries
    pub few : filled.count + filled.deleted ≤ next.count + next.deleted + total one_if_used es

  -- The key of the first slot is in none of the others.
  first_only :
      (es : List (Slot V)) (k : Bytes) (h : ℕ) (v : V)
      → IsUnique (used k h v ∷ es)
      → lookup es k ≡ none
  first_only es k h v unique =
      lookup-none es k (λ p has. apart p (unique 0 (suc p) k (h, v, refl) has))
    where
      apart : (p : ℕ) → 0 ≡ suc p → ⊥
      apart p e = absurd (omega arith)

  IsUnique-tail : (s : Slot V) (es : List (Slot V)) → IsUnique (s ∷ es) → IsUnique es
  IsUnique-tail s es unique p q key a b =
      let e : suc p ≡ suc q = unique (suc p) (suc q) key a b in omega arith

  Filled-used :
      (next more filled : Map V) (es : List (Slot V)) (k : Bytes) (h : ℕ) (v : V)
      → lookup es k ≡ none
      → Inserted next k v more
      → Filled more es filled
      → Filled next (used k h v ∷ es) filled
  Filled-used next more filled es k h v gone ins rest = record {
    valid = rest.valid;
    holds = λ j. rest.holds j ∙ ap (or_else (lookup es j)) (ins.holds j) ∙ merged j;
    same_cap = rest.same_cap ∙ ins.same_cap;
    few = let a = rest.few in let b = ins.few in let c = ins.few_removed in omega arith;
  }
    where
      merged :
          (j : Bytes)
          → or_else (lookup es j) (if str_eq k j then some v else lookup next.entries j)
            ≡ or_else (if str_eq k j then some v else lookup es j) (lookup next.entries j)
      merged j = elim (Bool-cases (str_eq k j)) [
        | inl same ↦ rw (same, ap (lookup es) (sym ((str_eq_iff k j).0 same)) ∙ gone) refl
        | inr other ↦ rw other refl
      ]

  insert_all_used :
      (next more filled : Map V) (es : List (Slot V)) (k : Bytes) (h : ℕ) (v : V)
      → insert_owned next k h v ≡ some more
      → insert_all more es ≡ some filled
      → insert_all next (used k h v ∷ es) ≡ some filled
  unfolding insert_all
  insert_all_used next more filled es k h v e e' = rw (insert_all, e) e'

  insert_all-Filled :
      (next : Map V) (es : List (Slot V))
      → IsValid next
      → IsKeyed es
      → IsUnique es
      → next.count + next.deleted + total one_if_used es < length next.entries
      → (filled : Map V) × (insert_all next es ≡ some filled) × Filled next es filled
  unfolding insert_all
  insert_all-Filled next [] fine keyed unique space =
      (next, refl, record { valid = fine; holds = λ j. refl; same_cap = refl; few = omega arith })
  insert_all-Filled next (vacant ∷ es) fine keyed unique space =
      let (m, e, r) =
        insert_all-Filled next es fine (λ p. keyed (suc p)) (IsUnique-tail vacant es unique)
          (omega arith) in
      (
        m,
        e,
        record {
          valid = r.valid;
          holds = r.holds;
          same_cap = r.same_cap;
          few = let f = r.few in omega arith;
        },
      )
  insert_all-Filled next (removed ∷ es) fine keyed unique space =
      let (m, e, r) =
        insert_all-Filled next es fine (λ p. keyed (suc p)) (IsUnique-tail removed es unique)
          (omega arith) in
      (
        m,
        e,
        record {
          valid = r.valid;
          holds = r.holds;
          same_cap = r.same_cap;
          few = let f = r.few in omega arith;
        },
      )
  insert_all-Filled next (used k h v ∷ es) fine keyed unique space =
      let (more, e, ins) = insert_owned_lem next k v fine (omega arith) in
      let (m, e', r) =
        insert_all-Filled more es ins.valid (λ p. keyed (suc p))
          (IsUnique-tail (used k h v) es unique)
          (let a = ins.few in let b = ins.few_removed in let c = ins.same_cap in omega arith) in
      let e'' : insert_owned next k h v ≡ some more =
        ap (λ x. insert_owned next k x v) (keyed 0 k h v refl) ∙ e in
      (
        m,
        insert_all_used next more m es k h v e'' e',
        Filled-used next more m es k h v (first_only es k h v unique) ins r,
      )

  -- A valid map with one more slot to spare, and the same contents.
  record Grown (m grown : Map V) : Type 0 where
    pub valid : IsValid grown
    pub holds : (j : Bytes) → lookup grown.entries j ≡ lookup m.entries j
    pub space : grown.count + grown.deleted + 1 < length grown.entries

  or_else-none : (a : Option V) → or_else a none ≡ a
  or_else-none none = refl
  or_else-none (some x) = refl

  -- a valid map whose keys fit is copied into one with a slot to spare, of the same contents.
  rehash-Grown :
      (m : Map V)
      → IsValid m
      → m.count * 2 + 1 ≤ pow2 63
      → (grown : Map V) × (rehash m (m.count * 2 + 1) ≡ some (ok grown)) × Grown m grown
  unfolding rehash
  rehash-Grown m fine small =
      let min_cap : ℕ = m.count * 2 + 1 in
      let (k, size, enough, large, most) = next_cap-Enough min_cap small in
      let (next, e, next_fine, room, c0, d0, nothing) = init_lem {V = V} (next_cap min_cap) most in
      let (filled, e', r) =
        insert_all-Filled next m.entries next_fine (λ p k h v at_p. (fine.hashed p k h v at_p).0)
          fine.unique (let a = fine.counted in omega arith) in
      (
        filled,
        rw (==_pos (next_cap min_cap) (omega arith), e, e') refl,
        record {
          valid = r.valid;
          holds = λ j.
              r.holds j
              ∙ ap (or_else (lookup m.entries j)) (nothing j)
              ∙ or_else-none (lookup m.entries j);
          space = let a = fine.counted in let b = r.few in let c = r.same_cap in omega arith;
        },
      )

  maybe_grow-Grown :
      (m : Map V)
      → IsValid m
      → length m.entries ≤ 2 ^ 57
      → (grown : Map V) × (maybe_grow m ≡ some (ok grown)) × Grown m grown
  unfolding maybe_grow
  maybe_grow-Grown m fine small =
      let r = fine.room in
      let need : ℕ = (m.count + m.deleted + 1) * 100 in
      let given : ℕ = length m.entries * 70 in
      let need_fits : need < 2 ^ 64 = omega arith in
      let given_fits : given < 2 ^ 64 = omega arith in
      let count_fits : m.count * 2 + 1 < 2 ^ 64 = omega arith in
      elim (Bool-cases (leb need given)) [
        | inl fits ↦ (
          m,
          rw (IsValid-entries m fine, mod-eq_of_lt need_fits, mod-eq_of_lt given_fits, fits) refl,
          record { valid = fine; holds = λ j. refl; space = ground arith },
        )
        | inr full ↦
            let (grown, e, g) = rehash-Grown m fine (omega arith) in
            (
              grown,
              rw
                  (
                    IsValid-entries m fine,
                    mod-eq_of_lt need_fits,
                    mod-eq_of_lt given_fits,
                    full,
                    mod-eq_of_lt count_fits,
                  )
                  e,
              g,
            )
      ]

  -- on a valid map of at most 2^57 slots, setting a key ends without an error, in a valid map that holds the value under the key, and everything else as before, whether or not the slots are copied to larger ones.
  pub set_value_lem :
      (m : Map V) (key : Bytes) (v : V)
      → IsValid m
      → length m.entries ≤ 2 ^ 57
      → (m' : Map V) × (set_value m (some key) v ≡ some (ok m'))
        × IsValid m'
        × ((j : Bytes)
            → lookup m'.entries j ≡ (if str_eq key j then some v else lookup m.entries j))
  unfolding set_value
  set_value_lem m key v fine small =
      let (grown, e, g) = maybe_grow-Grown m fine small in
      let (m', e', ins) = insert_owned_lem grown key v g.valid g.space in
      (
        m',
        rw (IsValid-entries m fine, e, e') refl,
        ins.valid,
        λ j. ins.holds j ∙ ap (λ x. if str_eq key j then some v else x) (g.holds j),
      )
