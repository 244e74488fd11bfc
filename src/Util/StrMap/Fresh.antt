-- ===== src/Util/StrMap/Fresh.antt =====
-- src/util/strmap.c: `morph_strmap_init` and `morph_strmap_clear`, and the map without keys.
use multi_agent.Common.{
  ℕ, zero, suc, ◌≤◌, ◌<◌, ◌≡◌, ◌≢◌, refl, sym, ap, ◌∙◌, false, none, some, Bytes, length, get_elem?,
  arith, inl, inr, Bool-cases, subst, ◌==◌, ==_iff, if◌then◌else◌, pow2,
}
use multi_agent.Util.Errno.{ok}
use multi_agent.Util.StrMap.{Slot, vacant, used, Map, init, init_cap, next_cap, vacancies, clear}
use multi_agent.Util.StrMap.Capacity.{next_cap-Enough}
use multi_agent.Util.StrMap.Slots.{total, one_if_used, one_if_removed, lookup, lookup-none}
use multi_agent.Util.StrMap.Valid.{IsValid}

pub ==_pos : (a : ℕ) → 0 < a → (a == 0) ≡ false
==_pos a h = elim (Bool-cases (a == 0)) [
  | inl e ↦ let z : a ≡ 0 = (==_iff a 0).0 e in absurd (omega arith)
  | inr e ↦ e
]

pub length-vacancies : (V : Type 0) (n : ℕ) → length (vacancies {V = V} n) ≡ n
unfolding vacancies
length-vacancies V zero = refl
length-vacancies V (suc n) = ap suc (length-vacancies V n)

module _ {V : Type 0} where
  total-vacancies : (w : Slot V → ℕ) (n : ℕ) → w vacant ≡ 0 → total w (vacancies n) ≡ 0
  unfolding vacancies
  total-vacancies w zero h = refl
  total-vacancies w (suc n) h = omega (arith, total-vacancies w n h)

  get_elem?-vacancies :
      (n p : ℕ) (k : Bytes) (h : ℕ) (v : V) → get_elem? (vacancies n) p ≢ some (used k h v)
  unfolding vacancies
  get_elem?-vacancies zero p k h v e = cc
  get_elem?-vacancies (suc n) zero k h v e = cc
  get_elem?-vacancies (suc n) (suc p) k h v e = get_elem?-vacancies n p k h v e

  pub lookup-vacancies : (n : ℕ) (j : Bytes) → lookup (vacancies {V = V} n) j ≡ none
  lookup-vacancies n j =
      lookup-none (vacancies n) j (λ p (h, v, e). get_elem?-vacancies n p j h v e)

  pub vacancies-IsValid :
      (n k : ℕ)
      → n ≡ pow2 k
      → 0 < n
      → IsValid {V = V} (record { entries = vacancies n; count = 0; deleted = 0 })
  vacancies-IsValid n k size pos = record {
    power = (k, length-vacancies V n ∙ size);
    counted = sym (total-vacancies one_if_used n refl);
    counted_removed = sym (total-vacancies one_if_removed n refl);
    room = subst (λ x. 0 < x) (sym (length-vacancies V n)) pos;
    hashed = λ p key h v e. absurd (get_elem?-vacancies n p key h v e);
    unique = λ p q key (h, v, e) b. absurd (get_elem?-vacancies n p key h v e);
  }

  -- for a capacity of at most 2^63, the map is made: it is valid, has at least that many slots, and no key.
  pub init_lem :
      (requested : ℕ)
      → requested ≤ pow2 63
      → (m : Map V) × (init requested ≡ ok m)
        × IsValid m
        × (requested ≤ length m.entries)
        × (m.count ≡ 0)
        × (m.deleted ≡ 0)
        × ((j : Bytes) → lookup m.entries j ≡ none)
  unfolding init
  init_lem requested le =
      let n = if requested == 0 then init_cap else requested in
      let (k, size, enough, large, small) = next_cap-Enough n (ground arith) in
      let fits : requested ≤ next_cap n = ground arith in
      (
        record { entries = vacancies (next_cap n); count = 0; deleted = 0 },
        rw (init, ==_pos (next_cap n) (omega arith)) refl,
        vacancies-IsValid (next_cap n) k size (omega arith),
        subst (λ x. requested ≤ x) (sym (length-vacancies V (next_cap n))) fits,
        refl,
        refl,
        lookup-vacancies (next_cap n),
      )

  -- clearing a valid map leaves a valid one of the same capacity with no key.
  pub clear_lem :
      (m : Map V)
      → IsValid m
      → IsValid (clear m)
        × (length (clear m).entries ≡ length m.entries)
        × ((j : Bytes) → lookup (clear m).entries j ≡ none)
  unfolding clear
  clear_lem m fine =
      let (k, size) = fine.power in
      (
        vacancies-IsValid (length m.entries) k size (let r = fine.room in omega arith),
        length-vacancies V (length m.entries),
        lookup-vacancies (length m.entries),
      )
