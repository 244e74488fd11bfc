-- ===== src/Util/StrMap/Slots.antt =====
-- src/util/strmap.c: the slots of a map, their counts, and what they hold as a plain list.
use multi_agent.Common.{
  ℕ, zero, suc, ◌+◌, ◌<◌, ◌≡◌, ◌≢◌, refl, sym, ap, ◌∙◌, Bool, true, false, Option, none, some, List,
  [], ◌∷◌, Bytes, str_eq, str_eq_iff, str_eq_refl, length, get_elem?, set, if◌then◌else◌, arith,
  inl, inr, Bool-cases, subst,
}
use mathlib.Core.Option.{some-injective}
use multi_agent.Util.StrMap.{Slot, vacant, removed, used}

module _ {V : Type 0} where
  -- The value of the first slot with a key: the map as an association list.
  abbrev pub lookup : List (Slot V) → Bytes → Option V
  lookup [] j = none
  lookup (vacant ∷ es) j = lookup es j
  lookup (removed ∷ es) j = lookup es j
  lookup (used k h v ∷ es) j = if str_eq k j then some v else lookup es j

  abbrev pub one_if_used : Slot V → ℕ
  one_if_used (used k h v) = 1
  one_if_used _ = 0

  abbrev pub one_if_removed : Slot V → ℕ
  one_if_removed removed = 1
  one_if_removed _ = 0

  abbrev pub total : (Slot V → ℕ) → List (Slot V) → ℕ
  total w [] = 0
  total w (s ∷ es) = w s + total w es

  pub total-set :
      (w : Slot V → ℕ) (es : List (Slot V)) (p : ℕ) (old new : Slot V)
      → get_elem? es p ≡ some old
      → total w (set es p new) + w old ≡ total w es + w new
  total-set w [] p old new h = cc
  total-set w (s ∷ es) zero old new h = let e : s ≡ old = some-injective _ _ h in rw e (omega arith)
  total-set w (s ∷ es) (suc p) old new h = omega (arith, total-set w es p old new h)

  -- Where not every slot is used or removed, one is vacant.
  pub has_vacant :
      (es : List (Slot V))
      → total one_if_used es + total one_if_removed es < length es
      → (p : ℕ) × (p < length es) × (get_elem? es p ≡ some vacant)
  has_vacant [] h = absurd (omega arith)
  has_vacant (vacant ∷ es) h = (0, omega arith, refl)
  has_vacant (removed ∷ es) h =
      let (p, lt, e) = has_vacant es (omega arith) in (suc p, omega arith, e)
  has_vacant (used k hk v ∷ es) h =
      let (p, lt, e) = has_vacant es (omega arith) in (suc p, omega arith, e)

  pub get_elem?-in :
      (es : List (Slot V)) (p : ℕ) → p < length es → (s : Slot V) × (get_elem? es p ≡ some s)
  get_elem?-in [] p h = absurd (omega arith)
  get_elem?-in (s ∷ es) zero h = (s, refl)
  get_elem?-in (s ∷ es) (suc p) h = get_elem?-in es p (omega arith)

  -- The slot at index p has the key.
  abbrev pub HasKey : List (Slot V) → ℕ → Bytes → Type 0
  HasKey es p key = (h : ℕ) × (v : V) × (get_elem? es p ≡ some (used key h v))

  pub lookup-none :
      (es : List (Slot V)) (key : Bytes) → ((p : ℕ) → HasKey es p key → ⊥) → lookup es key ≡ none
  lookup-none [] key h = refl
  lookup-none (vacant ∷ es) key h = lookup-none es key (λ p. h (suc p))
  lookup-none (removed ∷ es) key h = lookup-none es key (λ p. h (suc p))
  lookup-none (used k hk v ∷ es) key h = elim (Bool-cases (str_eq k key)) [
    | inl same ↦ absurd (h 0 (hk, v, ap (λ x. some (used x hk v)) ((str_eq_iff k key).0 same)))
    | inr other ↦ rw other (lookup-none es key (λ p. h (suc p)))
  ]

  pub lookup_first :
      (es : List (Slot V)) (p : ℕ) (key : Bytes) (h : ℕ) (v : V)
      → get_elem? es p ≡ some (used key h v)
      → ((q : ℕ) → q < p → HasKey es q key → ⊥)
      → lookup es key ≡ some v
  lookup_first [] p key h v e first = cc
  lookup_first (s ∷ es) zero key h v e first =
      let e' : s ≡ used key h v = some-injective _ _ e in rw (e', str_eq_refl key)
  lookup_first (vacant ∷ es) (suc p) key h v e first =
      lookup_first es p key h v e (λ q lt. first (suc q) (omega arith))
  lookup_first (removed ∷ es) (suc p) key h v e first =
      lookup_first es p key h v e (λ q lt. first (suc q) (omega arith))
  lookup_first (used k hk w ∷ es) (suc p) key h v e first = elim (Bool-cases (str_eq k key)) [
    | inl same ↦
        absurd
          (first 0 (omega arith) (hk, w, ap (λ x. some (used x hk w)) ((str_eq_iff k key).0 same)))
    | inr other ↦ rw other (lookup_first es p key h v e (λ q lt. first (suc q) (omega arith)))
  ]

  -- The slot holds no key but this one.
  abbrev pub FreeFor : Bytes → Slot V → Type 0
  FreeFor key vacant = Unit
  FreeFor key removed = Unit
  FreeFor key (used k h v) = k ≡ key

  -- Two tests that are not both true may be swapped.
  if_swap :
      (a b : Bool) (x y r t : Option V)
      → (a ≡ true → b ≡ true → ⊥)
      → r ≡ (if b then y else t)
      → (if a then x else r) ≡ (if b then y else (if a then x else t))
  if_swap true true x y r t clash e = absurd (clash refl refl)
  if_swap true false x y r t clash e = refl
  if_swap false b x y r t clash e = e

  -- Writing a key where no slot in front has it.
  pub lookup-set_used :
      (es : List (Slot V)) (p : ℕ) (old : Slot V) (key : Bytes) (h : ℕ) (v : V) (j : Bytes)
      → get_elem? es p ≡ some old
      → FreeFor key old
      → ((q : ℕ) → q < p → HasKey es q key → ⊥)
      → lookup (set es p (used key h v)) j ≡ (if str_eq key j then some v else lookup es j)
  lookup-set_used [] p old key h v j e ff first = cc
  lookup-set_used (s ∷ es) zero old key h v j e ff first =
      let e' : old ≡ s = some-injective _ _ (sym e) in unchanged s (subst (FreeFor key) e' ff)
    where
      unchanged :
          (s : Slot V)
          → FreeFor key s
          → (if str_eq key j then some v else lookup es j)
            ≡ (if str_eq key j then some v else lookup (s ∷ es) j)
      unchanged vacant f = refl
      unchanged removed f = refl
      unchanged (used k hk w) f = rw f (ground arith)
  lookup-set_used (vacant ∷ es) (suc p) old key h v j e ff first =
      lookup-set_used es p old key h v j e ff (λ q lt. first (suc q) (omega arith))
  lookup-set_used (removed ∷ es) (suc p) old key h v j e ff first =
      lookup-set_used es p old key h v j e ff (λ q lt. first (suc q) (omega arith))
  lookup-set_used (used k hk w ∷ es) (suc p) old key h v j e ff first =
      if_swap (str_eq k j) (str_eq key j) _ _ _ _ clash
        (lookup-set_used es p old key h v j e ff (λ q lt. first (suc q) (omega arith)))
    where
      clash : str_eq k j ≡ true → str_eq key j ≡ true → ⊥
      clash a b = first 0 (omega arith) (
        hk,
        w,
        ap (λ x. some (used x hk w)) ((str_eq_iff k j).0 a ∙ sym ((str_eq_iff key j).0 b)),
      )

  -- Removing the one slot that has a key.
  pub lookup-set_removed :
      (es : List (Slot V)) (p : ℕ) (key : Bytes) (h : ℕ) (v : V) (j : Bytes)
      → get_elem? es p ≡ some (used key h v)
      → ((q : ℕ) → q ≢ p → HasKey es q key → ⊥)
      → lookup (set es p removed) j ≡ (if str_eq key j then none else lookup es j)
  lookup-set_removed [] p key h v j e only = cc
  lookup-set_removed (s ∷ es) zero key h v j e only =
      let e' : s ≡ used key h v = some-injective _ _ e in
      subst (λ x. lookup es j ≡ (if str_eq key j then none else lookup (x ∷ es) j)) (sym e') rest
    where
      gone : str_eq key j ≡ true → lookup es j ≡ none
      gone same =
          rw (sym ((str_eq_iff key j).0 same))
            (lookup-none es key (λ q. only (suc q) (λ z. absurd (omega arith))))

      rest :
          lookup es j
          ≡ (if str_eq key j then none else (if str_eq key j then some v else lookup es j))
      rest = elim (Bool-cases (str_eq key j)) [
        | inl same ↦ rw same (gone same)
        | inr other ↦ rw other refl
      ]
  lookup-set_removed (vacant ∷ es) (suc p) key h v j e only =
      lookup-set_removed es p key h v j e (λ q ne. only (suc q) (λ z. ne (omega arith)))
  lookup-set_removed (removed ∷ es) (suc p) key h v j e only =
      lookup-set_removed es p key h v j e (λ q ne. only (suc q) (λ z. ne (omega arith)))
  lookup-set_removed (used k hk w ∷ es) (suc p) key h v j e only =
      if_swap (str_eq k j) (str_eq key j) _ _ _ _ clash
        (lookup-set_removed es p key h v j e (λ q ne. only (suc q) (λ z. ne (omega arith))))
    where
      clash : str_eq k j ≡ true → str_eq key j ≡ true → ⊥
      clash a b =
          only 0 (λ z. absurd (omega arith))
            (
              hk,
              w,
              ap (λ x. some (used x hk w)) ((str_eq_iff k j).0 a ∙ sym ((str_eq_iff key j).0 b)),
            )
