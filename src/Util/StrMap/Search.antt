-- ===== src/Util/StrMap/Search.antt =====
-- src/util/strmap.c: the whole search, `strmap_find_slot`, and what it means that a key is absent.
use multi_agent.Common.{
  ℕ, ◌+◌, ◌-◌, ◌*◌, ◌/◌, ◌%◌, ◌<◌, ◌≡◌, sym, ap, ◌∙◌, none, some, List, Bytes, length, get_elem?,
  arith, ap₂, pow2, bit_and-mask,
}
use Prim.Native.Nat.{bit_and}
use native.Mathlib.Nat.{add-mod-mod, mod-lt, mod-eq_of_lt, mul-add-mod_self_left, div-add-mod}
use native.Mathlib.Decide.{dec_lt}
use multi_agent.Util.StrMap.{Slot, vacant, used, find_slot, hash}
use multi_agent.Util.StrMap.Slots.{HasKey, has_vacant, total, one_if_used, one_if_removed}
use multi_agent.Util.StrMap.Probing.{probe-Placed, nth_slot, Absent, IsHashed, Placed}

-- The number of steps from hash h to index p.
steps_to : (c h p : ℕ) → p < c → (d : ℕ) × (d < c) × ((h + d) % c ≡ p)
steps_to c h p lt = (
  (p + (c - h % c)) % c,
  mod-lt _ (omega arith),
  add-mod-mod h (p + (c - h % c)) c
      ∙ ap (λ x. x % c) sums
      ∙ mul-add-mod_self_left c (h / c + 1) p
      ∙ mod-eq_of_lt lt,
)
  where
    sums : h + (p + (c - h % c)) ≡ c * (h / c + 1) + p
    sums = let r : h % c < c = mod-lt h (omega arith) in omega (arith, div-add-mod h c)

module _ {V : Type 0} where
  -- where not every slot is used or removed, the search ends, at the slot with the key or, where there is none, at a slot that is free for it.
  pub find_slot-Placed :
      (es : List (Slot V)) (k : ℕ) (key : Bytes)
      → length es ≡ pow2 k
      → total one_if_used es + total one_if_removed es < length es
      → IsHashed es
      → Placed es key (hash key) (find_slot es key (hash key))
  unfolding find_slot
  find_slot-Placed es k key size room hashed =
      let (p, lt, at_p) = has_vacant es room in
      let (d, less, at_d) = steps_to (length es) (hash key) p lt in
      rw start (
        probe-Placed es k key (length es) 0 d none size hashed (ap (get_elem? es) at_d ∙ at_p)
          (omega arith) (omega arith) (λ j lt'. absurd (omega arith)) tt)
    where
      start : bit_and (hash key) (length es - 1) ≡ (hash key + 0) % length es
      start =
          ap (λ c. bit_and (hash key) (c - 1)) size
          ∙ bit_and-mask (hash key) k
          ∙ ap (λ c. hash key % c) (sym size)
          ∙ ap (λ x. x % length es) (omega arith)

  -- A key that a walk from its hash does not find is in no slot.
  pub Absent-nowhere :
      (es : List (Slot V)) (key : Bytes)
      → IsHashed es
      → Absent es key (hash key)
      → (p : ℕ) → HasKey es p key
      → ⊥
  Absent-nowhere es key hashed (e, at_e, none_before) p (h, v, at_p) =
      let (same, (d, at_d, passed)) = hashed p key h v at_p in
      elim (dec_lt d e) [
        | yes lt ↦ none_before d lt (
          h,
          v,
          ap (λ x. get_elem? es ((x + d) % length es)) (sym same)
              ∙ ap (get_elem? es) (sym at_d)
              ∙ at_p,
        )
        | no ge ↦ elim (dec_lt e d) [
          | yes lt ↦ passed e lt (ap (λ x. nth_slot es x e) same ∙ at_e)
          | no le ↦
              let de : d ≡ e = omega arith in
              absurd (
                clash
                  (sym at_p ∙ ap (get_elem? es) at_d ∙ ap₂ (λ x y. nth_slot es x y) same de ∙ at_e))
        ]
      ]
    where
      clash : some (used key h v) ≡ some vacant → ⊥
      clash z = cc
