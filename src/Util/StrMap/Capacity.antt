-- ===== src/Util/StrMap/Capacity.antt =====
-- src/util/strmap.c: the capacities.
use multi_agent.Common.{
  ℕ, zero, suc, ◌+◌, ◌-◌, ◌/◌, ◌≤◌, ◌<◌, ◌≡◌, refl, ltb, arith, inl, inr, Bool-cases, pow2, le→ltb,
  subst,
}
use Prim.Native.Nat.add
use native.Mathlib.Decide.{dec_lt}
use native.Mathlib.Nat.{mul_comm}
use multi_agent.Util.StrMap.{next_cap_from, next_cap, init_cap, size_max}

pow2_mono : (a d : ℕ) → pow2 a ≤ pow2 (d + a)
pow2_mono a zero = rw add.zero (omega arith)
pow2_mono a (suc d) = rw (add.suc d a) (omega (arith, pow2_mono a d))

-- A smaller power has the smaller exponent.
pow2-lt : (a b : ℕ) → pow2 a < pow2 b → a < b
pow2-lt a b h = elim (dec_lt a b) [
  | yes lt ↦ lt
  | no ge ↦
      let e : a - b + b ≡ a = omega arith in
      absurd (omega (arith, subst (λ x. pow2 b ≤ pow2 x) e (pow2_mono b (a - b))))
]

-- A capacity that is enough and within bounds, and a power of two.
abbrev pub Enough : ℕ → ℕ → Type 0
Enough min_cap cap = (k : ℕ) × (cap ≡ pow2 k) × (min_cap ≤ cap) × (init_cap ≤ cap) × (cap ≤ pow2 63)

next_cap_from-Enough :
    (fuel a min_cap : ℕ)
    → min_cap ≤ pow2 63
    → 4 ≤ a
    → a ≤ 63
    → 63 < a + fuel
    → Enough min_cap (next_cap_from fuel (pow2 a) min_cap)
unfolding next_cap_from
next_cap_from-Enough zero a min_cap le large small lt = absurd (omega arith)
next_cap_from-Enough (suc fuel) a min_cap le large small lt =
    elim (Bool-cases (ltb (pow2 a) min_cap)) [
      | inr enough ↦ rw enough (a, refl, ground arith, least, most)
      | inl less ↦
          let below : pow2 a < pow2 63 = ground arith in
          let a_lt : a < 63 = pow2-lt a 63 below in
          rw (less, le→ltb (size_max / 2) (pow2 a) (omega arith))
            (subst (λ c. Enough min_cap (next_cap_from fuel c min_cap)) (mul_comm 2 (pow2 a))
              (next_cap_from-Enough fuel (suc a) min_cap le (omega arith) (omega arith)
                (omega arith)))
    ]
  where
    least : init_cap ≤ pow2 a
    least =
        let e : a - 4 + 4 ≡ a = omega arith in subst (λ x. pow2 4 ≤ pow2 x) e (pow2_mono 4 (a - 4))

    most : pow2 a ≤ pow2 63
    most =
        let e : 63 - a + a ≡ 63 = omega arith in
        subst (λ x. pow2 a ≤ pow2 x) e (pow2_mono a (63 - a))

-- up to 2^63 entries the capacity is a power of two that is as large as was asked for.
pub next_cap-Enough : (min_cap : ℕ) → min_cap ≤ pow2 63 → Enough min_cap (next_cap min_cap)
unfolding next_cap
next_cap-Enough min_cap le =
    next_cap_from-Enough 64 4 min_cap le (omega arith) (omega arith) (omega arith)
