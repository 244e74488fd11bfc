-- ===== src/Common/Bits.antt =====
-- The bits of numbers: a mask of low bits is a remainder, and when a bit operation gives 0.
use Prim.Native.Nat.{
  ℕ, zero, suc, ◌+◌, ◌-◌, ◌*◌, ◌/◌, ◌%◌, ◌≤◌, ◌<◌, min, max, differ, bit_and, bit_or, bit_xor,
  digits, bit_and-bitwise, bit_or-bitwise, bit_xor-bitwise,
}
use mathlib.Core.Bool.{Bool, true, ◌&&◌}
use multi_agent.Common.Check.{◌==◌, ==_iff}
use mathlib.Core.Path.{◌≡◌, refl, sym, ap, ap₂, ◌∙◌, ◌≡⟨◌⟩◌, ◌∎}
use native.Mathlib.Omega.{arith}
use native.Mathlib.Nat.{mod-lt, div-add-mod, mul-add-mod_self_left, mod-eq_of_lt}

-- Powers of two, by doubling.
abbrev pub pow2 : ℕ → ℕ
pow2 zero = 1
pow2 (suc k) = 2 * pow2 k

pub pow2-pos : (k : ℕ) → 0 < pow2 k
pow2-pos zero = omega arith
pow2-pos (suc k) = omega (arith, pow2-pos k)

-- The remainder by an even number, digit by digit.
mod_double : (x m : ℕ) → 0 < m → x % (2 * m) ≡ x / 2 % m * 2 + x % 2
mod_double x m h =
    x % (2 * m)
    ≡⟨ ap (λ y. y % (2 * m)) parts ⟩ (2 * m * (x / 2 / m) + (x / 2 % m * 2 + x % 2)) % (2 * m)
    ≡⟨ mul-add-mod_self_left (2 * m) (x / 2 / m) (x / 2 % m * 2 + x % 2) ⟩
      (x / 2 % m * 2 + x % 2) % (2 * m)
    ≡⟨ mod-eq_of_lt small ⟩ x / 2 % m * 2 + x % 2 ∎
  where
    parts : x ≡ 2 * m * (x / 2 / m) + (x / 2 % m * 2 + x % 2)
    parts = omega (arith, div-add-mod (x / 2) m)

    small : x / 2 % m * 2 + x % 2 < 2 * m
    small = let lt : x / 2 % m < m = mod-lt (x / 2) h in omega arith

masked_digits : (n a k : ℕ) → a ≤ n → digits (λ b. zero) min n a (pow2 k - 1) ≡ a % pow2 k
masked_digits zero zero k h = sym (mod-eq_of_lt (pow2-pos k))
masked_digits zero (suc a) k h = absurd (omega arith)
masked_digits (suc n) zero k h = sym (mod-eq_of_lt (pow2-pos k))
masked_digits (suc n) (suc a) zero h = omega (arith, masked_digits n (suc a / 2) 0 (omega arith))
masked_digits (suc n) (suc a) (suc k) h =
    ap₂ (λ (b d : ℕ). digits (λ b. zero) min n (suc a / 2) b * 2 + min (suc a % 2) d) half odd
    ∙ ap₂ (λ (x d : ℕ). x * 2 + d) (masked_digits n (suc a / 2) k (omega arith)) (omega arith)
    ∙ sym (mod_double (suc a) (pow2 k) (pow2-pos k))
  where
    half : (2 * pow2 k - 1) / 2 ≡ pow2 k - 1
    half = omega (arith, pow2-pos k)

    odd : (2 * pow2 k - 1) % 2 ≡ 1
    odd = omega (arith, pow2-pos k)

-- `a & (2 ** k - 1)`
pub bit_and-mask : (a k : ℕ) → bit_and a (pow2 k - 1) ≡ a % pow2 k
bit_and-mask a k = bit_and-bitwise a (pow2 k - 1) ∙ masked_digits a a k (omega arith)

-- `a | b` and `a ^ b` are 0 in one case each.
or_digits_zero : (n a b : ℕ) → a ≤ n → digits (λ b. b) max n a b ≡ 0 → (a ≡ 0) × (b ≡ 0)
or_digits_zero zero zero b h e = (refl, e)
or_digits_zero zero (suc a) b h e = absurd (omega arith)
or_digits_zero (suc n) zero b h e = (refl, e)
or_digits_zero (suc n) (suc a) b h e =
    let halves = or_digits_zero n (suc a / 2) (b / 2) (omega arith) (omega arith) in omega arith

pub bit_or_zero : (a b : ℕ) → bit_or a b ≡ 0 → (a ≡ 0) × (b ≡ 0)
bit_or_zero a b e = or_digits_zero a a b (omega arith) (sym (bit_or-bitwise a b) ∙ e)

differ_zero : (a b : ℕ) → differ a b ≡ 0 → a ≡ b
differ_zero zero b e = sym e
differ_zero (suc a) zero e = e
differ_zero (suc a) (suc b) e = ap suc (differ_zero a b e)

differ_self : (a : ℕ) → differ a a ≡ 0
differ_self zero = refl
differ_self (suc a) = differ_self a

xor_digits_zero : (n a b : ℕ) → a ≤ n → digits (λ b. b) differ n a b ≡ 0 → a ≡ b
xor_digits_zero zero zero b h e = sym e
xor_digits_zero zero (suc a) b h e = absurd (omega arith)
xor_digits_zero (suc n) zero b h e = sym e
xor_digits_zero (suc n) (suc a) b h e =
    let halves : suc a / 2 ≡ b / 2 =
      xor_digits_zero n (suc a / 2) (b / 2) (omega arith) (omega arith) in
    let last : suc a % 2 ≡ b % 2 = differ_zero (suc a % 2) (b % 2) (omega arith) in omega arith

pub bit_xor_zero : (a b : ℕ) → bit_xor a b ≡ 0 → a ≡ b
bit_xor_zero a b e = xor_digits_zero a a b (omega arith) (sym (bit_xor-bitwise a b) ∙ e)

xor_digits_self : (n a : ℕ) → a ≤ n → digits (λ b. b) differ n a a ≡ 0
xor_digits_self zero zero h = refl
xor_digits_self zero (suc a) h = absurd (omega arith)
xor_digits_self (suc n) zero h = refl
xor_digits_self (suc n) (suc a) h =
    omega (arith, xor_digits_self n (suc a / 2) (omega arith), differ_self (suc a % 2))

pub bit_xor_self : (a : ℕ) → bit_xor a a ≡ 0
bit_xor_self a = bit_xor-bitwise a a ∙ xor_digits_self a a (omega arith)

-- A test of all numbers below a bound.
unfoldable pub holds_below : ℕ → (ℕ → Bool) → Bool
holds_below zero p = true
holds_below (suc n) p = p n && holds_below n p

pub holds_below_lem : (n : ℕ) (p : ℕ → Bool) (x : ℕ) → holds_below n p ≡ true → x < n → p x ≡ true
unfolding holds_below
holds_below_lem zero p x h lt = absurd (omega arith)
holds_below_lem (suc n) p x h lt = ground (arith, holds_below_lem n p x)

nibbles_table : holds_below 256 (λ x. bit_or (x / 16 * 16) (x % 16) == x) ≡ true
unfolding holds_below
nibbles_table = refl

-- `(x >> 4) << 4 | (x & 15)`, of a byte
pub bit_or_nibbles : (x : ℕ) → x < 256 → bit_or (x / 16 * 16) (x % 16) ≡ x
bit_or_nibbles x h = (==_iff _ x).0 (holds_below_lem 256 _ x nibbles_table h)
