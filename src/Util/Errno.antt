-- ===== src/Util/Errno.antt =====
-- The return codes of the modelled functions: 0, or a negated errno. A function that also hands
-- back a value returns a `Result`, whose `err` is the negated errno alone.
-- `err_load` is MORPH_ERR_LOAD.
use mathlib.Core.Path.{◌≡◌, refl, ap}
use mathlib.Core.Logic.{◌⊎◌, inl, inr}

pub data Errno : Type 0 where
  einval enoent enospc eexist eio eoverflow err_load : Errno

pub data Result {ℓ} (A : Type ℓ) : Type ℓ where
  ok : A → Result A
  err : Errno → Result A

pub Result-cases {ℓ} :
    {A : Type ℓ} (r : Result A) → ((a : A) × (r ≡ ok a)) ⊎ ((e : Errno) × (r ≡ err e))
Result-cases (ok a) = inl (a, refl)
Result-cases (err e) = inr (e, refl)

value_or {ℓ} : {A : Type ℓ} → A → Result A → A
value_or a (ok b) = b
value_or a (err e) = a

pub ok-injective {ℓ} : {A : Type ℓ} (a b : A) → ◌≡◌ {A = Result A} (ok a) (ok b) → a ≡ b
unfolding value_or
ok-injective a b h = ap (value_or a) h
