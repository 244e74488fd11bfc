-- ===== src/Util/Id/Injective.antt =====
-- src/util/id.c: identifiers tell the random bytes apart.
use multi_agent.Common.{
  ℕ, ◌/◌, ◌%◌, ◌<◌, some, [], ◌∷◌, ◌++◌, ◌≡◌, refl, sym, ap₂, ◌∙◌, arith, Bytes, length,
}
use mathlib.Core.List.{append_cancel_left}
use multi_agent.Util.Errno.{ok}
use multi_agent.Util.Id.{hex_digit, hex_encode, finish, random_id}

abbrev pub AllBytes : Bytes → Type 0
AllBytes [] = Unit
AllBytes (b ∷ bs) = (b < 256) × AllBytes bs

hex_digit-injective : (a b : ℕ) → a < 16 → b < 16 → hex_digit a ≡ hex_digit b → a ≡ b
unfolding hex_digit
hex_digit-injective a b h k e = ground arith

hex_encode-injective :
    (xs ys : Bytes) → AllBytes xs → AllBytes ys → hex_encode xs ≡ hex_encode ys → xs ≡ ys
unfolding hex_encode
hex_encode-injective [] [] h k e = refl
hex_encode-injective [] (y ∷ ys) h k e = absurd (ground arith)
hex_encode-injective (x ∷ xs) [] h k e = absurd (ground arith)
hex_encode-injective (x ∷ xs) (y ∷ ys) h k e =
    ap₂ ◌∷◌
      (omega (
        arith,
        hex_digit-injective (x / 16) (y / 16) (omega arith) (omega arith) (cc e),
        hex_digit-injective (x % 16) (y % 16) (omega arith) (omega arith) (cc e),
      ))
      (hex_encode-injective xs ys h.1 k.1 (cc e))

random_id-ok :
    (prefix raw : Bytes) (size : ℕ) {id : Bytes}
    → random_id prefix (some raw) size ≡ ok id
    → (id ≡ prefix ++ hex_encode raw) × (length id < size)
unfolding random_id finish
random_id-ok prefix raw size h = ground arith

-- Two identifiers of one prefix that are equal come from the same random bytes.
pub random_id-injective :
    (prefix xs ys : Bytes) (size : ℕ) {id : Bytes}
    → AllBytes xs
    → AllBytes ys
    → random_id prefix (some xs) size ≡ ok id
    → random_id prefix (some ys) size ≡ ok id
    → xs ≡ ys
random_id-injective prefix xs ys size h k e f = hex_encode-injective xs ys h k (
    append_cancel_left prefix _ _
      (sym (random_id-ok prefix xs size e).0 ∙ (random_id-ok prefix ys size f).0))
