-- ===== src/Util/Utf8.antt =====
-- src/util/utf8.c: the decoding of one code point, and the classes of code points.
--
-- The functions of vendor/sheredom_utf8.h are a parameter. A text is the bytes up to its NUL, so
-- `avail` is the length of what is left of it.
use multi_agent.Common.{
  ℕ, Bool, ◌&&◌, ◌||◌, Option, none, some, [], ◌∷◌, Bytes, length, leb, ltb, ◌==◌, if◌then◌else◌,
}

-- What vendor/sheredom_utf8.h gives at the head of a text: `utf8codepointcalcsize`, whether
-- `utf8nvalid` finds no fault in the first n bytes, and the code point of `utf8codepoint`
-- with the number of bytes that it moves on.
pub record Utf8Library : Type 0 where
  pub calc_size : Bytes → ℕ
  pub valid : Bytes → ℕ → Bool
  pub codepoint : Bytes → ℕ
  pub advance : Bytes → ℕ

abbrev pub within : ℕ → ℕ → ℕ → Bool
within lo hi c = leb lo c && leb c hi

unfoldable pub next_codepoint_len : Utf8Library → Bytes → ℕ
next_codepoint_len u [] = 0
next_codepoint_len u (b ∷ bs) =
    let n = u.calc_size (b ∷ bs) in
    if n == 0 || ltb (length (b ∷ bs)) n then 1 else if u.valid (b ∷ bs) n then n else 1

-- The code point and its length.
unfoldable pub decode_codepoint : Utf8Library → Bytes → Option (ℕ × ℕ)
unfolding next_codepoint_len
decode_codepoint u [] = none
decode_codepoint u (b ∷ bs) =
    let n = next_codepoint_len u (b ∷ bs) in
    if n == 0 then none else if n == 1 && leb 0x80 b then none else some (u.codepoint (b ∷ bs), n)

unfoldable pub is_cjk_cp : ℕ → Bool
is_cjk_cp c =
    within 0x4E00 0x9FFF c
    || within 0x3400 0x4DBF c
    || within 0xF900 0xFAFF c
    || within 0x20000 0x2EBEF c
    || within 0x30000 0x3134F c
    || within 0x2E80 0x2EFF c
    || within 0x2F00 0x2FDF c
    || within 0x3100 0x312F c
    || within 0x3040 0x309F c
    || within 0x30A0 0x30FF c
    || within 0xAC00 0xD7AF c
    || within 0x1100 0x11FF c
    || within 0x3130 0x318F c
    || within 0xFF01 0xFFEF c

unfoldable pub is_hiragana_cp : ℕ → Bool
is_hiragana_cp c = within 0x3040 0x309F c

unfoldable pub is_katakana_cp : ℕ → Bool
is_katakana_cp c = within 0x30A0 0x30FF c

unfoldable pub is_hangul_cp : ℕ → Bool
is_hangul_cp c = within 0xAC00 0xD7AF c || within 0x1100 0x11FF c || within 0x3130 0x318F c

unfoldable pub is_latin_extended_cp : ℕ → Bool
is_latin_extended_cp c = within 0x00C0 0x024F c || within 0x1E00 0x1EFF c
