-- ===== src/Agent/Tokenizer.antt =====
-- src/agent/tokenizer.c: the estimate of the number of tokens in a text.
--
-- `classify_utf8` moves the pointer on by a length that the UTF-8 library gives, so the loop takes
-- fuel: one unit for each byte. A length of more bytes than are left is cut to what is left.
pub mod Bounds
use multi_agent.Common.{
  ℕ, zero, suc, ◌+◌, ◌/◌, Bool, ◌&&◌, ◌||◌, Option, none, some, List, [], ◌∷◌, Bytes, length, drop,
  leb, ltb, ◌==◌, if◌then◌else◌,
}
use multi_agent.Util.Utf8.{
  Utf8Library, within, decode_codepoint, is_cjk_cp, is_hiragana_cp, is_katakana_cp, is_hangul_cp,
  is_latin_extended_cp,
}

pub data CharClass : Type 0 where
  ascii_lower ascii_upper ascii_digit ascii_punct ascii_space ascii_newline : CharClass
  cjk_ideograph cjk_ideograph_ext hiragana katakana hangul : CharClass
  emoji_other latin_extended other : CharClass

unfoldable pub is_emoji : ℕ → Bool
is_emoji cp =
    within 0x1F600 0x1F64F cp
    || within 0x1F300 0x1F5FF cp
    || within 0x1F680 0x1F6FF cp
    || within 0x1F900 0x1F9FF cp
    || within 0x1FA00 0x1FA6F cp
    || within 0x1FA70 0x1FAFF cp
    || within 0x2600 0x26FF cp
    || within 0x2700 0x27BF cp
    || within 0xFE00 0xFE0F cp
    || within 0x1F000 0x1F02F cp
    || within 0x1F0A0 0x1F0FF cp
    || cp == 0x200D
    || cp == 0xFE0F

unfoldable pub classify_ascii : ℕ → CharClass
classify_ascii b =
    if within b'a' b'z' b
    then ascii_lower
    else if within b'A' b'Z' b
    then ascii_upper
    else if within b'0' b'9' b
    then ascii_digit
    else if b == b' ' || b == b'\t'
    then ascii_space
    else if b == b'\n' || b == b'\r'
    then ascii_newline
    else if b == b'_' || b == b'\''
    then ascii_lower
    else ascii_punct

unfoldable pub classify_cp : ℕ → CharClass
classify_cp cp =
    if cp == 0
    then other
    else if is_cjk_cp cp
    then cjk_ideograph_ext
    else if is_hiragana_cp cp
    then hiragana
    else if is_katakana_cp cp
    then katakana
    else if is_hangul_cp cp
    then hangul
    else if is_emoji cp
    then emoji_other
    else if is_latin_extended_cp cp
    then latin_extended
    else other

-- The class of the character at the head of the text b ∷ bs, and what is left behind it.
unfoldable pub classify_utf8 : Utf8Library → ℕ → Bytes → CharClass × Bytes
classify_utf8 u b bs =
    if ltb b 0x80 then (classify_ascii b, bs) else elim (decode_codepoint u (b ∷ bs)) [
      | none ↦ (other, bs)
      | some (cp, n) ↦ (classify_cp cp, drop n (b ∷ bs))
    ]

pub record Count : Type 0 where
  pub tokens : ℕ
  pub word_chars : ℕ
  pub consecutive_newlines : ℕ

-- The pending word becomes tokens.
unfoldable pub flush : Count → Count
flush c =
    if ltb 0 c.word_chars
    then record c { tokens = c.tokens + (c.word_chars + 3) / 4; word_chars = 0 }
    else c

-- A pending word ends, and a character of n tokens follows.
abbrev pub flush_add : ℕ → Count → Count
flush_add n c = let d = flush c in record d { tokens = d.tokens + n; consecutive_newlines = 0 }

abbrev pub word_char : Count → Count
word_char c = record c { word_chars = c.word_chars + 1; consecutive_newlines = 0 }

unfoldable pub count_char : CharClass → Count → Count
unfolding flush
count_char ascii_lower c = word_char c
count_char ascii_upper c = word_char c
count_char ascii_digit c = word_char c
count_char cjk_ideograph c = flush_add 2 c
count_char cjk_ideograph_ext c = flush_add 2 c
count_char hiragana c = flush_add 2 c
count_char katakana c = flush_add 2 c
count_char hangul c = flush_add 2 c
count_char latin_extended c = flush_add 2 c
count_char emoji_other c = flush_add 3 c
count_char ascii_punct c = flush_add 1 c
count_char ascii_space c =
    if ltb 0 c.word_chars then word_char c else record c { consecutive_newlines = 0 }
count_char ascii_newline c =
    let d = flush c in
    record d {
      tokens = if leb (d.consecutive_newlines + 1) 2 then d.tokens + 1 else d.tokens + 1;
      consecutive_newlines = d.consecutive_newlines + 1;
    }
count_char other c = flush_add 2 c

-- The loop over the text.
unfoldable pub count_chars : Utf8Library → ℕ → Bytes → Count → Count
count_chars u zero text c = c
count_chars u (suc fuel) [] c = c
count_chars u (suc fuel) (b ∷ bs) c =
    let (cc, rest) = classify_utf8 u b bs in count_chars u fuel rest (count_char cc c)

abbrev pub no_tokens : Count
no_tokens = record { tokens = 0; word_chars = 0; consecutive_newlines = 0 }

unfoldable pub estimate_tokens : Utf8Library → Bytes → ℕ
estimate_tokens u [] = 0
estimate_tokens u (b ∷ bs) =
    let n = (flush (count_chars u (length (b ∷ bs)) (b ∷ bs) no_tokens)).tokens in
    if n == 0 then 1 else n
