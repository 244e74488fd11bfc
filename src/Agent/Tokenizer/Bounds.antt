-- ===== src/Agent/Tokenizer/Bounds.antt =====
-- src/agent/tokenizer.c: the estimate has enough fuel, and bounds by the length of the text.
use multi_agent.Common.{
  ℕ, zero, suc, ◌+◌, ◌-◌, ◌*◌, ◌/◌, ◌≤◌, ◌<◌, Bool, true, ◌||◌, some, List, [], ◌∷◌, ◌≡◌, refl, sym,
  ap₂, ◌∙◌, ◌≢◌, inl, inr, arith, Bytes, length, drop, ltb, ◌==◌, Bool-cases, Option-cases,
}
use multi_agent.Util.Utf8.{
  Utf8Library, within, decode_codepoint, is_cjk_cp, is_hiragana_cp, is_katakana_cp, is_hangul_cp,
}
use multi_agent.Agent.Tokenizer.{
  CharClass, hiragana, katakana, hangul, ascii_lower, Count, classify_cp, classify_ascii,
  classify_utf8, word_char, flush, count_char, count_chars, no_tokens, estimate_tokens,
}

length-drop : {A : Type 0} (n : ℕ) (xs : List A) → length (drop n xs) ≡ length xs - n
length-drop zero xs = omega arith
length-drop (suc n) [] = omega arith
length-drop (suc n) (x ∷ xs) = omega (arith, length-drop n xs)

decode_pos :
    (u : Utf8Library) (text : Bytes) {cp n : ℕ} → decode_codepoint u text ≡ some (cp, n) → 0 < n
unfolding decode_codepoint
decode_pos u [] h = absurd (ground arith)
decode_pos u (b ∷ bs) h = ground arith

-- Every character takes at least one byte.
classify_utf8_shorter :
    (u : Utf8Library) (b : ℕ) (bs : Bytes) → length (classify_utf8 u b bs).1 ≤ length bs
unfolding classify_utf8
classify_utf8_shorter u b bs = elim (Bool-cases (ltb b 0x80)) [
  | inl e ↦ rw e (omega arith)
  | inr e ↦ elim (Option-cases (decode_codepoint u (b ∷ bs))) [
    | inl d ↦ ground arith
    | inr ((cp, n), d) ↦
        ground (arith, length-drop n (b ∷ bs), decode_pos u (b ∷ bs) {cp = cp} {n = n} d)
  ]
]

count_chars-nil : (u : Utf8Library) (fuel : ℕ) (c : Count) → count_chars u fuel [] c ≡ c
unfolding count_chars
count_chars-nil u zero c = refl
count_chars-nil u (suc fuel) c = refl

-- One unit of fuel for each byte is enough: any greater amount gives the same count.
pub count_chars_fuel :
    (u : Utf8Library) (fuel more : ℕ) (text : Bytes) (c : Count)
    → length text ≤ fuel
    → length text ≤ more
    → count_chars u more text c ≡ count_chars u fuel text c
unfolding count_chars
count_chars_fuel u fuel more [] c h k = count_chars-nil u more c ∙ sym (count_chars-nil u fuel c)
count_chars_fuel u zero more (b ∷ bs) c h k = absurd (omega arith)
count_chars_fuel u (suc fuel) zero (b ∷ bs) c h k = absurd (omega arith)
count_chars_fuel u (suc fuel) (suc more) (b ∷ bs) c h k =
    count_chars_fuel u fuel more (classify_utf8 u b bs).1 (count_char (classify_utf8 u b bs).0 c)
      (omega (arith, classify_utf8_shorter u b bs)) (omega (arith, classify_utf8_shorter u b bs))

weight : Count → ℕ
weight c = c.tokens + (c.word_chars + 3) / 4

-- A character of any class adds at most three tokens.
weight-count_char : (cc : CharClass) (c : Count) → weight (count_char cc c) ≤ weight c + 3
unfolding count_char weight
weight-count_char ascii_lower c = ground arith
weight-count_char _ c = ground arith

weight-count_chars :
    (u : Utf8Library) (fuel : ℕ) (text : Bytes) (c : Count)
    → weight (count_chars u fuel text c) ≤ weight c + 3 * length text
unfolding count_chars
weight-count_chars u zero text c = omega arith
weight-count_chars u (suc fuel) [] c = rw count_chars-nil (omega arith)
weight-count_chars u (suc fuel) (b ∷ bs) c = omega (
  arith,
  weight-count_chars u fuel (classify_utf8 u b bs).1 (count_char (classify_utf8 u b bs).0 c),
  weight-count_char (classify_utf8 u b bs).0 c,
  classify_utf8_shorter u b bs,
)

flush-weight : (c : Count) → (flush c).tokens ≡ weight c
unfolding flush weight
flush-weight c = ground arith

weight-no_tokens : weight no_tokens ≡ 0
unfolding weight
weight-no_tokens = refl

-- A text that is not empty counts for at least one token, and for at most three a byte.
pub estimate_tokens_bounds :
    (u : Utf8Library) (b : ℕ) (bs : Bytes)
    → (1 ≤ estimate_tokens u (b ∷ bs)) × (estimate_tokens u (b ∷ bs) ≤ 3 * length (b ∷ bs))
unfolding estimate_tokens
estimate_tokens_bounds u b bs = ground (
  arith,
  flush-weight (count_chars u (length (b ∷ bs)) (b ∷ bs) no_tokens),
  weight-count_chars u (length (b ∷ bs)) (b ∷ bs) no_tokens,
  weight-no_tokens,
)

hiragana-cjk : (cp : ℕ) → is_hiragana_cp cp ≡ true → is_cjk_cp cp ≡ true
unfolding is_hiragana_cp is_cjk_cp
hiragana-cjk cp h = ground arith

katakana-cjk : (cp : ℕ) → is_katakana_cp cp ≡ true → is_cjk_cp cp ≡ true
unfolding is_katakana_cp is_cjk_cp
katakana-cjk cp h = ground arith

hangul-cjk : (cp : ℕ) → is_hangul_cp cp ≡ true → is_cjk_cp cp ≡ true
unfolding is_hangul_cp is_cjk_cp
hangul-cjk cp h = ground arith

-- No code point is classed as Hiragana, Katakana or Hangul: the test for CJK takes them all.
pub classify_cp_dead :
    (cp : ℕ) → (classify_cp cp ≢ hiragana) × (classify_cp cp ≢ katakana) × (classify_cp cp ≢ hangul)
unfolding classify_cp
classify_cp_dead cp = ground (arith, hiragana-cjk cp, katakana-cjk cp, hangul-cjk cp)

-- Letters, digits, underscores and apostrophes.
abbrev pub is_word : ℕ → Bool
is_word b =
    within b'a' b'z' b || within b'A' b'Z' b || within b'0' b'9' b || b == b'_' || b == b'\''

abbrev pub AllWord : Bytes → Type 0
AllWord [] = Unit
AllWord (b ∷ bs) = (is_word b ≡ true) × AllWord bs

classify_word :
    (u : Utf8Library) (b : ℕ) (bs : Bytes) (c : Count)
    → is_word b ≡ true
    → (count_char (classify_utf8 u b bs).0 c ≡ word_char c) × ((classify_utf8 u b bs).1 ≡ bs)
unfolding classify_utf8 classify_ascii count_char
classify_word u b bs c w = ground arith

count_chars-word :
    (u : Utf8Library) (fuel b : ℕ) (bs : Bytes) (c : Count)
    → is_word b ≡ true
    → count_chars u (suc fuel) (b ∷ bs) c ≡ count_chars u fuel bs (word_char c)
unfolding count_chars
count_chars-word u fuel b bs c w =
    ap₂ (count_chars u fuel) (classify_word u b bs c w).1 (classify_word u b bs c w).0

count_word :
    (u : Utf8Library) (text : Bytes) (c : Count)
    → AllWord text
    → weight (count_chars u (length text) text c) ≡ c.tokens + (c.word_chars + length text + 3) / 4
unfolding weight
count_word u [] c w = rw count_chars-nil (omega arith)
count_word u (b ∷ bs) c w =
    rw (count_chars-word u (length bs) b bs c w.0)
      (omega (arith, count_word u bs (word_char c) w.1))

-- A word of n bytes counts for n / 4 tokens, rounded up.
pub estimate_tokens_word :
    (u : Utf8Library) (b : ℕ) (bs : Bytes)
    → AllWord (b ∷ bs)
    → estimate_tokens u (b ∷ bs) ≡ (length (b ∷ bs) + 3) / 4
unfolding estimate_tokens
estimate_tokens_word u b bs w = ground (
  arith,
  flush-weight (count_chars u (length (b ∷ bs)) (b ∷ bs) no_tokens),
  count_word u (b ∷ bs) no_tokens w,
)
