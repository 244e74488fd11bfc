-- ===== src/Tests/Text.antt =====
-- src/agent/tokenizer.c, src/util/base64.c and src/util/id.c on concrete inputs.
use multi_agent.Common.{none, some, [], ◌∷◌, ◌≡◌, ◌≢◌, refl, arith, Bytes, codes}
use multi_agent.Util.Base64.{encode, decode}
use multi_agent.Util.Base64.RoundTrip.{decode-encode}
use multi_agent.Agent.Tokenizer.{
  estimate_tokens, count_chars, no_tokens, classify_cp, hiragana, katakana, hangul,
}
use multi_agent.Agent.Tokenizer.Bounds.{classify_cp_dead}
use multi_agent.Tests.Compress.{bytewise}

estimated : estimate_tokens bytewise (codes "Hello, world 12\n\n") ≡ 7
unfolding estimate_tokens multi_agent.Agent.Tokenizer.flush count_chars
    multi_agent.Agent.Tokenizer.classify_utf8 multi_agent.Agent.Tokenizer.count_char
    multi_agent.Agent.Tokenizer.classify_ascii
estimated = refl

encoded : encode (codes "Many") ≡ codes "TWFueQ=="
unfolding encode multi_agent.Util.Base64.letter
encoded = refl

decode_bad : decode (codes "TQ==TWFu") ≡ none
unfolding decode multi_agent.Util.Base64.decode_groups multi_agent.Util.Base64.decode_group
    multi_agent.Util.Base64.value multi_agent.Util.Base64.value_or_pad
decode_bad = refl

decode-encode_example : decode (encode (codes "Many")) ≡ some (codes "Many")
decode-encode_example =
    decode-encode b'M' (codes "any") (omega arith, (omega arith, (omega arith, (omega arith, tt))))

classify_cp_dead_example :
    (classify_cp 0x3042 ≢ hiragana)
    × (classify_cp 0x3042 ≢ katakana)
    × (classify_cp 0x3042 ≢ hangul)
classify_cp_dead_example = classify_cp_dead 0x3042

abbrev raw : Bytes
raw = 0 ∷ 17 ∷ []
