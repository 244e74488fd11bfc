-- ===== src/Agent/Context.antt =====
-- src/agent/context.c: the list of messages that a model is sent.
--
-- The linked list is a list. Role and content are never NULL, as `msg_list_create` leaves them. A
-- token count is 0 where the source has 0 or less. The sums stay below INT_MAX.
use multi_agent.Common.{
  ℕ, ◌+◌, Bool, false, Option, none, some, List, [], ◌∷◌, Bytes, leb, ltb, suc, if◌then◌else◌,
}
use multi_agent.Util.Utf8.{Utf8Library}
use multi_agent.Agent.Tokenizer.{estimate_tokens}

pub record Message : Type 0 where
  pub role : Bytes
  pub content : Bytes
  pub token_count : ℕ
  pub compressed : Bool

unfoldable pub create : Option Bytes → Option Bytes → ℕ → Message
create role content token_count = record {
  role = elim role [ none ↦ [] | some r ↦ r ];
  content = elim content [ none ↦ [] | some c ↦ c ];
  token_count = token_count;
  compressed = false;
}

unfoldable pub append : List Message → Message → List Message
append [] m = m ∷ []
append (x ∷ xs) m = x ∷ append xs m

abbrev pub msg_list_count : List Message → ℕ
msg_list_count [] = 0
msg_list_count (m ∷ ms) = suc (msg_list_count ms)

-- `struct tokenizer`: the BPE encoder and the counting function, where they are set.
pub record Tokenizer : Type 0 where
  pub encoder : Option (Bytes → ℕ)
  pub count : Option (Bytes → ℕ)

-- What a message without a count of its own is worth; the tokenizer may be NULL.
unfoldable pub count_content : Utf8Library → Option Tokenizer → Bytes → ℕ
count_content u none content = estimate_tokens u content
count_content u (some tok) content = elim tok.encoder [
  | some encode ↦ encode content
  | none ↦ elim tok.count [ some count ↦ count content | none ↦ estimate_tokens u content ]
]

unfoldable pub message_tokens : Utf8Library → Option Tokenizer → Message → ℕ
message_tokens u tok m =
    if ltb 0 m.token_count then m.token_count else count_content u tok m.content

unfoldable pub token_count : Utf8Library → Option Tokenizer → List Message → ℕ
token_count u tok [] = 0
token_count u tok (m ∷ ms) = message_tokens u tok m + token_count u tok ms

-- `struct compress_config`, as far as it is read; `scale` stands for the product by
-- `summarize_threshold_ratio`, a double, cut to an int.
pub record CompressConfig : Type 0 where
  pub max_context_tokens : ℕ
  pub scale : ℕ → ℕ

unfoldable pub needs_compress :
    Utf8Library → Option Tokenizer → List Message → Option CompressConfig → Bool
needs_compress u tok ms none = false
needs_compress u tok ms (some cfg) = leb (cfg.scale cfg.max_context_tokens) (token_count u tok ms)
