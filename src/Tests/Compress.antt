-- ===== src/Tests/Compress.antt =====
-- src/agent/compress.c and src/agent/react.c on concrete inputs.
use multi_agent.Common.{
  ℕ, zero, suc, ◌+◌, ◌-◌, ◌*◌, ◌%◌, ◌≤◌, ◌<◌, min, Bool, true, false, Option, none, some, List, [],
  ◌∷◌, ◌++◌, ◌≡◌, refl, ◌⊎◌, inl, inr, arith, Bytes, codes, length, take, ℤ, pos, negsuc, ◌==◌,
  if◌then◌else◌,
}
use multi_agent.Util.Errno.{ok}
use multi_agent.Util.Utf8.{Utf8Library}
use multi_agent.Agent.Context.{Message, CompressConfig, needs_compress}
use multi_agent.Agent.Compress.{
  CompressResult, no_result, SummarizeFn, summarize, maybe_compress, sliding_window,
  detect_react_cycles, react_trace, gather,
}
use multi_agent.Agent.Compress.Window.{Slid, sliding_window-Slid}
use multi_agent.Agent.Compress.Cycles.{NoCycle, detect_react_cycles_complete}
use multi_agent.Agent.Compress.Summary.{
  Summarized, summarizable, summarize-Summarized, maybe_compress-removed,
}

-- A library that takes each byte for a character.
abbrev pub bytewise : Utf8Library
bytewise = record {
  calc_size = λ text. 1;
  valid = λ text n. true;
  codepoint = λ text. elim text [ [] ↦ 0 | c ∷ cs ↦ c ];
  advance = λ text. 1;
}

abbrev message : Bytes → Bytes → Message
message role content = record {
  role = role;
  content = content;
  token_count = 4;
  compressed = false;
}

abbrev prompt : Message
prompt = message (codes "system") (codes "Answer in French.")

abbrev ask : Message
ask = message (codes "user") (codes "What changed?")

abbrev thought : Message
thought = message (codes "assistant") (codes "I look at the log.")

abbrev reply : Message
reply = message (codes "assistant") (codes "error: none")

abbrev talk : List Message
talk = prompt ∷ thought ∷ reply ∷ ask ∷ thought ∷ reply ∷ []

abbrev short : SummarizeFn
short text = (pos 0, some (codes "So far nothing."))

abbrev broken : SummarizeFn
broken text = (negsuc 4, none)

-- One round is kept, and so is the system message.
slid :
    (sliding_window bytewise talk (pos 1))
    ≡ ok (
      prompt ∷ reply ∷ [],
      record no_result { original_tokens = 24; compressed_tokens = 8; messages_removed = 4 },
    )
unfolding sliding_window multi_agent.Agent.Compress.slide multi_agent.Agent.Context.token_count
    multi_agent.Agent.Compress.is_system_role multi_agent.Common.str_eq
    multi_agent.Agent.Context.message_tokens
slid = refl

found : (detect_react_cycles talk).1 ≡ 3
unfolding detect_react_cycles multi_agent.Agent.Compress.is_react multi_agent.Common.str_eq
found = refl

sliding_window-Slid_example :
    (kept : List Message) × (r : CompressResult) × (sliding_window bytewise talk (pos 1)
      ≡ ok (kept, r))
    × Slid 1 talk kept r.messages_removed
sliding_window-Slid_example =
    sliding_window-Slid bytewise prompt (thought ∷ reply ∷ ask ∷ thought ∷ reply ∷ []) 1

detect_react_cycles_complete_example :
    NoCycle (detect_react_cycles talk).0
    × (detect_react_cycles (detect_react_cycles talk).0 ≡ ((detect_react_cycles talk).0, 0))
detect_react_cycles_complete_example = detect_react_cycles_complete talk

summarizable_talk :
    gather 4 talk
    ≡ codes "[assistant]: I look at the log.\n[assistant]: error: none\n[user]: What changed?\n"
unfolding gather multi_agent.Common.str_eq
summarizable_talk = refl

summarize-Summarized_example :
    (left : List Message) × (r : CompressResult) × (summarize bytewise talk (pos 1) (some short)
      ≡ ok (pos 1, left, r))
    × Summarized bytewise 1 talk (codes "So far nothing.") left r
unfolding multi_agent.Agent.Compress.is_system_role multi_agent.Common.str_eq
summarize-Summarized_example =
    summarize-Summarized bytewise prompt (thought ∷ reply ∷ ask ∷ thought ∷ reply ∷ []) 1 short
      (pos 0) (codes "So far nothing.") (omega arith) talk_goes refl refl
  where
    talk_goes : summarizable (take 4 talk) ≡ true
    talk_goes = refl

abbrev always : CompressConfig
always = record { max_context_tokens = 20; scale = λ n. n }

needed : needs_compress bytewise none talk (some always) ≡ true
unfolding needs_compress multi_agent.Agent.Context.token_count
    multi_agent.Agent.Context.message_tokens
needed = refl

traced : (react_trace (detect_react_cycles talk).0 no_result).0 ≡ prompt ∷ thought ∷ reply ∷ []
unfolding react_trace detect_react_cycles multi_agent.Agent.Compress.is_react
    multi_agent.Common.str_eq
traced = refl

maybe_compress-removed_example :
    (left : List Message) × (r : CompressResult) × (maybe_compress bytewise none always
        (pos 1)
        (some short)
        talk
      ≡ (left, some r))
    × (r.messages_removed ≡ 0)
maybe_compress-removed_example =
    maybe_compress-removed bytewise none always 1 short talk prompt (thought ∷ reply ∷ []) needed
      traced
