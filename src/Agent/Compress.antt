-- ===== src/Agent/Compress.antt =====
-- src/agent/compress.c: making the list of messages shorter.
--
-- Messages live in an arena, so that `msg_free` does nothing. Allocation succeeds.
pub mod Window
pub mod Cycles
pub mod Summary
use multi_agent.Common.{
  ℕ, zero, suc, ◌+◌, ◌-◌, ◌*◌, ℤ, pos, negsuc, Bool, true, false, not, ◌&&◌, ◌||◌, Option, none,
  some, List, [], ◌∷◌, ◌++◌, Bytes, codes, str_eq, leb, ltb, ◌==◌, if◌then◌else◌, length,
}
use multi_agent.Util.Errno.{Result, ok, err, einval}
use multi_agent.Util.Utf8.{Utf8Library}
use multi_agent.Agent.Tokenizer.{estimate_tokens}
use multi_agent.Agent.Context.{
  Message, CompressConfig, Tokenizer, msg_list_count, token_count, needs_compress,
}
use multi_agent.Agent.KeyInfo
use multi_agent.Agent.KeyInfo.{KeyInfo}

abbrev pub system : Bytes
system = codes "system"

abbrev pub assistant : Bytes
assistant = codes "assistant"

abbrev pub user : Bytes
user = codes "user"

unfoldable pub is_system_role : Message → Bool
is_system_role m = str_eq m.role system

pub record CompressResult : Type 0 where
  pub original_tokens : ℕ
  pub compressed_tokens : ℕ
  pub messages_removed : ℕ
  pub messages_summarized : ℕ
  pub preserved : List KeyInfo

abbrev pub no_result : CompressResult
no_result = record {
  original_tokens = 0;
  compressed_tokens = 0;
  messages_removed = 0;
  messages_summarized = 0;
  preserved = [];
}

-- The loop of `compress_sliding_window`: what is kept, and how many messages have been removed.
unfoldable pub slide : ℕ → ℕ → ℕ → List Message → List Message × ℕ
slide total to_preserve removed [] = ([], removed)
slide total to_preserve removed (m ∷ ms) =
    let kept = slide total to_preserve removed ms in
    let dropped = slide total to_preserve (removed + 1) ms in
    if ltb to_preserve (total - removed)
    then (if is_system_role m then (m ∷ kept.0, kept.1) else dropped)
    else (m ∷ ms, removed)

-- The messages and the result that are left, or an errno with both as they were.
unfoldable pub sliding_window :
    Utf8Library → List Message → ℤ → Result (List Message × CompressResult)
sliding_window u [] keep_rounds = err einval
sliding_window u (m ∷ ms) (negsuc k) = err einval
sliding_window u (m ∷ ms) (pos k) =
    let (kept, removed) = slide (msg_list_count (m ∷ ms)) (k * 2) 0 (m ∷ ms) in
    ok (
      kept,
      record no_result {
        original_tokens = token_count u none (m ∷ ms);
        messages_removed = removed;
        compressed_tokens = token_count u none kept;
      },
    )

-- The loop of `compress_react_trace`.
unfoldable pub drop_compressed : ℕ → List Message → List Message × ℕ
drop_compressed removed [] = ([], removed)
drop_compressed removed (m ∷ ms) =
    let gone = drop_compressed (removed + 1) ms in
    let kept = drop_compressed removed ms in if m.compressed then gone else (m ∷ kept.0, kept.1)

-- Of the result only `messages_removed` is written.
unfoldable pub react_trace : List Message → CompressResult → List Message × CompressResult
unfolding drop_compressed
react_trace ms result =
    let (kept, removed) = drop_compressed 0 ms in
    (kept, record result { messages_removed = removed })

abbrev pub mark : Message → Message
mark m = record m { compressed = true }

-- An assistant message, an assistant message, a user message.
unfoldable pub is_react : Message → Message → Message → Bool
is_react a b c = str_eq a.role assistant && str_eq b.role assistant && str_eq c.role user

-- `compress_detect_react_cycles`: the messages with their marks, and how many were marked.
unfoldable pub detect_react_cycles : List Message → List Message × ℕ
detect_react_cycles (a ∷ b ∷ c ∷ rest) =
    let next = detect_react_cycles (b ∷ c ∷ rest) in
    let behind = detect_react_cycles rest in
    if a.compressed || b.compressed || c.compressed
    then (a ∷ next.0, next.1)
    else if is_react a b c
    then (mark a ∷ mark b ∷ mark c ∷ behind.0, behind.1 + 3)
    else (a ∷ next.0, next.1)
detect_react_cycles ms = (ms, 0)

-- "[%s]: %s\n"
abbrev pub entry_text : Message → Bytes
entry_text m = codes "[" ++ (m.role ++ (codes "]: " ++ (m.content ++ codes "\n")))

-- The first loop of `compress_summarize` over n messages: the text to be summarized.
unfoldable pub gather : ℕ → List Message → Bytes
unfolding is_system_role
gather zero ms = []
gather (suc n) [] = []
gather (suc n) (m ∷ ms) =
    if is_system_role m || m.compressed then gather n ms else entry_text m ++ gather n ms

pub record Rechained : Type 0 where
  pub systems : List Message
  pub behind : List Message
  pub summarized : ℕ
  pub preserved : List KeyInfo

-- The second loop over the n messages: the system messages stay, the others are counted.
unfoldable pub rechain : ℕ → List Message → ℕ → List KeyInfo → Rechained
unfolding is_system_role
rechain zero ms count info = record {
  systems = [];
  behind = ms;
  summarized = count;
  preserved = info;
}
rechain (suc n) [] count info = record {
  systems = [];
  behind = [];
  summarized = count;
  preserved = info;
}
rechain (suc n) (m ∷ ms) count info =
    let kept = rechain n ms count info in
    let marked = rechain n ms (count + 1) info in
    let gone = rechain n ms (count + 1) (KeyInfo.add info (codes "summarized") m.content) in
    if is_system_role m
    then record kept { systems = m ∷ kept.systems }
    else if m.compressed
    then marked
    else gone

unfoldable pub summary_message : Utf8Library → Bytes → Message
summary_message u summary = record {
  role = system;
  content = summary;
  token_count = let n = estimate_tokens u summary in if ltb n 1 then 1 else n;
  compressed = false;
}

-- `summarize_fn`: its return code, and the summary if there is one.
abbrev pub SummarizeFn : Type 0
SummarizeFn = Bytes → ℤ × Option Bytes

abbrev pub is_negative : ℤ → Bool
is_negative (pos n) = false
is_negative (negsuc n) = true

-- What `compress_summarize` does once the summarizer has answered.
unfoldable pub summarize_with :
    Utf8Library
    → ℕ
    → List Message
    → CompressResult
    → ℤ × Option Bytes
    → ℤ × List Message × CompressResult
summarize_with u n ms result (rc, none) = (rc, ms, result)
summarize_with u n ms result (rc, some summary) =
    if is_negative rc
    then (rc, ms, result)
    else let r = rechain n ms 0 [] in
      let ms' = summary_message u summary ∷ (r.systems ++ r.behind) in
      (
        pos 1,
        ms',
        record result {
          messages_summarized = r.summarized;
          preserved = r.preserved;
          compressed_tokens = token_count u none ms';
        },
      )

-- `compress_summarize`: the return code, the messages and the result; an errno leaves both as
-- they were.
unfoldable pub summarize :
    Utf8Library → List Message → ℤ → Option SummarizeFn → Result (ℤ × List Message × CompressResult)
summarize u [] keep_rounds fn = err einval
summarize u (m ∷ ms) (negsuc k) fn = err einval
summarize u (m ∷ ms) (pos k) none = err einval
summarize u (m ∷ ms) (pos k) (some fn) =
    let all = m ∷ ms in
    let result = record no_result { original_tokens = token_count u none all } in
    let n = msg_list_count all - k * 2 in
    let text = gather n all in
    ok (
      if leb (msg_list_count all) (k * 2) || length text == 0
      then (pos 0, all, result)
      else summarize_with u n all result (fn text))

-- src/agent/react.c, `react_maybe_compress_context`: the messages, and the result that is logged.
unfoldable pub maybe_compress :
    Utf8Library
    → Option Tokenizer
    → CompressConfig
    → ℤ
    → Option SummarizeFn
    → List Message
    → List Message × Option CompressResult
maybe_compress u tok cfg max_history_rounds fn ms =
    if not (needs_compress u tok ms (some cfg))
    then (ms, none)
    else let (traced, cr) = react_trace (detect_react_cycles ms).0 no_result in
      elim (summarize u traced max_history_rounds fn) [
        | err e ↦ (traced, some cr)
        | ok (rc, ms', cr') ↦ (ms', some cr')
      ]
