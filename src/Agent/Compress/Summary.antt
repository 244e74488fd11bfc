-- ===== src/Agent/Compress/Summary.antt =====
-- src/agent/compress.c and src/agent/react.c: what a summary replaces.
use multi_agent.Common.{
  ℕ, zero, suc, ◌+◌, ◌-◌, ◌*◌, ◌≤◌, ◌<◌, Bool, true, false, not, ◌&&◌, ◌||◌, Option, none, some,
  List, [], ◌∷◌, ◌++◌, ◌≡◌, refl, ap, ◌⊎◌, inl, inr, arith, Bytes, codes, length, take, drop, leb,
  ltb, ◌==◌, Bool-cases, length-take, lt→leb,
}
use multi_agent.Common.{ℤ, pos}
use multi_agent.Util.Errno.{ok}
use multi_agent.Util.Utf8.{Utf8Library}
use multi_agent.Agent.KeyInfo
use multi_agent.Agent.KeyInfo.{KeyInfo}
use multi_agent.Agent.Tokenizer.{estimate_tokens}
use multi_agent.Agent.Context.{
  Message, msg_list_count, token_count, CompressConfig, Tokenizer, needs_compress,
}
use multi_agent.Agent.Compress.{
  is_system_role, CompressResult, no_result, gather, rechain, SummarizeFn, is_negative,
  summary_message, summarize_with, summarize, maybe_compress, detect_react_cycles, react_trace,
}
use multi_agent.Agent.Compress.Window.{systems}

-- The two loops over the first n messages, in terms of `take` and `drop`.
rechain-systems :
    (n : ℕ) (ms : List Message) (count : ℕ) (info : List KeyInfo)
    → (rechain n ms count info).systems ≡ systems (take n ms)
unfolding rechain
rechain-systems zero ms count info = refl
rechain-systems (suc n) [] count info = refl
rechain-systems (suc n) (m ∷ ms) count info = ground (
  arith,
  rechain-systems n ms count info,
  rechain-systems n ms (count + 1) info,
  rechain-systems n ms (count + 1) (KeyInfo.add info (codes "summarized") m.content),
)

rechain-behind :
    (n : ℕ) (ms : List Message) (count : ℕ) (info : List KeyInfo)
    → (rechain n ms count info).behind ≡ drop n ms
unfolding rechain
rechain-behind zero ms count info = refl
rechain-behind (suc n) [] count info = refl
rechain-behind (suc n) (m ∷ ms) count info = ground (
  arith,
  rechain-behind n ms count info,
  rechain-behind n ms (count + 1) info,
  rechain-behind n ms (count + 1) (KeyInfo.add info (codes "summarized") m.content),
)

rechain-summarized :
    (n : ℕ) (ms : List Message) (count : ℕ) (info : List KeyInfo)
    → (rechain n ms count info).summarized + length (systems (take n ms))
      ≡ count + length (take n ms)
unfolding rechain
rechain-summarized zero ms count info = omega arith
rechain-summarized (suc n) [] count info = omega arith
rechain-summarized (suc n) (m ∷ ms) count info = ground (
  arith,
  rechain-summarized n ms count info,
  rechain-summarized n ms (count + 1) info,
  rechain-summarized n ms (count + 1) (KeyInfo.add info (codes "summarized") m.content),
)

-- A message that has to be summarized: it is no system message, and it has no mark.
abbrev pub summarizable : List Message → Bool
summarizable [] = false
summarizable (m ∷ ms) = (not (is_system_role m) && not m.compressed) || summarizable ms

gather-nil :
    (n : ℕ) (ms : List Message) → (length (gather n ms) == 0) ≡ not (summarizable (take n ms))
unfolding gather
gather-nil zero ms = refl
gather-nil (suc n) [] = refl
gather-nil (suc n) (m ∷ ms) = ground (arith, gather-nil n ms)

length-msg_list_count : (ms : List Message) → msg_list_count ms ≡ length ms
length-msg_list_count [] = refl
length-msg_list_count (m ∷ ms) = ap suc (length-msg_list_count ms)

-- The guard behind which the summarizer is asked.
summarize-guard :
    (k : ℕ) (ms : List Message)
    → (leb (msg_list_count ms) (k * 2) || length (gather (msg_list_count ms - k * 2) ms) == 0)
      ≡ (leb (length ms) (k * 2) || not (summarizable (take (length ms - k * 2) ms)))
summarize-guard k ms = rw (length-msg_list_count, gather-nil)

-- The message that stands for the summarized ones: it is a system message that holds the summary
-- and no mark, and it counts the tokens of the summary, but at least one.
abbrev pub IsSummary : Utf8Library → Bytes → Message → Type 0
IsSummary u summary m =
    (m.role ≡ codes "system")
    × (m.content ≡ summary)
    × (m.compressed ≡ false)
    × (1 ≤ estimate_tokens u summary → m.token_count ≡ estimate_tokens u summary)
    × (estimate_tokens u summary < 1 → m.token_count ≡ 1)

-- What a summary leaves of a list of messages, for k rounds to keep.
pub record Summarized (u : Utf8Library) (k : ℕ) (ms : List Message) (summary : Bytes)
    (left : List Message) (r : CompressResult) : Type 0 where
  pub head : Message
  pub head_is : IsSummary u summary head
  pub left_is : left ≡ head ∷ (systems (take (length ms - k * 2) ms) ++ drop (length ms - k * 2) ms)
  pub count_is :
      r.messages_summarized + length (systems (take (length ms - k * 2) ms)) + k * 2 ≡ length ms
  pub before : r.original_tokens ≡ token_count u none ms
  pub after : r.compressed_tokens ≡ token_count u none left

summary_message_lem :
    (u : Utf8Library) (summary : Bytes) → IsSummary u summary (summary_message u summary)
unfolding summary_message
summary_message_lem u summary = (
  refl,
  refl,
  refl,
  λ some_tokens.
      let test : ltb (estimate_tokens u summary) 1 ≡ false = ground arith in rw test refl,
  λ no_token. let test : ltb (estimate_tokens u summary) 1 ≡ true = ground arith in rw test refl,
)

summarize_with-Summarized :
    (u : Utf8Library) (k : ℕ) (ms : List Message) (r : CompressResult) (rc : ℤ) (summary : Bytes)
    → k * 2 < length ms
    → is_negative rc ≡ false
    → r.original_tokens ≡ token_count u none ms
    → (left : List Message) × (r' : CompressResult) × (summarize_with u
          (length ms - k * 2)
          ms
          r
          (rc, some summary)
        ≡ (pos 1, left, r'))
      × Summarized u k ms summary left r'
unfolding summarize_with
summarize_with-Summarized u k ms r rc summary lt neg tokens = rw neg (
  _,
  _,
  refl,
  record {
    head = summary_message u summary;
    head_is = summary_message_lem u summary;
    left_is = rw (rechain-systems, rechain-behind);
    count_is =
        omega (
          arith,
          rechain-summarized (length ms - k * 2) ms 0 [],
          length-take (length ms - k * 2) ms,
        );
    before = tokens;
    after = refl;
  },
)

-- Where the list is longer than the 2 k messages to keep, one of those before them is to be summarized, and the summarizer gives a summary, `compress_summarize` returns 1 and leaves a system message whose content is the summary, without a mark and with the estimated tokens of the summary, but at least one; behind it the system messages of the part before, and the last 2 k messages as they were. The other messages of that part are counted, and the tokens before and after are those of the lists.
pub summarize-Summarized :
    (u : Utf8Library) (m : Message) (ms : List Message) (k : ℕ) (fn : SummarizeFn) (rc : ℤ)
    (summary : Bytes)
    → k * 2 < length (m ∷ ms)
    → summarizable (take (length (m ∷ ms) - k * 2) (m ∷ ms)) ≡ true
    → fn (gather (length (m ∷ ms) - k * 2) (m ∷ ms)) ≡ (rc, some summary)
    → is_negative rc ≡ false
    → (left : List Message) × (r : CompressResult) × (summarize u (m ∷ ms) (pos k) (some fn)
        ≡ ok (pos 1, left, r))
      × Summarized u k (m ∷ ms) summary left r
unfolding summarize
summarize-Summarized u m ms k fn rc summary lt some_left answer neg =
    let (left, r, e, s) =
      summarize_with-Summarized u k (m ∷ ms)
        (record no_result { original_tokens = token_count u none (m ∷ ms) }) rc summary lt neg
        refl in
    (
      left,
      r,
      rw
          (
            summarize-guard k (m ∷ ms),
            lt→leb (length (m ∷ ms)) (k * 2) lt,
            some_left,
            length-msg_list_count ms,
            answer,
          )
          (ap ok e),
      s,
    )

summarize_with_fails :
    (u : Utf8Library) (n : ℕ) (ms : List Message) (r : CompressResult) (answer : ℤ × Option Bytes)
    → (is_negative answer.0 ≡ true) ⊎ (answer.1 ≡ none)
    → summarize_with u n ms r answer ≡ (answer.0, ms, r)
unfolding summarize_with
summarize_with_fails u n ms r (rc, none) h = refl
summarize_with_fails u n ms r (rc, some summary) (inl h) = rw h
summarize_with_fails u n ms r (rc, some summary) (inr h) = absurd (ground arith)

-- Behind the guard only the summarizer can be the reason.
asked :
    (len k : ℕ) (some_left : Bool) (answer : ℤ × Option Bytes)
    → (len ≤ k * 2) ⊎ (some_left ≡ false) ⊎ (is_negative answer.0 ≡ true) ⊎ (answer.1 ≡ none)
    → (leb len (k * 2) || not some_left) ≡ false
    → (is_negative answer.0 ≡ true) ⊎ (answer.1 ≡ none)
asked len k some_left answer (inl h) g = absurd (ground arith)
asked len k some_left answer (inr (inl h)) g = absurd (ground arith)
asked len k some_left answer (inr (inr (inl h))) g = inl h
asked len k some_left answer (inr (inr (inr h))) g = inr h

-- Where there is no more than the 2 k messages to keep, or nothing in front of them to summarize, or
-- the summarizer fails or gives no summary, the messages stay as they were, and the result counts
-- none as summarized.
pub summarize_unchanged :
    (u : Utf8Library) (m : Message) (ms : List Message) (k : ℕ) (fn : SummarizeFn)
    → (length (m ∷ ms) ≤ k * 2)
      ⊎ (summarizable (take (length (m ∷ ms) - k * 2) (m ∷ ms)) ≡ false)
      ⊎ (is_negative (fn (gather (length (m ∷ ms) - k * 2) (m ∷ ms))).0 ≡ true)
      ⊎ ((fn (gather (length (m ∷ ms) - k * 2) (m ∷ ms))).1 ≡ none)
    → (rc : ℤ) × (r : CompressResult) × (summarize u (m ∷ ms) (pos k) (some fn)
        ≡ ok (rc, m ∷ ms, r))
      × (r.messages_summarized ≡ 0)
unfolding summarize
summarize_unchanged u m ms k fn why =
    let all = m ∷ ms in
    let n = length (m ∷ ms) - k * 2 in
    elim (Bool-cases (leb (length (m ∷ ms)) (k * 2) || not (summarizable (take n (m ∷ ms))))) [
      | inl g ↦ (
        pos 0,
        record no_result { original_tokens = token_count u none (m ∷ ms) },
        rw (summarize-guard k (m ∷ ms), g) refl,
        refl,
      )
      | inr g ↦ (
        (fn (gather n (m ∷ ms))).0,
        record no_result { original_tokens = token_count u none (m ∷ ms) },
        rw (summarize-guard k (m ∷ ms), g, length-msg_list_count ms)
            (ap ok (
              summarize_with_fails u n (m ∷ ms)
                (record no_result { original_tokens = token_count u none (m ∷ ms) })
                (fn (gather n (m ∷ ms))) (asked (length (m ∷ ms)) k _ _ why g))),
        refl,
      )
    ]

messages_removed-summarize_with :
    (u : Utf8Library) (n : ℕ) (ms : List Message) (r : CompressResult) (answer : ℤ × Option Bytes)
    → (summarize_with u n ms r answer).2.messages_removed ≡ r.messages_removed
unfolding summarize_with
messages_removed-summarize_with u n ms r (rc, none) = refl
messages_removed-summarize_with u n ms r (rc, some summary) = ground arith

messages_removed-summarize :
    (u : Utf8Library) (ms : List Message) (k : ℕ) (fn : SummarizeFn) {rc : ℤ} {left : List Message}
    {r : CompressResult}
    → summarize u ms (pos k) (some fn) ≡ ok (rc, left, r)
    → r.messages_removed ≡ 0
unfolding summarize
messages_removed-summarize u [] k fn h = absurd (ground arith)
messages_removed-summarize u (m ∷ ms) k fn h = ground (
  arith,
  messages_removed-summarize_with u (msg_list_count (m ∷ ms) - k * 2) (m ∷ ms)
      (record no_result { original_tokens = token_count u none (m ∷ ms) })
      (fn (gather (msg_list_count (m ∷ ms) - k * 2) (m ∷ ms))),
)

summarize-ok :
    (u : Utf8Library) (m : Message) (ms : List Message) (k : ℕ) (fn : SummarizeFn)
    → (out : ℤ × List Message × CompressResult) × (summarize u (m ∷ ms) (pos k) (some fn) ≡ ok out)
unfolding summarize
summarize-ok u m ms k fn = (_, refl)

-- Where a context is compressed and a message is left behind the removal of the finished cycles, the
-- result that is logged counts no removed message, however many were removed.
pub maybe_compress-removed :
    (u : Utf8Library) (tok : Option Tokenizer) (cfg : CompressConfig) (k : ℕ) (fn : SummarizeFn)
    (ms : List Message) (m : Message) (rest : List Message)
    → needs_compress u tok ms (some cfg) ≡ true
    → (react_trace (detect_react_cycles ms).0 no_result).0 ≡ m ∷ rest
    → (left : List Message) × (r : CompressResult) × (maybe_compress u tok cfg (pos k) (some fn) ms
        ≡ (left, some r))
      × (r.messages_removed ≡ 0)
unfolding maybe_compress
maybe_compress-removed u tok cfg k fn ms m rest needed traced =
    let ((rc, left, r), e) = summarize-ok u m rest k fn in
    (left, r, rw (needed, traced, e) refl, messages_removed-summarize u (m ∷ rest) k fn e)
