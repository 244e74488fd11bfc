-- ===== src/Agent/Guardrail/Links.antt =====
-- src/agent/guardrail.c: the local files that an answer links to.
--
-- `re_match`, of the library re.h, gives where the pattern first matches and how long the match is.
pub mod Scan
pub mod Missing
use multi_agent.Common.{
  ℕ, zero, suc, ◌+◌, Bool, true, false, ◌&&◌, ◌||◌, not, Option, none, some, List, [], ◌∷◌, ◌++◌,
  Bytes, codes, str_eq, length, take, drop, leb, ◌==◌, if◌then◌else◌,
}
use multi_agent.Agent.Guardrail.{Verdict, pass, fail, EvalCtx, Files, refuse}

abbrev pub Matcher : Type 0
Matcher = Bytes → Bytes → Option (ℕ × ℕ)

abbrev pub link_pattern : Bytes
link_pattern = b'\\' ∷ b']' ∷ b'\\' ∷ b'(' ∷ []

abbrev pub is_scheme_byte : ℕ → Bool
is_scheme_byte c =
    (leb b'A' c && leb c b'Z')
    || ((leb b'a' c && leb c b'z')
        || ((leb b'0' c && leb c b'9') || (c == b'+' || (c == b'-' || c == b'.'))))

-- The loop of `markdown_url_has_scheme`, with whether a byte stands before.
unfoldable pub scheme_from : Bool → Bytes → Bool
scheme_from behind [] = false
scheme_from behind (c ∷ cs) =
    let rest = scheme_from true cs in
    if c == b':'
    then behind
    else if c == b'/' || (c == b'?' || c == b'#')
    then false
    else if is_scheme_byte c
    then rest
    else false

unfoldable pub url_has_scheme : Bytes → Bool
unfolding scheme_from
url_has_scheme url = scheme_from false url

-- `strncmp(url, prefix, n) == 0`, with the length of the prefix.
abbrev pub starts : Bytes → Bytes → Bool
starts prefix url = str_eq (take (length prefix) url) prefix

unfoldable pub url_is_local : Bytes → Bool
unfolding url_has_scheme
url_is_local [] = false
url_is_local (c ∷ cs) =
    if c == b'#'
    then false
    else if starts (codes "//") (c ∷ cs)
    then false
    else if starts (codes "file://") (c ∷ cs)
    then true
    else not (url_has_scheme (c ∷ cs))

-- A path with its home written out.
abbrev pub from_home : Files → Bytes → Option Bytes
from_home files [] = some []
from_home files (c ∷ cs) = if c == b'~' then files.expand_path (c ∷ cs) else some (c ∷ cs)

unfoldable pub local_path : Files → Bytes → Option Bytes
local_path files url = from_home files (if starts (codes "file://") url then drop 7 url else url)

abbrev pub is_blank : ℕ → Bool
is_blank c = c == b' ' || (c == 9 || (c == 13 || c == 10))

unfoldable pub skip_blanks : Bytes → Bytes
skip_blanks [] = []
skip_blanks (c ∷ cs) = if is_blank c then skip_blanks cs else c ∷ cs

-- Without the blanks at the end.
unfoldable pub trim_end : Bytes → Bytes
trim_end [] = []
trim_end (c ∷ cs) = elim (trim_end cs) [
  | [] ↦ if is_blank c then [] else c ∷ []
  | d ∷ ds ↦ c ∷ d ∷ ds
]

unfoldable pub before_mark : ℕ → Bytes → Bytes
before_mark mark [] = []
before_mark mark (c ∷ cs) = if c == mark then [] else c ∷ before_mark mark cs

unfoldable pub before_blank : Bytes → Bytes
before_blank [] = []
before_blank (c ∷ cs) = if is_blank c then [] else c ∷ before_blank cs

abbrev pub if_some_byte : Bytes → Option Bytes
if_some_byte [] = none
if_some_byte (c ∷ cs) = some (c ∷ cs)

unfoldable pub link_target : Bytes → Option Bytes
unfolding skip_blanks trim_end before_mark before_blank
link_target text = elim (trim_end (skip_blanks text)) [
  | [] ↦ none
  | c ∷ cs ↦ if_some_byte (if c == b'<' then before_mark b'>' cs else before_blank (c ∷ cs))
]

-- `strchr(url_start, ')')`: what stands before it and behind it.
unfoldable pub at_close : Bytes → Option (Bytes × Bytes)
at_close [] = none
at_close (c ∷ cs) =
    if c == b')'
    then some ([], cs)
    else elim (at_close cs) [ none ↦ none | some (url, rest) ↦ some (c ∷ url, rest) ]

-- The body of the loop behind a link: a refusal, or what the rest of the answer gives.
abbrev pub judge : Files → Option Bytes → Verdict → Verdict
judge files none rest = rest
judge files (some url) rest =
    if url_is_local url
    then elim (local_path files url) [
      | none ↦ rest
      | some path ↦
          if files.file_exists path
          then rest
          else refuse (codes "Referenced local file does not exist: " ++ path)
    ]
    else rest

unfoldable pub scan_links : Files → Matcher → ℕ → Bytes → Verdict
unfolding link_target url_is_local local_path at_close
scan_links files re_match zero scan = pass
scan_links files re_match (suc fuel) [] = pass
scan_links files re_match (suc fuel) (c ∷ cs) = elim (re_match link_pattern (c ∷ cs)) [
  | none ↦ pass
  | some (idx, match_len) ↦ elim (at_close (drop (idx + match_len) (c ∷ cs))) [
    | none ↦ pass
    | some (url, rest) ↦ judge files (link_target url) (scan_links files re_match fuel rest)
  ]
]

-- `gr_final_local_file_missing`
unfoldable pub final_local_file_missing : Files → Matcher → EvalCtx → Verdict
unfolding scan_links
final_local_file_missing files re_match ctx = elim ctx.proposed_answer [
  | none ↦ pass
  | some answer ↦ scan_links files re_match (length answer + 1) answer
]
