-- ===== src/Agent/Patch/Seek.antt =====
-- src/agent/patch.c: the search for lines of a patch in a file.
--
-- A code point is read by `utf8codepoint` of vendor/sheredom_utf8.h, which moves on by one byte at
-- least; a length of more bytes than are left is cut to what is left.
pub mod Found
pub mod Modes
use multi_agent.Common.{
  ℕ, zero, suc, ◌+◌, ◌-◌, Bool, true, false, not, ◌&&◌, ◌||◌, Option, none, some, List, [], ◌∷◌,
  ◌++◌, Bytes, codes, str_eq, length, take, drop, leb, ltb, ◌==◌, if◌then◌else◌,
}
use multi_agent.Util.Utf8.{Utf8Library, within}
use multi_agent.Agent.Patch.{trim_view, cons_unless}

abbrev pub is_space : ℕ → Bool
is_space c = c == b' ' || c == b'\t'

unfoldable pub line_trim_end : Bytes → Bytes
line_trim_end [] = []
line_trim_end (c ∷ cs) = cons_unless (is_space c) c (line_trim_end cs)

unfoldable pub line_trim_start : Bytes → Bytes
line_trim_start [] = []
line_trim_start (c ∷ cs) = if is_space c then line_trim_start cs else c ∷ cs

unfoldable pub line_trim : Bool → Bytes → Bytes
unfolding line_trim_end line_trim_start
line_trim leading text =
    if leading then line_trim_start (line_trim_end text) else line_trim_end text

-- What a dash, a quotation mark or a space of another kind is taken for.
unfoldable pub replacement_of : ℕ → Option ℕ
replacement_of cp =
    if within 0x2010 0x2015 cp || cp == 0x2212
    then some b'-'
    else if within 0x2018 0x201B cp
    then some b'\''
    else if within 0x201C 0x201F cp
    then some b'"'
    else if cp == 0x00A0 || within 0x2002 0x200A cp || cp == 0x202F || cp == 0x205F || cp == 0x3000
    then some b' '
    else none

-- `skip` bytes of the text belong to a code point that has been read.
unfoldable pub normalize_from : Utf8Library → ℕ → Bytes → Bytes
unfolding replacement_of
normalize_from u skip [] = []
normalize_from u (suc skip) (c ∷ cs) = normalize_from u skip cs
normalize_from u zero (c ∷ cs) =
    let n = u.advance (c ∷ cs) in
    let rest = normalize_from u (n - 1) cs in
    elim (replacement_of (u.codepoint (c ∷ cs))) [
      | some r ↦ r ∷ rest
      | none ↦ c ∷ take (n - 1) cs ++ rest
    ]

unfoldable pub normalize_line : Utf8Library → Bytes → Bytes
unfolding normalize_from
normalize_line u text = normalize_from u 0 text

unfoldable pub lines_equal : Utf8Library → ℕ → Bytes → Bytes → Bool
unfolding line_trim normalize_line
lines_equal u mode left right =
    if ltb mode 3
    then (if ltb 0 mode
        then str_eq (line_trim (ltb 1 mode) left) (line_trim (ltb 1 mode) right)
        else str_eq left right)
    else str_eq (normalize_line u (trim_view left)) (normalize_line u (trim_view right))

-- Whether the pattern stands at the head of the lines.
unfoldable pub matches_at : Utf8Library → ℕ → List Bytes → List Bytes → Bool
matches_at u mode lines [] = true
matches_at u mode [] (w ∷ ws) = false
matches_at u mode (l ∷ ls) (w ∷ ws) = lines_equal u mode l w && matches_at u mode ls ws

-- The loop over the lines, from index i on, in one mode.
unfoldable pub seek_mode : Utf8Library → ℕ → List Bytes → ℕ → List Bytes → Option ℕ
unfolding matches_at
seek_mode u mode pattern i [] = none
seek_mode u mode pattern i (l ∷ ls) =
    if matches_at u mode (l ∷ ls) pattern then some i else seek_mode u mode pattern (i + 1) ls

abbrev pub or_else : Option ℕ → Option ℕ → Option ℕ
or_else (some i) later = some i
or_else none later = later

-- The modes in their order, from stricter to looser.
unfoldable pub seek_modes : Utf8Library → List Bytes → ℕ → List Bytes → Option ℕ
unfolding seek_mode
seek_modes u pattern i lines = or_else (seek_mode u 0 pattern i lines) (
    or_else (seek_mode u 1 pattern i lines)
      (or_else (seek_mode u 2 pattern i lines) (or_else (seek_mode u 3 pattern i lines) none)))

unfoldable pub seek_sequence : Utf8Library → List Bytes → List Bytes → ℕ → Bool → Option ℕ
unfolding seek_modes
seek_sequence u lines [] start end_of_file = some start
seek_sequence u lines (w ∷ ws) start end_of_file =
    let n = length (w ∷ ws) in
    let from = if end_of_file then length lines - n else start in
    if ltb (length lines) n
    then none
    else if ltb (length lines - n) from
    then none
    else seek_modes u (w ∷ ws) from (drop from lines)
