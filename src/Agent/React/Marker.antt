-- ===== src/Agent/React/Marker.antt =====
-- src/agent/react.c: the marker of a final answer in a text.
use multi_agent.Common.{
  ℕ, ◌+◌, Bool, true, ◌&&◌, ◌||◌, Option, none, some, List, [], ◌∷◌, Bytes, codes, leb, ◌==◌,
  if◌then◌else◌,
}

abbrev pub is_tab : ℕ → Bool
is_tab c = c == b' ' || c == 9

abbrev pub is_space : ℕ → Bool
is_space c = c == b' ' || (leb 9 c && leb c 13)

unfoldable pub skip : (ℕ → Bool) → Bytes → Bytes
skip p [] = []
skip p (c ∷ cs) = if p c then skip p cs else c ∷ cs

unfoldable pub trim_end : Bytes → Bytes
trim_end [] = []
trim_end (c ∷ cs) = elim (trim_end cs) [
  | [] ↦ if is_space c then [] else c ∷ []
  | d ∷ ds ↦ c ∷ d ∷ ds
]

-- What stands behind a prefix, with the comparison of bytes given.
unfoldable pub behind : (ℕ → ℕ) → Bytes → Bytes → Option Bytes
behind fold [] text = some text
behind fold (p ∷ ps) [] = none
behind fold (p ∷ ps) (c ∷ cs) = if fold p == fold c then behind fold ps cs else none

abbrev pub same_case : ℕ → ℕ
same_case c = c

abbrev pub lower_case : ℕ → ℕ
lower_case c = if leb b'A' c && leb c b'Z' then c + 32 else c

unfoldable pub first_behind : (ℕ → ℕ) → List Bytes → Bytes → Option Bytes
unfolding behind
first_behind fold [] text = none
first_behind fold (p ∷ ps) text = elim (behind fold p text) [
  | some rest ↦ some rest
  | none ↦ first_behind fold ps text
]

-- What stands behind the marker that a line starts with.
unfoldable pub behind_marker : Bytes → Option Bytes
unfolding first_behind skip
behind_marker line =
    first_behind same_case (codes "Final:" ∷ codes "Final answer:" ∷ codes "Final Answer:" ∷ [])
      (skip is_tab line)

-- `react_find_final_marker`, with whether a line starts: what stands before the line of the marker, and
-- behind the marker.
unfoldable pub find_final_marker : Bool → Bytes → Option (Bytes × Bytes)
unfolding behind_marker
find_final_marker line_start [] = none
find_final_marker line_start (c ∷ cs) =
    let later : Option (Bytes × Bytes) = elim (find_final_marker (c == 10) cs) [
      | none ↦ none
      | some (before, rest) ↦ some (c ∷ before, rest)
    ] in
    if line_start
    then elim (behind_marker (c ∷ cs)) [ some rest ↦ some ([], rest) | none ↦ later ]
    else later

unfoldable pub trimmed_thought : Bytes → Bytes
unfolding skip trim_end behind
trimmed_thought text =
    let start = skip is_space text in
    trim_end (elim (behind lower_case (codes "Thought:") start) [
      | none ↦ start
      | some rest ↦ skip is_tab rest
    ])

abbrev pub if_some_byte : Bytes → Option Bytes
if_some_byte [] = none
if_some_byte (c ∷ cs) = some (c ∷ cs)

-- `react_split_legacy_final`: the thought and the final text.
unfoldable pub split_legacy_final : Bytes → Option Bytes × Bytes
unfolding find_final_marker trimmed_thought skip
split_legacy_final proposed = elim (find_final_marker true proposed) [
  | none ↦ (none, proposed)
  | some ([], rest) ↦ (none, skip is_tab rest)
  | some (c ∷ cs, rest) ↦ (if_some_byte (trimmed_thought (c ∷ cs)), skip is_tab rest)
]
