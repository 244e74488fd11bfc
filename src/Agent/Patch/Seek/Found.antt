-- ===== src/Agent/Patch/Seek/Found.antt =====
-- src/agent/patch.c: what patch_seek_sequence finds.
use multi_agent.Common.{
  ℕ, zero, suc, ◌+◌, ◌-◌, ◌≤◌, ◌<◌, ◌≡◌, sym, ap, Bool, true, false, Option, none, some, List, [],
  ◌∷◌, Bytes, length, drop, length-drop, drop-drop, ltb, if◌then◌else◌, arith, inl, inr, Bool-cases,
  ◌∙◌,
}
use native.Mathlib.Decide.{dec_lt}
use multi_agent.Util.Utf8.{Utf8Library}
use multi_agent.Agent.Patch.Seek.{matches_at, seek_mode, seek_modes, seek_sequence, or_else}

-- The first line that the search looks at.
abbrev pub search_start : List Bytes → List Bytes → ℕ → Bool → ℕ
search_start lines pattern start eof = if eof then length lines - length pattern else start

-- The pattern stands at index i of the lines, or does not, by the comparison of a mode.
abbrev pub Stands : Utf8Library → ℕ → List Bytes → List Bytes → ℕ → Type 0
Stands u mode pattern lines i = matches_at u mode (drop i lines) pattern ≡ true

abbrev pub Misses : Utf8Library → ℕ → List Bytes → List Bytes → ℕ → Type 0
Misses u mode pattern lines i = matches_at u mode (drop i lines) pattern ≡ false

-- What a search from index `from` on finds: the first place in the strictest mode that has one.
abbrev pub Sought : Utf8Library → List Bytes → List Bytes → ℕ → Option ℕ → Type 0
Sought u pattern lines from none =
    (mode : ℕ) → mode < 4 → (j : ℕ) → from ≤ j → Misses u mode pattern lines j
Sought u pattern lines from (some k) =
    (from ≤ k)
    × (k + length pattern ≤ length lines)
    × ((mode : ℕ) × (mode < 4)
        × Stands u mode pattern lines k
        × ((j : ℕ) → from ≤ j → j < k → Misses u mode pattern lines j)
        × ((m : ℕ) → m < mode → (j : ℕ) → from ≤ j → Misses u m pattern lines j))

pub matches_at-length :
    (u : Utf8Library) (mode : ℕ) (lines pattern : List Bytes)
    → matches_at u mode lines pattern ≡ true
    → length pattern ≤ length lines
unfolding matches_at
matches_at-length u mode lines [] h = omega arith
matches_at-length u mode [] (w ∷ ws) h = cc
matches_at-length u mode (l ∷ ls) (w ∷ ws) h = ground (arith, matches_at-length u mode ls ws)

-- A pattern that is longer than what is left stands nowhere.
Misses-short :
    (u : Utf8Library) (mode : ℕ) (pattern lines : List Bytes) (j : ℕ)
    → length lines < j + length pattern
    → 0 < length pattern
    → Misses u mode pattern lines j
Misses-short u mode pattern lines j h pos =
    elim (Bool-cases (matches_at u mode (drop j lines) pattern)) [
      | inl yes' ↦
          absurd (
            omega
              (arith, matches_at-length u mode (drop j lines) pattern yes', length-drop j lines))
      | inr no' ↦ no'
    ]

-- The loop over the lines finds the first place.
abbrev SoughtIn : Utf8Library → ℕ → List Bytes → List Bytes → ℕ → Option ℕ → Type 0
SoughtIn u mode pattern lines i none = (j : ℕ) → Misses u mode pattern lines j
SoughtIn u mode pattern lines i (some k) =
    (d : ℕ) × (k ≡ i + d)
    × Stands u mode pattern lines d
    × ((j : ℕ) → j < d → Misses u mode pattern lines j)

-- A line at which the pattern misses is stepped over.
SoughtIn-cons :
    (u : Utf8Library) (mode : ℕ) (p : List Bytes) (i : ℕ) (l : Bytes) (ls : List Bytes)
    (r : Option ℕ)
    → matches_at u mode (l ∷ ls) p ≡ false
    → SoughtIn u mode p ls (i + 1) r
    → SoughtIn u mode p (l ∷ ls) i r
SoughtIn-cons u mode p i l ls none miss h = go
  where
    go : (j : ℕ) → Misses u mode p (l ∷ ls) j
    go zero = miss
    go (suc j) = h j
SoughtIn-cons u mode p i l ls (some k) miss (d, e, at, before) = (suc d, omega arith, at, go)
  where
    go : (j : ℕ) → j < suc d → Misses u mode p (l ∷ ls) j
    go zero lt = miss
    go (suc j) lt = before j (omega arith)

seek_mode_lem :
    (u : Utf8Library) (mode : ℕ) (w : Bytes) (ws : List Bytes) (i : ℕ) (lines : List Bytes)
    → SoughtIn u mode (w ∷ ws) lines i (seek_mode u mode (w ∷ ws) i lines)
unfolding seek_mode
seek_mode_lem u mode w ws i [] = λ j. Misses-short u mode (w ∷ ws) [] j (omega arith) (omega arith)
seek_mode_lem u mode w ws i (l ∷ ls) = elim (Bool-cases (matches_at u mode (l ∷ ls) (w ∷ ws))) [
  | inl found ↦ rw found (zero, omega arith, found, λ j lt. elim lt [ ])
  | inr miss ↦ rw miss (
      SoughtIn-cons u mode (w ∷ ws) i l ls (seek_mode u mode (w ∷ ws) (i + 1) ls) miss
        (seek_mode_lem u mode w ws (i + 1) ls))
]

module _ (u : Utf8Library) (p lines : List Bytes) (from : ℕ) where
  -- Places of the lines behind `from` are places of the lines.
  shifted :
      (mode j : ℕ)
      → from ≤ j
      → matches_at u mode (drop (j - from) (drop from lines)) p ≡ matches_at u mode (drop j lines) p
  shifted mode j h =
      ap (λ ls. matches_at u mode ls p)
        (drop-drop (j - from) from lines ∙ ap (λ n. drop n lines) (omega arith))

  none_from :
      (mode : ℕ)
      → SoughtIn u mode p (drop from lines) from none
      → (j : ℕ) → from ≤ j
      → Misses u mode p lines j
  none_from mode h j le = sym (shifted mode j le) ∙ h (j - from)

  MissedBelow : ℕ → Type 0
  MissedBelow mode = (m : ℕ) → m < mode → (j : ℕ) → from ≤ j → Misses u m p lines j

  -- A place that one mode finds, behind the modes that find none.
  some_from :
      (mode k : ℕ)
      → mode < 4
      → 0 < length p
      → MissedBelow mode
      → SoughtIn u mode p (drop from lines) from (some k)
      → Sought u p lines from (some k)
  unfolding MissedBelow
  some_from mode k lt pos below (d, e, at, before) =
      let here : Stands u mode p lines k = sym (shifted mode k (omega arith)) ∙ rw (offset) at in
      (
        omega arith,
        omega (arith, matches_at-length u mode (drop k lines) p here, length-drop k lines),
        (
          mode,
          lt,
          here,
          λ j le lt'. sym (shifted mode j le) ∙ before (j - from) (omega arith),
          below,
        ),
      )
    where
      offset : k - from ≡ d
      offset = omega arith

  below_suc :
      (mode : ℕ)
      → MissedBelow mode
      → SoughtIn u mode p (drop from lines) from none
      → MissedBelow (suc mode)
  unfolding MissedBelow
  below_suc mode below h m lt j le = elim (dec_lt m mode) [
    | yes less ↦ below m less j le
    | no more ↦ let same : m ≡ mode = omega arith in rw same (none_from mode h j le)
  ]

  -- The modes are tried one behind the other.
  first_mode :
      (mode : ℕ) (now later : Option ℕ)
      → mode < 4
      → 0 < length p
      → MissedBelow mode
      → SoughtIn u mode p (drop from lines) from now
      → (MissedBelow (suc mode) → Sought u p lines from later)
      → Sought u p lines from (or_else now later)
  first_mode mode none later lt pos below h next = next (below_suc mode below h)
  first_mode mode (some k) later lt pos below h next = some_from mode k lt pos below h

seek_modes_lem :
    (u : Utf8Library) (w : Bytes) (ws lines : List Bytes) (from : ℕ)
    → Sought u (w ∷ ws) lines from (seek_modes u (w ∷ ws) from (drop from lines))
unfolding seek_modes MissedBelow
seek_modes_lem u w ws lines from =
    try 0 _ (omega arith) (λ m lt j le. elim lt [ ])
      λ b0.
        try 1 _ (omega arith) b0
          λ b1. try 2 _ (omega arith) b1 λ b2. try 3 none (omega arith) b2 λ b3. b3
  where
    try :
        (mode : ℕ) (later : Option ℕ)
        → mode < 4
        → MissedBelow u (w ∷ ws) lines from mode
        → (MissedBelow u (w ∷ ws) lines from (suc mode) → Sought u (w ∷ ws) lines from later)
        → Sought u
            (w ∷ ws)
            lines
            from
            (or_else (seek_mode u mode (w ∷ ws) from (drop from lines)) later)
    try mode later lt below next =
        first_mode u (w ∷ ws) lines from mode (seek_mode u mode (w ∷ ws) from (drop from lines))
          later lt (omega arith) below (seek_mode_lem u mode w ws from (drop from lines)) next

-- the search for one or more lines gives the first place, from where it starts on, of the
-- strictest of the four ways to compare lines that has a place at all, which lies within the file;
-- if it gives none, the lines stand nowhere from there on in any of the four ways. It starts at the
-- index given, or for the end of the file so many lines before it.
pub seek_sequence_lem :
    (u : Utf8Library) (lines : List Bytes) (w : Bytes) (ws : List Bytes) (start : ℕ) (eof : Bool)
    → Sought u
        (w ∷ ws)
        lines
        (search_start lines (w ∷ ws) start eof)
        (seek_sequence u lines (w ∷ ws) start eof)
unfolding seek_sequence
seek_sequence_lem u lines w ws start eof = bounded (search_start lines (w ∷ ws) start eof)
  where
    bounded :
        (from : ℕ)
        → Sought u (w ∷ ws) lines from (
            if ltb (length lines) (length (w ∷ ws))
            then none
            else if ltb (length lines - length (w ∷ ws)) from
            then none
            else seek_modes u (w ∷ ws) from (drop from lines))
    bounded from = elim (Bool-cases (ltb (length lines) (length (w ∷ ws)))) [
      | inl few ↦
          rw few (λ mode lt j le. Misses-short u mode (w ∷ ws) lines j (ground arith) (omega arith))
      | inr enough ↦ rw enough (elim (Bool-cases (ltb (length lines - length (w ∷ ws)) from)) [
        | inl past ↦
            rw past
              (λ mode lt j le. Misses-short u mode (w ∷ ws) lines j (ground arith) (omega arith))
        | inr within ↦ rw within (seek_modes_lem u w ws lines from)
      ])
    ]
