-- ===== src/Agent/Compress/Cycles.antt =====
-- src/agent/compress.c: the marking of finished ReAct cycles, and their removal.
use multi_agent.Common.{
  ℕ, suc, ◌+◌, ◌%◌, true, false, ◌||◌, List, [], ◌∷◌, ◌≡◌, refl, ap, inl, inr, arith, length,
  if◌then◌else◌, Bool-cases,
}
use multi_agent.Agent.Context.{Message}
use multi_agent.Agent.Compress.{
  CompressResult, mark, is_react, detect_react_cycles, drop_compressed, react_trace,
}

-- The messages without a mark.
abbrev pub unmarked : List Message → List Message
unmarked [] = []
unmarked (m ∷ ms) = if m.compressed then unmarked ms else m ∷ unmarked ms

abbrev pub marks : List Message → ℕ
marks [] = 0
marks (m ∷ ms) = if m.compressed then suc (marks ms) else marks ms

drop_compressed_lem :
    (removed : ℕ) (ms : List Message)
    → drop_compressed removed ms ≡ (unmarked ms, removed + marks ms)
unfolding drop_compressed
drop_compressed_lem removed [] = ground arith
drop_compressed_lem removed (m ∷ ms) =
    ground (arith, drop_compressed_lem (removed + 1) ms, drop_compressed_lem removed ms)

marks-detect :
    (ms : List Message) → marks (detect_react_cycles ms).0 ≡ marks ms + (detect_react_cycles ms).1
unfolding detect_react_cycles
marks-detect [] = omega arith
marks-detect (a ∷ []) = omega arith
marks-detect (a ∷ b ∷ []) = omega arith
marks-detect (a ∷ b ∷ c ∷ rest) = ground (arith, marks-detect (b ∷ c ∷ rest), marks-detect rest)

-- The same messages, some of them newly marked.
abbrev pub Marked : List Message → List Message → Type 0
Marked [] [] = Unit
Marked (m ∷ ms) (n ∷ ns) =
    (n.role ≡ m.role)
    × (n.content ≡ m.content)
    × (n.token_count ≡ m.token_count)
    × (m.compressed ≡ true → n.compressed ≡ true)
    × Marked ms ns
Marked _ _ = ⊥

Marked-refl : (ms : List Message) → Marked ms ms
Marked-refl [] = tt
Marked-refl (m ∷ ms) = (refl, refl, refl, λ h. h, Marked-refl ms)

detect-Marked : (ms : List Message) → Marked ms (detect_react_cycles ms).0
unfolding detect_react_cycles
detect-Marked [] = tt
detect-Marked (a ∷ []) = Marked-refl (a ∷ [])
detect-Marked (a ∷ b ∷ []) = Marked-refl (a ∷ b ∷ [])
detect-Marked (a ∷ b ∷ c ∷ rest) = ground (arith, detect-Marked (b ∷ c ∷ rest), detect-Marked rest)

-- No three neighbours without a mark form a cycle.
abbrev pub NoCycle : List Message → Type 0
NoCycle (a ∷ b ∷ c ∷ rest) =
    ((a.compressed || b.compressed || c.compressed) ≡ false → is_react a b c ≡ false)
    × NoCycle (b ∷ c ∷ rest)
NoCycle _ = Unit

NoCycle-mark : (a : Message) (ms : List Message) → NoCycle ms → NoCycle (mark a ∷ ms)
NoCycle-mark a [] h = tt
NoCycle-mark a (b ∷ []) h = tt
NoCycle-mark a (b ∷ c ∷ rest) h = (ground arith, h)

NoCycle-cons :
    (a b c : Message) (rest ns : List Message)
    → ((a.compressed || b.compressed || c.compressed) ≡ false → is_react a b c ≡ false)
    → Marked (b ∷ c ∷ rest) ns
    → NoCycle ns
    → NoCycle (a ∷ ns)
unfolding is_react
NoCycle-cons a b c rest [] h m n = tt
NoCycle-cons a b c rest (b' ∷ []) h m n = tt
NoCycle-cons a b c rest (b' ∷ c' ∷ ns) h m n = (ground arith, n)

detect-NoCycle : (ms : List Message) → NoCycle (detect_react_cycles ms).0
unfolding detect_react_cycles
detect-NoCycle [] = tt
detect-NoCycle (a ∷ []) = tt
detect-NoCycle (a ∷ b ∷ []) = tt
detect-NoCycle (a ∷ b ∷ c ∷ rest) =
    elim (Bool-cases (a.compressed || b.compressed || c.compressed)) [
      | inl e ↦ rw e (
          NoCycle-cons a b c rest _ (λ n. ground arith) (detect-Marked (b ∷ c ∷ rest))
            (detect-NoCycle (b ∷ c ∷ rest)))
      | inr e ↦ elim (Bool-cases (is_react a b c)) [
        | inl r ↦
            rw (e, r)
              (NoCycle-mark a (mark b ∷ mark c ∷ (detect_react_cycles rest).0) (
                NoCycle-mark b (mark c ∷ (detect_react_cycles rest).0)
                  (NoCycle-mark c (detect_react_cycles rest).0 (detect-NoCycle rest))))
        | inr r ↦
            rw (e, r)
              (NoCycle-cons a b c rest _ (λ n. r) (detect-Marked (b ∷ c ∷ rest))
                (detect-NoCycle (b ∷ c ∷ rest)))
      ]
    ]

detect-of-NoCycle : (ms : List Message) → NoCycle ms → detect_react_cycles ms ≡ (ms, 0)
unfolding detect_react_cycles
detect-of-NoCycle [] h = refl
detect-of-NoCycle (a ∷ []) h = refl
detect-of-NoCycle (a ∷ b ∷ []) h = refl
detect-of-NoCycle (a ∷ b ∷ c ∷ rest) h = ground (arith, detect-of-NoCycle (b ∷ c ∷ rest))

marked_by_three : (ms : List Message) → (detect_react_cycles ms).1 % 3 ≡ 0
unfolding detect_react_cycles
marked_by_three [] = refl
marked_by_three (a ∷ []) = refl
marked_by_three (a ∷ b ∷ []) = refl
marked_by_three (a ∷ b ∷ c ∷ rest) =
    ground (arith, marked_by_three (b ∷ c ∷ rest), marked_by_three rest)

-- The search for cycles changes no message but for its mark, takes no mark away, and adds as many
-- marks as it reports, a multiple of three.
pub detect_react_cycles_lem :
    (ms : List Message)
    → Marked ms (detect_react_cycles ms).0
      × (marks (detect_react_cycles ms).0 ≡ marks ms + (detect_react_cycles ms).1)
      × ((detect_react_cycles ms).1 % 3 ≡ 0)
detect_react_cycles_lem ms = (detect-Marked ms, marks-detect ms, marked_by_three ms)

-- One search finds every cycle: none is left without its marks, and a second search adds no mark.
pub detect_react_cycles_complete :
    (ms : List Message)
    → NoCycle (detect_react_cycles ms).0
      × (detect_react_cycles (detect_react_cycles ms).0 ≡ ((detect_react_cycles ms).0, 0))
detect_react_cycles_complete ms = (detect-NoCycle ms, detect-of-NoCycle _ (detect-NoCycle ms))

length-unmarked : (ms : List Message) → length (unmarked ms) + marks ms ≡ length ms
length-unmarked [] = refl
length-unmarked (m ∷ ms) = ground (arith, length-unmarked ms)

length-Marked : (ms ns : List Message) → Marked ms ns → length ns ≡ length ms
length-Marked [] [] h = refl
length-Marked [] (n ∷ ns) h = absurd h
length-Marked (m ∷ ms) [] h = absurd h
length-Marked (m ∷ ms) (n ∷ ns) h = ap suc (length-Marked ms ns h.4)

-- The removal behind the search takes out the marked messages and no others, and reports as many as
-- are missing afterwards.
pub react_trace-detect :
    (ms : List Message) (r : CompressResult)
    → let (kept, r') = react_trace (detect_react_cycles ms).0 r in
      (kept ≡ unmarked (detect_react_cycles ms).0)
      × (r'.messages_removed ≡ marks ms + (detect_react_cycles ms).1)
      × (length kept + r'.messages_removed ≡ length ms)
unfolding react_trace
react_trace-detect ms r = rw drop_compressed_lem (
  refl,
  omega (arith, marks-detect ms),
  omega (
    arith,
    length-unmarked (detect_react_cycles ms).0,
    length-Marked ms (detect_react_cycles ms).0 (detect-Marked ms),
  ),
)
