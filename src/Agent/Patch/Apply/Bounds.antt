-- ===== src/Agent/Patch/Apply/Bounds.antt =====
-- src/agent/patch.c: where the replacements of an update stand in the file.
use multi_agent.Common.{
  ℕ, ◌+◌, ◌-◌, ◌≤◌, ◌<◌, ◌≡◌, refl, ◌∙◌, Bool, true, false, Option, none, some, List, [], ◌∷◌,
  Bytes, length, take, drop, take_all, length-drop, length-take, if◌then◌else◌, ◌==◌, arith, ◌⊎◌,
  inl, inr, Bool-cases, Option-cases, subst,
}
use mathlib.Core.Option.{some-injective}
use multi_agent.Util.Errno.{ok, ok-injective, Result-cases}
use multi_agent.Util.Utf8.{Utf8Library}
use multi_agent.Agent.Patch.{Chunk}
use multi_agent.Agent.Patch.Seek.{matches_at, seek_sequence}
use multi_agent.Agent.Patch.Seek.Found.{search_start, Sought, seek_sequence_lem}
use multi_agent.Agent.Patch.Apply.{
  Replacement, Found, found_at, is_empty, ends_empty, seek_context, seek_twice, seek_old,
  replace_chunk, compute_replacements, replacement_at, insert_replacement, sort_replacements,
  is_positive, replacement_compare,
}

-- Lines of the file that a chunk's lines stand for, by the comparison of some mode.
abbrev pub StandFor : Utf8Library → List Bytes → List Bytes → Type 0
StandFor u lines wanted =
    (length lines ≡ length wanted)
    × ((mode : ℕ) × (mode < 4) × (matches_at u mode lines wanted ≡ true))

matches_at-take :
    (u : Utf8Library) (mode : ℕ) (ls p : List Bytes)
    → matches_at u mode ls p ≡ true
    → matches_at u mode (take (length p) ls) p ≡ true
unfolding matches_at
matches_at-take u mode ls [] h = refl
matches_at-take u mode [] (w ∷ ws) h = cc
matches_at-take u mode (l ∷ ls) (w ∷ ws) h = ground (arith, matches_at-take u mode ls ws)

-- What a search that succeeds says of the place.
abbrev pub Placed : Utf8Library → List Bytes → List Bytes → ℕ → Bool → ℕ → Type 0
Placed u lines p start eof k =
    (eof ≡ false → start ≤ k)
    × (k + length p ≤ length lines)
    × StandFor u (take (length p) (drop k lines)) p

Sought-Placed :
    (u : Utf8Library) (lines p : List Bytes) (start : ℕ) (eof : Bool) (k : ℕ)
    → Sought u p lines (search_start lines p start eof) (some k)
    → Placed u lines p start eof k
Sought-Placed u lines p start eof k (from, fits, (mode, lt, at, before, stricter)) = (
  λ e. ground arith,
  fits,
  (
    omega (arith, length-take (length p) (drop k lines), length-drop k lines),
    (mode, lt, matches_at-take u mode (drop k lines) p at),
  ),
)

pub seek_sequence-Placed :
    (u : Utf8Library) (lines p : List Bytes) (start : ℕ) (eof : Bool) (k : ℕ)
    → seek_sequence u lines p start eof ≡ some k
    → start ≤ length lines
    → Placed u lines p start eof k
unfolding seek_sequence matches_at
seek_sequence-Placed u lines [] start eof k h le =
    let e : start ≡ k = cc in (λ _. omega arith, omega arith, (omega arith, (0, omega arith, refl)))
seek_sequence-Placed u lines (w ∷ ws) start eof k h le =
    Sought-Placed u lines (w ∷ ws) start eof k (
      subst (Sought u (w ∷ ws) lines (search_start lines (w ∷ ws) start eof)) h
        (seek_sequence_lem u lines w ws start eof))

pub seek_context-le :
    (u : Utf8Library) (source : List Bytes) (context : Option Bytes) (cursor : ℕ)
    → cursor ≤ length source
    → (cursor ≤ seek_context u source context cursor)
      × (seek_context u source context cursor ≤ length source)
unfolding seek_context
seek_context-le u source none cursor h = omega arith
seek_context-le u source (some c) cursor h = go (seek_sequence u source (c ∷ []) cursor false) refl
  where
    go :
        (found : Option ℕ)
        → seek_sequence u source (c ∷ []) cursor false ≡ found
        → (cursor ≤ elim found [ none ↦ cursor | some k ↦ k + 1 ])
          × (elim found [ none ↦ cursor | some k ↦ k + 1 ] ≤ length source)
    go none e = omega arith
    go (some k) e =
        let p = seek_sequence-Placed u source (c ∷ []) cursor false k e h in
        let ge : cursor ≤ k = p.0 refl in omega arith

-- The two searches, from behind the context and from the cursor, keep behind the cursor.
pub seek_twice-Placed :
    (u : Utf8Library) (source p : List Bytes) (behind cursor : ℕ) (eof : Bool) (k : ℕ)
    → seek_twice u source p behind cursor eof ≡ some k
    → cursor ≤ behind
    → behind ≤ length source
    → Placed u source p cursor eof k
unfolding seek_twice
seek_twice-Placed u source p behind cursor eof k h le fits =
    go (seek_sequence u source p behind eof) refl h
  where
    weaken : Placed u source p behind eof k → Placed u source p cursor eof k
    weaken p = (λ e. let ge : behind ≤ k = p.0 e in omega arith, p.1, p.2)

    go :
        (first : Option ℕ)
        → seek_sequence u source p behind eof ≡ first
        → ◌≡◌ {A = Option ℕ}
            (elim first [
              | some found ↦ some found
              | none ↦ if behind == cursor then none else seek_sequence u source p cursor eof
            ])
            (some k)
        → Placed u source p cursor eof k
    go (some j) e h' = weaken (seek_sequence-Placed u source p behind eof k (e ∙ h') fits)
    go none e h' = seek_sequence-Placed u source p cursor eof k (ground arith) (omega arith)

abbrev pub without_last : List Bytes → List Bytes
without_last ls = take (length ls - 1) ls

take_kept :
    (b : Bool) (ls : List Bytes)
    → take (if b then length ls - 1 else length ls) ls ≡ (if b then without_last ls else ls)
take_kept true ls = refl
take_kept false ls = take_all (length ls) ls (omega arith)

-- Lines `old` of the file become the lines `new` by a chunk: they stand for its old lines, or for
-- these without an empty last one, which the new lines lose too.
abbrev pub Replaces : Utf8Library → Chunk → List Bytes → List Bytes → Type 0
Replaces u c old new =
    (StandFor u old c.old_lines × (new ≡ c.new_lines))
    ⊎ ((ends_empty c.old_lines ≡ true)
        × StandFor u old (without_last c.old_lines)
        × (new ≡ (if ends_empty c.new_lines then without_last c.new_lines else c.new_lines)))

-- Where the lines of a chunk are found, and what they become.
abbrev pub FoundRight : Utf8Library → List Bytes → Chunk → ℕ → Found → Type 0
FoundRight u source c cursor f =
    (c.end_of_file ≡ false → cursor ≤ f.start)
    × (f.start + f.old_count ≤ length source)
    × (f.new_count ≤ length c.new_lines)
    × Replaces u c (take f.old_count (drop f.start source)) (take f.new_count c.new_lines)

module _ (u : Utf8Library) (source : List Bytes) (c : Chunk) (behind cursor : ℕ)
    (le : cursor ≤ behind) (fits : behind ≤ length source) where
  found_whole :
      (k : ℕ)
      → seek_twice u source c.old_lines behind cursor c.end_of_file ≡ some k
      → FoundRight u source c cursor (found_at k (length c.old_lines) (length c.new_lines))
  found_whole k h =
      let p = seek_twice-Placed u source c.old_lines behind cursor c.end_of_file k h le fits in
      (p.0, p.1, omega arith, inl (p.2, take_all (length c.new_lines) c.new_lines (omega arith)))

  found_trimmed :
      (k : ℕ)
      → ends_empty c.old_lines ≡ true
      → seek_twice u source (without_last c.old_lines) behind cursor c.end_of_file ≡ some k
      → FoundRight u source c cursor (
          found_at k
            (length c.old_lines - 1)
            (if ends_empty c.new_lines then length c.new_lines - 1 else length c.new_lines))
  found_trimmed k ends h =
      let p =
        seek_twice-Placed u source (without_last c.old_lines) behind cursor c.end_of_file k h le
          fits in
      let n : length (without_last c.old_lines) ≡ length c.old_lines - 1 =
        omega (arith, length-take (length c.old_lines - 1) c.old_lines) in
      (
        p.0,
        omega arith,
        ground arith,
        inr (
          ends,
          subst (λ m. StandFor u (take m (drop k source)) (without_last c.old_lines)) n p.2,
          take_kept (ends_empty c.new_lines) c.new_lines,
        ),
      )

  pub seek_old-FoundRight :
      (f : Found) → seek_old u source c behind cursor ≡ some f → FoundRight u source c cursor f
  unfolding seek_old
  seek_old-FoundRight f h = elim (Option-cases (search c.old_lines)) [
    | inr (k, e) ↦
        subst (FoundRight u source c cursor) (some-injective _ _ (rw (e, seek_old) at h))
          (found_whole k e)
    | inl e ↦ elim (Bool-cases (ends_empty c.old_lines)) [
      | inr open' ↦ cc (rw (e, open', seek_old) at h)
      | inl ends ↦ elim (Option-cases (search (without_last c.old_lines))) [
        | inl e' ↦ cc (rw (e, ends, e', seek_old) at h)
        | inr (k, e') ↦
            subst (FoundRight u source c cursor)
              (some-injective _ _ (rw (e, ends, e', seek_old) at h)) (found_trimmed k ends e')
      ]
    ]
  ]
    where
      search : List Bytes → Option ℕ
      search p = seek_twice u source p behind cursor c.end_of_file

is_empty-length : (ls : List Bytes) → is_empty ls ≡ true → length ls ≡ 0
is_empty-length [] h = omega arith
is_empty-length (l ∷ ls) h = cc

-- What one turn of the loop leaves.
abbrev pub TurnRight : Utf8Library → List Bytes → Chunk → ℕ → ℕ → Replacement × ℕ → Type 0
TurnRight u source c cursor order (r, next) =
    (r.chunk ≡ c)
    × (r.order ≡ order)
    × (r.start + r.old_count ≤ length source)
    × (r.new_count ≤ length c.new_lines)
    × (next ≤ length source)
    × (0 < length c.old_lines
        → (next ≡ r.start + r.old_count)
          × (c.end_of_file ≡ false → cursor ≤ r.start)
          × Replaces u c (take r.old_count (drop r.start source)) (take r.new_count c.new_lines))

pub replace_chunk-TurnRight :
    (u : Utf8Library) (source : List Bytes) (cursor order : ℕ) (c : Chunk) (t : Replacement × ℕ)
    → cursor ≤ length source
    → replace_chunk u source cursor order c ≡ ok t
    → TurnRight u source c cursor order t
unfolding replace_chunk
replace_chunk-TurnRight u source cursor order c t le h = go (is_empty c.old_lines) refl
  where
    behind : ℕ
    behind = seek_context u source c.context cursor

    bounds : (cursor ≤ behind) × (behind ≤ length source)
    bounds = seek_context-le u source c.context cursor le

    at : Found → Replacement × ℕ
    at f = (replacement_at f order c, f.start + f.old_count)

    whole : Replacement × ℕ
    whole = (replacement_at (found_at (length source) 0 (length c.new_lines)) order c, behind)

    go : (b : Bool) → is_empty c.old_lines ≡ b → TurnRight u source c cursor order t
    go true e =
        subst (TurnRight u source c cursor order)
          (ok-injective whole t (rw (e, replace_chunk) at h))
          (
            refl,
            refl,
            omega arith,
            omega arith,
            bounds.1,
            λ pos. absurd (omega (arith, is_empty-length c.old_lines e)),
          )
    go false e = elim (Option-cases (seek_old u source c behind cursor)) [
      | inl e' ↦ cc (rw (e, e', replace_chunk) at h)
      | inr (f, e') ↦
          let found = seek_old-FoundRight u source c behind cursor bounds.0 bounds.1 f e' in
          subst (TurnRight u source c cursor order)
            (ok-injective (at f) t (rw (e, e', replace_chunk) at h))
            (refl, refl, found.1, found.2, found.1, λ pos. (refl, found.0, found.3))
    ]

abbrev pub InBounds : List Bytes → Replacement → Type 0
InBounds source r =
    (r.start + r.old_count ≤ length source) × (r.new_count ≤ length r.chunk.new_lines)

abbrev pub AllInBounds : List Bytes → List Replacement → Type 0
AllInBounds source [] = Unit
AllInBounds source (r ∷ rs) = InBounds source r × AllInBounds source rs

insert_replacement-AllInBounds :
    (source : List Bytes) (r : Replacement) (rs : List Replacement)
    → InBounds source r
    → AllInBounds source rs
    → AllInBounds source (insert_replacement r rs)
unfolding insert_replacement
insert_replacement-AllInBounds source r [] h hs = (h, tt)
insert_replacement-AllInBounds source r (s ∷ ss) h hs =
    elim (Bool-cases (is_positive (replacement_compare r s))) [
      | inl later ↦ rw later (hs.0, insert_replacement-AllInBounds source r ss h hs.1)
      | inr first ↦ rw first (h, hs)
    ]

sort_replacements-AllInBounds :
    (source : List Bytes) (rs : List Replacement)
    → AllInBounds source rs
    → AllInBounds source (sort_replacements rs)
unfolding sort_replacements
sort_replacements-AllInBounds source [] h = tt
sort_replacements-AllInBounds source (r ∷ rs) h =
    insert_replacement-AllInBounds source r (sort_replacements rs) h.0
      (sort_replacements-AllInBounds source rs h.1)

computed-AllInBounds :
    (u : Utf8Library) (source : List Bytes) (cursor order : ℕ) (cs : List Chunk)
    (rs : List Replacement)
    → cursor ≤ length source
    → compute_replacements u source cursor order cs ≡ ok rs
    → AllInBounds source rs
unfolding compute_replacements
computed-AllInBounds u source cursor order [] rs le h =
    subst (AllInBounds source) (ok-injective [] rs h) tt
computed-AllInBounds u source cursor order (c ∷ cs) rs le h =
    elim (Result-cases (replace_chunk u source cursor order c)) [
      | inr (e, bad) ↦ cc (rw (bad, compute_replacements) at h)
      | inl ((r, next), good) ↦
          let turn = replace_chunk-TurnRight u source cursor order c (r, next) le good in
          elim (Result-cases (compute_replacements u source next (order + 1) cs)) [
            | inr (e, bad) ↦ cc (rw (good, bad, compute_replacements) at h)
            | inl (rest, good') ↦
                subst (AllInBounds source)
                  (ok-injective (r ∷ rest) rs (rw (good, good', compute_replacements) at h))
                  (
                    (turn.2, rw turn.0 turn.3),
                    computed-AllInBounds u source next (order + 1) cs rest turn.4 good',
                  )
          ]
    ]

-- whatever the file and the chunks, the replacements of an update, sorted as they are used, replace
-- lines that the file has by lines that their chunks have, so that no index leaves an array.
pub compute_replacements-InBounds :
    (u : Utf8Library) (source : List Bytes) (cs : List Chunk) (rs : List Replacement)
    → compute_replacements u source 0 0 cs ≡ ok rs
    → AllInBounds source (sort_replacements rs)
compute_replacements-InBounds u source cs rs h =
    sort_replacements-AllInBounds source rs
      (computed-AllInBounds u source 0 0 cs rs (omega arith) h)
