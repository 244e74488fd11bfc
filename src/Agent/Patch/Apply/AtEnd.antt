-- ===== src/Agent/Patch/Apply/AtEnd.antt =====
-- src/agent/patch.c: a chunk for the end of the file is sought there whatever has been replaced.
use multi_agent.Common.{
  ℕ, ◌+◌, ◌-◌, ◌≡◌, refl, ap, ap₂, ◌∙◌, Bool, true, false, none, some, List, [], ◌∷◌, ◌++◌, Bytes,
  length, take, drop, take_all, drop_all, if◌then◌else◌, arith, str_eq_refl, append-nil, le→ltb,
}
use Prim.Native.Nat.add
use multi_agent.Util.Errno.{ok}
use multi_agent.Util.Utf8.{Utf8Library}
use multi_agent.Agent.Patch.{Chunk}
use multi_agent.Agent.Patch.Seek.{lines_equal, matches_at, seek_mode, seek_modes, seek_sequence}
use multi_agent.Agent.Patch.Apply.{
  Replacement, replacement_at, found_at, seek_context, seek_twice, seek_old, replace_chunk,
  compute_replacements, insert_replacement, sort_replacements, replacement_compare, splice,
  updated_lines,
}

-- Lines stand where they are.
matches_at_refl : (u : Utf8Library) (ls : List Bytes) → matches_at u 0 ls ls ≡ true
unfolding matches_at lines_equal
matches_at_refl u [] = refl
matches_at_refl u (l ∷ ls) = rw str_eq_refl (matches_at_refl u ls)

-- All lines of a file are found at its start, also if the end is asked for.
seek_whole :
    (u : Utf8Library) (l : Bytes) (ls : List Bytes) (start : ℕ) (eof : Bool)
    → (if eof then length (l ∷ ls) - length (l ∷ ls) else start) ≡ 0
    → seek_sequence u (l ∷ ls) (l ∷ ls) start eof ≡ some 0
unfolding seek_sequence
seek_whole u l ls start eof h =
    rw
      (
        h,
        le→ltb (length (l ∷ ls)) (length (l ∷ ls)) (omega arith),
        le→ltb (length (l ∷ ls) - length (l ∷ ls)) 0 (omega arith),
      )
      modes
  where
    at : seek_mode u 0 (l ∷ ls) 0 (l ∷ ls) ≡ some 0
    at = unfold seek_mode in rw (matches_at_refl u (l ∷ ls)) refl

    modes : seek_modes u (l ∷ ls) 0 (l ∷ ls) ≡ some 0
    modes = unfold seek_modes in rw at refl

-- A chunk without a context.
abbrev pub bare_chunk : List Bytes → List Bytes → Bool → Chunk
bare_chunk old new eof = record {
  context = none;
  old_lines = old;
  new_lines = new;
  end_of_file = eof;
}

abbrev whole_file : List Bytes → ℕ → Chunk → Replacement
whole_file old order c = replacement_at (found_at 0 (length old) (length c.new_lines)) order c

replace_whole :
    (u : Utf8Library) (l : Bytes) (ls new : List Bytes) (cursor order : ℕ) (eof : Bool)
    → (if eof then length (l ∷ ls) - length (l ∷ ls) else cursor) ≡ 0
    → replace_chunk u (l ∷ ls) cursor order (bare_chunk (l ∷ ls) new eof)
      ≡ ok (whole_file (l ∷ ls) order (bare_chunk (l ∷ ls) new eof), length (l ∷ ls))
unfolding replace_chunk seek_context seek_old seek_twice
replace_whole u l ls new cursor order eof h = rw (seek_whole u l ls cursor eof h) (rw add.zero refl)

module _ (u : Utf8Library) (l : Bytes) (ls new new' : List Bytes) where
  computed :
      compute_replacements u
        (l ∷ ls)
        0
        0
        (bare_chunk (l ∷ ls) new false ∷ bare_chunk (l ∷ ls) new' true ∷ [])
      ≡ ok (
          whole_file (l ∷ ls) 0 (bare_chunk (l ∷ ls) new false)
          ∷ whole_file (l ∷ ls) 1 (bare_chunk (l ∷ ls) new' true)
          ∷ [])
  unfolding compute_replacements
  computed =
      rw (replace_whole u l ls new 0 0 false refl, compute_replacements)
        (rw (replace_whole u l ls new' (length (l ∷ ls)) 1 true (omega arith), compute_replacements)
          refl)

  sorted :
      sort_replacements (
        whole_file (l ∷ ls) 0 (bare_chunk (l ∷ ls) new false)
        ∷ whole_file (l ∷ ls) 1 (bare_chunk (l ∷ ls) new' true)
        ∷ [])
      ≡ whole_file (l ∷ ls) 0 (bare_chunk (l ∷ ls) new false)
        ∷ whole_file (l ∷ ls) 1 (bare_chunk (l ∷ ls) new' true)
        ∷ []
  unfolding sort_replacements insert_replacement replacement_compare
  sorted = refl

  spliced :
      splice (l ∷ ls) 0 (
        whole_file (l ∷ ls) 0 (bare_chunk (l ∷ ls) new false)
        ∷ whole_file (l ∷ ls) 1 (bare_chunk (l ∷ ls) new' true)
        ∷ [])
      ≡ new ++ new'
  unfolding splice
  spliced =
      let none_left : 0 - (0 + length (l ∷ ls)) ≡ 0 = omega arith in
      ap₂ ◌++◌ (take_all (length new) new (omega arith)) (
        ap₂ ◌++◌ (ap (λ k. take k (drop (0 + length (l ∷ ls)) (l ∷ ls))) none_left) (
          ap₂ ◌++◌ (take_all (length new') new' (omega arith))
            (drop_all (0 + length (l ∷ ls)) (l ∷ ls) (omega arith))
          ∙ append-nil new'))

  -- two chunks without a context, whose old lines are both the whole file, and the second of which is
  -- marked for the end of the file, are both applied: the first has replaced these lines already, and
  -- the new lines of the second are written behind those of the first.
  pub updated_lines-overlap :
      updated_lines u (l ∷ ls) (bare_chunk (l ∷ ls) new false ∷ bare_chunk (l ∷ ls) new' true ∷ [])
      ≡ ok (new ++ new')
  unfolding updated_lines
  updated_lines-overlap = rw (computed, updated_lines) (rw sorted (ap ok spliced))
