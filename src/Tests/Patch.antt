-- ===== src/Tests/Patch.antt =====
-- src/agent/patch.c on concrete inputs: a patch of two chunks.
use multi_agent.Common.{
  ◌≡◌, ◌≢◌, refl, true, false, none, some, List, [], ◌∷◌, ◌++◌, Bytes, codes, map, arith, str_eq,
}
use multi_agent.Util.Errno.{ok}
use multi_agent.Agent.Patch.{Chunk, Hunk, Action, trim_right, trim_left, trim_view}
use multi_agent.Agent.Patch.Parse.{patch_parse}
use multi_agent.Agent.Patch.Parse.Fuel.{Yields}
use multi_agent.Agent.Patch.Parse.Hunks.{Parsed, patch_parse-Yields}
use multi_agent.Agent.Patch.Print.{
  AreFileChanges, AllUnbroken, patch_lines, keep, insert, remove, Section, FileChange, add_file,
  delete_file, update_file, print_patch, hunk_of,
}
use multi_agent.Agent.Patch.Print.RoundTrip.{patch_parse-print_patch}
use multi_agent.Agent.Patch.Seek.{seek_sequence, lines_equal}
use multi_agent.Agent.Patch.Seek.Found.{Sought, seek_sequence_lem}
use multi_agent.Agent.Patch.Apply.{
  splice, replace_chunk, seek_context, seek_old, seek_twice, Replacement, compute_replacements,
  sort_replacements, updated_lines, build_updated_content, content_lines, print_lines,
}
use multi_agent.Agent.Patch.Apply.Bounds.{AllInBounds, compute_replacements-InBounds}
use multi_agent.Agent.Patch.Apply.Splice.{Patched, build_updated_content-Patched}
use multi_agent.Agent.Patch.Apply.AtEnd.{bare_chunk, updated_lines-overlap}
use multi_agent.Agent.Patch.Path.{
  path_valid, path_is_absolute, parts_from, walk, names, path_valid-walk,
}
use multi_agent.Tests.Compress.{bytewise}

abbrev two_chunks : List Section
two_chunks =
    record {
      context = none;
      changes = keep (codes "line1") ∷ remove (codes "line2") ∷ insert (codes "changed2") ∷ [];
      at_end = false;
    }
    ∷ record {
      context = some (codes "line3");
      changes = remove (codes "line4") ∷ insert (codes "changed4") ∷ [];
      at_end = true;
    }
    ∷ []

abbrev multi : FileChange
multi = update_file (codes "multi.txt") none two_chunks

abbrev others : List FileChange
others = add_file (codes "new.txt") (codes "a" ∷ codes "" ∷ []) ∷ delete_file (codes "old.txt") ∷ []

patch_text :
    print_patch (delete_file (codes "old.txt") ∷ [])
    ≡ codes "*** Begin Patch\n*** Delete File: old.txt\n*** End Patch\n"
unfolding print_lines
patch_text = refl

multi_changes : AreFileChanges (multi ∷ others)
unfolding trim_right trim_left trim_view str_eq
multi_changes = (
  (
    (omega arith, refl),
    tt,
    omega arith,
    (
      (tt, omega arith, ((refl, refl), (tt, (tt, tt)))),
      (((omega arith, refl), omega arith, (tt, (tt, tt))), tt),
    ),
  ),
  (((omega arith, refl), omega arith), ((omega arith, refl), tt)),
)

multi_unbroken : AllUnbroken (patch_lines (multi ∷ others))
multi_unbroken = omega arith

patch_parse-print_patch_example :
    patch_parse (print_patch (multi ∷ others)) ≡ ok (map hunk_of (multi ∷ others))
patch_parse-print_patch_example = patch_parse-print_patch multi others multi_changes multi_unbroken

patch_parse-Yields_example : Yields Parsed (patch_parse (codes "*** Begin Patch\n*** Update File"))
patch_parse-Yields_example = patch_parse-Yields (codes "*** Begin Patch\n*** Update File")

abbrev file : List Bytes
file = codes "line1" ∷ codes "line2  " ∷ codes "line3" ∷ codes "line4" ∷ []

sought : seek_sequence bytewise file (codes "line2" ∷ []) 0 false ≡ some 1
unfolding seek_sequence lines_equal str_eq
sought = refl

seek_sequence_lem_example :
    Sought bytewise
      (codes "line2" ∷ [])
      file
      0
      (seek_sequence bytewise file (codes "line2" ∷ []) 0 false)
seek_sequence_lem_example = seek_sequence_lem bytewise file (codes "line2") [] 0 false

trailing : lines_equal bytewise 1 (codes "line2  ") (codes "line2") ≡ true
unfolding lines_equal str_eq
trailing = refl

abbrev first_chunk : Chunk
first_chunk = bare_chunk (codes "line2" ∷ []) (codes "changed2" ∷ []) false

abbrev second_chunk : Chunk
second_chunk = bare_chunk (codes "line4" ∷ []) (codes "changed4" ∷ []) false

abbrev update_hunk : Hunk
update_hunk = record {
  action = Action.update;
  path = codes "multi.txt";
  move_path = none;
  add_content = none;
  chunks = first_chunk ∷ second_chunk ∷ [];
  added = 2;
  removed = 2;
}

abbrev computed : List Replacement
computed =
    record { start = 1; old_count = 1; order = 0; chunk = first_chunk; new_count = 1 }
    ∷ record { start = 3; old_count = 1; order = 1; chunk = second_chunk; new_count = 1 }
    ∷ []

compute : compute_replacements bytewise file 0 0 update_hunk.chunks ≡ ok computed
unfolding compute_replacements replace_chunk seek_context seek_old seek_twice seek_sequence
    lines_equal str_eq
compute = refl

compute_replacements-InBounds_example : AllInBounds file (sort_replacements computed)
compute_replacements-InBounds_example =
    compute_replacements-InBounds bytewise file update_hunk.chunks computed compute

updated :
    build_updated_content bytewise (codes "line1\nline2  \nline3\nline4\n") update_hunk
    ≡ ok (codes "line1\nchanged2\nline3\nchanged4\n")
unfolding build_updated_content updated_lines content_lines print_lines compute_replacements
    sort_replacements splice replace_chunk seek_context seek_old seek_twice seek_sequence
    lines_equal str_eq
updated = refl

build_updated_content-Patched_example :
    (lines : List Bytes) × (codes "line1\nchanged2\nline3\nchanged4\n" ≡ print_lines lines)
    × Patched bytewise update_hunk.chunks
        (content_lines (codes "line1\nline2  \nline3\nline4\n"))
        lines
build_updated_content-Patched_example =
    build_updated_content-Patched bytewise (codes "line1\nline2  \nline3\nline4\n")
      (codes "line1\nchanged2\nline3\nchanged4\n") update_hunk
      ((omega arith, refl), ((omega arith, refl), tt)) updated

updated_lines-overlap_example :
    updated_lines bytewise (codes "a" ∷ []) (
      bare_chunk (codes "a" ∷ []) (codes "b" ∷ []) false
      ∷ bare_chunk (codes "a" ∷ []) (codes "c" ∷ []) true
      ∷ [])
    ≡ ok (codes "b" ∷ codes "c" ∷ [])
updated_lines-overlap_example =
    updated_lines-overlap bytewise (codes "a") [] (codes "b" ∷ []) (codes "c" ∷ [])

relative : path_valid (some (codes "src/a.c")) ≡ true
unfolding path_valid path_is_absolute multi_agent.Agent.Patch.Path.parts_valid str_eq
relative = refl

climbing : path_valid (some (codes "src/../../a.c")) ≡ false
unfolding path_valid path_is_absolute multi_agent.Agent.Patch.Path.parts_valid str_eq
climbing = refl

path_valid-walk_example :
    (path_is_absolute (codes "src/a.c") ≡ false)
    × (codes "src/a.c" ≢ [])
    × (walk (codes "home" ∷ []) (parts_from [] (codes "src/a.c"))
        ≡ (codes "home" ∷ []) ++ names (parts_from [] (codes "src/a.c")))
path_valid-walk_example = path_valid-walk (codes "src/a.c") (codes "home" ∷ []) relative
