-- ===== src/Agent/Patch/Print.antt =====
-- src/agent/patch.c: patches as they are written, and the hunks that they stand for. The runtime
-- only reads patches; their printer is the inverse of its parser.
pub mod Chunks
pub mod Files
pub mod RoundTrip
use multi_agent.Common.{
  ℕ, ◌+◌, ◌<◌, ◌≡◌, ◌≢◌, Bool, true, false, Option, none, some, List, [], ◌∷◌, ◌++◌, Bytes, codes,
  length, map, if◌then◌else◌,
}
use multi_agent.Agent.Patch.{Action, add, update, delete, Chunk, Hunk}
use multi_agent.Agent.Patch.Headers.{IsValue, IsText}
use multi_agent.Agent.Patch.Parse.{new_hunk}
use multi_agent.Agent.Patch.Apply.{print_lines}

pub data Change : Type 0 where
  keep insert remove : Bytes → Change

pub record Section : Type 0 where
  pub context : Option Bytes
  pub changes : List Change
  pub at_end : Bool

pub data FileChange : Type 0 where
  add_file : Bytes → List Bytes → FileChange
  delete_file : Bytes → FileChange
  update_file : Bytes → Option Bytes → List Section → FileChange

abbrev pub change_line : Change → Bytes
change_line (keep t) = b' ' ∷ t
change_line (insert t) = b'+' ∷ t
change_line (remove t) = b'-' ∷ t

abbrev pub section_head : Option Bytes → Bytes
section_head none = codes "@@"
section_head (some c) = codes "@@ " ++ c

abbrev pub end_lines : Bool → List Bytes → List Bytes
end_lines true rest = codes "*** End of File" ∷ rest
end_lines false rest = rest

-- The lines of a part of a patch, in front of those that follow it.
abbrev pub section_lines : List Section → List Bytes → List Bytes
section_lines [] rest = rest
section_lines (s ∷ ss) rest =
    section_head s.context
    ∷ (map change_line s.changes ++ end_lines s.at_end (section_lines ss rest))

abbrev pub move_lines : Option Bytes → List Bytes → List Bytes
move_lines none rest = rest
move_lines (some m) rest = (codes "*** Move to: " ++ m) ∷ rest

abbrev pub file_head : FileChange → Bytes
file_head (add_file p ls) = codes "*** Add File: " ++ p
file_head (delete_file p) = codes "*** Delete File: " ++ p
file_head (update_file p m ss) = codes "*** Update File: " ++ p

abbrev pub file_body : FileChange → List Bytes → List Bytes
file_body (add_file p ls) rest = map (λ l. b'+' ∷ l) ls ++ rest
file_body (delete_file p) rest = rest
file_body (update_file p m ss) rest = move_lines m (section_lines ss rest)

abbrev pub files_lines : List FileChange → List Bytes → List Bytes
files_lines [] rest = rest
files_lines (f ∷ fs) rest = file_head f ∷ file_body f (files_lines fs rest)

abbrev pub patch_lines : List FileChange → List Bytes
patch_lines fs = codes "*** Begin Patch" ∷ files_lines fs (codes "*** End Patch" ∷ [])

-- The text of a patch; each line ends with a newline.
abbrev pub print_patch : List FileChange → Bytes
print_patch fs = print_lines (patch_lines fs)

-- What the changes find, what they leave, and how many lines they count.
abbrev pub old_of : List Change → List Bytes
old_of [] = []
old_of (keep t ∷ cs) = t ∷ old_of cs
old_of (insert t ∷ cs) = old_of cs
old_of (remove t ∷ cs) = t ∷ old_of cs

abbrev pub new_of : List Change → List Bytes
new_of [] = []
new_of (keep t ∷ cs) = t ∷ new_of cs
new_of (insert t ∷ cs) = t ∷ new_of cs
new_of (remove t ∷ cs) = new_of cs

abbrev pub added_by : List Change → ℕ
added_by [] = 0
added_by (keep t ∷ cs) = added_by cs
added_by (insert t ∷ cs) = 1 + added_by cs
added_by (remove t ∷ cs) = added_by cs

abbrev pub removed_by : List Change → ℕ
removed_by [] = 0
removed_by (keep t ∷ cs) = removed_by cs
removed_by (insert t ∷ cs) = removed_by cs
removed_by (remove t ∷ cs) = 1 + removed_by cs

abbrev pub chunk_of : Section → Chunk
chunk_of s = record {
  context = s.context;
  old_lines = old_of s.changes;
  new_lines = new_of s.changes;
  end_of_file = s.at_end;
}

-- A hunk with the chunks of more sections.
abbrev pub with_sections : Hunk → List Section → Hunk
with_sections h [] = h
with_sections h (s ∷ ss) =
    with_sections
      (record h {
        chunks = h.chunks ++ (chunk_of s ∷ []);
        added = h.added + added_by s.changes;
        removed = h.removed + removed_by s.changes;
      })
      ss

abbrev pub hunk_of : FileChange → Hunk
hunk_of (add_file p ls) = record (new_hunk add p) {
  add_content = some (print_lines ls);
  added = length ls;
}
hunk_of (delete_file p) = new_hunk delete p
hunk_of (update_file p m ss) = with_sections (record (new_hunk update p) { move_path = m }) ss

-- A kept line must not read as a header or as the start of a chunk.
abbrev pub IsChange : Change → Type 0
IsChange (keep t) = IsText (b' ' ∷ t)
IsChange (insert t) = Unit
IsChange (remove t) = Unit

abbrev pub AreChanges : List Change → Type 0
AreChanges [] = Unit
AreChanges (c ∷ cs) = IsChange c × AreChanges cs

abbrev pub IsOptional : Option Bytes → Type 0
IsOptional none = Unit
IsOptional (some v) = IsValue v

abbrev pub IsSection : Section → Type 0
IsSection s = IsOptional s.context × (0 < length s.changes) × AreChanges s.changes

abbrev pub AreSections : List Section → Type 0
AreSections [] = Unit
AreSections (s ∷ ss) = IsSection s × AreSections ss

abbrev pub IsFileChange : FileChange → Type 0
IsFileChange (add_file p ls) = IsValue p × (0 < length ls)
IsFileChange (delete_file p) = IsValue p
IsFileChange (update_file p m ss) = IsValue p × IsOptional m × (0 < length ss) × AreSections ss

abbrev pub AreFileChanges : List FileChange → Type 0
AreFileChanges [] = Unit
AreFileChanges (f ∷ fs) = IsFileChange f × AreFileChanges fs

-- No line breaks off before its end.
abbrev pub Unbroken : Bytes → Type 0
Unbroken [] = Unit
Unbroken (c ∷ cs) = (c ≢ b'\n') × (c ≢ b'\r') × Unbroken cs

abbrev pub AllUnbroken : List Bytes → Type 0
AllUnbroken [] = Unit
AllUnbroken (l ∷ ls) = Unbroken l × AllUnbroken ls
