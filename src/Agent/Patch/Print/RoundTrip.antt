-- ===== src/Agent/Patch/Print/RoundTrip.antt =====
-- src/agent/patch.c: a patch that is written is read back.
use multi_agent.Common.{
  ℕ, ◌+◌, ◌≡◌, ◌≢◌, refl, sym, ap, ◌∙◌, true, false, List, [], ◌∷◌, ◌++◌, Bytes, codes, length, map,
  arith, ◌==◌, str_eq, append_assoc,
}
use multi_agent.Util.Errno.{ok}
use multi_agent.Agent.Patch.{
  header_kind, view_equal, trim_view, trim_left, trim_right, Header, find_marker, has_marker,
  one_space, is_file_header, is_move,
}
use multi_agent.Agent.Patch.Parse.{
  cons_first, split_lines, skip_empty, drop_empty_end, strip_heredoc, last_line, but_last,
  patch_body, patch_parse, is_begin, is_end, is_environment, is_nil,
}
use multi_agent.Agent.Patch.Print.{
  FileChange, add_file, delete_file, update_file, file_head, files_lines, patch_lines, print_patch,
  hunk_of, AreFileChanges, IsFileChange, Unbroken, AllUnbroken,
}
use multi_agent.Agent.Patch.Print.Files.{
  header_of, header_kind-file, parse_hunks-files, length-files_lines, files_lines-append,
}
use multi_agent.Agent.Patch.Apply.{print_lines}

==_ne : (a b : ℕ) → a ≢ b → a == b ≡ false
==_ne a b h = ground arith

split_lines-line :
    (l rest : Bytes) → Unbroken l → split_lines (l ++ (b'\n' ∷ rest)) ≡ l ∷ split_lines rest
unfolding split_lines
split_lines-line [] [] h = refl
split_lines-line [] (c ∷ rest) h = refl
split_lines-line (c ∷ []) rest h =
    rw (==_ne c b'\r' h.1, ==_ne c b'\n' h.0) (ap (cons_first c) (split_lines-line [] rest tt))
split_lines-line (c ∷ d ∷ l) rest h =
    rw (==_ne c b'\r' h.1, ==_ne c b'\n' h.0)
      (ap (cons_first c) (split_lines-line (d ∷ l) rest h.2))

-- Lines that are written each with a newline are read, and an empty one behind them.
split_lines-print_lines :
    (ls : List Bytes) → AllUnbroken ls → split_lines (print_lines ls) ≡ ls ++ ([] ∷ [])
unfolding print_lines
split_lines-print_lines [] h = unfold split_lines in refl
split_lines-print_lines (l ∷ ls) h =
    split_lines-line l (print_lines ls) h.0 ∙ ap (◌∷◌ l) (split_lines-print_lines ls h.1)

-- The first and the last line of a patch.
abbrev begin_line : Bytes
begin_line = codes "*** Begin Patch"

abbrev end_line : Bytes
end_line = codes "*** End Patch"

begin_first : (ls : List Bytes) → skip_empty (begin_line ∷ ls) ≡ begin_line ∷ ls
unfolding skip_empty view_equal trim_view trim_left trim_right str_eq
begin_first ls = refl

end_last : drop_empty_end (end_line ∷ [] ∷ []) ≡ end_line ∷ []
unfolding drop_empty_end view_equal trim_view trim_left trim_right str_eq
end_last = refl

drop_empty_end-lines :
    (ls : List Bytes) → drop_empty_end (ls ++ (end_line ∷ [] ∷ [])) ≡ ls ++ (end_line ∷ [])
drop_empty_end-lines [] = end_last
drop_empty_end-lines (l ∷ ls) = step (drop_empty_end-lines ls)
  where
    not_nil : (ls : List Bytes) → is_nil (ls ++ (end_line ∷ [])) ≡ false
    not_nil [] = refl
    not_nil (k ∷ ks) = refl

    step :
        drop_empty_end (ls ++ (end_line ∷ [] ∷ [])) ≡ ls ++ (end_line ∷ [])
        → drop_empty_end (l ∷ (ls ++ (end_line ∷ [] ∷ []))) ≡ l ∷ (ls ++ (end_line ∷ []))
    step ih = unfold drop_empty_end in rw (ih) (rw (not_nil ls) refl)

no_heredoc : (ls : List Bytes) → strip_heredoc (begin_line ∷ ls) ≡ begin_line ∷ ls
unfolding strip_heredoc str_eq
no_heredoc ls = ground arith

last_line-append : (l : Bytes) (ls : List Bytes) (e : Bytes) → last_line l (ls ++ (e ∷ [])) ≡ e
unfolding last_line
last_line-append l [] e = refl
last_line-append l (k ∷ ks) e = last_line-append k ks e

but_last-append : (ls : List Bytes) (e : Bytes) → but_last (ls ++ (e ∷ [])) ≡ ls
unfolding but_last
but_last-append [] e = refl
but_last-append (l ∷ []) e = refl
but_last-append (l ∷ k ∷ ls) e = ap (◌∷◌ l) (but_last-append (k ∷ ls) e)

is_begin-begin : is_begin (header_kind begin_line).0 ≡ true
unfolding is_begin header_kind find_marker has_marker one_space trim_view trim_left trim_right
    str_eq is_file_header is_move
is_begin-begin = refl

is_end-end : is_end (header_kind end_line).0 ≡ true
unfolding is_end header_kind find_marker has_marker one_space trim_view trim_left trim_right str_eq
    is_file_header is_move
is_end-end = refl

file-no_environment :
    (f : FileChange) → IsFileChange f → is_environment (header_kind (file_head f)).0 ≡ false
unfolding is_environment
file-no_environment f h =
    ap (λ (x : Header × Bytes). is_environment x.0) (header_kind-file f h) ∙ none_such f
  where
    none_such : (f : FileChange) → is_environment (header_of f) ≡ false
    none_such (add_file p ls) = refl
    none_such (delete_file p) = refl
    none_such (update_file p m ss) = refl

-- The lines between the first and the last one.
patch_body-framed :
    (k : Bytes) (ks : List Bytes)
    → is_environment (header_kind k).0 ≡ false
    → patch_body (begin_line ∷ ((k ∷ ks) ++ (end_line ∷ []))) ≡ ok (k ∷ ks)
unfolding patch_body
patch_body-framed k ks h =
    rw (is_begin-begin, last_line-append begin_line (k ∷ ks) end_line, is_end-end)
      (rw (but_last-append (k ∷ ks) end_line) (rw h refl))

patch_body-lines :
    (f : FileChange) (fs : List FileChange)
    → IsFileChange f
    → patch_body (patch_lines (f ∷ fs)) ≡ ok (files_lines (f ∷ fs) [])
patch_body-lines f fs h =
    ap (λ x. patch_body (begin_line ∷ x)) (files_lines-append (f ∷ fs) (end_line ∷ []))
    ∙ patch_body-framed (file_head f) _ (file-no_environment f h)

-- The lines that are left of the text of a patch.
read_lines :
    (fs : List FileChange)
    → AllUnbroken (patch_lines fs)
    → strip_heredoc (drop_empty_end (skip_empty (split_lines (print_patch fs)))) ≡ patch_lines fs
read_lines fs h =
    ap (λ x. strip_heredoc (drop_empty_end (skip_empty x)))
      (split_lines-print_lines (patch_lines fs) h)
    ∙ ap (λ x. strip_heredoc (drop_empty_end x))
        (begin_first (files_lines fs (end_line ∷ []) ++ ([] ∷ [])))
    ∙ ap strip_heredoc ended
    ∙ no_heredoc (files_lines fs (end_line ∷ []))
  where
    framed : files_lines fs (end_line ∷ []) ≡ files_lines fs [] ++ (end_line ∷ [])
    framed = files_lines-append fs (end_line ∷ [])

    ended : drop_empty_end (patch_lines fs ++ ([] ∷ [])) ≡ patch_lines fs
    ended =
        ap (λ x. drop_empty_end (begin_line ∷ x))
          (ap (λ x. x ++ ([] ∷ [])) framed
            ∙ append_assoc (files_lines fs []) (end_line ∷ []) ([] ∷ []))
        ∙ drop_empty_end-lines (begin_line ∷ files_lines fs [])
        ∙ ap (◌∷◌ begin_line) (sym framed)

-- a patch with one file or more that is written line by line is read back as the hunks that it
-- stands for, with their paths, contents, chunks and counts of lines, if its lines hold no carriage
-- return or newline; its paths and contexts are not empty and do not end with a blank; a new file
-- has a line, an update a chunk, and a chunk a line; and no kept line begins, behind blanks, with
-- "***" or "@@".
pub patch_parse-print_patch :
    (f : FileChange) (fs : List FileChange)
    → AreFileChanges (f ∷ fs)
    → AllUnbroken (patch_lines (f ∷ fs))
    → patch_parse (print_patch (f ∷ fs)) ≡ ok (map hunk_of (f ∷ fs))
unfolding patch_parse
patch_parse-print_patch f fs all unbroken =
    rw (read_lines (f ∷ fs) unbroken, patch_parse)
      (rw (patch_body-lines f fs all.0) (
        parse_hunks-files (length (files_lines (f ∷ fs) []) + 1) [] (f ∷ fs) all
          (omega (arith, length-files_lines (f ∷ fs))) refl))
