-- ===== src/Agent/Patch/Parse/Hunks.antt =====
-- src/agent/patch.c: what the parser gives to the code that applies a patch.
use multi_agent.Common.{
  ℕ, zero, suc, ◌+◌, ◌≤◌, ◌<◌, ◌≡◌, refl, sym, ◌∙◌, false, not, some, List, [], ◌∷◌, ◌++◌, Bytes,
  length, if◌then◌else◌, arith, ◌==◌, Bool-cases, inl, inr,
}
use multi_agent.Util.Errno.{einval, Result, ok, err}
use multi_agent.Agent.Patch.{
  add, update, Chunk, Hunk, Header, header_kind, header_add, header_update, header_delete, is_move,
}
use multi_agent.Agent.Patch.Parse.{
  new_hunk, is_nil, is_header_none, take_move, parse_update, append_add_line, add_lines, parse_add,
  parse_hunk, parse_hunks, patch_body, patch_parse, parse_chunks, split_lines, skip_empty,
  drop_empty_end, strip_heredoc, is_begin, is_end, is_environment, but_last, last_line,
}
use multi_agent.Agent.Patch.Parse.Fuel.{
  Yields, Yields-if, Yields-bind, Yields-map, AllHaveLines, AfterHunk, parse_chunks-Yields,
}

-- A new file has a content, an update has a chunk, and no chunk is empty.
pub record IsHunk (h : Hunk) : Type 0 where
  pub content : h.action ≡ add → (text : Bytes) × (h.add_content ≡ some text)
  pub changes : h.action ≡ update → 0 < length h.chunks
  pub lines : AllHaveLines h.chunks

abbrev pub AreHunks : List Hunk → Type 0
AreHunks [] = Unit
AreHunks (h ∷ hs) = IsHunk h × AreHunks hs

-- A hunk, and the lines behind it.
abbrev Read : ℕ → Hunk × List Bytes → Type 0
Read n (h, rest) = IsHunk h × (length rest ≤ n)

append_add_line-Yields :
    (content l : Bytes) → Yields {A = Bytes} (λ _. Unit {0}) (append_add_line content l)
unfolding append_add_line
append_add_line-Yields content [] = refl
append_add_line-Yields content (c ∷ text) =
    Yields-if {A = Bytes} (λ _. Unit {0}) (c == b'+') (ok (content ++ (text ++ (b'\n' ∷ []))))
      (err einval) (λ e. tt) (λ e. refl)

abbrev Shorter : ℕ → ℕ × Bytes × List Bytes → Type 0
Shorter n (added, content, rest) = length rest ≤ n

add_lines-Yields :
    (added : ℕ) (content : Bytes) (ls : List Bytes)
    → Yields (Shorter (length ls)) (add_lines added content ls)
unfolding add_lines
add_lines-Yields added content [] = omega arith
add_lines-Yields added content (l ∷ ls) = elim (Bool-cases (is_header_none (header_kind l).0)) [
  | inr e ↦ rw e (omega arith)
  | inl e ↦ rw e (
      Yields-bind {A = Bytes} (λ _. Unit {0}) (Shorter (length (l ∷ ls)))
        (append_add_line content l) (λ more. add_lines (added + 1) more ls)
        (append_add_line-Yields content l)
        λ more p.
          Yields-map (Shorter (length ls)) (Shorter (length (l ∷ ls)))
            (add_lines (added + 1) more ls) (λ r q. omega arith)
            (add_lines-Yields (added + 1) more ls))
]

parse_add-Yields :
    (path : Bytes) (ls : List Bytes) → Yields (Read (length ls)) (parse_add (new_hunk add path) ls)
unfolding parse_add
parse_add-Yields path ls =
    Yields-bind (Shorter (length ls)) (Read (length ls)) (add_lines 0 [] ls)
      (λ r. if r.0 == 0 then err einval else ok (with_content r, r.2)) (add_lines-Yields 0 [] ls)
      λ r p.
        Yields-if (Read (length ls)) (r.0 == 0) (err einval) (ok (with_content r, r.2)) (λ e. refl)
          λ e. (record { content = λ _. (r.1, refl); changes = λ a. cc; lines = tt }, p)
  where
    with_content : ℕ × Bytes × List Bytes → Hunk
    with_content r = record (new_hunk add path) { added = r.0; add_content = some r.1 }

take_move-lem :
    (h : Hunk) (ls : List Bytes)
    → ((take_move h ls).0.action ≡ h.action)
      × ((take_move h ls).0.chunks ≡ h.chunks)
      × (length (take_move h ls).1 ≤ length ls)
unfolding take_move
take_move-lem h [] = (refl, refl, omega arith)
take_move-lem h (l ∷ ls) = elim (Bool-cases (is_move (header_kind l).0)) [
  | inl e ↦ rw e (refl, refl, omega arith)
  | inr e ↦ rw e (refl, refl, omega arith)
]

is_nil-length : (cs : List Chunk) → is_nil cs ≡ false → 0 < length cs
is_nil-length [] e = cc
is_nil-length (c ∷ cs) e = omega arith

parse_update-Yields :
    (path : Bytes) (ls : List Bytes)
    → Yields (Read (length ls)) (parse_update (new_hunk update path) ls)
unfolding parse_update
parse_update-Yields path ls =
    Yields-bind (AfterHunk h (length rest)) (Read (length ls))
      (parse_chunks (length rest + 1) h rest)
      (λ r. if is_nil r.0.chunks then err einval else ok (r.0, r.1))
      (parse_chunks-Yields (length rest + 1) h rest (omega arith))
      λ r p.
        Yields-if (Read (length ls)) (is_nil r.0.chunks) (err einval) (ok (r.0, r.1)) (λ e. refl)
          λ e. (
            record {
              content = λ a. absurd (not_add (sym (p.0 ∙ same.0) ∙ a));
              changes = λ _. is_nil-length r.0.chunks e;
              lines = p.1 (rw same.1 tt);
            },
            omega (arith, same.2),
          )
  where
    h : Hunk
    h = (take_move (new_hunk update path) ls).0

    rest : List Bytes
    rest = (take_move (new_hunk update path) ls).1

    same : (h.action ≡ update) × (h.chunks ≡ []) × (length rest ≤ length ls)
    same = take_move-lem (new_hunk update path) ls

    not_add : update ≡ add → ⊥
    not_add e = cc

parse_hunk-Yields :
    (header : Header) (path : Bytes) (ls : List Bytes)
    → Yields (Read (length ls)) (parse_hunk header path ls)
unfolding parse_hunk
parse_hunk-Yields header_add path ls = parse_add-Yields path ls
parse_hunk-Yields header_update path ls = parse_update-Yields path ls
parse_hunk-Yields header_delete path ls =
    (record { content = λ a. cc; changes = λ a. cc; lines = tt }, omega arith)
parse_hunk-Yields _ path ls = refl

AreHunks-push : (hs : List Hunk) (h : Hunk) → AreHunks hs → IsHunk h → AreHunks (hs ++ (h ∷ []))
AreHunks-push [] h all i = (i, tt)
AreHunks-push (k ∷ hs) h all i = (all.0, AreHunks-push hs h all.1 i)

abbrev pub Parsed : List Hunk → Type 0
Parsed hs = (0 < length hs) × AreHunks hs

-- One unit of fuel for each line, and one more, is enough.
parse_hunks-Yields :
    (fuel : ℕ) (hs : List Hunk) (ls : List Bytes)
    → length ls < fuel
    → AreHunks hs
    → Yields Parsed (parse_hunks fuel hs ls)
unfolding parse_hunks
parse_hunks-Yields zero hs ls lt all = absurd (omega arith)
parse_hunks-Yields (suc fuel) [] [] lt all = refl
parse_hunks-Yields (suc fuel) (h ∷ hs) [] lt all = (omega arith, all)
parse_hunks-Yields (suc fuel) hs (l ∷ ls) lt all =
    Yields-bind (Read (length ls)) Parsed (parse_hunk (header_kind l).0 (header_kind l).1 ls)
      (λ r. parse_hunks fuel (hs ++ (r.0 ∷ [])) r.1)
      (parse_hunk-Yields (header_kind l).0 (header_kind l).1 ls)
      λ r p.
        parse_hunks-Yields fuel (hs ++ (r.0 ∷ [])) r.1 (omega arith) (AreHunks-push hs r.0 all p.0)

patch_body-Yields : (ls : List Bytes) → Yields {A = List Bytes} (λ _. Unit {0}) (patch_body ls)
unfolding patch_body
patch_body-Yields [] = refl
patch_body-Yields (l ∷ ls) =
    Yields-if any (not (is_begin (header_kind l).0)) (err einval) _ (λ e. refl)
      λ e.
        Yields-if any (not (is_end (header_kind (last_line l ls)).0)) (err einval)
          (inner (but_last ls)) (λ e. refl) λ e. inner-Yields (but_last ls)
  where
    any : List Bytes → Type 0
    any _ = Unit

    inner : List Bytes → Result (List Bytes)
    inner ks = elim ks [
      | [] ↦ ok []
      | k ∷ ks ↦ if is_environment (header_kind k).0 then ok ks else ok (k ∷ ks)
    ]

    inner-Yields : (ks : List Bytes) → Yields any (inner ks)
    inner-Yields [] = tt
    inner-Yields (k ∷ ks) =
        Yields-if any (is_environment (header_kind k).0) (ok ks) (ok (k ∷ ks)) (λ e. tt) (λ e. tt)

-- every text is parsed to the end: the parser gives one hunk or more, in which a new file has a
-- content, an update has a chunk and no chunk is empty, or it fails with EINVAL; it never lacks fuel.
pub patch_parse-Yields : (text : Bytes) → Yields Parsed (patch_parse text)
unfolding patch_parse
patch_parse-Yields text =
    Yields-bind {A = List Bytes} (λ _. Unit {0}) Parsed
      (patch_body (strip_heredoc (drop_empty_end (skip_empty (split_lines text)))))
      (λ body. parse_hunks (length body + 1) [] body)
      (patch_body-Yields (strip_heredoc (drop_empty_end (skip_empty (split_lines text)))))
      λ body p. parse_hunks-Yields (length body + 1) [] body (omega arith) tt
