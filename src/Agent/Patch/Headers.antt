-- ===== src/Agent/Patch/Headers.antt =====
-- src/agent/patch.c: which lines of a patch are headers.
use multi_agent.Common.{
  ℕ, suc, ◌<◌, ◌≡◌, refl, sym, ap, ◌∙◌, true, false, not, ◌&&◌, List, [], ◌∷◌, ◌++◌, Bytes, codes,
  length, take, drop, arith, ◌==◌, str_eq, lt→ltb, subst, length-append, take-append, drop-append,
  str_eq_refl,
}
use multi_agent.Agent.Patch.{
  is_blank, cons_unless, trim_left, trim_right, trim_view, Marker, has_marker, find_marker,
  header_kind, one_space, marker_of, markers, Header, header_none, header_add, header_update,
  header_delete, header_move, is_file_header,
}
use multi_agent.Agent.Patch.Parse.{is_bare_chunk, is_context_chunk, ends_update, is_end, is_eof}

-- A text that is not empty and does not end with a blank.
abbrev pub IsValue : Bytes → Type 0
IsValue v = (0 < length v) × (trim_right v ≡ v)

trim_right-cons : (c : ℕ) (v : Bytes) → IsValue v → IsValue (c ∷ v)
unfolding trim_right
trim_right-cons c [] h = absurd (omega arith)
trim_right-cons c (d ∷ v) h = (omega arith, ap (cons_unless (is_blank c) c) h.1)

trim_right-append : (m v : Bytes) → IsValue v → IsValue (m ++ v)
trim_right-append [] v h = h
trim_right-append (c ∷ m) v h = trim_right-cons c (m ++ v) (trim_right-append m v h)

-- Behind a byte that is no blank, a value is trimmed already.
pub trim_view-value :
    (c : ℕ) (m v : Bytes) → is_blank c ≡ false → IsValue v → trim_view (c ∷ (m ++ v)) ≡ c ∷ (m ++ v)
unfolding trim_view trim_left
trim_view-value c m v h val = rw h (trim_right-append (c ∷ m) v val).1

has_marker_short :
    (m : Marker) (view : Bytes)
    → str_eq (take (length m.marker) view) m.marker ≡ false
    → has_marker m view ≡ false
unfolding has_marker
has_marker_short m view h = ground arith

-- A header with a value behind it.
has_marker_value :
    (text v : Bytes) (h : Header)
    → 0 < length v
    → has_marker (marker_of text h true) (text ++ v) ≡ true
unfolding has_marker
has_marker_value text v h pos =
    rw (lt→ltb (length text) (length (text ++ v)) (omega (arith, length-append text v)))
      (rw (take-append text v) (str_eq_refl text))

module _ (line view : Bytes) where
  find_marker_hit :
      (m : Marker) (ms : List Marker)
      → one_space line ≡ false
      → has_marker m view ≡ true
      → find_marker (m ∷ ms) line view ≡ (m.header, drop (length m.marker) view)
  unfolding find_marker
  find_marker_hit m ms one h = rw (h, one)

  find_marker_miss :
      (m : Marker) (ms : List Marker)
      → str_eq (take (length m.marker) view) m.marker ≡ false
      → find_marker (m ∷ ms) line view ≡ find_marker ms line view
  unfolding find_marker
  find_marker_miss m ms h = rw (has_marker_short m view h)

-- A header of the table with a value, behind the entries that it does not fit.
header_kind_value :
    (c : ℕ) (text v : Bytes) (h : Header)
    → is_blank c ≡ false
    → c == b' ' ≡ false
    → IsValue v
    → (ms : List Marker)
    → find_marker markers (c ∷ (text ++ v)) (c ∷ (text ++ v))
      ≡ find_marker (marker_of (c ∷ text) h true ∷ ms) (c ∷ (text ++ v)) (c ∷ (text ++ v))
    → header_kind (c ∷ (text ++ v)) ≡ (h, v)
unfolding header_kind
header_kind_value c text v h blank space val ms rest =
    ap (find_marker markers (c ∷ (text ++ v))) (trim_view-value c text v blank val)
    ∙ rest
    ∙ find_marker_hit (c ∷ (text ++ v)) (c ∷ (text ++ v)) (marker_of (c ∷ text) h true) ms
        (no_space (text ++ v)) (has_marker_value (c ∷ text) v h val.0)
    ∙ ap (λ x. (h, x)) (drop-append text v)
  where
    no_space : (x : Bytes) → one_space (c ∷ x) ≡ false
    no_space [] = space
    no_space (d ∷ x) = ap (λ b. b && not (is_blank d)) space

module _ (v : Bytes) (val : IsValue v) where
  pub header_kind-add : header_kind (codes "*** Add File: " ++ v) ≡ (header_add, v)
  header_kind-add = header_kind_value b'*' (codes "** Add File: ") v header_add refl refl val _ refl

  pub header_kind-update : header_kind (codes "*** Update File: " ++ v) ≡ (header_update, v)
  unfolding str_eq
  header_kind-update =
      header_kind_value b'*' (codes "** Update File: ") v header_update refl refl val _
        (find_marker_miss _ _ (marker_of (codes "*** Add File: ") header_add true) _ refl)

  pub header_kind-delete : header_kind (codes "*** Delete File: " ++ v) ≡ (header_delete, v)
  unfolding str_eq
  header_kind-delete =
      header_kind_value b'*' (codes "** Delete File: ") v header_delete refl refl val _ (
        find_marker_miss _ _ (marker_of (codes "*** Add File: ") header_add true) _ refl
        ∙ find_marker_miss _ _ (marker_of (codes "*** Update File: ") header_update true) _ refl)

  pub header_kind-move : header_kind (codes "*** Move to: " ++ v) ≡ (header_move, v)
  unfolding str_eq
  header_kind-move = header_kind_value b'*' (codes "** Move to: ") v header_move refl refl val _ (
      find_marker_miss _ _ (marker_of (codes "*** Add File: ") header_add true) _ refl
      ∙ find_marker_miss _ _ (marker_of (codes "*** Update File: ") header_update true) _ refl
      ∙ find_marker_miss _ _ (marker_of (codes "*** Delete File: ") header_delete true) _ refl)

-- What begins otherwise than the first three bytes of a marker is not that marker.
take-ne :
    (a b c : ℕ) (m view : Bytes)
    → str_eq (take 3 view) (a ∷ b ∷ c ∷ []) ≡ false
    → str_eq (take (length (a ∷ b ∷ c ∷ m)) view) (a ∷ b ∷ c ∷ m) ≡ false
unfolding str_eq
take-ne a b c m [] h = refl
take-ne a b c m (x ∷ []) h = ground arith
take-ne a b c m (x ∷ y ∷ []) h = ground arith
take-ne a b c m (x ∷ y ∷ z ∷ view) h = ground arith

-- A line that begins, behind blanks, neither with "***" nor with "@@".
abbrev pub IsText : Bytes → Type 0
IsText line =
    (str_eq (take 3 (trim_view line)) (codes "***") ≡ false)
    × (str_eq (take 2 (trim_view line)) (codes "@@") ≡ false)

-- Markers that begin with "***".
abbrev AllStars : List Marker → Type 0
AllStars [] = Unit
AllStars (m ∷ ms) = ((t : Bytes) × (m.marker ≡ b'*' ∷ b'*' ∷ b'*' ∷ t)) × AllStars ms

markers-AllStars : AllStars markers
markers-AllStars = (
  (codes " Add File: ", refl),
  (
    (codes " Update File: ", refl),
    (
      (codes " Delete File: ", refl),
      (
        (codes " Move to: ", refl),
        (
          (codes " Environment ID: ", refl),
          (
            (codes " Begin Patch", refl),
            ((codes " End Patch", refl), ((codes " End of File", refl), tt)),
          ),
        ),
      ),
    ),
  ),
)

find_marker-text :
    (line view : Bytes) (ms : List Marker)
    → AllStars ms
    → str_eq (take 3 view) (codes "***") ≡ false
    → find_marker ms line view ≡ (header_none, [])
find_marker-text line view [] all h = unfold find_marker in refl
find_marker-text line view (m ∷ ms) ((t, e), all) h =
    find_marker_miss line view m ms (
      subst (λ x. str_eq (take (length x) view) x ≡ false) (sym e)
        (take-ne b'*' b'*' b'*' t view h))
    ∙ find_marker-text line view ms all h

pub header_kind-text :
    (line : Bytes)
    → str_eq (take 3 (trim_view line)) (codes "***") ≡ false
    → header_kind line ≡ (header_none, [])
unfolding header_kind
header_kind-text line h = find_marker-text line (trim_view line) markers markers-AllStars h

take2-ne :
    (view : Bytes) (n : ℕ) (m : Bytes)
    → str_eq (take 2 view) (codes "@@") ≡ false
    → str_eq (take (suc (suc n)) view) (b'@' ∷ b'@' ∷ m) ≡ false
unfolding str_eq
take2-ne [] n m h = refl
take2-ne (x ∷ []) n m h = ground arith
take2-ne (x ∷ y ∷ view) n m h = ground arith

bare-ne :
    (view : Bytes) → str_eq (take 2 view) (codes "@@") ≡ false → str_eq view (codes "@@") ≡ false
unfolding str_eq
bare-ne [] h = refl
bare-ne (x ∷ []) h = ground arith
bare-ne (x ∷ y ∷ []) h = h
bare-ne (x ∷ y ∷ z ∷ view) h = ground arith

-- Such a line neither starts a chunk, nor ends an update or a file.
pub IsText-is_bare_chunk : (line : Bytes) → IsText line → is_bare_chunk line ≡ false
unfolding is_bare_chunk
IsText-is_bare_chunk line h = bare-ne (trim_view line) h.1

pub IsText-is_context_chunk : (line : Bytes) → IsText line → is_context_chunk line ≡ false
unfolding is_context_chunk
IsText-is_context_chunk line h =
    let no' = take2-ne (trim_view line) 1 (b' ' ∷ []) h.1 in ground arith

pub IsText-ends_update : (line : Bytes) → IsText line → ends_update line ≡ false
unfolding is_file_header is_end
IsText-ends_update line h = rw (header_kind-text line h.0)

pub IsText-is_eof : (line : Bytes) → IsText line → is_eof (header_kind line).0 ≡ false
unfolding is_eof
IsText-is_eof line h = rw (header_kind-text line h.0)

-- A line that begins with another byte.
pub IsText-cons :
    (c : ℕ) (t : Bytes)
    → is_blank c ≡ false
    → c == b'*' ≡ false
    → c == b'@' ≡ false
    → IsText (c ∷ t)
unfolding trim_view trim_left trim_right str_eq
IsText-cons c t blank star at = rw blank (go (trim_right t))
  where
    go :
        (x : Bytes)
        → (str_eq (take 3 (cons_unless (is_blank c) c x)) (codes "***") ≡ false)
          × (str_eq (take 2 (cons_unless (is_blank c) c x)) (codes "@@") ≡ false)
    go [] = ground arith
    go (d ∷ x) = ground arith
