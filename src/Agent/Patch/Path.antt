-- ===== src/Agent/Patch/Path.antt =====
-- src/agent/patch.c and src/util/file.c: the paths that a patch may name.
use multi_agent.Common.{
  &&-true, ◌≡◌, ◌≢◌, sym, ap, ◌∙◌, Bool, true, false, not, ◌&&◌, ◌||◌, Option, none, some, List, [],
  ◌∷◌, ◌++◌, Bytes, codes, str_eq, if◌then◌else◌, ◌==◌, arith, Bool-cases, inl, inr, append_assoc,
  append-nil,
}

unfoldable pub path_is_absolute : Bytes → Bool
path_is_absolute [] = false
path_is_absolute (c ∷ cs) = c == b'/'

abbrev pub is_empty : Bytes → Bool
is_empty [] = true
is_empty (c ∷ cs) = false

abbrev pub allowed_part : Bytes → Bool
allowed_part part = not (is_empty part || str_eq part (codes ".") || str_eq part (codes ".."))

-- The loop over the parts: `part` is what it has passed of one. It ends where nothing follows a
-- slash.
unfoldable pub parts_valid : Bytes → Bytes → Bool
parts_valid part [] = is_empty part || allowed_part part
parts_valid part (c ∷ cs) =
    let next = parts_valid [] cs in
    let longer = parts_valid (part ++ (c ∷ [])) cs in
    if c == b'/' then allowed_part part && next else longer

unfoldable pub path_valid : Option Bytes → Bool
path_valid none = false
path_valid (some []) = false
path_valid (some (c ∷ cs)) = if path_is_absolute (c ∷ cs) then false else parts_valid [] (c ∷ cs)

-- How a file system reads a relative path: it walks from a directory, given by the names on the way
-- to it, along the parts between the slashes.
abbrev pub parts_from : Bytes → Bytes → List Bytes
parts_from part [] = part ∷ []
parts_from part (c ∷ cs) =
    let next = parts_from [] cs in
    let longer = parts_from (part ++ (c ∷ [])) cs in if c == b'/' then part ∷ next else longer

abbrev pub parent : List Bytes → List Bytes
parent [] = []
parent (d ∷ []) = []
parent (d ∷ e ∷ ds) = d ∷ parent (e ∷ ds)

abbrev pub walk : List Bytes → List Bytes → List Bytes
walk dir [] = dir
walk dir (p ∷ ps) =
    if is_empty p || str_eq p (codes ".")
    then walk dir ps
    else if str_eq p (codes "..")
    then walk (parent dir) ps
    else walk (dir ++ (p ∷ [])) ps

-- The parts that name something.
abbrev pub names : List Bytes → List Bytes
names [] = []
names (p ∷ ps) = if is_empty p then names ps else p ∷ names ps

||-true : (a b : Bool) → a ≡ false → (a || b) ≡ true → b ≡ true
||-true true b e h = cc
||-true false b e h = h

walk-allowed :
    (dir : List Bytes) (p : Bytes) (ps : List Bytes)
    → allowed_part p ≡ true
    → walk dir (p ∷ ps) ≡ walk (dir ++ (p ∷ [])) ps
walk-allowed dir p ps h = ground arith

names-allowed :
    (p : Bytes) (ps : List Bytes) → allowed_part p ≡ true → names (p ∷ ps) ≡ p ∷ names ps
names-allowed p ps h = ground arith

-- An empty part names nothing.
walk-empty :
    (dir : List Bytes) (p : Bytes) → is_empty p ≡ true → walk dir (p ∷ []) ≡ dir ++ names (p ∷ [])
walk-empty dir p h = rw h (sym (append-nil dir))

walk-cons :
    (dir : List Bytes) (p : Bytes) (ps : List Bytes)
    → allowed_part p ≡ true
    → walk (dir ++ (p ∷ [])) ps ≡ (dir ++ (p ∷ [])) ++ names ps
    → walk dir (p ∷ ps) ≡ dir ++ names (p ∷ ps)
walk-cons dir p ps h rest =
    walk-allowed dir p ps h
    ∙ rest
    ∙ append_assoc dir (p ∷ []) (names ps)
    ∙ ap (λ x. dir ++ x) (sym (names-allowed p ps h))

walk-parts :
    (dir : List Bytes) (part rest : Bytes)
    → parts_valid part rest ≡ true
    → walk dir (parts_from part rest) ≡ dir ++ names (parts_from part rest)
unfolding parts_valid
walk-parts dir part [] h = elim (Bool-cases (is_empty part)) [
  | inl empty ↦ walk-empty dir part empty
  | inr some' ↦
      walk-cons dir part [] (||-true (is_empty part) (allowed_part part) some' h)
        (sym (append-nil (dir ++ (part ∷ []))))
]
walk-parts dir part (c ∷ cs) h = elim (Bool-cases (c == b'/')) [
  | inr other ↦ rw other (walk-parts dir (part ++ (c ∷ [])) cs (rw other at h))
  | inl slash ↦
      let both = &&-true (allowed_part part) (parts_valid [] cs) (rw slash at h) in
      rw slash (
        walk-cons dir part (parts_from [] cs) both.0 (walk-parts (dir ++ (part ∷ [])) [] cs both.1))
]

-- a path that is accepted is relative and not empty, and a file system that walks along it from any
-- directory only goes down: it ends at the names of the path behind those of the directory.
pub path_valid-walk :
    (path : Bytes) (dir : List Bytes)
    → path_valid (some path) ≡ true
    → (path_is_absolute path ≡ false)
      × (path ≢ [])
      × (walk dir (parts_from [] path) ≡ dir ++ names (parts_from [] path))
unfolding path_valid
path_valid-walk [] dir h = cc
path_valid-walk (c ∷ cs) dir h = elim (Bool-cases (path_is_absolute (c ∷ cs))) [
  | inl abs ↦ cc (rw abs at h)
  | inr rel ↦ (rel, λ e. cc, walk-parts dir [] (c ∷ cs) (rw rel at h))
]
