-- ===== src/Http/Sse/Chunks.antt =====
-- src/http/sse.c: it does not matter how the stream is cut into chunks.
use multi_agent.Common.{
  ℕ, true, false, none, some, [], ◌∷◌, ◌++◌, append-nil, append_assoc, ◌≡◌, refl, ap, ◌∙◌, subst,
  inl, inr, arith, Bytes, ◌==◌, Bool-cases,
}
use multi_agent.Common.{ℤ, pos, negsuc}
use multi_agent.Http.Sse.{
  Parser, Callback, is_ok, dispatch, dispatch_data, set_field, handle_line, strip_cr, overwritten,
  process, feed, field_name, field_value,
}

-- Two runs agree: they return the same code, leave the same state but for the bytes that are
-- buffered, and, where they succeed, those too.
abbrev pub forget : Parser → Parser
forget p = record p { buf = [] }

pub record Agree (a b : Parser × ℤ) : Type 0 where
  pub code : a.1 ≡ b.1
  pub state : forget a.0 ≡ forget b.0
  pub ok_same : is_ok a.1 ≡ true → a.0 ≡ b.0

pub Agree-refl : (a : Parser × ℤ) → Agree a a
Agree-refl a = record { code = refl; state = refl; ok_same = λ h. refl }

pub Agree-trans : {a b c : Parser × ℤ} → Agree a b → Agree b c → Agree a c
Agree-trans x y = record {
  code = x.code ∙ y.code;
  state = x.state ∙ y.state;
  ok_same = λ h. x.ok_same h ∙ y.ok_same (subst (λ z. is_ok z ≡ true) x.code h);
}

-- Lines do not look at the buffer.
dispatch_data-buf :
    (cb : Callback) (p : Parser) (x payload : Bytes)
    → dispatch_data cb (record p { buf = x }) payload
      ≡ (record (dispatch_data cb p payload).0 { buf = x }, (dispatch_data cb p payload).1)
unfolding dispatch_data
dispatch_data-buf cb p x [] = refl
dispatch_data-buf none p x (c ∷ cs) = refl
dispatch_data-buf (some f) p x (c ∷ cs) = refl

set_field-buf :
    (p : Parser) (x field value : Bytes)
    → set_field (record p { buf = x }) field value ≡ record (set_field p field value) { buf = x }
unfolding set_field
set_field-buf p x field value = ground arith

handle_line-buf :
    (cb : Callback) (p : Parser) (x line : Bytes)
    → handle_line cb (record p { buf = x }) line
      ≡ (record (handle_line cb p line).0 { buf = x }, (handle_line cb p line).1)
unfolding handle_line
handle_line-buf cb p x [] = unfold dispatch in dispatch_data-buf cb p x p.payload
handle_line-buf cb p x (c ∷ cs) =
    ground (arith, set_field-buf p x (field_name (c ∷ cs)) (field_value (c ∷ cs)))

-- The line that the next newline ends, as it is handled.
abbrev pub handled : Callback → Parser → Bytes → Parser × ℤ
handled cb p line = handle_line cb p (strip_cr line)

module _ (cb : Callback) (p : Parser) (done line : Bytes) (c : ℕ) (rest : Bytes) where
  process-char :
      (c == b'\n') ≡ false
      → process cb p done line (c ∷ rest) ≡ process cb p done (line ++ (c ∷ [])) rest
  unfolding process
  process-char h = rw h

  pub process-line :
      (c == b'\n') ≡ true
      → is_ok (handled cb p line).1 ≡ true
      → process cb p done line (c ∷ rest)
        ≡ process cb (handled cb p line).0 (done ++ overwritten line) [] rest
  unfolding process
  process-line h k = rw (h, k)

  pub process-stop :
      (c == b'\n') ≡ true
      → is_ok (handled cb p line).1 ≡ false
      → process cb p done line (c ∷ rest) ≡ (
        record (handled cb p line).0 { buf = done ++ (overwritten line ++ rest) },
        (handled cb p line).1,
      )
  unfolding process
  process-stop h k = rw (h, k)

pub process-nil :
    (cb : Callback) (p : Parser) (done line : Bytes)
    → process cb p done line [] ≡ (record p { buf = line }, pos 0)
unfolding process
process-nil cb p done line = refl

-- A run that stops at a line: the bytes that it leaves behind are all that can differ.
pub Agree-stop :
    (p : Parser) (rc : ℤ) (x y : Bytes)
    → is_ok rc ≡ false
    → Agree (record p { buf = x }, rc) (record p { buf = y }, rc)
Agree-stop p rc x y h = record { code = refl; state = refl; ok_same = λ k. ground arith }

pub process-done :
    (cb : Callback) (p : Parser) (done done' line xs : Bytes)
    → Agree (process cb p done line xs) (process cb p done' line xs)
process-done cb p done done' line [] =
    rw (process-nil cb p done line, process-nil cb p done' line) (Agree-refl _)
process-done cb p done done' line (c ∷ rest) = elim (Bool-cases (c == b'\n')) [
  | inr e ↦
      rw (process-char cb p done line c rest e, process-char cb p done' line c rest e)
        (process-done cb p done done' (line ++ (c ∷ [])) rest)
  | inl e ↦ elim (Bool-cases (is_ok (handled cb p line).1)) [
    | inl k ↦
        rw (process-line cb p done line c rest e k, process-line cb p done' line c rest e k)
          (process-done cb (handled cb p line).0 (done ++ overwritten line)
            (done' ++ overwritten line) [] rest)
    | inr k ↦
        rw (process-stop cb p done line c rest e k, process-stop cb p done' line c rest e k)
          (Agree-stop (handled cb p line).0 (handled cb p line).1 _ _ k)
  ]
]

process-buf :
    (cb : Callback) (p : Parser) (x done line xs : Bytes)
    → process cb (record p { buf = x }) done line xs ≡ process cb p done line xs
unfolding process
process-buf cb p x done line [] = refl
process-buf cb p x done line (c ∷ rest) = rw (
  handle_line-buf cb p x (strip_cr line),
  process-buf cb (handled cb p line).0 x (done ++ overwritten line) [] rest,
  process-buf cb p x done (line ++ (c ∷ [])) rest,
)

-- A stream that begins with xs: after a run over xs that succeeds, the run goes on with what that
-- run has buffered.
process-append :
    (cb : Callback) (p : Parser) (done done' line xs ys : Bytes)
    → is_ok (process cb p done line xs).1 ≡ true
    → Agree
        (process cb p done line (xs ++ ys))
        (process cb (process cb p done line xs).0 done' (process cb p done line xs).0.buf ys)
process-append cb p done done' line [] ys h =
    rw (process-nil cb p done line, process-buf cb p line done' line ys)
      (process-done cb p done done' line ys)
process-append cb p done done' line (c ∷ rest) ys h = elim (Bool-cases (c == b'\n')) [
  | inr e ↦
      rw (process-char cb p done line c (rest ++ ys) e, process-char cb p done line c rest e)
        (process-append cb p done done' (line ++ (c ∷ [])) rest ys
          (rw (process-char cb p done line c rest e) at h))
  | inl e ↦ elim (Bool-cases (is_ok (handled cb p line).1)) [
    | inl k ↦
        rw (process-line cb p done line c (rest ++ ys) e k, process-line cb p done line c rest e k)
          (process-append cb (handled cb p line).0 (done ++ overwritten line) done' [] rest ys
            (rw (process-line cb p done line c rest e k) at h))
    | inr k ↦ absurd (ground (arith, process-stop cb p done line c rest e k))
  ]
]

-- A run that stops within xs has stopped for good.
process-append_stop :
    (cb : Callback) (p : Parser) (done line xs ys : Bytes)
    → is_ok (process cb p done line xs).1 ≡ false
    → Agree (process cb p done line (xs ++ ys)) (process cb p done line xs)
process-append_stop cb p done line [] ys h = absurd (ground (arith, process-nil cb p done line))
process-append_stop cb p done line (c ∷ rest) ys h = elim (Bool-cases (c == b'\n')) [
  | inr e ↦
      rw (process-char cb p done line c (rest ++ ys) e, process-char cb p done line c rest e)
        (process-append_stop cb p done (line ++ (c ∷ [])) rest ys
          (rw (process-char cb p done line c rest e) at h))
  | inl e ↦ elim (Bool-cases (is_ok (handled cb p line).1)) [
    | inl k ↦
        rw (process-line cb p done line c (rest ++ ys) e k, process-line cb p done line c rest e k)
          (process-append_stop cb (handled cb p line).0 (done ++ overwritten line) [] rest ys
            (rw (process-line cb p done line c rest e k) at h))
    | inr k ↦
        rw (process-stop cb p done line c (rest ++ ys) e k, process-stop cb p done line c rest e k)
          (Agree-stop (handled cb p line).0 (handled cb p line).1 _ _ k)
  ]
]

abbrev pub NoNewline : Bytes → Type 0
NoNewline [] = Unit
NoNewline (c ∷ cs) = ((c == b'\n') ≡ false) × NoNewline cs

NoNewline-concat :
    (w : Bytes) (c : ℕ) → NoNewline w → (c == b'\n') ≡ false → NoNewline (w ++ (c ∷ []))
NoNewline-concat [] c n h = (h, tt)
NoNewline-concat (x ∷ w) c n h = (n.0, NoNewline-concat w c n.1 h)

-- What a run that succeeds has buffered is the beginning of a line.
process-NoNewline :
    (cb : Callback) (p : Parser) (done line xs : Bytes)
    → NoNewline line
    → is_ok (process cb p done line xs).1 ≡ true
    → NoNewline (process cb p done line xs).0.buf
process-NoNewline cb p done line [] n h = rw (process-nil cb p done line) n
process-NoNewline cb p done line (c ∷ rest) n h = elim (Bool-cases (c == b'\n')) [
  | inr e ↦ rw (process-char cb p done line c rest e) (
      process-NoNewline cb p done (line ++ (c ∷ [])) rest (NoNewline-concat line c n e)
        (rw (process-char cb p done line c rest e) at h))
  | inl e ↦ elim (Bool-cases (is_ok (handled cb p line).1)) [
    | inl k ↦ rw (process-line cb p done line c rest e k) (
        process-NoNewline cb (handled cb p line).0 (done ++ overwritten line) [] rest tt
          (rw (process-line cb p done line c rest e k) at h))
    | inr k ↦ absurd (ground (arith, process-stop cb p done line c rest e k))
  ]
]

pub process-in_line :
    (cb : Callback) (p : Parser) (done line w ys : Bytes)
    → NoNewline w
    → process cb p done line (w ++ ys) ≡ process cb p done (line ++ w) ys
process-in_line cb p done line [] ys n = rw append-nil
process-in_line cb p done line (c ∷ w) ys n =
    process-char cb p done line c (w ++ ys) n.0
    ∙ process-in_line cb p done (line ++ (c ∷ [])) w ys n.1
    ∙ ap (λ l. process cb p done l ys) (append_assoc line (c ∷ []) w)

pub is_ok-eq : (rc : ℤ) → is_ok rc ≡ true → rc ≡ pos 0
is_ok-eq (pos n) h = ground arith
is_ok-eq (negsuc n) h = ground arith

Agree-ok : (a : Parser × ℤ) → is_ok a.1 ≡ true → Agree a (a.0, pos 0)
Agree-ok a h = record { code = is_ok-eq a.1 h; state = refl; ok_same = λ k. refl }

-- Two chunks that come one after the other have the effect of one chunk that joins them: the same
-- return code, the same events, fields and pending line. Where the first chunk stops on an error,
-- so does the joined one, with the same code and the same state but for the buffered bytes.
pub feed-append :
    (cb : Callback) (p : Parser) (xs ys : Bytes)
    → (is_ok (feed cb p xs).1 ≡ true → Agree (feed cb p (xs ++ ys)) (feed cb (feed cb p xs).0 ys))
      × (is_ok (feed cb p xs).1 ≡ false → Agree (feed cb p (xs ++ ys)) (feed cb p xs))
unfolding feed
feed-append cb p [] ys = (λ h. Agree-refl _, λ h. ground arith)
feed-append cb p (x ∷ xs) [] =
    (λ h. rw append-nil (Agree-ok _ h), λ h. rw append-nil (Agree-refl _))
feed-append cb p (x ∷ xs) (y ∷ ys) =
    let first = p.buf ++ (x ∷ xs) in
    let q = (process cb p [] [] first).0 in
    (
      λ h.
          rw
            (
              ← append_assoc p.buf (x ∷ xs) (y ∷ ys),
              process-in_line cb q [] [] q.buf (y ∷ ys) (process-NoNewline cb p [] [] first tt h),
            )
            (process-append cb p [] [] [] first (y ∷ ys) h),
      λ h.
          rw (← append_assoc p.buf (x ∷ xs) (y ∷ ys))
            (process-append_stop cb p [] [] first (y ∷ ys) h),
    )
