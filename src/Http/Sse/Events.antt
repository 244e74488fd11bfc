-- ===== src/Http/Sse/Events.antt =====
-- src/http/sse.c: what is delivered of an event that is written in the usual form.
use multi_agent.Common.{
  true, false, none, some, List, [], ◌∷◌, ◌++◌, append-nil, append_assoc, ◌≡◌, refl, sym, ap, ap₂,
  ◌∙◌, subst, inl, inr, Bytes, codes, str_eq, ◌==◌, Bool-cases,
}
use multi_agent.Common.{ℤ, pos}
use multi_agent.Http.Sse.{
  Event, Parser, Callback, is_ok, dispatch, dispatch_data, call, handle_line, strip_cr, overwritten,
  process, feed, chop_newline, c_string, or_message, reset_event,
}
use multi_agent.Http.Sse.Chunks.{
  Agree, Agree-trans, Agree-stop, process-done, process-line, process-stop, process-nil,
  process-in_line, NoNewline, handled, is_ok-eq,
}

-- Text with no newline, no carriage return and no NUL in it.
abbrev pub CleanText : Bytes → Type 0
CleanText [] = Unit
CleanText (c ∷ cs) =
    ((c == b'\n') ≡ false) × ((c == b'\r') ≡ false) × ((c == 0) ≡ false) × CleanText cs

abbrev pub AllClean : List Bytes → Type 0
AllClean [] = Unit
AllClean (l ∷ ls) = CleanText l × AllClean ls

abbrev pub join_lines : List Bytes → Bytes
join_lines [] = []
join_lines (l ∷ []) = l
join_lines (l ∷ k ∷ ls) = l ++ (b'\n' ∷ join_lines (k ∷ ls))

-- The lines of an event, each with its newline; behind them stands an empty line.
abbrev pub data_text : List Bytes → Bytes
data_text [] = b'\n' ∷ []
data_text (l ∷ ls) = codes "data: " ++ (l ++ (b'\n' ∷ data_text ls))

abbrev pub event_text : Bytes → List Bytes → Bytes
event_text name lines = codes "event: " ++ (name ++ (b'\n' ∷ data_text lines))

CleanText-NoNewline : (w : Bytes) → CleanText w → NoNewline w
CleanText-NoNewline [] h = tt
CleanText-NoNewline (c ∷ cs) h = (h.0, CleanText-NoNewline cs h.3)

strip_cr-CleanText : (w : Bytes) → CleanText w → strip_cr w ≡ w
unfolding strip_cr
strip_cr-CleanText [] h = refl
strip_cr-CleanText (c ∷ []) h = rw h.1
strip_cr-CleanText (c ∷ d ∷ cs) h = ap (◌∷◌ c) (strip_cr-CleanText (d ∷ cs) h.3)

c_string-CleanText : (w : Bytes) → CleanText w → c_string w ≡ w
unfolding c_string
c_string-CleanText [] h = refl
c_string-CleanText (c ∷ cs) h = rw h.2 (ap (◌∷◌ c) (c_string-CleanText cs h.3))

-- A clean line that is handled with success.
process_clean :
    (cb : Callback) (p : Parser) (done done' w rest : Bytes)
    → CleanText w
    → is_ok (handle_line cb p w).1 ≡ true
    → Agree
        (process cb p done [] (w ++ (b'\n' ∷ rest)))
        (process cb (handle_line cb p w).0 done' [] rest)
process_clean cb p done done' w rest c h =
    rw
      (
        process-in_line cb p done [] w (b'\n' ∷ rest) (CleanText-NoNewline w c),
        process-line cb p done w b'\n' rest refl (rw (strip_cr-CleanText w c) h),
        strip_cr-CleanText w c,
      )
      (process-done cb (handle_line cb p w).0 (done ++ overwritten w) done' [] rest)

handle-data :
    (cb : Callback) (p : Parser) (l : Bytes)
    → handle_line cb p (codes "data: " ++ l)
      ≡ (record p { payload = p.payload ++ (l ++ (b'\n' ∷ [])) }, pos 0)
unfolding handle_line str_eq
handle-data cb p l = refl

handle-event :
    (cb : Callback) (p : Parser) (l : Bytes)
    → handle_line cb p (codes "event: " ++ l) ≡ (record p { event = l }, pos 0)
unfolding handle_line str_eq
handle-event cb p l = refl

-- The end of an event: the empty line.
abbrev finish : Callback → Parser → Parser × ℤ
finish cb p = (record (dispatch cb p).0 { buf = [] }, (dispatch cb p).1)

process-finish :
    (cb : Callback) (p : Parser) (done : Bytes)
    → Agree (process cb p done [] (b'\n' ∷ [])) (finish cb p)
unfolding dispatch handle_line strip_cr
process-finish cb p done = elim (Bool-cases (is_ok (handled cb p []).1)) [
  | inl k ↦
      rw (process-line cb p done [] b'\n' [] refl k, process-nil)
        (record { code = sym (is_ok-eq _ k); state = refl; ok_same = λ h. refl })
  | inr k ↦
      rw (process-stop cb p done [] b'\n' [] refl k)
        (Agree-stop (handled cb p []).0 (handled cb p []).1 (done ++ (overwritten [] ++ [])) [] k)
]

abbrev terminated : List Bytes → Bytes
terminated [] = []
terminated (l ∷ ls) = l ++ (b'\n' ∷ terminated ls)

clean_data : (l : Bytes) → CleanText l → CleanText (codes "data: " ++ l)
clean_data l c = (
  refl,
  refl,
  refl,
  (
    refl,
    refl,
    refl,
    (refl, refl, refl, (refl, refl, refl, (refl, refl, refl, (refl, refl, refl, c)))),
  ),
)

clean_event : (l : Bytes) → CleanText l → CleanText (codes "event: " ++ l)
clean_event l c = (refl, refl, refl, (refl, refl, refl, clean_ent l c))
  where
    clean_ent : (l : Bytes) → CleanText l → CleanText (codes "ent: " ++ l)
    clean_ent l c = (
      refl,
      refl,
      refl,
      (refl, refl, refl, (refl, refl, refl, (refl, refl, refl, (refl, refl, refl, c)))),
    )

process_data :
    (cb : Callback) (p : Parser) (done : Bytes) (lines : List Bytes)
    → AllClean lines
    → Agree
        (process cb p done [] (data_text lines))
        (finish cb (record p { payload = p.payload ++ terminated lines }))
process_data cb p done [] c = rw append-nil (process-finish cb p done)
process_data cb p done (l ∷ ls) c =
    let w = codes "data: " ++ l in
    let p' = record p { payload = p.payload ++ (l ++ (b'\n' ∷ [])) } in
    Agree-trans
      (process_clean cb p done [] w (data_text ls) (clean_data l c.0) (rw handle-data refl))
      (rw handle-data (
        subst
          (λ t. Agree (process cb p' [] [] (data_text ls)) (finish cb (record p { payload = t })))
          (append_assoc p.payload (l ++ (b'\n' ∷ [])) (terminated ls)
            ∙ ap (λ t. p.payload ++ t) (append_assoc l (b'\n' ∷ []) (terminated ls)))
          (process_data cb p' [] ls c.1)))

terminated-join_lines :
    (l : Bytes) (ls : List Bytes) → terminated (l ∷ ls) ≡ join_lines (l ∷ ls) ++ (b'\n' ∷ [])
terminated-join_lines l [] = refl
terminated-join_lines l (k ∷ ls) =
    rw (terminated-join_lines k ls)
      (sym (append_assoc l (b'\n' ∷ join_lines (k ∷ ls)) (b'\n' ∷ [])))

chop_newline-concat : (xs : Bytes) → chop_newline (xs ++ (b'\n' ∷ [])) ≡ xs
unfolding chop_newline
chop_newline-concat [] = refl
chop_newline-concat (x ∷ []) = refl
chop_newline-concat (x ∷ y ∷ xs) = ap (◌∷◌ x) (chop_newline-concat (y ∷ xs))

-- What a callback is given, and the state that its call leaves.
abbrev pub delivery : Callback → Parser → Bytes → Bytes → Parser × ℤ
delivery cb p name text =
    let e : Event = record { name = name; text = text } in
    (record (reset_event (call cb p e).0) { buf = [] }, (call cb p e).1)

dispatch_data-concat :
    (cb : Callback) (p : Parser) (xs : Bytes)
    → (
      record (dispatch_data cb p (xs ++ (b'\n' ∷ []))).0 { buf = [] },
      (dispatch_data cb p (xs ++ (b'\n' ∷ []))).1,
    )
      ≡ delivery cb p (c_string (or_message p.event)) (c_string xs)
unfolding dispatch_data
dispatch_data-concat cb p [] = refl
dispatch_data-concat cb p (x ∷ xs) =
    ap (λ t. delivery cb p (c_string (or_message p.event)) (c_string t))
      (chop_newline-concat (x ∷ xs))

c_string-append : (w t : Bytes) → CleanText w → c_string (w ++ t) ≡ w ++ c_string t
unfolding c_string
c_string-append [] t h = refl
c_string-append (c ∷ cs) t h = rw h.2 (ap (◌∷◌ c) (c_string-append cs t h.3))

c_string-newline : (t : Bytes) → c_string (b'\n' ∷ t) ≡ b'\n' ∷ c_string t
unfolding c_string
c_string-newline t = refl

join_lines-CleanText : (ls : List Bytes) → AllClean ls → c_string (join_lines ls) ≡ join_lines ls
join_lines-CleanText [] c = unfold c_string in refl
join_lines-CleanText (l ∷ []) c = c_string-CleanText l c.0
join_lines-CleanText (l ∷ k ∷ ls) c =
    rw
      (
        c_string-append l (b'\n' ∷ join_lines (k ∷ ls)) c.0,
        c_string-newline,
        join_lines-CleanText (k ∷ ls) c.1,
      )
      refl

finish-concat :
    (cb : Callback) (p : Parser) (xs : Bytes)
    → finish cb (record p { payload = xs ++ (b'\n' ∷ []) })
      ≡ delivery cb p (c_string (or_message p.event)) (c_string xs)
unfolding dispatch
finish-concat cb p xs =
    dispatch_data-concat cb (record p { payload = xs ++ (b'\n' ∷ []) }) xs
    ∙ delivery-payload cb p (xs ++ (b'\n' ∷ [])) (c_string (or_message p.event)) (c_string xs)
  where
    delivery-payload :
        (cb : Callback) (p : Parser) (d name text : Bytes)
        → delivery cb (record p { payload = d }) name text ≡ delivery cb p name text
    delivery-payload none p d name text = unfold call in refl
    delivery-payload (some f) p d name text = unfold call in refl

delivery-fields :
    (cb : Callback) (p : Parser) (event name text : Bytes)
    → delivery cb (record p { event = event }) name text ≡ delivery cb p name text
unfolding call
delivery-fields none p event name text = refl
delivery-fields (some f) p event name text = refl

c_string-or_message : (name : Bytes) → CleanText name → c_string (or_message name) ≡ or_message name
c_string-or_message [] c = unfold c_string in refl
c_string-or_message (x ∷ xs) c = c_string-CleanText (x ∷ xs) c

-- An event with a name and one or more lines of data, fed to a parser that waits for one: the
-- callback is called once, with the name, or "message" if that is empty, and the lines joined by
-- newlines; then the parser waits for the next event. The return code is the callback's.
pub feed_event :
    (cb : Callback) (p : Parser) (name line : Bytes) (lines : List Bytes)
    → p.buf ≡ []
    → p.payload ≡ []
    → CleanText name
    → AllClean (line ∷ lines)
    → Agree
        (feed cb p (event_text name (line ∷ lines)))
        (delivery cb p (or_message name) (join_lines (line ∷ lines)))
feed_event cb p name line lines empty none_yet c cs = rw feed_line (
    Agree-trans
      (process_clean cb p [] [] (codes "event: " ++ name) (data_text (line ∷ lines))
        (clean_event name c) (rw handle-event refl))
      (rw handle-event (
        subst (λ r. Agree (process cb p' [] [] (data_text (line ∷ lines))) r) finished
          (process_data cb p' [] (line ∷ lines) cs))))
  where
    p' : Parser
    p' = record p { event = name }

    feed_line :
        feed cb p (event_text name (line ∷ lines))
        ≡ process cb p [] [] (event_text name (line ∷ lines))
    feed_line =
        unfold feed in ap (λ b. process cb p [] [] (b ++ event_text name (line ∷ lines))) empty

    finished :
        finish cb (record p' { payload = p'.payload ++ terminated (line ∷ lines) })
        ≡ delivery cb p (or_message name) (join_lines (line ∷ lines))
    finished =
        ap (λ t. finish cb (record p' { payload = t }))
          (ap (λ t. t ++ terminated (line ∷ lines)) none_yet ∙ terminated-join_lines line lines)
        ∙ finish-concat cb p' (join_lines (line ∷ lines))
        ∙ ap₂ (delivery cb p') (c_string-or_message name c) (join_lines-CleanText (line ∷ lines) cs)
        ∙ delivery-fields cb p name (or_message name) (join_lines (line ∷ lines))
