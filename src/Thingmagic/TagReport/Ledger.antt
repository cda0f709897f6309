-- ===== src/Thingmagic/TagReport/Ledger.antt =====
-- What the decoder of crates/splitforge-thingmagic/src/tag_report.rs counts over many frames.
use splitforge.Prelude.{
  ℕ, ◌+◌, ◌-◌, ◌≤◌, ◌^◌, ◌<◌, Bool, true, false, List, [], ◌∷◌, ◌++◌, append-nil, append_assoc,
  none, some, length, length-append, ◌≡◌, refl, ap, sym, ◌∙◌, arith, done, ok, err, Result, Run,
  ◌>>=◌, if◌then◌else◌, inl, inr, ◌⊎◌,
}
use splitforge.Thingmagic.Frame.{Response}
use splitforge.Thingmagic.TagReport.Bounded.{ReportError, Attempt, give, fail, Cursor, new_cursor}
use splitforge.Thingmagic.TagReport.{
  walk_fields, Metadata, read_tag, walk_tag, finish_read, StreamResponse, tag, status,
  end_of_stream, end_of_cycle, StreamDecoder, one_more, record_outcome, outcome_of, classify,
  decode_report,
}
use splitforge.Thingmagic.TagReport.Walk.{
  Finishes, bind-Finishes, u8-Finishes, u16-Finishes, u24-Finishes, u32-Finishes,
  bit_counted-Finishes, when_set-Finishes,
}
use splitforge.Reader.{ReaderMessage}

walk_fields-Finishes : (flags : ℕ) (c : Cursor) → Finishes (walk_fields flags c)
unfolding walk_fields
walk_fields-Finishes flags c =
    bind-Finishes _ _ (when_set-Finishes _ _ c (u8-Finishes _)) λ (read_count, c1).
      bind-Finishes _ _ (when_set-Finishes _ _ c1 (u8-Finishes _)) λ (rssi, c2).
        bind-Finishes _ _ (when_set-Finishes _ _ c2 (u8-Finishes _)) λ (antenna, c3).
          bind-Finishes _ _ (when_set-Finishes _ _ c3 (u24-Finishes _)) λ (frequency, c4).
            bind-Finishes _ _ (when_set-Finishes _ _ c4 (u32-Finishes _)) λ (timestamp, c5).
              bind-Finishes _ _ (when_set-Finishes _ _ c5 (u16-Finishes _)) λ (phase, c6).
                bind-Finishes _ _ (when_set-Finishes _ _ c6 (u8-Finishes _)) λ (protocol, c7).
                  bind-Finishes _ _ (when_set-Finishes _ _ c7 (bit_counted-Finishes _))
                    λ (embedded, c8).
                      bind-Finishes _ _ (when_set-Finishes _ _ c8 (u8-Finishes _))
                        λ (gpio, c9). (_, refl)

if-Finishes :
    {A : Type 0} (b : Bool) (x y : Attempt A)
    → Finishes x
    → Finishes y
    → Finishes (if b then x else y)
if-Finishes true x y h k = h
if-Finishes false x y h k = k

finish_read-Finishes :
    {I : Type 0} (reader_id payload : List ℕ) (meta : Metadata) (epc : List ℕ) (c : Cursor)
    → Finishes (finish_read {I = I} reader_id payload meta epc c)
unfolding finish_read
finish_read-Finishes reader_id payload meta epc c = if-Finishes _ _ _ (_, refl) (_, refl)

walk_tag-Finishes :
    {I : Type 0} (reader_id payload : List ℕ) (flags : ℕ)
    → Finishes (walk_tag {I = I} reader_id payload flags)
unfolding walk_tag
walk_tag-Finishes reader_id payload flags =
    bind-Finishes _ _ (walk_fields-Finishes flags (new_cursor payload 6)) λ (meta, c).
      bind-Finishes _ _ (bit_counted-Finishes _ c)
        λ (epc, after). finish_read-Finishes reader_id payload meta epc after

-- No payload makes the walk over a tag panic.
read_tag-Finishes :
    {I : Type 0} (reader_id payload : List ℕ) → Finishes (read_tag {I = I} reader_id payload)
unfolding read_tag
read_tag-Finishes reader_id payload =
    bind-Finishes _ _ (u16-Finishes _ (new_cursor payload 3))
      λ (flags, c). if-Finishes _ _ _ (_, refl) (walk_tag-Finishes reader_id payload flags)

-- Every frame was a read, an error or heard, and only what is heard ends a cycle.
abbrev pub IsBalanced : StreamDecoder → Type 0
IsBalanced d = (d.frames ≡ d.reads + d.errors + d.heard) × (d.cycles ≤ d.heard)

module _ {I : Type 0} where
  -- What some frames do to a decoder and to what it has read.
  abbrev pub Counts :
      ℕ
      → StreamDecoder
      → List (ReaderMessage I)
      → Run (StreamDecoder × List (ReaderMessage I))
      → Type 0
  Counts frames d out m =
      (after : StreamDecoder) × (new : List (ReaderMessage I)) × (m ≡ done (after, out ++ new))
      × (after.frames ≡ d.frames + frames)
      × (after.reads ≡ d.reads + length new)
      × (length new ≤ frames)
      × IsBalanced after

  -- An error, a read and what is only heard.
  error-Counts :
      (d : StreamDecoder) (e : ReportError) (out : List (ReaderMessage I))
      → d.frames < 2 ^ 64 - 1
      → IsBalanced d
      → Counts 1 d out (record_outcome (record d { frames = one_more d.frames }) (fail e) out)
  error-Counts d e out h b = (
    record d { frames = one_more d.frames; errors = one_more d.errors; reported = true },
    [],
    ap (λ (o : List (ReaderMessage I)). done (_, o)) (sym (append-nil out)),
    omega (arith, b.0),
    omega arith,
    omega arith,
    (omega (arith, b.0), omega (arith, b.1)),
  )

  read-Counts :
      (d : StreamDecoder) (message : ReaderMessage I) (out : List (ReaderMessage I))
      → d.frames < 2 ^ 64 - 1
      → IsBalanced d
      → Counts 1 d out
          (record_outcome (record d { frames = one_more d.frames }) (give (some message)) out)
  read-Counts d message out h b = (
    record d { frames = one_more d.frames; reads = one_more d.reads },
    message ∷ [],
    refl,
    omega (arith, b.0),
    omega (arith, b.0),
    omega arith,
    (omega (arith, b.0), omega (arith, b.1)),
  )

  heard-Counts :
      (d : StreamDecoder) (cycles : ℕ) (out : List (ReaderMessage I))
      → cycles ≤ d.cycles + 1
      → d.frames < 2 ^ 64 - 1
      → IsBalanced d
      → Counts 1 d out (
          record_outcome
            (record d { frames = one_more d.frames; cycles = cycles; heard = one_more d.heard })
            (give none)
            out)
  heard-Counts d cycles out c h b = (
    record d { frames = one_more d.frames; cycles = cycles; heard = one_more d.heard },
    [],
    ap (λ (o : List (ReaderMessage I)). done (_, o)) (sym (append-nil out)),
    omega (arith, b.0),
    omega arith,
    omega arith,
    (omega (arith, b.0), omega (arith, b.0, b.1)),
  )

  -- A frame of which it is known what it is.
  abbrev decoded_as :
      StreamDecoder
      → Result StreamResponse ReportError
      → List ℕ
      → List (ReaderMessage I)
      → Run (StreamDecoder × List (ReaderMessage I))
  decoded_as d kind payload out =
      let (after, outcome) = outcome_of (record d { frames = one_more d.frames }) kind payload in
      record_outcome after outcome out

  outcome_cases :
      (result : Result (ReaderMessage I) ReportError)
      → ((message : ReaderMessage I) × (result ≡ ok message))
        ⊎ ((e : ReportError) × (result ≡ err e))
  outcome_cases (ok message) = inl (message, refl)
  outcome_cases (err e) = inr (e, refl)

  tag-Counts :
      (d : StreamDecoder) (payload : List ℕ) (out : List (ReaderMessage I))
      → d.frames < 2 ^ 64 - 1
      → IsBalanced d
      → Counts 1 d out (decoded_as d (ok tag) payload out)
  tag-Counts d payload out h b =
      let (result, q) = read_tag-Finishes d.reader_id payload in
      elim (outcome_cases result) [
        | inl (message, e) ↦ rw (q, e) (read-Counts d message out h b)
        | inr (e, f) ↦ rw (q, f) (error-Counts d e out h b)
      ]

  frame-Counts :
      (d : StreamDecoder) (kind : Result StreamResponse ReportError) (payload : List ℕ)
      (out : List (ReaderMessage I))
      → d.frames < 2 ^ 64 - 1
      → IsBalanced d
      → Counts 1 d out (decoded_as d kind payload out)
  frame-Counts d (err e) payload out h b = error-Counts d e out h b
  frame-Counts d (ok tag) payload out h b = tag-Counts d payload out h b
  frame-Counts d (ok status) payload out h b = heard-Counts d d.cycles out (omega arith) h b
  frame-Counts d (ok end_of_stream) payload out h b = heard-Counts d d.cycles out (omega arith) h b
  frame-Counts d (ok end_of_cycle) payload out h b =
      heard-Counts d (one_more d.cycles) out (omega arith) h b

  decode_report-Counts :
      (d : StreamDecoder) (r : Response) (out : List (ReaderMessage I))
      → d.frames < 2 ^ 64 - 1
      → IsBalanced d
      → Counts 1 d out (decode_report d r out)
  unfolding decode_report
  decode_report-Counts d r out h b = frame-Counts d (classify r) r.payload out h b

  -- The frames of a session, one after the other.
  unfoldable pub decode_all :
      StreamDecoder
      → List Response
      → List (ReaderMessage I)
      → Run (StreamDecoder × List (ReaderMessage I))
  decode_all d [] out = done (d, out)
  decode_all d (r ∷ rs) out = do (after, more) ← decode_report d r out; decode_all after rs more

  -- From balanced counts, and while fewer than 2 ^ 64 frames are counted, no frames make the decoder
  -- panic: each is counted once, as a read, as an error or as heard, ends of cycles are among what is
  -- heard, and as many messages are added behind the others as reads are counted.
  pub decode_all-Counts :
      (d : StreamDecoder) (rs : List Response) (out : List (ReaderMessage I))
      → d.frames + length rs < 2 ^ 64
      → IsBalanced d
      → Counts (length rs) d out (decode_all d rs out)
  unfolding decode_all
  decode_all-Counts d [] out h b = (
    d,
    [],
    ap (λ (o : List (ReaderMessage I)). done (d, o)) (sym (append-nil out)),
    omega arith,
    omega arith,
    omega arith,
    b,
  )
  decode_all-Counts d (r ∷ rs) out h b =
      let (d1, new, q, f, n, l, b1) = decode_report-Counts d r out (omega arith) b in
      let (d2, more, q2, f2, n2, l2, b2) = decode_all-Counts d1 rs (out ++ new) (omega arith) b1 in
      (
        d2,
        new ++ more,
        (rw q) ∙ q2 ∙ ap (λ (o : List (ReaderMessage I)). done (d2, o)) (append_assoc out new more),
        omega arith,
        omega (arith, length-append new more),
        omega (arith, length-append new more),
        b2,
      )
