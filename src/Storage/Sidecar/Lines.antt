-- ===== src/Storage/Sidecar/Lines.antt =====
-- What a pass over the sidecar hands over, whatever is done with it: the loop of `scan_from` against
-- the lines that the bytes split into.
use splitforge.Prelude.{
  ℕ, zero, suc, ◌+◌, ◌<◌, ◌≡◌, refl, List, [], ◌∷◌, ◌++◌, none, some, ◌==◌, if◌then◌else◌, Result,
  ok, length, drop, done, arith, Bool-cases, inl, inr, ◌⊎◌, Result-cases,
}
use splitforge.Prelude.Fallible.{◌>>=◌}
use splitforge.Storage.Record.{SidecarRead, SidecarApi}
use splitforge.Storage.Sidecar.{
  ScanTally, no_tally, Sidecar, next_line, split_at_byte, read_line, found_in, tally_of, hand_over,
  scan_line, scan_lines, scan_from,
}

abbrev pub add_byte : ℕ → List (List ℕ) × List ℕ → List (List ℕ) × List ℕ
add_byte c ([], tail) = ([], c ∷ tail)
add_byte c (line ∷ lines, tail) = ((c ∷ line) ∷ lines, tail)

-- The complete lines of a text, and what is behind the last line feed
unfoldable pub split_lines : List ℕ → List (List ℕ) × List ℕ
split_lines [] = ([], [])
split_lines (c ∷ bytes) =
    let rest = split_lines bytes in if c == 10 then ([] ∷ rest.0, rest.1) else add_byte c rest

split_lines-nil : split_lines [] ≡ ([], [])
unfolding split_lines
split_lines-nil = refl

-- The first line of a text is the first of its lines.
next_line_cases :
    (bytes : List ℕ)
    → ((next_line bytes ≡ none) × (split_lines bytes ≡ ([], bytes)))
      ⊎ ((line : List ℕ) × (rest : List ℕ) × (next_line bytes ≡ some (line, rest))
          × (split_lines bytes ≡ (line ∷ (split_lines rest).0, (split_lines rest).1))
          × (length rest < length bytes))
unfolding next_line split_at_byte split_lines
next_line_cases [] = inl (refl, refl)
next_line_cases (c ∷ bytes) = elim (Bool-cases (c == 10)) [
  | inl e ↦ inr ([], bytes, rw e, rw e, omega arith)
  | inr e ↦ elim (next_line_cases bytes) [
    | inl (n, s) ↦ inl (rw (e, n), rw (e, s))
    | inr (line, rest, n, s, l) ↦ inr (c ∷ line, rest, rw (e, n), rw (e, s), omega arith)
  ]
]

module _ (Api : SidecarApi) where
  abbrev pub found_of : List ℕ → List (SidecarRead Api.Instant)
  found_of [] = []
  found_of (c ∷ line) = found_in Api (read_line Api (c ∷ line))

  -- The reads of the lines that verify, in the order of the lines
  abbrev pub found_lines : List (List ℕ) → List (SidecarRead Api.Instant)
  found_lines [] = []
  found_lines (line ∷ lines) = found_of line ++ found_lines lines

  -- The reads of a file
  abbrev pub recovered : List ℕ → List (SidecarRead Api.Instant)
  recovered bytes = found_lines (split_lines bytes).0

  abbrev pub tally_line : List ℕ → ℕ → ScanTally → ScanTally
  tally_line [] position tally = tally
  tally_line (c ∷ line) position tally =
      tally_of Api (read_line Api (c ∷ line)) (c ∷ line) position tally

  abbrev pub tally_lines : ℕ → ScanTally → List (List ℕ) → ScanTally
  tally_lines position tally [] = tally
  tally_lines position tally (line ∷ lines) =
      let after = position + suc (length line) in
      tally_lines after (tally_line line after tally) lines

  abbrev pub tally_tail : List ℕ → ScanTally → ScanTally
  tally_tail [] tally = tally
  tally_tail (b ∷ tail) tally = record tally { torn_tail_bytes = suc (length tail) }

  -- The tally of a pass over some bytes, which stand at a position
  abbrev pub tally_bytes : ℕ → ScanTally → List ℕ → ScanTally
  tally_bytes position tally bytes =
      tally_tail (split_lines bytes).1 (tally_lines position tally (split_lines bytes).0)

  module _ {S E : Type 0} (each : S → SidecarRead Api.Instant → Result S E) where
    pub hand_over-append :
        (xs ys : List (SidecarRead Api.Instant)) (s : S)
        → hand_over Api each s (xs ++ ys)
          ≡ (hand_over Api each s xs >>= λ t. hand_over Api each t ys)
    hand_over-append [] ys s = refl
    hand_over-append (x ∷ xs) ys s = elim (Result-cases (each s x)) [
      | inl (t, q) ↦ rw q (hand_over-append xs ys t)
      | inr (e, q) ↦ rw q
    ]

    scan_line_lem :
        (line : List ℕ) (position : ℕ) (tally : ScanTally) (s : S)
        → scan_line Api each line position (tally, s)
          ≡ (hand_over Api each s (found_of line) >>= λ t. ok (tally_line line position tally, t))
    unfolding scan_line
    scan_line_lem [] position tally s = refl
    scan_line_lem (c ∷ line) position tally s = refl

    scan_lines_lem :
        (fuel : ℕ) (bytes : List ℕ) (position : ℕ) (tally : ScanTally) (s : S)
        → length bytes < fuel
        → scan_lines Api each fuel bytes position (tally, s)
          ≡ done (
              hand_over Api each s (recovered bytes) >>= λ t.
              ok (tally_bytes position tally bytes, t))
    unfolding scan_lines
    scan_lines_lem zero bytes position tally s h = absurd (omega arith)
    scan_lines_lem (suc fuel) [] position tally s h = rw split_lines-nil
    scan_lines_lem (suc fuel) (b ∷ bytes) position tally s h = elim (next_line_cases (b ∷ bytes)) [
      | inl (n, q) ↦ rw (scan_lines, n, q)
      | inr (line, rest, n, q, l) ↦
          let after = position + suc (length line) in
          elim (Result-cases (hand_over Api each s (found_of line))) [
            | inl (t, k) ↦
                rw
                  (
                    scan_lines,
                    n,
                    q,
                    scan_line_lem line after tally s,
                    hand_over-append (found_of line) (recovered rest) s,
                    k,
                  )
                  (scan_lines_lem fuel rest after (tally_line line after tally) t (omega arith))
            | inr (e, k) ↦ rw (
              scan_lines,
              n,
              q,
              scan_line_lem line after tally s,
              hand_over-append (found_of line) (recovered rest) s,
              k,
            )
          ]
    ]

    -- A pass over the sidecar from any offset ends: it is never stuck. It hands over the reads of the
    -- lines behind the offset that verify, in their order, until handing one over fails. If none
    -- fails, its tally is that of the lines and of the bytes behind the last line feed.
    pub scan_from-recovered :
        (sidecar : Sidecar) (offset : ℕ) (s : S)
        → scan_from Api each sidecar offset s
          ≡ done (
              hand_over Api each s (recovered (drop offset sidecar.file)) >>= λ t.
              ok (tally_bytes offset no_tally (drop offset sidecar.file), t))
    unfolding scan_from
    scan_from-recovered sidecar offset s =
        scan_lines_lem _ (drop offset sidecar.file) offset no_tally s (omega arith)
