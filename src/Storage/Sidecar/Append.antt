-- ===== src/Storage/Sidecar/Append.antt =====
-- What an append to the sidecar leaves there, behind whatever an interrupted one left.
use splitforge.Prelude.{
  ℕ, ◌<◌, ◌≡◌, refl, ap, sym, ◌∙◌, true, List, [], ◌∷◌, ◌++◌, map, ok, take, inl, inr, append_assoc,
  append-nil, Result-cases, All, All-append_intro,
}
use splitforge.Domain.Event.{RawRead}
use splitforge.Storage.Record.{
  SidecarRead, SidecarApi, SidecarRecord, into_read, hex_lower, storable, fits_micros,
}
use splitforge.Storage.Record.RoundTrip.{in_micros, record_of-into_read}
use splitforge.Storage.Sidecar.{
  Sidecar, Disk, synced, cut, write_buffer, encode_line, encode_lines, append_records,
}
use splitforge.Storage.Sidecar.Lines.{split_lines, found_of, found_lines, recovered}
use splitforge.Storage.Sidecar.Split.{
  IsOther10, split_lines-append, split_lines-line, split_lines-All,
}
use splitforge.Storage.Sidecar.Written.{line_of, Reveals, found_of-append, line_of-All}

module _ (Api : SidecarApi) where
  found_lines-append :
      (xs ys : List (List ℕ))
      → found_lines Api (xs ++ ys) ≡ found_lines Api xs ++ found_lines Api ys
  found_lines-append [] ys = refl
  found_lines-append (x ∷ xs) ys =
      ap (λ (rest : List (SidecarRead Api.Instant)). found_of Api x ++ rest)
        (found_lines-append xs ys)
      ∙ sym (append_assoc (found_of Api x) (found_lines Api xs) (found_lines Api ys))

  -- What is written behind a file takes none of its reads away, wherever the write is cut off.
  pub recovered-append :
      (xs ys : List ℕ)
      → recovered Api (xs ++ ys) ≡ recovered Api xs ++ recovered Api ((split_lines xs).1 ++ ys)
  recovered-append xs ys =
      rw (split_lines-append xs ys)
        (found_lines-append (split_lines xs).0 (split_lines ((split_lines xs).1 ++ ys)).0)

  -- A read that the sidecar can write, of bytes
  abbrev pub IsWritable : RawRead Api.Instant × Api.Instant → Type 0
  IsWritable (read, recorded_at) =
      (storable Api read ≡ ok tt)
      × (fits_micros Api recorded_at ≡ true)
      × All (λ b. b < 256) read.raw_payload

  abbrev pub kept : RawRead Api.Instant × Api.Instant → SidecarRead Api.Instant
  kept (read, recorded_at) = record {
    read = in_micros Api read;
    recorded_at = Api.micros recorded_at;
  }

  pub encode_line-line_of :
      (x : RawRead Api.Instant × Api.Instant)
      → IsWritable x
      → (r : SidecarRecord) × (digest : List ℕ) × (encode_line Api x ≡ ok (line_of Api r, digest))
        × (into_read Api r ≡ ok (kept x))
  unfolding encode_line
  encode_line-line_of (read, recorded_at) (s, f, b) =
      let (r, q, back) = record_of-into_read Api read recorded_at s f b in
      (r, hex_lower (Api.sha256 (Api.to_json r)), rw q, back)

  recovered-line :
      (tail : List ℕ) (r : SidecarRecord) (found : SidecarRead Api.Instant) (rest : List ℕ)
      → All IsOther10 tail
      → Reveals Api tail (line_of Api r)
      → into_read Api r ≡ ok found
      → (recovered Api (tail ++ (line_of Api r ++ 10 ∷ rest)) ≡ found ∷ recovered Api rest)
        × ((split_lines (tail ++ (line_of Api r ++ 10 ∷ rest))).1 ≡ (split_lines rest).1)
  recovered-line tail r found rest t h q =
      let splits : split_lines (tail ++ (line_of Api r ++ 10 ∷ rest))
          ≡ ((tail ++ line_of Api r) ∷ (split_lines rest).0, (split_lines rest).1) =
        ap split_lines (sym (append_assoc tail (line_of Api r) (10 ∷ rest)))
        ∙ split_lines-line (tail ++ line_of Api r) rest
            (All-append_intro IsOther10 tail (line_of Api r) t (line_of-All Api r)) in
      (
        ap (λ (s : List (List ℕ) × List ℕ). found_lines Api s.0) splits
            ∙ ap (λ (xs : List (SidecarRead Api.Instant)). xs ++ recovered Api rest)
                (found_of-append Api tail r found h q),
        ap (λ (s : List (List ℕ) × List ℕ). s.1) splits,
      )

  pub encode_lines-recovered :
      (records : List (RawRead Api.Instant × Api.Instant)) (last_digest : List ℕ)
      → All IsWritable records
      → (buffer : List ℕ) × (digest : List ℕ) × (encode_lines Api records last_digest
          ≡ ok (buffer, digest))
        × (recovered Api buffer ≡ map kept records)
        × ((split_lines buffer).1 ≡ [])
  unfolding encode_lines split_lines
  encode_lines-recovered [] last_digest w = ([], last_digest, refl, refl, refl)
  encode_lines-recovered (x ∷ records) last_digest (w, ws) =
      let (r, digest, q, back) = encode_line-line_of x w in
      let (rest, last, e, found, ends) = encode_lines-recovered records digest ws in
      let (one, tail) = recovered-line [] r (kept x) rest tt tt back in
      (line_of Api r ++ 10 ∷ rest, last, rw (q, e), one ∙ ap (◌∷◌ (kept x)) found, tail ∙ ends)

  -- An append to the sidecar of reads that it can write, synced, gives back what was written: a pass
  -- over the file finds the reads that it found before, then the new ones, in their order and whole
  -- but for the microseconds of their instants, and the file ends with a line feed. If the file ended
  -- in an interrupted write, the condition is that from no byte of that on the remains verify as a
  -- line together with the first new line.
  pub append_records-recovered :
      (sidecar : Sidecar) (x : RawRead Api.Instant × Api.Instant)
      (records : List (RawRead Api.Instant × Api.Instant))
      → All IsWritable (x ∷ records)
      → ((line digest : List ℕ)
          → encode_line Api x ≡ ok (line, digest)
          → Reveals Api (split_lines sidecar.file).1 line)
      → (let after = append_records Api sidecar (x ∷ records) synced in
          (after.1 ≡ ok tt)
          × (recovered Api after.0.file ≡ recovered Api sidecar.file ++ map kept (x ∷ records))
          × ((split_lines after.0.file).1 ≡ []))
  unfolding append_records encode_lines
  append_records-recovered sidecar x records (w, ws) h =
      let (r, digest, q, back) = encode_line-line_of x w in
      let (rest, last, e, found, ends) = encode_lines-recovered records digest ws in
      let tail = (split_lines sidecar.file).1 in
      let (one, shut) =
        recovered-line tail r (kept x) rest (split_lines-All sidecar.file)
          (h (line_of Api r) digest q) back in
      let appended : append_records Api sidecar (x ∷ records) synced
          ≡ write_buffer Api sidecar (line_of Api r ++ 10 ∷ rest, last) synced =
        rw (append_records, encode_lines, q, e) in
      rw appended (
        refl,
        recovered-append sidecar.file (line_of Api r ++ 10 ∷ rest)
            ∙ ap (λ (xs : List (SidecarRead Api.Instant)). recovered Api sidecar.file ++ xs)
                (one ∙ ap (◌∷◌ (kept x)) found),
        ap (λ (s : List (List ℕ) × List ℕ). s.1)
              (split_lines-append sidecar.file (line_of Api r ++ 10 ∷ rest))
            ∙ shut
            ∙ ends,
      )

  -- However an append to the sidecar ends, refused, cut off at any byte or synced, the reads that a
  -- pass found before it are the first that a pass finds after it.
  pub append_records-kept :
      (sidecar : Sidecar) (records : List (RawRead Api.Instant × Api.Instant)) (disk : Disk)
      → (more : List (SidecarRead Api.Instant)) × (recovered Api
            (append_records Api sidecar records disk).0.file
          ≡ recovered Api sidecar.file ++ more)
  unfolding append_records
  append_records-kept sidecar [] disk = ([], sym (append-nil (recovered Api sidecar.file)))
  append_records-kept sidecar (x ∷ records) disk =
      elim (Result-cases (encode_lines Api (x ∷ records) [])) [
        | inr (e, q) ↦ ([], rw (append_records, q) (sym (append-nil (recovered Api sidecar.file))))
        | inl (encoded, q) ↦ rw (append_records, q) (any_disk encoded disk)
      ]
    where
      any_disk :
          (encoded : List ℕ × List ℕ) (disk : Disk)
          → (more : List (SidecarRead Api.Instant)) × (recovered Api
                (write_buffer Api sidecar encoded disk).0.file
              ≡ recovered Api sidecar.file ++ more)
      any_disk (buffer, digest) synced = (_, recovered-append sidecar.file buffer)
      any_disk (buffer, digest) (cut k) = (_, recovered-append sidecar.file (take k buffer))
