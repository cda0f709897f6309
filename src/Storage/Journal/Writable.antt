-- ===== src/Storage/Journal/Writable.antt =====
-- The reads that the sidecar of crates/splitforge-storage/src/journal.rs can write: those of a union,
-- those missing from it, and their records.
use splitforge.Prelude.{
  ℕ, ◌≡◌, refl, ap, ◌∙◌, Bool, not, ◌&&◌, List, [], ◌∷◌, ◌++◌, ok, Bool-cases, inl, inr, All, map,
  ltb,
}
use splitforge.Domain.Event.{RawRead, StoredRawRead}
use splitforge.Storage.Record.{SidecarRead, SidecarApi}
use splitforge.Storage.Record.RoundTrip.{fits-micros, storable-in_micros}
use splitforge.Storage.Sidecar.{encode_line}
use splitforge.Storage.Sidecar.Append.{IsWritable, kept}
use splitforge.Storage.Sidecar.Written.{Reveals}
use splitforge.Storage.Journal.{has_id, row_ids, missing_from, row_of}
use splitforge.Storage.Journal.Repair.{recorded_pairs}
use splitforge.Storage.Journal.Union.{found_ids, IsReplayable, union_rows}

module _ (Api : SidecarApi) (lt : Api.Instant → Api.Instant → Bool) where
  abbrev pub IsFoundWritable : SidecarRead Api.Instant → Type 0
  IsFoundWritable found = IsWritable Api (found.read, found.recorded_at)

  abbrev pub IsRowWritable : StoredRawRead Api.Instant → Type 0
  IsRowWritable r = IsWritable Api (r.read, r.recorded_at)

  -- No line that is written behind a text is hidden by it.
  abbrev pub IsHarmless : List ℕ → Type 0
  IsHarmless tail =
      (x : RawRead Api.Instant × Api.Instant) (line digest : List ℕ)
      → encode_line Api x ≡ ok (line, digest)
      → Reveals Api tail line

  pub All-IsReplayable :
      (reads : List (SidecarRead Api.Instant))
      → All IsFoundWritable reads
      → All (IsReplayable Api lt) reads
  All-IsReplayable [] w = tt
  All-IsReplayable (found ∷ reads) ((s, f, b), ws) = ((s, f), All-IsReplayable reads ws)

  pub union_rows-All :
      (rows : List (StoredRawRead Api.Instant)) (reads : List (SidecarRead Api.Instant))
      → All IsRowWritable rows
      → All IsFoundWritable reads
      → All IsRowWritable (union_rows Api lt rows reads)
  unfolding union_rows
  union_rows-All rows [] w ws = w
  union_rows-All rows (found ∷ reads) w ((s, f, b), ws) =
      elim (Bool-cases (has_id (row_ids rows) found.read.id)) [
        | inl e ↦ rw (union_rows, e) (union_rows-All rows reads w ws)
        | inr e ↦
            rw (union_rows, e)
              (union_rows-All (row_of Api lt rows found.read found.recorded_at ∷ rows) reads
                (
                  (storable-in_micros Api found.read ∙ s, fits-micros Api found.recorded_at ∙ f, b),
                  w,
                )
                ws)
      ]

  All-snoc :
      (xs : List (SidecarRead Api.Instant)) (x : SidecarRead Api.Instant)
      → All IsFoundWritable xs
      → IsFoundWritable x
      → All IsFoundWritable (xs ++ x ∷ [])
  All-snoc [] x w h = (h, tt)
  All-snoc (y ∷ xs) x (v, w) h = (v, All-snoc xs x w h)

  pub missing_from-All :
      (rows : List (StoredRawRead Api.Instant)) (after_seq : ℕ) (seen : List ℕ)
      → All IsRowWritable rows
      → All IsFoundWritable (missing_from rows after_seq seen)
  unfolding missing_from
  missing_from-All [] after_seq seen w = tt
  missing_from-All (r ∷ rows) after_seq seen (v, w) =
      let older = missing_from-All rows after_seq seen w in
      elim (Bool-cases (ltb after_seq r.seq && not (has_id seen r.read.id))) [
        | inl e ↦ rw (missing_from, e) (All-snoc _ _ older v)
        | inr e ↦ rw (missing_from, e) older
      ]

  pub recorded_pairs-All :
      (reads : List (SidecarRead Api.Instant))
      → All IsFoundWritable reads
      → All (IsWritable Api) (recorded_pairs Api lt reads)
  recorded_pairs-All [] w = tt
  recorded_pairs-All (found ∷ reads) (v, w) = (v, recorded_pairs-All reads w)

  pub found_ids-kept :
      (reads : List (SidecarRead Api.Instant))
      → found_ids (map (kept Api) (recorded_pairs Api lt reads)) ≡ found_ids reads
  found_ids-kept [] = refl
  found_ids-kept (found ∷ reads) = ap (◌∷◌ found.read.id) (found_ids-kept reads)
