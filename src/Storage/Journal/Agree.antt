-- ===== src/Storage/Journal/Agree.antt =====
-- After a reconciliation the database and the sidecar hold the same reads.
use splitforge.Prelude.{
  ℕ, ◌≡◌, refl, ap, Bool, true, not, ◌&&◌, ◌||◌, List, [], ◌∷◌, ◌++◌, ltb, ok, arith, Bool-cases,
  inl, inr, All, done, drop,
}
use splitforge.Domain.Event.{StoredRawRead}
use splitforge.Storage.Record.{SidecarRead, SidecarApi}
use splitforge.Storage.Sidecar.{Sidecar, no_tally}
use splitforge.Storage.Sidecar.Lines.{recovered, tally_bytes, scan_from-recovered}
use splitforge.Storage.Journal.{
  Start, start_byte, Passing, has_id, row_ids, max_seq, missing_from, insert_one, row_of,
}
use splitforge.Storage.Journal.Compare.{pass, pass_read, pass_begin, pass_end}
use splitforge.Storage.Journal.Union.{
  found_ids, IsNumbered, IsDistinct, IsReplayable, Passes, union_rows, hand_over-pass_read,
  has_id-append, has_id_at,
}

pub found_ids-append :
    {I : Type 0} (xs ys : List (SidecarRead I))
    → found_ids (xs ++ ys) ≡ found_ids xs ++ found_ids ys
found_ids-append [] ys = refl
found_ids-append (x ∷ xs) ys = ap (◌∷◌ x.read.id) (found_ids-append xs ys)

-- The rows that a backfill copies are those whose ids were not seen.
pub missing_from-has_id :
    {I : Type 0} (rows : List (StoredRawRead I)) (seen : List ℕ) (id : ℕ)
    → IsNumbered rows
    → has_id (found_ids (missing_from rows 0 seen)) id
      ≡ (has_id (row_ids rows) id && not (has_id seen id))
unfolding missing_from has_id
missing_from-has_id [] seen id n = refl
missing_from-has_id (r ∷ rows) seen id (s, n) =
    let older = missing_from-has_id rows seen id n in
    let after : ltb 0 r.seq ≡ true = ground (arith, s) in
    elim (Bool-cases (has_id seen r.read.id)) [
      | inl e ↦ rw (missing_from, after, e) (ground (arith, older, has_id_at seen r.read.id id))
      | inr e ↦
          rw
            (
              missing_from,
              after,
              e,
              found_ids-append (missing_from rows 0 seen)
                  (record { read = r.read; recorded_at = r.recorded_at } ∷ []),
              has_id-append (found_ids (missing_from rows 0 seen)) (r.read.id ∷ []) id,
            )
            (ground (arith, older, has_id_at seen r.read.id id))
    ]

module _ (Api : SidecarApi) (lt : Api.Instant → Api.Instant → Bool) where
  pub has_id-union_rows :
      (rows : List (StoredRawRead Api.Instant)) (reads : List (SidecarRead Api.Instant)) (id : ℕ)
      → has_id (row_ids (union_rows Api lt rows reads)) id
        ≡ (has_id (row_ids rows) id || has_id (found_ids reads) id)
  unfolding union_rows has_id
  has_id-union_rows rows [] id = ground arith
  has_id-union_rows rows (found ∷ reads) id =
      elim (Bool-cases (has_id (row_ids rows) found.read.id)) [
        | inl e ↦
            let ih = has_id-union_rows rows reads id in
            rw (union_rows, e) (ground (arith, ih, has_id_at (row_ids rows) found.read.id id))
        | inr e ↦
            let ih =
              has_id-union_rows (row_of Api lt rows found.read found.recorded_at ∷ rows) reads id in
            rw (union_rows, e) (ground (arith, ih))
      ]

  pub union_rows-IsNumbered :
      (rows : List (StoredRawRead Api.Instant)) (reads : List (SidecarRead Api.Instant))
      → IsNumbered rows
      → IsNumbered (union_rows Api lt rows reads)
  unfolding union_rows max_seq
  union_rows-IsNumbered rows [] n = n
  union_rows-IsNumbered rows (found ∷ reads) n =
      elim (Bool-cases (has_id (row_ids rows) found.read.id)) [
        | inl e ↦ rw (union_rows, e) (union_rows-IsNumbered rows reads n)
        | inr e ↦
            rw (union_rows, e)
              (union_rows-IsNumbered (row_of Api lt rows found.read found.recorded_at ∷ rows) reads
                (refl, n))
      ]

  pub union_rows-IsDistinct :
      (rows : List (StoredRawRead Api.Instant)) (reads : List (SidecarRead Api.Instant))
      → IsDistinct (row_ids rows)
      → IsDistinct (row_ids (union_rows Api lt rows reads))
  unfolding union_rows
  union_rows-IsDistinct rows [] n = n
  union_rows-IsDistinct rows (found ∷ reads) n =
      elim (Bool-cases (has_id (row_ids rows) found.read.id)) [
        | inl e ↦ rw (union_rows, e) (union_rows-IsDistinct rows reads n)
        | inr e ↦
            rw (union_rows, e)
              (union_rows-IsDistinct (row_of Api lt rows found.read found.recorded_at ∷ rows) reads
                (e, n))
      ]

  -- A pass of a repair, whatever it starts from, ends and hands over: its rows are the union.
  pub pass-union_rows :
      (start : Start Api.Instant) (rows : List (StoredRawRead Api.Instant)) (sidecar : Sidecar)
      → All (IsReplayable Api lt) (recovered Api (drop (start_byte start) sidecar.file))
      → (q : Passing Api.Instant) × (pass Api lt (insert_one Api lt) rows sidecar start
          ≡ done (
              ok (
                pass_end Api lt (insert_one Api lt) start (row_ids rows) (
                  tally_bytes Api
                      (start_byte start)
                      no_tally
                      (drop (start_byte start) sidecar.file),
                  q,
                ))))
        × Passes Api lt
            (row_ids rows)
            (pass_begin Api lt (insert_one Api lt) rows)
            (recovered Api (drop (start_byte start) sidecar.file))
            q
  unfolding pass has_id
  pass-union_rows start rows sidecar r =
      let (q, e, passes) =
        hand_over-pass_read Api lt start (row_ids rows)
          (recovered Api (drop (start_byte start) sidecar.file))
          (pass_begin Api lt (insert_one Api lt) rows) r (record { held = λ id. refl }) in
      (
        q,
        rw (
          scan_from-recovered Api (pass_read Api lt (insert_one Api lt) start (row_ids rows))
              sidecar (start_byte start) (pass_begin Api lt (insert_one Api lt) rows),
          e,
        ),
        passes,
      )
