-- ===== src/Storage/Journal/Union.antt =====
-- A pass over the sidecar takes the union of its reads and the rows, in the order of the file.
use splitforge.Prelude.{
  ℕ, suc, ◌+◌, ◌≡◌, refl, ap, ◌∙◌, subst, Bool, true, false, ◌||◌, List, [], ◌∷◌, ◌++◌, ◌==◌,
  if◌then◌else◌, ok, length, arith, Bool-cases, inl, inr, All,
}
use splitforge.Domain.Event.{StoredRawRead}
use splitforge.Storage.Record.{SidecarRead, SidecarApi, storable, fits_micros}
use splitforge.Storage.Sidecar.{hand_over}
use splitforge.Storage.Journal.{
  Start, beginning, resumed, Passing, has_id, row_ids, max_seq, all_seen, add_replayed, insert_one,
  row_of,
}
use splitforge.Storage.Journal.Compare.{pass_read, already}

pub has_id-append :
    (xs ys : List ℕ) (id : ℕ) → has_id (xs ++ ys) id ≡ (has_id xs id || has_id ys id)
unfolding has_id
has_id-append [] ys id = refl
has_id-append (x ∷ xs) ys id = ground (arith, has_id-append xs ys id)

pub has_id_at : (ids : List ℕ) (i id : ℕ) → (i == id) ≡ true → has_id ids id ≡ has_id ids i
has_id_at ids i id e = ap (has_id ids) (ground arith)

pub all_seen_lem :
    (ids seen : List ℕ)
    → all_seen ids seen ≡ true
    → (id : ℕ) → has_id ids id ≡ true
    → has_id seen id ≡ true
unfolding all_seen has_id
all_seen_lem [] seen h id k = absurd cc
all_seen_lem (i ∷ ids) seen h id k = elim (Bool-cases (i == id)) [
  | inl e ↦
      let same : i ≡ id = ground arith in
      let here : has_id seen i ≡ true = ground arith in subst (λ n. has_id seen n ≡ true) same here
  | inr e ↦ all_seen_lem ids seen (ground arith) id (ground arith)
]

-- No two of some ids are the same.
abbrev pub IsDistinct : List ℕ → Type 0
IsDistinct [] = Unit
IsDistinct (i ∷ ids) = (has_id ids i ≡ false) × IsDistinct ids

module _ {I : Type 0} where
  abbrev pub found_ids : List (SidecarRead I) → List ℕ
  found_ids [] = []
  found_ids (found ∷ rest) = found.read.id ∷ found_ids rest

  -- The rows are numbered from one, as SQLite does.
  abbrev pub IsNumbered : List (StoredRawRead I) → Type 0
  IsNumbered [] = Unit
  IsNumbered (r ∷ rows) = (r.seq ≡ suc (max_seq rows)) × IsNumbered rows

module _ (Api : SidecarApi) (lt : Api.Instant → Api.Instant → Bool) where
  abbrev pub IsReplayable : SidecarRead Api.Instant → Type 0
  IsReplayable found =
      (storable Api found.read ≡ ok tt) × (fits_micros Api found.recorded_at ≡ true)

  -- The reference: a read that the rows do not have becomes the newest row.
  unfoldable pub union_rows :
      List (StoredRawRead Api.Instant)
      → List (SidecarRead Api.Instant)
      → List (StoredRawRead Api.Instant)
  union_rows rows [] = rows
  union_rows rows (found ∷ rest) =
      union_rows
        (if has_id (row_ids rows) found.read.id
          then rows
          else row_of Api lt rows found.read found.recorded_at ∷ rows)
        rest

  pub insert_one-new :
      (rows : List (StoredRawRead Api.Instant)) (found : SidecarRead Api.Instant)
      → IsReplayable found
      → has_id (row_ids rows) found.read.id ≡ false
      → insert_one Api lt rows found ≡ ok (row_of Api lt rows found.read found.recorded_at ∷ rows)
  unfolding insert_one storable
  insert_one-new rows found (s, f) n = ground (arith, n, f, s)

  -- What holds while a pass runs that began with rows of some ids
  pub record IsPassing (stored : List ℕ) (p : Passing Api.Instant) : Type 0 where
    pub held : (id : ℕ) → has_id (row_ids p.rows) id ≡ (has_id p.replaying id || has_id stored id)

  test-has_id :
      (start : Start Api.Instant) (stored : List ℕ) (p : Passing Api.Instant)
      (found : SidecarRead Api.Instant)
      → IsPassing stored p
      → (already Api lt (insert_one Api lt) start stored p found
          || has_id p.replaying found.read.id)
        ≡ has_id (row_ids p.rows) found.read.id
  test-has_id beginning stored p found h = ground (arith, h.held found.read.id)
  test-has_id (resumed c) stored p found h = ground (arith, h.held found.read.id)

  -- What a pass has done behind some of the reads
  pub record Passes (stored : List ℕ) (p : Passing Api.Instant)
      (reads : List (SidecarRead Api.Instant)) (q : Passing Api.Instant) : Type 0 where
    pub rows : q.rows ≡ union_rows p.rows reads
    pub seen : (id : ℕ) → has_id q.seen id ≡ (has_id p.seen id || has_id (found_ids reads) id)
    pub counted : q.replayed.count + length p.rows ≡ p.replayed.count + length q.rows
    pub passing : IsPassing stored q

  pass_read_lem :
      (start : Start Api.Instant) (stored : List ℕ) (p : Passing Api.Instant)
      (found : SidecarRead Api.Instant)
      → IsReplayable found
      → IsPassing stored p
      → (q : Passing Api.Instant) × (pass_read Api lt (insert_one Api lt) start stored p found
          ≡ ok q)
        × Passes stored p (found ∷ []) q
  unfolding pass_read union_rows has_id add_replayed
  pass_read_lem start stored p found r h =
      let test = test-has_id start stored p found h in
      elim (Bool-cases (has_id (row_ids p.rows) found.read.id)) [
        | inl e ↦
            let q : Passing Api.Instant = record p { seen = found.read.id ∷ p.seen } in
            (
              q,
              rw (pass_read, test, e),
              record {
                rows = rw (union_rows, e);
                seen = λ id. ground (arith);
                counted = refl;
                passing = record { held = h.held };
              },
            )
        | inr e ↦
            let more = row_of Api lt p.rows found.read found.recorded_at ∷ p.rows in
            let q : Passing Api.Instant = record {
              rows = more;
              seen = found.read.id ∷ p.seen;
              replaying = found.read.id ∷ p.replaying;
              replayed = add_replayed Api lt p.replayed found;
            } in
            (
              q,
              rw (pass_read, test, e, insert_one-new p.rows found r e),
              record {
                rows = rw (union_rows, e);
                seen = λ id. ground (arith);
                counted = omega arith;
                passing = record { held = λ id. ground (arith, h.held id) };
              },
            )
      ]

  pub hand_over-pass_read :
      (start : Start Api.Instant) (stored : List ℕ) (reads : List (SidecarRead Api.Instant))
      (p : Passing Api.Instant)
      → All IsReplayable reads
      → IsPassing stored p
      → (q : Passing Api.Instant) × (hand_over Api
            (pass_read Api lt (insert_one Api lt) start stored)
            p
            reads
          ≡ ok q)
        × Passes stored p reads q
  unfolding union_rows has_id
  hand_over-pass_read start stored [] p r h =
      (p, refl, record { rows = refl; seen = λ id. ground arith; counted = refl; passing = h })
  hand_over-pass_read start stored (found ∷ reads) p (r, rs) h =
      let (q, e, one) = pass_read_lem start stored p found r h in
      let (z, f, rest) = hand_over-pass_read start stored reads q rs one.passing in
      (
        z,
        rw e f,
        record {
          rows =
              rest.rows
              ∙ ap (λ (x : List (StoredRawRead Api.Instant)). union_rows x reads) one.rows;
          seen = λ id. ground (arith, rest.seen id, one.seen id);
          counted = omega (arith, rest.counted, one.counted);
          passing = rest.passing;
        },
      )
