-- ===== src/Storage/Journal/Resume.antt =====
-- A start from a checkpoint of crates/splitforge-storage/src/journal.rs does what a start from the
-- beginning of the sidecar would.
use splitforge.Prelude.{
  ℕ, ◌+◌, ◌≡◌, refl, ap, sym, ◌∙◌, subst, Bool, true, false, not, ◌||◌, ◌&&◌, List, [], ◌∷◌, ◌++◌,
  length, take, drop, take-append-drop, ok, arith, Bool-cases, inl, inr, done, All, All-append, leb,
  ltb,
}
use splitforge.Domain.Event.{StoredRawRead}
use splitforge.Storage.Record.{SidecarRead, SidecarApi}
use splitforge.Storage.Sidecar.{Sidecar, no_tally}
use splitforge.Storage.Sidecar.Lines.{recovered, split_lines, tally_bytes}
use splitforge.Storage.Sidecar.Append.{recovered-append}
use splitforge.Storage.Journal.{
  beginning, resumed, SidecarCheckpoint, Passing, Pass, has_id, row_ids, all_seen, missing_from,
  insert_one, row_of,
}
use splitforge.Storage.Journal.Compare.{pass, pass_begin, pass_end, backfill_of}
use splitforge.Storage.Journal.Union.{
  found_ids, IsNumbered, IsReplayable, Passes, union_rows, has_id-append, all_seen_lem,
}
use splitforge.Storage.Journal.Agree.{found_ids-append, pass-union_rows, has_id-union_rows}

-- Two ways to look for rows that find the same of each row find the same rows.
missing_from-same :
    {I : Type 0} (rows : List (StoredRawRead I)) (a b : ℕ) (s t : List ℕ)
    → All
        (λ (r : StoredRawRead I).
          (ltb a r.seq && not (has_id s r.read.id)) ≡ (ltb b r.seq && not (has_id t r.read.id)))
        rows
    → missing_from rows a s ≡ missing_from rows b t
unfolding missing_from
missing_from-same [] a b s t h = refl
missing_from-same (r ∷ rows) a b s t (h, k) =
    let ih = missing_from-same rows a b s t k in rw (missing_from, h, ih)

missing_from-nil :
    {I : Type 0} (rows : List (StoredRawRead I)) (a : ℕ) (s : List ℕ)
    → ((id : ℕ) → has_id (row_ids rows) id ≡ true → has_id s id ≡ true)
    → missing_from rows a s ≡ []
unfolding missing_from has_id
missing_from-nil [] a s h = refl
missing_from-nil (r ∷ rows) a s h =
    let here : has_id s r.read.id ≡ true = h r.read.id (ground arith) in
    let rest = missing_from-nil rows a s (λ id k. h id (ground arith)) in
    let skip : (ltb a r.seq && not (has_id s r.read.id)) ≡ false = ground arith in
    rw (missing_from, skip) rest

module _ (Api : SidecarApi) (lt : Api.Instant → Api.Instant → Bool) where
  -- What a checkpoint claims: it stands behind a line feed, each read before it is a row, and the
  -- rows up to its `seq` are those whose reads are before it.
  pub record Holds (c : SidecarCheckpoint Api.Instant) (rows : List (StoredRawRead Api.Instant))
      (file : List ℕ) : Type 0 where
    pub at_line : (split_lines (take c.sidecar_bytes file)).1 ≡ []
    pub stored :
        (id : ℕ)
        → has_id (found_ids (recovered Api (take c.sidecar_bytes file))) id ≡ true
        → has_id (row_ids rows) id ≡ true
    pub through :
        All
          (λ (r : StoredRawRead Api.Instant).
            has_id (found_ids (recovered Api (take c.sidecar_bytes file))) r.read.id
            ≡ leb r.seq c.through_seq)
          rows

  union_rows-append :
      (xs ys : List (SidecarRead Api.Instant)) (rows : List (StoredRawRead Api.Instant))
      → union_rows Api lt rows (xs ++ ys) ≡ union_rows Api lt (union_rows Api lt rows xs) ys
  unfolding union_rows
  union_rows-append [] ys rows = refl
  union_rows-append (x ∷ xs) ys rows = union_rows-append xs ys _

  union_rows-stored :
      (reads : List (SidecarRead Api.Instant)) (rows : List (StoredRawRead Api.Instant))
      → ((id : ℕ) → has_id (found_ids reads) id ≡ true → has_id (row_ids rows) id ≡ true)
      → union_rows Api lt rows reads ≡ rows
  unfolding union_rows has_id
  union_rows-stored [] rows h = refl
  union_rows-stored (found ∷ reads) rows h =
      let here : has_id (row_ids rows) found.read.id ≡ true = h found.read.id (ground arith) in
      let rest = union_rows-stored reads rows (λ id k. h id (ground arith)) in
      rw (union_rows, here) rest

  -- What holds of the rows, and of a row of each read, holds of the union.
  union_rows-all :
      (P : StoredRawRead Api.Instant → Type 0) (reads : List (SidecarRead Api.Instant))
      (rows : List (StoredRawRead Api.Instant))
      → All P rows
      → All
          (λ (found : SidecarRead Api.Instant).
            (rows : List (StoredRawRead Api.Instant))
            → P (row_of Api lt rows found.read found.recorded_at))
          reads
      → All P (union_rows Api lt rows reads)
  unfolding union_rows
  union_rows-all P [] rows h k = h
  union_rows-all P (found ∷ reads) rows h (k, ks) =
      elim (Bool-cases (has_id (row_ids rows) found.read.id)) [
        | inl e ↦ rw (union_rows, e) (union_rows-all P reads rows h ks)
        | inr e ↦
            rw (union_rows, e)
              (union_rows-all P reads (row_of Api lt rows found.read found.recorded_at ∷ rows)
                (k rows, h) ks)
      ]

  recovered-halves :
      (n : ℕ) (file : List ℕ)
      → (split_lines (take n file)).1 ≡ []
      → recovered Api file ≡ recovered Api (take n file) ++ recovered Api (drop n file)
  recovered-halves n file e =
      ap (recovered Api) (sym (take-append-drop n file))
      ∙ recovered-append Api (take n file) (drop n file)
      ∙ ap (λ (t : List ℕ). recovered Api (take n file) ++ recovered Api (t ++ drop n file)) e

  -- Whether a backfill from the beginning, and one from a checkpoint, copy a row, of what they saw
  abbrev IsAlike : ℕ → List ℕ → List ℕ → StoredRawRead Api.Instant → Type 0
  IsAlike through s t r =
      (ltb 0 r.seq && not (has_id s r.read.id)) ≡ (ltb through r.seq && not (has_id t r.read.id))

  old_rows :
      (before s t : List ℕ) (through : ℕ) (rows : List (StoredRawRead Api.Instant))
      → ((id : ℕ) → has_id s id ≡ (has_id before id || has_id t id))
      → IsNumbered rows
      → All (λ (r : StoredRawRead Api.Instant). has_id before r.read.id ≡ leb r.seq through) rows
      → All (IsAlike through s t) rows
  old_rows before s t through [] e n h = tt
  old_rows before s t through (r ∷ rows) e (q, n) (h, hs) =
      (ground (arith, e r.read.id), old_rows before s t through rows e n hs)

  new_rows :
      (s t : List ℕ) (through : ℕ) (reads : List (SidecarRead Api.Instant))
      → ((id : ℕ) → has_id t id ≡ true → has_id s id ≡ true)
      → ((id : ℕ) → has_id (found_ids reads) id ≡ true → has_id t id ≡ true)
      → All
          (λ (found : SidecarRead Api.Instant).
            (rows : List (StoredRawRead Api.Instant))
            → IsAlike through s t (row_of Api lt rows found.read found.recorded_at))
          reads
  unfolding has_id
  new_rows s t through [] e h = tt
  new_rows s t through (found ∷ reads) e h =
      let here : has_id t found.read.id ≡ true = h found.read.id (ground arith) in
      let there : has_id s found.read.id ≡ true = e found.read.id here in
      (λ rows. ground (arith), new_rows s t through reads e (λ id k. h id (ground arith)))

  -- A backfill from the beginning is all that is missing, even where it looks no further.
  backfill-missing_from :
      (rows : List (StoredRawRead Api.Instant)) (reads : List (SidecarRead Api.Instant))
      (p : Passing Api.Instant)
      → Passes Api lt (row_ids rows) (pass_begin Api lt (insert_one Api lt) rows) reads p
      → backfill_of Api lt (insert_one Api lt) beginning (row_ids rows) p
        ≡ missing_from p.rows 0 p.seen
  unfolding backfill_of has_id
  backfill-missing_from rows reads p h = elim (Bool-cases (all_seen (row_ids rows) p.seen)) [
    | inr e ↦ rw (backfill_of, e)
    | inl e ↦
        let none_left = missing_from-nil p.rows 0 p.seen (λ id k.
          let ids =
            ap (λ (x : List (StoredRawRead Api.Instant)). has_id (row_ids x) id) h.rows
            ∙ has_id-union_rows Api lt rows reads id in
          ground (arith, ids, h.seen id, all_seen_lem (row_ids rows) p.seen e id)) in
        rw (backfill_of, e) (sym none_left)
  ]

  -- A repair that starts from a checkpoint that holds reads only what is behind it, and finds what a
  -- repair that reads the whole sidecar does: both passes end, with the same rows, with as many reads
  -- replayed, and with the same rows to copy into the sidecar. The conditions are that the rows are
  -- numbered and that each of the sidecar's reads is one that a row can hold.
  pub pass-resumed :
      (c : SidecarCheckpoint Api.Instant) (rows : List (StoredRawRead Api.Instant))
      (sidecar : Sidecar)
      → Holds c rows sidecar.file
      → IsNumbered rows
      → All (IsReplayable Api lt) (recovered Api sidecar.file)
      → (whole rest : Pass Api.Instant) × (pass Api lt (insert_one Api lt) rows sidecar beginning
          ≡ done (ok whole))
        × (pass Api lt (insert_one Api lt) rows sidecar (resumed c) ≡ done (ok rest))
        × (rest.rows_after ≡ whole.rows_after)
        × (rest.replayed.count ≡ whole.replayed.count)
        × (rest.backfill ≡ whole.backfill)
  unfolding has_id backfill_of
  pass-resumed c rows sidecar holds numbered r =
      let at = c.sidecar_bytes in
      let through = c.through_seq in
      let before = recovered Api (take at sidecar.file) in
      let behind = recovered Api (drop at sidecar.file) in
      let halves = recovered-halves at sidecar.file holds.at_line in
      let later =
        (All-append (IsReplayable Api lt) before behind
          (subst (All (IsReplayable Api lt)) halves r)).1 in
      let (p, passed, whole) = pass-union_rows Api lt beginning rows sidecar r in
      let (q, resumed_pass, rest) = pass-union_rows Api lt (resumed c) rows sidecar later in
      let same_rows : q.rows ≡ p.rows =
        rest.rows
        ∙ ap (λ (x : List (StoredRawRead Api.Instant)). union_rows Api lt x behind)
            (sym (union_rows-stored before rows holds.stored))
        ∙ sym (union_rows-append before behind rows)
        ∙ ap (union_rows Api lt rows) (sym halves)
        ∙ sym whole.rows in
      let ids : (id : ℕ) → has_id p.seen id ≡ (has_id (found_ids before) id || has_id q.seen id) =
        λ id.
          whole.seen id
          ∙ ap (λ (x : List (SidecarRead Api.Instant)). has_id (found_ids x) id) halves
          ∙ ap (λ (x : List ℕ). has_id x id) (found_ids-append before behind)
          ∙ has_id-append (found_ids before) (found_ids behind) id
          ∙ ap (λ (x : Bool). has_id (found_ids before) id || x) (sym (rest.seen id)) in
      let alike : All (IsAlike through p.seen q.seen) q.rows =
        subst (All (IsAlike through p.seen q.seen)) (sym rest.rows) (
          union_rows-all (IsAlike through p.seen q.seen) behind rows
            (old_rows (found_ids before) p.seen q.seen through rows ids numbered holds.through)
            (new_rows p.seen q.seen through behind (λ id k. or_right _ (ids id) k)
              (λ id k. rest.seen id ∙ k))) in
      (
        pass_end Api lt (insert_one Api lt) beginning (row_ids rows)
            (tally_bytes Api 0 no_tally sidecar.file, p),
        pass_end Api lt (insert_one Api lt) (resumed c) (row_ids rows)
            (tally_bytes Api at no_tally (drop at sidecar.file), q),
        passed,
        resumed_pass,
        same_rows,
        same_count _ _ (length rows) _ _ whole.counted rest.counted
            (ap (λ (x : List (StoredRawRead Api.Instant)). length x) same_rows),
        sym (missing_from-same q.rows 0 through p.seen q.seen alike)
            ∙ ap (λ (x : List (StoredRawRead Api.Instant)). missing_from x 0 p.seen) same_rows
            ∙ sym (backfill-missing_from rows (recovered Api sidecar.file) p whole),
      )
    where
      or_right : {s t : Bool} (b : Bool) → s ≡ (b || t) → t ≡ true → s ≡ true
      or_right b h k = ground arith

      same_count : (a b n x y : ℕ) → a + n ≡ 0 + x → b + n ≡ 0 + y → y ≡ x → b ≡ a
      same_count a b n x y h k e = omega arith
