-- ===== src/Storage/Journal/Claims.antt =====
-- What a checkpoint of crates/splitforge-storage/src/journal.rs claims is so when it is recorded, and
-- stays so with every batch.
use splitforge.Prelude.{
  ℕ, ◌≤◌, ◌≡◌, ◌⊎◌, refl, ap, sym, ◌∙◌, subst, Bool, true, List, [], ◌∷◌, ◌++◌, take, length,
  take-append, take-append_short, append-nil, length-append, Option, some, ok, arith, Result-cases,
  inl, inr, All,
}
use splitforge.Domain.Event.{RawRead, StoredRawRead}
use splitforge.Storage.Record.{SidecarApi}
use splitforge.Storage.Sidecar.{Sidecar, Tip, append_records}
use splitforge.Storage.Sidecar.Lines.{recovered, split_lines}
use splitforge.Storage.Journal.{
  SqliteJournal, SidecarCheckpoint, has_id, row_ids, max_seq, latest_checkpoint,
}
use splitforge.Storage.Journal.Repair.{Ends, checkpoint_at}
use splitforge.Storage.Journal.Insert.{
  check_storable, stamped, insert_each, store_all, write_ahead, insert_all,
}
use splitforge.Storage.Journal.Union.{found_ids, IsNumbered}
use splitforge.Storage.Journal.Reconcile.{Agrees}
use splitforge.Storage.Journal.Resume.{Holds}
use splitforge.Storage.Journal.Grown.{
  IsThrough, IsClaimed, insert_each-IsClaimed, append_records-file, store_all-HasRows,
}

module _ (Api : SidecarApi) (lt : Api.Instant → Api.Instant → Bool) where
  -- Each row of rows that agree with a file is before the end of both.
  all_through :
      (before : List ℕ) (through : ℕ) (rows : List (StoredRawRead Api.Instant))
      → IsNumbered rows
      → max_seq rows ≤ through
      → ((id : ℕ) → has_id (row_ids rows) id ≡ true → has_id before id ≡ true)
      → All (IsThrough Api lt before through) rows
  unfolding max_seq has_id
  all_through before through [] n m h = tt
  all_through before through (r ∷ rows) (q, n) m h =
      let here : has_id before r.read.id ≡ true = h r.read.id (ground arith) in
      (ground arith, all_through before through rows n (omega arith) (λ id k. h id (ground arith)))

  -- A checkpoint that is recorded at the end of a sidecar whose reads are those of the rows holds: it
  -- stands behind a line feed, each read before it is a row, and the rows up to its `seq` are those
  -- whose reads are before it. The conditions are that the rows are numbered and that the file ends
  -- with a line feed.
  pub checkpoint_at-Holds :
      (tip : Tip) (j : SqliteJournal Api.Instant) (now : Api.Instant) (accepted : Bool)
      (file : List ℕ)
      → tip.end ≡ length file
      → (split_lines file).1 ≡ []
      → IsNumbered j.rows
      → Agrees Api lt j.rows file
      → (checkpoint_at Api lt (some tip) j now accepted).1 ≡ ok true
      → (c : SidecarCheckpoint Api.Instant) × (latest_checkpoint
            (checkpoint_at Api lt (some tip) j now accepted).0.checkpoints
          ≡ some c)
        × Holds Api lt c j.rows file
  unfolding latest_checkpoint checkpoint_at
  checkpoint_at-Holds tip j now accepted file t s n g e =
      let c : SidecarCheckpoint Api.Instant = record {
        sidecar_bytes = tip.end;
        last_line_sha256 = tip.digest;
        through_seq = max_seq j.rows;
        recorded_at = Api.micros now;
      } in
      let whole : take tip.end file ≡ file =
        ap (λ (k : ℕ). take k file) t
        ∙ ap (take (length file)) (sym (append-nil file))
        ∙ take-append file [] in
      let ids : (id : ℕ)
          → has_id (found_ids (recovered Api (take tip.end file))) id
            ≡ has_id (found_ids (recovered Api file)) id =
        λ id. ap (λ (x : List ℕ). has_id (found_ids (recovered Api x)) id) whole in
      (
        c,
        ground (arith, e),
        record {
          at_line = ap (λ (x : List ℕ). (split_lines x).1) whole ∙ s;
          stored = λ id h. g id ∙ sym (ids id) ∙ h;
          through =
              all_through _ (max_seq j.rows) j.rows n (omega arith)
                (λ id h. ids id ∙ sym (g id) ∙ h);
        },
      )

  -- A claim that holds, with its ends within the file and the rows
  abbrev IsWithin :
      SidecarCheckpoint Api.Instant → List (StoredRawRead Api.Instant) → List ℕ → Type 0
  IsWithin c rows file =
      Holds Api lt c rows file × (c.sidecar_bytes ≤ length file) × (c.through_seq ≤ max_seq rows)

  Holds-grown :
      (c : SidecarCheckpoint Api.Instant) (rows more : List (StoredRawRead Api.Instant))
      (file added : List ℕ) (reads : List (RawRead Api.Instant × Api.Instant))
      → IsWithin c rows file
      → (more ≡ rows) ⊎ (insert_each Api lt rows reads ≡ ok more)
      → IsWithin c more (file ++ added)
  Holds-grown c rows more file added reads (h, l, m) grown =
      let short = take-append_short c.sidecar_bytes file added l in
      let before = found_ids (recovered Api (take c.sidecar_bytes file)) in
      let old : IsClaimed Api lt before c.through_seq rows = record {
        held = h.stored;
        ranked = h.through;
        reached = m;
      } in
      let new : IsClaimed Api lt before c.through_seq more = elim grown [
        | inl same ↦ subst (IsClaimed Api lt before c.through_seq) (sym same) old
        | inr e ↦ insert_each-IsClaimed Api lt before c.through_seq reads rows more e old
      ] in
      (
        record {
          at_line = ap (λ (x : List ℕ). (split_lines x).1) short ∙ h.at_line;
          stored = λ id k.
              new.held id
                (subst (λ (x : List ℕ). has_id (found_ids (recovered Api x)) id ≡ true) short k);
          through =
              subst
                (λ (x : List ℕ).
                  All (IsThrough Api lt (found_ids (recovered Api x)) c.through_seq) more)
                (sym short) new.ranked;
        },
        omega (arith, length-append file added),
        new.reached,
      )

  abbrev Keeps : SidecarCheckpoint Api.Instant → SqliteJournal Api.Instant → Type 0
  Keeps c after =
      (written : Sidecar) × (after.sidecar ≡ some written)
      × Holds Api lt c after.rows written.file
      × (c.sidecar_bytes ≤ length written.file)
      × (c.through_seq ≤ max_seq after.rows)

  write_ahead-Keeps :
      (c : SidecarCheckpoint Api.Instant) (j : SqliteJournal Api.Instant) (sidecar : Sidecar)
      (reads : List (RawRead Api.Instant)) (is_due : Bool) (ends : Ends Api lt)
      → IsWithin c j.rows sidecar.file
      → Keeps c (write_ahead Api lt (some sidecar) j reads is_due ends).0
  unfolding write_ahead
  write_ahead-Keeps c j sidecar reads is_due ends w =
      let batch = stamped Api lt ends.now reads in
      let x = append_records Api sidecar batch ends.disk in
      let ahead : SqliteJournal Api.Instant = record j { sidecar = some x.0; unconfirmed = true } in
      let (added, longer) = append_records-file Api lt sidecar batch ends.disk in
      let grown : (more : List (StoredRawRead Api.Instant))
          → (more ≡ j.rows) ⊎ (insert_each Api lt j.rows batch ≡ ok more)
          → IsWithin c more x.0.file =
        λ more g.
          subst (IsWithin c more) (sym longer)
            (Holds-grown c j.rows more sidecar.file added batch w g) in
      elim (Result-cases x.1) [
        | inr (e, q) ↦
            let (h, l, m) = grown j.rows (inl refl) in rw (write_ahead, q) (x.0, refl, h, l, m)
        | inl (u, q) ↦
            let (rows, same) = store_all-HasRows Api lt ahead batch is_due ends in
            let (h, l, m) = grown (store_all Api lt ahead batch is_due ends).0.rows rows in
            rw (write_ahead, q) (x.0, same, h, l, m)
      ]

  -- A checkpoint that holds, with its offset in the sidecar's file and its `seq` at most that of the
  -- newest row, does so behind any batch, however that ends: refused, cut off at any byte of its write
  -- to the sidecar, refused by the database or stored.
  pub insert_all-Holds :
      (c : SidecarCheckpoint Api.Instant) (j : SqliteJournal Api.Instant) (sidecar : Sidecar)
      (reads : List (RawRead Api.Instant)) (is_due : Bool) (ends : Ends Api lt)
      → j.sidecar ≡ some sidecar
      → Holds Api lt c j.rows sidecar.file
      → c.sidecar_bytes ≤ length sidecar.file
      → c.through_seq ≤ max_seq j.rows
      → (let after = (insert_all Api lt j reads is_due ends).0 in
          (written : Sidecar) × (after.sidecar ≡ some written)
          × Holds Api lt c after.rows written.file
          × (c.sidecar_bytes ≤ length written.file)
          × (c.through_seq ≤ max_seq after.rows))
  unfolding insert_all
  insert_all-Holds c j sidecar reads is_due ends s h l m =
      elim (Result-cases (check_storable Api lt reads)) [
        | inr (e, q) ↦ rw (insert_all, q) (sidecar, s, h, l, m)
        | inl (u, q) ↦
            rw (insert_all, q)
              (subst (λ (o : Option Sidecar). Keeps c (write_ahead Api lt o j reads is_due ends).0)
                (sym s) (write_ahead-Keeps c j sidecar reads is_due ends (h, l, m)))
      ]
