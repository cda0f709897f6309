-- ===== src/Edge/Watch/Outage.antt =====
-- What an outage that the reader's port reports leaves in the journal of apps/splitforge-edge/src/main.rs.
use splitforge.Prelude.{ℕ, true, List, [], ◌∷◌, Option, none, some, ◌≡◌, refl, ap, sym, ◌∙◌, All}
use splitforge.Prelude.Text.{codes}
use splitforge.Domain.Gap.{confirmed}
use splitforge.Storage.Gaps.{GapRow, open_row_for, open_reader_gap, open_unless, opening_row}
use splitforge.Storage.Gaps.Pairs.{IsPaired, open_reader_gap-IsPaired, close_reader_gap-IsPaired}
use splitforge.Edge.Watch.{
  Watching, ReaderStatus, Disconnection, Now, Settings, Happening, read, alive, faults, tick,
  connected, disconnected, happen, happen_all, check_for_silence, record_connection,
  write_connection, disconnection_detail, connection_status,
}

abbrev pub IsOther : Happening → Type 0
IsOther connected = ⊥
IsOther read = Unit
IsOther alive = Unit
IsOther faults = Unit
IsOther tick = Unit
IsOther (disconnected cause) = Unit

module _ {I : Type 0} (micros : I → I) (earlier : I → ℕ → I) where
  -- The port is known to be lost, and the gap is open.
  abbrev pub IsDown : Watching → GapRow I → ReaderStatus → List (GapRow I) → Type 0
  IsDown watching g s table =
      (s.transport_down ≡ true)
      × (s.watching ≡ some watching)
      × (open_row_for table watching.reader ≡ some g)

  abbrev Happens : Type 0
  Happens = Settings × Happening × Now I

  happen-IsDown :
      (watching : Watching) (g : GapRow I) (settings : Settings) (h : Happening) (now : Now I)
      (s : ReaderStatus) (table : List (GapRow I))
      → IsOther h
      → IsDown watching g s table
      → (after : ReaderStatus) × (happen micros earlier settings h (s, table) now ≡ (after, table))
        × IsDown watching g after table
  unfolding happen check_for_silence record_connection write_connection open_reader_gap open_unless
  happen-IsDown watching g settings read now s table o (d, w, q) = (_, refl, (d, w, q))
  happen-IsDown watching g settings alive now s table o (d, w, q) = (_, refl, (d, w, q))
  happen-IsDown watching g settings faults now s table o (d, w, q) = (_, refl, (d, w, q))
  happen-IsDown watching g settings tick now s table o (d, w, q) = (s, (rw d), (d, w, q))
  happen-IsDown watching g settings connected now s table o (d, w, q) = absurd o
  happen-IsDown watching g settings (disconnected cause) now s table o (d, w, q) = (
    connection_status micros earlier (some cause) s now,
    ap (λ (t : List (GapRow I)). (connection_status micros earlier (some cause) s now, t))
        (ap (λ (x : Option Watching). write_connection micros earlier x (some cause) table now) w
          ∙ ap
              (λ (x : Option (GapRow I)).
                (open_unless micros x table
                  (opening_row micros table watching.reader confirmed now.wall now.monotonic_ms
                    (some (disconnection_detail cause)))
                  now.accepted).0)
              q),
    (refl, w, q),
  )

  happen_all-IsDown :
      (watching : Watching) (g : GapRow I) (happenings : List Happens) (s : ReaderStatus)
      (table : List (GapRow I))
      → All (λ (x : Happens). IsOther x.1) happenings
      → IsDown watching g s table
      → (after : ReaderStatus) × (happen_all micros earlier happenings (s, table) ≡ (after, table))
        × IsDown watching g after table
  unfolding happen_all
  happen_all-IsDown watching g [] s table o d = (s, refl, d)
  happen_all-IsDown watching g ((settings, h, now) ∷ rest) s table (o, l) d =
      let (s1, q, d1) = happen-IsDown watching g settings h now s table o d in
      let (s2, q2, d2) = happen_all-IsDown watching g rest s1 table l d1 in
      (s2, ap (happen_all micros earlier rest) q ∙ q2, d2)

  -- A watched reader whose port is lost, and whose journal takes the statements, has one gap open from
  -- the loss to the next connection: a gap that was open before, or a new one that is confirmed. What
  -- happens in between, reads and ticks of the watchdog under any settings, writes no row. After
  -- the connection the reader has no gap open, and the rows are still paired.
  pub happen_all-outage :
      (watching : Watching) (s : ReaderStatus) (table : List (GapRow I)) (cause : Disconnection)
      (loss back : Now I) (before_loss before_back : Settings) (happenings : List Happens)
      → IsPaired table
      → s.watching ≡ some watching
      → loss.accepted ≡ true
      → back.accepted ≡ true
      → All (λ (x : Happens). IsOther x.1) happenings
      → (let lost = (happen micros earlier before_loss (disconnected cause) (s, table) loss).1 in
          let state =
            happen_all micros earlier
              ((before_loss, disconnected cause, loss) ∷ happenings)
              (s, table) in
          let after = (happen micros earlier before_back connected state back).1 in
          (open_row_for lost watching.reader
            ≡ some (elim (open_row_for table watching.reader) [
              | none ↦
                  opening_row micros table watching.reader confirmed loss.wall loss.monotonic_ms
                    (some (disconnection_detail cause))
              | some existing ↦ existing
            ]))
          × (state.1 ≡ lost)
          × (open_row_for after watching.reader ≡ none)
          × IsPaired after)
  unfolding happen happen_all record_connection write_connection
  happen_all-outage watching s table cause loss back before_loss before_back happenings p w a b o =
      let (paired, opened) =
        open_reader_gap-IsPaired micros table watching.reader confirmed loss.wall loss.monotonic_ms
          (some (disconnection_detail cause)) loss.accepted p in
      let s1 = connection_status micros earlier (some cause) s loss in
      let t1 =
        (open_reader_gap micros table watching.reader confirmed loss.wall loss.monotonic_ms
          (some (disconnection_detail cause)) loss.accepted).0 in
      let written : write_connection micros earlier s.watching (some cause) table loss ≡ t1 =
        rw w in
      let (s2, q, (d2, w2, g2)) =
        happen_all-IsDown watching _ happenings s1 t1 o (refl, w, opened a) in
      let ends : happen_all micros earlier happenings
            (s1, write_connection micros earlier s.watching (some cause) table loss)
          ≡ (s2, t1) =
        ap (λ (t : List (GapRow I)). happen_all micros earlier happenings (s1, t)) written ∙ q in
      let (shut, none_left) =
        close_reader_gap-IsPaired micros t1 watching.reader back.wall back.monotonic_ms
          (some (codes "the reader connected")) back.accepted paired in
      (
        ap (λ (t : List (GapRow I)). open_row_for t watching.reader) written ∙ opened a,
        ap (λ (x : ReaderStatus × List (GapRow I)). x.1) ends ∙ sym written,
        rw (ends, w2) (none_left b),
        rw (ends, w2) shut,
      )
