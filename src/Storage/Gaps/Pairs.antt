-- ===== src/Storage/Gaps/Pairs.antt =====
-- The gaps that the rows of crates/splitforge-storage/src/journal.rs pair up to.
use splitforge.Prelude.{
  ℕ, suc, ◌≤◌, ◌<◌, Bool, true, false, ◌||◌, ◌==◌, List, [], ◌∷◌, Option, none, some, ◌≡◌, refl,
  sym, ap, ◌∙◌, subst, arith, Bool-cases, Option-cases, inl, inr,
}
use splitforge.Prelude.Text.{◌=ₜ◌}
use splitforge.Prelude.Text.Trim.{=ₜ_refl, =ₜ_eq}
use splitforge.Domain.Gap.{GapEdge, opened_edge, closed_edge, GapDetection}
use splitforge.Storage.Gaps.{
  GapRow, is_opened, is_seq, is_closed, is_candidate, first_open, open_row_for, next_seq,
  open_reader_gap, close_reader_gap, open_unless, close_found, opening_row,
}

module _ {I : Type 0} where
  -- What an edge needs of the rows before it: an opening needs that its reader has no gap open, and a
  -- closing closes the gap of its reader that is.
  abbrev pub Follows : GapEdge → Option ℕ → Option (GapRow I) → Type 0
  Follows opened_edge closes before = (closes ≡ none) × (before ≡ none)
  Follows closed_edge closes before = (g : GapRow I) × (before ≡ some g) × (closes ≡ some g.seq)

  abbrev pub IsPaired : List (GapRow I) → Type 0
  IsPaired [] = Unit
  IsPaired (r ∷ rows) =
      (r.seq ≡ next_seq rows)
      × Follows r.edge r.closes_seq (open_row_for rows r.reader_id)
      × IsPaired rows

  is_candidate_parts :
      (table : List (GapRow I)) (r : GapRow I) (reader_id : List ℕ)
      → is_candidate table r reader_id ≡ true
      → (is_opened r.edge ≡ true) × (r.reader_id ≡ reader_id) × (is_closed table r.seq ≡ false)
  is_candidate_parts table r reader_id h =
      (ground arith, =ₜ_eq r.reader_id reader_id (ground arith), ground arith)

  -- A gap that is found open was opened before the next row, and is not closed.
  first_open-some :
      (table rows : List (GapRow I)) (reader_id : List ℕ) (g : GapRow I)
      → IsPaired rows
      → first_open table rows reader_id ≡ some g
      → (g.seq < next_seq rows) × (is_candidate table g reader_id ≡ true)
  unfolding first_open next_seq
  first_open-some table [] reader_id g p h = absurd cc
  first_open-some table (r ∷ rows) reader_id g (s, f, p) h =
      elim (Bool-cases (is_candidate table r reader_id)) [
        | inl c ↦ found c (some_inj (rw c at h))
        | inr c ↦
            let (l, d) = first_open-some table rows reader_id g p (rw c at h) in (omega arith, d)
      ]
    where
      some_inj : {a b : GapRow I} → some a ≡ some b → a ≡ b
      some_inj h = cc

      found :
          is_candidate table r reader_id ≡ true
          → r ≡ g
          → (g.seq < suc r.seq) × (is_candidate table g reader_id ≡ true)
      found c e =
          subst (λ (x : GapRow I). (x.seq < suc r.seq) × (is_candidate table x reader_id ≡ true)) e
            (omega arith, c)

  -- A row that is yet to come is closed by none.
  is_closed_next :
      (rows : List (GapRow I)) (seq : ℕ)
      → IsPaired rows
      → next_seq rows ≤ seq
      → is_closed rows seq ≡ false
  unfolding is_closed next_seq first_open open_row_for
  is_closed_next [] seq p h = refl
  is_closed_next (r ∷ rows) seq (s, f, p) h =
      let later = is_closed_next rows seq p (omega arith) in not_by r.edge f later
    where
      not_by :
          (edge : GapEdge)
          → Follows edge r.closes_seq (open_row_for rows r.reader_id)
          → is_closed rows seq ≡ false
          → (is_seq r.closes_seq seq || is_closed rows seq) ≡ false
      not_by opened_edge (none_closed, before) later = rw (none_closed, later)
      not_by closed_edge (g, before, closes) later =
          let (l, c) = first_open-some rows rows r.reader_id g p before in
          let other : (g.seq == seq) ≡ false = ground arith in rw (closes, later, other)

  -- What is closed by more is a candidate less often.
  is_candidate_more :
      (few many : List (GapRow I)) (r : GapRow I) (reader_id : List ℕ)
      → ((seq : ℕ) → is_closed few seq ≡ true → is_closed many seq ≡ true)
      → is_candidate few r reader_id ≡ false
      → is_candidate many r reader_id ≡ false
  is_candidate_more few many r reader_id more h = ground (arith, more r.seq)

  -- More closings leave no more gaps open.
  first_open-none :
      (few many rows : List (GapRow I)) (reader_id : List ℕ)
      → ((seq : ℕ) → is_closed few seq ≡ true → is_closed many seq ≡ true)
      → first_open few rows reader_id ≡ none
      → first_open many rows reader_id ≡ none
  unfolding first_open
  first_open-none few many [] reader_id more h = refl
  first_open-none few many (r ∷ rows) reader_id more h =
      elim (Bool-cases (is_candidate few r reader_id)) [
        | inl c ↦ absurd (some_none (rw c at h))
        | inr c ↦
            rw (is_candidate_more few many r reader_id more c)
              (first_open-none few many rows reader_id more (rw c at h))
      ]
    where
      some_none : {a : GapRow I} → some a ≡ none → ⊥
      some_none h = cc

  -- Once the gap that is open is closed, none is.
  first_open-closed :
      (table : List (GapRow I)) (c : GapRow I) (rows : List (GapRow I)) (reader_id : List ℕ)
      (g : GapRow I)
      → ((seq : ℕ) → is_closed rows seq ≡ true → is_closed table seq ≡ true)
      → IsPaired rows
      → first_open table rows reader_id ≡ some g
      → c.closes_seq ≡ some g.seq
      → first_open (c ∷ table) rows reader_id ≡ none
  unfolding first_open is_closed open_row_for
  first_open-closed table c [] reader_id g more p h e = absurd cc
  first_open-closed table c (r ∷ rows) reader_id g more (s, f, p) h e =
      let wider : (seq : ℕ) → is_closed rows seq ≡ true → is_closed table seq ≡ true =
        λ seq k. more seq (ground arith) in
      elim (Bool-cases (is_candidate table r reader_id)) [
        | inr o ↦
            rw (is_candidate_more table (c ∷ table) r reader_id (λ seq k. ground arith) o)
              (first_open-closed table c rows reader_id g wider p (rw o at h) e)
        | inl o ↦
            let same : r.seq ≡ g.seq = ap (λ (x : GapRow I). x.seq) (some_inj (rw o at h)) in
            let (opened, reader, kept) = is_candidate_parts table r reader_id o in
            let before : first_open rows rows reader_id ≡ none =
              ap (first_open rows rows) (sym reader) ∙ opened_before r.edge _ _ opened f in
            let shut : is_candidate (c ∷ table) r reader_id ≡ false = closed_now same in
            rw shut (
              first_open-none rows (c ∷ table) rows reader_id
                (λ seq k. or_right (is_seq c.closes_seq seq) (wider seq k)) before)
      ]
    where
      some_inj : {a b : GapRow I} → some a ≡ some b → a ≡ b
      some_inj h = cc

      or_right : (a : Bool) {b : Bool} → b ≡ true → (a || b) ≡ true
      or_right true h = refl
      or_right false h = h

      opened_before :
          (edge : GapEdge) (closes : Option ℕ) (b : Option (GapRow I))
          → is_opened edge ≡ true
          → Follows edge closes b
          → b ≡ none
      opened_before opened_edge closes b h f = f.1
      opened_before closed_edge closes b h f = absurd cc

      closed_now : r.seq ≡ g.seq → is_candidate (c ∷ table) r reader_id ≡ false
      closed_now same = ground (arith, e)

  open_row_for-closing :
      (table : List (GapRow I)) (c : GapRow I) (reader_id : List ℕ) (g : GapRow I)
      → IsPaired table
      → open_row_for table reader_id ≡ some g
      → c.edge ≡ closed_edge
      → c.closes_seq ≡ some g.seq
      → open_row_for (c ∷ table) reader_id ≡ none
  unfolding open_row_for first_open
  open_row_for-closing table c reader_id g p q e k =
      let shut : is_candidate (c ∷ table) c reader_id ≡ false = rw e in
      rw shut (first_open-closed table c table reader_id g (λ seq h. h) p q k)

  open_row_for-opening :
      (table : List (GapRow I)) (r : GapRow I) (reader_id : List ℕ)
      → IsPaired table
      → r.edge ≡ opened_edge
      → r.closes_seq ≡ none
      → r.reader_id ≡ reader_id
      → r.seq ≡ next_seq table
      → open_row_for (r ∷ table) reader_id ≡ some r
  unfolding open_row_for first_open is_closed
  open_row_for-opening table r reader_id p e k reader s =
      let fresh : is_closed table r.seq ≡ false = is_closed_next table r.seq p (omega arith) in
      let same : (r.reader_id =ₜ reader_id) ≡ true =
        ap (λ (t : List ℕ). t =ₜ reader_id) reader ∙ =ₜ_refl reader_id in
      rw (e, k, same, fresh)

  -- Opening a gap, whether or not the database takes it, leaves paired rows paired. When it does take
  -- it, the reader has a gap open: the one that was open before, or else the new one.
  pub open_reader_gap-IsPaired :
      (micros : I → I) (table : List (GapRow I)) (reader_id : List ℕ) (detection : GapDetection)
      (observed_at : I) (monotonic_ms : ℕ) (detail : Option (List ℕ)) (accepted : Bool)
      → IsPaired table
      → (let after =
            (open_reader_gap micros table reader_id detection observed_at monotonic_ms detail
              accepted).0 in
          IsPaired after
          × (accepted ≡ true
              → open_row_for after reader_id
                ≡ some (elim (open_row_for table reader_id) [
                  | none ↦
                      opening_row micros table reader_id detection observed_at monotonic_ms detail
                  | some existing ↦ existing
                ])))
  unfolding open_reader_gap open_unless
  open_reader_gap-IsPaired micros table reader_id detection observed_at monotonic_ms detail accepted
        p =
      elim (Option-cases (open_row_for table reader_id)) [
        | inr (g, q) ↦ rw q (p, λ a. q)
        | inl n ↦ rw n (inserted accepted n)
      ]
    where
      inserted :
          (accepted : Bool)
          → open_row_for table reader_id ≡ none
          → (let row =
                opening_row micros table reader_id detection observed_at monotonic_ms detail in
              let after = (open_unless micros none table row accepted).0 in
              IsPaired after × (accepted ≡ true → open_row_for after reader_id ≡ some row))
      inserted false n = (p, λ a. absurd cc)
      inserted true n =
          ((refl, (refl, n), p), λ a. open_row_for-opening table _ reader_id p refl refl refl refl)

  -- Closing the gap of a reader, whether or not the database takes it, leaves paired rows paired. When
  -- it does take it, the reader has no gap open.
  pub close_reader_gap-IsPaired :
      (micros : I → I) (table : List (GapRow I)) (reader_id : List ℕ) (observed_at : I)
      (monotonic_ms : ℕ) (detail : Option (List ℕ)) (accepted : Bool)
      → IsPaired table
      → (let after =
            (close_reader_gap micros table reader_id observed_at monotonic_ms detail accepted).0 in
          IsPaired after × (accepted ≡ true → open_row_for after reader_id ≡ none))
  unfolding close_reader_gap close_found
  close_reader_gap-IsPaired micros table reader_id observed_at monotonic_ms detail accepted p =
      elim (Option-cases (open_row_for table reader_id)) [
        | inl n ↦ rw n (p, λ a. n)
        | inr (g, q) ↦ rw q (taken accepted g q)
      ]
    where
      taken :
          (accepted : Bool) (g : GapRow I)
          → open_row_for table reader_id ≡ some g
          → IsPaired
              (close_found micros
                (some g)
                table
                reader_id
                observed_at
                monotonic_ms
                detail
                accepted).0
            × (accepted ≡ true
                → open_row_for
                    (close_found micros
                      (some g)
                      table
                      reader_id
                      observed_at
                      monotonic_ms
                      detail
                      accepted).0
                    reader_id
                  ≡ none)
      taken false g q = (p, λ a. absurd cc)
      taken true g q =
          ((refl, (g, q, refl), p), λ a. open_row_for-closing table _ reader_id g p q refl refl)
