-- ===== src/Engine/Derive/Kept.antt =====
-- `derive` of crates/splitforge-engine/src/lib.rs leaves no read out: each is credited or rejected.
use splitforge.Prelude.{
  ℕ, Bool, true, false, ◌||◌, List, [], ◌∷◌, ◌++◌, Option, none, some, ◌==◌, ◌≡◌, refl, ap, ◌∙◌,
  Bool-cases, inl, inr, arith,
}
use splitforge.Prelude.Int.{ℤ}
use splitforge.Prelude.Map.{update, sort_by, insert_sorted}
use splitforge.Domain.Time.{TimeApi}
use splitforge.Domain.Policy.{SelectionRule, selection_rule_for, min_interval_ms_for}
use splitforge.Domain.Entity.{AntennaMap, resolve_antenna}
use splitforge.Domain.Event.{
  StoredRawRead, AcceptedRead, RejectedRead, RejectionReason, unmapped_reader, below_min_lap,
  below_rssi_floor, UuidApi, new_accepted,
}
use splitforge.Engine.Bursts.{at_of, split_loop, split_into_bursts, select}
use splitforge.Engine.Bursts.Cuts.{Cut, ends, joins, parts, split_into_bursts-Cut}
use splitforge.Engine.Derive.{
  DerivationInput, Progress, ltb_group, reject_all, place_read, reject, group_reads, crossing_of,
  floor_of, read_before, window_of, settle, take_chosen, suppress, credit, take_burst, take_bursts,
  take_groups, derive,
}

abbrev pub any : {A : Type 0} → (A → Bool) → List A → Bool
any test [] = false
any test (x ∷ xs) = test x || any test xs

module _ {A : Type 0} (test : A → Bool) where
  any-append : (xs ys : List A) → any test (xs ++ ys) ≡ any test xs || any test ys
  any-append [] ys = refl
  any-append (x ∷ xs) ys = let ih = any-append xs ys in ground arith

  any-insert_sorted :
      (lt : A → A → Bool) (x : A) (xs : List A)
      → any test (insert_sorted lt x xs) ≡ test x || any test xs
  unfolding insert_sorted
  any-insert_sorted lt x [] = refl
  any-insert_sorted lt x (y ∷ ys) = let ih = any-insert_sorted lt x ys in ground arith

  any-sort_by : (lt : A → A → Bool) (xs : List A) → any test (sort_by lt xs) ≡ any test xs
  unfolding sort_by
  any-sort_by lt [] = refl
  any-sort_by lt (x ∷ xs) =
      any-insert_sorted lt x (sort_by lt xs) ∙ ap (λ (b : Bool). test x || b) (any-sort_by lt xs)

or_assoc : (a b c : Bool) → (a || b) || c ≡ a || (b || c)
or_assoc a b c = ground arith

or_right : (a b : Bool) → b ≡ true → a || b ≡ true
or_right a b h = ground arith

or_skip : (a b c : Bool) → a || (b || c) ≡ true → a || b ≡ false → c ≡ true
or_skip a b c h k = ground arith

or_swap : (a b : Bool) → b || a ≡ true → (a || false) || b ≡ true
or_swap a b h = ground arith

or_both : {a b c d : Bool} → a ≡ b → c ≡ d → a || c ≡ b || d
or_both h k = ground arith

or_left : (a b : Bool) → a ≡ true → a || b ≡ true
or_left a b h = ground arith

-- What `entry(k).or_default().push(x)` does to a test of the elements.
any-push :
    {K A : Type 0} (lt : K → K → Bool) (test : A → Bool) (k : K) (x : A)
    (groups : List (K × List A))
    → any
        (λ g. any test g.1)
        (update lt k (λ held. (elim held [ none ↦ [] | some group ↦ group ]) ++ x ∷ []) groups)
      ≡ any (λ g. any test g.1) groups || test x
unfolding update
any-push lt test k x [] = ground arith
any-push lt test k x ((j, group) ∷ groups) =
    let ih = any-push lt test k x groups in
    let both = any-append test group (x ∷ []) in ground arith

module _ (id : ℕ) where
  abbrev pub is_read : {I : Type 0} → StoredRawRead I → Bool
  is_read stored = stored.read.id == id

  abbrev pub is_rejected : List RejectedRead → Bool
  is_rejected rejected = any (λ r. r.raw_read == id) rejected

  abbrev pub is_credited : {I : Type 0} → List (AcceptedRead I) → Bool
  is_credited accepted = any (λ a. a.source_raw_read == id) accepted

  abbrev is_kept : {I : Type 0} → Progress I → Bool
  is_kept p = is_rejected p.rejected || is_credited p.accepted

  any-place_read :
      {I : Type 0} (checkpoint : Option ℕ) (stored : StoredRawRead I)
      (groups : List ((List ℕ × ℕ) × List (StoredRawRead I))) (rejected : List RejectedRead)
      → any (λ g. any is_read g.1) (place_read checkpoint stored groups rejected).0
          || is_rejected (place_read checkpoint stored groups rejected).1
        ≡ (any (λ g. any is_read g.1) groups || is_rejected rejected) || is_read stored
  unfolding place_read
  any-place_read (some checkpoint) stored groups rejected =
      let both = any-push ltb_group is_read (stored.read.chip, checkpoint) stored groups in
      ground arith
  any-place_read none stored groups rejected =
      let both =
        any-append (λ (r : RejectedRead). r.raw_read == id) rejected
          (reject stored (unmapped_reader stored.read.source stored.read.antenna) ∷ []) in
      ground arith

  any-group_reads :
      {I : Type 0} (antennas : AntennaMap) (reads : List (StoredRawRead I))
      (groups : List ((List ℕ × ℕ) × List (StoredRawRead I))) (rejected : List RejectedRead)
      → any (λ g. any is_read g.1) (group_reads antennas reads groups rejected).0
          || is_rejected (group_reads antennas reads groups rejected).1
        ≡ (any (λ g. any is_read g.1) groups || is_rejected rejected) || any is_read reads
  unfolding group_reads
  any-group_reads antennas [] groups rejected = ground arith
  any-group_reads antennas (stored ∷ reads) groups rejected =
      let checkpoint = resolve_antenna antennas stored.read.source stored.read.antenna in
      let next = place_read checkpoint stored groups rejected in
      any-group_reads antennas reads next.0 next.1
      ∙ ap (λ (b : Bool). b || any is_read reads) (any-place_read checkpoint stored groups rejected)
      ∙ or_assoc (any (λ g. any is_read g.1) groups || is_rejected rejected) (is_read stored)
          (any is_read reads)

  any-reject_all :
      {I : Type 0} (burst : List (StoredRawRead I)) (reason : StoredRawRead I → RejectionReason)
      → is_rejected (reject_all burst reason) ≡ any is_read burst
  any-reject_all [] reason = refl
  any-reject_all (stored ∷ burst) reason =
      ap (λ (b : Bool). is_read stored || b) (any-reject_all burst reason)

module _ (T : TimeApi) (U : UuidApi) (id : ℕ) where
  open T use {Instant}

  Cut-any :
      {window : ℕ} {x : StoredRawRead Instant} {reads burst : List (StoredRawRead Instant)}
      {bursts : List (List (StoredRawRead Instant))}
      → Cut T window x reads burst bursts
      → any (is_read id) burst || any (λ b. any (is_read id) b) bursts ≡ any (is_read id) reads
  Cut-any ends = refl
  Cut-any (joins {x} {y} h c) = let ih = Cut-any c in ground arith
  Cut-any (parts {x} {y} h c) = let ih = Cut-any c in ground arith

  any-suppress :
      (burst : List (StoredRawRead Instant)) (chosen accepted : ℕ) (at : Instant)
      → (chosen == id) || is_rejected id (suppress T U burst chosen accepted at)
        ≡ (chosen == id) || any (is_read id) burst
  unfolding suppress
  any-suppress [] chosen accepted at = refl
  any-suppress (stored ∷ burst) chosen accepted at =
      let ih = any-suppress burst chosen accepted at in ground arith

  is_kept-settle :
      (lap : Option (ℕ × ℤ)) (input : DerivationInput Instant) (place : List ℕ × ℕ)
      (burst : List (StoredRawRead Instant)) (chosen : StoredRawRead Instant) (p : Progress Instant)
      → is_kept id p || any (is_read id) burst ≡ true
      → is_kept id (settle T U lap input place burst chosen p) ≡ true
  unfolding settle new_accepted
  is_kept-settle (some (min_lap_ms, actual_ms)) input place burst chosen p h =
      let reason = λ (s : StoredRawRead Instant). below_min_lap min_lap_ms actual_ms in
      let all = any-reject_all id burst reason in
      let both =
        any-append (λ (r : RejectedRead). r.raw_read == id) p.rejected (reject_all burst reason) in
      ground arith
  is_kept-settle none input place burst chosen p h =
      let crossing = crossing_of T U input place burst chosen in
      let others = suppress T U burst chosen.read.id crossing.id (at_of chosen) in
      let all = any-suppress burst chosen.read.id crossing.id (at_of chosen) in
      let left = any-append (λ (r : RejectedRead). r.raw_read == id) p.rejected others in
      let right =
        any-append (λ (a : AcceptedRead Instant). a.source_raw_read == id) p.accepted
          (crossing ∷ []) in
      ground arith

  is_kept-take_chosen :
      (chosen : Option (StoredRawRead Instant)) (input : DerivationInput Instant)
      (place : List ℕ × ℕ) (rule : SelectionRule) (burst : List (StoredRawRead Instant))
      (p : Progress Instant)
      → is_kept id p || any (is_read id) burst ≡ true
      → is_kept id (take_chosen T U chosen input place rule burst p) ≡ true
  unfolding take_chosen credit
  is_kept-take_chosen none input place rule burst p h =
      let reason =
        λ (s : StoredRawRead Instant). below_rssi_floor s.read.rssi_dbm (floor_of rule) in
      let all = any-reject_all id burst reason in
      let both =
        any-append (λ (r : RejectedRead). r.raw_read == id) p.rejected (reject_all burst reason) in
      ground arith
  is_kept-take_chosen (some chosen) input place rule burst p h =
      is_kept-settle _ input place burst chosen p h

  is_kept-take_bursts :
      (input : DerivationInput Instant) (place : List ℕ × ℕ) (rule : SelectionRule)
      (bursts : List (List (StoredRawRead Instant))) (p : Progress Instant)
      → is_kept id p || any (λ b. any (is_read id) b) bursts ≡ true
      → is_kept id (take_bursts T U input place rule bursts p) ≡ true
  unfolding take_bursts take_burst
  is_kept-take_bursts input place rule [] p h = ground arith
  is_kept-take_bursts input place rule (burst ∷ bursts) p h =
      is_kept-take_bursts input place rule bursts _
        (elim (Bool-cases (is_kept id p || any (is_read id) burst)) [
          | inl e ↦ or_left _ _ (is_kept-take_chosen (select burst rule) input place rule burst p e)
          | inr e ↦ or_right _ _ (or_skip (is_kept id p) (any (is_read id) burst) _ h e)
        ])

  any-split_into_bursts :
      (window : ℕ) (reads : List (StoredRawRead Instant))
      → any (λ b. any (is_read id) b) (split_into_bursts T reads window) ≡ any (is_read id) reads
  unfolding split_into_bursts split_loop
  any-split_into_bursts window [] = refl
  any-split_into_bursts window (x ∷ reads) =
      let (burst, rest, c, e) = split_into_bursts-Cut T window x reads in
      ap (any (λ b. any (is_read id) b)) e
      ∙ or_assoc (is_read id x) (any (is_read id) burst) (any (λ b. any (is_read id) b) rest)
      ∙ ap (λ (b : Bool). is_read id x || b) (Cut-any c)

  is_kept-take_groups :
      (input : DerivationInput Instant)
      (groups : List ((List ℕ × ℕ) × List (StoredRawRead Instant))) (p : Progress Instant)
      → is_kept id p || any (λ g. any (is_read id) g.1) groups ≡ true
      → is_kept id (take_groups T U input groups p) ≡ true
  unfolding take_groups
  is_kept-take_groups input [] p h = ground arith
  is_kept-take_groups input ((place, group) ∷ groups) p h =
      let sorted = sort_by (read_before T U) group in
      let window = window_of T U (min_interval_ms_for input.policy place.1) in
      let bursts = split_into_bursts T sorted window in
      let cut =
        any-split_into_bursts window sorted ∙ any-sort_by (is_read id) (read_before T U) group in
      is_kept-take_groups input groups _
        (elim (Bool-cases (is_kept id p || any (is_read id) group)) [
          | inl e ↦ or_left _ _ (
              is_kept-take_bursts input place (selection_rule_for input.policy place.1) bursts
                (record p { last_credited = none }) (ap (λ (b : Bool). is_kept id p || b) cut ∙ e))
          | inr e ↦ or_right _ _ (or_skip (is_kept id p) (any (is_read id) group) _ h e)
        ])

  -- Every read that `derive` is given is rejected with a reason or credited as the source of a crossing.
  pub is_kept-derive :
      (input : DerivationInput Instant)
      → any (is_read id) input.reads ≡ true
      → is_rejected id (derive T U input).rejected || is_credited id (derive T U input).accepted
        ≡ true
  unfolding derive
  is_kept-derive input h =
      let grouped = group_reads input.antennas input.reads [] [] in
      let p : Progress Instant = record {
        rejected = grouped.1;
        accepted = [];
        race_sides = [];
        last_credited = none;
      } in
      let all = take_groups T U input grouped.0 p in
      let kept = is_kept-take_groups input grouped.0 p (
        or_swap (is_rejected id grouped.1) (any (λ g. any (is_read id) g.1) grouped.0)
          (any-group_reads id input.antennas input.reads [] [] ∙ h)) in
      or_both (any-sort_by (λ (r : RejectedRead). r.raw_read == id) _ all.rejected)
        (any-sort_by (λ (a : AcceptedRead Instant). a.source_raw_read == id) _ all.accepted)
      ∙ kept
