-- ===== src/Thingmagic/Start/Awaiting.antt =====
-- When a start sequence of crates/splitforge-thingmagic/src/start.rs awaits an answer, and what it can
-- then do.
use splitforge.Prelude.{
  ℕ, suc, ◌+◌, ◌<◌, Bool, List, [], ◌∷◌, ◌++◌, length, Option, none, some, get_elem?, take, ◌≡◌,
  refl, ap, sym, subst, ◌∙◌, arith, Result, ok, err, All, inl, inr, ◌⊎◌,
}
use splitforge.Thingmagic.Frame.{Response}
use splitforge.Thingmagic.Start.{
  Step, Starting, Progress, waiting, started, refused, IoError, awaited,
}
use splitforge.Thingmagic.Start.Pump.{note}
use splitforge.Thingmagic.Start.Order.{
  Fits, frames, Vouch, Vouched, IsUnderway, Skips, IsSkipping, Holds, get_elem?-cases, Vouched-snoc,
}
use splitforge.Thingmagic.Start.Sends.{send-Holds, send-IsSkipping, Sends}

pub note-kept :
    (before after : Starting) (by : Option Response) (passed : List (Option Response))
    → after.next ≡ before.next
    → note before after by passed ≡ passed
note-kept before after by passed e = ground arith

pub note-passed :
    (before after : Starting) (by : Option Response) (passed : List (Option Response))
    → after.next ≡ before.next + 1
    → note before after by passed ≡ passed ++ by ∷ []
note-passed before after by passed e = ground arith

-- What is so of a sequence that awaits the answer to a command
pub record IsAwaiting (all : List Step) (written : Result Unit IoError) (s : Starting)
    (sent : List (List ℕ)) (passed : List (Option Response)) : Type 0 where
  pub step : Step
  pub is_step : awaited s ≡ some step
  pub following : take (suc s.next) all ≡ take s.next all ++ step ∷ []
  pub steps_kept : s.steps ≡ all
  pub vouched : Vouched (take s.next all) passed
  pub within : s.next < length all
  -- It goes on whether a command is refused or is passed.
  pub any_progress :
      (progress : Progress) → (progress ≡ started → ⊥) → Holds all written progress s sent passed
  pub sends :
      (progress : Progress) (s' : Starting) (by : Option Response) (writable : Bool) (now : ℕ)
      → s'.steps ≡ s.steps
      → s'.next ≡ s.next + 1
      → Vouch step by
      → Sends all written progress s' sent (passed ++ by ∷ []) writable now

deadline-cases :
    (o : Option ℕ) (x : Option Step)
    → ((elim o [ none ↦ none | some deadline ↦ x ]) ≡ none)
      ⊎ ((t : ℕ) × (o ≡ some t) × (elim o [ none ↦ none | some deadline ↦ x ] ≡ x))
deadline-cases none x = inl refl
deadline-cases (some t) x = inr (t, refl, refl)

-- The step that is passed counts with those before it.
passed_with :
    (all : List Step) (s s' : Starting) (passed : List (Option Response)) (step : Step)
    (by : Option Response)
    → take (suc s.next) all ≡ take s.next all ++ step ∷ []
    → Vouched (take s.next all) passed
    → s'.next ≡ s.next + 1
    → Vouch step by
    → Vouched (take s'.next all) (passed ++ by ∷ [])
passed_with all s s' passed step by t w n v =
    let n' : s'.next ≡ suc s.next = omega arith in
    subst (λ (l : List Step). Vouched l (passed ++ by ∷ []))
      (sym t ∙ ap (λ (i : ℕ). take i all) (sym n'))
      (Vouched-snoc (take s.next all) passed step by w v)

IsUnderway-Holds :
    (all : List Step) (s : Starting) (sent : List (List ℕ)) (passed : List (Option Response))
    → IsUnderway all s sent passed
    → (progress : Progress) → (progress ≡ started → ⊥)
    → Holds all (ok tt) progress s sent passed
IsUnderway-Holds all s sent passed w waiting h = w
IsUnderway-Holds all s sent passed w (refused why) h = w
IsUnderway-Holds all s sent passed w started h = absurd (h refl)

pub IsUnderway-IsAwaiting :
    (all : List Step) (s : Starting) (sent : List (List ℕ)) (passed : List (Option Response))
    → All Fits all
    → IsUnderway all s sent passed
    → IsAwaiting all (ok tt) s sent passed
IsUnderway-IsAwaiting all s sent passed fit w =
    elim (get_elem?-cases all s.next (omega (arith, w.within))) [
      | inl (e, q) ↦ absurd (omega (arith, w.within))
      | inr (step, q, l, t) ↦ record {
        step = step;
        is_step =
            ap (λ (d : Option ℕ). elim d [ none ↦ none | some deadline ↦ get_elem? s.steps s.next ])
              w.is_awaited.1
            ∙ ap (λ (x : List Step). get_elem? x s.next) w.steps_kept
            ∙ q;
        following = t;
        steps_kept = w.steps_kept;
        vouched = w.vouched;
        within = l;
        any_progress = IsUnderway-Holds all s sent passed w;
        sends = λ progress s' by writable now k n v.
            let n' : suc s.next ≡ s'.next = omega arith in
            send-Holds all progress s' sent (passed ++ by ∷ []) writable now fit (k ∙ w.steps_kept)
              (omega arith) (w.in_order ∙ ap (λ (i : ℕ). take i (frames all)) n')
              (passed_with all s s' passed step by t w.vouched n v);
      }
    ]

no_step : {A : Type 0} {x : A} → none ≡ some x → ⊥
no_step h = cc

IsSkipping-reached :
    (all : List Step) (s : Starting) (sent : List (List ℕ)) (passed : List (Option Response))
    (step : Step) (w : IsSkipping all s sent passed)
    → awaited s ≡ some step
    → (awaited s ≡ get_elem? all s.next) × (w.reached ≡ suc s.next)
IsSkipping-reached all s sent passed step w a =
    elim (deadline-cases s.deadline (get_elem? s.steps s.next)) [
      | inl e ↦ absurd (no_step (sym e ∙ a))
      | inr (t, d, f) ↦ (
        f ∙ ap (λ (x : List Step). get_elem? x s.next) w.steps_kept,
        elim w.here [ inl r ↦ r | inr n ↦ absurd (no_step (sym n ∙ d)) ],
      )
    ]

IsSkipping-IsAwaiting :
    (all : List Step) (e : IoError) (s : Starting) (sent : List (List ℕ))
    (passed : List (Option Response)) (step : Step)
    → All Fits all
    → IsSkipping all s sent passed
    → awaited s ≡ some step
    → IsAwaiting all (err e) s sent passed
IsSkipping-IsAwaiting all e s sent passed step fit w a =
    let (found, r) = IsSkipping-reached all s sent passed step w a in
    elim (get_elem?-cases all s.next w.within) [
      | inl (n, q) ↦ absurd (no_step (sym (found ∙ q) ∙ a))
      | inr (step', q, l, t) ↦ record {
        step = step';
        is_step = found ∙ q;
        following = t;
        steps_kept = w.steps_kept;
        vouched = w.vouched;
        within = l;
        any_progress = λ progress h. w;
        sends = λ progress s' by writable now k n v.
            let n' : w.reached ≡ s'.next = omega arith in
            send-IsSkipping all e progress s' sent (passed ++ by ∷ []) writable now fit
              (k ∙ w.steps_kept) (omega arith) (subst (λ (i : ℕ). Skips all i sent) n' w.skips)
              (passed_with all s s' passed step' by t w.vouched n v);
      }
    ]

pub awaiting :
    (all : List Step) (written : Result Unit IoError) (progress : Progress) (s : Starting)
    (sent : List (List ℕ)) (passed : List (Option Response)) (step : Step)
    → All Fits all
    → Holds all written progress s sent passed
    → awaited s ≡ some step
    → IsAwaiting all written s sent passed
awaiting all (ok u) waiting s sent passed step fit w a =
    IsUnderway-IsAwaiting all s sent passed fit w
awaiting all (ok u) (refused why) s sent passed step fit w a =
    IsUnderway-IsAwaiting all s sent passed fit w
awaiting all (ok u) started s sent passed step fit (f, v, d) a = absurd (
    no_step (
      sym
        (ap (λ (o : Option ℕ). elim o [ none ↦ none | some deadline ↦ get_elem? s.steps s.next ]) d)
      ∙ a))
awaiting all (err e) progress s sent passed step fit w a =
    IsSkipping-IsAwaiting all e s sent passed step fit w a
