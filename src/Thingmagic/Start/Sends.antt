-- ===== src/Thingmagic/Start/Sends.antt =====
-- `send` of crates/splitforge-thingmagic/src/start.rs, when each write before it succeeded and when one
-- did not.
use splitforge.Prelude.{
  ℕ, zero, suc, ◌+◌, ◌≤◌, ◌<◌, Bool, true, false, List, [], ◌∷◌, ◌++◌, append-nil, Option, none,
  some, length, get_elem?, take, ◌≡◌, refl, ap, sym, subst, ◌∙◌, arith, done, Result, ok, err, All,
  inl, inr, ◌⊎◌,
}
use splitforge.Thingmagic.Frame.{Response}
use splitforge.Thingmagic.Command.Frames.{frame_of}
use splitforge.Thingmagic.Start.{
  Step, Starting, Progress, waiting, started, IoError, not_written, Reply, answer_timeout, send,
  send_step, silent,
}
use splitforge.Thingmagic.Start.Pump.{next_written, next_progress}
use splitforge.Thingmagic.Start.Order.{
  Fits, frames, Vouched, Skips, nothing, framed, skipped, Holds, get_elem?-cases, take-length,
  length-map_frames, frames-take-suc, All-get_elem?, send_step-frame_of, send_step-not_written,
}

abbrev pub attempt : Bool → Step → Starting → ℕ → Reply
attempt true step s now = record {
  after = record s { deadline = some (now + answer_timeout) };
  sent = frame_of step.command ∷ [];
  outcome = ok waiting;
}
attempt false step s now = record { after = s; sent = []; outcome = err not_written }

-- Sending the command at a place: there is none, or its frame is written, or it is not.
pub send-cases :
    (all : List Step) (s : Starting) (writable : Bool) (now : ℕ)
    → All Fits all
    → s.steps ≡ all
    → s.next ≤ length all
    → ((s.next ≡ length all)
        × (send s writable now ≡ done (silent (record s { deadline = none }) started)))
      ⊎ ((step : Step) × (get_elem? all s.next ≡ some step)
          × (s.next < length all)
          × (take (suc s.next) all ≡ take s.next all ++ step ∷ [])
          × (send s writable now ≡ done (attempt writable step s now)))
unfolding send send_step
send-cases all s writable now fit kept within = elim (get_elem?-cases all s.next within) [
  | inl (e, q) ↦ inl (e, (rw (kept, q, send_step)))
  | inr (step, q, l, t) ↦
      let here = All-get_elem? Fits all s.next step fit q in
      inr (
        step,
        q,
        l,
        t,
        ap (λ (o : Option Step). send_step o s writable now)
              (ap (λ (x : List Step). get_elem? x s.next) kept ∙ q)
            ∙ either step here writable,
      )
]
  where
    either :
        (step : Step)
        → Fits step
        → (writable : Bool)
        → send_step (some step) s writable now ≡ done (attempt writable step s now)
    either step here true = send_step-frame_of step s now here
    either step here false = send_step-not_written step s now here

-- The first frames of the sequence, with none left out
take-Skips : (all : List Step) (k : ℕ) → k ≤ length all → Skips all k (take k (frames all))
take-Skips all zero h = nothing
take-Skips all (suc k) h = elim (get_elem?-cases all k (omega arith)) [
  | inl (e, q) ↦ absurd (omega arith)
  | inr (step, q, l, t) ↦
      subst (Skips all (suc k)) (sym (frames-take-suc all k step t))
        (framed step q (take-Skips all k (omega arith)))
]

abbrev pub Sends :
    List Step
    → Result Unit IoError
    → Progress
    → Starting
    → List (List ℕ)
    → List (Option Response)
    → Bool
    → ℕ
    → Type 0
Sends all written progress s sent passed writable now =
    (r : Reply) × (send s writable now ≡ done r)
    × (r.after.next ≡ s.next)
    × Holds all (next_written r.outcome written) (next_progress r.outcome progress) r.after
        (sent ++ r.sent) passed

-- Sending a command, when all before it were sent and passed.
pub send-Holds :
    (all : List Step) (progress : Progress) (s : Starting) (sent : List (List ℕ))
    (passed : List (Option Response)) (writable : Bool) (now : ℕ)
    → All Fits all
    → s.steps ≡ all
    → s.next ≤ length all
    → sent ≡ take s.next (frames all)
    → Vouched (take s.next all) passed
    → Sends all (ok tt) progress s sent passed writable now
send-Holds all progress s sent passed writable now fit kept within order v =
    elim (send-cases all s writable now fit kept within) [
      | inl (e, q) ↦ (
        silent (record s { deadline = none }) started,
        q,
        refl,
        (
          append-nil sent
              ∙ order
              ∙ take-length (frames all) s.next (e ∙ sym (length-map_frames all)),
          subst (λ (t : List Step). Vouched t passed) (take-length all s.next e) v,
          refl,
        ),
      )
      | inr (step, q, l, t, e) ↦ at_step step q l t writable e
    ]
  where
    at_step :
        (step : Step)
        → get_elem? all s.next ≡ some step
        → s.next < length all
        → take (suc s.next) all ≡ take s.next all ++ step ∷ []
        → (writable : Bool) → send s writable now ≡ done (attempt writable step s now)
        → Sends all (ok tt) progress s sent passed writable now
    at_step step q l t true e = (
      attempt true step s now,
      e,
      refl,
      record {
        steps_kept = kept;
        in_order =
            ap (λ (x : List (List ℕ)). x ++ frame_of step.command ∷ []) order
            ∙ sym (frames-take-suc all s.next step t);
        vouched = v;
        within = l;
        is_awaited = (now + answer_timeout, refl);
      },
    )
    at_step step q l t false e = (
      attempt false step s now,
      e,
      refl,
      record {
        steps_kept = kept;
        vouched = v;
        within = within;
        reached = suc s.next;
        in_sequence = omega arith;
        skips = skipped (
            subst (Skips all s.next) (sym order ∙ sym (append-nil sent))
              (take-Skips all s.next within));
        here = inl refl;
      },
    )

-- Sending a command behind a write that failed.
pub send-IsSkipping :
    (all : List Step) (e : IoError) (progress : Progress) (s : Starting) (sent : List (List ℕ))
    (passed : List (Option Response)) (writable : Bool) (now : ℕ)
    → All Fits all
    → s.steps ≡ all
    → s.next ≤ length all
    → Skips all s.next sent
    → Vouched (take s.next all) passed
    → Sends all (err e) progress s sent passed writable now
send-IsSkipping all e progress s sent passed writable now fit kept within skips v =
    elim (send-cases all s writable now fit kept within) [
      | inl (n, q) ↦ (
        silent (record s { deadline = none }) started,
        q,
        refl,
        record {
          steps_kept = kept;
          vouched = v;
          within = within;
          reached = s.next;
          in_sequence = within;
          skips = subst (Skips all s.next) (sym (append-nil sent)) skips;
          here = inr refl;
        },
      )
      | inr (step, q, l, t, m) ↦ at_step step q l writable m
    ]
  where
    at_step :
        (step : Step)
        → get_elem? all s.next ≡ some step
        → s.next < length all
        → (writable : Bool) → send s writable now ≡ done (attempt writable step s now)
        → Sends all (err e) progress s sent passed writable now
    at_step step q l true m = (
      attempt true step s now,
      m,
      refl,
      record {
        steps_kept = kept;
        vouched = v;
        within = within;
        reached = suc s.next;
        in_sequence = omega arith;
        skips = framed step q skips;
        here = inl refl;
      },
    )
    at_step step q l false m = (
      attempt false step s now,
      m,
      refl,
      record {
        steps_kept = kept;
        vouched = v;
        within = within;
        reached = suc s.next;
        in_sequence = omega arith;
        skips = skipped (subst (Skips all s.next) (sym (append-nil sent)) skips);
        here = inl refl;
      },
    )
