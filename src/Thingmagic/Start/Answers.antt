-- ===== src/Thingmagic/Start/Answers.antt =====
-- What an answer and a look at the deadline do to a start sequence of
-- crates/splitforge-thingmagic/src/start.rs within `pump` of provider.rs.
use splitforge.Prelude.{
  ℕ, ◌+◌, Bool, true, not, ◌&&◌, List, [], ◌++◌, append-nil, Option, none, some, ◌≡◌, refl, ap, sym,
  subst, ◌∙◌, arith, Run, done, Result, ok, All, Bool-cases, ltb, inl, inr,
}
use splitforge.Thingmagic.Frame.{Response, is_ok}
use splitforge.Thingmagic.Command.Codes.{to_byte}
use splitforge.Thingmagic.Start.{
  Step, Starting, Progress, waiting, started, refused, Refusal, IoError, Reply, awaited, send,
  claims, claims_step, answer, answer_step, tick, tick_step, silent, passed_by, status, no_answer,
}
use splitforge.Thingmagic.Start.Pump.{Pumping, noted, next_progress, next_written}
use splitforge.Thingmagic.Start.Order.{Fits, Vouch, IsUnderway, Holds}
use splitforge.Thingmagic.Start.Awaiting.{
  note-kept, note-passed, IsAwaiting, IsUnderway-IsAwaiting, awaiting,
}

abbrev pub Sound : List Step → Pumping → Type 0
Sound all p = Holds all p.written p.progress p.starting p.sent p.passed

-- A reply whose reaction keeps what holds.
abbrev Keeps : List Step → Pumping → Option Response → Run Reply → Type 0
Keeps all p by m = (r : Reply) × (m ≡ done r) × Sound all (noted by r p)

staying :
    (all : List Step) (p : Pumping) (by : Option Response) (progress : Progress)
    → IsAwaiting all p.written p.starting p.sent p.passed
    → (progress ≡ started → ⊥)
    → Keeps all p by (done (silent p.starting progress))
staying all p by progress w h = (
  silent p.starting progress,
  refl,
  subst (Holds all p.written progress p.starting (p.sent ++ []))
      (sym (note-kept p.starting p.starting by p.passed refl))
      (subst (λ (f : List (List ℕ)). Holds all p.written progress p.starting f p.passed)
        (sym (append-nil p.sent)) (w.any_progress progress h)),
)

passing :
    (all : List Step) (p : Pumping) (s' : Starting) (by : Option Response) (writable : Bool)
    (now : ℕ) (w : IsAwaiting all p.written p.starting p.sent p.passed)
    → s'.steps ≡ p.starting.steps
    → s'.next ≡ p.starting.next + 1
    → Vouch w.step by
    → Keeps all p by (send s' writable now)
passing all p s' by writable now w k n v =
    let (r, q, m, h) = w.sends p.progress s' by writable now k n v in
    (
      r,
      q,
      subst
          (Holds all (next_written r.outcome p.written) (next_progress r.outcome p.progress) r.after
            (p.sent ++ r.sent))
          (sym (note-passed p.starting r.after by p.passed (m ∙ n))) h,
    )

claims-awaited :
    (o : Option Step) (r : Response) → claims_step o r ≡ true → (step : Step) × (o ≡ some step)
unfolding claims_step
claims-awaited none r h = absurd cc
claims-awaited (some step) r h = (step, refl)

claims-opcode :
    (step : Step) (r : Response)
    → claims_step (some step) r ≡ true
    → r.opcode ≡ to_byte step.command.opcode
unfolding claims_step
claims-opcode step r h = grind arith

not_started_by : {why : Refusal} → refused why ≡ started → ⊥
not_started_by h = cc

-- An answer that the sequence claims.
pub answer-Keeps :
    (all : List Step) (p : Pumping) (r : Response) (writable : Bool) (now : ℕ)
    → All Fits all
    → Sound all p
    → claims p.starting r ≡ true
    → Keeps all p (some r) (answer p.starting r writable now)
unfolding answer answer_step claims
answer-Keeps all p r writable now fit sound h =
    let s = p.starting in
    let (some_step, a) = claims-awaited (awaited s) r h in
    let w = awaiting all p.written p.progress s p.sent p.passed some_step fit sound a in
    let take_answer : claims_step (some w.step) r ≡ true = rw (sym w.is_step) h in
    let answers : answer_step (awaited s) s r writable now
        ≡ answer_step (some w.step) s r writable now =
      ap (λ (o : Option Step). answer_step o s r writable now) w.is_step in
    elim (Bool-cases (w.step.must_succeed && not (is_ok r))) [
      | inl bad ↦
          let (reply, q, k) =
            staying all p (some r) (refused (status w.step.command.opcode r.status)) w
              not_started_by in
          (reply, answers ∙ (rw bad) ∙ q, k)
      | inr good ↦
          let (reply, q, k) =
            passing all p (passed_by s w.step r) (some r) writable now w refl refl
              (claims-opcode w.step r take_answer, good) in
          (reply, answers ∙ (rw good) ∙ q, k)
    ]

-- A look at the deadline, while the sequence waits and each write has succeeded.
pub tick-Keeps :
    (all : List Step) (p : Pumping) (writable : Bool) (now : ℕ)
    → All Fits all
    → Sound all p
    → p.progress ≡ waiting
    → p.written ≡ ok tt
    → Keeps all p none (tick p.starting writable now)
unfolding tick tick_step
tick-Keeps all p writable now fit sound waits well =
    let s = p.starting in
    let going : IsUnderway all s p.sent p.passed =
      subst (λ (o : Progress). Holds all (ok tt) o s p.sent p.passed) waits
        (subst (λ (o : Result Unit IoError). Holds all o p.progress s p.sent p.passed) well
          sound) in
    let w : IsAwaiting all p.written s p.sent p.passed =
      subst (λ (o : Result Unit IoError). IsAwaiting all o s p.sent p.passed) (sym well)
        (IsUnderway-IsAwaiting all s p.sent p.passed fit going) in
    let (deadline, d) = going.is_awaited in
    let ticks : tick_step s.deadline (awaited s) s writable now
        ≡ tick_step (some deadline) (some w.step) s writable now =
      ap (λ (o : Option ℕ). tick_step o (awaited s) s writable now) d
      ∙ ap (λ (o : Option Step). tick_step (some deadline) o s writable now) w.is_step in
    elim (Bool-cases (ltb now deadline)) [
      | inl early ↦
          let (reply, q, k) = staying all p none waiting w still_waiting in
          (reply, ticks ∙ (rw early) ∙ q, k)
      | inr late ↦ elim (Bool-cases w.step.must_succeed) [
        | inl must ↦
            let (reply, q, k) =
              staying all p none (refused (no_answer w.step.command.opcode)) w not_started_by in
            (reply, ticks ∙ (rw (late, must)) ∙ q, k)
        | inr may ↦
            let (reply, q, k) =
              passing all p (record s { next = s.next + 1 }) none writable now w refl refl may in
            (reply, ticks ∙ (rw (late, may)) ∙ q, k)
      ]
    ]
  where
    still_waiting : waiting ≡ started → ⊥
    still_waiting h = cc
