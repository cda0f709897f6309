-- ===== src/Thingmagic/Start/Ends.antt =====
-- How a start sequence of crates/splitforge-thingmagic/src/start.rs ends when nothing is answered.
use splitforge.Prelude.{
  ℕ, suc, ◌+◌, ◌≤◌, ◌<◌, true, false, List, [], ◌∷◌, map, Option, none, some, length, get_elem?,
  ◌≡◌, refl, ap, subst, ◌∙◌, arith, Run, done, Result, ok, All, Bool-cases, ltb, inl, inr, ◌⊎◌,
}
use splitforge.Thingmagic.Start.{
  Step, Starting, Progress, waiting, started, refused, IoError, Reply, answer_timeout, awaited,
  send, begin, tick, tick_step, silent, new_starting, no_answer,
}
use splitforge.Thingmagic.Start.Pump.{
  ReadTurn, Pumping, is_waiting, is_written, noted, handle_all, look, look_up, next_turn,
  next_progress, next_written, read_turn, cause, go_on, pump, connecting, run_sequence,
}
use splitforge.Edge.Watch.{Disconnection, not_started}
use splitforge.Thingmagic.Start.Order.{Fits, get_elem?-cases}
use splitforge.Thingmagic.Start.Sends.{send-cases, attempt}
use splitforge.Thingmagic.Start.Reactions.{pump-read_turn}

-- Times of which each is a timeout or more after the one before.
abbrev pub Spaced : ℕ → List ℕ → Type 0
Spaced from [] = Unit
Spaced from (now ∷ times) = (from ≤ now) × Spaced (now + answer_timeout) times

-- A look at the port that brings nothing
abbrev tick_at : ℕ → ReadTurn
tick_at now = record { frames = []; ended = false; writable = true; now = now }

abbrev pub ticks : List ℕ → List ReadTurn
ticks times = map tick_at times

-- The answer to the command at a place is awaited until a deadline.
abbrev Awaits : List Step → ℕ → ℕ → Starting → Type 0
Awaits all n deadline s =
    (s.steps ≡ all) × (s.next ≡ n) × (n < length all) × (s.deadline ≡ some deadline)

-- The sequence has started, is refused, or awaits the answer to the command at a place.
abbrev Moves : List Step → ℕ → ℕ → Run Reply → Type 0
Moves all n deadline m =
    (r : Reply) × (progress : Progress) × (m ≡ done r)
    × (r.outcome ≡ ok progress)
    × ((is_waiting progress ≡ false) ⊎ ((progress ≡ waiting) × Awaits all n deadline r.after))

send-Moves :
    (all : List Step) (s : Starting) (now : ℕ)
    → All Fits all
    → s.steps ≡ all
    → s.next ≤ length all
    → Moves all s.next (now + answer_timeout) (send s true now)
send-Moves all s now fit kept within = elim (send-cases all s true now fit kept within) [
  | inl (e, q) ↦ (silent (record s { deadline = none }) started, started, q, refl, inl refl)
  | inr (step, q, l, t, e) ↦
      (attempt true step s now, waiting, e, refl, inr (refl, (kept, refl, l, refl)))
]

-- A tick past the deadline ends the sequence or sends the next command.
tick-Moves :
    (all : List Step) (s : Starting) (n deadline now : ℕ)
    → All Fits all
    → Awaits all n deadline s
    → deadline ≤ now
    → Moves all (suc n) (now + answer_timeout) (tick s true now)
unfolding tick tick_step
tick-Moves all s n deadline now fit (kept, at, within, d) late =
    elim (get_elem?-cases all n (omega arith)) [
      | inl (e, q) ↦ absurd (omega arith)
      | inr (step, q, l, t) ↦
          let a : awaited s ≡ some step =
            ap (λ (o : Option ℕ). elim o [ none ↦ none | some deadline ↦ get_elem? s.steps s.next ])
              d
            ∙ ap (λ (x : List Step). get_elem? x s.next) kept
            ∙ ap (get_elem? all) at
            ∙ q in
          let past : ltb now deadline ≡ false = ground arith in
          let ticks : tick_step s.deadline (awaited s) s true now
              ≡ tick_step (some deadline) (some step) s true now =
            ap (λ (o : Option ℕ). tick_step o (awaited s) s true now) d
            ∙ ap (λ (o : Option Step). tick_step (some deadline) o s true now) a in
          elim (Bool-cases step.must_succeed) [
            | inl must ↦ (
              silent s (refused (no_answer step.command.opcode)),
              refused (no_answer step.command.opcode),
              ticks ∙ rw (past, must),
              refl,
              inl refl,
            )
            | inr may ↦
                let next = record s { next = s.next + 1 } in
                let (r, progress, e, o, moved) = send-Moves all next now fit kept (omega arith) in
                (
                  r,
                  progress,
                  ticks ∙ (rw (past, may)) ∙ e,
                  o,
                  subst
                      (λ (i : ℕ).
                        (is_waiting progress ≡ false)
                        ⊎ ((progress ≡ waiting) × Awaits all i (now + answer_timeout) r.after))
                      (omega arith) moved,
                )
          ]
    ]

-- At the head of the loop: it no longer waits, or awaits the answer to the command at a place.
abbrev Underway : List Step → ℕ → ℕ → Pumping → Type 0
Underway all n deadline p =
    (p.written ≡ ok tt)
    × ((is_waiting p.progress ≡ false)
        ⊎ ((p.progress ≡ waiting) × Awaits all n deadline p.starting))

-- A look that is no longer waited on leaves the variables alone.
read_turn-over :
    (now : ℕ) (p : Pumping)
    → is_waiting p.progress ≡ false
    → read_turn (tick_at now) p ≡ done (next_turn p)
unfolding read_turn handle_all look
read_turn-over now p h = rw h

read_turn-tick :
    (now : ℕ) (p : Pumping) (r : Reply)
    → is_waiting p.progress ≡ true
    → tick p.starting true now ≡ done r
    → read_turn (tick_at now) p ≡ done (noted none r (next_turn p))
unfolding read_turn handle_all look look_up
read_turn-tick now p r h e = rw (h, e)

abbrev ends_by : Progress → Option Disconnection
ends_by waiting = none
ends_by started = none
ends_by (refused why) = some not_started

cause-ends_by :
    (now : ℕ) (q : Pumping) (progress : Progress)
    → q.progress ≡ progress
    → q.written ≡ ok tt
    → cause (tick_at now) q ≡ ends_by progress
cause-ends_by now q waiting e w = rw (e, w)
cause-ends_by now q started e w = rw (e, w)
cause-ends_by now q (refused why) e w = rw e

pump-tick :
    (now : ℕ) (times : List ℕ) (p q : Pumping) (progress : Progress)
    → read_turn (tick_at now) p ≡ done q
    → q.progress ≡ progress
    → q.written ≡ ok tt
    → pump (ticks (now ∷ times)) p ≡ go_on (ends_by progress) (pump (ticks times) q) q
pump-tick now times p q progress e o w =
    pump-read_turn (tick_at now) (ticks times) p q e
    ∙ ap (λ (c : Option Disconnection). go_on c (pump (ticks times) q) q)
        (cause-ends_by now q progress o w)

-- A pump that waits no more
abbrev Over : List ℕ → Pumping → Type 0
Over times p = (u : Pumping) × (pump (ticks times) p ≡ done u) × (is_waiting u.progress ≡ false)

pump-Over :
    (times : List ℕ) (p : Pumping) (progress : Progress)
    → p.progress ≡ progress
    → is_waiting progress ≡ false
    → Over times p
unfolding pump
pump-Over [] p progress h o = (p, refl, (rw (h, o)))
pump-Over (now ∷ times) p waiting h o = absurd cc
pump-Over (now ∷ times) p (refused why) h o = (
  next_turn p,
  pump-tick now times p (next_turn p) (refused why) (read_turn-over now p (rw h)) h refl,
  (rw h),
)
pump-Over (now ∷ times) p started h o =
    let (u, e, w) = pump-Over times (next_turn p) started h refl in
    (u, pump-tick now times p (next_turn p) started (read_turn-over now p (rw h)) h refl ∙ e, w)

pump-ticks :
    (all : List Step) (times : List ℕ) (p : Pumping) (n deadline : ℕ)
    → All Fits all
    → Underway all n deadline p
    → Spaced deadline times
    → length all ≤ n + length times
    → Over times p
pump-ticks all times p n deadline fit (good, inl over) spaced enough =
    pump-Over times p p.progress refl over
pump-ticks all [] p n deadline fit (good, inr (waits, (kept, at, within, d))) spaced enough =
    absurd (omega arith)
pump-ticks all (now ∷ times) p n deadline fit (good, inr (waits, a)) (late, spaced) enough =
    let (r, progress, e, o, moved) = tick-Moves all p.starting n deadline now fit a late in
    let q = noted none r (next_turn p) in
    let ticked = read_turn-tick now p r (rw waits) e in
    let at : q.progress ≡ progress =
      ap (λ (x : Result Progress IoError). next_progress x p.progress) o in
    let well : q.written ≡ ok tt = ap (λ (x : Result Progress IoError). next_written x (ok tt)) o in
    let further : (progress ≡ waiting) × Awaits all (suc n) (now + answer_timeout) q.starting
        → Over times q =
      λ m.
        pump-ticks all times q (suc n) (now + answer_timeout) fit (well, inr (at ∙ m.0, m.1)) spaced
          (omega arith) in
    ending q progress moved (pump-tick now times p q progress ticked at well) at further
  where
    ending :
        (q : Pumping) (progress : Progress)
        → (is_waiting progress ≡ false)
          ⊎ ((progress ≡ waiting) × Awaits all (suc n) (now + answer_timeout) q.starting)
        → pump (ticks (now ∷ times)) p ≡ go_on (ends_by progress) (pump (ticks times) q) q
        → q.progress ≡ progress
        → ((progress ≡ waiting) × Awaits all (suc n) (now + answer_timeout) q.starting
            → Over times q)
        → Over (now ∷ times) p
    ending q waiting (inl h) e o further = absurd cc
    ending q waiting (inr m) e o further = let (u, f, over) = further m in (u, e ∙ f, over)
    ending q started m e o further =
        let (u, f, over) = pump-Over times q started o refl in (u, e ∙ f, over)
    ending q (refused why) m e o further = (q, e, (rw o))

-- A device that answers nothing: begun on a port that can be written, and after as many looks at it as
-- there are commands, each a timeout or more after the one before and with a port that can be written,
-- a sequence of commands of sixteen bytes at most waits no more.
pub run_sequence-ticks :
    (all : List Step) (from : ℕ) (times : List ℕ)
    → All Fits all
    → Spaced (from + answer_timeout) times
    → length all ≤ length times
    → (p : Pumping) × (run_sequence all true from (ticks times) ≡ done p)
      × (is_waiting p.progress ≡ false)
unfolding run_sequence begin
run_sequence-ticks all from times fit spaced enough =
    let (r, progress, e, o, moved) =
      send-Moves all (new_starting all) from fit refl (omega arith) in
    let opened = noted none r (connecting all) in
    let at : opened.progress ≡ progress =
      ap (λ (x : Result Progress IoError). next_progress x waiting) o in
    let well : opened.written ≡ ok tt =
      ap (λ (x : Result Progress IoError). next_written x (ok tt)) o in
    let good : is_written opened.written ≡ true = ap is_written well in
    let moved' : (is_waiting opened.progress ≡ false)
        ⊎ ((opened.progress ≡ waiting) × Awaits all 0 (from + answer_timeout) opened.starting) =
      elim moved [ inl over ↦ inl (ap is_waiting at ∙ over) | inr (w, a) ↦ inr (at ∙ w, a) ] in
    let (p, f, over) =
      pump-ticks all times opened 0 (from + answer_timeout) fit (well, moved') spaced
        (omega arith) in
    (p, (rw (e, good)) ∙ f, over)
