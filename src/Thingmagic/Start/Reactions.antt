-- ===== src/Thingmagic/Start/Reactions.antt =====
-- What the frames and the looks at the deadline do to a start sequence of
-- crates/splitforge-thingmagic/src/start.rs within `pump` of provider.rs.
use splitforge.Prelude.{
  ℕ, Bool, true, not, ◌&&◌, List, [], ◌∷◌, ◌++◌, Option, none, some, ◌≡◌, refl, ap, sym, subst, ◌∙◌,
  arith, Run, done, ◌>>=◌, Result, ok, err, All, Bool-cases, inl, inr,
}
use splitforge.Thingmagic.Frame.{Response}
use splitforge.Thingmagic.Command.Power.{PowerReport}
use splitforge.Thingmagic.Start.{
  Step, Starting, Progress, waiting, started, refused, IoError, begin, claims, take_power_report,
  new_starting,
}
use splitforge.Thingmagic.Start.Pump.{
  Heard, ReadTurn, Pumping, is_waiting, is_written, noted, with_power, take_answer, handle,
  handle_all, look_up, look, next_turn, read_turn, cause, pump, go_on, connecting, run_sequence,
  next_progress, next_written,
}
use splitforge.Edge.Watch.{Disconnection}
use splitforge.Thingmagic.Start.Order.{Fits, frames, IsUnderway, Holds}
use splitforge.Thingmagic.Start.Sends.{send-Holds}
use splitforge.Thingmagic.Start.Awaiting.{note-kept}
use splitforge.Thingmagic.Start.Answers.{Sound, answer-Keeps, tick-Keeps}

power-IsUnderway :
    (all : List Step) (s : Starting) (sent : List (List ℕ)) (passed : List (Option Response))
    (o : Option PowerReport)
    → IsUnderway all s sent passed
    → IsUnderway all (record s { power = o }) sent passed
power-IsUnderway all s sent passed o w = record {
  steps_kept = w.steps_kept;
  in_order = w.in_order;
  vouched = w.vouched;
  within = w.within;
  is_awaited = w.is_awaited;
}

-- What was said of the power is of no account here.
Holds-power :
    (all : List Step) (written : Result Unit IoError) (progress : Progress) (s : Starting)
    (sent : List (List ℕ)) (passed : List (Option Response)) (o : Option PowerReport)
    → Holds all written progress s sent passed
    → Holds all written progress (record s { power = o }) sent passed
Holds-power all (ok u) started s sent passed o h = h
Holds-power all (ok u) waiting s sent passed o h = power-IsUnderway all s sent passed o h
Holds-power all (ok u) (refused why) s sent passed o h = power-IsUnderway all s sent passed o h
Holds-power all (err e) progress s sent passed o h = record {
  steps_kept = h.steps_kept;
  vouched = h.vouched;
  within = h.within;
  reached = h.reached;
  in_sequence = h.in_sequence;
  skips = h.skips;
  here = h.here;
}

-- A step of the program on the variables of `pump` that keeps what holds.
abbrev Ends : List Step → Run Pumping → Type 0
Ends all m = (q : Pumping) × (m ≡ done q) × Sound all q

with_power-Sound :
    (all : List Step) (p : Pumping) (o : Option PowerReport)
    → Sound all p
    → Sound all (with_power (record p.starting { power = none }, o) p)
with_power-Sound all p none h =
    Holds-power all p.written p.progress p.starting p.sent p.passed none h
with_power-Sound all p (some report) h =
    Holds-power all p.written p.progress p.starting p.sent p.passed none h

handle-Ends :
    (all : List Step) (p : Pumping) (h : Heard) → All Fits all → Sound all p → Ends all (handle p h)
unfolding handle take_answer take_power_report
handle-Ends all p h fit sound = elim (Bool-cases (claims p.starting h.response)) [
  | inr other ↦ (record p { reports = p.reports ++ h.response ∷ [] }, (rw other), sound)
  | inl mine ↦
      let (r, e, k) = answer-Keeps all p h.response h.writable h.now fit sound mine in
      (
        with_power (record r.after { power = none }, r.after.power) (noted (some h.response) r p),
        (rw (mine, e)),
        with_power-Sound all (noted (some h.response) r p) r.after.power k,
      )
]

handle_all-Ends :
    (all : List Step) (frames : List Heard) (p : Pumping)
    → All Fits all
    → Sound all p
    → Ends all (handle_all frames p)
unfolding handle_all
handle_all-Ends all [] p fit sound = (p, refl, sound)
handle_all-Ends all (h ∷ frames) p fit sound =
    let (q, e, s) = handle-Ends all p h fit sound in
    let (r, f, t) = handle_all-Ends all frames q fit s in (r, (rw e) ∙ f, t)

look-Ends :
    (all : List Step) (t : ReadTurn) (p : Pumping)
    → All Fits all
    → Sound all p
    → Ends all (look t p)
unfolding look look_up
look-Ends all t p fit sound =
    elim (Bool-cases (not t.ended && is_written p.written && is_waiting p.progress)) [
      | inr over ↦ (p, (rw over), sound)
      | inl looks ↦
          let (r, e, k) =
            tick-Keeps all p t.writable t.now fit sound (waits p.progress (ground arith))
              (well p.written (ground arith)) in
          (noted none r p, (rw (looks, e)), k)
    ]
  where
    waits : (o : Progress) → is_waiting o ≡ true → o ≡ waiting
    waits waiting h = refl
    waits started h = absurd cc
    waits (refused why) h = absurd cc

    well : (o : Result Unit IoError) → is_written o ≡ true → o ≡ ok tt
    well (ok u) h = refl
    well (err e) h = absurd cc

read_turn-Ends :
    (all : List Step) (t : ReadTurn) (p : Pumping)
    → All Fits all
    → Sound all p
    → is_written p.written ≡ true
    → Ends all (read_turn t p)
unfolding read_turn
read_turn-Ends all t p fit sound good =
    let (q, e, s) = handle_all-Ends all t.frames (next_turn p) fit (anew p.written good sound) in
    let (r, f, k) = look-Ends all t q fit s in (r, (rw e) ∙ f, k)
  where
    anew :
        (o : Result Unit IoError)
        → is_written o ≡ true
        → Holds all o p.progress p.starting p.sent p.passed
        → Holds all (ok tt) p.progress p.starting p.sent p.passed
    anew (ok u) h s = s
    anew (err e) h s = absurd cc

cause-none : (t : ReadTurn) (p : Pumping) → cause t p ≡ none → is_written p.written ≡ true
cause-none t p h = ground arith

pub pump-read_turn :
    (t : ReadTurn) (turns : List ReadTurn) (p q : Pumping)
    → read_turn t p ≡ done q
    → pump (t ∷ turns) p ≡ go_on (cause t q) (pump turns q) q
unfolding pump
pump-read_turn t turns p q e =
    ap (λ (m : Run Pumping). m >>= λ u. go_on (cause t u) (pump turns u) u) e

pump-Ends :
    (all : List Step) (turns : List ReadTurn) (p : Pumping)
    → All Fits all
    → Sound all p
    → is_written p.written ≡ true
    → Ends all (pump turns p)
unfolding pump
pump-Ends all [] p fit sound good = (p, refl, sound)
pump-Ends all (t ∷ turns) p fit sound good =
    let (q, e, s) = read_turn-Ends all t p fit sound good in
    either q e s (λ further. pump-Ends all turns q fit s further) (cause t q) refl
  where
    either :
        (q : Pumping)
        → read_turn t p ≡ done q
        → Sound all q
        → (is_written q.written ≡ true → Ends all (pump turns q))
        → (o : Option Disconnection) → cause t q ≡ o
        → Ends all (pump (t ∷ turns) p)
    either q e s later (some why) c = (
      q,
      pump-read_turn t turns p q e ∙ ap (λ (o : Option Disconnection). go_on o (pump turns q) q) c,
      s,
    )
    either q e s later none c =
        let (r, f, k) = later (cause-none t q c) in
        (
          r,
          pump-read_turn t turns p q e
              ∙ ap (λ (o : Option Disconnection). go_on o (pump turns q) q) c
              ∙ f,
          k,
        )

-- A connection with a sequence of commands of sixteen bytes at most never panics, whatever frames,
-- times, failures to write and ends of the connection its turns meet. If no write failed, and the
-- sequence waits or is refused, it has sent the first of its commands, in their order, up to the one
-- whose answer it awaits, and each command before that was answered by a frame of its own opcode, a
-- success if it has to succeed, or needs no answer and has none. If it has started and no write failed,
-- it has sent them all, each was passed so, and it awaits nothing. If a write failed, what it has sent
-- are its first commands in their order, but for those that were not written, and those that it has
-- passed it has passed so.
pub run_sequence-Trusted :
    (all : List Step) (writable : Bool) (now : ℕ) (turns : List ReadTurn)
    → All Fits all
    → (p : Pumping) × (run_sequence all writable now turns ≡ done p) × Sound all p
unfolding run_sequence begin
run_sequence-Trusted all writable now turns fit =
    let (r, e, n, h) =
      send-Holds all waiting (new_starting all) [] [] writable now fit refl (omega arith) refl tt in
    let opened = noted none r (connecting all) in
    let sound : Sound all opened =
      subst
        (Holds all (next_written r.outcome (ok tt)) (next_progress r.outcome waiting) r.after
          r.sent)
        (sym (note-kept (new_starting all) r.after none [] n)) h in
    elim (Bool-cases (is_written opened.written)) [
      | inr failed ↦ (opened, (rw (e, failed)), sound)
      | inl good ↦
          let (p, f, k) = pump-Ends all turns opened fit sound good in (p, (rw (e, good)) ∙ f, k)
    ]
