-- ===== src/Thingmagic/Start/Pump.antt =====
-- `pump` of crates/splitforge-thingmagic/src/provider.rs, as far as the start sequence goes: a turn of
-- its loop for each read from the port. What a read brings is the frames that the reassembler hands
-- over, with the time of each and whether the port can be written then.
use splitforge.Prelude.{
  ℕ, Bool, true, false, not, ◌&&◌, ◌||◌, List, [], ◌∷◌, ◌++◌, Option, none, some, ◌==◌,
  if◌then◌else◌, Run, done, ◌>>=◌, Result, ok, err,
}
use splitforge.Edge.Watch.{Disconnection, ended, not_started}
use splitforge.Thingmagic.Frame.{Response}
use splitforge.Thingmagic.Command.Power.{PowerReport}
use splitforge.Thingmagic.Start.{
  Step, Starting, Progress, waiting, started, refused, IoError, Reply, begin, claims, answer, tick,
  take_power_report, new_starting,
}

-- A verified frame
pub record Heard : Type 0 where
  pub response : Response
  pub writable : Bool
  pub now : ℕ

-- What a turn meets: the frames of its read, whether the connection ended with it, and the port at
-- the look at the deadline.
pub record ReadTurn : Type 0 where
  pub frames : List Heard
  pub ended : Bool
  pub writable : Bool
  pub now : ℕ

-- The variables of `pump`, all that was sent, and what each passed step was passed with.
pub record Pumping : Type 0 where
  pub starting : Starting
  pub progress : Progress
  pub written : Result Unit IoError
  pub power : Option PowerReport
  pub reports : List Response
  pub sent : List (List ℕ)
  pub passed : List (Option Response)

abbrev pub is_waiting : Progress → Bool
is_waiting waiting = true
is_waiting started = false
is_waiting (refused why) = false

abbrev pub is_written : Result Unit IoError → Bool
is_written (ok u) = true
is_written (err e) = false

abbrev pub note :
    Starting → Starting → Option Response → List (Option Response) → List (Option Response)
note before after by passed = if after.next == before.next then passed else passed ++ by ∷ []

abbrev pub next_progress : Result Progress IoError → Progress → Progress
next_progress (ok step) progress = step
next_progress (err e) progress = progress

abbrev pub next_written : Result Progress IoError → Result Unit IoError → Result Unit IoError
next_written (ok step) written = written
next_written (err e) written = err e

-- `Ok(step) => progress = step`, `Err(error) => written = Err(error)`
abbrev pub noted : Option Response → Reply → Pumping → Pumping
noted by r p = record p {
  starting = r.after;
  progress = next_progress r.outcome p.progress;
  written = next_written r.outcome p.written;
  sent = p.sent ++ r.sent;
  passed = note p.starting r.after by p.passed;
}

abbrev pub with_power : Starting × Option PowerReport → Pumping → Pumping
with_power (s, none) p = record p { starting = s }
with_power (s, some report) p = record p { starting = s; power = some report }

-- The answer that the sequence waits for
unfoldable pub take_answer : Pumping → Heard → Run Pumping
take_answer p h = do
  r ← answer p.starting h.response h.writable h.now
  let q = noted (some h.response) r p
  done (with_power (take_power_report q.starting) q)

-- `decode`, the handler of a frame
unfoldable pub handle : Pumping → Heard → Run Pumping
handle p h =
    if claims p.starting h.response
    then take_answer p h
    else done (record p { reports = p.reports ++ h.response ∷ [] })

unfoldable pub handle_all : List Heard → Pumping → Run Pumping
handle_all [] p = done p
handle_all (h ∷ frames) p = do q ← handle p h; handle_all frames q

unfoldable pub look_up : ReadTurn → Pumping → Run Pumping
look_up t p = do r ← tick p.starting t.writable t.now; done (noted none r p)

-- The look at the deadline
unfoldable pub look : ReadTurn → Pumping → Run Pumping
look t p =
    if not t.ended && is_written p.written && is_waiting p.progress then look_up t p else done p

-- The variables at the head of the loop
abbrev pub next_turn : Pumping → Pumping
next_turn p = record p { written = ok tt; power = none }

unfoldable pub read_turn : ReadTurn → Pumping → Run Pumping
read_turn t p = do q ← handle_all t.frames (next_turn p); look t q

abbrev pub cause : ReadTurn → Pumping → Option Disconnection
cause t p = elim p.progress [
  | refused why ↦ some not_started
  | waiting ↦ if t.ended || not (is_written p.written) then some ended else none
  | started ↦ if t.ended || not (is_written p.written) then some ended else none
]

-- A turn ends the connection, or the loop goes on.
abbrev pub go_on : Option Disconnection → Run Pumping → Pumping → Run Pumping
go_on none rest p = rest
go_on (some why) rest p = done p

-- The loop, on the turns that there are
unfoldable pub pump : List ReadTurn → Pumping → Run Pumping
pump [] p = done p
pump (t ∷ turns) p = do q ← read_turn t p; let rest = pump turns q; go_on (cause t q) rest q

abbrev pub connecting : List Step → Pumping
connecting steps = record {
  starting = new_starting steps;
  progress = waiting;
  written = ok tt;
  power = none;
  reports = [];
  sent = [];
  passed = [];
}

-- A connection with a start sequence: `begin`, whose error ends it, and the loop
unfoldable pub run_sequence : List Step → Bool → ℕ → List ReadTurn → Run Pumping
run_sequence steps writable now turns = do
  r ← begin (new_starting steps) writable now
  let opened = noted none r (connecting steps)
  let rest = pump turns opened
  if is_written opened.written then rest else done opened
