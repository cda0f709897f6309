-- ===== src/Thingmagic/Start.antt =====
-- crates/splitforge-thingmagic/src/start.rs: the commands that a connection sends before it streams. An
-- instant is a number of nanoseconds, and what a `Port` is is whether it can be written: a
-- command that it refuses is not sent. The frames that a call sends are part of its reply.
pub mod Pump
pub mod Order
pub mod Sends
pub mod Awaiting
pub mod Answers
pub mod Reactions
pub mod Ends
pub mod Samples
use splitforge.Prelude.{
  ℕ, zero, suc, ◌+◌, ◌<◌, Bool, true, false, not, ◌&&◌, List, [], ◌∷◌, ◌++◌, map, Option, none,
  some, length, get_elem?, take, ltb, leb, ◌==◌, if◌then◌else◌, Run, done, ◌>>=◌, Result, ok, err,
}
use splitforge.Thingmagic.Frame.{Response, EncodeError, is_ok, max_frame_len}
use splitforge.Thingmagic.Command.{
  Command, encode, body_of, same_command, fill, stop_streaming, version_command, gen2_protocol,
  region_command, read_power, read_power_with_limits, read_filter_off, start_streaming,
}
use splitforge.Thingmagic.Command.Codes.{OpCode, to_byte, multi_protocol_tag_op, Region}
use splitforge.Thingmagic.Command.Power.{ReadPower, PowerReport, from_answer}

abbrev pub answer_timeout : ℕ
answer_timeout = 2_000_000_000

pub record Step : Type 0 where
  pub command : Command
  pub must_succeed : Bool

abbrev step_of : Command → Bool → Step
step_of command must_succeed = record { command = command; must_succeed = must_succeed }

-- `StartSequence::gen2`
abbrev pub gen2_sequence : Region → ReadPower → List Step
gen2_sequence region power =
    step_of stop_streaming false
    ∷ step_of version_command true
    ∷ step_of gen2_protocol true
    ∷ step_of (region_command region) true
    ∷ step_of (read_power power) true
    ∷ step_of read_power_with_limits false
    ∷ step_of read_filter_off true
    ∷ step_of start_streaming true
    ∷ []

pub data Refusal : Type 0 where
  status : OpCode → ℕ → Refusal
  no_answer : OpCode → Refusal

pub data Progress : Type 0 where
  waiting started : Progress
  refused : Refusal → Progress

pub data IoError : Type 0 where
  invalid_input : EncodeError → IoError
  not_written : IoError

pub record Starting : Type 0 where
  pub steps : List Step
  pub next : ℕ
  pub deadline : Option ℕ
  pub power : Option PowerReport

abbrev pub new_starting : List Step → Starting
new_starting steps = record { steps = steps; next = 0; deadline = none; power = none }

-- What a call leaves, sends and returns.
pub record Reply : Type 0 where
  pub after : Starting
  pub sent : List (List ℕ)
  pub outcome : Result Progress IoError

abbrev pub silent : Starting → Progress → Reply
silent s progress = record { after = s; sent = []; outcome = ok progress }

abbrev pub awaited : Starting → Option Step
awaited s = elim s.deadline [ none ↦ none | some deadline ↦ get_elem? s.steps s.next ]

abbrev pub settled : Starting → Progress
settled s = if leb (length s.steps) s.next then started else waiting

-- `send`, once the frame is encoded
unfoldable pub transmit : Result (List ℕ × ℕ) EncodeError → Starting → Bool → ℕ → Reply
transmit (err e) s writable now = record { after = s; sent = []; outcome = err (invalid_input e) }
transmit (ok (out, n)) s false now = record { after = s; sent = []; outcome = err not_written }
transmit (ok (out, n)) s true now = record {
  after = record s { deadline = some (now + answer_timeout) };
  sent = take n out ∷ [];
  outcome = ok waiting;
}

unfoldable pub send_step : Option Step → Starting → Bool → ℕ → Run Reply
send_step none s writable now = done (silent (record s { deadline = none }) started)
send_step (some step) s writable now = do
  encoded ← encode step.command (fill max_frame_len [])
  done (transmit encoded s writable now)

unfoldable pub send : Starting → Bool → ℕ → Run Reply
send s writable now = send_step (get_elem? s.steps s.next) s writable now

unfoldable pub begin : Starting → Bool → ℕ → Run Reply
begin s writable now = send s writable now

-- `response.data.first() == command.body().get(2)`
abbrev same_option : Option ℕ → Option ℕ → Bool
same_option none none = true
same_option (some a) (some b) = a == b
same_option none (some b) = false
same_option (some a) none = false

unfoldable pub claims_step : Option Step → Response → Bool
claims_step none r = false
claims_step (some step) r =
    if not (r.opcode == to_byte step.command.opcode)
    then false
    else if to_byte step.command.opcode == to_byte multi_protocol_tag_op
    then same_option (get_elem? r.payload 0) (get_elem? (body_of step.command) 2)
    else true

unfoldable pub claims : Starting → Response → Bool
claims s r = claims_step (awaited s) r

-- The step is passed, and what an answer says of the power is kept.
abbrev pub passed_by : Starting → Step → Response → Starting
passed_by s step r = record s {
  next = s.next + 1;
  power =
      if same_command step.command read_power_with_limits && is_ok r
      then from_answer r.payload
      else s.power;
}

unfoldable pub answer_step : Option Step → Starting → Response → Bool → ℕ → Run Reply
answer_step none s r writable now = done (silent s waiting)
answer_step (some step) s r writable now =
    if step.must_succeed && not (is_ok r)
    then done (silent s (refused (status step.command.opcode r.status)))
    else send (passed_by s step r) writable now

unfoldable pub answer : Starting → Response → Bool → ℕ → Run Reply
answer s r writable now = answer_step (awaited s) s r writable now

-- The report, and the state without it.
unfoldable pub take_power_report : Starting → Starting × Option PowerReport
take_power_report s = (record s { power = none }, s.power)

-- `tick`, of the deadline and the step awaited
unfoldable pub tick_step : Option ℕ → Option Step → Starting → Bool → ℕ → Run Reply
tick_step none step s writable now = done (silent s (settled s))
tick_step (some deadline) none s writable now = done (silent s (settled s))
tick_step (some deadline) (some step) s writable now =
    if ltb now deadline
    then done (silent s waiting)
    else if step.must_succeed
    then done (silent s (refused (no_answer step.command.opcode)))
    else send (record s { next = s.next + 1 }) writable now

unfoldable pub tick : Starting → Bool → ℕ → Run Reply
tick s writable now = tick_step s.deadline (awaited s) s writable now

unfoldable pub is_starting : Starting → Bool
is_starting s = elim (awaited s) [
  | none ↦ false
  | some step ↦ same_command step.command start_streaming
]
