-- ===== src/Thingmagic/Start/Samples.antt =====
-- Start sequences of crates/splitforge-thingmagic/src/start.rs.
use splitforge.Prelude.{ℕ, true, false, List, [], ◌∷◌, ◌≡◌, All, arith, done}
use splitforge.Thingmagic.Frame.{Response}
use splitforge.Thingmagic.Command.{body_of, fill}
use splitforge.Thingmagic.Command.Codes.{na}
use splitforge.Thingmagic.Start.{Step, gen2_sequence, answer_timeout}
use splitforge.Thingmagic.Start.Pump.{Heard, ReadTurn, Pumping, run_sequence, is_waiting}
use splitforge.Thingmagic.Start.Order.{Fits}
use splitforge.Thingmagic.Start.Reactions.{run_sequence-Trusted}
use splitforge.Thingmagic.Start.Answers.{Sound}
use splitforge.Thingmagic.Start.Ends.{ticks, Spaced, run_sequence-ticks}

abbrev steps : List Step
steps = gen2_sequence na (record { centi_dbm = 2700 })

steps-Fits : All Fits steps
unfolding body_of fill
steps-Fits = (
  omega arith,
  (
    omega arith,
    (omega arith, (omega arith, (omega arith, (omega arith, (omega arith, (omega arith, tt)))))),
  ),
)

abbrev success : ℕ → Response
success opcode = record { opcode = opcode; status = 0; payload = [] }

abbrev heard : Response → ℕ → Heard
heard response now = record { response = response; writable = true; now = now }

abbrev turn_of : List Heard → ℕ → ReadTurn
turn_of frames now = record { frames = frames; ended = false; writable = true; now = now }

-- A frame of another command is not an answer, a stop that is not answered is passed over, and behind
-- a write that failed the answers of the same read are still taken.
abbrev turns : List ReadTurn
turns =
    turn_of (heard (success 0x22) 5 ∷ []) 5
    ∷ turn_of [] 2_000_000_000
    ∷ turn_of (heard (success 0x03) 2_000_000_010 ∷ []) 2_000_000_020
    ∷ turn_of
        (record { response = success 0x93; writable = false; now = 2_000_000_030 }
          ∷ heard (success 0x97) 2_000_000_030
          ∷ [])
        2_000_000_040
    ∷ turn_of (heard (success 0x92) 2_000_000_050 ∷ []) 2_000_000_050
    ∷ []

run_sequence-Trusted_example :
    (p : Pumping) × (run_sequence steps true 0 turns ≡ done p) × Sound steps p
run_sequence-Trusted_example = run_sequence-Trusted steps true 0 turns steps-Fits

abbrev timeouts : List ℕ
timeouts =
    2_000_000_000 ∷ 4_000_000_000 ∷ 6_000_000_000 ∷ 8_000_000_000 ∷ 10_000_000_000 ∷ 12_000_000_000
    ∷ 14_000_000_000 ∷ 16_000_000_000 ∷ []

timeouts-Spaced : Spaced answer_timeout timeouts
timeouts-Spaced = (
  omega arith,
  (
    omega arith,
    (omega arith, (omega arith, (omega arith, (omega arith, (omega arith, (omega arith, tt)))))),
  ),
)

run_sequence-ticks_example :
    (p : Pumping) × (run_sequence steps true 0 (ticks timeouts) ≡ done p)
    × (is_waiting p.progress ≡ false)
run_sequence-ticks_example =
    run_sequence-ticks steps 0 timeouts steps-Fits timeouts-Spaced (omega arith)
