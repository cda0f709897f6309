-- ===== src/Edge/Watch.antt =====
-- apps/splitforge-edge/src/main.rs: how a gap in the reads is noticed. A monotonic instant is a number of
-- milliseconds. A call is one step, on the state of the reader and on the rows of the journal;
-- a lock that a panic poisoned is not modelled.
pub mod Outage
pub mod Samples
use splitforge.Prelude.{
  ℕ, ◌-◌, ◌+◌, ◌==◌, Bool, true, false, List, [], ◌∷◌, Option, none, some, leb, if◌then◌else◌,
}
use splitforge.Prelude.Text.{codes}
use splitforge.Domain.Time.{i64_max}
use splitforge.Domain.Gap.{
  confirmed, suspected, HeartbeatVerdict, idle_heartbeat, open_heartbeat, close_heartbeat,
  assess_heartbeat, SilenceVerdict, idle_silence, open_silence, close_silence, assess_silence,
}
use splitforge.Storage.Gaps.{GapRow, open_reader_gap, close_reader_gap}

pub record Watching : Type 0 where
  pub reader : List ℕ
  pub race : ℕ

-- What the checks read of `ReaderStatus`
pub record ReaderStatus : Type 0 where
  pub watching : Option Watching
  pub last_message : Option ℕ
  pub transport_down : Bool
  pub last_heard : Option ℕ
  pub heartbeat_gap : Bool

pub data Disconnection : Type 0 where
  not_opened ended not_started : Disconnection

abbrev pub disconnection_detail : Disconnection → List ℕ
disconnection_detail not_opened = codes "the reader's port could not be opened"
disconnection_detail ended = codes "the connection to the reader ended"
disconnection_detail not_started = codes "the reader did not start reading when told to"

-- The clocks at a step, and whether the database takes its statements.
pub record Now (I : Type 0) : Type 0 where
  pub instant : ℕ
  pub wall : I
  pub monotonic_ms : ℕ
  pub accepted : Bool

-- What the configuration says: `none` where it cannot be read.
pub record Settings : Type 0 where
  pub heartbeat_ms : Option ℕ
  pub threshold_ms : Option ℕ
  pub running : Option Bool

-- `elapsed`
abbrev pub elapsed : ℕ → ℕ → ℕ
elapsed now since = now - since

abbrev pub heard_before : Option ℕ → Bool
heard_before none = false
heard_before (some at) = true

abbrev pub quiet_since : Option ℕ → ℕ → ℕ
quiet_since none now = 0
quiet_since (some heard) now = elapsed now heard

-- `i64::try_from(ms).unwrap_or(0)`
abbrev pub i64_or_zero : ℕ → ℕ
i64_or_zero ms = if leb ms i64_max then ms else 0

abbrev pub switched_off : ℕ → List ℕ
switched_off heartbeat_ms =
    if heartbeat_ms == 0
    then codes "the heartbeat check was switched off"
    else codes "the reader was heard again"

-- What reaches the service: what a reader reports, and a tick of the watchdog. Counts of faults and
-- a reported power leave both the state and the rows alone, as `faults` does here.
pub data Happening : Type 0 where
  read alive faults tick : Happening
  connected : Happening
  disconnected : Disconnection → Happening

-- `micros` is what the database gives back for an instant, and `earlier` is `now - Duration`.
module _ {I : Type 0} (micros : I → I) (earlier : I → ℕ → I) where
  abbrev Rows : Type 0
  Rows = List (GapRow I)

  abbrev pub open_suspected : Rows → List ℕ → ℕ → List ℕ → Now I → Rows
  open_suspected table reader quiet_ms detail now =
      (open_reader_gap micros table reader suspected (earlier now.wall (i64_or_zero quiet_ms))
        now.monotonic_ms (some detail) now.accepted).0

  abbrev pub close_open : Rows → List ℕ → List ℕ → Now I → Rows
  close_open table reader detail now =
      (close_reader_gap micros table reader now.wall now.monotonic_ms (some detail) now.accepted).0

  unfoldable pub carry_out : SilenceVerdict → Rows → List ℕ → ℕ → Now I → Rows
  carry_out idle_silence table reader silent_ms now = table
  carry_out open_silence table reader silent_ms now =
      open_suspected table reader silent_ms
        (codes "no reads for longer than the configured silence threshold") now
  carry_out close_silence table reader silent_ms now =
      close_open table reader (codes "reads resumed") now

  -- `check_for_silence`, whether the reader reads
  unfoldable pub check_reads : Settings → Rows → Watching → ℕ → Now I → Rows
  check_reads settings table watching last_message now = elim settings.threshold_ms [
    | none ↦ table
    | some threshold_ms ↦ elim settings.running [
      | none ↦ table
      | some running ↦
          let silent_ms = elapsed now.instant last_message in
          carry_out (assess_silence threshold_ms running silent_ms) table watching.reader silent_ms
            now
    ]
  ]

  -- `check_for_silence`, once the heartbeat is assessed
  unfoldable pub check_heartbeat :
      HeartbeatVerdict
      → ℕ
      → ℕ
      → Settings
      → ReaderStatus
      → Rows
      → Watching
      → ℕ
      → Now I
      → ReaderStatus × Rows
  check_heartbeat idle_heartbeat heartbeat_ms quiet_ms settings s table watching last now =
      if s.heartbeat_gap then (s, table) else (s, check_reads settings table watching last now)
  check_heartbeat open_heartbeat heartbeat_ms quiet_ms settings s table watching last now = (
    record s { heartbeat_gap = true },
    open_suspected table watching.reader quiet_ms
        (codes
          "the reader said nothing at all, not even between reads, for longer                          than the heartbeat threshold")
        now,
  )
  check_heartbeat close_heartbeat heartbeat_ms quiet_ms settings s table watching last now = (
    record s { heartbeat_gap = false },
    check_reads settings (close_open table watching.reader (switched_off heartbeat_ms) now) watching
        last now,
  )

  -- `check_for_silence`, of a composed reader
  unfoldable pub check_watched :
      Option Watching → Option ℕ → Settings → ReaderStatus → Rows → Now I → ReaderStatus × Rows
  check_watched none last settings s table now = (s, table)
  check_watched (some watching) none settings s table now = (s, table)
  check_watched (some watching) (some last) settings s table now = elim settings.heartbeat_ms [
    | none ↦ (s, table)
    | some heartbeat_ms ↦
        let quiet_ms = quiet_since s.last_heard now.instant in
        check_heartbeat
          (assess_heartbeat heartbeat_ms (heard_before s.last_heard) quiet_ms s.heartbeat_gap)
          heartbeat_ms quiet_ms settings s table watching last now
  ]

  unfoldable pub check_for_silence : Settings → ReaderStatus → Rows → Now I → ReaderStatus × Rows
  check_for_silence settings s table now =
      if s.transport_down
      then (s, table)
      else check_watched s.watching s.last_message settings s table now

  -- `record_connection`, what it writes
  unfoldable pub write_connection : Option Watching → Option Disconnection → Rows → Now I → Rows
  write_connection none cause table now = table
  write_connection (some watching) none table now =
      close_open table watching.reader (codes "the reader connected") now
  write_connection (some watching) (some cause) table now =
      (open_reader_gap micros table watching.reader confirmed now.wall now.monotonic_ms
        (some (disconnection_detail cause)) now.accepted).0

  abbrev pub connection_status : Option Disconnection → ReaderStatus → Now I → ReaderStatus
  connection_status none s now = record s {
    transport_down = false;
    last_heard = none;
    heartbeat_gap = false;
    last_message = some now.instant;
  }
  connection_status (some cause) s now = record s {
    transport_down = true;
    last_heard = none;
    heartbeat_gap = false;
  }

  unfoldable pub record_connection :
      Option Disconnection → ReaderStatus → Rows → Now I → ReaderStatus × Rows
  record_connection cause s table now =
      (connection_status cause s now, write_connection s.watching cause table now)

  unfoldable pub happen : Settings → Happening → ReaderStatus × Rows → Now I → ReaderStatus × Rows
  happen settings read (s, table) now =
      (record s { last_message = some now.instant; last_heard = some now.instant }, table)
  happen settings alive (s, table) now = (record s { last_heard = some now.instant }, table)
  happen settings faults (s, table) now = (s, table)
  happen settings tick (s, table) now = check_for_silence settings s table now
  happen settings connected (s, table) now = record_connection none s table now
  happen settings (disconnected cause) (s, table) now = record_connection (some cause) s table now

  -- Some happenings, one after the other, each under its settings and clocks
  unfoldable pub happen_all :
      List (Settings × Happening × Now I) → ReaderStatus × Rows → ReaderStatus × Rows
  happen_all [] state = state
  happen_all ((settings, h, now) ∷ rest) state = happen_all rest (happen settings h state now)
