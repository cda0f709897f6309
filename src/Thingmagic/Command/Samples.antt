-- ===== src/Thingmagic/Command/Samples.antt =====
-- Commands of crates/splitforge-thingmagic/src/command.rs, and their theorems at these inputs.
use splitforge.Prelude.{some, ◌≡◌, arith}
use splitforge.Thingmagic.Command.Power.{parse_power, display}
use splitforge.Thingmagic.Command.Power.Printed.{parse_power-display}

parse_power-display_example :
    parse_power (display (record { centi_dbm = 2705 })) ≡ some (record { centi_dbm = 2705 })
parse_power-display_example = parse_power-display (record { centi_dbm = 2705 }) (omega arith)
