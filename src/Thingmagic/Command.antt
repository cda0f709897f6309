-- ===== src/Thingmagic/Command.antt =====
-- crates/splitforge-thingmagic/src/command.rs: what is sent to the module. A command's body is an
-- array of sixteen bytes of which the first `len` count.
pub mod Codes
pub mod Power
pub mod Frames
pub mod Samples
use splitforge.Prelude.{
  ℕ, zero, suc, ◌/◌, ◌%◌, ◌==◌, Bool, ◌&&◌, List, [], ◌∷◌, length, take, Run, Result,
}
use splitforge.Prelude.Text.{◌=ₜ◌}
use splitforge.Thingmagic.Frame.{EncodeError, encode_command}
use splitforge.Thingmagic.Command.Codes.{
  OpCode, to_byte, version, multi_protocol_tag_op, set_tag_protocol, set_region, set_read_tx_power,
  get_read_tx_power, set_reader_optional_params, Region, region_byte,
}
use splitforge.Thingmagic.Command.Power.{ReadPower, power_bytes}

abbrev pub max_command_body : ℕ
max_command_body = 16

pub record Command : Type 0 where
  pub opcode : OpCode
  pub body : List ℕ
  pub len : ℕ

-- The array of zeros with the data copied to its front. Each constructor's data fits.
unfoldable pub fill : ℕ → List ℕ → List ℕ
fill zero bytes = []
fill (suc n) [] = 0 ∷ fill n []
fill (suc n) (byte ∷ bytes) = byte ∷ fill n bytes

abbrev pub new : OpCode → List ℕ → Command
new opcode bytes = record {
  opcode = opcode;
  body = fill max_command_body bytes;
  len = length bytes;
}

abbrev pub start_streaming_body : List ℕ
start_streaming_body =
    0x00 ∷ 0x00 ∷ 0x01 ∷ 0x22 ∷ 0x00 ∷ 0x00 ∷ 0x05 ∷ 0x07 ∷ 0x22 ∷ 0x10 ∷ 0x00 ∷ 0x1B ∷ 0x03 ∷ 0xE8
    ∷ 0x01 ∷ 0xFF ∷ []

abbrev pub gen2 : ℕ
gen2 = 0x0005

abbrev pub configuration_enable_read_filter : ℕ
configuration_enable_read_filter = 0x0C

abbrev pub stop_streaming : Command
stop_streaming = new multi_protocol_tag_op (0x00 ∷ 0x00 ∷ 0x02 ∷ [])

abbrev pub version_command : Command
version_command = new version []

abbrev pub gen2_protocol : Command
gen2_protocol = new set_tag_protocol (gen2 / 256 ∷ gen2 % 256 ∷ [])

abbrev pub region_command : Region → Command
region_command region = new set_region (region_byte region ∷ [])

abbrev pub read_power : ReadPower → Command
read_power power = new set_read_tx_power (power_bytes power)

abbrev pub read_power_with_limits : Command
read_power_with_limits = new get_read_tx_power (0x01 ∷ [])

abbrev pub read_filter_off : Command
read_filter_off =
    new set_reader_optional_params (0x01 ∷ configuration_enable_read_filter ∷ 0x00 ∷ [])

abbrev pub start_streaming : Command
start_streaming = new multi_protocol_tag_op start_streaming_body

-- `Command::body`
unfoldable pub body_of : Command → List ℕ
body_of c = take c.len c.body

unfoldable pub encode : Command → List ℕ → Run (Result (List ℕ × ℕ) EncodeError)
encode c out = encode_command (to_byte c.opcode) (body_of c) out

-- The derived `==`
unfoldable pub same_command : Command → Command → Bool
same_command a b = to_byte a.opcode == to_byte b.opcode && a.body =ₜ b.body && a.len == b.len

-- A nibble of zero is port 16.
abbrev pub port_of : ℕ → ℕ
port_of zero = 16
port_of (suc n) = suc n

unfoldable pub antenna_ports : ℕ → ℕ × ℕ
antenna_ports byte = (port_of (byte / 16 % 16), port_of (byte % 16))
