-- ===== src/Thingmagic/Command/Codes.antt =====
-- crates/splitforge-thingmagic/src/command.rs: the opcodes, the regions and their bytes.
pub mod Tables
use splitforge.Prelude.{ℕ, ◌≡◌, List, [], ◌∷◌, Option, none, some, ◌==◌, if◌then◌else◌}
use splitforge.Prelude.Text.{codes, ◌=ₜ◌, trim, lowercase}

pub data OpCode : Type 0 where
  write_flash read_flash version boot_firmware set_baud_rate erase_flash verify_image_crc : OpCode
  boot_bootloader modify_flash get_dsp_silicon_id get_current_program write_flash_sector : OpCode
  get_sector_size modify_flash_sector hw_version read_tag_id_single read_tag_id_multiple : OpCode
  write_tag_id write_tag_data lock_tag kill_tag read_tag_data get_tag_id_buffer : OpCode
  clear_tag_id_buffer write_tag_specific erase_block_tag_specific multi_protocol_tag_op : OpCode
  get_antenna_port get_read_tx_power get_tag_protocol get_write_tx_power get_freq_hop_table : OpCode
  get_user_gpio_inputs get_region get_power_mode get_user_mode get_reader_optional_params : OpCode
  get_protocol_param get_reader_stats get_user_profile get_available_protocols : OpCode
  get_available_regions get_temperature set_antenna_port set_read_tx_power set_tag_protocol : OpCode
  set_write_tx_power set_freq_hop_table set_user_gpio_outputs set_region set_power_mode : OpCode
  set_user_mode set_reader_optional_params set_protocol_param set_user_profile : OpCode
  set_protocol_license_key set_operating_freq tx_cw_signal : OpCode

unfoldable pub to_byte : OpCode → ℕ
to_byte write_flash = 0x01
to_byte read_flash = 0x02
to_byte version = 0x03
to_byte boot_firmware = 0x04
to_byte set_baud_rate = 0x06
to_byte erase_flash = 0x07
to_byte verify_image_crc = 0x08
to_byte boot_bootloader = 0x09
to_byte modify_flash = 0x0A
to_byte get_dsp_silicon_id = 0x0B
to_byte get_current_program = 0x0C
to_byte write_flash_sector = 0x0D
to_byte get_sector_size = 0x0E
to_byte modify_flash_sector = 0x0F
to_byte hw_version = 0x10
to_byte read_tag_id_single = 0x21
to_byte read_tag_id_multiple = 0x22
to_byte write_tag_id = 0x23
to_byte write_tag_data = 0x24
to_byte lock_tag = 0x25
to_byte kill_tag = 0x26
to_byte read_tag_data = 0x28
to_byte get_tag_id_buffer = 0x29
to_byte clear_tag_id_buffer = 0x2A
to_byte write_tag_specific = 0x2D
to_byte erase_block_tag_specific = 0x2E
to_byte multi_protocol_tag_op = 0x2F
to_byte get_antenna_port = 0x61
to_byte get_read_tx_power = 0x62
to_byte get_tag_protocol = 0x63
to_byte get_write_tx_power = 0x64
to_byte get_freq_hop_table = 0x65
to_byte get_user_gpio_inputs = 0x66
to_byte get_region = 0x67
to_byte get_power_mode = 0x68
to_byte get_user_mode = 0x69
to_byte get_reader_optional_params = 0x6A
to_byte get_protocol_param = 0x6B
to_byte get_reader_stats = 0x6C
to_byte get_user_profile = 0x6D
to_byte get_available_protocols = 0x70
to_byte get_available_regions = 0x71
to_byte get_temperature = 0x72
to_byte set_antenna_port = 0x91
to_byte set_read_tx_power = 0x92
to_byte set_tag_protocol = 0x93
to_byte set_write_tx_power = 0x94
to_byte set_freq_hop_table = 0x95
to_byte set_user_gpio_outputs = 0x96
to_byte set_region = 0x97
to_byte set_power_mode = 0x98
to_byte set_user_mode = 0x99
to_byte set_reader_optional_params = 0x9A
to_byte set_protocol_param = 0x9B
to_byte set_user_profile = 0x9D
to_byte set_protocol_license_key = 0x9E
to_byte set_operating_freq = 0xC1
to_byte tx_cw_signal = 0xC3

-- The arms of the `match` in `from_byte`.
abbrev pub arms : List (ℕ × OpCode)
arms =
    (0x01, write_flash)
    ∷ (0x02, read_flash)
    ∷ (0x03, version)
    ∷ (0x04, boot_firmware)
    ∷ (0x06, set_baud_rate)
    ∷ (0x07, erase_flash)
    ∷ (0x08, verify_image_crc)
    ∷ (0x09, boot_bootloader)
    ∷ (0x0A, modify_flash)
    ∷ (0x0B, get_dsp_silicon_id)
    ∷ (0x0C, get_current_program)
    ∷ (0x0D, write_flash_sector)
    ∷ (0x0E, get_sector_size)
    ∷ (0x0F, modify_flash_sector)
    ∷ (0x10, hw_version)
    ∷ (0x21, read_tag_id_single)
    ∷ (0x22, read_tag_id_multiple)
    ∷ (0x23, write_tag_id)
    ∷ (0x24, write_tag_data)
    ∷ (0x25, lock_tag)
    ∷ (0x26, kill_tag)
    ∷ (0x28, read_tag_data)
    ∷ (0x29, get_tag_id_buffer)
    ∷ (0x2A, clear_tag_id_buffer)
    ∷ (0x2D, write_tag_specific)
    ∷ (0x2E, erase_block_tag_specific)
    ∷ (0x2F, multi_protocol_tag_op)
    ∷ (0x61, get_antenna_port)
    ∷ (0x62, get_read_tx_power)
    ∷ (0x63, get_tag_protocol)
    ∷ (0x64, get_write_tx_power)
    ∷ (0x65, get_freq_hop_table)
    ∷ (0x66, get_user_gpio_inputs)
    ∷ (0x67, get_region)
    ∷ (0x68, get_power_mode)
    ∷ (0x69, get_user_mode)
    ∷ (0x6A, get_reader_optional_params)
    ∷ (0x6B, get_protocol_param)
    ∷ (0x6C, get_reader_stats)
    ∷ (0x6D, get_user_profile)
    ∷ (0x70, get_available_protocols)
    ∷ (0x71, get_available_regions)
    ∷ (0x72, get_temperature)
    ∷ (0x91, set_antenna_port)
    ∷ (0x92, set_read_tx_power)
    ∷ (0x93, set_tag_protocol)
    ∷ (0x94, set_write_tx_power)
    ∷ (0x95, set_freq_hop_table)
    ∷ (0x96, set_user_gpio_outputs)
    ∷ (0x97, set_region)
    ∷ (0x98, set_power_mode)
    ∷ (0x99, set_user_mode)
    ∷ (0x9A, set_reader_optional_params)
    ∷ (0x9B, set_protocol_param)
    ∷ (0x9D, set_user_profile)
    ∷ (0x9E, set_protocol_license_key)
    ∷ (0xC1, set_operating_freq)
    ∷ (0xC3, tx_cw_signal)
    ∷ []

-- `match byte`, whose last arm is `None`
unfoldable pub match_byte : List (ℕ × OpCode) → ℕ → Option OpCode
match_byte [] byte = none
match_byte ((value, opcode) ∷ arms) byte =
    let rest = match_byte arms byte in if byte == value then some opcode else rest

unfoldable pub from_byte : ℕ → Option OpCode
from_byte byte = match_byte arms byte

pub data Region : Type 0 where
  na eu kr india jp prc eu2 eu3 kr2 prc2 au nz na2 na3 is my id ph tw mo ru sg jp2 jp3 vn th ar :
      Region
  hk bd eu4 : Region

unfoldable pub region_byte : Region → ℕ
region_byte na = 1
region_byte eu = 2
region_byte kr = 3
region_byte india = 4
region_byte jp = 5
region_byte prc = 6
region_byte eu2 = 7
region_byte eu3 = 8
region_byte kr2 = 9
region_byte prc2 = 10
region_byte au = 11
region_byte nz = 12
region_byte na2 = 13
region_byte na3 = 14
region_byte is = 15
region_byte my = 16
region_byte id = 17
region_byte ph = 18
region_byte tw = 19
region_byte mo = 20
region_byte ru = 21
region_byte sg = 22
region_byte jp2 = 23
region_byte jp3 = 24
region_byte vn = 25
region_byte th = 26
region_byte ar = 27
region_byte hk = 28
region_byte bd = 29
region_byte eu4 = 30

-- `Region::ALL`
abbrev pub all_regions : List (List ℕ × Region)
all_regions =
    (codes "na", na)
    ∷ (codes "eu", eu)
    ∷ (codes "kr", kr)
    ∷ (codes "in", india)
    ∷ (codes "jp", jp)
    ∷ (codes "prc", prc)
    ∷ (codes "eu2", eu2)
    ∷ (codes "eu3", eu3)
    ∷ (codes "kr2", kr2)
    ∷ (codes "prc2", prc2)
    ∷ (codes "au", au)
    ∷ (codes "nz", nz)
    ∷ (codes "na2", na2)
    ∷ (codes "na3", na3)
    ∷ (codes "is", is)
    ∷ (codes "my", my)
    ∷ (codes "id", id)
    ∷ (codes "ph", ph)
    ∷ (codes "tw", tw)
    ∷ (codes "mo", mo)
    ∷ (codes "ru", ru)
    ∷ (codes "sg", sg)
    ∷ (codes "jp2", jp2)
    ∷ (codes "jp3", jp3)
    ∷ (codes "vn", vn)
    ∷ (codes "th", th)
    ∷ (codes "ar", ar)
    ∷ (codes "hk", hk)
    ∷ (codes "bd", bd)
    ∷ (codes "eu4", eu4)
    ∷ []

unfoldable pub find_region : List (List ℕ × Region) → Region → List ℕ
find_region [] region = codes "unknown"
find_region ((text, r) ∷ regions) region =
    let rest = find_region regions region in
    if region_byte r == region_byte region then text else rest

-- `Region::name`. Two regions are equal when their discriminants are.
unfoldable pub region_name : Region → List ℕ
region_name region = find_region all_regions region

unfoldable pub find_name : List (List ℕ × Region) → List ℕ → Option Region
find_name [] wanted = none
find_name ((text, r) ∷ regions) wanted =
    let rest = find_name regions wanted in if text =ₜ wanted then some r else rest

-- `Region::from_str`, without its error, which repeats the text
unfoldable pub parse_region : List ℕ → Option Region
parse_region text = find_name all_regions (lowercase (trim text))
