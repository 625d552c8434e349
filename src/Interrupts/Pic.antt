-- ===== src/Interrupts/Pic.antt =====
-- The interrupt controllers that disablePIC programs. A controller is an 8259A as its data
-- sheet describes it. A command byte with bit 4 set, ICW1, starts an initialisation: it clears the mask
-- and the mode, bit 3 says that the lines are level triggered, bit 1 that there is one controller
-- only, and bit 0 that a byte for the mode, ICW4, comes. The bytes behind it at the data port are the
-- vector base, then the cascade unless there is one controller only, then the mode if it comes; a byte
-- at the data port outside an initialisation is the mask.
use rainbow_os.Prelude.{ℕ, ◌*◌, ◌/◌, Bool, true, false, ◌==◌, if◌then◌else◌, test_bit}
use rainbow_os.Cpu.{Event, out_byte}
use rainbow_os.Interrupts.{pic_command_master, pic_data_master, pic_command_slave, pic_data_slave}

-- The byte that a controller waits for at its data port, with the bits of ICW1 that say what follows:
-- whether there is one controller only, and whether ICW4 comes.
pub data Phase : Type 0 where
  ready : Phase
  icw2 : Bool → Bool → Phase
  icw3 : Bool → Phase
  icw4 : Phase

pub record Pic : Type 0 where
  pub phase : Phase
  pub level : Bool
  pub base : ℕ
  pub cascade : ℕ
  pub mode : ℕ
  pub mask : ℕ

abbrev pub command : ℕ → Pic → Pic
command byte pic =
    if test_bit byte 4
    then record pic {
      phase = icw2 (test_bit byte 1) (test_bit byte 0);
      level = test_bit byte 3;
      mode = 0;
      mask = 0;
    }
    else pic

-- What the controller waits for behind the cascade.
abbrev pub mode_phase : Bool → Phase
mode_phase true = icw4
mode_phase false = ready

-- What it waits for behind the vector base.
abbrev pub cascade_phase : Bool → Bool → Phase
cascade_phase single mode_comes = if single then mode_phase mode_comes else icw3 mode_comes

-- The low three bits of the vector base are the line's.
abbrev pub data_byte : ℕ → Pic → Pic
data_byte byte pic = elim pic.phase [
  | icw2 single mode_comes ↦ record pic {
    phase = cascade_phase single mode_comes;
    base = byte / 8 * 8;
  }
  | icw3 mode_comes ↦ record pic { phase = mode_phase mode_comes; cascade = byte }
  | icw4 ↦ record pic { phase = ready; mode = byte }
  | ready ↦ record pic { mask = byte }
]

abbrev pub pic_event : Event → Pic × Pic → Pic × Pic
pic_event (out_byte port byte) (master, slave) =
    if port == pic_command_master
    then (command byte master, slave)
    else if port == pic_data_master
    then (data_byte byte master, slave)
    else if port == pic_command_slave
    then (master, command byte slave)
    else if port == pic_data_slave
    then (master, data_byte byte slave)
    else (master, slave)
pic_event e pics = pics

-- Initialised in 8086 mode with edge-triggered lines, the vector base 0xf8 and all lines masked
abbrev pub masked : ℕ → Pic
masked cascade = record {
  phase = ready;
  level = false;
  base = 0xf8;
  cascade = cascade;
  mode = 1;
  mask = 0xff;
}
