-- ===== src/Examples.antt =====
-- The theorems at concrete inputs, with the data that they share.
pub mod Requests
pub mod Log
pub mod Capabilities
pub mod Memory
pub mod Startup
pub mod Identifiers
pub mod Endpoints
pub mod Scheduling
use reaper_operating_system.Base.{ℕ, ◌^◌, List, [], ◌∷◌, Option, some, none, replicate, length, ◌%◌}
use reaper_operating_system.Env.{Env, Current}
use reaper_operating_system.Audit.{Audit}
use reaper_operating_system.Mode.{Kernel, ModeState, BootRecord, zero_state}

-- a stand-in for BLAKE3 with 32 bytes of output
abbrev pub digest : List ℕ → List ℕ
digest bs = replicate 32 (length bs % 256)

abbrev pub env : Env
env = record { tsc = 900; tick = 3000; current = some (record { tid = 4; pid = 7; mode = 1 }) }

abbrev pub no_audit : Audit
no_audit = record { lattice = none; root_system_seed = 5; current_fate_seed = 5; last_hash = [] }

abbrev pub stored : BootRecord
stored = record {
  magic = 0x4D;
  version = 1;
  sequence = 3;
  mode = 2;
  valid = 1;
  checksum = 0;
  reserved0 = 0;
  reserved1 = 0;
}

-- a kernel that runs in a mode
abbrev pub running : ℕ → Kernel
running mode = record {
  state = record zero_state { current_mode = mode; global_mode_mask = 2 ^ mode };
  boot = stored;
  cmos_writes = [];
  audit = no_audit;
  sched_global_mode = mode;
  sched_global_epoch = 0;
  effects = [];
}
