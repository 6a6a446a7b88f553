-- ===== src/Mode.antt =====
-- The data of the mode engine (kernel/mode.c, kernel/include/mode.h, mode_internal.h): modes,
-- sources, reject reasons, the records of the fate ledger, and the kernel state that it changes.
-- `mode_id_t` and the other C enumerations are numbers, as the code tests their ranges.
pub mod Fate
pub mod Boot
pub mod Envelope
pub mod Transition
use reaper_operating_system.Base.{ℕ, ◌*◌, ◌^◌, Bool, List, [], replicate}
use reaper_operating_system.Audit.{Audit}

abbrev pub mode_void : ℕ
mode_void = 0

abbrev pub mode_casual : ℕ
mode_casual = 1

abbrev pub mode_secure : ℕ
mode_secure = 2

abbrev pub mode_lockdown : ℕ
mode_lockdown = 3

abbrev pub mode_ghost : ℕ
mode_ghost = 4

abbrev pub mode_kernel : ℕ
mode_kernel = 5

abbrev pub mode_count : ℕ
mode_count = 6

abbrev pub source_kernel : ℕ
source_kernel = 0

abbrev pub source_daemon : ℕ
source_daemon = 1

abbrev pub source_user : ℕ
source_user = 2

-- `mode_reject_reason_t`
abbrev pub reject_none : ℕ
reject_none = 0

abbrev pub reject_target_invalid : ℕ
reject_target_invalid = 1

abbrev pub reject_source_invalid : ℕ
reject_source_invalid = 2

abbrev pub reject_edge_illegal : ℕ
reject_edge_illegal = 3

abbrev pub reject_auth_required : ℕ
reject_auth_required = 4

abbrev pub reject_special_key_required : ℕ
reject_special_key_required = 5

abbrev pub reject_system_prompt_required : ℕ
reject_system_prompt_required = 6

abbrev pub reject_cooldown_active : ℕ
reject_cooldown_active = 7

abbrev pub reject_deesc_window_active : ℕ
reject_deesc_window_active = 8

abbrev pub reject_boot_policy : ℕ
reject_boot_policy = 9

-- `MODE_AUTH_*`, by bit
abbrev pub auth_password : ℕ
auth_password = 2 ^ 0

abbrev pub auth_special_key : ℕ
auth_special_key = 2 ^ 1

abbrev pub auth_system_prompt : ℕ
auth_system_prompt = 2 ^ 2

abbrev pub auth_cooldown_elapsed : ℕ
auth_cooldown_elapsed = 2 ^ 3

abbrev pub auth_deesc_elapsed : ℕ
auth_deesc_elapsed = 2 ^ 4

abbrev pub auth_automatic : ℕ
auth_automatic = 2 ^ 5

abbrev pub auth_boot_intent : ℕ
auth_boot_intent = 2 ^ 6

abbrev pub auth_manual : ℕ
auth_manual = 2 ^ 7

-- `envelope_deny_t`
abbrev pub env_deny_target_invalid : ℕ
env_deny_target_invalid = 1

abbrev pub env_deny_source_invalid : ℕ
env_deny_source_invalid = 2

abbrev pub env_deny_edge_illegal : ℕ
env_deny_edge_illegal = 3

abbrev pub fate_result_accepted : ℕ
fate_result_accepted = 0

abbrev pub fate_result_rejected : ℕ
fate_result_rejected = 1

abbrev pub fate_record_transition : ℕ
fate_record_transition = 0

abbrev pub fate_record_fault : ℕ
fate_record_fault = 1

abbrev pub fate_record_lattice : ℕ
fate_record_lattice = 2

abbrev pub fate_record_attest : ℕ
fate_record_attest = 3

abbrev pub mode_history_size : ℕ
mode_history_size = 256

-- `struct mode_transition`
pub record ModeTransition : Type 0 where
  pub timestamp_tsc : ℕ
  pub prev_hash : ℕ
  pub curr_hash : ℕ
  pub requestor_pid : ℕ
  pub from_mode : ℕ
  pub to_mode : ℕ
  pub trigger_source : ℕ
  pub result_code : ℕ
  pub record_type : ℕ
  pub fault_vector : ℕ
  pub reserved0 : ℕ
  pub fault_error_code : ℕ
  pub fault_rip : ℕ
  pub fault_cr2 : ℕ
  pub fault_rsp : ℕ
  pub fault_cs : ℕ
  pub fault_rflags : ℕ

-- `memset(&record, 0, sizeof(record))`
abbrev pub zero_record : ModeTransition
zero_record = record {
  timestamp_tsc = 0;
  prev_hash = 0;
  curr_hash = 0;
  requestor_pid = 0;
  from_mode = 0;
  to_mode = 0;
  trigger_source = 0;
  result_code = 0;
  record_type = 0;
  fault_vector = 0;
  reserved0 = 0;
  fault_error_code = 0;
  fault_rip = 0;
  fault_cr2 = 0;
  fault_rsp = 0;
  fault_cs = 0;
  fault_rflags = 0;
}

-- `struct mode_state`, less the lock, `active_context` and the tick statistics, which no code uses
pub record ModeState : Type 0 where
  pub current_mode : ℕ
  pub previous_mode : ℕ
  pub global_mode_mask : ℕ
  pub fate_history : List ModeTransition
  pub fate_head_index : ℕ
  pub fate_generation_id : ℕ
  pub transitions_total : ℕ
  pub transitions_auto : ℕ
  pub transitions_manual : ℕ
  pub security_epoch : ℕ
  pub envelope_txid : ℕ
  pub mode_enter_tick : List ℕ
  pub prompt_auth_failures : ℕ

-- `memset(&kernel_mode_state, 0, sizeof(struct mode_state))`
abbrev pub zero_state : ModeState
zero_state = record {
  current_mode = 0;
  previous_mode = 0;
  global_mode_mask = 0;
  fate_history = replicate mode_history_size zero_record;
  fate_head_index = 0;
  fate_generation_id = 0;
  transitions_total = 0;
  transitions_auto = 0;
  transitions_manual = 0;
  security_epoch = 0;
  envelope_txid = 0;
  mode_enter_tick = replicate mode_count 0;
  prompt_auth_failures = 0;
}

-- `mode_boot_record_t`
pub record BootRecord : Type 0 where
  pub magic : ℕ
  pub version : ℕ
  pub sequence : ℕ
  pub mode : ℕ
  pub valid : ℕ
  pub checksum : ℕ
  pub reserved0 : ℕ
  pub reserved1 : ℕ

-- Calls into hardware and other units, in order: `vmm_switch` with its PCID, `invpcid_flush_all`,
-- `ocular_bleach`, `pkru_set_reality`.
pub data Effect : Type 0 where
  pkru_set_reality : ℕ → Effect
  vmm_switch : ℕ → Effect
  invpcid_flush_all : Effect
  ocular_bleach : Effect

-- What the mode engine changes: its own statics, the CMOS bytes that it wrote (register and value,
-- newest first), the audit unit, the scheduler's global mode and epoch, and the calls it made
-- (newest first).
pub record Kernel : Type 0 where
  pub state : ModeState
  pub boot : BootRecord
  pub cmos_writes : List (ℕ × ℕ)
  pub audit : Audit
  pub sched_global_mode : ℕ
  pub sched_global_epoch : ℕ
  pub effects : List Effect
