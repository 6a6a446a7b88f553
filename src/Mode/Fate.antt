-- ===== src/Mode/Fate.antt =====
-- The fate ledger of kernel/mode.c: a ring of the last 256 records, each hashed by 64-bit FNV-1a and
-- linked to the one before it.
pub mod Ledger
use reaper_operating_system.Base.{
  ℕ, zero, suc, ◌+◌, ◌-◌, ◌*◌, ◌%◌, ◌^◌, bit_xor, Bool, true, false, ◌&&◌, Option, none, some, List,
  [], ◌∷◌, ◌++◌, ltb, leb, ◌==◌, if◌then◌else◌, set, get_or,
}
use reaper_operating_system.Base.Word.{u8, u32, u64, le_bytes}
use reaper_operating_system.Env.{Env, Current}
use reaper_operating_system.Mode.{
  ModeState, ModeTransition, zero_record, mode_history_size, source_user, source_kernel,
  fate_result_accepted, fate_record_transition, fate_record_fault, fate_record_lattice,
  fate_record_attest,
}

-- the packed bytes of a record, `curr_hash` at 16 to 23 among them
record_bytes : ModeTransition → List ℕ
record_bytes r =
    le_bytes 8 r.timestamp_tsc
    ++ le_bytes 8 r.prev_hash
    ++ le_bytes 8 r.curr_hash
    ++ le_bytes 4 r.requestor_pid
    ++ le_bytes 1 r.from_mode
    ++ le_bytes 1 r.to_mode
    ++ le_bytes 1 r.trigger_source
    ++ le_bytes 1 r.result_code
    ++ le_bytes 1 r.record_type
    ++ le_bytes 1 r.fault_vector
    ++ le_bytes 2 r.reserved0
    ++ le_bytes 4 r.fault_error_code
    ++ le_bytes 8 r.fault_rip
    ++ le_bytes 8 r.fault_cr2
    ++ le_bytes 8 r.fault_rsp
    ++ le_bytes 8 r.fault_cs
    ++ le_bytes 8 r.fault_rflags

-- the loop of `calculate_record_hash`, from byte `i` on
hash_from : ℕ → ℕ → List ℕ → ℕ
hash_from i hash [] = hash
hash_from i hash (p ∷ ps) =
    hash_from (i + 1) (if leb 16 i && ltb i 24 then hash else u64 (bit_xor hash p * 0x100000001b3))
      ps

pub calculate_record_hash : ModeTransition → ModeTransition
unfolding record_bytes hash_from
calculate_record_hash r = record r { curr_hash = hash_from 0 0xcbf29ce484222325 (record_bytes r) }

-- the `prev_hash` that a new record gets
pub prev_link : ModeState → ℕ
prev_link s =
    if ltb 0 s.fate_head_index
    then (get_or s.fate_history ((s.fate_head_index - 1) % mode_history_size) zero_record).curr_hash
    else 0

pub sealed_entry : ModeState → ModeTransition → ModeTransition
sealed_entry s r = calculate_record_hash (record r { prev_hash = prev_link s })

unfoldable pub fate_append_record : ModeTransition → ModeState → ModeState
fate_append_record r s =
    let head = u64 (s.fate_head_index + 1) in
    record s {
      fate_history = set s.fate_history (s.fate_head_index % mode_history_size) (sealed_entry s r);
      fate_head_index = head;
      fate_generation_id =
          if head % mode_history_size == 0
          then u64 (s.fate_generation_id + 1)
          else s.fate_generation_id;
    }

abbrev pub pid_of : Option Current → ℕ
pid_of none = 0
pid_of (some c) = c.pid

unfoldable pub fate_log_transition_event :
    Env → (from to source result reason : ℕ) → ModeState → ModeState
fate_log_transition_event env from to source result reason =
    fate_append_record (record zero_record {
      timestamp_tsc = env.tsc;
      requestor_pid = pid_of env.current;
      from_mode = u8 from;
      to_mode = u8 to;
      trigger_source = u8 source;
      result_code = u8 result;
      record_type = fate_record_transition;
      fault_error_code = u32 reason;
    })

pub mode_log_fault_event :
    Env → (vector error_code rip cr2 rsp cs rflags : ℕ) → Bool → ModeState → ModeState
mode_log_fault_event env vector error_code rip cr2 rsp cs rflags from_user s =
    fate_append_record
      (record zero_record {
        timestamp_tsc = env.tsc;
        requestor_pid = if from_user then pid_of env.current else 0;
        from_mode = u8 s.current_mode;
        to_mode = u8 s.current_mode;
        trigger_source = if from_user then source_user else source_kernel;
        result_code = fate_result_accepted;
        record_type = fate_record_fault;
        fault_vector = vector;
        fault_error_code = u32 error_code;
        fault_rip = rip;
        fault_cr2 = cr2;
        fault_rsp = rsp;
        fault_cs = cs;
        fault_rflags = rflags;
      })
      s

pub mode_log_lattice_event :
    Env → (pid vaddr page_count : ℕ) → (is_source is_attach : Bool) → ModeState → ModeState
mode_log_lattice_event env pid vaddr page_count is_source is_attach s =
    fate_append_record
      (record zero_record {
        timestamp_tsc = env.tsc;
        requestor_pid = pid;
        from_mode = u8 s.current_mode;
        to_mode = u8 s.current_mode;
        trigger_source = source_kernel;
        result_code = fate_result_accepted;
        record_type = fate_record_lattice;
        fault_vector = if is_attach then 1 else 2;
        fault_error_code = page_count;
        fault_rip = if is_source then 1 else 0;
        fault_cr2 = vaddr;
      })
      s

pub mode_log_sched_event : Env → (pid event_code detail result : ℕ) → ModeState → ModeState
mode_log_sched_event env pid event_code detail result s =
    fate_append_record
      (record zero_record {
        timestamp_tsc = env.tsc;
        requestor_pid = pid;
        from_mode = u8 s.current_mode;
        to_mode = u8 s.current_mode;
        trigger_source = source_kernel;
        result_code = u8 result;
        record_type = fate_record_transition;
        fault_vector = event_code;
        fault_error_code = detail;
      })
      s

pub mode_log_law2_attestation : Env → (day_id result reason_code detail : ℕ) → ModeState → ModeState
mode_log_law2_attestation env day_id result reason_code detail s =
    fate_append_record
      (record zero_record {
        timestamp_tsc = env.tsc;
        from_mode = u8 s.current_mode;
        to_mode = u8 s.current_mode;
        trigger_source = source_kernel;
        result_code = u8 result;
        record_type = fate_record_attest;
        fault_vector = day_id;
        fault_error_code = u32 reason_code;
        fault_rip = detail;
      })
      s

-- `mode` is a `fate_read_mode_t`
pub fate_record_matches_filter : ModeTransition → ℕ → Bool
fate_record_matches_filter r mode =
    if mode == 0
    then true
    else if mode == 1
    then r.record_type == fate_record_transition
    else if mode == 2
    then r.record_type == fate_record_fault
    else if mode == 3
    then r.record_type == fate_record_lattice
    else if mode == 4
    then r.record_type == fate_record_attest
    else false

-- The loop of `mode_get_history_filtered`: `left` is `total_available - i`, `room` is
-- `count - copied`, and the result is what the rest of the loop copies.
history_from : ModeState → ℕ → (left i room : ℕ) → List ModeTransition
history_from s mode zero i room = []
history_from s mode (suc left) i zero = []
history_from s mode (suc left) i (suc room) =
    let idx = (s.fate_head_index - 1 - i + mode_history_size) % mode_history_size in
    let rec = get_or s.fate_history idx zero_record in
    let skip = history_from s mode left (i + 1) (suc room) in
    let copy = history_from s mode left (i + 1) room in
    if fate_record_matches_filter rec mode then rec ∷ copy else skip

pub mode_get_history_filtered : ModeState → (count mode : ℕ) → List ModeTransition
unfolding history_from
mode_get_history_filtered s count mode =
    let available =
      if ltb s.fate_head_index mode_history_size then s.fate_head_index else mode_history_size in
    history_from s mode available 0 count

pub mode_get_history : ModeState → ℕ → List ModeTransition
mode_get_history s count = mode_get_history_filtered s count 0
