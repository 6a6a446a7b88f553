-- ===== src/Audit.antt =====
-- The audit lattice (kernel/audit.c, kernel/include/audit.h): a ring of records, each of which
-- carries the hash of the one before it. BLAKE3 is a parameter, `blake3`, from the bytes that the
-- hasher was fed to the 32 bytes that it returns. A call is one step: the code takes no lock, and
-- calls that overlap are not modelled.
pub mod Ring
pub mod Chain
pub mod Append
pub mod Entries
pub mod Run
use reaper_operating_system.Base.{
  ℕ, ◌+◌, ◌-◌, ◌*◌, ◌%◌, ◌^◌, bit_or, Bool, true, false, not, ◌&&◌, Option, none, some, List, [],
  ◌∷◌, ◌++◌, ltb, leb, ◌==◌, if◌then◌else◌, set, replicate,
}
use reaper_operating_system.Base.Word.{u32, u64, le_bytes, from_le}
use reaper_operating_system.Env.{Env, Current}

abbrev pub audit_lattice_capacity : ℕ
audit_lattice_capacity = 1024

abbrev pub audit_write_threshold : ℕ
audit_write_threshold = audit_lattice_capacity - 2

-- `audit_event_t` and `audit_result_t`, as far as the modelled callers use them
abbrev pub audit_event_phase_shift : ℕ
audit_event_phase_shift = 3

abbrev pub audit_event_cap_denied : ℕ
audit_event_cap_denied = 4

abbrev pub audit_event_cap_mint : ℕ
audit_event_cap_mint = 5

abbrev pub audit_event_overflow : ℕ
audit_event_overflow = 7

abbrev pub audit_result_ok : ℕ
audit_result_ok = 0

abbrev pub audit_result_denied : ℕ
audit_result_denied = 1

abbrev pub audit_result_error : ℕ
audit_result_error = 2

-- `audit_meta_t` by its widest view, `raw`
pub record AuditMeta : Type 0 where
  pub raw0 : ℕ
  pub raw1 : ℕ
  pub raw2 : ℕ
  pub raw3 : ℕ

abbrev pub no_meta : AuditMeta
no_meta = record { raw0 = 0; raw1 = 0; raw2 = 0; raw3 = 0 }

-- `meta.sched`: two `uint32_t` in the first word
abbrev pub sched_meta : ℕ → ℕ → AuditMeta
sched_meta tid auth_status = record no_meta { raw0 = tid + auth_status * 2 ^ 32 }

-- `meta.cap`
abbrev pub cap_meta : ℕ → ℕ → AuditMeta
cap_meta cap_addr rights = record no_meta { raw0 = cap_addr; raw1 = rights }

pub record AuditRecord : Type 0 where
  pub timestamp : ℕ
  pub prev_hash : List ℕ
  pub actor_id : ℕ
  pub target_id : ℕ
  pub event_type : ℕ
  pub result_code : ℕ
  pub gap_seq : ℕ
  pub metadata : AuditMeta
  pub hash : List ℕ

pub record AuditLattice : Type 0 where
  pub head : ℕ
  pub tail : ℕ
  pub overflow_count : ℕ
  pub records : List AuditRecord

-- The file's statics. `lattice` is `none` while `g_audit_lattice` is NULL.
pub record Audit : Type 0 where
  pub lattice : Option AuditLattice
  pub root_system_seed : ℕ
  pub current_fate_seed : ℕ
  pub last_hash : List ℕ

-- a record of zero bytes
abbrev pub blank : AuditRecord
blank = record {
  timestamp = 0;
  prev_hash = replicate 32 0;
  actor_id = 0;
  target_id = 0;
  event_type = 0;
  result_code = 0;
  gap_seq = 0;
  metadata = no_meta;
  hash = replicate 32 0;
}

-- `(uint64_t)curr->owner->mode << 48 | (uint32_t)curr->tid`
abbrev pub actor_of : Option Current → ℕ
actor_of none = 0
actor_of (some c) = bit_or (u64 (c.mode * 2 ^ 48)) (u32 c.tid)

abbrev pub distance : ℕ → ℕ → ℕ
distance head tail = if leb head tail then tail - head else audit_lattice_capacity - head + tail

meta_bytes : AuditMeta → List ℕ
meta_bytes m = le_bytes 8 m.raw0 ++ le_bytes 8 m.raw1 ++ le_bytes 8 m.raw2 ++ le_bytes 8 m.raw3

-- the record that is written, before its hash is filled in
unfoldable pub fresh_record : Env → AuditLattice → List ℕ → ℕ → ℕ → ℕ → AuditMeta → AuditRecord
fresh_record env l last event_type result_code target_id meta = record {
  timestamp = env.tick;
  prev_hash = last;
  actor_id = actor_of env.current;
  target_id = target_id;
  event_type = event_type;
  result_code = result_code;
  gap_seq = l.overflow_count;
  metadata = meta;
  hash = [];
}

-- `g_audit_lattice->overflow_count++`
abbrev pub count_overflow : Audit → Audit
count_overflow s = elim s.lattice [
  | none ↦ s
  | some l ↦ record s { lattice = some (record l { overflow_count = u32 (l.overflow_count + 1) }) }
]

module _ (blake3 : List ℕ → List ℕ) where
  -- The state that `audit_init` leaves, for the seed that RDRAND or the TSC gave it.
  pub audit_init : ℕ → Audit
  audit_init seed = record {
    lattice = some (record {
      head = 0;
      tail = 0;
      overflow_count = 0;
      records = replicate audit_lattice_capacity blank;
    });
    root_system_seed = seed;
    current_fate_seed = seed;
    last_hash = blake3 (le_bytes 8 seed);
  }

  -- `mode_id_t` is hashed as the four bytes of its `int`.
  pub audit_rotate_seed : ℕ → ℕ → Audit → Audit
  audit_rotate_seed reality_id epoch s =
      let full_seed =
        blake3 (le_bytes 8 s.root_system_seed ++ le_bytes 4 reality_id ++ le_bytes 8 epoch) in
      record s { current_fate_seed = from_le 8 full_seed }

  -- the bytes that `audit_strike` feeds the hasher, and the hash
  pub record_hash : ℕ → AuditRecord → List ℕ
  unfolding meta_bytes
  record_hash fate_seed r = blake3 (
      r.prev_hash
      ++ le_bytes 8 r.timestamp
      ++ le_bytes 8 r.actor_id
      ++ le_bytes 8 r.target_id
      ++ le_bytes 2 r.event_type
      ++ le_bytes 2 r.result_code
      ++ le_bytes 4 r.gap_seq
      ++ meta_bytes r.metadata
      ++ le_bytes 8 fate_seed)

  -- `audit_strike` behind its threshold test: the write of a record into the ring
  pub write_record : Env → ℕ → ℕ → ℕ → AuditMeta → AuditLattice → Audit → Audit
  write_record env event_type result_code target_id meta l s =
      let next_tail = (l.tail + 1) % audit_lattice_capacity in
      if next_tail == l.head
      then record s { lattice = some (record l { overflow_count = u32 (l.overflow_count + 1) }) }
      else let rec = fresh_record env l s.last_hash event_type result_code target_id meta in
        let sealed = record_hash s.current_fate_seed rec in
        record s {
          lattice = some (record l {
            tail = next_tail;
            overflow_count = 0;
            records = set l.records l.tail (record rec { hash = sealed });
          });
          last_hash = sealed;
        }

  -- `audit_strike` with the lattice there. Its inner call has the type `AUDIT_EVENT_OVERFLOW`,
  -- which passes the threshold test.
  unfoldable pub strike_lattice : Env → ℕ → ℕ → ℕ → AuditMeta → AuditLattice → Audit → Audit
  strike_lattice env event_type result_code target_id meta l s =
      let gap = distance l.head l.tail in
      if not (event_type == audit_event_overflow) && leb audit_write_threshold gap
      then count_overflow (
          if l.overflow_count == 0
          then write_record env audit_event_overflow audit_result_error gap no_meta l s
          else s)
      else write_record env event_type result_code target_id meta l s

  pub audit_strike : Env → ℕ → ℕ → ℕ → AuditMeta → Audit → Audit
  unfolding strike_lattice
  audit_strike env event_type result_code target_id meta s = elim s.lattice [
    | none ↦ s
    | some l ↦ strike_lattice env event_type result_code target_id meta l s
  ]
