-- ===== src/Audit/Entries.antt =====
-- What the live records of the audit ring say, as a list, and what a log keeps of a run of calls.
use reaper_operating_system.Base.{
  ℕ, zero, suc, ◌+◌, ◌<◌, ◌≡◌, refl, ap, ◌∙◌, ◌≢◌, List, [], ◌∷◌, ◌++◌, arith, length-replicate,
  replicate,
}
use reaper_operating_system.Env.{Env}
use reaper_operating_system.Audit.{
  AuditLattice, AuditRecord, AuditMeta, audit_event_overflow, audit_result_error, no_meta, actor_of,
  audit_write_threshold, audit_lattice_capacity, blank,
}
use reaper_operating_system.Audit.Ring.{
  IsValid, gap, record_at, written, gap-written, record_at-written_old, record_at-written_new,
}
use reaper_operating_system.Audit.Chain.{overflowed}

-- a call of `audit_strike`, and the world in which it is made
pub record AuditCall : Type 0 where
  pub env : Env
  pub event_type : ℕ
  pub result_code : ℕ
  pub target_id : ℕ
  pub metadata : AuditMeta

-- what a record says, but for its place in the chain
pub record Entry : Type 0 where
  pub timestamp : ℕ
  pub actor_id : ℕ
  pub event_type : ℕ
  pub result_code : ℕ
  pub target_id : ℕ
  pub metadata : AuditMeta

abbrev pub entry_of : AuditRecord → Entry
entry_of r = record {
  timestamp = r.timestamp;
  actor_id = r.actor_id;
  event_type = r.event_type;
  result_code = r.result_code;
  target_id = r.target_id;
  metadata = r.metadata;
}

abbrev pub call_entry : AuditCall → Entry
call_entry c = record {
  timestamp = c.env.tick;
  actor_id = actor_of c.env.current;
  event_type = c.event_type;
  result_code = c.result_code;
  target_id = c.target_id;
  metadata = c.metadata;
}

-- the marker that stands for the calls that are lost
abbrev pub lost_entry : AuditCall → Entry
lost_entry c = record {
  timestamp = c.env.tick;
  actor_id = actor_of c.env.current;
  event_type = audit_event_overflow;
  result_code = audit_result_error;
  target_id = audit_write_threshold;
  metadata = no_meta;
}

-- What a log with `room` more entries keeps: the first calls, and a marker in place of all others.
unfoldable pub kept : (room : ℕ) → List AuditCall → List Entry
kept room [] = []
kept zero (c ∷ cs) = lost_entry c ∷ []
kept (suc room) (c ∷ cs) = call_entry c ∷ kept room cs

-- the live entries from the `k`-th on
abbrev pub entries_from : AuditLattice → (left k : ℕ) → List Entry
entries_from l zero k = []
entries_from l (suc left) k = entry_of (record_at l k) ∷ entries_from l left (suc k)

abbrev pub entries : AuditLattice → List Entry
entries l = entries_from l (gap l) 0

abbrev pub NoOverflow : List AuditCall → Type 0
NoOverflow [] = Unit {0}
NoOverflow (c ∷ cs) = (c.event_type ≢ audit_event_overflow) × NoOverflow cs

entries_from-same :
    (l l' : AuditLattice) (left k : ℕ)
    → ((j : ℕ) → j < k + left → record_at l' j ≡ record_at l j)
    → entries_from l' left k ≡ entries_from l left k
entries_from-same l l' zero k same = refl
entries_from-same l l' (suc left) k same =
    let first = same k (omega arith) in
    let rest = entries_from-same l l' left (suc k) (λ j h. same j (omega arith)) in
    rw (first, rest) refl

entries_from-suc :
    (l : AuditLattice) (left k : ℕ)
    → entries_from l (suc left) k
      ≡ entries_from l left k ++ (entry_of (record_at l (k + left)) ∷ [])
entries_from-suc l zero k = ap (λ j. entry_of (record_at l j) ∷ []) (omega arith)
entries_from-suc l (suc left) k =
    let shift : suc k + left ≡ k + suc left = omega arith in
    ap (λ (t : List Entry). entry_of (record_at l k) ∷ t)
      (entries_from-suc l left (suc k)
        ∙ ap (λ j. entries_from l left (suc k) ++ (entry_of (record_at l j) ∷ [])) shift)

pub entries-written :
    (l : AuditLattice) (r : AuditRecord)
    → IsValid l
    → gap l < 1023
    → entries (written l r) ≡ entries l ++ (entry_of r ∷ [])
entries-written l r v room =
    let longer : gap (written l r) ≡ suc (gap l) = omega (arith, gap-written r v room) in
    ap (λ n. entries_from (written l r) n 0) longer
    ∙ entries_from-suc (written l r) (gap l) 0
    ∙ ap (λ j. entries_from (written l r) (gap l) 0 ++ (entry_of (record_at (written l r) j) ∷ []))
        (omega arith)
    ∙ ap (λ (t : List Entry). t ++ (entry_of (record_at (written l r) (gap l)) ∷ []))
        (entries_from-same l (written l r) (gap l) 0
          (λ j h. record_at-written_old r v j (omega arith)))
    ∙ ap (λ q. entries l ++ (entry_of q ∷ [])) (record_at-written_new r v)

pub entries-overflowed : (l : AuditLattice) → entries (overflowed l) ≡ entries l
unfolding record_at
entries-overflowed l = entries_from-same l (overflowed l) (gap l) 0 (λ j h. refl)

pub overflowed-IsValid : {l : AuditLattice} → IsValid l → IsValid (overflowed l)
overflowed-IsValid v = record { head_in = v.head_in; tail_in = v.tail_in; storage = v.storage }

pub overflow_count-written : (l : AuditLattice) (r : AuditRecord) → (written l r).overflow_count ≡ 0
unfolding written
overflow_count-written l r = refl

-- an overflow record with this target
abbrev pub marked : AuditCall → ℕ → Entry
marked c target = record (lost_entry c) { target_id = target }

abbrev pub new_ring : AuditLattice
new_ring = record {
  head = 0;
  tail = 0;
  overflow_count = 0;
  records = replicate audit_lattice_capacity blank;
}

pub new_ring-IsValid : IsValid new_ring
new_ring-IsValid = record {
  head_in = omega arith;
  tail_in = omega arith;
  storage = length-replicate 1024 blank;
}
