-- ===== src/Audit/Ring.antt =====
-- The audit ring's indices: what a write adds, and what it leaves alone.
use reaper_operating_system.Base.{
  ℕ, ◌+◌, ◌%◌, ◌<◌, ◌≡◌, ◌≢◌, arith, length, length-set, get_or, set, get_or-set,
}
use reaper_operating_system.Audit.{
  AuditLattice, AuditRecord, audit_lattice_capacity, blank, distance,
}

pub record IsValid (l : AuditLattice) : Type 0 where
  pub head_in : l.head < audit_lattice_capacity
  pub tail_in : l.tail < audit_lattice_capacity
  pub storage : length l.records ≡ audit_lattice_capacity

-- the number of records between head and tail, and the `k`-th of them
abbrev pub gap : AuditLattice → ℕ
gap l = distance l.head l.tail

unfoldable pub record_at : AuditLattice → ℕ → AuditRecord
record_at l k = get_or l.records ((l.head + k) % audit_lattice_capacity) blank

pub gap-lt : {l : AuditLattice} → IsValid l → gap l < audit_lattice_capacity
gap-lt v = ground arith

-- The slot that a write uses is the one behind the live records.
pub tail_slot : {l : AuditLattice} → IsValid l → l.tail ≡ (l.head + gap l) % audit_lattice_capacity
tail_slot v = ground arith

pub slot_ne :
    {l : AuditLattice} (k : ℕ)
    → IsValid l
    → k < gap l
    → l.tail ≢ (l.head + k) % audit_lattice_capacity
slot_ne k v h e = ground arith

-- the ring after a write of `r`
unfoldable pub written : AuditLattice → AuditRecord → AuditLattice
written l r = record l {
  tail = (l.tail + 1) % audit_lattice_capacity;
  overflow_count = 0;
  records = set l.records l.tail r;
}

module _ {l : AuditLattice} (r : AuditRecord) (v : IsValid l) where
  pub written-IsValid : IsValid (written l r)
  unfolding written
  written-IsValid = omega (arith, length-set l.records l.tail r, v)

  pub gap-written : gap l < 1023 → gap (written l r) ≡ gap l + 1
  unfolding written
  gap-written h = ground arith

  pub record_at-written_old : (k : ℕ) → k < gap l → record_at (written l r) k ≡ record_at l k
  unfolding written record_at
  record_at-written_old k h = ground (
    arith,
    slot_ne k v h,
    get_or-set l.records l.tail ((l.head + k) % 1024) r blank (omega (arith, v)),
  )

  pub record_at-written_new : record_at (written l r) (gap l) ≡ r
  unfolding written record_at
  record_at-written_new = ground (
    arith,
    tail_slot v,
    get_or-set l.records l.tail ((l.head + gap l) % 1024) r blank (omega (arith, v)),
  )
