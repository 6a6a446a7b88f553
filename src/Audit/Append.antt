-- ===== src/Audit/Append.antt =====
-- The audit log only grows: no call changes a live record or breaks the chain.
use reaper_operating_system.Base.{
  ℕ, ◌≤◌, ◌<◌, ◌≡◌, refl, Bool, true, false, not, ◌&&◌, some, List, arith, leb, ◌==◌, if◌then◌else◌,
  Bool-cases, inl, inr,
}
use reaper_operating_system.Env.{Env}
use reaper_operating_system.Audit.{
  Audit, AuditLattice, AuditMeta, AuditRecord, audit_event_overflow, audit_result_error, no_meta,
  fresh_record, audit_write_threshold, write_record, strike_lattice, audit_strike, count_overflow,
}
use reaper_operating_system.Audit.Ring.{
  gap, gap-lt, record_at, written, gap-written, record_at-written_old,
}
use reaper_operating_system.Audit.Chain.{
  IsChained, IsChained-written, sealed_record, with_ring, overflowed, write_record-room,
  write_record-full, strike_unfolds,
}

-- `s` holds a chained ring with at least the live records of `l`, each where and as it was.
pub record Extends (l : AuditLattice) (s : Audit) : Type 0 where
  pub ring : AuditLattice
  pub there : s.lattice ≡ some ring
  pub head_same : ring.head ≡ l.head
  pub longer : gap l ≤ gap ring
  pub kept : (k : ℕ) → k < gap l → record_at ring k ≡ record_at l k
  pub chain : IsChained ring s.last_hash

self-Extends :
    {l : AuditLattice} {s : Audit} → s.lattice ≡ some l → IsChained l s.last_hash → Extends l s
self-Extends {l} e c = record {
  ring = l;
  there = e;
  head_same = refl;
  longer = omega arith;
  kept = λ k h. refl;
  chain = c;
}

record_at-overflowed : (l : AuditLattice) (k : ℕ) → record_at (overflowed l) k ≡ record_at l k
unfolding record_at
record_at-overflowed l k = refl

IsChained-overflowed :
    {l : AuditLattice} {last : List ℕ} → IsChained l last → IsChained (overflowed l) last
unfolding record_at
IsChained-overflowed c = record {
  valid = record {
    head_in = c.valid.head_in;
    tail_in = c.valid.tail_in;
    storage = c.valid.storage;
  };
  linked = c.linked;
  newest = c.newest;
}

Extends-written :
    {l : AuditLattice} (s : Audit) (r : AuditRecord)
    → IsChained l s.last_hash
    → gap l < 1023
    → r.prev_hash ≡ s.last_hash
    → Extends l (with_ring s (written l r) r.hash)
unfolding written
Extends-written {l} s r c room link = record {
  ring = written l r;
  there = refl;
  head_same = refl;
  longer = omega (arith, gap-written r c.valid room);
  kept = record_at-written_old r c.valid;
  chain = IsChained-written r c room link;
}

Extends-count : {l : AuditLattice} {s : Audit} → Extends l s → Extends l (count_overflow s)
unfolding record_at
Extends-count {s} x = rw x.there (record {
  ring = overflowed x.ring;
  there = refl;
  head_same = x.head_same;
  longer = x.longer;
  kept = x.kept;
  chain = IsChained-overflowed x.chain;
})

module _ (blake3 : List ℕ → List ℕ) (env : Env) where
  prev_hash-sealed :
      (e r t : ℕ) (m : AuditMeta) (l : AuditLattice) (s : Audit)
      → (sealed_record blake3 env e r t m l s).prev_hash ≡ s.last_hash
  unfolding sealed_record fresh_record
  prev_hash-sealed e r t m l s = refl

  module _ (event_type result_code target_id : ℕ) (meta : AuditMeta) {l : AuditLattice} (s : Audit)
      (there : s.lattice ≡ some l) (c : IsChained l s.last_hash) where
    Extends-write_record :
        Extends l (write_record blake3 env event_type result_code target_id meta l s)
    Extends-write_record = elim (Bool-cases (gap l == 1023)) [
      | inl full ↦
          rw
            (write_record-full blake3 env event_type result_code target_id meta s c.valid
              (ground arith))
            (record {
              ring = overflowed l;
              there = refl;
              head_same = refl;
              longer = omega arith;
              kept = λ k h. record_at-overflowed l k;
              chain = IsChained-overflowed c;
            })
      | inr room ↦
          let fits : gap l < 1023 = ground (arith, gap-lt c.valid) in
          rw (write_record-room blake3 env event_type result_code target_id meta s c.valid fits) (
            Extends-written s _ c fits (prev_hash-sealed event_type result_code target_id meta l s))
    ]

  module _ {l : AuditLattice} (s : Audit) (there : s.lattice ≡ some l)
      (c : IsChained l s.last_hash) where
    Extends-first :
        (b : Bool)
        → Extends l (
            if b
            then write_record blake3 env audit_event_overflow audit_result_error (gap l) no_meta l s
            else s)
    Extends-first true = Extends-write_record 7 2 (gap l) no_meta s there c
    Extends-first false = self-Extends there c

    -- Whatever an audit call is about, and however full the chained ring that it finds is, it
    -- leaves every live record where and as it was, never moves the head, never loses a record,
    -- and leaves a chain in which each live record names the hash of the one before it and the
    -- last hash is the newest's.
    pub audit_strike-Extends :
        (event_type result_code target_id : ℕ) (meta : AuditMeta)
        → Extends l (audit_strike blake3 env event_type result_code target_id meta s)
    unfolding strike_lattice
    audit_strike-Extends e r t m =
        rw (strike_unfolds blake3 env e r t m s there c.valid)
          (elim (Bool-cases
            (not (e == audit_event_overflow) && leb audit_write_threshold (gap l))) [
              | inl full ↦ rw full (Extends-count (Extends-first (l.overflow_count == 0)))
              | inr room ↦ rw room (Extends-write_record e r t m s there c)
            ])
