-- ===== src/Audit/Chain.antt =====
-- `audit_strike` on the whole state: the hash chain, and what a call does to the live records.
use reaper_operating_system.Base.{
  ℕ, suc, ◌+◌, ◌%◌, ◌≤◌, ◌<◌, ◌≡◌, sym, ◌∙◌, ◌≢◌, true, false, not, ◌&&◌, some, List, arith, leb,
  ◌==◌, if◌then◌else◌, Bool-cases, inl, inr, ◌⊎◌,
}
use reaper_operating_system.Base.Word.{u32}
use reaper_operating_system.Env.{Env}
use reaper_operating_system.Audit.{
  Audit, AuditLattice, AuditRecord, AuditMeta, audit_write_threshold, audit_event_overflow,
  audit_result_error, no_meta, fresh_record, record_hash, write_record, strike_lattice,
  audit_strike, count_overflow,
}
use reaper_operating_system.Audit.Ring.{
  IsValid, gap, record_at, written, written-IsValid, gap-written, record_at-written_old,
  record_at-written_new,
}

-- Each live record but the first names the hash of the one before it, and the file's last hash is
-- that of the newest.
pub record IsChained (l : AuditLattice) (last : List ℕ) : Type 0 where
  pub valid : IsValid l
  pub linked : (k : ℕ) → suc k < gap l → (record_at l (suc k)).prev_hash ≡ (record_at l k).hash
  pub newest : (k : ℕ) → suc k ≡ gap l → (record_at l k).hash ≡ last

module _ {l : AuditLattice} {last : List ℕ} (r : AuditRecord) (c : IsChained l last)
    (room : gap l < 1023) where
  linked-written :
      r.prev_hash ≡ last
      → (k : ℕ) → suc k < gap l + 1
      → (record_at (written l r) (suc k)).prev_hash ≡ (record_at (written l r) k).hash
  linked-written link k h = elim (Bool-cases (suc k == gap l)) [
    | inl e ↦
        let e' : suc k ≡ gap l = ground arith in
        rw
          (
            record_at-written_old r c.valid k (omega arith),
            e',
            record_at-written_new r c.valid,
            link,
          )
          (sym (c.newest k e'))
    | inr ne ↦
        rw
          (
            record_at-written_old r c.valid k (omega arith),
            record_at-written_old r c.valid (suc k) (ground arith),
          )
          (c.linked k (ground arith))
  ]

  newest-written : (k : ℕ) → suc k ≡ gap l + 1 → (record_at (written l r) k).hash ≡ r.hash
  newest-written k e = let e' : k ≡ gap l = omega arith in rw (e', record_at-written_new r c.valid)

  pub IsChained-written : r.prev_hash ≡ last → IsChained (written l r) r.hash
  IsChained-written link = record {
    valid = written-IsValid r c.valid;
    linked = λ k h. linked-written link k (rw (gap-written r c.valid room) at h);
    newest = λ k e. newest-written k (e ∙ gap-written r c.valid room);
  }

-- `s` with the ring `l` and the last hash `h`
abbrev pub with_ring : Audit → AuditLattice → List ℕ → Audit
with_ring s l h = record s { lattice = some l; last_hash = h }

abbrev pub overflowed : AuditLattice → AuditLattice
overflowed l = record l { overflow_count = u32 (l.overflow_count + 1) }

module _ (blake3 : List ℕ → List ℕ) (env : Env) where
  -- the record that a call writes, with its hash
  unfoldable pub sealed_record : ℕ → ℕ → ℕ → AuditMeta → AuditLattice → Audit → AuditRecord
  sealed_record event_type result_code target_id meta l s =
      let rec = fresh_record env l s.last_hash event_type result_code target_id meta in
      record rec { hash = record_hash blake3 s.current_fate_seed rec }

  module _ (event_type result_code target_id : ℕ) (meta : AuditMeta) {l : AuditLattice} (s : Audit)
      (v : IsValid l) where
    pub write_record-room :
        gap l < 1023
        → let r = sealed_record event_type result_code target_id meta l s in
          write_record blake3 env event_type result_code target_id meta l s
          ≡ with_ring s (written l r) r.hash
    unfolding write_record written sealed_record
    write_record-room room =
        let open_slot : ((l.tail + 1) % 1024 == l.head) ≡ false = ground arith in rw open_slot

    pub write_record-full :
        gap l ≡ 1023
        → write_record blake3 env event_type result_code target_id meta l s
          ≡ record s { lattice = some (overflowed l) }
    unfolding write_record
    write_record-full full =
        let met : ((l.tail + 1) % 1024 == l.head) ≡ true = ground arith in rw met

  module _ (event_type result_code target_id : ℕ) (meta : AuditMeta) {l : AuditLattice} (s : Audit)
      (there : s.lattice ≡ some l) (v : IsValid l) where
    abbrev pub strike : Audit
    strike = audit_strike blake3 env event_type result_code target_id meta s

    -- the marker that the first call over the threshold writes
    abbrev pub marker : AuditRecord
    marker = sealed_record audit_event_overflow audit_result_error (gap l) no_meta l s

    pub strike_unfolds :
        strike ≡ strike_lattice blake3 env event_type result_code target_id meta l s
    unfolding audit_strike
    strike_unfolds = rw there

    -- An audit call writes its record while fewer than 1022 are live, or if it is an overflow
    -- marker itself and a slot is left.
    Passes : Type 0
    Passes = (not (event_type == audit_event_overflow) && leb audit_write_threshold (gap l)) ≡ false

    strike_passes :
        Passes → strike ≡ write_record blake3 env event_type result_code target_id meta l s
    unfolding strike_lattice Passes
    strike_passes test = strike_unfolds ∙ rw test

    strike_stops :
        event_type ≢ audit_event_overflow
        → audit_write_threshold ≤ gap l
        → strike
          ≡ count_overflow (
              if l.overflow_count == 0
              then write_record blake3 env audit_event_overflow audit_result_error
                  (gap l)
                  no_meta
                  l
                  s
              else s)
    unfolding strike_lattice
    strike_stops other full =
        let test : (not (event_type == 7) && leb 1022 (gap l)) ≡ true = ground arith in
        strike_unfolds ∙ rw test

    -- For a valid ring with a slot left below the threshold, or below the last slot for an
    -- overflow record, an audit call writes its sealed record behind the live ones, clears the
    -- overflow counter and makes the record's hash the last one.
    pub audit_strike-appends :
        (gap l < audit_write_threshold) ⊎ ((event_type ≡ audit_event_overflow) × (gap l < 1023))
        → let r = sealed_record event_type result_code target_id meta l s in
          strike ≡ with_ring s (written l r) r.hash
    unfolding Passes
    audit_strike-appends (inl room) =
        strike_passes (ground arith)
        ∙ write_record-room event_type result_code target_id meta s v (omega arith)
    audit_strike-appends (inr (same, room)) =
        strike_passes (ground arith)
        ∙ write_record-room event_type result_code target_id meta s v room

    -- In a valid ring with no lost record counted, a call of another type than overflow that finds
    -- exactly the threshold reached writes an overflow marker in its place, makes the marker's
    -- hash the last one, and counts one lost record.
    pub audit_strike-marks :
        event_type ≢ audit_event_overflow
        → gap l ≡ audit_write_threshold
        → l.overflow_count ≡ 0
        → strike ≡ with_ring s (overflowed (written l marker)) marker.hash
    audit_strike-marks other full none_lost =
        let first : (l.overflow_count == 0) ≡ true = ground arith in
        strike_stops other (omega arith)
        ∙ rw first (rw (write_record-room 7 2 (gap l) no_meta s v (omega arith)))

    -- In a valid ring at the threshold with a lost record counted, a call of another type than
    -- overflow only counts one more: no record, no index and no hash changes.
    pub audit_strike-drops :
        event_type ≢ audit_event_overflow
        → audit_write_threshold ≤ gap l
        → l.overflow_count ≢ 0
        → strike ≡ record s { lattice = some (overflowed l) }
    audit_strike-drops other full lost =
        let test : (l.overflow_count == 0) ≡ false = ground arith in
        strike_stops other full ∙ rw (test, there)
