-- ===== src/Audit/Run.antt =====
-- A whole run of audit calls on a fresh ring: what it holds in the end, and what is counted as lost.
use reaper_operating_system.Base.{
  ℕ, zero, suc, ◌+◌, ◌-◌, ◌<◌, ◌≡◌, refl, sym, ap, ◌∙◌, some, List, [], ◌∷◌, ◌++◌, arith, length,
  inl,
}
use mathlib.Core.Path.{subst}
use mathlib.Core.List.{append_assoc, append-nil}
use reaper_operating_system.Audit.{
  Audit, AuditLattice, AuditMeta, no_meta, actor_of, fresh_record, audit_init, audit_strike,
  audit_write_threshold,
}
use reaper_operating_system.Audit.Ring.{IsValid, gap, written, written-IsValid, gap-written}
use reaper_operating_system.Audit.Chain.{
  with_ring, overflowed, sealed_record, audit_strike-appends, audit_strike-marks,
  audit_strike-drops,
}
use reaper_operating_system.Audit.Entries.{
  AuditCall, Entry, entry_of, call_entry, lost_entry, kept, entries, NoOverflow, entries-written,
  entries-overflowed, overflowed-IsValid, overflow_count-written, marked, new_ring,
  new_ring-IsValid,
}

module _ (blake3 : List ℕ → List ℕ) where
  abbrev pub struck : AuditCall → Audit → Audit
  struck c s = audit_strike blake3 c.env c.event_type c.result_code c.target_id c.metadata s

  abbrev pub strikes : List AuditCall → Audit → Audit
  strikes [] s = s
  strikes (c ∷ cs) s = strikes cs (struck c s)

  entry_of-sealed :
      (c : AuditCall) (e r t : ℕ) (m : AuditMeta) (l : AuditLattice) (s : Audit)
      → entry_of (sealed_record blake3 c.env e r t m l s) ≡ record {
        timestamp = c.env.tick;
        actor_id = actor_of c.env.current;
        event_type = e;
        result_code = r;
        target_id = t;
        metadata = m;
      }
  unfolding sealed_record fresh_record
  entry_of-sealed c e r t m l s = refl

  -- The state holds a valid ring with these entries and this many calls counted as lost.
  pub record Holds (s : Audit) (es : List Entry) (lost : ℕ) : Type 0 where
    pub ring : AuditLattice
    pub there : s.lattice ≡ some ring
    pub valid : IsValid ring
    pub says : entries ring ≡ es
    pub count : ring.overflow_count ≡ lost

  -- once the marker is there, calls are only counted
  strikes-lost :
      (cs : List AuditCall) (s : Audit) (l : AuditLattice)
      → s.lattice ≡ some l
      → IsValid l
      → gap l ≡ 1023
      → 0 < l.overflow_count
      → l.overflow_count + length cs < 4294967296
      → NoOverflow cs
      → Holds (strikes cs s) (entries l) (l.overflow_count + length cs)
  strikes-lost [] s l there v full lost fits plain = record {
    ring = l;
    there = there;
    valid = v;
    says = refl;
    count = omega arith;
  }
  strikes-lost (c ∷ cs) s l there v full lost fits plain =
      let t : Audit = record s { lattice = some (overflowed l) } in
      let step : struck c s ≡ t =
        audit_strike-drops blake3 c.env c.event_type c.result_code c.target_id c.metadata s there v
          plain.0 (omega arith) (omega arith) in
      let more : (overflowed l).overflow_count ≡ suc l.overflow_count = omega (arith, fits) in
      let rest =
        strikes-lost cs t (overflowed l) refl (overflowed-IsValid v) full (omega (arith, more))
          (omega (arith, more, fits)) plain.1 in
      let count : (overflowed l).overflow_count + length cs ≡ l.overflow_count + length (c ∷ cs) =
        omega (arith, more) in
      subst (λ u. Holds (strikes cs u) (entries l) (l.overflow_count + length (c ∷ cs))) (sym step)
        (subst (λ n. Holds (strikes cs t) (entries l) n) count
          (subst (λ es. Holds (strikes cs t) es ((overflowed l).overflow_count + length cs))
            (entries-overflowed l) rest))

  strikes-Holds :
      (room : ℕ) (cs : List AuditCall) (s : Audit) (l : AuditLattice)
      → s.lattice ≡ some l
      → IsValid l
      → gap l + room ≡ 1022
      → l.overflow_count ≡ 0
      → length cs < 4294967296
      → NoOverflow cs
      → Holds (strikes cs s) (entries l ++ kept room cs) (length cs - room)
  unfolding kept
  strikes-Holds room [] s l there v free none fits plain = record {
    ring = l;
    there = there;
    valid = v;
    says = sym (append-nil (entries l));
    count = omega arith;
  }
  strikes-Holds zero (c ∷ cs) s l there v free none fits plain =
      let r = sealed_record blake3 c.env 7 2 (gap l) no_meta l s in
      let w = written l r in
      let t = with_ring s (overflowed w) r.hash in
      let full : gap l ≡ 1022 = omega arith in
      let step : struck c s ≡ t =
        audit_strike-marks blake3 c.env c.event_type c.result_code c.target_id c.metadata s there v
          plain.0 full none in
      let reset = overflow_count-written l r in
      let one : (overflowed w).overflow_count ≡ 1 = omega (arith, reset) in
      let valid = written-IsValid r v in
      let longer = gap-written r v (omega arith) in
      let rest =
        strikes-lost cs t (overflowed w) refl (overflowed-IsValid valid) (omega (arith, longer))
          (omega (arith, one)) (omega (arith, one, fits)) plain.1 in
      let says : entries (overflowed w) ≡ entries l ++ (lost_entry c ∷ []) =
        entries-overflowed w
        ∙ entries-written l r v (omega arith)
        ∙ ap (λ e. entries l ++ (e ∷ []))
            (entry_of-sealed c 7 2 (gap l) no_meta l s ∙ ap (marked c) full) in
      let count : (overflowed w).overflow_count + length cs ≡ length (c ∷ cs) - 0 =
        omega (arith, one) in
      subst (λ u. Holds (strikes cs u) (entries l ++ (lost_entry c ∷ [])) (length (c ∷ cs) - 0))
        (sym step)
        (subst (λ n. Holds (strikes cs t) (entries l ++ (lost_entry c ∷ [])) n) count
          (subst (λ es. Holds (strikes cs t) es ((overflowed w).overflow_count + length cs)) says
            rest))
  strikes-Holds (suc room) (c ∷ cs) s l there v free none fits plain =
      let r = sealed_record blake3 c.env c.event_type c.result_code c.target_id c.metadata l s in
      let w = written l r in
      let t = with_ring s w r.hash in
      let step : struck c s ≡ t =
        audit_strike-appends blake3 c.env c.event_type c.result_code c.target_id c.metadata s there
          v (inl (omega arith)) in
      let longer = gap-written r v (omega arith) in
      let rest =
        strikes-Holds room cs t w refl (written-IsValid r v) (omega (arith, longer, free))
          (overflow_count-written l r) (omega arith) plain.1 in
      let says : entries w ++ kept room cs ≡ entries l ++ (call_entry c ∷ kept room cs) =
        ap (λ (es : List Entry). es ++ kept room cs)
          (entries-written l r v (omega arith)
            ∙ ap (λ e. entries l ++ (e ∷ []))
                (entry_of-sealed c c.event_type c.result_code c.target_id c.metadata l s))
        ∙ append_assoc (entries l) (call_entry c ∷ []) (kept room cs) in
      let count : length cs - room ≡ length (c ∷ cs) - suc room = omega arith in
      subst
        (λ u.
          Holds (strikes cs u) (entries l ++ (call_entry c ∷ kept room cs))
            (length (c ∷ cs) - suc room))
        (sym step)
        (subst (λ n. Holds (strikes cs t) (entries l ++ (call_entry c ∷ kept room cs)) n) count
          (subst (λ es. Holds (strikes cs t) es (length cs - room)) says rest))

  -- After any run of fewer than 2^32 audit calls of other types than overflow on a new lattice,
  -- the live records are those of the first 1022 calls, each with the time, actor, type, result,
  -- target and metadata of its call, in their order, and, where there were more calls, one
  -- overflow marker in the place of the next; every call from the marker's on is counted as lost.
  pub strikes-kept :
      (seed : ℕ) (cs : List AuditCall)
      → NoOverflow cs
      → length cs < 4294967296
      → Holds
          (strikes cs (audit_init blake3 seed))
          (kept audit_write_threshold cs)
          (length cs - audit_write_threshold)
  unfolding audit_init
  strikes-kept seed cs plain fits =
      strikes-Holds 1022 cs (audit_init blake3 seed) new_ring refl new_ring-IsValid (omega arith)
        refl fits plain
