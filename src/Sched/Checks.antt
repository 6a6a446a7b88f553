-- ===== src/Sched/Checks.antt =====
-- The lease of a thread that is checked and never renewed.
use reaper_operating_system.Base.{ℕ, ◌<◌, ◌≡◌, List, [], ◌∷◌}
use reaper_operating_system.Sched.{EntryLease, scheduler_lease_valid}
use reaper_operating_system.Sched.Lease.{entitled}

module _ (mode_of : ℕ → ℕ) where
  -- what is cached for an epoch that has begun is the truth
  Exact : EntryLease → Type 0
  Exact t = (e : ℕ) → 0 < e → t.validated_epoch ≡ e → t.valid_cache ≡ entitled t (mode_of e) e

  -- checks only, in any epochs
  abbrev pub checks : List ℕ → EntryLease → EntryLease
  checks [] t = t
  checks (e ∷ es) t = checks es (scheduler_lease_valid t (mode_of e) e).1
