-- ===== src/Env.antt =====
-- What the kernel's operations read of their surroundings: the time stamp counter, the scheduler's
-- global tick (`scheduler_get_global_tick`) and the current thread (`scheduler_get_current`).
-- One operation reads each of them as one value.
use reaper_operating_system.Base.{ℕ, Option}

-- the fields of `thread_t` and of its owner `process_t` that the modelled code reads
pub record Current : Type 0 where
  pub tid : ℕ
  pub pid : ℕ
  pub mode : ℕ

-- `current` is `none` where the thread is NULL or has no owner.
pub record Env : Type 0 where
  pub tsc : ℕ
  pub tick : ℕ
  pub current : Option Current
