-- ===== src/Examples/Scheduling.antt =====
-- A lease and its cache, and the budget of a process.
use reaper_operating_system.Base.{
  ℕ, ◌+◌, ◌<◌, ◌≡◌, refl, true, List, [], ◌∷◌, ltb, if◌then◌else◌, arith,
}
use reaper_operating_system.Sched.{
  lease_check, owned_by_kernel, scheduler_lease_valid, ProcessBudget,
  scheduler_refill_process_budget,
}
use reaper_operating_system.Sched.Lease.{
  thread_lease, entry_apply, LeaseEvent, checked, applied, entitled, lease_event, lease_after,
  scheduler_lease_valid-entitled,
}
use reaper_operating_system.Sched.Budget.{
  consume_all, consume_all-total, Refilled, scheduler_refill_process_budget-Refilled,
}

-- every epoch after the third is Secure
abbrev mode_of : ℕ → ℕ
mode_of e = if ltb e 4 then 1 else 2

small_modes : (e : ℕ) → mode_of e < 32
small_modes e = ground arith

-- a thread of Casual, checked in its epoch, that enters Secure by a new lease
abbrev life : List LeaseEvent
life = checked 3 ∷ checked 4 ∷ applied 5 ∷ checked 5 ∷ []

answered :
    (scheduler_lease_valid (lease_after mode_of life (thread_lease 1 3)) (mode_of 5) 5).0 ≡ true
unfolding lease_event scheduler_lease_valid lease_check owned_by_kernel thread_lease entry_apply
answered = refl

scheduler_lease_valid-entitled_example :
    entitled (lease_after mode_of life (thread_lease 1 3)) (mode_of 5) 5 ≡ true
scheduler_lease_valid-entitled_example =
    scheduler_lease_valid-entitled mode_of 1 3 5 life small_modes (omega arith) (omega arith)
      answered

abbrev budget : ProcessBudget
budget = record {
  remaining_process_budget = 30;
  max_total_budget = 100;
  refill_period_ticks = 10;
  last_process_refill = 5;
  sched_auth_root_valid = true;
}

consume_all-total_example :
    (consume_all (20 ∷ 0 ∷ 50 ∷ []) budget).0
      + (consume_all (20 ∷ 0 ∷ 50 ∷ []) budget).1.remaining_process_budget
    ≡ 30
consume_all-total_example = consume_all-total (20 ∷ 0 ∷ 50 ∷ []) budget

scheduler_refill_process_budget-Refilled_example :
    Refilled 27 budget (scheduler_refill_process_budget 27 budget)
scheduler_refill_process_budget-Refilled_example =
    scheduler_refill_process_budget-Refilled 27 budget (omega arith) (omega arith) (omega arith)
