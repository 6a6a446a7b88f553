-- ===== src/Sched.antt =====
-- Parts of the scheduler (kernel/scheduler.c): the states of a thread, the lease that it enters with,
-- and the budgets of a process and of a thread. A compare-and-swap loop is one step here, as no other
-- processor comes between its load and its swap.
pub mod Lease
pub mod Checks
pub mod States
pub mod Budget
use reaper_operating_system.Base.{
  ℕ, ◌+◌, ◌-◌, ◌*◌, ◌/◌, ◌%◌, ◌^◌, Bool, true, false, not, ◌&&◌, ◌||◌, Option, none, some, ltb, leb,
  ◌==◌, if◌then◌else◌, min,
}
use reaper_operating_system.Base.Word.{u64}
use reaper_operating_system.Base.Bits.{has_flag}
use reaper_operating_system.Mode.{mode_kernel}

-- `thread_state_t`
pub data ThreadState : Type 0 where
  ready running blocked blocked_auth suspended_mode zombie : ThreadState

unfoldable pub scheduler_transition_valid : ThreadState → ThreadState → Bool
scheduler_transition_valid ready to = true
scheduler_transition_valid running to = true
scheduler_transition_valid blocked running = false
scheduler_transition_valid blocked to = true
scheduler_transition_valid blocked_auth running = false
scheduler_transition_valid blocked_auth to = true
scheduler_transition_valid suspended_mode running = false
scheduler_transition_valid suspended_mode to = true
scheduler_transition_valid zombie zombie = true
scheduler_transition_valid zombie to = false

-- the fields of `thread_t` for the entry lease; `owner_mode` is `none` without an owner
pub record EntryLease : Type 0 where
  pub owner_mode : Option ℕ
  pub epoch : ℕ
  pub mode_mask : ℕ
  pub validated_epoch : ℕ
  pub valid_cache : Bool

-- the checks of `scheduler_lease_valid` behind its cache
unfoldable pub lease_check : EntryLease → (active_mode security_epoch : ℕ) → Bool
lease_check t active_mode security_epoch =
    if ltb t.epoch security_epoch then false else has_flag t.mode_mask (2 ^ active_mode)

unfoldable pub owned_by_kernel : Option ℕ → Bool
owned_by_kernel none = false
owned_by_kernel (some mode) = mode == mode_kernel

unfoldable pub scheduler_lease_valid :
    EntryLease → (active_mode security_epoch : ℕ) → Bool × EntryLease
scheduler_lease_valid t active_mode security_epoch =
    let valid = lease_check t active_mode security_epoch in
    if owned_by_kernel t.owner_mode
    then (true, t)
    else if t.validated_epoch == security_epoch
    then (t.valid_cache, t)
    else (valid, record t { validated_epoch = security_epoch; valid_cache = valid })

abbrev pub sched_min_refill_period : ℕ
sched_min_refill_period = 1

-- the fields of `process_t` for its budget
pub record ProcessBudget : Type 0 where
  pub remaining_process_budget : ℕ
  pub max_total_budget : ℕ
  pub refill_period_ticks : ℕ
  pub last_process_refill : ℕ
  pub sched_auth_root_valid : Bool

-- the amount that is granted, and what is left
unfoldable pub process_budget_try_consume : ProcessBudget → (request : ℕ) → ℕ × ProcessBudget
process_budget_try_consume p request =
    let consume =
      if ltb request p.remaining_process_budget then request else p.remaining_process_budget in
    if request == 0
    then (0, p)
    else if p.remaining_process_budget == 0
    then (0, p)
    else (consume, record p { remaining_process_budget = p.remaining_process_budget - consume })

-- `refill_period_ticks`, or the least period
abbrev pub period_of : ℕ → ℕ
period_of p = if ltb p sched_min_refill_period then sched_min_refill_period else p

-- `current + grant`, cut off at `limit`, also where the sum wraps around
abbrev pub add_grant : (current grant limit : ℕ) → ℕ
add_grant current grant limit =
    let sum = u64 (current + grant) in
    if ltb sum current then limit else if ltb limit sum then limit else sum

unfoldable pub scheduler_refill_process_budget : ℕ → ProcessBudget → ProcessBudget
scheduler_refill_process_budget now_tick p =
    let period = period_of p.refill_period_ticks in
    let refills = (now_tick - p.last_process_refill) / period in
    if not p.sched_auth_root_valid
    then p
    else if p.max_total_budget == 0
    then p
    else if p.last_process_refill == 0
    then record p {
      last_process_refill = now_tick;
      remaining_process_budget =
          if p.remaining_process_budget == 0
          then p.max_total_budget
          else p.remaining_process_budget;
    }
    else if leb now_tick p.last_process_refill
    then p
    else if refills == 0
    then p
    else record p {
      last_process_refill = u64 (p.last_process_refill + u64 (refills * period));
      remaining_process_budget =
          add_grant p.remaining_process_budget (u64 (refills * p.max_total_budget))
            p.max_total_budget;
    }
