-- ===== src/Sched/Budget.antt =====
-- The budget of a process: what requests can take out of it, and what a refill puts back.
use reaper_operating_system.Base.{
  ℕ, ◌+◌, ◌-◌, ◌*◌, ◌/◌, ◌^◌, ◌≤◌, ◌<◌, ◌≡◌, ap, true, false, not, List, [], ◌∷◌, arith, leb, ◌==◌,
  if◌then◌else◌, Bool-cases, inl, inr, leb→le, ==→eq,
}
use native.Mathlib.Nat.{div-mul-le_self, lt-div-mul-add}
use reaper_operating_system.Base.Word.{u64}
use reaper_operating_system.Sched.{
  ProcessBudget, process_budget_try_consume, scheduler_refill_process_budget, period_of, add_grant,
}

-- requests one after another: what they were granted in all, and what is left
abbrev pub consume_all : List ℕ → ProcessBudget → ℕ × ProcessBudget
consume_all [] p = (0, p)
consume_all (request ∷ requests) p =
    let (granted, p') = process_budget_try_consume p request in
    let (more, q) = consume_all requests p' in (granted + more, q)

consume-total :
    (p : ProcessBudget) (request : ℕ)
    → (process_budget_try_consume p request).0
        + (process_budget_try_consume p request).1.remaining_process_budget
      ≡ p.remaining_process_budget
unfolding process_budget_try_consume
consume-total p request = ground arith

-- Whatever is requested one after another, what was granted and what is left add up to the budget:
-- no request takes more than there is, and nothing is lost.
pub consume_all-total :
    (requests : List ℕ) (p : ProcessBudget)
    → (consume_all requests p).0 + (consume_all requests p).1.remaining_process_budget
      ≡ p.remaining_process_budget
consume_all-total [] p = omega arith
consume_all-total (request ∷ requests) p = omega (
  arith,
  consume-total p request,
  consume_all-total requests (process_budget_try_consume p request).1,
)

add_grant-le : (current grant limit : ℕ) → add_grant current grant limit ≤ limit
add_grant-le current grant limit = ground arith

le-add_grant : (current grant limit : ℕ) → current ≤ limit → current ≤ add_grant current grant limit
le-add_grant current grant limit h = ground arith

-- A refill keeps the budget between what it was and the most the process may have, never sets the clock
-- of refills past the present, and leaves less than a period of it uncounted.
pub record Refilled (now : ℕ) (p q : ProcessBudget) : Type 0 where
  pub grows : p.remaining_process_budget ≤ q.remaining_process_budget
  pub bounded : q.remaining_process_budget ≤ p.max_total_budget
  pub past : q.last_process_refill ≤ now
  pub recent :
      p.sched_auth_root_valid ≡ true
      → 0 < p.max_total_budget
      → 0 < p.last_process_refill
      → now < q.last_process_refill + period_of p.refill_period_ticks

-- what the last branch needs of the clock
clock_lem :
    (last now period : ℕ)
    → last ≤ now
    → now < 2 ^ 64
    → 0 < period
    → (u64 (last + u64 ((now - last) / period * period)) ≤ now)
      × (now < u64 (last + u64 ((now - last) / period * period)) + period)
clock_lem last now period h small some =
    let below = div-mul-le_self (now - last) period in
    let above = lt-div-mul-add {a = now - last} {b = period} some in (omega arith, omega arith)

Refilled-kept :
    (now : ℕ) (p : ProcessBudget)
    → p.last_process_refill ≤ now
    → p.remaining_process_budget ≤ p.max_total_budget
    → (p.sched_auth_root_valid ≡ true
        → 0 < p.max_total_budget
        → 0 < p.last_process_refill
        → now < p.last_process_refill + period_of p.refill_period_ticks)
    → Refilled now p p
Refilled-kept now p past within recent = record {
  grows = omega arith;
  bounded = within;
  past = past;
  recent = recent;
}

period_positive : (n : ℕ) → 0 < period_of n
period_positive n = ground arith

first_grant : (r m : ℕ) → r ≤ m → (r ≤ (if r == 0 then m else r)) × ((if r == 0 then m else r) ≤ m)
first_grant r m h = (ground arith, ground arith)

-- no whole period has passed
early_lem :
    (last now period : ℕ)
    → 0 < period
    → last ≤ now
    → (now - last) / period ≡ 0
    → now < last + period
early_lem last now period some h none_ =
    let above = lt-div-mul-add {a = now - last} {b = period} some in
    let zero_times = ap (λ n. n * period) none_ in omega arith

refill_on :
    (now : ℕ) (p : ProcessBudget)
    → now < 2 ^ 64
    → p.last_process_refill ≤ now
    → p.remaining_process_budget ≤ p.max_total_budget
    → (not p.sched_auth_root_valid) ≡ false
    → (p.max_total_budget == 0) ≡ false
    → Refilled now p (scheduler_refill_process_budget now p)
unfolding scheduler_refill_process_budget
refill_on now p small past within on some =
    let last = p.last_process_refill in
    let period = period_of p.refill_period_ticks in
    let least = period_positive p.refill_period_ticks in
    elim (Bool-cases (last == 0)) [
      | inl e ↦
          let grant = first_grant p.remaining_process_budget p.max_total_budget within in
          rw (scheduler_refill_process_budget, on, some, e)
            (record {
              grows = grant.0;
              bounded = grant.1;
              past = omega arith;
              recent = λ o m l. omega arith;
            })
      | inr begun ↦ elim (Bool-cases (leb now last)) [
        | inl e ↦
            let same = leb→le now last e in
            rw (scheduler_refill_process_budget, on, some, begun, e)
              (Refilled-kept now p past within (λ o m l. omega arith))
        | inr late ↦ elim (Bool-cases ((now - last) / period == 0)) [
          | inl e ↦
              let whole : (now - last) / period ≡ 0 = ==→eq ((now - last) / period) 0 e in
              rw (scheduler_refill_process_budget, on, some, begun, late, e)
                (Refilled-kept now p past within
                  (λ o m l. early_lem last now period least past whole))
          | inr e ↦
              let clock = clock_lem last now period past small least in
              let grant = u64 ((now - last) / period * p.max_total_budget) in
              rw (scheduler_refill_process_budget, on, some, begun, late, e)
                (record {
                  grows = le-add_grant p.remaining_process_budget grant p.max_total_budget within;
                  bounded = add_grant-le p.remaining_process_budget grant p.max_total_budget;
                  past = clock.0;
                  recent = λ o m l. clock.1;
                })
        ]
      ]
    ]

-- If the clock of refills is not ahead and the budget is within its bound, a refill grows the
-- budget up to at most its bound, leaves that clock not ahead, and, where refills are on and have
-- begun, less than a period behind.
pub scheduler_refill_process_budget-Refilled :
    (now : ℕ) (p : ProcessBudget)
    → now < 2 ^ 64
    → p.last_process_refill ≤ now
    → p.remaining_process_budget ≤ p.max_total_budget
    → Refilled now p (scheduler_refill_process_budget now p)
unfolding scheduler_refill_process_budget
scheduler_refill_process_budget-Refilled now p small past within =
    elim (Bool-cases (not p.sched_auth_root_valid)) [
      | inl off ↦
          rw (scheduler_refill_process_budget, off)
            (Refilled-kept now p past within (λ on m l. absurd (ground arith)))
      | inr on ↦ elim (Bool-cases (p.max_total_budget == 0)) [
        | inl e ↦
            rw (scheduler_refill_process_budget, on, e)
              (Refilled-kept now p past within (λ o m l. absurd (ground arith)))
        | inr some ↦ refill_on now p small past within on some
      ]
    ]
