-- ===== src/Mode/Envelope/Frame.antt =====
-- The verification of an envelope leaves the mode, the ledger, the counters and the other units alone.
use reaper_operating_system.Base.{ℕ, ◌≡◌, ◌||◌, arith, ltb, ◌⊎◌, ◌+◌, Bool-cases, inl, inr}
use reaper_operating_system.Base.Word.{u8}
use reaper_operating_system.Env.{Env}
use reaper_operating_system.Mode.{Kernel, mode_casual, mode_lockdown}
use reaper_operating_system.Mode.Boot.{boot_record_store_mode}
use reaper_operating_system.Mode.Envelope.{Compiled, env_verify_transition, verify_casual_lockdown}

-- `j` differs from `k` at most in the prompt failures, the boot record and its persisted bytes, and the
-- number of the last envelope.
pub record SameCore (k j : Kernel) : Type 0 where
  pub current : j.state.current_mode ≡ k.state.current_mode
  pub previous : j.state.previous_mode ≡ k.state.previous_mode
  pub mask : j.state.global_mode_mask ≡ k.state.global_mode_mask
  pub epoch : j.state.security_epoch ≡ k.state.security_epoch
  pub total : j.state.transitions_total ≡ k.state.transitions_total
  pub auto : j.state.transitions_auto ≡ k.state.transitions_auto
  pub manual : j.state.transitions_manual ≡ k.state.transitions_manual
  pub ticks : j.state.mode_enter_tick ≡ k.state.mode_enter_tick
  pub history : j.state.fate_history ≡ k.state.fate_history
  pub head : j.state.fate_head_index ≡ k.state.fate_head_index
  pub audit : j.audit ≡ k.audit
  pub sched_mode : j.sched_global_mode ≡ k.sched_global_mode
  pub sched_epoch : j.sched_global_epoch ≡ k.sched_global_epoch
  pub effects : j.effects ≡ k.effects

pub self-SameCore : (k : Kernel) → SameCore k k
self-SameCore k = ground arith

pub SameCore-store :
    {k : Kernel} (mode : ℕ) (j : Kernel) → SameCore k j → SameCore k (boot_record_store_mode mode j)
unfolding boot_record_store_mode
SameCore-store mode j p = elim (Bool-cases (ltb mode mode_casual || ltb mode_lockdown mode)) [
  | inl out ↦ rw out p
  | inr stored ↦ rw stored (record {
    current = p.current;
    previous = p.previous;
    mask = p.mask;
    epoch = p.epoch;
    total = p.total;
    auto = p.auto;
    manual = p.manual;
    ticks = p.ticks;
    history = p.history;
    head = p.head;
    audit = p.audit;
    sched_mode = p.sched_mode;
    sched_epoch = p.sched_epoch;
    effects = p.effects;
  })
]

abbrev with_failures : ℕ → Kernel → Kernel
with_failures n k = record k { state = record (k.state) { prompt_auth_failures = n } }

SameCore-failures : (n : ℕ) (k : Kernel) → SameCore k (with_failures n k)
SameCore-failures n k = ground arith

casual_lockdown_cases :
    (c : Compiled) (k : Kernel)
    → let after = (verify_casual_lockdown c k).1 in
      let failed = with_failures (u8 (k.state.prompt_auth_failures + 1)) k in
      (after ≡ k) ⊎ ((after ≡ failed) ⊎ (after ≡ boot_record_store_mode mode_lockdown failed))
unfolding verify_casual_lockdown
casual_lockdown_cases c k = ground arith

SameCore-casual_lockdown : (c : Compiled) (k : Kernel) → SameCore k (verify_casual_lockdown c k).1
SameCore-casual_lockdown c k = elim (casual_lockdown_cases c k) [
  | inl e ↦ rw e (self-SameCore k)
  | inr (inl e) ↦ rw e (SameCore-failures _ k)
  | inr (inr e) ↦ rw e (SameCore-store 3 _ (SameCore-failures _ k))
]

verify_kernel :
    (env : Env) (c : Compiled) (k : Kernel)
    → ((env_verify_transition env c k).1 ≡ k)
      ⊎ ((env_verify_transition env c k).1 ≡ (verify_casual_lockdown c k).1)
unfolding env_verify_transition
verify_kernel env c k = ground arith

-- Whatever it decides, env_verify_transition changes no more than the prompt failures and the boot
-- record.
pub env_verify_transition-SameCore :
    (env : Env) (c : Compiled) (k : Kernel) → SameCore k (env_verify_transition env c k).1
env_verify_transition-SameCore env c k = elim (verify_kernel env c k) [
  | inl e ↦ rw e (self-SameCore k)
  | inr e ↦ rw e (SameCore-casual_lockdown c k)
]
