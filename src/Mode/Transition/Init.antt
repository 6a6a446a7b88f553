-- ===== src/Mode/Transition/Init.antt =====
-- Which mode a boot ends in (`mode_init` of kernel/mode.c).
use reaper_operating_system.Base.{
  ℕ, ◌≡◌, refl, true, none, some, List, arith, ◌==◌, ◌⊎◌, inl, inr, Bool-cases,
}
use reaper_operating_system.Env.{Env}
use reaper_operating_system.Mode.{Kernel, BootRecord, mode_void, mode_casual, source_kernel}
use reaper_operating_system.Mode.Fate.{fate_append_record, fate_log_transition_event}
use reaper_operating_system.Mode.Boot.{
  stamp, boot_record_is_valid, boot_record_load_mode, boot_record_store_mode,
}
use reaper_operating_system.Mode.Envelope.{
  env_compile_transition, env_verify_transition, env_apply_transition, verify_from_void, enter_mode,
  scheduler_on_mode_transition,
}
use reaper_operating_system.Mode.Transition.{
  log_event, finish_apply, follow_verdict, mode_request_transition_ex, boot_flags, boot_state,
  restore_mode, mode_init,
}

load_mode-stamp :
    (b : BootRecord)
    → (boot_record_load_mode (stamp mode_casual b) ≡ none)
      ⊎ (boot_record_load_mode (stamp mode_casual b) ≡ some mode_casual)
unfolding boot_record_load_mode stamp
load_mode-stamp b = elim (Bool-cases (boot_record_is_valid (stamp mode_casual b))) [
  | inl e ↦ inr (rw e refl)
  | inr e ↦ inl (rw e refl)
]

restore_mode-casual :
    (blake3 : List ℕ → List ℕ) (env : Env) (k : Kernel) (b : BootRecord)
    → restore_mode blake3 env (boot_record_load_mode (stamp mode_casual b)) k ≡ k
unfolding restore_mode
restore_mode-casual blake3 env k b = elim (load_mode-stamp b) [
  | inl e ↦ rw e refl
  | inr e ↦ rw e refl
]

-- the kernel's first request at boot
first_request : (List ℕ → List ℕ) → Env → (ℕ → ℕ) → Kernel → Kernel
first_request blake3 env cmos k =
    (mode_request_transition_ex blake3 env mode_casual source_kernel boot_flags
      (boot_state env cmos k)).1

first_request_mode :
    (blake3 : List ℕ → List ℕ) (env : Env) (cmos : ℕ → ℕ) (k : Kernel)
    → ((first_request blake3 env cmos k).state.current_mode ≡ mode_casual)
      × ((first_request blake3 env cmos k).boot ≡ stamp mode_casual (boot_state env cmos k).boot)
unfolding first_request boot_state mode_request_transition_ex env_compile_transition follow_verdict
    env_verify_transition verify_from_void finish_apply env_apply_transition enter_mode
    scheduler_on_mode_transition log_event fate_log_transition_event fate_append_record
    boot_record_store_mode
first_request_mode blake3 env cmos k = (refl, refl)

-- A boot out of Void always ends in Casual, whatever mode the boot record in the CMOS asks for:
-- the first request stores Casual in the record before it is read.
pub mode_init-casual :
    (blake3 : List ℕ → List ℕ) (env : Env) (cmos : ℕ → ℕ) (k : Kernel)
    → k.state.current_mode ≡ mode_void
    → (mode_init blake3 env cmos k).state.current_mode ≡ mode_casual
unfolding mode_init first_request
mode_init-casual blake3 env cmos k off =
    let first = first_request_mode blake3 env cmos k in
    let start : (k.state.current_mode == mode_void) ≡ true = ground arith in
    rw (start, first.1, restore_mode-casual) first.0
