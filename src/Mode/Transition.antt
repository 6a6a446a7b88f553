-- ===== src/Mode/Transition.antt =====
-- Mode transitions as callers make them (kernel/mode.c): `mode_request_transition_ex` and what
-- `mode_init` does at boot.
pub mod Invariant
pub mod Gate
pub mod Init
use reaper_operating_system.Base.{
  ℕ, ◌+◌, ◌^◌, bit_or, Bool, true, false, not, ◌||◌, Option, none, some, List, ◌==◌, if◌then◌else◌,
  set,
}
use reaper_operating_system.Env.{Env}
use reaper_operating_system.Mode.{
  ModeState, Kernel, mode_void, mode_casual, mode_secure, mode_lockdown, mode_ghost, source_kernel,
  source_daemon, source_user, auth_password, auth_special_key, auth_system_prompt,
  auth_cooldown_elapsed, auth_deesc_elapsed, auth_automatic, auth_boot_intent, auth_manual,
  reject_none, reject_edge_illegal, fate_result_accepted, fate_result_rejected, zero_state,
}
use reaper_operating_system.Mode.Fate.{fate_log_transition_event}
use reaper_operating_system.Mode.Boot.{
  boot_record_load_persistent, boot_record_store_mode, boot_record_load_mode,
}
use reaper_operating_system.Mode.Envelope.{
  Compiled, Snapshot, Verdict, allow, deny, reboot, env_compile_transition, env_verify_transition,
  env_apply_transition, env_rollback_transition,
}

-- the return values 0 and -1, and the call that ends in `system_reboot_now`
pub data Reply : Type 0 where
  done refused rebooted : Reply

-- a transition event in the fate ledger
unfoldable pub log_event : Env → Compiled → (result reason : ℕ) → Kernel → Kernel
log_event env c result reason k = record k {
  state = fate_log_transition_event env c.from_mode c.to_mode c.source result reason k.state;
}

module _ (blake3 : List ℕ → List ℕ) (env : Env) where
  -- the end of `mode_request_transition_ex`, behind `env_apply_transition`
  unfoldable pub finish_apply : Compiled → Bool × Snapshot × Kernel → Reply × Kernel
  unfolding log_event
  finish_apply c (false, snap, k) = (
    refused,
    log_event env c fate_result_rejected reject_edge_illegal (env_rollback_transition snap k),
  )
  finish_apply c (true, snap, k) =
      let logged = log_event env c fate_result_accepted reject_none k in
      (
        done,
        if c.to_mode == mode_casual || c.to_mode == mode_secure || c.to_mode == mode_lockdown
            then boot_record_store_mode c.to_mode logged
            else logged,
      )

  unfoldable pub follow_verdict : Compiled → Verdict × Kernel → Reply × Kernel
  unfolding finish_apply
  follow_verdict c (deny d reason, k) = (refused, log_event env c fate_result_rejected reason k)
  follow_verdict c (reboot, k) = (rebooted, k)
  follow_verdict c (allow, k) = finish_apply c (env_apply_transition blake3 env c k)

  unfoldable pub mode_request_transition_ex :
      (target source auth_flags : ℕ) → Kernel → Reply × Kernel
  unfolding follow_verdict env_compile_transition
  mode_request_transition_ex target source auth_flags k =
      if k.state.current_mode == target
      then (done, k)
      else let (c, k') =
          env_compile_transition env k.state.current_mode target source auth_flags k in
        follow_verdict c (env_verify_transition env c k')

-- the flags that `mode_request_transition` passes on
unfoldable pub mode_default_auth_flags : ℕ → ℕ
mode_default_auth_flags source =
    if source == source_user
    then auth_password + auth_manual + auth_special_key + auth_cooldown_elapsed
    else if source == source_daemon
    then auth_password + auth_system_prompt + auth_cooldown_elapsed + auth_deesc_elapsed
    else if source == source_kernel
    then auth_automatic + auth_boot_intent + auth_cooldown_elapsed + auth_deesc_elapsed
    else 0

abbrev pub boot_flags : ℕ
boot_flags = auth_automatic + auth_boot_intent

-- the state in which `mode_init` makes its first request
unfoldable pub boot_state : Env → (ℕ → ℕ) → Kernel → Kernel
boot_state env cmos k = record k {
  boot = boot_record_load_persistent cmos;
  state = record zero_state { mode_enter_tick = set zero_state.mode_enter_tick mode_void env.tick };
}

module _ (blake3 : List ℕ → List ℕ) (env : Env) where
  unfoldable pub mode_request_transition : (target source : ℕ) → Kernel → Reply × Kernel
  unfolding mode_default_auth_flags
  mode_request_transition target source =
      mode_request_transition_ex blake3 env target source (mode_default_auth_flags source)

  -- `cmos` is what the CMOS holds when the machine starts. The requests of `mode_init` come from
  -- the kernel, so none of them reboots; their replies are not read.
  unfoldable pub restore_mode : Option ℕ → Kernel → Kernel
  restore_mode none k = k
  restore_mode (some m) k =
      if m == mode_secure
      then (mode_request_transition_ex blake3 env mode_secure source_kernel boot_flags k).1
      else if m == mode_lockdown
      then (mode_request_transition_ex blake3 env mode_lockdown source_kernel boot_flags k).1
      else k

  unfoldable pub mode_init : (ℕ → ℕ) → Kernel → Kernel
  unfolding boot_state restore_mode
  mode_init cmos k =
      if not (k.state.current_mode == mode_void)
      then k
      else let start = boot_state env cmos k in
        let casual =
          (mode_request_transition_ex blake3 env mode_casual source_kernel boot_flags start).1 in
        restore_mode (boot_record_load_mode casual.boot) casual
