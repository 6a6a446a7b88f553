-- ===== src/Mode/Envelope.antt =====
-- The envelope of a mode transition (kernel/mode.c): compile, verify, apply and roll back. The
-- `env_marker_*` calls only print.
pub mod Policy
pub mod Frame
use reaper_operating_system.Base.{
  ℕ, ◌+◌, ◌-◌, ◌*◌, ◌%◌, ◌^◌, bit_or, Bool, true, false, not, ◌&&◌, ◌||◌, Option, none, some, List,
  [], ◌∷◌, ltb, leb, ◌==◌, if◌then◌else◌, set, get_or,
}
use reaper_operating_system.Base.Word.{u8, u32, u64, sub64}
use reaper_operating_system.Base.Bits.{has_flag}
use reaper_operating_system.Env.{Env}
use reaper_operating_system.Audit.{
  Audit, audit_rotate_seed, audit_strike, sched_meta, audit_event_phase_shift, audit_result_ok,
}
use reaper_operating_system.Mode.{
  ModeState, Kernel, Effect, pkru_set_reality, vmm_switch, invpcid_flush_all, ocular_bleach,
  mode_void, mode_casual, mode_secure, mode_lockdown, mode_ghost, mode_kernel, source_kernel,
  source_daemon, source_user, auth_password, auth_special_key, auth_system_prompt,
  auth_cooldown_elapsed, auth_deesc_elapsed, auth_automatic, auth_boot_intent, reject_none,
  reject_target_invalid, reject_source_invalid, reject_edge_illegal, reject_auth_required,
  reject_special_key_required, reject_system_prompt_required, reject_cooldown_active,
  reject_deesc_window_active, reject_boot_policy, env_deny_target_invalid, env_deny_source_invalid,
  env_deny_edge_illegal,
}
use reaper_operating_system.Mode.Fate.{pid_of}
use reaper_operating_system.Mode.Boot.{boot_record_store_mode}

-- `env_compiled_transition_t`; its reject reason is part of the `Verdict`
pub record Compiled : Type 0 where
  pub txid : ℕ
  pub from_mode : ℕ
  pub to_mode : ℕ
  pub source : ℕ
  pub auth_flags : ℕ
  pub from_class : ℕ
  pub to_class : ℕ
  pub requestor_pid : ℕ
  pub ghost_flush_required : Bool

-- What `env_verify_transition` decides: `ENV_DENY_NONE`, or a denial with its reject reason, or
-- `system_reboot_now`, which does not return.
pub data Verdict : Type 0 where
  allow : Verdict
  deny : (env_deny reject_reason : ℕ) → Verdict
  reboot : Verdict

-- a denial of the edge for a reason
abbrev pub reject : ℕ → Verdict
reject reason = deny env_deny_edge_illegal reason

unfoldable pub mode_to_envelope_class : ℕ → ℕ
mode_to_envelope_class mode =
    if mode == mode_casual
    then 1
    else if mode == mode_secure
    then 2
    else if mode == mode_lockdown
    then 3
    else if mode == mode_ghost
    then 4
    else 0

unfoldable pub env_compile_transition :
    Env → (current target source auth_flags : ℕ) → Kernel → Compiled × Kernel
unfolding mode_to_envelope_class
env_compile_transition env current target source auth_flags k =
    let txid = u64 (k.state.envelope_txid + 1) in
    (
      record {
        txid = txid;
        from_mode = current;
        to_mode = target;
        source = source;
        auth_flags = auth_flags;
        from_class = mode_to_envelope_class current;
        to_class = mode_to_envelope_class target;
        requestor_pid = pid_of env.current;
        ghost_flush_required = target == mode_ghost || current == mode_ghost;
      },
      record k { state = record (k.state) { envelope_txid = txid } },
    )

abbrev pub kernel_override : Compiled → Bool
kernel_override c = c.source == source_kernel && has_flag c.auth_flags auth_automatic

-- `source_ok` of the edges that a user, the daemon or an overriding kernel may take
abbrev pub any_source : Compiled → Bool
any_source c = c.source == source_user || c.source == source_daemon || kernel_override c

-- a password, or an overriding kernel
abbrev pub authorised : Compiled → Bool
authorised c = has_flag c.auth_flags auth_password || kernel_override c

-- `tick_now - mode_enter_tick[mode]` on `uint64_t`
abbrev pub ticks_in : Env → ℕ → ModeState → ℕ
ticks_in env mode s = sub64 env.tick (get_or s.mode_enter_tick mode 0)

unfoldable pub verify_from_void : Compiled → Verdict
verify_from_void c =
    if c.to_mode == mode_casual
    then allow
    else if has_flag c.auth_flags auth_boot_intent && c.to_mode == mode_secure
    then allow
    else if has_flag c.auth_flags auth_boot_intent && c.to_mode == mode_lockdown
    then allow
    else reject reject_boot_policy

pub verify_known_source : Compiled → Verdict
verify_known_source c =
    if not (c.source == source_user || c.source == source_daemon || c.source == source_kernel)
    then reject reject_edge_illegal
    else allow

-- A daemon that fails three times reboots the machine into Lockdown.
pub verify_casual_lockdown : Compiled → Kernel → Verdict × Kernel
verify_casual_lockdown c k =
    if not (any_source c)
    then (reject reject_edge_illegal, k)
    else if not (authorised c)
    then (if c.source == source_daemon
        then (let failures = u8 (k.state.prompt_auth_failures + 1) in
            let k' = record k { state = record (k.state) { prompt_auth_failures = failures } } in
            if leb 3 failures
            then (reboot, boot_record_store_mode mode_lockdown k')
            else (reject reject_auth_required, k'))
        else (reject reject_auth_required, k))
    else if c.source == source_daemon && not (has_flag c.auth_flags auth_system_prompt)
    then (reject reject_system_prompt_required, k)
    else (allow, k)

unfoldable pub verify_casual_ghost : Compiled → Verdict
verify_casual_ghost c =
    if not (c.source == source_user)
    then reject reject_edge_illegal
    else if not (authorised c)
    then reject reject_auth_required
    else allow

pub verify_secure_casual : Env → Compiled → ModeState → Verdict
verify_secure_casual env c s =
    if not (any_source c)
    then reject reject_edge_illegal
    else if ltb (ticks_in env mode_secure s) 2400
        && not (has_flag c.auth_flags auth_cooldown_elapsed)
    then reject reject_cooldown_active
    else if not (authorised c)
    then reject reject_auth_required
    else allow

pub verify_secure_lockdown : Compiled → Verdict
verify_secure_lockdown c =
    if not (any_source c)
    then reject reject_edge_illegal
    else if not (authorised c)
    then reject reject_auth_required
    else allow

pub verify_lockdown_secure : Env → Compiled → ModeState → Verdict
verify_lockdown_secure env c s =
    if not (any_source c)
    then reject reject_edge_illegal
    else if c.source == source_user && not (kernel_override c)
    then (if not (has_flag c.auth_flags auth_special_key)
        then reject reject_special_key_required
        else allow)
    else if ltb (ticks_in env mode_lockdown s) 300 && not (has_flag c.auth_flags auth_deesc_elapsed)
    then reject reject_deesc_window_active
    else if not (has_flag c.auth_flags auth_password)
        || not (has_flag c.auth_flags auth_system_prompt)
    then (if kernel_override c then allow else reject reject_system_prompt_required)
    else allow

pub verify_ghost_secure : Compiled → Verdict
verify_ghost_secure c =
    if not (c.source == source_user || kernel_override c)
    then reject reject_edge_illegal
    else if not (authorised c)
    then reject reject_auth_required
    else allow

pub verify_ghost_lockdown : Compiled → Verdict
verify_ghost_lockdown c =
    if not (c.source == source_kernel || c.source == source_daemon)
    then reject reject_edge_illegal
    else allow

abbrev pub edge : Compiled → ℕ → ℕ → Bool
edge c from to = c.from_mode == from && c.to_mode == to

unfoldable pub env_verify_transition : Env → Compiled → Kernel → Verdict × Kernel
env_verify_transition env c k =
    if ltb c.to_mode mode_casual || ltb mode_ghost c.to_mode
    then (deny env_deny_target_invalid reject_target_invalid, k)
    else if ltb mode_ghost c.from_mode
    then (deny env_deny_source_invalid reject_source_invalid, k)
    else if c.from_mode == mode_void
    then (verify_from_void c, k)
    else if edge c mode_casual mode_secure
    then (verify_known_source c, k)
    else if edge c mode_casual mode_lockdown
    then verify_casual_lockdown c k
    else if edge c mode_casual mode_ghost
    then (verify_casual_ghost c, k)
    else if edge c mode_secure mode_casual
    then (verify_secure_casual env c k.state, k)
    else if edge c mode_secure mode_lockdown
    then (verify_secure_lockdown c, k)
    else if edge c mode_secure mode_ghost
    then (verify_known_source c, k)
    else if edge c mode_lockdown mode_secure
    then (verify_lockdown_secure env c k.state, k)
    else if edge c mode_ghost mode_secure
    then (verify_ghost_secure c, k)
    else if edge c mode_ghost mode_lockdown
    then (verify_ghost_lockdown c, k)
    else (reject reject_edge_illegal, k)

-- `env_apply_snapshot_t`
pub record Snapshot : Type 0 where
  pub prev_mode : ℕ
  pub current_mode : ℕ
  pub mode_mask : ℕ

abbrev pub snapshot_of : ModeState → Snapshot
snapshot_of s = record {
  prev_mode = s.previous_mode;
  current_mode = s.current_mode;
  mode_mask = s.global_mode_mask;
}

-- the part of `env_apply_transition` that changes `kernel_mode_state`
unfoldable pub enter_mode : Env → Compiled → ModeState → ModeState
enter_mode env c s =
    let automatic = c.source == source_kernel in
    record s {
      previous_mode = s.current_mode;
      current_mode = c.to_mode;
      global_mode_mask = u8 (2 ^ c.to_mode);
      mode_enter_tick = set s.mode_enter_tick c.to_mode env.tick;
      prompt_auth_failures = if c.to_mode == mode_lockdown then 0 else s.prompt_auth_failures;
      transitions_total = u64 (s.transitions_total + 1);
      transitions_auto = if automatic then u64 (s.transitions_auto + 1) else s.transitions_auto;
      transitions_manual =
          if automatic then s.transitions_manual else u64 (s.transitions_manual + 1);
      security_epoch = u64 (s.security_epoch + 1);
    }

-- its calls between `pkru_set_reality` and `mode_exit_secure_context`, newest first
unfoldable pub apply_effects : Compiled → List Effect → List Effect
apply_effects c es =
    let entered = vmm_switch 4095 ∷ pkru_set_reality (u8 c.to_mode) ∷ es in
    let flushed = if c.ghost_flush_required then invpcid_flush_all ∷ entered else entered in
    vmm_switch 0 ∷ ocular_bleach ∷ flushed

-- `scheduler_on_mode_transition`
unfoldable pub scheduler_on_mode_transition : (to_mode security_epoch : ℕ) → Kernel → Kernel
scheduler_on_mode_transition to_mode security_epoch k =
    if ltb mode_kernel to_mode
    then k
    else record k { sched_global_mode = u8 to_mode; sched_global_epoch = security_epoch }

module _ (blake3 : List ℕ → List ℕ) where
  unfoldable pub env_apply_transition : Env → Compiled → Kernel → Bool × Snapshot × Kernel
  unfolding enter_mode apply_effects scheduler_on_mode_transition
  env_apply_transition env c k =
      let s = enter_mode env c k.state in
      let rotated = audit_rotate_seed blake3 c.to_mode s.security_epoch k.audit in
      let target = bit_or (u64 (c.to_mode * 2 ^ 32)) k.state.current_mode in
      let struck =
        audit_strike blake3 env audit_event_phase_shift audit_result_ok target
          (sched_meta (u32 c.source) c.auth_flags) rotated in
      let k' = record k { state = s; audit = struck; effects = apply_effects c k.effects } in
      (true, snapshot_of k.state, scheduler_on_mode_transition c.to_mode s.security_epoch k')

unfoldable pub env_rollback_transition : Snapshot → Kernel → Kernel
env_rollback_transition snap k = record k {
  state = record (k.state) {
    previous_mode = snap.prev_mode;
    current_mode = snap.current_mode;
    global_mode_mask = snap.mode_mask;
  };
}
