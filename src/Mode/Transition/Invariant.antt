-- ===== src/Mode/Transition/Invariant.antt =====
-- What every mode request keeps true of the kernel state.
use reaper_operating_system.Base.{
  ℕ, zero, suc, ◌+◌, ◌^◌, ◌≤◌, ◌≡◌, refl, ◌∙◌, ◌≢◌, false, List, arith, ltb, ◌==◌, ◌||◌, Bool-cases,
  inl, inr, length, length-set,
}
use reaper_operating_system.Base.Word.{u8, u64}
use reaper_operating_system.Env.{Env}
use reaper_operating_system.Mode.{
  Kernel, mode_void, mode_casual, mode_secure, mode_lockdown, mode_ghost, mode_count,
}
use reaper_operating_system.Mode.Fate.{fate_append_record, fate_log_transition_event}
use reaper_operating_system.Mode.Boot.{boot_record_store_mode}
use reaper_operating_system.Mode.Envelope.{
  Compiled, Verdict, allow, deny, reboot, env_compile_transition, env_verify_transition,
  env_apply_transition,
}
use reaper_operating_system.Mode.Envelope.Frame.{SameCore, env_verify_transition-SameCore}
use reaper_operating_system.Mode.Envelope.Policy.{env_verify_transition-LegalEdge, LegalEdge-le}
use reaper_operating_system.Mode.Transition.{
  log_event, finish_apply, follow_verdict, mode_request_transition_ex,
}

-- The mask, the scheduler's copy and the counters agree with the current mode, once one is entered.
pub record IsConsistent (k : Kernel) : Type 0 where
  pub in_range : k.state.current_mode ≤ mode_ghost
  pub mask : k.state.current_mode ≢ mode_void → k.state.global_mode_mask ≡ 2 ^ k.state.current_mode
  pub sched_mode : k.state.current_mode ≢ mode_void → k.sched_global_mode ≡ k.state.current_mode
  pub sched_epoch : k.state.current_mode ≢ mode_void → k.sched_global_epoch ≡ k.state.security_epoch
  pub counted :
      k.state.transitions_total ≡ u64 (k.state.transitions_auto + k.state.transitions_manual)
  pub ticks : length k.state.mode_enter_tick ≡ mode_count

IsConsistent-SameCore : {k j : Kernel} → IsConsistent k → SameCore k j → IsConsistent j
IsConsistent-SameCore v same = ground arith

IsConsistent-log :
    (env : Env) (c : Compiled) (result reason : ℕ) {k : Kernel}
    → IsConsistent k
    → IsConsistent (log_event env c result reason k)
unfolding log_event fate_log_transition_event fate_append_record
IsConsistent-log env c result reason v = record {
  in_range = v.in_range;
  mask = v.mask;
  sched_mode = v.sched_mode;
  sched_epoch = v.sched_epoch;
  counted = v.counted;
  ticks = v.ticks;
}

IsConsistent-store :
    (mode : ℕ) (k : Kernel) → IsConsistent k → IsConsistent (boot_record_store_mode mode k)
unfolding boot_record_store_mode
IsConsistent-store mode k v = elim (Bool-cases (ltb mode mode_casual || ltb mode_lockdown mode)) [
  | inl out ↦ rw out v
  | inr stored ↦ rw stored (record {
    in_range = v.in_range;
    mask = v.mask;
    sched_mode = v.sched_mode;
    sched_epoch = v.sched_epoch;
    counted = v.counted;
    ticks = v.ticks;
  })
]

IsConsistent-numbered :
    (txid : ℕ) {k : Kernel}
    → IsConsistent k
    → IsConsistent (record k { state = record (k.state) { envelope_txid = txid } })
IsConsistent-numbered txid v = ground arith

-- The mask of a mode fits a byte.
mask_fits : (m : ℕ) → m ≤ mode_ghost → u8 (2 ^ m) ≡ 2 ^ m
mask_fits zero h = refl
mask_fits (suc zero) h = refl
mask_fits (suc (suc zero)) h = refl
mask_fits (suc (suc (suc zero))) h = refl
mask_fits (suc (suc (suc (suc zero)))) h = refl
mask_fits (suc (suc (suc (suc (suc m))))) h = absurd (omega arith)

module _ (blake3 : List ℕ → List ℕ) (env : Env) where
  IsConsistent-apply :
      (c : Compiled) (k : Kernel)
      → c.to_mode ≤ mode_ghost
      → IsConsistent k
      → IsConsistent (env_apply_transition blake3 env c k).2
  unfolding env_apply_transition
  IsConsistent-apply c k hi v =
      let known : ltb 5 c.to_mode ≡ false = ground arith in
      rw known (record {
        in_range = hi;
        mask = λ h. mask_fits c.to_mode hi;
        sched_mode = λ h. omega arith;
        sched_epoch = λ h. refl;
        counted = ground (arith, v.counted);
        ticks = length-set k.state.mode_enter_tick c.to_mode env.tick ∙ v.ticks;
      })

  IsConsistent-finish :
      (c : Compiled) (k : Kernel)
      → IsConsistent (env_apply_transition blake3 env c k).2
      → IsConsistent (finish_apply blake3 env c (env_apply_transition blake3 env c k)).1
  unfolding finish_apply env_apply_transition
  IsConsistent-finish c k v =
      elim (Bool-cases
        (c.to_mode == mode_casual || c.to_mode == mode_secure || c.to_mode == mode_lockdown)) [
          | inl kept ↦ rw kept (IsConsistent-store c.to_mode _ (IsConsistent-log env c 0 0 v))
          | inr free ↦ rw free (IsConsistent-log env c 0 0 v)
        ]

  IsConsistent-follow :
      (c : Compiled) (verdict : Verdict) (k : Kernel)
      → (verdict ≡ allow → c.to_mode ≤ mode_ghost)
      → IsConsistent k
      → IsConsistent (follow_verdict blake3 env c (verdict, k)).1
  unfolding follow_verdict
  IsConsistent-follow c allow k hi v = IsConsistent-finish c k (IsConsistent-apply c k (hi refl) v)
  IsConsistent-follow c (deny d reason) k hi v = IsConsistent-log env c 1 reason v
  IsConsistent-follow c reboot k hi v = v

  allow-le :
      (c : Compiled) (k : Kernel)
      → (env_verify_transition env c k).0 ≡ allow
      → c.to_mode ≤ mode_ghost
  allow-le c k ok = (LegalEdge-le (env_verify_transition-LegalEdge env c k ok)).1

  IsConsistent-decided :
      (c : Compiled) {k : Kernel}
      → IsConsistent k
      → IsConsistent (follow_verdict blake3 env c (env_verify_transition env c k)).1
  IsConsistent-decided c {k} v =
      let (verdict, k') = env_verify_transition env c k in
      IsConsistent-follow c verdict k' (allow-le c k)
        (IsConsistent-SameCore v (env_verify_transition-SameCore env c k))

  -- Every request, for any target, source and flags, keeps the kernel state consistent: once a
  -- mode is entered, the mask, the scheduler's mode and the scheduler's epoch agree with the
  -- current mode and epoch, and the total of the transitions is that of the automatic and the
  -- manual ones.
  pub mode_request_transition_ex-IsConsistent :
      (target source auth_flags : ℕ) {k : Kernel}
      → IsConsistent k
      → IsConsistent (mode_request_transition_ex blake3 env target source auth_flags k).1
  unfolding mode_request_transition_ex env_compile_transition
  mode_request_transition_ex-IsConsistent target source auth_flags {k} v =
      elim (Bool-cases (k.state.current_mode == target)) [
        | inl same ↦ rw same v
        | inr other ↦ rw other (
            IsConsistent-decided
              (env_compile_transition env k.state.current_mode target source auth_flags k).0
              (IsConsistent-numbered _ v))
      ]
