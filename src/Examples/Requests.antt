-- ===== src/Examples/Requests.antt =====
-- Mode requests of a user, and a boot.
use reaper_operating_system.Base.{
  ℕ, ◌+◌, ◌≡◌, refl, ◌↔◌, ◌&&◌, some, none, [], ◌∷◌, arith, true, ◌==◌, if◌then◌else◌,
}
use reaper_operating_system.Mode.{mode_casual, mode_secure, mode_ghost, mode_lockdown}
use reaper_operating_system.Mode.Boot.{
  boot_record_store_mode, boot_record_load_mode, boot_record_load_persistent,
}
use reaper_operating_system.Mode.Boot.Persist.{
  last_write, Keeps, load_mode-store_mode, store_all, store_all_never_valid,
}
use reaper_operating_system.Mode.Envelope.{
  Compiled, allow, env_verify_transition, env_compile_transition, verify_casual_ghost,
  env_apply_transition,
}
use reaper_operating_system.Mode.Envelope.Policy.{
  LegalEdge, Credentials, env_verify_transition-Credentials, env_verify_transition_user,
}
use reaper_operating_system.Mode.Transition.{
  done, refused, mode_request_transition_ex, mode_init, follow_verdict, finish_apply,
}
use reaper_operating_system.Mode.Transition.Invariant.{
  IsConsistent, mode_request_transition_ex-IsConsistent,
}
use reaper_operating_system.Mode.Transition.Gate.{
  Moved, Unmoved, envelope, mode_request_transition_ex_done, mode_request_transition_ex_refused,
}
use reaper_operating_system.Mode.Transition.Init.{mode_init-casual}
use reaper_operating_system.Examples.{digest, env, running}

-- a user's envelope from Casual to Ghost with every credential
abbrev to_ghost : Compiled
to_ghost = record {
  txid = 1;
  from_mode = 1;
  to_mode = 4;
  source = 2;
  auth_flags = 1 + 2 + 8;
  from_class = 1;
  to_class = 4;
  requestor_pid = 7;
  ghost_flush_required = true;
}

to_ghost_allowed : (env_verify_transition env to_ghost (running 1)).0 ≡ allow
unfolding env_verify_transition verify_casual_ghost
to_ghost_allowed = refl

env_verify_transition-Credentials_example : Credentials env to_ghost (running 1).state
env_verify_transition-Credentials_example =
    env_verify_transition-Credentials env to_ghost (running 1) to_ghost_allowed

env_verify_transition_user_example :
    ((env_verify_transition env to_ghost (running 1)).0 ≡ allow)
    ↔ (LegalEdge 1 4 × ¬ ((1 ≡ mode_ghost) × (4 ≡ mode_lockdown)))
env_verify_transition_user_example =
    env_verify_transition_user env to_ghost (running 1) (omega arith) refl refl refl refl

granted : (mode_request_transition_ex digest env 4 2 11 (running 1)).0 ≡ done
unfolding mode_request_transition_ex env_compile_transition env_verify_transition
    verify_casual_ghost follow_verdict finish_apply env_apply_transition
granted = refl

mode_request_transition_ex_done_example :
    Moved env
      (envelope digest env 4 2 11 (running 1))
      (running 1)
      (mode_request_transition_ex digest env 4 2 11 (running 1)).1
mode_request_transition_ex_done_example =
    mode_request_transition_ex_done digest env 4 2 11 (running 1) (omega arith) granted

denied : (mode_request_transition_ex digest env 4 1 11 (running 1)).0 ≡ refused
unfolding mode_request_transition_ex env_compile_transition env_verify_transition
    verify_casual_ghost follow_verdict finish_apply env_apply_transition
denied = refl

mode_request_transition_ex_refused_example :
    Unmoved (running 1) (mode_request_transition_ex digest env 4 1 11 (running 1)).1
mode_request_transition_ex_refused_example =
    mode_request_transition_ex_refused digest env 4 1 11 (running 1) denied

running-IsConsistent : IsConsistent (running 1)
running-IsConsistent = record {
  in_range = omega arith;
  mask = λ up. refl;
  sched_mode = λ up. refl;
  sched_epoch = λ up. refl;
  counted = refl;
  ticks = refl;
}

mode_request_transition_ex-IsConsistent_example :
    IsConsistent (mode_request_transition_ex digest env 4 2 11 (running 1)).1
mode_request_transition_ex-IsConsistent_example =
    mode_request_transition_ex-IsConsistent digest env 4 2 11 running-IsConsistent

-- a CMOS that asks for Secure: magic, version, sequence, mode, valid
abbrev secure_cmos : ℕ → ℕ
secure_cmos r = if r == 0x40 then 0x4D else if r == 0x43 then 2 else 1

mode_init-casual_example :
    (mode_init digest env secure_cmos (running 0)).state.current_mode ≡ mode_casual
mode_init-casual_example = mode_init-casual digest env secure_cmos (running 0) refl

-- what the CMOS reads after Secure is stored in the running kernel's record
abbrev kept_cmos : ℕ → ℕ
kept_cmos r = elim (last_write r (boot_record_store_mode mode_secure (running 1)).cmos_writes) [
  | none ↦ 0
  | some v ↦ v
]

kept : Keeps kept_cmos (boot_record_store_mode mode_secure (running 1)).cmos_writes
kept r v h = rw (kept_cmos, h) refl

load_mode-store_mode_example :
    (boot_record_load_persistent kept_cmos ≡ (boot_record_store_mode 2 (running 1)).boot)
    × (boot_record_load_mode (boot_record_store_mode 2 (running 1)).boot ≡ (
        if ((running 1).boot.magic == 0x4D) && ((running 1).boot.version == 1)
        then some 2
        else none))
load_mode-store_mode_example =
    load_mode-store_mode kept_cmos 2 (running 1) (omega arith) (omega arith) kept

abbrev blank_cmos : ℕ → ℕ
blank_cmos r = 0xFF

store_all_never_valid_example :
    boot_record_load_mode
      (store_all
        (2 ∷ 3 ∷ [])
        (record (running 1) { boot = boot_record_load_persistent blank_cmos })).boot
    ≡ none
store_all_never_valid_example =
    store_all_never_valid blank_cmos (2 ∷ 3 ∷ [])
      (record (running 1) { boot = boot_record_load_persistent blank_cmos }) (omega arith) refl
