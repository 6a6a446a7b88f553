-- ===== src/Mode/Transition/Gate.antt =====
-- What the reply of a mode request says of the state behind it.
use reaper_operating_system.Base.{
  ℕ, ◌+◌, ◌≡◌, refl, sym, ap, ◌∙◌, ◌≢◌, true, false, List, arith, ltb, ◌==◌, ◌||◌, Bool-cases, inl,
  inr,
}
use native.Mathlib.Decide.{ℕ_discrete}
use reaper_operating_system.Base.Word.{u64}
use reaper_operating_system.Env.{Env}
use reaper_operating_system.Mode.{
  Kernel, fate_result_accepted, reject_none, mode_casual, mode_secure, mode_lockdown,
}
use reaper_operating_system.Mode.Fate.{fate_append_record, fate_log_transition_event}
use reaper_operating_system.Mode.Envelope.{
  Compiled, Verdict, allow, deny, reboot, env_compile_transition, env_verify_transition,
  env_apply_transition, apply_effects, enter_mode, scheduler_on_mode_transition,
}
use reaper_operating_system.Mode.Envelope.Policy.{
  LegalEdge, LegalEdge-le, Credentials, env_verify_transition-LegalEdge,
  env_verify_transition-Credentials,
}
use reaper_operating_system.Mode.Envelope.Frame.{
  SameCore, self-SameCore, SameCore-store, env_verify_transition-SameCore,
}
use reaper_operating_system.Mode.Transition.{
  done, refused, log_event, finish_apply, follow_verdict, mode_request_transition_ex,
}

-- A refused request: one more ledger entry, and no change of mode, counters or other units.
pub record Unmoved (k j : Kernel) : Type 0 where
  pub current : j.state.current_mode ≡ k.state.current_mode
  pub previous : j.state.previous_mode ≡ k.state.previous_mode
  pub mask : j.state.global_mode_mask ≡ k.state.global_mode_mask
  pub epoch : j.state.security_epoch ≡ k.state.security_epoch
  pub total : j.state.transitions_total ≡ k.state.transitions_total
  pub audit : j.audit ≡ k.audit
  pub sched_mode : j.sched_global_mode ≡ k.sched_global_mode
  pub sched_epoch : j.sched_global_epoch ≡ k.sched_global_epoch
  pub effects : j.effects ≡ k.effects
  pub logged : j.state.fate_head_index ≡ u64 (k.state.fate_head_index + 1)

-- A granted request: where it went, by what right, and what it left behind.
pub record Moved (env : Env) (c : Compiled) (k j : Kernel) : Type 0 where
  pub edge : LegalEdge k.state.current_mode c.to_mode
  pub credentials : Credentials env c k.state
  pub current : j.state.current_mode ≡ c.to_mode
  pub previous : j.state.previous_mode ≡ k.state.current_mode
  pub epoch : j.state.security_epoch ≡ u64 (k.state.security_epoch + 1)
  pub sched_mode : j.sched_global_mode ≡ c.to_mode
  pub sched_epoch : j.sched_global_epoch ≡ u64 (k.state.security_epoch + 1)
  pub effects : j.effects ≡ apply_effects c k.effects
  pub logged : j.state.fate_head_index ≡ u64 (k.state.fate_head_index + 1)

module _ (blake3 : List ℕ → List ℕ) (env : Env) where
  Unmoved-follow :
      (c : Compiled) (verdict : Verdict) {k j : Kernel}
      → SameCore k j
      → (follow_verdict blake3 env c (verdict, j)).0 ≡ refused
      → Unmoved k (follow_verdict blake3 env c (verdict, j)).1
  unfolding follow_verdict log_event fate_log_transition_event fate_append_record finish_apply
      env_apply_transition
  Unmoved-follow c allow same h = cc
  Unmoved-follow c (deny d r) same h = record {
    current = same.current;
    previous = same.previous;
    mask = same.mask;
    epoch = same.epoch;
    total = same.total;
    audit = same.audit;
    sched_mode = same.sched_mode;
    sched_epoch = same.sched_epoch;
    effects = same.effects;
    logged = ap (λ (n : ℕ). u64 (n + 1)) same.head;
  }
  Unmoved-follow c reboot same h = cc

  -- the number that a request gives its envelope
  numbered : (target source auth_flags : ℕ) → Kernel → Compiled × Kernel
  numbered target source auth_flags k =
      env_compile_transition env k.state.current_mode target source auth_flags k

  request-follow :
      (target source auth_flags : ℕ) (k : Kernel)
      → k.state.current_mode ≢ target
      → let (c, j) = numbered target source auth_flags k in
        mode_request_transition_ex blake3 env target source auth_flags k
        ≡ follow_verdict blake3 env c (env_verify_transition env c j)
  unfolding mode_request_transition_ex numbered
  request-follow target source auth_flags k moved =
      let other : (k.state.current_mode == target) ≡ false = ground arith in rw other

  Unmoved-numbered :
      (target source auth_flags : ℕ) {k j : Kernel}
      → Unmoved (numbered target source auth_flags k).1 j
      → Unmoved k j
  unfolding numbered env_compile_transition
  Unmoved-numbered target source auth_flags u = record {
    current = u.current;
    previous = u.previous;
    mask = u.mask;
    epoch = u.epoch;
    total = u.total;
    audit = u.audit;
    sched_mode = u.sched_mode;
    sched_epoch = u.sched_epoch;
    effects = u.effects;
    logged = u.logged;
  }

  request-same :
      (target source auth_flags : ℕ) (k : Kernel)
      → k.state.current_mode ≡ target
      → mode_request_transition_ex blake3 env target source auth_flags k ≡ (done, k)
  unfolding mode_request_transition_ex
  request-same target source auth_flags k same =
      let here : (k.state.current_mode == target) ≡ true = ground arith in rw here

  done≢refused : done ≢ refused
  done≢refused e = cc

  -- A refused request leaves the mode, the mask, the security epoch, the count of transitions, the
  -- audit log, the scheduler's copies and the hardware alone, and adds one entry to the fate
  -- ledger.
  pub mode_request_transition_ex_refused :
      (target source auth_flags : ℕ) (k : Kernel)
      → (mode_request_transition_ex blake3 env target source auth_flags k).0 ≡ refused
      → Unmoved k (mode_request_transition_ex blake3 env target source auth_flags k).1
  mode_request_transition_ex_refused target source auth_flags k h =
      elim (ℕ_discrete k.state.current_mode target) [
        | yes same ↦
            absurd (
              done≢refused (sym (ap (λ p. p.0) (request-same target source auth_flags k same)) ∙ h))
        | no moved ↦
            let e = request-follow target source auth_flags k moved in
            let p = numbered target source auth_flags k in
            let v = env_verify_transition env p.0 p.1 in
            rw e (
              Unmoved-numbered target source auth_flags (
                Unmoved-follow p.0 v.0 (env_verify_transition-SameCore env p.0 p.1)
                  (sym (ap (λ q. q.0) e) ∙ h)))
      ]

  -- `finish_apply` after an applied envelope, up to what the boot record holds
  entered : Compiled → Kernel → Kernel
  entered c j =
      log_event env c fate_result_accepted reject_none (env_apply_transition blake3 env c j).2

  SameCore-finish :
      (c : Compiled) (j : Kernel)
      → SameCore (entered c j) (finish_apply blake3 env c (env_apply_transition blake3 env c j)).1
  unfolding finish_apply entered env_apply_transition
  SameCore-finish c j =
      elim (Bool-cases
        (c.to_mode == mode_casual || c.to_mode == mode_secure || c.to_mode == mode_lockdown)) [
          | inl e ↦ rw e (SameCore-store c.to_mode (entered c j) (self-SameCore (entered c j)))
          | inr e ↦ rw e (self-SameCore (entered c j))
        ]

  Moved-entered :
      (c : Compiled) {k j : Kernel}
      → c.from_mode ≡ k.state.current_mode
      → LegalEdge c.from_mode c.to_mode
      → Credentials env c k.state
      → SameCore k j
      → Moved env c k (entered c j)
  unfolding entered env_apply_transition log_event fate_log_transition_event fate_append_record
      enter_mode scheduler_on_mode_transition
  Moved-entered c from legal cred same =
      let le = (LegalEdge-le legal).1 in
      let known : ltb 5 c.to_mode ≡ false = ground arith in
      rw known (record {
        edge = rw (sym from) legal;
        credentials = cred;
        current = refl;
        previous = same.current;
        epoch = ap (λ (n : ℕ). u64 (n + 1)) same.epoch;
        sched_mode = omega arith;
        sched_epoch = ap (λ (n : ℕ). u64 (n + 1)) same.epoch;
        effects = ap (apply_effects c) same.effects;
        logged = ap (λ (n : ℕ). u64 (n + 1)) same.head;
      })

  Moved-core : (c : Compiled) {k i j : Kernel} → SameCore i j → Moved env c k i → Moved env c k j
  Moved-core c same m = record {
    edge = m.edge;
    credentials = m.credentials;
    current = same.current ∙ m.current;
    previous = same.previous ∙ m.previous;
    epoch = same.epoch ∙ m.epoch;
    sched_mode = same.sched_mode ∙ m.sched_mode;
    sched_epoch = same.sched_epoch ∙ m.sched_epoch;
    effects = same.effects ∙ m.effects;
    logged = same.head ∙ m.logged;
  }

  Moved-follow :
      (c : Compiled) {k j : Kernel} (verdict : Verdict)
      → c.from_mode ≡ k.state.current_mode
      → (verdict ≡ allow → LegalEdge c.from_mode c.to_mode)
      → (verdict ≡ allow → Credentials env c k.state)
      → SameCore k j
      → (follow_verdict blake3 env c (verdict, j)).0 ≡ done
      → Moved env c k (follow_verdict blake3 env c (verdict, j)).1
  unfolding follow_verdict
  Moved-follow c {k} {j} allow from legal cred same h =
      Moved-core c (SameCore-finish c j) (Moved-entered c from (legal refl) (cred refl) same)
  Moved-follow c (deny d r) from legal cred same h = cc
  Moved-follow c reboot from legal cred same h = cc

  -- the envelope that a request compiles
  pub envelope : (target source auth_flags : ℕ) → Kernel → Compiled
  envelope target source auth_flags k = (numbered target source auth_flags k).0

  Moved-numbered :
      (target source auth_flags : ℕ) {k j : Kernel}
      → Moved env (envelope target source auth_flags k) (numbered target source auth_flags k).1 j
      → Moved env (envelope target source auth_flags k) k j
  unfolding numbered env_compile_transition envelope
  Moved-numbered target source auth_flags m = record {
    edge = m.edge;
    credentials = record {
      ghost = m.credentials.ghost;
      casual = m.credentials.casual;
      lockdown = m.credentials.lockdown;
      unlock_user = m.credentials.unlock_user;
      unlock_other = m.credentials.unlock_other;
      surface = m.credentials.surface;
      boot = m.credentials.boot;
    };
    current = m.current;
    previous = m.previous;
    epoch = m.epoch;
    sched_mode = m.sched_mode;
    sched_epoch = m.sched_epoch;
    effects = m.effects;
    logged = m.logged;
  }

  numbered-from :
      (target source auth_flags : ℕ) (k : Kernel)
      → (numbered target source auth_flags k).0.from_mode
        ≡ (numbered target source auth_flags k).1.state.current_mode
  unfolding numbered env_compile_transition
  numbered-from target source auth_flags k = refl

  -- A request for another mode that is granted took an edge of the mode diagram with the
  -- credentials of that edge, leaves the requested mode current and the old one as the previous,
  -- moves the security epoch on by one and tells the scheduler both, makes the calls of its
  -- envelope in order, and adds one entry to the fate ledger.
  pub mode_request_transition_ex_done :
      (target source auth_flags : ℕ) (k : Kernel)
      → k.state.current_mode ≢ target
      → (mode_request_transition_ex blake3 env target source auth_flags k).0 ≡ done
      → Moved env
          (envelope target source auth_flags k)
          k
          (mode_request_transition_ex blake3 env target source auth_flags k).1
  unfolding envelope
  mode_request_transition_ex_done target source auth_flags k moved h =
      let e = request-follow target source auth_flags k moved in
      let p = numbered target source auth_flags k in
      let v = env_verify_transition env p.0 p.1 in
      rw e (
        Moved-numbered target source auth_flags (
          Moved-follow p.0 v.0 (numbered-from target source auth_flags k)
            (env_verify_transition-LegalEdge env p.0 p.1)
            (env_verify_transition-Credentials env p.0 p.1)
            (env_verify_transition-SameCore env p.0 p.1) (sym (ap (λ q. q.0) e) ∙ h)))
