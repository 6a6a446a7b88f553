-- ===== src/Mode/Envelope/Policy.antt =====
-- Which transitions the envelope allows, and with what credentials.
use reaper_operating_system.Base.{
  ℕ, zero, suc, ◌↔◌, ◌≤◌, ◌≡◌, refl, ◌≢◌, ◌⊎◌, Bool, true, ◌&&◌, ◌||◌, arith, ◌==◌,
}
use reaper_operating_system.Base.Bits.{has_flag}
use reaper_operating_system.Env.{Env}
use reaper_operating_system.Mode.{
  ModeState, Kernel, mode_void, mode_casual, mode_secure, mode_lockdown, mode_ghost, source_kernel,
  source_user, auth_password, auth_special_key, auth_system_prompt, auth_cooldown_elapsed,
  auth_deesc_elapsed, auth_automatic, auth_boot_intent,
}
use reaper_operating_system.Mode.Envelope.{
  Compiled, allow, ticks_in, env_verify_transition, verify_from_void, verify_known_source,
  verify_casual_lockdown, verify_casual_ghost, verify_secure_casual, verify_secure_lockdown,
  verify_lockdown_secure, verify_ghost_secure, verify_ghost_lockdown,
}

-- The transition diagram.
pub data LegalEdge : ℕ → ℕ → Type 0 where
  boot_casual : LegalEdge mode_void mode_casual
  boot_secure : LegalEdge mode_void mode_secure
  boot_lockdown : LegalEdge mode_void mode_lockdown
  harden : LegalEdge mode_casual mode_secure
  lock : LegalEdge mode_casual mode_lockdown
  vanish : LegalEdge mode_casual mode_ghost
  relax : LegalEdge mode_secure mode_casual
  escalate : LegalEdge mode_secure mode_lockdown
  conceal : LegalEdge mode_secure mode_ghost
  recover : LegalEdge mode_lockdown mode_secure
  surface : LegalEdge mode_ghost mode_secure
  breach : LegalEdge mode_ghost mode_lockdown

-- the diagram as a test
abbrev legal : ℕ → ℕ → Bool
legal from to =
    (from == 0 && (to == 1 || to == 2 || to == 3))
    || (from == 1 && (to == 2 || to == 3 || to == 4))
    || (from == 2 && (to == 1 || to == 3 || to == 4))
    || (from == 3 && to == 2)
    || (from == 4 && (to == 2 || to == 3))

allow-legal :
    (env : Env) (c : Compiled) (k : Kernel)
    → (env_verify_transition env c k).0 ≡ allow
    → legal c.from_mode c.to_mode ≡ true
unfolding env_verify_transition verify_from_void verify_known_source verify_casual_lockdown
    verify_casual_ghost verify_secure_casual verify_secure_lockdown verify_lockdown_secure
    verify_ghost_secure verify_ghost_lockdown
allow-legal env c k h = ground arith

legal-LegalEdge : (from to : ℕ) → legal from to ≡ true → LegalEdge from to
legal-LegalEdge zero zero h = cc
legal-LegalEdge zero (suc zero) h = boot_casual
legal-LegalEdge zero (suc (suc zero)) h = boot_secure
legal-LegalEdge zero (suc (suc (suc zero))) h = boot_lockdown
legal-LegalEdge zero (suc (suc (suc (suc t)))) h = absurd (ground arith)
legal-LegalEdge (suc zero) zero h = cc
legal-LegalEdge (suc zero) (suc zero) h = cc
legal-LegalEdge (suc zero) (suc (suc zero)) h = harden
legal-LegalEdge (suc zero) (suc (suc (suc zero))) h = lock
legal-LegalEdge (suc zero) (suc (suc (suc (suc zero)))) h = vanish
legal-LegalEdge (suc zero) (suc (suc (suc (suc (suc t))))) h = absurd (ground arith)
legal-LegalEdge (suc (suc zero)) zero h = cc
legal-LegalEdge (suc (suc zero)) (suc zero) h = relax
legal-LegalEdge (suc (suc zero)) (suc (suc zero)) h = cc
legal-LegalEdge (suc (suc zero)) (suc (suc (suc zero))) h = escalate
legal-LegalEdge (suc (suc zero)) (suc (suc (suc (suc zero)))) h = conceal
legal-LegalEdge (suc (suc zero)) (suc (suc (suc (suc (suc t))))) h = absurd (ground arith)
legal-LegalEdge (suc (suc (suc zero))) to h = let e : to ≡ 2 = ground arith in rw e recover
legal-LegalEdge (suc (suc (suc (suc zero)))) zero h = cc
legal-LegalEdge (suc (suc (suc (suc zero)))) (suc zero) h = cc
legal-LegalEdge (suc (suc (suc (suc zero)))) (suc (suc zero)) h = surface
legal-LegalEdge (suc (suc (suc (suc zero)))) (suc (suc (suc zero))) h = breach
legal-LegalEdge (suc (suc (suc (suc zero)))) (suc (suc (suc (suc t)))) h = absurd (ground arith)
legal-LegalEdge (suc (suc (suc (suc (suc f))))) to h = absurd (ground arith)

-- An envelope that passes verification takes an edge of the mode diagram.
pub env_verify_transition-LegalEdge :
    (env : Env) (c : Compiled) (k : Kernel)
    → (env_verify_transition env c k).0 ≡ allow
    → LegalEdge c.from_mode c.to_mode
env_verify_transition-LegalEdge env c k h =
    legal-LegalEdge c.from_mode c.to_mode (allow-legal env c k h)

abbrev pub Flag : Compiled → ℕ → Type 0
Flag c m = has_flag c.auth_flags m ≡ true

abbrev pub Override : Compiled → Type 0
Override c = (c.source ≡ source_kernel) × Flag c auth_automatic

-- What the source of an allowed transition has shown, edge by edge.
pub record Credentials (env : Env) (c : Compiled) (s : ModeState) : Type 0 where
  pub ghost :
      c.from_mode ≡ mode_casual
      → c.to_mode ≡ mode_ghost
      → (c.source ≡ source_user) × Flag c auth_password
  pub casual :
      c.from_mode ≡ mode_secure
      → c.to_mode ≡ mode_casual
      → (Flag c auth_password ⊎ Override c)
        × ((2400 ≤ ticks_in env mode_secure s) ⊎ Flag c auth_cooldown_elapsed)
  pub lockdown :
      c.to_mode ≡ mode_lockdown
      → c.from_mode ≢ mode_void
      → c.from_mode ≢ mode_ghost
      → Flag c auth_password ⊎ Override c
  pub unlock_user : c.from_mode ≡ mode_lockdown → c.source ≡ source_user → Flag c auth_special_key
  pub unlock_other :
      c.from_mode ≡ mode_lockdown
      → c.source ≢ source_user
      → ((300 ≤ ticks_in env mode_lockdown s) ⊎ Flag c auth_deesc_elapsed)
        × ((Flag c auth_password × Flag c auth_system_prompt) ⊎ Override c)
  pub surface :
      c.from_mode ≡ mode_ghost
      → c.to_mode ≡ mode_secure
      → ((c.source ≡ source_user) × Flag c auth_password) ⊎ Override c
  pub boot : c.from_mode ≡ mode_void → c.to_mode ≢ mode_casual → Flag c auth_boot_intent

-- An envelope that passes verification has shown the credentials of its edge: Casual to Ghost
-- takes a user with a password, Lockdown (out of a running mode other than Ghost) a password or
-- the kernel override, leaving Lockdown the special key for a user and an elapsed window with
-- password and prompt, or the override, for others, Secure to Casual a password or the override
-- and an elapsed cooldown, Ghost to Secure a user with a password or the override, and boot into a
-- mode other than Casual the boot intent.
pub env_verify_transition-Credentials :
    (env : Env) (c : Compiled) (k : Kernel)
    → (env_verify_transition env c k).0 ≡ allow
    → Credentials env c k.state
unfolding env_verify_transition verify_from_void verify_known_source verify_casual_lockdown
    verify_casual_ghost verify_secure_casual verify_secure_lockdown verify_lockdown_secure
    verify_ghost_secure verify_ghost_lockdown
env_verify_transition-Credentials env c k h = record {
  ghost = λ a b. ground arith;
  casual = λ a b. ground arith;
  lockdown = λ a b d. ground arith;
  unlock_user = λ a b. ground arith;
  unlock_other = λ a b. ground arith;
  surface = λ a b. ground arith;
  boot = λ a b. ground arith;
}

LegalEdge-legal : {from to : ℕ} → LegalEdge from to → legal from to ≡ true
LegalEdge-legal boot_casual = refl
LegalEdge-legal boot_secure = refl
LegalEdge-legal boot_lockdown = refl
LegalEdge-legal harden = refl
LegalEdge-legal lock = refl
LegalEdge-legal vanish = refl
LegalEdge-legal relax = refl
LegalEdge-legal escalate = refl
LegalEdge-legal conceal = refl
LegalEdge-legal recover = refl
LegalEdge-legal surface = refl
LegalEdge-legal breach = refl

user_not_breach :
    (env : Env) (c : Compiled) (k : Kernel)
    → c.source ≡ source_user
    → c.from_mode ≡ mode_ghost
    → c.to_mode ≡ mode_lockdown
    → (env_verify_transition env c k).0 ≢ allow
unfolding env_verify_transition verify_from_void verify_known_source verify_casual_lockdown
    verify_casual_ghost verify_secure_casual verify_secure_lockdown verify_lockdown_secure
    verify_ghost_secure verify_ghost_lockdown
user_not_breach env c k user from to ok = ground arith

user_allowed :
    (env : Env) (c : Compiled) (k : Kernel)
    → c.from_mode ≢ mode_void
    → c.source ≡ source_user
    → Flag c auth_password
    → Flag c auth_special_key
    → Flag c auth_cooldown_elapsed
    → legal c.from_mode c.to_mode ≡ true
    → (c.from_mode ≡ mode_ghost → c.to_mode ≢ mode_lockdown)
    → (env_verify_transition env c k).0 ≡ allow
unfolding env_verify_transition verify_from_void verify_known_source verify_casual_lockdown
    verify_casual_ghost verify_secure_casual verify_secure_lockdown verify_lockdown_secure
    verify_ghost_secure verify_ghost_lockdown
user_allowed env c k running user pw key cool edge other = ground arith

-- A user with a password, the special key and an elapsed cooldown may take, out of a running mode,
-- exactly the edges of the diagram except that from Ghost to Lockdown.
pub env_verify_transition_user :
    (env : Env) (c : Compiled) (k : Kernel)
    → c.from_mode ≢ mode_void
    → c.source ≡ source_user
    → Flag c auth_password
    → Flag c auth_special_key
    → Flag c auth_cooldown_elapsed
    → ((env_verify_transition env c k).0 ≡ allow) ↔ (
        LegalEdge c.from_mode c.to_mode
        × ¬ ((c.from_mode ≡ mode_ghost) × (c.to_mode ≡ mode_lockdown)))
env_verify_transition_user env c k running user pw key cool = (
  λ ok. (
    env_verify_transition-LegalEdge env c k ok,
    λ breach. user_not_breach env c k user breach.0 breach.1 ok,
  ),
  λ want.
      user_allowed env c k running user pw key cool (LegalEdge-legal want.0)
        (λ from to. want.1 (from, to)),
)

-- Every edge leads to a running mode.
pub LegalEdge-le : {from to : ℕ} → LegalEdge from to → (mode_casual ≤ to) × (to ≤ mode_ghost)
LegalEdge-le e = ground (arith, LegalEdge-legal e)
