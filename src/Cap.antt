-- ===== src/Cap.antt =====
-- Capabilities (kernel/capability.c, kernel/include/capability.h): identities in a lineage of parents
-- and children, and the slots of capability nodes that name them. Identities and nodes are addresses,
-- NULL is 0, and the memory maps each address to its object. A call of another unit is an effect.
pub mod Slots
pub mod Derive
pub mod Revoke
pub mod Alive
pub mod Lookup
pub mod Spread
pub mod Mint
pub mod Attenuation
pub mod Granted
pub mod Reclaim
use reaper_operating_system.Base.{
  ℕ, ◌+◌, ◌*◌, ◌^◌, bit_and, bit_or, Bool, true, false, not, ◌&&◌, List, [], ◌∷◌, ltb, ◌==◌,
  if◌then◌else◌, get_or, set, replicate, write,
}
use reaper_operating_system.Base.Word.{u8, u64}
use reaper_operating_system.Base.Bits.{bit_not}
use reaper_operating_system.Env.{Env}
use reaper_operating_system.Audit.{Audit}

-- `cap_type_t`
abbrev pub cap_type_none : ℕ
cap_type_none = 0

abbrev pub cap_type_genesis : ℕ
cap_type_genesis = 1

abbrev pub cap_type_cnode : ℕ
cap_type_cnode = 2

abbrev pub cap_type_ram : ℕ
cap_type_ram = 3

abbrev pub cap_type_thread : ℕ
cap_type_thread = 4

abbrev pub cap_type_endpoint : ℕ
cap_type_endpoint = 5

abbrev pub cap_type_pcid : ℕ
cap_type_pcid = 6

abbrev pub cap_type_pagetable : ℕ
cap_type_pagetable = 7

abbrev pub cap_type_lattice : ℕ
cap_type_lattice = 8

abbrev pub cap_type_auditor : ℕ
cap_type_auditor = 9

abbrev pub cap_type_sched_auth_root : ℕ
cap_type_sched_auth_root = 10

abbrev pub cap_type_sched_auth_thread : ℕ
cap_type_sched_auth_thread = 11

abbrev pub cap_max_types : ℕ
cap_max_types = 16

abbrev pub cap_right_grant : ℕ
cap_right_grant = 2 ^ 2

-- `CAP_MODE_VALID_MASK`: the bits of Void, Casual, Secure, Lockdown and Ghost
abbrev pub cap_mode_valid_mask : ℕ
cap_mode_valid_mask = 2 ^ 0 + 2 ^ 1 + 2 ^ 2 + 2 ^ 3 + 2 ^ 4

abbrev pub cnode_slots : ℕ
cnode_slots = 128

abbrev pub cap_ident_magic : ℕ
cap_ident_magic = 1128353865

abbrev pub sched_auth_magic : ℕ
sched_auth_magic = 1396790612

-- `cap_identity_t`, less its lock; `type` is `cap_type`
pub record CapIdentity : Type 0 where
  pub object_ptr : ℕ
  pub cap_type : ℕ
  pub allowed_modes : ℕ
  pub rights : ℕ
  pub badge : ℕ
  pub birth_epoch : ℕ
  pub parent_epoch_start : ℕ
  pub parent : ℕ
  pub revocation_epoch : ℕ
  pub ref_count : ℕ
  pub first_child : ℕ
  pub next_sibling : ℕ
  pub prev_sibling : ℕ
  pub magic : ℕ

-- `fast_zero(ident, sizeof(cap_identity_t))`
abbrev pub zero_identity : CapIdentity
zero_identity = record {
  object_ptr = 0;
  cap_type = 0;
  allowed_modes = 0;
  rights = 0;
  badge = 0;
  birth_epoch = 0;
  parent_epoch_start = 0;
  parent = 0;
  revocation_epoch = 0;
  ref_count = 0;
  first_child = 0;
  next_sibling = 0;
  prev_sibling = 0;
  magic = 0;
}

-- the fields of `sched_auth_obj_t` that a revocation reads
pub record SchedAuth : Type 0 where
  pub magic : ℕ
  pub owner_process : ℕ
  pub bound_thread : ℕ

-- calls into the allocators, the lattices and the scheduler, and the erasure of an endpoint
pub data CapEffect : Type 0 where
  kfree lattice_destroy free_identity free_cnode zero_endpoint revoke_process revoke_thread :
      ℕ → CapEffect

-- the fields of `cap_metrics_t`, by their place in it
abbrev pub lookup_ok : ℕ
lookup_ok = 0

abbrev pub lookup_miss : ℕ
lookup_miss = 1

abbrev pub insert_ok : ℕ
insert_ok = 2

abbrev pub insert_fail : ℕ
insert_fail = 3

abbrev pub delete_ok : ℕ
delete_ok = 4

abbrev pub mint_ok : ℕ
mint_ok = 5

abbrev pub mint_fail : ℕ
mint_fail = 6

abbrev pub copy_ok : ℕ
copy_ok = 7

abbrev pub copy_fail : ℕ
copy_fail = 8

abbrev pub retype_ok : ℕ
retype_ok = 9

abbrev pub retype_fail : ℕ
retype_fail = 10

abbrev pub revoke_ops : ℕ
revoke_ops = 11

abbrev pub identities_freed : ℕ
identities_freed = 12

abbrev pub policy_deny : ℕ
policy_deny = 13

-- The memory that the file works on, its statics, the audit log, and the effects (newest first).
pub record Caps : Type 0 where
  pub heap : ℕ → CapIdentity
  pub cnodes : ℕ → List ℕ
  pub sched_auths : ℕ → SchedAuth
  pub global_revocation_epoch : ℕ
  pub genesis_exhausted : Bool
  pub metrics : List ℕ
  pub audit : Audit
  pub effects : List CapEffect

-- What one call finds around it: the mask of the current mode, the address that `slab_alloc` gives
-- (0 where it fails), and the word that a read behind the last slot of a node gives.
pub record Outside : Type 0 where
  pub env : Env
  pub mode_mask : ℕ
  pub allocated : ℕ
  pub beyond : ℕ

unfoldable pub cap_metric_inc : (counter : ℕ) → Caps → Caps
cap_metric_inc counter s = record s {
  metrics = set s.metrics counter (u64 (get_or s.metrics counter 0 + 1));
}

pub cap_reset_metrics : Caps → Caps
cap_reset_metrics s = record s { metrics = replicate 14 0 }

abbrev pub effect : CapEffect → Caps → Caps
effect e s = record s { effects = e ∷ s.effects }

-- a write to an identity
abbrev pub store : (ident : ℕ) → CapIdentity → Caps → Caps
store ident v s = record s { heap = write s.heap ident v }

unfoldable pub cap_is_valid_type : ℕ → Bool
cap_is_valid_type t = ltb cap_type_none t && ltb t cap_max_types

unfoldable pub cap_allowed_modes_valid : ℕ → Bool
cap_allowed_modes_valid modes =
    if modes == 0 then false else bit_and modes (bit_not 8 cap_mode_valid_mask) == 0

unfoldable pub cap_identity_is_valid : (ident : ℕ) → Caps → Bool
cap_identity_is_valid ident s = not (ident == 0) && ((s.heap ident).magic == cap_ident_magic)

-- Whether this call was the one that exhausted the authority.
unfoldable pub cap_genesis_exhaust : Caps → Bool × Caps
cap_genesis_exhaust s =
    if s.genesis_exhausted then (false, s) else (true, record s { genesis_exhausted = true })

-- `meta.cap` strikes name the type and the badge of what they are about.
abbrev pub cap_target : (cap_type badge : ℕ) → ℕ
cap_target cap_type badge = bit_or (u64 (cap_type * 2 ^ 32)) badge
