-- ===== src/Cap/Revoke.antt =====
-- Revocation: an epoch is written into an identity and all that was derived from it.
use reaper_operating_system.Base.{ℕ, zero, suc, not, ◌&&◌, ◌||◌, List, ◌==◌, if◌then◌else◌}
use reaper_operating_system.Cap.{
  cap_type_sched_auth_root, cap_type_sched_auth_thread, sched_auth_magic, revoke_process,
  revoke_thread, revoke_ops, Caps, Outside, cap_metric_inc, effect,
}
use reaper_operating_system.Cap.Slots.{set_epoch, next_epoch, cap_lookup}

-- what a revoked scheduling authority takes away at once
unfoldable pub revoke_authority : (ident : ℕ) → Caps → Caps
revoke_authority ident s =
    let i = s.heap ident in
    let auth = s.sched_auths i.object_ptr in
    if (i.object_ptr == 0) || not (auth.magic == sched_auth_magic)
    then s
    else if (i.cap_type == cap_type_sched_auth_root) && not (auth.owner_process == 0)
    then effect (revoke_process auth.owner_process) s
    else if (i.cap_type == cap_type_sched_auth_thread) && not (auth.bound_thread == 0)
    then effect (revoke_thread auth.bound_thread) s
    else s

-- one identity is revoked
unfoldable pub revoke_one : (ident epoch : ℕ) → Caps → Caps
revoke_one ident epoch s = revoke_authority ident (set_epoch ident epoch s)

-- The loop of `cap_revoke_tree` over a child and its next siblings, on fuel. A child's own children
-- come before it.
unfoldable pub revoke_children : (fuel child epoch : ℕ) → Caps → Caps
revoke_children zero child epoch s = s
revoke_children (suc fuel) child epoch s =
    let below = revoke_children fuel (s.heap child).first_child epoch s in
    let done = revoke_one child epoch below in
    let rest = revoke_children fuel (done.heap child).next_sibling epoch done in
    if child == 0 then s else rest

unfoldable pub cap_revoke_tree : (fuel root epoch : ℕ) → Caps → Caps
cap_revoke_tree fuel root epoch s =
    let below = revoke_children fuel (s.heap root).first_child epoch s in
    if root == 0 then s else revoke_one root epoch below

module _ (blake3 : List ℕ → List ℕ) where
  -- Two loops on fuel: the walk of the lookup up the parents, and the one down the children.
  unfoldable pub cap_revoke : Outside → (depth fuel root cptr : ℕ) → Caps → Caps
  cap_revoke out depth fuel root cptr s =
      let found = cap_lookup blake3 out depth root cptr s in
      let fresh = next_epoch found.1 in
      if found.0 == 0
      then found.1
      else cap_metric_inc revoke_ops (cap_revoke_tree fuel found.0 fresh.0 fresh.1)
