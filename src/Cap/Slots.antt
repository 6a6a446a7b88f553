-- ===== src/Cap/Slots.antt =====
-- The slots of a node: look up, insert, delete and copy; and how an identity dies.
use reaper_operating_system.Base.{
  ℕ, zero, suc, ◌+◌, bit_and, Bool, true, false, not, ◌&&◌, ◌||◌, List, leb, ◌==◌, if◌then◌else◌,
  get_or, set, replicate, write,
}
use reaper_operating_system.Base.Word.{u32, u64}
use reaper_operating_system.Base.Bits.{has_flag}
use reaper_operating_system.Audit.{
  audit_event_cap_denied, audit_result_denied, cap_meta, audit_strike,
}
use reaper_operating_system.Cap.{
  cap_type_cnode, cap_type_ram, cap_type_thread, cap_type_endpoint, cap_type_pcid,
  cap_type_pagetable, cap_type_lattice, cap_type_auditor, cap_type_sched_auth_root,
  cap_type_sched_auth_thread, cap_right_grant, cnode_slots, CapIdentity, zero_identity, kfree,
  lattice_destroy, free_identity, free_cnode, lookup_ok, lookup_miss, insert_ok, insert_fail,
  delete_ok, copy_ok, copy_fail, identities_freed, Caps, Outside, cap_metric_inc, effect, store,
  cap_allowed_modes_valid, cap_identity_is_valid, cap_target,
}

-- `ident->revocation_epoch = epoch`
abbrev pub set_epoch : (ident epoch : ℕ) → Caps → Caps
set_epoch ident epoch s = store ident (record (s.heap ident) { revocation_epoch = epoch }) s

-- `__atomic_fetch_add(&global_revocation_epoch, 1) + 1`, and the state after it
abbrev pub next_epoch : Caps → ℕ × Caps
next_epoch s =
    let epoch = u64 (s.global_revocation_epoch + 1) in
    (epoch, record s { global_revocation_epoch = epoch })

-- an identity whose parent has another epoch than the one it was derived in
unfoldable pub mark_dead : (ident parent_revocation : ℕ) → Caps → Caps
mark_dead ident parent_revocation s =
    let fresh = next_epoch s in
    if parent_revocation == 0
    then set_epoch ident fresh.0 fresh.1
    else set_epoch ident parent_revocation s

-- the walk of `cap_identity_is_alive` up the parents, on fuel
unfoldable pub alive_from : (fuel ident child : ℕ) → Caps → Bool × Caps
alive_from zero ident child s = (false, s)
alive_from (suc fuel) ident child s =
    let parent = (s.heap child).parent in
    let parent_revocation = (s.heap parent).revocation_epoch in
    let rest = alive_from fuel ident parent s in
    if parent == 0
    then (true, s)
    else if not (cap_identity_is_valid parent s)
    then (false, set_epoch ident s.global_revocation_epoch s)
    else if not (parent_revocation == (s.heap child).parent_epoch_start)
    then (false, mark_dead ident parent_revocation s)
    else rest

unfoldable pub cap_identity_is_alive : (fuel ident : ℕ) → Caps → Bool × Caps
cap_identity_is_alive fuel ident s =
    if not (cap_identity_is_valid ident s)
    then (false, s)
    else if not ((s.heap ident).revocation_epoch == 0)
    then (false, s)
    else alive_from fuel ident ident s

-- the slots of the node at `root`
abbrev pub slot : (root cptr : ℕ) → Caps → ℕ
slot root cptr s = get_or (s.cnodes root) cptr 0

abbrev pub set_slot : (root cptr ident : ℕ) → Caps → Caps
set_slot root cptr ident s = record s {
  cnodes = write s.cnodes root (set (s.cnodes root) cptr ident);
}

-- `root->slots[cptr].ptr == NULL`, with no check of the bounds
unfoldable pub cap_slot_is_empty : Outside → (root cptr : ℕ) → Caps → Bool
cap_slot_is_empty out root cptr s = get_or (s.cnodes root) cptr out.beyond == 0

-- a miss is counted
abbrev pub missed : Caps → ℕ × Caps
missed s = (0, cap_metric_inc lookup_miss s)

module _ (blake3 : List ℕ → List ℕ) where
  -- the checks of `cap_lookup` on an identity that is alive
  unfoldable pub lookup_alive : Outside → (ident : ℕ) → Caps → ℕ × Caps
  lookup_alive out ident s =
      let i = s.heap ident in
      let meta = cap_meta i.object_ptr i.rights in
      let target = cap_target i.cap_type i.badge in
      if not (cap_allowed_modes_valid i.allowed_modes)
      then missed s
      else if bit_and out.mode_mask i.allowed_modes == 0
      then missed (record s {
        audit =
            audit_strike blake3 out.env audit_event_cap_denied audit_result_denied target meta
              s.audit;
      })
      else (ident, cap_metric_inc lookup_ok s)

  unfoldable pub cap_lookup : Outside → (fuel root cptr : ℕ) → Caps → ℕ × Caps
  cap_lookup out fuel root cptr s =
      let ident = slot root cptr s in
      let alive = cap_identity_is_alive fuel ident s in
      if (root == 0) || leb cnode_slots cptr
      then missed s
      else if (ident == 0) || not (cap_identity_is_valid ident s)
      then missed s
      else if not alive.0
      then missed alive.1
      else lookup_alive out ident alive.1

-- Whether the insertion was done.
unfoldable pub cap_insert : (root cptr ident : ℕ) → Caps → Bool × Caps
cap_insert root cptr ident s =
    let counted = record (s.heap ident) { ref_count = u32 ((s.heap ident).ref_count + 1) } in
    if (root == 0) || leb cnode_slots cptr || not (cap_identity_is_valid ident s)
    then (false, cap_metric_inc insert_fail s)
    else if not (slot root cptr s == 0)
    then (false, cap_metric_inc insert_fail s)
    else (true, cap_metric_inc insert_ok (store ident counted (set_slot root cptr ident s)))

-- the first write of `cap_unlink_from_parent`: the link that leads to the identity skips it
unfoldable pub skip_forward : (ident : ℕ) → (ℕ → CapIdentity) → ℕ → CapIdentity
skip_forward ident h =
    let i = h ident in
    if i.prev_sibling == 0
    then write h i.parent (record (h i.parent) { first_child = i.next_sibling })
    else write h i.prev_sibling (record (h i.prev_sibling) { next_sibling = i.next_sibling })

-- the second write: the next sibling's link back skips it
unfoldable pub skip_back : (ident : ℕ) → (ℕ → CapIdentity) → ℕ → CapIdentity
skip_back ident h =
    let i = h ident in
    if i.next_sibling == 0
    then h
    else write h i.next_sibling (record (h i.next_sibling) { prev_sibling = i.prev_sibling })

unfoldable pub cap_unlink_from_parent : (ident : ℕ) → (ℕ → CapIdentity) → ℕ → CapIdentity
cap_unlink_from_parent ident h =
    let skipped = skip_back ident (skip_forward ident h) in
    let alone = record (skipped ident) { parent = 0; next_sibling = 0; prev_sibling = 0 } in
    if (h ident).parent == 0 then h else write skipped ident alone

-- the types whose object `cap_identity_free` gives to `kfree`
unfoldable pub owns_allocation : (cap_type : ℕ) → Bool
owns_allocation t =
    (t == cap_type_ram)
    || (t == cap_type_cnode)
    || (t == cap_type_thread)
    || (t == cap_type_endpoint)
    || (t == cap_type_pcid)
    || (t == cap_type_pagetable)
    || (t == cap_type_auditor)
    || (t == cap_type_sched_auth_root)
    || (t == cap_type_sched_auth_thread)

unfoldable pub free_object : CapIdentity → Caps → Caps
free_object i s =
    if i.cap_type == cap_type_lattice
    then effect (lattice_destroy i.object_ptr) s
    else if owns_allocation i.cap_type
    then effect (kfree i.object_ptr) s
    else s

-- one identity dies: its object, its links, its memory
unfoldable pub release : (ident : ℕ) → Caps → Caps
release ident s =
    let bare = free_object (s.heap ident) s in
    let unlinked = record bare { heap = cap_unlink_from_parent ident bare.heap } in
    cap_metric_inc identities_freed
      (effect (free_identity ident) (store ident zero_identity unlinked))

-- `cap_identity_free`, on fuel: a parent that nothing refers to any more dies as well.
unfoldable pub cap_identity_free : (fuel ident : ℕ) → Caps → Caps
cap_identity_free zero ident s = s
cap_identity_free (suc fuel) ident s =
    let parent = (s.heap ident).parent in
    let freed = release ident s in
    let p = freed.heap parent in
    let rest = cap_identity_free fuel parent freed in
    if not (cap_identity_is_valid ident s)
    then s
    else if not (cap_identity_is_valid parent freed)
    then freed
    else if (p.ref_count == 0) && (p.first_child == 0)
    then rest
    else freed

-- a slot's reference is gone
unfoldable pub drop_reference : (fuel ident : ℕ) → Caps → Caps
drop_reference fuel ident s =
    let old_ref = (s.heap ident).ref_count in
    let fewer = record (s.heap ident) { ref_count = u32 (old_ref + 4294967295) } in
    let dropped = cap_metric_inc delete_ok (store ident fewer s) in
    if not (old_ref == 1)
    then dropped
    else if (dropped.heap ident).first_child == 0
    then cap_identity_free fuel ident dropped
    else dropped

unfoldable pub cap_delete : (fuel root cptr : ℕ) → Caps → Caps
cap_delete fuel root cptr s =
    let ident = slot root cptr s in
    if (root == 0) || leb cnode_slots cptr
    then s
    else if ident == 0
    then s
    else drop_reference fuel ident (set_slot root cptr 0 s)

-- the loop of `cnode_destroy`: the slots from `cptr` on, `left` of them
unfoldable pub delete_slots : (fuel root left cptr : ℕ) → Caps → Caps
delete_slots fuel root zero cptr s = s
delete_slots fuel root (suc left) cptr s =
    delete_slots fuel root left (cptr + 1) (cap_delete fuel root cptr s)

pub cnode_destroy : (fuel cn : ℕ) → Caps → Caps
cnode_destroy fuel cn s =
    let emptied = delete_slots fuel cn cnode_slots 0 s in
    let cleared = record emptied { cnodes = write emptied.cnodes cn (replicate cnode_slots 0) } in
    if cn == 0 then s else effect (free_cnode cn) cleared

-- The node that `slab_alloc` gave, emptied; 0 where it gave none.
pub cnode_create : Outside → Caps → ℕ × Caps
cnode_create out s = if out.allocated == 0 then (0, s) else (
  out.allocated,
  record s { cnodes = write s.cnodes out.allocated (replicate cnode_slots 0) },
)

module _ (blake3 : List ℕ → List ℕ) where
  -- Whether the copy was done.
  unfoldable pub cap_copy : Outside → (fuel root src_cptr dst_cptr : ℕ) → Caps → Bool × Caps
  cap_copy out fuel root src_cptr dst_cptr s =
      let found = cap_lookup blake3 out fuel root src_cptr s in
      let inserted = cap_insert root dst_cptr found.0 found.1 in
      if (found.0 == 0) || not (has_flag (found.1.heap found.0).rights cap_right_grant)
      then (false, cap_metric_inc copy_fail found.1)
      else if not inserted.0
      then (false, cap_metric_inc copy_fail inserted.1)
      else (true, cap_metric_inc copy_ok inserted.1)

  -- `process_has_capability_at`, for a process with the node at `cspace`; 0 without process or node
  unfoldable pub process_has_capability_at :
      Outside → (fuel cspace slot_index expected_type required_rights : ℕ) → Caps → Bool × Caps
  process_has_capability_at out fuel cspace slot_index expected_type required_rights s =
      let found = cap_lookup blake3 out fuel cspace slot_index s in
      let i = found.1.heap found.0 in
      if cspace == 0
      then (false, s)
      else if found.0 == 0
      then (false, found.1)
      else if not (i.cap_type == expected_type)
      then (false, found.1)
      else (bit_and i.rights required_rights == required_rights, found.1)
