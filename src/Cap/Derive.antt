-- ===== src/Cap/Derive.antt =====
-- How identities come to be: `cap_identity_create`, and the derivation of a child by `cap_retype` and
-- `cap_mint`.
use reaper_operating_system.Base.{
  ℕ, bit_and, Bool, true, false, not, ◌&&◌, ◌||◌, List, ◌==◌, if◌then◌else◌, write,
}
use reaper_operating_system.Base.Word.{u8}
use reaper_operating_system.Base.Bits.{has_flag}
use reaper_operating_system.Audit.{
  AuditMeta, audit_event_cap_denied, audit_event_cap_mint, audit_result_ok, audit_result_denied,
  cap_meta, audit_strike,
}
use reaper_operating_system.Cap.{
  cap_type_ram, cap_type_endpoint, cap_type_pagetable, cap_right_grant, cap_ident_magic,
  CapIdentity, zero_identity, zero_endpoint, mint_ok, mint_fail, retype_ok, retype_fail,
  policy_deny, Caps, Outside, cap_metric_inc, effect, store, cap_is_valid_type,
  cap_allowed_modes_valid, cap_target,
}
use reaper_operating_system.Cap.Slots.{cap_slot_is_empty, cap_lookup, cap_insert, cap_identity_free}

-- The address of the new identity, 0 where it is refused or there is no memory.
unfoldable pub cap_identity_create :
    Outside → (obj cap_type rights badge allowed_modes : ℕ) → Caps → ℕ × Caps
cap_identity_create out obj cap_type rights badge allowed_modes s =
    let ident : CapIdentity = record zero_identity {
      object_ptr = obj;
      cap_type = u8 cap_type;
      rights = rights;
      badge = badge;
      allowed_modes = allowed_modes;
      birth_epoch = s.global_revocation_epoch;
      magic = cap_ident_magic;
    } in
    if not (cap_is_valid_type cap_type)
    then (0, s)
    else if not (cap_allowed_modes_valid allowed_modes)
    then (0, s)
    else if out.allocated == 0
    then (0, s)
    else (out.allocated, store out.allocated ident s)

-- the first child of a parent, so far, gets the new one before it
unfoldable pub link_before : (first child : ℕ) → (ℕ → CapIdentity) → ℕ → CapIdentity
link_before first child h =
    if first == 0 then h else write h first (record (h first) { prev_sibling = child })

-- a new identity becomes the first child of its parent
unfoldable pub link_child : (parent child : ℕ) → (ℕ → CapIdentity) → ℕ → CapIdentity
link_child parent child h =
    let first = (h parent).first_child in
    let born = write h child (record (h child) {
      parent = parent;
      parent_epoch_start = (h parent).revocation_epoch;
      next_sibling = first;
    }) in
    let linked = link_before first child born in
    write linked parent (record (linked parent) { first_child = child })

-- the end of both derivations: the child goes into its slot, or dies
unfoldable pub place_child : (fuel root dst_cptr parent child fail : ℕ) → Caps → Bool × Caps
place_child fuel root dst_cptr parent child fail s =
    let linked = record s { heap = link_child parent child s.heap } in
    let inserted = cap_insert root dst_cptr child linked in
    if not inserted.0
    then (false, cap_metric_inc fail (cap_identity_free fuel child inserted.1))
    else inserted

module _ (blake3 : List ℕ → List ℕ) (out : Outside) (fuel : ℕ) where
  -- `cap_retype` behind its checks
  unfoldable pub retype_child : (root dst_cptr parent new_type badge : ℕ) → Caps → Bool × Caps
  retype_child root dst_cptr parent new_type badge s =
      let p = s.heap parent in
      let erased =
        if new_type == cap_type_endpoint then effect (zero_endpoint p.object_ptr) s else s in
      let created =
        cap_identity_create out p.object_ptr new_type p.rights badge p.allowed_modes erased in
      let placed = place_child fuel root dst_cptr parent created.0 retype_fail created.1 in
      if created.0 == 0
      then (false, cap_metric_inc retype_fail created.1)
      else if not placed.0
      then placed
      else (true, cap_metric_inc retype_ok placed.1)

  -- Whether the new capability was made.
  unfoldable pub cap_retype : (root src_cptr dst_cptr new_type badge : ℕ) → Caps → Bool × Caps
  cap_retype root src_cptr dst_cptr new_type badge s =
      let found = cap_lookup blake3 out fuel root src_cptr s in
      let p = found.1.heap found.0 in
      if (found.0 == 0) || not (has_flag p.rights cap_right_grant)
      then (false, cap_metric_inc retype_fail found.1)
      else if not (p.cap_type == cap_type_ram)
          || not (new_type == cap_type_pagetable) && not (new_type == cap_type_endpoint)
      then (false, cap_metric_inc retype_fail found.1)
      else if not (cap_slot_is_empty out root dst_cptr found.1)
      then (false, cap_metric_inc retype_fail found.1)
      else retype_child root dst_cptr found.0 new_type badge found.1

  -- a refusal that the policy metric counts
  abbrev pub mint_denied : Caps → Bool × Caps
  mint_denied s = (false, cap_metric_inc mint_fail (cap_metric_inc policy_deny s))

  unfoldable pub strike : (event result cap_type badge : ℕ) → AuditMeta → Caps → Caps
  strike event result cap_type badge meta s = record s {
    audit = audit_strike blake3 out.env event result (cap_target cap_type badge) meta s.audit;
  }

  -- `cap_mint` behind its checks
  unfoldable pub mint_child :
      (root dst_cptr parent new_rights badge effective_modes : ℕ) → Caps → Bool × Caps
  mint_child root dst_cptr parent new_rights badge effective_modes s =
      let p = s.heap parent in
      let created =
        cap_identity_create out p.object_ptr p.cap_type new_rights badge effective_modes s in
      let placed = place_child fuel root dst_cptr parent created.0 mint_fail created.1 in
      let c = placed.1.heap created.0 in
      let meta = cap_meta c.object_ptr c.rights in
      if created.0 == 0
      then (false, cap_metric_inc mint_fail created.1)
      else if not placed.0
      then placed
      else (
        true,
        cap_metric_inc mint_ok
            (strike audit_event_cap_mint audit_result_ok c.cap_type badge meta placed.1),
      )

  -- Whether the new capability was made.
  unfoldable pub cap_mint :
      (root src_cptr dst_cptr new_rights badge allowed_modes : ℕ) → Caps → Bool × Caps
  cap_mint root src_cptr dst_cptr new_rights badge allowed_modes s =
      let found = cap_lookup blake3 out fuel root src_cptr s in
      let p = found.1.heap found.0 in
      let meta = cap_meta p.object_ptr new_rights in
      let effective_modes = bit_and p.allowed_modes allowed_modes in
      if (found.0 == 0) || not (has_flag p.rights cap_right_grant)
      then (false, cap_metric_inc mint_fail found.1)
      else if not (bit_and new_rights p.rights == new_rights)
      then mint_denied
          (strike audit_event_cap_denied audit_result_denied p.cap_type badge meta found.1)
      else if not (cap_allowed_modes_valid allowed_modes)
      then mint_denied found.1
      else if (effective_modes == 0) || not (cap_slot_is_empty out root dst_cptr found.1)
      then mint_denied found.1
      else mint_child root dst_cptr found.0 new_rights badge effective_modes found.1
