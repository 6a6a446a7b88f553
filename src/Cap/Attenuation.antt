-- ===== src/Cap/Attenuation.antt =====
-- A capability that is minted can do no more than the one it was made from, and it works.
use mathlib.Core.Path.{subst}
use reaper_operating_system.Base.{
  ℕ, ◌+◌, ◌<◌, ◌≡◌, refl, sym, ap, ◌∙◌, ◌≢◌, true, List, arith, ==_refl, write, write_self,
  write_ne, length, get_or, get_or-set_self, bit_and,
}
use reaper_operating_system.Base.Word.{u8, u32}
use reaper_operating_system.Base.Bits.{has_flag}
use reaper_operating_system.Cap.{
  CapIdentity, Caps, Outside, cap_metric_inc, cap_right_grant, cnode_slots, lookup_ok, mint_fail,
  cap_is_valid_type, cap_allowed_modes_valid,
}
use reaper_operating_system.Cap.Slots.{slot}
use reaper_operating_system.Cap.Derive.{link_child, place_child, mint_child, cap_mint}
use reaper_operating_system.Cap.Lookup.{Usable, cap_lookup-Usable}
use reaper_operating_system.Cap.Mint.{
  newborn, born_in, mint_checks, mint_child-placed, place_child-born, cap_identity_create-done,
  link_child-child, link_child-parent,
}

-- What a mint is about: the state, the parent and the child, and what was asked for.
pub record Minted (out : Outside) (s s' : Caps) (root src_cptr dst_cptr new_rights modes : ℕ)
    : Type 0 where
  pub source : Usable out root src_cptr s (slot root src_cptr s)
  pub grant : has_flag (s.heap (slot root src_cptr s)).rights cap_right_grant ≡ true
  pub fewer : bit_and new_rights (s.heap (slot root src_cptr s)).rights ≡ new_rights
  pub kind : cap_is_valid_type (s.heap (slot root src_cptr s)).cap_type ≡ true
  pub known_modes :
      cap_allowed_modes_valid (bit_and (s.heap (slot root src_cptr s)).allowed_modes modes) ≡ true
  pub there : out.allocated ≢ 0
  pub inside : dst_cptr < cnode_slots

module _ (blake3 : List ℕ → List ℕ) (out : Outside) (fuel : ℕ) where
  pub cap_mint-Minted :
      (root src_cptr dst_cptr new_rights badge modes : ℕ) (s : Caps)
      → let parent = slot root src_cptr s in
        let p = s.heap parent in
        let minted = cap_mint blake3 out fuel root src_cptr dst_cptr new_rights badge modes s in
        let i =
          newborn s p.object_ptr p.cap_type new_rights badge (bit_and p.allowed_modes modes) in
        let born = born_in root dst_cptr parent out.allocated i s in
        minted.0 ≡ true
        → Minted out s minted.1 root src_cptr dst_cptr new_rights modes
          × (minted.1.heap ≡ born.heap)
          × (minted.1.cnodes ≡ born.cnodes)
  unfolding cap_metric_inc
  cap_mint-Minted root src_cptr dst_cptr new_rights badge modes s h =
      let parent = slot root src_cptr s in
      let p = s.heap parent in
      let eff = bit_and p.allowed_modes modes in
      let counted = cap_metric_inc lookup_ok s in
      let checks = mint_checks blake3 out fuel root src_cptr dst_cptr new_rights badge modes s h in
      let usable = cap_lookup-Usable blake3 out fuel root src_cptr s checks.0 in
      let step =
        checks.3
        ∙ ap
            (λ f.
              mint_child blake3 out fuel root dst_cptr f.0 new_rights badge
                (bit_and (f.1.heap f.0).allowed_modes modes) f.1)
            usable.1 in
      let placed =
        mint_child-placed blake3 out fuel root dst_cptr parent new_rights badge eff counted
          (sym (ap (λ r. r.0) step) ∙ h) in
      let created =
        cap_identity_create-done out p.object_ptr p.cap_type new_rights badge eff counted
          placed.0 in
      let q =
        sym (ap (λ c. (place_child fuel root dst_cptr parent c.0 mint_fail c.1).0) created.3)
        ∙ placed.1 in
      let i = newborn counted p.object_ptr p.cap_type new_rights badge eff in
      let born = place_child-born fuel root dst_cptr parent out.allocated mint_fail i counted q in
      (
        record {
          source = usable.0;
          grant =
              sym (ap (λ f. has_flag (f.1.heap f.0).rights cap_right_grant) usable.1) ∙ checks.1;
          fewer =
              subst (λ f. bit_and new_rights (f.1.heap f.0).rights ≡ new_rights) usable.1 checks.2;
          kind = created.0;
          known_modes = created.1;
          there = created.2;
          inside = born.0.1;
        },
        ap (λ r. r.1.heap) step
            ∙ placed.2
            ∙ ap (λ c. (place_child fuel root dst_cptr parent c.0 mint_fail c.1).1.heap) created.3
            ∙ born.1,
        ap (λ r. r.1.cnodes) step
            ∙ placed.3
            ∙ ap (λ c. (place_child fuel root dst_cptr parent c.0 mint_fail c.1).1.cnodes) created.3
            ∙ born.2,
      )

-- What the child has of its parent, and of what was asked for.
pub record Attenuated (out : Outside) (s s' : Caps)
    (root src_cptr dst_cptr new_rights badge modes : ℕ) : Type 0 where
  pub grant : has_flag (s.heap (slot root src_cptr s)).rights cap_right_grant ≡ true
  pub fewer : bit_and new_rights (s.heap (slot root src_cptr s)).rights ≡ new_rights
  pub held : slot root dst_cptr s' ≡ out.allocated
  pub rights : (s'.heap out.allocated).rights ≡ new_rights
  pub restricted :
      (s'.heap out.allocated).allowed_modes
      ≡ bit_and (s.heap (slot root src_cptr s)).allowed_modes modes
  pub known_modes : cap_allowed_modes_valid (s'.heap out.allocated).allowed_modes ≡ true
  pub object : (s'.heap out.allocated).object_ptr ≡ (s.heap (slot root src_cptr s)).object_ptr
  pub kind : (s'.heap out.allocated).cap_type ≡ (s.heap (slot root src_cptr s)).cap_type
  pub named : (s'.heap out.allocated).badge ≡ badge
  pub lineage : (s'.heap out.allocated).parent ≡ slot root src_cptr s
  pub epoch :
      (s'.heap out.allocated).parent_epoch_start ≡ (s.heap (slot root src_cptr s)).revocation_epoch
  pub current : (s'.heap out.allocated).revocation_epoch ≡ 0
  pub counted : (s'.heap out.allocated).ref_count ≡ 1
  pub sibling : (s'.heap out.allocated).next_sibling ≡ (s.heap (slot root src_cptr s)).first_child
  pub child : (s'.heap (slot root src_cptr s)).first_child ≡ out.allocated

small_type : (t : ℕ) → cap_is_valid_type t ≡ true → u8 t ≡ t
unfolding cap_is_valid_type
small_type t v = ground arith

-- the child's identity, in the end
abbrev pub grown : (parent : ℕ) → (p i : CapIdentity) → CapIdentity
grown parent p i = record i {
  parent = parent;
  parent_epoch_start = p.revocation_epoch;
  next_sibling = p.first_child;
  ref_count = 1;
}

module _ (root dst_cptr parent child : ℕ) (i : CapIdentity) (s : Caps) where
  pub born_in-child :
      parent ≢ child
      → (s.heap parent).first_child ≢ child
      → i.ref_count ≡ 0
      → (born_in root dst_cptr parent child i s).heap child ≡ grown parent (s.heap parent) i
  born_in-child apart fresh zero_refs =
      let made = write s.heap child i in
      let p : made parent ≡ s.heap parent = write_ne s.heap child parent i (λ e. apart (sym e)) in
      let c : made child ≡ i = write_self s.heap child i in
      let join : CapIdentity → CapIdentity = λ j. record j {
        parent = parent;
        parent_epoch_start = (s.heap parent).revocation_epoch;
        next_sibling = (s.heap parent).first_child;
      } in
      let linked : link_child parent child made child ≡ join i =
        subst
          (λ q. link_child parent child made child ≡ record (made child) {
            parent = parent;
            parent_epoch_start = q.revocation_epoch;
            next_sibling = q.first_child;
          })
          p
          (link_child-child parent child made apart
            (λ e. fresh (sym (ap (λ q. q.first_child) p) ∙ e)))
        ∙ ap join c in
      let refer : CapIdentity → CapIdentity = λ j. record j { ref_count = u32 (j.ref_count + 1) } in
      let recount : ℕ → CapIdentity =
        λ n. record (grown parent (s.heap parent) i) { ref_count = u32 (n + 1) } in
      write_self (link_child parent child made) child _ ∙ ap refer linked ∙ ap recount zero_refs

  pub born_in-parent :
      parent ≢ child → ((born_in root dst_cptr parent child i s).heap parent).first_child ≡ child
  born_in-parent apart =
      let made = write s.heap child i in
      ap (λ j. j.first_child)
        (write_ne (link_child parent child made) child parent _ (λ e. apart (sym e)))
      ∙ link_child-parent parent child made

  pub born_in-slot :
      length (s.cnodes root) ≡ cnode_slots
      → dst_cptr < cnode_slots
      → slot root dst_cptr (born_in root dst_cptr parent child i s) ≡ child
  born_in-slot full inside =
      let e = ==_refl root in rw e (get_or-set_self (s.cnodes root) dst_cptr child 0 (omega arith))

module _ (blake3 : List ℕ → List ℕ) (out : Outside) (fuel : ℕ) where
  -- In a node of 128 slots, and where the new address is neither that of the parent nor that of
  -- its first child, a mint that succeeds had the grant right, asked for no right that its parent
  -- lacks, and leaves in its slot a child with just these rights, the parent's object and type,
  -- and the modes that the parent and the request share, counted once and linked as the first
  -- child of the parent.
  pub cap_mint-Attenuated :
      (root src_cptr dst_cptr new_rights badge modes : ℕ) (s : Caps)
      → length (s.cnodes root) ≡ cnode_slots
      → slot root src_cptr s ≢ out.allocated
      → (s.heap (slot root src_cptr s)).first_child ≢ out.allocated
      → (cap_mint blake3 out fuel root src_cptr dst_cptr new_rights badge modes s).0 ≡ true
      → Attenuated out s
          (cap_mint blake3 out fuel root src_cptr dst_cptr new_rights badge modes s).1
          root
          src_cptr
          dst_cptr
          new_rights
          badge
          modes
  cap_mint-Attenuated root src_cptr dst_cptr new_rights badge modes s full apart fresh h =
      let parent = slot root src_cptr s in
      let p = s.heap parent in
      let eff = bit_and p.allowed_modes modes in
      let i = newborn s p.object_ptr p.cap_type new_rights badge eff in
      let m = cap_mint-Minted blake3 out fuel root src_cptr dst_cptr new_rights badge modes s h in
      let facts = m.0 in
      let c =
        ap (λ g. g out.allocated) m.1
        ∙ born_in-child root dst_cptr parent out.allocated i s apart fresh refl in
      record {
        grant = facts.grant;
        fewer = facts.fewer;
        held =
            ap (λ n. get_or (n root) dst_cptr 0) m.2
            ∙ born_in-slot root dst_cptr parent out.allocated i s full facts.inside;
        rights = ap (λ j. j.rights) c;
        restricted = ap (λ j. j.allowed_modes) c;
        known_modes = ap (λ j. cap_allowed_modes_valid j.allowed_modes) c ∙ facts.known_modes;
        object = ap (λ j. j.object_ptr) c;
        kind = ap (λ j. j.cap_type) c ∙ small_type p.cap_type facts.kind;
        named = ap (λ j. j.badge) c;
        lineage = ap (λ j. j.parent) c;
        epoch = ap (λ j. j.parent_epoch_start) c;
        current = ap (λ j. j.revocation_epoch) c;
        counted = ap (λ j. j.ref_count) c;
        sibling = ap (λ j. j.next_sibling) c;
        child =
            ap (λ g. (g parent).first_child) m.1
            ∙ born_in-parent root dst_cptr parent out.allocated i s apart;
      }
