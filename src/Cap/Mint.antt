-- ===== src/Cap/Mint.antt =====
-- What `cap_mint` makes: a child that can do no more than its parent.
use reaper_operating_system.Base.{
  ℕ, ◌+◌, ◌<◌, ◌≡◌, refl, ap, ◌∙◌, ◌≢◌, inl, inr, Bool, true, false, not, ◌||◌, List, leb, ◌==◌,
  arith, Bool-cases, ==→eq, eq→==, ne→==, ==_refl, clash, write, bit_and,
}
use reaper_operating_system.Base.Word.{u8, u32}
use reaper_operating_system.Base.Bits.{has_flag}
use reaper_operating_system.Cap.{
  CapIdentity, zero_identity, Caps, Outside, cap_metric_inc, cap_ident_magic, cap_right_grant,
  cnode_slots, mint_fail, store, insert_ok, cap_is_valid_type, cap_allowed_modes_valid,
  cap_identity_is_valid,
}
use reaper_operating_system.Cap.Slots.{slot, set_slot, cap_lookup, cap_insert, cap_slot_is_empty}
use reaper_operating_system.Cap.Derive.{
  cap_identity_create, link_before, link_child, place_child, mint_child, cap_mint, strike,
}

-- an insertion that is done
pub cap_insert-done :
    (root cptr ident : ℕ) (s : Caps)
    → (cap_insert root cptr ident s).0 ≡ true
    → (((root == 0) || leb cnode_slots cptr || not (cap_identity_is_valid ident s)) ≡ false)
      × (cap_insert root cptr ident s ≡ (
        true,
        cap_metric_inc insert_ok (
            store ident
              (record (s.heap ident) { ref_count = u32 ((s.heap ident).ref_count + 1) })
              (set_slot root cptr ident s)),
      ))
unfolding cap_insert
cap_insert-done root cptr ident s h =
    elim (Bool-cases ((root == 0) || leb cnode_slots cptr || not (cap_identity_is_valid ident s))) [
      | inl e ↦ clash _ h (rw e refl)
      | inr e ↦ elim (Bool-cases (slot root cptr s == 0)) [
        | inl o ↦ (e, rw (e, o) refl)
        | inr o ↦ clash _ h (rw (e, o) refl)
      ]
    ]

-- the child's identity as it is made
abbrev pub newborn : (s : Caps) (obj cap_type rights badge modes : ℕ) → CapIdentity
newborn s obj cap_type rights badge modes = record zero_identity {
  object_ptr = obj;
  cap_type = u8 cap_type;
  rights = rights;
  badge = badge;
  allowed_modes = modes;
  birth_epoch = s.global_revocation_epoch;
  magic = cap_ident_magic;
}

pub cap_identity_create-done :
    (out : Outside) (obj cap_type rights badge modes : ℕ) (s : Caps)
    → (cap_identity_create out obj cap_type rights badge modes s).0 ≢ 0
    → (cap_is_valid_type cap_type ≡ true)
      × (cap_allowed_modes_valid modes ≡ true)
      × (out.allocated ≢ 0)
      × (cap_identity_create out obj cap_type rights badge modes s
          ≡ (out.allocated, store out.allocated (newborn s obj cap_type rights badge modes) s))
unfolding cap_identity_create
cap_identity_create-done out obj cap_type rights badge modes s h =
    elim (Bool-cases (cap_is_valid_type cap_type)) [
      | inl t ↦ elim (Bool-cases (cap_allowed_modes_valid modes)) [
        | inl m ↦ elim (Bool-cases (out.allocated == 0)) [
          | inl z ↦ absurd (h (rw (t, m, z) refl))
          | inr z ↦ (t, m, λ e. clash _ (eq→== _ 0 e) z, rw (t, m, z) refl)
        ]
        | inr m ↦ absurd (h (rw (t, m) refl))
      ]
      | inr t ↦ absurd (h (rw t refl))
    ]

-- the child after it is linked
pub link_child-child :
    (parent child : ℕ) (h : ℕ → CapIdentity)
    → parent ≢ child
    → (h parent).first_child ≢ child
    → link_child parent child h child ≡ record (h child) {
      parent = parent;
      parent_epoch_start = (h parent).revocation_epoch;
      next_sibling = (h parent).first_child;
    }
unfolding link_child link_before
link_child-child parent child h apart fresh =
    let first = (h parent).first_child in
    let a = ne→== parent child apart in
    let b = ne→== first child fresh in
    let c = ==_refl child in
    elim (Bool-cases (first == 0)) [ inl e ↦ rw (a, e, c) refl | inr e ↦ rw (a, e, b, c) refl ]

pub link_child-parent :
    (parent child : ℕ) (h : ℕ → CapIdentity)
    → (link_child parent child h parent).first_child ≡ child
unfolding link_child
link_child-parent parent child h = let a = ==_refl parent in rw a refl

place_child-done :
    (fuel root dst_cptr parent child fail : ℕ) (s : Caps)
    → (place_child fuel root dst_cptr parent child fail s).0 ≡ true
    → ((cap_insert root dst_cptr child (record s { heap = link_child parent child s.heap })).0
        ≡ true)
      × (place_child fuel root dst_cptr parent child fail s
          ≡ cap_insert root dst_cptr child (record s { heap = link_child parent child s.heap }))
unfolding place_child
place_child-done fuel root dst_cptr parent child fail s h =
    elim (Bool-cases
      (cap_insert root dst_cptr child (record s { heap = link_child parent child s.heap })).0) [
        | inl i ↦ (i, rw i refl)
        | inr i ↦ clash _ h (rw i refl)
      ]

pub in_bounds :
    (root cptr : ℕ) (v : Bool)
    → ((root == 0) || leb cnode_slots cptr || not v) ≡ false
    → (root ≢ 0) × (cptr < cnode_slots)
in_bounds root cptr v e = ground arith

granting : (ident : ℕ) (b : Bool) → ((ident == 0) || not b) ≡ false → (ident ≢ 0) × (b ≡ true)
granting ident b e = ground arith

module _ (blake3 : List ℕ → List ℕ) (out : Outside) (fuel : ℕ) where
  -- What `mint_child` did where it made something: its child was created and put into the slot.
  pub mint_child-placed :
      (root dst_cptr parent new_rights badge modes : ℕ) (s : Caps)
      → let p = s.heap parent in
        let created = cap_identity_create out p.object_ptr p.cap_type new_rights badge modes s in
        let placed = place_child fuel root dst_cptr parent created.0 mint_fail created.1 in
        let minted = mint_child blake3 out fuel root dst_cptr parent new_rights badge modes s in
        minted.0 ≡ true
        → (created.0 ≢ 0)
          × (placed.0 ≡ true)
          × (minted.1.heap ≡ placed.1.heap)
          × (minted.1.cnodes ≡ placed.1.cnodes)
  unfolding mint_child cap_metric_inc strike
  mint_child-placed root dst_cptr parent new_rights badge modes s h =
      let p = s.heap parent in
      let created = cap_identity_create out p.object_ptr p.cap_type new_rights badge modes s in
      let placed = place_child fuel root dst_cptr parent created.0 mint_fail created.1 in
      elim (Bool-cases (created.0 == 0)) [
        | inl e ↦ clash _ h (rw e refl)
        | inr e ↦ elim (Bool-cases placed.0) [
          | inl q ↦ (λ z. clash _ (eq→== _ 0 z) e, q, rw (e, q) refl, rw (e, q) refl)
          | inr q ↦ clash _ h (rw (e, q) refl)
        ]
      ]

-- the child in its place: the state before the audit record and the count
abbrev pub born_in : (root dst_cptr parent child : ℕ) → CapIdentity → Caps → Caps
born_in root dst_cptr parent child i s =
    let made = write s.heap child i in
    let linked = link_child parent child made in
    set_slot root dst_cptr child (record s {
      heap =
          write linked child
            (record (linked child) { ref_count = u32 ((linked child).ref_count + 1) });
    })

-- a placed child, in its memory and its slot
pub place_child-born :
    (fuel root dst_cptr parent child fail : ℕ) (i : CapIdentity) (s : Caps)
    → (place_child fuel root dst_cptr parent child fail (store child i s)).0 ≡ true
    → ((root ≢ 0) × (dst_cptr < cnode_slots))
      × ((place_child fuel root dst_cptr parent child fail (store child i s)).1.heap
          ≡ (born_in root dst_cptr parent child i s).heap)
      × ((place_child fuel root dst_cptr parent child fail (store child i s)).1.cnodes
          ≡ (born_in root dst_cptr parent child i s).cnodes)
unfolding cap_metric_inc
place_child-born fuel root dst_cptr parent child fail i s h =
    let placed = place_child-done fuel root dst_cptr parent child fail (store child i s) h in
    let linked = record s { heap = link_child parent child (write s.heap child i) } in
    let done = cap_insert-done root dst_cptr child linked placed.0 in
    (
      in_bounds root dst_cptr _ done.0,
      ap (λ r. r.1.heap) (placed.1 ∙ done.1),
      ap (λ r. r.1.cnodes) (placed.1 ∙ done.1),
    )

module _ (blake3 : List ℕ → List ℕ) (out : Outside) (fuel : ℕ) where
  -- the checks that a mint went through
  pub mint_checks :
      (root src_cptr dst_cptr new_rights badge modes : ℕ) (s : Caps)
      → let found = cap_lookup blake3 out fuel root src_cptr s in
        let p = found.1.heap found.0 in
        let minted = cap_mint blake3 out fuel root src_cptr dst_cptr new_rights badge modes s in
        minted.0 ≡ true
        → (found.0 ≢ 0)
          × (has_flag p.rights cap_right_grant ≡ true)
          × (bit_and new_rights p.rights ≡ new_rights)
          × (minted
              ≡ mint_child blake3 out fuel root dst_cptr found.0 new_rights badge
                  (bit_and p.allowed_modes modes)
                  found.1)
  unfolding cap_mint
  mint_checks root src_cptr dst_cptr new_rights badge modes s h =
      let found = cap_lookup blake3 out fuel root src_cptr s in
      let p = found.1.heap found.0 in
      elim (Bool-cases ((found.0 == 0) || not (has_flag p.rights cap_right_grant))) [
        | inl a ↦ clash _ h (rw a refl)
        | inr a ↦ elim (Bool-cases (bit_and new_rights p.rights == new_rights)) [
          | inr b ↦ clash _ h (rw (a, b) refl)
          | inl b ↦ elim (Bool-cases (cap_allowed_modes_valid modes)) [
            | inr c ↦ clash _ h (rw (a, b, c) refl)
            | inl c ↦
                elim (Bool-cases (
                  (bit_and p.allowed_modes modes == 0)
                  || not (cap_slot_is_empty out root dst_cptr found.1))) [
                    | inl d ↦ clash _ h (rw (a, b, c, d) refl)
                    | inr d ↦
                        let granted = granting found.0 (has_flag p.rights cap_right_grant) a in
                        (granted.0, granted.1, ==→eq _ _ b, rw (a, b, c, d) refl)
                  ]
          ]
        ]
      ]
