-- ===== src/Examples/Capabilities.antt =====
-- A region of memory with a capability to it, one derived from that, and room for a third.
use reaper_operating_system.Base.{
  ℕ, ◌<◌, ◌≡◌, refl, ap, ◌≢◌, ◌↔◌, inl, inr, true, false, [], ◌∷◌, ◌||◌, ◌==◌, arith, Bool-cases,
  ==→eq, if◌then◌else◌, replicate, write,
}
use reaper_operating_system.Examples.{digest, env, no_audit}
use reaper_operating_system.Cap.{
  CapIdentity, zero_identity, Caps, Outside, kfree, free_identity, cap_ident_magic, cap_type_ram,
  cap_metric_inc, cap_identity_is_valid, cap_allowed_modes_valid, cap_is_valid_type,
}
use reaper_operating_system.Cap.Slots.{
  slot, alive_from, cap_identity_is_alive, lookup_alive, cap_lookup, cap_insert, cap_delete,
  cap_identity_free, cap_slot_is_empty, release, free_object, owns_allocation,
  cap_unlink_from_parent, skip_forward, skip_back,
}
use reaper_operating_system.Cap.Derive.{
  cap_identity_create, link_before, link_child, place_child, mint_child, cap_mint, strike,
}
use reaper_operating_system.Cap.Revoke.{
  cap_revoke, cap_revoke_tree, revoke_children, revoke_one, revoke_authority,
}
use reaper_operating_system.Cap.Alive.{Ranked, Living, cap_identity_is_alive-Living}
use reaper_operating_system.Cap.Spread.{
  belongs, leaf, member, cap_revoke-stamped, cap_revoke-lookup,
}
use reaper_operating_system.Cap.Attenuation.{Attenuated, cap_mint-Attenuated}
use reaper_operating_system.Cap.Granted.{cap_mint-cap_lookup}
use reaper_operating_system.Cap.Reclaim.{cap_identity_free-ends, cap_delete-cap_insert}

abbrev region : CapIdentity
region = record zero_identity {
  object_ptr = 4096;
  cap_type = cap_type_ram;
  allowed_modes = 31;
  rights = 7;
  ref_count = 1;
  first_child = 200;
  magic = cap_ident_magic;
}

abbrev window : CapIdentity
window = record region { rights = 5; parent = 100; first_child = 0 }

abbrev memory : ℕ → CapIdentity
memory = write (write (λ a. zero_identity) 100 region) 200 window

abbrev caps : Caps
caps = record {
  heap = memory;
  cnodes = λ n. 100 ∷ 200 ∷ replicate 126 0;
  sched_auths = λ a. record { magic = 0; owner_process = 0; bound_thread = 0 };
  global_revocation_epoch = 1;
  genesis_exhausted = true;
  metrics = replicate 14 0;
  audit = no_audit;
  effects = [];
}

abbrev outside : Outside
outside = record { env = env; mode_mask = 2; allocated = 300; beyond = 0 }

abbrev rank : ℕ → ℕ
rank a = if 200 == a then 1 else 0

parent_of_window : (a : ℕ) → 200 ≡ a → (memory a).parent ≢ 300
parent_of_window a e = rw⁻¹ e (λ z. omega arith)

no_parent : (a : ℕ) → (200 == a) ≡ false → (memory a).parent ≡ 0
no_parent a e = elim (Bool-cases (100 == a)) [ inl t ↦ rw (e, t) refl | inr t ↦ rw (e, t) refl ]

at_window : (a : ℕ) → 200 ≡ a → rank (memory a).parent < rank a
at_window a e = rw⁻¹ e (omega arith)

ranked : Ranked memory rank
ranked a up = elim (Bool-cases (200 == a)) [
  | inl e ↦ at_window a (==→eq 200 a e)
  | inr e ↦ absurd (up (no_parent a e))
]

finds : (cap_lookup digest outside 5 1 0 caps).0 ≢ 0
unfolding cap_lookup lookup_alive cap_identity_is_alive alive_from cap_identity_is_valid
    cap_allowed_modes_valid cap_metric_inc
finds e = absurd (omega arith)

cap_identity_is_alive-Living_example :
    ((cap_identity_is_alive 2 200 caps).0 ≡ true) ↔ Living memory 200
cap_identity_is_alive-Living_example =
    cap_identity_is_alive-Living rank 2 200 caps ranked (omega arith)

cap_revoke-stamped_example :
    (cap_revoke digest outside 5 5 1 0 caps).heap 200 ≡ record window { revocation_epoch = 2 }
cap_revoke-stamped_example =
    cap_revoke-stamped digest outside 5 5 1 0 caps (member 200 leaf leaf) finds
      (refl, (λ e. omega arith), refl, refl) (omega arith) 200

-- the slots after the revocation
slot_after : slot 1 1 (cap_revoke digest outside 5 5 1 0 caps) ≡ 200
unfolding cap_revoke cap_revoke_tree revoke_children revoke_one revoke_authority cap_lookup
    lookup_alive cap_identity_is_alive alive_from cap_identity_is_valid cap_allowed_modes_valid
    cap_metric_inc
slot_after = refl

cap_revoke-lookup_example :
    (cap_lookup digest outside 5 1 1 (cap_revoke digest outside 5 5 1 0 caps)).0 ≡ 0
cap_revoke-lookup_example =
    cap_revoke-lookup digest outside 5 5 1 0 caps (member 200 leaf leaf) finds
      (refl, (λ e. omega arith), refl, refl) (omega arith) (omega arith) outside 5 1 1
      (ap (λ y. belongs y (member 200 leaf leaf) || (100 == y)) slot_after)

-- the state after a capability to read is minted into slot 2
abbrev minted : Caps
minted = (cap_mint digest outside 5 1 0 2 1 9 2 caps).1

mints : (cap_mint digest outside 5 1 0 2 1 9 2 caps).0 ≡ true
unfolding cap_mint mint_child place_child link_child link_before cap_identity_create
    cap_is_valid_type cap_insert strike cap_slot_is_empty cap_lookup lookup_alive
    cap_identity_is_alive alive_from cap_identity_is_valid cap_allowed_modes_valid cap_metric_inc
mints = refl

cap_mint-Attenuated_example : Attenuated outside caps minted 1 0 2 1 9 2
cap_mint-Attenuated_example =
    cap_mint-Attenuated digest outside 5 1 0 2 1 9 2 caps refl (λ e. omega arith) (λ e. omega arith)
      mints

no_child : (a : ℕ) → (memory a).parent ≢ 300
no_child a e = elim (Bool-cases (200 == a)) [
  | inl t ↦ parent_of_window a (==→eq 200 a t) e
  | inr t ↦ let none = no_parent a t in omega arith
]

cap_mint-cap_lookup_example : (cap_lookup digest outside 3 1 2 minted).0 ≡ 300
cap_mint-cap_lookup_example =
    cap_mint-cap_lookup digest outside 5 1 0 2 1 9 2 caps rank refl ranked no_child
      (λ e. omega arith) (λ e. omega arith) mints outside 3 (omega arith) (λ e. omega arith)

cap_identity_free-ends_example : cap_identity_free 2 200 caps ≡ cap_identity_free 9 200 caps
cap_identity_free-ends_example =
    cap_identity_free-ends rank 2 9 200 caps ranked (omega arith) (omega arith)

inserts : (cap_insert 1 5 200 caps).0 ≡ true
unfolding cap_insert cap_identity_is_valid
inserts = refl

cap_delete-cap_insert_example :
    let s' = cap_delete 3 1 5 (cap_insert 1 5 200 caps).1 in
    ((y : ℕ) → s'.heap y ≡ memory y) × ((n : ℕ) → s'.cnodes n ≡ caps.cnodes n) × (s'.effects ≡ [])
cap_delete-cap_insert_example =
    cap_delete-cap_insert 3 1 5 200 caps refl (omega arith) (omega arith) inserts

-- A mint into a slot behind the last one fails, and gives the object of the live parent away.
mint_outside :
    (cap_mint digest outside 5 1 0 128 1 9 2 caps).1.effects ≡ free_identity 300 ∷ kfree 4096 ∷ []
unfolding cap_mint mint_child place_child link_child link_before cap_identity_create
    cap_is_valid_type cap_insert strike cap_slot_is_empty cap_lookup lookup_alive
    cap_identity_is_alive alive_from cap_identity_is_valid cap_allowed_modes_valid cap_metric_inc
    cap_identity_free release free_object owns_allocation cap_unlink_from_parent skip_forward
    skip_back
mint_outside = refl
