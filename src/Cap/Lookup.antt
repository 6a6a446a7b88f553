-- ===== src/Cap/Lookup.antt =====
-- What a lookup says: when it finds an identity, and that it never finds a revoked one.
use reaper_operating_system.Base.{
  ℕ, ◌<◌, ◌≡◌, refl, ap, ◌∙◌, ◌≢◌, inl, inr, true, false, not, ◌||◌, List, leb, ◌==◌, arith,
  Bool-cases, ==→eq, eq→==, ne→==, lt→leb, clash, bit_and,
}
use reaper_operating_system.Cap.{
  Caps, Outside, cnode_slots, lookup_ok, cap_identity_is_valid, cap_allowed_modes_valid,
  cap_metric_inc,
}
use reaper_operating_system.Cap.Slots.{cap_identity_is_alive, slot, lookup_alive, cap_lookup}
use reaper_operating_system.Cap.Alive.{
  Living, height, cap_identity_is_alive-true, Living-alive, magic-valid,
}

-- The slot is there, and what it names may be used in the current mode.
pub record Usable (out : Outside) (root cptr : ℕ) (s : Caps) (ident : ℕ) : Type 0 where
  pub node : root ≢ 0
  pub inside : cptr < cnode_slots
  pub named : slot root cptr s ≡ ident
  pub living : Living s.heap ident
  pub modes : cap_allowed_modes_valid (s.heap ident).allowed_modes ≡ true
  pub here : bit_and out.mode_mask (s.heap ident).allowed_modes ≢ 0

module _ (blake3 : List ℕ → List ℕ) (out : Outside) where
  -- the last checks, passed
  lookup_alive-found :
      (ident : ℕ) (s : Caps)
      → (lookup_alive blake3 out ident s).0 ≢ 0
      → (cap_allowed_modes_valid (s.heap ident).allowed_modes ≡ true)
        × (bit_and out.mode_mask (s.heap ident).allowed_modes ≢ 0)
        × (lookup_alive blake3 out ident s ≡ (ident, cap_metric_inc lookup_ok s))
  unfolding lookup_alive
  lookup_alive-found ident s h =
      elim (Bool-cases (cap_allowed_modes_valid (s.heap ident).allowed_modes)) [
        | inl v ↦ elim (Bool-cases (bit_and out.mode_mask (s.heap ident).allowed_modes == 0)) [
          | inl e ↦ absurd (h (rw (v, e) refl))
          | inr e ↦ (v, λ z. clash _ (eq→== _ 0 z) e, rw (v, e) refl)
        ]
        | inr v ↦ absurd (h (rw v refl))
      ]

  -- what a lookup that finds something went through
  found_steps :
      (fuel root cptr : ℕ) (s : Caps)
      → (cap_lookup blake3 out fuel root cptr s).0 ≢ 0
      → (((root == 0) || leb cnode_slots cptr) ≡ false)
        × ((cap_identity_is_alive fuel (slot root cptr s) s).0 ≡ true)
        × (cap_lookup blake3 out fuel root cptr s
            ≡ lookup_alive blake3 out
                (slot root cptr s)
                (cap_identity_is_alive fuel (slot root cptr s) s).1)
  unfolding cap_lookup
  found_steps fuel root cptr s h =
      let ident = slot root cptr s in
      elim (Bool-cases ((root == 0) || leb cnode_slots cptr)) [
        | inl e ↦ absurd (h (rw e refl))
        | inr e ↦ elim (Bool-cases ((ident == 0) || not (cap_identity_is_valid ident s))) [
          | inl v ↦ absurd (h (rw (e, v) refl))
          | inr v ↦ elim (Bool-cases (cap_identity_is_alive fuel ident s).0) [
            | inl a ↦ (e, a, rw (e, v, a) refl)
            | inr a ↦ absurd (h (rw (e, v, a) refl))
          ]
        ]
      ]

  in_bounds :
      (root cptr : ℕ)
      → ((root == 0) || leb cnode_slots cptr) ≡ false
      → (root ≢ 0) × (cptr < cnode_slots)
  in_bounds root cptr e = ground arith

  -- A lookup that finds an identity only counts.
  pub cap_lookup-Usable :
      (fuel root cptr : ℕ) (s : Caps)
      → (cap_lookup blake3 out fuel root cptr s).0 ≢ 0
      → Usable out root cptr s (slot root cptr s)
        × (cap_lookup blake3 out fuel root cptr s ≡ (slot root cptr s, cap_metric_inc lookup_ok s))
  cap_lookup-Usable fuel root cptr s h =
      let ident = slot root cptr s in
      let steps = found_steps fuel root cptr s h in
      let bounds = in_bounds root cptr steps.0 in
      let alive = cap_identity_is_alive-true fuel ident s steps.1 in
      let step : cap_lookup blake3 out fuel root cptr s ≡ lookup_alive blake3 out ident s =
        steps.2 ∙ ap (λ r. lookup_alive blake3 out ident r.1) alive.1 in
      let last = lookup_alive-found ident s (λ z. h (ap (λ r. r.0) step ∙ z)) in
      (
        record {
          node = bounds.0;
          inside = bounds.1;
          named = refl;
          living = alive.0;
          modes = last.0;
          here = last.1;
        },
        step ∙ last.2,
      )

  -- usable
  pub Usable-cap_lookup :
      (fuel root cptr ident : ℕ) (s : Caps) (u : Usable out root cptr s ident)
      → height u.living.lineage < fuel
      → cap_lookup blake3 out fuel root cptr s ≡ (ident, cap_metric_inc lookup_ok s)
  unfolding cap_lookup lookup_alive
  Usable-cap_lookup fuel root cptr ident s u enough =
      let named = u.named in
      let living = u.living in
      let bounds : ((root == 0) || leb cnode_slots cptr) ≡ false =
        let a = ne→== root 0 u.node in let b = lt→leb cnode_slots cptr u.inside in rw (a, b) refl in
      let valid : ((ident == 0) || not (cap_identity_is_valid ident s)) ≡ false =
        let a = ne→== ident 0 living.address in
        let b = magic-valid ident s living.address living.marked in rw (a, b) refl in
      let alive = Living-alive fuel ident s living enough in
      let modes = u.modes in
      let here : (bit_and out.mode_mask (s.heap ident).allowed_modes == 0) ≡ false =
        ne→== _ 0 u.here in
      rw (named, bounds, valid, alive, modes, here) refl

  -- A revoked identity is never found, whatever the slot, the mode and the lineage.
  pub cap_lookup-revoked :
      (fuel root cptr : ℕ) (s : Caps)
      → (s.heap (slot root cptr s)).revocation_epoch ≢ 0
      → (cap_lookup blake3 out fuel root cptr s).0 ≡ 0
  cap_lookup-revoked fuel root cptr s dead =
      elim (Bool-cases ((cap_lookup blake3 out fuel root cptr s).0 == 0)) [
        | inl e ↦ ==→eq _ 0 e
        | inr e ↦
            let found = cap_lookup-Usable fuel root cptr s (λ z. clash _ (eq→== _ 0 z) e) in
            absurd (dead found.0.living.current)
      ]
