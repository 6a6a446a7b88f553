-- ===== src/Cap/Alive.antt =====
-- Which identities are alive, and what a lookup that finds one says.
use reaper_operating_system.Base.{
  ℕ, zero, suc, ◌<◌, ◌≤◌, ◌≡◌, refl, sym, ap, ◌∙◌, ◌≢◌, ◌↔◌, inl, inr, Bool, true, false, not, ◌==◌,
  arith, Bool-cases, ==→eq, eq→==, ne→==, clash,
}
use reaper_operating_system.Cap.{CapIdentity, Caps, cap_ident_magic, cap_identity_is_valid}
use reaper_operating_system.Cap.Slots.{alive_from, cap_identity_is_alive}

-- Each link from the identity up to the root of its lineage is as it was when it was made.
pub data Intact (h : ℕ → CapIdentity) : ℕ → Type 0 where
  origin : (a : ℕ) → (h a).parent ≡ 0 → Intact h a
  derived :
      (a : ℕ)
      → (h a).parent ≢ 0
      → (h (h a).parent).magic ≡ cap_ident_magic
      → (h (h a).parent).revocation_epoch ≡ (h a).parent_epoch_start
      → Intact h (h a).parent
      → Intact h a

-- No lineage runs in a circle: a rank falls from each identity to its parent.
abbrev pub Ranked : (ℕ → CapIdentity) → (ℕ → ℕ) → Type 0
Ranked h rank = (a : ℕ) → (h a).parent ≢ 0 → rank (h a).parent < rank a

not-true : (b : Bool) → not b ≡ true → b ≡ false
not-true true e = sym e
not-true false e = refl

not-false : (b : Bool) → not b ≡ false → b ≡ true
not-false true e = refl
not-false false e = sym e

pub valid-magic :
    (ident : ℕ) (s : Caps)
    → cap_identity_is_valid ident s ≡ true
    → (ident ≢ 0) × ((s.heap ident).magic ≡ cap_ident_magic)
unfolding cap_identity_is_valid
valid-magic ident s v = ground arith

pub magic-valid :
    (ident : ℕ) (s : Caps)
    → ident ≢ 0
    → (s.heap ident).magic ≡ cap_ident_magic
    → cap_identity_is_valid ident s ≡ true
unfolding cap_identity_is_valid
magic-valid ident s ne m = ground arith

-- a step of the walk, by what it finds
alive_from-root :
    (fuel ident child : ℕ) (s : Caps)
    → (s.heap child).parent ≡ 0
    → alive_from (suc fuel) ident child s ≡ (true, s)
unfolding alive_from
alive_from-root fuel ident child s e =
    let test : ((s.heap child).parent == 0) ≡ true = ap (λ p. p == 0) e in rw test refl

alive_from-step :
    (fuel ident child : ℕ) (s : Caps)
    → (s.heap child).parent ≢ 0
    → (s.heap (s.heap child).parent).magic ≡ cap_ident_magic
    → (s.heap (s.heap child).parent).revocation_epoch ≡ (s.heap child).parent_epoch_start
    → alive_from (suc fuel) ident child s ≡ alive_from fuel ident (s.heap child).parent s
unfolding alive_from
alive_from-step fuel ident child s ne m same =
    let up = (s.heap child).parent in
    let above : (up == 0) ≡ false = ne→== up 0 ne in
    let v = magic-valid up s ne m in
    let epoch : ((s.heap up).revocation_epoch == (s.heap child).parent_epoch_start) ≡ true =
      eq→== _ _ same in
    rw (above, v, epoch) refl

alive_from-true :
    (fuel ident child : ℕ) (s : Caps)
    → (alive_from fuel ident child s).0 ≡ true
    → Intact s.heap child × (alive_from fuel ident child s ≡ (true, s))
unfolding alive_from
alive_from-true zero ident child s h = cc
alive_from-true (suc fuel) ident child s h =
    let up = (s.heap child).parent in
    elim (Bool-cases (up == 0)) [
      | inl e ↦ (origin child (==→eq up 0 e), rw e refl)
      | inr e ↦ elim (Bool-cases (cap_identity_is_valid up s)) [
        | inl v ↦
            elim (Bool-cases ((s.heap up).revocation_epoch == (s.heap child).parent_epoch_start)) [
              | inl same ↦
                  let step : alive_from (suc fuel) ident child s ≡ alive_from fuel ident up s =
                    rw (e, v, same) refl in
                  let ih = alive_from-true fuel ident up s (sym (ap (λ r. r.0) step) ∙ h) in
                  let ok = valid-magic up s v in
                  (derived child ok.0 ok.1 (==→eq _ _ same) ih.0, step ∙ ih.1)
              | inr other ↦
                  let step : (alive_from (suc fuel) ident child s).0 ≡ false =
                    rw (e, v, other) refl in
                  clash _ h step
            ]
        | inr v ↦
            let step : (alive_from (suc fuel) ident child s).0 ≡ false = rw (e, v) refl in
            clash _ h step
      ]
    ]

-- the number of identities above one
abbrev pub height : {h : ℕ → CapIdentity} {a : ℕ} → Intact h a → ℕ
height (origin _ e) = 0
height (derived _ ne m same i) = suc (height i)

pub height-Ranked :
    (rank : ℕ → ℕ) {h : ℕ → CapIdentity} {a : ℕ} (i : Intact h a)
    → Ranked h rank
    → height i ≤ rank a
height-Ranked rank (origin _ e) ranked = omega arith
height-Ranked rank (derived a ne m same i) ranked =
    let lower = ranked a ne in omega (arith, lower, height-Ranked rank i ranked)

-- An intact lineage is walked to its root by enough fuel for its height.
alive_from-Intact :
    (fuel ident child : ℕ) (s : Caps) (i : Intact s.heap child)
    → height i < fuel
    → alive_from fuel ident child s ≡ (true, s)
alive_from-Intact zero ident child s i enough = absurd (omega arith)
alive_from-Intact (suc fuel) ident child s (origin _ e) enough =
    alive_from-root fuel ident child s e
alive_from-Intact (suc fuel) ident child s (derived _ ne m same i) enough =
    alive_from-step fuel ident child s ne m same
    ∙ alive_from-Intact fuel ident (s.heap child).parent s i (omega arith)

-- What it is to be alive, with no walk.
pub record Living (h : ℕ → CapIdentity) (ident : ℕ) : Type 0 where
  pub address : ident ≢ 0
  pub marked : (h ident).magic ≡ cap_ident_magic
  pub current : (h ident).revocation_epoch ≡ 0
  pub lineage : Intact h ident

pub cap_identity_is_alive-true :
    (fuel ident : ℕ) (s : Caps)
    → (cap_identity_is_alive fuel ident s).0 ≡ true
    → Living s.heap ident × (cap_identity_is_alive fuel ident s ≡ (true, s))
unfolding cap_identity_is_alive
cap_identity_is_alive-true fuel ident s h = elim (Bool-cases (cap_identity_is_valid ident s)) [
  | inl v ↦ elim (Bool-cases ((s.heap ident).revocation_epoch == 0)) [
    | inl e ↦
        let step : cap_identity_is_alive fuel ident s ≡ alive_from fuel ident ident s =
          rw (v, e) refl in
        let walk = alive_from-true fuel ident ident s (sym (ap (λ r. r.0) step) ∙ h) in
        let ok = valid-magic ident s v in
        (
          record { address = ok.0; marked = ok.1; current = ==→eq _ 0 e; lineage = walk.0 },
          step ∙ walk.1,
        )
    | inr e ↦ clash _ h (rw (v, e) refl)
  ]
  | inr v ↦ clash _ h (rw v refl)
]

pub Living-alive :
    (fuel ident : ℕ) (s : Caps) (living : Living s.heap ident)
    → height living.lineage < fuel
    → cap_identity_is_alive fuel ident s ≡ (true, s)
unfolding cap_identity_is_alive
Living-alive fuel ident s living enough =
    let v = magic-valid ident s living.address living.marked in
    let e : ((s.heap ident).revocation_epoch == 0) ≡ true = eq→== _ 0 living.current in
    rw (v, e) (alive_from-Intact fuel ident ident s living.lineage enough)

-- Where lineages run in no circle, with more fuel than the rank, exactly the identities are alive
-- that have an address, carry the magic, are not revoked, and whose every ancestor carries the
-- magic and the epoch in which the link to it was made.
pub cap_identity_is_alive-Living :
    (rank : ℕ → ℕ) (fuel ident : ℕ) (s : Caps)
    → Ranked s.heap rank
    → rank ident < fuel
    → ((cap_identity_is_alive fuel ident s).0 ≡ true) ↔ Living s.heap ident
cap_identity_is_alive-Living rank fuel ident s ranked enough = (
  λ h. (cap_identity_is_alive-true fuel ident s h).0,
  λ living.
      let low = height-Ranked rank living.lineage ranked in
      ap (λ r. r.0) (Living-alive fuel ident s living (omega arith)),
)
