-- ===== src/Cap/Spread.antt =====
-- How far a revocation reaches: all that was derived from an identity, and nothing else.
use mathlib.Core.Path.{subst}
use reaper_operating_system.Base.{
  ℕ, zero, suc, ◌+◌, ◌≤◌, ◌<◌, max, ◌≡◌, refl, sym, ap, ◌∙◌, ◌≢◌, inl, inr, Bool, true, false, ◌||◌,
  List, ◌==◌, arith, Bool-cases, ==→eq, ne→==, if◌then◌else◌,
}
use reaper_operating_system.Base.Word.{u64, u64_max}
use reaper_operating_system.Cap.{CapIdentity, Caps, Outside, cap_metric_inc, lookup_ok}
use reaper_operating_system.Cap.Slots.{slot, cap_lookup, set_epoch, next_epoch}
use reaper_operating_system.Cap.Revoke.{
  revoke_authority, revoke_one, revoke_children, cap_revoke_tree, cap_revoke,
}
use reaper_operating_system.Cap.Lookup.{cap_lookup-Usable, cap_lookup-revoked}

-- An identity's children: the first one with all below it, and its younger siblings.
pub data Family : Type 0 where
  leaf : Family
  member : (ident : ℕ) (children siblings : Family) → Family

-- From `first` the links of the store lead through this family.
abbrev pub Holds : (ℕ → CapIdentity) → (first : ℕ) → Family → Type 0
Holds h first leaf = first ≡ 0
Holds h first (member a children siblings) =
    (first ≡ a) × (a ≢ 0) × Holds h (h a).first_child children × Holds h (h a).next_sibling siblings

abbrev pub belongs : ℕ → Family → Bool
belongs y leaf = false
belongs y (member a children siblings) = (a == y) || belongs y children || belongs y siblings

abbrev pub depth_of : Family → ℕ
depth_of leaf = 0
depth_of (member a children siblings) = suc (max (depth_of children) (depth_of siblings))

-- the epoch of a revocation, or what was there
abbrev pub stamped : Bool → (epoch : ℕ) → CapIdentity → CapIdentity
stamped b epoch i = if b then record i { revocation_epoch = epoch } else i

-- The stores link the identities in the same way.
SameFamily : (h h' : ℕ → CapIdentity) → Type 0
SameFamily h h' =
    (y : ℕ) → ((h' y).first_child ≡ (h y).first_child) × ((h' y).next_sibling ≡ (h y).next_sibling)

Holds-SameFamily :
    (h h' : ℕ → CapIdentity) (first : ℕ) (t : Family)
    → SameFamily h h'
    → Holds h first t
    → Holds h' first t
unfolding SameFamily
Holds-SameFamily h h' first leaf same t = t
Holds-SameFamily h h' first (member a children siblings) same t = (
  t.0,
  t.1,
  subst (λ x. Holds h' x children) (sym (same a).0)
      (Holds-SameFamily h h' (h a).first_child children same t.2),
  subst (λ x. Holds h' x siblings) (sym (same a).1)
      (Holds-SameFamily h h' (h a).next_sibling siblings same t.3),
)

SameFamily-next :
    (h h' : ℕ → CapIdentity) → SameFamily h h' → (y : ℕ) → (h' y).next_sibling ≡ (h y).next_sibling
unfolding SameFamily
SameFamily-next h h' same y = (same y).1

stamped-links :
    (b : Bool) (epoch : ℕ) (i : CapIdentity)
    → ((stamped b epoch i).first_child ≡ i.first_child)
      × ((stamped b epoch i).next_sibling ≡ i.next_sibling)
stamped-links true epoch i = (refl, refl)
stamped-links false epoch i = (refl, refl)

-- A store in which some are stamped has the same links.
SameFamily-stamped :
    (p : ℕ → Bool) (epoch : ℕ) (h h' : ℕ → CapIdentity)
    → ((y : ℕ) → h' y ≡ stamped (p y) epoch (h y))
    → SameFamily h h'
unfolding SameFamily
SameFamily-stamped p epoch h h' e y =
    let links = stamped-links (p y) epoch (h y) in
    (ap (λ i. i.first_child) (e y) ∙ links.0, ap (λ i. i.next_sibling) (e y) ∙ links.1)

stamped_twice :
    (a b : Bool) (epoch : ℕ) (i : CapIdentity)
    → stamped a epoch (stamped b epoch i) ≡ stamped (b || a) epoch i
stamped_twice true true epoch i = refl
stamped_twice true false epoch i = refl
stamped_twice false true epoch i = refl
stamped_twice false false epoch i = refl

revoke_authority-heap : (ident : ℕ) (s : Caps) → (revoke_authority ident s).heap ≡ s.heap
unfolding revoke_authority
revoke_authority-heap ident s = ground arith

revoke_one-stamped :
    (ident epoch y : ℕ) (s : Caps)
    → (revoke_one ident epoch s).heap y ≡ stamped (ident == y) epoch (s.heap y)
unfolding revoke_one
revoke_one-stamped ident epoch y s =
    ap (λ h. h y) (revoke_authority-heap ident (set_epoch ident epoch s))
    ∙ elim (Bool-cases (ident == y)) [
      | inl e ↦ rw e (ap (λ x. record (s.heap x) { revocation_epoch = epoch }) (==→eq ident y e))
      | inr e ↦ rw e refl
    ]

stamped_order :
    (a b c : Bool) (epoch : ℕ) (i : CapIdentity)
    → stamped c epoch (stamped a epoch (stamped b epoch i)) ≡ stamped (a || b || c) epoch i
stamped_order true true c epoch i = stamped_twice c true epoch i
stamped_order true false c epoch i = stamped_twice c true epoch i
stamped_order false true c epoch i = stamped_twice c true epoch i
stamped_order false false c epoch i = refl

-- one pass of the loop
loop_step :
    (fuel a epoch : ℕ) (s : Caps)
    → a ≢ 0
    → (revoke_children (suc fuel) a epoch s) ≡ (
        let done = revoke_one a epoch (revoke_children fuel (s.heap a).first_child epoch s) in
        revoke_children fuel (done.heap a).next_sibling epoch done)
unfolding revoke_children
loop_step fuel a epoch s ne = let test = ne→== a 0 ne in rw test refl

loop_end : (fuel epoch : ℕ) (s : Caps) → revoke_children fuel 0 epoch s ≡ s
unfolding revoke_children
loop_end zero epoch s = refl
loop_end (suc fuel) epoch s = refl

-- Enough fuel for the depth of the family: the loop stamps the family, and no one else.
revoke_children-stamped :
    (fuel first epoch : ℕ) (s : Caps) (t : Family)
    → depth_of t ≤ fuel
    → Holds s.heap first t
    → (y : ℕ) → (revoke_children fuel first epoch s).heap y ≡ stamped (belongs y t) epoch (s.heap y)
revoke_children-stamped fuel first epoch s leaf enough t y =
    ap (λ x. (revoke_children fuel x epoch s).heap y) t ∙ ap (λ r. r.heap y) (loop_end fuel epoch s)
revoke_children-stamped zero first epoch s (member a children siblings) enough t y =
    absurd (omega arith)
revoke_children-stamped (suc fuel) first epoch s (member a children siblings) enough t y =
    let below = revoke_children fuel (s.heap a).first_child epoch s in
    let done = revoke_one a epoch below in
    let kids =
      revoke_children-stamped fuel (s.heap a).first_child epoch s children (omega arith) t.2 in
    let after : (x : ℕ) → done.heap x ≡ stamped (belongs x children || (a == x)) epoch (s.heap x) =
      λ x.
        revoke_one-stamped a epoch x below
        ∙ ap (stamped (a == x) epoch) (kids x)
        ∙ stamped_twice (a == x) (belongs x children) epoch (s.heap x) in
    let same =
      SameFamily-stamped (λ x. belongs x children || (a == x)) epoch s.heap done.heap after in
    let held =
      subst (λ x. Holds done.heap x siblings) (sym (SameFamily-next s.heap done.heap same a))
        (Holds-SameFamily s.heap done.heap (s.heap a).next_sibling siblings same t.3) in
    let rest =
      revoke_children-stamped fuel (done.heap a).next_sibling epoch done siblings (omega arith)
        held in
    ap (λ x. (revoke_children (suc fuel) x epoch s).heap y) t.0
    ∙ ap (λ r. r.heap y) (loop_step fuel a epoch s t.1)
    ∙ rest y
    ∙ ap (stamped (belongs y siblings) epoch)
        (revoke_one-stamped a epoch y below ∙ ap (stamped (a == y) epoch) (kids y))
    ∙ stamped_order (a == y) (belongs y children) (belongs y siblings) epoch (s.heap y)

cap_revoke_tree-stamped :
    (fuel root epoch : ℕ) (s : Caps) (t : Family)
    → root ≢ 0
    → depth_of t ≤ fuel
    → Holds s.heap (s.heap root).first_child t
    → (y : ℕ)
    → (cap_revoke_tree fuel root epoch s).heap y
      ≡ stamped (belongs y t || (root == y)) epoch (s.heap y)
unfolding cap_revoke_tree
cap_revoke_tree-stamped fuel root epoch s t ne enough held y =
    let test = ne→== root 0 ne in
    let below = revoke_children fuel (s.heap root).first_child epoch s in
    rw test (
      revoke_one-stamped root epoch y below
      ∙ ap (stamped (root == y) epoch)
          (revoke_children-stamped fuel (s.heap root).first_child epoch s t enough held y)
      ∙ stamped_twice (root == y) (belongs y t) epoch (s.heap y))

module _ (blake3 : List ℕ → List ℕ) where
  revoke_found :
      (out : Outside) (depth fuel root cptr : ℕ) (s : Caps)
      → (cap_lookup blake3 out depth root cptr s).0 ≢ 0
      → (cap_revoke blake3 out depth fuel root cptr s).heap
        ≡ (cap_revoke_tree fuel
            (slot root cptr s)
            (u64 (s.global_revocation_epoch + 1))
            (next_epoch (cap_metric_inc lookup_ok s)).1).heap
  unfolding cap_revoke cap_metric_inc
  revoke_found out depth fuel root cptr s h =
      let found = (cap_lookup-Usable blake3 out depth root cptr s h).1 in
      let ne : ((slot root cptr s) == 0) ≡ false = ne→== _ 0 (λ z. h (ap (λ r. r.0) found ∙ z)) in
      rw (found, ne) refl

  -- The revocation of a capability that a lookup finds, whose descendants are a given family, with
  -- enough fuel for its depth, writes the next epoch into that identity and each of its
  -- descendants, and leaves every other identity as it was.
  pub cap_revoke-stamped :
      (out : Outside) (depth fuel root cptr : ℕ) (s : Caps) (t : Family)
      → (cap_lookup blake3 out depth root cptr s).0 ≢ 0
      → Holds s.heap (s.heap (slot root cptr s)).first_child t
      → depth_of t ≤ fuel
      → (y : ℕ)
      → (cap_revoke blake3 out depth fuel root cptr s).heap y
        ≡ stamped
            (belongs y t || (slot root cptr s == y))
            (u64 (s.global_revocation_epoch + 1))
            (s.heap y)
  unfolding cap_metric_inc
  cap_revoke-stamped out depth fuel root cptr s t h held enough y =
      let found = cap_lookup-Usable blake3 out depth root cptr s h in
      let ne : slot root cptr s ≢ 0 = found.0.living.address in
      ap (λ g. g y) (revoke_found out depth fuel root cptr s h)
      ∙ cap_revoke_tree-stamped fuel (slot root cptr s) (u64 (s.global_revocation_epoch + 1))
          (next_epoch (cap_metric_inc lookup_ok s)).1 t ne enough held y

  -- After the revocation of a capability that a lookup finds, whose descendants are a given
  -- family, with enough fuel for its depth and no overflow of the epochs, no lookup, in any node,
  -- slot and mode, finds that identity or any of its descendants.
  pub cap_revoke-lookup :
      (out : Outside) (depth fuel root cptr : ℕ) (s : Caps) (t : Family)
      → (cap_lookup blake3 out depth root cptr s).0 ≢ 0
      → Holds s.heap (s.heap (slot root cptr s)).first_child t
      → depth_of t ≤ fuel
      → s.global_revocation_epoch < u64_max
      → (later : Outside) (depth' cn c : ℕ)
      → (belongs (slot cn c (cap_revoke blake3 out depth fuel root cptr s)) t
          || (slot root cptr s == slot cn c (cap_revoke blake3 out depth fuel root cptr s)))
        ≡ true
      → (cap_lookup blake3 later depth' cn c (cap_revoke blake3 out depth fuel root cptr s)).0 ≡ 0
  cap_revoke-lookup out depth fuel root cptr s t h held enough small later depth' cn c within =
      let after = cap_revoke blake3 out depth fuel root cptr s in
      let y = slot cn c after in
      let epoch = u64 (s.global_revocation_epoch + 1) in
      let marked = cap_revoke-stamped out depth fuel root cptr s t h held enough y in
      let dead : (after.heap y).revocation_epoch ≡ epoch =
        ap (λ i. i.revocation_epoch) (marked ∙ ap (λ b. stamped b epoch (s.heap y)) within) in
      let running : epoch ≢ 0 = λ z. omega arith in
      cap_lookup-revoked blake3 later depth' cn c after (λ z. running (sym dead ∙ z))
