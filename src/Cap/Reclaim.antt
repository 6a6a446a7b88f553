-- ===== src/Cap/Reclaim.antt =====
-- How references end: what a deletion undoes, and that the reclaiming of parents comes to an end.
use reaper_operating_system.Base.{
  ℕ, zero, suc, ◌+◌, ◌<◌, ◌≡◌, refl, sym, ap, ◌∙◌, ◌≢◌, ◌⊎◌, inl, inr, true, false, not, ◌||◌, List,
  [], ◌∷◌, leb, ◌==◌, arith, Bool-cases, ==→eq, ne→==, lt→leb, get_or-set_self, clash, write,
  write_self, set, get_or, length,
}
use reaper_operating_system.Base.Word.{u32}
use reaper_operating_system.Cap.{
  CapIdentity, zero_identity, Caps, cap_metric_inc, cnode_slots, delete_ok, insert_ok, store,
  cap_identity_is_valid,
}
use reaper_operating_system.Cap.Slots.{
  slot, set_slot, cap_insert, skip_forward, skip_back, cap_unlink_from_parent, free_object, release,
  cap_identity_free, drop_reference, cap_delete,
}
use reaper_operating_system.Cap.Mint.{cap_insert-done, in_bounds}
use reaper_operating_system.Cap.Alive.{Ranked, valid-magic}

-- Where the parents differ, there is none any more.
Cut : (h h' : ℕ → CapIdentity) → Type 0
Cut h h' = (y : ℕ) → ((h' y).parent ≡ 0) ⊎ ((h' y).parent ≡ (h y).parent)

Cut-Ranked : (rank : ℕ → ℕ) (h h' : ℕ → CapIdentity) → Cut h h' → Ranked h rank → Ranked h' rank
unfolding Cut
Cut-Ranked rank h h' cut ranked a up = elim (cut a) [
  | inl e ↦ absurd (up e)
  | inr e ↦ let low = ranked a (λ z. up (e ∙ z)) in let same = ap rank e in omega (arith, low, same)
]

-- a write that keeps the parent
keep :
    (h : ℕ → CapIdentity) (a y : ℕ) (v : CapIdentity)
    → v.parent ≡ (h a).parent
    → (write h a v y).parent ≡ (h y).parent
keep h a y v same = elim (Bool-cases (a == y)) [
  | inl e ↦ rw e (same ∙ ap (λ x. (h x).parent) (==→eq a y e))
  | inr e ↦ rw e refl
]

skip_forward-parent :
    (ident y : ℕ) (h : ℕ → CapIdentity) → (skip_forward ident h y).parent ≡ (h y).parent
unfolding skip_forward
skip_forward-parent ident y h = elim (Bool-cases ((h ident).prev_sibling == 0)) [
  | inl e ↦ rw e (keep h (h ident).parent y _ refl)
  | inr e ↦ rw e (keep h (h ident).prev_sibling y _ refl)
]

skip_back-parent : (ident y : ℕ) (h : ℕ → CapIdentity) → (skip_back ident h y).parent ≡ (h y).parent
unfolding skip_back
skip_back-parent ident y h = elim (Bool-cases ((h ident).next_sibling == 0)) [
  | inl e ↦ rw e refl
  | inr e ↦ rw e (keep h (h ident).next_sibling y _ refl)
]

-- a write of an identity with no parent
cut_off :
    (h : ℕ → CapIdentity) (a y : ℕ) (v : CapIdentity)
    → v.parent ≡ 0
    → ((write h a v y).parent ≡ 0) ⊎ ((write h a v y).parent ≡ (h y).parent)
cut_off h a y v none = elim (Bool-cases (a == y)) [
  | inl e ↦ inl (rw e none)
  | inr e ↦ inr (rw e refl)
]

unlink-Cut : (ident : ℕ) (h : ℕ → CapIdentity) → Cut h (cap_unlink_from_parent ident h)
unfolding Cut cap_unlink_from_parent
unlink-Cut ident h y =
    let skipped = skip_back ident (skip_forward ident h) in
    let same : (skipped y).parent ≡ (h y).parent =
      skip_back-parent ident y (skip_forward ident h) ∙ skip_forward-parent ident y h in
    elim (Bool-cases ((h ident).parent == 0)) [
      | inl e ↦ rw e (inr refl)
      | inr e ↦
          rw e (elim (cut_off skipped ident y _ refl) [ inl z ↦ inl z | inr z ↦ inr (z ∙ same) ])
    ]

unlink_step :
    (ident y : ℕ) (h : ℕ → CapIdentity)
    → ((cap_unlink_from_parent ident h y).parent ≡ 0)
      ⊎ ((cap_unlink_from_parent ident h y).parent ≡ (h y).parent)
unfolding Cut
unlink_step ident y h = unlink-Cut ident h y

free_object-heap : (i : CapIdentity) (s : Caps) → (free_object i s).heap ≡ s.heap
unfolding free_object
free_object-heap i s = ground arith

release-Cut : (ident : ℕ) (s : Caps) → Cut s.heap (release ident s).heap
unfolding Cut release cap_metric_inc
release-Cut ident s y =
    let bare = (free_object (s.heap ident) s).heap in
    let same : (bare y).parent ≡ (s.heap y).parent =
      ap (λ h. (h y).parent) (free_object-heap (s.heap ident) s) in
    let unlinked = cap_unlink_from_parent ident bare in
    elim (cut_off unlinked ident y zero_identity refl) [
      | inl z ↦ inl z
      | inr z ↦ elim (unlink_step ident y bare) [ inl n ↦ inl (z ∙ n) | inr n ↦ inr (z ∙ n ∙ same) ]
    ]

-- `cap_identity_free` with one more fuel, for two amounts of it
free_more :
    (fuel fuel' ident : ℕ) (s : Caps)
    → ((s.heap ident).parent ≢ 0
        → cap_identity_free fuel (s.heap ident).parent (release ident s)
          ≡ cap_identity_free fuel' (s.heap ident).parent (release ident s))
    → cap_identity_free (suc fuel) ident s ≡ cap_identity_free (suc fuel') ident s
unfolding cap_identity_free
free_more fuel fuel' ident s above =
    let parent = (s.heap ident).parent in
    let freed = release ident s in
    elim (Bool-cases (cap_identity_is_valid ident s)) [
      | inr v ↦ rw v refl
      | inl v ↦ elim (Bool-cases (cap_identity_is_valid parent freed)) [
        | inr w ↦ rw (v, w) refl
        | inl w ↦ let rest = above (valid-magic parent freed w).0 in rw (v, w, rest) refl
      ]
    ]

-- Where lineages run in no circle, the reclaiming of an identity and of the parents that nothing
-- refers to any more ends within its rank: more fuel gives the same result.
pub cap_identity_free-ends :
    (rank : ℕ → ℕ) (fuel fuel' ident : ℕ) (s : Caps)
    → Ranked s.heap rank
    → rank ident < fuel
    → rank ident < fuel'
    → cap_identity_free fuel ident s ≡ cap_identity_free fuel' ident s
cap_identity_free-ends rank zero fuel' ident s ranked a b = absurd (omega arith)
cap_identity_free-ends rank (suc fuel) zero ident s ranked a b = absurd (omega arith)
cap_identity_free-ends rank (suc fuel) (suc fuel') ident s ranked a b =
    free_more fuel fuel' ident s (λ up.
      let low = ranked ident up in
      cap_identity_free-ends rank fuel fuel' (s.heap ident).parent (release ident s)
        (Cut-Ranked rank s.heap (release ident s).heap (release-Cut ident s) ranked) (omega arith)
        (omega arith))

insert_empty :
    (root cptr ident : ℕ) (s : Caps)
    → (cap_insert root cptr ident s).0 ≡ true
    → slot root cptr s ≡ 0
unfolding cap_insert
insert_empty root cptr ident s h =
    elim (Bool-cases ((root == 0) || leb cnode_slots cptr || not (cap_identity_is_valid ident s))) [
      | inl e ↦ clash _ h (rw e refl)
      | inr e ↦ elim (Bool-cases (slot root cptr s == 0)) [
        | inl o ↦ ==→eq _ 0 o
        | inr o ↦ clash _ h (rw (e, o) refl)
      ]
    ]

-- a slot that was empty is put back
set_back : (xs : List ℕ) (i v : ℕ) → get_or xs i 0 ≡ 0 → set (set xs i v) i 0 ≡ xs
set_back [] i v e = refl
set_back (x ∷ xs) zero v e = ap (λ y. y ∷ xs) (sym e)
set_back (x ∷ xs) (suc i) v e = ap (λ ys. x ∷ ys) (set_back xs i v e)

-- a write that is undone
write_back :
    {A : Type 0} (h : ℕ → A) (a y : ℕ) (v w : A) → w ≡ h a → write (write h a v) a w y ≡ h y
write_back h a y v w e = elim (Bool-cases (a == y)) [
  | inl t ↦ rw t (e ∙ ap h (==→eq a y t))
  | inr t ↦ rw t refl
]

dropped :
    (fuel ident : ℕ) (s : Caps)
    → ((s.heap ident).ref_count == 1) ≡ false
    → drop_reference fuel ident s
      ≡ cap_metric_inc delete_ok (
          store ident
            (record (s.heap ident) { ref_count = u32 ((s.heap ident).ref_count + 4294967295) })
            s)
unfolding drop_reference
dropped fuel ident s shared = rw shared refl

deleted :
    (fuel root cptr : ℕ) (s : Caps)
    → ((root == 0) || leb cnode_slots cptr) ≡ false
    → slot root cptr s ≢ 0
    → cap_delete fuel root cptr s ≡ drop_reference fuel (slot root cptr s) (set_slot root cptr 0 s)
unfolding cap_delete
deleted fuel root cptr s bounds ne = let e = ne→== _ 0 ne in rw (bounds, e) refl

out_of :
    (root cptr : ℕ)
    → (root ≢ 0) × (cptr < cnode_slots)
    → ((root == 0) || leb cnode_slots cptr) ≡ false
out_of root cptr b =
    let e = ne→== root 0 b.0 in let l = lt→leb cnode_slots cptr b.1 in rw (e, l) refl

valid_in :
    (root cptr ident : ℕ) (s : Caps)
    → ((root == 0) || leb cnode_slots cptr || not (cap_identity_is_valid ident s)) ≡ false
    → ident ≢ 0
unfolding cap_identity_is_valid
valid_in root cptr ident s e = ground arith

-- In a node of 128 slots, the deletion of a slot into which an identity was just inserted that
-- other slots name already, with a reference count that does not overflow, puts every identity and
-- every node back as it was and frees nothing.
pub cap_delete-cap_insert :
    (fuel root cptr ident : ℕ) (s : Caps)
    → length (s.cnodes root) ≡ cnode_slots
    → 0 < (s.heap ident).ref_count
    → (s.heap ident).ref_count < 4294967295
    → (cap_insert root cptr ident s).0 ≡ true
    → let s' = cap_delete fuel root cptr (cap_insert root cptr ident s).1 in
      ((y : ℕ) → s'.heap y ≡ s.heap y)
      × ((n : ℕ) → s'.cnodes n ≡ s.cnodes n)
      × (s'.effects ≡ s.effects)
unfolding cap_metric_inc
cap_delete-cap_insert fuel root cptr ident s full used small h =
    let done = cap_insert-done root cptr ident s h in
    let i = s.heap ident in
    let bounds = in_bounds root cptr _ done.0 in
    let held : CapIdentity = record i { ref_count = u32 (i.ref_count + 1) } in
    let t = cap_metric_inc insert_ok (store ident held (set_slot root cptr ident s)) in
    let cells = set (s.cnodes root) cptr ident in
    let row : t.cnodes root ≡ cells = write_self s.cnodes root cells in
    let at : slot root cptr t ≡ ident =
      ap (λ xs. get_or xs cptr 0) row
      ∙ get_or-set_self (s.cnodes root) cptr ident 0 (omega arith) in
    let counted : t.heap ident ≡ held = write_self s.heap ident held in
    let many : ((t.heap ident).ref_count == 1) ≡ false =
      ne→== _ 1 (λ z. let m = ap (λ j. j.ref_count) counted in omega arith) in
    let step =
      ap (λ r. cap_delete fuel root cptr r.1) done.1
      ∙ deleted fuel root cptr t (out_of root cptr bounds)
          (λ z. (valid_in root cptr ident s done.0) (sym at ∙ z))
      ∙ ap (λ x. drop_reference fuel x (set_slot root cptr 0 t)) at
      ∙ dropped fuel ident (set_slot root cptr 0 t) many in
    let recount : CapIdentity → CapIdentity =
      λ j. record j { ref_count = u32 (j.ref_count + 4294967295) } in
    let renumber : ℕ → CapIdentity = λ m. record i { ref_count = m } in
    let back : u32 (u32 (i.ref_count + 1) + 4294967295) ≡ i.ref_count = omega arith in
    let same : recount (t.heap ident) ≡ i = ap recount counted ∙ ap renumber back in
    let emptied : set (t.cnodes root) cptr 0 ≡ s.cnodes root =
      ap (λ xs. set xs cptr 0) row
      ∙ set_back (s.cnodes root) cptr ident (insert_empty root cptr ident s h) in
    (
      λ y. ap (λ r. r.heap y) step ∙ write_back s.heap ident y held _ same,
      λ n. ap (λ r. r.cnodes n) step ∙ write_back s.cnodes root n cells _ emptied,
      ap (λ r. r.effects) step,
    )
