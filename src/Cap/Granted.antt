-- ===== src/Cap/Granted.antt =====
-- A minted capability is found where it was put: a mint changes no lineage but its child's.
use mathlib.Core.Path.{subst}
use reaper_operating_system.Base.{
  ℕ, suc, ◌+◌, ◌<◌, ◌≡◌, refl, sym, ap, ◌∙◌, ◌≢◌, inl, inr, true, List, ◌==◌, arith, Bool-cases,
  ==→eq, eq→==, ne→==, ==_refl, clash, if◌then◌else◌, write, write_ne, length, bit_and,
}
use reaper_operating_system.Cap.{CapIdentity, Caps, Outside, cnode_slots}
use reaper_operating_system.Cap.Slots.{slot, cap_lookup}
use reaper_operating_system.Cap.Derive.{link_before, link_child, cap_mint}
use reaper_operating_system.Cap.Alive.{Intact, origin, derived, Ranked, height-Ranked}
use reaper_operating_system.Cap.Lookup.{Usable, Usable-cap_lookup}
use reaper_operating_system.Cap.Mint.{newborn, born_in}
use reaper_operating_system.Cap.Attenuation.{cap_mint-Minted, cap_mint-Attenuated, born_in-child}

-- what a lineage is made of
abbrev pub line : CapIdentity → ℕ × ℕ × ℕ × ℕ
line i = (i.parent, i.parent_epoch_start, i.revocation_epoch, i.magic)

write-line :
    (h : ℕ → CapIdentity) (a x : ℕ) (v : CapIdentity)
    → line v ≡ line (h a)
    → line (write h a v x) ≡ line (h x)
write-line h a x v same = elim (Bool-cases (a == x)) [
  | inl e ↦ rw e (same ∙ ap (λ y. line (h y)) (==→eq a x e))
  | inr e ↦ rw e refl
]

link_before-line :
    (first child x : ℕ) (h : ℕ → CapIdentity) → line (link_before first child h x) ≡ line (h x)
unfolding link_before
link_before-line first child x h = elim (Bool-cases (first == 0)) [
  | inl e ↦ rw e refl
  | inr e ↦ rw e (write-line h first x _ refl)
]

link_child-line :
    (parent child x : ℕ) (h : ℕ → CapIdentity)
    → x ≢ child
    → line (link_child parent child h x) ≡ line (h x)
unfolding link_child
link_child-line parent child x h apart =
    let first = (h parent).first_child in
    let v : CapIdentity = record (h child) {
      parent = parent;
      parent_epoch_start = (h parent).revocation_epoch;
      next_sibling = first;
    } in
    let born = write h child v in
    write-line (link_before first child born) parent x _ refl
    ∙ link_before-line first child x born
    ∙ ap line (write_ne h child x v (λ e. apart (sym e)))

born_in-line :
    (root dst_cptr parent child x : ℕ) (i : CapIdentity) (s : Caps)
    → x ≢ child
    → line ((born_in root dst_cptr parent child i s).heap x) ≡ line (s.heap x)
born_in-line root dst_cptr parent child x i s apart =
    let made = write s.heap child i in
    ap line (write_ne (link_child parent child made) child x _ (λ e. apart (sym e)))
    ∙ link_child-line parent child x made apart
    ∙ ap line (write_ne s.heap child x i (λ e. apart (sym e)))

-- an intact lineage of others than `c` stays intact
Intact-line :
    (h h' : ℕ → CapIdentity) (c : ℕ)
    → ((x : ℕ) → x ≢ c → line (h' x) ≡ line (h x))
    → ((x : ℕ) → (h x).parent ≢ c)
    → (a : ℕ) → a ≢ c
    → Intact h a
    → Intact h' a
Intact-line h h' c same orphan _ ne (origin a e) = origin a (ap (λ l. l.0) (same a ne) ∙ e)
Intact-line h h' c same orphan _ ne (derived a up magic epoch i) =
    let p = (h a).parent in
    let e : (h' a).parent ≡ p = ap (λ l. l.0) (same a ne) in
    let above = same p (orphan a) in
    derived a (λ z. up (sym e ∙ z)) (ap (λ u. (h' u).magic) e ∙ ap (λ l. l.3) above ∙ magic)
      (ap (λ u. (h' u).revocation_epoch) e
        ∙ ap (λ l. l.2) above
        ∙ epoch
        ∙ sym (ap (λ l. l.1) (same a ne)))
      (subst (Intact h') (sym e) (Intact-line h h' c same orphan p (orphan a) i))

-- a rank that has a place for the child
abbrev rank_with : (ℕ → ℕ) → (parent child : ℕ) → ℕ → ℕ
rank_with rank parent child x = if child == x then suc (rank parent) else rank x

rank_with-ne :
    (rank : ℕ → ℕ) (parent child x : ℕ) → x ≢ child → rank_with rank parent child x ≡ rank x
rank_with-ne rank parent child x ne = let e = ne→== child x (λ z. ne (sym z)) in rw e refl

rank_with-child :
    (rank : ℕ → ℕ) (parent child : ℕ) → rank_with rank parent child child ≡ suc (rank parent)
rank_with-child rank parent child = let e = ==_refl child in rw e refl

Ranked-line :
    (rank : ℕ → ℕ) (h h' : ℕ → CapIdentity) (parent child : ℕ)
    → ((x : ℕ) → x ≢ child → line (h' x) ≡ line (h x))
    → ((x : ℕ) → (h x).parent ≢ child)
    → parent ≢ child
    → (h' child).parent ≡ parent
    → Ranked h rank
    → Ranked h' (rank_with rank parent child)
Ranked-line rank h h' parent child same orphan apart born ranked x up =
    elim (Bool-cases (x == child)) [
      | inl e ↦
          let at : x ≡ child = ==→eq x child e in
          let p : (h' x).parent ≡ parent = ap (λ y. (h' y).parent) at ∙ born in
          let a =
            ap (rank_with rank parent child) p ∙ rank_with-ne rank parent child parent apart in
          let b = ap (rank_with rank parent child) at ∙ rank_with-child rank parent child in
          omega (arith, a, b)
      | inr e ↦
          let ne : x ≢ child = λ z. clash _ (eq→== x child z) e in
          let p : (h' x).parent ≡ (h x).parent = ap (λ l. l.0) (same x ne) in
          let a =
            ap (rank_with rank parent child) p
            ∙ rank_with-ne rank parent child (h x).parent (orphan x) in
          let b = rank_with-ne rank parent child x ne in
          let low = ranked x (λ z. up (p ∙ z)) in omega (arith, a, b, low)
    ]

module _ (blake3 : List ℕ → List ℕ) (out : Outside) (fuel : ℕ) where
  -- In a node of 128 slots with lineages that run in no circle, and where the new address is
  -- nobody's parent, the source or its first child, a capability that was minted is found in its
  -- slot by every lookup, with enough fuel for its rank, in a mode that the parent and the request
  -- allow.
  pub cap_mint-cap_lookup :
      (root src_cptr dst_cptr new_rights badge modes : ℕ) (s : Caps) (rank : ℕ → ℕ)
      → length (s.cnodes root) ≡ cnode_slots
      → Ranked s.heap rank
      → ((x : ℕ) → (s.heap x).parent ≢ out.allocated)
      → slot root src_cptr s ≢ out.allocated
      → (s.heap (slot root src_cptr s)).first_child ≢ out.allocated
      → (cap_mint blake3 out fuel root src_cptr dst_cptr new_rights badge modes s).0 ≡ true
      → (later : Outside) (fuel' : ℕ) → rank (slot root src_cptr s) + 1 < fuel'
      → bit_and later.mode_mask (bit_and (s.heap (slot root src_cptr s)).allowed_modes modes) ≢ 0
      → (cap_lookup blake3 later fuel' root dst_cptr
          (cap_mint blake3 out fuel root src_cptr dst_cptr new_rights badge modes s).1).0
        ≡ out.allocated
  cap_mint-cap_lookup root src dst rights badge modes s rank full ranked orphan apart fresh h later
        fuel' enough allowed =
      let parent = slot root src s in
      let child = out.allocated in
      let p = s.heap parent in
      let i = newborn s p.object_ptr p.cap_type rights badge (bit_and p.allowed_modes modes) in
      let s' = (cap_mint blake3 out fuel root src dst rights badge modes s).1 in
      let m = cap_mint-Minted blake3 out fuel root src dst rights badge modes s h in
      let facts = m.0 in
      let made =
        cap_mint-Attenuated blake3 out fuel root src dst rights badge modes s full apart fresh h in
      let above = facts.source.living in
      let same : (x : ℕ) → x ≢ child → line (s'.heap x) ≡ line (s.heap x) =
        λ x ne. ap (λ g. line (g x)) m.1 ∙ born_in-line root dst parent child x i s ne in
      let up = Intact-line s.heap s'.heap child same orphan parent apart above.lineage in
      let up_line = same parent apart in
      let ranked' =
        Ranked-line rank s.heap s'.heap parent child same orphan apart made.lineage ranked in
      let e = made.lineage in
      let lineage : Intact s'.heap child =
        derived child (λ z. above.address (sym e ∙ z))
          (ap (λ u. (s'.heap u).magic) e ∙ ap (λ l. l.3) up_line ∙ above.marked)
          (ap (λ u. (s'.heap u).revocation_epoch) e ∙ ap (λ l. l.2) up_line ∙ sym made.epoch)
          (subst (Intact s'.heap) (sym e) up) in
      let usable : Usable later root dst s' child = record {
        node = facts.source.node;
        inside = facts.inside;
        named = made.held;
        living = record {
          address = facts.there;
          marked =
              ap (λ g. (g child).magic) m.1
              ∙ ap (λ j. j.magic) (born_in-child root dst parent child i s apart fresh refl);
          current = made.current;
          lineage = lineage;
        };
        modes = made.known_modes;
        here = λ z. allowed (sym (ap (bit_and later.mode_mask) made.restricted) ∙ z);
      } in
      let low = height-Ranked (rank_with rank parent child) lineage ranked' in
      let at = rank_with-child rank parent child in
      ap (λ r. r.0)
        (Usable-cap_lookup blake3 later fuel' root dst child s' usable (omega (arith, low, at)))
