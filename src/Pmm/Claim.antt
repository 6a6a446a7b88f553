-- ===== src/Pmm/Claim.antt =====
-- What `pmm_alloc_ex` does to the frames of a block: each is erased, and belongs to the new owner.
use mathlib.Core.Path.{subst}
use reaper_operating_system.Base.{
  ℕ, zero, suc, ◌+◌, ◌*◌, ◌/◌, ◌^◌, ◌≤◌, ◌<◌, ◌≡◌, refl, sym, ap, ◌∙◌, ◌≢◌, inl, inr, Bool, true,
  false, ◌||◌, List, [], ◌∷◌, ◌==◌, ltb, arith, Bool-cases, ==→eq, eq→==, ==_refl, clash, write,
  write_self, write_ne,
}
use reaper_operating_system.Base.Word.{u8}
use reaper_operating_system.Contract.{page_size}
use reaper_operating_system.Pmm.{
  Pmm, FrameMetadata, FrameEffect, hyper_scrub, fast_zero, selective_cache_flush,
  pmm_buddy_max_order, pmm_trust_unverified,
}
use reaper_operating_system.Pmm.Blocks.{pmm_buddy_alloc_block}
use reaper_operating_system.Pmm.Frames.{
  Policy, pmm_needs_temporal_scour, erase_frame, claimed, claim_frames, pmm_alloc_ex,
}

-- a frame was scrubbed or zeroed
abbrev pub erased : (phys : ℕ) → List FrameEffect → Bool
erased phys [] = false
erased phys (hyper_scrub p ∷ es) = (p == phys) || erased phys es
erased phys (fast_zero p ∷ es) = (p == phys) || erased phys es
erased phys (selective_cache_flush p ∷ es) = erased phys es

-- the frame is the new owner's
pub record Owned (policy : Policy) (alloc_epoch : ℕ) (f : FrameMetadata) : Type 0 where
  pub owner : f.owner_token ≡ policy.owner_token
  pub color : f.color ≡ u8 policy.color
  pub epoch : f.epoch ≡ u8 alloc_epoch
  pub state : f.state ≡ 0

erase_frame-erased :
    (alloc_epoch idx phys : ℕ) (s : Pmm)
    → erased phys (erase_frame alloc_epoch idx phys s).effects ≡ true
unfolding erase_frame
erase_frame-erased alloc_epoch idx phys s =
    let self = ==_refl phys in
    elim (Bool-cases (pmm_needs_temporal_scour (s.metadata idx).epoch alloc_epoch)) [
      | inl e ↦ rw (e, self) refl
      | inr e ↦ rw (e, self) refl
    ]

erase_frame-keeps :
    (alloc_epoch idx at phys : ℕ) (s : Pmm)
    → erased phys s.effects ≡ true
    → erased phys (erase_frame alloc_epoch idx at s).effects ≡ true
unfolding erase_frame
erase_frame-keeps alloc_epoch idx at phys s h =
    elim (Bool-cases (pmm_needs_temporal_scour (s.metadata idx).epoch alloc_epoch)) [
      | inl e ↦ rw e (ground (arith, h))
      | inr e ↦ rw e (ground (arith, h))
    ]

erase_frame-metadata :
    (alloc_epoch idx phys : ℕ) (s : Pmm)
    → (erase_frame alloc_epoch idx phys s).metadata ≡ s.metadata
unfolding erase_frame
erase_frame-metadata alloc_epoch idx phys s =
    elim (Bool-cases (pmm_needs_temporal_scour (s.metadata idx).epoch alloc_epoch)) [
      | inl e ↦ rw e refl
      | inr e ↦ rw e refl
    ]

claim_frames-keeps :
    (policy : Policy) (alloc_epoch phys left i at : ℕ) (s : Pmm)
    → erased at s.effects ≡ true
    → erased at (claim_frames policy alloc_epoch phys left i s).effects ≡ true
unfolding claim_frames
claim_frames-keeps policy alloc_epoch phys zero i at s h = h
claim_frames-keeps policy alloc_epoch phys (suc left) i at s h =
    let idx = phys / page_size + i in
    claim_frames-keeps policy alloc_epoch phys left (i + 1) at _
      (erase_frame-keeps alloc_epoch idx (phys + i * page_size) at s h)

claim_frames-below :
    (policy : Policy) (alloc_epoch phys left i y : ℕ) (s : Pmm)
    → y < phys / page_size + i
    → (claim_frames policy alloc_epoch phys left i s).metadata y ≡ s.metadata y
unfolding claim_frames
claim_frames-below policy alloc_epoch phys zero i y s h = refl
claim_frames-below policy alloc_epoch phys (suc left) i y s h =
    let idx = phys / page_size + i in
    claim_frames-below policy alloc_epoch phys left (i + 1) y _ (omega arith)
    ∙ write_ne (erase_frame alloc_epoch idx (phys + i * page_size) s).metadata idx y _
        (λ e. omega arith)
    ∙ ap (λ m. m y) (erase_frame-metadata alloc_epoch idx (phys + i * page_size) s)

claimed-Owned :
    (policy : Policy) (alloc_epoch : ℕ) (first : Bool) (f : FrameMetadata)
    → Owned policy alloc_epoch (claimed policy alloc_epoch first f)
unfolding claimed
claimed-Owned policy alloc_epoch first f = record {
  owner = refl;
  color = refl;
  epoch = refl;
  state = refl;
}

-- Each frame from the `i`-th on is erased and owned.
claim_frames-Owned :
    (policy : Policy) (alloc_epoch phys left i j : ℕ) (s : Pmm)
    → i ≤ j
    → j < i + left
    → Owned policy alloc_epoch
        ((claim_frames policy alloc_epoch phys left i s).metadata (phys / page_size + j))
      × (erased (phys + j * page_size) (claim_frames policy alloc_epoch phys left i s).effects
          ≡ true)
unfolding claim_frames
claim_frames-Owned policy alloc_epoch phys zero i j s low high = absurd (omega arith)
claim_frames-Owned policy alloc_epoch phys (suc left) i j s low high =
    let idx = phys / page_size + i in
    let t = erase_frame alloc_epoch idx (phys + i * page_size) s in
    let v = claimed policy alloc_epoch (i == 0) (t.metadata idx) in
    let u : Pmm = record t { metadata = write t.metadata idx v } in
    elim (Bool-cases (i == j)) [
      | inr e ↦
          let ne : i ≢ j = λ z. clash _ (eq→== i j z) e in
          claim_frames-Owned policy alloc_epoch phys left (i + 1) j u (omega arith) (omega arith)
      | inl e ↦
          let at : i ≡ j = ==→eq i j e in
          let kept =
            claim_frames-below policy alloc_epoch phys left (i + 1) idx u (omega arith)
            ∙ write_self t.metadata idx v in
          subst
            (λ k.
              Owned policy alloc_epoch (
                (claim_frames policy alloc_epoch phys left (i + 1) u).metadata
                  (phys / page_size + k))
              × (erased (phys + k * page_size)
                    (claim_frames policy alloc_epoch phys left (i + 1) u).effects
                  ≡ true))
            at
            ((
              subst (Owned policy alloc_epoch) (sym kept)
                  (claimed-Owned policy alloc_epoch (i == 0) (t.metadata idx)),
              claim_frames-keeps policy alloc_epoch phys left (i + 1) (phys + i * page_size) u
                  (erase_frame-erased alloc_epoch idx (phys + i * page_size) s),
            ))
    ]

granted :
    (alloc_epoch : ℕ) (policy : Policy) (s : Pmm)
    → (pmm_alloc_ex alloc_epoch policy s).0 ≢ 0
    → let block = pmm_buddy_alloc_block policy.order policy.preferred_zone s in
      (policy.order ≤ pmm_buddy_max_order)
      × (policy.trust_level ≢ pmm_trust_unverified)
      × (pmm_alloc_ex alloc_epoch policy s
          ≡ (block.0, claim_frames policy alloc_epoch block.0 (2 ^ policy.order) 0 block.1))
unfolding pmm_alloc_ex
granted alloc_epoch policy s h =
    let block = pmm_buddy_alloc_block policy.order policy.preferred_zone s in
    elim (Bool-cases (ltb pmm_buddy_max_order policy.order)) [
      | inl a ↦ absurd (h (rw a refl))
      | inr a ↦ elim (Bool-cases (policy.trust_level == pmm_trust_unverified)) [
        | inl b ↦ absurd (h (rw (a, b) refl))
        | inr b ↦ elim (Bool-cases (block.0 == 0)) [
          | inl c ↦ absurd (h (rw (a, b, c) (==→eq block.0 0 c)))
          | inr c ↦ (ground arith, (λ z. clash _ (eq→== _ _ z) b), rw (a, b, c) refl)
        ]
      ]
    ]

-- An allocation that gives an address was of a possible order and not for an unverified client,
-- and each frame of the block was scrubbed or zeroed, belongs to the owner and has the color that
-- the policy names, as a byte, and carries the current epoch.
pub pmm_alloc_ex-Owned :
    (alloc_epoch : ℕ) (policy : Policy) (s : Pmm)
    → (pmm_alloc_ex alloc_epoch policy s).0 ≢ 0
    → let phys = (pmm_alloc_ex alloc_epoch policy s).0 in
      let s' = (pmm_alloc_ex alloc_epoch policy s).1 in
      (policy.order ≤ pmm_buddy_max_order)
      × (policy.trust_level ≢ pmm_trust_unverified)
      × (phys ≡ (pmm_buddy_alloc_block policy.order policy.preferred_zone s).0)
      × ((j : ℕ)
          → j < 2 ^ policy.order
          → Owned policy alloc_epoch (s'.metadata (phys / page_size + j))
            × (erased (phys + j * page_size) s'.effects ≡ true))
pmm_alloc_ex-Owned alloc_epoch policy s h =
    let block = pmm_buddy_alloc_block policy.order policy.preferred_zone s in
    let g = granted alloc_epoch policy s h in
    (
      g.0,
      g.1,
      ap (λ r. r.0) g.2,
      λ j lt.
          subst
            (λ r.
              Owned policy alloc_epoch (r.1.metadata (r.0 / page_size + j))
              × (erased (r.0 + j * page_size) r.1.effects ≡ true))
            (sym g.2)
            (claim_frames-Owned policy alloc_epoch block.0 (2 ^ policy.order) 0 j block.1
              (omega arith) (omega arith)),
    )
