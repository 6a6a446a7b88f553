-- ===== src/Pmm/Cycle.antt =====
-- A block that is taken and given back.
use reaper_operating_system.Base.{ℕ, ◌*◌, ◌^◌, ◌≤◌, ◌<◌, ◌≡◌, sym, ◌∙◌, ◌⊎◌, inl, inr, List, arith}
use reaper_operating_system.Contract.{page_size}
use reaper_operating_system.Pmm.{Pmm, pmm_buddy_max_order, pmm_zone_any, bitmap_test}
use reaper_operating_system.Pmm.Blocks.{zones_to_try, pmm_buddy_alloc_block, pmm_buddy_free_block}
use reaper_operating_system.Pmm.Split.{range-cases}
use reaper_operating_system.Pmm.Sound.{Full, Taken}
use reaper_operating_system.Pmm.Alloc.{Exhausted, pmm_buddy_alloc_block-Taken}
use reaper_operating_system.Pmm.Release.{pmm_buddy_free_block-Given}

-- the free lists hold as much as before, and each frame is as free as before
pub record Restored (s s' : Pmm) (lists' : ℕ → List ℕ) (home' : ℕ → ℕ) : Type 0 where
  pub full : Full s' lists' home'
  pub bits : (z : ℕ) → bitmap_test z s'.bitmap ≡ bitmap_test z s.bitmap
  pub free : s'.free_frames ≡ s.free_frames

restore :
    (s t : Pmm) (lists' : ℕ → List ℕ) (home' : ℕ → ℕ) (x order : ℕ)
    → order ≤ pmm_buddy_max_order
    → s.free_frames < 18446744073709551616
    → Taken s t lists' home' x (2 ^ order)
    → (lists'' : ℕ → List ℕ) × (home'' : ℕ → ℕ) × Restored s
        (pmm_buddy_free_block x order t)
        lists''
        home''
restore s t lists' home' x order ho small taken =
    let fewer = taken.fewer in
    let total = taken.total in
    let inside = taken.inside in
    let given =
      pmm_buddy_free_block-Given x order t lists' home' ho taken.full taken.apart (omega arith)
        (omega arith) in
    let g = given.2 in
    let more = g.more in
    (
      given.0,
      given.1,
      record {
        full = g.full;
        bits = λ z. elim (range-cases x (2 ^ order) z) [
          | inl within ↦ g.clear z within.0 within.1 ∙ sym (taken.was_free z within.0 within.1)
          | inr out ↦ g.others z out ∙ taken.others z out
        ];
        free = omega arith;
      },
    )

-- With sound free lists that hold all free frames, an allocation of a possible order finds no
-- block in its zones, or the release of the block it gives puts every frame's mark and the count
-- of free frames back as they were, with sound lists that hold all free frames.
pub pmm_buddy_free_block-pmm_buddy_alloc_block :
    (order preferred_zone : ℕ) (s : Pmm) (lists : ℕ → List ℕ) (home : ℕ → ℕ)
    → order ≤ pmm_buddy_max_order
    → preferred_zone ≤ pmm_zone_any
    → Full s lists home
    → Exhausted lists order (zones_to_try preferred_zone)
      ⊎ ((x : ℕ) × (lists' : ℕ → List ℕ) × (home' : ℕ → ℕ) × ((pmm_buddy_alloc_block order
              preferred_zone s).0
            ≡ x * page_size)
          × Restored s
              (pmm_buddy_free_block x order (pmm_buddy_alloc_block order preferred_zone s).1)
              lists'
              home')
pmm_buddy_free_block-pmm_buddy_alloc_block order preferred_zone s lists home ho hz full =
    elim (pmm_buddy_alloc_block-Taken order preferred_zone s lists home ho hz full) [
      | inl stop ↦ inl stop.1
      | inr found ↦
          let t = (pmm_buddy_alloc_block order preferred_zone s).1 in
          let back = restore s t found.1 found.2 found.0 order ho full.small found.4 in
          inr (found.0, back.0, back.1, found.3, back.2)
    ]
