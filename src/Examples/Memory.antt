-- ===== src/Examples/Memory.antt =====
-- Sixteen frames, all in use, of which a block of eight is released and a block of two is allocated.
use reaper_operating_system.Base.{
  ℕ, ◌+◌, ◌*◌, ◌/◌, ◌^◌, ◌≤◌, ◌<◌, ◌≡◌, refl, ◌≢◌, ◌⊎◌, true, false, List, [], arith,
}
use reaper_operating_system.Pmm.{
  Pmm, pmm_stack_end, pmm_zone_any, pmm_trust_unverified, color_secure, bitmap_set, bitmap_clear,
  bitmap_test, mark_frame, mark_frames, pmm_set_block_bitmap, pmm_buddy_push, pmm_buddy_pop,
  pmm_zone_from_phys, pmm_zone_limit_frame, pmm_block_is_head, pmm_block_fits_zone,
}
use reaper_operating_system.Pmm.Blocks.{
  split_block, take_block, alloc_from_orders, alloc_from_zones, zones_to_try, pmm_buddy_alloc_block,
  bypass, unlink_block, remove_from, pmm_buddy_remove, mergeable, merge_block, pmm_buddy_free_block,
}
use reaper_operating_system.Pmm.Frames.{
  Policy, pmm_needs_temporal_scour, erase_frame, claimed, claim_frames, pmm_alloc_ex, pmm_alloc,
  wipe_frame, returned, return_frames, pmm_free_ex, pmm_free,
}
use reaper_operating_system.Base.{Apart}
use reaper_operating_system.Pmm.Count.{frames_held, list_count}
use reaper_operating_system.Pmm.Sound.{Full, Taken}
use reaper_operating_system.Pmm.Alloc.{Exhausted, pmm_buddy_alloc_block-Taken}
use reaper_operating_system.Pmm.Removal.{Removed, pmm_buddy_remove-Removed}
use reaper_operating_system.Pmm.Release.{Given, pmm_buddy_free_block-Given}
use reaper_operating_system.Pmm.Cycle.{Restored, pmm_buddy_free_block-pmm_buddy_alloc_block}
use reaper_operating_system.Pmm.Claim.{Owned, erased, pmm_alloc_ex-Owned}

abbrev in_use : Pmm
in_use = record {
  bitmap = λ i. 255;
  metadata = λ i. record {
    owner_token = 9;
    color = color_secure;
    state = 0;
    flags = 0;
    epoch = 1;
    next_free_idx = pmm_stack_end;
  };
  buddy_free_heads = λ k. pmm_stack_end;
  total_frames = 16;
  free_frames = 0;
  law9_temporal_scour_count = 0;
  law9_same_epoch_zero_count = 0;
  effects = [];
}

in_use-Full : Full in_use (λ k. []) (λ x. 0)
in_use-Full = record {
  sound = record {
    chains = λ k. refl;
    homed = λ k. tt;
    distinct = λ k. tt;
    ordered = λ b c k j hb hc lt. absurd (omega arith);
    bounded = λ b k hb. absurd (omega arith);
    unmarked = λ b k y hb low high. absurd (omega arith);
    small = omega arith;
  };
  counted = refl;
  small = omega arith;
}

abbrev released : Pmm
released = pmm_buddy_free_block 8 3 in_use

pmm_buddy_free_block-Given_example :
    (lists' : ℕ → List ℕ) × (home' : ℕ → ℕ) × Given in_use released lists' home' 8 (2 ^ 3)
pmm_buddy_free_block-Given_example =
    pmm_buddy_free_block-Given 8 3 in_use (λ k. []) (λ x. 0) (omega arith) in_use-Full
      (λ b k hb. absurd (omega arith)) (omega arith) (omega arith)

-- the free lists of that state
released-Full : (lists : ℕ → List ℕ) × (home : ℕ → ℕ) × Full released lists home
released-Full =
    let given =
      pmm_buddy_free_block-Given 8 3 in_use (λ k. []) (λ x. 0) (omega arith) in_use-Full
        (λ b k hb. absurd (omega arith)) (omega arith) (omega arith) in
    (given.0, given.1, given.2.full)

pmm_buddy_alloc_block-Taken_example :
    ((pmm_buddy_alloc_block 1 3 released ≡ (0, released))
      × Exhausted released-Full.0 1 (zones_to_try 3))
    ⊎ ((x : ℕ) × (lists' : ℕ → List ℕ) × (home' : ℕ → ℕ) × ((pmm_buddy_alloc_block 1 3 released).0
          ≡ x * 4096)
        × Taken released (pmm_buddy_alloc_block 1 3 released).1 lists' home' x 2)
pmm_buddy_alloc_block-Taken_example =
    pmm_buddy_alloc_block-Taken 1 3 released released-Full.0 released-Full.1 (omega arith)
      (omega arith) released-Full.2

pmm_buddy_free_block-pmm_buddy_alloc_block_example :
    Exhausted released-Full.0 1 (zones_to_try 3)
    ⊎ ((x : ℕ) × (lists' : ℕ → List ℕ) × (home' : ℕ → ℕ) × ((pmm_buddy_alloc_block 1 3 released).0
          ≡ x * 4096)
        × Restored released
            (pmm_buddy_free_block x 1 (pmm_buddy_alloc_block 1 3 released).1)
            lists'
            home')
pmm_buddy_free_block-pmm_buddy_alloc_block_example =
    pmm_buddy_free_block-pmm_buddy_alloc_block 1 3 released released-Full.0 released-Full.1
      (omega arith) (omega arith) released-Full.2

pmm_buddy_remove-Removed_example :
    ((pmm_buddy_remove 0 3 8 released ≡ (false, released))
      × (frames_held list_count released-Full.0 ≤ released.free_frames
          → Apart 8 (released-Full.0 3)))
    ⊎ ((s' : Pmm) × (lists' : ℕ → List ℕ) × (pmm_buddy_remove 0 3 8 released ≡ (true, s'))
        × Removed released s' released-Full.0 lists' released-Full.1 3 8)
pmm_buddy_remove-Removed_example =
    pmm_buddy_remove-Removed 0 3 8 released released-Full.0 released-Full.1 (omega arith)
      (omega arith) released-Full.2.sound

abbrev policy : Policy
policy = record {
  color = color_secure;
  owner_token = 77;
  preferred_zone = pmm_zone_any;
  trust_level = 0;
  order = 1;
}

-- the block of two is cut from the lower end of the block of eight
allocated : (pmm_alloc_ex 4 policy released).0 ≡ 32768
unfolding pmm_alloc_ex pmm_buddy_alloc_block alloc_from_zones alloc_from_orders pmm_buddy_pop
    pmm_buddy_free_block pmm_zone_from_phys merge_block mergeable pmm_block_fits_zone
    pmm_zone_limit_frame pmm_block_is_head pmm_set_block_bitmap mark_frames mark_frame
    pmm_buddy_push
allocated = refl

pmm_alloc_ex-Owned_example :
    let phys = (pmm_alloc_ex 4 policy released).0 in
    let s' = (pmm_alloc_ex 4 policy released).1 in
    (1 ≤ 10)
    × (0 ≢ pmm_trust_unverified)
    × (phys ≡ (pmm_buddy_alloc_block 1 3 released).0)
    × ((j : ℕ)
        → j < 2 ^ 1
        → Owned policy 4 (s'.metadata (phys / 4096 + j))
          × (erased (phys + j * 4096) s'.effects ≡ true))
pmm_alloc_ex-Owned_example =
    pmm_alloc_ex-Owned 4 policy released (λ e. absurd (omega (arith, allocated, e)))

-- A frame that is freed twice is handed out twice.
abbrev freed_twice : Pmm
freed_twice = pmm_free 4 32768 (pmm_free 4 32768 in_use)

handed_out_twice :
    ((pmm_alloc 4 2 1 freed_twice).0 ≡ 32768)
    × ((pmm_alloc 4 2 2 (pmm_alloc 4 2 1 freed_twice).1).0 ≡ 32768)
unfolding pmm_alloc pmm_alloc_ex pmm_buddy_alloc_block alloc_from_zones alloc_from_orders
    pmm_buddy_pop split_block take_block claim_frames claimed erase_frame pmm_needs_temporal_scour
    pmm_free pmm_free_ex return_frames returned wipe_frame pmm_buddy_free_block pmm_zone_from_phys
    merge_block mergeable pmm_block_fits_zone pmm_zone_limit_frame pmm_block_is_head
    pmm_set_block_bitmap mark_frames mark_frame pmm_buddy_push bitmap_test bitmap_set bitmap_clear
    pmm_buddy_remove remove_from unlink_block bypass
handed_out_twice = (refl, refl)
