-- ===== src/Pmm/Frames.antt =====
-- The calls of the allocator: frames are erased when they are handed out and when they come back.
use reaper_operating_system.Base.{
  ℕ, zero, suc, ◌+◌, ◌*◌, ◌/◌, Bool, true, false, not, ◌||◌, ◌∷◌, ltb, leb, ◌==◌, if◌then◌else◌,
  write,
}
use reaper_operating_system.Base.Word.{u8, u64}
use reaper_operating_system.Contract.{page_size}
use reaper_operating_system.Pmm.{
  Pmm, FrameMetadata, hyper_scrub, fast_zero, selective_cache_flush, pmm_buddy_max_order,
  color_void, color_secure, color_ghost, pmm_zone_any, pmm_trust_verified, pmm_trust_unverified,
  frame_state_free, pmm_block_pages, bitmap_test,
}
use reaper_operating_system.Pmm.Blocks.{pmm_buddy_alloc_block, pmm_buddy_free_block}

-- `pmm_alloc_policy_t`
pub record Policy : Type 0 where
  pub color : ℕ
  pub owner_token : ℕ
  pub preferred_zone : ℕ
  pub trust_level : ℕ
  pub order : ℕ

unfoldable pub pmm_needs_temporal_scour : (frame_epoch alloc_epoch : ℕ) → Bool
pmm_needs_temporal_scour frame_epoch alloc_epoch = not (frame_epoch == u8 alloc_epoch)

-- the erasure of a frame that is handed out
unfoldable pub erase_frame : (alloc_epoch idx phys : ℕ) → Pmm → Pmm
erase_frame alloc_epoch idx phys s =
    if pmm_needs_temporal_scour (s.metadata idx).epoch alloc_epoch
    then record s {
      law9_temporal_scour_count = u64 (s.law9_temporal_scour_count + 1);
      effects = hyper_scrub phys ∷ s.effects;
    }
    else record s {
      law9_same_epoch_zero_count = u64 (s.law9_same_epoch_zero_count + 1);
      effects = fast_zero phys ∷ s.effects;
    }

-- the metadata of a frame that is handed out; `first` is the first of its block
unfoldable pub claimed : Policy → (alloc_epoch : ℕ) (first : Bool) → FrameMetadata → FrameMetadata
claimed policy alloc_epoch first f = record {
  owner_token = policy.owner_token;
  color = u8 policy.color;
  state = 0;
  flags = if first then f.flags else 0;
  epoch = u8 alloc_epoch;
  next_free_idx = f.next_free_idx;
}

-- the loop of `pmm_alloc_ex` over the frames of the block at `phys`, from the `i`-th on
unfoldable pub claim_frames : Policy → (alloc_epoch phys left i : ℕ) → Pmm → Pmm
claim_frames policy alloc_epoch phys zero i s = s
claim_frames policy alloc_epoch phys (suc left) i s =
    let idx = phys / page_size + i in
    let erased = erase_frame alloc_epoch idx (phys + i * page_size) s in
    claim_frames policy alloc_epoch phys left (i + 1) (record erased {
      metadata =
          write erased.metadata idx (claimed policy alloc_epoch (i == 0) (erased.metadata idx));
    })

-- The address of the block, 0 where it is refused or there is none. The profile is the strict one.
unfoldable pub pmm_alloc_ex : (alloc_epoch : ℕ) → Policy → Pmm → ℕ × Pmm
pmm_alloc_ex alloc_epoch policy s =
    let block = pmm_buddy_alloc_block policy.order policy.preferred_zone s in
    if ltb pmm_buddy_max_order policy.order
    then (0, s)
    else if policy.trust_level == pmm_trust_unverified
    then (0, s)
    else if block.0 == 0
    then block
    else (block.0, claim_frames policy alloc_epoch block.0 (pmm_block_pages policy.order) 0 block.1)

unfoldable pub pmm_alloc : (alloc_epoch color owner : ℕ) → Pmm → ℕ × Pmm
pmm_alloc alloc_epoch color owner s =
    pmm_alloc_ex alloc_epoch
      (record {
        color = color;
        owner_token = owner;
        preferred_zone = pmm_zone_any;
        trust_level = pmm_trust_verified;
        order = 0;
      })
      s

-- the erasure of a frame that comes back: Secure and Ghost frames leave the caches as well
unfoldable pub wipe_frame : (idx phys : ℕ) → Pmm → Pmm
wipe_frame idx phys s =
    let color = (s.metadata idx).color in
    if (color == color_secure) || (color == color_ghost)
    then record s { effects = selective_cache_flush phys ∷ hyper_scrub phys ∷ s.effects }
    else record s { effects = fast_zero phys ∷ s.effects }

unfoldable pub returned : (free_epoch : ℕ) → FrameMetadata → FrameMetadata
returned free_epoch f = record f {
  owner_token = 0;
  color = color_void;
  state = frame_state_free;
  epoch = u8 free_epoch;
  flags = 0;
}

-- the loop of `pmm_free_ex`, from the `i`-th frame of the block at `phys` on
unfoldable pub return_frames : (free_epoch phys left i : ℕ) → Pmm → Pmm
return_frames free_epoch phys zero i s = s
return_frames free_epoch phys (suc left) i s =
    let idx = phys / page_size + i in
    let wiped = wipe_frame idx (phys + i * page_size) s in
    let rest = return_frames free_epoch phys left (i + 1) (record wiped {
      metadata = write wiped.metadata idx (returned free_epoch (wiped.metadata idx));
    }) in
    if leb s.total_frames idx then s else rest

unfoldable pub pmm_free_ex : (free_epoch phys order : ℕ) → Pmm → Pmm
pmm_free_ex free_epoch phys order s =
    let idx = phys / page_size in
    if leb s.total_frames idx
    then s
    else if ltb pmm_buddy_max_order order
    then s
    else pmm_buddy_free_block idx order (return_frames free_epoch phys (pmm_block_pages order) 0 s)

unfoldable pub pmm_free : (free_epoch phys : ℕ) → Pmm → Pmm
pmm_free free_epoch phys s = pmm_free_ex free_epoch phys 0 s

unfoldable pub pmm_transfer : (epoch phys new_owner new_color new_state : ℕ) → Pmm → Bool × Pmm
pmm_transfer epoch phys new_owner new_color new_state s =
    let idx = phys / page_size in
    if leb s.total_frames idx || not (bitmap_test idx s.bitmap) then (false, s) else (
      true,
      record s {
        metadata = write s.metadata idx (record (s.metadata idx) {
          owner_token = new_owner;
          color = u8 new_color;
          state = new_state;
          epoch = u8 epoch;
        });
      },
    )
