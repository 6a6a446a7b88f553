-- ===== src/Pmm.antt =====
-- Physical memory (kernel/pmm.c, kernel/include/pmm.h): a bitmap and a table of metadata over the
-- frames, and a buddy allocator with one free list for each zone and order. The bitmap and the table
-- are memory: functions from an index. What is done to the frames' contents is a list of effects.
pub mod Blocks
pub mod Frames
pub mod Boot
pub mod Fill
pub mod Init
pub mod Usable
pub mod Entries
pub mod Steps
pub mod Start
pub mod Booted
pub mod Marks
pub mod Lists
pub mod Count
pub mod Split
pub mod Sound
pub mod Alloc
pub mod Remove
pub mod Removal
pub mod Free
pub mod Release
pub mod Cycle
pub mod Claim
use reaper_operating_system.Base.{
  ℕ, zero, suc, ◌+◌, ◌-◌, ◌*◌, ◌/◌, ◌%◌, ◌^◌, bit_and, bit_or, Bool, true, false, not, List, [],
  ◌∷◌, ltb, leb, ◌==◌, if◌then◌else◌, write,
}
use reaper_operating_system.Base.Word.{u8, u32, u64}
use reaper_operating_system.Base.Bits.{has_flag, bit_not}
use reaper_operating_system.Contract.{page_size}

abbrev pub pmm_stack_end : ℕ
pmm_stack_end = 4294967295

abbrev pub pmm_dma_limit_bytes : ℕ
pmm_dma_limit_bytes = 16777216

abbrev pub pmm_high_limit_bytes : ℕ
pmm_high_limit_bytes = 4294967296

abbrev pub pmm_buddy_max_order : ℕ
pmm_buddy_max_order = 10

abbrev pub pmm_buddy_flag_head : ℕ
pmm_buddy_flag_head = 2 ^ 7

abbrev pub pmm_buddy_flag_order : ℕ
pmm_buddy_flag_order = 15

-- `security_color_t`
abbrev pub color_void : ℕ
color_void = 0

abbrev pub color_secure : ℕ
color_secure = 2

abbrev pub color_ghost : ℕ
color_ghost = 4

-- `pmm_zone_t`
abbrev pub pmm_zone_dma : ℕ
pmm_zone_dma = 0

abbrev pub pmm_zone_normal : ℕ
pmm_zone_normal = 1

abbrev pub pmm_zone_high : ℕ
pmm_zone_high = 2

abbrev pub pmm_zone_any : ℕ
pmm_zone_any = 3

abbrev pub pmm_trust_verified : ℕ
pmm_trust_verified = 0

abbrev pub pmm_trust_unverified : ℕ
pmm_trust_unverified = 1

abbrev pub frame_state_free : ℕ
frame_state_free = 1

-- `struct frame_metadata`
pub record FrameMetadata : Type 0 where
  pub owner_token : ℕ
  pub color : ℕ
  pub state : ℕ
  pub flags : ℕ
  pub epoch : ℕ
  pub next_free_idx : ℕ

-- what is done to the contents of a frame at an address
pub data FrameEffect : Type 0 where
  hyper_scrub fast_zero selective_cache_flush : (phys : ℕ) → FrameEffect

-- The statics of pmm.c, and the effects (newest first). The heads of the free lists stand in one
-- array, a row for each zone.
pub record Pmm : Type 0 where
  pub bitmap : ℕ → ℕ
  pub metadata : ℕ → FrameMetadata
  pub buddy_free_heads : ℕ → ℕ
  pub total_frames : ℕ
  pub free_frames : ℕ
  pub law9_temporal_scour_count : ℕ
  pub law9_same_epoch_zero_count : ℕ
  pub effects : List FrameEffect

unfoldable pub pmm_zone_from_phys : ℕ → ℕ
pmm_zone_from_phys phys =
    if ltb phys pmm_dma_limit_bytes
    then pmm_zone_dma
    else if ltb phys pmm_high_limit_bytes
    then pmm_zone_normal
    else pmm_zone_high

unfoldable pub bitmap_set : (frame_idx : ℕ) → (ℕ → ℕ) → ℕ → ℕ
bitmap_set i bitmap = write bitmap (i / 8) (bit_or (bitmap (i / 8)) (2 ^ (i % 8)))

unfoldable pub bitmap_clear : (frame_idx : ℕ) → (ℕ → ℕ) → ℕ → ℕ
bitmap_clear i bitmap = write bitmap (i / 8) (bit_and (bitmap (i / 8)) (bit_not 8 (2 ^ (i % 8))))

unfoldable pub bitmap_test : (frame_idx : ℕ) → (ℕ → ℕ) → Bool
bitmap_test i bitmap = has_flag (bitmap (i / 8)) (2 ^ (i % 8))

abbrev pub pmm_block_pages : (order : ℕ) → ℕ
pmm_block_pages order = 2 ^ order

-- the smaller of a zone's limit and the number of frames
abbrev pub limit_frame : (limit_bytes total_frames : ℕ) → ℕ
limit_frame limit_bytes total_frames =
    let limit = limit_bytes / page_size in if ltb limit total_frames then limit else total_frames

unfoldable pub pmm_zone_limit_frame : (zone total_frames : ℕ) → ℕ
pmm_zone_limit_frame zone total_frames =
    if zone == pmm_zone_dma
    then limit_frame pmm_dma_limit_bytes total_frames
    else if zone == pmm_zone_normal
    then limit_frame pmm_high_limit_bytes total_frames
    else total_frames

unfoldable pub pmm_block_is_head : (idx order : ℕ) → Pmm → Bool
pmm_block_is_head idx order s =
    let flags = (s.metadata idx).flags in
    if leb s.total_frames idx
    then false
    else if not (has_flag flags pmm_buddy_flag_head)
    then false
    else bit_and flags pmm_buddy_flag_order == bit_and order pmm_buddy_flag_order

unfoldable pub pmm_block_fits_zone : (idx order zone : ℕ) → Pmm → Bool
pmm_block_fits_zone idx order zone s =
    leb (idx + pmm_block_pages order) (pmm_zone_limit_frame zone s.total_frames)

-- `metadata[idx].state = state`
abbrev pub set_state : (idx state : ℕ) → (ℕ → FrameMetadata) → ℕ → FrameMetadata
set_state idx state m = write m idx (record (m idx) { state = state })

-- one frame becomes allocated or free
unfoldable pub mark_frame : (idx : ℕ) (allocated : Bool) → Pmm → Pmm
mark_frame idx allocated s =
    if allocated
    then record s { bitmap = bitmap_set idx s.bitmap; metadata = set_state idx 0 s.metadata }
    else record s {
      bitmap = bitmap_clear idx s.bitmap;
      metadata = set_state idx frame_state_free s.metadata;
    }

-- the loop of `pmm_set_block_bitmap`, from `idx` on
unfoldable pub mark_frames : (left idx : ℕ) (allocated : Bool) → Pmm → Pmm
mark_frames zero idx allocated s = s
mark_frames (suc left) idx allocated s =
    mark_frames left (idx + 1) allocated (mark_frame idx allocated s)

unfoldable pub pmm_set_block_bitmap : (idx order : ℕ) (allocated : Bool) → Pmm → Pmm
pmm_set_block_bitmap idx order allocated s = mark_frames (pmm_block_pages order) idx allocated s

-- the place of `buddy_free_heads[zone][order]`
abbrev pub list_at : (zone order : ℕ) → ℕ
list_at zone order = zone * 11 + order

unfoldable pub pmm_buddy_push : (zone order idx : ℕ) → Pmm → Pmm
pmm_buddy_push zone order idx s = record s {
  metadata = write s.metadata idx (record (s.metadata idx) {
    flags = bit_or pmm_buddy_flag_head (bit_and order pmm_buddy_flag_order);
    next_free_idx = s.buddy_free_heads (list_at zone order);
  });
  buddy_free_heads = write s.buddy_free_heads (list_at zone order) (u32 idx);
}

-- `metadata[idx].next_free_idx = PMM_STACK_END`
abbrev pub end_link : (idx : ℕ) → (ℕ → FrameMetadata) → ℕ → FrameMetadata
end_link idx m = write m idx (record (m idx) { next_free_idx = pmm_stack_end })

-- The head of a free list, `pmm_stack_end` where it is empty.
unfoldable pub pmm_buddy_pop : (zone order : ℕ) → Pmm → ℕ × Pmm
pmm_buddy_pop zone order s =
    let head = s.buddy_free_heads (list_at zone order) in
    if head == pmm_stack_end then (pmm_stack_end, s) else (
      head,
      record s {
        metadata = end_link head s.metadata;
        buddy_free_heads =
            write s.buddy_free_heads (list_at zone order) (s.metadata head).next_free_idx;
      },
    )
