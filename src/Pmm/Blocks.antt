-- ===== src/Pmm/Blocks.antt =====
-- Blocks of frames: a block is taken off a free list and split, or put back and merged.
use reaper_operating_system.Base.{
  ℕ, zero, suc, ◌+◌, ◌-◌, ◌*◌, bit_and, bit_xor, Bool, true, false, not, Option, none, some, List,
  [], ◌∷◌, ltb, leb, ◌==◌, if◌then◌else◌, write,
}
use reaper_operating_system.Base.Word.{sub64, u64}
use reaper_operating_system.Base.Bits.{bit_not}
use reaper_operating_system.Contract.{page_size}
use reaper_operating_system.Pmm.{
  Pmm, FrameMetadata, pmm_stack_end, pmm_buddy_max_order, pmm_buddy_flag_head, pmm_buddy_flag_order,
  pmm_zone_dma, pmm_zone_normal, pmm_zone_high, pmm_zone_any, pmm_zone_from_phys, pmm_block_pages,
  pmm_block_is_head, pmm_block_fits_zone, pmm_set_block_bitmap, list_at, pmm_buddy_push,
  pmm_buddy_pop, bitmap_test,
}

-- The splitting loop of `pmm_buddy_alloc_block`: from `order + left` down to `order`, each upper half
-- goes to its free list.
unfoldable pub split_block : (left zone order idx : ℕ) → Pmm → Pmm
split_block zero zone order idx s = s
split_block (suc left) zone order idx s =
    let cur = order + left in
    let buddy_idx = idx + pmm_block_pages cur in
    split_block left zone order idx
      (pmm_buddy_push zone cur buddy_idx (pmm_set_block_bitmap buddy_idx cur false s))

-- the block that was found becomes allocated
unfoldable pub take_block : (order idx : ℕ) → Pmm → Pmm
take_block order idx s =
    let marked = pmm_set_block_bitmap idx order true s in
    record marked {
      metadata = write marked.metadata idx (record (marked.metadata idx) {
        flags = bit_and order pmm_buddy_flag_order;
        next_free_idx = pmm_stack_end;
      });
      free_frames = sub64 marked.free_frames (pmm_block_pages order);
    }

-- the loop over the orders from `order + above` on, `left` of them: the block's index
unfoldable pub alloc_from_orders : (left above zone order : ℕ) → Pmm → Option (ℕ × Pmm)
alloc_from_orders zero above zone order s = none
alloc_from_orders (suc left) above zone order s =
    let popped = pmm_buddy_pop zone (order + above) s in
    let rest = alloc_from_orders left (above + 1) zone order popped.1 in
    if popped.0 == pmm_stack_end
    then rest
    else some (popped.0, take_block order popped.0 (split_block above zone order popped.0 popped.1))

-- the loop over the zones
unfoldable pub alloc_from_zones : (zones : List ℕ) (order : ℕ) → Pmm → Option (ℕ × Pmm)
alloc_from_zones [] order s = none
alloc_from_zones (zone ∷ zones) order s =
    elim (alloc_from_orders (pmm_buddy_max_order + 1 - order) 0 zone order s) [
      | some r ↦ some r
      | none ↦ alloc_from_zones zones order s
    ]

abbrev pub zones_to_try : (preferred_zone : ℕ) → List ℕ
zones_to_try preferred_zone =
    if preferred_zone == pmm_zone_any
    then pmm_zone_normal ∷ pmm_zone_dma ∷ pmm_zone_high ∷ []
    else preferred_zone ∷ []

-- The address of the block, 0 where there is none.
unfoldable pub pmm_buddy_alloc_block : (order preferred_zone : ℕ) → Pmm → ℕ × Pmm
pmm_buddy_alloc_block order preferred_zone s =
    elim (alloc_from_zones (zones_to_try preferred_zone) order s) [
      | none ↦ (0, s)
      | some r ↦ (r.0 * page_size, r.1)
    ]

-- the link that leads to a block behind `prev`, or from the head where `prev` is the end
unfoldable pub bypass : (at prev next : ℕ) → Pmm → Pmm
bypass at prev next s =
    if prev == pmm_stack_end
    then record s { buddy_free_heads = write s.buddy_free_heads at next }
    else record s {
      metadata = write s.metadata prev (record (s.metadata prev) { next_free_idx = next });
    }

-- the metadata of a block that left its list
abbrev pub detached : FrameMetadata → FrameMetadata
detached f = record f {
  next_free_idx = pmm_stack_end;
  flags = bit_and f.flags (bit_not 8 pmm_buddy_flag_head);
}

unfoldable pub unlink_block : (at prev cur : ℕ) → Pmm → Pmm
unlink_block at prev cur s =
    let bypassed = bypass at prev (s.metadata cur).next_free_idx s in
    record bypassed { metadata = write bypassed.metadata cur (detached (bypassed.metadata cur)) }

-- the search of `pmm_buddy_remove`, on fuel
unfoldable pub remove_from : (fuel at prev cur target_idx : ℕ) → Pmm → Bool × Pmm
remove_from zero at prev cur target_idx s = (false, s)
remove_from (suc fuel) at prev cur target_idx s =
    let rest = remove_from fuel at cur (s.metadata cur).next_free_idx target_idx s in
    if cur == pmm_stack_end
    then (false, s)
    else if cur == target_idx
    then (true, unlink_block at prev cur s)
    else rest

-- No free list holds more blocks than there are free frames.
unfoldable pub pmm_buddy_remove : (zone order target_idx : ℕ) → Pmm → Bool × Pmm
pmm_buddy_remove zone order target_idx s =
    let at = list_at zone order in
    remove_from (s.free_frames + 1) at pmm_stack_end (s.buddy_free_heads at) target_idx s

-- whether the loop of `pmm_buddy_free_block` may merge with the buddy, before it is removed
unfoldable pub mergeable : (zone order buddy_idx : ℕ) → Pmm → Bool
mergeable zone order buddy_idx s =
    if leb s.total_frames buddy_idx
    then false
    else if not (pmm_block_fits_zone buddy_idx order zone s)
    then false
    else if not (pmm_block_is_head buddy_idx order s)
    then false
    else not (bitmap_test buddy_idx s.bitmap)

-- the merging loop, `left` orders below the greatest, and the push at its end
unfoldable pub merge_block : (left zone order idx : ℕ) → Pmm → Pmm
merge_block zero zone order idx s = pmm_buddy_push zone order idx s
merge_block (suc left) zone order idx s =
    let buddy_idx = bit_xor idx (pmm_block_pages order) in
    let removed = pmm_buddy_remove zone order buddy_idx s in
    let lower = if ltb buddy_idx idx then buddy_idx else idx in
    let rest = merge_block left zone (order + 1) lower removed.1 in
    if not (mergeable zone order buddy_idx s)
    then pmm_buddy_push zone order idx s
    else if not removed.0
    then pmm_buddy_push zone order idx removed.1
    else rest

unfoldable pub pmm_buddy_free_block : (idx order : ℕ) → Pmm → Pmm
pmm_buddy_free_block idx order s =
    let zone = pmm_zone_from_phys (idx * page_size) in
    let marked = pmm_set_block_bitmap idx order false s in
    let counted = record marked {
      free_frames = u64 (marked.free_frames + pmm_block_pages order);
    } in
    merge_block (pmm_buddy_max_order - order) zone order idx counted
