-- ===== src/Pmm/Boot.antt =====
-- The start of the allocator: the memory map is read, a place for the bitmap and the metadata is
-- found, the usable frames are freed, and the free lists are filled with the largest blocks that fit.
use reaper_operating_system.Base.{
  ℕ, zero, suc, ◌+◌, ◌-◌, ◌*◌, bit_and, Bool, true, false, not, ltb, leb, ◌==◌, if◌then◌else◌,
}
use reaper_operating_system.Contract.{page_size}
use reaper_operating_system.Pmm.{
  Pmm, pmm_stack_end, pmm_buddy_max_order, pmm_zone_from_phys, bitmap_test, pmm_block_pages,
  pmm_block_fits_zone, pmm_buddy_push,
}

-- whether the frames from `idx` on, `left` of them, are all free
unfoldable pub all_free : (left idx : ℕ) → (ℕ → ℕ) → Bool
all_free zero idx bitmap = true
all_free (suc left) idx bitmap =
    let rest = all_free left (idx + 1) bitmap in if bitmap_test idx bitmap then false else rest

-- whether a free block at `idx` may have this order
unfoldable pub candidate_fits : (candidate idx zone : ℕ) → Pmm → Bool
candidate_fits candidate idx zone s =
    let pages = pmm_block_pages candidate in
    if not (bit_and idx (pages - 1) == 0)
    then false
    else if ltb s.total_frames (idx + pages)
    then false
    else if not (pmm_block_fits_zone idx candidate zone s)
    then false
    else all_free pages idx s.bitmap

-- the loop over `best_order`, `left` orders below the greatest
unfoldable pub best_order_from : (left best_order idx zone : ℕ) → Pmm → ℕ
best_order_from zero best_order idx zone s = best_order
best_order_from (suc left) best_order idx zone s =
    let rest = best_order_from left (best_order + 1) idx zone s in
    if candidate_fits (best_order + 1) idx zone s then rest else best_order

-- The loop of `pmm_buddy_init_from_free_frames` over the frames, on fuel. Each step passes a frame at
-- least, so as much fuel as there are frames is enough.
unfoldable pub fill_from : (fuel idx : ℕ) → Pmm → Pmm
fill_from zero idx s = s
fill_from (suc fuel) idx s =
    let zone = pmm_zone_from_phys (idx * page_size) in
    let best_order = best_order_from pmm_buddy_max_order 0 idx zone s in
    let skipped = fill_from fuel (idx + 1) s in
    let filled =
      fill_from fuel (idx + pmm_block_pages best_order) (pmm_buddy_push zone best_order idx s) in
    if leb s.total_frames idx then s else if bitmap_test idx s.bitmap then skipped else filled

unfoldable pub pmm_buddy_init_from_free_frames : Pmm → Pmm
pmm_buddy_init_from_free_frames s =
    fill_from s.total_frames 0 (record s { buddy_free_heads = λ at. pmm_stack_end })
