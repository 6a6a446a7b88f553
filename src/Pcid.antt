-- ===== src/Pcid.antt =====
-- The PCID allocator (kernel/pcid.c, kernel/include/pcid.h): one bitmap of 256 identifiers per user
-- mode. The fields of `pcid_manager` that belong to one mode are a `Pool`; the lock is left out, as
-- every operation holds it from its first read to its last write.
pub mod Bitmap
pub mod Range
pub mod Alloc
pub mod Free
use reaper_operating_system.Base.{
  ℕ, zero, suc, ◌+◌, ◌-◌, ◌%◌, Bool, true, false, not, ◌||◌, Option, none, some, List, [], ◌∷◌, ltb,
  leb, ◌==◌, if◌then◌else◌, replicate,
}
use reaper_operating_system.Base.Word.{u16, u32}
use reaper_operating_system.Mode.{mode_casual, mode_secure, mode_lockdown, mode_ghost, mode_kernel}
use Bitmap.{bitmap_set_relative, bitmap_clear_relative, bitmap_test_relative}

abbrev pub pcid_kernel : ℕ
pcid_kernel = 0

abbrev pub pcid_error : ℕ
pcid_error = 0xFFFF

abbrev pub pcids_per_user_mode : ℕ
pcids_per_user_mode = 256

-- the fields of `struct pcid_allocator` that one user mode has
pub record Pool : Type 0 where
  pub bitmap : List ℕ
  pub next_hint : ℕ
  pub allocated_count : ℕ
  pub max_count : ℕ
  pub freed_count : ℕ

-- `struct pcid_allocator`, and the contexts that `invpcid` flushed, newest first
pub record PcidAllocator : Type 0 where
  pub casual : Pool
  pub secure : Pool
  pub lockdown : Pool
  pub ghost : Pool
  pub total_allocations : ℕ
  pub total_reuses : ℕ
  pub total_tlb_scrubs : ℕ
  pub scrubbed : List ℕ

unfoldable pub pcid_get_mode_base : ℕ → ℕ
pcid_get_mode_base mode =
    if mode == mode_casual
    then 1
    else if mode == mode_secure
    then 257
    else if mode == mode_lockdown
    then 513
    else if mode == mode_ghost
    then 769
    else if mode == mode_kernel
    then pcid_kernel
    else pcid_error

unfoldable pub pcid_get_mode_count : ℕ → ℕ
pcid_get_mode_count mode =
    if mode == mode_kernel
    then 1
    else if leb mode_casual mode
    then (if ltb mode mode_kernel then pcids_per_user_mode else 0)
    else 0

-- `get_mode_bitmap`, `get_mode_next_hint`, `get_mode_allocated_count`, `get_mode_max_count` and
-- `get_mode_freed_count`: they answer NULL for the same modes
unfoldable pub mode_pool : ℕ → PcidAllocator → Option Pool
mode_pool mode a =
    if mode == mode_casual
    then some a.casual
    else if mode == mode_secure
    then some a.secure
    else if mode == mode_lockdown
    then some a.lockdown
    else if mode == mode_ghost
    then some a.ghost
    else none

-- a write through those pointers
unfoldable pub with_pool : ℕ → Pool → PcidAllocator → PcidAllocator
with_pool mode p a =
    if mode == mode_casual
    then record a { casual = p }
    else if mode == mode_secure
    then record a { secure = p }
    else if mode == mode_lockdown
    then record a { lockdown = p }
    else if mode == mode_ghost
    then record a { ghost = p }
    else a

abbrev pub empty_pool : Pool
empty_pool = record {
  bitmap = replicate 4 0;
  next_hint = 0;
  allocated_count = 0;
  max_count = 0;
  freed_count = 0;
}

unfoldable pub pcid_init : List ℕ → PcidAllocator
pcid_init scrubbed = record {
  casual = empty_pool;
  secure = empty_pool;
  lockdown = empty_pool;
  ghost = empty_pool;
  total_allocations = 0;
  total_reuses = 0;
  total_tlb_scrubs = 0;
  scrubbed = scrubbed;
}

-- The search of `pcid_alloc`: `left` is `mode_count - i`.
unfoldable pub find_free : List ℕ → (next_hint mode_count left i : ℕ) → Option ℕ
find_free bitmap next_hint mode_count zero i = none
find_free bitmap next_hint mode_count (suc left) i =
    let idx = u16 ((next_hint + i) % mode_count) in
    let rest = find_free bitmap next_hint mode_count left (i + 1) in
    if bitmap_test_relative bitmap idx then rest else some idx

-- the pool after `pcid_alloc` takes an index
unfoldable pub take_index : (mode_count idx : ℕ) → Pool → Pool
take_index mode_count idx p =
    let allocated = u32 (p.allocated_count + 1) in
    record p {
      bitmap = bitmap_set_relative p.bitmap idx;
      next_hint = u16 ((idx + 1) % mode_count);
      allocated_count = allocated;
      max_count = if ltb p.max_count allocated then allocated else p.max_count;
    }

-- `pcid_alloc` from the check of the range on
unfoldable pub alloc_from : (mode base count : ℕ) → Pool → PcidAllocator → ℕ × PcidAllocator
unfolding find_free take_index
alloc_from mode base count p a =
    if count == 0 || base == pcid_error
    then (pcid_error, a)
    else elim (find_free p.bitmap p.next_hint count count 0) [
      | none ↦ (pcid_error, a)
      | some idx ↦ (
        u16 (base + idx),
        record (with_pool mode (take_index count idx p) a) {
          total_allocations = u32 (a.total_allocations + 1);
          total_reuses = if ltb 0 p.freed_count then u32 (a.total_reuses + 1) else a.total_reuses;
        },
      )
    ]

unfoldable pub pcid_alloc : ℕ → PcidAllocator → ℕ × PcidAllocator
unfolding alloc_from
pcid_alloc mode a = if mode == mode_kernel then (pcid_kernel, a) else elim (mode_pool mode a) [
  | none ↦ (pcid_error, a)
  | some p ↦ alloc_from mode (pcid_get_mode_base mode) (pcid_get_mode_count mode) p a
]

-- the pool after `pcid_free` gives an index back
unfoldable pub drop_index : ℕ → Pool → Pool
drop_index idx p = record p {
  bitmap = bitmap_clear_relative p.bitmap idx;
  allocated_count = if ltb 0 p.allocated_count then p.allocated_count - 1 else 0;
  freed_count = u32 (p.freed_count + 1);
}

unfoldable pub pcid_free : (pcid mode : ℕ) → PcidAllocator → PcidAllocator
unfolding drop_index
pcid_free pcid mode a =
    let base = pcid_get_mode_base mode in
    let count = pcid_get_mode_count mode in
    if mode == mode_kernel
    then a
    else if pcid == pcid_error
    then a
    else if ltb pcid base || leb (base + count) pcid
    then a
    else elim (mode_pool mode a) [
      | none ↦ a
      | some p ↦
          if bitmap_test_relative p.bitmap (pcid - base)
          then record (with_pool mode (drop_index (pcid - base) p) a) {
            total_tlb_scrubs = u32 (a.total_tlb_scrubs + 1);
            scrubbed = pcid ∷ a.scrubbed;
          }
          else a
    ]
