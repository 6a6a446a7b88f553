-- ===== src/Pmm/Init.antt =====
-- `pmm_init`: from the memory map of the boot loader to the state of the allocator, or a failure. The
-- kernel stops at the first failure.
use reaper_operating_system.Base.{
  ℕ, zero, suc, ◌+◌, ◌-◌, ◌*◌, ◌/◌, ◌%◌, Bool, not, ◌&&◌, ◌||◌, Option, none, some, List, [], ◌∷◌,
  ltb, leb, ◌==◌, if◌then◌else◌,
}
use reaper_operating_system.Base.Word.{u64, u64_max}
use reaper_operating_system.Contract.{page_size}
use reaper_operating_system.Pmm.{
  Pmm, FrameMetadata, pmm_stack_end, color_void, frame_state_free, bitmap_clear, set_state,
}
use reaper_operating_system.Pmm.Boot.{pmm_buddy_init_from_free_frames}

abbrev pub pmm_min_free_frames : ℕ
pmm_min_free_frames = 128

abbrev pub pmm_max_quarantine_percent : ℕ
pmm_max_quarantine_percent = 35

-- `struct limine_memmap_entry`, and two of its types
pub record MemmapEntry : Type 0 where
  pub base : ℕ
  pub length : ℕ
  pub entry_type : ℕ

abbrev pub limine_memmap_usable : ℕ
limine_memmap_usable = 0

abbrev pub limine_memmap_bootloader_reclaimable : ℕ
limine_memmap_bootloader_reclaimable = 5

-- the reasons of `pmm_fail_closed`
pub data InitFailure : Type 0 where
  memmap_entry_overflow : InitFailure
  no_usable_physical_address_space : InitFailure
  metadata_size_overflow : InitFailure
  ledger_size_overflow : InitFailure
  ledger_alignment_overflow : InitFailure
  ledger_region_not_found : InitFailure
  free_frame_floor_breach : InitFailure
  quarantine_ratio_exceeded : InitFailure

pub data InitResult : Type 0 where
  fail_closed : InitFailure → InitResult
  initialized : Pmm → InitResult

-- for an alignment that is not 0, as in all calls
unfoldable pub align_up_u64 : (value alignment : ℕ) → ℕ
align_up_u64 value alignment =
    let rem = value % alignment in
    if rem == 0
    then value
    else if ltb (u64_max - (alignment - rem)) value
    then u64_max
    else value + (alignment - rem)

unfoldable pub align_down_u64 : (value alignment : ℕ) → ℕ
align_down_u64 value alignment = value - value % alignment

unfoldable pub u64_percent : (part total : ℕ) → ℕ
u64_percent part total = if total == 0 then 0 else u64 (part * 100) / total

-- whether the entry counts for the size of the memory
abbrev pub is_memory : MemmapEntry → Bool
is_memory e =
    (e.entry_type == limine_memmap_usable) || (e.entry_type == limine_memmap_bootloader_reclaimable)

-- The highest address, from `max_address` on; `none` where an entry wraps around.
unfoldable pub highest_address : List MemmapEntry → (max_address : ℕ) → Option ℕ
highest_address [] max_address = some max_address
highest_address (e ∷ es) max_address =
    let end = e.base + e.length in
    let skipped = highest_address es max_address in
    let raised = highest_address es end in
    if e.length == 0
    then skipped
    else if ltb (u64_max - e.length) e.base
    then none
    else if is_memory e && ltb max_address end
    then raised
    else skipped

-- the first usable entry with room for the bitmap and the metadata
unfoldable pub find_ledger : (needed : ℕ) → List MemmapEntry → Option ℕ
find_ledger needed [] = none
find_ledger needed (e ∷ es) =
    let region_start = align_up_u64 e.base page_size in
    let region_end = align_down_u64 (u64 (e.base + e.length)) page_size in
    let rest = find_ledger needed es in
    if not (e.entry_type == limine_memmap_usable) || (e.length == 0)
    then rest
    else if (region_start == u64_max) || leb region_end region_start
    then rest
    else if leb needed (region_end - region_start)
    then some region_start
    else rest

-- the counts of the frames that are usable and that are left aside
pub record Tally : Type 0 where
  pub pmm : Pmm
  pub candidate_frames : ℕ
  pub quarantine_frames : ℕ

-- one usable frame
unfoldable pub free_usable : (idx : ℕ) → Tally → Tally
free_usable idx t =
    let s = t.pmm in
    if ltb idx s.total_frames
    then record t {
      pmm = record s {
        bitmap = bitmap_clear idx s.bitmap;
        metadata = set_state idx frame_state_free s.metadata;
        free_frames = u64 (s.free_frames + 1);
      };
    }
    else record t { quarantine_frames = u64 (t.quarantine_frames + 1) }

-- the loop over the pages of an entry, `left` of them from `addr` on, around the ledger
unfoldable pub free_pages : (ledger_phys needed left addr : ℕ) → Tally → Tally
free_pages ledger_phys needed zero addr t = t
free_pages ledger_phys needed (suc left) addr t =
    let freed =
      if leb ledger_phys addr && ltb addr (ledger_phys + needed)
      then t
      else free_usable (addr / page_size) t in
    free_pages ledger_phys needed left (addr + page_size) freed

-- the loop over the entries
unfoldable pub free_entries : (ledger_phys needed : ℕ) → List MemmapEntry → Tally → Tally
free_entries ledger_phys needed [] t = t
free_entries ledger_phys needed (e ∷ es) t =
    let entry_end = u64 (e.base + e.length) in
    let start = align_up_u64 e.base page_size in
    let end = align_down_u64 entry_end page_size in
    let counted = record t {
      candidate_frames = u64 (t.candidate_frames + (end - start) / page_size);
      quarantine_frames =
          u64 (t.quarantine_frames + (start - e.base) / page_size + (entry_end - end) / page_size);
    } in
    let freed = free_pages ledger_phys needed ((end - start) / page_size) start counted in
    free_entries ledger_phys needed es (
      if not (e.entry_type == limine_memmap_usable)
      then t
      else if (start == u64_max) || leb end start
      then t
      else freed)

-- the metadata of every frame at first
abbrev pub unused_frame : FrameMetadata
unused_frame = record {
  owner_token = 0;
  color = color_void;
  state = 0;
  flags = 0;
  epoch = 0;
  next_free_idx = pmm_stack_end;
}

-- all frames are in use, until the entries say otherwise
unfoldable pub all_used : (total_frames bitmap_size : ℕ) → Pmm → Pmm
all_used total_frames bitmap_size before = record before {
  bitmap = λ i. if ltb i bitmap_size then 255 else before.bitmap i;
  metadata = λ i. if ltb i total_frames then unused_frame else before.metadata i;
  total_frames = total_frames;
  free_frames = 0;
}

-- the checks at the end, on the state with its free lists
unfoldable pub check_floor : Tally → InitResult
check_floor t =
    let s = pmm_buddy_init_from_free_frames t.pmm in
    if ltb s.free_frames pmm_min_free_frames
    then fail_closed free_frame_floor_breach
    else if ltb pmm_max_quarantine_percent (u64_percent t.quarantine_frames t.candidate_frames)
    then fail_closed quarantine_ratio_exceeded
    else initialized s

-- `pmm_init` from the size of the ledger on
unfoldable pub init_with :
    List MemmapEntry → (total_frames bitmap_size needed : ℕ) → Pmm → InitResult
init_with memmap total_frames bitmap_size needed before = elim (find_ledger needed memmap) [
  | none ↦ fail_closed ledger_region_not_found
  | some ledger_phys ↦ check_floor (
      free_entries ledger_phys needed memmap (record {
        pmm = all_used total_frames bitmap_size before;
        candidate_frames = 0;
        quarantine_frames = 0;
      }))
]

-- `pmm_init`, with the map and the offset there; `sizeof(struct frame_metadata)` is 16.
unfoldable pub pmm_init : List MemmapEntry → (before : Pmm) → InitResult
pmm_init memmap before = elim (highest_address memmap 0) [
  | none ↦ fail_closed memmap_entry_overflow
  | some max_address ↦
      let total_frames = max_address / page_size in
      let bitmap_size = u64 (total_frames + 7) / 8 in
      let metadata_size = total_frames * 16 in
      let needed = align_up_u64 (bitmap_size + metadata_size) page_size in
      if ltb max_address page_size
      then fail_closed no_usable_physical_address_space
      else if ltb (u64_max / 16) total_frames
      then fail_closed metadata_size_overflow
      else if ltb (u64_max - metadata_size) bitmap_size
      then fail_closed ledger_size_overflow
      else if needed == u64_max
      then fail_closed ledger_alignment_overflow
      else init_with memmap total_frames bitmap_size needed before
]
