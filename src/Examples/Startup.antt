-- ===== src/Examples/Startup.antt =====
-- A machine with 140 frames, of which the first holds the bitmap and the metadata.
use reaper_operating_system.Base.{ℕ, ◌≡◌, refl, inr, some, List, [], ◌∷◌, arith}
use reaper_operating_system.Pmm.{
  Pmm, pmm_zone_from_phys, pmm_zone_limit_frame, pmm_block_fits_zone, bitmap_test, bitmap_clear,
  pmm_buddy_push,
}
use reaper_operating_system.Pmm.Boot.{
  all_free, candidate_fits, best_order_from, fill_from, pmm_buddy_init_from_free_frames,
}
use reaper_operating_system.Pmm.Init.{
  MemmapEntry, initialized, align_up_u64, align_down_u64, u64_percent, highest_address, find_ledger,
  free_usable, free_pages, free_entries, all_used, check_floor, init_with, pmm_init, unused_frame,
}
use reaper_operating_system.Pmm.Steps.{state_or}
use reaper_operating_system.Pmm.Booted.{Started, ledger_size, pmm_init-Started}

abbrev memmap : List MemmapEntry
memmap = record { base = 0; length = 573440; entry_type = 0 } ∷ []

abbrev before : Pmm
before = record {
  bitmap = λ i. 0;
  metadata = λ i. unused_frame;
  buddy_free_heads = λ k. 0;
  total_frames = 0;
  free_frames = 0;
  law9_temporal_scour_count = 0;
  law9_same_epoch_zero_count = 0;
  effects = [];
}

abbrev machine : Pmm
machine = state_or before (pmm_init memmap before)

starts : pmm_init memmap before ≡ initialized machine
unfolding pmm_init highest_address align_up_u64 align_down_u64 init_with find_ledger free_entries
    free_pages free_usable all_used check_floor u64_percent pmm_buddy_init_from_free_frames
    fill_from best_order_from candidate_fits all_free bitmap_test bitmap_clear pmm_zone_from_phys
    pmm_block_fits_zone pmm_zone_limit_frame pmm_buddy_push
starts = refl

top : highest_address memmap 0 ≡ some 573440
unfolding highest_address
top = refl

pmm_init-Started_example :
    (ledger : ℕ) × (lists : ℕ → List ℕ) × (home : ℕ → ℕ) × Started memmap 140
      (ledger_size 140)
      ledger
      machine
      lists
      home
pmm_init-Started_example =
    pmm_init-Started memmap before machine 573440 top (omega arith)
      (inr (omega arith, omega arith, tt)) starts
