-- ===== src/Pmm/Steps.antt =====
-- The branches of `pmm_init` that a start that succeeds takes.
use reaper_operating_system.Base.{
  ℕ, ◌+◌, ◌-◌, ◌*◌, ◌/◌, ◌≤◌, ◌≡◌, refl, sym, ap, ◌∙◌, inl, inr, Bool, true, false, none, some,
  List, ◌==◌, ltb, arith, Bool-cases, clash,
}
use reaper_operating_system.Base.Word.{u64, u64_max}
use reaper_operating_system.Contract.{page_size}
use reaper_operating_system.Pmm.{Pmm}
use reaper_operating_system.Pmm.Boot.{pmm_buddy_init_from_free_frames}
use reaper_operating_system.Pmm.Init.{
  pmm_min_free_frames, pmm_max_quarantine_percent, MemmapEntry, InitResult, initialized,
  fail_closed, ledger_region_not_found, align_up_u64, u64_percent, Tally, free_entries, all_used,
  check_floor, highest_address, find_ledger, init_with, pmm_init,
}

-- what a result holds
abbrev pub started : InitResult → Bool
started (fail_closed reason) = false
started (initialized s) = true

abbrev pub state_or : Pmm → InitResult → Pmm
state_or d (fail_closed reason) = d
state_or d (initialized s) = s

pub floor_passed :
    (t : Tally) (s : Pmm)
    → check_floor t ≡ initialized s
    → (pmm_buddy_init_from_free_frames t.pmm ≡ s)
      × (pmm_min_free_frames ≤ (pmm_buddy_init_from_free_frames t.pmm).free_frames)
unfolding check_floor
floor_passed t s h =
    let u = pmm_buddy_init_from_free_frames t.pmm in
    elim (Bool-cases (ltb u.free_frames pmm_min_free_frames)) [
      | inl a ↦ clash _ (ap started h) (rw a refl)
      | inr a ↦
          elim (Bool-cases
            (ltb pmm_max_quarantine_percent (u64_percent t.quarantine_frames t.candidate_frames))) [
              | inl b ↦ clash _ (ap started h) (rw (a, b) refl)
              | inr b ↦
                  let done : check_floor t ≡ initialized u = rw (a, b) refl in
                  (ap (state_or u) (sym done ∙ h), ground arith)
            ]
    ]

pub no_ledger :
    (memmap : List MemmapEntry) (total size needed : ℕ) (before : Pmm)
    → find_ledger needed memmap ≡ none
    → init_with memmap total size needed before ≡ fail_closed ledger_region_not_found
unfolding init_with
no_ledger memmap total size needed before e = rw (init_with, e) refl

pub with_ledger :
    (memmap : List MemmapEntry) (total size needed : ℕ) (before : Pmm) (ledger_phys : ℕ)
    → find_ledger needed memmap ≡ some ledger_phys
    → init_with memmap total size needed before
      ≡ check_floor (
          free_entries ledger_phys needed memmap (record {
            pmm = all_used total size before;
            candidate_frames = 0;
            quarantine_frames = 0;
          }))
unfolding init_with
with_ledger memmap total size needed before ledger_phys e = rw (init_with, e) refl

-- a start that succeeds came to the search for the ledger
pub init_steps :
    (memmap : List MemmapEntry) (before s : Pmm) (m : ℕ)
    → highest_address memmap 0 ≡ some m
    → pmm_init memmap before ≡ initialized s
    → let total = m / page_size in
      let size = u64 (total + 7) / 8 in
      init_with memmap total size (align_up_u64 (size + total * 16) page_size) before
      ≡ initialized s
unfolding pmm_init
init_steps memmap before s m top h =
    let total = m / page_size in
    let size = u64 (total + 7) / 8 in
    let needed = align_up_u64 (size + total * 16) page_size in
    elim (Bool-cases (ltb m page_size)) [
      | inl a ↦ clash _ (ap started h) (rw (pmm_init, top, a) refl)
      | inr a ↦ elim (Bool-cases (ltb (u64_max / 16) total)) [
        | inl b ↦ clash _ (ap started h) (rw (pmm_init, top, a, b) refl)
        | inr b ↦ elim (Bool-cases (ltb (u64_max - total * 16) size)) [
          | inl c ↦ clash _ (ap started h) (rw (pmm_init, top, a, b, c) refl)
          | inr c ↦ elim (Bool-cases (needed == u64_max)) [
            | inl d ↦ clash _ (ap started h) (rw (pmm_init, top, a, b, c, d) refl)
            | inr d ↦
                let step : pmm_init memmap before ≡ init_with memmap total size needed before =
                  rw (pmm_init, top, a, b, c, d) refl in
                sym step ∙ h
          ]
        ]
      ]
    ]
