-- ===== src/Pmm/Entries.antt =====
-- The frames that the loop of `pmm_init` over the memory map frees.
use reaper_operating_system.Base.{
  ℕ, ◌+◌, ◌-◌, ◌*◌, ◌/◌, ◌<◌, ◌≡◌, refl, sym, ap, ◌∙◌, inl, inr, true, false, not, ◌&&◌, ◌||◌, List,
  [], ◌∷◌, ◌==◌, ltb, leb, arith, Bool-cases, ne→==,
}
use reaper_operating_system.Base.Word.{u64, u64_max}
use reaper_operating_system.Contract.{page_size}
use reaper_operating_system.Pmm.{bitmap_test}
use reaper_operating_system.Pmm.Init.{
  MemmapEntry, limine_memmap_usable, align_up_u64, align_down_u64, Tally, free_pages, free_entries,
}
use reaper_operating_system.Pmm.Usable.{
  Sorted, whole_page, held, in_ledger, available, total-free_pages, free_pages-mark, cleared_twice,
}

-- the pages of an entry, as the code rounds them
abbrev first_page : MemmapEntry → ℕ
first_page e = align_up_u64 e.base page_size

abbrev end_page : MemmapEntry → ℕ
end_page e = align_down_u64 (u64 (e.base + e.length)) page_size

no_page :
    (e : MemmapEntry) (z : ℕ)
    → e.base + e.length < 18446744073709551616
    → ((first_page e == u64_max) || leb (end_page e) (first_page e)) ≡ true
    → whole_page e z ≡ false
unfolding align_up_u64 align_down_u64
no_page e z fits h = ground arith

its_pages :
    (e : MemmapEntry) (z : ℕ)
    → e.base + e.length < 18446744073709551616
    → ((first_page e == u64_max) || leb (end_page e) (first_page e)) ≡ false
    → (first_page e / page_size * page_size ≡ first_page e)
      × ((leb (first_page e / page_size) z
            && ltb z (first_page e / page_size + (end_page e - first_page e) / page_size))
          ≡ whole_page e z)
unfolding align_up_u64 align_down_u64
its_pages e z fits h = (ground arith, ground arith)

-- what an entry with pages adds to the counts, and its frames freed
counted : MemmapEntry → Tally → Tally
counted e t = record t {
  candidate_frames = u64 (t.candidate_frames + (end_page e - first_page e) / page_size);
  quarantine_frames = u64 (
      t.quarantine_frames
      + (first_page e - e.base) / page_size
      + (u64 (e.base + e.length) - end_page e) / page_size);
}

freed_entry : (ledger_phys needed : ℕ) → MemmapEntry → Tally → Tally
freed_entry ledger_phys needed e t =
    free_pages ledger_phys needed ((end_page e - first_page e) / page_size) (first_page e)
      (counted e t)

total-freed_entry :
    (ledger_phys needed : ℕ) (e : MemmapEntry) (t : Tally)
    → (freed_entry ledger_phys needed e t).pmm.total_frames ≡ t.pmm.total_frames
unfolding freed_entry counted
total-freed_entry ledger_phys needed e t =
    total-free_pages ledger_phys needed ((end_page e - first_page e) / page_size) (first_page e)
      (counted e t)

entry_skipped :
    (ledger_phys needed : ℕ) (e : MemmapEntry) (es : List MemmapEntry) (t : Tally)
    → (not (e.entry_type == limine_memmap_usable)
        || ((first_page e == u64_max) || leb (end_page e) (first_page e)))
      ≡ true
    → free_entries ledger_phys needed (e ∷ es) t ≡ free_entries ledger_phys needed es t
unfolding free_entries
entry_skipped ledger_phys needed e es t h =
    elim (Bool-cases (e.entry_type == limine_memmap_usable)) [
      | inr a ↦ rw a refl
      | inl a ↦
          let b : ((first_page e == u64_max) || leb (end_page e) (first_page e)) ≡ true =
            rw a at h in
          rw (a, b) refl
    ]

entry_freed :
    (ledger_phys needed : ℕ) (e : MemmapEntry) (es : List MemmapEntry) (t : Tally)
    → (e.entry_type == limine_memmap_usable) ≡ true
    → ((first_page e == u64_max) || leb (end_page e) (first_page e)) ≡ false
    → free_entries ledger_phys needed (e ∷ es) t
      ≡ free_entries ledger_phys needed es (freed_entry ledger_phys needed e t)
unfolding free_entries freed_entry counted
entry_freed ledger_phys needed e es t a b = rw (a, b) refl

freed_entry-mark :
    (ledger_phys needed z : ℕ) (e : MemmapEntry) (t : Tally)
    → z < t.pmm.total_frames
    → e.base + e.length < 18446744073709551616
    → ((first_page e == u64_max) || leb (end_page e) (first_page e)) ≡ false
    → bitmap_test z (freed_entry ledger_phys needed e t).pmm.bitmap
      ≡ (not (whole_page e z && not (in_ledger ledger_phys needed z)) && bitmap_test z t.pmm.bitmap)
unfolding freed_entry counted
freed_entry-mark ledger_phys needed z e t inside fits h =
    let pages = its_pages e z fits h in
    let left = (end_page e - first_page e) / page_size in
    ap (λ a. bitmap_test z (free_pages ledger_phys needed left a (counted e t)).pmm.bitmap)
      (sym pages.0)
    ∙ free_pages-mark ledger_phys needed left (first_page e / page_size) z (counted e t) inside
    ∙ ap (λ w. not (w && not (in_ledger ledger_phys needed z)) && bitmap_test z t.pmm.bitmap)
        pages.1

-- In any order of the usable entries that does not wrap, the frames that they hold are freed, but for
-- the ledger's.
pub free_entries-mark :
    (ledger_phys needed z low : ℕ) (es : List MemmapEntry) (t : Tally)
    → Sorted low es
    → z < t.pmm.total_frames
    → bitmap_test z (free_entries ledger_phys needed es t).pmm.bitmap
      ≡ (not (available ledger_phys needed es z) && bitmap_test z t.pmm.bitmap)
unfolding free_entries
free_entries-mark ledger_phys needed z low [] t sorted inside = refl
free_entries-mark ledger_phys needed z low (e ∷ es) t sorted inside = elim sorted [
  | inl other ↦
      let test = ne→== e.entry_type limine_memmap_usable other.0 in
      let skip = entry_skipped ledger_phys needed e es t (rw test refl) in
      ap (λ (v : Tally). bitmap_test z v.pmm.bitmap) skip
      ∙ free_entries-mark ledger_phys needed z low es t other.1 inside
      ∙ rw test refl
  | inr usable ↦
      let next = e.base + e.length in
      let skipped = free_entries-mark ledger_phys needed z next es t usable.2 inside in
      elim (Bool-cases (e.entry_type == limine_memmap_usable)) [
        | inr a ↦
            ap (λ (v : Tally). bitmap_test z v.pmm.bitmap)
              (entry_skipped ledger_phys needed e es t (rw a refl))
            ∙ skipped
            ∙ rw a refl
        | inl a ↦ elim (Bool-cases ((first_page e == u64_max) || leb (end_page e) (first_page e))) [
          | inl b ↦
              ap (λ (v : Tally). bitmap_test z v.pmm.bitmap)
                (entry_skipped ledger_phys needed e es t (rw (a, b) refl))
              ∙ skipped
              ∙ rw (a, no_page e z usable.1 b) refl
          | inr b ↦
              let u = freed_entry ledger_phys needed e t in
              let total = total-freed_entry ledger_phys needed e t in
              ap (λ (v : Tally). bitmap_test z v.pmm.bitmap)
                (entry_freed ledger_phys needed e es t a b)
              ∙ free_entries-mark ledger_phys needed z next es u usable.2 (omega (arith, total))
              ∙ rw (a, freed_entry-mark ledger_phys needed z e t inside usable.1 b)
                  (cleared_twice (whole_page e z) (held es z) (in_ledger ledger_phys needed z) _)
        ]
      ]
]
