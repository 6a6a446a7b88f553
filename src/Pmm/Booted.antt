-- ===== src/Pmm/Booted.antt =====
-- The allocator after `pmm_init`: for a memory map whose usable entries are in order and apart.
use mathlib.Core.Path.{subst}
use reaper_operating_system.Base.{
  ℕ, zero, suc, ◌+◌, ◌-◌, ◌*◌, ◌/◌, ◌%◌, ◌≤◌, ◌<◌, ◌≡◌, refl, sym, ap, ◌∙◌, inl, inr, Bool, true,
  false, not, ◌||◌, ◌&&◌, some, List, [], ◌∷◌, ◌==◌, leb, arith, Bool-cases, Option-cases, ne→==,
  lt→ltb, clash,
}
use reaper_operating_system.Base.Word.{u64, u64_max}
use reaper_operating_system.Base.Bits.{testbit}
use reaper_operating_system.Contract.{page_size}
use reaper_operating_system.Pmm.{Pmm, pmm_stack_end, bitmap_test}
use reaper_operating_system.Pmm.Boot.{pmm_buddy_init_from_free_frames}
use reaper_operating_system.Pmm.Init.{
  pmm_min_free_frames, MemmapEntry, limine_memmap_usable, initialized, align_up_u64, align_down_u64,
  Tally, free_pages, free_entries, all_used, check_floor, highest_address, find_ledger, init_with,
  pmm_init,
}
use reaper_operating_system.Pmm.Marks.{test-bit}
use reaper_operating_system.Pmm.Fill.{free_from, pmm_buddy_init_from_free_frames-Full}
use reaper_operating_system.Pmm.Sound.{Full}
use reaper_operating_system.Pmm.Steps.{started, floor_passed, no_ledger, with_ledger, init_steps}
use reaper_operating_system.Pmm.Usable.{Sorted, available}
use reaper_operating_system.Pmm.Entries.{free_entries-mark}
use reaper_operating_system.Pmm.Start.{
  Fresh, Fresh-later, free_pages-Fresh, none_free, free_from-le,
}

align_up-le : (v : ℕ) → v ≤ u64_max → v ≤ align_up_u64 v page_size
unfolding align_up_u64
align_up-le v h = ground arith

align_down-le : (v : ℕ) → align_down_u64 v page_size ≤ v
unfolding align_down_u64
align_down-le v = omega arith

free_entries-Fresh :
    (ledger_phys needed : ℕ) (es : List MemmapEntry) (t : Tally) (total low bound : ℕ)
    → bound * page_size ≤ low
    → Sorted low es
    → Fresh t total bound
    → Fresh (free_entries ledger_phys needed es t) total total
unfolding free_entries
free_entries-Fresh ledger_phys needed [] t total low bound h sorted f = record {
  frames = f.frames;
  small = f.small;
  counted = f.counted;
  marked = λ z above below. absurd (omega arith);
}
free_entries-Fresh ledger_phys needed (e ∷ es) t total low bound h sorted f = elim sorted [
  | inl other ↦
      let test = ne→== e.entry_type limine_memmap_usable other.0 in
      rw test (free_entries-Fresh ledger_phys needed es t total low bound h other.1 f)
  | inr usable ↦
      let entry_end : u64 (e.base + e.length) ≡ e.base + e.length = omega (arith, usable.1) in
      let start = align_up_u64 e.base page_size in
      let end = align_down_u64 (u64 (e.base + e.length)) page_size in
      let above = align_up-le e.base (omega (arith, usable.1)) in
      let below = align_down-le (u64 (e.base + e.length)) in
      let skip =
        free_entries-Fresh ledger_phys needed es t total (e.base + e.length) bound
          (omega (arith, usable.0)) usable.2 f in
      elim (Bool-cases (not (e.entry_type == limine_memmap_usable))) [
        | inl a ↦ rw a skip
        | inr a ↦ elim (Bool-cases ((start == u64_max) || leb end start)) [
          | inl b ↦ rw (a, b) skip
          | inr b ↦
              let room : start < end = ground arith in
              let counted : Tally = record t {
                candidate_frames = u64 (t.candidate_frames + (end - start) / page_size);
                quarantine_frames = u64 (
                    t.quarantine_frames
                    + (start - e.base) / page_size
                    + (u64 (e.base + e.length) - end) / page_size);
              } in
              let fresh : Fresh counted total bound = record {
                frames = f.frames;
                small = f.small;
                counted = f.counted;
                marked = f.marked;
              } in
              let freed =
                free_pages-Fresh ledger_phys needed ((end - start) / page_size) start counted total
                  (Fresh-later counted total bound (start / page_size)
                    (omega (arith, h, usable.0, above)) fresh) in
              rw (a, b)
                (free_entries-Fresh ledger_phys needed es
                  (free_pages ledger_phys needed ((end - start) / page_size) start counted) total
                  (e.base + e.length) (start / page_size + (end - start) / page_size)
                  (omega (arith, room, below, entry_end)) usable.2 freed)
        ]
      ]
]

and_true : (b : Bool) → (b && true) ≡ b
and_true true = refl
and_true false = refl

ones : (k : ℕ) → k < 8 → testbit 255 k ≡ true
ones zero h = refl
ones (suc zero) h = refl
ones (suc (suc zero)) h = refl
ones (suc (suc (suc zero))) h = refl
ones (suc (suc (suc (suc zero)))) h = refl
ones (suc (suc (suc (suc (suc zero))))) h = refl
ones (suc (suc (suc (suc (suc (suc zero)))))) h = refl
ones (suc (suc (suc (suc (suc (suc (suc zero))))))) h = refl
ones (suc (suc (suc (suc (suc (suc (suc (suc k)))))))) h = absurd (omega arith)

all_used-marked :
    (total size : ℕ) (before : Pmm) (z : ℕ)
    → z / 8 < size
    → bitmap_test z (all_used total size before).bitmap ≡ true
unfolding all_used
all_used-marked total size before z h =
    let inside = lt→ltb (z / 8) size h in
    test-bit (all_used total size before).bitmap z ∙ rw inside (ones (z % 8) (omega arith))

-- The allocator of a machine with `total` frames whose bitmap and metadata lie at `ledger`.
pub record Started (memmap : List MemmapEntry) (total needed ledger : ℕ) (s : Pmm)
    (lists : ℕ → List ℕ) (home : ℕ → ℕ) : Type 0 where
  pub full : Full s lists home
  pub floor : pmm_min_free_frames ≤ s.free_frames
  pub frames : s.total_frames ≡ total
  pub counted : s.free_frames ≡ free_from total 0 s.bitmap
  pub found : find_ledger needed memmap ≡ some ledger
  pub marks : (z : ℕ) → z < total → bitmap_test z s.bitmap ≡ not (available ledger needed memmap z)

-- the free lists are filled without a change of the bitmap
filled-Started :
    (memmap : List MemmapEntry) (total needed ledger : ℕ) (t : Tally)
    → Fresh t total total
    → find_ledger needed memmap ≡ some ledger
    → ((z : ℕ) → z < total → bitmap_test z t.pmm.bitmap ≡ not (available ledger needed memmap z))
    → pmm_min_free_frames ≤ (pmm_buddy_init_from_free_frames t.pmm).free_frames
    → (lists : ℕ → List ℕ) × (home : ℕ → ℕ) × Started memmap total needed ledger
        (pmm_buddy_init_from_free_frames t.pmm)
        lists
        home
filled-Started memmap total needed ledger t f found marks floor =
    let frames = f.frames in
    let small = f.small in
    let bounded = free_from-le total 0 t.pmm.bitmap in
    let counted = f.counted in
    let same = ap (λ n. free_from n 0 t.pmm.bitmap) frames in
    let full =
      pmm_buddy_init_from_free_frames-Full t.pmm (omega (arith, frames, small)) (counted ∙ sym same)
        (omega (arith, counted, bounded, small)) in
    let bits = full.3 in
    (
      full.0,
      full.1,
      record {
        full = full.2;
        floor = floor;
        frames = full.4 ∙ frames;
        counted = full.5 ∙ counted ∙ ap (free_from total 0) (sym bits);
        found = found;
        marks = λ z inside. ap (bitmap_test z) bits ∙ marks z inside;
      },
    )

check_floor-Started :
    (memmap : List MemmapEntry) (total needed ledger : ℕ) (t : Tally) (s : Pmm)
    → Fresh t total total
    → find_ledger needed memmap ≡ some ledger
    → ((z : ℕ) → z < total → bitmap_test z t.pmm.bitmap ≡ not (available ledger needed memmap z))
    → check_floor t ≡ initialized s
    → (lists : ℕ → List ℕ) × (home : ℕ → ℕ) × Started memmap total needed ledger s lists home
check_floor-Started memmap total needed ledger t s f found marks h =
    let passed = floor_passed t s h in
    subst
      (λ v. (lists : ℕ → List ℕ) × (home : ℕ → ℕ) × Started memmap total needed ledger v lists home)
      passed.0 (filled-Started memmap total needed ledger t f found marks passed.1)

used-Fresh :
    (total : ℕ) (before : Pmm)
    → total ≤ pmm_stack_end
    → Fresh
        (record {
          pmm = all_used total (u64 (total + 7) / 8) before;
          candidate_frames = 0;
          quarantine_frames = 0;
        })
        total
        0
unfolding all_used
used-Fresh total before small =
    let marked : (z : ℕ)
        → 0 ≤ z
        → z < total
        → bitmap_test z (all_used total (u64 (total + 7) / 8) before).bitmap ≡ true =
      λ z low high. all_used-marked total (u64 (total + 7) / 8) before z (omega arith) in
    record {
      frames = refl;
      small = small;
      counted = sym (
          none_free total 0 (all_used total (u64 (total + 7) / 8) before).bitmap
            (λ z low high. marked z low (omega arith)));
      marked = marked;
    }

init_with-Started :
    (memmap : List MemmapEntry) (total needed : ℕ) (before s : Pmm)
    → total ≤ pmm_stack_end
    → Sorted 0 memmap
    → init_with memmap total (u64 (total + 7) / 8) needed before ≡ initialized s
    → (ledger : ℕ) × (lists : ℕ → List ℕ) × (home : ℕ → ℕ) × Started memmap total needed ledger s
        lists home
init_with-Started memmap total needed before s small sorted h =
    elim (Option-cases (find_ledger needed memmap)) [
      | inl e ↦
          clash _ (ap started h)
            (ap started (no_ledger memmap total (u64 (total + 7) / 8) needed before e))
      | inr c ↦
          let t : Tally = record {
            pmm = all_used total (u64 (total + 7) / 8) before;
            candidate_frames = 0;
            quarantine_frames = 0;
          } in
          let fresh = used-Fresh total before small in
          let frames = fresh.frames in
          let marks : (z : ℕ)
              → z < total
              → bitmap_test z (free_entries c.0 needed memmap t).pmm.bitmap
                ≡ not (available c.0 needed memmap z) =
            λ z inside.
              free_entries-mark c.0 needed z 0 memmap t sorted (omega (arith, frames))
              ∙ ap (λ b. not (available c.0 needed memmap z) && b)
                  (fresh.marked z (omega arith) inside)
              ∙ and_true (not (available c.0 needed memmap z)) in
          let done =
            check_floor-Started memmap total needed c.0 (free_entries c.0 needed memmap t) s
              (free_entries-Fresh c.0 needed memmap t total 0 0 (omega arith) sorted fresh) c.1
              marks
              (sym (with_ledger memmap total (u64 (total + 7) / 8) needed before c.0 c.1) ∙ h) in
          (c.0, done.0, done.1, done.2)
    ]

-- the size of the bitmap and the metadata, in whole pages
abbrev pub ledger_size : ℕ → ℕ
ledger_size total = align_up_u64 (u64 (total + 7) / 8 + total * 16) page_size

-- For a memory map whose usable entries follow one another without overflow, with at most 2^32 - 1
-- frames below its highest address, a start of the allocator that succeeds leaves a bitmap in
-- which a frame is clear exactly when a usable entry holds its whole page and the page does not
-- start in the ledger that was found for the bitmap and the metadata; sound free lists whose
-- blocks are of clear frames, lie apart and hold as many frames as are clear; and a count of just
-- these frames, at least 128.
pub pmm_init-Started :
    (memmap : List MemmapEntry) (before s : Pmm) (m : ℕ)
    → highest_address memmap 0 ≡ some m
    → m / page_size ≤ pmm_stack_end
    → Sorted 0 memmap
    → pmm_init memmap before ≡ initialized s
    → (ledger : ℕ) × (lists : ℕ → List ℕ) × (home : ℕ → ℕ) × Started memmap
        (m / page_size)
        (ledger_size (m / page_size))
        ledger
        s
        lists
        home
pmm_init-Started memmap before s m top small sorted h =
    let reached = init_steps memmap before s m top h in
    init_with-Started memmap (m / page_size) _ before s small sorted reached
