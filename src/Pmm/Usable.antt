-- ===== src/Pmm/Usable.antt =====
-- Which frames the loops of `pmm_init` free: those whose whole page a usable entry of the memory map
-- holds, but for the pages of the ledger.
use reaper_operating_system.Base.{
  ℕ, zero, suc, ◌+◌, ◌*◌, ◌/◌, ◌≤◌, ◌<◌, ◌≡◌, refl, ap, ◌∙◌, ◌≢◌, ◌⊎◌, inl, inr, Bool, true, false,
  not, ◌&&◌, ◌||◌, List, [], ◌∷◌, ◌==◌, ltb, leb, arith, Bool-cases, if◌then◌else◌,
}
use reaper_operating_system.Contract.{page_size}
use reaper_operating_system.Pmm.{bitmap_test}
use reaper_operating_system.Pmm.Init.{
  MemmapEntry, limine_memmap_usable, Tally, free_usable, free_pages,
}
use reaper_operating_system.Pmm.Marks.{test-clear}

-- From `low` on, the usable entries follow one another, and none wraps around.
abbrev pub Sorted : (low : ℕ) → List MemmapEntry → Type 0
Sorted low [] = Unit {0}
Sorted low (e ∷ es) =
    ((e.entry_type ≢ limine_memmap_usable) × Sorted low es)
    ⊎ ((low ≤ e.base) × (e.base + e.length < 18446744073709551616) × Sorted (e.base + e.length) es)

-- all bytes of frame `z` lie in the entry
abbrev pub whole_page : MemmapEntry → ℕ → Bool
whole_page e z = leb e.base (z * page_size) && leb (z * page_size + page_size) (e.base + e.length)

-- a usable entry holds all of frame `z`
abbrev pub held : List MemmapEntry → ℕ → Bool
held [] z = false
held (e ∷ es) z = ((e.entry_type == limine_memmap_usable) && whole_page e z) || held es z

-- frame `z` starts in the ledger
abbrev pub in_ledger : (ledger_phys needed z : ℕ) → Bool
in_ledger ledger_phys needed z =
    leb ledger_phys (z * page_size) && ltb (z * page_size) (ledger_phys + needed)

abbrev pub available : (ledger_phys needed : ℕ) → List MemmapEntry → ℕ → Bool
available ledger_phys needed memmap z = held memmap z && not (in_ledger ledger_phys needed z)

total-free_usable :
    (idx : ℕ) (t : Tally) → (free_usable idx t).pmm.total_frames ≡ t.pmm.total_frames
unfolding free_usable
total-free_usable idx t = elim (Bool-cases (ltb idx t.pmm.total_frames)) [
  | inl e ↦ rw e refl
  | inr e ↦ rw e refl
]

free_usable-mark :
    (idx z : ℕ) (t : Tally)
    → z < t.pmm.total_frames
    → bitmap_test z (free_usable idx t).pmm.bitmap ≡ (not (idx == z) && bitmap_test z t.pmm.bitmap)
unfolding free_usable
free_usable-mark idx z t inside = elim (Bool-cases (ltb idx t.pmm.total_frames)) [
  | inl e ↦ rw e (test-clear t.pmm.bitmap idx z)
  | inr e ↦ let apart : (idx == z) ≡ false = ground arith in rw (e, apart) refl
]

-- one page of the loop
freed_page : (ledger_phys needed q : ℕ) → Tally → Tally
freed_page ledger_phys needed q t = if in_ledger ledger_phys needed q then t else free_usable q t

total-freed_page :
    (ledger_phys needed q : ℕ) (t : Tally)
    → (freed_page ledger_phys needed q t).pmm.total_frames ≡ t.pmm.total_frames
unfolding freed_page
total-freed_page ledger_phys needed q t = elim (Bool-cases (in_ledger ledger_phys needed q)) [
  | inl e ↦ rw e refl
  | inr e ↦ rw e (total-free_usable q t)
]

freed_page-mark :
    (ledger_phys needed q z : ℕ) (t : Tally)
    → z < t.pmm.total_frames
    → bitmap_test z (freed_page ledger_phys needed q t).pmm.bitmap
      ≡ (not ((q == z) && not (in_ledger ledger_phys needed z)) && bitmap_test z t.pmm.bitmap)
unfolding freed_page
freed_page-mark ledger_phys needed q z t inside =
    elim (Bool-cases (in_ledger ledger_phys needed q)) [
      | inl e ↦ rw e (ground arith)
      | inr e ↦ rw (e, free_usable-mark q z t inside) (ground arith)
    ]

free_pages-step :
    (ledger_phys needed left q : ℕ) (t : Tally)
    → free_pages ledger_phys needed (suc left) (q * page_size) t
      ≡ free_pages ledger_phys needed left (suc q * page_size) (freed_page ledger_phys needed q t)
unfolding free_pages freed_page
free_pages-step ledger_phys needed left q t =
    let index : q * page_size / page_size ≡ q = omega arith in
    let next : q * page_size + page_size ≡ suc q * page_size = omega arith in rw (index, next) refl

pub cleared_twice :
    (a b c d : Bool)
    → (not (b && not c) && (not (a && not c) && d)) ≡ (not ((a || b) && not c) && d)
cleared_twice a b c d = ground arith

pub free_pages-mark :
    (ledger_phys needed left q z : ℕ) (t : Tally)
    → z < t.pmm.total_frames
    → bitmap_test z (free_pages ledger_phys needed left (q * page_size) t).pmm.bitmap ≡ (
        not ((leb q z && ltb z (q + left)) && not (in_ledger ledger_phys needed z))
        && bitmap_test z t.pmm.bitmap)
unfolding free_pages
free_pages-mark ledger_phys needed zero q z t inside =
    let none : (leb q z && ltb z (q + 0)) ≡ false = ground arith in rw none refl
free_pages-mark ledger_phys needed (suc left) q z t inside =
    let u = freed_page ledger_phys needed q t in
    let total = total-freed_page ledger_phys needed q t in
    let rest = free_pages-mark ledger_phys needed left (suc q) z u (omega (arith, total)) in
    let now = freed_page-mark ledger_phys needed q z t inside in
    let split : (leb q z && ltb z (q + suc left))
        ≡ ((q == z) || (leb (suc q) z && ltb z (suc q + left))) =
      ground arith in
    ap (λ (v : Tally). bitmap_test z v.pmm.bitmap) (free_pages-step ledger_phys needed left q t)
    ∙ rest
    ∙ rw (now, split)
        (cleared_twice (q == z) (leb (suc q) z && ltb z (suc q + left))
          (in_ledger ledger_phys needed z) _)

total-freed :
    (ledger : Bool) (idx : ℕ) (t : Tally)
    → (if ledger then t else free_usable idx t).pmm.total_frames ≡ t.pmm.total_frames
total-freed true idx t = refl
total-freed false idx t = total-free_usable idx t

pub total-free_pages :
    (ledger_phys needed left addr : ℕ) (t : Tally)
    → (free_pages ledger_phys needed left addr t).pmm.total_frames ≡ t.pmm.total_frames
unfolding free_pages
total-free_pages ledger_phys needed zero addr t = refl
total-free_pages ledger_phys needed (suc left) addr t =
    let ledger = leb ledger_phys addr && ltb addr (ledger_phys + needed) in
    total-free_pages ledger_phys needed left (addr + page_size)
      (if ledger then t else free_usable (addr / page_size) t)
    ∙ total-freed ledger (addr / page_size) t
