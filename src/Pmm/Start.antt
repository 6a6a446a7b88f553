-- ===== src/Pmm/Start.antt =====
-- The count of the free frames, and the frames that are still marked, while `pmm_init` frees the usable
-- entries of the memory map one after another.
use mathlib.Core.Path.{subst}
use reaper_operating_system.Base.{
  ℕ, zero, suc, ◌+◌, ◌/◌, ◌≤◌, ◌<◌, ◌≡◌, refl, sym, ap, ◌∙◌, ◌≢◌, inl, inr, true, false, ◌&&◌, ◌==◌,
  ltb, leb, ltb→lt, arith, Bool-cases, ==→eq, eq→==, ne→==, clash,
}
use reaper_operating_system.Contract.{page_size}
use reaper_operating_system.Pmm.{pmm_stack_end, bitmap_clear, bitmap_test}
use reaper_operating_system.Pmm.Init.{Tally, free_usable, free_pages}
use reaper_operating_system.Pmm.Marks.{test-clear}
use reaper_operating_system.Pmm.Fill.{free_from}

below_cleared :
    (left start idx : ℕ) (bm : ℕ → ℕ)
    → idx < start
    → free_from left start (bitmap_clear idx bm) ≡ free_from left start bm
below_cleared zero start idx bm h = refl
below_cleared (suc left) start idx bm h =
    let rest = below_cleared left (start + 1) idx bm (omega arith) in
    let apart = ne→== idx start (λ e. omega arith) in
    let same : bitmap_test start (bitmap_clear idx bm) ≡ bitmap_test start bm =
      test-clear bm idx start ∙ rw apart refl in
    rw (same, rest) refl

-- a marked frame that is cleared counts for one more
one_cleared :
    (left start idx : ℕ) (bm : ℕ → ℕ)
    → start ≤ idx
    → idx < start + left
    → bitmap_test idx bm ≡ true
    → free_from left start (bitmap_clear idx bm) ≡ suc (free_from left start bm)
one_cleared zero start idx bm low high marked = absurd (omega arith)
one_cleared (suc left) start idx bm low high marked = elim (Bool-cases (idx == start)) [
  | inl e ↦
      let at : idx ≡ start = ==→eq idx start e in
      let rest = below_cleared left (start + 1) idx bm (omega arith) in
      let was : bitmap_test start bm ≡ true = ap (λ i. bitmap_test i bm) (sym at) ∙ marked in
      let now : bitmap_test start (bitmap_clear idx bm) ≡ false =
        test-clear bm idx start ∙ rw e refl in
      rw (now, was, rest) refl
  | inr e ↦
      let ne : idx ≢ start = λ z. clash _ (eq→== idx start z) e in
      let rest = one_cleared left (start + 1) idx bm (omega arith) (omega arith) marked in
      let same : bitmap_test start (bitmap_clear idx bm) ≡ bitmap_test start bm =
        test-clear bm idx start ∙ rw e refl in
      elim (Bool-cases (bitmap_test start bm)) [
        | inl t ↦ rw (same, t, rest) refl
        | inr t ↦ rw (same, t, rest) refl
      ]
]

pub free_from-le : (left start : ℕ) (bm : ℕ → ℕ) → free_from left start bm ≤ left
free_from-le zero start bm = omega arith
free_from-le (suc left) start bm = ground (arith, free_from-le left (start + 1) bm)

pub none_free :
    (left start : ℕ) (bm : ℕ → ℕ)
    → ((z : ℕ) → start ≤ z → z < start + left → bitmap_test z bm ≡ true)
    → free_from left start bm ≡ 0
none_free zero start bm marked = refl
none_free (suc left) start bm marked =
    let here = marked start (omega arith) (omega arith) in
    let rest = none_free left (start + 1) bm (λ z low high. marked z (omega arith) (omega arith)) in
    rw here rest

-- The count is right, and the frames from `bound` on are still marked.
pub record Fresh (t : Tally) (total bound : ℕ) : Type 0 where
  pub frames : t.pmm.total_frames ≡ total
  pub small : total ≤ pmm_stack_end
  pub counted : t.pmm.free_frames ≡ free_from total 0 t.pmm.bitmap
  pub marked : (z : ℕ) → bound ≤ z → z < total → bitmap_test z t.pmm.bitmap ≡ true

pub Fresh-later :
    (t : Tally) (total bound bound' : ℕ)
    → bound ≤ bound'
    → Fresh t total bound
    → Fresh t total bound'
Fresh-later t total bound bound' h f = record {
  frames = f.frames;
  small = f.small;
  counted = f.counted;
  marked = λ z low high. f.marked z (omega arith) high;
}

free_usable-Fresh :
    (idx : ℕ) (t : Tally) (total : ℕ)
    → Fresh t total idx
    → Fresh (free_usable idx t) total (idx + 1)
unfolding free_usable
free_usable-Fresh idx t total f =
    let frames = f.frames in
    let small = f.small in
    let counted = f.counted in
    let bm = t.pmm.bitmap in
    elim (Bool-cases (ltb idx t.pmm.total_frames)) [
      | inr e ↦ rw e (record {
        frames = frames;
        small = small;
        counted = counted;
        marked = λ z low high. f.marked z (omega arith) high;
      })
      | inl e ↦
          let inside : idx < t.pmm.total_frames = ltb→lt idx t.pmm.total_frames e in
          let one =
            one_cleared total 0 idx bm (omega arith) (omega arith)
              (f.marked idx (omega arith) (omega arith)) in
          let bounded = free_from-le total 0 bm in
          rw e (record {
            frames = frames;
            small = small;
            counted = omega (arith, one, counted, bounded, small);
            marked = λ z low high.
                let apart = ne→== idx z (λ q. omega arith) in
                test-clear bm idx z ∙ rw apart (f.marked z (omega arith) high);
          })
    ]

pub free_pages-Fresh :
    (ledger_phys needed left addr : ℕ) (t : Tally) (total : ℕ)
    → Fresh t total (addr / page_size)
    → Fresh (free_pages ledger_phys needed left addr t) total (addr / page_size + left)
unfolding free_pages
free_pages-Fresh ledger_phys needed zero addr t total f =
    Fresh-later t total (addr / page_size) _ (omega arith) f
free_pages-Fresh ledger_phys needed (suc left) addr t total f =
    let next : (addr + page_size) / page_size ≡ addr / page_size + 1 = omega arith in
    let end : addr / page_size + 1 + left ≡ addr / page_size + suc left = omega arith in
    let go = λ (u : Tally). λ (g : Fresh u total (addr / page_size + 1)).
      subst (λ b. Fresh (free_pages ledger_phys needed left (addr + page_size) u) total b)
        (ap (λ q. q + left) next ∙ end)
        (free_pages-Fresh ledger_phys needed left (addr + page_size) u total
          (subst (λ b. Fresh u total b) (sym next) g)) in
    elim (Bool-cases (leb ledger_phys addr && ltb addr (ledger_phys + needed))) [
      | inl e ↦ rw e (go t (Fresh-later t total (addr / page_size) _ (omega arith) f))
      | inr e ↦
          rw e
            (go (free_usable (addr / page_size) t) (free_usable-Fresh (addr / page_size) t total f))
    ]
