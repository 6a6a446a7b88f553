-- ===== src/Pmm/Split.antt =====
-- A block is split: the upper halves go onto the free lists, and the lowest part is left over.
use mathlib.Core.Path.{subst}
use native.Mathlib.Nat.{pow-suc, one-le-pow}
use reaper_operating_system.Base.{
  ℕ, zero, suc, ◌+◌, ◌*◌, ◌%◌, ◌^◌, ◌≤◌, ◌<◌, ◌≡◌, refl, sym, ap, ◌∙◌, ◌⊎◌, inl, inr, false, List,
  ◌∷◌, leb, ltb, leb→le, ltb→lt, arith, Bool-cases, write,
}
use reaper_operating_system.Pmm.{
  Pmm, bitmap_test, mark_frames, pmm_set_block_bitmap, list_at, pmm_buddy_push,
}
use reaper_operating_system.Pmm.Blocks.{split_block}
use reaper_operating_system.Pmm.Marks.{
  mark_frames-SameLists, mark_frames-outside, mark_frames-inside,
}
use reaper_operating_system.Pmm.Lists.{
  Vacant, Sound, size_at, home-cases, pmm_buddy_push-Sound, Sound-marked,
}
use reaper_operating_system.Pmm.Count.{frames_held, frames_held-write, list_count}

-- A vacant block of `n` frames at `x`, not marked, is cut down to its first `m` frames: the rest is
-- on the lists. No bit changes, and no count.
pub record Carved (s s' : Pmm) (lists lists' : ℕ → List ℕ) (home' : ℕ → ℕ) (x n m : ℕ)
    : Type 0 where
  pub sound : Sound s' lists' home'
  pub left_over : Vacant home' x m
  pub held : frames_held list_count lists' + m ≡ frames_held list_count lists + n
  pub bits : (z : ℕ) → bitmap_test z s'.bitmap ≡ bitmap_test z s.bitmap
  pub total : s'.total_frames ≡ s.total_frames
  pub free : s'.free_frames ≡ s.free_frames

pub size-list_at : (zone order : ℕ) → order ≤ 10 → size_at (list_at zone order) ≡ 2 ^ order
size-list_at zone order h =
    let e : (zone * 11 + order) % 11 ≡ order = omega arith in ap (λ o. 2 ^ o) e

pub list_at-lt : (zone order : ℕ) → zone ≤ 2 → order ≤ 10 → list_at zone order < list_count
list_at-lt zone order hz ho = omega arith

-- inside or outside a range
pub range-cases : (x n z : ℕ) → ((x ≤ z) × (z < x + n)) ⊎ ((z < x) ⊎ (x + n ≤ z))
range-cases x n z = elim (Bool-cases (leb x z)) [
  | inl a ↦ elim (Bool-cases (ltb z (x + n))) [
    | inl b ↦ inl (leb→le x z a, ltb→lt z (x + n) b)
    | inr b ↦ inr (inr (ground arith))
  ]
  | inr a ↦ inr (inl (ground arith))
]

-- marking frames free that are not marked changes no bit
pub clear_again :
    (n x z : ℕ) (s : Pmm)
    → ((y : ℕ) → x ≤ y → y < x + n → bitmap_test y s.bitmap ≡ false)
    → bitmap_test z (mark_frames n x false s).bitmap ≡ bitmap_test z s.bitmap
clear_again n x z s clear = elim (range-cases x n z) [
  | inl within ↦
      mark_frames-inside n x z false s within.0 within.1 ∙ sym (clear z within.0 within.1)
  | inr out ↦ mark_frames-outside n x z false s out
]

-- the lower half of a block, once its upper half is on a list
lower_half :
    (home : ℕ → ℕ) (x p k : ℕ) → Vacant home x (2 * p) → Vacant (write home (x + p) (suc k)) x p
lower_half home x p k vacant b i hb = elim (home-cases home (x + p) (suc k) b i hb) [
  | inl at ↦ inr (omega arith)
  | inr old ↦ elim (vacant b i old.1) [ inl l ↦ inl l | inr l ↦ inr (omega arith) ]
]

upper_half : (home : ℕ → ℕ) (x p : ℕ) → Vacant home x (2 * p) → Vacant home (x + p) p
upper_half home x p vacant b i hb = elim (vacant b i hb) [
  | inl l ↦ inl (omega arith)
  | inr l ↦ inr (omega arith)
]

-- one upper half goes onto its list
half_pushed :
    (zone cur x : ℕ) (s : Pmm) (lists : ℕ → List ℕ) (home : ℕ → ℕ)
    → zone ≤ 2
    → cur ≤ 10
    → Sound s lists home
    → Vacant home x (2 * 2 ^ cur)
    → x + 2 * 2 ^ cur ≤ s.total_frames
    → ((y : ℕ) → x ≤ y → y < x + 2 * 2 ^ cur → bitmap_test y s.bitmap ≡ false)
    → let k = list_at zone cur in
      let y = x + 2 ^ cur in
      Carved s
        (pmm_buddy_push zone cur y (pmm_set_block_bitmap y cur false s))
        lists
        (write lists k (y ∷ lists k))
        (write home y (suc k))
        x
        (2 * 2 ^ cur)
        (2 ^ cur)
unfolding pmm_buddy_push pmm_set_block_bitmap
half_pushed zone cur x s lists home hz hc sound vacant inside clear =
    let p = 2 ^ cur in
    let k = list_at zone cur in
    let y = x + p in
    let size = size-list_at zone cur hc in
    let upper = upper_half home x p vacant in
    let same = mark_frames-SameLists p y false s in
    let marked = mark_frames p y false s in
    let again : (z : ℕ) → bitmap_test z marked.bitmap ≡ bitmap_test z s.bitmap =
      λ z. clear_again p y z s (λ w low high. clear w (omega arith) (omega arith)) in
    let kept = Sound-marked s marked lists home y p sound upper same (λ z out. again z) in
    let total = same.total in
    let counted = frames_held-write list_count k lists (y ∷ lists k) (list_at-lt zone cur hz hc) in
    record {
      sound =
          pmm_buddy_push-Sound zone cur y marked lists home kept
            (subst (λ n. Vacant home y n) (sym size) upper) (omega (arith, size, total))
            (λ z low high. again z ∙ clear z (omega arith) (omega (arith, size)));
      left_over = lower_half home x p k vacant;
      held = omega (arith, counted, size);
      bits = again;
      total = total;
      free = same.free;
    }

Carved-trans :
    (s t u : Pmm) (lists lists' lists'' : ℕ → List ℕ) (home' home'' : ℕ → ℕ) (x n m r : ℕ)
    → Carved s t lists lists' home' x n m
    → Carved t u lists' lists'' home'' x m r
    → Carved s u lists lists'' home'' x n r
Carved-trans s t u lists lists' lists'' home' home'' x n m r a b =
    let ha = a.held in
    let hb = b.held in
    record {
      sound = b.sound;
      left_over = b.left_over;
      held = omega arith;
      bits = λ z. b.bits z ∙ a.bits z;
      total = b.total ∙ a.total;
      free = b.free ∙ a.free;
    }

-- The splitting loop cuts a block of order `order + left` down to one of order `order`.
pub split_block-Carved :
    (left zone order x : ℕ) (s : Pmm) (lists : ℕ → List ℕ) (home : ℕ → ℕ)
    → zone ≤ 2
    → order + left ≤ 10
    → Sound s lists home
    → Vacant home x (2 ^ (order + left))
    → x + 2 ^ (order + left) ≤ s.total_frames
    → ((y : ℕ) → x ≤ y → y < x + 2 ^ (order + left) → bitmap_test y s.bitmap ≡ false)
    → (lists' : ℕ → List ℕ) × (home' : ℕ → ℕ) × Carved s
        (split_block left zone order x s)
        lists
        lists'
        home'
        x
        (2 ^ (order + left))
        (2 ^ order)
unfolding split_block
split_block-Carved zero zone order x s lists home hz hc sound vacant inside clear =
    let none : 2 ^ (order + 0) ≡ 2 ^ order = ap (λ o. 2 ^ o) (omega arith) in
    (
      lists,
      home,
      record {
        sound = sound;
        left_over = subst (λ n. Vacant home x n) none vacant;
        held = omega (arith, none);
        bits = λ z. refl;
        total = refl;
        free = refl;
      },
    )
split_block-Carved (suc left) zone order x s lists home hz hc sound vacant inside clear =
    let cur = order + left in
    let up : order + suc left ≡ suc cur = omega arith in
    let grown = ap (λ o. 2 ^ o) up in
    let double : 2 ^ (order + suc left) ≡ 2 * 2 ^ cur = omega (arith, grown, pow-suc 2 cur) in
    let pos = one-le-pow cur 2 (omega arith) in
    let y = x + 2 ^ cur in
    let first =
      half_pushed zone cur x s lists home hz (omega arith) sound
        (subst (λ n. Vacant home x n) double vacant) (omega arith)
        (λ z low high. clear z low (omega arith)) in
    let t = pmm_buddy_push zone cur y (pmm_set_block_bitmap y cur false s) in
    let total = first.total in
    let rest =
      split_block-Carved left zone order x t
        (write lists (list_at zone cur) (y ∷ lists (list_at zone cur)))
        (write home y (suc (list_at zone cur))) hz (omega arith) first.sound first.left_over
        (omega arith) (λ z low high. first.bits z ∙ clear z low (omega arith)) in
    (
      rest.0,
      rest.1,
      subst (λ n. Carved s (split_block left zone order x t) lists rest.0 rest.1 x n (2 ^ order))
          (sym double)
          (Carved-trans s t _ lists _ rest.0 _ rest.1 x (2 * 2 ^ cur) (2 ^ cur) (2 ^ order) first
            rest.2),
    )
