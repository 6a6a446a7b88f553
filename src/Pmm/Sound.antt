-- ===== src/Pmm/Sound.antt =====
-- What the allocation of a block does: the block's frames were free, no free list reaches into them
-- any more, and they are marked; no other frame is touched.
use mathlib.Core.Path.{subst}
use native.Mathlib.Nat.{one-le-pow, pow-le-pow_right}
use reaper_operating_system.Base.{
  ℕ, ◌+◌, ◌^◌, ◌≤◌, ◌<◌, ◌≡◌, ap, ◌∙◌, ◌⊎◌, true, false, List, ◌∷◌, arith, write,
}
use reaper_operating_system.Base.Word.{sub64}
use reaper_operating_system.Pmm.{
  Pmm, bitmap_test, mark_frames, pmm_set_block_bitmap, list_at, pmm_buddy_pop,
}
use reaper_operating_system.Pmm.Blocks.{split_block, take_block}
use reaper_operating_system.Pmm.Marks.{
  mark_frames-SameLists, mark_frames-outside, mark_frames-inside,
}
use reaper_operating_system.Pmm.Lists.{
  Vacant, Sound, size_at, Vacant-left, pmm_buddy_pop-Sound, Sound-marked, Sound-write,
  pmm_buddy_pop-frame, Vacant-homeless,
}
use reaper_operating_system.Pmm.Count.{list_frames, frames_held, frames_held-write, list_count}
use reaper_operating_system.Pmm.Split.{split_block-Carved, size-list_at, list_at-lt}

-- The free lists are sound and hold all free frames.
pub record Full (s : Pmm) (lists : ℕ → List ℕ) (home : ℕ → ℕ) : Type 0 where
  pub sound : Sound s lists home
  pub counted : s.free_frames ≡ frames_held list_count lists
  pub small : s.free_frames < 18446744073709551616

-- `n` frames from `x` on were free, and are allocated.
pub record Taken (s s' : Pmm) (lists' : ℕ → List ℕ) (home' : ℕ → ℕ) (x n : ℕ) : Type 0 where
  pub full : Full s' lists' home'
  pub apart : Vacant home' x n
  pub inside : x + n ≤ s.total_frames
  pub was_free : (z : ℕ) → x ≤ z → z < x + n → bitmap_test z s.bitmap ≡ false
  pub marked : (z : ℕ) → x ≤ z → z < x + n → bitmap_test z s'.bitmap ≡ true
  pub others : (z : ℕ) → (z < x) ⊎ (x + n ≤ z) → bitmap_test z s'.bitmap ≡ bitmap_test z s.bitmap
  pub fewer : s'.free_frames + n ≡ s.free_frames
  pub total : s'.total_frames ≡ s.total_frames

-- a block at `x` is taken off list `k` with home and split down to `order`
pub take_block-Taken :
    (order above zone x : ℕ) (xs : List ℕ) (s : Pmm) (lists : ℕ → List ℕ) (home : ℕ → ℕ)
    → zone ≤ 2
    → order + above ≤ 10
    → Full s lists home
    → lists (list_at zone (order + above)) ≡ x ∷ xs
    → (lists' : ℕ → List ℕ) × (home' : ℕ → ℕ) × Taken s
        (take_block order x
          (split_block above zone order x (pmm_buddy_pop zone (order + above) s).1))
        lists'
        home'
        x
        (2 ^ order)
unfolding take_block pmm_set_block_bitmap
take_block-Taken order above zone x xs s lists home hz ho full e =
    let k = list_at zone (order + above) in
    let size = size-list_at zone (order + above) ho in
    let popped = pmm_buddy_pop-Sound zone (order + above) x xs s lists home full.sound e in
    let t = (pmm_buddy_pop zone (order + above) s).1 in
    let frame = pmm_buddy_pop-frame zone (order + above) s in
    let was = popped.2 in
    let t_total = frame.1 in
    let in_range = full.sound.bounded x k was in
    let free_before : (z : ℕ)
        → x ≤ z
        → z < x + 2 ^ (order + above)
        → bitmap_test z s.bitmap ≡ false =
      λ z low high. full.sound.unmarked x k z was low (omega (arith, size)) in
    let vacant =
      subst (λ n. Vacant (write home x 0) x n) size (Vacant-left s lists home x k full.sound was) in
    let split =
      split_block-Carved above zone order x t (write lists k xs) (write home x 0) hz ho popped.3
        vacant (omega (arith, size))
        (λ z low high. ap (bitmap_test z) frame.0 ∙ free_before z low high) in
    let carved = split.2 in
    let u = split_block above zone order x t in
    let p = 2 ^ order in
    let same = mark_frames-SameLists p x true u in
    let v = mark_frames p x true u in
    let pos = one-le-pow order 2 (omega arith) in
    let less : 2 ^ order ≤ 2 ^ (order + above) =
      pow-le-pow_right (omega arith) {j = order + above} (omega arith) in
    let sound =
      Sound-marked u v split.0 split.1 x p carved.sound carved.left_over same
        (λ z out. mark_frames-outside p x z true u out) in
    let counted = full.counted in
    let small = full.small in
    let popped_frames =
      frames_held-write list_count k lists xs (list_at-lt zone (order + above) hz ho) in
    let first = ap (list_frames (size_at k)) e in
    let held = carved.held in
    let free : v.free_frames ≡ s.free_frames = same.free ∙ carved.free ∙ frame.2 in
    (
      split.0,
      split.1,
      record {
        full = record {
          sound =
              Sound-write v split.0 split.1 x (sub64 v.free_frames p) _ sound
                (Vacant-homeless split.1 x p carved.left_over pos);
          counted = omega (arith, size, popped_frames, first, held, free, counted, small);
          small = omega arith;
        };
        apart = carved.left_over;
        inside = omega (arith, size);
        was_free = λ z low high. free_before z low (omega arith);
        marked = λ z low high. mark_frames-inside p x z true u low high;
        others = λ z out.
            mark_frames-outside p x z true u out ∙ carved.bits z ∙ ap (bitmap_test z) frame.0;
        fewer = omega (arith, size, popped_frames, first, held, free, counted, small);
        total = same.total ∙ carved.total ∙ frame.1;
      },
    )
