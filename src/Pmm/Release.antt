-- ===== src/Pmm/Release.antt =====
-- The merging loop, and the release of a block as a whole.
use mathlib.Core.Path.{subst}
use native.Mathlib.Nat.{pow-suc}
use reaper_operating_system.Base.{
  ℕ, zero, suc, ◌+◌, ◌-◌, ◌*◌, ◌^◌, ◌≤◌, ◌<◌, ◌≡◌, refl, sym, ap, ◌∙◌, ◌⊎◌, inl, inr, bit_xor, true,
  false, List, ◌∷◌, ltb, arith, Bool-cases, write, if◌then◌else◌,
}
use reaper_operating_system.Base.Word.{u64}
use reaper_operating_system.Base.Bits.{bit_xor-pow}
use reaper_operating_system.Contract.{page_size}
use reaper_operating_system.Pmm.{
  Pmm, pmm_buddy_max_order, bitmap_test, mark_frames, pmm_set_block_bitmap, list_at, pmm_buddy_push,
  pmm_zone_from_phys,
}
use reaper_operating_system.Pmm.Blocks.{
  mergeable, pmm_buddy_remove, merge_block, pmm_buddy_free_block,
}
use reaper_operating_system.Pmm.Marks.{
  mark_frames-SameLists, mark_frames-outside, mark_frames-inside,
}
use reaper_operating_system.Pmm.Lists.{Vacant, Sound, Sound-marked, Sound-count}
use reaper_operating_system.Pmm.Split.{size-list_at}
use reaper_operating_system.Pmm.Removal.{Removed, pmm_buddy_remove-Removed}
use reaper_operating_system.Pmm.Sound.{Full}
use reaper_operating_system.Pmm.Free.{Merged, pushed, Removed-Joined}

merge_top :
    (zone order idx : ℕ) (s : Pmm)
    → merge_block zero zone order idx s ≡ pmm_buddy_push zone order idx s
unfolding merge_block
merge_top zone order idx s = refl

merge_stop :
    (left zone order idx : ℕ) (s : Pmm)
    → mergeable zone order (bit_xor idx (2 ^ order)) s ≡ false
    → merge_block (suc left) zone order idx s ≡ pmm_buddy_push zone order idx s
unfolding merge_block
merge_stop left zone order idx s e = rw e refl

merge_miss :
    (left zone order idx : ℕ) (s : Pmm)
    → mergeable zone order (bit_xor idx (2 ^ order)) s ≡ true
    → pmm_buddy_remove zone order (bit_xor idx (2 ^ order)) s ≡ (false, s)
    → merge_block (suc left) zone order idx s ≡ pmm_buddy_push zone order idx s
unfolding merge_block
merge_miss left zone order idx s e r = rw (e, r) refl

merge_on :
    (left zone order idx : ℕ) (s t : Pmm)
    → mergeable zone order (bit_xor idx (2 ^ order)) s ≡ true
    → pmm_buddy_remove zone order (bit_xor idx (2 ^ order)) s ≡ (true, t)
    → merge_block (suc left) zone order idx s
      ≡ merge_block left zone
          (order + 1)
          (if ltb (bit_xor idx (2 ^ order)) idx then bit_xor idx (2 ^ order) else idx)
          t
unfolding merge_block
merge_on left zone order idx s t e r = rw (e, r) refl

-- the lists of some state after the release of `n` frames
abbrev pub Outcome : (s u : Pmm) → (ℕ → List ℕ) → ℕ → Type 0
Outcome s u lists n = (lists' : ℕ → List ℕ) × (home' : ℕ → ℕ) × Merged s u lists lists' home' n

-- the loop stops with a push
pushed_alone :
    (zone order idx : ℕ) (s u : Pmm) (lists : ℕ → List ℕ) (home : ℕ → ℕ)
    → zone ≤ 2
    → order ≤ 10
    → Sound s lists home
    → Vacant home idx (2 ^ order)
    → idx + 2 ^ order ≤ s.total_frames
    → ((z : ℕ) → idx ≤ z → z < idx + 2 ^ order → bitmap_test z s.bitmap ≡ false)
    → u ≡ pmm_buddy_push zone order idx s
    → Outcome s u lists (2 ^ order)
pushed_alone zone order idx s u lists home hz ho sound vacant inside clear e =
    let k = list_at zone order in
    subst (λ v. Outcome s v lists (2 ^ order)) (sym e)
      ((
        write lists k (idx ∷ lists k),
        write home idx (suc k),
        pushed zone order idx s lists home hz ho sound vacant inside clear,
      ))

-- a removal, and a release of twice as much
Merged-joined :
    (s t u : Pmm) (lists lists' lists'' : ℕ → List ℕ) (home home'' : ℕ → ℕ) (zone order buddy : ℕ)
    → order ≤ 10
    → Removed s t lists lists' home (list_at zone order) buddy
    → Merged t u lists' lists'' home'' (2 ^ (order + 1))
    → Merged s u lists lists'' home'' (2 ^ order)
Merged-joined s t u lists lists' lists'' home home'' zone order buddy ho r m =
    let held = r.held in
    let held' = m.held in
    let size = size-list_at zone order ho in
    let double = pow-suc 2 order in
    let up : order + 1 ≡ suc order = omega arith in
    let grown = ap (λ o. 2 ^ o) up in
    record {
      sound = m.sound;
      held = omega (arith, held, held', size, double, grown);
      bits = m.bits ∙ r.frames.bits;
      total = m.total ∙ r.frames.total;
      free = m.free ∙ r.frames.free;
    }

pub merge_block-Merged :
    (left zone order idx : ℕ) (s : Pmm) (lists : ℕ → List ℕ) (home : ℕ → ℕ)
    → zone ≤ 2
    → order + left ≤ 10
    → Sound s lists home
    → Vacant home idx (2 ^ order)
    → idx + 2 ^ order ≤ s.total_frames
    → ((z : ℕ) → idx ≤ z → z < idx + 2 ^ order → bitmap_test z s.bitmap ≡ false)
    → Outcome s (merge_block left zone order idx s) lists (2 ^ order)
merge_block-Merged zero zone order idx s lists home hz ho sound vacant inside clear =
    pushed_alone zone order idx s _ lists home hz (omega arith) sound vacant inside clear
      (merge_top zone order idx s)
merge_block-Merged (suc left) zone order idx s lists home hz ho sound vacant inside clear =
    let buddy = bit_xor idx (2 ^ order) in
    let low : order ≤ 10 = omega arith in
    let alone =
      pushed_alone zone order idx s (merge_block (suc left) zone order idx s) lists home hz low
        sound vacant inside clear in
    elim (Bool-cases (mergeable zone order buddy s)) [
      | inr e ↦ alone (merge_stop left zone order idx s e)
      | inl e ↦ elim (pmm_buddy_remove-Removed zone order buddy s lists home hz low sound) [
        | inl miss ↦ alone (merge_miss left zone order idx s e miss.0)
        | inr found ↦
            let t = found.0 in
            let lists' = found.1 in
            let both =
              Removed-Joined s t lists lists' home zone order idx buddy low sound found.3
                (bit_xor-pow order idx) vacant inside clear in
            let up : order + 1 ≡ suc order = omega arith in
            let double : 2 * 2 ^ order ≡ 2 ^ (order + 1) =
              let grown = ap (λ o. 2 ^ o) up in omega (arith, grown, pow-suc 2 order) in
            let lower = if ltb buddy idx then buddy else idx in
            let below = both.inside in
            let rest =
              merge_block-Merged left zone (order + 1) lower t lists' (write home buddy 0) hz
                (omega arith) found.3.sound
                (subst (λ n. Vacant (write home buddy 0) lower n) double both.apart)
                (omega (arith, double, below)) (λ z h l. both.clear z h (omega (arith, double))) in
            (
              rest.0,
              rest.1,
              subst (λ u. Merged s u lists rest.0 rest.1 (2 ^ order))
                  (sym (merge_on left zone order idx s t e found.2))
                  (Merged-joined s t (merge_block left zone (order + 1) lower t) lists lists' rest.0
                    home rest.1 zone order buddy low found.3 rest.2),
            )
      ]
    ]

-- `n` frames from `x` on were allocated, and are free.
pub record Given (s s' : Pmm) (lists' : ℕ → List ℕ) (home' : ℕ → ℕ) (x n : ℕ) : Type 0 where
  pub full : Full s' lists' home'
  pub clear : (z : ℕ) → x ≤ z → z < x + n → bitmap_test z s'.bitmap ≡ false
  pub others : (z : ℕ) → (z < x) ⊎ (x + n ≤ z) → bitmap_test z s'.bitmap ≡ bitmap_test z s.bitmap
  pub more : s'.free_frames ≡ s.free_frames + n
  pub total : s'.total_frames ≡ s.total_frames

pub zone-small : (phys : ℕ) → pmm_zone_from_phys phys ≤ 2
unfolding pmm_zone_from_phys
zone-small phys = ground arith

-- With sound free lists that hold all free frames, the release of a block of a possible order
-- inside the memory that no free list reaches into, without overflow of the count, leaves sound
-- lists that hold all free frames, the block's frames clear, every other frame's mark as it was,
-- and the count greater by the block's frames, however far it merges with its buddies.
pub pmm_buddy_free_block-Given :
    (idx order : ℕ) (s : Pmm) (lists : ℕ → List ℕ) (home : ℕ → ℕ)
    → order ≤ pmm_buddy_max_order
    → Full s lists home
    → Vacant home idx (2 ^ order)
    → idx + 2 ^ order ≤ s.total_frames
    → s.free_frames + 2 ^ order < 18446744073709551616
    → (lists' : ℕ → List ℕ) × (home' : ℕ → ℕ) × Given s
        (pmm_buddy_free_block idx order s)
        lists'
        home'
        idx
        (2 ^ order)
unfolding pmm_buddy_free_block pmm_set_block_bitmap
pmm_buddy_free_block-Given idx order s lists home ho full vacant inside room =
    let n = 2 ^ order in
    let zone = pmm_zone_from_phys (idx * page_size) in
    let marked = mark_frames n idx false s in
    let same = mark_frames-SameLists n idx false s in
    let outside : (z : ℕ)
        → (z < idx) ⊎ (idx + n ≤ z)
        → bitmap_test z marked.bitmap ≡ bitmap_test z s.bitmap =
      λ z out. mark_frames-outside n idx z false s out in
    let kept = Sound-marked s marked lists home idx n full.sound vacant same outside in
    let counted : Pmm = record marked { free_frames = u64 (marked.free_frames + n) } in
    let sound : Sound counted lists home = Sound-count marked lists home _ kept in
    let total = same.total in
    let free = same.free in
    let merged =
      merge_block-Merged (pmm_buddy_max_order - order) zone order idx counted lists home
        (zone-small (idx * page_size)) (omega arith) sound vacant (omega (arith, total))
        (λ z low high. mark_frames-inside n idx z false s low high) in
    let m = merged.2 in
    let now = m.free in
    let held = m.held in
    let before = full.counted in
    (
      merged.0,
      merged.1,
      record {
        full = record {
          sound = m.sound;
          counted = omega (arith, now, free, held, before, room);
          small = omega (arith, now, free, room);
        };
        clear =
            λ z low high. ap (bitmap_test z) m.bits ∙ mark_frames-inside n idx z false s low high;
        others = λ z out. ap (bitmap_test z) m.bits ∙ outside z out;
        more = omega (arith, now, free, room);
        total = m.total ∙ total;
      },
    )
