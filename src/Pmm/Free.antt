-- ===== src/Pmm/Free.antt =====
-- What the release of a block does: its frames are free and on a list, merged with its buddies as far
-- as they are free; no other frame is touched.
use mathlib.Core.Path.{subst}
use native.Mathlib.Nat.{one-le-pow}
use reaper_operating_system.Base.{
  ℕ, suc, ◌+◌, ◌*◌, ◌^◌, ◌≤◌, ◌<◌, ◌≡◌, refl, sym, ap, ◌∙◌, ◌⊎◌, inl, inr, false, List, ◌∷◌, ltb,
  ltb→lt, lt→ltb, le→ltb, arith, Bool-cases, write, if◌then◌else◌,
}
use reaper_operating_system.Pmm.{Pmm, bitmap_test, list_at, pmm_buddy_push}
use reaper_operating_system.Pmm.Lists.{
  Vacant, Sound, size-pos, Vacant-left, still_home, pmm_buddy_push-Sound,
}
use reaper_operating_system.Pmm.Count.{frames_held, frames_held-write, list_count}
use reaper_operating_system.Pmm.Split.{size-list_at, list_at-lt}
use reaper_operating_system.Pmm.Removal.{Removed}

-- `n` frames that were vacant are on the lists, and no bit changed.
pub record Merged (s s' : Pmm) (lists lists' : ℕ → List ℕ) (home' : ℕ → ℕ) (n : ℕ) : Type 0 where
  pub sound : Sound s' lists' home'
  pub held : frames_held list_count lists' ≡ frames_held list_count lists + n
  pub bits : s'.bitmap ≡ s.bitmap
  pub total : s'.total_frames ≡ s.total_frames
  pub free : s'.free_frames ≡ s.free_frames

-- two vacant ranges, side by side
Vacant-both :
    (home : ℕ → ℕ) (x n : ℕ) → Vacant home x n → Vacant home (x + n) n → Vacant home x (2 * n)
Vacant-both home x n low high b k hb =
    let pos = size-pos k in
    elim (low b k hb) [
      | inl l ↦ inl l
      | inr l ↦ elim (high b k hb) [ inl m ↦ absurd (omega arith) | inr m ↦ inr (omega arith) ]
    ]

-- a range stays vacant when a block leaves the lists
Vacant-fewer : (home : ℕ → ℕ) (x n y : ℕ) → Vacant home x n → Vacant (write home y 0) x n
Vacant-fewer home x n y vacant b k hb = vacant b k (still_home home y b k hb).1

-- a push on its own
pub pushed :
    (zone order idx : ℕ) (s : Pmm) (lists : ℕ → List ℕ) (home : ℕ → ℕ)
    → zone ≤ 2
    → order ≤ 10
    → Sound s lists home
    → Vacant home idx (2 ^ order)
    → idx + 2 ^ order ≤ s.total_frames
    → ((z : ℕ) → idx ≤ z → z < idx + 2 ^ order → bitmap_test z s.bitmap ≡ false)
    → let k = list_at zone order in
      Merged s
        (pmm_buddy_push zone order idx s)
        lists
        (write lists k (idx ∷ lists k))
        (write home idx (suc k))
        (2 ^ order)
unfolding pmm_buddy_push
pushed zone order idx s lists home hz ho sound vacant inside clear =
    let k = list_at zone order in
    let size = size-list_at zone order ho in
    let counted =
      frames_held-write list_count k lists (idx ∷ lists k) (list_at-lt zone order hz ho) in
    record {
      sound =
          pmm_buddy_push-Sound zone order idx s lists home sound
            (subst (λ n. Vacant home idx n) (sym size) vacant) (omega (arith, size))
            (λ z low high. clear z low (omega (arith, size)));
      held = omega (arith, counted, size);
      bits = refl;
      total = refl;
      free = refl;
    }

-- the lower of a block and its buddy, and what the two cover
lower_of :
    (idx buddy n : ℕ)
    → (buddy ≡ idx + n) ⊎ (buddy + n ≡ idx)
    → 1 ≤ n
    → (((if ltb buddy idx then buddy else idx) ≡ idx) × (buddy ≡ idx + n))
      ⊎ (((if ltb buddy idx then buddy else idx) ≡ buddy) × (idx ≡ buddy + n))
lower_of idx buddy n side pos = elim side [
  | inl up ↦ let t = le→ltb buddy idx (omega arith) in inl (rw t refl, up)
  | inr down ↦ let t = lt→ltb buddy idx (omega arith) in inr (rw t refl, sym down)
]

-- A block and the buddy that left the lists are one vacant block of free frames.
pub record Joined (s : Pmm) (home : ℕ → ℕ) (lower n : ℕ) : Type 0 where
  pub apart : Vacant home lower (2 * n)
  pub inside : lower + 2 * n ≤ s.total_frames
  pub clear : (z : ℕ) → lower ≤ z → z < lower + 2 * n → bitmap_test z s.bitmap ≡ false

join :
    (s : Pmm) (home : ℕ → ℕ) (x n : ℕ)
    → Vacant home x n
    → Vacant home (x + n) n
    → x + n + n ≤ s.total_frames
    → ((z : ℕ) → x ≤ z → z < x + n → bitmap_test z s.bitmap ≡ false)
    → ((z : ℕ) → x + n ≤ z → z < x + n + n → bitmap_test z s.bitmap ≡ false)
    → Joined s home x n
join s home x n low high inside clear clear' = record {
  apart = Vacant-both home x n low high;
  inside = omega arith;
  clear = λ z above below. elim (Bool-cases (ltb z (x + n))) [
    | inl e ↦ clear z above (ltb→lt z (x + n) e)
    | inr e ↦ clear' z (ground arith) (omega arith)
  ];
}

pub Removed-Joined :
    (s t : Pmm) (lists lists' : ℕ → List ℕ) (home : ℕ → ℕ) (zone order idx buddy : ℕ)
    → order ≤ 10
    → Sound s lists home
    → Removed s t lists lists' home (list_at zone order) buddy
    → (buddy ≡ idx + 2 ^ order) ⊎ (buddy + 2 ^ order ≡ idx)
    → Vacant home idx (2 ^ order)
    → idx + 2 ^ order ≤ s.total_frames
    → ((z : ℕ) → idx ≤ z → z < idx + 2 ^ order → bitmap_test z s.bitmap ≡ false)
    → Joined t (write home buddy 0) (if ltb buddy idx then buddy else idx) (2 ^ order)
Removed-Joined s t lists lists' home zone order idx buddy ho sound r side vacant inside clear =
    let k = list_at zone order in
    let n = 2 ^ order in
    let pos = one-le-pow order 2 (omega arith) in
    let size = size-list_at zone order ho in
    let bits = r.frames.bits in
    let total = r.frames.total in
    let here = Vacant-fewer home idx n buddy vacant in
    let there =
      subst (λ m. Vacant (write home buddy 0) buddy m) size
        (Vacant-left s lists home buddy k sound r.was) in
    let in_range = sound.bounded buddy k r.was in
    let kept : (z : ℕ) → idx ≤ z → z < idx + n → bitmap_test z t.bitmap ≡ false =
      λ z low high. ap (bitmap_test z) bits ∙ clear z low high in
    let free : (z : ℕ) → buddy ≤ z → z < buddy + n → bitmap_test z t.bitmap ≡ false = λ z low high.
      ap (bitmap_test z) bits ∙ sound.unmarked buddy k z r.was low (omega (arith, size)) in
    let home' = write home buddy 0 in
    elim (lower_of idx buddy n side pos) [
      | inl c ↦
          subst (λ x. Joined t home' x n) (sym c.0)
            (join t home' idx n here (subst (λ b. Vacant home' b n) c.1 there) (omega (arith, size))
              kept (λ z low high. free z (omega arith) (omega arith)))
      | inr c ↦
          subst (λ x. Joined t home' x n) (sym c.0)
            (join t home' buddy n there (subst (λ b. Vacant home' b n) c.1 here)
              (omega (arith, size)) free (λ z low high. kept z (omega arith) (omega arith)))
    ]
