-- ===== src/Pmm/Marks.antt =====
-- The bitmap of the frames: what marking a block changes, and what it leaves alone.
use reaper_operating_system.Base.{
  ℕ, zero, suc, ◌+◌, ◌/◌, ◌%◌, ◌^◌, ◌≤◌, ◌<◌, ◌≡◌, refl, ap, ◌∙◌, ◌≢◌, inl, inr, bit_and, bit_or,
  Bool, true, false, not, ◌||◌, ◌&&◌, arith, ◌==◌, Bool-cases, ==→eq, eq→==, ne→==, clash, ◌⊎◌,
  if◌then◌else◌, write,
}
use native.Mathlib.Nat.{pow-le-pow_right}
use reaper_operating_system.Base.Bits.{
  testbit, bit_not, has_flag-pow, testbit-bit_or, testbit-bit_and, testbit-pow, testbit-bit_not,
}
use reaper_operating_system.Pmm.{
  Pmm, FrameMetadata, bitmap_set, bitmap_clear, bitmap_test, mark_frame, mark_frames,
}

pow-lt : (k : ℕ) → k < 8 → 2 ^ k < 2 ^ 8
pow-lt k h =
    let below : 2 ^ k ≤ 2 ^ 7 = pow-le-pow_right (omega arith) {j = 7} (omega arith) in omega arith

pub test-bit : (bm : ℕ → ℕ) (i : ℕ) → bitmap_test i bm ≡ testbit (bm (i / 8)) (i % 8)
unfolding bitmap_test
test-bit bm i = has_flag-pow (i % 8) (bm (i / 8))

-- one frame's bit after a write to a byte
test_written :
    (bm : ℕ → ℕ) (byte v j : ℕ)
    → bitmap_test j (write bm byte v)
      ≡ (if byte == j / 8 then testbit v (j % 8) else bitmap_test j bm)
test_written bm byte v j = rw (test-bit, test-bit) (ground arith)

test-set : (bm : ℕ → ℕ) (i j : ℕ) → bitmap_test j (bitmap_set i bm) ≡ ((i == j) || bitmap_test j bm)
unfolding bitmap_set
test-set bm i j =
    let w = bm (i / 8) in
    rw (test_written bm (i / 8) (bit_or w (2 ^ (i % 8))) j, test-bit)
      (ground (arith, testbit-bit_or (j % 8) w (2 ^ (i % 8)), testbit-pow (i % 8) (j % 8)))

pub test-clear :
    (bm : ℕ → ℕ) (i j : ℕ) → bitmap_test j (bitmap_clear i bm) ≡ (not (i == j) && bitmap_test j bm)
unfolding bitmap_clear
test-clear bm i j =
    let w = bm (i / 8) in
    rw (test_written bm (i / 8) (bit_and w (bit_not 8 (2 ^ (i % 8)))) j, test-bit)
      (ground (
        arith,
        testbit-bit_and (j % 8) w (bit_not 8 (2 ^ (i % 8))),
        testbit-bit_not 8 (j % 8) (2 ^ (i % 8)) (omega arith) (pow-lt (i % 8) (omega arith)),
        testbit-pow (i % 8) (j % 8),
      ))

-- The free lists, their links and the counts are the same.
pub record SameLists (s s' : Pmm) : Type 0 where
  pub heads : s'.buddy_free_heads ≡ s.buddy_free_heads
  pub links : (y : ℕ) → (s'.metadata y).next_free_idx ≡ (s.metadata y).next_free_idx
  pub total : s'.total_frames ≡ s.total_frames
  pub free : s'.free_frames ≡ s.free_frames

pub SameLists-refl : (s : Pmm) → SameLists s s
SameLists-refl s = record { heads = refl; links = λ y. refl; total = refl; free = refl }

pub SameLists-trans : (s t u : Pmm) → SameLists s t → SameLists t u → SameLists s u
SameLists-trans s t u a b = record {
  heads = b.heads ∙ a.heads;
  links = λ y. b.links y ∙ a.links y;
  total = b.total ∙ a.total;
  free = b.free ∙ a.free;
}

-- a write to the table that keeps the link
pub write-link :
    (m : ℕ → FrameMetadata) (i y : ℕ) (v : FrameMetadata)
    → v.next_free_idx ≡ (m i).next_free_idx
    → (write m i v y).next_free_idx ≡ (m y).next_free_idx
write-link m i y v same = elim (Bool-cases (i == y)) [
  | inl e ↦ rw e (same ∙ ap (λ x. (m x).next_free_idx) (==→eq i y e))
  | inr e ↦ rw e refl
]

mark_frame-SameLists : (i : ℕ) (a : Bool) (s : Pmm) → SameLists s (mark_frame i a s)
unfolding mark_frame
mark_frame-SameLists i true s = record {
  heads = refl;
  links = λ y. write-link s.metadata i y _ refl;
  total = refl;
  free = refl;
}
mark_frame-SameLists i false s = record {
  heads = refl;
  links = λ y. write-link s.metadata i y _ refl;
  total = refl;
  free = refl;
}

mark_frame-bit :
    (i j : ℕ) (a : Bool) (s : Pmm)
    → bitmap_test j (mark_frame i a s).bitmap ≡ (if i == j then a else bitmap_test j s.bitmap)
unfolding mark_frame
mark_frame-bit i j true s = test-set s.bitmap i j ∙ ground arith
mark_frame-bit i j false s = test-clear s.bitmap i j ∙ ground arith

pub mark_frames-SameLists : (n i : ℕ) (a : Bool) (s : Pmm) → SameLists s (mark_frames n i a s)
unfolding mark_frames
mark_frames-SameLists zero i a s = SameLists-refl s
mark_frames-SameLists (suc n) i a s =
    SameLists-trans s (mark_frame i a s) (mark_frames n (i + 1) a (mark_frame i a s))
      (mark_frame-SameLists i a s) (mark_frames-SameLists n (i + 1) a (mark_frame i a s))

pub mark_frames-outside :
    (n i j : ℕ) (a : Bool) (s : Pmm)
    → (j < i) ⊎ (i + n ≤ j)
    → bitmap_test j (mark_frames n i a s).bitmap ≡ bitmap_test j s.bitmap
unfolding mark_frames
mark_frames-outside zero i j a s out = refl
mark_frames-outside (suc n) i j a s out =
    let apart : (i == j) ≡ false =
      ne→== i j (λ e. elim out [ inl l ↦ omega arith | inr l ↦ omega arith ]) in
    let later : (j < i + 1) ⊎ (i + 1 + n ≤ j) = elim out [
      | inl l ↦ inl (omega arith)
      | inr l ↦ inr (omega arith)
    ] in
    mark_frames-outside n (i + 1) j a (mark_frame i a s) later
    ∙ mark_frame-bit i j a s
    ∙ rw apart refl

pub mark_frames-inside :
    (n i j : ℕ) (a : Bool) (s : Pmm)
    → i ≤ j
    → j < i + n
    → bitmap_test j (mark_frames n i a s).bitmap ≡ a
unfolding mark_frames
mark_frames-inside zero i j a s low high = absurd (omega arith)
mark_frames-inside (suc n) i j a s low high = elim (Bool-cases (i == j)) [
  | inl e ↦
      let at : i ≡ j = ==→eq i j e in
      mark_frames-outside n (i + 1) j a (mark_frame i a s) (inl (omega arith))
      ∙ mark_frame-bit i j a s
      ∙ rw e refl
  | inr e ↦
      let ne : i ≢ j = λ z. clash _ (eq→== i j z) e in
      mark_frames-inside n (i + 1) j a (mark_frame i a s) (omega arith) (omega arith)
]
