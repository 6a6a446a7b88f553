-- ===== src/Pmm/Count.antt =====
-- How many frames the free lists hold.
use reaper_operating_system.Base.{
  ℕ, zero, suc, ◌+◌, ◌≤◌, ◌<◌, ◌≡◌, refl, ap, ◌≢◌, inl, inr, List, [], ◌∷◌, ◌==◌, arith, Bool-cases,
  ==→eq, eq→==, clash, write, write_ne, length,
}
use reaper_operating_system.Pmm.Lists.{size_at, size-pos}

-- the frames of a list of blocks of one size
abbrev pub list_frames : (size : ℕ) → List ℕ → ℕ
list_frames size [] = 0
list_frames size (x ∷ xs) = size + list_frames size xs

-- the frames of the first `n` lists; there are 33 for three zones and eleven orders
abbrev pub frames_held : (n : ℕ) → (ℕ → List ℕ) → ℕ
frames_held zero lists = 0
frames_held (suc n) lists = frames_held n lists + list_frames (size_at n) (lists n)

abbrev pub list_count : ℕ
list_count = 33

above-write :
    (n k : ℕ) (lists : ℕ → List ℕ) (ys : List ℕ)
    → n ≤ k
    → frames_held n (write lists k ys) ≡ frames_held n lists
above-write zero k lists ys h = refl
above-write (suc n) k lists ys h =
    let rest = above-write n k lists ys (omega arith) in
    let same = write_ne lists k n ys (λ e. omega arith) in rw (rest, same) refl

-- A change of one list counts for as much as that list.
pub frames_held-write :
    (n k : ℕ) (lists : ℕ → List ℕ) (ys : List ℕ)
    → k < n
    → frames_held n (write lists k ys) + list_frames (size_at k) (lists k)
      ≡ frames_held n lists + list_frames (size_at k) ys
frames_held-write zero k lists ys h = absurd (omega arith)
frames_held-write (suc n) k lists ys h = elim (Bool-cases (k == n)) [
  | inl e ↦
      let at = ==→eq k n e in
      let rest = above-write n k lists ys (omega arith) in
      let new : write lists k ys n ≡ ys = rw e refl in
      let a = ap (list_frames (size_at n)) new in
      let b = ap (λ j. list_frames (size_at j) (lists j)) at in
      let c = ap (λ j. list_frames (size_at j) ys) at in omega (arith, rest, a, b, c)
  | inr e ↦
      let ne : k ≢ n = λ z. clash _ (eq→== k n z) e in
      let rest = frames_held-write n k lists ys (omega arith) in
      let a = ap (list_frames (size_at n)) (write_ne lists k n ys ne) in omega (arith, rest, a)
]

pub length-frames : (k : ℕ) (xs : List ℕ) → length xs ≤ list_frames (size_at k) xs
length-frames k [] = omega arith
length-frames k (x ∷ xs) = let pos = size-pos k in omega (arith, pos, length-frames k xs)

-- No list is longer than there are frames on the lists.
pub length-frames_held :
    (n k : ℕ) (lists : ℕ → List ℕ) → k < n → length (lists k) ≤ frames_held n lists
length-frames_held zero k lists h = absurd (omega arith)
length-frames_held (suc n) k lists h = elim (Bool-cases (k == n)) [
  | inl e ↦
      let at = ==→eq k n e in
      let a = ap (λ j. length (lists j)) at in omega (arith, a, length-frames n (lists n))
  | inr e ↦
      let ne : k ≢ n = λ z. clash _ (eq→== k n z) e in
      omega (arith, length-frames_held n k lists (omega arith))
]
