-- ===== src/Pcid/Range.antt =====
-- What one mode's pool keeps, and what the allocator is per mode (kernel/pcid.c).
use reaper_operating_system.Base.{
  ℕ, zero, suc, ◌+◌, ◌-◌, ◌*◌, ◌%◌, ◌≤◌, ◌<◌, ◌≡◌, refl, sym, ap, ◌≢◌, true, false, none, some,
  List, arith, ◌==◌, length, inl, inr, Bool-cases,
}
use reaper_operating_system.Mode.{mode_casual, mode_ghost}
use reaper_operating_system.Pcid.{
  Pool, PcidAllocator, pcid_get_mode_base, pcid_get_mode_count, mode_pool, with_pool, find_free,
  pcids_per_user_mode,
}
use reaper_operating_system.Pcid.Bitmap.{bitmap_test_relative, count_set, count_set-le}

-- The bitmap has its four words, the hint stays in the range, and the counters count: as many
-- identifiers are out as bits are set, and never more than the recorded maximum.
pub record IsValid (p : Pool) : Type 0 where
  pub words : length p.bitmap ≡ 4
  pub hint : p.next_hint < pcids_per_user_mode
  pub count : p.allocated_count ≡ count_set p.bitmap pcids_per_user_mode
  pub peak : p.allocated_count ≤ p.max_count
  pub peak_le : p.max_count ≤ pcids_per_user_mode

-- a mode with identifiers of its own
abbrev pub IsUser : ℕ → Type 0
IsUser mode = (mode_casual ≤ mode) × (mode ≤ mode_ghost)

pub mode_pool-IsUser :
    (mode : ℕ) (a : PcidAllocator) (p : Pool) → mode_pool mode a ≡ some p → IsUser mode
unfolding mode_pool
mode_pool-IsUser mode a p h = ground arith

pub mode_count-IsUser : (mode : ℕ) → IsUser mode → pcid_get_mode_count mode ≡ pcids_per_user_mode
unfolding pcid_get_mode_count
mode_count-IsUser mode user = ground arith

pub mode_base-IsUser : (mode : ℕ) → IsUser mode → pcid_get_mode_base mode + 255 ≡ 256 * mode
unfolding pcid_get_mode_base
mode_base-IsUser mode user = ground arith

pub mode_pool-with :
    (mode : ℕ) (p : Pool) (a : PcidAllocator)
    → IsUser mode
    → mode_pool mode (with_pool mode p a) ≡ some p
unfolding mode_pool with_pool
mode_pool-with mode p a user = ground arith

pub mode_pool-with_ne :
    (m mode : ℕ) (p : Pool) (a : PcidAllocator)
    → m ≢ mode
    → mode_pool m (with_pool mode p a) ≡ mode_pool m a
unfolding mode_pool with_pool
mode_pool-with_ne m mode p a other = ground arith

pub find_free-some :
    (bm : List ℕ) (hint left i idx : ℕ)
    → find_free bm hint pcids_per_user_mode left i ≡ some idx
    → (idx < pcids_per_user_mode) × (bitmap_test_relative bm idx ≡ false)
unfolding find_free
find_free-some bm hint zero i idx h = cc
find_free-some bm hint (suc left) i idx h =
    elim (Bool-cases (bitmap_test_relative bm ((hint + i) % 256 % 65536))) [
      | inl e ↦ find_free-some bm hint left (i + 1) idx (ground arith)
      | inr e ↦ ground arith
    ]

pub find_free-none :
    (bm : List ℕ) (hint left i j : ℕ)
    → find_free bm hint pcids_per_user_mode left i ≡ none
    → i ≤ j
    → j < i + left
    → bitmap_test_relative bm ((hint + j) % pcids_per_user_mode) ≡ true
unfolding find_free
find_free-none bm hint zero i j h lo hi = absurd (omega arith)
find_free-none bm hint (suc left) i j h lo hi =
    let narrow : (hint + i) % 256 % 65536 ≡ (hint + i) % 256 = omega arith in
    elim (Bool-cases (bitmap_test_relative bm ((hint + i) % 256))) [
      | inl e ↦ elim (Bool-cases (i == j)) [
        | inl here ↦ let same : i ≡ j = ground arith in rw (sym same) e
        | inr later ↦
            find_free-none bm hint left (i + 1) j (ground arith) (ground arith) (omega arith)
      ]
      | inr e ↦ absurd (ground arith)
    ]

-- A search of the whole range from any hint misses nothing.
pub find_free-all :
    (bm : List ℕ) (hint j : ℕ)
    → hint < 256
    → j < 256
    → find_free bm hint pcids_per_user_mode pcids_per_user_mode 0 ≡ none
    → bitmap_test_relative bm j ≡ true
find_free-all bm hint j low small h =
    let reached : (hint + (j + 256 - hint) % 256) % 256 ≡ j = omega arith in
    (rw (sym reached)
      (find_free-none bm hint 256 0 ((j + 256 - hint) % 256) h (omega arith) (omega arith)))

pub count_set-all :
    (bm : List ℕ) (n : ℕ)
    → ((j : ℕ) → j < n → bitmap_test_relative bm j ≡ true)
    → count_set bm n ≡ n
count_set-all bm zero h = refl
count_set-all bm (suc n) h =
    let here = h n (omega arith) in
    rw here (ap suc (count_set-all bm n (λ j lt. h j (omega arith))))

-- a clear bit below `n` leaves the count below `n`
pub count_set-clear_bit :
    (bm : List ℕ) (i n : ℕ) → i < n → bitmap_test_relative bm i ≡ false → count_set bm n < n
count_set-clear_bit bm i zero lt clear = absurd (omega arith)
count_set-clear_bit bm i (suc n) lt clear = elim (Bool-cases (i == n)) [
  | inl e ↦ ground (arith, count_set-le bm n)
  | inr e ↦ ground (arith, count_set-clear_bit bm i n (ground arith) clear)
]
