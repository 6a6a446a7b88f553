-- ===== src/Pcid/Alloc.antt =====
-- What `pcid_alloc` hands out (kernel/pcid.c).
use reaper_operating_system.Base.{
  ℕ, suc, ◌+◌, ◌-◌, ◌/◌, ◌%◌, ◌≤◌, ◌<◌, ◌≡◌, refl, ap, ◌∙◌, ◌≢◌, ◌↔◌, true, false, ◌||◌, none, some,
  arith, ltb, ◌==◌, if◌then◌else◌, length, inl, inr, Option-cases, Bool-cases,
}
use reaper_operating_system.Base.Word.{u16, u32}
use reaper_operating_system.Pcid.{
  Pool, PcidAllocator, pcid_alloc, alloc_from, take_index, pcid_get_mode_base, mode_pool, with_pool,
  find_free, pcid_error, pcids_per_user_mode,
}
use reaper_operating_system.Pcid.Bitmap.{
  bitmap_test_relative, bitmap_test-set, length-bitmap_set, count_set-set,
}
use reaper_operating_system.Pcid.Range.{
  IsValid, mode_pool-IsUser, mode_count-IsUser, mode_base-IsUser, mode_pool-with, mode_pool-with_ne,
  find_free-some, find_free-all, count_set-all, count_set-clear_bit,
}

-- An identifier of the mode's own range, which was free and is now taken, and nothing else is.
pub record Granted (mode : ℕ) (p : Pool) (a : PcidAllocator) (id : ℕ) (b : PcidAllocator)
    : Type 0 where
  pub low : pcid_get_mode_base mode ≤ id
  pub high : id < pcid_get_mode_base mode + pcids_per_user_mode
  pub fresh : bitmap_test_relative p.bitmap (id - pcid_get_mode_base mode) ≡ false
  pub pool : Pool
  pub holds : mode_pool mode b ≡ some pool
  pub valid : IsValid pool
  pub taken :
      (j : ℕ)
      → j < pcids_per_user_mode
      → bitmap_test_relative pool.bitmap j
        ≡ (id - pcid_get_mode_base mode == j || bitmap_test_relative p.bitmap j)
  pub count : pool.allocated_count ≡ suc p.allocated_count
  pub others : (m : ℕ) → m ≢ mode → mode_pool m b ≡ mode_pool m a

raised_le : (c m b : ℕ) → c ≤ b → m ≤ b → (if ltb m c then c else m) ≤ b
raised_le c m b hc hm = ground arith

le_raised : (c m : ℕ) → c ≤ (if ltb m c then c else m)
le_raised c m = ground arith

take_index-IsValid :
    (idx : ℕ) (p : Pool)
    → IsValid p
    → idx < pcids_per_user_mode
    → bitmap_test_relative p.bitmap idx ≡ false
    → (IsValid (take_index pcids_per_user_mode idx p))
      × ((take_index pcids_per_user_mode idx p).allocated_count ≡ suc p.allocated_count)
unfolding take_index
take_index-IsValid idx p v small clear =
    let words = v.words in
    let fits : idx / 64 < length p.bitmap = omega arith in
    let counted = count_set-set p.bitmap idx 256 fits clear in
    let room = count_set-clear_bit p.bitmap idx 256 small clear in
    let old = v.count in
    let peak = v.peak in
    let top = v.peak_le in
    let next : (p.allocated_count + 1) % 4294967296 ≡ suc p.allocated_count = omega arith in
    let inside : ltb idx 256 ≡ true = ground arith in
    (
      record {
        words = length-bitmap_set p.bitmap idx ∙ words;
        hint = omega arith;
        count = next ∙ ground arith;
        peak = le_raised (u32 (p.allocated_count + 1)) p.max_count;
        peak_le =
            raised_le (u32 (p.allocated_count + 1)) p.max_count 256 (omega arith) (omega arith);
      },
      next,
    )

-- the state after a mode's index is taken
granted_state : (mode i : ℕ) → Pool → PcidAllocator → PcidAllocator
granted_state mode i p a = record (with_pool mode (take_index pcids_per_user_mode i p) a) {
  total_allocations = u32 (a.total_allocations + 1);
  total_reuses = if ltb 0 p.freed_count then u32 (a.total_reuses + 1) else a.total_reuses;
}

pcid_alloc-from :
    (mode : ℕ) (a : PcidAllocator) (p : Pool)
    → mode_pool mode a ≡ some p
    → pcid_alloc mode a ≡ alloc_from mode (pcid_get_mode_base mode) pcids_per_user_mode p a
unfolding pcid_alloc
pcid_alloc-from mode a p at =
    let user = mode_pool-IsUser mode a p at in
    let size = mode_count-IsUser mode user in
    let user_mode : (mode == 5) ≡ false = ground arith in
    rw (user_mode, at) (ap (λ n. alloc_from mode (pcid_get_mode_base mode) n p a) size)

alloc_from-none :
    (mode base : ℕ) (p : Pool) (a : PcidAllocator)
    → find_free p.bitmap p.next_hint pcids_per_user_mode pcids_per_user_mode 0 ≡ none
    → alloc_from mode base pcids_per_user_mode p a ≡ (pcid_error, a)
unfolding alloc_from
alloc_from-none mode base p a found = elim (Bool-cases (base == pcid_error)) [
  | inl e ↦ rw e refl
  | inr e ↦ rw (e, found) refl
]

alloc_from-some :
    (mode base i : ℕ) (p : Pool) (a : PcidAllocator)
    → (base == pcid_error) ≡ false
    → find_free p.bitmap p.next_hint pcids_per_user_mode pcids_per_user_mode 0 ≡ some i
    → alloc_from mode base pcids_per_user_mode p a ≡ (u16 (base + i), granted_state mode i p a)
unfolding alloc_from granted_state
alloc_from-some mode base i p a known found = rw (known, found) refl

Granted-state :
    (mode i : ℕ) (p : Pool) (a : PcidAllocator)
    → mode_pool mode a ≡ some p
    → IsValid p
    → i < pcids_per_user_mode
    → bitmap_test_relative p.bitmap i ≡ false
    → Granted mode p a (u16 (pcid_get_mode_base mode + i)) (granted_state mode i p a)
unfolding granted_state take_index with_pool mode_pool
Granted-state mode i p a at v small clear =
    let user = mode_pool-IsUser mode a p at in
    let base = mode_base-IsUser mode user in
    let next = take_index-IsValid i p v small clear in
    let words = v.words in
    let narrow : u16 (pcid_get_mode_base mode + i) ≡ pcid_get_mode_base mode + i = omega arith in
    let back : pcid_get_mode_base mode + i - pcid_get_mode_base mode ≡ i = omega arith in
    rw narrow (record {
      low = omega arith;
      high = omega arith;
      fresh = rw back clear;
      pool = take_index pcids_per_user_mode i p;
      holds = mode_pool-with mode (take_index pcids_per_user_mode i p) a user;
      valid = next.0;
      taken = λ j lt. rw back (bitmap_test-set p.bitmap i j (omega arith));
      count = next.1;
      others = λ m other. mode_pool-with_ne m mode (take_index pcids_per_user_mode i p) a other;
    })

-- For a mode with a valid pool, an identifier that pcid_alloc hands out lies in that mode's range
-- and was free; the pool it leaves is valid, has that identifier taken besides those that were,
-- counts one more, and the pools of the other modes are untouched.
pub pcid_alloc-Granted :
    (mode : ℕ) (a : PcidAllocator) (p : Pool)
    → mode_pool mode a ≡ some p
    → IsValid p
    → (pcid_alloc mode a).0 ≢ pcid_error
    → Granted mode p a (pcid_alloc mode a).0 (pcid_alloc mode a).1
pcid_alloc-Granted mode a p at v ok =
    elim (Option-cases (find_free p.bitmap p.next_hint pcids_per_user_mode pcids_per_user_mode 0)) [
      | inl found ↦ absurd (
          ok (
            ap (λ r. r.0)
              (pcid_alloc-from mode a p at
                ∙ alloc_from-none mode (pcid_get_mode_base mode) p a found)))
      | inr (i, found) ↦
          let base = mode_base-IsUser mode (mode_pool-IsUser mode a p at) in
          let fit = find_free-some p.bitmap p.next_hint 256 0 i found in
          let known : (pcid_get_mode_base mode == pcid_error) ≡ false = ground arith in
          let e =
            pcid_alloc-from mode a p at
            ∙ alloc_from-some mode (pcid_get_mode_base mode) i p a known found in
          rw e (Granted-state mode i p a at v fit.0 fit.1)
    ]

-- For a mode with a valid pool, pcid_alloc fails exactly when all 256 identifiers of the mode are
-- taken: the search from the hint misses none.
pub pcid_alloc-full :
    (mode : ℕ) (a : PcidAllocator) (p : Pool)
    → mode_pool mode a ≡ some p
    → IsValid p
    → ((pcid_alloc mode a).0 ≡ pcid_error) ↔ (p.allocated_count ≡ pcids_per_user_mode)
pcid_alloc-full mode a p at v =
    let count = v.count in
    elim (Option-cases (find_free p.bitmap p.next_hint pcids_per_user_mode pcids_per_user_mode 0)) [
      | inl found ↦
          let e =
            pcid_alloc-from mode a p at
            ∙ alloc_from-none mode (pcid_get_mode_base mode) p a found in
          (
            λ h.
                count
                ∙ count_set-all p.bitmap 256
                    (λ j lt. find_free-all p.bitmap p.next_hint j v.hint lt found),
            λ h. ap (λ r. r.0) e,
          )
      | inr (i, found) ↦
          let base = mode_base-IsUser mode (mode_pool-IsUser mode a p at) in
          let fit = find_free-some p.bitmap p.next_hint 256 0 i found in
          let known : (pcid_get_mode_base mode == pcid_error) ≡ false = ground arith in
          let e =
            ap (λ r. r.0)
              (pcid_alloc-from mode a p at
                ∙ alloc_from-some mode (pcid_get_mode_base mode) i p a known found) in
          let room = count_set-clear_bit p.bitmap i 256 fit.0 fit.1 in
          let user = mode_pool-IsUser mode a p at in
          (λ h. absurd (omega arith), λ h. absurd (omega arith))
    ]
