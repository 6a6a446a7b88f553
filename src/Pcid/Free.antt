-- ===== src/Pcid/Free.antt =====
-- What `pcid_free` gives back (kernel/pcid.c), and that it undoes `pcid_alloc`.
use reaper_operating_system.Base.{
  ℕ, suc, ◌+◌, ◌-◌, ◌/◌, ◌≤◌, ◌<◌, ◌≡◌, refl, sym, ap, ◌∙◌, ◌≢◌, true, false, not, ◌||◌, ◌&&◌, some,
  List, ◌∷◌, arith, ltb, leb, ◌==◌, length, inl, inr, Bool-cases, ne→==, le→ltb, lt→ltb, lt→leb,
  ==_refl, ==→eq, ||-true_left,
}
use reaper_operating_system.Mode.{mode_kernel}
use reaper_operating_system.Pcid.{
  Pool, PcidAllocator, pcid_alloc, pcid_free, drop_index, pcid_get_mode_base, pcid_get_mode_count,
  mode_pool, with_pool, pcid_error, pcids_per_user_mode,
}
use reaper_operating_system.Pcid.Bitmap.{
  bitmap_test_relative, bitmap_test-clear, length-bitmap_clear, count_set-clear_below,
}
use reaper_operating_system.Pcid.Range.{
  IsValid, mode_pool-IsUser, mode_count-IsUser, mode_base-IsUser, mode_pool-with, mode_pool-with_ne,
}
use reaper_operating_system.Pcid.Alloc.{pcid_alloc-Granted}

-- The identifier was out, is free again, and no stale translation of it is left.
pub record Released (mode : ℕ) (p : Pool) (a : PcidAllocator) (id : ℕ) (b : PcidAllocator)
    : Type 0 where
  pub pool : Pool
  pub holds : mode_pool mode b ≡ some pool
  pub valid : IsValid pool
  pub taken :
      (j : ℕ)
      → j < pcids_per_user_mode
      → bitmap_test_relative pool.bitmap j
        ≡ (not (id - pcid_get_mode_base mode == j) && bitmap_test_relative p.bitmap j)
  pub count : suc pool.allocated_count ≡ p.allocated_count
  pub scrubbed : b.scrubbed ≡ id ∷ a.scrubbed
  pub others : (m : ℕ) → m ≢ mode → mode_pool m b ≡ mode_pool m a

drop_index-IsValid :
    (idx : ℕ) (p : Pool)
    → IsValid p
    → idx < pcids_per_user_mode
    → bitmap_test_relative p.bitmap idx ≡ true
    → (IsValid (drop_index idx p)) × (suc (drop_index idx p).allocated_count ≡ p.allocated_count)
unfolding drop_index
drop_index-IsValid idx p v small set =
    let words = v.words in
    let fits : idx / 64 < length p.bitmap = omega arith in
    let counted = count_set-clear_below p.bitmap idx 256 fits set small in
    let old = v.count in
    let peak = v.peak in
    let some_out : ltb 0 p.allocated_count ≡ true = lt→ltb 0 p.allocated_count (omega arith) in
    rw some_out (
      (
        record {
          words = length-bitmap_clear p.bitmap idx ∙ words;
          hint = v.hint;
          count = omega arith;
          peak = omega arith;
          peak_le = v.peak_le;
        },
        omega arith,
      ))

-- Freeing an identifier of a mode that is out keeps the pool valid, frees just that identifier,
-- counts one less, flushes the identifier's translations, and leaves the pools of the other modes
-- alone.
pub pcid_free-Released :
    (id mode : ℕ) (a : PcidAllocator) (p : Pool)
    → mode_pool mode a ≡ some p
    → IsValid p
    → pcid_get_mode_base mode ≤ id
    → id < pcid_get_mode_base mode + pcids_per_user_mode
    → bitmap_test_relative p.bitmap (id - pcid_get_mode_base mode) ≡ true
    → Released mode p a id (pcid_free id mode a)
unfolding pcid_free drop_index with_pool mode_pool
pcid_free-Released id mode a p at v low high out =
    let user = mode_pool-IsUser mode a p at in
    let size = mode_count-IsUser mode user in
    let base = mode_base-IsUser mode user in
    let user_mode : (mode == 5) ≡ false = ne→== mode 5 (λ e. omega arith) in
    let known : (id == pcid_error) ≡ false = ne→== id pcid_error (λ e. omega arith) in
    let above : ltb id (pcid_get_mode_base mode) ≡ false =
      le→ltb id (pcid_get_mode_base mode) low in
    let below : leb (pcid_get_mode_base mode + pcid_get_mode_count mode) id ≡ false =
      lt→leb (pcid_get_mode_base mode + pcid_get_mode_count mode) id (omega arith) in
    let next = drop_index-IsValid (id - pcid_get_mode_base mode) p v (omega arith) out in
    let words = v.words in
    rw (user_mode, known, above, below, at, out)
      (record {
        pool = drop_index (id - pcid_get_mode_base mode) p;
        holds = mode_pool-with mode (drop_index (id - pcid_get_mode_base mode) p) a user;
        valid = next.0;
        taken = λ j lt. bitmap_test-clear p.bitmap (id - pcid_get_mode_base mode) j (omega arith);
        count = next.1;
        scrubbed = refl;
        others = λ m other.
            mode_pool-with_ne m mode (drop_index (id - pcid_get_mode_base mode) p) a other;
      })

-- For a mode with a pool, freeing an identifier that is not out, as in a second free, changes
-- nothing.
pub pcid_free-idle :
    (id mode : ℕ) (a : PcidAllocator) (p : Pool)
    → mode_pool mode a ≡ some p
    → bitmap_test_relative p.bitmap (id - pcid_get_mode_base mode) ≡ false
    → pcid_free id mode a ≡ a
unfolding pcid_free
pcid_free-idle id mode a p at free = elim (Bool-cases (mode == mode_kernel)) [
  | inl e ↦ rw e refl
  | inr user ↦ elim (Bool-cases (id == pcid_error)) [
    | inl e ↦ rw (user, e) refl
    | inr known ↦
        elim (Bool-cases (
          ltb id (pcid_get_mode_base mode)
          || leb (pcid_get_mode_base mode + pcid_get_mode_count mode) id)) [
            | inl e ↦ rw (user, known, e) refl
            | inr e ↦ rw (user, known, e, at, free) refl
          ]
  ]
]

undone :
    (bm : List ℕ) (i j : ℕ)
    → bitmap_test_relative bm i ≡ false
    → (not (i == j) && (i == j || bitmap_test_relative bm j)) ≡ bitmap_test_relative bm j
undone bm i j clear = elim (Bool-cases (i == j)) [
  | inl e ↦ let same = ==→eq i j e in rw e (sym (ap (bitmap_test_relative bm) (sym same) ∙ clear))
  | inr e ↦ rw e refl
]

-- For a mode with a valid pool, freeing what pcid_alloc just handed out gives the mode a valid
-- pool with the identifiers and the count it had, and flushes the identifier's translations.
pub pcid_free-pcid_alloc :
    (mode : ℕ) (a : PcidAllocator) (p : Pool)
    → mode_pool mode a ≡ some p
    → IsValid p
    → (pcid_alloc mode a).0 ≢ pcid_error
    → let id = (pcid_alloc mode a).0 in
      let b = pcid_free id mode (pcid_alloc mode a).1 in
      (q : Pool) × (mode_pool mode b ≡ some q)
      × IsValid q
      × (q.allocated_count ≡ p.allocated_count)
      × ((j : ℕ)
          → j < pcids_per_user_mode
          → bitmap_test_relative q.bitmap j ≡ bitmap_test_relative p.bitmap j)
      × (b.scrubbed ≡ id ∷ (pcid_alloc mode a).1.scrubbed)
pcid_free-pcid_alloc mode a p at v ok =
    let id = (pcid_alloc mode a).0 in
    let b = (pcid_alloc mode a).1 in
    let g = pcid_alloc-Granted mode a p at v ok in
    let low = g.low in
    let high = g.high in
    let idx = id - pcid_get_mode_base mode in
    let out : bitmap_test_relative g.pool.bitmap idx ≡ true =
      g.taken idx (omega arith)
      ∙ ||-true_left (idx == idx) (bitmap_test_relative p.bitmap idx) (==_refl idx) in
    let r = pcid_free-Released id mode b g.pool g.holds g.valid low high out in
    let up = g.count in
    let down = r.count in
    (
      r.pool,
      r.holds,
      r.valid,
      omega arith,
      λ j lt.
          r.taken j lt
          ∙ ap (λ t. not (idx == j) && t) (g.taken j lt)
          ∙ undone p.bitmap idx j g.fresh,
      r.scrubbed,
    )
