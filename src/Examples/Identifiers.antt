-- ===== src/Examples/Identifiers.antt =====
-- The PCID allocator after boot: one identifier taken and given back.
use reaper_operating_system.Base.{
  ℕ, ◌-◌, ◌≡◌, refl, ◌≢◌, ◌↔◌, true, false, some, [], ◌∷◌, arith, ◌<◌,
}
use reaper_operating_system.Pcid.{
  Pool, PcidAllocator, empty_pool, pcid_alloc, alloc_from, pcid_free, mode_pool, pcid_error,
  pcids_per_user_mode, find_free, pcid_get_mode_base, pcid_get_mode_count,
}
use reaper_operating_system.Pcid.Bitmap.{bitmap_test_relative}
use reaper_operating_system.Pcid.Range.{IsValid}
use reaper_operating_system.Pcid.Alloc.{Granted, pcid_alloc-Granted, pcid_alloc-full}
use reaper_operating_system.Pcid.Free.{Released, pcid_free-Released, pcid_free-pcid_alloc}

abbrev start : PcidAllocator
start = record {
  casual = empty_pool;
  secure = empty_pool;
  lockdown = empty_pool;
  ghost = empty_pool;
  total_allocations = 0;
  total_reuses = 0;
  total_tlb_scrubs = 0;
  scrubbed = [];
}

empty-IsValid : IsValid empty_pool
unfolding bitmap_test_relative
empty-IsValid = record {
  words = refl;
  hint = omega arith;
  count = refl;
  peak = omega arith;
  peak_le = omega arith;
}

secure_pool : mode_pool 2 start ≡ some empty_pool
unfolding mode_pool
secure_pool = refl

first : (pcid_alloc 2 start).0 ≡ 257
unfolding pcid_alloc alloc_from mode_pool pcid_get_mode_base pcid_get_mode_count find_free
    bitmap_test_relative
first = refl

first_ok : (pcid_alloc 2 start).0 ≢ pcid_error
first_ok e = omega (arith, first)

pcid_alloc-Granted_example :
    Granted 2 empty_pool start (pcid_alloc 2 start).0 (pcid_alloc 2 start).1
pcid_alloc-Granted_example =
    pcid_alloc-Granted 2 start empty_pool secure_pool empty-IsValid first_ok

pcid_alloc-full_example :
    ((pcid_alloc 2 start).0 ≡ pcid_error) ↔ (empty_pool.allocated_count ≡ pcids_per_user_mode)
pcid_alloc-full_example = pcid_alloc-full 2 start empty_pool secure_pool empty-IsValid

-- the allocator with the Secure mode's identifier 259 out
abbrev one_out : Pool
one_out = record {
  bitmap = 4 ∷ 0 ∷ 0 ∷ 0 ∷ [];
  next_hint = 3;
  allocated_count = 1;
  max_count = 1;
  freed_count = 0;
}

abbrev busy : PcidAllocator
busy = record start { secure = one_out }

one_out-IsValid : IsValid one_out
unfolding bitmap_test_relative
one_out-IsValid = record {
  words = refl;
  hint = omega arith;
  count = refl;
  peak = omega arith;
  peak_le = omega arith;
}

busy_pool : mode_pool 2 busy ≡ some one_out
unfolding mode_pool
busy_pool = refl

base : pcid_get_mode_base 2 ≡ 257
unfolding pcid_get_mode_base
base = refl

out : bitmap_test_relative one_out.bitmap (259 - pcid_get_mode_base 2) ≡ true
unfolding bitmap_test_relative pcid_get_mode_base
out = refl

pcid_free-Released_example : Released 2 one_out busy 259 (pcid_free 259 2 busy)
pcid_free-Released_example =
    pcid_free-Released 259 2 busy one_out busy_pool one_out-IsValid (omega (arith, base))
      (omega (arith, base)) out

not_out : bitmap_test_relative one_out.bitmap (258 - pcid_get_mode_base 2) ≡ false
unfolding bitmap_test_relative pcid_get_mode_base
not_out = refl

pcid_free-pcid_alloc_example :
    let id = (pcid_alloc 2 start).0 in
    let b = pcid_free id 2 (pcid_alloc 2 start).1 in
    (q : Pool) × (mode_pool 2 b ≡ some q)
    × IsValid q
    × (q.allocated_count ≡ 0)
    × ((j : ℕ)
        → j < pcids_per_user_mode
        → bitmap_test_relative q.bitmap j ≡ bitmap_test_relative empty_pool.bitmap j)
    × (b.scrubbed ≡ id ∷ (pcid_alloc 2 start).1.scrubbed)
pcid_free-pcid_alloc_example =
    pcid_free-pcid_alloc 2 start empty_pool secure_pool empty-IsValid first_ok
