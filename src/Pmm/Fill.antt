-- ===== src/Pmm/Fill.antt =====
-- The first fill of the free lists: they are sound and hold just the frames that are free.
use mathlib.Core.Path.{subst}
use native.Mathlib.Nat.{one-le-pow}
use reaper_operating_system.Base.{
  ℕ, zero, suc, ◌+◌, ◌-◌, ◌*◌, ◌^◌, ◌≤◌, ◌<◌, ◌≡◌, refl, sym, ap, ◌∙◌, ◌≢◌, inl, inr, true, false,
  List, [], ◌∷◌, ◌==◌, ltb, leb, leb→le, le→leb, arith, Bool-cases, ==→eq, eq→==, clash, write,
  bit_and, if◌then◌else◌,
}
use reaper_operating_system.Contract.{page_size}
use reaper_operating_system.Pmm.{
  Pmm, pmm_stack_end, pmm_buddy_max_order, bitmap_test, list_at, pmm_buddy_push, pmm_zone_from_phys,
  pmm_block_fits_zone,
}
use reaper_operating_system.Pmm.Boot.{
  all_free, candidate_fits, best_order_from, fill_from, pmm_buddy_init_from_free_frames,
}
use reaper_operating_system.Pmm.Lists.{Sound, size_at, home-cases, same_size}
use reaper_operating_system.Pmm.Count.{frames_held, list_count}
use reaper_operating_system.Pmm.Split.{size-list_at}
use reaper_operating_system.Pmm.Free.{Merged, pushed}
use reaper_operating_system.Pmm.Sound.{Full}
use reaper_operating_system.Pmm.Release.{Outcome, zone-small}

-- the number of free frames from `idx` on, among `left`
abbrev pub free_from : (left idx : ℕ) → (ℕ → ℕ) → ℕ
free_from zero idx bitmap = 0
free_from (suc left) idx bitmap =
    let rest = free_from left (idx + 1) bitmap in if bitmap_test idx bitmap then rest else suc rest

all_free_step :
    (left idx : ℕ) (bitmap : ℕ → ℕ)
    → bitmap_test idx bitmap ≡ false
    → all_free (suc left) idx bitmap ≡ all_free left (idx + 1) bitmap
unfolding all_free
all_free_step left idx bitmap e = rw e refl

all_free-clear :
    (left idx z : ℕ) (bitmap : ℕ → ℕ)
    → all_free left idx bitmap ≡ true
    → idx ≤ z
    → z < idx + left
    → bitmap_test z bitmap ≡ false
unfolding all_free
all_free-clear zero idx z bitmap h low high = absurd (omega arith)
all_free-clear (suc left) idx z bitmap h low high = elim (Bool-cases (bitmap_test idx bitmap)) [
  | inl e ↦ clash _ h (rw e refl)
  | inr e ↦ elim (Bool-cases (z == idx)) [
    | inl t ↦ ap (λ i. bitmap_test i bitmap) (==→eq z idx t) ∙ e
    | inr t ↦
        let ne : z ≢ idx = λ q. clash _ (eq→== z idx q) t in
        let rest : all_free left (idx + 1) bitmap ≡ true =
          sym (all_free_step left idx bitmap e) ∙ h in
        all_free-clear left (idx + 1) z bitmap rest (omega arith) (omega arith)
  ]
]

-- what is known of the order that is found for a block at `idx`
record Fits (order idx : ℕ) (s : Pmm) : Type 0 where
  possible : order ≤ 10
  inside : idx + 2 ^ order ≤ s.total_frames
  clear : (z : ℕ) → idx ≤ z → z < idx + 2 ^ order → bitmap_test z s.bitmap ≡ false

candidate_step :
    (candidate idx zone : ℕ) (s : Pmm)
    → (bit_and idx (2 ^ candidate - 1) == 0) ≡ true
    → ltb s.total_frames (idx + 2 ^ candidate) ≡ false
    → pmm_block_fits_zone idx candidate zone s ≡ true
    → candidate_fits candidate idx zone s ≡ all_free (2 ^ candidate) idx s.bitmap
unfolding candidate_fits
candidate_step candidate idx zone s a b c = rw (a, b, c) refl

candidate-Fits :
    (candidate idx zone : ℕ) (s : Pmm)
    → candidate ≤ 10
    → candidate_fits candidate idx zone s ≡ true
    → Fits candidate idx s
unfolding candidate_fits
candidate-Fits candidate idx zone s ho h =
    elim (Bool-cases (bit_and idx (2 ^ candidate - 1) == 0)) [
      | inr a ↦ clash _ h (rw a refl)
      | inl a ↦ elim (Bool-cases (ltb s.total_frames (idx + 2 ^ candidate))) [
        | inl b ↦ clash _ h (rw (a, b) refl)
        | inr b ↦ elim (Bool-cases (pmm_block_fits_zone idx candidate zone s)) [
          | inr c ↦ clash _ h (rw (a, b, c) refl)
          | inl c ↦
              let free : all_free (2 ^ candidate) idx s.bitmap ≡ true =
                sym (candidate_step candidate idx zone s a b c) ∙ h in
              record {
                possible = ho;
                inside = ground arith;
                clear = λ z low high. all_free-clear (2 ^ candidate) idx z s.bitmap free low high;
              }
        ]
      ]
    ]

best_order-Fits :
    (left best_order idx zone : ℕ) (s : Pmm)
    → best_order + left ≤ 10
    → Fits best_order idx s
    → Fits (best_order_from left best_order idx zone s) idx s
unfolding best_order_from
best_order-Fits zero best_order idx zone s ho fits = fits
best_order-Fits (suc left) best_order idx zone s ho fits =
    elim (Bool-cases (candidate_fits (best_order + 1) idx zone s)) [
      | inl e ↦ rw e (
          best_order-Fits left (best_order + 1) idx zone s (omega arith)
            (candidate-Fits (best_order + 1) idx zone s (omega arith) e))
      | inr e ↦ rw e fits
    ]

free_from-block :
    (pages left idx : ℕ) (bitmap : ℕ → ℕ)
    → ((z : ℕ) → idx ≤ z → z < idx + pages → bitmap_test z bitmap ≡ false)
    → free_from (pages + left) idx bitmap ≡ pages + free_from left (idx + pages) bitmap
free_from-block zero left idx bitmap clear =
    let here : idx + 0 ≡ idx = omega arith in
    let same = ap (λ i. free_from left i bitmap) here in
    let none : 0 + left ≡ left = omega arith in
    let again = ap (λ n. free_from n idx bitmap) none in omega (arith, same, again)
free_from-block (suc pages) left idx bitmap clear =
    let first = clear idx (omega arith) (omega arith) in
    let rest =
      free_from-block pages left (idx + 1) bitmap
        (λ z low high. clear z (omega arith) (omega arith)) in
    let shift : idx + 1 + pages ≡ idx + suc pages = omega arith in
    let moved = ap (λ i. free_from left i bitmap) shift in
    let count : suc pages + left ≡ suc (pages + left) = omega arith in
    let step : free_from (suc (pages + left)) idx bitmap
        ≡ suc (free_from (pages + left) (idx + 1) bitmap) =
      rw first refl in
    ap (λ n. free_from n idx bitmap) count ∙ step ∙ omega (arith, rest, moved)

Merged-trans :
    (s t u : Pmm) (lists lists' lists'' : ℕ → List ℕ) (home' home'' : ℕ → ℕ) (n m : ℕ)
    → Merged s t lists lists' home' n
    → Merged t u lists' lists'' home'' m
    → Merged s u lists lists'' home'' (n + m)
Merged-trans s t u lists lists' lists'' home' home'' n m a b =
    let x = a.held in
    let y = b.held in
    record {
      sound = b.sound;
      held = omega (arith, x, y);
      bits = b.bits ∙ a.bits;
      total = b.total ∙ a.total;
      free = b.free ∙ a.free;
    }

fill_end : (fuel idx : ℕ) (s : Pmm) → leb s.total_frames idx ≡ true → fill_from fuel idx s ≡ s
unfolding fill_from
fill_end zero idx s e = refl
fill_end (suc fuel) idx s e = rw e refl

fill_skip :
    (fuel idx : ℕ) (s : Pmm)
    → leb s.total_frames idx ≡ false
    → bitmap_test idx s.bitmap ≡ true
    → fill_from (suc fuel) idx s ≡ fill_from fuel (idx + 1) s
unfolding fill_from
fill_skip fuel idx s e b = rw (e, b) refl

fill_push :
    (fuel idx : ℕ) (s : Pmm)
    → leb s.total_frames idx ≡ false
    → bitmap_test idx s.bitmap ≡ false
    → let zone = pmm_zone_from_phys (idx * page_size) in
      let order = best_order_from pmm_buddy_max_order 0 idx zone s in
      fill_from (suc fuel) idx s
      ≡ fill_from fuel (idx + 2 ^ order) (pmm_buddy_push zone order idx s)
unfolding fill_from
fill_push fuel idx s e b = rw (e, b) refl

-- all blocks on the lists lie below `idx`
abbrev Below : (ℕ → ℕ) → ℕ → Type 0
Below home idx = (b k : ℕ) → home b ≡ suc k → b + size_at k ≤ idx

Below-pushed :
    (home : ℕ → ℕ) (zone order idx : ℕ)
    → order ≤ 10
    → Below home idx
    → Below (write home idx (suc (list_at zone order))) (idx + 2 ^ order)
Below-pushed home zone order idx ho below b k hb =
    let size = size-list_at zone order ho in
    elim (home-cases home idx (suc (list_at zone order)) b k hb) [
      | inl at ↦ let same = same_size (list_at zone order) k at.1 in omega (arith, size, same)
      | inr old ↦ let low = below b k old.1 in omega (arith, low)
    ]

-- the loop has passed the last frame
filled :
    (fuel idx : ℕ) (s : Pmm) (lists : ℕ → List ℕ) (home : ℕ → ℕ)
    → s.total_frames ≤ idx
    → Sound s lists home
    → Outcome s (fill_from fuel idx s) lists (free_from (s.total_frames - idx) idx s.bitmap)
filled fuel idx s lists home past sound =
    let none : s.total_frames - idx ≡ 0 = omega arith in
    let done : Outcome s s lists 0 = (
      lists,
      home,
      record { sound = sound; held = omega arith; bits = refl; total = refl; free = refl },
    ) in
    subst (λ u. Outcome s u lists (free_from (s.total_frames - idx) idx s.bitmap))
      (sym (fill_end fuel idx s (le→leb s.total_frames idx past)))
      (subst (λ n. Outcome s s lists n) (sym (ap (λ n. free_from n idx s.bitmap) none)) done)

-- Enough fuel for the frames that are left: they are on the lists, where they are free.
fill_from-Merged :
    (fuel idx : ℕ) (s : Pmm) (lists : ℕ → List ℕ) (home : ℕ → ℕ)
    → s.total_frames ≤ idx + fuel
    → Sound s lists home
    → Below home idx
    → Outcome s (fill_from fuel idx s) lists (free_from (s.total_frames - idx) idx s.bitmap)
fill_from-Merged zero idx s lists home enough sound below =
    filled zero idx s lists home (omega arith) sound
fill_from-Merged (suc fuel) idx s lists home enough sound below =
    elim (Bool-cases (leb s.total_frames idx)) [
      | inl e ↦ filled (suc fuel) idx s lists home (leb→le s.total_frames idx e) sound
      | inr e ↦
          let room : idx < s.total_frames = ground arith in
          let one : s.total_frames - idx ≡ suc (s.total_frames - (idx + 1)) = omega arith in
          elim (Bool-cases (bitmap_test idx s.bitmap)) [
            | inl b ↦
                let count : free_from (s.total_frames - idx) idx s.bitmap
                    ≡ free_from (s.total_frames - (idx + 1)) (idx + 1) s.bitmap =
                  ap (λ n. free_from n idx s.bitmap) one ∙ rw b refl in
                subst (λ u. Outcome s u lists (free_from (s.total_frames - idx) idx s.bitmap))
                  (sym (fill_skip fuel idx s e b))
                  (subst (λ n. Outcome s (fill_from fuel (idx + 1) s) lists n) (sym count)
                    (fill_from-Merged fuel (idx + 1) s lists home (omega arith) sound
                      (λ c k hc. let low = below c k hc in omega arith)))
            | inr b ↦
                let zone = pmm_zone_from_phys (idx * page_size) in
                let order = best_order_from pmm_buddy_max_order 0 idx zone s in
                let single : Fits 0 idx s = record {
                  possible = omega arith;
                  inside = omega arith;
                  clear = λ z low high.
                      let at : z ≡ idx = omega arith in ap (λ i. bitmap_test i s.bitmap) at ∙ b;
                } in
                let fits = best_order-Fits 10 0 idx zone s (omega arith) single in
                let inside = fits.inside in
                let pos = one-le-pow order 2 (omega arith) in
                let t = pmm_buddy_push zone order idx s in
                let first =
                  pushed zone order idx s lists home (zone-small (idx * page_size)) fits.possible
                    sound (λ c k hc. inl (below c k hc)) inside fits.clear in
                let total = first.total in
                let rest =
                  fill_from-Merged fuel (idx + 2 ^ order) t
                    (write lists (list_at zone order) (idx ∷ lists (list_at zone order)))
                    (write home idx (suc (list_at zone order))) (omega (arith, total, pos, enough))
                    first.sound (Below-pushed home zone order idx fits.possible below) in
                let left : s.total_frames - idx ≡ 2 ^ order + (s.total_frames - (idx + 2 ^ order)) =
                  omega (arith, inside) in
                let count : free_from (s.total_frames - idx) idx s.bitmap
                    ≡ 2 ^ order
                      + free_from (t.total_frames - (idx + 2 ^ order)) (idx + 2 ^ order) t.bitmap =
                  ap (λ n. free_from n idx s.bitmap) left
                  ∙ free_from-block (2 ^ order) (s.total_frames - (idx + 2 ^ order)) idx s.bitmap
                      fits.clear
                  ∙ ap
                      (λ m.
                        2 ^ order
                        + free_from (s.total_frames - (idx + 2 ^ order)) (idx + 2 ^ order) m)
                      (sym first.bits)
                  ∙ ap
                      (λ m.
                        2 ^ order + free_from (m - (idx + 2 ^ order)) (idx + 2 ^ order) t.bitmap)
                      (sym total) in
                (
                  rest.0,
                  rest.1,
                  subst
                      (λ u.
                        Merged s u lists rest.0 rest.1
                          (free_from (s.total_frames - idx) idx s.bitmap))
                      (sym (fill_push fuel idx s e b))
                      (subst
                        (λ n. Merged s (fill_from fuel (idx + 2 ^ order) t) lists rest.0 rest.1 n)
                        (sym count)
                        (Merged-trans s t _ lists _ rest.0 _ rest.1 (2 ^ order) _ first rest.2)),
                )
          ]
    ]

no_frames : (n : ℕ) → frames_held n (λ k. []) ≡ 0
no_frames zero = refl
no_frames (suc n) = let rest = no_frames n in omega (arith, rest)

-- fill
pub pmm_buddy_init_from_free_frames-Full :
    (s : Pmm)
    → s.total_frames ≤ pmm_stack_end
    → s.free_frames ≡ free_from s.total_frames 0 s.bitmap
    → s.free_frames < 18446744073709551616
    → (lists : ℕ → List ℕ) × (home : ℕ → ℕ) × Full (pmm_buddy_init_from_free_frames s) lists home
      × ((pmm_buddy_init_from_free_frames s).bitmap ≡ s.bitmap)
      × ((pmm_buddy_init_from_free_frames s).total_frames ≡ s.total_frames)
      × ((pmm_buddy_init_from_free_frames s).free_frames ≡ s.free_frames)
unfolding pmm_buddy_init_from_free_frames
pmm_buddy_init_from_free_frames-Full s small counted fits =
    let t : Pmm = record s { buddy_free_heads = λ at. pmm_stack_end } in
    let sound : Sound t (λ k. []) (λ x. 0) = record {
      chains = λ k. refl;
      homed = λ k. tt;
      distinct = λ k. tt;
      ordered = λ b c k j hb hc lt. absurd (omega arith);
      bounded = λ b k hb. absurd (omega arith);
      unmarked = λ b k y hb low high. absurd (omega arith);
      small = small;
    } in
    let outcome =
      fill_from-Merged s.total_frames 0 t (λ k. []) (λ x. 0) (omega arith) sound
        (λ b k hb. absurd (omega arith)) in
    let m = outcome.2 in
    let held = m.held in
    let none = no_frames list_count in
    let free = m.free in
    let whole : s.total_frames - 0 ≡ s.total_frames = omega arith in
    let same = ap (λ n. free_from n 0 s.bitmap) whole in
    (
      outcome.0,
      outcome.1,
      record {
        sound = m.sound;
        counted = omega (arith, held, none, free, counted, same);
        small = omega (arith, free, fits);
      },
      m.bits,
      m.total,
      m.free,
    )
