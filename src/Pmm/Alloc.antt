-- ===== src/Pmm/Alloc.antt =====
-- The search for a block: over the orders of a zone, and over the zones.
use mathlib.Core.Path.{subst}
use reaper_operating_system.Base.{
  ℕ, zero, suc, ◌+◌, ◌-◌, ◌*◌, ◌^◌, ◌≤◌, ◌<◌, ◌≡◌, refl, sym, ap, ◌∙◌, ◌≢◌, ◌⊎◌, inl, inr, Option,
  none, some, List, [], ◌∷◌, ◌==◌, arith, Bool-cases, eq→==, ne→==, ==→eq, clash,
}
use reaper_operating_system.Contract.{page_size}
use reaper_operating_system.Pmm.{
  Pmm, pmm_buddy_max_order, pmm_stack_end, pmm_zone_dma, pmm_zone_normal, pmm_zone_high,
  pmm_zone_any, list_at, pmm_buddy_pop,
}
use reaper_operating_system.Pmm.Blocks.{
  split_block, take_block, alloc_from_orders, alloc_from_zones, pmm_buddy_alloc_block, zones_to_try,
}
use reaper_operating_system.Pmm.Lists.{pmm_buddy_pop-Sound, pmm_buddy_pop-empty}
use reaper_operating_system.Pmm.Sound.{Full, Taken, take_block-Taken}

-- a block was found, and taken
abbrev pub Found : Pmm → (order : ℕ) → Option (ℕ × Pmm) → Type 0
Found s order r =
    (x : ℕ) × (s' : Pmm) × (lists' : ℕ → List ℕ) × (home' : ℕ → ℕ) × (r ≡ some (x, s'))
    × Taken s s' lists' home' x (2 ^ order)

-- These lists of a zone hold no block.
abbrev pub Empty : (ℕ → List ℕ) → (zone low high : ℕ) → Type 0
Empty lists zone low high = (o : ℕ) → low ≤ o → o < high → lists (list_at zone o) ≡ []

list-cases : (xs : List ℕ) → (xs ≡ []) ⊎ ((x : ℕ) × (ys : List ℕ) × (xs ≡ x ∷ ys))
list-cases [] = inl refl
list-cases (x ∷ ys) = inr (x, ys, refl)

no_orders : (above zone order : ℕ) (s : Pmm) → alloc_from_orders zero above zone order s ≡ none
unfolding alloc_from_orders
no_orders above zone order s = refl

search_on :
    (left above zone order : ℕ) (s : Pmm)
    → pmm_buddy_pop zone (order + above) s ≡ (pmm_stack_end, s)
    → alloc_from_orders (suc left) above zone order s
      ≡ alloc_from_orders left (above + 1) zone order s
unfolding alloc_from_orders
search_on left above zone order s e = rw e refl

search_ends :
    (left above zone order : ℕ) (s : Pmm)
    → (pmm_buddy_pop zone (order + above) s).0 ≢ pmm_stack_end
    → alloc_from_orders (suc left) above zone order s
      ≡ some (
        (pmm_buddy_pop zone (order + above) s).0,
        take_block order (pmm_buddy_pop zone (order + above) s).0 (
            split_block above zone order
              (pmm_buddy_pop zone (order + above) s).0
              (pmm_buddy_pop zone (order + above) s).1),
      )
unfolding alloc_from_orders
search_ends left above zone order s ne = let test = ne→== _ _ ne in rw test refl

pub alloc_from_orders-Found :
    (left above zone order : ℕ) (s : Pmm) (lists : ℕ → List ℕ) (home : ℕ → ℕ)
    → zone ≤ 2
    → order + above + left ≤ 11
    → Full s lists home
    → ((alloc_from_orders left above zone order s ≡ none)
        × Empty lists zone (order + above) (order + above + left))
      ⊎ Found s order (alloc_from_orders left above zone order s)
alloc_from_orders-Found zero above zone order s lists home hz ho full =
    inl (no_orders above zone order s, λ o low high. absurd (omega arith))
alloc_from_orders-Found (suc left) above zone order s lists home hz ho full =
    elim (list-cases (lists (list_at zone (order + above)))) [
      | inl e ↦
          let step =
            search_on left above zone order s
              (pmm_buddy_pop-empty zone (order + above) s lists home full.sound e) in
          elim (alloc_from_orders-Found left (above + 1) zone order s lists home hz (omega arith)
            full) [
              | inl stop ↦ inl (
                step ∙ stop.0,
                λ o low high. elim (Bool-cases (o == order + above)) [
                  | inl t ↦ ap (λ i. lists (list_at zone i)) (==→eq o (order + above) t) ∙ e
                  | inr t ↦
                      let ne : o ≢ order + above = λ z. clash _ (eq→== o _ z) t in
                      stop.1 o (omega arith) (omega arith)
                ],
              )
              | inr found ↦ inr (found.0, found.1, found.2, found.3, step ∙ found.4, found.5)
            ]
      | inr c ↦
          let popped =
            pmm_buddy_pop-Sound zone (order + above) c.0 c.1 s lists home full.sound c.2 in
          let taken =
            take_block-Taken order above zone c.0 c.1 s lists home hz (omega arith) full c.2 in
          let t = (pmm_buddy_pop zone (order + above) s).1 in
          inr (
            c.0,
            take_block order c.0 (split_block above zone order c.0 t),
            taken.0,
            taken.1,
            search_ends left above zone order s (λ z. popped.1 (sym popped.0 ∙ z))
                ∙ ap (λ x. some (x, take_block order x (split_block above zone order x t)))
                    popped.0,
            taken.2,
          )
    ]

-- the zones of a list exist, and have no block of this order or a greater one
abbrev pub Zones : List ℕ → Type 0
Zones [] = Unit {0}
Zones (zone ∷ zones) = (zone ≤ 2) × Zones zones

abbrev pub Exhausted : (ℕ → List ℕ) → (order : ℕ) → List ℕ → Type 0
Exhausted lists order [] = Unit {0}
Exhausted lists order (zone ∷ zones) = Empty lists zone order 11 × Exhausted lists order zones

next_zone :
    (zone : ℕ) (zones : List ℕ) (order : ℕ) (s : Pmm)
    → alloc_from_orders (pmm_buddy_max_order + 1 - order) 0 zone order s ≡ none
    → alloc_from_zones (zone ∷ zones) order s ≡ alloc_from_zones zones order s
unfolding alloc_from_zones
next_zone zone zones order s e = rw (alloc_from_zones, e) refl

this_zone :
    (zone : ℕ) (zones : List ℕ) (order : ℕ) (s : Pmm) (r : ℕ × Pmm)
    → alloc_from_orders (pmm_buddy_max_order + 1 - order) 0 zone order s ≡ some r
    → alloc_from_zones (zone ∷ zones) order s ≡ some r
unfolding alloc_from_zones
this_zone zone zones order s r e = rw (alloc_from_zones, e) refl

no_zones : (order : ℕ) (s : Pmm) → alloc_from_zones [] order s ≡ none
unfolding alloc_from_zones
no_zones order s = refl

alloc_from_zones-Found :
    (zones : List ℕ) (order : ℕ) (s : Pmm) (lists : ℕ → List ℕ) (home : ℕ → ℕ)
    → Zones zones
    → order ≤ 10
    → Full s lists home
    → ((alloc_from_zones zones order s ≡ none) × Exhausted lists order zones)
      ⊎ Found s order (alloc_from_zones zones order s)
alloc_from_zones-Found [] order s lists home hz ho full = inl (no_zones order s, tt)
alloc_from_zones-Found (zone ∷ zones) order s lists home hz ho full =
    elim (alloc_from_orders-Found (pmm_buddy_max_order + 1 - order) 0 zone order s lists home hz.0
      (omega arith) full) [
        | inl stop ↦
            let step = next_zone zone zones order s stop.0 in
            elim (alloc_from_zones-Found zones order s lists home hz.1 ho full) [
              | inl none_left ↦ inl (
                step ∙ none_left.0,
                ((λ o low high. stop.1 o (omega arith) (omega arith)), none_left.1),
              )
              | inr found ↦ inr (found.0, found.1, found.2, found.3, step ∙ found.4, found.5)
            ]
        | inr found ↦
            inr
              (found.0, found.1, found.2, found.3, this_zone zone zones order s _ found.4, found.5)
      ]

zones_to_try-Zones : (preferred_zone : ℕ) → preferred_zone ≤ 3 → Zones (zones_to_try preferred_zone)
zones_to_try-Zones preferred_zone h = elim (Bool-cases (preferred_zone == pmm_zone_any)) [
  | inl e ↦
      let all : Zones (pmm_zone_normal ∷ pmm_zone_dma ∷ pmm_zone_high ∷ []) =
        (omega arith, (omega arith, (omega arith, tt))) in
      rw e all
  | inr e ↦ let one : Zones (preferred_zone ∷ []) = (ground arith, tt) in rw e one
]

no_block :
    (order preferred_zone : ℕ) (s : Pmm)
    → alloc_from_zones (zones_to_try preferred_zone) order s ≡ none
    → pmm_buddy_alloc_block order preferred_zone s ≡ (0, s)
unfolding pmm_buddy_alloc_block
no_block order preferred_zone s e = rw (pmm_buddy_alloc_block, e) refl

one_block :
    (order preferred_zone : ℕ) (s : Pmm) (r : ℕ × Pmm)
    → alloc_from_zones (zones_to_try preferred_zone) order s ≡ some r
    → pmm_buddy_alloc_block order preferred_zone s ≡ (r.0 * page_size, r.1)
unfolding pmm_buddy_alloc_block
one_block order preferred_zone s r e = rw (pmm_buddy_alloc_block, e) refl

-- With sound free lists that hold all free frames, an allocation of a possible order, from one
-- zone or from any, either finds no block of that order or a greater one in the zones, and changes
-- nothing, or gives the address of a block inside the memory, all of whose frames were free and
-- are now marked, which no free list reaches into; no other frame's mark changes, the count falls
-- by the block's frames, and the lists are sound again and hold all free frames.
pub pmm_buddy_alloc_block-Taken :
    (order preferred_zone : ℕ) (s : Pmm) (lists : ℕ → List ℕ) (home : ℕ → ℕ)
    → order ≤ pmm_buddy_max_order
    → preferred_zone ≤ pmm_zone_any
    → Full s lists home
    → ((pmm_buddy_alloc_block order preferred_zone s ≡ (0, s))
        × Exhausted lists order (zones_to_try preferred_zone))
      ⊎ ((x : ℕ) × (lists' : ℕ → List ℕ) × (home' : ℕ → ℕ) × ((pmm_buddy_alloc_block order
              preferred_zone s).0
            ≡ x * page_size)
          × Taken s (pmm_buddy_alloc_block order preferred_zone s).1 lists' home' x (2 ^ order))
pmm_buddy_alloc_block-Taken order preferred_zone s lists home ho hz full =
    elim (alloc_from_zones-Found (zones_to_try preferred_zone) order s lists home
      (zones_to_try-Zones preferred_zone hz) ho full) [
        | inl stop ↦ inl (no_block order preferred_zone s stop.0, stop.1)
        | inr found ↦
            let step = one_block order preferred_zone s _ found.4 in
            inr (
              found.0,
              found.2,
              found.3,
              ap (λ r. r.0) step,
              subst (λ t. Taken s t found.2 found.3 found.0 (2 ^ order)) (sym (ap (λ r. r.1) step))
                  found.5,
            )
      ]
