-- ===== src/Pmm/Removal.antt =====
-- A removal from the free lists takes just the one block off, and keeps them sound.
use mathlib.Core.Path.{subst}
use reaper_operating_system.Base.{
  ℕ, zero, suc, ◌+◌, ◌≤◌, ◌<◌, ◌≡◌, refl, sym, ap, ◌∙◌, ◌≢◌, ◌⊎◌, inl, inr, true, false, List, [],
  ◌∷◌, ◌==◌, arith, Bool-cases, ==→eq, eq→==, ==_refl, clash, write, write_self, write_ne,
  write-elim, Apart, Distinct, length,
}
use reaper_operating_system.Pmm.{Pmm, FrameMetadata, pmm_stack_end, list_at}
use reaper_operating_system.Pmm.Blocks.{detached, unlink_block, remove_from, pmm_buddy_remove}
use reaper_operating_system.Pmm.Lists.{
  Chain, Chain-write, Homed, Homed-Apart, Homed-write, Sound, Sound-without, size_at,
}
use reaper_operating_system.Pmm.Count.{
  list_frames, frames_held, frames_held-write, length-frames_held, list_count,
}
use reaper_operating_system.Pmm.Split.{list_at-lt}
use reaper_operating_system.Pmm.Remove.{
  without, SameFrames, Within, bypass_head, search_end, search_hit, search_on, search, no_fuel,
}

-- A block of list `k` left the lists, which are sound without it.
pub record Removed (s s' : Pmm) (lists lists' : ℕ → List ℕ) (home : ℕ → ℕ) (k target_idx : ℕ)
    : Type 0 where
  pub sound : Sound s' lists' (write home target_idx 0)
  pub was : home target_idx ≡ suc k
  pub held : frames_held list_count lists' + size_at k ≡ frames_held list_count lists
  pub frames : SameFrames s s'

Apart-without : (x y : ℕ) (xs : List ℕ) → Apart x xs → Apart x (without y xs)
Apart-without x y [] a = tt
Apart-without x y (z ∷ xs) a = elim (Bool-cases (z == y)) [
  | inl e ↦ rw e (a.1)
  | inr e ↦ let rest = Apart-without x y xs a.1 in rw e ((a.0, rest))
]

Distinct-without : (y : ℕ) (xs : List ℕ) → Distinct xs → Distinct (without y xs)
Distinct-without y [] d = tt
Distinct-without y (z ∷ xs) d = elim (Bool-cases (z == y)) [
  | inl e ↦ rw e (d.1)
  | inr e ↦
      let first = Apart-without z y xs d.0 in
      let rest = Distinct-without y xs d.1 in rw e ((first, rest))
]

gone : (y : ℕ) (xs : List ℕ) → Distinct xs → Apart y (without y xs)
gone y [] d = tt
gone y (z ∷ xs) d = elim (Bool-cases (z == y)) [
  | inl e ↦ let left = subst (λ x. Apart x xs) (==→eq z y e) d.0 in rw e left
  | inr e ↦
      let ne : y ≢ z = λ q. clash _ (eq→== z y (sym q)) e in
      let rest = gone y xs d.1 in rw e ((ne, rest))
]

Homed-without :
    (home : ℕ → ℕ) (k y : ℕ) (xs : List ℕ) → Homed home k xs → Homed home k (without y xs)
Homed-without home k y [] h = tt
Homed-without home k y (z ∷ xs) h = elim (Bool-cases (z == y)) [
  | inl e ↦ rw e (h.1)
  | inr e ↦ let rest = Homed-without home k y xs h.1 in rw e ((h.0, rest))
]

-- a member has the list's home, and counts for one block
member-home :
    (home : ℕ → ℕ) (k y : ℕ) (xs : List ℕ) → Homed home k xs → Within y xs → home y ≡ suc k
member-home home k y [] h in_list = absurd (in_list tt)
member-home home k y (z ∷ xs) h in_list = elim (Bool-cases (y == z)) [
  | inl e ↦ ap home (==→eq y z e) ∙ h.0
  | inr e ↦
      let ne : y ≢ z = λ q. clash _ (eq→== y z q) e in
      member-home home k y xs h.1 (λ a. in_list (ne, a))
]

member-frames :
    (size y : ℕ) (xs : List ℕ)
    → Within y xs
    → list_frames size (without y xs) + size ≡ list_frames size xs
member-frames size y [] in_list = absurd (in_list tt)
member-frames size y (z ∷ xs) in_list = elim (Bool-cases (z == y)) [
  | inl e ↦ rw e (omega arith)
  | inr e ↦
      let ne : y ≢ z = λ q. clash _ (eq→== z y (sym q)) e in
      let rest = member-frames size y xs (λ a. in_list (ne, a)) in rw e (omega (arith, rest))
]

abbrev AllOf : (ℕ → Type 0) → List ℕ → Type 0
AllOf p [] = Unit {0}
AllOf p (x ∷ xs) = p x × AllOf p xs

-- the links of blocks that keep their metadata
Chain-same :
    (m m' : ℕ → FrameMetadata) (head : ℕ) (xs : List ℕ) (p : ℕ → Type 0)
    → ((y : ℕ) → p y → m' y ≡ m y)
    → AllOf p xs
    → Chain m head xs
    → Chain m' head xs
Chain-same m m' head [] p same all c = c
Chain-same m m' head (x ∷ xs) p same all c = (
  c.0,
  c.1,
  subst (λ h. Chain m' h xs) (sym (ap (λ f. f.next_free_idx) (same x all.0)))
      (Chain-same m m' (m x).next_free_idx xs p same all.1 c.2),
)

-- the state of the lists after a removal, from the chains
Removed-from :
    (s s' : Pmm) (lists : ℕ → List ℕ) (home : ℕ → ℕ) (k y : ℕ)
    → k < list_count
    → Sound s lists home
    → SameFrames s s'
    → Within y (lists k)
    → ((j : ℕ) → Chain s'.metadata (s'.buddy_free_heads j) (write lists k (without y (lists k)) j))
    → Removed s s' lists (write lists k (without y (lists k))) home k y
Removed-from s s' lists home k y hk sound frames member chains =
    let was = member-home home k y (lists k) (sound.homed k) member in
    let ys = without y (lists k) in
    let less = member-frames (size_at k) y (lists k) member in
    let counted = frames_held-write list_count k lists ys hk in
    record {
      sound =
          Sound-without s s' lists (write lists k ys) home y sound frames.bits frames.total chains
            (write-elim (λ j a l. Homed (write home y 0) j l) lists lists k [] ys
              (Homed-write home k y 0 ys (gone y (lists k) (sound.distinct k))
                (Homed-without home k y (lists k) (sound.homed k)))
              (λ j ne.
                Homed-write home j y 0 (lists j)
                  (Homed-Apart home j y (lists j) (sound.homed j) (λ z. ne (omega (arith, z, was))))
                  (sound.homed j)))
            (write-elim (λ j a l. Distinct l) lists lists k [] ys
              (Distinct-without y (lists k) (sound.distinct k)) (λ j ne. sound.distinct j));
      was = was;
      held = omega (arith, less, counted);
      frames = frames;
    }

-- What a removal from one list does where it finds the block.
record Dropped (s s' : Pmm) (k target_idx : ℕ) (xs : List ℕ) : Type 0 where
  member : Within target_idx xs
  frames : SameFrames s s'
  chain : Chain s'.metadata (s'.buddy_free_heads k) (without target_idx xs)
  heads : (j : ℕ) → k ≢ j → s'.buddy_free_heads j ≡ s.buddy_free_heads j
  others : (z : ℕ) → Apart z xs → s'.metadata z ≡ s.metadata z

unlink_block-Dropped :
    (k x : ℕ) (xs : List ℕ) (s : Pmm)
    → Distinct (x ∷ xs)
    → Chain s.metadata x (x ∷ xs)
    → Dropped s (unlink_block k pmm_stack_end x s) k x (x ∷ xs)
unfolding unlink_block
unlink_block-Dropped k x xs s distinct chain =
    let next = (s.metadata x).next_free_idx in
    let bypassed = bypass_head k next s in
    let self = ==_refl x in
    let w = detached (s.metadata x) in
    rw bypassed (record {
      member = λ a. a.0 refl;
      frames = record { bits = refl; total = refl; free = refl };
      chain = rw self (
          subst (λ h. Chain (write s.metadata x w) h xs)
            (sym (write_self s.buddy_free_heads k next))
            (Chain-write s.metadata x next w xs distinct.0 chain.2));
      heads = λ j ne. write_ne s.buddy_free_heads k j next ne;
      others = λ z a. write_ne s.metadata x z w (λ e. a.0 (sym e));
    })

remove_from-list :
    (fuel k y head : ℕ) (xs : List ℕ) (s : Pmm)
    → Distinct xs
    → s.buddy_free_heads k ≡ head
    → Chain s.metadata head xs
    → ((remove_from fuel k pmm_stack_end head y s ≡ (false, s)) × (length xs < fuel → Apart y xs))
      ⊎ ((s' : Pmm) × (remove_from fuel k pmm_stack_end head y s ≡ (true, s'))
          × Dropped s s' k y xs)
remove_from-list zero k y head xs s distinct at chain =
    inl (no_fuel k pmm_stack_end head y s, λ h. absurd (omega arith))
remove_from-list (suc fuel) k y head [] s distinct at chain = inl (
  ap (λ c. remove_from (suc fuel) k pmm_stack_end c y s) chain
      ∙ search_end (suc fuel) k pmm_stack_end y s,
  λ h. tt,
)
remove_from-list (suc fuel) k y head (x ∷ xs) s distinct at chain =
    let start = ap (λ c. remove_from (suc fuel) k pmm_stack_end c y s) chain.0 in
    elim (Bool-cases (x == y)) [
      | inl e ↦
          let same : x ≡ y = ==→eq x y e in
          inr (
            unlink_block k pmm_stack_end x s,
            start
                ∙ ap (λ t. remove_from (suc fuel) k pmm_stack_end x t s) (sym same)
                ∙ search_hit fuel k pmm_stack_end x s chain.1,
            subst (λ t. Dropped s (unlink_block k pmm_stack_end x s) k t (x ∷ xs)) same
                (unlink_block-Dropped k x xs s distinct (refl, chain.1, chain.2)),
          )
      | inr e ↦
          let other : x ≢ y = λ z. clash _ (eq→== x y z) e in
          let step = start ∙ search_on fuel k pmm_stack_end x y s chain.1 other in
          elim (search fuel k x (s.metadata x).next_free_idx y xs s chain.1 refl distinct.0
            distinct.1 chain.2) [
              | inl miss ↦ inl (step ∙ miss.0, λ h. ((λ z. other (sym z)), miss.1 (omega arith)))
              | inr found ↦
                  let u = found.2 in
                  inr (
                    found.0,
                    step ∙ found.1,
                    record {
                      member = λ a. u.member a.1;
                      frames = u.frames;
                      chain = rw e (ap (λ h. h k) u.heads ∙ at ∙ chain.0, chain.1, u.chain);
                      heads = λ j ne. ap (λ h. h j) u.heads;
                      others = λ z a. u.others z (λ q. a.0 (sym q)) a.1;
                    },
                  )
            ]
    ]

Homed-AllOf :
    (home : ℕ → ℕ) (k j : ℕ) (xs ys : List ℕ)
    → k ≢ j
    → Homed home k xs
    → Homed home j ys
    → AllOf (λ z. Apart z xs) ys
Homed-AllOf home k j xs [] ne hx hy = tt
Homed-AllOf home k j xs (y ∷ ys) ne hx hy = (
  Homed-Apart home k y xs hx (λ e. ne (omega (arith, e, hy.0))),
  Homed-AllOf home k j xs ys ne hx hy.1,
)

Dropped-Removed :
    (s s' : Pmm) (lists : ℕ → List ℕ) (home : ℕ → ℕ) (k y : ℕ)
    → k < list_count
    → Sound s lists home
    → Dropped s s' k y (lists k)
    → Removed s s' lists (write lists k (without y (lists k))) home k y
Dropped-Removed s s' lists home k y hk sound d =
    let h' = s'.buddy_free_heads in
    let ys = without y (lists k) in
    Removed-from s s' lists home k y hk sound d.frames d.member (λ j. elim (Bool-cases (k == j)) [
      | inl e ↦ rw e (subst (λ i. Chain s'.metadata (h' i) ys) (==→eq k j e) d.chain)
      | inr e ↦
          let ne : k ≢ j = λ z. clash _ (eq→== k j z) e in
          rw e (
            subst (λ h. Chain s'.metadata h (lists j)) (sym (d.heads j ne))
              (Chain-same s.metadata s'.metadata (s.buddy_free_heads j) (lists j)
                (λ z. Apart z (lists k)) d.others
                (Homed-AllOf home k j (lists k) (lists j) ne (sound.homed k) (sound.homed j))
                (sound.chains j)))
    ])

-- With sound free lists, the search of a list for a block finds it, and leaves sound lists that
-- hold all other frames, or it changes nothing, and then, where the lists hold no more frames than
-- are counted as free, the block is not in the list: the fuel is enough.
pub pmm_buddy_remove-Removed :
    (zone order target_idx : ℕ) (s : Pmm) (lists : ℕ → List ℕ) (home : ℕ → ℕ)
    → zone ≤ 2
    → order ≤ 10
    → Sound s lists home
    → ((pmm_buddy_remove zone order target_idx s ≡ (false, s))
        × (frames_held list_count lists ≤ s.free_frames
            → Apart target_idx (lists (list_at zone order))))
      ⊎ ((s' : Pmm) × (lists' : ℕ → List ℕ) × (pmm_buddy_remove zone order target_idx s
            ≡ (true, s'))
          × Removed s s' lists lists' home (list_at zone order) target_idx)
unfolding pmm_buddy_remove
pmm_buddy_remove-Removed zone order y s lists home hz ho sound =
    let k = list_at zone order in
    let hk = list_at-lt zone order hz ho in
    let long = length-frames_held list_count k lists hk in
    elim (remove_from-list (s.free_frames + 1) k y (s.buddy_free_heads k) (lists k) s
      (sound.distinct k) refl (sound.chains k)) [
        | inl miss ↦ inl (miss.0, λ h. miss.1 (omega (arith, long)))
        | inr found ↦ inr (
          found.0,
          write lists k (without y (lists k)),
          found.1,
          Dropped-Removed s found.0 lists home k y hk sound found.2,
        )
      ]
