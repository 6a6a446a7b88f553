-- ===== src/Pmm/Lists.antt =====
-- The free lists: what their links say, which blocks they hold, and what pushing, popping and marking
-- does to them.
use mathlib.Core.Path.{subst}
use native.Mathlib.Nat.{one-le-pow}
use reaper_operating_system.Base.{
  ℕ, zero, suc, ◌+◌, ◌%◌, ◌^◌, ◌≤◌, ◌<◌, ◌≡◌, refl, sym, ap, ◌∙◌, ◌≢◌, ◌⊎◌, inl, inr, true, false,
  List, [], ◌∷◌, ◌==◌, ltb, ltb→lt, arith, Bool-cases, ==→eq, eq→==, ne→==, clash, write,
  write_self, write_ne, write-elim, Apart, Distinct,
}
use reaper_operating_system.Base.Word.{u32}
use reaper_operating_system.Pmm.{
  Pmm, FrameMetadata, pmm_stack_end, bitmap_test, list_at, pmm_buddy_push, pmm_buddy_pop, end_link,
}
use reaper_operating_system.Pmm.Marks.{SameLists}

-- From `head` the links lead through these blocks to the end.
abbrev pub Chain : (ℕ → FrameMetadata) → (head : ℕ) → List ℕ → Type 0
Chain m head [] = head ≡ pmm_stack_end
Chain m head (x ∷ xs) = (head ≡ x) × (x ≢ pmm_stack_end) × Chain m (m x).next_free_idx xs

-- The blocks of list `k` are at home there; `home` is 0 for a frame that no list holds.
abbrev pub Homed : (ℕ → ℕ) → (k : ℕ) → List ℕ → Type 0
Homed home k [] = Unit {0}
Homed home k (x ∷ xs) = (home x ≡ suc k) × Homed home k xs

-- the frames of a block on list `k`
abbrev pub size_at : ℕ → ℕ
size_at k = 2 ^ (k % 11)

-- No block on a list reaches into the `n` frames from `x` on.
abbrev pub Vacant : (ℕ → ℕ) → (x n : ℕ) → Type 0
Vacant home x n = (b k : ℕ) → home b ≡ suc k → (b + size_at k ≤ x) ⊎ (x + n ≤ b)

-- The free lists hold these blocks, which are apart, within the frames, and not marked.
pub record Sound (s : Pmm) (lists : ℕ → List ℕ) (home : ℕ → ℕ) : Type 0 where
  pub chains : (k : ℕ) → Chain s.metadata (s.buddy_free_heads k) (lists k)
  pub homed : (k : ℕ) → Homed home k (lists k)
  pub distinct : (k : ℕ) → Distinct (lists k)
  pub ordered : (b c k j : ℕ) → home b ≡ suc k → home c ≡ suc j → b < c → b + size_at k ≤ c
  pub bounded : (b k : ℕ) → home b ≡ suc k → b + size_at k ≤ s.total_frames
  pub unmarked :
      (b k y : ℕ) → home b ≡ suc k → b ≤ y → y < b + size_at k → bitmap_test y s.bitmap ≡ false
  pub small : s.total_frames ≤ pmm_stack_end

pub size-pos : (k : ℕ) → 1 ≤ size_at k
size-pos k = one-le-pow (k % 11) 2 (omega arith)

pub Chain-write :
    (m : ℕ → FrameMetadata) (y head : ℕ) (v : FrameMetadata) (xs : List ℕ)
    → Apart y xs
    → Chain m head xs
    → Chain (write m y v) head xs
Chain-write m y head v [] apart c = c
Chain-write m y head v (x ∷ xs) apart c =
    let next = ap (λ f. f.next_free_idx) (write_ne m y x v apart.0) in
    (
      c.0,
      c.1,
      subst (λ h. Chain (write m y v) h xs) (sym next)
          (Chain-write m y (m x).next_free_idx v xs apart.1 c.2),
    )

Chain-links :
    (m m' : ℕ → FrameMetadata) (head : ℕ) (xs : List ℕ)
    → ((y : ℕ) → (m' y).next_free_idx ≡ (m y).next_free_idx)
    → Chain m head xs
    → Chain m' head xs
Chain-links m m' head [] same c = c
Chain-links m m' head (x ∷ xs) same c = (
  c.0,
  c.1,
  subst (λ h. Chain m' h xs) (sym (same x)) (Chain-links m m' (m x).next_free_idx xs same c.2),
)

pub Homed-Apart :
    (home : ℕ → ℕ) (k y : ℕ) (xs : List ℕ) → Homed home k xs → home y ≢ suc k → Apart y xs
Homed-Apart home k y [] h ne = tt
Homed-Apart home k y (x ∷ xs) h ne = (λ e. ne (ap home e ∙ h.0), Homed-Apart home k y xs h.1 ne)

pub Homed-write :
    (home : ℕ → ℕ) (k y v : ℕ) (xs : List ℕ)
    → Apart y xs
    → Homed home k xs
    → Homed (write home y v) k xs
Homed-write home k y v [] apart h = tt
Homed-write home k y v (x ∷ xs) apart h =
    (write_ne home y x v apart.0 ∙ h.0, Homed-write home k y v xs apart.1 h.1)

-- A frame in a vacant range is on no list.
pub Vacant-homeless : (home : ℕ → ℕ) (x n : ℕ) → Vacant home x n → 1 ≤ n → home x ≡ 0
Vacant-homeless home x n vacant pos = by_home (home x) refl
  where
    by_home : (h : ℕ) → home x ≡ h → h ≡ 0
    by_home zero e = refl
    by_home (suc k) e =
        let p = size-pos k in
        elim (vacant x k e) [ inl l ↦ absurd (omega arith) | inr l ↦ absurd (omega arith) ]

-- an entry of a table of homes with one place changed
pub home-cases :
    (home : ℕ → ℕ) (y v b k : ℕ)
    → write home y v b ≡ suc k
    → ((y ≡ b) × (v ≡ suc k)) ⊎ ((y ≢ b) × (home b ≡ suc k))
home-cases home y v b k e = elim (Bool-cases (y == b)) [
  | inl t ↦ let at = ==→eq y b t in inl (at, sym (write_self home y v) ∙ ap (write home y v) at ∙ e)
  | inr t ↦
      let ne : y ≢ b = λ z. clash _ (eq→== y b z) t in inr (ne, sym (write_ne home y b v ne) ∙ e)
]

pub same_size : (k j : ℕ) → suc k ≡ suc j → size_at k ≡ size_at j
same_size k j e = ap size_at (omega arith)

-- A block of free frames that no list holds goes onto one.
pub pmm_buddy_push-Sound :
    (zone order y : ℕ) (s : Pmm) (lists : ℕ → List ℕ) (home : ℕ → ℕ)
    → Sound s lists home
    → Vacant home y (size_at (list_at zone order))
    → y + size_at (list_at zone order) ≤ s.total_frames
    → ((z : ℕ) → y ≤ z → z < y + size_at (list_at zone order) → bitmap_test z s.bitmap ≡ false)
    → Sound
        (pmm_buddy_push zone order y s)
        (write lists (list_at zone order) (y ∷ lists (list_at zone order)))
        (write home y (suc (list_at zone order)))
unfolding pmm_buddy_push
pmm_buddy_push-Sound zone order y s lists home sound vacant inside clear =
    let k = list_at zone order in
    let pos = size-pos k in
    let small = sound.small in
    let nowhere : home y ≡ 0 = Vacant-homeless home y (size_at k) vacant pos in
    let apart : (j : ℕ) → Apart y (lists j) =
      λ j. Homed-Apart home j y (lists j) (sound.homed j) (λ e. omega arith) in
    record {
      chains =
          write-elim (λ j h xs. Chain (pmm_buddy_push zone order y s).metadata h xs)
            s.buddy_free_heads lists k (u32 y) (y ∷ lists k)
            ((
              omega arith,
              (λ e. omega arith),
              subst (λ h. Chain (pmm_buddy_push zone order y s).metadata h (lists k))
                  (sym (ap (λ f. f.next_free_idx) (write_self s.metadata y _)))
                  (Chain-write s.metadata y (s.buddy_free_heads k) _ (lists k) (apart k)
                    (sound.chains k)),
            ))
            (λ j ne.
              Chain-write s.metadata y (s.buddy_free_heads j) _ (lists j) (apart j)
                (sound.chains j));
      homed =
          write-elim (λ j a xs. Homed (write home y (suc k)) j xs) lists lists k [] (y ∷ lists k)
            ((
              write_self home y (suc k),
              Homed-write home k y (suc k) (lists k) (apart k) (sound.homed k),
            ))
            (λ j ne. Homed-write home j y (suc k) (lists j) (apart j) (sound.homed j));
      distinct =
          write-elim (λ j a xs. Distinct xs) lists lists k [] (y ∷ lists k)
            ((apart k, sound.distinct k)) (λ j ne. sound.distinct j);
      ordered = λ b c i j hb hc lt. elim (home-cases home y (suc k) b i hb) [
        | inl at ↦ elim (home-cases home y (suc k) c j hc) [
          | inl at' ↦ absurd (omega arith)
          | inr old' ↦
              let same = same_size k i at.1 in
              elim (vacant c j old'.1) [ inl l ↦ absurd (omega arith) | inr l ↦ omega arith ]
        ]
        | inr old ↦ elim (home-cases home y (suc k) c j hc) [
          | inl at' ↦ elim (vacant b i old.1) [ inl l ↦ omega arith | inr l ↦ absurd (omega arith) ]
          | inr old' ↦ sound.ordered b c i j old.1 old'.1 lt
        ]
      ];
      bounded = λ b i hb. elim (home-cases home y (suc k) b i hb) [
        | inl at ↦ let same = same_size k i at.1 in omega arith
        | inr old ↦ sound.bounded b i old.1
      ];
      unmarked = λ b i z hb low high. elim (home-cases home y (suc k) b i hb) [
        | inl at ↦ let same = same_size k i at.1 in clear z (omega arith) (omega arith)
        | inr old ↦ sound.unmarked b i z old.1 low high
      ];
      small = small;
    }

-- a home that is left after one place is emptied
pub still_home : (home : ℕ → ℕ) (x b k : ℕ) → write home x 0 b ≡ suc k → (x ≢ b) × (home b ≡ suc k)
still_home home x b k e = elim (home-cases home x 0 b k e) [
  | inl at ↦ absurd (omega arith)
  | inr old ↦ old
]

-- A block that left its list leaves a vacant range.
pub Vacant-left :
    (s : Pmm) (lists : ℕ → List ℕ) (home : ℕ → ℕ) (x k : ℕ)
    → Sound s lists home
    → home x ≡ suc k
    → Vacant (write home x 0) x (size_at k)
Vacant-left s lists home x k sound at b i hb =
    let old = still_home home x b i hb in
    elim (Bool-cases (ltb x b)) [
      | inl e ↦ inr (sound.ordered x b k i at old.1 (ltb→lt x b e))
      | inr e ↦
          let less : b < x = ground (arith, old.0) in inl (sound.ordered b x i k old.1 at less)
    ]

-- What is left of the free lists when a block `x` leaves list `k`, for the new state of the lists.
pub Sound-without :
    (s s' : Pmm) (lists lists' : ℕ → List ℕ) (home : ℕ → ℕ) (x : ℕ)
    → Sound s lists home
    → s'.bitmap ≡ s.bitmap
    → s'.total_frames ≡ s.total_frames
    → ((k : ℕ) → Chain s'.metadata (s'.buddy_free_heads k) (lists' k))
    → ((k : ℕ) → Homed (write home x 0) k (lists' k))
    → ((k : ℕ) → Distinct (lists' k))
    → Sound s' lists' (write home x 0)
Sound-without s s' lists lists' home x sound bits total chains homed distinct = record {
  chains = chains;
  homed = homed;
  distinct = distinct;
  ordered = λ b c i j hb hc lt.
      sound.ordered b c i j (still_home home x b i hb).1 (still_home home x c j hc).1 lt;
  bounded = λ b i hb. let in_range = sound.bounded b i (still_home home x b i hb).1 in omega arith;
  unmarked = λ b i z hb low high.
      ap (bitmap_test z) bits ∙ sound.unmarked b i z (still_home home x b i hb).1 low high;
  small = let small = sound.small in omega arith;
}

-- The first block of a list comes off it.
pub pmm_buddy_pop-Sound :
    (zone order x : ℕ) (xs : List ℕ) (s : Pmm) (lists : ℕ → List ℕ) (home : ℕ → ℕ)
    → Sound s lists home
    → lists (list_at zone order) ≡ x ∷ xs
    → ((pmm_buddy_pop zone order s).0 ≡ x)
      × (x ≢ pmm_stack_end)
      × (home x ≡ suc (list_at zone order))
      × Sound (pmm_buddy_pop zone order s).1 (write lists (list_at zone order) xs) (write home x 0)
unfolding pmm_buddy_pop
pmm_buddy_pop-Sound zone order x xs s lists home sound e =
    let k = list_at zone order in
    let chain = subst (λ l. Chain s.metadata (s.buddy_free_heads k) l) e (sound.chains k) in
    let homed = subst (λ l. Homed home k l) e (sound.homed k) in
    let distinct = subst (λ l. Distinct l) e (sound.distinct k) in
    let head = chain.0 in
    let some_head : (s.buddy_free_heads k == pmm_stack_end) ≡ false =
      ne→== _ _ (λ z. chain.1 (sym head ∙ z)) in
    let m = end_link x s.metadata in
    let away : (j : ℕ) → k ≢ j → Apart x (lists j) = λ j ne.
      Homed-Apart home j x (lists j) (sound.homed j) (λ z. ne (omega (arith, z, homed.0))) in
    (
      rw some_head head,
      chain.1,
      homed.0,
      rw (some_head, head)
          (Sound-without s
            (record s {
              metadata = m;
              buddy_free_heads = write s.buddy_free_heads k (s.metadata x).next_free_idx;
            })
            lists (write lists k xs) home x sound refl refl
            (write-elim (λ j h l. Chain m h l) s.buddy_free_heads lists k
              (s.metadata x).next_free_idx xs
              (Chain-write s.metadata x (s.metadata x).next_free_idx _ xs distinct.0 chain.2)
              (λ j ne.
                Chain-write s.metadata x (s.buddy_free_heads j) _ (lists j) (away j ne)
                  (sound.chains j)))
            (write-elim (λ j a l. Homed (write home x 0) j l) lists lists k [] xs
              (Homed-write home k x 0 xs distinct.0 homed.1)
              (λ j ne. Homed-write home j x 0 (lists j) (away j ne) (sound.homed j)))
            (write-elim (λ j a l. Distinct l) lists lists k [] xs distinct.1
              (λ j ne. sound.distinct j))),
    )

pub pmm_buddy_pop-empty :
    (zone order : ℕ) (s : Pmm) (lists : ℕ → List ℕ) (home : ℕ → ℕ)
    → Sound s lists home
    → lists (list_at zone order) ≡ []
    → pmm_buddy_pop zone order s ≡ (pmm_stack_end, s)
unfolding pmm_buddy_pop
pmm_buddy_pop-empty zone order s lists home sound e =
    let k = list_at zone order in
    let head = subst (λ l. Chain s.metadata (s.buddy_free_heads k) l) e (sound.chains k) in
    let test : (s.buddy_free_heads k == pmm_stack_end) ≡ true = eq→== _ _ head in rw test refl

-- Marking frames of a vacant range leaves the free lists sound.
pub Sound-marked :
    (s s' : Pmm) (lists : ℕ → List ℕ) (home : ℕ → ℕ) (x n : ℕ)
    → Sound s lists home
    → Vacant home x n
    → SameLists s s'
    → ((y : ℕ) → (y < x) ⊎ (x + n ≤ y) → bitmap_test y s'.bitmap ≡ bitmap_test y s.bitmap)
    → Sound s' lists home
Sound-marked s s' lists home x n sound vacant same bits = record {
  chains = λ k.
      subst (λ h. Chain s'.metadata (h k) (lists k)) (sym same.heads)
        (Chain-links s.metadata s'.metadata (s.buddy_free_heads k) (lists k) same.links
          (sound.chains k));
  homed = sound.homed;
  distinct = sound.distinct;
  ordered = sound.ordered;
  bounded = λ b k hb. let total = same.total in let in_range = sound.bounded b k hb in omega arith;
  unmarked = λ b k y hb low high.
      let out : (y < x) ⊎ (x + n ≤ y) = elim (vacant b k hb) [
        | inl l ↦ inl (omega arith)
        | inr l ↦ inr (omega arith)
      ] in
      bits y out ∙ sound.unmarked b k y hb low high;
  small = let total = same.total in let small = sound.small in omega arith;
}

-- a block that no list holds may be written to, whatever the count of free frames
pub Sound-write :
    (s : Pmm) (lists : ℕ → List ℕ) (home : ℕ → ℕ) (x n : ℕ) (v : FrameMetadata)
    → Sound s lists home
    → home x ≡ 0
    → Sound (record s { metadata = write s.metadata x v; free_frames = n }) lists home
Sound-write s lists home x n v sound nowhere = record {
  chains = λ k.
      Chain-write s.metadata x (s.buddy_free_heads k) v (lists k)
        (Homed-Apart home k x (lists k) (sound.homed k) (λ e. omega arith)) (sound.chains k);
  homed = sound.homed;
  distinct = sound.distinct;
  ordered = sound.ordered;
  bounded = sound.bounded;
  unmarked = sound.unmarked;
  small = sound.small;
}

pub pmm_buddy_pop-frame :
    (zone order : ℕ) (s : Pmm)
    → ((pmm_buddy_pop zone order s).1.bitmap ≡ s.bitmap)
      × ((pmm_buddy_pop zone order s).1.total_frames ≡ s.total_frames)
      × ((pmm_buddy_pop zone order s).1.free_frames ≡ s.free_frames)
unfolding pmm_buddy_pop
pmm_buddy_pop-frame zone order s =
    elim (Bool-cases (s.buddy_free_heads (list_at zone order) == pmm_stack_end)) [
      | inl e ↦ rw e ((refl, refl, refl))
      | inr e ↦ rw e ((refl, refl, refl))
    ]

pub Sound-count :
    (s : Pmm) (lists : ℕ → List ℕ) (home : ℕ → ℕ) (n : ℕ)
    → Sound s lists home
    → Sound (record s { free_frames = n }) lists home
Sound-count s lists home n sound = record {
  chains = sound.chains;
  homed = sound.homed;
  distinct = sound.distinct;
  ordered = sound.ordered;
  bounded = sound.bounded;
  unmarked = sound.unmarked;
  small = sound.small;
}
