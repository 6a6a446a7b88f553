-- ===== src/Pmm/Remove.antt =====
-- A block leaves a free list, wherever it stands in it.
use mathlib.Core.Path.{subst}
use reaper_operating_system.Base.{
  ℕ, zero, suc, ◌<◌, ◌≡◌, refl, sym, ap, ◌∙◌, ◌≢◌, ◌⊎◌, inl, inr, true, false, List, [], ◌∷◌, ◌==◌,
  arith, Bool-cases, ==→eq, eq→==, ne→==, ==_refl, clash, if◌then◌else◌, write, write_self,
  write_ne, Apart, Distinct, length,
}
use reaper_operating_system.Pmm.{Pmm, FrameMetadata, pmm_stack_end}
use reaper_operating_system.Pmm.Blocks.{bypass, detached, unlink_block, remove_from}
use reaper_operating_system.Pmm.Lists.{Chain, Chain-write}

-- a list without the first occurrence of `y`
abbrev pub without : ℕ → List ℕ → List ℕ
without y [] = []
without y (x ∷ xs) = let rest = without y xs in if x == y then xs else x ∷ rest

-- the bits and the counts are the same
pub record SameFrames (s s' : Pmm) : Type 0 where
  pub bits : s'.bitmap ≡ s.bitmap
  pub total : s'.total_frames ≡ s.total_frames
  pub free : s'.free_frames ≡ s.free_frames

-- a block stands in a list
abbrev pub Within : ℕ → List ℕ → Type 0
Within y xs = ¬ (Apart y xs)

-- What the search behind `prev` did where it found the block.
pub record Unlinked (s s' : Pmm) (prev target_idx : ℕ) (rest : List ℕ) : Type 0 where
  pub member : Within target_idx rest
  pub heads : s'.buddy_free_heads ≡ s.buddy_free_heads
  pub chain : Chain s'.metadata (s'.metadata prev).next_free_idx (without target_idx rest)
  pub others : (y : ℕ) → prev ≢ y → Apart y rest → s'.metadata y ≡ s.metadata y
  pub frames : SameFrames s s'

bypass_link :
    (at prev next : ℕ) (s : Pmm)
    → prev ≢ pmm_stack_end
    → bypass at prev next s ≡ record s {
      metadata = write s.metadata prev (record (s.metadata prev) { next_free_idx = next });
    }
unfolding bypass
bypass_link at prev next s ne = let test = ne→== prev pmm_stack_end ne in rw test refl

pub bypass_head :
    (at next : ℕ) (s : Pmm)
    → bypass at pmm_stack_end next s
      ≡ record s { buddy_free_heads = write s.buddy_free_heads at next }
unfolding bypass
bypass_head at next s = refl

-- the unlinking behind another block
behind :
    (at prev cur : ℕ) (xs : List ℕ) (s : Pmm)
    → prev ≢ pmm_stack_end
    → Apart prev (cur ∷ xs)
    → Distinct (cur ∷ xs)
    → Chain s.metadata cur (cur ∷ xs)
    → Unlinked s (unlink_block at prev cur s) prev cur (cur ∷ xs)
unfolding unlink_block
behind at prev cur xs s ne apart distinct chain =
    let self = ==_refl cur in
    let next = (s.metadata cur).next_free_idx in
    let v : FrameMetadata = record (s.metadata prev) { next_free_idx = next } in
    let m = write s.metadata prev v in
    let w = detached (m cur) in
    let away : cur ≢ prev = λ e. apart.0 (sym e) in
    let bypassed = bypass_link at prev next s ne in
    rw bypassed (record {
      member = λ a. a.0 refl;
      heads = refl;
      chain = rw self (
          subst (λ h. Chain (write m cur w) h xs)
            (sym (
              ap (λ f. f.next_free_idx) (write_ne m cur prev w away)
              ∙ ap (λ f. f.next_free_idx) (write_self s.metadata prev v)))
            (Chain-write m cur next w xs distinct.0
              (Chain-write s.metadata prev next v xs apart.1 chain.2)));
      others = λ y ny ay. write_ne m cur y w (λ e. ay.0 (sym e)) ∙ write_ne s.metadata prev y v ny;
      frames = record { bits = refl; total = refl; free = refl };
    })

-- the steps of the search
pub search_end :
    (fuel at prev target_idx : ℕ) (s : Pmm)
    → remove_from fuel at prev pmm_stack_end target_idx s ≡ (false, s)
unfolding remove_from
search_end zero at prev target_idx s = refl
search_end (suc fuel) at prev target_idx s = refl

pub search_hit :
    (fuel at prev cur : ℕ) (s : Pmm)
    → cur ≢ pmm_stack_end
    → remove_from (suc fuel) at prev cur cur s ≡ (true, unlink_block at prev cur s)
unfolding remove_from
search_hit fuel at prev cur s ne =
    let a = ne→== cur pmm_stack_end ne in let b = ==_refl cur in rw (a, b) refl

pub search_on :
    (fuel at prev cur target_idx : ℕ) (s : Pmm)
    → cur ≢ pmm_stack_end
    → cur ≢ target_idx
    → remove_from (suc fuel) at prev cur target_idx s
      ≡ remove_from fuel at cur (s.metadata cur).next_free_idx target_idx s
unfolding remove_from
search_on fuel at prev cur target_idx s ne other =
    let a = ne→== cur pmm_stack_end ne in let b = ne→== cur target_idx other in rw (a, b) refl

pub no_fuel :
    (at prev cur target_idx : ℕ) (s : Pmm) → remove_from zero at prev cur target_idx s ≡ (false, s)
unfolding remove_from
no_fuel at prev cur target_idx s = refl

-- The search behind `prev` finds the block where there is one and there is fuel for the list.
pub search :
    (fuel at prev cur target_idx : ℕ) (rest : List ℕ) (s : Pmm)
    → prev ≢ pmm_stack_end
    → (s.metadata prev).next_free_idx ≡ cur
    → Apart prev rest
    → Distinct rest
    → Chain s.metadata cur rest
    → ((remove_from fuel at prev cur target_idx s ≡ (false, s))
        × (length rest < fuel → Apart target_idx rest))
      ⊎ ((s' : Pmm) × (remove_from fuel at prev cur target_idx s ≡ (true, s'))
          × Unlinked s s' prev target_idx rest)
search zero at prev cur target_idx rest s ne link apart distinct chain =
    inl (no_fuel at prev cur target_idx s, λ h. absurd (omega arith))
search (suc fuel) at prev cur target_idx [] s ne link apart distinct chain = inl (
  ap (λ c. remove_from (suc fuel) at prev c target_idx s) chain
      ∙ search_end (suc fuel) at prev target_idx s,
  λ h. tt,
)
search (suc fuel) at prev cur target_idx (x ∷ xs) s ne link apart distinct chain =
    rw (chain.0) (elim (Bool-cases (x == target_idx)) [
      | inl e ↦
          let same : x ≡ target_idx = ==→eq x target_idx e in
          inr (
            unlink_block at prev x s,
            ap (λ t. remove_from (suc fuel) at prev x t s) (sym same)
                ∙ search_hit fuel at prev x s chain.1,
            subst (λ t. Unlinked s (unlink_block at prev x s) prev t (x ∷ xs)) same
                (behind at prev x xs s ne apart distinct (refl, chain.1, chain.2)),
          )
      | inr e ↦
          let other : x ≢ target_idx = λ z. clash _ (eq→== x target_idx z) e in
          let step = search_on fuel at prev x target_idx s chain.1 other in
          elim (search fuel at x (s.metadata x).next_free_idx target_idx xs s chain.1 refl
            distinct.0 distinct.1 chain.2) [
              | inl miss ↦ inl (step ∙ miss.0, λ h. ((λ z. other (sym z)), miss.1 (omega arith)))
              | inr found ↦
                  let u = found.2 in
                  let kept =
                    ap (λ f. f.next_free_idx) (u.others prev (λ z. apart.0 (sym z)) apart.1) in
                  inr (
                    found.0,
                    step ∙ found.1,
                    record {
                      member = λ a. u.member a.1;
                      heads = u.heads;
                      chain = rw e (kept ∙ link ∙ chain.0, chain.1, u.chain);
                      others = λ y ny ay. u.others y (λ z. ay.0 (sym z)) ay.1;
                      frames = u.frames;
                    },
                  )
            ]
    ])
