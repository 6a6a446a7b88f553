-- ===== src/Base/Store.antt =====
-- Memory as a function from addresses: one write, and what it changes.
use Prim.Native.Nat.{ℕ}
use mathlib.Core.Path.{◌≡◌, refl, subst}
use mathlib.Core.Logic.{◌≢◌, inl, inr}
use reaper_operating_system.Base.Tests.{
  ◌==◌, if◌then◌else◌, ne→==, ==_refl, eq→==, ==→eq, Bool-cases, clash,
}

module _ {ℓ} {A : Type ℓ} where
  abbrev pub write : (ℕ → A) → ℕ → A → ℕ → A
  write h a v x = if a == x then v else h x

  pub write_self : (h : ℕ → A) (a : ℕ) (v : A) → write h a v a ≡ v
  write_self h a v = let test = ==_refl a in rw test refl

  pub write_ne : (h : ℕ → A) (a x : ℕ) (v : A) → a ≢ x → write h a v x ≡ h x
  write_ne h a x v ne = let test = ne→== a x ne in rw test refl

-- To show something of every place of two memories that are written at the same place.
pub write-elim {ℓ ℓ' κ} :
    {A : Type ℓ} {B : Type ℓ'} (P : ℕ → A → B → Type κ) (f : ℕ → A) (g : ℕ → B) (a : ℕ) (v : A)
    (w : B)
    → P a v w
    → ((x : ℕ) → a ≢ x → P x (f x) (g x))
    → (x : ℕ) → P x (write f a v x) (write g a w x)
write-elim P f g a v w here there x = elim (Bool-cases (a == x)) [
  | inl e ↦ rw e (subst (λ y. P y v w) (==→eq a x e) here)
  | inr e ↦ rw e (there x (λ z. clash _ (eq→== a x z) e))
]
