-- ===== src/Prelude/Equality.antt =====
-- Python's `==` on keys, as an interface: a type whose equality is decided.
use Prim.Native.Nat.{ℕ}
use mathlib.Core.Path.{◌≡◌, refl}
use mathlib.Core.Logic.{ite, dite}
use mathlib.Core.Bool.{Bool, true, false, ◌||◌, ◌&&◌, Bool-discrete}
use mathlib.Core.List.{List, [], ◌∷◌}
use native.Mathlib.Omega.{arith}
use native.Mathlib.Decide.{ℕ_discrete}
use aximux.Prelude.Tests.{◌==◌}

pub record Eq {ℓ} (A : Type ℓ) : Type ℓ where
  pub dec : Discrete A

module _ {ℓ} {A : Type ℓ} ⦃e : Eq A⦄ where
  -- `a == b`
  abbrev pub same : A → A → Bool
  same a b = ite (e.dec a b) true false

  -- `a in l`
  abbrev pub contains : List A → A → Bool
  contains [] a = false
  contains (x ∷ xs) a = same a x || contains xs a

  pub same_sound : (a b : A) → same a b ≡ true → a ≡ b
  same_sound a b h = ground arith

  pub same_refl : (a : A) → same a a ≡ true
  same_refl a = ground arith

pub list_beq : List ℕ → List ℕ → Bool
list_beq [] [] = true
list_beq [] (b ∷ t) = false
list_beq (a ∷ s) [] = false
list_beq (a ∷ s) (b ∷ t) = (a == b) && list_beq s t

pub list_beq_sound : (s t : List ℕ) → list_beq s t ≡ true → s ≡ t
unfolding list_beq
list_beq_sound [] [] h = refl
list_beq_sound [] (b ∷ t) h = ground arith
list_beq_sound (a ∷ s) [] h = ground arith
list_beq_sound (a ∷ s) (b ∷ t) h = ground (arith, list_beq_sound s t)

pub list_beq_refl : (s t : List ℕ) → s ≡ t → list_beq s t ≡ true
unfolding list_beq
list_beq_refl [] [] h = refl
list_beq_refl [] (b ∷ t) h = cc
list_beq_refl (a ∷ s) [] h = cc
list_beq_refl (a ∷ s) (b ∷ t) h = ground (arith, list_beq_refl s t)

instance unfoldable pub nat_eq : Eq ℕ
unfolding ℕ_discrete
nat_eq = record { dec = ℕ_discrete }

-- Texts are lists of code points. Shut in proofs, where a split on a test yields the equation.
instance unfoldable pub text_eq : Eq (List ℕ)
unfolding list_beq
text_eq = record {
  dec = λ s t.
      dite (Bool-discrete (list_beq s t) true) (λ h. yes (list_beq_sound s t h))
        (λ h. no (λ p. h (list_beq_refl s t p)));
}
