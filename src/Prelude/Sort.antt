-- ===== src/Prelude/Sort.antt =====
-- Python's `sorted`: a stable sort by a Boolean order.
use mathlib.Core.Bool.{Bool}
use mathlib.Core.List.{List, [], ◌∷◌, Perm}
use mathlib.Core.List.Perm
use aximux.Prelude.Lists.{All, All-map}
use mathlib.Core.Path.{◌≡◌}
use mathlib.Core.Bool.{true, false}
use aximux.Prelude.Tests.{if◌then◌else◌, Bool-cases}
use mathlib.Core.Logic.{inl, inr}

module _ {ℓ} {A : Type ℓ} (le : A → A → Bool) where
  unfoldable pub insert_sorted : A → List A → List A
  insert_sorted x [] = x ∷ []
  insert_sorted x (y ∷ ys) = if le x y then x ∷ y ∷ ys else y ∷ insert_sorted x ys

  unfoldable pub sort_by : List A → List A
  unfolding insert_sorted
  sort_by [] = []
  sort_by (x ∷ xs) = insert_sorted x (sort_by xs)

  insert_sorted-perm : (x : A) (ys : List A) → Perm (insert_sorted x ys) (x ∷ ys)
  unfolding insert_sorted
  insert_sorted-perm x [] = Perm.refl (x ∷ [])
  insert_sorted-perm x (y ∷ ys) = elim (Bool-cases (le x y)) [
    | inl h ↦ rw h (Perm.refl (x ∷ y ∷ ys))
    | inr h ↦ rw h (Perm.trans (Perm.cons y (insert_sorted-perm x ys)) (Perm.swap x y ys))
  ]

  pub sort_by-perm : (xs : List A) → Perm (sort_by xs) xs
  unfolding sort_by
  sort_by-perm [] = Perm.refl []
  sort_by-perm (x ∷ xs) =
      Perm.trans (insert_sorted-perm x (sort_by xs)) (Perm.cons x (sort_by-perm xs))

  insert_sorted-All {κ} :
      (P : A → Type κ) (x : A) (ys : List A) → P x → All P ys → All P (insert_sorted x ys)
  unfolding insert_sorted
  insert_sorted-All P x [] h a = (h, tt)
  insert_sorted-All P x (y ∷ ys) h a = elim (Bool-cases (le x y)) [
    | inl e ↦ rw e (h, a)
    | inr e ↦ rw e (a.0, insert_sorted-All P x ys h a.1)
  ]

  pub sort_by-All {κ} : (P : A → Type κ) (xs : List A) → All P xs → All P (sort_by xs)
  unfolding sort_by
  sort_by-All P [] a = tt
  sort_by-All P (x ∷ xs) a = insert_sorted-All P x (sort_by xs) a.0 (sort_by-All P xs a.1)

  insert_sorted-All_of {κ} :
      (P : A → Type κ) (x : A) (ys : List A) → All P (insert_sorted x ys) → P x × All P ys
  unfolding insert_sorted
  insert_sorted-All_of P x [] h = h
  insert_sorted-All_of P x (y ∷ ys) h = elim (Bool-cases (le x y)) [
    | inl e ↦ let h' : All P (x ∷ y ∷ ys) = rw (e) at h in h'
    | inr e ↦
        let h' : All P (y ∷ insert_sorted x ys) = rw (e) at h in
        let (here, rest) = insert_sorted-All_of P x ys h'.1 in (here, (h'.0, rest))
  ]

  -- What holds of all sorted elements holds of all elements.
  pub sort_by-All_of {κ} : (P : A → Type κ) (xs : List A) → All P (sort_by xs) → All P xs
  unfolding sort_by
  sort_by-All_of P [] h = tt
  sort_by-All_of P (x ∷ xs) h =
      let (here, rest) = insert_sorted-All_of P x (sort_by xs) h in (here, sort_by-All_of P xs rest)

  -- Each element is in order with all that follow.
  abbrev pub SortedBy : List A → Type 0
  SortedBy [] = Unit
  SortedBy (x ∷ xs) = All (λ y. le x y ≡ true) xs × SortedBy xs

  module _ (total : (a b : A) → le a b ≡ false → le b a ≡ true)
      (trans : (a b c : A) → le a b ≡ true → le b c ≡ true → le a c ≡ true) where
    insert_sorted-SortedBy : (x : A) (ys : List A) → SortedBy ys → SortedBy (insert_sorted x ys)
    unfolding insert_sorted
    insert_sorted-SortedBy x [] s = (tt, tt)
    insert_sorted-SortedBy x (y ∷ ys) s = elim (Bool-cases (le x y)) [
      | inl e ↦ rw e ((e, All-map (λ z h. trans x y z e h) ys s.0), s)
      | inr e ↦ rw e (
        insert_sorted-All (λ z. le y z ≡ true) x ys (total x y e) s.0,
        insert_sorted-SortedBy x ys s.1,
      )
    ]

    pub sort_by-SortedBy : (xs : List A) → SortedBy (sort_by xs)
    unfolding sort_by
    sort_by-SortedBy [] = tt
    sort_by-SortedBy (x ∷ xs) = insert_sorted-SortedBy x (sort_by xs) (sort_by-SortedBy xs)
