-- ===== src/Prelude/Members.antt =====
-- The elements of a list.
use mathlib.Core.Path.{refl, subst}
use mathlib.Core.List.{List, [], ◌∷◌, map, Memᴰ}
use mathlib.Core.List.Memᴰ
use aximux.Prelude.Lists.{All, All-append, concat_map}

pub All-map_members {ℓ κ μ} :
    {A : Type ℓ} {B : Type κ} (P : B → Type μ) (f : A → B) (xs : List A)
    → ((x : A) → Memᴰ x xs → P (f x))
    → All P (map f xs)
All-map_members P f [] h = tt
All-map_members P f (x ∷ xs) h =
    (h x (Memᴰ.head refl), All-map_members P f xs (λ y m. h y (Memᴰ.tail m)))

pub All-concat_map {ℓ κ μ} :
    {A : Type ℓ} {B : Type κ} (P : B → Type μ) (f : A → List B) (xs : List A)
    → ((x : A) → Memᴰ x xs → All P (f x))
    → All P (concat_map f xs)
All-concat_map P f [] h = tt
All-concat_map P f (x ∷ xs) h =
    All-append P (f x) (concat_map f xs) (h x (Memᴰ.head refl))
      (All-concat_map P f xs (λ y m. h y (Memᴰ.tail m)))

pub mem-concat_map {ℓ κ} :
    {A : Type ℓ} {B : Type κ} (f : A → List B) {x : A} {y : B} (xs : List A)
    → Memᴰ x xs
    → Memᴰ y (f x)
    → Memᴰ y (concat_map f xs)
mem-concat_map f {x} {y} (z ∷ xs) (Memᴰ.head e) k =
    Memᴰ.append_left (concat_map f xs) (subst (λ a. Memᴰ y (f a)) e k)
mem-concat_map f (z ∷ xs) (Memᴰ.tail m) k = Memᴰ.append_right (f z) (mem-concat_map f xs m k)
mem-concat_map f [] m k = absurd (Memᴰ.not-nil m)
