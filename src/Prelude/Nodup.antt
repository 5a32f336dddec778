-- ===== src/Prelude/Nodup.antt =====
-- Lists without repetition, and ranges.
use Prim.Native.Nat.{ℕ, zero, suc, ◌+◌, ◌≤◌}
use mathlib.Core.Path.{◌≡◌, refl, ap}
use mathlib.Core.Logic.{◌≢◌}
use mathlib.Core.List.{List, [], ◌∷◌, ◌++◌, map}
use native.Mathlib.Omega.{arith}
use aximux.Prelude.Lists.{All, All-append, All-map, concat_map, range_from}

-- Nothing is listed twice.
abbrev pub Nodup {ℓ} : {A : Type ℓ} → List A → Type ℓ
Nodup [] = Unit
Nodup (x ∷ xs) = All (λ y. x ≢ y) xs × Nodup xs

pub Nodup-append {ℓ} :
    {A : Type ℓ} (xs ys : List A)
    → Nodup xs
    → Nodup ys
    → All (λ x. All (λ y. x ≢ y) ys) xs
    → Nodup (xs ++ ys)
Nodup-append [] ys u v d = v
Nodup-append (x ∷ xs) ys u v d =
    (All-append (λ y. x ≢ y) xs ys u.0 d.0, Nodup-append xs ys u.1 v d.1)

-- What a function tells apart is apart.
pub All-of_map {ℓ κ μ} :
    {A : Type ℓ} {B : Type κ} (P : B → Type μ) (f : A → B) (xs : List A)
    → All P (map f xs)
    → All (λ x. P (f x)) xs
All-of_map P f [] h = tt
All-of_map P f (x ∷ xs) h = (h.0, All-of_map P f xs h.1)

pub Nodup-of_map {ℓ κ} :
    {A : Type ℓ} {B : Type κ} (f : A → B) (xs : List A) → Nodup (map f xs) → Nodup xs
Nodup-of_map f [] u = tt
Nodup-of_map f (x ∷ xs) u = (
  All-map {Q = λ y. x ≢ y} (λ y (n : f x ≢ f y) (p : x ≡ y). n (ap f p)) xs
      (All-of_map (λ b. f x ≢ b) f xs u.0),
  Nodup-of_map f xs u.1,
)

-- The numbers of a range, and what is made of them.
pub All-map_range {ℓ κ} :
    {B : Type ℓ} (P : B → Type κ) (f : ℕ → B) (i n : ℕ)
    → ((j : ℕ) → i ≤ j → P (f j))
    → All P (map f (range_from i n))
All-map_range P f i zero h = tt
All-map_range P f i (suc n) h =
    (h i (omega arith), All-map_range P f (i + 1) n (λ j l. h j (omega arith)))

pub All-concat_range {ℓ κ} :
    {B : Type ℓ} (P : B → Type κ) (f : ℕ → List B) (i n : ℕ)
    → ((j : ℕ) → i ≤ j → All P (f j))
    → All P (concat_map f (range_from i n))
All-concat_range P f i zero h = tt
All-concat_range P f i (suc n) h =
    All-append P (f i) (concat_map f (range_from (i + 1) n)) (h i (omega arith))
      (All-concat_range P f (i + 1) n (λ j l. h j (omega arith)))

pub map-map {ℓ κ μ} :
    {A : Type ℓ} {B : Type κ} {C : Type μ} (g : B → C) (f : A → B) (xs : List A)
    → map g (map f xs) ≡ map (λ x. g (f x)) xs
map-map g f [] = refl
map-map g f (x ∷ xs) = ap (λ l. g (f x) ∷ l) (map-map g f xs)

pub All-both {ℓ κ} :
    {A : Type ℓ} {P Q R : A → Type κ} (f : (a : A) → P a → Q a → R a) (xs : List A)
    → All P xs
    → All Q xs
    → All R xs
All-both f [] h k = tt
All-both f (x ∷ xs) h k = (f x h.0 k.0, All-both f xs h.1 k.1)

pub All-to_map {ℓ κ μ} :
    {A : Type ℓ} {B : Type κ} (P : B → Type μ) (f : A → B) (xs : List A)
    → All (λ x. P (f x)) xs
    → All P (map f xs)
All-to_map P f [] h = tt
All-to_map P f (x ∷ xs) h = (h.0, All-to_map P f xs h.1)
