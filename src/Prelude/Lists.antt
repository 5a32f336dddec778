-- ===== src/Prelude/Lists.antt =====
-- Lists measured and indexed by native numbers, under the library's names.
use Prim.Native.Nat.{ℕ, zero, suc, ◌+◌}
use mathlib.Core.Path.{◌≡◌, refl}
use mathlib.Core.Logic.{◌⊎◌, inl, inr}
use mathlib.Core.Bool.{Bool, true, false, ◌||◌, ◌&&◌}
use mathlib.Core.Option.{Option, none, some}
use mathlib.Core.List.{List, [], ◌∷◌, ◌++◌}
use native.Mathlib.Omega.{arith}
use aximux.Prelude.Tests.{if◌then◌else◌}

module _ {ℓ} {A : Type ℓ} where
  abbrev pub length : List A → ℕ
  length [] = 0
  length (x ∷ xs) = suc (length xs)

  abbrev pub get_elem? : List A → ℕ → Option A
  get_elem? [] i = none
  get_elem? (x ∷ xs) zero = some x
  get_elem? (x ∷ xs) (suc i) = get_elem? xs i

  abbrev pub take : ℕ → List A → List A
  take zero xs = []
  take (suc n) [] = []
  take (suc n) (x ∷ xs) = x ∷ take n xs

  -- `any(p(x) for x in xs)`
  abbrev pub any : (A → Bool) → List A → Bool
  any p [] = false
  any p (x ∷ xs) = p x || any p xs

  abbrev pub all : (A → Bool) → List A → Bool
  all p [] = true
  all p (x ∷ xs) = p x && all p xs

  -- `[x for x in xs if p(x)]`
  abbrev pub select : (A → Bool) → List A → List A
  select p [] = []
  select p (x ∷ xs) = let rest = select p xs in if p x then x ∷ rest else rest

  -- `next((x for x in xs if p(x)), None)`
  abbrev pub find_first : (A → Bool) → List A → Option A
  find_first p [] = none
  find_first p (x ∷ xs) = let rest = find_first p xs in if p x then some x else rest

  pub length-append : (xs ys : List A) → length (xs ++ ys) ≡ length xs + length ys
  length-append [] ys = omega arith
  length-append (x ∷ xs) ys = omega (arith, length-append xs ys)

  pub all-append : (p : A → Bool) (xs ys : List A) → all p (xs ++ ys) ≡ (all p xs && all p ys)
  all-append p [] ys = refl
  all-append p (x ∷ xs) ys = ground (arith, all-append p xs ys)

-- Every element satisfies `P`.
abbrev pub All {ℓ κ} : {A : Type ℓ} → (A → Type κ) → List A → Type κ
All P [] = Unit
All P (x ∷ xs) = P x × All P xs

pub All-append {ℓ κ} :
    {A : Type ℓ} (P : A → Type κ) (xs ys : List A) → All P xs → All P ys → All P (xs ++ ys)
All-append P [] ys h k = k
All-append P (x ∷ xs) ys h k = (h.0, All-append P xs ys h.1 k)

pub All-map {ℓ κ μ} :
    {A : Type ℓ} {P : A → Type κ} {Q : A → Type μ} (f : (a : A) → P a → Q a) (xs : List A)
    → All P xs
    → All Q xs
All-map f [] h = tt
All-map f (x ∷ xs) h = (f x h.0, All-map f xs h.1)

-- Some element satisfies `P`.
abbrev pub Exists {ℓ} : {A : Type ℓ} → (A → Type 0) → List A → Type 0
Exists P [] = ⊥
Exists P (x ∷ xs) = P x ⊎ Exists P xs

-- `range(n)`, from the given start.
abbrev pub range_from : ℕ → ℕ → List ℕ
range_from i zero = []
range_from i (suc n) = i ∷ range_from (i + 1) n

abbrev pub range : ℕ → List ℕ
range n = range_from 0 n

abbrev pub concat {ℓ} : {A : Type ℓ} → List (List A) → List A
concat [] = []
concat (x ∷ xs) = x ++ concat xs

abbrev pub concat_map {ℓ κ} : {A : Type ℓ} {B : Type κ} → (A → List B) → List A → List B
concat_map f [] = []
concat_map f (x ∷ xs) = f x ++ concat_map f xs

pub Exists-map {ℓ} :
    {A : Type ℓ} {P : A → Type 0} {Q : A → Type 0} (f : (a : A) → P a → Q a) (xs : List A)
    → Exists P xs
    → Exists Q xs
Exists-map f (x ∷ xs) (inl h) = inl (f x h)
Exists-map f (x ∷ xs) (inr h) = inr (Exists-map f xs h)
Exists-map f [] h = absurd h

-- Every element of a list is one of its elements.
pub All-Exists {ℓ} :
    {A : Type ℓ} (P : A → A → Type 0)
    → ((a : A) → P a a)
    → (xs : List A) → All (λ x. Exists (P x) xs) xs
All-Exists P r [] = tt
All-Exists P r (x ∷ xs) =
    (inl (r x), All-map (λ y (h : Exists (P y) xs). inr h) xs (All-Exists P r xs))

pub List-cases {ℓ} :
    {A : Type ℓ} (xs : List A) → (xs ≡ []) ⊎ ((y : A) × (ys : List A) × (xs ≡ y ∷ ys))
List-cases [] = inl refl
List-cases (x ∷ xs) = inr (x, xs, refl)

pub Exists-append_left {ℓ} :
    {A : Type ℓ} (P : A → Type 0) (xs ys : List A) → Exists P xs → Exists P (xs ++ ys)
Exists-append_left P [] ys h = absurd h
Exists-append_left P (x ∷ xs) ys (inl h) = inl h
Exists-append_left P (x ∷ xs) ys (inr h) = inr (Exists-append_left P xs ys h)

pub Exists-append_right {ℓ} :
    {A : Type ℓ} (P : A → Type 0) (xs ys : List A) → Exists P ys → Exists P (xs ++ ys)
Exists-append_right P [] ys h = h
Exists-append_right P (x ∷ xs) ys h = inr (Exists-append_right P xs ys h)

pub if-false : (b x : Bool) → x ≡ false → (if b then false else x) ≡ false
if-false true x h = refl
if-false false x h = h

pub any-false {ℓ} :
    {A : Type ℓ} (b : A → Bool) (xs : List A) → ((x : A) → b x ≡ false) → any b xs ≡ false
any-false b [] h = refl
any-false b (x ∷ xs) h = rw (h x, any-false b xs h)
