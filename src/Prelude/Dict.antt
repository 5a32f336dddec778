-- ===== src/Prelude/Dict.antt =====
-- Python's `dict`, in the order of insertion.
use mathlib.Core.Path.{◌≡◌, refl, subst}
use mathlib.Core.Option.{Option, none, some, some-injective}
use mathlib.Core.List.{List, [], ◌∷◌}
use mathlib.Core.Logic.{◌≢◌, if_pos, if_neg}
use native.Mathlib.Omega.{arith}
use aximux.Prelude.Tests.{if◌then◌else◌}
use aximux.Prelude.Lists.{All}
use aximux.Prelude.Equality.{Eq, same, same_refl}

abbrev pub Dict {ℓ κ} : Type ℓ → Type κ → Type (ℓ ⊔ κ)
Dict K V = List (K × V)

abbrev pub keys {ℓ κ} : {K : Type ℓ} {V : Type κ} → Dict K V → List K
keys [] = []
keys ((k, v) ∷ d) = k ∷ keys d

module _ {ℓ κ} {K : Type ℓ} {V : Type κ} ⦃e : Eq K⦄ where
  -- `d.get(k)`
  unfoldable pub lookup : K → Dict K V → Option V
  lookup k [] = none
  lookup k ((j, v) ∷ d) = if same k j then some v else lookup k d

  -- `d.get(k, v)`
  abbrev pub get_or : K → V → Dict K V → V
  get_or k v d = elim (lookup k d) [ none ↦ v | some w ↦ w ]

  -- `d[k] = f(d.get(k))`: a key that is there keeps its place.
  unfoldable pub alter : K → (Option V → V) → Dict K V → Dict K V
  alter k f [] = (k, f none) ∷ []
  alter k f ((j, w) ∷ d) = if same k j then (j, f (some w)) ∷ d else (j, w) ∷ alter k f d

  -- `d[k] = v`
  unfoldable pub insert : K → V → Dict K V → Dict K V
  unfolding alter
  insert k v d = alter k (λ _. v) d

  -- No key is listed twice.
  abbrev pub NodupKeys : Dict K V → Type κ
  NodupKeys [] = Unit
  NodupKeys ((k, _) ∷ d) = (lookup k d ≡ none) × NodupKeys d

  pub lookup-nil : (k : K) → lookup k [] ≡ none
  unfolding lookup
  lookup-nil k = refl

  pub lookup-cons :
      (j k : K) (v : V) (d : Dict K V)
      → lookup j ((k, v) ∷ d) ≡ (if same j k then some v else lookup j d)
  unfolding lookup
  lookup-cons j k v d = refl

  pub lookup-alter :
      (j k : K) (f : Option V → V) (d : Dict K V)
      → lookup j (alter k f d) ≡ (if same j k then some (f (lookup k d)) else lookup j d)
  unfolding alter lookup
  lookup-alter j k f [] = refl
  lookup-alter j k f ((i, w) ∷ d) = ground (arith, lookup-alter j k f d)

  pub lookup-insert :
      (j k : K) (v : V) (d : Dict K V)
      → lookup j (insert k v d) ≡ (if same j k then some v else lookup j d)
  unfolding insert
  lookup-insert j k v d = lookup-alter j k (λ _. v) d

  pub alter-NodupKeys :
      (k : K) (f : Option V → V) (d : Dict K V) → NodupKeys d → NodupKeys (alter k f d)
  unfolding alter
  alter-NodupKeys k f [] _ = (lookup-nil k, tt)
  alter-NodupKeys k f ((j, w) ∷ d) (fresh, u) =
      ground (arith, alter-NodupKeys k f d u, lookup-alter j k f d)

  pub insert-NodupKeys : (k : K) (v : V) (d : Dict K V) → NodupKeys d → NodupKeys (insert k v d)
  unfolding insert
  insert-NodupKeys k v d u = alter-NodupKeys k (λ _. v) d u

  -- A key that is not found differs from every key.
  pub lookup-none : (k : K) (d : Dict K V) → lookup k d ≡ none → All (λ j. k ≢ j) (keys d)
  unfolding lookup
  lookup-none k [] h = tt
  lookup-none k ((j, w) ∷ d) h = (λ p. ground (arith, same_refl k), lookup-none k d (ground arith))

  pub lookup_of_ne : (k : K) (d : Dict K V) → All (λ j. k ≢ j) (keys d) → lookup k d ≡ none
  unfolding lookup
  lookup_of_ne k [] h = refl
  lookup_of_ne k ((j, w) ∷ d) h = ground (arith, lookup_of_ne k d h.1)

  -- A property of entries that the write keeps.
  pub alter-All {μ} :
      (P : K × V → Type μ) (k : K) (f : Option V → V) (d : Dict K V)
      → P (k, f none)
      → ((j : K) (v : V) → k ≡ j → P (j, v) → P (j, f (some v)))
      → All P d
      → All P (alter k f d)
  unfolding alter
  alter-All P k f [] new old a = (new, tt)
  alter-All P k f ((j, w) ∷ d) new old a = elim (e.dec k j) [
    | yes h ↦ rw (if_pos _ h) (old j w h a.0, a.1)
    | no h ↦ rw (if_neg _ h) (a.0, alter-All P k f d new old a.1)
  ]

  -- What holds of every entry holds of one that is found.
  pub lookup-All {μ} :
      (P : V → Type μ) (k : K) (d : Dict K V) {v : V}
      → All (λ ((j, w) : K × V). P w) d
      → lookup k d ≡ some v
      → P v
  unfolding lookup
  lookup-All P k [] a h = cc
  lookup-All P k ((j, w) ∷ d) a h = elim (e.dec k j) [
    | yes p ↦ subst P (some-injective _ _ (rw (if_pos _ p) at h)) a.0
    | no p ↦ lookup-All P k d a.1 (rw (if_neg _ p) at h)
  ]
