-- ===== src/Hwh/Muxes/Order.antt =====
-- Dicts with numbers for keys, in the order of their keys.
use aximux.Prelude.{
  ℕ, ◌<◌, List, [], ◌∷◌, leb, ◌≡◌, refl, ◌≢◌, arith, All, All-map, nat_eq, Bool-cases, inl, inr,
}
use aximux.Prelude.Dict
use aximux.Prelude.Dict.{Dict, keys}
use aximux.Prelude.Sort.{sort_by, insert_sorted}
use aximux.Hwh.Muxes.{by_key}

-- Each number is below all that follow.
abbrev pub Ascending : List ℕ → Type 0
Ascending [] = Unit
Ascending (x ∷ xs) = All (λ y. x < y) xs × Ascending xs

module _ {V : Type 0} where
  insert_sorted-All :
      (P : ℕ → Type 0) (k : ℕ) (v : V) (d : Dict ℕ V)
      → P k
      → All P (keys d)
      → All P (keys (insert_sorted by_key (k, v) d))
  unfolding insert_sorted
  insert_sorted-All P k v [] h a = (h, tt)
  insert_sorted-All P k v ((j, w) ∷ d) h a = elim (Bool-cases (leb k j)) [
    | inl e ↦ rw e (h, a)
    | inr e ↦ rw e (a.0, insert_sorted-All P k v d h a.1)
  ]

  sort_by-All : (P : ℕ → Type 0) (d : Dict ℕ V) → All P (keys d) → All P (keys (sort_by by_key d))
  unfolding sort_by
  sort_by-All P [] a = tt
  sort_by-All P ((k, v) ∷ d) a =
      insert_sorted-All P k v (sort_by by_key d) a.0 (sort_by-All P d a.1)

  insert_sorted-Ascending :
      (k : ℕ) (v : V) (d : Dict ℕ V)
      → All (λ j. k ≢ j) (keys d)
      → Ascending (keys d)
      → Ascending (keys (insert_sorted by_key (k, v) d))
  unfolding insert_sorted
  insert_sorted-Ascending k v [] n a = (tt, tt)
  insert_sorted-Ascending k v ((j, w) ∷ d) n a = elim (Bool-cases (leb k j)) [
    | inl e ↦
        let lt : k < j = ground arith in
        rw e ((lt, All-map (λ y (h : j < y). omega arith) (keys d) a.0), a)
    | inr e ↦ rw e (
      insert_sorted-All (λ y. j < y) k v d (ground arith) a.0,
      insert_sorted-Ascending k v d n.1 a.1,
    )
  ]

  pub sort_by-Ascending : (d : Dict ℕ V) → Dict.NodupKeys d → Ascending (keys (sort_by by_key d))
  unfolding sort_by
  sort_by-Ascending [] u = tt
  sort_by-Ascending ((k, v) ∷ d) (fresh, u) =
      insert_sorted-Ascending k v (sort_by by_key d)
        (sort_by-All (λ j. k ≢ j) d (Dict.lookup-none k d fresh)) (sort_by-Ascending d u)

  lookup-insert_sorted :
      (j k : ℕ) (v : V) (d : Dict ℕ V)
      → Dict.lookup j (insert_sorted by_key (k, v) d) ≡ Dict.lookup j ((k, v) ∷ d)
  unfolding insert_sorted Dict.lookup
  lookup-insert_sorted j k v [] = refl
  lookup-insert_sorted j k v ((i, w) ∷ d) = ground (arith, lookup-insert_sorted j k v d)

  -- Sorting a dict changes no lookup.
  pub lookup-sort_by : (j : ℕ) (d : Dict ℕ V) → Dict.lookup j (sort_by by_key d) ≡ Dict.lookup j d
  unfolding sort_by
  lookup-sort_by j [] = refl
  lookup-sort_by j ((k, v) ∷ d) = rw (
    lookup-insert_sorted j k v (sort_by by_key d),
    Dict.lookup-cons j k v (sort_by by_key d),
    Dict.lookup-cons j k v d,
    lookup-sort_by j d,
  )
