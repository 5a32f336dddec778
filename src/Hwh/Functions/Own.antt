-- ===== src/Hwh/Functions/Own.antt =====
-- `fn_for` finds the pin that it is asked for, so no `StopIteration` leaves the loops over the pins.
use aximux.Prelude.{
  any, ◌||◌, ℕ, ◌<◌, List, [], ◌∷◌, ◌++◌, Option, some, Bool, true, false, ◌==◌, ==_refl,
  if◌then◌else◌, ◌≡◌, refl, arith, All, map, find_first, ◌>>=◌, append_assoc,
}
use aximux.Text.{Text}
use aximux.Hwh.Model.{Pin, Mux, Naming}
use aximux.Hwh.Naming.{Regex, apply_naming, naming_raises, unless, slot_label}
use aximux.Hwh.Functions.{fn_for, pin_at, slot_at, traverse}
use aximux.Hwh.Muxes.Order.{Ascending}
use aximux.Hwh.Muxes.Shape.{index_of}

abbrev at_index : ℕ → List Pin → Option Pin
at_index i = find_first (λ (p : Pin). p.index == i)

-- The first pin with the index of one that is there.
found_first : (ps qs : List Pin) (p : Pin) → (q : Pin) × (at_index p.index (ps ++ p ∷ qs) ≡ some q)
found_first [] qs p = (p, rw (==_refl p.index))
found_first (o ∷ ps) qs p = step (o.index == p.index) (found_first ps qs p)
  where
    step :
        (b : Bool)
        → (q : Pin) × (at_index p.index (ps ++ p ∷ qs) ≡ some q)
        → (q : Pin) × ((if b then some o else at_index p.index (ps ++ p ∷ qs)) ≡ some q)
    step true ih = (o, refl)
    step false ih = ih

-- Where indices ascend it is the pin itself.
found_self :
    (ps qs : List Pin) (p : Pin)
    → Ascending (map index_of (ps ++ p ∷ qs))
    → at_index p.index (ps ++ p ∷ qs) ≡ some p
found_self [] qs p h = rw (==_refl p.index)
found_self (o ∷ ps) qs p h = ground (arith, found_self ps qs p h.1, below ps h.0)
  where
    below :
        (rs : List Pin) → All (λ y. o.index < y) (map index_of (rs ++ p ∷ qs)) → o.index < p.index
    below [] a = a.0
    below (r ∷ rs) a = below rs a.1

-- A loop raises if one of its rounds does.
pub traverse-unless {ℓ κ} :
    {A : Type ℓ} {B : Type κ} (f : A → Option B) (b : A → Bool) (g : A → B) (xs : List A)
    → All (λ x. f x ≡ unless (b x) (g x)) xs
    → traverse f xs ≡ unless (any b xs) (map g xs)
traverse-unless f b g [] h = refl
traverse-unless {A} {B} f b g (x ∷ xs) h =
    rw (h.0, traverse-unless f b g xs h.1) (both (b x) (any b xs))
  where
    both :
        (c d : Bool)
        → (unless c (g x) >>= λ y. unless d (map g xs) >>= λ ys. some (y ∷ ys))
          ≡ unless (c || d) (g x ∷ map g xs)
    both true d = refl
    both false true = refl
    both false false = refl

pub traverse_total {ℓ κ} :
    {A : Type ℓ} {B : Type κ} (f : A → Option B) (xs : List A)
    → All (λ x. (y : B) × (f x ≡ some y)) xs
    → (ys : List B) × (traverse f xs ≡ some ys)
traverse_total f [] h = ([], refl)
traverse_total f (x ∷ xs) h =
    let (ys, e) = traverse_total f xs h.1 in ((h.0).0 ∷ ys, rw ((h.0).1, e))

module _ (re : Regex) (naming : Naming) where
  -- The name of a pin at an alternate, from its own slot.
  abbrev pub own_name : Mux → ℕ → Pin → Text
  own_name mux a p = apply_naming re (slot_label (slot_at a p)) p.index a naming mux.inst

  -- The naming of a pin at an alternate raises.
  abbrev pub own_raises : ℕ → Pin → Bool
  own_raises a p = naming_raises re (slot_label (slot_at a p)) naming

  fn_for_lem :
      (mux : Mux) (i a : ℕ)
      → fn_for re naming mux i a ≡ (
          pin_at i mux >>= λ p.
          unless
            (naming_raises re (slot_label (slot_at a p)) naming)
            (apply_naming re (slot_label (slot_at a p)) i a naming mux.inst))
  unfolding fn_for
  fn_for_lem mux i a = refl

  module _ (mux : Mux) (a : ℕ) where
    module _ (quiet : (label : Option Text) → naming_raises re label naming ≡ false) where
      total_from :
          (ps qs : List Pin)
          → ps ++ qs ≡ mux.pins
          → All (λ (p : Pin). (t : Text) × (fn_for re naming mux p.index a ≡ some t)) qs
      total_from ps [] e = tt
      total_from ps (p ∷ qs) e =
          let (q, h) = found_first ps qs p in
          (
            (
              apply_naming re (slot_label (slot_at a q)) p.index a naming mux.inst,
              rw (fn_for_lem mux p.index a, ← e, h, quiet (slot_label (slot_at a q))),
            ),
            total_from (ps ++ (p ∷ [])) qs (rw append_assoc e),
          )

      -- Every mux, ordered or not: each of its pins has a name at each alternate, if no rule raises.
      pub fn_for_total :
          All (λ (p : Pin). (t : Text) × (fn_for re naming mux p.index a ≡ some t)) mux.pins
      fn_for_total = total_from [] mux.pins refl

    own_from :
        (ps qs : List Pin)
        → ps ++ qs ≡ mux.pins
        → Ascending (map index_of (ps ++ qs))
        → All
            (λ (p : Pin).
              fn_for re naming mux p.index a ≡ unless (own_raises a p) (own_name mux a p))
            qs
    own_from ps [] e h = tt
    own_from ps (p ∷ qs) e h = (
      rw (fn_for_lem mux p.index a, ← e, found_self ps qs p h),
      own_from (ps ++ (p ∷ [])) qs (rw append_assoc e) (rw append_assoc h),
    )

    pub fn_for_own :
        Ascending (map index_of mux.pins)
        → All
            (λ (p : Pin).
              fn_for re naming mux p.index a ≡ unless (own_raises a p) (own_name mux a p))
            mux.pins
    fn_for_own h = own_from [] mux.pins refl h
