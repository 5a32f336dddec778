-- ===== src/Hwh/Xml/Identity.antt =====
-- The identities of the elements of a document: each stands for one object.
use aximux.Prelude.{
  ℕ, List, [], ◌∷◌, ◌++◌, ◌≡◌, refl, sym, ap, ◌∙◌, Bool, true, false, not, ◌&&◌, ◌||◌, map,
  map-append, same, same_refl, contains, nat_eq, arith,
}
use aximux.Hwh.Xml.{Element, element, Elements, cons, ident, iter_all, iter_elements}

-- The identities of an element and all below it, and of those strictly below it.
unfoldable pub idents : Element → List ℕ
unfolding iter_all
idents e = map ident (iter_all e)

unfoldable pub idents_of : Elements → List ℕ
unfolding iter_elements
idents_of cs = map ident (iter_elements cs)

abbrev pub idents_below : Element → List ℕ
idents_below (element n tag attrs cs) = idents_of cs

-- No number is listed twice.
abbrev pub distinct : List ℕ → Bool
distinct [] = true
distinct (k ∷ ks) = not (contains ks k) && distinct ks

pub contains-append :
    (xs ys : List ℕ) (k : ℕ) → contains (xs ++ ys) k ≡ (contains xs k || contains ys k)
contains-append [] ys k = refl
contains-append (x ∷ xs) ys k = ground (arith, contains-append xs ys k)

pub distinct-append :
    (xs ys : List ℕ)
    → distinct (xs ++ ys) ≡ true
    → (distinct xs ≡ true)
      × (distinct ys ≡ true)
      × ((k : ℕ) → contains xs k ≡ true → contains ys k ≡ false)
distinct-append [] ys h = (refl, h, λ k p. ground arith)
distinct-append (x ∷ xs) ys h =
    let rest = distinct-append xs ys (ground arith) in
    (
      ground (arith, contains-append xs ys x),
      rest.1,
      λ k p. ground (arith, contains-append xs ys x, rest.2 k),
    )

pub idents_of-cons :
    (c : Element) (cs : Elements) → idents_of (cons c cs) ≡ idents c ++ idents_of cs
unfolding idents idents_of iter_elements
idents_of-cons c cs = map-append ident (iter_all c) (iter_elements cs)

pub idents-element : (e : Element) → idents e ≡ ident e ∷ idents_below e
unfolding idents idents_of iter_all
idents-element (element n tag attrs cs) = refl

pub contains-ident : (c : Element) → contains (idents c) (ident c) ≡ true
contains-ident c = ground (arith, idents-element c, same_refl (ident c))

-- Not among an element and its siblings: not the element, not below it, not among the siblings.
pub not_in_cons :
    (k : ℕ) (c : Element) (cs : Elements)
    → contains (idents_of (cons c cs)) k ≡ false
    → (same k (ident c) ≡ false)
      × (contains (idents_below c) k ≡ false)
      × (contains (idents_of cs) k ≡ false)
not_in_cons k c cs h = ground (
  arith,
  ap (λ l. contains l k) (idents_of-cons c cs),
  contains-append (idents c) (idents_of cs) k,
  ap (λ l. contains l k) (idents-element c),
)

pub in_cons :
    (k : ℕ) (c : Element) (cs : Elements)
    → (contains (idents_of cs) k ≡ true → contains (idents_of (cons c cs)) k ≡ true)
      × (contains (idents_below c) k ≡ true → contains (idents_of (cons c cs)) k ≡ true)
      × (contains (idents_of (cons c cs)) (ident c) ≡ true)
in_cons k c cs = (
  λ h. ground (arith, eq k),
  λ h. ground (arith, eq k),
  ground (arith, eq (ident c), same_refl (ident c)),
)
  where
    eq :
        (j : ℕ)
        → contains (idents_of (cons c cs)) j
          ≡ (same j (ident c) || contains (idents_below c) j || contains (idents_of cs) j)
    eq j = ground (
      arith,
      ap (λ l. contains l j) (idents_of-cons c cs),
      contains-append (idents c) (idents_of cs) j,
      ap (λ l. contains l j) (idents-element c),
    )

-- What `distinct` says of an element and its siblings.
pub distinct_cons :
    (c : Element) (cs : Elements)
    → distinct (idents_of (cons c cs)) ≡ true
    → (distinct (idents c) ≡ true)
      × (distinct (idents_of cs) ≡ true)
      × (contains (idents_below c) (ident c) ≡ false)
      × (contains (idents_of cs) (ident c) ≡ false)
      × ((k : ℕ) → contains (idents_of cs) k ≡ true → contains (idents_below c) k ≡ false)
distinct_cons c cs h =
    let parts =
      distinct-append (idents c) (idents_of cs) (ap distinct (sym (idents_of-cons c cs)) ∙ h) in
    (
      parts.0,
      parts.1,
      ground (arith, ap distinct (idents-element c), parts.0),
      parts.2 (ident c) (contains-ident c),
      λ k m. ground (arith, parts.2 k, ap (λ l. contains l k) (idents-element c)),
    )

pub distinct_below :
    (n : ℕ) (tag : List ℕ) (attrs : List (List ℕ × List ℕ)) (cs : Elements)
    → distinct (idents (element n tag attrs cs)) ≡ true
    → distinct (idents_of cs) ≡ true
distinct_below n tag attrs cs u =
    ground (arith, ap distinct (idents-element (element n tag attrs cs)))

pub below_or_among :
    (c : Element) (cs : Elements) (k : ℕ)
    → (contains (idents_of cs) k ≡ true → contains (idents_below c) k ≡ false)
    → contains (idents_below c) k ≡ true
    → contains (idents_of cs) k ≡ false
below_or_among c cs k apart m = ground arith
