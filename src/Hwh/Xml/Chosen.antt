-- ===== src/Hwh/Xml/Chosen.antt =====
-- Of the ports below an element, those whose enclosing module, as the loop finds it, is a given one.
use aximux.Prelude.{
  ℕ, ◌+◌, ◌≤◌, ◌<◌, List, [], ◌∷◌, ◌++◌, Option, ◌≡◌, refl, ap, ◌∙◌, true, false, if◌then◌else◌,
  same, contains, select, nat_eq, text_eq, arith, Bool-cases, inl, inr,
}
use aximux.Hwh.Xml.{
  Element, element, Elements, nil, cons, ident, tag_of, iter_all, iter_elements, Parents,
  module_tag, enclosing_module, is_element,
}
use aximux.Hwh.Xml.Parents.{Valid, Valids}
use aximux.Hwh.Xml.Identity.{idents, idents_of, idents_below, not_in_cons, idents-element}
use aximux.Hwh.Xml.Walks.{
  port_tag, ports_in, ports_among, select-append, Walks, inner, Walks-child, size, sizes,
  size-element, sizes-cons,
}

module _ (fuel : ℕ) (ps : Parents) (m : Element) where
  -- The ports of a list whose enclosing module is `m`.
  unfoldable pub chosen : List Element → List Element
  unfolding enclosing_module text_eq
  chosen xs =
      select (λ p. is_element (enclosing_module fuel ps p) m)
        (select (λ e. same (tag_of e) port_tag) xs)

  chosen-nil : chosen [] ≡ []
  unfolding chosen
  chosen-nil = refl

  chosen-append : (xs ys : List Element) → chosen (xs ++ ys) ≡ chosen xs ++ chosen ys
  unfolding chosen
  chosen-append xs ys =
      rw (select-append (λ e. same (tag_of e) port_tag) xs ys)
        (select-append (λ p. is_element (enclosing_module fuel ps p) m) _ _)

  pub chosen-cons :
      (e : Element) (xs : List Element)
      → chosen (e ∷ xs) ≡ (
          if same (tag_of e) port_tag
          then (if is_element (enclosing_module fuel ps e) m then e ∷ chosen xs else chosen xs)
          else chosen xs)
  unfolding chosen
  chosen-cons e xs = ground arith

  chosen-cons_other :
      (e : Element) (xs : List Element) (top : Option Element) (d : ℕ)
      → Walks ps top d e
      → is_element top m ≡ false
      → d < fuel
      → chosen (e ∷ xs) ≡ chosen xs
  chosen-cons_other e xs top d w o l =
      ground (arith, chosen-cons e xs, ap (λ t. is_element t m) (w fuel l))

  chosen-cons_own :
      (e : Element) (xs : List Element) (top : Option Element) (d : ℕ)
      → Walks ps top d e
      → is_element top m ≡ true
      → d < fuel
      → chosen (e ∷ xs) ≡ (if same (tag_of e) port_tag then e ∷ [] else []) ++ chosen xs
  chosen-cons_own e xs top d w o l =
      ground (arith, chosen-cons e xs, ap (λ t. is_element t m) (w fuel l))

  inner_other :
      (e : Element) (top : Option Element)
      → is_element top m ≡ false
      → contains (idents e) (ident m) ≡ false
      → is_element (inner e top) m ≡ false
  inner_other e top o a = ground (arith, ap (λ l. contains l (ident m)) (idents-element e))

  below_other :
      (e : Element)
      → contains (idents e) (ident m) ≡ false
      → contains (idents_below e) (ident m) ≡ false
  below_other e a = ground (arith, ap (λ l. contains l (ident m)) (idents-element e))

  tree_other :
      (c : Element) (cs : Elements)
      → contains (idents_of (cons c cs)) (ident m) ≡ false
      → contains (idents c) (ident m) ≡ false
  tree_other c cs a =
      ground
        (arith, not_in_cons (ident m) c cs a, ap (λ l. contains l (ident m)) (idents-element c))

  mutual
    unfolding Valid iter_all

    -- Inside another module, nothing is chosen.
    chosen_other :
        (e : Element) (top : Option Element) (d : ℕ)
        → Valid ps e
        → Walks ps top d e
        → is_element top m ≡ false
        → contains (idents e) (ident m) ≡ false
        → d + size e ≤ fuel
        → chosen (iter_all e) ≡ []
    chosen_other (element n tag attrs cs) top d v w o a l =
        chosen-cons_other (element n tag attrs cs) (iter_elements cs) top d w o
          (omega (arith, size-element n tag attrs cs))
        ∙ chosen_others (element n tag attrs cs) cs top d v w
            (inner_other (element n tag attrs cs) top o a) (below_other (element n tag attrs cs) a)
            (omega (arith, size-element n tag attrs cs))

    chosen_others :
        (p : Element) (cs : Elements) (top : Option Element) (d : ℕ)
        → Valids ps p cs
        → Walks ps top d p
        → is_element (inner p top) m ≡ false
        → contains (idents_of cs) (ident m) ≡ false
        → d + 1 + sizes cs ≤ fuel
        → chosen (iter_elements cs) ≡ []
    chosen_others p nil top d v w o a l = chosen-nil
    chosen_others p (cons c cs) top d v w o a l =
        chosen-append (iter_all c) (iter_elements cs)
        ∙ ap (λ l. l ++ chosen (iter_elements cs))
            (chosen_other c (inner p top) (d + 1) v.1 (Walks-child ps top d p c v.0 w) o
              (tree_other c cs a) (omega (arith, sizes-cons c cs)))
        ∙ chosen_others p cs top d v.2 w o (not_in_cons (ident m) c cs a).2
            (omega (arith, sizes-cons c cs))

  -- A module inside is another one; an element that is none leaves the loop's end as it is.
  inner_module :
      (e : Element) (top : Option Element)
      → same (tag_of e) module_tag ≡ true
      → contains (idents e) (ident m) ≡ false
      → is_element (inner e top) m ≡ false
  inner_module e top h a = ground (arith, ap (λ l. contains l (ident m)) (idents-element e))

  inner_plain :
      (e : Element) (top : Option Element)
      → same (tag_of e) module_tag ≡ false
      → is_element top m ≡ true
      → is_element (inner e top) m ≡ true
  inner_plain e top h o = ground arith

  mutual
    unfolding Valid iter_all ports_in

    -- In the module itself, what the descent finds is chosen.
    chosen_own :
        (e : Element) (top : Option Element) (d : ℕ)
        → Valid ps e
        → Walks ps top d e
        → is_element top m ≡ true
        → contains (idents e) (ident m) ≡ false
        → d + size e ≤ fuel
        → chosen (iter_all e) ≡ ports_in e
    chosen_own (element n tag attrs cs) top d v w o a l =
        chosen-cons_own (element n tag attrs cs) (iter_elements cs) top d w o
          (omega (arith, size-element n tag attrs cs))
        ∙ ap (λ l. (if same tag port_tag then element n tag attrs cs ∷ [] else []) ++ l)
            (elim (Bool-cases (same tag module_tag)) [
              | inl h ↦
                  chosen_others (element n tag attrs cs) cs top d v w
                    (inner_module (element n tag attrs cs) top h a)
                    (below_other (element n tag attrs cs) a)
                    (omega (arith, size-element n tag attrs cs))
                  ∙ ground arith
              | inr h ↦
                  chosen_owns (element n tag attrs cs) cs top d v w
                    (inner_plain (element n tag attrs cs) top h o)
                    (below_other (element n tag attrs cs) a)
                    (omega (arith, size-element n tag attrs cs))
                  ∙ ground arith
            ])

    pub chosen_owns :
        (p : Element) (cs : Elements) (top : Option Element) (d : ℕ)
        → Valids ps p cs
        → Walks ps top d p
        → is_element (inner p top) m ≡ true
        → contains (idents_of cs) (ident m) ≡ false
        → d + 1 + sizes cs ≤ fuel
        → chosen (iter_elements cs) ≡ ports_among cs
    chosen_owns p nil top d v w o a l = chosen-nil
    chosen_owns p (cons c cs) top d v w o a l =
        chosen-append (iter_all c) (iter_elements cs)
        ∙ ap (λ l. l ++ chosen (iter_elements cs))
            (chosen_own c (inner p top) (d + 1) v.1 (Walks-child ps top d p c v.0 w) o
              (tree_other c cs a) (omega (arith, sizes-cons c cs)))
        ∙ ap (λ l. ports_in c ++ l)
            (chosen_owns p cs top d v.2 w o (not_in_cons (ident m) c cs a).2
              (omega (arith, sizes-cons c cs)))
