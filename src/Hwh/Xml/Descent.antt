-- ===== src/Hwh/Xml/Descent.antt =====
-- The ports of a module in `ports_of_module` and `signame_index` of tools/hwh_aximux_dt.py, against a
-- descent that stops at the modules inside.
use aximux.Prelude.{
  ℕ, ◌+◌, ◌≤◌, List, [], ◌∷◌, Option, none, ◌≡◌, refl, ap, ◌∙◌, Bool, true, false, same, same_refl,
  contains, select, nat_eq, text_eq, arith, length, All, All-append, Bool-cases, inl, inr,
}
use aximux.Text.{Text}
use aximux.Hwh.Xml.{
  Element, element, Elements, nil, cons, tag_of, iter_all, iter_elements, iter_tag, Parents,
  parent_map, module_tag, own_ports,
}
use aximux.Hwh.Xml.Parents.{Valid, Valids, parent_map-Valid, parent_map-root}
use aximux.Hwh.Xml.Identity.{
  idents, idents_of, distinct, distinct_cons, distinct_below, idents-element,
}
use aximux.Hwh.Xml.Walks.{
  port_tag, declared_ports, Walks, inner, Walks-child, Walks-root, size, sizes, size-element,
  sizes-cons,
}
use aximux.Hwh.Xml.Chosen.{chosen, chosen-cons, chosen_owns}

tags_differ : same module_tag port_tag ≡ false
unfolding text_eq
tags_differ = refl

module_no_port : (tag : Text) → same tag module_tag ≡ true → same tag port_tag ≡ false
module_no_port tag h = ground (arith, tags_differ)

module _ (fuel : ℕ) (ps : Parents) where
  -- For a module, the loop's ports are the declared ones.
  abbrev Declared : Element → Type 0
  Declared m = same (tag_of m) module_tag ≡ true → own_ports fuel ps m ≡ declared_ports m

  own_ports-chosen : (m : Element) → own_ports fuel ps m ≡ chosen fuel ps m (iter_all m)
  unfolding own_ports chosen iter_tag
  own_ports-chosen m = refl

  own_ports_at :
      (n : ℕ) (tag : Text) (attrs : List (Text × Text)) (cs : Elements) (top : Option Element)
      (d : ℕ)
      → Valids ps (element n tag attrs cs) cs
      → Walks ps top d (element n tag attrs cs)
      → contains (idents_of cs) n ≡ false
      → d + 1 + sizes cs ≤ fuel
      → Declared (element n tag attrs cs)
  unfolding declared_ports iter_all
  own_ports_at n tag attrs cs top d v w a l h =
      let m = element n tag attrs cs in
      own_ports-chosen m
      ∙ chosen-cons fuel ps m m (iter_elements cs)
      ∙ ground (arith, module_no_port tag h)
      ∙ chosen_owns fuel ps m m cs top d v w (ground (arith, same_refl n)) a l

  mutual
    unfolding Valid iter_all

    own_ports-All :
        (e : Element) (top : Option Element) (d : ℕ)
        → Valid ps e
        → Walks ps top d e
        → distinct (idents e) ≡ true
        → d + size e ≤ fuel
        → All Declared (iter_all e)
    own_ports-All (element n tag attrs cs) top d v w u l = (
      own_ports_at n tag attrs cs top d v w
          (ground (arith, ap distinct (idents-element (element n tag attrs cs))))
          (omega (arith, size-element n tag attrs cs)),
      own_ports-All_among (element n tag attrs cs) cs top d v w (distinct_below n tag attrs cs u)
          (omega (arith, size-element n tag attrs cs)),
    )

    own_ports-All_among :
        (p : Element) (cs : Elements) (top : Option Element) (d : ℕ)
        → Valids ps p cs
        → Walks ps top d p
        → distinct (idents_of cs) ≡ true
        → d + 1 + sizes cs ≤ fuel
        → All Declared (iter_elements cs)
    own_ports-All_among p nil top d v w u l = tt
    own_ports-All_among p (cons c cs) top d v w u l =
        All-append Declared (iter_all c) (iter_elements cs)
          (own_ports-All c (inner p top) (d + 1) v.1 (Walks-child ps top d p c v.0 w)
            (distinct_cons c cs u).0 (omega (arith, sizes-cons c cs)))
          (own_ports-All_among p cs top d v.2 w (distinct_cons c cs u).1
            (omega (arith, sizes-cons c cs)))

select-All :
    (P : Element → Type 0) (p : Element → Bool) (xs : List Element)
    → All (λ x. p x ≡ true → P x) xs
    → All P (select p xs)
select-All P p [] h = tt
select-All P p (x ∷ xs) h = elim (Bool-cases (p x)) [
  | inl t ↦ rw (t) (h.0 t, select-All P p xs h.1)
  | inr t ↦ rw (t) (select-All P p xs h.1)
]

-- In a document in which no element's identity is repeated, with as much fuel as it has elements,
-- every module's ports, as the loop over the parents finds them, are those that a descent finds
-- which does not enter the modules inside: in the same order, and none is missed for want of fuel.
pub own_ports_lem :
    (root : Element)
    → distinct (idents root) ≡ true
    → All
        (λ m. own_ports (length (iter_all root)) (parent_map root) m ≡ declared_ports m)
        (iter_tag module_tag root)
unfolding iter_tag size
own_ports_lem root u =
    select-All (λ m. own_ports (length (iter_all root)) (parent_map root) m ≡ declared_ports m)
      (λ e. same (tag_of e) module_tag) (iter_all root)
      (own_ports-All (length (iter_all root)) (parent_map root) root none 0
        (parent_map-Valid root u) (Walks-root (parent_map root) root (parent_map-root root u)) u
        (omega arith))
