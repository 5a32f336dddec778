-- ===== src/Hwh/Xml/Parents.antt =====
-- `parent_map` of tools/hwh_aximux_dt.py: in a document whose elements are distinct objects, the
-- map has every child's own parent.
use aximux.Prelude.{
  ℕ, List, [], ◌∷◌, ◌++◌, some, none, ◌≡◌, refl, ap, ◌∙◌, true, false, same_refl, contains, nat_eq,
  arith,
}
use aximux.Prelude.Dict
use aximux.Hwh.Xml.{
  Element, element, Elements, nil, cons, ident, elements, children, iter_all, iter_elements,
  Parents, add_children, add_parents, parent_map,
}
use aximux.Hwh.Xml.Identity.{
  idents, idents_of, idents_below, distinct, idents-element, not_in_cons, in_cons, distinct_cons,
  distinct_below, below_or_among,
}

add_parents-append :
    (xs ys : List Element) (d : Parents)
    → add_parents (xs ++ ys) d ≡ add_parents ys (add_parents xs d)
unfolding add_parents
add_parents-append [] ys d = refl
add_parents-append (x ∷ xs) ys d = add_parents-append xs ys (add_children x (children x) d)

-- The parents after an element's whole tree, and after those of a list.
unfoldable with_tree : Element → Parents → Parents
unfolding add_parents iter_all
with_tree e d = add_parents (iter_all e) d

unfoldable with_trees : Elements → Parents → Parents
unfolding add_parents iter_elements
with_trees cs d = add_parents (iter_elements cs) d

with_trees-nil : (d : Parents) → with_trees nil d ≡ d
unfolding with_trees iter_elements add_parents
with_trees-nil d = refl

with_trees-cons :
    (c : Element) (cs : Elements) (d : Parents)
    → with_trees (cons c cs) d ≡ with_trees cs (with_tree c d)
unfolding with_trees with_tree iter_elements
with_trees-cons c cs d = add_parents-append (iter_all c) (iter_elements cs) d

with_tree-element :
    (n : ℕ) (tag : List ℕ) (attrs : List (List ℕ × List ℕ)) (cs : Elements) (d : Parents)
    → with_tree (element n tag attrs cs) d
      ≡ with_trees cs (add_children (element n tag attrs cs) (elements cs) d)
unfolding with_trees with_tree iter_all add_parents
with_tree-element n tag attrs cs d = refl

lookup-add_children_other :
    (k : ℕ) (p : Element) (cs : Elements) (d : Parents)
    → contains (idents_of cs) k ≡ false
    → Dict.lookup k (add_children p (elements cs) d) ≡ Dict.lookup k d
unfolding add_children
lookup-add_children_other k p nil d h = refl
lookup-add_children_other k p (cons c cs) d h =
    lookup-add_children_other k p cs (Dict.insert (ident c) p d) (not_in_cons k c cs h).2
    ∙ Dict.lookup-insert k (ident c) p d
    ∙ ground (arith, not_in_cons k c cs h)

mutual
  -- The parents of an element that is not below this one stay.
  lookup-with_tree_other :
      (k : ℕ) (e : Element) (d : Parents)
      → contains (idents_below e) k ≡ false
      → Dict.lookup k (with_tree e d) ≡ Dict.lookup k d
  lookup-with_tree_other k (element n tag attrs cs) d h =
      ap (Dict.lookup k) (with_tree-element n tag attrs cs d)
      ∙ lookup-with_trees_other k cs (add_children (element n tag attrs cs) (elements cs) d) h
      ∙ lookup-add_children_other k (element n tag attrs cs) cs d h

  lookup-with_trees_other :
      (k : ℕ) (cs : Elements) (d : Parents)
      → contains (idents_of cs) k ≡ false
      → Dict.lookup k (with_trees cs d) ≡ Dict.lookup k d
  lookup-with_trees_other k nil d h = ap (Dict.lookup k) (with_trees-nil d)
  lookup-with_trees_other k (cons c cs) d h =
      ap (Dict.lookup k) (with_trees-cons c cs d)
      ∙ lookup-with_trees_other k cs (with_tree c d) (not_in_cons k c cs h).2
      ∙ lookup-with_tree_other k c d (not_in_cons k c cs h).1

-- Every element strictly below has its own parent in the map.
abbrev pub HasParent : Parents → Element → Element → Type 0
HasParent ps p c = Dict.lookup (ident c) ps ≡ some p

unfoldable mutual
  pub Valid : Parents → Element → Type 0
  Valid ps (element n tag attrs cs) = Valids ps (element n tag attrs cs) cs

  pub Valids : Parents → Element → Elements → Type 0
  Valids ps p nil = Unit
  Valids ps p (cons c cs) = HasParent ps p c × Valid ps c × Valids ps p cs

abbrev AllHave : Parents → Element → Elements → Type 0
AllHave ps p nil = Unit
AllHave ps p (cons c cs) = HasParent ps p c × AllHave ps p cs

HasParent-add_children :
    (p c : Element) (cs : List Element) (d : Parents)
    → HasParent d p c
    → HasParent (add_children p cs d) p c
unfolding add_children
HasParent-add_children p c [] d h = h
HasParent-add_children p c (x ∷ cs) d h =
    HasParent-add_children p c cs (Dict.insert (ident x) p d)
      (ground (arith, Dict.lookup-insert (ident c) (ident x) p d))

-- After an element's children are entered, all have it.
add_children-AllHave :
    (p : Element) (cs : Elements) (d : Parents) → AllHave (add_children p (elements cs) d) p cs
unfolding add_children
add_children-AllHave p nil d = tt
add_children-AllHave p (cons c cs) d = (
  HasParent-add_children p c (elements cs) (Dict.insert (ident c) p d)
      (ground (arith, Dict.lookup-insert (ident c) (ident c) p d, same_refl (ident c))),
  add_children-AllHave p cs (Dict.insert (ident c) p d),
)

-- Two maps that agree on some numbers.
abbrev Agree : Parents → Parents → List ℕ → Type 0
Agree ps qs ks = (k : ℕ) → contains ks k ≡ true → Dict.lookup k ps ≡ Dict.lookup k qs

AllHave-Agree :
    (p : Element) (cs : Elements) (d d' : Parents)
    → Agree d' d (idents_of cs)
    → AllHave d p cs
    → AllHave d' p cs
AllHave-Agree p nil d d' g h = tt
AllHave-Agree p (cons c cs) d d' g h = (
  g (ident c) (in_cons 0 c cs).2 ∙ h.0,
  AllHave-Agree p cs d d' (λ k m. g k ((in_cons k c cs).0 m)) h.1,
)

mutual
  unfolding Valid

  with_tree-Valid :
      (e : Element) (d ps : Parents)
      → Agree ps (with_tree e d) (idents_below e)
      → distinct (idents e) ≡ true
      → Valid ps e
  with_tree-Valid (element n tag attrs cs) d ps g u =
      with_trees-Valids (element n tag attrs cs) cs
        (add_children (element n tag attrs cs) (elements cs) d) ps
        (λ k m. g k m ∙ ap (Dict.lookup k) (with_tree-element n tag attrs cs d))
        (add_children-AllHave (element n tag attrs cs) cs d) (distinct_below n tag attrs cs u)

  with_trees-Valids :
      (p : Element) (cs : Elements) (d ps : Parents)
      → Agree ps (with_trees cs d) (idents_of cs)
      → AllHave d p cs
      → distinct (idents_of cs) ≡ true
      → Valids ps p cs
  with_trees-Valids p nil d ps g h u = tt
  with_trees-Valids p (cons c cs) d ps g h u =
      let (one, more, not_below, not_among, apart) = distinct_cons c cs u in
      (
        g (ident c) (in_cons 0 c cs).2
            ∙ ap (Dict.lookup (ident c)) (with_trees-cons c cs d)
            ∙ lookup-with_trees_other (ident c) cs (with_tree c d) not_among
            ∙ lookup-with_tree_other (ident c) c d not_below
            ∙ h.0,
        with_tree-Valid c d ps
            (λ k m.
              g k ((in_cons k c cs).1 m)
              ∙ ap (Dict.lookup k) (with_trees-cons c cs d)
              ∙ lookup-with_trees_other k cs (with_tree c d) (below_or_among c cs k (apart k) m))
            one,
        with_trees-Valids p cs (with_tree c d) ps
            (λ k m. g k ((in_cons k c cs).0 m) ∙ ap (Dict.lookup k) (with_trees-cons c cs d))
            (AllHave-Agree p cs d (with_tree c d) (λ k m. lookup-with_tree_other k c d (apart k m))
              h.1)
            more,
      )

-- In a document without a repeated identity, `parent_map` gives every element below the root its
-- own parent.
pub parent_map-Valid :
    (root : Element) → distinct (idents root) ≡ true → Valid (parent_map root) root
unfolding parent_map with_tree
parent_map-Valid root u = with_tree-Valid root [] (parent_map root) (λ k m. refl) u

-- The root has none.
pub parent_map-root :
    (root : Element)
    → distinct (idents root) ≡ true
    → Dict.lookup (ident root) (parent_map root) ≡ none
unfolding parent_map with_tree
parent_map-root root u =
    lookup-with_tree_other (ident root) root [] (ground (arith, ap distinct (idents-element root)))
    ∙ Dict.lookup-nil (ident root)
