-- ===== src/Hwh/Xml/Walks.antt =====
-- The loop to the nearest enclosing module of tools/hwh_aximux_dt.py along the parents, and the
-- ports of a module by a descent that stops at the modules inside.
use aximux.Prelude.{
  ℕ, zero, suc, ◌+◌, ◌<◌, List, [], ◌∷◌, ◌++◌, Option, none, some, ◌≡◌, refl, ap, ◌∙◌, Bool,
  if◌then◌else◌, same, select, nat_eq, text_eq, arith, length, length-append,
}
use aximux.Prelude.Dict
use aximux.Text.{Text, codes}
use aximux.Hwh.Xml.{
  Element, element, Elements, nil, cons, ident, tag_of, iter_all, iter_elements, Parents,
  module_tag, enclosing_module,
}
use aximux.Hwh.Xml.Parents.{HasParent}

abbrev pub port_tag : Text
port_tag = codes "PORT"

unfoldable mutual
  unfolding text_eq

  -- The ports at an element and below it that are in no module below it.
  pub ports_in : Element → List Element
  ports_in (element n tag attrs cs) =
      (if same tag port_tag then element n tag attrs cs ∷ [] else [])
      ++ (if same tag module_tag then [] else ports_among cs)

  pub ports_among : Elements → List Element
  ports_among nil = []
  ports_among (cons e es) = ports_in e ++ ports_among es

-- The ports of a module, by descent.
unfoldable pub declared_ports : Element → List Element
unfolding ports_among
declared_ports (element n tag attrs cs) = ports_among cs

pub select-append :
    (p : Element → Bool) (xs ys : List Element) → select p (xs ++ ys) ≡ select p xs ++ select p ys
select-append p [] ys = refl
select-append p (x ∷ xs) ys = ground (arith, select-append p xs ys)

-- From an element at depth `d`, the loop ends at `top` with any fuel above the depth.
abbrev pub Walks : Parents → Option Element → ℕ → Element → Type 0
Walks ps top d e = (f : ℕ) → d < f → enclosing_module f ps e ≡ top

-- The module that encloses the children of an element.
abbrev pub inner : Element → Option Element → Option Element
inner p top = if same (tag_of p) module_tag then some p else top

enclosing_module-suc :
    (f : ℕ) (ps : Parents) (c p : Element)
    → HasParent ps p c
    → enclosing_module (suc f) ps c ≡ inner p (enclosing_module f ps p)
unfolding enclosing_module
enclosing_module-suc f ps c p h = rw (enclosing_module, h) refl

pub Walks-child :
    (ps : Parents) (top : Option Element) (d : ℕ) (p c : Element)
    → HasParent ps p c
    → Walks ps top d p
    → Walks ps (inner p top) (d + 1) c
Walks-child ps top d p c h w zero l = absurd (omega arith)
Walks-child ps top d p c h w (suc f) l =
    enclosing_module-suc f ps c p h ∙ ap (inner p) (w f (omega arith))

pub Walks-root :
    (ps : Parents) (root : Element) → Dict.lookup (ident root) ps ≡ none → Walks ps none 0 root
unfolding enclosing_module
Walks-root ps root h zero l = refl
Walks-root ps root h (suc f) l = rw (enclosing_module, h) refl

unfoldable pub size : Element → ℕ
unfolding iter_all
size e = length (iter_all e)

pub sizes : Elements → ℕ
unfolding iter_elements
sizes cs = length (iter_elements cs)

pub size-element :
    (n : ℕ) (tag : Text) (attrs : List (Text × Text)) (cs : Elements)
    → size (element n tag attrs cs) ≡ sizes cs + 1
unfolding size sizes iter_all
size-element n tag attrs cs = omega arith

pub sizes-cons : (c : Element) (cs : Elements) → sizes (cons c cs) ≡ size c + sizes cs
unfolding size sizes iter_elements
sizes-cons c cs = length-append (iter_all c) (iter_elements cs)
