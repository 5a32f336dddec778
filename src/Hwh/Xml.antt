-- ===== src/Hwh/Xml.antt =====
-- The XML tree as `xml.etree.ElementTree` gives it, and the walks over it: `parent_map`, the loop
-- to the nearest enclosing module, `ports_of_module` and `signame_index`.
-- An element carries the number by which a dict of elements knows it (the object's identity).
pub mod Identity
pub mod Parents
pub mod Walks
pub mod Chosen
pub mod Descent
use aximux.Prelude.{
  ℕ, zero, suc, List, [], ◌∷◌, ◌++◌, Option, none, some, Bool, false, if◌then◌else◌, select, same,
  nat_eq, text_eq,
}
use aximux.Prelude.Dict
use aximux.Prelude.Dict.{Dict}
use aximux.Text.{Text, codes}
use aximux.Hwh.Model.{Peer}

mutual
  pub data Element : Type 0 where
    element : ℕ → Text → Dict Text Text → Elements → Element

  pub data Elements : Type 0 where
    nil : Elements
    cons : Element → Elements → Elements

abbrev pub ident : Element → ℕ
ident (element n tag attrs cs) = n

abbrev pub tag_of : Element → Text
tag_of (element n tag attrs cs) = tag

abbrev pub attrs_of : Element → Dict Text Text
attrs_of (element n tag attrs cs) = attrs

-- The direct children, in order.
abbrev pub elements : Elements → List Element
elements nil = []
elements (cons e es) = e ∷ elements es

abbrev pub children : Element → List Element
children (element n tag attrs cs) = elements cs

-- `root.iter()`: the element and all below it, in document order.
unfoldable mutual
  pub iter_all : Element → List Element
  iter_all (element n tag attrs cs) = element n tag attrs cs ∷ iter_elements cs

  pub iter_elements : Elements → List Element
  iter_elements nil = []
  iter_elements (cons e es) = iter_all e ++ iter_elements es

-- `root.iter(tag)`
unfoldable pub iter_tag : Text → Element → List Element
unfolding iter_all text_eq
iter_tag tag root = select (λ e. same (tag_of e) tag) (iter_all root)

-- `e.get(name)`
unfoldable pub attr : Text → Element → Option Text
unfolding Dict.lookup text_eq
attr name e = Dict.lookup name (attrs_of e)

abbrev pub Parents : Type 0
Parents = Dict ℕ Element

-- `{c: p for p in root.iter() for c in p}`
unfoldable pub add_children : Element → List Element → Parents → Parents
unfolding Dict.insert nat_eq
add_children p [] d = d
add_children p (c ∷ cs) d = add_children p cs (Dict.insert (ident c) p d)

unfoldable pub add_parents : List Element → Parents → Parents
unfolding add_children
add_parents [] d = d
add_parents (p ∷ ps) d = add_parents ps (add_children p (children p) d)

unfoldable pub parent_map : Element → Parents
unfolding add_parents iter_all
parent_map root = add_parents (iter_all root) []

abbrev pub module_tag : Text
module_tag = codes "MODULE"

-- The loop `while cur in parents`, with one round of fuel for each element on the way up.
unfoldable pub enclosing_module : ℕ → Parents → Element → Option Element
unfolding Dict.lookup text_eq nat_eq
enclosing_module zero parents cur = none
enclosing_module (suc f) parents cur = elim (Dict.lookup (ident cur) parents) [
  | none ↦ none
  | some p ↦
      let rest = enclosing_module f parents p in if same (tag_of p) module_tag then some p else rest
]

-- `top is m`
abbrev pub is_element : Option Element → Element → Bool
is_element none m = false
is_element (some e) m = same (ident e) (ident m)

abbrev pub nonempty_text : Option Text → Option Text
nonempty_text none = none
nonempty_text (some []) = none
nonempty_text (some (c ∷ t)) = some (c ∷ t)

abbrev pub or_empty : Option Text → Text
or_empty none = []
or_empty (some t) = t

-- The ports of a module that stand in no module inside it.
unfoldable pub own_ports : ℕ → Parents → Element → List Element
unfolding enclosing_module iter_tag nat_eq
own_ports fuel parents m =
    select (λ p. is_element (enclosing_module fuel parents p) m) (iter_tag (codes "PORT") m)

add_port_name : List Element → Dict Text Text → Dict Text Text
unfolding attr Dict.insert text_eq
add_port_name [] out = out
add_port_name (p ∷ ps) out = add_port_name ps (elim (nonempty_text (attr (codes "NAME") p)) [
  | none ↦ out
  | some name ↦ elim (nonempty_text (attr (codes "SIGNAME") p)) [
    | none ↦ out
    | some sname ↦ Dict.insert name sname out
  ]
])

unfoldable pub ports_of_module : ℕ → Parents → Element → Dict Text Text
unfolding own_ports add_port_name
ports_of_module fuel parents m = add_port_name (own_ports fuel parents m) []

abbrev pub SignalIndex : Type 0
SignalIndex = Dict Text (List Peer)

-- `idx[signame].append(peer)`
unfoldable pub add_peer : Text → Peer → SignalIndex → SignalIndex
unfolding Dict.alter text_eq
add_peer signame p =
    Dict.alter signame (λ old. elim old [ none ↦ p ∷ [] | some ps ↦ ps ++ (p ∷ []) ])

index_ports : Element → List Element → SignalIndex → SignalIndex
unfolding attr add_peer
index_ports m [] idx = idx
index_ports m (p ∷ ps) idx = index_ports m ps (elim (nonempty_text (attr (codes "SIGNAME") p)) [
  | none ↦ idx
  | some signame ↦ elim (nonempty_text (attr (codes "NAME") p)) [
    | none ↦ idx
    | some pname ↦
        add_peer signame
          (record {
            inst = or_empty (attr (codes "INSTANCE") m);
            modtype = or_empty (attr (codes "MODTYPE") m);
            port = pname;
            dir = or_empty (attr (codes "DIR") p);
          })
          idx
  ]
])

index_modules : ℕ → Parents → List Element → SignalIndex → SignalIndex
unfolding own_ports index_ports
index_modules fuel parents [] idx = idx
index_modules fuel parents (m ∷ ms) idx =
    index_modules fuel parents ms (index_ports m (own_ports fuel parents m) idx)

unfoldable pub signame_index : ℕ → Element → Parents → SignalIndex
unfolding index_modules iter_tag
signame_index fuel root parents = index_modules fuel parents (iter_tag module_tag root) []
