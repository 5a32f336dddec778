-- ===== src/Driver/Probe/Listed.antt =====
-- The groups of a function among those that the pins list.
use aximux.Prelude.{
  ℕ, ◌+◌, List, [], ◌∷◌, ◌++◌, Option, none, some, ◌≡◌, refl, ◌∙◌, ◌≢◌, arith, All, same, same_refl,
  find_first, text_eq, concat_map, map, if◌then◌else◌,
}
use aximux.Prelude.Nodup.{Nodup, All-both, All-of_map}
use aximux.Text.{Text}
use aximux.Driver.{FunctionGroup}
use aximux.Driver.Nodes.{AximuxPin}
use aximux.Driver.Probe.Entries.{pin_entries, entries_of}

-- The place of a function among the names of a pin, its first one, counted from `f`.
abbrev pub index_from : Text → ℕ → List Text → Option ℕ
index_from name f [] = none
index_from name f (n ∷ ns) =
    let rest = index_from name (f + 1) ns in if same name n then some f else rest

abbrev pub index_of : Text → List Text → Option ℕ
index_of name = index_from name 0

-- The group of a name in a list.
abbrev pub found : Text → List FunctionGroup → Option FunctionGroup
found g = find_first (λ (h : FunctionGroup). same h.name g)

abbrev pub entry : Text → ℕ → FunctionGroup
entry group f = record { name = group; mux_vals = f ∷ [] }

found-pin_entries :
    (name group : Text) (f : ℕ) (ns : List Text) {i : ℕ}
    → index_from name f ns ≡ some i
    → found group (pin_entries name group f ns) ≡ some (entry group i)
found-pin_entries name group f [] h = cc
found-pin_entries name group f (n ∷ ns) {i} h =
    ground (arith, found-pin_entries name group (f + 1) ns {i = i}, same_refl group)

pub found-pin_entries_other :
    (name group other : Text) (f : ℕ) (ns : List Text)
    → group ≢ other
    → found other (pin_entries name group f ns) ≡ none
found-pin_entries_other name group other f [] h = refl
found-pin_entries_other name group other f (n ∷ ns) h =
    ground (arith, found-pin_entries_other name group other (f + 1) ns)

pub found-append_some :
    (g : Text) (xs ys : List FunctionGroup) {h : FunctionGroup}
    → found g xs ≡ some h
    → found g (xs ++ ys) ≡ some h
found-append_some g [] ys e = cc
found-append_some g (x ∷ xs) ys {h} e = ground (arith, found-append_some g xs ys {h = h})

pub found-append_none :
    (g : Text) (xs ys : List FunctionGroup) → found g xs ≡ none → found g (xs ++ ys) ≡ found g ys
found-append_none g [] ys e = refl
found-append_none g (x ∷ xs) ys e = ground (arith, found-append_none g xs ys)

abbrev pub name_of : AximuxPin → Text
name_of p = p.name

abbrev pub number_of : AximuxPin → ℕ
number_of p = p.number

-- Among the entries of all pins, those of a pin come first under its name.
abbrev pub IsListed : Text → List FunctionGroup → AximuxPin → Type 0
IsListed name entries p =
    (f : ℕ) → index_of name p.func_names ≡ some f → found p.name entries ≡ some (entry p.name f)

pub entries-IsListed :
    (name : Text) (pins : List AximuxPin)
    → Nodup (map name_of pins)
    → All (IsListed name (concat_map (entries_of name) pins)) pins
entries-IsListed name [] u = tt
entries-IsListed name (p ∷ pins) u = (
  λ f h.
      found-append_some p.name (entries_of name p) (concat_map (entries_of name) pins)
        (found-pin_entries name p.name 0 p.func_names h),
  All-both {P = λ q. p.name ≢ q.name} {Q = IsListed name (concat_map (entries_of name) pins)}
      (λ q apart listed f h.
        found-append_none q.name (entries_of name p) (concat_map (entries_of name) pins)
          (found-pin_entries_other name p.name q.name 0 p.func_names apart)
        ∙ listed f h)
      pins (All-of_map (λ n. p.name ≢ n) name_of pins u.0) (entries-IsListed name pins u.1),
)
