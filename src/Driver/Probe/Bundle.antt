-- ===== src/Driver/Probe/Bundle.antt =====
-- An extra group, selected after probing with the function that its node names.
use aximux.Prelude.{
  List-cases, ℕ, ◌≤◌, ◌<◌, List, [], ◌∷◌, ◌++◌, none, some, Bool, true, false, ◌≡◌, refl, sym, ap,
  ◌∙◌, ◌≢◌, arith, All, All-map, same, same_refl, text_eq, concat_map, inl, inr, length,
}
use aximux.Prelude.Dict
use aximux.Text.{Text}
use aximux.Device.{AximuxState}
use aximux.Driver.{FunctionGroup, aximux_set_mux, Code, ok}
use aximux.Driver.Registers.{IsSound}
use aximux.Driver.SetMux.{source, last_src, aximux_set_mux_ok}
use aximux.Driver.Nodes.{Node, ret, AximuxPin, Functions, Aximux, or_default, cells_of}
use aximux.Driver.Probe.{
  find_pins, hw_pins, aximux_build_default_groups, aximux_parse_extra_groups, aximux_tables,
  GroupsAndFunctions, add_default_functions,
}
use aximux.Driver.Probe.Entries.{
  groups_of, group_if, entries_of, groups-add_function, groups-add_default_functions,
}
use aximux.Driver.Probe.Pins.{>>=-eq-ret, Found}
use aximux.Driver.Probe.Extra.{
  parse_extra-Extends, named_pins, with_group, parse_extra-skip, parse_extra-add,
}
use aximux.Driver.Probe.Select.{IsBuilt, aximux_tables-IsBuilt}
use aximux.Driver.Probe.Numbers.{length-cells_of, find_pins_lem}
use aximux.Driver.Probe.Listed.{
  found, found-append_none, found-append_some, found-pin_entries_other,
}

-- No function has a group of this name.
abbrev IsFree : Text → Functions → Type 0
IsFree g functions = (name : Text) → found g (groups_of name functions) ≡ none

default-IsFree :
    (g : Text) (pins : List AximuxPin)
    → All (λ (p : AximuxPin). p.name ≢ g) pins
    → IsFree g (add_default_functions pins [])
default-IsFree g pins apart name =
    ap (found g) (groups-add_default_functions name pins [])
    ∙ ap (λ o. found g (or_default [] o ++ concat_map (entries_of name) pins))
        (Dict.lookup-nil name)
    ∙ free pins apart
  where
    free :
        (ps : List AximuxPin)
        → All (λ (p : AximuxPin). p.name ≢ g) ps
        → found g (concat_map (entries_of name) ps) ≡ none
    free [] a = refl
    free (p ∷ ps) a =
        found-append_none g (entries_of name p) (concat_map (entries_of name) ps)
          (found-pin_entries_other name p.name g 0 p.func_names a.0)
        ∙ free ps a.1

found-group_if :
    (g : Text) (b : Bool) (h : FunctionGroup) → h.name ≢ g → found g (group_if b h) ≡ none
found-group_if g true h n = ground arith
found-group_if g false h n = refl

module _ (pins : List AximuxPin) where
  with_group-IsFree :
      (g : Text) (c : Node) (is : List ℕ) (acc : GroupsAndFunctions)
      → c.name ≢ g
      → IsFree g acc.1
      → IsFree g (with_group pins c is acc).1
  with_group-IsFree g c is (groups, functions) n free name =
      let fname = or_default c.name c.function in
      let vals = cells_of (length (named_pins c)) c.mux in
      ap (found g) (groups-add_function name fname c.name vals functions)
      ∙ found-append_none g (groups_of name functions)
          (group_if (same name fname) (record { name = c.name; mux_vals = vals })) (free name)
      ∙ found-group_if g (same name fname) (record { name = c.name; mux_vals = vals }) n

  abbrev pub bundle_of : Node → FunctionGroup
  bundle_of c = record { name = c.name; mux_vals = cells_of (length (named_pins c)) c.mux }

  -- The function of a child has the child's group, right after the child is read.
  found-with_group :
      (c : Node) (is : List ℕ) (acc : GroupsAndFunctions)
      → IsFree c.name acc.1
      → found c.name (groups_of (or_default c.name c.function) (with_group pins c is acc).1)
        ≡ some (bundle_of c)
  found-with_group c is (groups, functions) free =
      let fname = or_default c.name c.function in
      let vals = cells_of (length (named_pins c)) c.mux in
      ap (found c.name) (groups-add_function fname fname c.name vals functions)
      ∙ found-append_none c.name (groups_of fname functions)
          (group_if (same fname fname) (bundle_of c)) (free fname)
      ∙ ground (arith, same_refl fname, same_refl c.name)

  -- A child between others: it names pins, and no child before it that does has its name.
  abbrev pub IsApart : Node → Node → Type 0
  IsApart c b = named_pins b ≢ [] → b.name ≢ c.name

  abbrev IsBundled : Node → Functions → Type 0
  IsBundled c functions =
      ((is : List ℕ) × (find_pins pins (named_pins c) ≡ ret is))
      × (found c.name (groups_of (or_default c.name c.function) functions) ≡ some (bundle_of c))

  bundle_first :
      (c : Node) (after : List Node) (acc acc' : GroupsAndFunctions)
      → aximux_parse_extra_groups pins (c ∷ after) acc ≡ ret acc'
      → named_pins c ≢ []
      → IsFree c.name acc.1
      → IsBundled c acc'.1
  bundle_first c after acc acc' h some_pins free = elim (List-cases (named_pins c)) [
    | inl e ↦ absurd (some_pins e)
    | inr (n, ns, e) ↦
        let fname = or_default c.name c.function in
        let (is, hi, h') =
          >>=-eq-ret (find_pins pins (named_pins c))
            (λ is. aximux_parse_extra_groups pins after (with_group pins c is acc))
            (sym (parse_extra-add pins c after acc e) ∙ h) in
        let (more, q) =
          (parse_extra-Extends pins after (with_group pins c is acc) acc' h').1 fname in
        (
          (is, hi),
          ap (found c.name) q
              ∙ found-append_some c.name (groups_of fname (with_group pins c is acc).1) more
                  (found-with_group c is acc free),
        )
  ]

  bundle_later :
      (before : List Node) (c : Node) (after : List Node) (acc acc' : GroupsAndFunctions)
      → aximux_parse_extra_groups pins (before ++ c ∷ after) acc ≡ ret acc'
      → named_pins c ≢ []
      → All (IsApart c) before
      → IsFree c.name acc.1
      → IsBundled c acc'.1
  bundle_later [] c after acc acc' h some_pins a free =
      bundle_first c after acc acc' h some_pins free
  bundle_later (b ∷ before) c after acc acc' h some_pins (apart, a) free =
      elim (List-cases (named_pins b)) [
        | inl e ↦
            bundle_later before c after acc acc'
              (sym (parse_extra-skip pins b (before ++ c ∷ after) acc e) ∙ h) some_pins a free
        | inr (n, ns, e) ↦
            let (is, _, h') =
              >>=-eq-ret (find_pins pins (named_pins b))
                (λ is.
                  aximux_parse_extra_groups pins (before ++ c ∷ after) (with_group pins b is acc))
                (sym (parse_extra-add pins b (before ++ c ∷ after) acc e) ∙ h) in
            bundle_later before c after (with_group pins b is acc) acc' h' some_pins a
              (with_group-IsFree c.name b is acc (apart (λ p. cc (sym e ∙ p))) free)
      ]

-- The call of `aximux_set_mux` for the function and the group of a child.
abbrev pub set_bundle : Aximux → Node → List ℕ → AximuxState → AximuxState × Code
set_bundle amx c is regs =
    aximux_set_mux amx.nalts (groups_of (or_default c.name c.function) amx.functions)
      (record { name = c.name; pins = is }) regs

-- What selecting a child's function on its group does.
abbrev pub Programs : Aximux → AximuxState → Node → Type 0
Programs amx regs c =
    (is : List ℕ) × (find_pins amx.pins (named_pins c) ≡ ret is)
    × ((set_bundle amx c is regs).1 ≡ ok)
    × ((q : ℕ)
        → q < regs.npins
        → source (set_bundle amx c is regs).0 q
          ≡ last_src q is (cells_of (length (named_pins c)) c.mux) (source regs q))

built_bundle :
    (info : ℕ) (before : List Node) (c : Node) (after : List Node) (amx : Aximux)
    → IsBuilt info (before ++ c ∷ after) amx
    → named_pins c ≢ []
    → All (IsApart amx.pins c) before
    → All (λ (p : AximuxPin). p.name ≢ c.name) amx.pins
    → IsBundled amx.pins c amx.functions
unfolding IsBuilt aximux_build_default_groups
built_bundle info before c after amx (_, added) some_pins apart unlike =
    bundle_later amx.pins before c after (aximux_build_default_groups amx.pins)
      (amx.groups, amx.functions) added some_pins apart (default-IsFree c.name amx.pins unlike)

-- After probing, on a sound device: for a child that names pins, whose name is that of no pin and of
-- no child before it that names pins, and whose sources the hardware has, its pins have numbers;
-- selecting the child's function on the child's group returns 0; and afterwards the source of every
-- pin of the device is the last one that the child gives for it, or what it was.
pub aximux_tables-Bundle :
    (info : ℕ) (before : List Node) (c : Node) (after : List Node) (amx : Aximux)
    (regs : AximuxState)
    → aximux_tables info (before ++ c ∷ after) ≡ ret amx
    → IsSound regs
    → named_pins c ≢ []
    → All (IsApart amx.pins c) before
    → All (λ (p : AximuxPin). p.name ≢ c.name) amx.pins
    → All (λ src. src ≤ amx.nalts) (bundle_of amx.pins c).mux_vals
    → Programs amx regs c
aximux_tables-Bundle info before c after amx regs h s some_pins apart unlike fits =
    let b = aximux_tables-IsBuilt info (before ++ c ∷ after) amx h in
    let bounds : Found info (before ++ c ∷ after) (amx.nalts, amx.pins) = unfold IsBuilt in b.0 in
    let ((is, hi), listed) = built_bundle info before c after amx b some_pins apart unlike in
    let (long, below) = find_pins_lem (hw_pins info) amx.pins (named_pins c) is bounds.4 hi in
    let small =
      All-map {P = λ i. i < hw_pins info} {Q = λ i. i < 32}
        (λ i (l : i < hw_pins info). omega (arith, l, bounds.1)) is below in
    let (done, after_all) =
      aximux_set_mux_ok amx.nalts (groups_of (or_default c.name c.function) amx.functions)
        (record { name = c.name; pins = is }) regs (bundle_of amx.pins c) s bounds.3 listed
        (length-cells_of (length (named_pins c)) c.mux ∙ sym long) small fits in
    (is, hi, done, after_all)
