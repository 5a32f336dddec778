-- ===== src/Driver/Probe/Entries.antt =====
-- The groups of a function, after the loops of driver/aximux.c that add functions.
use aximux.Prelude.{
  ℕ, ◌+◌, List, [], ◌∷◌, ◌++◌, Bool, true, false, ◌≡◌, refl, ◌∙◌, ap, sym, same, same_sound,
  text_eq, concat_map, append-nil, append_assoc, Bool-cases, inl, inr, loop_appends,
}
use aximux.Prelude.Dict
use aximux.Text.{Text}
use aximux.Driver.{FunctionGroup}
use aximux.Driver.Nodes.{AximuxPin, Functions, or_default}
use aximux.Driver.Probe.{
  append_group, aximux_add_function, add_pin_functions, add_default_functions,
}

-- The groups of the function of a name, in the order in which they were added.
abbrev pub groups_of : Text → Functions → List FunctionGroup
groups_of name functions = or_default [] (Dict.lookup name functions)

abbrev pub group_if : Bool → FunctionGroup → List FunctionGroup
group_if true g = g ∷ []
group_if false g = []

pub groups-add_function :
    (name m group : Text) (vals : List ℕ) (functions : Functions)
    → groups_of name (aximux_add_function m group vals functions)
      ≡ groups_of name functions
        ++ group_if (same name m) (record { name = group; mux_vals = vals })
unfolding aximux_add_function
groups-add_function name m group vals functions =
    let g : FunctionGroup = record { name = group; mux_vals = vals } in
    elim (Bool-cases (same name m)) [
      | inl e ↦
          rw (Dict.lookup-alter name m (append_group g) functions, e)
            (ap (λ k. append_group g (Dict.lookup k functions)) (sym (same_sound name m e)))
      | inr e ↦ rw (
        Dict.lookup-alter name m (append_group g) functions,
        e,
        append-nil (groups_of name functions),
      )
    ]

-- The entries of a pin for a function: one for each time that it lists the function.
abbrev pub pin_entries : Text → Text → ℕ → List Text → List FunctionGroup
pin_entries name group f [] = []
pin_entries name group f (n ∷ ns) =
    group_if (same name n) (record { name = group; mux_vals = f ∷ [] })
    ++ pin_entries name group (f + 1) ns

groups-add_pin_functions :
    (name group : Text) (f : ℕ) (ns : List Text) (functions : Functions)
    → groups_of name (add_pin_functions group f ns functions)
      ≡ groups_of name functions ++ pin_entries name group f ns
unfolding add_pin_functions
groups-add_pin_functions name group f [] functions = rw append-nil
groups-add_pin_functions name group f (n ∷ ns) functions =
    groups-add_pin_functions name group (f + 1) ns (aximux_add_function n group (f ∷ []) functions)
    ∙ rw (groups-add_function name n group (f ∷ []) functions, append_assoc)

abbrev pub entries_of : Text → AximuxPin → List FunctionGroup
entries_of name p = pin_entries name p.name 0 p.func_names

pub groups-add_default_functions :
    (name : Text) (pins : List AximuxPin) (functions : Functions)
    → groups_of name (add_default_functions pins functions)
      ≡ groups_of name functions ++ concat_map (entries_of name) pins
unfolding add_default_functions
groups-add_default_functions name =
    loop_appends (groups_of name) (λ (p : AximuxPin). add_pin_functions p.name 0 p.func_names)
      (entries_of name) add_default_functions (λ s. refl) (λ p pins s. refl)
      (λ p s. groups-add_pin_functions name p.name 0 p.func_names s)
