-- ===== src/Driver/Probe.antt =====
-- `aximux_probe` of driver/aximux.c with what it calls: the pins, their groups and functions, and the
-- extra groups. Memory is always there.
pub mod Entries
pub mod Pins
pub mod Extra
pub mod Unknown
pub mod Listed
pub mod Select
pub mod Numbers
pub mod Bundle
pub mod Tests
use aximux.Prelude.{
  ℕ, ◌+◌, ◌/◌, ◌%◌, ◌^◌, List, [], ◌∷◌, ◌++◌, Option, none, some, ◌||◌, not, ltb, ◌==◌,
  if◌then◌else◌, length, map, range, find_first, same, text_eq,
}
use aximux.Prelude.Dict
use aximux.Text.{Text, codes}
use aximux.Text.Decimal.{str}
use aximux.Device
use aximux.Device.{AximuxState, muxinfo_reg, max_pins}
use aximux.Driver.{AximuxGroup, FunctionGroup, Code, ok, einval, enodata, enotsupp}
use aximux.Driver.Nodes.{
  Node, Result, ret, err, ◌>>=◌, AximuxPin, Functions, Aximux, strings_of, cells_of, or_default,
}

abbrev pub max_alts : ℕ
max_alts = 15

-- `"pin%u"`
unfoldable pub pin_name : ℕ → Text
unfolding str
pin_name n = codes "pin" ++ str n

-- The fields of MUXINFO.
abbrev pub hw_pins : ℕ → ℕ
hw_pins info = info % 2 ^ 8

abbrev pub hw_alts : ℕ → ℕ
hw_alts info = info / 2 ^ 8 % 2 ^ 8

abbrev pub alts_of : ℕ → ℕ
alts_of info = if (hw_alts info == 0) || ltb max_alts (hw_alts info) then max_alts else hw_alts info

-- A child describes a pin if it has no `brunosmmm,pins` and has a `reg`.
abbrev pub reg_of : Node → Option ℕ
reg_of c = elim c.pins [ some _ ↦ none | none ↦ c.reg ]

-- The first loop over the children.
abbrev pub count_pins : List Node → ℕ
count_pins [] = 0
count_pins (c ∷ cs) = elim (reg_of c) [ none ↦ count_pins cs | some _ ↦ count_pins cs + 1 ]

abbrev pub default_pin : ℕ → AximuxPin
default_pin n = record { number = n; name = pin_name n; func_names = [] }

-- `function-names`, or else `alternate-names`; a pin may have none.
abbrev pub names_of : Node → Result (List Text)
names_of c = elim c.function_names [
  | some ns ↦ strings_of ns
  | none ↦ elim c.alternate_names [ some ns ↦ strings_of ns | none ↦ ret [] ]
]

-- The pin of a child, from its `reg`.
unfoldable pub parse_node : ℕ → Node → ℕ → Result AximuxPin
unfolding pin_name
parse_node hw c reg =
    if not (ltb reg hw)
    then err einval
    else (do ns ← names_of c; ret (record { number = reg; name = pin_name reg; func_names = ns }))

-- The second loop.
unfoldable pub parse_nodes : ℕ → List Node → Result (List AximuxPin)
unfolding parse_node
parse_nodes hw [] = ret []
parse_nodes hw (c ∷ cs) = elim (reg_of c) [
  | none ↦ parse_nodes hw cs
  | some reg ↦ do p ← parse_node hw c reg; rest ← parse_nodes hw cs; ret (p ∷ rest)
]

-- The number of alternates, and the pins.
unfoldable pub aximux_parse_pins : ℕ → List Node → Result (ℕ × List AximuxPin)
unfolding parse_nodes pin_name
aximux_parse_pins info children =
    if (hw_pins info == 0) || ltb max_pins (hw_pins info)
    then err einval
    else if count_pins children == 0
    then ret (alts_of info, map default_pin (range (hw_pins info)))
    else if ltb (hw_pins info) (count_pins children)
    then err einval
    else (do pins ← parse_nodes (hw_pins info) children; ret (alts_of info, pins))

abbrev pub append_group : FunctionGroup → Option (List FunctionGroup) → List FunctionGroup
append_group g old = or_default [] old ++ (g ∷ [])

unfoldable pub aximux_add_function : Text → Text → List ℕ → Functions → Functions
unfolding Dict.alter text_eq
aximux_add_function name group mux_vals =
    Dict.alter name (append_group (record { name = group; mux_vals = mux_vals }))

-- The functions of one pin, from the `f`-th on.
unfoldable pub add_pin_functions : Text → ℕ → List Text → Functions → Functions
unfolding aximux_add_function
add_pin_functions group f [] functions = functions
add_pin_functions group f (n ∷ ns) functions =
    add_pin_functions group (f + 1) ns (aximux_add_function n group (f ∷ []) functions)

abbrev pub default_group : AximuxPin → AximuxGroup
default_group p = record { name = p.name; pins = p.number ∷ [] }

unfoldable pub add_default_functions : List AximuxPin → Functions → Functions
unfolding add_pin_functions
add_default_functions [] functions = functions
add_default_functions (p ∷ pins) functions =
    add_default_functions pins (add_pin_functions p.name 0 p.func_names functions)

unfoldable pub aximux_build_default_groups : List AximuxPin → List AximuxGroup × Functions
unfolding add_default_functions
aximux_build_default_groups pins = (map default_group pins, add_default_functions pins [])

-- `-EINVAL` where no pin has the name.
unfoldable pub aximux_find_pin_by_name : List AximuxPin → Text → Result ℕ
unfolding text_eq
aximux_find_pin_by_name pins name = elim (find_first (λ (p : AximuxPin). same p.name name) pins) [
  | none ↦ err einval
  | some p ↦ ret p.number
]

unfoldable pub find_pins : List AximuxPin → List Text → Result (List ℕ)
unfolding aximux_find_pin_by_name
find_pins pins [] = ret []
find_pins pins (n ∷ ns) = do
  i ← aximux_find_pin_by_name pins n
  rest ← find_pins pins ns
  ret (i ∷ rest)

abbrev pub GroupsAndFunctions : Type 0
GroupsAndFunctions = List AximuxGroup × Functions

-- An extra group, from the names of its pins.
unfoldable pub add_extra_group :
    List AximuxPin → Node → List Text → GroupsAndFunctions → Result GroupsAndFunctions
unfolding find_pins aximux_add_function
add_extra_group pins c names (groups, functions) = do
  is ← find_pins pins names
  let mux = cells_of (length names) c.mux
  ret (
    groups ++ (record { name = c.name; pins = is } ∷ []),
    aximux_add_function (or_default c.name c.function) c.name mux functions,
  )

-- The loop over the children: without `brunosmmm,pins`, or with none there, a child is passed over.
unfoldable pub aximux_parse_extra_groups :
    List AximuxPin → List Node → GroupsAndFunctions → Result GroupsAndFunctions
unfolding add_extra_group
aximux_parse_extra_groups pins [] acc = ret acc
aximux_parse_extra_groups pins (c ∷ cs) acc = elim c.pins [
  | none ↦ aximux_parse_extra_groups pins cs acc
  | some [] ↦ aximux_parse_extra_groups pins cs acc
  | some (n ∷ ns) ↦
      add_extra_group pins c (n ∷ ns) acc >>= λ acc'. aximux_parse_extra_groups pins cs acc'
]

-- What the driver has when it registers, from MUXINFO and the children.
unfoldable pub aximux_tables : ℕ → List Node → Result Aximux
unfolding aximux_parse_pins aximux_build_default_groups aximux_parse_extra_groups
aximux_tables info children = do
  (nalts, pins) ← aximux_parse_pins info children
  (groups, functions) ← aximux_parse_extra_groups pins children (aximux_build_default_groups pins)
  ret (record { nalts = nalts; pins = pins; groups = groups; functions = functions })

abbrev pub checked : Code → Aximux → Result Aximux
checked ok amx = ret amx
checked einval amx = err einval
checked enodata amx = err enodata
checked enotsupp amx = err enotsupp

-- `registered` and `enabled` are what the core's calls return.
unfoldable pub aximux_probe :
    (registered enabled : Aximux → Code) → AximuxState → List Node → Result Aximux
unfolding aximux_tables Device.aximux_read
aximux_probe registered enabled regs children = do
  amx ← aximux_tables (Device.aximux_read regs muxinfo_reg 4) children
  amx' ← checked (registered amx) amx
  checked (enabled amx') amx'
