-- ===== src/Driver/Probe/Tests.antt =====
-- Probing over a tree with two pins and a bus on both, and over one in the style of the binding.
use aximux.Prelude.{ℕ, List, [], ◌∷◌, none, some, ◌≡◌, ◌≢◌, refl, arith, All, text_eq, inl}
use aximux.Text.{Text, codes}
use aximux.Text.Decimal.{str}
use aximux.Driver.Tests.Design.{device, device-IsSound}
use aximux.Driver.{ok}
use aximux.Driver.Nodes.{Node, ret, AximuxPin, Aximux}
use aximux.Driver.Probe.{aximux_parse_pins, aximux_tables, aximux_probe}
use aximux.Driver.Probe.Pins.{Found, aximux_parse_pins_lem}
use aximux.Driver.Probe.Unknown.{aximux_probe_addressed}
use aximux.Driver.Probe.Select.{Selects, aximux_tables-Selects}
use aximux.Driver.Probe.Bundle.{Programs, aximux_tables-Bundle}

abbrev pin_node : ℕ → List Text → Node
pin_node reg names = record {
  name = codes "pin";
  reg = some reg;
  pins = none;
  mux = none;
  function = none;
  function_names = some names;
  alternate_names = none;
}

abbrev bus_node : List Text → Node
bus_node names = record {
  name = codes "i2c0-grp";
  reg = none;
  pins = some names;
  mux = some (1 ∷ 2 ∷ []);
  function = some (codes "i2c");
  function_names = none;
  alternate_names = none;
}

abbrev pin_nodes : List Node
pin_nodes =
    pin_node 2 (codes "gpio" ∷ codes "i2c" ∷ []) ∷ pin_node 3 (codes "gpio" ∷ codes "spi" ∷ []) ∷ []

abbrev bus : Node
bus = bus_node (codes "pin2" ∷ codes "pin3" ∷ [])

abbrev tree : List Node
tree =
    pin_node 2 (codes "gpio" ∷ codes "i2c" ∷ [])
    ∷ pin_node 3 (codes "gpio" ∷ codes "spi" ∷ [])
    ∷ bus
    ∷ []

abbrev pins : List AximuxPin
pins =
    record { number = 2; name = codes "pin2"; func_names = codes "gpio" ∷ codes "i2c" ∷ [] }
    ∷ record { number = 3; name = codes "pin3"; func_names = codes "gpio" ∷ codes "spi" ∷ [] }
    ∷ []

abbrev tables : Aximux
tables = record {
  nalts = 4;
  pins = pins;
  groups =
      record { name = codes "pin2"; pins = 2 ∷ [] }
      ∷ record { name = codes "pin3"; pins = 3 ∷ [] }
      ∷ record { name = codes "i2c0-grp"; pins = 2 ∷ 3 ∷ [] }
      ∷ [];
  functions =
      (
        codes "gpio",
        record { name = codes "pin2"; mux_vals = 0 ∷ [] }
            ∷ record { name = codes "pin3"; mux_vals = 0 ∷ [] }
            ∷ [],
      )
      ∷ (
        codes "i2c",
        record { name = codes "pin2"; mux_vals = 1 ∷ [] }
            ∷ record { name = codes "i2c0-grp"; mux_vals = 1 ∷ 2 ∷ [] }
            ∷ [],
      )
      ∷ (codes "spi", record { name = codes "pin3"; mux_vals = 1 ∷ [] } ∷ [])
      ∷ [];
}

tree-pins : aximux_parse_pins 1032 tree ≡ ret (4, pins)
unfolding aximux_parse_pins str
tree-pins = refl

tree-tables : aximux_tables 1032 tree ≡ ret tables
unfolding aximux_tables str
tree-tables = refl

aximux_parse_pins_lem_example : Found 1032 tree (4, pins)
aximux_parse_pins_lem_example = aximux_parse_pins_lem 1032 tree (4, pins) tree-pins

aximux_probe_addressed_example :
    aximux_probe (λ _. ok) (λ _. ok) device (bus_node (codes "pin@0" ∷ codes "pin@1" ∷ []) ∷ [])
    ≢ ret tables
aximux_probe_addressed_example =
    aximux_probe_addressed (λ _. ok) (λ _. ok) device
      (bus_node (codes "pin@0" ∷ codes "pin@1" ∷ []) ∷ []) tables (inl (inl (codes "0", refl)))

aximux_tables-Selects_example : All (Selects (codes "i2c") tables device) tables.pins
aximux_tables-Selects_example =
    aximux_tables-Selects (codes "i2c") 1032 tree tables device tree-tables
      ((omega arith, tt), (tt, tt)) device-IsSound

aximux_tables-Bundle_example : Programs tables device bus
aximux_tables-Bundle_example =
    aximux_tables-Bundle 1032 pin_nodes bus [] tables device tree-tables device-IsSound (λ e. cc e)
      ((λ n _. n refl), ((λ n _. n refl), tt)) ((λ e. cc e), ((λ e. cc e), tt))
      (omega arith, (omega arith, tt))
