-- ===== src/Hwh/Tests/Runs.antt =====
-- The whole run of the tool on the small design, and the theorems on walks, consumers and `main` at
-- it.
use aximux.Prelude.{
  ℕ, true, Option, List, same, [], ◌∷◌, ◌++◌, none, some, ◌≡◌, refl, All, text_eq, nat_eq, length,
}
use aximux.Text.{Text, codes, join}
use aximux.Text.Decimal.{int_from}
use aximux.Hwh.Xml.{Element, parent_map}
use aximux.Hwh.Ports.{parse_kind}
use aximux.Hwh.Muxes.{parse_muxes}
use aximux.Hwh.Xml.{own_ports, iter_all, iter_tag, module_tag}
use aximux.Hwh.Xml.Identity.{idents, distinct}
use aximux.Hwh.Xml.Walks.{declared_ports}
use aximux.Hwh.Xml.Descent.{own_ports_lem}
use aximux.Hwh.Tests.Design.{design, no_regex, plain, muxes}
use aximux.Hwh.Consumers.{consume_muxes, emit_consumers, pin_cells, consumers_header}
use aximux.Hwh.Consumers.Pins.{pins_under, mux_pins, pins_under-consume}
use aximux.Hwh.Consumers.Cells.{pin_cells_lem}
use aximux.Hwh.Muxes.Order.{Ascending}
use aximux.Hwh.Main.{Args, Effect, file, message, legacy, main}
use aximux.Hwh.Naming.{Regex}
use aximux.Hwh.Model.{Naming}
use aximux.Hwh.Main.Result.{EndsLine, files}
use aximux.Hwh.Main.Success.{main_lem}
use aximux.Prelude.{contains}

design-distinct : distinct (idents design) ≡ true
unfolding idents iter_all nat_eq
design-distinct = refl

own_ports_lem_example :
    All
      (λ m. own_ports (length (iter_all design)) (parent_map design) m ≡ declared_ports m)
      (iter_tag module_tag design)
own_ports_lem_example = own_ports_lem design design-distinct

run_consumers : Element → Option Text
unfolding emit_consumers parse_muxes parse_kind int_from
run_consumers root = emit_consumers no_regex plain (parse_muxes root)

consumers_run :
    run_consumers design
    ≡ some (
        join (codes "\n") (
          consumers_header
          ++ (codes "&axi_mux_0 {"
              ∷ codes "  i2c0 {"
              ∷ codes "    pinctrl_i2c0: i2c0group1 {"
              ∷ codes "      pins = <0>;"
              ∷ codes "    };"
              ∷ codes "  };"
              ∷ codes "};"
              ∷ []
              ∷ [])))
unfolding run_consumers
consumers_run = refl

pins_under-consume_example :
    pins_under (codes "axi_mux_0") (codes "i2c0") (consume_muxes no_regex plain muxes [])
    ≡ mux_pins no_regex plain (codes "axi_mux_0") (codes "i2c0") muxes
pins_under-consume_example =
    pins_under-consume no_regex plain (codes "axi_mux_0") (codes "i2c0") muxes

pin_cells_lem_example :
    Ascending (pin_cells (4 ∷ 1 ∷ 4 ∷ []))
    × ((k : ℕ) → contains (pin_cells (4 ∷ 1 ∷ 4 ∷ [])) k ≡ contains (4 ∷ 1 ∷ 4 ∷ []) k)
pin_cells_lem_example = pin_cells_lem (4 ∷ 1 ∷ 4 ∷ [])

abbrev args : Args
args = record {
  output = some (codes "out.dtsi");
  style = legacy;
  consumers = some (codes "consumers.dtsi");
  dump_json = none;
}

-- A regex that knows the one pattern of a rule.
abbrev matcher : Regex
matcher = record {
  search_in = λ p t. same p t;
  sub_in = λ p r t. r;
  bad_pattern = λ p. same p (codes "(");
  bad_replacement = λ p r. same r (codes "\\9");
}

abbrev ruled : Text → Naming
ruled pattern = record plain {
  rules = record { pattern_text = some pattern; replacement = some (codes "bus.sda") } ∷ [];
}

main_lem_example :
    ((main matcher (λ ms. codes "[]") (λ p t. true) args (ruled (codes "sda")) design).1 ≡ some 0)
    × (files (main matcher (λ ms. codes "[]") (λ p t. true) args (ruled (codes "sda")) design).0
        ≡ codes "out.dtsi" ∷ codes "consumers.dtsi" ∷ [])
    × All EndsLine
        (main matcher (λ ms. codes "[]") (λ p t. true) args (ruled (codes "sda")) design).0
unfolding text_eq
main_lem_example =
    main_lem matcher (λ ms. codes "[]") (λ p t. true) args (ruled (codes "sda")) design
      ((refl, refl), tt) ((λ t. refl), ((λ t. refl), tt))

-- A pattern that does not compile: the dump is written, and then `main` raises.
abbrev dump_args : Args
dump_args = record args { dump_json = some (codes "mux.json") }

run_main : Element → List Effect × Option ℕ
unfolding main parse_muxes parse_kind int_from
run_main root = main matcher (λ ms. codes "[]") (λ p t. true) dump_args (ruled (codes "(")) root

bad_pattern_run :
    run_main design
    ≡ (file (codes "mux.json") (codes "[]\n") ∷ message (codes "wrote mux.json") ∷ [], none)
unfolding run_main
bad_pattern_run = refl
