-- ===== src/Hwh/Tests/Design.antt =====
-- A small design: a multiplexer with two pins, a controller behind it, and a slice on a wire.
use aximux.Prelude.{ℕ, ◌+◌, false, List, [], ◌∷◌, none, text_eq, nat_eq}
use aximux.Text.{Text, codes}
use aximux.Hwh.Model.{Mux, Naming}
use aximux.Hwh.Xml.{
  Element, element, nil, cons, Elements, parent_map, signame_index, Parents, SignalIndex,
}
use aximux.Hwh.Muxes.{parse_muxes}
use aximux.Hwh.Naming.{Regex}

abbrev pub port : ℕ → Text → Text → Text → Element
port n name signame dir =
    element n (codes "PORT")
      ((codes "NAME", name) ∷ (codes "SIGNAME", signame) ∷ (codes "DIR", dir) ∷ []) nil

abbrev pub module_of : ℕ → Text → Text → Elements → Element
module_of n inst modtype ports =
    element n (codes "MODULE") ((codes "INSTANCE", inst) ∷ (codes "MODTYPE", modtype) ∷ [])
      (cons (element (n + 1) (codes "PORTS") [] ports) nil)

abbrev pub mux_module : Element
mux_module = module_of 10 (codes "axi_mux_0") (codes "AXI_MUX") (
    cons (port 12 (codes "sig0incoming0") (codes "gpio_in") (codes "O")) (
      cons (port 13 (codes "sig0incoming1") (codes "scl") (codes "O")) (
        cons (port 14 (codes "sig0outgoing1") (codes "scl_o") (codes "I"))
          (cons (port 15 (codes "sig1ctl1") (codes "sda_t") (codes "I")) nil))))

abbrev pub design : Element
design = element 0 (codes "SYSTEM") [] (
    cons mux_module (
      cons
        (module_of 20 (codes "axi_iic_0") (codes "axi_iic") (
          cons (port 22 (codes "scl_i") (codes "scl") (codes "I")) (
            cons (port 23 (codes "scl_o") (codes "scl_o") (codes "O"))
              (cons (port 24 (codes "sda_t") (codes "sda_t") (codes "O")) nil))))
        (cons
          (module_of 30 (codes "xlslice_0") (codes "xlslice")
            (cons (port 32 (codes "Din") (codes "gpio_in") (codes "I")) nil))
          nil)))

abbrev pub no_regex : Regex
no_regex = record {
  search_in = λ p t. false;
  sub_in = λ p r t. t;
  bad_pattern = λ p. false;
  bad_replacement = λ p r. false;
}

abbrev pub plain : Naming
plain = record {
  gpio_prefix = none;
  gpio_bases = [];
  overrides = [];
  rules = [];
  consumer_labels = [];
  group_aliases = (codes "i2c0", codes "bus0") ∷ [];
  skip_consumers = [];
}

abbrev pub muxes : List Mux
muxes = parse_muxes design

abbrev pub parents : Parents
parents = parent_map design

abbrev pub signals : SignalIndex
signals = signame_index 20 design parents
