-- ===== src/Generator/Ports.antt =====
-- The ports of the generated module: `aximux_generator` of generator/mux_gen.py up to the module's
-- body. The ports of the AXI interface are those of hdltools, a parameter.
use aximux.Prelude.{ℕ, ◌+◌, ◌*◌, List, [], ◌∷◌, ◌++◌, Bool, map, concat_map, range, max}
use aximux.Text.{Text, codes}
use aximux.Text.Decimal.{str}

pub data Direction : Type 0 where
  input output : Direction

-- `input_port(name, size)` and `output_port(name, size)`; the size is 1 where none is given.
pub record Port : Type 0 where
  pub direction : Direction
  pub name : Text
  pub size : ℕ

abbrev pub input_port : Text → ℕ → Port
input_port name size = record { direction = input; name = name; size = size }

abbrev pub output_port : Text → ℕ → Port
output_port name size = record { direction = output; name = name; size = size }

-- `f"sig{sig}{kind}{alt}"`
unfoldable pub signal_name : Text → ℕ → ℕ → Text
unfolding str
signal_name kind sig a = codes "sig" ++ (str sig ++ (kind ++ str a))

-- `[port(…) for sig in range(0, mux_signals) for alt in range(0, alternate_signals + 1)]`
abbrev pub per_source : ℕ → ℕ → (ℕ → ℕ → Port) → List Port
per_source mux_signals alternate_signals port =
    concat_map (λ sig. map (λ a. port sig a) (range (alternate_signals + 1))) (range mux_signals)

unfoldable pub dir_ports : ℕ → ℕ → List Port
dir_ports m n = per_source m n (λ sig a. input_port (signal_name (codes "ctl") sig a) 1)

unfoldable pub incoming_ports : ℕ → ℕ → List Port
incoming_ports m n = per_source m n (λ sig a. output_port (signal_name (codes "incoming") sig a) 1)

unfoldable pub outgoing_ports : ℕ → ℕ → List Port
outgoing_ports m n = per_source m n (λ sig a. input_port (signal_name (codes "outgoing") sig a) 1)

-- What the generator takes from hdltools: the ports of the AXI slave interface for a data and an
-- address width, `clog2`, the value of the signal that a multiplexer drives from its selector and its
-- inputs, and the names of the ports of a register block that has the given extra ports.
pub record Hdltools : Type 0 where
  pub axi_ports : ℕ → ℕ → List Port
  pub clog2 : ℕ → ℕ
  pub multiplexer : ℕ → List Bool → Bool
  pub slave_ports : List Port → List Text

abbrev pub axi_data_width : ℕ
axi_data_width = 32

abbrev pub muxinfo_addr : ℕ
muxinfo_addr = 0x80

module _ (hdl : Hdltools) where
  unfoldable pub required_addr_width : ℕ → ℕ
  required_addr_width mux_signals =
      let max_byte_addr = max (mux_signals * 4) muxinfo_addr in hdl.clog2 (max_byte_addr + 4)

  -- `f"aximux__{mux_signals}__{alternate_signals}"`
  unfoldable pub module_name : ℕ → ℕ → Text
  unfolding str
  module_name m n = codes "aximux__" ++ (str m ++ (codes "__" ++ str n))

  unfoldable pub module_ports : ℕ → ℕ → List Port
  unfolding required_addr_width dir_ports incoming_ports outgoing_ports
  module_ports m n =
      hdl.axi_ports axi_data_width (required_addr_width m)
      ++ ((input_port (codes "sig_in") m
            ∷ output_port (codes "sig_out") m
            ∷ output_port (codes "sig_dir") m
            ∷ [])
          ++ (dir_ports m n ++ (incoming_ports m n ++ outgoing_ports m n)))

  -- The ports of the register block: the fields of each register.
  unfoldable pub extra_slave_ports : ℕ → ℕ → List Port
  unfolding str
  extra_slave_ports m n =
      map (λ i. output_port (codes "srcsel" ++ str i) (hdl.clog2 n)) (range m)
      ++ (map (λ i. output_port (codes "shortsel" ++ str i) 1) (range m)
          ++ (map (λ i. output_port (codes "diren" ++ str i) 1) (range m)
              ++ map (λ i. output_port (codes "dirctl" ++ str i) 1) (range m)))
