-- ===== src/Generator/Body.antt =====
-- What the body of `axi_mux` of generator/mux_gen.py adds to the module: its own signals, the names
-- that it looks up, and the register block with the calls on it.
pub mod Apart
pub mod Declared
pub mod Wired
use aximux.Prelude.{
  ℕ, ◌+◌, ◌-◌, ◌&&◌, leb, if◌then◌else◌, List, [], ◌∷◌, ◌++◌, map, concat_map, range,
}
use aximux.Text.{Text, codes}
use aximux.Text.Decimal.{str}
use aximux.Generator.Ports.{
  Port, Hdltools, signal_name, required_addr_width, axi_data_width, extra_slave_ports,
}

-- `HDLSignal("comb", name, size=size)`
pub record Signal : Type 0 where
  pub name : Text
  pub size : ℕ

abbrev pub comb : Text → ℕ → Signal
comb name size = record { name = name; size = size }

-- `f"{kind}{mux}"`
unfoldable pub numbered : Text → ℕ → Text
unfolding str
numbered kind mux = kind ++ str mux

-- `[HDLSignal("comb", f"{kind}{mux}", size=size) for mux in range(0, mux_signals)]`
unfoldable pub per_signal : Text → ℕ → ℕ → List Signal
unfolding numbered
per_signal kind size m = map (λ mux. comb (numbered kind mux) size) (range m)

-- The names that the round of a signal looks up, in this order.
unfoldable pub looked_up : ℕ → ℕ → List Text
unfolding numbered signal_name
looked_up n mux =
    codes "sig_dir"
    ∷ codes "sig_out"
    ∷ numbered (codes "srcsel") mux
    ∷ numbered (codes "shortsel") mux
    ∷ numbered (codes "diren") mux
    ∷ numbered (codes "dirctl") mux
    ∷ numbered (codes "hw_dir_sig") mux
    ∷ (map (λ a. signal_name (codes "ctl") mux a) (range (n + 1))
        ++ (map (λ a. signal_name (codes "outgoing") mux a) (range (n + 1))
            ++ (map (λ a. signal_name (codes "incoming") mux a) (range (n + 1))
                ++ (numbered (codes "sig_in_bit") mux ∷ []))))

-- All names that are looked up: the pins' values first, then round by round.
unfoldable pub all_looked_up : ℕ → ℕ → List Text
unfolding looked_up
all_looked_up m n =
    codes "sig_in"
    ∷ (map (λ mux. numbered (codes "sig_in_bit") mux) (range m)
        ++ concat_map (λ mux. looked_up n mux) (range m))

-- The calls on the instance of the register block, in order.
pub data SlaveCall : Type 0 where
  attach_parameter_value : Text → ℕ → SlaveCall
  connect_port : Text → Text → SlaveCall
  rename_port : Text → Text → SlaveCall

pub record Instance : Type 0 where
  pub name : Text
  pub module_name : Text
  pub extra_ports : List Port
  pub calls : List SlaveCall

-- `port.upper()` on ASCII
abbrev pub upper : Text → Text
upper = map (λ c. if leb b'a' c && leb c b'z' then c - 32 else c)

-- `axi_slave.connect_port(f"{kind}{mux}", f"{kind}{mux}")`
abbrev pub connection : Text → ℕ → SlaveCall
connection kind mux = connect_port (numbered kind mux) (numbered kind mux)

unfoldable pub field_connections : ℕ → List SlaveCall
unfolding numbered
field_connections m =
    concat_map
      (λ mux.
        connection (codes "srcsel") mux
        ∷ connection (codes "shortsel") mux
        ∷ connection (codes "diren") mux
        ∷ connection (codes "dirctl") mux
        ∷ [])
      (range m)

module _ (hdl : Hdltools) where
  unfoldable pub internal_signals : ℕ → ℕ → List Signal
  unfolding per_signal
  internal_signals m n =
      per_signal (codes "srcsel") (hdl.clog2 n) m
      ++ (per_signal (codes "shortsel") 1 m
          ++ (per_signal (codes "diren") 1 m
              ++ (per_signal (codes "dirctl") 1 m
                  ++ (per_signal (codes "hw_dir_sig") 1 m ++ per_signal (codes "sig_in_bit") 1 m))))

  unfoldable pub axi_slave : ℕ → ℕ → Instance
  unfolding field_connections required_addr_width extra_slave_ports str
  axi_slave m n = record {
    name = codes "axislave";
    module_name = codes "axi4liteslave__" ++ (str m ++ (codes "__" ++ str n));
    extra_ports = extra_slave_ports hdl m n;
    calls =
        (attach_parameter_value (codes "C_S_AXI_ADDR_WIDTH") (required_addr_width hdl m)
          ∷ attach_parameter_value (codes "C_S_AXI_DATA_WIDTH") axi_data_width
          ∷ connect_port (codes "s_axi") (codes "s_axi")
          ∷ [])
        ++ (map (λ port. rename_port port (upper port))
              (hdl.slave_ports (extra_slave_ports hdl m n))
            ++ field_connections m);
  }
