-- ===== src/Generator/Tests.antt =====
-- Runs of the generator's model, and its theorems at concrete numbers.
use Prim.Native.Nat.{zero, suc}
use native.Mathlib.Nat.{pow-suc}
use aximux.Prelude.{
  ℕ, ◌+◌, ◌*◌, ◌^◌, ◌≤◌, ◌<◌, List, [], ◌∷◌, some, Bool, true, false, ◌≡◌, refl, arith, get_elem?,
  map,
}
use aximux.Text.{codes}
use aximux.Hwh.Model.{outgoing}
use aximux.Hwh.Ports.{parse_port}
use aximux.Generator.Arguments.{pos, check_arguments, rejected}
use aximux.Generator.Names.{name_of}
use aximux.Generator.Ports.{Port, Hdltools, required_addr_width, outgoing_ports, input_port}
use aximux.Generator.Address.{addresses_fit}
use aximux.Generator.Routing.{Fields, Inputs, route, route_lem}
use aximux.Generator.ReadBack.{ports_read_back}

-- A selector by counting, and a number of bits that suffices.
abbrev select_input : ℕ → List Bool → Bool
select_input sel [] = false
select_input zero (b ∷ bs) = b
select_input (suc sel) (b ∷ bs) = select_input sel bs

select_input_lem :
    (sel : ℕ) (inputs : List Bool) (b : Bool)
    → get_elem? inputs sel ≡ some b
    → select_input sel inputs ≡ b
select_input_lem sel [] b h = cc
select_input_lem zero (c ∷ bs) b h = cc
select_input_lem (suc sel) (c ∷ bs) b h = select_input_lem sel bs b h

lt-pow : (n : ℕ) → n < 2 ^ n
lt-pow zero = omega arith
lt-pow (suc n) = omega (arith, lt-pow n, pow-suc 2 n)

le-pow : (n : ℕ) → n ≤ 2 ^ n
le-pow n = omega (arith, lt-pow n)

abbrev tools : Hdltools
tools = record {
  axi_ports = λ w a.
      input_port (codes "s_axi_aclk") 1
      ∷ input_port (codes "s_axi_awaddr") a
      ∷ input_port (codes "s_axi_wdata") w
      ∷ [];
  clog2 = λ n. n;
  multiplexer = select_input;
  slave_ports = λ ps. map name_of ps;
}

rejected_runs :
    check_arguments (pos 8) (pos 16) ≡ rejected (codes "ERROR: alternate signals exceed maximum")
unfolding check_arguments
rejected_runs = refl

addresses_fit_example :
    (39 * 4 + 4 ≤ 2 ^ required_addr_width tools 40) × (0x80 + 4 ≤ 2 ^ required_addr_width tools 40)
addresses_fit_example = addresses_fit tools 40 39 le-pow (omega arith)

ports_read_back_example :
    map (λ (p : Port). parse_port p.name) (outgoing_ports 1 1)
    ≡ some (0, outgoing, 0) ∷ some (0, outgoing, 1) ∷ []
ports_read_back_example = ports_read_back 1 1 outgoing

abbrev fields : Fields
fields = record { srcsel = 1; shortsel = true; diren = false; dirctl = false }

abbrev inputs : Inputs
inputs = record { sig_in = true; ctl = false ∷ true ∷ []; outgoing = true ∷ false ∷ [] }

route_lem_example :
    (some (route tools 1 fields inputs).sig_out ≡ some false)
    × (some (route tools 1 fields inputs).sig_dir ≡ some true)
    × (get_elem? (route tools 1 fields inputs).incoming 0 ≡ some true)
route_lem_example =
    route_lem tools 1 fields inputs 0 select_input_lem refl refl (omega arith) (omega arith)
