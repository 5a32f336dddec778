-- ===== src/Generator/Program.antt =====
-- generator/mux_gen.py from the arguments on: `aximux_generator` behind the checks. The printer of
-- hdltools is left out.
pub mod Result
pub mod Tests
use aximux.Prelude.{ℕ, List, [], ◌∷◌, ◌++◌, Option, none, some, ltb, if◌then◌else◌, map}
use aximux.Text.{Text}
use aximux.Generator.Arguments.{ℤ, pos, negsuc, Checked, accepted, rejected, check_arguments}
use aximux.Generator.Ports.{Port, Hdltools, module_name, module_ports}
use aximux.Generator.Body.{Signal, Instance, all_looked_up, internal_signals, axi_slave}

-- The generated module, with the names that its body looks up.
pub record HdlModule : Type 0 where
  pub name : Text
  pub ports : List Port
  pub signals : List Signal
  pub looked_up_names : List Text
  pub instances : List Instance

-- A message and exit code 1, an exception, or the module that is printed.
pub data Program : Type 0 where
  failed : Text → Program
  error : Program
  printed : HdlModule → Program

module _ (hdl : Hdltools) where
  unfoldable pub aximux_generator : ℕ → ℕ → Option HdlModule
  unfolding module_name module_ports internal_signals all_looked_up axi_slave
  aximux_generator m n =
      if ltb n 1
      then none
      else some (record {
        name = module_name hdl m n;
        ports = module_ports hdl m n;
        signals = internal_signals hdl m n;
        looked_up_names = all_looked_up m n;
        instances = axi_slave hdl m n ∷ [];
      })

  abbrev pub printed_if : Option HdlModule → Program
  printed_if none = error
  printed_if (some made) = printed made

  -- No negative number passes the checks.
  abbrev generated : ℤ → ℤ → Program
  generated (pos m) (pos n) = printed_if (aximux_generator m n)
  generated (pos m) (negsuc n) = error
  generated (negsuc m) a = error

  unfoldable pub program : ℤ → ℤ → Program
  unfolding check_arguments aximux_generator
  program signal_count alt_signal_count = elim (check_arguments signal_count alt_signal_count) [
    | rejected t ↦ failed t
    | accepted m n ↦ generated m n
  ]
