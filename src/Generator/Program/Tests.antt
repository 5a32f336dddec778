-- ===== src/Generator/Program/Tests.antt =====
-- The generated module, for two signals with one alternate each.
use aximux.Prelude.{[], ◌∷◌, false, ◌≡◌, refl, All, map}
use aximux.Prelude.Nodup.{Nodup}
use aximux.Text.{codes, strip_prefix}
use aximux.Text.Decimal.{str}
use aximux.Generator.Ports.{Hdltools, input_port, required_addr_width, axi_data_width}
use aximux.Generator.Names.{name_of}
use aximux.Generator.Body.{
  axi_slave, internal_signals, comb, attach_parameter_value, connect_port, rename_port,
}
use aximux.Generator.Body.Declared.{IsForeign, declared, declared-Nodup}
use aximux.Generator.Arguments.{pos}
use aximux.Generator.Program.{program}
use aximux.Generator.Program.Result.{Prints, program-Prints}

abbrev tools : Hdltools
tools = record {
  axi_ports = λ w a. input_port (codes "s_axi_aclk") 1 ∷ input_port (codes "s_axi_awaddr") a ∷ [];
  clog2 = λ n. n;
  multiplexer = λ sel inputs. false;
  slave_ports = λ ps. codes "s_axi" ∷ map name_of ps;
}

declared_run :
    internal_signals tools 1 2
    ≡ comb (codes "srcsel0") 2
      ∷ comb (codes "shortsel0") 1
      ∷ comb (codes "diren0") 1
      ∷ comb (codes "dirctl0") 1
      ∷ comb (codes "hw_dir_sig0") 1
      ∷ comb (codes "sig_in_bit0") 1
      ∷ []
unfolding internal_signals str
declared_run = refl

axi-IsForeign :
    All IsForeign (map name_of (tools.axi_ports axi_data_width (required_addr_width tools 2)))
unfolding strip_prefix
axi-IsForeign = (
  (refl, (refl, (refl, (refl, (refl, (refl, tt)))))),
  ((refl, (refl, (refl, (refl, (refl, (refl, tt)))))), tt),
)

declared-Nodup_example : Nodup (declared tools 2 1)
declared-Nodup_example = declared-Nodup tools 2 1 (((λ e. cc e), tt), (tt, tt)) axi-IsForeign

program-Prints_example : Prints (pos 2) (pos 1) (program tools (pos 2) (pos 1))
program-Prints_example = program-Prints tools (pos 2) (pos 1)

slave_run :
    (axi_slave tools 1 1).calls
    ≡ attach_parameter_value (codes "C_S_AXI_ADDR_WIDTH") 132
      ∷ attach_parameter_value (codes "C_S_AXI_DATA_WIDTH") 32
      ∷ connect_port (codes "s_axi") (codes "s_axi")
      ∷ rename_port (codes "s_axi") (codes "S_AXI")
      ∷ rename_port (codes "srcsel0") (codes "SRCSEL0")
      ∷ rename_port (codes "shortsel0") (codes "SHORTSEL0")
      ∷ rename_port (codes "diren0") (codes "DIREN0")
      ∷ rename_port (codes "dirctl0") (codes "DIRCTL0")
      ∷ connect_port (codes "srcsel0") (codes "srcsel0")
      ∷ connect_port (codes "shortsel0") (codes "shortsel0")
      ∷ connect_port (codes "diren0") (codes "diren0")
      ∷ connect_port (codes "dirctl0") (codes "dirctl0")
      ∷ []
unfolding axi_slave str
slave_run = refl
