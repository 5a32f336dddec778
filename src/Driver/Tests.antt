-- ===== src/Driver/Tests.antt =====
-- The driver over the QEMU device at its default size.
pub mod Design
use aximux.Prelude.{ℕ, ◌+◌, ◌*◌, ◌/◌, ◌^◌, ◌<◌, [], ◌∷◌, some, ◌≡◌, refl, arith, text_eq}
use aximux.Text.{codes}
use aximux.Device
use aximux.Device.{AximuxState, zeros}
use aximux.Device.Realize.{read_at-zeros}
use aximux.Driver.Tests.Design.{device, device-IsSound}
use aximux.Driver.{read_reg, AximuxGroup, FunctionGroup, ok, aximux_set_mux}
use aximux.Driver.Registers.{IsSound}
use aximux.Driver.SetMux.{
  control, source, last_src, group_of, control-aximux_set_mux, aximux_set_mux_ok,
}

abbrev bus : AximuxGroup
bus = record { name = codes "i2c0-grp"; pins = 2 ∷ 3 ∷ [] }

abbrev bus_sources : FunctionGroup
bus_sources = record { name = codes "i2c0-grp"; mux_vals = 1 ∷ 2 ∷ [] }

found : group_of bus (bus_sources ∷ []) ≡ some bus_sources
unfolding text_eq
found = refl

control-aximux_set_mux_example :
    control (aximux_set_mux 4 (bus_sources ∷ []) bus device).0 2 ≡ control device 2
control-aximux_set_mux_example =
    control-aximux_set_mux 4 (bus_sources ∷ []) bus device 2 device-IsSound

aximux_set_mux_ok_example :
    ((aximux_set_mux 4 (bus_sources ∷ []) bus device).1 ≡ ok)
    × ((q : ℕ)
        → q < 8
        → source (aximux_set_mux 4 (bus_sources ∷ []) bus device).0 q
          ≡ last_src q (2 ∷ 3 ∷ []) (1 ∷ 2 ∷ []) (source device q))
aximux_set_mux_ok_example =
    aximux_set_mux_ok 4 (bus_sources ∷ []) bus device bus_sources device-IsSound (omega arith) found
      refl (omega arith, (omega arith, tt)) (omega arith, (omega arith, tt))
