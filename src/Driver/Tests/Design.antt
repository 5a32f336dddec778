-- ===== src/Driver/Tests/Design.antt =====
-- A device at its default size, and configurations with 8 bits for the parameter.
use aximux.Prelude.{◌+◌, ◌*◌, ◌/◌, ◌%◌, ◌^◌, refl, arith}
use aximux.Device
use aximux.Device.{AximuxState, zeros}
use aximux.Device.Realize.{read_at-zeros}
use aximux.Driver.{read_reg}
use aximux.Driver.Registers.{IsSound}
use aximux.Driver.Conf.{Packing}

abbrev pub device : AximuxState
device = record { srcsel = zeros 32; muxinfo = 4 * 2 ^ 8 + 8; npins = 8; nalts = 4 }

pub device-IsSound : IsSound device
unfolding read_reg Device.aximux_read
device-IsSound = ((refl, omega arith), λ q. ground (arith, read_at-zeros 32 (q * 2 ^ 2 / 4)))

abbrev pub packing : Packing
packing = record {
  config_param = λ c. c % 2 ^ 8;
  config_argument = λ c. c / 2 ^ 8;
  config_packed = λ p a. a * 2 ^ 8 + p;
  pin_config_end = 127;
}
