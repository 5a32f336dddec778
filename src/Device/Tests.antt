-- ===== src/Device/Tests.antt =====
-- The QEMU device at its default size.
use aximux.Prelude.{◌+◌, ◌*◌, ◌%◌, ◌^◌, ◌≡◌, refl, arith, ◌&&◌, ◌==◌, if◌then◌else◌}
use aximux.Device.{
  AximuxState, ready, aximux_realize, aximux_read, aximux_write, zeros, is_pin, write_at, read_at,
}
use aximux.Device.Registers.{IsValid, aximux_read-aximux_write}
use aximux.Device.Realize.{Outcome, aximux_realize_lem}

abbrev device : AximuxState
device = record { srcsel = zeros 32; muxinfo = 4 * 2 ^ 8 + 8; npins = 8; nalts = 4 }

device_realized : aximux_realize 8 4 ≡ ready device
unfolding aximux_realize
device_realized = refl

write_runs : aximux_read (aximux_write device 12 0x123 4) 12 4 ≡ 0x123
unfolding aximux_read aximux_write read_at write_at
write_runs = refl

device-IsValid : IsValid device
device-IsValid = (refl, omega arith)

aximux_read-aximux_write_example : aximux_read (aximux_write device 12 (2 ^ 32 + 5) 4) 12 4 ≡ (
    if (4 == 4) && (is_pin device 12 && (12 == 12))
    then (2 ^ 32 + 5) % 2 ^ 32
    else aximux_read device 12 4)
aximux_read-aximux_write_example =
    aximux_read-aximux_write device 12 12 (2 ^ 32 + 5) 4 device-IsValid

aximux_realize_lem_example : Outcome 8 4 (aximux_realize 8 4)
aximux_realize_lem_example = aximux_realize_lem 8 4
