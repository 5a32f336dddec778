-- ===== src/Driver/Show.antt =====
-- `srcsel_show` of driver/aximux.c: the text that sysfs gives for the registers.
pub mod Whole
pub mod Tests
use aximux.Prelude.{
  ℕ, ◌+◌, ◌-◌, ◌/◌, ◌%◌, ◌^◌, List, [], ◌∷◌, ◌++◌, ltb, if◌then◌else◌, length, take,
}
use aximux.Text.{Text, codes}
use aximux.Device.{AximuxState}
use aximux.Driver.{read_reg}
use aximux.Driver.Nodes.{AximuxPin}

abbrev pub hex_digit : ℕ → ℕ
hex_digit n = if ltb n 10 then b'0' + n else b'a' + (n - 10)

-- `"%02x"` of a byte
abbrev pub hex_byte : ℕ → Text
hex_byte n = hex_digit (n / 16) ∷ hex_digit (n % 16) ∷ []

-- `"%s:0x%02x\n"`
unfoldable pub srcsel_line : AximuxState → AximuxPin → Text
unfolding read_reg
srcsel_line regs p =
    p.name ++ (codes ":0x" ++ (hex_byte (read_reg regs p.number % 2 ^ 8) ++ codes "\n"))

-- `scnprintf` into a buffer of this size: what does not fit in front of the final 0 is cut off.
abbrev pub scnprintf : ℕ → Text → Text
scnprintf size t = take (size - 1) t

-- The loop over the pins, with what is in the buffer.
unfoldable pub show_pins : ℕ → AximuxState → List AximuxPin → Text → Text
unfolding srcsel_line
show_pins page_size regs [] buf = buf
show_pins page_size regs (p ∷ pins) buf =
    show_pins page_size regs pins (buf ++ scnprintf (page_size - length buf) (srcsel_line regs p))

abbrev pub srcsel_show : ℕ → AximuxState → List AximuxPin → Text
srcsel_show page_size regs pins = show_pins page_size regs pins []
