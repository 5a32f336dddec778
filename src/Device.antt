-- ===== src/Device.antt =====
-- The QEMU device of sim/qemu/hw/aximux.c: its registers as the guest reads and writes them.
-- The messages of `qemu_log_mask` and the calls that register the memory region are left out.
pub mod Registers
pub mod Realize
pub mod Tests
use aximux.Prelude.{
  ℕ, zero, suc, ◌+◌, ◌*◌, ◌/◌, ◌%◌, ◌^◌, List, [], ◌∷◌, Bool, ◌&&◌, ◌||◌, ltb, ◌==◌, if◌then◌else◌,
}
use aximux.Text.{Text, codes}

abbrev pub muxinfo_reg : ℕ
muxinfo_reg = 0x80

abbrev pub max_pins : ℕ
max_pins = 32

-- `AximuxState`
pub record AximuxState : Type 0 where
  pub srcsel : List ℕ
  pub muxinfo : ℕ
  pub npins : ℕ
  pub nalts : ℕ

-- `a[i]`, and `a[i] = v`, for an index of the array.
unfoldable pub read_at : List ℕ → ℕ → ℕ
read_at [] i = 0
read_at (x ∷ xs) zero = x
read_at (x ∷ xs) (suc i) = read_at xs i

unfoldable pub write_at : List ℕ → ℕ → ℕ → List ℕ
write_at [] i v = []
write_at (x ∷ xs) zero v = v ∷ xs
write_at (x ∷ xs) (suc i) v = x ∷ write_at xs i v

-- The test for the register of a pin.
abbrev pub is_pin : AximuxState → ℕ → Bool
is_pin s addr = ltb addr muxinfo_reg && ((addr % 4 == 0) && ltb (addr / 4) s.npins)

unfoldable pub aximux_read : AximuxState → ℕ → ℕ → ℕ
unfolding read_at
aximux_read s addr size =
    if size == 4
    then (if addr == muxinfo_reg
        then s.muxinfo
        else if is_pin s addr
        then read_at s.srcsel (addr / 4)
        else 0)
    else 0

unfoldable pub aximux_write : AximuxState → ℕ → ℕ → ℕ → AximuxState
unfolding write_at
aximux_write s addr val size =
    if size == 4
    then (if addr == muxinfo_reg
        then s
        else if is_pin s addr
        then record s { srcsel = write_at s.srcsel (addr / 4) (val % 2 ^ 32) }
        else s)
    else s

abbrev pub zeros : ℕ → List ℕ
zeros zero = []
zeros (suc n) = 0 ∷ zeros n

-- What `aximux_realize` does: an error with its message, or the device.
pub data Realized : Type 0 where
  error : Text → Realized
  ready : AximuxState → Realized

-- The bits of the pins and of the alternates are apart, so that `|` is a sum.
unfoldable pub aximux_realize : ℕ → ℕ → Realized
aximux_realize npins nalts =
    if (npins == 0) || ltb max_pins npins
    then error (codes "aximux: npins must be 1..32")
    else if (nalts == 0) || ltb 15 nalts
    then error (codes "aximux: nalts must be 1..15")
    else ready (record {
      srcsel = zeros max_pins;
      muxinfo = nalts * 2 ^ 8 + npins;
      npins = npins;
      nalts = nalts;
    })
