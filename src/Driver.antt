-- ===== src/Driver.antt =====
-- The pin multiplexing of driver/aximux.c, over the registers of the QEMU device: `aximux_set_src`
-- and `aximux_set_mux`.
pub mod Registers
pub mod SetMux
pub mod Nodes
pub mod Probe
pub mod Conf
pub mod Runs
pub mod Show
pub mod Tests
use aximux.Prelude.{
  ℕ, ◌+◌, ◌*◌, ◌/◌, ◌%◌, ◌^◌, List, [], ◌∷◌, Option, none, some, Bool, ◌||◌, not, ltb, ◌==◌,
  if◌then◌else◌, length, find_first, same, text_eq,
}
use aximux.Text.{Text}
use aximux.Device
use aximux.Device.{AximuxState}

-- `AXIMUX_REG(n)`: the shift of an unsigned number loses nothing below 2^30, and the driver's pins are
-- below 32.
abbrev pub aximux_reg : ℕ → ℕ
aximux_reg n = n * 2 ^ 2

-- `ioread32` and `iowrite32` at the register of a pin.
unfoldable pub read_reg : AximuxState → ℕ → ℕ
unfolding Device.aximux_read
read_reg regs pin = Device.aximux_read regs (aximux_reg pin) 4

unfoldable pub write_reg : AximuxState → ℕ → ℕ → AximuxState
unfolding Device.aximux_write
write_reg regs pin val = Device.aximux_write regs (aximux_reg pin) val 4

-- `(val & ~AXIMUX_SRC_MASK) | (src & AXIMUX_SRC_MASK)`: the mask is the lowest four bits.
unfoldable pub aximux_set_src : AximuxState → ℕ → ℕ → AximuxState
unfolding read_reg write_reg
aximux_set_src regs pin src =
    let val = read_reg regs pin in write_reg regs pin (val / 2 ^ 4 * 2 ^ 4 + src % 2 ^ 4)

pub record AximuxGroup : Type 0 where
  pub name : Text
  pub pins : List ℕ

-- A group of a function, with the sources of its pins (`mux_vals`; `mux_npins` is their number).
pub record FunctionGroup : Type 0 where
  pub name : Text
  pub mux_vals : List ℕ

-- What a call returns: 0, or a negative error number.
pub data Code : Type 0 where
  ok : Code
  einval : Code
  enodata : Code
  enotsupp : Code

-- The loop over the group's pins: it returns at the first bad pin or source.
unfoldable pub set_pins : ℕ → List ℕ → List ℕ → AximuxState → AximuxState × Code
unfolding aximux_set_src
set_pins nalts [] srcs regs = (regs, ok)
set_pins nalts (pin ∷ pins) [] regs = (regs, ok)
set_pins nalts (pin ∷ pins) (src ∷ srcs) regs =
    let rest = set_pins nalts pins srcs (aximux_set_src regs pin src) in
    if not (ltb pin Device.max_pins) || ltb nalts src then (regs, einval) else rest

-- The selectors are the core's; here are the groups of the function, and the group.
unfoldable pub aximux_set_mux :
    ℕ → List FunctionGroup → AximuxGroup → AximuxState → AximuxState × Code
unfolding set_pins text_eq
aximux_set_mux nalts groups grp regs =
    elim (find_first (λ (g : FunctionGroup). same g.name grp.name) groups) [
      | none ↦ (regs, einval)
      | some g ↦
          if length g.mux_vals == length grp.pins
          then set_pins nalts grp.pins g.mux_vals regs
          else (regs, einval)
    ]
