-- ===== src/Driver/Conf.antt =====
-- The pin configuration of driver/aximux.c: SHORT, and the direction by software.
pub mod Bits
pub mod SetGet
pub mod Tests
use aximux.Prelude.{
  ℕ, ◌+◌, ◌*◌, ◌/◌, ◌%◌, ◌^◌, List, [], ◌∷◌, Option, none, some, ◌==◌, if◌then◌else◌,
}
use aximux.Device.{AximuxState}
use aximux.Driver.{read_reg, write_reg, AximuxGroup, Code, ok, einval, enodata, enotsupp}
use aximux.Driver.Nodes.{Result, ret, err}

-- What the driver takes from the kernel's pinconf headers: a configuration is a number that packs a
-- parameter and an argument, and custom parameters are counted from the last of the generic ones.
pub record Packing : Type 0 where
  pub config_param : ℕ → ℕ
  pub config_argument : ℕ → ℕ
  pub config_packed : ℕ → ℕ → ℕ
  pub pin_config_end : ℕ

pub data Setting : Type 0 where
  short dir_sw dir_out : Setting

-- `!!(val & BIT(…))`
abbrev pub get_bit : Setting → ℕ → ℕ
get_bit short val = val / 2 ^ 5 % 2
get_bit dir_sw val = val / 2 ^ 6 % 2
get_bit dir_out val = val / 2 ^ 7 % 2

-- `val |= BIT(…)` and `val &= ~BIT(…)`
abbrev pub put_bit : Setting → ℕ → ℕ → ℕ
put_bit short b val = val / 2 ^ 6 * 2 ^ 6 + b * 2 ^ 5 + val % 2 ^ 5
put_bit dir_sw b val = val / 2 ^ 7 * 2 ^ 7 + b * 2 ^ 6 + val % 2 ^ 6
put_bit dir_out b val = val / 2 ^ 8 * 2 ^ 8 + b * 2 ^ 7 + val % 2 ^ 7

module _ (k : Packing) where
  -- `AXIMUX_CFG_SHORT`, `AXIMUX_CFG_DIR_SW` and `AXIMUX_CFG_DIR_OUT`
  abbrev pub cfg_param : Setting → ℕ
  cfg_param short = k.pin_config_end + 1
  cfg_param dir_sw = k.pin_config_end + 2
  cfg_param dir_out = k.pin_config_end + 3

  -- The `switch` over the parameter.
  unfoldable pub setting_of : ℕ → Option Setting
  setting_of param =
      if param == k.pin_config_end + 1
      then some short
      else if param == k.pin_config_end + 2
      then some dir_sw
      else if param == k.pin_config_end + 3
      then some dir_out
      else none

  unfoldable pub aximux_pinconf_get : AximuxState → ℕ → ℕ → Result ℕ
  unfolding read_reg setting_of
  aximux_pinconf_get regs pin config =
      let param = k.config_param config in
      elim (setting_of param) [
        | none ↦ err enotsupp
        | some s ↦ ret (k.config_packed param (get_bit s (read_reg regs pin)))
      ]

  -- The argument is kept in 16 bits.
  abbrev pub bit_of : ℕ → ℕ
  bit_of config = if k.config_argument config % 2 ^ 16 == 0 then 0 else 1

  -- The loop over the configurations: it returns at the first that is not supported.
  unfoldable pub aximux_pinconf_set : ℕ → List ℕ → AximuxState → AximuxState × Code
  unfolding read_reg write_reg setting_of
  aximux_pinconf_set pin [] regs = (regs, ok)
  aximux_pinconf_set pin (c ∷ cs) regs = elim (setting_of (k.config_param c)) [
    | none ↦ (regs, enotsupp)
    | some s ↦
        aximux_pinconf_set pin cs (write_reg regs pin (put_bit s (bit_of c) (read_reg regs pin)))
  ]

  unfoldable pub aximux_pinconf_group_get : AximuxState → AximuxGroup → ℕ → Result ℕ
  unfolding aximux_pinconf_get
  aximux_pinconf_group_get regs grp config = elim grp.pins [
    | [] ↦ err einval
    | pin ∷ _ ↦ aximux_pinconf_get regs pin config
  ]

  -- The pins in order, up to the first that fails.
  unfoldable pub set_group : List ℕ → List ℕ → AximuxState → AximuxState × Code
  unfolding aximux_pinconf_set
  set_group configs [] regs = (regs, ok)
  set_group configs (pin ∷ pins) regs =
      let (regs', code) = aximux_pinconf_set pin configs regs in
      elim code [
        | ok ↦ set_group configs pins regs'
        | einval ↦ (regs', einval)
        | enodata ↦ (regs', enodata)
        | enotsupp ↦ (regs', enotsupp)
      ]

  unfoldable pub aximux_pinconf_group_set : AximuxGroup → List ℕ → AximuxState → AximuxState × Code
  unfolding set_group
  aximux_pinconf_group_set grp configs = set_group configs grp.pins
