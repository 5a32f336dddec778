-- ===== src/Driver/Conf/Bits.antt =====
-- The control bits of a register.
use aximux.Prelude.{ℕ, ◌/◌, ◌%◌, ◌^◌, ◌≤◌, ◌<◌, ◌≡◌, arith, Bool, true, false, if◌then◌else◌}
use aximux.Driver.Conf.{Setting, short, dir_sw, dir_out, get_bit, put_bit}

abbrev pub same_setting : Setting → Setting → Bool
same_setting short short = true
same_setting dir_sw dir_sw = true
same_setting dir_out dir_out = true
same_setting _ _ = false

pub get_bit-put_bit :
    (s t : Setting) (b val : ℕ)
    → b ≤ 1
    → get_bit t (put_bit s b val) ≡ (if same_setting s t then b else get_bit t val)
get_bit-put_bit short short b val h = omega arith
get_bit-put_bit short dir_sw b val h = omega arith
get_bit-put_bit short dir_out b val h = omega arith
get_bit-put_bit dir_sw short b val h = omega arith
get_bit-put_bit dir_sw dir_sw b val h = omega arith
get_bit-put_bit dir_sw dir_out b val h = omega arith
get_bit-put_bit dir_out short b val h = omega arith
get_bit-put_bit dir_out dir_sw b val h = omega arith
get_bit-put_bit dir_out dir_out b val h = omega arith

-- A write of a control bit leaves the source field, and stays a word.
pub put_bit_rest :
    (s : Setting) (b val : ℕ)
    → b ≤ 1
    → val < 2 ^ 32
    → (put_bit s b val % 2 ^ 5 ≡ val % 2 ^ 5)
      × (put_bit s b val / 2 ^ 8 ≡ val / 2 ^ 8)
      × (put_bit s b val < 2 ^ 32)
put_bit_rest short b val h w = (omega arith, omega arith, omega arith)
put_bit_rest dir_sw b val h w = (omega arith, omega arith, omega arith)
put_bit_rest dir_out b val h w = (omega arith, omega arith, omega arith)
