-- ===== src/Generator/Arguments.antt =====
-- The arguments of generator/mux_gen.py and the checks in front of the generator.
use aximux.Prelude.{ℕ, ◌≤◌, Bool, true, false, ltb, if◌then◌else◌}
use aximux.Text.{Text, codes}

-- What `type=int` reads: `negsuc n` is -(n + 1).
pub data ℤ : Type 0 where
  pos : ℕ → ℤ
  negsuc : ℕ → ℤ

abbrev pub max_alt_signals : ℕ
max_alt_signals = 15

abbrev pub max_signals : ℕ
max_signals = 32

-- `bound < a`
abbrev above : ℕ → ℤ → Bool
above bound (pos n) = ltb bound n
above bound (negsuc n) = false

-- `a < 1`
abbrev below_one : ℤ → Bool
below_one (pos n) = ltb n 1
below_one (negsuc n) = true

-- The numbers that go to the generator, or the message in front of `exit(1)`.
pub data Checked : Type 0 where
  accepted : ℤ → ℤ → Checked
  rejected : Text → Checked

unfoldable pub check_arguments : ℤ → ℤ → Checked
check_arguments signal_count alt_signal_count =
    if above max_alt_signals alt_signal_count
    then rejected (codes "ERROR: alternate signals exceed maximum")
    else if above max_signals signal_count
    then rejected (codes "ERROR: signals exceed maximum")
    else if below_one signal_count
    then rejected (codes "ERROR: invalid signal count")
    else if below_one alt_signal_count
    then rejected (codes "ERROR: alternate signal count must be >= 1")
    else accepted signal_count alt_signal_count

-- A number from 1 up to a bound.
abbrev pub InRange : ℕ → ℤ → Type 0
InRange bound (pos n) = (1 ≤ n) × (n ≤ bound)
InRange bound (negsuc n) = ⊥
