-- ===== src/Driver/Registers.antt =====
-- The registers of the pins as driver/aximux.c reads and writes them.
use aximux.Prelude.{
  ℕ, ◌%◌, ◌^◌, ◌≤◌, ◌<◌, true, Bool, ◌&&◌, ◌==◌, if◌then◌else◌, ◌≡◌, ◌∙◌, ap, arith, Bool-cases,
  inl, inr,
}
use aximux.Device.{AximuxState, is_pin}
use aximux.Device.Registers.{
  IsValid, aximux_read-aximux_write, aximux_write-IsValid, aximux_write-npins,
}
use aximux.Driver.{aximux_reg, read_reg, write_reg}

-- A valid device whose registers hold words.
abbrev pub IsSound : AximuxState → Type 0
IsSound regs = IsValid regs × ((q : ℕ) → read_reg regs q < 2 ^ 32)

reads_back :
    (regs : AximuxState) (pin val q : ℕ)
    → IsValid regs
    → read_reg (write_reg regs pin val) q ≡ (
        if is_pin regs (aximux_reg pin) && (aximux_reg pin == aximux_reg q)
        then val % 2 ^ 32
        else read_reg regs q)
unfolding read_reg write_reg
reads_back regs pin val q v = aximux_read-aximux_write regs (aximux_reg pin) (aximux_reg q) val 4 v

-- A word that is written to the register of a pin is read there, and only there.
pub read-write_reg :
    (regs : AximuxState) (pin val q : ℕ)
    → IsSound regs
    → val < 2 ^ 32
    → read_reg (write_reg regs pin val) q
      ≡ (if is_pin regs (aximux_reg pin) && (pin == q) then val else read_reg regs q)
read-write_reg regs pin val q s small =
    let word : val % 2 ^ 32 ≡ val = omega arith in
    reads_back regs pin val q s.0 ∙ rw (word) (ground arith)

-- Where only the pin itself is meant, its own value may be read for the other's.
pub if_own :
    (regs : AximuxState) (b : Bool) (pin q : ℕ) (f : ℕ → ℕ)
    → (if b && (pin == q) then f (read_reg regs pin) else read_reg regs q)
      ≡ (if b && (pin == q) then f (read_reg regs q) else read_reg regs q)
if_own regs b pin q f = elim (Bool-cases (pin == q)) [
  | inl e ↦ let p : pin ≡ q = ground arith in ground (arith, ap (λ i. f (read_reg regs i)) p)
  | inr e ↦ ground arith
]

pub write_reg-IsSound :
    (regs : AximuxState) (pin val : ℕ)
    → IsSound regs
    → val < 2 ^ 32
    → IsSound (write_reg regs pin val)
write_reg-IsSound regs pin val s small =
    (valid, λ q. ground (arith, read-write_reg regs pin val q s, s.1 q))
  where
    valid : IsValid (write_reg regs pin val)
    valid = unfold write_reg in aximux_write-IsValid regs (aximux_reg pin) val 4 s.0

pub write_reg-npins :
    (regs : AximuxState) (pin val : ℕ) → (write_reg regs pin val).npins ≡ regs.npins
unfolding write_reg
write_reg-npins regs pin val = aximux_write-npins regs (aximux_reg pin) val 4

pub is_pin_reg :
    (regs : AximuxState) (pin : ℕ)
    → IsSound regs
    → pin < regs.npins
    → is_pin regs (aximux_reg pin) ≡ true
is_pin_reg regs pin s below = let limit : regs.npins ≤ 32 = s.0.1 in ground arith
