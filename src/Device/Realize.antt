-- ===== src/Device/Realize.antt =====
-- The realized QEMU device: which sizes it takes, and what a guest finds in its registers.
use aximux.Prelude.{
  ℕ, zero, suc, ◌+◌, ◌*◌, ◌/◌, ◌%◌, ◌^◌, ◌≤◌, ◌||◌, ltb, ◌==◌, ◌≡◌, refl, ◌≢◌, arith, Bool-cases,
  inl, inr,
}
use aximux.Device.{
  AximuxState, Realized, error, ready, aximux_realize, aximux_read, read_at, zeros, muxinfo_reg,
  max_pins,
}
use aximux.Device.Registers.{IsValid}

-- From 1 to 32 pins, with 1 to 15 alternates.
abbrev pub InRange : ℕ → ℕ → Type 0
InRange npins nalts = (1 ≤ npins) × (npins ≤ 32) × (1 ≤ nalts) × (nalts ≤ 15)

-- What the driver relies on when it probes.
abbrev pub IsFresh : ℕ → ℕ → AximuxState → Type 0
IsFresh npins nalts s =
    IsValid s
    × (aximux_read s muxinfo_reg 4 % 2 ^ 8 ≡ npins)
    × (aximux_read s muxinfo_reg 4 / 2 ^ 8 ≡ nalts)
    × ((addr : ℕ) → addr ≢ muxinfo_reg → aximux_read s addr 4 ≡ 0)

abbrev pub Outcome : ℕ → ℕ → Realized → Type 0
Outcome npins nalts (error t) = ¬ InRange npins nalts
Outcome npins nalts (ready s) = InRange npins nalts × IsFresh npins nalts s

abbrev fresh : ℕ → ℕ → AximuxState
fresh npins nalts = record {
  srcsel = zeros max_pins;
  muxinfo = nalts * 2 ^ 8 + npins;
  npins = npins;
  nalts = nalts;
}

pub read_at-zeros : (n i : ℕ) → read_at (zeros n) i ≡ 0
unfolding read_at
read_at-zeros zero i = refl
read_at-zeros (suc n) zero = refl
read_at-zeros (suc n) (suc i) = read_at-zeros n i

fresh-IsFresh : (npins nalts : ℕ) → InRange npins nalts → IsFresh npins nalts (fresh npins nalts)
unfolding aximux_read
fresh-IsFresh npins nalts (a, b, c, d) = (
  (refl, b),
  omega arith,
  omega arith,
  λ addr n. ground (arith, read_at-zeros max_pins (addr / 4)),
)

-- The device is refused exactly for the sizes out of range; otherwise its array has 32 words, MUXINFO
-- has the number of pins in its lowest byte and that of the alternates above, and every other address
-- reads as 0.
pub aximux_realize_lem : (npins nalts : ℕ) → Outcome npins nalts (aximux_realize npins nalts)
unfolding aximux_realize
aximux_realize_lem npins nalts = elim (Bool-cases ((npins == 0) || ltb max_pins npins)) [
  | inl e ↦ rw (e) (λ r. ground arith)
  | inr e ↦ elim (Bool-cases ((nalts == 0) || ltb 15 nalts)) [
    | inl e' ↦ rw (e, e') (λ r. ground arith)
    | inr e' ↦
        let r : InRange npins nalts = (ground arith, ground arith, ground arith, ground arith) in
        rw (e, e') (r, fresh-IsFresh npins nalts r)
  ]
]
