-- ===== src/Device/Registers.antt =====
-- Reads after writes of the QEMU device.
use aximux.Prelude.{
  ℕ, zero, suc, ◌/◌, ◌%◌, ◌^◌, ◌≤◌, ◌<◌, List, [], ◌∷◌, true, false, ◌&&◌, ◌==◌, if◌then◌else◌, ◌≡◌,
  refl, ◌∙◌, arith, length, Bool-cases, inl, inr,
}
use aximux.Device.{AximuxState, read_at, write_at, is_pin, aximux_read, aximux_write, max_pins}

-- An array of 32 words, of which the device's pins have the first ones.
abbrev pub IsValid : AximuxState → Type 0
IsValid s = (length s.srcsel ≡ max_pins) × (s.npins ≤ max_pins)

read_at-write_at :
    (xs : List ℕ) (i j v : ℕ)
    → i < length xs
    → read_at (write_at xs i v) j ≡ (if i == j then v else read_at xs j)
unfolding read_at write_at
read_at-write_at [] i j v h = absurd (omega arith)
read_at-write_at (x ∷ xs) zero zero v h = ground arith
read_at-write_at (x ∷ xs) zero (suc j) v h = ground arith
read_at-write_at (x ∷ xs) (suc i) zero v h = ground arith
read_at-write_at (x ∷ xs) (suc i) (suc j) v h =
    read_at-write_at xs i j v (omega arith) ∙ ground arith

length-write_at : (xs : List ℕ) (i v : ℕ) → length (write_at xs i v) ≡ length xs
unfolding write_at
length-write_at [] i v = refl
length-write_at (x ∷ xs) zero v = refl
length-write_at (x ∷ xs) (suc i) v = omega (arith, length-write_at xs i v)

-- The two outcomes of a write.
write_pin :
    (s : AximuxState) (a val size : ℕ)
    → ((size == 4) && is_pin s a) ≡ true
    → aximux_write s a val size ≡ record s { srcsel = write_at s.srcsel (a / 4) (val % 2 ^ 32) }
unfolding aximux_write
write_pin s a val size h = ground arith

write_other :
    (s : AximuxState) (a val size : ℕ)
    → ((size == 4) && is_pin s a) ≡ false
    → aximux_write s a val size ≡ s
unfolding aximux_write
write_other s a val size h = ground arith

same_word : (a b : ℕ) → a % 4 ≡ 0 → b % 4 ≡ 0 → (a / 4 == b / 4) ≡ (a == b)
same_word a b h k = ground arith

pin_index : (s : AximuxState) (a : ℕ) → IsValid s → is_pin s a ≡ true → a / 4 < length s.srcsel
pin_index s a (l, n) h = let lt : a / 4 < s.npins = ground arith in omega arith

-- A write keeps the array, the number of pins, the number of alternates and MUXINFO.
pub aximux_write-IsValid :
    (s : AximuxState) (addr val size : ℕ) → IsValid s → IsValid (aximux_write s addr val size)
aximux_write-IsValid s addr val size h = elim (Bool-cases ((size == 4) && is_pin s addr)) [
  | inl e ↦
      rw (write_pin s addr val size e)
        (length-write_at s.srcsel (addr / 4) (val % 2 ^ 32) ∙ h.0, h.1)
  | inr e ↦ rw (write_other s addr val size e) h
]

pub aximux_write-npins :
    (s : AximuxState) (addr val size : ℕ) → (aximux_write s addr val size).npins ≡ s.npins
aximux_write-npins s addr val size = elim (Bool-cases ((size == 4) && is_pin s addr)) [
  | inl e ↦ rw (write_pin s addr val size e) refl
  | inr e ↦ rw (write_other s addr val size e) refl
]

-- A read after the write to the register of a pin.
read_pin :
    (s : AximuxState) (a b v : ℕ)
    → IsValid s
    → is_pin s a ≡ true
    → aximux_read (record s { srcsel = write_at s.srcsel (a / 4) v }) b 4
      ≡ (if a == b then v else aximux_read s b 4)
unfolding aximux_read
read_pin s a b v h e =
    let at = read_at-write_at s.srcsel (a / 4) (b / 4) v (pin_index s a h e) in
    elim (Bool-cases (is_pin s b)) [
      | inl k ↦ ground (arith, at, same_word a b (ground arith) (ground arith))
      | inr k ↦ ground arith
    ]

-- On a device with its array of 32 words, a word that is read after a write of any size to any
-- address is the value written, modulo 2 ^ 32, where the write is of a word to the register of a
-- pin and the address is the same; everywhere else it is what it was. In particular MUXINFO and the
-- registers of the other pins stay.
pub aximux_read-aximux_write :
    (s : AximuxState) (a b val size : ℕ)
    → IsValid s
    → aximux_read (aximux_write s a val size) b 4
      ≡ (if (size == 4) && (is_pin s a && (a == b)) then val % 2 ^ 32 else aximux_read s b 4)
aximux_read-aximux_write s a b val size h = elim (Bool-cases ((size == 4) && is_pin s a)) [
  | inl e ↦
      rw (write_pin s a val size e) (read_pin s a b (val % 2 ^ 32) h (ground arith) ∙ ground arith)
  | inr e ↦ rw (write_other s a val size e) (ground arith)
]
