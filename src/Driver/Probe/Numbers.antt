-- ===== src/Driver/Probe/Numbers.antt =====
-- The numbers of the pins of an extra group, and its cells.
use aximux.Prelude.{
  ℕ, zero, suc, ◌≤◌, ◌<◌, List, [], ◌∷◌, Option, none, some, ◌≡◌, refl, arith, All, text_eq, length,
  take, subst,
}
use aximux.Text.{Text}
use aximux.Device.{zeros}
use aximux.Driver.Nodes.{ret, ◌>>=◌, AximuxPin, cells_of}
use aximux.Driver.Probe.{aximux_find_pin_by_name, find_pins}
use aximux.Driver.Probe.Pins.{>>=-eq-ret, ret-injective, IsPin}

length-zeros : (n : ℕ) → length (zeros n) ≡ n
length-zeros zero = refl
length-zeros (suc n) = omega (arith, length-zeros n)

length-take : (n : ℕ) (xs : List ℕ) → n ≤ length xs → length (take n xs) ≡ n
length-take zero xs h = refl
length-take (suc n) [] h = absurd (omega arith)
length-take (suc n) (x ∷ xs) h = omega (arith, length-take n xs)

pub length-cells_of : (n : ℕ) (o : Option (List ℕ)) → length (cells_of n o) ≡ n
length-cells_of n none = length-zeros n
length-cells_of n (some cells) = ground (arith, length-zeros n, length-take n cells)

-- The numbers that are found: as many as the names, each that of a pin.
find_pin_number :
    (hw : ℕ) (pins : List AximuxPin) (n : Text) (i : ℕ)
    → All (IsPin hw) pins
    → aximux_find_pin_by_name pins n ≡ ret i
    → i < hw
unfolding aximux_find_pin_by_name
find_pin_number hw [] n i good h = cc
find_pin_number hw (p ∷ pins) n i good h = ground (arith, find_pin_number hw pins n i, good.0)

pub find_pins_lem :
    (hw : ℕ) (pins : List AximuxPin) (ns : List Text) (is : List ℕ)
    → All (IsPin hw) pins
    → find_pins pins ns ≡ ret is
    → (length is ≡ length ns) × All (λ i. i < hw) is
find_pins_lem hw pins [] is good h =
    let done : ret [] ≡ ret is = unfold find_pins in h in
    subst (λ l. (length l ≡ 0) × All (λ i. i < hw) l) (ret-injective done) (refl, tt)
find_pins_lem hw pins (n ∷ ns) is good h =
    let h' : (aximux_find_pin_by_name pins n >>= λ i. find_pins pins ns >>= λ rest. ret (i ∷ rest))
        ≡ ret is =
      unfold find_pins in h in
    let (i, hi, h'') = >>=-eq-ret (aximux_find_pin_by_name pins n) _ h' in
    let (rest, hr, done) = >>=-eq-ret (find_pins pins ns) _ h'' in
    let (long, below) = find_pins_lem hw pins ns rest good hr in
    subst (λ l. (length l ≡ length (n ∷ ns)) × All (λ i. i < hw) l) (ret-injective done)
      (omega (arith, long), (find_pin_number hw pins n i good hi, below))
