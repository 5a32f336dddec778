-- ===== src/Driver/Show/Whole.antt =====
-- `srcsel_show` of driver/aximux.c cuts nothing off.
use aximux.Prelude.{
  ℕ, zero, suc, ◌+◌, ◌-◌, ◌*◌, ◌%◌, ◌^◌, ◌≤◌, ◌<◌, List, [], ◌∷◌, ◌++◌, ◌≡◌, refl, sym, ap, ◌∙◌,
  arith, All, concat_map, length, take, append_assoc, append-nil, length-append,
}
use aximux.Text.{Text, codes}
use aximux.Text.Decimal.{str, length-str}
use aximux.Driver.{read_reg}
use aximux.Device.{AximuxState}
use aximux.Driver.Nodes.{Node, ret, AximuxPin, Aximux}
use aximux.Driver.Probe.{pin_name, hw_pins, aximux_tables}
use aximux.Driver.Probe.Pins.{IsPin, Found}
use aximux.Driver.Probe.Select.{IsBuilt, aximux_tables-IsBuilt}
use aximux.Driver.Show.{srcsel_line, show_pins, srcsel_show, scnprintf, hex_byte}

take_all : (n : ℕ) (xs : Text) → length xs ≤ n → take n xs ≡ xs
take_all zero [] h = refl
take_all (suc n) [] h = refl
take_all zero (x ∷ xs) h = absurd (omega arith)
take_all (suc n) (x ∷ xs) h = ap (λ l. x ∷ l) (take_all n xs (omega arith))

length-srcsel_line :
    (regs : AximuxState) (p : AximuxPin)
    → p.name ≡ pin_name p.number
    → p.number < 32
    → length (srcsel_line regs p) ≤ 11
unfolding srcsel_line pin_name
length-srcsel_line regs p e l =
    let v = read_reg regs p.number % 2 ^ 8 in
    omega (
      arith,
      length-append p.name (codes ":0x" ++ (hex_byte v ++ codes "\n")),
      ap length e,
      length-append (codes "pin") (str p.number),
      length-str p.number (omega (arith, l)),
    )

show_pins_lem :
    (page_size hw : ℕ) (regs : AximuxState) (pins : List AximuxPin) (buf : Text)
    → hw ≤ 32
    → All (IsPin hw) pins
    → length buf + 11 * length pins < page_size
    → show_pins page_size regs pins buf ≡ buf ++ concat_map (srcsel_line regs) pins
unfolding show_pins
show_pins_lem page_size hw regs [] buf low good room = sym (append-nil buf)
show_pins_lem page_size hw regs (p ∷ pins) buf low good room =
    let line = srcsel_line regs p in
    let short : length line ≤ 11 =
      length-srcsel_line regs p good.0.1 (omega (arith, good.0.0, low)) in
    let fits : scnprintf (page_size - length buf) line ≡ line =
      take_all (page_size - length buf - 1) line (omega arith) in
    rw (fits) (
      show_pins_lem page_size hw regs pins (buf ++ line) low good.1
        (omega (arith, length-append buf line))
      ∙ append_assoc buf line (concat_map (srcsel_line regs) pins))

-- After probing, and with pages of 4096 bytes or more, `srcsel_show` gives one whole line for every
-- pin, in order: nothing is cut off at the end of the page, whatever the registers hold.
pub srcsel_show_lem :
    (page_size info : ℕ) (regs : AximuxState) (children : List Node) (amx : Aximux)
    → 4096 ≤ page_size
    → aximux_tables info children ≡ ret amx
    → srcsel_show page_size regs amx.pins ≡ concat_map (srcsel_line regs) amx.pins
srcsel_show_lem page_size info regs children amx big h =
    let b = aximux_tables-IsBuilt info children amx h in
    let found : Found info children (amx.nalts, amx.pins) = unfold IsBuilt in b.0 in
    show_pins_lem page_size (hw_pins info) regs amx.pins [] found.1 found.4
      (omega (arith, big, found.1, found.6))
