-- ===== src/Driver/Runs/Kept.antt =====
-- What every call of driver/aximux.c keeps of the registers.
use aximux.Prelude.{
  ℕ, ◌+◌, ◌*◌, ◌/◌, ◌%◌, ◌^◌, ◌≤◌, ◌<◌, List, [], ◌∷◌, Option, none, some, Bool, true, false, ◌||◌,
  ◌&&◌, not, ltb, ◌==◌, if◌then◌else◌, ◌≡◌, ◌∙◌, sym, subst, arith, length, Bool-cases,
  Option-cases, inl, inr,
}
use aximux.Device
use aximux.Device.{AximuxState, is_pin}
use aximux.Driver.{
  aximux_reg, read_reg, write_reg, aximux_set_src, set_pins, aximux_set_mux, AximuxGroup,
  FunctionGroup, Code, ok, einval, enodata, enotsupp,
}
use aximux.Driver.Registers.{IsSound, read-write_reg, write_reg-IsSound, write_reg-npins}
use aximux.Driver.SetMux.{group_of, outcome}
use aximux.Driver.Conf.{
  Packing, Setting, short, dir_sw, dir_out, put_bit, setting_of, bit_of, aximux_pinconf_set,
  set_group, aximux_pinconf_group_set,
}
use aximux.Driver.Conf.Bits.{put_bit_rest}
use aximux.Driver.Conf.SetGet.{pinconf_set-cons, pinconf_set-unknown, bit_of_bound}

-- The source is one of the alternates, and the bits that have no meaning are 0.
abbrev pub IsClean : ℕ → ℕ → Type 0
IsClean nalts val = (val % 2 ^ 4 ≤ nalts) × (val / 2 ^ 4 % 2 ≡ 0) × (val < 2 ^ 8)

-- The device is sound, with its size and its MUXINFO, and the registers of its pins are clean.
abbrev pub IsKept : ℕ → ℕ → ℕ → AximuxState → Type 0
IsKept nalts npins muxinfo regs =
    IsSound regs
    × (regs.npins ≡ npins)
    × (regs.muxinfo ≡ muxinfo)
    × ((q : ℕ) → q < npins → IsClean nalts (read_reg regs q))

write_reg-muxinfo :
    (regs : AximuxState) (pin val : ℕ) → (write_reg regs pin val).muxinfo ≡ regs.muxinfo
unfolding write_reg Device.aximux_write
write_reg-muxinfo regs pin val = ground arith

set_src-IsClean :
    (nalts val src : ℕ)
    → nalts ≤ 15
    → src ≤ nalts
    → IsClean nalts val
    → IsClean nalts (val / 2 ^ 4 * 2 ^ 4 + src % 2 ^ 4)
set_src-IsClean nalts val src n l c = (omega arith, omega arith, omega arith)

put_bit-IsClean :
    (nalts val : ℕ) (s : Setting) (b : ℕ)
    → b ≤ 1
    → IsClean nalts val
    → IsClean nalts (put_bit s b val)
put_bit-IsClean nalts val short b h c = (omega arith, omega arith, omega arith)
put_bit-IsClean nalts val dir_sw b h c = (omega arith, omega arith, omega arith)
put_bit-IsClean nalts val dir_out b h c = (omega arith, omega arith, omega arith)

module _ (nalts npins muxinfo : ℕ) where
  write_reg-IsKept :
      (regs : AximuxState) (pin val : ℕ)
      → IsKept nalts npins muxinfo regs
      → val < 2 ^ 32
      → (pin < npins → IsClean nalts val)
      → IsKept nalts npins muxinfo (write_reg regs pin val)
  write_reg-IsKept regs pin val (s, n, i, clean) small h = (
    write_reg-IsSound regs pin val s small,
    write_reg-npins regs pin val ∙ n,
    write_reg-muxinfo regs pin val ∙ i,
    λ q below.
        subst (IsClean nalts) (sym (read-write_reg regs pin val q s small))
          (chosen q below (is_pin regs (aximux_reg pin))),
  )
    where
      chosen :
          (q : ℕ)
          → q < npins
          → (b : Bool) → IsClean nalts (if b && (pin == q) then val else read_reg regs q)
      chosen q below false = clean q below
      chosen q below true = elim (Bool-cases (pin == q)) [
        | inl e ↦ let own : pin < npins = ground arith in rw (e) (h own)
        | inr e ↦ rw (e) (clean q below)
      ]

  set_src-IsKept :
      (regs : AximuxState) (pin src : ℕ)
      → nalts ≤ 15
      → src ≤ nalts
      → IsKept nalts npins muxinfo regs
      → IsKept nalts npins muxinfo (aximux_set_src regs pin src)
  unfolding aximux_set_src
  set_src-IsKept regs pin src n l k =
      write_reg-IsKept regs pin _ k (let w = k.0.1 pin in omega arith)
        (λ below. set_src-IsClean nalts (read_reg regs pin) src n l (k.3 pin below))

  set_pins-IsKept :
      (pins srcs : List ℕ) (regs : AximuxState)
      → nalts ≤ 15
      → IsKept nalts npins muxinfo regs
      → IsKept nalts npins muxinfo (set_pins nalts pins srcs regs).0
  unfolding set_pins
  set_pins-IsKept [] srcs regs n k = k
  set_pins-IsKept (pin ∷ pins) [] regs n k = k
  set_pins-IsKept (pin ∷ pins) (src ∷ srcs) regs n k =
      elim (Bool-cases (not (ltb pin Device.max_pins) || ltb nalts src)) [
        | inl e ↦ rw (e) k
        | inr e ↦ rw (e) (
            set_pins-IsKept pins srcs (aximux_set_src regs pin src) n
              (set_src-IsKept regs pin src n (ground arith) k))
      ]

  pub set_mux-IsKept :
      (groups : List FunctionGroup) (grp : AximuxGroup) (regs : AximuxState)
      → nalts ≤ 15
      → IsKept nalts npins muxinfo regs
      → IsKept nalts npins muxinfo (aximux_set_mux nalts groups grp regs).0
  unfolding aximux_set_mux
  set_mux-IsKept groups grp regs n k = go (group_of grp groups)
    where
      go : (o : Option FunctionGroup) → IsKept nalts npins muxinfo (outcome nalts grp regs o).0
      go none = k
      go (some g) = elim (Bool-cases (length g.mux_vals == length grp.pins)) [
        | inl e ↦ rw (e) (set_pins-IsKept grp.pins g.mux_vals regs n k)
        | inr e ↦ rw (e) k
      ]

  module _ (p : Packing) where
    pub pinconf_set-IsKept :
        (pin : ℕ) (configs : List ℕ) (regs : AximuxState)
        → IsKept nalts npins muxinfo regs
        → IsKept nalts npins muxinfo (aximux_pinconf_set p pin configs regs).0
    pinconf_set-IsKept pin [] regs k = unfold aximux_pinconf_set in k
    pinconf_set-IsKept pin (c ∷ cs) regs k = elim (Option-cases (setting_of p (p.config_param c))) [
      | inl e ↦ rw (pinconf_set-unknown p pin c cs regs e) k
      | inr (s, e) ↦
          let b : bit_of p c ≤ 1 = bit_of_bound p c in
          let val = put_bit s (bit_of p c) (read_reg regs pin) in
          rw (pinconf_set-cons p pin c cs regs e) (
            pinconf_set-IsKept pin cs (write_reg regs pin val) (
              write_reg-IsKept regs pin val k
                (put_bit_rest s (bit_of p c) (read_reg regs pin) b (k.0.1 pin)).2
                (λ below.
                  put_bit-IsClean nalts (read_reg regs pin) s (bit_of p c) b (k.3 pin below))))
    ]

    after :
        (configs pins : List ℕ) (r : AximuxState × Code)
        → IsKept nalts npins muxinfo r.0
        → IsKept nalts npins muxinfo (set_group p configs pins r.0).0
        → IsKept nalts npins muxinfo
            (elim r.1 as (λ code. AximuxState × Code) [
              | ok ↦ set_group p configs pins r.0
              | einval ↦ (r.0, einval)
              | enodata ↦ (r.0, enodata)
              | enotsupp ↦ (r.0, enotsupp)
            ]).0
    after configs pins (regs, ok) k rest = rest
    after configs pins (regs, einval) k rest = k
    after configs pins (regs, enodata) k rest = k
    after configs pins (regs, enotsupp) k rest = k

    set_group-IsKept :
        (configs pins : List ℕ) (regs : AximuxState)
        → IsKept nalts npins muxinfo regs
        → IsKept nalts npins muxinfo (set_group p configs pins regs).0
    unfolding set_group
    set_group-IsKept configs [] regs k = k
    set_group-IsKept configs (pin ∷ pins) regs k =
        let kept = pinconf_set-IsKept pin configs regs k in
        after configs pins (aximux_pinconf_set p pin configs regs) kept
          (set_group-IsKept configs pins (aximux_pinconf_set p pin configs regs).0 kept)

    pub pinconf_group_set-IsKept :
        (grp : AximuxGroup) (configs : List ℕ) (regs : AximuxState)
        → IsKept nalts npins muxinfo regs
        → IsKept nalts npins muxinfo (aximux_pinconf_group_set p grp configs regs).0
    unfolding aximux_pinconf_group_set
    pinconf_group_set-IsKept grp configs regs k = set_group-IsKept configs grp.pins regs k
