-- ===== src/Driver/SetMux.antt =====
-- What `aximux_set_mux` of driver/aximux.c changes in the registers.
use aximux.Prelude.{
  ℕ, ◌+◌, ◌*◌, ◌/◌, ◌%◌, ◌^◌, ◌≤◌, ◌<◌, List, [], ◌∷◌, Option, none, some, true, false, ◌||◌, ◌&&◌,
  not, ltb, ◌==◌, if◌then◌else◌, ◌≡◌, refl, ◌∙◌, ap, arith, length, All, find_first, same, text_eq,
  Bool-cases, inl, inr,
}
use aximux.Device
use aximux.Device.{AximuxState, is_pin}
use aximux.Driver.Registers.{IsSound, read-write_reg, if_own, write_reg-IsSound, write_reg-npins}
use aximux.Driver.{
  aximux_reg, read_reg, aximux_set_src, AximuxGroup, FunctionGroup, Code, ok, einval, set_pins,
  aximux_set_mux,
}

-- The value that `aximux_set_src` writes.
abbrev new_val : ℕ → ℕ → ℕ
new_val val src = val / 2 ^ 4 * 2 ^ 4 + src % 2 ^ 4

new_val_lem :
    (val src : ℕ)
    → val < 2 ^ 32
    → (new_val val src < 2 ^ 32)
      × (new_val val src / 2 ^ 4 ≡ val / 2 ^ 4)
      × (new_val val src % 2 ^ 4 ≡ src % 2 ^ 4)
new_val_lem val src h = (omega arith, omega arith, omega arith)

read-set_src :
    (regs : AximuxState) (pin src q : ℕ)
    → IsSound regs
    → read_reg (aximux_set_src regs pin src) q ≡ (
        if is_pin regs (aximux_reg pin) && (pin == q)
        then new_val (read_reg regs q) src
        else read_reg regs q)
unfolding aximux_set_src
read-set_src regs pin src q s =
    let small = (new_val_lem (read_reg regs pin) src (s.1 pin)).0 in
    read-write_reg regs pin (new_val (read_reg regs pin) src) q s small
    ∙ if_own regs (is_pin regs (aximux_reg pin)) pin q (λ val. new_val val src)

set_src-IsSound :
    (regs : AximuxState) (pin src : ℕ) → IsSound regs → IsSound (aximux_set_src regs pin src)
unfolding aximux_set_src
set_src-IsSound regs pin src s =
    write_reg-IsSound regs pin (new_val (read_reg regs pin) src) s
      (new_val_lem (read_reg regs pin) src (s.1 pin)).0

set_src-npins :
    (regs : AximuxState) (pin src : ℕ) → (aximux_set_src regs pin src).npins ≡ regs.npins
unfolding aximux_set_src
set_src-npins regs pin src = write_reg-npins regs pin (new_val (read_reg regs pin) src)

-- The source that a loop over pins and sources leaves at a pin: the last one that it writes there.
abbrev pub last_src : ℕ → List ℕ → List ℕ → ℕ → ℕ
last_src q [] srcs old = old
last_src q (pin ∷ pins) [] old = old
last_src q (pin ∷ pins) (src ∷ srcs) old = last_src q pins srcs (if pin == q then src else old)

-- The control bits of a pin, and its source.
abbrev pub control : AximuxState → ℕ → ℕ
control regs q = read_reg regs q / 2 ^ 4

abbrev pub source : AximuxState → ℕ → ℕ
source regs q = read_reg regs q % 2 ^ 4

control-set_pins :
    (nalts : ℕ) (pins srcs : List ℕ) (regs : AximuxState) (q : ℕ)
    → IsSound regs
    → control (set_pins nalts pins srcs regs).0 q ≡ control regs q
unfolding set_pins
control-set_pins nalts [] srcs regs q s = refl
control-set_pins nalts (pin ∷ pins) [] regs q s = refl
control-set_pins nalts (pin ∷ pins) (src ∷ srcs) regs q s =
    elim (Bool-cases (not (ltb pin Device.max_pins) || ltb nalts src)) [
      | inl e ↦ rw (e) refl
      | inr e ↦ rw (e) (
          control-set_pins nalts pins srcs (aximux_set_src regs pin src) q
            (set_src-IsSound regs pin src s)
          ∙ ground
              (arith, read-set_src regs pin src q s, (new_val_lem (read_reg regs q) src (s.1 q)).1))
    ]

source-set_src :
    (regs : AximuxState) (pin src q : ℕ)
    → IsSound regs
    → q < regs.npins
    → src ≤ 15
    → source (aximux_set_src regs pin src) q ≡ (if pin == q then src else source regs q)
source-set_src regs pin src q s below small =
    let limit : regs.npins ≤ 32 = s.0.1 in
    ground (arith, read-set_src regs pin src q s, (new_val_lem (read_reg regs q) src (s.1 q)).2)

set_pins_ok :
    (nalts : ℕ) (pins srcs : List ℕ) (regs : AximuxState)
    → IsSound regs
    → nalts ≤ 15
    → length srcs ≡ length pins
    → All (λ pin. pin < 32) pins
    → All (λ src. src ≤ nalts) srcs
    → ((set_pins nalts pins srcs regs).1 ≡ ok)
      × ((q : ℕ)
          → q < regs.npins
          → source (set_pins nalts pins srcs regs).0 q ≡ last_src q pins srcs (source regs q))
unfolding set_pins
set_pins_ok nalts [] srcs regs s n l p a = (refl, λ q below. refl)
set_pins_ok nalts (pin ∷ pins) [] regs s n l p a = absurd (omega arith)
set_pins_ok nalts (pin ∷ pins) (src ∷ srcs) regs s n l p a =
    let next = aximux_set_src regs pin src in
    let good : (not (ltb pin Device.max_pins) || ltb nalts src) ≡ false =
      ground (arith, p.0, a.0) in
    let (code, sources) =
      set_pins_ok nalts pins srcs next (set_src-IsSound regs pin src s) n (omega arith) p.1 a.1 in
    rw (good) (
      code,
      λ q below.
          sources q (omega (arith, set_src-npins regs pin src, below))
          ∙ ap (last_src q pins srcs)
              (source-set_src regs pin src q s below (omega (arith, a.0, n))),
    )

-- The group of a function that `aximux_set_mux` finds.
abbrev pub group_of : AximuxGroup → List FunctionGroup → Option FunctionGroup
group_of grp groups = find_first (λ (g : FunctionGroup). same g.name grp.name) groups

abbrev pub outcome : ℕ → AximuxGroup → AximuxState → Option FunctionGroup → AximuxState × Code
outcome nalts grp regs none = (regs, einval)
outcome nalts grp regs (some g) =
    if length g.mux_vals == length grp.pins
    then set_pins nalts grp.pins g.mux_vals regs
    else (regs, einval)

-- On a sound device, whatever the function, the group and the outcome, early returns included,
-- `aximux_set_mux` changes no bit above the source field of any register.
pub control-aximux_set_mux :
    (nalts : ℕ) (groups : List FunctionGroup) (grp : AximuxGroup) (regs : AximuxState) (q : ℕ)
    → IsSound regs
    → control (aximux_set_mux nalts groups grp regs).0 q ≡ control regs q
unfolding aximux_set_mux
control-aximux_set_mux nalts groups grp regs q s = go (group_of grp groups)
  where
    go : (o : Option FunctionGroup) → control (outcome nalts grp regs o).0 q ≡ control regs q
    go none = refl
    go (some g) = elim (Bool-cases (length g.mux_vals == length grp.pins)) [
      | inl e ↦ rw (e) (control-set_pins nalts grp.pins g.mux_vals regs q s)
      | inr e ↦ rw (e) refl
    ]

set_mux_found :
    (nalts : ℕ) (groups : List FunctionGroup) (grp : AximuxGroup) (regs : AximuxState)
    (g : FunctionGroup)
    → group_of grp groups ≡ some g
    → (length g.mux_vals == length grp.pins) ≡ true
    → aximux_set_mux nalts groups grp regs ≡ set_pins nalts grp.pins g.mux_vals regs
unfolding aximux_set_mux
set_mux_found nalts groups grp regs g found e = ap (outcome nalts grp regs) found ∙ rw (e) refl

-- On a sound device with at most 15 alternates, where the function has the group, with one source
-- for each of its pins, where every pin is below 32 and every source at most the number of
-- alternates, `aximux_set_mux` returns 0, and afterwards the source field of every pin of the device
-- is the last source that the function has for it in the group, or what it was for a pin that is
-- not in the group.
pub aximux_set_mux_ok :
    (nalts : ℕ) (groups : List FunctionGroup) (grp : AximuxGroup) (regs : AximuxState)
    (g : FunctionGroup)
    → IsSound regs
    → nalts ≤ 15
    → group_of grp groups ≡ some g
    → length g.mux_vals ≡ length grp.pins
    → All (λ pin. pin < 32) grp.pins
    → All (λ src. src ≤ nalts) g.mux_vals
    → ((aximux_set_mux nalts groups grp regs).1 ≡ ok)
      × ((q : ℕ)
          → q < regs.npins
          → source (aximux_set_mux nalts groups grp regs).0 q
            ≡ last_src q grp.pins g.mux_vals (source regs q))
aximux_set_mux_ok nalts groups grp regs g s n found l p a =
    let e : (length g.mux_vals == length grp.pins) ≡ true = ground arith in
    rw (set_mux_found nalts groups grp regs g found e)
      (set_pins_ok nalts grp.pins g.mux_vals regs s n l p a)
