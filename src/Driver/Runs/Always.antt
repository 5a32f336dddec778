-- ===== src/Driver/Runs/Always.antt =====
-- The registers after any calls into driver/aximux.c, from a fresh device of sim/qemu/hw/aximux.c on.
use aximux.Prelude.{
  ℕ, ◌/◌, ◌^◌, ◌≤◌, ◌<◌, List, Bool-cases, inl, inr, ◌==◌, ◌≡◌, refl, ◌∙◌, subst, arith,
}
use aximux.Device.{AximuxState, ready, aximux_realize, aximux_read, muxinfo_reg}
use aximux.Device.Realize.{Outcome, InRange, aximux_realize_lem}
use aximux.Driver.{read_reg, aximux_reg}
use aximux.Driver.Nodes.{Node, ret, Aximux}
use aximux.Driver.Conf.{Packing}
use aximux.Driver.Probe.{alts_of, aximux_tables}
use aximux.Driver.Probe.Select.{IsBuilt, aximux_tables-IsBuilt}
use aximux.Driver.Probe.Pins.{Found}
use aximux.Driver.Runs.{Call, Reach, set_mux, pinconf_set, pinconf_group_set, here, next}
use aximux.Driver.Runs.Kept.{
  IsClean, IsKept, set_mux-IsKept, pinconf_set-IsKept, pinconf_group_set-IsKept,
}

Call-IsKept :
    (k : Packing) (nalts npins muxinfo : ℕ) {regs regs' : AximuxState}
    → nalts ≤ 15
    → Call k nalts regs regs'
    → IsKept nalts npins muxinfo regs
    → IsKept nalts npins muxinfo regs'
Call-IsKept k nalts npins muxinfo n (set_mux groups grp regs) kept =
    set_mux-IsKept nalts npins muxinfo groups grp regs n kept
Call-IsKept k nalts npins muxinfo n (pinconf_set pin configs regs) kept =
    pinconf_set-IsKept nalts npins muxinfo k pin configs regs kept
Call-IsKept k nalts npins muxinfo n (pinconf_group_set grp configs regs) kept =
    pinconf_group_set-IsKept nalts npins muxinfo k grp configs regs kept

Reach-IsKept :
    (k : Packing) (nalts npins muxinfo : ℕ) {start regs : AximuxState}
    → nalts ≤ 15
    → IsKept nalts npins muxinfo start
    → Reach k nalts start regs
    → IsKept nalts npins muxinfo regs
Reach-IsKept k nalts npins muxinfo n kept here = kept
Reach-IsKept k nalts npins muxinfo n kept (next r s) =
    Call-IsKept k nalts npins muxinfo n s (Reach-IsKept k nalts npins muxinfo n kept r)

fresh-IsKept :
    (npins nalts alts : ℕ) (start : AximuxState)
    → Outcome npins nalts (ready start)
    → IsKept alts start.npins start.muxinfo start
unfolding read_reg
fresh-IsKept npins nalts alts start (r, (v, pins, above, rest)) =
    ((v, small), refl, refl, λ q below. clean q (zero_below q below))
  where
    small : (q : ℕ) → aximux_read start (aximux_reg q) 4 < 2 ^ 32
    small q = elim (Bool-cases (aximux_reg q == muxinfo_reg)) [
      | inl e ↦ let own : aximux_reg q ≡ muxinfo_reg = ground arith in rw (own) (omega arith)
      | inr e ↦ rw (rest (aximux_reg q) (λ p. ground arith)) (omega arith)
    ]

    zero_below : (q : ℕ) → q < start.npins → aximux_read start (aximux_reg q) 4 ≡ 0
    zero_below q below = rest (aximux_reg q) (λ p. let l = v.1 in omega arith)

    clean :
        (q : ℕ)
        → aximux_read start (aximux_reg q) 4 ≡ 0
        → IsClean alts (aximux_read start (aximux_reg q) 4)
    clean q e = rw (e) (omega arith, refl, omega arith)

alts_of-realized :
    (info npins nalts : ℕ) → InRange npins nalts → info / 2 ^ 8 ≡ nalts → alts_of info ≡ nalts
alts_of-realized info npins nalts r e = ground (arith, e, r)

-- What holds of the device's registers at every moment.
abbrev pub IsProgrammed : ℕ → AximuxState → AximuxState → Type 0
IsProgrammed nalts start regs =
    (aximux_read regs muxinfo_reg 4 ≡ aximux_read start muxinfo_reg 4)
    × ((q : ℕ) → q < start.npins → IsClean nalts (read_reg regs q))

-- A realized device with which the driver has probed, and then any calls of `aximux_set_mux`,
-- `aximux_pinconf_set` and `aximux_pinconf_group_set`, in any order and with any arguments, failing
-- or not: MUXINFO still reads as at the start; and in the register of every pin of the device, the
-- source is at most the number of alternates with which the device was realized, bit 4 is 0, and all
-- bits above the lowest eight are 0.
pub aximux_realize-IsProgrammed :
    (k : Packing) (npins nalts : ℕ) (start regs : AximuxState) (children : List Node) (amx : Aximux)
    → aximux_realize npins nalts ≡ ready start
    → aximux_tables (aximux_read start muxinfo_reg 4) children ≡ ret amx
    → Reach k amx.nalts start regs
    → IsProgrammed nalts start regs
unfolding aximux_read
aximux_realize-IsProgrammed k npins nalts start regs children amx h t r =
    let realized : Outcome npins nalts (ready start) =
      subst (Outcome npins nalts) h (aximux_realize_lem npins nalts) in
    let b = aximux_tables-IsBuilt (aximux_read start muxinfo_reg 4) children amx t in
    let found : Found (aximux_read start muxinfo_reg 4) children (amx.nalts, amx.pins) =
      unfold IsBuilt in b.0 in
    let same_alts : amx.nalts ≡ nalts =
      found.7 ∙ alts_of-realized start.muxinfo npins nalts realized.0 realized.1.2 in
    let (s, n, i, clean) =
      Reach-IsKept k amx.nalts start.npins start.muxinfo found.3
        (fresh-IsKept npins nalts amx.nalts start realized) r in
    (i, λ q below. subst (λ a. IsClean a (read_reg regs q)) same_alts (clean q below))
