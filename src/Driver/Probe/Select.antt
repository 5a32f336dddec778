-- ===== src/Driver/Probe/Select.antt =====
-- A function that a pin lists, selected on the pin's group after probing.
use aximux.Prelude.{
  ℕ, ◌≤◌, ◌<◌, List, [], ◌∷◌, ◌++◌, some, ◌≡◌, refl, sym, ap, ◌∙◌, ◌≢◌, arith, All, text_eq,
  concat_map, map, if◌then◌else◌, ◌==◌, subst,
}
use aximux.Prelude.Nodup.{Nodup, All-both, All-of_map, All-to_map}
use mathlib.Core.Option.{some-injective}
use aximux.Prelude.Dict
use aximux.Text.{Text, codes, strip_prefix, strip_prefix-append}
use aximux.Text.Decimal.{str, str-injective}
use aximux.Device.{AximuxState}
use aximux.Driver.{FunctionGroup, aximux_set_mux, ok}
use aximux.Driver.Registers.{IsSound}
use aximux.Driver.SetMux.{source, aximux_set_mux_ok}
use aximux.Driver.Nodes.{Node, ret, AximuxPin, Aximux, or_default}
use aximux.Driver.Probe.{
  pin_name, default_group, hw_pins, aximux_parse_pins, aximux_build_default_groups,
  aximux_parse_extra_groups, aximux_tables,
}
use aximux.Driver.Probe.Entries.{groups_of, entries_of, groups-add_default_functions}
use aximux.Driver.Probe.Pins.{>>=-eq-ret, ret-injective, IsPin, Found, aximux_parse_pins_lem}
use aximux.Driver.Probe.Extra.{parse_extra-Extends}
use aximux.Driver.Probe.Listed.{
  index_of, found, entry, name_of, number_of, IsListed, entries-IsListed, found-append_some,
}

pin_name-injective : (m n : ℕ) → pin_name m ≡ pin_name n → m ≡ n
unfolding pin_name
pin_name-injective m n p =
    let q : some (str m) ≡ some (str n) =
      sym (strip_prefix-append (codes "pin") (str m))
      ∙ ap (strip_prefix (codes "pin")) p
      ∙ strip_prefix-append (codes "pin") (str n) in
    str-injective m n (some-injective _ _ q)

-- Pins with different numbers have different names.
names-Nodup :
    (hw : ℕ) (pins : List AximuxPin)
    → All (IsPin hw) pins
    → Nodup (map number_of pins)
    → Nodup (map name_of pins)
names-Nodup hw [] good u = tt
names-Nodup hw (p ∷ pins) good u = (
  All-to_map (λ n. p.name ≢ n) name_of pins
      (All-both {P = IsPin hw} {Q = λ q. p.number ≢ q.number}
        (λ q (h : IsPin hw q) (n : p.number ≢ q.number) (e : p.name ≡ q.name).
          n (pin_name-injective p.number q.number (sym good.0.1 ∙ e ∙ h.1)))
        pins good.1 (All-of_map (λ n. p.number ≢ n) number_of pins u.0)),
  names-Nodup hw pins good.1 u.1,
)

-- What `aximux_tables` leaves, in terms of its parts.
unfoldable pub IsBuilt : ℕ → List Node → Aximux → Type 0
IsBuilt info children amx =
    Found info children (amx.nalts, amx.pins)
    × (aximux_parse_extra_groups amx.pins children (aximux_build_default_groups amx.pins)
        ≡ ret (amx.groups, amx.functions))

pub aximux_tables-IsBuilt :
    (info : ℕ) (children : List Node) (amx : Aximux)
    → aximux_tables info children ≡ ret amx
    → IsBuilt info children amx
unfolding aximux_tables IsBuilt
aximux_tables-IsBuilt info children amx h =
    let ((nalts, pins), hp, h') = >>=-eq-ret (aximux_parse_pins info children) _ h in
    let ((groups, functions), he, done) =
      >>=-eq-ret (aximux_parse_extra_groups pins children (aximux_build_default_groups pins)) _
        h' in
    subst (IsBuilt info children) (ret-injective done)
      (aximux_parse_pins_lem info children (nalts, pins) hp, he)

-- The groups of a function, in the tables: those that the pins list, and the extra ones after them.
groups-IsBuilt :
    (name : Text) (info : ℕ) (children : List Node) (amx : Aximux)
    → IsBuilt info children amx
    → (more : List FunctionGroup) × (groups_of name amx.functions
        ≡ concat_map (entries_of name) amx.pins ++ more)
unfolding IsBuilt aximux_build_default_groups
groups-IsBuilt name info children amx (_, added) =
    let (more, e) =
      (parse_extra-Extends amx.pins children (aximux_build_default_groups amx.pins)
          (amx.groups, amx.functions) added).1
        name in
    (
      more,
      e
          ∙ ap (λ l. l ++ more)
              (groups-add_default_functions name amx.pins []
                ∙ ap (λ o. or_default [] o ++ concat_map (entries_of name) amx.pins)
                    (Dict.lookup-nil name)),
    )

-- What selecting the function of a name on the group of a pin does, where the pin lists it first at
-- place `f`.
abbrev pub Selects : Text → Aximux → AximuxState → AximuxPin → Type 0
Selects name amx regs p =
    (f : ℕ)
    → index_of name p.func_names ≡ some f
    → f ≤ amx.nalts
    → ((aximux_set_mux amx.nalts (groups_of name amx.functions) (default_group p) regs).1 ≡ ok)
      × ((q : ℕ)
          → q < regs.npins
          → source
              (aximux_set_mux amx.nalts (groups_of name amx.functions) (default_group p) regs).0 q
            ≡ (if p.number == q then f else source regs q))

Selects-one :
    (name : Text) (info : ℕ) (children : List Node) (amx : Aximux) (regs : AximuxState)
    → IsSound regs
    → IsBuilt info children amx
    → (p : AximuxPin) → IsPin (hw_pins info) p
    → IsListed name (concat_map (entries_of name) amx.pins) p
    → Selects name amx regs p
Selects-one name info children amx regs s b p good listed f h l =
    let (more, e) = groups-IsBuilt name info children amx b in
    let bounds : Found info children (amx.nalts, amx.pins) = unfold IsBuilt in b.0 in
    let below : p.number < 32 = omega (arith, good.0, bounds.1) in
    aximux_set_mux_ok amx.nalts (groups_of name amx.functions) (default_group p) regs
      (entry p.name f) s bounds.3
      (ap (found p.name) e
        ∙ found-append_some p.name (concat_map (entries_of name) amx.pins) more (listed f h))
      refl (below, tt) (l, tt)

-- After probing with pins of different numbers, on a sound device: a function that a pin lists can be
-- selected on the pin's own group, whatever else the tree adds; this returns 0, programs the pin's
-- source to the function's place in the pin's list, provided that the hardware has that alternate,
-- and leaves the sources of all other pins.
pub aximux_tables-Selects :
    (name : Text) (info : ℕ) (children : List Node) (amx : Aximux) (regs : AximuxState)
    → aximux_tables info children ≡ ret amx
    → Nodup (map number_of amx.pins)
    → IsSound regs
    → All (Selects name amx regs) amx.pins
aximux_tables-Selects name info children amx regs h u s =
    let b = aximux_tables-IsBuilt info children amx h in
    let bounds : Found info children (amx.nalts, amx.pins) = unfold IsBuilt in b.0 in
    All-both {P = IsPin (hw_pins info)} {Q = IsListed name (concat_map (entries_of name) amx.pins)}
      (λ p good listed. Selects-one name info children amx regs s b p good listed) amx.pins bounds.4
      (entries-IsListed name amx.pins (names-Nodup (hw_pins info) amx.pins bounds.4 u))
