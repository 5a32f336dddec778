-- ===== src/Hwh/Consumers.antt =====
-- `emit_consumers` of tools/hwh_aximux_dt.py: the pin groups of the legacy fragment's consumers.
pub mod Pins
pub mod Cells
use aximux.Prelude.{
  ℕ, List, [], ◌∷◌, ◌++◌, Option, none, some, Bool, true, false, ◌==◌, if◌then◌else◌, map, concat,
  concat_map, contains, leb, nat_eq, text_eq, any,
}
use aximux.Prelude.Dict
use aximux.Prelude.Dict.{Dict}
use aximux.Prelude.Sort.{sort_by}
use aximux.Text.{Text, codes, join, before_first, before_last, text_le}
use aximux.Text.Decimal.{str}
use aximux.Text.Patterns.{sanitize}
use aximux.Hwh.Model.{Slot, Pin, Mux, Naming}
use aximux.Hwh.Naming.{Regex, is_noise, inst_of, apply_naming, naming_raises, unless, link_label}
use aximux.Hwh.Emit.Pinctrl2.{by_name}

abbrev pub consumers_header : List Text
consumers_header =
    codes "/* SPDX-License-Identifier: GPL-2.0-only */"
    ∷ codes "/* AUTO-GENERATED consumer pin groups from HWH (legacy aximux groups). */"
    ∷ []
    ∷ []

-- `{group_key: [pin, …]}`
abbrev pub KeyPins : Type 0
KeyPins = Dict Text (List ℕ)

-- `{mux_inst: {group_key: [pin, …]}}`
abbrev pub MuxPins : Type 0
MuxPins = Dict Text KeyPins

abbrev pub pins_or_empty : Option (List ℕ) → List ℕ
pins_or_empty none = []
pins_or_empty (some l) = l

abbrev pub keys_or_empty : Option KeyPins → KeyPins
keys_or_empty none = []
keys_or_empty (some d) = d

-- `by_mux[inst][key].append(i)`
unfoldable pub append_pin : Text → Text → ℕ → MuxPins → MuxPins
unfolding Dict.alter text_eq
append_pin inst key i =
    Dict.alter inst (λ old. Dict.alter key (λ l. pins_or_empty l ++ (i ∷ [])) (keys_or_empty old))

-- `sorted(set(pins))`
unfoldable pub pin_set : List ℕ → List ℕ
unfolding nat_eq
pin_set [] = []
pin_set (i ∷ pins) = let rest = pin_set pins in if contains rest i then rest else i ∷ rest

unfoldable pub pin_cells : List ℕ → List ℕ
unfolding pin_set sort_by
pin_cells pins = sort_by leb (pin_set pins)

unfoldable pub key_lines : Text × List ℕ → List Text
unfolding pin_cells join str
key_lines (key, pins) =
    let gname = sanitize key in
    concat (codes "  " ∷ gname ∷ codes " {" ∷ [])
    ∷ concat (codes "    pinctrl_" ∷ gname ∷ codes ": " ∷ gname ∷ codes "group1 {" ∷ [])
    ∷ concat
        (codes "      pins = <" ∷ join (codes " ") (map str (pin_cells pins)) ∷ codes ">;" ∷ [])
    ∷ codes "    };"
    ∷ codes "  };"
    ∷ []

unfoldable pub mux_pin_lines : Text × KeyPins → List Text
unfolding key_lines sort_by text_le
mux_pin_lines (inst, groups) =
    (concat (codes "&" ∷ inst ∷ codes " {" ∷ []) ∷ [])
    ++ (concat_map key_lines (sort_by by_name groups) ++ (codes "};" ∷ [] ∷ []))

module _ (re : Regex) (naming : Naming) where
  -- The body of the innermost loop.
  unfoldable pub consume_label : Mux → ℕ → Option Text → MuxPins → MuxPins
  unfolding append_pin is_noise apply_naming before_first before_last
  consume_label mux i none acc = acc
  consume_label mux i (some raw) acc =
      if is_noise (inst_of raw)
      then acc
      else append_pin mux.inst (before_last b'.' (apply_naming re (some raw) i 1 naming mux.inst)) i
          acc

  unfoldable pub consume_slot : Mux → ℕ → Slot → MuxPins → MuxPins
  unfolding consume_label
  consume_slot mux i s acc =
      if s.alt == 1 then consume_label mux i (link_label s.incoming_link) acc else acc

  unfoldable pub consume_slots : Mux → ℕ → List Slot → MuxPins → MuxPins
  unfolding consume_slot
  consume_slots mux i [] acc = acc
  consume_slots mux i (s ∷ slots) acc = consume_slots mux i slots (consume_slot mux i s acc)

  unfoldable pub consume_pins : Mux → List Pin → MuxPins → MuxPins
  unfolding consume_slots
  consume_pins mux [] acc = acc
  consume_pins mux (p ∷ pins) acc = consume_pins mux pins (consume_slots mux p.index p.alts acc)

  unfoldable pub consume_muxes : List Mux → MuxPins → MuxPins
  unfolding consume_pins
  consume_muxes [] acc = acc
  consume_muxes (mux ∷ muxes) acc = consume_muxes muxes (consume_pins mux mux.pins acc)

  -- The naming of a slot that is not passed over raises, and so does the loop; what it collects else is
  -- what the functions above collect.
  unfoldable pub consumer_raises : Slot → Bool
  unfolding is_noise before_first naming_raises
  consumer_raises s =
      if s.alt == 1
      then elim (link_label s.incoming_link) [
        | none ↦ false
        | some raw ↦ if is_noise (inst_of raw) then false else naming_raises re (some raw) naming
      ]
      else false

  unfoldable pub emit_consumers : List Mux → Option Text
  unfolding consumer_raises consume_muxes mux_pin_lines sort_by text_le join
  emit_consumers muxes =
      unless (any (λ (mux : Mux). any (λ (p : Pin). any consumer_raises p.alts) mux.pins) muxes) (
        join (codes "\n")
          (consumers_header ++ concat_map mux_pin_lines (sort_by by_name (consume_muxes muxes []))))
