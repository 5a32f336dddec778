-- ===== src/Hwh/Groups.antt =====
-- `collect_pinctrl2_groups` of tools/hwh_aximux_dt.py, and the groups of `emit_consumers`.
pub mod Entries
pub mod Noise
use aximux.Prelude.{
  ℕ, List, [], ◌∷◌, ◌++◌, Option, none, some, Bool, true, false, ◌||◌, ◌==◌, if◌then◌else◌, same,
  contains, nat_eq, text_eq, any,
}
use aximux.Prelude.Dict
use aximux.Prelude.Dict.{Dict}
use aximux.Text.{Text, before_first, before_last}
use aximux.Text.Patterns.{sanitize}
use aximux.Hwh.Model.{Slot, Pin, Mux, Naming}
use aximux.Hwh.Naming.{Regex, is_noise, inst_of, apply_naming, naming_raises, link_label}

-- `{"entries": [(pin, alt)], "consumers": set}`; a set is a list without repetition.
pub record Group : Type 0 where
  pub entries : List (ℕ × ℕ)
  pub consumers : List Text

abbrev pub Groups : Type 0
Groups = Dict Text Group

-- `s.add(a)`
unfoldable pub add_once : Text → List Text → List Text
unfolding text_eq
add_once a s = if contains s a then s else s ++ (a ∷ [])

abbrev add_label : Text → List Text → List Text
add_label [] s = s
add_label (c ∷ t) s = add_once (c ∷ t) s

-- `raw`: the incoming label or else the outgoing one.
abbrev pub raw_label : Slot → Option Text
raw_label s = elim (link_label s.incoming_link) [
  | some l ↦ some l
  | none ↦ link_label s.outgoing_link
]

-- The group of a name: what stands in front of its last dot, as an identifier.
abbrev pub group_name : Text → Text
group_name nice = sanitize (before_last b'.' nice)

unfoldable pub add_entry : ℕ × ℕ → Text → Option Group → Group
unfolding add_once
add_entry e dt_label none = record { entries = e ∷ []; consumers = add_label dt_label [] }
add_entry e dt_label (some g) = record {
  entries = g.entries ++ (e ∷ []);
  consumers = add_label dt_label g.consumers;
}

module _ (re : Regex) (naming : Naming) (mux_inst : Text) where
  -- The body of the inner loop, from its two tests on.
  unfoldable pub add_raw : ℕ → ℕ → Text → Groups → Groups
  unfolding is_noise before_first before_last apply_naming add_entry Dict.alter Dict.lookup text_eq
  add_raw pin_i a raw groups =
      if is_noise (inst_of raw)
      then groups
      else Dict.alter (group_name (apply_naming re (some raw) pin_i a naming mux_inst))
          (add_entry (pin_i, a) (Dict.get_or (inst_of raw) (inst_of raw) naming.consumer_labels))
          groups

  unfoldable pub add_slot : ℕ → Slot → Groups → Groups
  unfolding add_raw
  add_slot pin_i s groups =
      if s.alt == 0
      then groups
      else elim (raw_label s) [ none ↦ groups | some raw ↦ add_raw pin_i s.alt raw groups ]

  unfoldable pub add_slots : ℕ → List Slot → Groups → Groups
  unfolding add_slot
  add_slots pin_i [] groups = groups
  add_slots pin_i (s ∷ slots) groups = add_slots pin_i slots (add_slot pin_i s groups)

  unfoldable pub add_pins : List Pin → Groups → Groups
  unfolding add_slots
  add_pins [] groups = groups
  add_pins (p ∷ pins) groups = add_pins pins (add_slots p.index p.alts groups)

unfoldable pub collect_pinctrl2_groups : Regex → Naming → Mux → Groups
unfolding add_pins
collect_pinctrl2_groups re naming mux = add_pins re naming mux.inst mux.pins []

module _ (re : Regex) (naming : Naming) where
  -- The naming of a slot that is not passed over raises.
  unfoldable pub slot_raises : Slot → Bool
  unfolding is_noise before_first naming_raises
  slot_raises s = if s.alt == 0 then false else elim (raw_label s) [
    | none ↦ false
    | some raw ↦ if is_noise (inst_of raw) then false else naming_raises re (some raw) naming
  ]

  -- `collect_pinctrl2_groups` raises; what it returns else is `collect_pinctrl2_groups` above.
  unfoldable pub groups_raise : Mux → Bool
  unfolding slot_raises
  groups_raise mux = any (λ (p : Pin). any slot_raises p.alts) mux.pins
