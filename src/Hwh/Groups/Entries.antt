-- ===== src/Hwh/Groups/Entries.antt =====
-- What `collect_pinctrl2_groups` puts into each group.
use aximux.Prelude.{
  ℕ, List, [], ◌∷◌, ◌++◌, Option, none, some, Bool, true, false, ◌==◌, if◌then◌else◌, ◌≡◌, refl,
  ◌∙◌, arith, same, text_eq, append-nil, append_assoc, Bool-cases, inl, inr,
}
use aximux.Prelude.Dict
use aximux.Prelude.Dict.{Dict, keys}
use aximux.Text.{Text}
use aximux.Hwh.Model.{Slot, Pin, Mux, Naming}
use aximux.Hwh.Naming.{Regex, is_noise, inst_of, apply_naming}
use aximux.Hwh.Groups.{
  Group, Groups, add_entry, add_raw, add_slot, add_slots, add_pins, collect_pinctrl2_groups,
  raw_label, group_name,
}

-- The entries under a name; none where there is no such group.
abbrev pub entries_of : Option Group → List (ℕ × ℕ)
entries_of none = []
entries_of (some g) = g.entries

abbrev pub group_entries : Text → Groups → List (ℕ × ℕ)
group_entries name groups = entries_of (Dict.lookup name groups)

entries_of-add_entry :
    (e : ℕ × ℕ) (l : Text) (o : Option Group) → (add_entry e l o).entries ≡ entries_of o ++ (e ∷ [])
unfolding add_entry
entries_of-add_entry e l none = refl
entries_of-add_entry e l (some g) = refl

abbrev pub entry_if : Bool → ℕ × ℕ → List (ℕ × ℕ)
entry_if true e = e ∷ []
entry_if false e = []

module _ (re : Regex) (naming : Naming) (mux_inst : Text) where
  -- The group that a label puts its pin into: none for noise.
  abbrev pub label_group : ℕ → ℕ → Option Text → Option Text
  label_group i a none = none
  label_group i a (some raw) =
      if is_noise (inst_of raw)
      then none
      else some (group_name (apply_naming re (some raw) i a naming mux_inst))

  -- The group of a slot: none for alternate 0.
  abbrev pub slot_group : ℕ → Slot → Option Text
  slot_group i s = if s.alt == 0 then none else label_group i s.alt (raw_label s)

  abbrev is_named : Text → Option Text → Bool
  is_named name none = false
  is_named name (some g) = same name g

  -- The slots of one pin that belong to a group, in order.
  abbrev pub slot_entries : Text → ℕ → List Slot → List (ℕ × ℕ)
  slot_entries name i [] = []
  slot_entries name i (s ∷ slots) =
      entry_if (is_named name (slot_group i s)) (i, s.alt) ++ slot_entries name i slots

  abbrev pub pin_entries : Text → List Pin → List (ℕ × ℕ)
  pin_entries name [] = []
  pin_entries name (p ∷ pins) = slot_entries name p.index p.alts ++ pin_entries name pins

  pub add_raw_lem :
      (i a : ℕ) (raw : Text) (groups : Groups)
      → add_raw re naming mux_inst i a raw groups ≡ (
          if is_noise (inst_of raw)
          then groups
          else Dict.alter
              (group_name (apply_naming re (some raw) i a naming mux_inst))
              (add_entry (i, a) (Dict.get_or (inst_of raw) (inst_of raw) naming.consumer_labels))
              groups)
  unfolding add_raw
  add_raw_lem i a raw groups = refl

  entries-alter :
      (name g l : Text) (e : ℕ × ℕ) (groups : Groups)
      → group_entries name (Dict.alter g (add_entry e l) groups)
        ≡ group_entries name groups ++ entry_if (same name g) e
  entries-alter name g l e groups = rw (Dict.lookup-alter name g (add_entry e l) groups) (
      ground (
        arith,
        entries_of-add_entry e l (Dict.lookup g groups),
        append-nil (group_entries name groups),
      ))

  entries-add_raw :
      (name : Text) (i a : ℕ) (raw : Text) (groups : Groups)
      → group_entries name (add_raw re naming mux_inst i a raw groups)
        ≡ group_entries name groups ++ entry_if (is_named name (label_group i a (some raw))) (i, a)
  entries-add_raw name i a raw groups = elim (Bool-cases (is_noise (inst_of raw))) [
    | inl e ↦ rw (add_raw_lem i a raw groups, e, append-nil (group_entries name groups))
    | inr e ↦
        rw (add_raw_lem i a raw groups, e)
          (entries-alter name (group_name (apply_naming re (some raw) i a naming mux_inst))
            (Dict.get_or (inst_of raw) (inst_of raw) naming.consumer_labels) (i, a) groups)
  ]

  pub add_slot_lem :
      (i : ℕ) (s : Slot) (groups : Groups)
      → add_slot re naming mux_inst i s groups ≡ (
          if s.alt == 0 then groups else elim (raw_label s) [
            | none ↦ groups
            | some raw ↦ add_raw re naming mux_inst i s.alt raw groups
          ])
  unfolding add_slot add_raw
  add_slot_lem i s groups = refl

  entries-add_label :
      (name : Text) (i a : ℕ) (o : Option Text) (groups : Groups)
      → group_entries name
          (elim o [ none ↦ groups | some raw ↦ add_raw re naming mux_inst i a raw groups ])
        ≡ group_entries name groups ++ entry_if (is_named name (label_group i a o)) (i, a)
  entries-add_label name i a none groups = rw append-nil
  entries-add_label name i a (some raw) groups = entries-add_raw name i a raw groups

  entries-add_slot :
      (name : Text) (i : ℕ) (s : Slot) (groups : Groups)
      → group_entries name (add_slot re naming mux_inst i s groups)
        ≡ group_entries name groups ++ entry_if (is_named name (slot_group i s)) (i, s.alt)
  entries-add_slot name i s groups = elim (Bool-cases (s.alt == 0)) [
    | inl e ↦ rw (add_slot_lem i s groups, e, append-nil (group_entries name groups))
    | inr e ↦ rw (add_slot_lem i s groups, e) (entries-add_label name i s.alt (raw_label s) groups)
  ]

  entries-add_slots :
      (name : Text) (i : ℕ) (slots : List Slot) (groups : Groups)
      → group_entries name (add_slots re naming mux_inst i slots groups)
        ≡ group_entries name groups ++ slot_entries name i slots
  entries-add_slots name i [] groups = unfold add_slots in rw append-nil
  entries-add_slots name i (s ∷ slots) groups =
      eq
      ∙ entries-add_slots name i slots (add_slot re naming mux_inst i s groups)
      ∙ rw (entries-add_slot name i s groups, append_assoc)
    where
      eq :
          group_entries name (add_slots re naming mux_inst i (s ∷ slots) groups)
          ≡ group_entries name
              (add_slots re naming mux_inst i slots (add_slot re naming mux_inst i s groups))
      eq = unfold add_slots in refl

  entries-add_pins :
      (name : Text) (pins : List Pin) (groups : Groups)
      → group_entries name (add_pins re naming mux_inst pins groups)
        ≡ group_entries name groups ++ pin_entries name pins
  entries-add_pins name [] groups = unfold add_pins in rw append-nil
  entries-add_pins name (p ∷ pins) groups =
      eq
      ∙ entries-add_pins name pins (add_slots re naming mux_inst p.index p.alts groups)
      ∙ rw (entries-add_slots name p.index p.alts groups, append_assoc)
    where
      eq :
          group_entries name (add_pins re naming mux_inst (p ∷ pins) groups)
          ≡ group_entries name (
              add_pins re naming mux_inst pins (add_slots re naming mux_inst p.index p.alts groups))
      eq = unfold add_pins in refl

module _ (re : Regex) (naming : Naming) (mux : Mux) where
  no_groups : (name : Text) → group_entries name [] ≡ []
  no_groups name = rw (Dict.lookup-nil {V = Group} name)

  -- The entries of a group, in their order, are the pairs of pin index and alternate of those slots
  -- of the mux, in the order of pins and slots, whose alternate is not 0, which have a label, whose
  -- label's instance is not noise, and whose name leads to this group's name; a name that no slot
  -- leads to has none. (The label is the incoming one or else the outgoing one.)
  pub group_entries-collect :
      (name : Text)
      → group_entries name (collect_pinctrl2_groups re naming mux)
        ≡ pin_entries re naming mux.inst name mux.pins
  group_entries-collect name =
      eq ∙ entries-add_pins re naming mux.inst name mux.pins [] ∙ rw (no_groups name)
    where
      eq :
          group_entries name (collect_pinctrl2_groups re naming mux)
          ≡ group_entries name (add_pins re naming mux.inst mux.pins [])
      eq = unfold collect_pinctrl2_groups in refl
