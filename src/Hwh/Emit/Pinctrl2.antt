-- ===== src/Hwh/Emit/Pinctrl2.antt =====
-- `emit_pinctrl2` of tools/hwh_aximux_dt.py: pins and groups of each mux, then the consumers.
use aximux.Prelude.{
  ℕ, ◌+◌, max, List, [], ◌∷◌, ◌++◌, Option, none, some, Bool, ◌>>=◌, if◌then◌else◌, map, concat,
  concat_map, range, contains, text_eq,
}
use aximux.Prelude.Dict
use aximux.Prelude.Dict.{Dict}
use aximux.Prelude.Sort.{sort_by}
use aximux.Text.{Text, codes, join, text_le}
use aximux.Text.Decimal.{str}
use aximux.Text.Patterns.{sanitize}
use aximux.Hwh.Model.{Slot, Pin, Mux, Naming}
use aximux.Hwh.Naming.{Regex, unless}
use aximux.Hwh.Functions.{fn_for, traverse}
use aximux.Hwh.Groups.{Group, Groups, add_once, collect_pinctrl2_groups, groups_raise}
use aximux.Hwh.Csv.{csv_strings}

abbrev pub pinctrl2_header : List Text
pinctrl2_header =
    codes "/* SPDX-License-Identifier: GPL-2.0-only */"
    ∷ codes "/* AUTO-GENERATED from system.hwh — brunosmmm,aximux-2.0 style. */"
    ∷ codes "/* Includes mux pins/groups AND consumer pinctrl-0 wiring. */"
    ∷ []
    ∷ []

abbrev pub pinctrl2_indent : Text
pinctrl2_indent = codes "                    "

-- `max((a["alt"] for a in alts), default=0)`
unfoldable pub max_alt : List Slot → ℕ
max_alt [] = 0
max_alt (s ∷ slots) = max s.alt (max_alt slots)

-- The order of `sorted(d.items())`: the keys differ, so it is theirs.
abbrev pub by_name {ℓ} : {V : Type ℓ} → Text × V → Text × V → Bool
by_name (s, _) (t, _) = text_le s t

-- The node of a group, under its name or under an alias.
unfoldable pub group_node : Text → List (ℕ × ℕ) → List Text
unfolding join str
group_node name entries =
    let node = name ++ codes "-grp" in
    let pins_s =
      join (codes ", ")
        (map (λ ((pin, a) : ℕ × ℕ). concat (codes "\"pin" ∷ str pin ∷ codes "\"" ∷ [])) entries) in
    let mux_s = join (codes " ") (map (λ ((pin, a) : ℕ × ℕ). str a) entries) in
    concat (codes "  pinctrl_" ∷ name ∷ codes ": " ∷ node ∷ codes " {" ∷ [])
    ∷ concat (codes "    function = \"" ∷ name ∷ codes "\";" ∷ [])
    ∷ concat (codes "    groups = \"" ∷ node ∷ codes "\";" ∷ [])
    ∷ concat (codes "    brunosmmm,pins = " ∷ pins_s ∷ codes ";" ∷ [])
    ∷ concat (codes "    brunosmmm,function = \"" ∷ name ∷ codes "\";" ∷ [])
    ∷ concat (codes "    brunosmmm,mux = <" ∷ mux_s ∷ codes ">;" ∷ [])
    ∷ codes "  };"
    ∷ []
    ∷ []

-- `{"label": …, "consumers": …}`
pub record Wiring : Type 0 where
  pub label : Text
  pub consumers : List Text

abbrev pub AllGroups : Type 0
AllGroups = Dict Text Wiring

-- `s |= t`
unfoldable pub union : List Text → List Text → List Text
unfolding add_once
union s [] = s
union s (a ∷ t) = union (add_once a s) t

abbrev pub merge : Text → List Text → Option Wiring → Wiring
merge name consumers none = record { label = codes "pinctrl_" ++ name; consumers = consumers }
merge name consumers (some w) = record w { consumers = union w.consumers consumers }

unfoldable pub merge_groups : Groups → AllGroups → AllGroups
unfolding union Dict.alter text_eq
merge_groups [] acc = acc
merge_groups ((name, g) ∷ groups) acc =
    merge_groups groups (Dict.alter name (merge name g.consumers) acc)

-- The nodes of the aliases whose source is a group of this mux.
unfoldable pub alias_nodes : Dict Text Text → Groups → List Text
unfolding group_node Dict.lookup text_eq
alias_nodes [] groups = []
alias_nodes ((src, alias) ∷ aliases) groups =
    elim (Dict.lookup src groups) [ none ↦ [] | some g ↦ group_node (sanitize alias) g.entries ]
    ++ alias_nodes aliases groups

-- The node of a pin, from the names of its functions.
unfoldable pub pin_lines : Text → ℕ → List Text → List Text
unfolding csv_strings str
pin_lines inst i fns =
    let si = str i in
    concat (codes "  " ∷ inst ∷ codes "_pin" ∷ si ∷ codes ": pin@" ∷ si ∷ codes " {" ∷ [])
    ∷ concat (codes "    reg = <" ∷ si ∷ codes ">;" ∷ [])
    ∷ concat (codes "    function-names = " ∷ csv_strings fns pinctrl2_indent ∷ codes ";" ∷ [])
    ∷ codes "  };"
    ∷ []
    ∷ []

abbrev pub mux_head : Text → List Text
mux_head inst =
    concat (codes "&" ∷ inst ∷ codes " {" ∷ [])
    ∷ codes "  compatible = \"brunosmmm,aximux-2.0\";"
    ∷ codes "  #address-cells = <1>;"
    ∷ codes "  #size-cells = <0>;"
    ∷ codes "  #pinctrl-cells = <0>;"
    ∷ []
    ∷ []

-- The node of a mux, from the nodes of its pins and its groups.
unfoldable pub mux_lines : Text → List (List Text) → Groups → Dict Text Text → List Text
unfolding group_node alias_nodes
mux_lines inst pins groups aliases =
    mux_head inst
    ++ (concat pins
        ++ (concat_map (λ ((name, g) : Text × Group). group_node name g.entries) groups
            ++ (alias_nodes aliases groups ++ (codes "};" ∷ [] ∷ []))))

-- The node of a consumer, with its first label.
abbrev pub consumer_lines : Text → Text → List Text
consumer_lines cons pl =
    concat (codes "&" ∷ cons ∷ codes " {" ∷ [])
    ∷ codes "  pinctrl-names = \"default\";"
    ∷ concat (codes "  pinctrl-0 = <&" ∷ pl ∷ codes ">;" ∷ [])
    ∷ codes "};"
    ∷ []
    ∷ []

-- The whole fragment, from the nodes of the muxes and those of the consumers.
unfoldable pub pinctrl2_text : List (List Text) → List (List Text) → Text
unfolding join
pinctrl2_text nodes wired = join (codes "\n") (
    pinctrl2_header
    ++ (concat nodes
        ++ ((codes "/* AUTO: consumer pinctrl-0 from HWH peer instances. */" ∷ [] ∷ [])
            ++ concat wired)))

module _ (re : Regex) (naming : Naming) where
  unfoldable pub pin_node : Mux → Pin → Option (List Text)
  unfolding fn_for pin_lines max_alt
  pin_node mux pin = do
    fns ← traverse (fn_for re naming mux pin.index) (range (max_alt pin.alts + 1))
    some (pin_lines mux.inst pin.index fns)

  -- The groups of a mux in the order of their names.
  unfoldable pub sorted_groups : Mux → Groups
  unfolding collect_pinctrl2_groups sort_by text_le
  sorted_groups mux = sort_by by_name (collect_pinctrl2_groups re naming mux)

  unfoldable pub mux_node : Mux → Option (List Text)
  unfolding pin_node groups_raise sorted_groups mux_lines
  mux_node mux = do
    pins ← traverse (pin_node mux) mux.pins
    unless (groups_raise re naming mux)
        (mux_lines mux.inst pins (sorted_groups mux) naming.group_aliases)

  unfoldable pub merge_muxes : List Mux → AllGroups → AllGroups
  unfolding sorted_groups merge_groups
  merge_muxes [] acc = acc
  merge_muxes (mux ∷ muxes) acc = merge_muxes muxes (merge_groups (sorted_groups mux) acc)

  -- The two loops that fill `by_consumer`.
  unfoldable pub wire : Text → List Text → Dict Text (List Text) → Dict Text (List Text)
  unfolding Dict.alter text_eq
  wire label [] acc = acc
  wire label (cons ∷ rest) acc = wire label rest (
      if contains naming.skip_consumers cons
      then acc
      else Dict.alter cons (λ old. elim old [ none ↦ label ∷ [] | some ls ↦ ls ++ (label ∷ []) ])
          acc)

  unfoldable pub by_consumer : AllGroups → Dict Text (List Text) → Dict Text (List Text)
  unfolding wire sort_by text_le
  by_consumer [] acc = acc
  by_consumer ((name, w) ∷ groups) acc =
      by_consumer groups (wire w.label (sort_by text_le w.consumers) acc)

  -- The labels that the consumers are wired to, in the order of their names.
  unfoldable pub consumer_wiring : List Mux → Dict Text (List Text)
  unfolding merge_muxes by_consumer sort_by text_le
  consumer_wiring muxes = sort_by by_name (by_consumer (sort_by by_name (merge_muxes muxes [])) [])

  abbrev pub consumer_node : Text × List Text → Option (List Text)
  consumer_node (cons, []) = none
  consumer_node (cons, pl ∷ _) = some (consumer_lines cons pl)

  unfoldable pub emit_pinctrl2 : List Mux → Option Text
  unfolding mux_node consumer_wiring pinctrl2_text
  emit_pinctrl2 muxes = do
    nodes ← traverse mux_node muxes
    wired ← traverse consumer_node (consumer_wiring muxes)
    some (pinctrl2_text nodes wired)
