-- ===== src/Hwh/Emit/Labels.antt =====
-- The labels in the text of a mux: `emit_pinctrl2` of tools/hwh_aximux_dt.py.
use aximux.Prelude.{
  concat, concat_map, Exists-append_left, Exists-append_right, List, [], ◌∷◌, ◌++◌, ◌≡◌, refl, All,
  All-map, Exists, text_eq, inl,
}
use aximux.Prelude.Dict.{Dict, keys}
use aximux.Text.{Text, codes}
use aximux.Hwh.Groups.{Group, Groups}
use aximux.Hwh.Emit.Pinctrl2.{group_node, mux_head, alias_nodes, mux_lines}

abbrev pub group_label : Text → Text
group_label name = codes "pinctrl_" ++ name

-- The label stands in front of a node in this line.
abbrev pub Labels : Text → Text → Type 0
Labels label line = (node : Text) × (line ≡ codes "  " ++ (label ++ (codes ": " ++ node)))

-- Each group's label stands in the lines of the groups' nodes.
groups-Labels :
    (groups : Groups)
    → All
        (λ name.
          Exists
            (Labels (group_label name))
            (concat_map (λ ((n, g) : Text × Group). group_node n g.entries) groups))
        (keys groups)
groups-Labels [] = tt
groups-Labels ((name, g) ∷ groups) = (
  Exists-append_left (Labels (group_label name)) (group_node name g.entries) rest
      (unfold group_node in inl (_, refl)),
  All-map (λ n h. Exists-append_right (Labels (group_label n)) (group_node name g.entries) rest h)
      (keys groups) (groups-Labels groups),
)
  where
    rest : List Text
    rest = concat_map (λ ((n, g) : Text × Group). group_node n g.entries) groups

pub mux_lines-Labels :
    (inst : Text) (pins : List (List Text)) (groups : Groups) (aliases : Dict Text Text)
    → All
        (λ name. Exists (Labels (group_label name)) (mux_lines inst pins groups aliases))
        (keys groups)
unfolding mux_lines
mux_lines-Labels inst pins groups aliases =
    All-map
      (λ name h.
        let P = Labels (group_label name) in
        Exists-append_right P (mux_head inst) _ (
          Exists-append_right P (concat pins) _
            (Exists-append_left P _ (alias_nodes aliases groups ++ (codes "};" ∷ [] ∷ [])) h)))
      (keys groups) (groups-Labels groups)
