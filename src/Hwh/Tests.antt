-- ===== src/Hwh/Tests.antt =====
-- Runs of the tool on a small design, and the theorems at it.
pub mod Design
pub mod Runs
use aximux.Prelude.{
  Exists, any, ℕ, ◌+◌, true, false, List, [], ◌∷◌, ◌++◌, Option, none, some, ◌≡◌, refl, ◌≢◌, inr,
  arith, All, map, concat, text_eq, nat_eq, length,
}
use aximux.Prelude.Sort.{SortedBy}
use aximux.Text.{Text, codes, join, before_first}
use aximux.Text.Decimal.{int_from, str}
use aximux.Text.Patterns.{sub_numbered}
use aximux.Hwh.Tests.Design.{mux_module, design, no_regex, plain, muxes, parents, signals}
use aximux.Hwh.Model.{Mux, Naming, Slot, Link, Peer, incoming, empty_slot}
use aximux.Hwh.Xml.{
  Element, element, nil, cons, Elements, parent_map, signame_index, Parents, SignalIndex, attr,
  or_empty, ports_of_module,
}
use aximux.Hwh.Ports.{parse_kind}
use aximux.Hwh.Muxes.{parse_muxes, mux_of, by_instance}
use aximux.Hwh.Muxes.Table.{table_link, last_link}
use aximux.Hwh.Muxes.Lookup.{table_link-mux_of}
use aximux.Hwh.Muxes.Shape.{IsOrdered, parse_muxes-IsOrdered}
use aximux.Hwh.Xml.{own_ports, iter_all, iter_tag, module_tag}
use aximux.Hwh.Xml.Identity.{idents, distinct}
use aximux.Hwh.Xml.Walks.{declared_ports}
use aximux.Hwh.Xml.Descent.{own_ports_lem}
use aximux.Hwh.Naming.{
  unless, Regex, is_noise, peer_info, slot_label, apply_naming, strip_direction,
}
use aximux.Hwh.Naming.Peers.{
  is_other, others, head_label, Chosen, peer_info_lem, Better, slot_label_lem,
}
use aximux.Hwh.Naming.Names.{unlabelled_distinct, strip_direction-append}
use aximux.Hwh.Groups.{collect_pinctrl2_groups, add_slot}
use aximux.Hwh.Groups.Entries.{group_entries, pin_entries, group_entries-collect}
use aximux.Hwh.Groups.Noise.{slot_left_out}
use aximux.Hwh.Csv.{csv_rows}
use aximux.Hwh.Csv.Rows.{RowFits, BreaksNeeded, csv_rows_lem}
use aximux.Hwh.Emit.Pinctrl2.{emit_pinctrl2, consumer_wiring}
use aximux.Hwh.Emit.Legacy.{emit_legacy, legacy_header}
use aximux.Hwh.Emit.Names.{own_lines, legacy_raises, emit_legacy_parsed}
use aximux.Hwh.Emit.Wiring.{IsWired}
use aximux.Hwh.Emit.Labels.{Labels}
use aximux.Hwh.Emit.Defined.{Refers, emit_pinctrl2-IsWired}
use aximux.Hwh.Emit.Total.{emit_pinctrl2_total}
use aximux.Hwh.Naming.Sound.{naming_quiet}

run_legacy : Element → Option Text
unfolding emit_legacy parse_muxes parse_kind int_from
run_legacy root = emit_legacy no_regex plain (parse_muxes root)

legacy_runs :
    run_legacy design
    ≡ some (
        join (codes "\n") (
          legacy_header
          ++ (codes "&axi_mux_0 {"
              ∷ codes "  signal-names = \"gpio0.0\", \"gpio0.1\";"
              ∷ codes "  alternate-names = \"i2c0.scl\", \"unused1.1\";"
              ∷ codes "};"
              ∷ []
              ∷ [])))
unfolding run_legacy
legacy_runs = refl

parse_muxes-IsOrdered_example : SortedBy by_instance muxes × All IsOrdered muxes
parse_muxes-IsOrdered_example = parse_muxes-IsOrdered design

emit_legacy_parsed_example :
    emit_legacy no_regex plain muxes
    ≡ unless
        (any (legacy_raises no_regex plain) muxes)
        (join (codes "\n") (legacy_header ++ concat (map (own_lines no_regex plain) muxes)))
emit_legacy_parsed_example = emit_legacy_parsed no_regex plain design

-- The text for the small design.
design_text : (t : Text) × (emit_pinctrl2 no_regex plain muxes ≡ some t)
design_text = emit_pinctrl2_total no_regex plain (naming_quiet no_regex plain tt) muxes

emit_pinctrl2-IsWired_example :
    (lines : List Text) × (design_text.0 ≡ join (codes "\n") lines)
    × All
        (IsWired no_regex plain (λ label. Exists (Labels label) lines))
        (consumer_wiring no_regex plain muxes)
    × All (λ w. Exists (Refers w.1) lines) (consumer_wiring no_regex plain muxes)
emit_pinctrl2-IsWired_example =
    emit_pinctrl2-IsWired no_regex plain muxes design_text.0 design_text.1

table_link-mux_of_example :
    table_link (mux_of 20 parents signals mux_module).pins 0 incoming 1
    ≡ last_link signals
        (or_empty (attr (codes "INSTANCE") mux_module))
        (ports_of_module 20 parents mux_module)
        0
        incoming
        1
        none
table_link-mux_of_example = table_link-mux_of 20 parents signals mux_module 0 incoming 1

abbrev link : Text → Link
link label = record { signame = codes "net"; label = some label; peers = [] }

abbrev sda_slot : Slot
sda_slot = record (empty_slot 1) {
  incoming_link = some (link (codes "xlconstant_0.dout"));
  outgoing_link = some (link (codes "axi_uart16550_0.sout"));
}

abbrev scl_slot : Slot
scl_slot = record (empty_slot 1) { incoming_link = some (link (codes "axi_iic_0.scl")) }

abbrev small_mux : Mux
small_mux = record {
  inst = codes "axi_mux_0";
  modtype = none;
  pins = record { index = 3; alts = empty_slot 0 ∷ scl_slot ∷ [] } ∷ [];
  npins = 1;
}

groups_run :
    group_entries (codes "i2c0") (collect_pinctrl2_groups no_regex plain small_mux) ≡ (3, 1) ∷ []
unfolding collect_pinctrl2_groups
groups_run = refl

group_entries-collect_example :
    group_entries (codes "i2c0") (collect_pinctrl2_groups no_regex plain small_mux)
    ≡ pin_entries no_regex plain (codes "axi_mux_0") (codes "i2c0") small_mux.pins
group_entries-collect_example = group_entries-collect no_regex plain small_mux (codes "i2c0")

slot_left_out_example :
    (slot_label (some sda_slot) ≡ some (codes "axi_uart16550_0.sout"))
    × (add_slot no_regex plain (codes "axi_mux_0") 3 sda_slot [] ≡ [])
unfolding is_noise before_first
slot_left_out_example =
    slot_left_out no_regex plain (codes "axi_mux_0") 3 sda_slot (codes "xlconstant_0.dout")
      (codes "axi_uart16550_0.sout") [] refl refl refl refl

slot_label_lem_example :
    (m : Text) × (slot_label (some sda_slot) ≡ some m)
    × Better (some (codes "xlconstant_0.dout")) (some (codes "axi_uart16550_0.sout")) m
unfolding is_noise before_first
slot_label_lem_example = slot_label_lem sda_slot (codes "axi_uart16550_0.sout") (inr refl) refl

abbrev ends : List Peer
ends =
    record { inst = codes "axi_mux_0"; modtype = []; port = codes "sig0incoming0"; dir = [] }
    ∷ record { inst = codes "axi_iic_0"; modtype = []; port = codes "scl_i"; dir = [] }
    ∷ []

peer_info_lem_example :
    All (λ p. is_other (codes "axi_mux_0") p ≡ true) (peer_info ends (codes "axi_mux_0")).1
    × Chosen (others ends (codes "axi_mux_0")) (peer_info ends (codes "axi_mux_0")).1
    × ((peer_info ends (codes "axi_mux_0")).0 ≡ head_label (peer_info ends (codes "axi_mux_0")).1)
peer_info_lem_example = peer_info_lem ends (codes "axi_mux_0")

unlabelled_distinct_example :
    apply_naming no_regex none 3 0 plain (codes "axi_mux_0")
    ≢ apply_naming no_regex none 5 0 plain (codes "axi_mux_0")
unlabelled_distinct_example =
    unlabelled_distinct no_regex plain (codes "axi_mux_0") 3 5 0 (omega arith)

strip_direction-append_example : strip_direction (codes "scl_i") ≡ codes "scl"
strip_direction-append_example = strip_direction-append (codes "scl") b'i' refl

csv_rows_lem_example :
    (concat (csv_rows (codes "a" ∷ codes "b" ∷ []) [] [] 0) ≡ codes "a" ∷ codes "b" ∷ [])
    × All RowFits (csv_rows (codes "a" ∷ codes "b" ∷ []) [] [] 0)
    × BreaksNeeded (csv_rows (codes "a" ∷ codes "b" ∷ []) [] [] 0)
csv_rows_lem_example = csv_rows_lem (codes "a" ∷ codes "b" ∷ [])
