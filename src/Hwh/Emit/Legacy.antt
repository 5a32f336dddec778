-- ===== src/Hwh/Emit/Legacy.antt =====
-- `emit_legacy` of tools/hwh_aximux_dt.py. `none` is an exception.
use aximux.Prelude.{List, [], ◌∷◌, ◌++◌, Option, some, ◌>>=◌, ◌==◌, if◌then◌else◌, any, concat}
use aximux.Text.{Text, codes, join}
use aximux.Text.Decimal.{str}
use aximux.Hwh.Model.{Slot, Pin, Mux, Naming}
use aximux.Hwh.Naming.{Regex, unused_name}
use aximux.Hwh.Functions.{fn_for, traverse}
use aximux.Hwh.Csv.{csv_strings}

-- The default of the parameter `indent`.
abbrev pub legacy_indent : Text
legacy_indent = codes "                 "

abbrev pub legacy_header : List Text
legacy_header =
    codes "/* SPDX-License-Identifier: GPL-2.0-only */"
    ∷ codes "/* AUTO-GENERATED from system.hwh — do not edit by hand. */"
    ∷ []
    ∷ []

-- The lines of one mux, from the names of its pins.
unfoldable pub legacy_lines : Text → List Text → List Text → List Text
unfolding csv_strings
legacy_lines inst sigs alts =
    concat (codes "&" ∷ inst ∷ codes " {" ∷ [])
    ∷ concat (codes "  signal-names = " ∷ csv_strings sigs legacy_indent ∷ codes ";" ∷ [])
    ∷ concat (codes "  alternate-names = " ∷ csv_strings alts legacy_indent ∷ codes ";" ∷ [])
    ∷ codes "};"
    ∷ []
    ∷ []

module _ (re : Regex) (naming : Naming) where
  -- The name of the first alternate, where the pin has one.
  unfoldable pub alternate_name : Mux → Pin → Option Text
  unfolding fn_for str
  alternate_name mux p =
      if any (λ (s : Slot). s.alt == 1) p.alts
      then fn_for re naming mux p.index 1
      else some (unused_name p.index 1)

  unfoldable pub legacy_node : Mux → Option (List Text)
  unfolding fn_for alternate_name legacy_lines
  legacy_node mux = do
    sigs ← traverse (λ (p : Pin). fn_for re naming mux p.index 0) mux.pins
    alts ← traverse (alternate_name mux) mux.pins
    some (legacy_lines mux.inst sigs alts)

  unfoldable pub emit_legacy : List Mux → Option Text
  unfolding legacy_node join
  emit_legacy muxes = do
    nodes ← traverse legacy_node muxes
    some (join (codes "\n") (legacy_header ++ concat nodes))
