-- ===== src/Hwh/Emit/Names.antt =====
-- What `emit_legacy` writes for the muxes that `parse_muxes` found.
use aximux.Prelude.{
  List, [], ◌∷◌, ◌++◌, none, some, false, ◌==◌, if◌then◌else◌, ◌≡◌, refl, ◌>>=◌, arith, All-map,
  map, any, find_first, concat, Bool-cases, inl, inr, Bool, true, ◌||◌,
}
use aximux.Text.{Text, codes, join}
use aximux.Hwh.Model.{Slot, Pin, Mux, Naming}
use aximux.Hwh.Naming.{Regex, apply_naming, naming_raises, unless, slot_label, unused_name}
use aximux.Hwh.Functions.{fn_for, traverse}
use aximux.Hwh.Functions.Own.{own_name, own_raises, fn_for_own, traverse-unless}
use aximux.Hwh.Emit.Legacy.{alternate_name, legacy_node, legacy_lines, legacy_header, emit_legacy}
use aximux.Hwh.Xml.{Element}
use aximux.Hwh.Muxes.{parse_muxes}
use aximux.Hwh.Muxes.Shape.{IsOrdered, parse_muxes-IsOrdered}

module _ (re : Regex) (naming : Naming) where
  -- A pin that has no slot for the alternate is unused there.
  own_name_unused :
      (mux : Mux) (p : Pin)
      → any (λ (s : Slot). s.alt == 1) p.alts ≡ false
      → unless (own_raises re naming 1 p) (own_name re naming mux 1 p)
        ≡ some (unused_name p.index 1)
  unfolding slot_label
  own_name_unused mux p h =
      rw (no_slot p.alts h) (unfold apply_naming in unfold naming_raises in refl)
    where
      no_slot :
          (slots : List Slot)
          → any (λ (s : Slot). s.alt == 1) slots ≡ false
          → find_first (λ (s : Slot). s.alt == 1) slots ≡ none
      no_slot [] e = refl
      no_slot (s ∷ slots) e = ground (arith, no_slot slots)

  alternate_name_own :
      (mux : Mux) (p : Pin)
      → fn_for re naming mux p.index 1
        ≡ unless (own_raises re naming 1 p) (own_name re naming mux 1 p)
      → alternate_name re naming mux p
        ≡ unless (own_raises re naming 1 p) (own_name re naming mux 1 p)
  alternate_name_own mux p h = elim (Bool-cases (any (λ (s : Slot). s.alt == 1) p.alts)) [
    | inl e ↦ rw (eq, e) h
    | inr e ↦ rw (eq, e, own_name_unused mux p e)
  ]
    where
      eq : alternate_name re naming mux p ≡ (
          if any (λ (s : Slot). s.alt == 1) p.alts
          then fn_for re naming mux p.index 1
          else some (unused_name p.index 1))
      eq = unfold alternate_name in refl

  -- The lines of a mux, each pin under the names of its own slots.
  abbrev pub own_lines : Mux → List Text
  own_lines mux =
      legacy_lines mux.inst (map (own_name re naming mux 0) mux.pins)
        (map (own_name re naming mux 1) mux.pins)

  -- The naming of one of these slots raises.
  abbrev pub legacy_raises : Mux → Bool
  legacy_raises mux = any (own_raises re naming 0) mux.pins || any (own_raises re naming 1) mux.pins

  legacy_node_own :
      (mux : Mux)
      → IsOrdered mux
      → legacy_node re naming mux ≡ unless (legacy_raises mux) (own_lines mux)
  legacy_node_own mux o =
      rw
        (
          eq,
          traverse-unless (λ (p : Pin). fn_for re naming mux p.index 0) (own_raises re naming 0)
              (own_name re naming mux 0) mux.pins (fn_for_own re naming mux 0 o.pins_ascend),
          traverse-unless (alternate_name re naming mux) (own_raises re naming 1)
              (own_name re naming mux 1) mux.pins
              (All-map (alternate_name_own mux) mux.pins
                (fn_for_own re naming mux 1 o.pins_ascend)),
        )
        (both (any (own_raises re naming 0) mux.pins) (any (own_raises re naming 1) mux.pins))
    where
      both :
          (c d : Bool)
          → (unless c (map (own_name re naming mux 0) mux.pins) >>= λ sigs.
              unless d (map (own_name re naming mux 1) mux.pins) >>= λ alts.
              some (legacy_lines mux.inst sigs alts))
            ≡ unless (c || d) (own_lines mux)
      both true d = refl
      both false true = refl
      both false false = refl

      eq : legacy_node re naming mux ≡ (
          traverse (λ (p : Pin). fn_for re naming mux p.index 0) mux.pins >>= λ sigs.
          traverse (alternate_name re naming mux) mux.pins >>= λ alts.
          some (legacy_lines mux.inst sigs alts))
      eq = unfold legacy_node in refl

  -- On every document, `emit_legacy` raises exactly if naming a pin's own slot for alternate 0 or 1
  -- raises; else it returns the header, and for each mux the lines in which every pin has the name of
  -- its own slot for alternate 0 and for alternate 1, where a pin without a slot for alternate 1 is
  -- named as unused.
  pub emit_legacy_parsed :
      (root : Element)
      → emit_legacy re naming (parse_muxes root)
        ≡ unless
            (any legacy_raises (parse_muxes root))
            (join (codes "\n") (legacy_header ++ concat (map own_lines (parse_muxes root))))
  emit_legacy_parsed root =
      rw
        (
          eq,
          traverse-unless (legacy_node re naming) legacy_raises own_lines (parse_muxes root)
              (All-map legacy_node_own (parse_muxes root) (parse_muxes-IsOrdered root).1),
        )
        (joined (any legacy_raises (parse_muxes root)) (map own_lines (parse_muxes root)))
    where
      joined :
          (b : Bool) (nodes : List (List Text))
          → (unless b nodes >>= λ ls. some (join (codes "\n") (legacy_header ++ concat ls)))
            ≡ unless b (join (codes "\n") (legacy_header ++ concat nodes))
      joined true nodes = refl
      joined false nodes = refl

      eq : emit_legacy re naming (parse_muxes root) ≡ (
          traverse (legacy_node re naming) (parse_muxes root) >>= λ nodes.
          some (join (codes "\n") (legacy_header ++ concat nodes)))
      eq = unfold emit_legacy in refl
