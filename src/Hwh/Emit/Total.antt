-- ===== src/Hwh/Emit/Total.antt =====
-- `emit_pinctrl2` raises nothing but what the naming rules raise.
use aximux.Prelude.{
  ℕ, ◌+◌, List, [], ◌∷◌, Option, some, Bool, none, ◌==◌, false, ◌≡◌, refl, ◌≢◌, All, All-map,
  any-false, if-false, any, range, ◌>>=◌, if◌then◌else◌,
}
use aximux.Text.{Text}
use aximux.Hwh.Model.{Slot, Pin, Mux, Naming}
use aximux.Hwh.Naming.{Regex, unless, naming_raises, is_noise, inst_of}
use aximux.Hwh.Groups.{slot_raises, groups_raise, raw_label}
use aximux.Hwh.Functions.{fn_for, traverse}
use aximux.Hwh.Functions.Own.{fn_for_total, traverse_total}
use aximux.Hwh.Emit.Pinctrl2.{
  max_alt, pin_lines, pin_node, mux_lines, mux_node, sorted_groups, consumer_node, consumer_wiring,
  emit_pinctrl2, pinctrl2_text,
}
use aximux.Hwh.Emit.Wiring.{IsWired, IsDefined, consumer_wiring-IsWired}

module _ (re : Regex) (naming : Naming)
    (quiet : (label : Option Text) → naming_raises re label naming ≡ false) where
  abbrev NamedAt : Mux → ℕ → Pin → Type 0
  NamedAt mux a p = (t : Text) × (fn_for re naming mux p.index a ≡ some t)

  pin_node-some :
      (mux : Mux) (ps : List Pin)
      → ((a : ℕ) → All (NamedAt mux a) ps)
      → All (λ p. (ls : List Text) × (pin_node re naming mux p ≡ some ls)) ps
  pin_node-some mux [] h = tt
  pin_node-some mux (p ∷ ps) h = (here, pin_node-some mux ps (λ a. (h a).1))
    where
      each : (bs : List ℕ) → All (λ a. NamedAt mux a p) bs
      each [] = tt
      each (a ∷ bs) = ((h a).0, each bs)

      eq : pin_node re naming mux p ≡ (
          traverse (fn_for re naming mux p.index) (range (max_alt p.alts + 1)) >>= λ fns.
          some (pin_lines mux.inst p.index fns))
      eq = unfold pin_node in refl

      here : (ls : List Text) × (pin_node re naming mux p ≡ some ls)
      here =
          let (fns, e) =
            traverse_total (fn_for re naming mux p.index) (range (max_alt p.alts + 1))
              (each (range (max_alt p.alts + 1))) in
          (pin_lines mux.inst p.index fns, rw (eq, e))

  -- The part that the tests of both collecting loops share.
  pub raw_quiet :
      (o : Option Text)
      → elim o as (λ x. Bool) [
        | none ↦ false
        | some raw ↦ if is_noise (inst_of raw) then false else naming_raises re (some raw) naming
      ]
        ≡ false
  raw_quiet none = refl
  raw_quiet (some raw) = rw (quiet (some raw)) (if-false (is_noise (inst_of raw)) false refl)

  slot_quiet : (s : Slot) → slot_raises re naming s ≡ false
  unfolding slot_raises
  slot_quiet s = if-false (s.alt == 0) _ (raw_quiet (raw_label s))

  groups_quiet : (mux : Mux) → groups_raise re naming mux ≡ false
  unfolding groups_raise
  groups_quiet mux =
      any-false (λ (p : Pin). any (slot_raises re naming) p.alts) mux.pins
        (λ p. any-false (slot_raises re naming) p.alts slot_quiet)

  mux_node-some : (mux : Mux) → (ls : List Text) × (mux_node re naming mux ≡ some ls)
  mux_node-some mux =
      let (pins, e) =
        traverse_total (pin_node re naming mux) mux.pins
          (pin_node-some mux mux.pins (λ a. fn_for_total re naming mux a quiet)) in
      (
        mux_lines mux.inst pins (sorted_groups re naming mux) naming.group_aliases,
        rw (eq, e, groups_quiet mux),
      )
    where
      eq : mux_node re naming mux ≡ (
          traverse (pin_node re naming mux) mux.pins >>= λ pins.
          unless
            (groups_raise re naming mux)
            (mux_lines mux.inst pins (sorted_groups re naming mux) naming.group_aliases))
      eq = unfold mux_node in refl

  mux_nodes_some :
      (muxes : List Mux) → All (λ mux. (ls : List Text) × (mux_node re naming mux ≡ some ls)) muxes
  mux_nodes_some [] = tt
  mux_nodes_some (mux ∷ muxes) = (mux_node-some mux, mux_nodes_some muxes)

  consumer_node-some :
      (w : Text × List Text) → w.1 ≢ [] → (ls : List Text) × (consumer_node re naming w ≡ some ls)
  consumer_node-some (c, []) h = absurd (h refl)
  consumer_node-some (c, l ∷ ls) h = (_, refl)

  -- If no rule raises, `emit_pinctrl2` returns a text on every list of muxes, however they came about:
  -- no pin is missed and no consumer is without a label.
  pub emit_pinctrl2_total :
      (muxes : List Mux) → (t : Text) × (emit_pinctrl2 re naming muxes ≡ some t)
  emit_pinctrl2_total muxes =
      let (nodes, e) = traverse_total (mux_node re naming) muxes (mux_nodes_some muxes) in
      let (wired, e') = traverse_total (consumer_node re naming) (consumer_wiring re naming muxes) (
        All-map
          (λ w (h : IsWired re naming (IsDefined re naming muxes) w). consumer_node-some w h.1)
          (consumer_wiring re naming muxes) (consumer_wiring-IsWired re naming muxes)) in
      (pinctrl2_text nodes wired, rw (eq, e, e'))
    where
      eq : emit_pinctrl2 re naming muxes ≡ (
          traverse (mux_node re naming) muxes >>= λ nodes.
          traverse (consumer_node re naming) (consumer_wiring re naming muxes) >>= λ wired.
          some (pinctrl2_text nodes wired))
      eq = unfold emit_pinctrl2 in refl
