-- ===== src/Hwh/Consumers/Pins.antt =====
-- The pins under each group of `emit_consumers`.
use aximux.Prelude.{
  loop_appends, ℕ, List, [], ◌∷◌, ◌++◌, Option, none, some, Bool, true, false, ◌==◌, ◌&&◌,
  if◌then◌else◌, ◌≡◌, refl, ◌∙◌, ap, same, same_sound, nat_eq, text_eq, append-nil, concat_map, sym,
  Bool-cases, inl, inr,
}
use aximux.Prelude.Dict
use aximux.Text.{Text, before_last}
use aximux.Hwh.Model.{Slot, Pin, Mux, Naming}
use aximux.Hwh.Naming.{Regex, is_noise, inst_of, apply_naming, link_label}
use aximux.Hwh.Consumers.{
  MuxPins, KeyPins, pins_or_empty, keys_or_empty, append_pin, consume_label, consume_slot,
  consume_slots, consume_pins, consume_muxes,
}

-- The pins under a mux and a key.
abbrev pub pins_under : Text → Text → MuxPins → List ℕ
pins_under inst key acc = pins_or_empty (Dict.lookup key (keys_or_empty (Dict.lookup inst acc)))

abbrev pub pin_if : Bool → ℕ → List ℕ
pin_if true i = i ∷ []
pin_if false i = []

abbrev append_to : ℕ → Option (List ℕ) → List ℕ
append_to i l = pins_or_empty l ++ (i ∷ [])

-- The write to the inner dict.
pins-alter :
    (key mk : Text) (i : ℕ) (d : KeyPins)
    → pins_or_empty (Dict.lookup key (Dict.alter mk (append_to i) d))
      ≡ pins_or_empty (Dict.lookup key d) ++ pin_if (same key mk) i
pins-alter key mk i d = elim (Bool-cases (same key mk)) [
  | inl e ↦
      rw (Dict.lookup-alter key mk (append_to i) d, e)
        (ap (λ k. append_to i (Dict.lookup k d)) (sym (same_sound key mk e)))
  | inr e ↦
      rw (
        Dict.lookup-alter key mk (append_to i) d,
        e,
        append-nil (pins_or_empty (Dict.lookup key d)),
      )
]

pins-append_pin :
    (inst key mi mk : Text) (i : ℕ) (acc : MuxPins)
    → pins_under inst key (append_pin mi mk i acc)
      ≡ pins_under inst key acc ++ pin_if (same inst mi && same key mk) i
unfolding append_pin
pins-append_pin inst key mi mk i acc =
    let write : Option KeyPins → KeyPins = λ old. Dict.alter mk (append_to i) (keys_or_empty old) in
    elim (Bool-cases (same inst mi)) [
      | inl e ↦
          rw (Dict.lookup-alter inst mi write acc, e)
            (ap (λ j. pins_or_empty (Dict.lookup key (write (Dict.lookup j acc))))
                (sym (same_sound inst mi e))
              ∙ pins-alter key mk i (keys_or_empty (Dict.lookup inst acc)))
      | inr e ↦ rw (Dict.lookup-alter inst mi write acc, e, append-nil (pins_under inst key acc))
    ]

module _ (re : Regex) (naming : Naming) (inst key : Text) where
  -- The pins that a slot puts under the key: its own where it is alternate 1 and its incoming label
  -- is not noise and leads to the key.
  abbrev pub label_pins : Mux → ℕ → Option Text → List ℕ
  label_pins mux i none = []
  label_pins mux i (some raw) =
      if is_noise (inst_of raw)
      then []
      else pin_if
          (same inst mux.inst
            && same key (before_last b'.' (apply_naming re (some raw) i 1 naming mux.inst)))
          i

  abbrev pub slot_pins : Mux → ℕ → Slot → List ℕ
  slot_pins mux i s = if s.alt == 1 then label_pins mux i (link_label s.incoming_link) else []

  abbrev pub mux_pins : List Mux → List ℕ
  mux_pins =
      concat_map (λ (mux : Mux).
        concat_map (λ (p : Pin). concat_map (slot_pins mux p.index) p.alts) mux.pins)

  pins-consume_label :
      (mux : Mux) (i : ℕ) (o : Option Text) (acc : MuxPins)
      → pins_under inst key (consume_label re naming mux i o acc)
        ≡ pins_under inst key acc ++ label_pins mux i o
  unfolding consume_label
  pins-consume_label mux i none acc = rw append-nil
  pins-consume_label mux i (some raw) acc = elim (Bool-cases (is_noise (inst_of raw))) [
    | inl e ↦ rw (e, append-nil (pins_under inst key acc))
    | inr e ↦ rw (e) (
        pins-append_pin inst key mux.inst
          (before_last b'.' (apply_naming re (some raw) i 1 naming mux.inst)) i acc)
  ]

  pins-consume_slot :
      (mux : Mux) (i : ℕ) (s : Slot) (acc : MuxPins)
      → pins_under inst key (consume_slot re naming mux i s acc)
        ≡ pins_under inst key acc ++ slot_pins mux i s
  unfolding consume_slot
  pins-consume_slot mux i s acc = elim (Bool-cases (s.alt == 1)) [
    | inl e ↦ rw (e) (pins-consume_label mux i (link_label s.incoming_link) acc)
    | inr e ↦ rw (e, append-nil (pins_under inst key acc))
  ]

  pins-consume_slots :
      (mux : Mux) (i : ℕ) (slots : List Slot) (acc : MuxPins)
      → pins_under inst key (consume_slots re naming mux i slots acc)
        ≡ pins_under inst key acc ++ concat_map (slot_pins mux i) slots
  unfolding consume_slots
  pins-consume_slots mux i =
      loop_appends (pins_under inst key) (consume_slot re naming mux i) (slot_pins mux i)
        (consume_slots re naming mux i) (λ acc. refl) (λ s slots acc. refl)
        (pins-consume_slot mux i)

  pins-consume_pins :
      (mux : Mux) (pins : List Pin) (acc : MuxPins)
      → pins_under inst key (consume_pins re naming mux pins acc)
        ≡ pins_under inst key acc
          ++ concat_map (λ (p : Pin). concat_map (slot_pins mux p.index) p.alts) pins
  unfolding consume_pins
  pins-consume_pins mux =
      loop_appends (pins_under inst key) (λ (p : Pin). consume_slots re naming mux p.index p.alts)
        (λ (p : Pin). concat_map (slot_pins mux p.index) p.alts) (consume_pins re naming mux)
        (λ acc. refl) (λ p pins acc. refl) (λ p. pins-consume_slots mux p.index p.alts)

  no_pins : pins_under inst key [] ≡ []
  no_pins =
      ap (λ o. pins_or_empty (Dict.lookup key (keys_or_empty o))) (Dict.lookup-nil inst)
      ∙ ap pins_or_empty (Dict.lookup-nil key)

  -- Under a mux and a key stand the pins, in the order of muxes, pins and slots, of those slots of
  -- the muxes of that instance name which are alternate 1, have an incoming label whose instance is
  -- not noise, and whose name leads to the key; nothing else.
  pub pins_under-consume :
      (muxes : List Mux) → pins_under inst key (consume_muxes re naming muxes []) ≡ mux_pins muxes
  unfolding consume_muxes
  pins_under-consume muxes =
      loop_appends (pins_under inst key) (λ (mux : Mux). consume_pins re naming mux mux.pins)
        (λ (mux : Mux).
          concat_map (λ (p : Pin). concat_map (slot_pins mux p.index) p.alts) mux.pins)
        (consume_muxes re naming) (λ acc. refl) (λ mux muxes acc. refl)
        (λ mux. pins-consume_pins mux mux.pins) muxes []
      ∙ ap (λ l. l ++ mux_pins muxes) no_pins
