-- ===== src/Hwh/Muxes/Invariant.antt =====
-- The dicts that `parse_muxes` fills: no key twice, and every slot under its own number.
use aximux.Prelude.{ℕ, [], ◌∷◌, Option, none, some, ◌≡◌, refl, ◌∙◌, All, nat_eq}
use aximux.Prelude.Dict
use aximux.Prelude.Dict.{Dict}
use aximux.Text.{Text}
use aximux.Hwh.Model.{Kind, incoming, outgoing, ctl, Link, Slot, empty_slot}
use aximux.Hwh.Ports.{parse_port}
use aximux.Hwh.Xml.{SignalIndex}
use aximux.Hwh.Muxes.{
  Slots, Pins, record_link, collect_pins, fill, slot_or_empty, slots_or_empty, link_to, add_port,
}
use aximux.Hwh.Muxes.Table.{write, record_link_lem, collect_pins-cons}

-- Every slot is filed under its own number.
abbrev pub Filed : Slots → Type 0
Filed d = All (λ ((a, s) : ℕ × Slot). s.alt ≡ a) d

abbrev pub IsTable : Pins → Type 0
IsTable pins = Dict.NodupKeys pins × All (λ ((i, d) : ℕ × Slots). Dict.NodupKeys d × Filed d) pins

alt-fill : (k : Kind) (l : Link) (s : Slot) → (fill k l s).alt ≡ s.alt
alt-fill incoming l s = refl
alt-fill outgoing l s = refl
alt-fill ctl l s = refl

write-Filed : (k : Kind) (a : ℕ) (l : Link) (d : Slots) → Filed d → Filed (write k a l d)
write-Filed k a l d f =
    Dict.alter-All (λ ((b, s) : ℕ × Slot). s.alt ≡ b) a (λ s. fill k l (slot_or_empty a s)) d
      (alt-fill k l (empty_slot a)) (λ b s e h. alt-fill k l s ∙ h) f

write-IsSlots :
    (k : Kind) (a : ℕ) (l : Link) (d : Slots)
    → Dict.NodupKeys d × Filed d
    → Dict.NodupKeys (write k a l d) × Filed (write k a l d)
write-IsSlots k a l d (u, f) =
    (Dict.alter-NodupKeys a (λ s. fill k l (slot_or_empty a s)) d u, write-Filed k a l d f)

record_link-IsTable :
    (i : ℕ) (k : Kind) (a : ℕ) (l : Link) (pins : Pins)
    → IsTable pins
    → IsTable (record_link i k a l pins)
record_link-IsTable i k a l pins (u, f) =
    let new = λ (old : Option Slots). write k a l (slots_or_empty old) in
    rw (record_link_lem i k a l pins) (
      Dict.alter-NodupKeys i new pins u,
      Dict.alter-All (λ ((j, d) : ℕ × Slots). Dict.NodupKeys d × Filed d) i new pins
          (write-IsSlots k a l [] (tt, tt)) (λ j d e h. write-IsSlots k a l d h) f,
    )

pub collect_pins-IsTable :
    (sidx : SignalIndex) (inst : Text) (ports : Dict Text Text) (pins : Pins)
    → IsTable pins
    → IsTable (collect_pins sidx inst ports pins)
unfolding add_port record_link
collect_pins-IsTable sidx inst [] pins t = unfold collect_pins in t
collect_pins-IsTable sidx inst ((pname, sname) ∷ ports) pins t =
    rw (collect_pins-cons sidx inst pname sname ports pins) (
      collect_pins-IsTable sidx inst ports (add_port sidx inst sname (parse_port pname) pins)
        (add_port-IsTable (parse_port pname)))
  where
    add_port-IsTable : (o : Option (ℕ × Kind × ℕ)) → IsTable (add_port sidx inst sname o pins)
    add_port-IsTable none = t
    add_port-IsTable (some (i, k, a)) = record_link-IsTable i k a (link_to sidx inst sname) pins t
