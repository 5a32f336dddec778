-- ===== src/Hwh/Muxes/Table.antt =====
-- The mux map that `parse_muxes` builds from a module's ports, read as a table.
use aximux.Prelude.{
  ℕ, List, [], ◌∷◌, Option, none, some, Bool, true, false, ◌&&◌, ◌==◌, if◌then◌else◌, ◌≡◌, refl,
  arith, same, nat_eq, find_first, ◌>>=◌,
}
use aximux.Prelude.Dict
use aximux.Prelude.Dict.{Dict, keys}
use aximux.Text.{Text}
use aximux.Hwh.Model.{Kind, incoming, outgoing, ctl, Link, Slot, Pin, empty_slot}
use aximux.Hwh.Ports.{parse_port}
use aximux.Hwh.Functions.{slot_at}
use aximux.Hwh.Xml.{SignalIndex}
use aximux.Hwh.Muxes.{
  Slots, Pins, record_link, collect_pins, fill, slot_or_empty, slots_or_empty, link_to, add_port,
}

abbrev pub link_of : Kind → Slot → Option Link
link_of incoming s = s.incoming_link
link_of outgoing s = s.outgoing_link
link_of ctl s = s.ctl_link

abbrev pub same_kind : Kind → Kind → Bool
same_kind incoming incoming = true
same_kind outgoing outgoing = true
same_kind ctl ctl = true
same_kind _ _ = false

-- `pins[i].alts[…][kind]`, looked up by index and alternate; `none` where one is missing.
abbrev pub table_link : List Pin → ℕ → Kind → ℕ → Option Link
table_link pins i k a = do
  pin ← find_first (λ (p : Pin). p.index == i) pins
  slot ← slot_at a pin
  link_of k slot

abbrev pub fits : ℕ → Kind → ℕ → ℕ × Kind × ℕ → Bool
fits i k a (i', k', a') = same i i' && (same_kind k k' && same a a')

-- The link of a port, if its name stands for the pin, the kind and the alternate.
abbrev pub newest :
    SignalIndex → Text → Text → Option (ℕ × Kind × ℕ) → ℕ → Kind → ℕ → Option Link → Option Link
newest sidx inst sname none i k a old = old
newest sidx inst sname (some p) i k a old =
    if fits i k a p then some (link_to sidx inst sname) else old

-- The link of the last such port.
abbrev pub last_link :
    SignalIndex → Text → Dict Text Text → ℕ → Kind → ℕ → Option Link → Option Link
last_link sidx inst [] i k a old = old
last_link sidx inst ((pname, sname) ∷ ports) i k a old =
    last_link sidx inst ports i k a (newest sidx inst sname (parse_port pname) i k a old)

-- The same lookup before sorting.
unfoldable pub read : Pins → ℕ → Kind → ℕ → Option Link
read pins i k a = do slots ← Dict.lookup i pins; slot ← Dict.lookup a slots; link_of k slot

link_of-fill :
    (k k' : Kind) (l : Link) (s : Slot)
    → link_of k (fill k' l s) ≡ (if same_kind k k' then some l else link_of k s)
link_of-fill incoming incoming l s = refl
link_of-fill incoming outgoing l s = refl
link_of-fill incoming ctl l s = refl
link_of-fill outgoing incoming l s = refl
link_of-fill outgoing outgoing l s = refl
link_of-fill outgoing ctl l s = refl
link_of-fill ctl incoming l s = refl
link_of-fill ctl outgoing l s = refl
link_of-fill ctl ctl l s = refl

link_of-empty_slot : (k : Kind) (a : ℕ) → link_of k (empty_slot a) ≡ none
link_of-empty_slot incoming a = refl
link_of-empty_slot outgoing a = refl
link_of-empty_slot ctl a = refl

-- One slot table after a write.
abbrev pub write : Kind → ℕ → Link → Slots → Slots
write k a l = Dict.alter a (λ s. fill k l (slot_or_empty a s))

abbrev pub read_slot : Slots → Kind → ℕ → Option Link
read_slot d k a = Dict.lookup a d >>= link_of k

slot_link : (k : Kind) (a : ℕ) (o : Option Slot) → link_of k (slot_or_empty a o) ≡ (o >>= link_of k)
slot_link k a none = link_of-empty_slot k a
slot_link k a (some s) = refl

read_slot-write :
    (d : Slots) (k k' : Kind) (a a' : ℕ) (l : Link)
    → read_slot (write k' a' l d) k a
      ≡ (if same_kind k k' && same a a' then some l else read_slot d k a)
read_slot-write d k k' a a' l =
    rw (Dict.lookup-alter a a' (λ s. fill k' l (slot_or_empty a' s)) d) (
      ground (
        arith,
        link_of-fill k k' l (slot_or_empty a' (Dict.lookup a' d)),
        slot_link k a' (Dict.lookup a' d),
      ))

slots_link :
    (k : Kind) (a : ℕ) (o : Option Slots)
    → read_slot (slots_or_empty o) k a ≡ (o >>= λ d. read_slot d k a)
slots_link k a none = unfold Dict.lookup in refl
slots_link k a (some d) = refl

pub record_link_lem :
    (i : ℕ) (k : Kind) (a : ℕ) (l : Link) (pins : Pins)
    → record_link i k a l pins ≡ Dict.alter i (λ old. write k a l (slots_or_empty old)) pins
unfolding record_link
record_link_lem i k a l pins = refl

read-record_link :
    (pins : Pins) (i i' : ℕ) (k k' : Kind) (a a' : ℕ) (l : Link)
    → read (record_link i' k' a' l pins) i k a
      ≡ (if fits i k a (i', k', a') then some l else read pins i k a)
unfolding read
read-record_link pins i i' k k' a a' l =
    rw
      (
        record_link_lem i' k' a' l pins,
        Dict.lookup-alter i i' (λ old. write k' a' l (slots_or_empty old)) pins,
      )
      (ground (
        arith,
        read_slot-write (slots_or_empty (Dict.lookup i' pins)) k k' a a' l,
        slots_link k a (Dict.lookup i' pins),
      ))

read-add_port :
    (sidx : SignalIndex) (inst sname : Text) (o : Option (ℕ × Kind × ℕ)) (pins : Pins) (i : ℕ)
    (k : Kind) (a : ℕ)
    → read (add_port sidx inst sname o pins) i k a
      ≡ newest sidx inst sname o i k a (read pins i k a)
unfolding add_port record_link
read-add_port sidx inst sname none pins i k a = unfold add_port in refl
read-add_port sidx inst sname (some (i', k', a')) pins i k a =
    read-record_link pins i i' k k' a a' (link_to sidx inst sname)

pub collect_pins-cons :
    (sidx : SignalIndex) (inst pname sname : Text) (ports : Dict Text Text) (pins : Pins)
    → collect_pins sidx inst ((pname, sname) ∷ ports) pins
      ≡ collect_pins sidx inst ports (add_port sidx inst sname (parse_port pname) pins)
unfolding collect_pins
collect_pins-cons sidx inst pname sname ports pins = refl

pub read-collect_pins :
    (sidx : SignalIndex) (inst : Text) (ports : Dict Text Text) (pins : Pins) (i : ℕ) (k : Kind)
    (a : ℕ)
    → read (collect_pins sidx inst ports pins) i k a
      ≡ last_link sidx inst ports i k a (read pins i k a)
read-collect_pins sidx inst [] pins i k a = unfold collect_pins in refl
read-collect_pins sidx inst ((pname, sname) ∷ ports) pins i k a =
    let p = parse_port pname in
    rw (
      collect_pins-cons sidx inst pname sname ports pins,
      read-collect_pins sidx inst ports (add_port sidx inst sname p pins) i k a,
      read-add_port sidx inst sname p pins i k a,
    )
