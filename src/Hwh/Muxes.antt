-- ===== src/Hwh/Muxes.antt =====
-- `parse_muxes` of tools/hwh_aximux_dt.py: the muxes of a design, with their pins and alternates.
pub mod Table
pub mod Invariant
pub mod Lookup
pub mod Shape
pub mod Order
use aximux.Prelude.{
  ℕ, zero, suc, List, [], ◌∷◌, ◌++◌, Option, none, some, Bool, true, false, not, ◌&&◌, ◌||◌,
  if◌then◌else◌, map, length, same, contains, nat_eq, text_eq, leb, ◌==◌,
}
use aximux.Prelude.Dict
use aximux.Prelude.Dict.{Dict}
use aximux.Prelude.Sort.{sort_by}
use aximux.Text.{Text, codes, strip_prefix, text_le, lower}
use aximux.Text.Patterns.{digits_then, at_end, search_by}
use aximux.Hwh.Model.{Peer, Kind, incoming, outgoing, ctl, Link, Slot, Pin, Mux, empty_slot}
use aximux.Hwh.Ports.{parse_port}
use aximux.Hwh.Naming.{peer_info}
use aximux.Hwh.Xml.{
  Element, Parents, SignalIndex, iter_all, iter_tag, attr, or_empty, module_tag, parent_map,
  ports_of_module, signame_index,
}

-- `slot[kind] = link`, and `slot["peers"] = detail` for an incoming port that has peers
abbrev pub fill : Kind → Link → Slot → Slot
fill incoming l s = record s {
  incoming_link = some l;
  peers = elim l.peers [ [] ↦ s.peers | p ∷ ps ↦ p ∷ ps ];
}
fill outgoing l s = record s { outgoing_link = some l }
fill ctl l s = record s { ctl_link = some l }

abbrev pub Slots : Type 0
Slots = Dict ℕ Slot

abbrev pub Pins : Type 0
Pins = Dict ℕ Slots

abbrev pub slot_or_empty : ℕ → Option Slot → Slot
slot_or_empty a none = empty_slot a
slot_or_empty a (some s) = s

abbrev pub slots_or_empty : Option Slots → Slots
slots_or_empty none = []
slots_or_empty (some d) = d

-- `pins[pin_i].setdefault(alt, …)`, then the write to the slot
unfoldable pub record_link : ℕ → Kind → ℕ → Link → Pins → Pins
unfolding Dict.alter nat_eq
record_link pin_i kind a l =
    Dict.alter pin_i
      (λ old. Dict.alter a (λ s. fill kind l (slot_or_empty a s)) (slots_or_empty old))

abbrev peers_of : Text → SignalIndex → List Peer
peers_of = λ sname sidx. Dict.get_or sname [] sidx

abbrev pub link_to : SignalIndex → Text → Text → Link
link_to sidx inst sname =
    let (label, detail) = peer_info (peers_of sname sidx) inst in
    record { signame = sname; label = label; peers = detail }

-- The body of the loop over the ports, from the match of the name on.
unfoldable pub add_port : SignalIndex → Text → Text → Option (ℕ × Kind × ℕ) → Pins → Pins
unfolding record_link peer_info Dict.lookup text_eq
add_port sidx inst sname none pins = pins
add_port sidx inst sname (some (pin_i, kind, a)) pins =
    record_link pin_i kind a (link_to sidx inst sname) pins

-- The loop over `ports.items()`.
unfoldable pub collect_pins : SignalIndex → Text → Dict Text Text → Pins → Pins
unfolding parse_port add_port
collect_pins sidx inst [] pins = pins
collect_pins sidx inst ((pname, sname) ∷ ports) pins =
    collect_pins sidx inst ports (add_port sidx inst sname (parse_port pname) pins)

-- A dict's entries in the order of its keys: `d[k] for k in sorted(d)`.
abbrev pub by_key : {V : Type 0} → ℕ × V → ℕ × V → Bool
by_key (i, _) (j, _) = leb i j

abbrev pub slot_of : ℕ × Slot → Slot
slot_of (a, s) = s

abbrev pub pin_of : ℕ × Slots → Pin
pin_of (i, slots) = record { index = i; alts = map slot_of (sort_by by_key slots) }

unfoldable pub pin_list : Pins → List Pin
unfolding sort_by
pin_list pins = map pin_of (sort_by by_key pins)

-- `(?:axi_)?mux_\d+$`, anywhere and in either case: the optional part is never needed.
mux_number : Text → Bool
unfolding strip_prefix digits_then
mux_number t = elim (strip_prefix (codes "mux_") (lower t)) [
  | none ↦ false
  | some r ↦ elim (digits_then r) [ none ↦ false | some (_, rest) ↦ at_end rest ]
]

unfoldable pub is_mux : Text → Text → Bool
unfolding mux_number search_by text_eq
is_mux inst modtype =
    contains (codes "axi_mux" ∷ codes "aximux" ∷ []) (lower modtype) || search_by mux_number inst

unfoldable pub mux_of : ℕ → Parents → SignalIndex → Element → Mux
unfolding pin_list collect_pins ports_of_module attr
mux_of fuel parents sidx m =
    let inst = or_empty (attr (codes "INSTANCE") m) in
    let pins = pin_list (collect_pins sidx inst (ports_of_module fuel parents m) []) in
    record { inst = inst; modtype = attr (codes "MODTYPE") m; pins = pins; npins = length pins }

muxes_among : ℕ → Parents → SignalIndex → List Element → List Mux
unfolding is_mux mux_of
muxes_among fuel parents sidx [] = []
muxes_among fuel parents sidx (m ∷ ms) =
    let rest = muxes_among fuel parents sidx ms in
    if is_mux (or_empty (attr (codes "INSTANCE") m)) (or_empty (attr (codes "MODTYPE") m))
    then mux_of fuel parents sidx m ∷ rest
    else rest

abbrev pub by_instance : Mux → Mux → Bool
by_instance a b = text_le a.inst b.inst

-- The fuel for the walks to the root: the number of elements.
unfoldable pub parse_muxes : Element → List Mux
unfolding muxes_among sort_by signame_index parent_map iter_tag text_le
parse_muxes root =
    let fuel = length (iter_all root) in
    let parents = parent_map root in
    let sidx = signame_index fuel root parents in
    sort_by by_instance (muxes_among fuel parents sidx (iter_tag module_tag root))
