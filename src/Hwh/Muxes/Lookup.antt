-- ===== src/Hwh/Muxes/Lookup.antt =====
-- What the map of a mux holds, for each pin, kind of port and alternate.
use aximux.Prelude.{
  ℕ, [], ◌∷◌, Option, none, some, ◌==◌, ◌≡◌, refl, ◌∙◌, ap, arith, map, nat_eq, find_first, ◌>>=◌,
}
use aximux.Prelude.Dict
use aximux.Prelude.Dict.{Dict, keys}
use aximux.Prelude.Sort.{sort_by, sort_by-All}
use aximux.Text.{Text, codes}
use aximux.Hwh.Model.{Kind, Slot, Pin}
use aximux.Hwh.Functions.{slot_at}
use aximux.Hwh.Xml.{SignalIndex, Element, Parents, attr, or_empty, ports_of_module}
use aximux.Hwh.Muxes.{by_key, pin_of, slot_of, pin_list, Slots, Pins, collect_pins, mux_of}
use aximux.Hwh.Muxes.Order.{lookup-sort_by}
use aximux.Hwh.Muxes.Table.{link_of, table_link, last_link, read, read-collect_pins}
use aximux.Hwh.Muxes.Invariant.{Filed, IsTable, collect_pins-IsTable}

find_pin :
    (i : ℕ) (pins : Pins)
    → find_first (λ (p : Pin). p.index == i) (map pin_of pins)
      ≡ (Dict.lookup i pins >>= λ d. some (pin_of (i, d)))
unfolding Dict.lookup
find_pin i [] = refl
find_pin i ((j, d) ∷ pins) = ground (arith, find_pin i pins)

find_slot :
    (a : ℕ) (d : Slots)
    → Filed d
    → find_first (λ (s : Slot). s.alt == a) (map slot_of d) ≡ Dict.lookup a d
unfolding Dict.lookup
find_slot a [] f = refl
find_slot a ((b, s) ∷ d) f = ground (arith, find_slot a d f.1)

slot_at-pin_of : (i a : ℕ) (d : Slots) → Filed d → slot_at a (pin_of (i, d)) ≡ Dict.lookup a d
slot_at-pin_of i a d f =
    find_slot a (sort_by by_key d) (sort_by-All by_key (λ ((b, s) : ℕ × Slot). s.alt ≡ b) d f)
    ∙ lookup-sort_by a d

table_link-pin_list :
    (pins : Pins) (i : ℕ) (k : Kind) (a : ℕ)
    → IsTable pins
    → table_link (pin_list pins) i k a ≡ read pins i k a
unfolding pin_list read
table_link-pin_list pins i k a (u, f) =
    rw (find_pin i (sort_by by_key pins), lookup-sort_by i pins) (step (Dict.lookup i pins) refl)
  where
    step :
        (o : Option Slots)
        → Dict.lookup i pins ≡ o
        → ((o >>= λ d. some (pin_of (i, d))) >>= λ pin. slot_at a pin >>= link_of k)
          ≡ (o >>= λ d. Dict.lookup a d >>= link_of k)
    step none e = refl
    step (some d) e =
        let g : Filed d = (Dict.lookup-All (λ d. Dict.NodupKeys d × Filed d) i pins f e).1 in
        rw (slot_at-pin_of i a d g)

pub pins-mux_of :
    (fuel : ℕ) (parents : Parents) (sidx : SignalIndex) (m : Element)
    → (mux_of fuel parents sidx m).pins
      ≡ pin_list (
          collect_pins sidx
            (or_empty (attr (codes "INSTANCE") m))
            (ports_of_module fuel parents m)
            [])
unfolding mux_of
pins-mux_of fuel parents sidx m = refl

read_nothing : (i : ℕ) (k : Kind) (a : ℕ) → read [] i k a ≡ none
unfolding read Dict.lookup
read_nothing i k a = refl

-- In the pins of a mux, the link under any pin, kind and alternate is that of the last of the
-- module's ports whose name is read as that pin, kind and alternate; where no port's name is, there
-- is none.
pub table_link-mux_of :
    (fuel : ℕ) (parents : Parents) (sidx : SignalIndex) (m : Element) (i : ℕ) (k : Kind) (a : ℕ)
    → table_link (mux_of fuel parents sidx m).pins i k a
      ≡ last_link sidx
          (or_empty (attr (codes "INSTANCE") m))
          (ports_of_module fuel parents m)
          i
          k
          a
          none
table_link-mux_of fuel parents sidx m i k a = rw (pins-mux_of fuel parents sidx m) (
    table_link-pin_list (collect_pins sidx inst ports []) i k a
      (collect_pins-IsTable sidx inst ports [] (tt, tt))
    ∙ read-collect_pins sidx inst ports [] i k a
    ∙ ap (last_link sidx inst ports i k a) (read_nothing i k a))
  where
    inst : Text
    inst = or_empty (attr (codes "INSTANCE") m)

    ports : Dict Text Text
    ports = ports_of_module fuel parents m
