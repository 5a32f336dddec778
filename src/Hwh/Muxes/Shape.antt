-- ===== src/Hwh/Muxes/Shape.antt =====
-- The shape of what `parse_muxes` returns: everything in order, nothing twice.
use aximux.Prelude.{
  ℕ, List, [], ◌∷◌, Bool, true, false, if◌then◌else◌, ◌≡◌, refl, All, map, length, nat_eq,
}
use aximux.Prelude.Dict
use aximux.Prelude.Dict.{Dict, keys}
use aximux.Prelude.Sort.{sort_by, sort_by-All, SortedBy, sort_by-SortedBy}
use aximux.Text.{codes, text_le-total, text_le_trans}
use aximux.Hwh.Model.{Slot, Pin, Mux}
use aximux.Hwh.Xml.{
  SignalIndex, Element, Parents, attr, or_empty, ports_of_module, iter_all, iter_tag, module_tag,
  parent_map, signame_index,
}
use aximux.Hwh.Muxes.{
  by_key, by_instance, pin_of, slot_of, pin_list, Slots, Pins, collect_pins, is_mux, mux_of,
  muxes_among, parse_muxes,
}
use aximux.Hwh.Muxes.Order.{Ascending, sort_by-Ascending}
use aximux.Hwh.Muxes.Invariant.{Filed, IsTable, collect_pins-IsTable}
use aximux.Hwh.Muxes.Lookup.{pins-mux_of}

abbrev pub index_of : Pin → ℕ
index_of p = p.index

abbrev pub alt_of : Slot → ℕ
alt_of s = s.alt

-- The pins are counted, their numbers ascend, and so do the numbers of the alternates of each.
pub record IsOrdered (mux : Mux) : Type 0 where
  pub counted : mux.npins ≡ length mux.pins
  pub pins_ascend : Ascending (map index_of mux.pins)
  pub alts_ascend : All (λ (p : Pin). Ascending (map alt_of p.alts)) mux.pins

index_of-pin_of : (pins : Pins) → map index_of (map pin_of pins) ≡ keys pins
index_of-pin_of [] = refl
index_of-pin_of ((i, d) ∷ pins) = rw (index_of-pin_of pins)

alt_of-slot_of : (d : Slots) → Filed d → map alt_of (map slot_of d) ≡ keys d
alt_of-slot_of [] f = refl
alt_of-slot_of ((a, s) ∷ d) f = rw (f.0, alt_of-slot_of d f.1)

slots_ascend :
    (d : Slots)
    → Dict.NodupKeys d
    → Filed d
    → Ascending (map alt_of (map slot_of (sort_by by_key d)))
slots_ascend d u f =
    rw
      (alt_of-slot_of (sort_by by_key d)
        (sort_by-All by_key (λ ((b, s) : ℕ × Slot). s.alt ≡ b) d f))
      (sort_by-Ascending d u)

All-slots_ascend :
    (pins : Pins)
    → All (λ ((i, d) : ℕ × Slots). Dict.NodupKeys d × Filed d) pins
    → All (λ (p : Pin). Ascending (map alt_of p.alts)) (map pin_of pins)
All-slots_ascend [] f = tt
All-slots_ascend ((i, d) ∷ pins) f = (slots_ascend d f.0.0 f.0.1, All-slots_ascend pins f.1)

pin_list-ascend :
    (pins : Pins)
    → IsTable pins
    → Ascending (map index_of (pin_list pins))
      × All (λ (p : Pin). Ascending (map alt_of p.alts)) (pin_list pins)
unfolding pin_list
pin_list-ascend pins (u, f) = (
  rw (index_of-pin_of (sort_by by_key pins)) (sort_by-Ascending pins u),
  All-slots_ascend (sort_by by_key pins)
      (sort_by-All by_key (λ ((i, d) : ℕ × Slots). Dict.NodupKeys d × Filed d) pins f),
)

npins-mux_of :
    (fuel : ℕ) (parents : Parents) (sidx : SignalIndex) (m : Element)
    → (mux_of fuel parents sidx m).npins ≡ length (mux_of fuel parents sidx m).pins
unfolding mux_of
npins-mux_of fuel parents sidx m = refl

mux_of-IsOrdered :
    (fuel : ℕ) (parents : Parents) (sidx : SignalIndex) (m : Element)
    → IsOrdered (mux_of fuel parents sidx m)
mux_of-IsOrdered fuel parents sidx m = record {
  counted = npins-mux_of fuel parents sidx m;
  pins_ascend = rw (pins-mux_of fuel parents sidx m) ascend.0;
  alts_ascend = rw (pins-mux_of fuel parents sidx m) ascend.1;
}
  where
    pins : Pins
    pins =
        collect_pins sidx (or_empty (attr (codes "INSTANCE") m)) (ports_of_module fuel parents m) []

    ascend :
        Ascending (map index_of (pin_list pins))
        × All (λ (p : Pin). Ascending (map alt_of p.alts)) (pin_list pins)
    ascend = pin_list-ascend pins (
        collect_pins-IsTable sidx (or_empty (attr (codes "INSTANCE") m))
          (ports_of_module fuel parents m) [] (tt, tt))

abbrev named_mux : Element → Bool
named_mux m = is_mux (or_empty (attr (codes "INSTANCE") m)) (or_empty (attr (codes "MODTYPE") m))

muxes_among-cons :
    (fuel : ℕ) (parents : Parents) (sidx : SignalIndex) (m : Element) (ms : List Element)
    → muxes_among fuel parents sidx (m ∷ ms) ≡ (
        if named_mux m
        then mux_of fuel parents sidx m ∷ muxes_among fuel parents sidx ms
        else muxes_among fuel parents sidx ms)
unfolding muxes_among
muxes_among-cons fuel parents sidx m ms = refl

All-if :
    (b : Bool) (mux : Mux) (rest : List Mux)
    → IsOrdered mux
    → All IsOrdered rest
    → All IsOrdered (if b then mux ∷ rest else rest)
All-if true mux rest h a = (h, a)
All-if false mux rest h a = a

muxes_among-IsOrdered :
    (fuel : ℕ) (parents : Parents) (sidx : SignalIndex) (ms : List Element)
    → All IsOrdered (muxes_among fuel parents sidx ms)
muxes_among-IsOrdered fuel parents sidx [] = unfold muxes_among in tt
muxes_among-IsOrdered fuel parents sidx (m ∷ ms) = rw (muxes_among-cons fuel parents sidx m ms) (
    All-if (named_mux m) (mux_of fuel parents sidx m) (muxes_among fuel parents sidx ms)
      (mux_of-IsOrdered fuel parents sidx m) (muxes_among-IsOrdered fuel parents sidx ms))

parse_muxes_eq :
    (root : Element)
    → parse_muxes root
      ≡ sort_by by_instance (
          muxes_among
            (length (iter_all root))
            (parent_map root)
            (signame_index (length (iter_all root)) root (parent_map root))
            (iter_tag module_tag root))
unfolding parse_muxes
parse_muxes_eq root = refl

-- For every document, the muxes are in the order of their instance names, the pins of each are
-- counted and in strictly ascending order of their indices, and the alternates of each pin are in
-- strictly ascending order: no pin and no alternate is listed twice.
pub parse_muxes-IsOrdered :
    (root : Element) → SortedBy by_instance (parse_muxes root) × All IsOrdered (parse_muxes root)
parse_muxes-IsOrdered root = rw (parse_muxes_eq root) (
  sort_by-SortedBy by_instance (λ a b. text_le-total a.inst b.inst)
      (λ a b c. text_le_trans a.inst b.inst c.inst) found,
  sort_by-All by_instance IsOrdered found (
      muxes_among-IsOrdered fuel (parent_map root) (signame_index fuel root (parent_map root))
        (iter_tag module_tag root)),
)
  where
    fuel : ℕ
    fuel = length (iter_all root)

    found : List Mux
    found =
        muxes_among fuel (parent_map root) (signame_index fuel root (parent_map root))
          (iter_tag module_tag root)
