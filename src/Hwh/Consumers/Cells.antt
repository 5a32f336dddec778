-- ===== src/Hwh/Consumers/Cells.antt =====
-- The `pins` of a group of `emit_consumers`: `sorted(set(pins))`.
use aximux.Prelude.{
  ℕ, ◌<◌, List, [], ◌∷◌, false, ◌||◌, ◌≡◌, refl, ◌∙◌, arith, same, contains, nat_eq, All, All-map,
  Bool-cases, inl, inr, leb,
}
use aximux.Prelude.Sort.{insert_sorted, sort_by}
use aximux.Hwh.Muxes.Order.{Ascending}
use aximux.Hwh.Consumers.{pin_cells, pin_set}

contains-pin_set : (pins : List ℕ) (k : ℕ) → contains (pin_set pins) k ≡ contains pins k
unfolding pin_set
contains-pin_set [] k = refl
contains-pin_set (i ∷ pins) k = ground (arith, contains-pin_set pins k)

contains-insert_sorted :
    (i : ℕ) (ks : List ℕ) (k : ℕ)
    → contains (insert_sorted leb i ks) k ≡ (same k i || contains ks k)
unfolding insert_sorted
contains-insert_sorted i [] k = refl
contains-insert_sorted i (j ∷ ks) k = ground (arith, contains-insert_sorted i ks k)

contains-sort_by : (ks : List ℕ) (k : ℕ) → contains (sort_by leb ks) k ≡ contains ks k
unfolding sort_by
contains-sort_by [] k = refl
contains-sort_by (i ∷ ks) k =
    contains-insert_sorted i (sort_by leb ks) k ∙ ground (arith, contains-sort_by ks k)

insert_sorted-All :
    (j i : ℕ) (ks : List ℕ)
    → j < i
    → All (λ y. j < y) ks
    → All (λ y. j < y) (insert_sorted leb i ks)
unfolding insert_sorted
insert_sorted-All j i [] h a = (h, tt)
insert_sorted-All j i (k ∷ ks) h a = elim (Bool-cases (leb i k)) [
  | inl e ↦ rw e (h, a)
  | inr e ↦ rw e (a.0, insert_sorted-All j i ks h a.1)
]

insert_sorted-Ascending :
    (i : ℕ) (ks : List ℕ)
    → contains ks i ≡ false
    → Ascending ks
    → Ascending (insert_sorted leb i ks)
unfolding insert_sorted
insert_sorted-Ascending i [] n a = (tt, tt)
insert_sorted-Ascending i (j ∷ ks) n a = elim (Bool-cases (leb i j)) [
  | inl e ↦
      let lt : i < j = ground arith in rw e ((lt, All-map (λ y (h : j < y). omega arith) ks a.0), a)
  | inr e ↦
      rw e (
        insert_sorted-All j i ks (ground arith) a.0,
        insert_sorted-Ascending i ks (ground arith) a.1,
      )
]

sort_by-Ascending : (pins : List ℕ) → Ascending (sort_by leb (pin_set pins))
unfolding sort_by pin_set
sort_by-Ascending [] = tt
sort_by-Ascending (i ∷ pins) = elim (Bool-cases (contains (pin_set pins) i)) [
  | inl e ↦ rw (e) (sort_by-Ascending pins)
  | inr e ↦ rw (e) (
      insert_sorted-Ascending i (sort_by leb (pin_set pins)) (contains-sort_by (pin_set pins) i ∙ e)
        (sort_by-Ascending pins))
]

-- The cells of a group's `pins` are the group's pin indices, no more and no fewer, in strictly
-- ascending order, however often and in whatever order they were collected.
pub pin_cells_lem :
    (pins : List ℕ)
    → Ascending (pin_cells pins) × ((k : ℕ) → contains (pin_cells pins) k ≡ contains pins k)
unfolding pin_cells
pin_cells_lem pins =
    (sort_by-Ascending pins, λ k. contains-sort_by (pin_set pins) k ∙ contains-pin_set pins k)
