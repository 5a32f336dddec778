-- ===== src/Hwh/Emit/Wiring.antt =====
-- The consumers' part of `emit_pinctrl2`: who is wired, and to which groups.
use aximux.Prelude.{
  ◌>>=◌, List, [], ◌∷◌, ◌++◌, Option, none, some, Bool, true, false, if◌then◌else◌, ◌≡◌, refl, ◌≢◌,
  subst, All, All-map, All-append, Exists, Exists-map, All-Exists, contains, text_eq, Bool-cases,
  inl, inr,
}
use aximux.Prelude.Dict
use aximux.Prelude.Dict.{Dict, keys}
use aximux.Prelude.Sort.{sort_by, sort_by-All}
use aximux.Text.{Text, text_le}
use aximux.Hwh.Model.{Mux, Naming}
use aximux.Hwh.Naming.{Regex, unless}
use aximux.Hwh.Groups.{Groups, groups_raise}
use aximux.Hwh.Functions.{traverse}
use aximux.Hwh.Emit.Labels.{group_label, Labels, mux_lines-Labels}
use aximux.Hwh.Emit.Pinctrl2.{
  Wiring, AllGroups, merge, merge_groups, merge_muxes, sorted_groups, wire, by_consumer, by_name,
  consumer_wiring, mux_lines, mux_node, pin_node,
}

module _ (P : Text → Type 0) where
  abbrev Labelled : AllGroups → Type 0
  Labelled = All λ ((name, w) : Text × Wiring). P w.label

  merge_groups-Labelled :
      (groups : Groups) (acc : AllGroups)
      → All (λ name. P (group_label name)) (keys groups)
      → Labelled acc
      → Labelled (merge_groups groups acc)
  merge_groups-Labelled [] acc h l = unfold merge_groups in l
  merge_groups-Labelled ((name, g) ∷ groups) acc h l = rw eq (
      merge_groups-Labelled groups (Dict.alter name (merge name g.consumers) acc) h.1 (
        Dict.alter-All (λ ((n, w) : Text × Wiring). P w.label) name (merge name g.consumers) acc h.0
          (λ n w e k. k) l))
    where
      eq :
          merge_groups ((name, g) ∷ groups) acc
          ≡ merge_groups groups (Dict.alter name (merge name g.consumers) acc)
      eq = unfold merge_groups in refl

anything : (xs : List Text) → All (λ x. Unit {0}) xs
anything [] = tt
anything (x ∷ xs) = (tt, anything xs)

module _ (re : Regex) (naming : Naming) where
  module _ (P : Text → Type 0) where
    merge_muxes-Labelled :
        (muxes : List Mux) (acc : AllGroups)
        → All (λ mux. All (λ name. P (group_label name)) (keys (sorted_groups re naming mux))) muxes
        → Labelled P acc
        → Labelled P (merge_muxes re naming muxes acc)
    merge_muxes-Labelled [] acc h l = unfold merge_muxes in l
    merge_muxes-Labelled (mux ∷ muxes) acc h l = rw eq (
        merge_muxes-Labelled muxes (merge_groups (sorted_groups re naming mux) acc) h.1
          (merge_groups-Labelled P (sorted_groups re naming mux) acc h.0 l))
      where
        eq :
            merge_muxes re naming (mux ∷ muxes) acc
            ≡ merge_muxes re naming muxes (merge_groups (sorted_groups re naming mux) acc)
        eq = unfold merge_muxes in refl

    -- What holds of each consumer with its labels.
    abbrev pub IsWired : Text × List Text → Type 0
    IsWired (cons, labels) =
        (contains naming.skip_consumers cons ≡ false) × (labels ≢ []) × All P labels

    abbrev add_wire : Text → Option (List Text) → List Text
    add_wire label old = elim old [ none ↦ label ∷ [] | some ls ↦ ls ++ (label ∷ []) ]

    snoc-ne-nil : (ls : List Text) (l : Text) → ls ++ (l ∷ []) ≢ []
    snoc-ne-nil [] l h = cc
    snoc-ne-nil (k ∷ ls) l h = cc

    wire_one :
        (label cons : Text) (acc : Dict Text (List Text))
        → P label
        → All IsWired acc
        → All IsWired (
            if contains naming.skip_consumers cons
            then acc
            else Dict.alter cons (add_wire label) acc)
    wire_one label cons acc h a = elim (Bool-cases (contains naming.skip_consumers cons)) [
      | inl e ↦ rw e a
      | inr e ↦ rw e (
          Dict.alter-All IsWired cons (add_wire label) acc (e, λ k. cc, (h, tt))
            (λ c ls _ w. (w.0, snoc-ne-nil ls label, All-append P ls (label ∷ []) w.2 (h, tt))) a)
    ]

    wire-IsWired :
        (label : Text) (cs : List Text) (acc : Dict Text (List Text))
        → P label
        → All IsWired acc
        → All IsWired (wire re naming label cs acc)
    wire-IsWired label [] acc h a = unfold wire in a
    wire-IsWired label (c ∷ cs) acc h a =
        rw eq (wire-IsWired label cs _ h (wire_one label c acc h a))
      where
        eq :
            wire re naming label (c ∷ cs) acc
            ≡ wire re naming label cs (
                if contains naming.skip_consumers c then acc else Dict.alter c (add_wire label) acc)
        eq = unfold wire in refl

    by_consumer-IsWired :
        (groups : AllGroups) (acc : Dict Text (List Text))
        → Labelled P groups
        → All IsWired acc
        → All IsWired (by_consumer re naming groups acc)
    by_consumer-IsWired [] acc l a = unfold by_consumer in a
    by_consumer-IsWired ((name, w) ∷ groups) acc l a = rw eq (
        by_consumer-IsWired groups (wire re naming w.label (sort_by text_le w.consumers) acc) l.1
          (wire-IsWired w.label (sort_by text_le w.consumers) acc l.0 a))
      where
        eq :
            by_consumer re naming ((name, w) ∷ groups) acc
            ≡ by_consumer re naming groups
                (wire re naming w.label (sort_by text_le w.consumers) acc)
        eq = unfold by_consumer in refl

  -- The text of a mux, if nothing is raised, has the label in front of a node.
  abbrev pub EmitsLabel : Text → Mux → Type 0
  EmitsLabel label mux = elim (mux_node re naming mux) [
    | none ↦ Unit
    | some lines ↦ Exists (Labels label) lines
  ]

  -- A label that the text of some mux defines, or a mux raises.
  abbrev pub IsDefined : List Mux → Text → Type 0
  IsDefined muxes label = Exists (EmitsLabel label) muxes

  mux_node-EmitsLabel :
      (mux : Mux)
      → All (λ name. EmitsLabel (group_label name) mux) (keys (sorted_groups re naming mux))
  unfolding mux_node
  mux_node-EmitsLabel mux =
      emitted (traverse (pin_node re naming mux) mux.pins) (groups_raise re naming mux)
    where
      emitted :
          (o : Option (List (List Text))) (b : Bool)
          → All
              (λ name.
                elim (o >>= λ pins.
                unless b
                  (mux_lines mux.inst pins (sorted_groups re naming mux) naming.group_aliases))
                  as (λ x. Type 0) [
                    | none ↦ Unit
                    | some lines ↦ Exists (Labels (group_label name)) lines
                  ])
              (keys (sorted_groups re naming mux))
      emitted none b = anything (keys (sorted_groups re naming mux))
      emitted (some pins) true = anything (keys (sorted_groups re naming mux))
      emitted (some pins) false =
          mux_lines-Labels mux.inst pins (sorted_groups re naming mux) naming.group_aliases

  All-IsDefined :
      (muxes : List Mux)
      → All
          (λ mux.
            All (λ name. IsDefined muxes (group_label name)) (keys (sorted_groups re naming mux)))
          muxes
  All-IsDefined muxes =
      All-map
        (λ mux (here : Exists (λ mux'. mux ≡ mux') muxes).
          All-map
            (λ name (h : EmitsLabel (group_label name) mux).
              Exists-map (λ mux' (e : mux ≡ mux'). subst (EmitsLabel (group_label name)) e h) muxes
                here)
            (keys (sorted_groups re naming mux)) (mux_node-EmitsLabel mux))
        muxes (All-Exists (λ m n. m ≡ n) (λ m. refl) muxes)

  -- The consumers that are wired, mux by mux; Hwh/Emit/Defined has the whole text.
  pub consumer_wiring-IsWired :
      (muxes : List Mux) → All (IsWired (IsDefined muxes)) (consumer_wiring re naming muxes)
  consumer_wiring-IsWired muxes = rw eq (
      sort_by-All by_name (IsWired (IsDefined muxes)) (by_consumer re naming sorted []) (
        by_consumer-IsWired (IsDefined muxes) sorted []
          (sort_by-All by_name (λ ((n, w) : Text × Wiring). IsDefined muxes w.label) merged
            (merge_muxes-Labelled (IsDefined muxes) muxes [] (All-IsDefined muxes) tt))
          tt))
    where
      merged : AllGroups
      merged = merge_muxes re naming muxes []

      sorted : AllGroups
      sorted = sort_by by_name merged

      eq : consumer_wiring re naming muxes ≡ sort_by by_name (by_consumer re naming sorted [])
      eq = unfold consumer_wiring in refl
