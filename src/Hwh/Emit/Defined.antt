-- ===== src/Hwh/Emit/Defined.antt =====
-- The text that `emit_pinctrl2` of tools/hwh_aximux_dt.py returns defines the labels that it wires
-- consumers to.
use aximux.Prelude.{
  List, [], ◌∷◌, ◌++◌, Option, none, some, ◌≡◌, refl, subst, All, All-map, Exists,
  Exists-append_left, Exists-append_right, ◌⊎◌, inl, inr, concat, ◌>>=◌,
}
use aximux.Text.{Text, codes, join}
use aximux.Hwh.Model.{Mux, Naming}
use aximux.Hwh.Naming.{Regex}
use aximux.Hwh.Functions.{traverse}
use aximux.Hwh.Emit.Labels.{Labels}
use aximux.Hwh.Emit.Pinctrl2.{
  pinctrl2_header, mux_node, consumer_node, consumer_lines, consumer_wiring, pinctrl2_text,
  emit_pinctrl2,
}
use aximux.Hwh.Emit.Wiring.{IsWired, IsDefined, consumer_wiring-IsWired}

-- The line refers to the first of the labels.
abbrev pub Refers : List Text → Text → Type 0
Refers [] line = ⊥
Refers (label ∷ labels) line = line ≡ codes "  pinctrl-0 = <&" ++ (label ++ codes ">;")

module _ (re : Regex) (naming : Naming) where
  -- What the node of some mux labels is labelled in all the nodes together.
  nodes-Labels :
      (label : Text) (muxes : List Mux) (nodes : List (List Text))
      → traverse (mux_node re naming) muxes ≡ some nodes
      → IsDefined re naming muxes label
      → Exists (Labels label) (concat nodes)
  nodes-Labels label [] nodes h d = absurd d
  nodes-Labels label (mux ∷ muxes) nodes h d =
      first (mux_node re naming mux) (traverse (mux_node re naming) muxes)
        (nodes-Labels label muxes) h d
    where
      first :
          (a : Option (List Text)) (b : Option (List (List Text)))
          → ((ns : List (List Text))
              → b ≡ some ns
              → IsDefined re naming muxes label
              → Exists (Labels label) (concat ns))
          → (a >>= λ y. b >>= λ ys. some (y ∷ ys)) ≡ some nodes
          → elim a as (λ x. Type 0) [ none ↦ Unit | some lines ↦ Exists (Labels label) lines ]
            ⊎ IsDefined re naming muxes label
          → Exists (Labels label) (concat nodes)
      first none b ih h d = absurd (cc h)
      first (some y) none ih h d = absurd (cc h)
      first (some y) (some ys) ih h (inl d) =
          let e : y ∷ ys ≡ nodes = cc h in
          subst (λ ns. Exists (Labels label) (concat ns)) e
            (Exists-append_left (Labels label) y (concat ys) d)
      first (some y) (some ys) ih h (inr d) =
          let e : y ∷ ys ≡ nodes = cc h in
          subst (λ ns. Exists (Labels label) (concat ns)) e
            (Exists-append_right (Labels label) y (concat ys) (ih ys refl d))

  wired-Refers :
      (ws : List (Text × List Text)) (wired : List (List Text))
      → traverse (consumer_node re naming) ws ≡ some wired
      → All (λ w. Exists (Refers w.1) (concat wired)) ws
  wired-Refers [] wired h = tt
  wired-Refers ((c, []) ∷ ws) wired h = absurd (cc h)
  wired-Refers ((c, l ∷ ls) ∷ ws) wired h =
      rest (traverse (consumer_node re naming) ws) (wired-Refers ws) h
    where
      rest :
          (b : Option (List (List Text)))
          → ((ns : List (List Text)) → b ≡ some ns → All (λ w. Exists (Refers w.1) (concat ns)) ws)
          → (b >>= λ ys. some (consumer_lines c l ∷ ys)) ≡ some wired
          → All (λ w. Exists (Refers w.1) (concat wired)) ((c, l ∷ ls) ∷ ws)
      rest none ih h = absurd (cc h)
      rest (some ys) ih h =
          let e : consumer_lines c l ∷ ys ≡ wired = cc h in
          subst (λ ns. All (λ w. Exists (Refers w.1) (concat ns)) ((c, l ∷ ls) ∷ ws)) e
            (
              Exists-append_left (Refers (l ∷ ls)) (consumer_lines c l) (concat ys)
                  (inr (inr (inl refl))),
              All-map (λ w k. Exists-append_right (Refers w.1) (consumer_lines c l) (concat ys) k)
                  ws (ih ys refl),
            )

  abbrev text_lines : List (List Text) → List (List Text) → List Text
  text_lines nodes wired =
      pinctrl2_header
      ++ (concat nodes
          ++ ((codes "/* AUTO: consumer pinctrl-0 from HWH peer instances. */" ∷ [] ∷ [])
              ++ concat wired))

  text_lines-Labels :
      (label : Text) (nodes wired : List (List Text))
      → Exists (Labels label) (concat nodes)
      → Exists (Labels label) (text_lines nodes wired)
  text_lines-Labels label nodes wired h =
      Exists-append_right (Labels label) pinctrl2_header _
        (Exists-append_left (Labels label) (concat nodes) _ h)

  -- Where `emit_pinctrl2` returns a text, it is made of lines such that every consumer that is wired
  -- is none of those to skip, has at least one label, and each label that it is wired to stands in
  -- front of a node in one of these lines; and one of the lines refers to the first of its labels.
  pub emit_pinctrl2-IsWired :
      (muxes : List Mux) (text : Text)
      → emit_pinctrl2 re naming muxes ≡ some text
      → (lines : List Text) × (text ≡ join (codes "\n") lines)
        × All
            (IsWired re naming (λ label. Exists (Labels label) lines))
            (consumer_wiring re naming muxes)
        × All (λ w. Exists (Refers w.1) lines) (consumer_wiring re naming muxes)
  unfolding emit_pinctrl2 pinctrl2_text
  emit_pinctrl2-IsWired muxes text h =
      emitted (traverse (mux_node re naming) muxes)
        (traverse (consumer_node re naming) (consumer_wiring re naming muxes)) refl refl h
    where
      emitted :
          (a b : Option (List (List Text)))
          → traverse (mux_node re naming) muxes ≡ a
          → traverse (consumer_node re naming) (consumer_wiring re naming muxes) ≡ b
          → (a >>= λ nodes. b >>= λ wired. some (pinctrl2_text nodes wired)) ≡ some text
          → (lines : List Text) × (text ≡ join (codes "\n") lines)
            × All
                (IsWired re naming (λ label. Exists (Labels label) lines))
                (consumer_wiring re naming muxes)
            × All (λ w. Exists (Refers w.1) lines) (consumer_wiring re naming muxes)
      emitted none b e e' h = absurd (cc h)
      emitted (some nodes) none e e' h = absurd (cc h)
      emitted (some nodes) (some wired) e e' h = (
        text_lines nodes wired,
        cc h,
        All-map
            (λ w (k : IsWired re naming (IsDefined re naming muxes) w). (
              k.0,
              k.1,
              All-map
                  (λ label d.
                    text_lines-Labels label nodes wired (nodes-Labels label muxes nodes e d))
                  w.1 k.2,
            ))
            (consumer_wiring re naming muxes) (consumer_wiring-IsWired re naming muxes),
        All-map
            (λ w k.
              let P = Refers w.1 in
              Exists-append_right P pinctrl2_header _
                (Exists-append_right P (concat nodes) _ (inr (inr k))))
            (consumer_wiring re naming muxes)
            (wired-Refers (consumer_wiring re naming muxes) wired e'),
      )
