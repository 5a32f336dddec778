-- ===== src/Driver/Probe/Extra.antt =====
-- What `aximux_parse_extra_groups` of driver/aximux.c adds, and when it fails.
use aximux.Prelude.{
  List-cases, ℕ, List, [], ◌∷◌, ◌++◌, some, ◌≡◌, refl, sym, ap, ◌∙◌, arith, length, same, text_eq,
  append-nil, append_assoc, inl, inr, subst, Exists, ◌≢◌,
}
use aximux.Text.{Text}
use aximux.Driver.{AximuxGroup, FunctionGroup, einval}
use aximux.Driver.Nodes.{Node, Result, ret, err, ◌>>=◌, AximuxPin, or_default, cells_of}
use aximux.Driver.Probe.{
  aximux_add_function, aximux_parse_extra_groups, add_extra_group, GroupsAndFunctions, find_pins,
}
use aximux.Driver.Probe.Entries.{groups_of, group_if, groups-add_function}
use aximux.Driver.Probe.Pins.{>>=-eq-ret, ret-injective}

>>=_assoc {ℓ κ μ} :
    {A : Type ℓ} {B : Type κ} {C : Type μ} (m : Result A) (f : A → Result B) (g : B → Result C)
    → ((m >>= f) >>= g) ≡ (m >>= λ a. f a >>= g)
>>=_assoc (ret a) f g = refl
>>=_assoc (err c) f g = refl

-- The child names pins.
abbrev pub named_pins : Node → List Text
named_pins c = or_default [] c.pins

module _ (pins : List AximuxPin) where
  -- The group and the function of a child, from its pins' numbers.
  abbrev pub with_group : Node → List ℕ → GroupsAndFunctions → GroupsAndFunctions
  with_group c is (groups, functions) = (
    groups ++ (record { name = c.name; pins = is } ∷ []),
    aximux_add_function (or_default c.name c.function) c.name
        (cells_of (length (named_pins c)) c.mux) functions,
  )

  pub parse_extra-skip :
      (c : Node) (cs : List Node) (acc : GroupsAndFunctions)
      → named_pins c ≡ []
      → aximux_parse_extra_groups pins (c ∷ cs) acc ≡ aximux_parse_extra_groups pins cs acc
  unfolding aximux_parse_extra_groups
  parse_extra-skip c cs acc e = ground arith

  pub parse_extra-add :
      (c : Node) (cs : List Node) (acc : GroupsAndFunctions) {n : Text} {ns : List Text}
      → named_pins c ≡ n ∷ ns
      → aximux_parse_extra_groups pins (c ∷ cs) acc ≡ (
          find_pins pins (named_pins c) >>= λ is.
          aximux_parse_extra_groups pins cs (with_group c is acc))
  unfolding aximux_parse_extra_groups add_extra_group
  parse_extra-add c cs (groups, functions) {n} {ns} e =
      let p : c.pins ≡ some (n ∷ ns) = ground arith in
      rw (aximux_parse_extra_groups, p)
        (>>=_assoc (find_pins pins (n ∷ ns))
          (λ is. ret (
            groups ++ (record { name = c.name; pins = is } ∷ []),
            aximux_add_function (or_default c.name c.function) c.name
                (cells_of (length (n ∷ ns)) c.mux) functions,
          ))
          (aximux_parse_extra_groups pins cs))

  -- A later group and a later function come after those that are there.
  abbrev pub Extends : GroupsAndFunctions → GroupsAndFunctions → Type 0
  Extends (gs, fs) (gs', fs') =
      ((more : List AximuxGroup) × (gs' ≡ gs ++ more))
      × ((name : Text)
          → (more : List FunctionGroup) × (groups_of name fs' ≡ groups_of name fs ++ more))

  Extends-refl : (acc : GroupsAndFunctions) → Extends acc acc
  Extends-refl (gs, fs) =
      (([], sym (append-nil gs)), λ name. ([], sym (append-nil (groups_of name fs))))

  Extends-trans : (a b c : GroupsAndFunctions) → Extends a b → Extends b c → Extends a c
  Extends-trans (gs, fs) (gs', fs') (gs'', fs'') ((m, e), h) ((m', e'), h') = (
    (m ++ m', e' ∙ rw (e, append_assoc) refl),
    λ name.
        let (k, q) = h name in let (k', q') = h' name in (k ++ k', q' ∙ rw (q, append_assoc) refl),
  )

  with_group-Extends :
      (c : Node) (is : List ℕ) (acc : GroupsAndFunctions) → Extends acc (with_group c is acc)
  with_group-Extends c is (gs, fs) = (
    (record { name = c.name; pins = is } ∷ [], refl),
    λ name. (
      group_if (same name (or_default c.name c.function))
          (record { name = c.name; mux_vals = cells_of (length (named_pins c)) c.mux }),
      groups-add_function name (or_default c.name c.function) c.name
          (cells_of (length (named_pins c)) c.mux) fs,
    ),
  )

  -- The loop over the children keeps what is there and adds to it.
  pub parse_extra-Extends :
      (cs : List Node) (acc acc' : GroupsAndFunctions)
      → aximux_parse_extra_groups pins cs acc ≡ ret acc'
      → Extends acc acc'
  parse_extra-Extends [] acc acc' h =
      let done : ret acc ≡ ret acc' = unfold aximux_parse_extra_groups in h in
      subst (Extends acc) (ret-injective done) (Extends-refl acc)
  parse_extra-Extends (c ∷ cs) acc acc' h = elim (List-cases (named_pins c)) [
    | inl e ↦ parse_extra-Extends cs acc acc' (sym (parse_extra-skip c cs acc e) ∙ h)
    | inr (n, ns, e) ↦
        let (is, _, h') =
          >>=-eq-ret (find_pins pins (named_pins c))
            (λ is. aximux_parse_extra_groups pins cs (with_group c is acc))
            (sym (parse_extra-add c cs acc e) ∙ h) in
        Extends-trans acc (with_group c is acc) acc' (with_group-Extends c is acc)
          (parse_extra-Extends cs (with_group c is acc) acc' h')
  ]

  find_pins-nil : find_pins pins [] ≡ ret []
  unfolding find_pins
  find_pins-nil = refl

  -- A child that names a pin that is not there.
  abbrev pub Unknown : Node → Type 0
  Unknown c = find_pins pins (named_pins c) ≡ err einval

  no_names : (c : Node) → named_pins c ≡ [] → ¬ Unknown c
  no_names c e u =
      let none_missing : find_pins pins [] ≡ ret [] = find_pins-nil in cc (ap (find_pins pins) e)

  pub parse_extra-Unknown :
      (cs : List Node) (acc acc' : GroupsAndFunctions)
      → Exists Unknown cs
      → aximux_parse_extra_groups pins cs acc ≢ ret acc'
  parse_extra-Unknown [] acc acc' x h = absurd x
  parse_extra-Unknown (c ∷ cs) acc acc' x h = elim (List-cases (named_pins c)) [
    | inl e ↦ elim x [
      | inl u ↦ no_names c e u
      | inr x' ↦ parse_extra-Unknown cs acc acc' x' (sym (parse_extra-skip c cs acc e) ∙ h)
    ]
    | inr (n, ns, e) ↦
        let (is, found, h') =
          >>=-eq-ret (find_pins pins (named_pins c))
            (λ is. aximux_parse_extra_groups pins cs (with_group c is acc))
            (sym (parse_extra-add c cs acc e) ∙ h) in
        elim x [ inl u ↦ cc | inr x' ↦ parse_extra-Unknown cs (with_group c is acc) acc' x' h' ]
  ]
