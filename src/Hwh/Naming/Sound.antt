-- ===== src/Hwh/Naming/Sound.antt =====
-- Naming rules of tools/hwh_aximux_dt.py whose regular expressions Python's `re` takes: nothing is
-- raised.
use aximux.Prelude.{
  List, [], ◌∷◌, Option, none, some, Bool, true, false, ◌≡◌, refl, All, if◌then◌else◌, text_eq,
  if-false,
}
use aximux.Prelude.Dict
use aximux.Text.{Text}
use aximux.Hwh.Model.{Naming, Rule}
use aximux.Hwh.Naming.{Regex, truthy, rules_raise, naming_raises}

-- A rule that is used has a pattern and a replacement that Python's `re` takes.
abbrev pub IsSound : Regex → Rule → Type 0
IsSound re r = elim (truthy r.pattern_text) as (λ x. Type 0) [
  | none ↦ Unit
  | some pat ↦ elim r.replacement as (λ x. Type 0) [
    | none ↦ Unit
    | some repl ↦ (re.bad_pattern pat ≡ false) × (re.bad_replacement pat repl ≡ false)
  ]
]

module _ (re : Regex) where
  rules_quiet :
      (rules : List Rule) (label : Text)
      → All (IsSound re) rules
      → rules_raise re rules label ≡ false
  unfolding rules_raise
  rules_quiet [] label h = refl
  rules_quiet (r ∷ rules) label h =
      one (truthy r.pattern_text) r.replacement h.0 (rules_quiet rules label h.1)
    where
      one :
          (pat repl : Option Text)
          → elim pat as (λ x. Type 0) [
            | none ↦ Unit
            | some p ↦ elim repl as (λ x. Type 0) [
              | none ↦ Unit
              | some q ↦ (re.bad_pattern p ≡ false) × (re.bad_replacement p q ≡ false)
            ]
          ]
          → rules_raise re rules label ≡ false
          → elim pat as (λ x. Bool) [
            | none ↦ rules_raise re rules label
            | some p ↦ elim repl as (λ x. Bool) [
              | none ↦ rules_raise re rules label
              | some q ↦
                  if re.bad_pattern p
                  then true
                  else if re.search_in p label
                  then re.bad_replacement p q
                  else rules_raise re rules label
            ]
          ]
            ≡ false
      one none repl h e = e
      one (some p) none h e = e
      one (some p) (some q) h e = rw (h.0, h.1) (if-false (re.search_in p label) _ e)

  pub naming_quiet :
      (naming : Naming)
      → All (IsSound re) naming.rules
      → (label : Option Text) → naming_raises re label naming ≡ false
  unfolding naming_raises
  naming_quiet naming h label = quiet (truthy label)
    where
      quiet :
          (o : Option Text)
          → elim o as (λ x. Bool) [
            | none ↦ false
            | some l ↦ elim (Dict.lookup l naming.overrides) as (λ x. Bool) [
              | some name ↦ false
              | none ↦ rules_raise re naming.rules l
            ]
          ]
            ≡ false
      quiet none = refl
      quiet (some l) = override (Dict.lookup l naming.overrides)
        where
          override :
              (d : Option Text)
              → elim d as (λ x. Bool) [ some name ↦ false | none ↦ rules_raise re naming.rules l ]
                ≡ false
          override none = rules_quiet naming.rules l h
          override (some name) = refl
