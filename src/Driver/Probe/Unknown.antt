-- ===== src/Driver/Probe/Unknown.antt =====
-- Extra groups that name their pins as `pin@N`, the way of the binding and of the example tree.
use aximux.Prelude.{
  ℕ, List, [], ◌∷◌, ◌++◌, none, some, ◌≡◌, refl, sym, ap, ◌∙◌, ◌≢◌, All, All-map, Exists,
  Exists-map, same, same_sound, find_first, text_eq, all, Bool-cases, inl, inr, Option-cases, ◌⊎◌,
}
use mathlib.Core.Option.{some-injective}
use aximux.Text.{Text, codes, strip_prefix, strip_prefix-append}
use aximux.Text.Decimal.{str, is_digit, all-is_digit-str}
use aximux.Device
use aximux.Device.{AximuxState, muxinfo_reg}
use aximux.Driver.{Code, einval}
use aximux.Driver.Nodes.{Node, Result, ret, err, ◌>>=◌, AximuxPin, Aximux}
use aximux.Driver.Probe.{
  pin_name, hw_pins, aximux_find_pin_by_name, find_pins, aximux_parse_pins,
  aximux_build_default_groups, aximux_parse_extra_groups, aximux_tables, aximux_probe,
}
use aximux.Driver.Probe.Pins.{>>=-eq-ret, IsPin, aximux_parse_pins_lem}
use aximux.Driver.Probe.Extra.{named_pins, parse_extra-Unknown}

-- No pin has the name.
abbrev IsMissing : List AximuxPin → Text → Type 0
IsMissing pins n = All (λ (p : AximuxPin). p.name ≢ n) pins

find_missing :
    (pins : List AximuxPin) (n : Text)
    → IsMissing pins n
    → find_first (λ (p : AximuxPin). same p.name n) pins ≡ none
find_missing [] n h = refl
find_missing (p ∷ pins) n h = elim (Bool-cases (same p.name n)) [
  | inl e ↦ absurd (h.0 (same_sound p.name n e))
  | inr e ↦ rw (e) (find_missing pins n h.1)
]

find_by_name_missing :
    (pins : List AximuxPin) (n : Text)
    → IsMissing pins n
    → aximux_find_pin_by_name pins n ≡ err einval
unfolding aximux_find_pin_by_name
find_by_name_missing pins n h = rw (aximux_find_pin_by_name, find_missing pins n h) refl

find_by_name_code :
    (pins : List AximuxPin) (n : Text)
    → ((i : ℕ) × (aximux_find_pin_by_name pins n ≡ ret i))
      ⊎ (aximux_find_pin_by_name pins n ≡ err einval)
unfolding aximux_find_pin_by_name
find_by_name_code pins n =
    elim (Option-cases (find_first (λ (p : AximuxPin). same p.name n) pins)) [
      | inl e ↦ inr (rw (aximux_find_pin_by_name, e) refl)
      | inr (p, e) ↦ inl (p.number, rw (aximux_find_pin_by_name, e) refl)
    ]

-- The search for pins is over as soon as a name is missing: nothing else can go wrong.
find_pins_missing :
    (pins : List AximuxPin) (ns : List Text)
    → Exists (IsMissing pins) ns
    → find_pins pins ns ≡ err einval
unfolding find_pins
find_pins_missing pins [] h = absurd h
find_pins_missing pins (n ∷ ns) (inl h) = rw (find_by_name_missing pins n h) refl
find_pins_missing pins (n ∷ ns) (inr h) =
    later (aximux_find_pin_by_name pins n) (find_by_name_code pins n) (find_pins_missing pins ns h)
  where
    later :
        (m : Result ℕ)
        → ((i : ℕ) × (m ≡ ret i)) ⊎ (m ≡ err einval)
        → find_pins pins ns ≡ err einval
        → (m >>= λ i. find_pins pins ns >>= λ rest. ret (i ∷ rest)) ≡ err einval
    later m (inl (i, e)) e' = rw (e, e') refl
    later m (inr e) e' = rw (e) refl

-- `pin@` and anything.
abbrev pub IsAddressed : Text → Type 0
IsAddressed n = (t : Text) × (n ≡ codes "pin@" ++ t)

pin_name-ne-addressed : (k : ℕ) (n : Text) → IsAddressed n → pin_name k ≢ n
unfolding pin_name
pin_name-ne-addressed k n (t, e) p =
    let q : some (str k) ≡ some (b'@' ∷ t) =
      sym (strip_prefix-append (codes "pin") (str k))
      ∙ ap (strip_prefix (codes "pin")) (p ∙ e)
      ∙ strip_prefix-append (codes "pin") (b'@' ∷ t) in
    let r : str k ≡ b'@' ∷ t = some-injective _ _ q in cc (ap (all is_digit) r, all-is_digit-str k)

addressed-IsMissing :
    (hw : ℕ) (pins : List AximuxPin) (n : Text)
    → All (IsPin hw) pins
    → IsAddressed n
    → IsMissing pins n
addressed-IsMissing hw pins n good a =
    All-map {Q = λ p. p.name ≢ n}
      (λ p (h : IsPin hw p) (e : p.name ≡ n). pin_name-ne-addressed p.number n a (sym h.1 ∙ e)) pins
      good

aximux_tables_addressed :
    (info : ℕ) (children : List Node) (amx : Aximux)
    → Exists (λ c. Exists IsAddressed (named_pins c)) children
    → aximux_tables info children ≢ ret amx
unfolding aximux_tables
aximux_tables_addressed info children amx x h =
    let ((nalts, pins), hp, h') = >>=-eq-ret (aximux_parse_pins info children) _ h in
    let (acc, he, _) =
      >>=-eq-ret (aximux_parse_extra_groups pins children (aximux_build_default_groups pins)) _
        h' in
    let good = (aximux_parse_pins_lem info children (nalts, pins) hp).4 in
    parse_extra-Unknown pins children (aximux_build_default_groups pins) acc
      (Exists-map
        (λ c (y : Exists IsAddressed (named_pins c)). find_pins_missing pins (named_pins c) (
          Exists-map (λ n (a : IsAddressed n). addressed-IsMissing (hw_pins info) pins n good a)
            (named_pins c) y))
        children x)
      he

-- Whatever the registers hold, whatever the other children are, and whatever the pin control core
-- returns: where a child names one of its pins by `pin@` and anything after it, as the binding and
-- the example tree do, probing fails.
pub aximux_probe_addressed :
    (registered enabled : Aximux → Code) (regs : AximuxState) (children : List Node) (amx : Aximux)
    → Exists (λ c. Exists IsAddressed (named_pins c)) children
    → aximux_probe registered enabled regs children ≢ ret amx
unfolding aximux_probe
aximux_probe_addressed registered enabled regs children amx x h =
    let info = Device.aximux_read regs muxinfo_reg 4 in
    let (tables, ht, _) = >>=-eq-ret (aximux_tables info children) _ h in
    aximux_tables_addressed info children tables x ht
