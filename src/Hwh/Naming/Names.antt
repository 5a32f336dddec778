-- ===== src/Hwh/Naming/Names.antt =====
-- Names that `apply_naming` makes: distinct for distinct pins.
use aximux.Prelude.{
  ℕ, ◌+◌, [], ◌∷◌, ◌++◌, none, some, Bool, true, false, ◌||◌, ◌==◌, ◌≡◌, refl, sym, ◌∙◌, ap, arith,
  ◌≢◌, text_eq, if◌then◌else◌,
}
use aximux.Prelude.Dict
use aximux.Text.{Text, codes}
use aximux.Text.Decimal.{str, str-injective, str-ne-nil, all-is_digit-str}
use aximux.Text.Patterns.{digits_then, digits_then-append}
use aximux.Hwh.Model.{Naming}
use aximux.Hwh.Naming.{Regex, gpio_name, apply_naming, unused_name, strip_direction, direction}

append-injective : (p s t : Text) → p ++ s ≡ p ++ t → s ≡ t
append-injective [] s t h = h
append-injective (c ∷ p) s t h = append-injective p s t (cc h)

-- A number in front of a dot can be read off.
str_before_dot : (m n : ℕ) (s t : Text) → str m ++ b'.' ∷ s ≡ str n ++ b'.' ∷ t → m ≡ n
str_before_dot m n s t h = str-injective m n (
    cc (
      digits_then-append (str m) (b'.' ∷ s) (str-ne-nil m) (all-is_digit-str m) refl,
      digits_then-append (str n) (b'.' ∷ t) (str-ne-nil n) (all-is_digit-str n) refl,
      ap digits_then h,
    ))

gpio_name-injective :
    (mux_inst : Text) (i j : ℕ) (naming : Naming)
    → gpio_name mux_inst i naming ≡ gpio_name mux_inst j naming
    → i ≡ j
gpio_name-injective mux_inst i j naming h = omega (
  arith,
  str-injective (base + i) (base + j)
      (append-injective (codes ".") _ _ (append-injective prefix _ _ (sym (eq i) ∙ h ∙ eq j))),
)
  where
    base : ℕ
    base = Dict.get_or mux_inst 0 naming.gpio_bases

    prefix : Text
    prefix = elim naming.gpio_prefix [ none ↦ codes "gpio0" | some g ↦ g ]

    eq : (k : ℕ) → gpio_name mux_inst k naming ≡ prefix ++ (codes "." ++ str (base + k))
    eq k = unfold gpio_name in refl

unlabelled_lem :
    (re : Regex) (naming : Naming) (mux_inst : Text) (i a : ℕ)
    → apply_naming re none i a naming mux_inst
      ≡ (if a == 0 then gpio_name mux_inst i naming else unused_name i a)
unfolding apply_naming
unlabelled_lem re naming mux_inst i a = refl

unlabelled-injective :
    (re : Regex) (naming : Naming) (mux_inst : Text) (i j a : ℕ)
    → apply_naming re none i a naming mux_inst ≡ apply_naming re none j a naming mux_inst
    → i ≡ j
unlabelled-injective re naming mux_inst i j a h =
    step (a == 0)
      (sym (unlabelled_lem re naming mux_inst i a) ∙ h ∙ unlabelled_lem re naming mux_inst j a)
  where
    step :
        (b : Bool)
        → (if b then gpio_name mux_inst i naming else unused_name i a)
          ≡ (if b then gpio_name mux_inst j naming else unused_name j a)
        → i ≡ j
    step true e = gpio_name-injective mux_inst i j naming e
    step false e = str_before_dot i j (str a) (str a) (
        append-injective (codes "unused") (str i ++ (codes "." ++ str a))
          (str j ++ (codes "." ++ str a)) e)

-- Two pins of one mux that have no label at an alternate get different names there.
pub unlabelled_distinct :
    (re : Regex) (naming : Naming) (mux_inst : Text) (i j a : ℕ)
    → i ≢ j
    → apply_naming re none i a naming mux_inst ≢ apply_naming re none j a naming mux_inst
unlabelled_distinct re naming mux_inst i j a n h =
    n (unlabelled-injective re naming mux_inst i j a h)

-- `_i`, `_o`, `_t` and `_n`
abbrev pub is_direction : ℕ → Bool
is_direction d = (d == b'i') || ((d == b'o') || ((d == b't') || (d == b'n')))

strip_direction-cons :
    (c : ℕ) (t : Text)
    → strip_direction (c ∷ t)
      ≡ elim (direction (c ∷ t)) [ none ↦ c ∷ strip_direction t | some u ↦ u ]
unfolding strip_direction
strip_direction-cons c t = refl

no_direction : (c d : ℕ) (p : Text) → direction (c ∷ (p ++ (b'_' ∷ d ∷ []))) ≡ none
unfolding direction
no_direction c d [] = ground arith
no_direction c d (e ∷ []) = ground arith
no_direction c d (e ∷ f ∷ []) = ground arith
no_direction c d (e ∷ f ∷ g ∷ p) = ground arith

direction_end : (d : ℕ) → is_direction d ≡ true → direction (b'_' ∷ d ∷ []) ≡ some []
unfolding direction
direction_end d h = rw h

-- A port name that ends in `_i`, `_o`, `_t` or `_n` loses these two characters and nothing else.
pub strip_direction-append :
    (p : Text) (d : ℕ) → is_direction d ≡ true → strip_direction (p ++ (b'_' ∷ d ∷ [])) ≡ p
strip_direction-append [] d h = rw (strip_direction-cons b'_' (d ∷ []), direction_end d h)
strip_direction-append (c ∷ p) d h = rw (
  strip_direction-cons c (p ++ (b'_' ∷ d ∷ [])),
  no_direction c d p,
  strip_direction-append p d h,
)
