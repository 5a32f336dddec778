-- ===== src/Text/Patterns.antt =====
-- The building blocks of the fixed regular expressions in tools/hwh_aximux_dt.py, each as the
-- matcher that it denotes. Texts are ASCII where `\d` and the flag `re.I` are used.
use aximux.Prelude.{
  ℕ, Bool, true, false, ◌||◌, ◌&&◌, [], ◌∷◌, ◌++◌, Option, none, some, ◌>>=◌, ◌>>◌, guard, ◌==◌,
  leb, if◌then◌else◌, ◌≡◌, refl, arith, all, ◌≢◌, map,
}
use aximux.Text.Decimal.{is_digit}
use aximux.Text.Base.{Text, codes, strip_prefix}

-- `(\d*)`, greedily, and what is left.
unfoldable pub span_digits : Text → Text × Text
span_digits [] = ([], [])
span_digits (c ∷ t) =
    let rest = span_digits t in if is_digit c then (c ∷ rest.0, rest.1) else ([], c ∷ t)

nonempty : Text × Text → Option (Text × Text)
nonempty ([], t) = none
nonempty (c ∷ s, t) = some (c ∷ s, t)

-- `(\d+)` and what is left.
unfoldable pub digits_then : Text → Option (Text × Text)
unfolding span_digits nonempty
digits_then t = nonempty (span_digits t)

-- `$`: the end, or a newline that ends the text.
abbrev pub at_end : Text → Bool
at_end [] = true
at_end (c ∷ []) = c == b'\n'
at_end (c ∷ d ∷ t) = false

-- `re.search`: a match at some position.
unfoldable pub search_by : (Text → Bool) → Text → Bool
search_by p [] = p []
search_by p (c ∷ t) = p (c ∷ t) || search_by p t

-- `re.sub` for a pattern that ends in `$`: it matches once at most, and `at` gives the text from
-- the start of the match on, with the replacement put in.
unfoldable pub sub_tail : (Text → Option Text) → Text → Text
sub_tail at [] = []
sub_tail at (c ∷ t) = let rest = sub_tail at t in elim (at (c ∷ t)) [ none ↦ c ∷ rest | some u ↦ u ]

-- `re.sub(old + "$", new, t)` for a literal `old`.
unfoldable pub sub_suffix : Text → Text → Text → Text
unfolding sub_tail strip_prefix
sub_suffix old new = sub_tail λ t. do r ← strip_prefix old t; guard (at_end r); some (new ++ r)

-- `re.sub("^" + old + r"(\d+)\.", new + r"\1.", t)`
unfoldable pub sub_numbered : Text → Text → Text → Text
unfolding digits_then strip_prefix
sub_numbered old new t =
    elim (do
      r ← strip_prefix old t
      (ds, r') ← digits_then r
      r'' ← strip_prefix (codes ".") r'
      some (new ++ (ds ++ (codes "." ++ r'')))) [ none ↦ t | some u ↦ u ]

-- The characters of `[A-Za-z0-9_]`.
abbrev pub is_word : ℕ → Bool
is_word c =
    (leb b'A' c && leb c b'Z') || ((leb b'a' c && leb c b'z') || (is_digit c || (c == b'_')))

abbrev pub word_or_underscore : ℕ → ℕ
word_or_underscore c = if is_word c then c else b'_'

-- `re.sub(r"[^A-Za-z0-9_]", "_", t)`
abbrev pub sanitize : Text → Text
sanitize = map word_or_underscore

-- A text of digits in front of a rest that begins with none is what `(\d*)` takes.
abbrev pub NoDigitFirst : Text → Type 0
NoDigitFirst [] = Unit
NoDigitFirst (c ∷ t) = is_digit c ≡ false

pub span_digits-append :
    (s t : Text) → all is_digit s ≡ true → NoDigitFirst t → span_digits (s ++ t) ≡ (s, t)
unfolding span_digits
span_digits-append [] [] h k = refl
span_digits-append [] (c ∷ t) h k = rw k
span_digits-append (c ∷ s) t h k = ground (arith, span_digits-append s t)

pub digits_then-append :
    (s t : Text)
    → s ≢ []
    → all is_digit s ≡ true
    → NoDigitFirst t
    → digits_then (s ++ t) ≡ some (s, t)
unfolding nonempty
digits_then-append [] t n h k = absurd (n refl)
digits_then-append (c ∷ s) t n h k =
    unfold digits_then in rw (span_digits-append (c ∷ s) t h k, nonempty)

pub all-is_word-sanitize : (t : Text) → all is_word (sanitize t) ≡ true
all-is_word-sanitize [] = refl
all-is_word-sanitize (c ∷ t) = ground (arith, all-is_word-sanitize t)
