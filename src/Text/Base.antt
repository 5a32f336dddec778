-- ===== src/Text/Base.antt =====
-- Python's `str`, as the list of its code points, with the methods that the tools call.
use Prim.Native.Char.{code}
use Prim.Native.String.{String}
use aximux.Prelude.{
  ℕ, ◌+◌, Bool, true, false, ◌&&◌, ◌||◌, List, [], ◌∷◌, ◌++◌, map, Option, none, some, leb, ltb,
  ◌==◌, if◌then◌else◌, ◌≡◌, refl, arith,
}

abbrev pub Text : Type 0
Text = List ℕ

-- A literal.
abbrev pub codes : String → Text
codes String.[] = []
codes (String.◌∷◌ c s) = code c ∷ codes s

-- `t.startswith(p)`, with what follows the prefix.
unfoldable pub strip_prefix : Text → Text → Option Text
strip_prefix [] t = some t
strip_prefix (a ∷ p) [] = none
strip_prefix (a ∷ p) (c ∷ t) = let rest = strip_prefix p t in if a == c then rest else none

abbrev pub is_some {ℓ} : {A : Type ℓ} → Option A → Bool
is_some none = false
is_some (some a) = true

abbrev pub starts_with : Text → Text → Bool
starts_with p t = is_some (strip_prefix p t)

-- `c in t`
unfoldable pub has_char : ℕ → Text → Bool
has_char c [] = false
has_char c (d ∷ t) = (d == c) || has_char c t

-- `t.split(c, 1)[0]`
unfoldable pub before_first : ℕ → Text → Text
before_first c [] = []
before_first c (d ∷ t) = let rest = before_first c t in if d == c then [] else d ∷ rest

-- `t.rsplit(c, 1)[0] if c in t else t`
unfoldable pub before_last : ℕ → Text → Text
unfolding has_char
before_last c [] = []
before_last c (d ∷ t) =
    let rest = before_last c t in if has_char c t then d ∷ rest else if d == c then [] else d ∷ t

-- `sep.join(ts)`
unfoldable pub join : Text → List Text → Text
join sep [] = []
join sep (t ∷ []) = t
join sep (t ∷ u ∷ ts) = t ++ (sep ++ join sep (u ∷ ts))

-- `s < t` or `s == t`, the order of code points
unfoldable pub text_le : Text → Text → Bool
text_le [] t = true
text_le (a ∷ s) [] = false
text_le (a ∷ s) (b ∷ t) = ltb a b || ((a == b) && text_le s t)

-- `t.lower()` on ASCII
abbrev pub lower_char : ℕ → ℕ
lower_char c = if leb b'A' c && leb c b'Z' then c + 32 else c

abbrev pub lower : Text → Text
lower = map lower_char

-- `t.endswith(s)`
unfoldable pub ends_with : Text → Text → Bool
unfolding strip_prefix
ends_with s [] = elim s [ [] ↦ true | _ ∷ _ ↦ false ]
ends_with s (c ∷ t) = ends_with s t || elim (strip_prefix s (c ∷ t)) [ some [] ↦ true | _ ↦ false ]

pub strip_prefix-append : (p t : Text) → strip_prefix p (p ++ t) ≡ some t
unfolding strip_prefix
strip_prefix-append [] t = refl
strip_prefix-append (a ∷ p) t = ground (arith, strip_prefix-append p t)

pub strip_prefix_sound : (p t : Text) {r : Text} → strip_prefix p t ≡ some r → t ≡ p ++ r
unfolding strip_prefix
strip_prefix_sound [] t h = ground arith
strip_prefix_sound (a ∷ p) [] h = ground arith
strip_prefix_sound (a ∷ p) (c ∷ t) {r} h = ground (arith, strip_prefix_sound p t {r = r})

-- What stands in front of the first separator is given back by a text built from it.
pub before_first-append :
    (c : ℕ) (s t : Text) → has_char c s ≡ false → before_first c (s ++ c ∷ t) ≡ s
unfolding has_char before_first
before_first-append c [] t h = ground arith
before_first-append c (d ∷ s) t h = ground (arith, before_first-append c s t)

pub text_le-total : (s t : Text) → text_le s t ≡ false → text_le t s ≡ true
unfolding text_le
text_le-total [] t h = cc
text_le-total (a ∷ s) [] h = refl
text_le-total (a ∷ s) (b ∷ t) h = ground (arith, text_le-total s t)

pub text_le_trans : (s t u : Text) → text_le s t ≡ true → text_le t u ≡ true → text_le s u ≡ true
unfolding text_le
text_le_trans [] t u h k = refl
text_le_trans (a ∷ s) [] u h k = cc
text_le_trans (a ∷ s) (b ∷ t) [] h k = cc
text_le_trans (a ∷ s) (b ∷ t) (c ∷ u) h k = ground (arith, text_le_trans s t u)
